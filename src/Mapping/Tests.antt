-- ===== src/Mapping/Tests.antt =====
-- The mapping (coreaudio/NS6HALMapping.h) with two threads: it is published, the first takes a lease,
-- the owner withdraws it, and the second is refused.
-- What is seen before the mapping is published, with a session, and then with its memory and a number of
-- threads inside.
use numark_ns6_mac_arm.Mapping.{
  outside, withdraw, draining, withdrawn, reader_step, owner_step, publish, by_owner, run,
  by_reader, Seen, start, leased, act, init, Action,
}
use numark_ns6_mac_arm.Mapping.Count.{act-run_drained}
use numark_ns6_mac_arm.Mapping.Invariant.{weight}
use numark_ns6_mac_arm.Mapping.Safety.{memory_of}
use numark_ns6_mac_arm.Prelude.{
  ℕ, ◌≡◌, refl, sym, ◌↔◌, Option, none, some, List, [], ◌∷◌, arith, get_or,
}
use numark_ns6_mac_arm.Threads.{inside}

abbrev at_first : Seen
at_first = record { memory_seen = none; session_seen = 0; readers_seen = 0 }

abbrev with_memory : Option ℕ → ℕ → Seen
with_memory p n = record { memory_seen = p; session_seen = 40; readers_seen = n }

abbrev script : List Action
script =
    by_owner (publish 7 40) at_first
    ∷ by_owner (publish 7 40) (with_memory none 0)
    ∷ by_reader 0 (with_memory (some 7) 0)
    ∷ by_reader 0 (with_memory (some 7) 1)
    ∷ by_reader 0 (with_memory (some 7) 1)
    ∷ by_owner withdraw (with_memory (some 7) 1)
    ∷ by_owner withdraw (with_memory none 1)
    ∷ by_reader 1 (with_memory none 1)
    ∷ by_reader 1 (with_memory none 2)
    ∷ []

first_holds : get_or (run (start 2) script).threads 0 outside ≡ leased 7 40
unfolding run start act reader_step owner_step init
first_holds = refl

owner_waits : (run (start 2) script).owner ≡ draining
unfolding run start act reader_step owner_step init
owner_waits = refl

two_inside : (run (start 2) script).mapping.readers ≡ 2
unfolding run start act reader_step owner_step init
two_inside = refl

-- A load of an older value in each thread, which acquire and release order allow: the thread loads the memory
-- that was there before `withdraw`, and the owner the counter as it was before the thread came in.
abbrev stale_script : List Action
stale_script =
    by_owner (publish 7 40) at_first
    ∷ by_owner (publish 7 40) (with_memory none 0)
    ∷ by_reader 0 (with_memory (some 7) 0)
    ∷ by_owner withdraw (with_memory (some 7) 1)
    ∷ by_reader 0 (with_memory (some 7) 1)
    ∷ by_owner withdraw (with_memory none 0)
    ∷ []

stale_use :
    ((run (start 2) stale_script).owner ≡ withdrawn)
    × (memory_of (get_or (run (start 2) stale_script).threads 0 outside) ≡ some 7)
unfolding run start act reader_step owner_step init
stale_use = (refl, refl)

act-run_drained_example :
    ((act (run (start 2) script) (by_owner withdraw (with_memory none 2))).owner ≡ withdrawn)
    ↔ (inside weight (run (start 2) script).threads ≡ 0)
act-run_drained_example =
    act-run_drained 2 script withdraw (with_memory none 2) (omega arith) owner_waits
      (sym two_inside)
