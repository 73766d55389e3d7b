-- ===== src/Session/Tests.antt =====
-- The session (coreaudio/NS6DeviceSession.h) with two callbacks: session 5 starts, a callback enters
-- it, and the service waits for it before it starts session 6.
use numark_ns6_mac_arm.Prelude.{ℕ, ◌+◌, ◌≡◌, refl, ◌≢◌, List, [], ◌∷◌, arith, get_or}
use numark_ns6_mac_arm.Session.{
  init, run, Seen, outside, Action, refused, act, start, is_current, begin_step, idle,
  callback_step, DeviceSession, by_callback, running, by_service, max_attempts,
}
use numark_ns6_mac_arm.Session.Invariant.{IsFresh, weight, Admits}
use numark_ns6_mac_arm.Session.Safety.{run-start-Admits, turns_lem, turns}
use numark_ns6_mac_arm.Threads.{inside}

-- What is seen, of the session and the callbacks inside.
abbrev sees : ℕ → ℕ → Seen
sees id callbacks = record { active_seen = id; callbacks_seen = callbacks }

abbrev script : List Action
script =
    by_service 5 (sees 0 0)
    ∷ by_service 5 (sees 0 0)
    ∷ by_service 5 (sees 0 0)
    ∷ by_callback 0 5 (sees 5 0)
    ∷ by_callback 0 5 (sees 5 1)
    ∷ by_service 6 (sees 5 1)
    ∷ by_service 6 (sees 0 1)
    ∷ by_callback 1 5 (sees 0 1)
    ∷ by_callback 1 5 (sees 0 2)
    ∷ []

script-IsFresh : IsFresh (start 2) script
unfolding start act callback_step begin_step init is_current
script-IsFresh = (refl, (refl, (refl, (refl, (refl, (refl, (refl, (refl, (refl, tt)))))))))

-- A load of an older value in each thread, which acquire and release order allow: the callback sees the
-- session that `begin` has taken away, and `begin` the counter as it was before the callback came in.
abbrev stale_script : List Action
stale_script =
    by_service 5 (sees 0 0)
    ∷ by_service 5 (sees 0 0)
    ∷ by_service 5 (sees 0 0)
    ∷ by_callback 0 5 (sees 5 0)
    ∷ by_service 6 (sees 5 1)
    ∷ by_callback 0 5 (sees 5 1)
    ∷ by_service 6 (sees 0 0)
    ∷ by_service 6 (sees 0 0)
    ∷ []

stale_callback :
    ((run (start 2) stale_script).session.active_id ≡ 6)
    × (get_or (run (start 2) stale_script).callbacks 0 outside ≡ running 5)
unfolding run start act callback_step begin_step init is_current
stale_callback = (refl, refl)

first_runs : get_or (run (start 2) script).callbacks 0 outside ≡ running 5
unfolding run start act callback_step begin_step init is_current
first_runs = refl

second_is_refused : get_or (run (start 2) script).callbacks 1 outside ≡ refused
unfolding run start act callback_step begin_step init is_current
second_is_refused = refl

run-start-Admits_example :
    let s = run (start 2) script in
    (s.session.callbacks_in_flight ≡ inside weight s.callbacks)
    × (get_or s.callbacks 0 outside ≡ running 5 → Admits s.starter s.session.active_id 5)
run-start-Admits_example = run-start-Admits 2 script 0 5 (omega arith) script-IsFresh

abbrev busy : DeviceSession
busy = record { active_id = 5; callbacks_in_flight = 1 }

turns_lem_example :
    (busy.callbacks_in_flight ≢ 0 → turns busy idle 6 (max_attempts + 2) ≡ (busy, idle))
    × (busy.callbacks_in_flight ≡ 0 → turns busy idle 6 3 ≡ (record busy { active_id = 6 }, idle))
turns_lem_example = turns_lem busy 6 (max_attempts + 2) (λ e. absurd (omega arith)) refl
