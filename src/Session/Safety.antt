-- ===== src/Session/Safety.antt =====
-- A session starts only when no callback of another one runs (coreaudio/NS6DeviceSession.h).
use mathlib.Core.Path.{subst}
use numark_ns6_mac_arm.Prelude.{
  ℕ, zero, suc, ◌+◌, ◌-◌, ◌^◌, ◌<◌, ◌≡◌, ap, ◌∙◌, ◌≢◌, List, arith, Every-get_or, get_or,
}
use numark_ns6_mac_arm.Session.{
  latest, run, outside, Action, start, begin_step, idle, DeviceSession, Callback, Starter, waiting,
  running, max_attempts,
}
use numark_ns6_mac_arm.Session.Invariant.{Fits, IsFresh, run-IsSafe, weight, start-IsSafe, Admits}
use numark_ns6_mac_arm.Threads.{inside}

fitting_id :
    (b : Starter) (active id : ℕ) (c : Callback)
    → Fits b active c
    → c ≡ running id
    → Admits b active id
fitting_id b active id c f e = subst (λ x. Fits b active x) e f

-- In a run whose loads return what was written last, however the callbacks and the service interleave: the counter
-- counts the threads inside, and a callback runs only for the active session or, while `begin` waits, for the one
-- that was active before. So when `begin` has stored a new session no callback of an earlier one is running.
-- Acquire and release order alone allow other runs, of which nothing is said here.
pub run-start-Admits :
    (n : ℕ) (actions : List Action) (i id : ℕ)
    → n < 2 ^ 32
    → IsFresh (start n) actions
    → let s = run (start n) actions in
      (s.session.callbacks_in_flight ≡ inside weight s.callbacks)
      × (get_or s.callbacks i outside ≡ running id → Admits s.starter s.session.active_id id)
run-start-Admits n actions i id lt fresh =
    let s = run (start n) actions in
    let v = run-IsSafe (start n) actions fresh (start-IsSafe n lt) in
    let fits : Fits s.starter s.session.active_id (get_or s.callbacks i outside) =
      Every-get_or _ s.callbacks i outside v.fit tt in
    (v.count, fitting_id s.starter s.session.active_id id (get_or s.callbacks i outside) fits)

-- What `begin` does alone, with `fuel` accesses, each seeing what was written last.
unfoldable pub turns : DeviceSession → Starter → ℕ → ℕ → DeviceSession × Starter
turns d b id zero = (d, b)
turns d b id (suc fuel) =
    turns (begin_step d b id (latest d)).0 (begin_step d b id (latest d)).1 id fuel

turn_waits :
    (d : DeviceSession) (own previous attempt id : ℕ)
    → d.callbacks_in_flight ≢ 0
    → attempt < max_attempts
    → begin_step d (waiting own previous attempt) id (latest d)
      ≡ (d, waiting own previous (attempt + 1))
unfolding begin_step
turn_waits d own previous attempt id ne lt = ground arith

turn_gives_up :
    (d : DeviceSession) (own previous attempt id : ℕ)
    → attempt ≡ max_attempts
    → begin_step d (waiting own previous attempt) id (latest d)
      ≡ (record d { active_id = previous }, idle)
unfolding begin_step
turn_gives_up d own previous attempt id e = ground arith

-- The loop with `left` attempts left, over callbacks that do not leave.
waits :
    (d : DeviceSession) (own previous id left attempt : ℕ)
    → d.callbacks_in_flight ≢ 0
    → attempt + left ≡ max_attempts
    → turns d (waiting own previous attempt) id (suc left)
      ≡ (record d { active_id = previous }, idle)
unfolding turns
waits d own previous id zero attempt ne e = turn_gives_up d own previous attempt id (omega arith)
waits d own previous id (suc left) attempt ne e =
    ap (λ (r : DeviceSession × Starter). turns r.0 r.1 id (suc left))
      (turn_waits d own previous attempt id ne (omega arith))
    ∙ waits d own previous id left (attempt + 1) ne (omega arith)

turn_begins :
    (d : DeviceSession) (id : ℕ)
    → id ≢ 0
    → begin_step d idle id (latest d) ≡ (record d { active_id = 0 }, waiting id d.active_id 0)
unfolding begin_step
turn_begins d id ne = ground arith

gives_up :
    (d : DeviceSession) (id n : ℕ)
    → id ≢ 0
    → n ≡ max_attempts
    → d.callbacks_in_flight ≢ 0
    → turns d idle id (suc (suc n)) ≡ (d, idle)
unfolding turns
gives_up d id n ne e inside_some =
    ap (λ (r : DeviceSession × Starter). turns r.0 r.1 id (suc n)) (turn_begins d id ne)
    ∙ waits (record d { active_id = 0 }) id d.active_id id n 0 inside_some (omega (arith, e))

starts :
    (d : DeviceSession) (id : ℕ)
    → id ≢ 0
    → d.callbacks_in_flight ≡ 0
    → turns d idle id 3 ≡ (record d { active_id = id }, idle)
unfolding turns begin_step
starts d id ne e = ground arith

-- Alone, `begin` comes to an end. While a callback never leaves it gives up after its 100000 attempts,
-- and the session that was active is active again; when none is inside, the third access has started
-- the new session.
pub turns_lem :
    (d : DeviceSession) (id n : ℕ)
    → id ≢ 0
    → n ≡ max_attempts + 2
    → (d.callbacks_in_flight ≢ 0 → turns d idle id n ≡ (d, idle))
      × (d.callbacks_in_flight ≡ 0 → turns d idle id 3 ≡ (record d { active_id = id }, idle))
turns_lem d id n ne e =
    let split : suc (suc (n - 2)) ≡ n = omega (arith, e) in
    (
      (λ some_in.
          subst (λ k. turns d idle id k ≡ (d, idle)) split
            (gives_up d id (n - 2) ne (omega (arith, e)) some_in)),
      starts d id ne,
    )
