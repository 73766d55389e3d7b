-- ===== src/Session/Count.antt =====
-- The counter of the session counts its callbacks, whatever the loads return (coreaudio/NS6DeviceSession.h).
use numark_ns6_mac_arm.Prelude.{
  ℕ, ◌+◌, ◌-◌, ◌%◌, ◌^◌, ◌<◌, ◌≡◌, refl, ◌∙◌, inl, inr, List, [], ◌∷◌, arith, Bool-cases, if-cases,
  ltb, ◌==◌, get_or, length, length-set, set,
}
use numark_ns6_mac_arm.Session.{
  System, run, Seen, outside, Action, refused, counted, act, start, is_current, begin_step, idle,
  callback_step, DeviceSession, Callback, Starter, by_callback, waiting, installing, running,
  by_service, max_attempts,
}
use numark_ns6_mac_arm.Session.Invariant.{weight, weight_le, start-IsSafe}
use numark_ns6_mac_arm.Threads.{inside-set, inside, inside_le}

pub record IsCounted (s : System) : Type 0 where
  pub few : length s.callbacks < 2 ^ 32
  pub count : s.session.callbacks_in_flight ≡ inside weight s.callbacks

-- What one access of a callback does to the counter.
callback_step-counts :
    (d : DeviceSession) (c : Callback) (id : ℕ) (seen : Seen)
    → d.callbacks_in_flight < 2 ^ 32
    → (callback_step d c id seen).0.callbacks_in_flight
      ≡ (d.callbacks_in_flight + weight (callback_step d c id seen).1 + (2 ^ 32 - weight c))
        % 2 ^ 32
unfolding callback_step
callback_step-counts d outside id seen lt = elim (Bool-cases (id == 0)) [
  | inl e ↦ rw e (omega arith)
  | inr e ↦ rw e (omega arith)
]
callback_step-counts d (counted own) id seen lt = elim (Bool-cases (is_current seen own)) [
  | inl e ↦ rw e (omega arith)
  | inr e ↦ rw e (omega arith)
]
callback_step-counts d (running own) id seen lt = omega arith
callback_step-counts d refused id seen lt = omega arith

act_callback-IsCounted :
    (s : System) (i id : ℕ) (seen : Seen) → IsCounted s → IsCounted (act s (by_callback i id seen))
unfolding act
act_callback-IsCounted s i id seen v =
    if-cases IsCounted (ltb i (length s.callbacks))
      (λ lt.
        let c = get_or s.callbacks i outside in
        let c' = (callback_step s.session c id seen).1 in
        let total = inside-set weight s.callbacks i outside c' (ground (arith, lt)) in
        let len = length-set s.callbacks i c' in
        let before = inside_le weight weight_le s.callbacks in
        let behind = inside_le weight weight_le (set s.callbacks i c') in
        let one = weight_le c in
        let now =
          callback_step-counts s.session c id seen (omega (arith, before, v.count, v.few)) in
        record {
          few = omega (arith, len, v.few);
          count = omega (arith, total, len, behind, one, now, v.few, v.count);
        })
      (λ ge. v)

begin_step-counts :
    (d : DeviceSession) (b : Starter) (id : ℕ) (seen : Seen)
    → (begin_step d b id seen).0.callbacks_in_flight ≡ d.callbacks_in_flight
unfolding begin_step
begin_step-counts d idle id seen =
    if-cases (λ (r : DeviceSession × Starter). r.0.callbacks_in_flight ≡ d.callbacks_in_flight)
      (id == 0) (λ e. refl) (λ e. refl)
begin_step-counts d (waiting own previous attempt) id seen =
    if-cases (λ (r : DeviceSession × Starter). r.0.callbacks_in_flight ≡ d.callbacks_in_flight)
      (ltb attempt max_attempts) (λ e. refl) (λ e. refl)
begin_step-counts d (installing own) id seen = refl

pub run-IsCounted : (s : System) (actions : List Action) → IsCounted s → IsCounted (run s actions)
unfolding run act
run-IsCounted s [] v = v
run-IsCounted s (by_service id seen ∷ later) v =
    run-IsCounted (act s (by_service id seen)) later
      (record { few = v.few; count = begin_step-counts s.session s.starter id seen ∙ v.count })
run-IsCounted s (by_callback i id seen ∷ later) v =
    run-IsCounted (act s (by_callback i id seen)) later (act_callback-IsCounted s i id seen v)

-- However the callbacks and the service interleave, and whatever, old or new, the loads return, the counter counts
-- the threads that are inside.
pub run-start-counts :
    (n : ℕ) (actions : List Action)
    → n < 2 ^ 32
    → let s = run (start n) actions in s.session.callbacks_in_flight ≡ inside weight s.callbacks
run-start-counts n actions lt =
    let begun = start-IsSafe n lt in
    (run-IsCounted (start n) actions (record { few = begun.few; count = begun.count })).count
