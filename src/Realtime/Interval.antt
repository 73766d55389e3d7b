-- ===== src/Realtime/Interval.antt =====
-- The life of a work interval (coreaudio/NS6USBRealtime.h), and the deadlines of its rounds.
use native.Mathlib.Nat.{mod-lt, div-add-mod', mul-le-mul_right}
use numark_ns6_mac_arm.Prelude.{
  ℕ, ◌+◌, ◌-◌, ◌*◌, ◌/◌, ◌%◌, ◌≤◌, ◌<◌, ◌≡◌, refl, ◌⊎◌, inl, inr, Bool, true, false, ◌||◌, List, [],
  ◌∷◌, arith, Bool-cases, if◌then◌else◌, ltb, ◌==◌,
}
use numark_ns6_mac_arm.Prelude.Words.{u64_max}
use numark_ns6_mac_arm.Realtime.{
  interval_begin, interval_destroy, duration_ticks, State, no_interval, leave_group, interval_init,
  interval_finish,
}

abbrev pub one_if : Bool → ℕ
one_if b = if b then 1 else 0

-- The system holds what the thread knows of.
pub record IsHeld (s : State) : Type 0 where
  pub references : s.group.references ≡ one_if s.interval_state.interval
  pub joins : s.group.joins ≡ one_if s.interval_state.joined
  pub opened : s.group.starts ≡ s.group.finishes + one_if s.interval_state.active
  pub joined_interval : s.interval_state.joined ≡ s.interval_state.interval
  pub active_joined : s.interval_state.active ≡ true → s.interval_state.joined ≡ true

-- A round of the thread: the interval begins, or ends, with the answer of the system.
pub data Round : Type 0 where
  begins : ℕ → ℕ → Bool → Round
  ends : Bool → Round

unfoldable pub rounds : State → List Round → State
unfolding interval_begin interval_finish
rounds s [] = s
rounds s (begins start deadline starts ∷ rs) = rounds (interval_begin start deadline starts s).1 rs
rounds s (ends success ∷ rs) = rounds (interval_finish success s).1 rs

interval_begin-IsHeld :
    (start deadline : ℕ) (starts : Bool) (s : State)
    → IsHeld s
    → IsHeld (interval_begin start deadline starts s).1
unfolding interval_begin
interval_begin-IsHeld start deadline starts s v = ground arith

interval_finish-IsHeld :
    (success : Bool) (s : State) → IsHeld s → IsHeld (interval_finish success s).1
unfolding interval_finish
interval_finish-IsHeld success s v = ground arith

rounds-IsHeld : (s : State) (rs : List Round) → IsHeld s → IsHeld (rounds s rs)
unfolding rounds
rounds-IsHeld s [] v = v
rounds-IsHeld s (begins start deadline starts ∷ rs) v =
    rounds-IsHeld (interval_begin start deadline starts s).1 rs
      (interval_begin-IsHeld start deadline starts s v)
rounds-IsHeld s (ends success ∷ rs) v =
    rounds-IsHeld (interval_finish success s).1 rs (interval_finish-IsHeld success s v)

abbrev pub idle_state : State
idle_state = record {
  interval_state = no_interval;
  group = record { references = 0; joins = 0; starts = 0; finishes = 0 };
}

interval_init-IsHeld :
    (created joins_it : Bool) → IsHeld (interval_init created joins_it idle_state).1
unfolding interval_init
interval_init-IsHeld created joins_it = ground arith

-- The thread knows of nothing, and the system holds nothing for it.
pub record IsReleased (s : State) : Type 0 where
  pub forgotten : s.interval_state ≡ no_interval
  pub no_references : s.group.references ≡ 0
  pub no_joins : s.group.joins ≡ 0
  pub all_finished : s.group.starts ≡ s.group.finishes

interval_destroy-IsReleased :
    (success : Bool) (s : State) → IsHeld s → IsReleased (interval_destroy success s)
unfolding interval_destroy interval_finish leave_group
interval_destroy-IsReleased success s v = ground arith

-- However a thread starts, begins and ends its intervals, and however the system answers to each of the calls,
-- the system holds one reference and one join exactly while there is an interval, and a call to finish
-- has been made for every interval that was started, but one while the interval is active; at the end
-- no reference and no join is left, and every interval that was started has had its call.
pub rounds_lem :
    (created joins_it success : Bool) (rs : List Round)
    → let s = rounds (interval_init created joins_it idle_state).1 rs in
      IsHeld s × IsReleased (interval_destroy success s)
rounds_lem created joins_it success rs =
    let v =
      rounds-IsHeld (interval_init created joins_it idle_state).1 rs
        (interval_init-IsHeld created joins_it) in
    (
      v,
      interval_destroy-IsReleased success (rounds (interval_init created joins_it idle_state).1 rs)
          v,
    )

-- With a time base, a duration lasts the fewest ticks that are not shorter, unless they do not fit into 64
-- bits, where it lasts UINT64_MAX.
pub duration_ticks_lem :
    (duration_ns numer denom : ℕ)
    → 0 < numer
    → 0 < denom
    → let t = duration_ticks duration_ns numer denom in
      ((t ≡ u64_max) × (u64_max * numer < duration_ns * denom + numer))
      ⊎ ((duration_ns * denom ≤ t * numer) × (t * numer < duration_ns * denom + numer))
unfolding duration_ticks
duration_ticks_lem d numer denom some_numer some_denom =
    let x = d * denom + numer - 1 in
    let split = div-add-mod' x numer in
    let small : x % numer < numer = mod-lt x {m = numer} some_numer in
    let based : (numer == 0 || denom == 0) ≡ false = ground arith in
    rw based (elim (Bool-cases (ltb u64_max (x / numer))) [
      | inl over ↦
          let more : u64_max ≤ x / numer = ground arith in
          let product : u64_max * numer ≤ x / numer * numer = mul-le-mul_right numer more in
          rw over (inl (refl, omega (arith, split, product)))
      | inr fits ↦ rw fits (inr (omega (arith, split, small), omega (arith, split)))
    ])
