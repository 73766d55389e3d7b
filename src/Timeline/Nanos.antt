-- ===== src/Timeline/Nanos.antt =====
-- Sample times (coreaudio/NS6SampleTimeline.h) are exact.
use native.Mathlib.Decide.{ℕ_discrete}
use native.Mathlib.Nat.{
  mod-lt, mul_right_comm, add-mul, div-add-mod', mul-add-div_right, mul-le-mul, div-le_self,
  le-div_iff_mul-le,
}
use numark_ns6_mac_arm.Prelude.{
  ℕ, ◌+◌, ◌-◌, ◌*◌, ◌/◌, ◌%◌, ◌^◌, ◌≤◌, ◌<◌, ◌≡◌, sym, ap, ◌∙◌, ◌↔◌, false, ◌||◌, none, some, arith,
  if◌then◌else◌, leb, ◌==◌,
}
use numark_ns6_mac_arm.Prelude.Words.{u64_max}
use numark_ns6_mac_arm.Timeline.{nanos_per_second, sample_time_from_nanos}

-- The frames of whole seconds and of the rest add up.
split_seconds :
    (n rate unit : ℕ) → 0 < unit → n / unit * rate + n % unit * rate / unit ≡ n * rate / unit
split_seconds n rate unit some_unit =
    let whole : n / unit * rate * unit + n % unit * rate ≡ n * rate =
      ap (λ k. k + n % unit * rate) (mul_right_comm (n / unit) rate unit)
      ∙ sym (add-mul (n / unit * unit) (n % unit) rate)
      ∙ ap (λ k. k * rate) (div-add-mod' n unit) in
    sym (mul-add-div_right {m = unit} some_unit (n / unit * rate) (n % unit * rate))
    ∙ ap (λ k. k / unit) whole

-- The number of frames in that many nanoseconds, rounded down, exactly if there is a rate and the number is
-- a uint64_t; no step on the way overflows.
pub sample_time_from_nanos_lem :
    (nanoseconds sample_rate : ℕ)
    → sample_rate < 2 ^ 32
    → let frames = nanoseconds * sample_rate / nanos_per_second in
      sample_time_from_nanos nanoseconds sample_rate
      ≡ (if sample_rate == 0 || leb (2 ^ 64) frames then none else some frames)
unfolding sample_time_from_nanos
sample_time_from_nanos_lem n rate small = elim (ℕ_discrete rate 0) [
  | yes zero_rate ↦ ground arith
  | no some_rate ↦
      let s = n / nanos_per_second in
      let r = n % nanos_per_second in
      let f = r * rate / nanos_per_second in
      let r_lt : r < nanos_per_second = mod-lt n {m = nanos_per_second} (omega arith) in
      let product_le : r * rate ≤ nanos_per_second * 2 ^ 32 =
        mul-le-mul {n₁ = r} {m₁ = rate} {n₂ = nanos_per_second} {m₂ = 2 ^ 32} (omega arith)
          (omega arith) in
      let same : r * rate % 2 ^ 64 ≡ r * rate = omega arith in
      let f_le : f ≤ r * rate = div-le_self (r * rate) nanos_per_second in
      let sum = split_seconds n rate nanos_per_second (omega arith) in
      let room : (s ≤ (u64_max - f) / rate) ↔ (s * rate ≤ u64_max - f) =
        le-div_iff_mul-le {k = rate} {x = s} {y = u64_max - f} (omega arith) in
      let nonzero : (rate == 0) ≡ false = ground arith in
      rw (same, nonzero) (ground (arith, sum, room.0, room.1, f_le, product_le))
]
