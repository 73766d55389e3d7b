-- ===== src/Pcm/Mixing.antt =====
-- Packing loses nothing, and mixing clamps the sum (coreaudio/NS6Transport.c).
use numark_ns6_mac_arm.Pcm.{mix_sample, saturate24, pack24, pattern32, Pcm24, unpack24}
use numark_ns6_mac_arm.Prelude.{◌<◌, ◌≡◌, ap, ◌∙◌, arith}
use numark_ns6_mac_arm.Prelude.Int.{◌≤ℤ◌, pos, +ℤ_comm, ℤ, negsuc, ◌+ℤ◌}

-- The values that three bytes can hold.
abbrev pub InRange : ℤ → Type 0
InRange v = (negsuc 8388607 ≤ℤ v) × (v ≤ℤ pos 8388607)

abbrev pub IsPcm : Pcm24 → Type 0
IsPcm p = (p.low < 256) × (p.mid < 256) × (p.high < 256)

pub pack24-IsPcm : (v : ℤ) → IsPcm (pack24 v)
unfolding pack24
pack24-IsPcm v = omega arith

pub unpack24-InRange : (p : Pcm24) → IsPcm p → InRange (unpack24 p)
unfolding unpack24
unpack24-InRange p h = ground arith

unpack24-pack24 : (v : ℤ) → InRange v → unpack24 (pack24 v) ≡ v
unfolding unpack24 pack24 pattern32
unpack24-pack24 (pos n) h = ground arith
unpack24-pack24 (negsuc n) h = ground arith

pub pack24-unpack24 : (p : Pcm24) → IsPcm p → pack24 (unpack24 p) ≡ p
unfolding unpack24 pack24 pattern32
pack24-unpack24 p h = ground arith

saturate24-InRange : (v : ℤ) → InRange (saturate24 v)
unfolding saturate24
saturate24-InRange v = ground arith

-- Two samples of three bytes each mix to one whose value is the sum where three bytes can hold it, and
-- otherwise the largest or the smallest value that they can hold; the order does not matter.
pub mix_sample_lem :
    (a b : Pcm24)
    → IsPcm a
    → IsPcm b
    → let sum = unpack24 a +ℤ unpack24 b in
      let v = unpack24 (mix_sample a b) in
      IsPcm (mix_sample a b)
      × (InRange sum → v ≡ sum)
      × (¬ (sum ≤ℤ pos 8388607) → v ≡ pos 8388607)
      × (¬ (negsuc 8388607 ≤ℤ sum) → v ≡ negsuc 8388607)
      × (mix_sample a b ≡ mix_sample b a)
unfolding mix_sample
mix_sample_lem a b ha hb =
    let sum = unpack24 a +ℤ unpack24 b in
    let back = unpack24-pack24 (saturate24 sum) (saturate24-InRange sum) in
    (
      pack24-IsPcm (saturate24 sum),
      (λ h. back ∙ (unfold saturate24 in ground arith)),
      (λ h. back ∙ (unfold saturate24 in ground arith)),
      (λ h. back ∙ (unfold saturate24 in ground arith)),
      ap (λ v. pack24 (saturate24 v)) (+ℤ_comm (unpack24 a) (unpack24 b)),
    )

-- Mixing with silence changes nothing.
mix_sample_silence : (a : Pcm24) → IsPcm a → mix_sample a (pack24 (pos 0)) ≡ a
unfolding mix_sample
mix_sample_silence a h =
    let same : unpack24 a +ℤ unpack24 (pack24 (pos 0)) ≡ unpack24 a =
      unfold ◌+ℤ◌ unpack24 pack24 pattern32 in ground arith in
    let inside = unpack24-InRange a h in
    ap (λ v. pack24 (saturate24 v)) same
    ∙ ap pack24 (unfold saturate24 in ground arith)
    ∙ pack24-unpack24 a h
