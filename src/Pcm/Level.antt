-- ===== src/Pcm/Level.antt =====
-- The level of a block of packets (coreaudio/NS6PCMLevel.h), and the blocks that are sent when there is
-- nothing to play (coreaudio/NS6IdlePCM.h). A pointer is never NULL.
use numark_ns6_mac_arm.Prelude.{
  ℕ, zero, suc, ◌+◌, ◌-◌, ◌*◌, ◌/◌, ◌%◌, ◌^◌, ◌<◌, ◌≡◌, refl, ap, ap₂, ◌∙◌, Bool, true, false, not,
  ◌&&◌, ◌||◌, List, [], ◌∷◌, ◌++◌, arith, if◌then◌else◌, ltb, ◌==◌, drop, get_or, replicate, set,
}
use numark_ns6_mac_arm.Prelude.Int.{pos, ℤ, negsuc}
use numark_ns6_mac_arm.Prelude.Words.{add64}

pub record PcmLevel : Type 0 where
  pub peak : List ℕ
  pub nonzero_frames : ℕ

abbrev pub no_level : PcmLevel
no_level = record { peak = 0 ∷ 0 ∷ 0 ∷ 0 ∷ []; nonzero_frames = 0 }

-- The three bytes in front of these, as one number.
abbrev pub raw_sample : List ℕ → ℕ
raw_sample bytes = get_or bytes 0 0 + get_or bytes 1 0 * 2 ^ 8 + get_or bytes 2 0 * 2 ^ 16

-- `raw & 0x7fffff`, less 0x800000 if that bit is set.
unfoldable pub sample_value : ℕ → ℤ
sample_value raw =
    if raw / 2 ^ 23 % 2 == 0 then pos (raw % 2 ^ 23) else negsuc (2 ^ 23 - 1 - raw % 2 ^ 23)

abbrev pub magnitude : ℤ → ℕ
magnitude (pos n) = n
magnitude (negsuc n) = n + 1

-- The loop over the channels, with the peaks of those that are left: the new peaks, and whether a sample
-- was not zero.
unfoldable pub measure_channels : List ℕ → List ℕ → List ℕ × Bool
unfolding sample_value
measure_channels bytes [] = ([], false)
measure_channels bytes (p ∷ ps) =
    let value = magnitude (sample_value (raw_sample bytes)) in
    let (peaks, nonzero) = measure_channels (drop 3 bytes) ps in
    ((if ltb p value then value else p) ∷ peaks, not (value == 0) || nonzero)

unfoldable pub measure_frame : PcmLevel → List ℕ → PcmLevel
unfolding measure_channels
measure_frame level bytes =
    let (peaks, nonzero) = measure_channels bytes level.peak in
    record { peak = peaks; nonzero_frames = add64 level.nonzero_frames (if nonzero then 1 else 0) }

-- The loop over the frames.
unfoldable pub measure_from : PcmLevel → List ℕ → ℕ → PcmLevel
unfolding measure_frame
measure_from level pcm zero = level
measure_from level pcm (suc frames) = measure_from (measure_frame level pcm) (drop 12 pcm) frames

-- `ns6_pcm24_measure`
unfoldable pub measure : List ℕ → ℕ → PcmLevel
unfolding measure_from
measure pcm frames = measure_from no_level pcm frames

-- The 12 bytes of a frame: zeros, and 1 in the lowest byte of each channel to keep the device alive.
unfoldable pub idle_frame : Bool → List ℕ
idle_frame keep_alive =
    let silence = replicate 12 0 in
    if keep_alive then set (set (set (set silence 0 1) 3 1) 6 1) 9 1 else silence

-- What `ns6_fill_idle_pcm` leaves in the buffer; its frames do not overlap.
unfoldable pub idle_pcm : ℕ → Bool → List ℕ
unfolding idle_frame
idle_pcm zero keep_alive = []
idle_pcm (suc frames) keep_alive = idle_frame keep_alive ++ idle_pcm frames keep_alive

-- The level of so many frames of an idle block.
abbrev pub idle_level : ℕ → Bool → PcmLevel
idle_level zero keep_alive = no_level
idle_level (suc n) true = record { peak = 1 ∷ 1 ∷ 1 ∷ 1 ∷ []; nonzero_frames = suc n }
idle_level (suc n) false = no_level

measure_idle_frame :
    (n : ℕ) (keep_alive : Bool) (rest : List ℕ)
    → n + 1 < 2 ^ 64
    → measure_frame (idle_level n keep_alive) (idle_frame keep_alive ++ rest)
      ≡ idle_level (suc n) keep_alive
unfolding measure_frame measure_channels sample_value idle_frame
measure_idle_frame zero true rest small = refl
measure_idle_frame zero false rest small = refl
measure_idle_frame (suc n) true rest small =
    ap (λ k. record { peak = 1 ∷ 1 ∷ 1 ∷ 1 ∷ []; nonzero_frames = k }) (omega arith)
measure_idle_frame (suc n) false rest small = refl

drop-idle_frame :
    (keep_alive : Bool) (rest : List ℕ) → drop 12 (idle_frame keep_alive ++ rest) ≡ rest
unfolding idle_frame
drop-idle_frame true rest = refl
drop-idle_frame false rest = refl

measure_idle_from :
    (frames n : ℕ) (keep_alive : Bool)
    → n + frames < 2 ^ 64
    → measure_from (idle_level n keep_alive) (idle_pcm frames keep_alive) frames
      ≡ idle_level (n + frames) keep_alive
unfolding measure_from idle_pcm
measure_idle_from zero n keep_alive small = ap (λ k. idle_level k keep_alive) (omega arith)
measure_idle_from (suc frames) n keep_alive small =
    let rest = idle_pcm frames keep_alive in
    ap₂ (λ level pcm. measure_from level pcm frames)
      (measure_idle_frame n keep_alive rest (omega arith)) (drop-idle_frame keep_alive rest)
    ∙ measure_idle_from frames (suc n) keep_alive (omega arith)
    ∙ ap (λ k. idle_level k keep_alive) (omega arith)

idle_at :
    (n : ℕ)
    → idle_level (0 + suc n) true ≡ record { peak = 1 ∷ 1 ∷ 1 ∷ 1 ∷ []; nonzero_frames = suc n }
idle_at n = let e : 0 + suc n ≡ suc n = omega arith in ap (λ k. idle_level k true) e

silent_at : (n : ℕ) → idle_level (0 + suc n) false ≡ no_level
silent_at n = let e : 0 + suc n ≡ suc n = omega arith in ap (λ k. idle_level k false) e

-- An idle block to keep the device alive measures a peak of 1 on all four channels, in every frame; a block
-- of silence, or of no frame, measures nothing.
pub measure-idle_pcm :
    (frames : ℕ) (keep_alive : Bool)
    → frames < 2 ^ 32
    → measure (idle_pcm frames keep_alive) frames ≡ (
        if keep_alive && ltb 0 frames
        then record { peak = 1 ∷ 1 ∷ 1 ∷ 1 ∷ []; nonzero_frames = frames }
        else record { peak = 0 ∷ 0 ∷ 0 ∷ 0 ∷ []; nonzero_frames = 0 })
unfolding measure
measure-idle_pcm zero true small = measure_idle_from 0 0 true (omega arith)
measure-idle_pcm zero false small = measure_idle_from 0 0 false (omega arith)
measure-idle_pcm (suc frames) true small =
    let some_frames : ltb 0 (suc frames) ≡ true = ground arith in
    rw some_frames (measure_idle_from (suc frames) 0 true (omega arith) ∙ idle_at frames)
measure-idle_pcm (suc frames) false small =
    measure_idle_from (suc frames) 0 false (omega arith) ∙ silent_at frames
