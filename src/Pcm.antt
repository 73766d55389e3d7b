-- ===== src/Pcm.antt =====
-- Samples as the device takes them (coreaudio/NS6Transport.c): 24-bit little-endian integers, four to a
-- frame, and how CoreAudio's samples become such. An int32_t is an integer; its bytes are those of its
-- bit pattern. A byte is a number below 256.
use numark_ns6_mac_arm.Double.{Double}
use numark_ns6_mac_arm.Prelude.{
  ℕ, zero, suc, ◌+◌, ◌-◌, ◌*◌, ◌/◌, ◌%◌, ◌^◌, Bool, false, not, ◌&&◌, ◌||◌, List, [], ◌∷◌,
  if◌then◌else◌, ltb, ◌==◌, drop, get_or, take,
}
use numark_ns6_mac_arm.Prelude.Int.{pos, ltb_ℤ, ℤ, negsuc, ◌+ℤ◌}
pub mod Mixing
pub mod Level
pub mod Lanes
mod Tests

-- The three bytes of a sample.
pub record Pcm24 : Type 0 where
  pub low : ℕ
  pub mid : ℕ
  pub high : ℕ

-- The 32-bit pattern of an int32_t.
unfoldable pub pattern32 : ℤ → ℕ
pattern32 (pos n) = n % 2 ^ 32
pattern32 (negsuc n) = 2 ^ 32 - 1 - n % 2 ^ 32

unfoldable pub pack24 : ℤ → Pcm24
unfolding pattern32
pack24 sample =
    let w = pattern32 sample in
    record { low = w % 256; mid = w / 2 ^ 8 % 256; high = w / 2 ^ 16 % 256 }

unfoldable pub unpack24 : Pcm24 → ℤ
unpack24 p =
    let u = p.low + p.mid * 2 ^ 8 + p.high * 2 ^ 16 in
    if ltb p.high 128 then pos u else negsuc (2 ^ 24 - 1 - u)

unfoldable pub saturate24 : ℤ → ℤ
saturate24 value =
    if ltb_ℤ (pos 8388607) value
    then pos 8388607
    else if ltb_ℤ value (negsuc 8388607)
    then negsuc 8388607
    else value

abbrev pub channels : ℕ
channels = 4

-- The fields of AudioStreamBasicDescription that the code reads, with the flag for floats as a Boolean.
pub record Format : Type 0 where
  pub channels_per_frame : ℕ
  pub bytes_per_frame : ℕ
  pub bits_per_channel : ℕ
  pub is_float : Bool

unfoldable pub valid_format : Format → Bool
valid_format f =
    if not (f.channels_per_frame == channels)
      || f.bytes_per_frame == 0
      || not (f.bytes_per_frame % channels == 0)
    then false
    else let bytes = f.bytes_per_frame / channels in
      if f.is_float
      then f.bits_per_channel == 32 && bytes == 4
      else (f.bits_per_channel == 24 && bytes == 3) || (f.bits_per_channel == 32 && bytes == 4)

-- The bytes of an int32_t, lowest first.
abbrev pub pattern_of : List ℕ → ℕ → ℕ
pattern_of bytes zero = 0
pattern_of bytes (suc n) = get_or bytes 0 0 + 2 ^ 8 * pattern_of (drop 1 bytes) n

-- `value >> 8`, of the int32_t with this pattern.
unfoldable pub shift_right_8 : ℕ → ℤ
shift_right_8 w = if ltb w (2 ^ 31) then pos (w / 2 ^ 8) else negsuc ((2 ^ 32 - 1 - w) / 2 ^ 8)

module _ {W : Type 0} (d : Double W) (float_of_bytes : List ℕ → W) where
  unfoldable pub float_sample : W → ℤ
  float_sample value =
      let zero_of_invalid = if d.is_finite value then value else d.of_int (pos 0) in
      let at_most_one =
        if d.less (d.of_int (pos 1)) zero_of_invalid then d.of_int (pos 1) else zero_of_invalid in
      let clamped =
        if d.less at_most_one (d.of_int (negsuc 0)) then d.of_int (negsuc 0) else at_most_one in
      d.round (d.mul clamped (d.of_int (pos 8388607)))

  -- A sample at the start of these bytes.
  unfoldable pub convert_sample : Format → List ℕ → ℤ
  unfolding float_sample
  convert_sample f bytes =
      if f.is_float
      then float_sample (float_of_bytes (take 4 bytes))
      else if f.bits_per_channel == 24
      then unpack24
          (record { low = get_or bytes 0 0; mid = get_or bytes 1 0; high = get_or bytes 2 0 })
      else shift_right_8 (pattern_of bytes 4)

  -- The loops of `convert_frame`, with `n` channels left.
  unfoldable pub convert_channels : Format → List ℕ → ℕ → List Pcm24
  unfolding convert_sample pack24
  convert_channels f bytes zero = []
  convert_channels f bytes (suc n) =
      pack24 (convert_sample f bytes)
      ∷ convert_channels f (drop (f.bytes_per_frame / channels) bytes) n

  unfoldable pub convert_frame : Format → List ℕ → List Pcm24
  unfolding convert_channels
  convert_frame f bytes = convert_channels f bytes channels

  -- The first `count` frames of the input.
  unfoldable pub convert_frames : Format → List ℕ → ℕ → List (List Pcm24)
  unfolding convert_frame
  convert_frames f bytes zero = []
  convert_frames f bytes (suc count) =
      convert_frame f bytes ∷ convert_frames f (drop f.bytes_per_frame bytes) count

-- The sum of two samples, in the loop of `ns6_transport_mix_at_shared`.
unfoldable pub mix_sample : Pcm24 → Pcm24 → Pcm24
unfolding pack24 saturate24 unpack24 ◌+ℤ◌
mix_sample old new = pack24 (saturate24 (unpack24 old +ℤ unpack24 new))

unfoldable pub mix_frame : List Pcm24 → List Pcm24 → List Pcm24
mix_frame (a ∷ xs) (b ∷ ys) = mix_sample a b ∷ mix_frame xs ys
mix_frame old [] = old
mix_frame [] (b ∷ ys) = []

module _ {W : Type 0} (d : Double W) where
  unfoldable pub interpolate_sample : Pcm24 → Pcm24 → W → Pcm24
  interpolate_sample first second fraction =
      let a = d.of_int (unpack24 first) in
      let b = d.of_int (unpack24 second) in
      let value = d.add a (d.mul (d.sub b a) fraction) in
      let most = d.of_int (pos 8388607) in
      let least = d.of_int (negsuc 8388607) in
      let at_most = if d.less most value then most else value in
      pack24 (d.round (if d.less at_most least then least else at_most))

  unfoldable pub interpolate_frame : List Pcm24 → List Pcm24 → W → List Pcm24
  unfolding interpolate_sample
  interpolate_frame (a ∷ xs) (b ∷ ys) fraction =
      interpolate_sample a b fraction ∷ interpolate_frame xs ys fraction
  interpolate_frame [] ys fraction = []
  interpolate_frame (a ∷ xs) [] fraction = []
