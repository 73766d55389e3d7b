-- ===== src/Pcm/Lanes.antt =====
-- The samples that the device sends (coreaudio/NS6CaptureDecoder.h): a frame is 64 bytes, and the lowest
-- bits of 24 bytes, the highest first, are the sample of a channel. A pointer is never NULL. The
-- arithmetic of floats is a parameter, as is the constant 1 / 8388608.
use numark_ns6_mac_arm.Double.{Double}
use numark_ns6_mac_arm.Pcm.{Pcm24, unpack24}
use numark_ns6_mac_arm.Pcm.Level.{sample_value}
use numark_ns6_mac_arm.Pcm.Mixing.{IsPcm}
use numark_ns6_mac_arm.Prelude.{
  ℕ, zero, suc, ◌+◌, ◌-◌, ◌*◌, ◌/◌, ◌%◌, ◌^◌, ◌≡◌, not, ◌||◌, List, [], ◌∷◌, arith, if◌then◌else◌,
  ltb, ◌==◌, drop, get_or, length,
}
use numark_ns6_mac_arm.Prelude.Int.{pos, ℤ, negsuc}

abbrev pub source_stride : ℕ
source_stride = 64

-- The loop over the bits of a lane, with `n` left.
unfoldable pub lane_bits : ℕ → List ℕ → ℕ → ℕ
lane_bits value source zero = value
lane_bits value source (suc n) =
    lane_bits (value * 2 % 2 ^ 32 + get_or source 0 0 % 2) (drop 1 source) n

-- A 24-bit number with its sign: `value | 0xff000000` if the bit 0x800000 is set.
unfoldable pub lane_value : ℕ → ℤ
lane_value value =
    if value / 2 ^ 23 % 2 == 0
    then pos value
    else negsuc (2 ^ 32 - 1 - (value % 2 ^ 24 + 0xff000000))

module _ {W : Type 0} (d : Double W) (scale : W) where
  unfoldable pub decode_lane : List ℕ → W
  unfolding lane_bits lane_value
  decode_lane source = d.mul (d.of_int (lane_value (lane_bits 0 source 24))) scale

  -- The loop over the frames, with `frames` left.
  unfoldable pub decode_frames : List ℕ → ℕ → List W
  unfolding decode_lane
  decode_frames source zero = []
  decode_frames source (suc frames) =
      decode_lane source
      ∷ decode_lane (drop 32 source)
      ∷ decode_frames (drop source_stride source) frames

  -- `ns6_capture_decode_block`: the samples of both channels in turn; its result is the number of frames.
  unfoldable pub decode_block : List ℕ → ℕ → List W
  unfolding decode_frames
  decode_block source output_capacity_frames =
      if length source == 0 || not (length source % source_stride == 0)
      then []
      else let frames = length source / source_stride in
        if ltb output_capacity_frames frames then [] else decode_frames source frames

-- The three ways in which the code reads a sample of three bytes, in the playback ring, in the level
-- meter and in the capture decoder, give the same number.
pub decoders_agree :
    (p : Pcm24)
    → IsPcm p
    → let raw = p.low + p.mid * 2 ^ 8 + p.high * 2 ^ 16 in
      (sample_value raw ≡ unpack24 p) × (lane_value raw ≡ unpack24 p)
unfolding sample_value lane_value unpack24
decoders_agree p h = (ground arith, ground arith)
