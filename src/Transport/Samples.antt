-- ===== src/Transport/Samples.antt =====
-- What the USB worker gets from the playback ring, with the interpolation of the code
-- (coreaudio/NS6Transport.c).
-- Doubles are exact on what three bytes hold.
use numark_ns6_mac_arm.Double.{Double}
use numark_ns6_mac_arm.Pcm.{Pcm24}
use numark_ns6_mac_arm.Pcm.Mixing.{InRange, IsPcm}
use numark_ns6_mac_arm.Prelude.{◌≡◌, false, List, Every}
use numark_ns6_mac_arm.Prelude.Int.{ℤ, negsuc, pos}

pub record IsExactSample {W : Type 0} (d : Double W) : Type 0 where
  pub sub_self : (v : ℤ) → InRange v → d.sub (d.of_int v) (d.of_int v) ≡ d.of_int (pos 0)
  pub mul_zero : d.mul (d.of_int (pos 0)) (d.of_int (pos 0)) ≡ d.of_int (pos 0)
  pub add_zero : (v : ℤ) → InRange v → d.add (d.of_int v) (d.of_int (pos 0)) ≡ d.of_int v
  pub at_most : (v : ℤ) → InRange v → d.less (d.of_int (pos 8388607)) (d.of_int v) ≡ false
  pub at_least : (v : ℤ) → InRange v → d.less (d.of_int v) (d.of_int (negsuc 8388607)) ≡ false
  pub round_int : (v : ℤ) → InRange v → d.round (d.of_int v) ≡ v

-- A frame of samples of three bytes each.
abbrev pub IsFrame : List Pcm24 → Type 0
IsFrame frame = Every IsPcm frame
