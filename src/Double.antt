-- ===== src/Double.antt =====
-- What the C code does with a `double` or a `float` of type `W`. The arithmetic is the machine's, so it
-- is a parameter of the definitions that use it.
use numark_ns6_mac_arm.Prelude.{ℕ, Bool}
use numark_ns6_mac_arm.Prelude.Int.{ℤ}

pub record Double (W : Type 0) : Type 0 where
  pub of_int : ℤ → W  -- a cast from an integer
  pub half : W  -- 0.5
  pub three_halves : W  -- 1.5
  pub add : W → W → W
  pub sub : W → W → W
  pub mul : W → W → W
  pub less : W → W → Bool  -- `<`
  pub is_finite : W → Bool
  pub whole : W → ℕ  -- the cast to uint64_t
  pub round : W → ℤ  -- lrint, lrintf
