-- ===== src/Threads.antt =====
-- Threads that share a counter: each is a state in a list, and the counter says how many of them are
-- inside a section (coreaudio/NS6HALMapping.h, coreaudio/NS6DeviceSession.h).
use numark_ns6_mac_arm.Prelude.{
  ℕ, zero, suc, ◌+◌, ◌-◌, ◌%◌, ◌^◌, ◌≤◌, ◌<◌, ◌≡◌, refl, List, [], ◌∷◌, arith, Every, get_or,
  length, replicate, set,
}

-- `atomic_fetch_add` and `atomic_fetch_sub` of 1 on an atomic_uint.
abbrev pub add_one : ℕ → ℕ
add_one n = (n + 1) % 2 ^ 32

abbrev pub sub_one : ℕ → ℕ
sub_one n = (n + (2 ^ 32 - 1)) % 2 ^ 32

module _ {T : Type 0} where
  -- How many threads are inside.
  abbrev pub inside : (T → ℕ) → List T → ℕ
  inside weight [] = 0
  inside weight (t ∷ ts) = weight t + inside weight ts

  pub inside-set :
      (weight : T → ℕ) (ts : List T) (i : ℕ) (d t : T)
      → i < length ts
      → inside weight (set ts i t) + weight (get_or ts i d) ≡ inside weight ts + weight t
  inside-set weight [] i d t lt = absurd (omega arith)
  inside-set weight (u ∷ ts) zero d t lt = omega arith
  inside-set weight (u ∷ ts) (suc i) d t lt =
      omega (arith, inside-set weight ts i d t (omega arith))

  pub inside_le :
      (weight : T → ℕ) → ((t : T) → weight t ≤ 1) → (ts : List T) → inside weight ts ≤ length ts
  inside_le weight le [] = omega arith
  inside_le weight le (t ∷ ts) = omega (arith, le t, inside_le weight le ts)

  pub inside-replicate :
      (weight : T → ℕ) (n : ℕ) (t : T) → weight t ≡ 0 → inside weight (replicate n t) ≡ 0
  inside-replicate weight zero t out = refl
  inside-replicate weight (suc n) t out = omega (arith, out, inside-replicate weight n t out)

  -- When the counter is 0 every thread is outside.
  pub Every-inside :
      (weight : T → ℕ) (ts : List T) → inside weight ts ≡ 0 → Every (λ t. weight t ≡ 0) ts
  Every-inside weight [] none_in = tt
  Every-inside weight (t ∷ ts) none_in = (omega arith, Every-inside weight ts (omega arith))
