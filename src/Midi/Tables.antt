-- ===== src/Midi/Tables.antt =====
-- Laws of the masks of the four MIDI reads (coreaudio/NS6MIDIRecovery.h,
-- coreaudio/NS6MIDIReadLifecycle.h) by tables over the masks and slots.
use numark_ns6_mac_arm.Prelude.{
  ℕ, zero, suc, ◌+◌, ◌/◌, ◌%◌, ◌^◌, ◌<◌, ◌≡◌, refl, sym, ap, ◌∙◌, Bool, true, false, not, arith,
  if◌then◌else◌, ◌==◌,
}

-- Whether a slot is in the mask.
unfoldable pub has : ℕ → ℕ → Bool
has mask slot = (mask / 2 ^ slot) % 2 == 1

-- Whether a law holds of the `count` numbers from `start` on.
unfoldable pub holds_from : ℕ → ℕ → (ℕ → Bool) → Bool
holds_from start zero law = true
holds_from start (suc count) law = if law start then holds_from (start + 1) count law else false

holds_from-index :
    (start count : ℕ) (law : ℕ → Bool)
    → holds_from start count law ≡ true
    → (k : ℕ) → k < count
    → law (start + k) ≡ true
unfolding holds_from
holds_from-index start zero law all k lt = absurd (omega arith)
holds_from-index start (suc count) law all zero lt =
    let first : start + 0 ≡ start = omega arith in rw first (ground arith)
holds_from-index start (suc count) law all (suc k) lt =
    let later : start + suc k ≡ start + 1 + k = omega arith in
    rw later (holds_from-index (start + 1) count law (ground arith) k (omega arith))

pub each_of :
    (count : ℕ) (law : ℕ → Bool) (k : ℕ) → holds_from 0 count law ≡ true → k < count → law k ≡ true
each_of count law k all lt =
    let same : 0 + k ≡ k = omega arith in ap law (sym same) ∙ holds_from-index 0 count law all k lt

unfoldable pub same : Bool → Bool → Bool
same true b = b
same false b = not b

pub same→≡ : (a b : Bool) → same a b ≡ true → a ≡ b
unfolding same
same→≡ true b h = sym h
same→≡ false true h = cc
same→≡ false false h = refl
