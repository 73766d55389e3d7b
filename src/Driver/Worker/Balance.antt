-- ===== src/Driver/Worker/Balance.antt =====
-- The transfers of the worker are accounted for (numark-ns6/audio-out/AudioOutTransferSlots.cpp,
-- AudioOutWorker.cpp).
use numark_ns6_mac_arm.Driver.Output.{Batch}
use numark_ns6_mac_arm.Driver.Worker.{
  complete_transfer, Slots, find_free, transfer_slots, slot_in_use,
}
use numark_ns6_mac_arm.Prelude.{
  ℕ, zero, suc, ◌+◌, ◌<◌, ◌≡◌, refl, ◌∙◌, inl, inr, Bool, true, false, not, some, List, [], ◌∷◌,
  arith, Bool-cases, if-cases, if◌then◌else◌, get_or, length, length-set, set,
}
use numark_ns6_mac_arm.Threads.{inside, inside-set}

unfoldable pub used_weight : Bool → ℕ
used_weight used = if used then 1 else 0

-- The count of the transfers under way is that of the slots in use.
unfoldable pub IsCounted : Slots → Type 0
unfolding used_weight
IsCounted t =
    (length t.in_use ≡ transfer_slots)
    × (length t.batches ≡ transfer_slots)
    × (t.in_flight ≡ inside used_weight t.in_use)

pub find_free-some :
    (used : List Bool) (k i : ℕ)
    → find_free used k ≡ some i
    → (j : ℕ) × (i ≡ k + j) × (j < length used) × (get_or used j true ≡ false)
unfolding find_free
find_free-some [] k i e = absurd (ground (arith, e))
find_free-some (b ∷ used) k i e = elim (Bool-cases b) [
  | inl busy ↦
      let (j, at, lt, free) = find_free-some used (suc k) i (rw busy at e) in
      (suc j, omega (arith, at), omega (arith, lt), free)
  | inr free ↦ (0, ground (arith, e, free), omega arith, free)
]

-- The slot that a transfer takes was free.
pub taken-IsCounted :
    (t : Slots) (i : ℕ) (b : Batch)
    → IsCounted t
    → i < transfer_slots
    → get_or t.in_use i true ≡ false
    → IsCounted (record {
      batches = set t.batches i b;
      in_use = set t.in_use i true;
      accepting = t.accepting;
      in_flight = t.in_flight + 1;
    })
unfolding IsCounted used_weight
taken-IsCounted t i b (size, batches, count) lt free =
    let more = inside-set used_weight t.in_use i true true (omega (arith, lt, size)) in
    let was : used_weight (get_or t.in_use i true) ≡ 0 = ground (arith, free) in
    (
      length-set t.in_use i true ∙ size,
      length-set t.batches i b ∙ batches,
      omega (arith, more, was, count),
    )

in_use_lt : (used : List Bool) (i : ℕ) → get_or used i false ≡ true → i < length used
in_use_lt [] i e = absurd (ground (arith, e))
in_use_lt (b ∷ used) zero e = omega arith
in_use_lt (b ∷ used) (suc i) e = omega (arith, in_use_lt used i e)

-- The slot that a transfer gives back was in use.
pub complete_transfer-IsCounted :
    (t : Slots) (i : ℕ)
    → IsCounted t
    → slot_in_use t i ≡ true
    → IsCounted (complete_transfer t i).1 × ((complete_transfer t i).1.in_flight + 1 ≡ t.in_flight)
unfolding IsCounted complete_transfer slot_in_use used_weight
complete_transfer-IsCounted t i (size, batches, count) used =
    let lt = in_use_lt t.in_use i used in
    let less = inside-set used_weight t.in_use i false false lt in
    let was : used_weight (get_or t.in_use i false) ≡ 1 = ground (arith, used) in
    rw used (
      (length-set t.in_use i false ∙ size, batches, omega (arith, less, was, count)),
      omega (arith, less, was, count),
    )

pub complete_transfer-accepting :
    (t : Slots) (i : ℕ) → (complete_transfer t i).1.accepting ≡ t.accepting
unfolding complete_transfer
complete_transfer-accepting t i =
    if-cases (λ (r : Bool × Slots). r.1.accepting ≡ t.accepting) (not (slot_in_use t i)) (λ e. refl)
      (λ e. refl)
