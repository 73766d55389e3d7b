-- ===== src/Midi/Recovery/Masks.antt =====
-- What the slot masks (coreaudio/NS6MIDIRecovery.h) hold after each operation, slot by slot. There are
-- four slots, so a mask in use is below 16, and a table over all masks and slots settles each law.
use native.Mathlib.Decide.{dec_lt}
use numark_ns6_mac_arm.Midi.Recovery.{
  recovery_slots, recovery_ready, in_flight_set, in_flight_count, in_flight_clear,
}
use numark_ns6_mac_arm.Midi.Tables.{same, holds_from, each_of, has, same→≡}
use numark_ns6_mac_arm.Prelude.{
  ℕ, ◌+◌, ◌<◌, ◌≡◌, refl, Bool, true, false, not, ◌&&◌, ◌||◌, Option, none, some, arith, ◌==◌,
}

-- A law of a mask and two slots.
table : (ℕ → ℕ → ℕ → Bool) → Bool
unfolding holds_from
table p = holds_from 0 16 (λ m. holds_from 0 4 (λ s. holds_from 0 4 (λ t. p m s t)))

table_sound :
    (p : ℕ → ℕ → ℕ → Bool) → table p ≡ true → (m s t : ℕ) → m < 16 → s < 4 → t < 4 → p m s t ≡ true
unfolding table
table_sound p h m s t hm hs ht =
    each_of 4 (λ t. p m s t) t
      (each_of 4 (λ s. holds_from 0 4 (λ t. p m s t)) s
        (each_of 16 (λ m. holds_from 0 4 (λ s. holds_from 0 4 (λ t. p m s t))) m h hm) hs)
      ht

set_table : table (λ m s t. same (has (in_flight_set m s) t) (s == t || has m t)) ≡ true
unfolding table has same in_flight_set
set_table = refl

clear_table : table (λ m s t. same (has (in_flight_clear m s) t) (not (s == t) && has m t)) ≡ true
unfolding table has same in_flight_clear
clear_table = refl

-- Setting a slot adds it and no other, and clearing a slot removes it and no other; a slot outside the
-- four changes nothing.
pub has-in_flight :
    (m s t : ℕ)
    → m < 16
    → t < recovery_slots
    → (has (in_flight_set m s) t ≡ (s == t || has m t))
      × (has (in_flight_clear m s) t ≡ (not (s == t) && has m t))
has-in_flight m s t hm ht = elim (dec_lt s 4) [
  | yes hs ↦ (
    same→≡ _ _ (table_sound _ set_table m s t hm hs ht),
    same→≡ _ _ (table_sound _ clear_table m s t hm hs ht),
  )
  | no hs ↦ (unfold in_flight_set in ground arith, unfold in_flight_clear in ground arith)
]

ready_table :
    holds_from 0 16 (λ m.
      holds_from 0 16
        (λ f. holds_from 0 4 (λ t. same (has (recovery_ready m f) t) (has m t && not (has f t)))))
    ≡ true
unfolding holds_from has same recovery_ready
ready_table = refl

-- The slots that are ready for recovery are those that completed and are not in flight.
pub has-recovery_ready :
    (completed in_flight t : ℕ)
    → completed < 16
    → in_flight < 16
    → t < recovery_slots
    → has (recovery_ready completed in_flight) t ≡ (has completed t && not (has in_flight t))
has-recovery_ready c f t hc hf ht = same→≡ _ _ (
    each_of 4 (λ t. same (has (recovery_ready c f) t) (has c t && not (has f t))) t
      (each_of 16
        (λ f. holds_from 0 4 (λ t. same (has (recovery_ready c f) t) (has c t && not (has f t)))) f
        (each_of 16
          (λ m. holds_from 0 16 (λ f.
            holds_from 0 4 (λ t. same (has (recovery_ready m f) t) (has m t && not (has f t)))))
          c ready_table hc)
        hf)
      ht)

-- One for a slot in the mask.
abbrev pub one_if : Bool → ℕ
one_if true = 1
one_if false = 0

abbrev is_count : ℕ → Option ℕ → Bool
is_count n none = false
is_count n (some k) = k == n

abbrev pub slots_in : ℕ → ℕ
slots_in m = one_if (has m 0) + one_if (has m 1) + one_if (has m 2) + one_if (has m 3)

count_table : holds_from 0 16 (λ m. is_count (slots_in m) (in_flight_count m)) ≡ true
unfolding holds_from has in_flight_count
count_table = refl

is_count→≡ : (n : ℕ) (o : Option ℕ) → is_count n o ≡ true → o ≡ some n
is_count→≡ n o h = ground arith

-- The counting loop ends, and counts the slots in the mask.
pub in_flight_count_lem : (m : ℕ) → m < 16 → in_flight_count m ≡ some (slots_in m)
in_flight_count_lem m h =
    is_count→≡ (slots_in m) (in_flight_count m)
      (each_of 16 (λ m. is_count (slots_in m) (in_flight_count m)) m count_table h)
