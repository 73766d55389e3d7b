-- ===== src/Driver/Input/Slots.antt =====
-- The reads that are under way (numark-ns6/audio-in/AudioInputReader.cpp): each number from the next one to
-- process up to the next one to submit has one slot.
use mathlib.Core.Path.{subst}
use native.Mathlib.Decide.{ℕ_discrete}
use numark_ns6_mac_arm.Driver.Input.{new_slot, Slot, slot_count}
use numark_ns6_mac_arm.Prelude.{
  ℕ, zero, suc, ◌+◌, ◌≤◌, ◌<◌, ◌≡◌, sym, ap, ◌∙◌, ◌≢◌, ◌⊎◌, inl, inr, Bool, true, false, ◌||◌, List,
  [], ◌∷◌, arith, get_or, get_or-set_ne, get_or-set_self, length, length-set, set,
}

abbrev pub busy : Slot → Bool
busy s = s.in_flight || s.completed

abbrev pub nth : List Slot → ℕ → Slot
nth slots i = get_or slots i new_slot

-- The slot has the read with this number.
abbrev pub Holds : List Slot → ℕ → ℕ → Type 0
Holds slots i q = (busy (nth slots i) ≡ true) × ((nth slots i).sequence ≡ q)

-- The slots, the next number to process, and the next to submit.
pub record IsOrdered (slots : List Slot) (np ns : ℕ) : Type 0 where
  pub eight : length slots ≡ slot_count
  pub np_le : np ≤ ns
  pub range : (i q : ℕ) → Holds slots i q → (np ≤ q) × (q < ns)
  pub distinct : (i j q : ℕ) → Holds slots i q → Holds slots j q → i ≡ j
  pub covered : (q : ℕ) → np ≤ q → q < ns → (i : ℕ) × Holds slots i q

-- What `set` leaves at an index: the new slot there, the old ones elsewhere.
at_set :
    (slots : List Slot) (i j : ℕ) (s : Slot)
    → i < length slots
    → ((i ≡ j) × (nth (set slots i s) j ≡ s)) ⊎ ((i ≢ j) × (nth (set slots i s) j ≡ nth slots j))
at_set slots i j s lt = elim (ℕ_discrete i j) [
  | yes e ↦ inl (e, ap (λ k. nth (set slots i s) k) (sym e) ∙ get_or-set_self slots i s new_slot lt)
  | no ne ↦ inr (ne, get_or-set_ne slots s new_slot ne)
]

-- A busy slot is one of the list.
pub busy_lt : (slots : List Slot) (i : ℕ) → busy (nth slots i) ≡ true → i < length slots
busy_lt [] i b = ground (arith, b)
busy_lt (s ∷ slots) zero b = omega arith
busy_lt (s ∷ slots) (suc i) b = omega (arith, busy_lt slots i b)

-- A change under which each slot has the read that it had.
transfer :
    (slots slots' : List Slot) (np ns : ℕ)
    → length slots' ≡ length slots
    → ((i q : ℕ) → Holds slots' i q → Holds slots i q)
    → ((i q : ℕ) → Holds slots i q → Holds slots' i q)
    → IsOrdered slots np ns
    → IsOrdered slots' np ns
transfer slots slots' np ns size back forth v = record {
  eight = size ∙ v.eight;
  np_le = v.np_le;
  range = λ i q h. v.range i q (back i q h);
  distinct = λ i j q h k. v.distinct i j q (back i q h) (back j q k);
  covered = λ q le lt. let (i, h) = v.covered q le lt in (i, forth i q h);
}

-- A slot that is as busy as before, with the same read if it is.
pub IsOrdered-same :
    (slots : List Slot) (np ns i : ℕ) (s : Slot)
    → IsOrdered slots np ns
    → i < slot_count
    → busy s ≡ busy (nth slots i)
    → (busy s ≡ true → s.sequence ≡ (nth slots i).sequence)
    → IsOrdered (set slots i s) np ns
IsOrdered-same slots np ns i s v lt same_busy same_number =
    let in_range : i < length slots = omega (arith, lt, v.eight) in
    let back : (j q : ℕ) → Holds (set slots i s) j q → Holds slots j q = λ j q h.
      elim (at_set slots i j s in_range) [
        | inl (e, here) ↦
            subst (λ k. Holds slots k q) e
              (
                sym same_busy ∙ ap busy (sym here) ∙ h.0,
                sym (same_number (ap busy (sym here) ∙ h.0))
                    ∙ ap (λ t. t.sequence) (sym here)
                    ∙ h.1,
              )
        | inr (ne, there) ↦ subst (λ t. (busy t ≡ true) × (t.sequence ≡ q)) there h
      ] in
    let forth : (j q : ℕ) → Holds slots j q → Holds (set slots i s) j q = λ j q h.
      elim (at_set slots i j s in_range) [
        | inl (e, here) ↦
            let old = subst (λ k. Holds slots k q) (sym e) h in
            subst (λ t. (busy t ≡ true) × (t.sequence ≡ q)) (sym here)
              (same_busy ∙ old.0, same_number (same_busy ∙ old.0) ∙ old.1)
        | inr (ne, there) ↦ subst (λ t. (busy t ≡ true) × (t.sequence ≡ q)) (sym there) h
      ] in
    transfer slots (set slots i s) np ns (length-set slots i s) back forth v

-- A free slot takes the next read.
pub IsOrdered-add :
    (slots : List Slot) (np ns i : ℕ) (s : Slot)
    → IsOrdered slots np ns
    → i < slot_count
    → busy (nth slots i) ≡ false
    → busy s ≡ true
    → s.sequence ≡ ns
    → IsOrdered (set slots i s) np (ns + 1)
IsOrdered-add slots np ns i s v lt free busy_now number =
    let in_range : i < length slots = omega (arith, lt, v.eight) in
    let back : (j q : ℕ) → Holds (set slots i s) j q → ((i ≡ j) × (q ≡ ns)) ⊎ Holds slots j q =
      λ j q h. elim (at_set slots i j s in_range) [
        | inl (e, here) ↦ inl (e, sym h.1 ∙ ap (λ t. t.sequence) here ∙ number)
        | inr (ne, there) ↦ inr (subst (λ t. (busy t ≡ true) × (t.sequence ≡ q)) there h)
      ] in
    let forth : (j q : ℕ) → Holds slots j q → Holds (set slots i s) j q = λ j q h.
      elim (at_set slots i j s in_range) [
        | inl (e, here) ↦
            let was = subst (λ k. Holds slots k q) (sym e) h in absurd (ground (arith, was.0, free))
        | inr (ne, there) ↦ subst (λ t. (busy t ≡ true) × (t.sequence ≡ q)) (sym there) h
      ] in
    record {
      eight = length-set slots i s ∙ v.eight;
      np_le = omega (arith, v.np_le);
      range = λ j q h. elim (back j q h) [
        | inl (e, new) ↦ (omega (arith, new, v.np_le), omega (arith, new))
        | inr old ↦ let (low, high) = v.range j q old in (low, omega (arith, high))
      ];
      distinct = λ j k q h h'. elim (back j q h) [
        | inl (e, new) ↦ elim (back k q h') [
          | inl (e', new') ↦ sym e ∙ e'
          | inr old ↦ let (low, high) = v.range k q old in absurd (omega (arith, high, new))
        ]
        | inr old ↦ elim (back k q h') [
          | inl (e', new') ↦ let (low, high) = v.range j q old in absurd (omega (arith, high, new'))
          | inr old' ↦ v.distinct j k q old old'
        ]
      ];
      covered = λ q le high. elim (ℕ_discrete q ns) [
        | yes e ↦ (
          i,
          subst (λ t. (busy t ≡ true) × (t.sequence ≡ q))
              (sym (get_or-set_self slots i s new_slot in_range)) (busy_now, number ∙ sym e),
        )
        | no ne ↦ let (j, h) = v.covered q le (omega (arith, high, ne)) in (j, forth j q h)
      ];
    }

-- The slot of the next number to process is freed.
pub IsOrdered-remove :
    (slots : List Slot) (np ns i : ℕ) (s : Slot)
    → IsOrdered slots np ns
    → Holds slots i np
    → busy s ≡ false
    → IsOrdered (set slots i s) (np + 1) ns
IsOrdered-remove slots np ns i s v held free =
    let in_range : i < length slots = busy_lt slots i held.0 in
    let (low, high) = v.range i np held in
    let back : (j q : ℕ) → Holds (set slots i s) j q → (q ≢ np) × Holds slots j q = λ j q h.
      elim (at_set slots i j s in_range) [
        | inl (e, here) ↦ absurd (ground (arith, ap busy (sym here) ∙ h.0, free))
        | inr (ne, there) ↦
            let old : Holds slots j q = subst (λ t. (busy t ≡ true) × (t.sequence ≡ q)) there h in
            (λ same. ne (v.distinct i j np held (subst (λ r. Holds slots j r) same old)), old)
      ] in
    record {
      eight = length-set slots i s ∙ v.eight;
      np_le = omega (arith, high);
      range = λ j q h.
          let (ne, old) = back j q h in
          let (le, lt) = v.range j q old in (omega (arith, le, ne), lt);
      distinct = λ j k q h h'. v.distinct j k q (back j q h).1 (back k q h').1;
      covered = λ q le lt.
          let (j, h) = v.covered q (omega (arith, le)) lt in
          elim (at_set slots i j s in_range) [
            | inl (e, here) ↦
                let same : np ≡ q = sym held.1 ∙ ap (λ k. (nth slots k).sequence) e ∙ h.1 in
                absurd (omega (arith, same, le))
            | inr (ne, there) ↦ (j, subst (λ t. (busy t ≡ true) × (t.sequence ≡ q)) (sym there) h)
          ];
    }
