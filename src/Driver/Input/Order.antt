-- ===== src/Driver/Input/Order.antt =====
-- The order in which the blocks are published (numark-ns6/audio-in/AudioInputReader.cpp).
-- A read that has ended is not under way.
use numark_ns6_mac_arm.Driver.Input.{
  Reader, System, is_success, Slot, find_next, io_no_device, slot_at, io_stalled, after_failure,
  slot_count, submitted, note_failure, new_slot, submit, note_result, resubmit, io_other, Io,
  count_error, io_not_ready, io_success, check_submit,
}
use numark_ns6_mac_arm.Driver.Input.Slots.{IsOrdered, IsOrdered-same, nth, busy, IsOrdered-add}
use numark_ns6_mac_arm.Prelude.{
  ℕ, zero, suc, ◌+◌, ◌<◌, ◌≡◌, refl, ap, ◌≢◌, inl, inr, true, false, not, ◌&&◌, ◌||◌, none, some,
  List, [], ◌∷◌, arith, Bool-cases, if-cases, if◌then◌else◌, ◌==◌, Every, Every-set, length, set,
}
use numark_ns6_mac_arm.Threads.{inside-set, inside}

abbrev pub Settled : Slot → Type 0
Settled s = s.completed ≡ true → s.in_flight ≡ false

pub record Orderly (r : Reader) : Type 0 where
  pub ordered : IsOrdered r.slots r.next_process r.next_submit
  pub settled : Every Settled r.slots

unfoldable pub completed_weight : Slot → ℕ
completed_weight s = if s.completed then 1 else 0

-- How many blocks wait to be processed.
unfoldable pub waiting : Reader → ℕ
unfolding completed_weight
waiting r = inside completed_weight r.slots

-- A submission keeps the order, and no more blocks wait.
abbrev Submits : Reader → Reader → Type 0
Submits r s = Orderly s × (s.next_process ≡ r.next_process) × (waiting s ≡ waiting r)

waiting-set :
    (slots : List Slot) (i : ℕ) (s : Slot)
    → i < length slots
    → s.completed ≡ (nth slots i).completed
    → inside completed_weight (set slots i s) ≡ inside completed_weight slots
unfolding completed_weight
waiting-set slots i s lt same =
    let count = inside-set completed_weight slots i new_slot s lt in
    let equal : completed_weight s ≡ completed_weight (nth slots i) =
      ap (λ b. if b then 1 else 0) same in
    omega (arith, count, equal)

submitted-Submits :
    (r : Reader) (i : ℕ) (answer : Io)
    → Orderly r
    → i < slot_count
    → busy (slot_at r i) ≡ false
    → Submits r (submitted r i (slot_at r i) answer)
unfolding submitted waiting slot_at
submitted-Submits r i answer v lt free =
    let in_range : i < length r.slots = omega (arith, lt, v.ordered.eight) in
    let slot = nth r.slots i in
    elim (Bool-cases (is_success answer)) [
      | inl ok ↦
          let marked : Slot = record slot { sequence = r.next_submit; in_flight = true } in
          rw ok (
            record {
              ordered =
                  IsOrdered-add r.slots r.next_process r.next_submit i marked v.ordered lt free refl
                    refl;
              settled =
                  Every-set Settled r.slots i marked v.settled
                    (λ done. absurd (ground (arith, free, done)));
            },
            refl,
            waiting-set r.slots i marked in_range refl,
          )
      | inr failed ↦
          let left : Slot = record slot { sequence = r.next_submit; in_flight = false } in
          rw failed (
            record {
              ordered =
                  IsOrdered-same r.slots r.next_process r.next_submit i left v.ordered lt
                    (ground (arith, free)) (λ b. absurd (ground (arith, free, b)));
              settled = Every-set Settled r.slots i left v.settled (λ done. refl);
            },
            refl,
            waiting-set r.slots i left in_range refl,
          )
    ]

pub submit-Submits :
    (system : System) (r : Reader) (i : ℕ)
    → Orderly r
    → i < slot_count
    → Submits r (submit system r i).1
unfolding submit
submit-Submits system r i v lt =
    let slot = slot_at r i in
    elim (Bool-cases (not r.running || not r.has_session || slot.in_flight || slot.completed)) [
      | inl refused ↦ rw refused (v, refl, refl)
      | inr allowed ↦ elim (Bool-cases system.has_interface) [
        | inr gone ↦ rw (allowed, gone) (v, refl, refl)
        | inl present ↦
            let free : busy slot ≡ false = ground (arith, allowed) in
            rw (allowed, present)
              (submitted-Submits r i (system.read_answer r.next_submit) v lt free)
      ]
    ]

-- What an answer changes besides does not matter.
check_submit-Submits : (r : Reader) (a : Io × Reader) → Submits r a.1 → Submits r (check_submit a)
unfolding count_error waiting
check_submit-Submits r (answer, s) u = elim (Bool-cases (is_success answer)) [
  | inl ok ↦ rw ok u
  | inr failed ↦ rw failed (record { ordered = u.0.ordered; settled = u.0.settled }, u.1, u.2)
]

pub resubmit-Submits :
    (system : System) (r : Reader) (i : ℕ)
    → Orderly r
    → i < slot_count
    → Submits r (resubmit system r i)
unfolding resubmit
resubmit-Submits system r i v lt =
    if-cases (λ s. Submits r s) r.running
      (λ on. check_submit-Submits r (submit system r i) (submit-Submits system r i v lt))
      (λ off. (v, refl, refl))

-- The slots and their numbers are as they were.
abbrev pub Untouched : Reader → Reader → Type 0
Untouched r s =
    (s.slots ≡ r.slots) × (s.next_process ≡ r.next_process) × (s.next_submit ≡ r.next_submit)

after_failure-Untouched :
    (system : System) (r : Reader) (number : ℕ) (status : Io)
    → Untouched r (after_failure system r number status)
unfolding after_failure
after_failure-Untouched system r number io_no_device = (refl, refl, refl)
after_failure-Untouched system r number io_success = (refl, refl, refl)
after_failure-Untouched system r number io_not_ready = (refl, refl, refl)
after_failure-Untouched system r number (io_other code) = (refl, refl, refl)
after_failure-Untouched system r number io_stalled =
    if-cases (λ s. Untouched r s) (not r.has_session) (λ e. (refl, refl, refl))
      (λ e.
        if-cases (λ s. Untouched r s)
          (not system.has_interface || not (is_success (system.clear_answer number)))
          (λ f. (refl, refl, refl)) (λ f. (refl, refl, refl)))

pub note_result-Untouched :
    (system : System) (r : Reader) (slot : Slot) → Untouched r (note_result system r slot)
unfolding note_failure count_error
note_result-Untouched system r slot =
    if-cases (λ s. Untouched r s) (is_success slot.status) (λ ok. (refl, refl, refl))
      (λ failed.
        after_failure-Untouched system (count_error r slot.status) slot.sequence slot.status)

-- The block that is found is the next one, and it waits.
pub find_next-some :
    (slots : List Slot) (q k i : ℕ)
    → find_next slots q k ≡ some i
    → (j : ℕ) × (i ≡ k + j) × ((nth slots j).completed ≡ true) × ((nth slots j).sequence ≡ q)
unfolding find_next
find_next-some [] q k i e = absurd (ground (arith, e))
find_next-some (s ∷ slots) q k i e = elim (Bool-cases (s.completed && s.sequence == q)) [
  | inl here ↦ (0, ground (arith, e, here), ground (arith, here), ground (arith, here))
  | inr there ↦
      let (j, at, done, number) = find_next-some slots q (suc k) i ((rw there at e)) in
      (suc j, omega (arith, at), done, number)
]

pub find_next-none :
    (slots : List Slot) (q k j : ℕ)
    → find_next slots q k ≡ none
    → (nth slots j).completed ≡ true
    → (nth slots j).sequence ≢ q
unfolding find_next
find_next-none [] q k j e done number = absurd (ground (arith, done))
find_next-none (s ∷ slots) q k zero e done number = absurd (ground (arith, e, done, number))
find_next-none (s ∷ slots) q k (suc j) e done number =
    elim (Bool-cases (s.completed && s.sequence == q)) [
      | inl here ↦ absurd (ground (arith, e, here))
      | inr there ↦ find_next-none slots q (suc k) j (ground (arith, e, there)) done number
    ]
