-- ===== src/Driver/Input/Drain.antt =====
-- What a completion publishes (numark-ns6/audio-in/AudioInputReader.cpp): the blocks in the order of their
-- submission, as far as they have come.
use mathlib.Core.Path.{subst}
use numark_ns6_mac_arm.Driver.Input.{
  published, Reader, System, Io, is_success, count_error, slot_count, did_complete, Slot, resubmit,
  submitted, find_next, Block, process, complete_slot, round_with, release_slot, add_block,
  new_slot, put_block, submit, note_result, drain_completions, slot_at, drain_rounds,
}
use numark_ns6_mac_arm.Driver.Input.Order.{
  waiting, completed_weight, resubmit-Submits, note_result-Untouched, find_next-some,
  find_next-none, Orderly, Settled, Untouched,
}
use numark_ns6_mac_arm.Driver.Input.Slots.{
  busy, IsOrdered-remove, IsOrdered-same, IsOrdered, nth, busy_lt, Holds,
}
use numark_ns6_mac_arm.Prelude.{
  ℕ, zero, suc, ◌+◌, ◌≤◌, ◌<◌, ◌≡◌, refl, sym, ap, ◌∙◌, ◌⊎◌, inl, inr, true, false, not, ◌&&◌, ◌||◌,
  Option, none, List, [], ◌∷◌, arith, Bool-cases, Option-cases, if-cases, if◌then◌else◌, ltb, Every,
  Every-get_or, Every-set, length, set,
}
use numark_ns6_mac_arm.Threads.{inside-set, inside_le, inside}

-- What `n` rounds publish from the read with number `q` on: the blocks of the reads that have succeeded, in
-- the order of their numbers. Each of the reads has ended, and waits in a slot.
abbrev pub Publishes : System → List Slot → ℕ → ℕ → List Block → Type 0
Publishes system slots q zero blocks = blocks ≡ []
Publishes system slots q (suc n) blocks =
    (i : ℕ) × ((nth slots i).completed ≡ true)
    × ((nth slots i).sequence ≡ q)
    × ((rest : List Block) × Publishes system slots (suc q) n rest
        × (blocks ≡ (
            if system.has_engine && is_success (nth slots i).status
            then record { number = q; byte_count = (nth slots i).bytes } ∷ rest
            else rest)))

-- Every slot that waits in `later` has waited before, and is as it was.
abbrev Waited : List Slot → List Slot → Type 0
Waited slots later = (j : ℕ) → (nth later j).completed ≡ true → nth later j ≡ nth slots j

Waited-trans : (a b c : List Slot) → Waited a b → Waited b c → Waited a c
Waited-trans a b c u v j done =
    v j done ∙ u j (ap (λ (s : Slot). s.completed) (sym (v j done)) ∙ done)

-- A slot that does not wait is put where it may.
set-Waited :
    (slots : List Slot) (i : ℕ) (s : Slot) → s.completed ≡ false → Waited slots (set slots i s)
set-Waited [] i s off j done = refl
set-Waited (t ∷ slots) zero s off zero done = absurd (ground (arith, off, done))
set-Waited (t ∷ slots) zero s off (suc j) done = refl
set-Waited (t ∷ slots) (suc i) s off zero done = refl
set-Waited (t ∷ slots) (suc i) s off (suc j) done = set-Waited slots i s off j done

submit-Waited : (system : System) (r : Reader) (i : ℕ) → Waited r.slots (submit system r i).1.slots
unfolding submit submitted
submit-Waited system r i =
    let slot = slot_at r i in
    if-cases (λ (a : Io × Reader). Waited r.slots a.1.slots)
      (not r.running || not r.has_session || slot.in_flight || slot.completed)
      (λ refused j done. refl)
      (λ allowed.
        let free : slot.completed ≡ false = ground (arith, allowed) in
        if-cases (λ (a : Io × Reader). Waited r.slots a.1.slots) (not system.has_interface)
          (λ gone j done. refl)
          (λ present.
            if-cases (λ (s : Reader). Waited r.slots s.slots)
              (is_success (system.read_answer r.next_submit)) (λ ok. set-Waited r.slots i _ free)
              (λ failed. set-Waited r.slots i _ free)))

resubmit-Waited :
    (system : System) (r : Reader) (i : ℕ) → Waited r.slots (resubmit system r i).slots
unfolding resubmit count_error
resubmit-Waited system r i =
    let waits = submit-Waited system r i in
    if-cases (λ (s : Reader). Waited r.slots s.slots) r.running
      (λ on.
        if-cases (λ (s : Reader). Waited r.slots s.slots) (is_success (submit system r i).0)
          (λ ok. waits) (λ failed. waits))
      (λ off j done. refl)

Publishes-Waited :
    (system : System) (slots later : List Slot) (q n : ℕ) (blocks : List Block)
    → Waited slots later
    → Publishes system later q n blocks
    → Publishes system slots q n blocks
Publishes-Waited system slots later q zero blocks same p = p
Publishes-Waited system slots later q (suc n) blocks same (i, done, number, (rest, p, e)) =
    let here = same i done in
    (
      i,
      ap (λ (s : Slot). s.completed) (sym here) ∙ done,
      ap (λ (s : Slot). s.sequence) (sym here) ∙ number,
      (
        rest,
        Publishes-Waited system slots later (suc q) n rest same p,
        e
            ∙ ap
                (λ (s : Slot).
                  if system.has_engine && is_success s.status
                  then record { number = q; byte_count = s.bytes } ∷ rest
                  else rest)
                here,
      ),
    )

-- A round publishes the next block, if its read has succeeded, and frees its slot.
record Processes (system : System) (r : Reader) (i : ℕ) (step : Option Block × Reader)
    : Type 0 where
  orderly : Orderly step.1
  next : step.1.next_process ≡ r.next_process + 1
  fewer : waiting step.1 + 1 ≡ waiting r
  done : (nth r.slots i).completed ≡ true
  number : (nth r.slots i).sequence ≡ r.next_process
  block : step.0 ≡ published system (nth r.slots i)
  waited : Waited r.slots step.1.slots

waiting-release :
    (slots : List Slot) (i : ℕ) (s : Slot)
    → i < length slots
    → (nth slots i).completed ≡ true
    → s.completed ≡ false
    → inside completed_weight (set slots i s) + 1 ≡ inside completed_weight slots
unfolding completed_weight
waiting-release slots i s lt was is =
    let count = inside-set completed_weight slots i new_slot s lt in
    let one : completed_weight (nth slots i) ≡ 1 = ground (arith, was) in
    let none_now : completed_weight s ≡ 0 = ground (arith, is) in
    omega (arith, count, one, none_now)

abbrev freed : Slot → Slot
freed slot = record slot { completed = false }

-- The reader behind the round's end, whatever the block's result has changed.
release-Orderly :
    (r noted : Reader) (i : ℕ) (s : Slot)
    → Orderly r
    → Untouched r noted
    → Holds r.slots i r.next_process
    → busy s ≡ false
    → Settled s
    → Orderly (record noted { slots = set noted.slots i s; next_process = noted.next_process + 1 })
release-Orderly r noted i s v (same_slots, same_next, same_submit) held free settled =
    let removed = IsOrdered-remove r.slots r.next_process r.next_submit i s v.ordered held free in
    record {
      ordered =
          subst (λ l. IsOrdered (set l i s) (noted.next_process + 1) noted.next_submit)
            (sym same_slots)
            (subst (λ n. IsOrdered (set r.slots i s) (n + 1) noted.next_submit) (sym same_next)
              (subst (λ n. IsOrdered (set r.slots i s) (r.next_process + 1) n) (sym same_submit)
                removed));
      settled =
          subst (λ l. Every Settled (set l i s)) (sym same_slots)
            (Every-set Settled r.slots i s v.settled settled);
    }

process-Processes :
    (system : System) (r : Reader) (i : ℕ)
    → Orderly r
    → (nth r.slots i).completed ≡ true
    → (nth r.slots i).sequence ≡ r.next_process
    → Processes system r i (process system r i)
unfolding process waiting slot_at
process-Processes system r i v done number =
    let slot = nth r.slots i in
    let noted = note_result system r slot in
    let (same_slots, same_next, same_submit) = note_result-Untouched system r slot in
    let held : Holds r.slots i r.next_process = (ground (arith, done), number) in
    let lt = busy_lt r.slots i held.0 in
    let out : slot.in_flight ≡ false =
      Every-get_or Settled r.slots i new_slot v.settled (λ bad. refl) done in
    let released = release_slot noted i slot in
    let good : Orderly released =
      release-Orderly r noted i (freed slot) v (same_slots, same_next, same_submit) held
        (ground (arith, out)) (λ bad. out) in
    let (w, next, count) =
      resubmit-Submits system released i good (omega (arith, lt, v.ordered.eight)) in
    record {
      orderly = w;
      next = next ∙ ap (λ n. n + 1) same_next;
      fewer =
          ap (λ n. n + 1)
            (count ∙ ap (λ l. inside completed_weight (set l i (freed slot))) same_slots)
          ∙ waiting-release r.slots i (freed slot) lt done refl;
      done = done;
      number = number;
      block = refl;
      waited =
          Waited-trans r.slots released.slots (resubmit system released i).slots
            (subst (λ l. Waited r.slots (set l i (freed slot))) (sym same_slots)
              (set-Waited r.slots i (freed slot) refl))
            (resubmit-Waited system released i);
    }

-- What a drain publishes and leaves.
pub record Drains (system : System) (r : Reader) (result : List Block × Reader) : Type 0 where
  pub orderly : Orderly result.1
  pub rounds : ℕ
  pub in_order : Publishes system r.slots r.next_process rounds result.0
  pub reached : result.1.next_process ≡ r.next_process + rounds
  pub nothing_left : find_next result.1.slots result.1.next_process 0 ≡ none

-- What the published block adds, if there is one.
add_block-published :
    (system : System) (slot : Slot) (q : ℕ) (blocks : List Block)
    → slot.sequence ≡ q
    → add_block (published system slot) blocks ≡ (
        if system.has_engine && is_success slot.status
        then record { number = q; byte_count = slot.bytes } ∷ blocks
        else blocks)
unfolding published
add_block-published system slot q blocks e =
    elim (Bool-cases (system.has_engine && is_success slot.status)) [
      | inl good ↦ rw (good, e) refl
      | inr bad ↦ rw bad refl
    ]

put_block-Drains :
    (system : System) (r : Reader) (i : ℕ) (step : Option Block × Reader)
    (rest : List Block × Reader)
    → Processes system r i step
    → Drains system step.1 rest
    → Drains system r (put_block step rest)
put_block-Drains system r i (block, s) (blocks, t) p d =
    let next : s.next_process ≡ suc r.next_process = omega (arith, p.next) in
    let later : Publishes system s.slots (suc r.next_process) d.rounds blocks =
      subst (λ k. Publishes system s.slots k d.rounds blocks) next d.in_order in
    record {
      orderly = d.orderly;
      rounds = suc d.rounds;
      in_order = (
        i,
        p.done,
        p.number,
        (
          blocks,
          Publishes-Waited system r.slots s.slots (suc r.next_process) d.rounds blocks p.waited
              later,
          ap (λ o. add_block o blocks) p.block
              ∙ add_block-published system (nth r.slots i) r.next_process blocks p.number,
        ),
      );
      reached = omega (arith, d.reached, next);
      nothing_left = d.nothing_left;
    }

drain_rounds-Drains :
    (system : System) (n : ℕ) (r : Reader)
    → Orderly r
    → waiting r < n
    → Drains system r (drain_rounds system n r)
unfolding drain_rounds
drain_rounds-Drains system zero r v few = absurd (omega (arith, few))
drain_rounds-Drains system (suc n) r v few =
    let go : ℕ → List Block × Reader =
      λ i. put_block (process system r i) (drain_rounds system n (process system r i).1) in
    elim (Option-cases (find_next r.slots r.next_process 0)) [
      | inl nothing ↦
          subst (λ o. Drains system r (round_with go r o)) (sym nothing)
            (record {
              orderly = v;
              rounds = 0;
              in_order = refl;
              reached = omega arith;
              nothing_left = nothing;
            })
      | inr (i, found) ↦
          let (j, at, done, number) = find_next-some r.slots r.next_process 0 i found in
          let same : i ≡ j = omega (arith, at) in
          let step =
            process-Processes system r i v (ap (λ k. (nth r.slots k).completed) same ∙ done)
              (ap (λ k. (nth r.slots k).sequence) same ∙ number) in
          let rest =
            drain_rounds-Drains system n (process system r i).1 step.orderly
              (omega (arith, few, step.fewer)) in
          subst (λ o. Drains system r (round_with go r o)) (sym found)
            (put_block-Drains system r i (process system r i)
              (drain_rounds system n (process system r i).1) step rest)
    ]

few_waiting : (r : Reader) → Orderly r → waiting r < suc slot_count
unfolding waiting completed_weight
few_waiting r v =
    let most : inside completed_weight r.slots ≤ length r.slots =
      inside_le completed_weight
        (λ s. if-cases (λ n. n ≤ 1) s.completed (λ e. omega arith) (λ e. omega arith)) r.slots in
    omega (arith, most, v.ordered.eight)

complete_slot-Orderly :
    (r : Reader) (i : ℕ) (status : Io) (bytes : ℕ)
    → Orderly r
    → (slot_at r i).in_flight ≡ true
    → Orderly (complete_slot r i status bytes)
unfolding slot_at
complete_slot-Orderly r i status bytes v going =
    let slot = nth r.slots i in
    let done : Slot = record slot {
      in_flight = false;
      completed = true;
      status = status;
      bytes = bytes;
    } in
    let lt = busy_lt r.slots i (ground (arith, going)) in
    record {
      ordered =
          IsOrdered-same r.slots r.next_process r.next_submit i done v.ordered
            (omega (arith, lt, v.ordered.eight)) (ground (arith, going)) (λ b. refl);
      settled = Every-set Settled r.slots i done v.settled (λ d. refl);
    }

-- The read next in order is under way, unless all have been processed.
next_under_way :
    (r : Reader)
    → Orderly r
    → find_next r.slots r.next_process 0 ≡ none
    → (r.next_process ≡ r.next_submit)
      ⊎ ((i : ℕ) × ((slot_at r i).in_flight ≡ true) × ((slot_at r i).sequence ≡ r.next_process))
unfolding slot_at
next_under_way r v nothing = elim (Bool-cases (ltb r.next_process r.next_submit)) [
  | inr all ↦ inl (ground (arith, all, v.ordered.np_le))
  | inl some_left ↦
      let (i, (busy_now, number)) =
        v.ordered.covered r.next_process (omega arith) (ground (arith, some_left)) in
      let slot = nth r.slots i in
      elim (Bool-cases slot.completed) [
        | inl done ↦ absurd (find_next-none r.slots r.next_process 0 i nothing done number)
        | inr going ↦ inr (i, ground (arith, busy_now, going), number)
      ]
]

-- A read that is under way ends, with any result. Then the loop goes, by itself, over the reads that have
-- ended from the next one on in the order of submission, and publishes, in this order and each once, exactly
-- the blocks of those that have succeeded, if there is an engine; the next read has not ended yet, so that it
-- is under way unless every read has been processed.
pub did_complete_lem :
    (system : System) (r : Reader) (i : ℕ) (status : Io) (bytes : ℕ)
    → Orderly r
    → (slot_at r i).in_flight ≡ true
    → let result = did_complete system r i status bytes in
      Drains system (complete_slot r i status bytes) result
      × ((result.1.next_process ≡ result.1.next_submit)
          ⊎ ((k : ℕ) × ((slot_at result.1 k).in_flight ≡ true)
              × ((slot_at result.1 k).sequence ≡ result.1.next_process)))
unfolding did_complete drain_completions
did_complete_lem system r i status bytes v going =
    let w = complete_slot-Orderly r i status bytes v going in
    let d =
      drain_rounds-Drains system (suc slot_count) (complete_slot r i status bytes) w
        (few_waiting (complete_slot r i status bytes) w) in
    (d, next_under_way (did_complete system r i status bytes).1 d.orderly d.nothing_left)
