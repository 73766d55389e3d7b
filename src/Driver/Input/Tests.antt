-- ===== src/Driver/Input/Tests.antt =====
-- A reader with two reads that end in the other order.
use numark_ns6_mac_arm.Driver.Input.{
  published, Reader, System, io_stalled, io_success, is_success, count_error, slot_count,
  did_complete, resubmit, submitted, after_failure, find_next, Block, process, complete_slot,
  new_slot, submit, note_failure, drain_completions, slot_at, drain_rounds,
}
use numark_ns6_mac_arm.Driver.Input.Drain.{Drains, did_complete_lem}
use numark_ns6_mac_arm.Driver.Input.Order.{Orderly, Settled, submit-Submits}
use numark_ns6_mac_arm.Driver.Input.Slots.{busy, nth}
use numark_ns6_mac_arm.Prelude.{
  ℕ, zero, suc, ◌≡◌, refl, ap, ◌⊎◌, true, false, List, [], ◌∷◌, ◌++◌, arith, Every-replicate,
  replicate,
}

abbrev willing : System
willing = record {
  has_engine = true;
  has_interface = true;
  read_answer = λ n. io_success;
  clear_answer = λ n. io_success;
}

abbrev idle_reader : Reader
idle_reader = record {
  running = true;
  has_session = true;
  slots = replicate slot_count new_slot;
  next_submit = 0;
  next_process = 0;
  completed_transfers = 0;
  transport_errors = 0;
  last_error = io_success;
}

nth-idle : (n i : ℕ) → nth (replicate n new_slot) i ≡ new_slot
nth-idle zero i = refl
nth-idle (suc n) zero = refl
nth-idle (suc n) (suc i) = nth-idle n i

idle-Orderly : Orderly idle_reader
idle-Orderly =
    let free : (i : ℕ) → busy (nth idle_reader.slots i) ≡ false =
      λ i. ap busy (nth-idle slot_count i) in
    record {
      ordered = record {
        eight = refl;
        np_le = omega arith;
        range = λ i q h. absurd (ground (arith, free i, h.0));
        distinct = λ i j q h k. absurd (ground (arith, free i, h.0));
        covered = λ q le lt. absurd (omega (arith, lt));
      };
      settled = Every-replicate Settled slot_count new_slot (λ e. refl);
    }

-- Two reads are submitted.
abbrev one_read : Reader
one_read = (submit willing idle_reader 0).1

abbrev two_reads : Reader
two_reads = (submit willing one_read 1).1

two_reads-Orderly : Orderly two_reads
two_reads-Orderly =
    (submit-Submits willing one_read 1
      (submit-Submits willing idle_reader 0 idle-Orderly (omega arith)).0 (omega arith)).0

second_going : (slot_at two_reads 1).in_flight ≡ true
unfolding submit submitted slot_at is_success
second_going = refl

did_complete_lem_example :
    let result = did_complete willing two_reads 1 io_success 10240 in
    Drains willing (complete_slot two_reads 1 io_success 10240) result
    × ((result.1.next_process ≡ result.1.next_submit)
        ⊎ ((k : ℕ) × ((slot_at result.1 k).in_flight ≡ true)
            × ((slot_at result.1 k).sequence ≡ result.1.next_process)))
did_complete_lem_example =
    did_complete_lem willing two_reads 1 io_success 10240 two_reads-Orderly second_going

-- The second block waits for the first, which has failed, and is then published alone.
abbrev second_done : List Block × Reader
second_done = did_complete willing two_reads 1 io_success 10240

good_block :
    second_done.0 ++ (did_complete willing second_done.1 0 io_stalled 0).0
    ≡ (record { number = 1; byte_count = 10240 }) ∷ []
unfolding submit submitted slot_at is_success find_next did_complete drain_completions drain_rounds
    process resubmit note_failure after_failure count_error published
good_block = refl
