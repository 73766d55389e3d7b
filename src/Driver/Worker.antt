-- ===== src/Driver/Worker.antt =====
-- The transfers of the output endpoint in the C++ driver (numark-ns6/audio-out/AudioOutTransferSlots.cpp and .hpp,
-- AudioOutWorker.cpp and .hpp). The answers of IOKit are arguments. Submissions and completions are calls
-- on one run loop. A counter is a uint64_t, of one step for each transfer.
use numark_ns6_mac_arm.Double.{Double}
use numark_ns6_mac_arm.Driver.Output.{
  Source, build_batch, Trim, sum_bytes, max_batch_bytes, Ring, Batch,
}
use numark_ns6_mac_arm.Prelude.{
  ℕ, suc, ◌+◌, ◌-◌, Bool, true, false, not, ◌&&◌, ◌||◌, Option, none, some, List, [], ◌∷◌,
  if◌then◌else◌, ltb, ◌==◌, get_or, length, set,
}
pub mod Balance
pub mod Runs
pub mod Completions
mod Tests

abbrev pub transfer_slots : ℕ
transfer_slots = 8

-- AudioOutTransferSlots, with the batch of each slot.
pub record Slots : Type 0 where
  pub batches : List Batch
  pub in_use : List Bool
  pub accepting : Bool
  pub in_flight : ℕ

abbrev pub empty_batch : Batch
empty_batch = record { packet_bytes = []; bytes = []; missing = 0 }

-- The first slot that is not in use, from slot `i` on.
unfoldable pub find_free : List Bool → ℕ → Option ℕ
find_free [] i = none
find_free (used ∷ rest) i = let later = find_free rest (suc i) in if used then later else some i

unfoldable pub slot_in_use : Slots → ℕ → Bool
slot_in_use t i = get_or t.in_use i false

unfoldable pub complete_transfer : Slots → ℕ → Bool × Slots
unfolding slot_in_use
complete_transfer t i =
    if not (slot_in_use t i)
    then (false, t)
    else (true, record t { in_use = set t.in_use i false; in_flight = t.in_flight - 1 })

abbrev stop_accepting : Slots → Slots
stop_accepting t = record t { accepting = false }

-- The values of IOReturn that the worker gives of its own, and those of the system.
pub data Io : Type 0 where
  io_success io_not_ready io_no_resources io_bad_argument io_underrun : Io
  io_other : ℕ → Io

unfoldable pub is_success : Io → Bool
is_success io_success = true
is_success io_not_ready = false
is_success io_no_resources = false
is_success io_bad_argument = false
is_success io_underrun = false
is_success (io_other code) = false

pub record Worker (R : Type 0) : Type 0 where
  pub has_interface : Bool
  pub running : Bool
  pub source : Source R
  pub transfers : Slots
  pub submitted : ℕ
  pub completed : ℕ
  pub failures : ℕ
  pub non_silent : ℕ  -- nonSilentSubmitted_
  pub underrun_frames : ℕ  -- ringUnderrunFrames_

-- A frame of a transfer that has ended.
pub record IsocFrame : Type 0 where
  pub status : Io
  pub actual : ℕ
  pub requested : ℕ

-- The loop of `didComplete` over the frames.
unfoldable pub final_status : Io → List IsocFrame → Io
final_status status [] = status
final_status status (f ∷ fs) =
    let first = if is_success status && not (is_success f.status) then f.status else status in
    final_status (if is_success first && not (f.actual == f.requested) then io_underrun else first)
      fs

unfoldable pub all_zero : List ℕ → Bool
all_zero [] = true
all_zero (b ∷ bs) = b == 0 && all_zero bs

module _ {W R : Type 0} (d : Double W) (trim : Trim W) (ops : Ring W R) where
  -- What a reservation of slot `i` leaves, once its batch is built.
  abbrev pub reserve_built : Slots → ℕ → Option Batch × Source R → Option ℕ × Slots × Source R
  reserve_built t i (none, s) = (none, t, s)
  reserve_built t i (some b, s) = (
    some i,
    record t {
      batches = set t.batches i b;
      in_use = set t.in_use i true;
      in_flight = t.in_flight + 1;
    },
    s,
  )

  abbrev pub reserve_at : Slots → Source R → Option ℕ → Option ℕ × Slots × Source R
  reserve_at t s none = (none, t, s)
  reserve_at t s (some i) = reserve_built t i (build_batch d trim ops s)

  unfoldable pub reserve : Slots → Source R → Option ℕ × Slots × Source R
  unfolding build_batch find_free
  reserve t s = if t.accepting then reserve_at t s (find_free t.in_use 0) else (none, t, s)

  abbrev give_back : Worker R → ℕ → Worker R
  give_back w i = record w { transfers = (complete_transfer w.transfers i).1 }

  -- The end of `submitNext`, with the answer of the system to the transfer.
  abbrev pub write_transfer : Worker R → ℕ → Io → Io × Worker R
  write_transfer w i answer =
      if is_success answer
      then (io_success, record w { submitted = w.submitted + 1 })
      else (answer, give_back w i)

  -- The middle of `submitNext`, from the batch of its slot on.
  unfoldable pub submit_batch : Worker R → ℕ → Batch → Io → Io × Worker R
  submit_batch w i b answer =
      let v = record w {
        non_silent = if all_zero b.bytes then w.non_silent else w.non_silent + 1;
      } in
      if ltb max_batch_bytes (length b.bytes)
      then (io_bad_argument, give_back w i)
      else if not (sum_bytes b.packet_bytes == length b.bytes)
      then (io_bad_argument, give_back v i)
      else write_transfer v i answer

  abbrev pub submit_reserved : Worker R → Io → Option ℕ × Slots × Source R → Io × Worker R
  submit_reserved w answer (none, t, s) = (io_no_resources, record w { transfers = t; source = s })
  submit_reserved w answer (some i, t, s) =
      submit_batch (record w { transfers = t; source = s }) i (get_or t.batches i empty_batch)
        answer

  unfoldable pub submit_next : Worker R → Io → Io × Worker R
  unfolding reserve submit_batch
  submit_next w answer =
      if not w.running || not w.has_interface
      then (io_not_ready, w)
      else submit_reserved w answer (reserve w.transfers w.source)

  abbrev stop_running : Worker R → Worker R
  stop_running w = record w { running = false; transfers = stop_accepting w.transfers }

  abbrev pub check_resubmit : Io × Worker R → Worker R
  check_resubmit (result, w) =
      if is_success result then w else stop_running (record w { failures = w.failures + 1 })

  -- The end of `didComplete` for a transfer that went well.
  unfoldable pub completed_well : Worker R → ℕ → Io → Worker R
  completed_well w i answer =
      let v = record w {
        completed = w.completed + 1;
        underrun_frames = w.underrun_frames + (get_or w.transfers.batches i empty_batch).missing;
      } in
      if v.running then check_resubmit (submit_next v answer) else v

  -- `didComplete` of slot `i`; the last argument is the answer to the next transfer.
  unfoldable pub did_complete : Worker R → ℕ → Io → List IsocFrame → Io → Worker R
  unfolding completed_well
  did_complete w i status frames answer =
      let v = record w { transfers = (complete_transfer w.transfers i).1 } in
      if is_success (final_status status frames)
      then completed_well v i answer
      else stop_running (record v { failures = v.failures + 1 })
