-- ===== src/Driver/Input.antt =====
-- The reads of the capture endpoint in the C++ driver (numark-ns6/audio-in/AudioInputReader.cpp and .hpp): eight
-- reads are under way, and their blocks are published in the order in which they were submitted. The
-- calls of IOKit answer by the `System`; the clock and its statistics are left out, and so are the samples of a
-- block, of which only the number and the size are kept. The counters are
-- uint64_t, of one step for each read.
use numark_ns6_mac_arm.Prelude.{
  ℕ, zero, suc, ◌+◌, Bool, true, false, not, ◌&&◌, ◌||◌, Option, none, some, List, [], ◌∷◌,
  if◌then◌else◌, ◌==◌, get_or, set,
}
pub mod Order
pub mod Slots
pub mod Drain
mod Tests

-- The values of IOReturn that the code tells apart.
pub data Io : Type 0 where
  io_success io_not_ready io_no_device io_stalled : Io
  io_other : ℕ → Io

unfoldable pub is_success : Io → Bool
is_success io_success = true
is_success io_not_ready = false
is_success io_no_device = false
is_success io_stalled = false
is_success (io_other code) = false

-- The answers to the read with a sequence number, and to the clearing of a stall on its account; whether
-- the session has an interface, and whether the reader has an engine to publish to.
pub record System : Type 0 where
  pub has_engine : Bool
  pub has_interface : Bool
  pub read_answer : ℕ → Io
  pub clear_answer : ℕ → Io

pub record Slot : Type 0 where
  pub in_flight : Bool
  pub completed : Bool
  pub status : Io
  pub bytes : ℕ
  pub sequence : ℕ

pub record Reader : Type 0 where
  pub running : Bool
  pub has_session : Bool
  pub slots : List Slot
  pub next_submit : ℕ
  pub next_process : ℕ
  pub completed_transfers : ℕ
  pub transport_errors : ℕ
  pub last_error : Io

abbrev pub slot_count : ℕ
slot_count = 8

abbrev pub new_slot : Slot
new_slot = record {
  in_flight = false;
  completed = false;
  status = io_success;
  bytes = 0;
  sequence = 0;
}

unfoldable pub slot_at : Reader → ℕ → Slot
slot_at r i = get_or r.slots i new_slot

abbrev put_slot : Reader → ℕ → Slot → Reader
put_slot r i slot = record r { slots = set r.slots i slot }

unfoldable pub count_error : Reader → Io → Reader
count_error r error = record r { transport_errors = r.transport_errors + 1; last_error = error }

-- What a submission leaves, once the system has answered.
unfoldable pub submitted : Reader → ℕ → Slot → Io → Reader
submitted r i slot answer =
    let marked = record slot { sequence = r.next_submit; in_flight = true } in
    if is_success answer
    then record r { slots = set r.slots i marked; next_submit = r.next_submit + 1 }
    else put_slot r i (record marked { in_flight = false })

unfoldable pub submit : System → Reader → ℕ → Io × Reader
unfolding submitted
submit system r i =
    let slot = slot_at r i in
    if not r.running || not r.has_session || slot.in_flight || slot.completed
    then (io_not_ready, r)
    else if not system.has_interface
    then (io_no_device, r)
    else let answer = system.read_answer r.next_submit in (answer, submitted r i slot answer)

-- The loop that looks for the block to process, from slot `i` on.
unfoldable pub find_next : List Slot → ℕ → ℕ → Option ℕ
find_next [] sequence i = none
find_next (slot ∷ slots) sequence i =
    let rest = find_next slots sequence (suc i) in
    if slot.completed && slot.sequence == sequence then some i else rest

-- A block that failed, behind the counting.
unfoldable pub after_failure : System → Reader → ℕ → Io → Reader
after_failure system r number io_no_device = record r { running = false }
after_failure system r number io_stalled =
    if not r.has_session
    then r
    else if not system.has_interface || not (is_success (system.clear_answer number))
    then record r { running = false }
    else r
after_failure system r number io_success = r
after_failure system r number io_not_ready = r
after_failure system r number (io_other code) = r

unfoldable pub note_failure : System → Reader → Slot → Reader
unfolding count_error after_failure
note_failure system r slot =
    after_failure system (count_error r slot.status) slot.sequence slot.status

-- A block that is published.
pub record Block : Type 0 where
  pub number : ℕ
  pub byte_count : ℕ

-- Only a read that has succeeded is published, if there is an engine.
unfoldable pub published : System → Slot → Option Block
published system slot =
    if system.has_engine && is_success slot.status
    then some (record { number = slot.sequence; byte_count = slot.bytes })
    else none

abbrev pub note_result : System → Reader → Slot → Reader
note_result system r slot =
    if is_success slot.status
    then record r { completed_transfers = r.completed_transfers + 1 }
    else note_failure system r slot

-- The end of a round: the slot is free again, and its next read is submitted.
abbrev pub release_slot : Reader → ℕ → Slot → Reader
release_slot r i slot = record r {
  slots = set r.slots i (record slot { completed = false });
  next_process = r.next_process + 1;
}

abbrev pub check_submit : Io × Reader → Reader
check_submit (answer, r) =
    if is_success answer then r else record (count_error r answer) { running = false }

unfoldable pub resubmit : System → Reader → ℕ → Reader
resubmit system r i = if r.running then check_submit (submit system r i) else r

-- A round of `drainCompletions` on slot `i`: the block, if it is published, and what is left.
unfoldable pub process : System → Reader → ℕ → Option Block × Reader
unfolding resubmit published
process system r i =
    let slot = slot_at r i in
    (published system slot, resubmit system (release_slot (note_result system r slot) i slot) i)

abbrev pub add_block : Option Block → List Block → List Block
add_block none blocks = blocks
add_block (some block) blocks = block ∷ blocks

abbrev pub put_block : Option Block × Reader → List Block × Reader → List Block × Reader
put_block (block, s) (blocks, r) = (add_block block blocks, r)

-- A round with what the rest of the loop does from a slot on, if one is found.
abbrev pub round_with : (ℕ → List Block × Reader) → Reader → Option ℕ → List Block × Reader
round_with go r none = ([], r)
round_with go r (some i) = go i

-- `drainCompletions`, in so many rounds.
unfoldable pub drain_rounds : System → ℕ → Reader → List Block × Reader
drain_rounds system zero r = ([], r)
drain_rounds system (suc n) r =
    round_with (λ i. put_block (process system r i) (drain_rounds system n (process system r i).1))
      r (find_next r.slots r.next_process 0)

-- Each round frees a slot, so that one round more than there are slots is enough.
unfoldable pub drain_completions : System → Reader → List Block × Reader
drain_completions system r = drain_rounds system (suc slot_count) r

-- The slot that a completion leaves.
abbrev pub complete_slot : Reader → ℕ → Io → ℕ → Reader
complete_slot r i status bytes =
    put_slot r i
      (record (slot_at r i) { in_flight = false; completed = true; status = status; bytes = bytes })

-- `didComplete`
unfoldable pub did_complete : System → Reader → ℕ → Io → ℕ → List Block × Reader
unfolding drain_completions
did_complete system r i status bytes = drain_completions system (complete_slot r i status bytes)
