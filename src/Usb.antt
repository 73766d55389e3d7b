-- ===== src/Usb.antt =====
-- The reads of the capture endpoint by the USB worker (coreaudio/NS6USB.c): three reads are under way while
-- the drain runs, and each has the generation in which it was submitted. The answers of IOKit, the clock and
-- the frames that a block decodes to are arguments, and so is what other threads do while it is decoded. The
-- calls are those of one run loop. The counts of reads, errors and frames do not wrap here. Left out are
-- logging and the calls whose answer changes nothing: the clearing of a stall behind a failed read, and the
-- abort of the pipe, whose reads end by completions of their own.
use mathlib.Core.Option
use numark_ns6_mac_arm.Capture.{write, CaptureRing, read}
use numark_ns6_mac_arm.Prelude.{
  ℕ, suc, ◌+◌, ◌-◌, ◌%◌, ◌^◌, Bool, true, false, not, ◌&&◌, ◌||◌, Option, none, some, List, [], ◌∷◌,
  if◌then◌else◌, leb, ltb, ◌==◌, get_or, length, set,
}
use numark_ns6_mac_arm.Prelude.Words.{sub64}
use numark_ns6_mac_arm.Transport.Contents.{used}
pub mod Resubmit
pub mod Stale
mod Tests

-- The values of IOReturn that the code tells apart.
pub data Io : Type 0 where
  io_success io_stalled io_busy io_not_ready : Io
  io_other : ℕ → Io

unfoldable pub is_success : Io → Bool
is_success io_success = true
is_success io_stalled = false
is_success io_busy = false
is_success io_not_ready = false
is_success (io_other code) = false

unfoldable pub is_stall : Io → Bool
is_stall io_success = false
is_stall io_stalled = true
is_stall io_busy = false
is_stall io_not_ready = false
is_stall (io_other code) = false

-- The answers to a read, to the clearing of a stall behind it, and to the second read.
pub record Answers : Type 0 where
  pub first_read : Io
  pub cleared : Io
  pub second_read : Io

pub record Read : Type 0 where
  pub in_flight : Bool
  pub read_generation : ℕ

-- Whether capture is requested, and when it was last: the worker's own, and the shared ones if bound.
pub record Demand : Type 0 where
  pub requested : Bool
  pub last_demand_ns : ℕ

pub record Drain (A : Type 0) : Type 0 where
  pub running : Bool
  pub pipe_open : Bool
  pub generation : ℕ
  pub reads : List Read
  pub completions : ℕ
  pub errors : ℕ
  pub frames_decoded : ℕ
  pub ring_drops : ℕ
  pub ring : CaptureRing A
  pub own_demand : Demand
  pub shared_demand : Option Demand

abbrev pub read_slots : ℕ
read_slots = 3

abbrev pub demand_timeout_ns : ℕ
demand_timeout_ns = 250000000

abbrev pub no_read : Read
no_read = record { in_flight = false; read_generation = 0 }

abbrev pub next_generation : ℕ → ℕ
next_generation n = (n + 1) % 2 ^ 32

-- What the system answers in the end: after a stall that is cleared the read is tried again.
unfoldable pub final_answer : Answers → Io
final_answer a =
    if is_stall a.first_read && is_success a.cleared then a.second_read else a.first_read

abbrev pub expire : Demand → Demand
expire demand = record demand { requested = false }

abbrev pub no_demand : Demand
no_demand = record { requested = false; last_demand_ns = 0 }

abbrev pub forget : Demand → Demand
forget demand = no_demand

module _ {A : Type 0} where
  abbrev pub read_at : Drain A → ℕ → Read
  read_at d i = get_or d.reads i no_read

  abbrev pub put_read : Drain A → ℕ → Read → Drain A
  put_read d i r = record d { reads = set d.reads i r }

  abbrev pub demand_of : Drain A → Demand
  demand_of d = elim d.shared_demand [ none ↦ d.own_demand | some shared ↦ shared ]

  -- `submit_waveform_read`
  unfoldable pub submit_read : Drain A → ℕ → Answers → Io × Drain A
  unfolding final_answer
  submit_read d i a =
      if not d.pipe_open || not d.running
      then (io_not_ready, d)
      else if (read_at d i).in_flight
      then (io_busy, d)
      else let result = final_answer a in
        (
          result,
          put_read d i (record { in_flight = is_success result; read_generation = d.generation }),
        )

  abbrev pub count_error : Drain A → Drain A
  count_error d = record d { errors = d.errors + 1 }

  -- What the end of a completion makes of its submission.
  abbrev pub check_submit : Io × Drain A → Drain A
  check_submit (result, d) = if is_success result then d else count_error d

  -- A demand that has run out.
  unfoldable pub end_demand : Drain A → Drain A
  end_demand d = record d {
    own_demand = expire d.own_demand;
    shared_demand = Option.map expire d.shared_demand;
  }

  -- The decoded frames go into the ring.
  unfoldable pub accept_frames : Drain A → List A → Drain A
  accept_frames d frames =
      let (accepted, ring) = write d.ring frames in
      record d {
        ring = ring;
        frames_decoded = d.frames_decoded + length frames;
        ring_drops = d.ring_drops + (length frames - accepted);
      }

  unfoldable pub is_current : Drain A → ℕ → Bool
  is_current d generation = d.running && d.generation == generation

  -- A block that has come while capture is wanted; `frames` are what is decoded, `meanwhile` what other threads
  -- do in that time.
  unfoldable pub take_block : (Drain A → Drain A) → Drain A → ℕ → List A → Drain A
  unfolding is_current accept_frames
  take_block meanwhile d generation frames =
      let later = meanwhile d in
      if is_current later generation then accept_frames later frames else later

  -- A successful read of the current generation.
  unfoldable pub use_block : (Drain A → Drain A) → Drain A → ℕ → List A → ℕ → Drain A
  unfolding take_block end_demand
  use_block meanwhile d generation frames now_ns =
      let counted = record d { completions = d.completions + 1 } in
      let demand = demand_of d in
      let age = sub64 now_ns demand.last_demand_ns in
      if demand.requested && not (demand.last_demand_ns == 0) && ltb age demand_timeout_ns
      then take_block meanwhile counted generation frames
      else if not (demand.last_demand_ns == 0) && leb demand_timeout_ns age
      then end_demand counted
      else counted

  -- `waveform_read_complete` of slot `i`, with the frames that its block decodes to.
  unfoldable pub read_complete :
      (Drain A → Drain A) → Drain A → ℕ → Io → List A → ℕ → Answers → Drain A
  unfolding use_block submit_read
  read_complete meanwhile d i status frames now_ns a =
      let read = read_at d i in
      let ended = put_read d i (record read { in_flight = false }) in
      if not d.running
      then ended
      else if not (read.read_generation == d.generation)
      then (submit_read ended i a).1
      else let used =
          if is_success status
          then use_block meanwhile ended read.read_generation frames now_ns
          else count_error ended in
        check_submit (submit_read used i a)

  -- The loop of `start_waveform_drain` from slot `i` on, with the answers for the slots that are left.
  unfoldable pub submit_all : Drain A → ℕ → List Answers → Drain A
  submit_all d i [] = d
  submit_all d i (a ∷ rest) = submit_all (check_submit (submit_read d i a)) (suc i) rest

  unfoldable pub start_drain : Drain A → Answers → Answers → Answers → Drain A
  unfolding submit_all
  start_drain d a b c =
      if not d.pipe_open
      then d
      else submit_all (record d { generation = next_generation d.generation; running = true }) 0
          (a ∷ b ∷ c ∷ [])

  -- `ns6_usb_reset_capture_session`
  unfoldable pub reset_session : Drain A → Drain A
  reset_session d = record d {
    own_demand = no_demand;
    shared_demand = Option.map forget d.shared_demand;
    generation = next_generation d.generation;
  }

  -- `stop_waveform_drain`
  unfoldable pub stop_drain : Drain A → Drain A
  unfolding reset_session
  stop_drain d = record (reset_session d) { running = false }
