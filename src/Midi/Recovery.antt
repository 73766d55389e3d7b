-- ===== src/Midi/Recovery.antt =====
-- Recovery of the MIDI reads from USB errors (coreaudio/NS6MIDIRecovery.h): masks of the four read
-- slots, and the delays between attempts. A mask is a uint32_t; `1 << slot` is `2 ^ slot`, and `~m` is
-- `2 ^ 32 - 1 - m`.
use Prim.Native.Nat.{bit_and, bit_or}
use numark_ns6_mac_arm.Prelude.{
  ℕ, zero, suc, ◌+◌, ◌-◌, ◌*◌, ◌%◌, ◌^◌, Bool, ◌&&◌, ◌||◌, Option, none, some, if◌then◌else◌, leb,
  ltb, ◌==◌,
}
pub mod Masks
pub mod Delays
mod Tests

abbrev pub recovery_slots : ℕ
recovery_slots = 4

pub data ErrorClass : Type 0 where
  other not_responding pipe_stalled : ErrorClass

pub error_class : ℕ → ℕ → ℕ → ErrorClass
error_class status not_responding_status pipe_stalled_status =
    if status == not_responding_status
    then not_responding
    else if status == pipe_stalled_status
    then pipe_stalled
    else other

pub withhold_not_responding : ℕ → ℕ → Bool → Bool
withhold_not_responding status not_responding_status diagnostic_enabled =
    diagnostic_enabled && status == not_responding_status

pub requires_pipe_clear : ℕ → ℕ → Bool
requires_pipe_clear status pipe_stalled_status = status == pipe_stalled_status

pub should_reidentify : Bool → Bool → Bool → Bool
should_reidentify pipe_stall_recovered recovery_succeeded all_reads_resubmitted =
    pipe_stall_recovered && (recovery_succeeded && all_reads_resubmitted)

abbrev pub complement : ℕ → ℕ
complement m = 2 ^ 32 - 1 - m

pub in_flight_set : ℕ → ℕ → ℕ
in_flight_set mask slot = if ltb slot recovery_slots then bit_or mask (2 ^ slot) else mask

pub in_flight_clear : ℕ → ℕ → ℕ
in_flight_clear mask slot =
    if ltb slot recovery_slots then bit_and mask (complement (2 ^ slot)) else mask

-- `while (mask) { mask &= mask - 1; ++count; }`, on fuel: 32 rounds are enough for a uint32_t.
pub count_from : ℕ → ℕ → ℕ → Option ℕ
count_from zero mask count = none
count_from (suc fuel) mask count =
    let rest = count_from fuel (bit_and mask (mask - 1)) (count + 1) in
    if mask == 0 then some count else rest

pub in_flight_count : ℕ → Option ℕ
unfolding count_from
in_flight_count mask = count_from 33 mask 0

pub in_flight_minimum : ℕ → ℕ → ℕ
in_flight_minimum current observed = if ltb observed current then observed else current

pub elapsed_us : ℕ → ℕ → ℕ
elapsed_us started_us finished_us =
    if leb started_us finished_us then finished_us - started_us else 0

pub log_due : ℕ → ℕ → ℕ → Bool
log_due now_ms last_log_ms interval_ms =
    last_log_ms == 0 || (leb last_log_ms now_ms && leb interval_ms (now_ms - last_log_ms))

pub recovery_add : ℕ → ℕ → ℕ
recovery_add pending slot = if ltb slot recovery_slots then bit_or pending (2 ^ slot) else pending

pub expand_pipe_stall : ℕ → ℕ
expand_pipe_stall pending = if pending == 0 then 0 else 2 ^ recovery_slots - 1

-- Returns what was pending, and what is left.
pub recovery_take : ℕ → ℕ × ℕ
recovery_take pending = (pending, 0)

pub recovery_ready : ℕ → ℕ → ℕ
recovery_ready completed in_flight = bit_and completed (complement in_flight)

unfoldable pub backoff_ms : ℕ → ℕ
backoff_ms attempt =
    if attempt == 0 then 0 else if leb 6 attempt then 1000 else (50 * 2 ^ (attempt - 1)) % 2 ^ 32

pub retry_backoff_ms : ℕ → ℕ → Bool → ℕ
retry_backoff_ms recovery_failures clear_failures clear_pending =
    let submission_retry = if ltb 0 recovery_failures then recovery_failures - 1 else 0 in
    let attempt =
      if clear_pending
      then (if ltb submission_retry clear_failures then clear_failures else submission_retry)
      else recovery_failures in
    backoff_ms attempt
