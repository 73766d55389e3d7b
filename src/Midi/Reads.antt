-- ===== src/Midi/Reads.antt =====
-- How many of the four MIDI reads are kept in flight (coreaudio/NS6MIDIReadLifecycle.h), and the lease
-- messages that say so (coreaudio/NS6MIDILease.h). The compile-time counts are a `Build`. A pointer is
-- never NULL here.
use Prim.Native.Nat.{bit_and}
use numark_ns6_mac_arm.Midi.Recovery.{complement}
use numark_ns6_mac_arm.Prelude.{
  ℕ, ◌-◌, ◌^◌, Bool, not, ◌&&◌, ◌||◌, Option, none, some, List, [], ◌∷◌, if◌then◌else◌, leb, ltb,
  ◌==◌,
}
pub mod Targets
pub mod Leases
mod Tests

pub record Build : Type 0 where
  pub idle_read_count : ℕ  -- NS6_MIDI_IDLE_READ_COUNT
  pub initial_read_count : ℕ  -- NS6_MIDI_INITIAL_READ_COUNT

abbrev pub active_read_count : ℕ
active_read_count = 4

pub data ReadAction : Type 0 where
  noop quiesce rearm : ReadAction

pub read_action : Bool → ℕ → ℕ → ReadAction
read_action session_running target_count active_count =
    if not session_running || target_count == active_count
    then noop
    else if ltb active_count target_count
    then rearm
    else quiesce

abbrev capped : ℕ → ℕ
capped count = if ltb active_read_count count then active_read_count else count

pub read_target_count : Build → Bool → Bool → ℕ
read_target_count b session_running audio_active =
    if not session_running
    then 0
    else capped (if audio_active then active_read_count else b.idle_read_count)

pub read_initial_count : Build → Bool → ℕ
read_initial_count b session_running =
    if not session_running then 0 else capped b.initial_read_count

pub read_target_mask : ℕ → ℕ
read_target_mask target_count =
    if leb active_read_count target_count
    then 2 ^ active_read_count - 1
    else if target_count == 0
    then 0
    else 2 ^ target_count - 1

pub read_missing_mask : ℕ → ℕ → ℕ
unfolding read_target_mask
read_missing_mask target_count in_flight_mask =
    bit_and (read_target_mask target_count) (complement in_flight_mask)

pub read_should_submit : Bool → ℕ → ℕ → Bool → Bool
read_should_submit session_running target_count slot recovery_active =
    session_running && (ltb slot target_count && not recovery_active)

pub read_completion_should_continue : Bool → ℕ → ℕ → Bool → Bool
unfolding read_should_submit
read_completion_should_continue session_running target_count slot recovery_active =
    read_should_submit session_running target_count slot recovery_active

pub should_poll : Bool → Bool → Bool
should_poll enabled session_running = enabled && session_running

pub lease_expired : Bool → ℕ → ℕ → ℕ → Bool
lease_expired active last_activity_ms now_ms timeout_ms =
    active
    && (not (last_activity_ms == 0)
        && (leb last_activity_ms now_ms && leb timeout_ms (now_ms - last_activity_ms)))

-- Returns what the message sets `active` to; `none` leaves it.
pub lease_decode : List ℕ → Option Bool
lease_decode (n ∷ s ∷ six ∷ l ∷ flag ∷ []) =
    if n == 0x4e && s == 0x53 && six == 0x36 && l == 0x4c && leb flag 1
    then some (not (flag == 0))
    else none
lease_decode _ = none
