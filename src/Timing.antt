-- ===== src/Timing.antt =====
-- The statistics of the USB callbacks (coreaudio/NS6USBTiming.c and .h): how many intervals there were,
-- their sum, and the shortest and longest. The counters are uint64_t. A call here does not overlap
-- another, so the exchange loops of `update_min` and `update_max` are one assignment; a pointer is
-- never NULL.
use numark_ns6_mac_arm.Prelude.{ℕ, ◌-◌, ◌^◌, Bool, not, ◌||◌, if◌then◌else◌, leb, ltb, ◌==◌}
use numark_ns6_mac_arm.Prelude.Words.{add64}
pub mod Summary
mod Tests

pub record Timing : Type 0 where
  pub last_ns : ℕ
  pub intervals : ℕ
  pub total_ns : ℕ
  pub min_ns : ℕ
  pub max_ns : ℕ

pub init : Timing
init = record { last_ns = 0; intervals = 0; total_ns = 0; min_ns = 2 ^ 64 - 1; max_ns = 0 }

pub update_min : ℕ → ℕ → ℕ
update_min value candidate = if ltb candidate value then candidate else value

pub update_max : ℕ → ℕ → ℕ
update_max value candidate = if ltb value candidate then candidate else value

pub record_duration : Timing → ℕ → Timing
unfolding update_min update_max
record_duration t duration_ns = record t {
  intervals = add64 t.intervals 1;
  total_ns = add64 t.total_ns duration_ns;
  min_ns = update_min t.min_ns duration_ns;
  max_ns = update_max t.max_ns duration_ns;
}

-- `ns6_usb_timing_record`; the part after its early returns is that of a duration.
pub record_timestamp : Timing → ℕ → Timing
unfolding record_duration
record_timestamp t timestamp_ns =
    if timestamp_ns == 0
    then t
    else let previous = t.last_ns in
      let exchanged = record t { last_ns = timestamp_ns } in
      if previous == 0 || leb timestamp_ns previous
      then exchanged
      else record_duration exchanged (timestamp_ns - previous)

pub record Snapshot : Type 0 where
  pub intervals : ℕ
  pub total_ns : ℕ
  pub min_ns : ℕ
  pub max_ns : ℕ

-- Returns whether there was an interval, the snapshot, and what is left.
pub take_snapshot : Timing → Bool × Snapshot × Timing
take_snapshot t = (
  not (t.intervals == 0),
  record { intervals = t.intervals; total_ns = t.total_ns; min_ns = t.min_ns; max_ns = t.max_ns },
  record t { intervals = 0; total_ns = 0; min_ns = 2 ^ 64 - 1; max_ns = 0 },
)

pub is_callback_gap : ℕ → Bool
is_callback_gap interval_ns = leb 20000000 interval_ns

pub is_slow_submit : ℕ → Bool
is_slow_submit duration_ns = leb 5000000 duration_ns
