-- ===== src/Realtime.antt =====
-- The work interval of the USB thread (coreaudio/NS6USBRealtime.h). What the system answers to a call is an
-- argument; the references and joins that it then holds, the intervals that were started, and the calls to
-- finish one, are counted in a `Group`. A pointer is never NULL.
use numark_ns6_mac_arm.Prelude.{
  ℕ, ◌+◌, ◌-◌, ◌*◌, ◌/◌, Bool, true, false, not, ◌&&◌, ◌||◌, if◌then◌else◌, leb, ltb, ◌==◌,
}
use numark_ns6_mac_arm.Prelude.Words.{u64_max}
pub mod Interval
mod Tests

-- The quotient of the 128-bit numbers, rounded up and cut at UINT64_MAX.
unfoldable pub duration_ticks : ℕ → ℕ → ℕ → ℕ
duration_ticks duration_ns numer denom =
    if numer == 0 || denom == 0
    then 0
    else let ticks = (duration_ns * denom + numer - 1) / numer in
      if ltb u64_max ticks then u64_max else ticks

unfoldable pub deadline_after : ℕ → ℕ → ℕ
deadline_after start duration = if ltb (u64_max - start) duration then u64_max else start + duration

-- `NS6USBRealtimeInterval`, with whether there is an interval.
pub record RealtimeInterval : Type 0 where
  pub interval : Bool
  pub joined : Bool
  pub active : Bool

abbrev pub no_interval : RealtimeInterval
no_interval = record { interval = false; joined = false; active = false }

-- What the system holds for the thread, and the calls about its intervals.
pub record Group : Type 0 where
  pub references : ℕ
  pub joins : ℕ
  pub starts : ℕ
  pub finishes : ℕ

pub record State : Type 0 where
  pub interval_state : RealtimeInterval
  pub group : Group

-- The arguments say whether AudioWorkIntervalCreate gives an interval, and whether os_workgroup_join
-- returns 0.
unfoldable pub interval_init : Bool → Bool → State → Bool × State
interval_init created joins_it s =
    if not created
    then (false, record s { interval_state = no_interval })
    else if not joins_it
    then (
      false,
      record s {
        interval_state = no_interval;
        group = record (s.group) { references = s.group.references + 1 - 1 };
      },
    )
    else (
      true,
      record s {
        interval_state = record { interval = true; joined = true; active = false };
        group = record (s.group) { references = s.group.references + 1; joins = s.group.joins + 1 };
      },
    )

-- The last argument says whether os_workgroup_interval_start returns 0, as does the result.
unfoldable pub interval_begin : ℕ → ℕ → Bool → State → Bool × State
interval_begin start deadline starts s =
    let i = s.interval_state in
    if not i.interval || not i.joined || i.active || leb deadline start
    then (false, s)
    else if starts
    then (
      true,
      record s {
        interval_state = record i { active = true };
        group = record (s.group) { starts = s.group.starts + 1 };
      },
    )
    else (false, s)

-- The argument says whether os_workgroup_interval_finish returns 0, as does the result.
unfoldable pub interval_finish : Bool → State → Bool × State
interval_finish success s =
    let i = s.interval_state in
    if not i.interval || not i.joined || not i.active then (false, s) else (
      success,
      record s {
        interval_state = record i { active = false };
        group = record (s.group) { finishes = s.group.finishes + 1 };
      },
    )

-- What destroy does behind its call of finish.
unfoldable pub leave_group : State → State
leave_group s =
    let i = s.interval_state in
    record s {
      interval_state = no_interval;
      group = record (s.group) {
        joins = if i.joined && i.interval then s.group.joins - 1 else s.group.joins;
        references = if i.interval then s.group.references - 1 else s.group.references;
      };
    }

unfoldable pub interval_destroy : Bool → State → State
unfolding interval_finish leave_group
interval_destroy success s =
    leave_group (if s.interval_state.active then (interval_finish success s).1 else s)
