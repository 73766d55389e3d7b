-- ===== src/Metrics/Counting.antt =====
-- What a call adds to the counters of its client, and what a report tells of them
-- (coreaudio/NS6IOMetrics.c), field by field.
use numark_ns6_mac_arm.Metrics.{
  Snapshot, clear, ClientMetrics, time_call, update_max, count_call, report, store_output,
}
use numark_ns6_mac_arm.Prelude.{
  ℕ, ◌+◌, ◌-◌, ◌%◌, ◌^◌, ◌≤◌, ◌<◌, max, ◌≡◌, refl, ◌≢◌, ◌⊎◌, Bool, arith,
}

-- A counter that goes up by so much, as a uint64_t.
abbrev Grows : ℕ → ℕ → ℕ → Type 0
Grows by before after = after ≡ (before + by) % 2 ^ 64

-- The counters `t` behind a call, of a client that had `s`.
pub record Counted (frames cycle output_sample_time : ℕ) (is_valid : Bool)
    (start_ns callback_ns deadline_ns : ℕ) (s t : ClientMetrics) : Type 0 where
  pub same_key : t.client_key ≡ s.client_key
  pub one_call : Grows 1 s.calls t.calls
  pub its_frames : Grows frames s.frames t.frames
  pub its_cycle : t.last_cycle ≡ cycle
  pub duplicate :
      ((cycle ≢ 0) × (s.last_cycle ≡ cycle) × Grows 1 s.duplicate_cycles t.duplicate_cycles)
      ⊎ ((cycle ≡ 0 ⊎ (s.last_cycle ≢ cycle)) × (t.duplicate_cycles ≡ s.duplicate_cycles))
  pub skipped :
      ((0 < s.last_cycle)
        × (s.last_cycle + 1 < cycle)
        × (cycle < s.last_cycle + 1024)
        × Grows (cycle - s.last_cycle - 1) s.skipped_cycles t.skipped_cycles)
      ⊎ ((s.last_cycle ≡ 0 ⊎ (cycle ≤ s.last_cycle + 1) ⊎ (s.last_cycle + 1024 ≤ cycle))
          × (t.skipped_cycles ≡ s.skipped_cycles))
  pub its_start : t.last_callback_start_ns ≡ start_ns
  pub interval :
      ((0 < s.last_callback_start_ns)
        × (s.last_callback_start_ns < start_ns)
        × Grows 1 s.interval_count t.interval_count
        × Grows (start_ns - s.last_callback_start_ns) s.interval_total_ns t.interval_total_ns
        × (t.max_interval_ns ≡ max s.max_interval_ns (start_ns - s.last_callback_start_ns)))
      ⊎ ((s.last_callback_start_ns ≡ 0 ⊎ (start_ns ≤ s.last_callback_start_ns))
          × (t.interval_count ≡ s.interval_count)
          × (t.interval_total_ns ≡ s.interval_total_ns)
          × (t.max_interval_ns ≡ s.max_interval_ns))
  pub longest : t.max_callback_ns ≡ max s.max_callback_ns callback_ns
  pub missed :
      ((0 < deadline_ns)
        × (deadline_ns < callback_ns)
        × Grows 1 s.deadline_misses t.deadline_misses)
      ⊎ ((deadline_ns ≡ 0 ⊎ (callback_ns ≤ deadline_ns)) × (t.deadline_misses ≡ s.deadline_misses))
  pub its_position : t.last_output_sample_time ≡ output_sample_time
  pub its_length : t.last_output_frames ≡ frames
  pub its_validity : t.output_sample_time_valid ≡ is_valid

pub calls-Counted :
    (frames cycle output_sample_time : ℕ) (is_valid : Bool) (start_ns callback_ns deadline_ns : ℕ)
    (s : ClientMetrics)
    → cycle < 2 ^ 64
    → s.last_cycle + 1 < 2 ^ 64
    → Counted frames cycle output_sample_time is_valid start_ns callback_ns deadline_ns s (
        store_output frames output_sample_time is_valid
          (time_call start_ns callback_ns deadline_ns (count_call frames cycle s)))
unfolding store_output time_call count_call update_max
calls-Counted frames cycle output_sample_time is_valid start_ns callback_ns deadline_ns s lt small =
    record {
      same_key = refl;
      one_call = refl;
      its_frames = refl;
      its_cycle = refl;
      duplicate = ground arith;
      skipped = ground arith;
      its_start = refl;
      interval = ground arith;
      longest = ground arith;
      missed = ground arith;
      its_position = refl;
      its_length = refl;
      its_validity = refl;
    }

-- What a snapshot says of a client with the counters `s`.
pub record Tells (s : ClientMetrics) (t : Snapshot) : Type 0 where
  pub client : t.client_id ≡ (s.client_key - 1) % 2 ^ 32
  pub calls : t.calls ≡ s.calls
  pub frames : t.frames ≡ s.frames
  pub cycle : t.last_cycle ≡ s.last_cycle
  pub position : t.last_output_sample_time ≡ s.last_output_sample_time
  pub size : t.last_output_frames ≡ s.last_output_frames
  pub validity : t.output_sample_time_valid ≡ s.output_sample_time_valid
  pub duplicates : t.duplicate_cycles ≡ s.duplicate_cycles
  pub skips : t.skipped_cycles ≡ s.skipped_cycles
  pub intervals : t.interval_count ≡ s.interval_count
  pub total : t.interval_total_ns ≡ s.interval_total_ns
  pub longest_interval : t.max_interval_ns ≡ s.max_interval_ns
  pub longest_call : t.max_callback_ns ≡ s.max_callback_ns
  pub misses : t.deadline_misses ≡ s.deadline_misses

-- What a snapshot leaves of the counters `s`: the client and its last positions, and no counts.
pub record Cleared (s t : ClientMetrics) : Type 0 where
  pub same_key : t.client_key ≡ s.client_key
  pub same_cycle : t.last_cycle ≡ s.last_cycle
  pub same_position : t.last_output_sample_time ≡ s.last_output_sample_time
  pub same_size : t.last_output_frames ≡ s.last_output_frames
  pub same_validity : t.output_sample_time_valid ≡ s.output_sample_time_valid
  pub same_start : t.last_callback_start_ns ≡ s.last_callback_start_ns
  pub no_calls : (t.calls ≡ 0) × (t.frames ≡ 0)
  pub no_cycles : (t.duplicate_cycles ≡ 0) × (t.skipped_cycles ≡ 0)
  pub no_intervals : (t.interval_count ≡ 0) × (t.interval_total_ns ≡ 0) × (t.max_interval_ns ≡ 0)
  pub no_times : (t.max_callback_ns ≡ 0) × (t.deadline_misses ≡ 0)

pub report-Tells : (s : ClientMetrics) → Tells s (report s)
unfolding report
report-Tells s = record {
  client = refl;
  calls = refl;
  frames = refl;
  cycle = refl;
  position = refl;
  size = refl;
  validity = refl;
  duplicates = refl;
  skips = refl;
  intervals = refl;
  total = refl;
  longest_interval = refl;
  longest_call = refl;
  misses = refl;
}

pub clear-Cleared : (s : ClientMetrics) → Cleared s (clear s)
unfolding clear
clear-Cleared s = record {
  same_key = refl;
  same_cycle = refl;
  same_position = refl;
  same_size = refl;
  same_validity = refl;
  same_start = refl;
  no_calls = (refl, refl);
  no_cycles = (refl, refl);
  no_intervals = (refl, refl, refl);
  no_times = (refl, refl);
}
