-- ===== src/Metrics.antt =====
-- The statistics of the I/O callbacks, one slot for a client (coreaudio/NS6IOMetrics.c and .h). The
-- counters are uint64_t; a client id and a number of frames are uint32_t. A call here does not overlap
-- another, so each exchange loop is one assignment; a pointer is never NULL.
use numark_ns6_mac_arm.Prelude.{
  ℕ, zero, suc, ◌+◌, ◌-◌, ◌%◌, ◌^◌, Bool, false, not, ◌&&◌, List, [], ◌∷◌, if◌then◌else◌, ltb, ◌==◌,
  replicate,
}
use numark_ns6_mac_arm.Prelude.Words.{sub64, add64}
pub mod Counting
pub mod Table
pub mod Report
mod Tests

abbrev pub max_clients : ℕ
max_clients = 32

pub record ClientMetrics : Type 0 where
  pub client_key : ℕ
  pub calls : ℕ
  pub frames : ℕ
  pub last_cycle : ℕ
  pub last_output_sample_time : ℕ
  pub last_output_frames : ℕ
  pub output_sample_time_valid : Bool
  pub duplicate_cycles : ℕ
  pub skipped_cycles : ℕ
  pub last_callback_start_ns : ℕ
  pub interval_count : ℕ
  pub interval_total_ns : ℕ
  pub max_interval_ns : ℕ
  pub max_callback_ns : ℕ
  pub deadline_misses : ℕ

abbrev pub unused : ClientMetrics
unused = record {
  client_key = 0;
  calls = 0;
  frames = 0;
  last_cycle = 0;
  last_output_sample_time = 0;
  last_output_frames = 0;
  output_sample_time_valid = false;
  duplicate_cycles = 0;
  skipped_cycles = 0;
  last_callback_start_ns = 0;
  interval_count = 0;
  interval_total_ns = 0;
  max_interval_ns = 0;
  max_callback_ns = 0;
  deadline_misses = 0;
}

unfoldable pub init : List ClientMetrics
init = replicate max_clients unused

unfoldable pub update_max : ℕ → ℕ → ℕ
update_max value candidate = if ltb value candidate then candidate else value

-- The loop of `client_slot` for a key, and what the caller does to the slot that it returns: the slot
-- with the key, or the first free one in front of it, which gets the key. Without such a slot nothing
-- is done.
unfoldable pub with_slot :
    ℕ → (ClientMetrics → ClientMetrics) → List ClientMetrics → List ClientMetrics
with_slot key f [] = []
with_slot key f (s ∷ ss) =
    let rest = with_slot key f ss in
    if s.client_key == key
    then f s ∷ ss
    else if s.client_key == 0
    then f (record s { client_key = key }) ∷ ss
    else s ∷ rest

-- The body of `ns6_io_metrics_record`, and the first half of that of the timed call.
unfoldable pub count_call : ℕ → ℕ → ClientMetrics → ClientMetrics
count_call frames cycle s =
    let previous = s.last_cycle in
    record s {
      calls = add64 s.calls 1;
      frames = add64 s.frames frames;
      last_cycle = cycle;
      duplicate_cycles =
          if not (cycle == 0) && previous == cycle
          then add64 s.duplicate_cycles 1
          else s.duplicate_cycles;
      skipped_cycles =
          if not (cycle == 0)
            && not (previous == 0)
            && ltb (add64 previous 1) cycle
            && ltb (sub64 cycle previous) 1024
          then add64 s.skipped_cycles (sub64 cycle previous - 1)
          else s.skipped_cycles;
    }

-- The second half of the timed call.
unfoldable pub time_call : ℕ → ℕ → ℕ → ClientMetrics → ClientMetrics
unfolding update_max
time_call start_ns callback_ns deadline_ns s =
    let previous = s.last_callback_start_ns in
    let interval_ns = start_ns - previous in
    let follows = not (start_ns == 0) && not (previous == 0) && ltb previous start_ns in
    record s {
      last_callback_start_ns = start_ns;
      interval_count = if follows then add64 s.interval_count 1 else s.interval_count;
      interval_total_ns =
          if follows then add64 s.interval_total_ns interval_ns else s.interval_total_ns;
      max_interval_ns =
          if follows then update_max s.max_interval_ns interval_ns else s.max_interval_ns;
      max_callback_ns = update_max s.max_callback_ns callback_ns;
      deadline_misses =
          if not (deadline_ns == 0) && ltb deadline_ns callback_ns
          then add64 s.deadline_misses 1
          else s.deadline_misses;
    }

unfoldable pub store_output : ℕ → ℕ → Bool → ClientMetrics → ClientMetrics
store_output frames output_sample_time valid s = record s {
  last_output_sample_time = output_sample_time;
  last_output_frames = frames;
  output_sample_time_valid = valid;
}

-- `ns6_io_metrics_record`, of which the name is a keyword here.
unfoldable pub record_call : List ClientMetrics → ℕ → ℕ → ℕ → List ClientMetrics
unfolding with_slot count_call
record_call m client_id frames cycle = with_slot (client_id + 1) (count_call frames cycle) m

unfoldable pub record_timed : List ClientMetrics → ℕ → ℕ → ℕ → ℕ → ℕ → ℕ → List ClientMetrics
unfolding with_slot count_call time_call
record_timed m client_id frames cycle start_ns callback_ns deadline_ns =
    with_slot (client_id + 1)
      (λ s. time_call start_ns callback_ns deadline_ns (count_call frames cycle s)) m

unfoldable pub record_output_timed :
    List ClientMetrics → ℕ → ℕ → ℕ → ℕ → Bool → ℕ → ℕ → ℕ → List ClientMetrics
unfolding with_slot record_timed store_output
record_output_timed m client_id frames cycle output_sample_time valid start_ns callback_ns
      deadline_ns =
    with_slot (client_id + 1) (store_output frames output_sample_time valid)
      (record_timed m client_id frames cycle start_ns callback_ns deadline_ns)

pub record Snapshot : Type 0 where
  pub client_id : ℕ
  pub calls : ℕ
  pub frames : ℕ
  pub last_cycle : ℕ
  pub last_output_sample_time : ℕ
  pub last_output_frames : ℕ
  pub output_sample_time_valid : Bool
  pub duplicate_cycles : ℕ
  pub skipped_cycles : ℕ
  pub interval_count : ℕ
  pub interval_total_ns : ℕ
  pub max_interval_ns : ℕ
  pub max_callback_ns : ℕ
  pub deadline_misses : ℕ

unfoldable pub report : ClientMetrics → Snapshot
report s = record {
  client_id = (s.client_key - 1) % 2 ^ 32;
  calls = s.calls;
  frames = s.frames;
  last_cycle = s.last_cycle;
  last_output_sample_time = s.last_output_sample_time;
  last_output_frames = s.last_output_frames;
  output_sample_time_valid = s.output_sample_time_valid;
  duplicate_cycles = s.duplicate_cycles;
  skipped_cycles = s.skipped_cycles;
  interval_count = s.interval_count;
  interval_total_ns = s.interval_total_ns;
  max_interval_ns = s.max_interval_ns;
  max_callback_ns = s.max_callback_ns;
  deadline_misses = s.deadline_misses;
}

-- What the exchanges leave of the slot.
unfoldable pub clear : ClientMetrics → ClientMetrics
clear s = record s {
  calls = 0;
  frames = 0;
  duplicate_cycles = 0;
  skipped_cycles = 0;
  interval_count = 0;
  interval_total_ns = 0;
  max_interval_ns = 0;
  max_callback_ns = 0;
  deadline_misses = 0;
}

-- Returns the snapshots, and what is left.
unfoldable pub take_snapshot : List ClientMetrics → ℕ → List Snapshot × List ClientMetrics
unfolding report clear
take_snapshot [] capacity = ([], [])
take_snapshot (s ∷ ss) zero = ([], s ∷ ss)
take_snapshot (s ∷ ss) (suc n) =
    let free = s.client_key == 0 in
    let rest = take_snapshot ss (if free then suc n else n) in
    if free then (rest.0, s ∷ rest.1) else (report s ∷ rest.0, clear s ∷ rest.1)
