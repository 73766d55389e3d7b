-- ===== src/Clock.antt =====
-- The clock control of the USB output (coreaudio/NS6ClockControl.c and .h): it averages the rate
-- reports of the device and says how many frames each USB packet carries. The two compile-time
-- switches and the lower limit of the output rate are a `Build`. The double arithmetic of
-- `ns6_clock_control_source_frames_per_output_frame` is left out. A pointer is never NULL here.
use numark_ns6_mac_arm.Prelude.{
  ℕ, zero, suc, ◌+◌, ◌-◌, ◌*◌, ◌/◌, ◌%◌, ◌^◌, Bool, true, false, not, ◌&&◌, List, [], ◌∷◌,
  if◌then◌else◌, leb, ltb, ◌==◌, get_or, replicate, set,
}
use numark_ns6_mac_arm.Prelude.Int.{ℤ, negsuc, pos}
use numark_ns6_mac_arm.Prelude.Words.{add64, sub64}
pub mod Window
pub mod Reports
pub mod Cadence
mod Tests

pub record Build : Type 0 where
  pub adaptive : Bool  -- NS6_ADAPTIVE_CLOCK_ENABLED
  pub pattern_scheduler : Bool  -- NS6_FEEDBACK_PATTERN_SCHEDULER_ENABLED
  pub min_output_rate_millihz : ℕ  -- NS6_ADAPTIVE_CLOCK_MIN_OUTPUT_RATE_MILLIHZ

abbrev pub nominal_rate_millihz : ℕ
nominal_rate_millihz = 44100000

abbrev pub max_output_rate_millihz : ℕ
max_output_rate_millihz = 44100300

abbrev pub feedback_min : ℕ
feedback_min = 42

abbrev pub feedback_max : ℕ
feedback_max = 46

abbrev pub window_size : ℕ
window_size = 40000

abbrev pub pattern_capacity : ℕ
pattern_capacity = 256

pub record ClockControl : Type 0 where
  pub feedback_sum : ℕ
  pub rate_millihz : ℕ
  pub requested_total : ℕ
  pub sent_total : ℕ
  pub fixed_fraction : ℕ
  pub adaptive_fraction : ℕ  -- adaptive_fraction_millionths
  pub feedback_count : ℕ
  pub feedback_index : ℕ
  pub locked : Bool
  pub target_frames_per_ms : ℕ
  pub feedback_window : List ℕ
  pub pattern_queue : List ℕ
  pub pattern_queue_read : ℕ
  pub pattern_queue_count : ℕ

-- What `memset` leaves of the two arrays.
pub zero_window : List ℕ
zero_window = replicate window_size 0

pub zero_queue : List ℕ
zero_queue = replicate pattern_capacity 0

pub init : ClockControl
init = record {
  feedback_sum = 0;
  rate_millihz = nominal_rate_millihz;
  requested_total = 0;
  sent_total = 0;
  fixed_fraction = 0;
  adaptive_fraction = 0;
  feedback_count = 0;
  feedback_index = 0;
  locked = false;
  target_frames_per_ms = 44;
  feedback_window = zero_window;
  pattern_queue = zero_queue;
  pattern_queue_read = 0;
  pattern_queue_count = 0;
}

pub reset_feedback : ClockControl → ClockControl
reset_feedback c = record c {
  feedback_sum = 0;
  rate_millihz = nominal_rate_millihz;
  requested_total = 0;
  sent_total = 0;
  fixed_fraction = 0;
  adaptive_fraction = 0;
  feedback_count = 0;
  feedback_index = 0;
  locked = false;
  target_frames_per_ms = 44;
  feedback_window = zero_window;
  pattern_queue_read = 0;
  pattern_queue_count = 0;
}

unfoldable pub is_valid : ℕ → Bool
is_valid frames = leb feedback_min frames && leb frames feedback_max

-- The first part of `observe`: the report enters the window of the last 40000.
pub enter_window : ClockControl → ℕ → ClockControl
enter_window c frames =
    let old = get_or c.feedback_window c.feedback_index 0 in
    let full = c.feedback_count == window_size in
    record c {
      target_frames_per_ms = frames;
      requested_total = add64 c.requested_total frames;
      locked = true;
      feedback_sum = add64 (if full then sub64 c.feedback_sum old else c.feedback_sum) frames;
      feedback_count = if full then c.feedback_count else c.feedback_count + 1;
      feedback_window = set c.feedback_window c.feedback_index frames;
      feedback_index = (c.feedback_index + 1) % window_size;
    }

-- The part under `#if`: a full queue drops its oldest report. The cast to uint16_t changes no value
-- below 256.
pub drop_oldest : ClockControl → ClockControl
drop_oldest c =
    if c.pattern_queue_count == pattern_capacity
    then record c {
      pattern_queue_read = (c.pattern_queue_read + 1) % pattern_capacity;
      pattern_queue_count = c.pattern_queue_count - 1;
    }
    else c

pub append_report : ClockControl → ℕ → ClockControl
append_report c frames =
    let write_index = (c.pattern_queue_read + c.pattern_queue_count) % pattern_capacity in
    record c {
      pattern_queue = set c.pattern_queue write_index frames;
      pattern_queue_count = c.pattern_queue_count + 1;
    }

-- The last part: once the window is full the rate is its average.
pub update_rate : ClockControl → ClockControl
update_rate c =
    if c.feedback_count == window_size
    then record c { rate_millihz = (c.feedback_sum * 1000000) % 2 ^ 64 / window_size }
    else c

pub enqueue_report : Build → ClockControl → ℕ → ClockControl
enqueue_report b c frames =
    if b.adaptive && b.pattern_scheduler then append_report (drop_oldest c) frames else c

pub observe : Build → ClockControl → ℕ → ClockControl
observe b c frames =
    if is_valid frames then update_rate (enqueue_report b (enter_window c frames) frames) else c

abbrev measured_rate : ClockControl → ℕ
measured_rate c =
    if c.locked && not (c.rate_millihz == 0) then c.rate_millihz else nominal_rate_millihz

abbrev raise_to : ℕ → ℕ → ℕ
raise_to low rate = if ltb rate low then low else rate

abbrev lower_to : ℕ → ℕ → ℕ
lower_to high rate = if ltb high rate then high else rate

pub output_rate_millihz : Build → ClockControl → ℕ
output_rate_millihz b c =
    if b.adaptive
    then lower_to max_output_rate_millihz (raise_to b.min_output_rate_millihz (measured_rate c))
    else nominal_rate_millihz

-- The fixed cadence: 44 frames, and one more every tenth millisecond.
pub fixed_step : ClockControl → ℕ × ClockControl
fixed_step c =
    let fraction = add64 c.fixed_fraction 100 in
    if leb 1000 fraction
    then (45, record c { fixed_fraction = fraction - 1000 })
    else (44, record c { fixed_fraction = fraction })

-- The measured rate, with its fraction carried over.
pub adaptive_step : Build → ClockControl → ℕ × ClockControl
adaptive_step b c =
    let rate = output_rate_millihz b c in
    let fraction = add64 c.adaptive_fraction (rate % 1000000) in
    let carry = leb 1000000 fraction in
    let frames = (rate / 1000000) % 2 ^ 32 + (if carry then 1 else 0) in
    let floored = if ltb frames 40 then 40 else frames in
    (
      if ltb 48 floored then 48 else floored,
      record c { adaptive_fraction = if carry then fraction - 1000000 else fraction },
    )

-- The oldest report, if one is queued.
pub pattern_step : ClockControl → ℕ × ClockControl
pattern_step c = if c.pattern_queue_count == 0 then fixed_step c else (
  get_or c.pattern_queue c.pattern_queue_read 0,
  record c {
    pattern_queue_read = (c.pattern_queue_read + 1) % pattern_capacity;
    pattern_queue_count = c.pattern_queue_count - 1;
  },
)

-- `patterns[frames - 42]`: what the eight packets of a millisecond carry.
pub patterns : List (List ℕ)
patterns =
    (6 ∷ 5 ∷ 5 ∷ 5 ∷ 6 ∷ 5 ∷ 5 ∷ 5 ∷ [])
    ∷ (5 ∷ 5 ∷ 6 ∷ 5 ∷ 6 ∷ 5 ∷ 6 ∷ 5 ∷ [])
    ∷ (6 ∷ 5 ∷ 6 ∷ 5 ∷ 6 ∷ 5 ∷ 6 ∷ 5 ∷ [])
    ∷ (6 ∷ 6 ∷ 5 ∷ 6 ∷ 5 ∷ 6 ∷ 5 ∷ 6 ∷ [])
    ∷ (5 ∷ 6 ∷ 6 ∷ 6 ∷ 5 ∷ 6 ∷ 6 ∷ 6 ∷ [])
    ∷ []

-- The loop that spreads `frames` over the packets, with `n` packets left.
pub spread_from : ℕ → ℕ → ℕ → ℕ → List ℕ
spread_from zero base remainder accumulator = []
spread_from (suc n) base remainder accumulator =
    let sum = accumulator + remainder in
    let carry = leb 8 sum in
    (if carry then base + 1 else base)
    ∷ spread_from n base remainder (if carry then sum - 8 else sum)

pub spread : ℕ → List ℕ
unfolding spread_from
spread frames = spread_from 8 (frames / 8) (frames % 8) 0

abbrev pub count_sent : ℕ → ClockControl → ClockControl
count_sent frames c = record c { sent_total = add64 c.sent_total frames }

-- Returns what `packet_frames` is filled with.
pub next_millisecond : Build → ClockControl → List ℕ × ClockControl
next_millisecond b c =
    if b.adaptive && b.pattern_scheduler
    then (let (frames, c') = pattern_step c in
        (get_or patterns (frames - feedback_min) [], count_sent frames c'))
    else let (frames, c') = if b.adaptive then adaptive_step b c else fixed_step c in
      (spread frames, count_sent frames c')

-- Requested minus sent; the casts to int64_t change no value below 2 ^ 63.
pub debt : ClockControl → ℤ
debt c =
    if leb c.sent_total c.requested_total
    then pos (c.requested_total - c.sent_total)
    else negsuc (c.sent_total - c.requested_total - 1)
