-- ===== src/Driver/Packets.antt =====
-- How many frames each packet of the C++ driver carries (numark-ns6/audio-out/AudioPacketPolicy.cpp and .hpp,
-- numark-ns6/audio-feedback/AudioFeedbackPatternPolicy.cpp and .hpp). A report is a uint8_t; 40000 of them
-- fit into the uint64_t sum. An array stands whole in the record of its class.
use numark_ns6_mac_arm.Prelude.{
  ℕ, zero, suc, ◌+◌, ◌-◌, ◌*◌, ◌/◌, ◌%◌, ◌^◌, Bool, false, ◌&&◌, ◌||◌, Option, none, some, List, [],
  ◌∷◌, if◌then◌else◌, leb, ltb, ◌==◌, get_or, replicate, set,
}
use numark_ns6_mac_arm.Prelude.Words.{add64}
pub mod Patterns
pub mod Start
pub mod Millisecond
pub mod Queue
pub mod Requests
mod Tests

abbrev pub minimum_frames : ℕ
minimum_frames = 42

abbrev maximum_frames : ℕ
maximum_frames = 46

abbrev pub patterns : List (List ℕ)
patterns =
    (6 ∷ 5 ∷ 5 ∷ 5 ∷ 6 ∷ 5 ∷ 5 ∷ 5 ∷ [])
    ∷ (5 ∷ 5 ∷ 6 ∷ 5 ∷ 6 ∷ 5 ∷ 6 ∷ 5 ∷ [])
    ∷ (6 ∷ 5 ∷ 6 ∷ 5 ∷ 6 ∷ 5 ∷ 6 ∷ 5 ∷ [])
    ∷ (6 ∷ 6 ∷ 5 ∷ 6 ∷ 5 ∷ 6 ∷ 5 ∷ 6 ∷ [])
    ∷ (5 ∷ 6 ∷ 6 ∷ 6 ∷ 5 ∷ 6 ∷ 6 ∷ 6 ∷ [])
    ∷ []

unfoldable pub is_report : ℕ → Bool
is_report frames = leb minimum_frames frames && leb frames maximum_frames

-- AudioFeedbackPatternPolicy::build
unfoldable pub build_pattern : ℕ → Option (List ℕ)
unfolding is_report
build_pattern frames =
    if is_report frames then some (get_or patterns (frames - minimum_frames) []) else none

abbrev feedback_window_size : ℕ
feedback_window_size = 40000

abbrev pub history_size : ℕ
history_size = 128

abbrev pub queue_capacity : ℕ
queue_capacity = 32

pub record Policy : Type 0 where
  pub whole_frames : ℕ
  pub remainder_frames : ℕ
  pub service_intervals : ℕ  -- serviceIntervalsPerSecond_
  pub sample_rate : ℕ  -- sampleRateHz_
  pub phase : ℕ
  pub feedback_pattern : List ℕ
  pub history : List ℕ  -- patternHistory_
  pub history_cursor : ℕ
  pub reacquisition_reference : ℕ
  pub pattern_locked : Bool
  pub queue : List ℕ  -- feedbackQueue_
  pub queue_read : ℕ
  pub queue_count : ℕ
  pub window : List ℕ  -- feedbackWindow_
  pub feedback_sum : ℕ
  pub feedback_count : ℕ
  pub feedback_index : ℕ
  pub measured_millihz : ℕ  -- measuredClockMilliHz_
  pub pattern_index : ℕ
  pub nominal_fraction : ℕ

-- The loop that fills the history, from entry `i` on with `n` left.
unfoldable pub first_history : ℕ → ℕ → List ℕ
first_history i zero = []
first_history i (suc n) =
    (5 + i % 2 + (if i % 80 == 0 then 1 else 0)) % 2 ^ 8 ∷ first_history (i + 1) n

-- What the 40000 zeros of the window are.
pub empty_window : List ℕ
empty_window = replicate feedback_window_size 0

abbrev pub nominal_pattern : List ℕ
nominal_pattern = 6 ∷ 5 ∷ 6 ∷ 5 ∷ 6 ∷ 5 ∷ 6 ∷ 5 ∷ []

abbrev pattern_or : List ℕ → Option (List ℕ) → List ℕ
pattern_or old none = old
pattern_or old (some pattern) = pattern

-- The constructor, with none where it throws.
unfoldable pub new_policy : ℕ → ℕ → Option Policy
unfolding first_history build_pattern
new_policy sample_rate_hz service_rate =
    if sample_rate_hz == 0 || service_rate == 0
    then none
    else some (record {
      whole_frames = sample_rate_hz / service_rate;
      remainder_frames = sample_rate_hz % service_rate;
      service_intervals = service_rate;
      sample_rate = sample_rate_hz;
      phase = 0;
      feedback_pattern = pattern_or (replicate 8 0) (build_pattern 44);
      history = first_history 0 history_size;
      history_cursor = 0;
      reacquisition_reference = 0;
      pattern_locked = false;
      queue = replicate queue_capacity 0;
      queue_read = 0;
      queue_count = 0;
      window = empty_window;
      feedback_sum = 0;
      feedback_count = 0;
      feedback_index = 0;
      measured_millihz = sample_rate_hz * 1000;
      pattern_index = 0;
      nominal_fraction = 0;
    })

-- The loops over the history: a pattern is written from the cursor on, and `n` entries are read.
unfoldable pub write_history : List ℕ → ℕ → List ℕ → List ℕ
write_history history cursor [] = history
write_history history cursor (frames ∷ rest) =
    write_history (set history (cursor % history_size) frames) (cursor + 1) rest

unfoldable pub read_history : List ℕ → ℕ → ℕ → List ℕ
read_history history cursor zero = []
read_history history cursor (suc n) =
    get_or history (cursor % history_size) 0 ∷ read_history history (cursor + 1) n

-- A report that selects a pattern.
unfoldable pub follow : Policy → List ℕ → Policy
unfolding write_history
follow p selected =
    let cursor = (p.history_cursor + 8) % history_size in
    record p {
      feedback_pattern = selected;
      history = write_history p.history p.history_cursor selected;
      history_cursor = cursor;
      pattern_locked = cursor == p.reacquisition_reference || p.pattern_locked;
    }

-- A report that selects none: the pattern of the history is played again.
unfoldable pub replay : Policy → Policy
unfolding read_history write_history
replay p =
    let pattern = read_history p.history p.history_cursor 8 in
    record p {
      feedback_pattern = pattern;
      history = write_history p.history p.history_cursor pattern;
      history_cursor = (p.history_cursor + 8) % history_size;
      reacquisition_reference = p.history_cursor;
      pattern_locked = false;
    }

abbrev pub follow_or_replay : Policy → Option (List ℕ) → Policy
follow_or_replay p none = replay p
follow_or_replay p (some selected) = follow p selected

unfoldable pub pop_report : Policy → Policy
pop_report p = record p {
  queue_read = (p.queue_read + 1) % queue_capacity;
  queue_count = p.queue_count - 1;
}

-- Without a report the nominal rate is played: 44 frames, and 45 in every tenth millisecond.
unfoldable pub play_nominal : Policy → Policy
unfolding build_pattern
play_nominal p =
    let fraction = p.nominal_fraction + 100 in
    let carry = leb 1000 fraction in
    record p {
      nominal_fraction = if carry then fraction - 1000 else fraction;
      feedback_pattern = pattern_or p.feedback_pattern (build_pattern (if carry then 45 else 44));
    }

-- The start of a millisecond.
unfoldable pub select_pattern : Policy → Policy
unfolding build_pattern follow replay pop_report play_nominal
select_pattern p =
    if p.queue_count == 0
    then play_nominal p
    else follow_or_replay (pop_report p) (build_pattern (get_or p.queue p.queue_read 0))

abbrev pub play : Policy → ℕ × Policy
play p = (
  get_or p.feedback_pattern p.pattern_index 0,
  record p { pattern_index = (p.pattern_index + 1) % 8 },
)

-- The accumulator of other service rates.
unfoldable accumulate : Policy → ℕ × Policy
accumulate p =
    let phase = add64 p.phase p.remainder_frames in
    if leb p.service_intervals phase
    then (p.whole_frames + 1, record p { phase = phase - p.service_intervals })
    else (p.whole_frames, record p { phase = phase })

unfoldable pub next_packet_frames : Policy → ℕ × Policy
unfolding select_pattern accumulate
next_packet_frames p =
    if p.service_intervals == 8000
    then play (if p.pattern_index == 0 then select_pattern p else p)
    else accumulate p

-- The part of `observeFeedback` on the window.
unfoldable pub enter_window : Policy → ℕ → Policy
enter_window p frames =
    let full = p.feedback_count == feedback_window_size in
    let sum =
      (if full then p.feedback_sum - get_or p.window p.feedback_index 0 else p.feedback_sum)
      + frames in
    let count = if full then p.feedback_count else p.feedback_count + 1 in
    record p {
      feedback_sum = sum;
      feedback_count = count;
      window = set p.window p.feedback_index frames;
      feedback_index = (p.feedback_index + 1) % feedback_window_size;
      measured_millihz =
          if count == feedback_window_size
          then sum * 1000000 / feedback_window_size
          else p.measured_millihz;
    }

-- The part of both observers on the queue: a full queue drops its oldest entry.
unfoldable pub enqueue : Policy → ℕ → Policy
unfolding pop_report
enqueue p frames =
    let q = if p.queue_count == queue_capacity then pop_report p else p in
    record q {
      queue = set q.queue ((q.queue_read + q.queue_count) % queue_capacity) frames;
      queue_count = q.queue_count + 1;
    }

unfoldable pub observe_feedback : Policy → ℕ → Policy
unfolding is_report enter_window enqueue
observe_feedback p frames = if is_report frames then enqueue (enter_window p frames) frames else p

unfoldable pub observe_invalid_feedback : Policy → Policy
unfolding enqueue
observe_invalid_feedback p = enqueue p 0

unfoldable pub effective_millihz : Policy → ℕ
effective_millihz p =
    if ltb p.measured_millihz 44100000
    then 44100000
    else if ltb 44100300 p.measured_millihz
    then 44100300
    else p.measured_millihz
