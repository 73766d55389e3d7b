-- ===== src/Timeline.antt =====
-- Sample times and timestamps (coreaudio/NS6SampleTimeline.h and NS6USBFrameTimestamps.h). A pointer is never
-- NULL; a result that the code writes through a pointer, and only on success, is an Option.
use numark_ns6_mac_arm.Prelude.{
  ℕ, ◌+◌, ◌-◌, ◌*◌, ◌/◌, ◌%◌, ◌^◌, ◌||◌, Option, none, some, List, [], ◌∷◌, if◌then◌else◌, ltb,
  ◌==◌,
}
use numark_ns6_mac_arm.Prelude.Words.{add32, u64_max}
pub mod Nanos
pub mod Range
mod Tests

abbrev pub nanos_per_second : ℕ
nanos_per_second = 1000000000

-- The rate is a uint32_t, the rest are uint64_t.
unfoldable pub sample_time_from_nanos : ℕ → ℕ → Option ℕ
sample_time_from_nanos nanoseconds sample_rate =
    if sample_rate == 0
    then none
    else let seconds = nanoseconds / nanos_per_second in
      let remainder = nanoseconds % nanos_per_second in
      let fractional_frames = remainder * sample_rate % 2 ^ 64 / nanos_per_second in
      if ltb ((u64_max - fractional_frames) / sample_rate) seconds
      then none
      else some ((seconds * sample_rate + fractional_frames) % 2 ^ 64)

-- The halves of the AbsoluteTime in an IOUSBLowLatencyIsocFrame.
pub record FrameTime : Type 0 where
  pub hi : ℕ
  pub lo : ℕ

pub record TimestampRange : Type 0 where
  pub valid_frames : ℕ
  pub oldest_ticks : ℕ
  pub newest_ticks : ℕ

abbrev pub empty_range : TimestampRange
empty_range = record { valid_frames = 0; oldest_ticks = 0; newest_ticks = 0 }

-- The two halves side by side; they share no bit, so that the sum is their `|`.
abbrev pub ticks : FrameTime → ℕ
ticks t = t.hi * 2 ^ 32 + t.lo

-- The body of the loop.
unfoldable pub widen : TimestampRange → ℕ → TimestampRange
widen range timestamp = if timestamp == 0 then range else record range {
  oldest_ticks =
      if range.valid_frames == 0 || ltb timestamp range.oldest_ticks
      then timestamp
      else range.oldest_ticks;
  newest_ticks =
      if range.valid_frames == 0 || ltb range.newest_ticks timestamp
      then timestamp
      else range.newest_ticks;
  valid_frames = add32 range.valid_frames 1;
}

-- The loop, over the frames that are left.
unfoldable pub widen_all : TimestampRange → List FrameTime → TimestampRange
unfolding widen
widen_all range [] = range
widen_all range (t ∷ ts) = widen_all (widen range (ticks t)) ts

-- `ns6_usb_frame_timestamp_range`
unfoldable pub timestamp_range : List FrameTime → TimestampRange
unfolding widen_all
timestamp_range frames = widen_all empty_range frames

-- `ns6_usb_frame_timestamp_callback_lag_ticks`
unfoldable pub callback_lag_ticks : TimestampRange → ℕ → Option ℕ
callback_lag_ticks range callback_ticks =
    if range.valid_frames == 0 || ltb callback_ticks range.newest_ticks
    then none
    else some (callback_ticks - range.newest_ticks)
