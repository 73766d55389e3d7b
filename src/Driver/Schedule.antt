-- ===== src/Driver/Schedule.antt =====
-- The frame numbers at which the C++ driver schedules its isochronous transfers
-- (numark-ns6/audio-out/AudioOutSchedule.cpp and .hpp, numark-ns6/audio-feedback/AudioFeedbackSchedule.cpp and
-- .hpp). All are uint64_t. A result of {0, 0} says that the numbers run out.
use numark_ns6_mac_arm.Prelude.{ℕ, ◌+◌, ◌-◌, ◌*◌, ◌/◌, ◌%◌, ◌^◌, ◌||◌, if◌then◌else◌, ltb, ◌==◌}
use numark_ns6_mac_arm.Prelude.Words.{u64_max, add64}
pub mod Slots
pub mod Order
mod Tests

-- AudioOutTransferBatch::kServiceIntervals / 8, and AudioFeedbackSchedule::kFramesPerTransfer.
abbrev pub transfer_frames : ℕ
transfer_frames = 4

-- kStartLeadFrames, and kInitialLeadFrames.
abbrev pub lead_frames : ℕ
lead_frames = 2

pub record OutSchedule : Type 0 where
  pub next_frame : ℕ
  pub skipped_intervals : ℕ

unfoldable new_schedule : OutSchedule
new_schedule = record { next_frame = 0; skipped_intervals = 0 }

pub record Slot : Type 0 where
  pub start_frame : ℕ
  pub skipped : ℕ

abbrev pub no_slot : Slot
no_slot = record { start_frame = 0; skipped = 0 }

unfoldable out_begin : OutSchedule → ℕ → ℕ × OutSchedule
out_begin s current_frame =
    if ltb (u64_max - lead_frames) current_frame
    then (0, s)
    else let first = current_frame + lead_frames in
      if ltb (u64_max - transfer_frames) first
      then (0, record s { next_frame = 0 })
      else (first, record { next_frame = first + transfer_frames; skipped_intervals = 0 })

-- The end of `takeNext`, behind the intervals that it skips.
unfoldable pub out_take : OutSchedule → ℕ → Slot × OutSchedule
out_take s skipped = if ltb (u64_max - transfer_frames) s.next_frame then (no_slot, s) else (
  record { start_frame = s.next_frame; skipped = skipped },
  record s { next_frame = s.next_frame + transfer_frames },
)

-- The intervals that are too late: `behind / interval`, rounded up.
abbrev pub late_intervals : ℕ → ℕ
late_intervals behind = behind / transfer_frames + (if behind % transfer_frames == 0 then 0 else 1)

unfoldable pub out_skip : OutSchedule → ℕ → Slot × OutSchedule
unfolding out_take
out_skip s count =
    if ltb (2 ^ 32 - 1) count
    then (no_slot, s)
    else if ltb ((u64_max - s.next_frame) / transfer_frames) count
    then (no_slot, s)
    else out_take
        (record s {
          next_frame = s.next_frame + count * transfer_frames;
          skipped_intervals = add64 s.skipped_intervals count;
        })
        count

unfoldable pub out_take_next : OutSchedule → ℕ → Slot × OutSchedule
unfolding out_take out_skip
out_take_next s current_frame =
    if ltb (u64_max - lead_frames) current_frame
    then (no_slot, s)
    else if ltb s.next_frame (current_frame + lead_frames)
    then out_skip s (late_intervals (current_frame + lead_frames - s.next_frame))
    else out_take s 0

-- AudioFeedbackSchedule, whose state is the next frame.
unfoldable feedback_begin : ℕ → ℕ → ℕ × ℕ
feedback_begin next_frame current_frame =
    if ltb (u64_max - lead_frames) current_frame
    then (0, next_frame)
    else let first = current_frame + lead_frames in
      if ltb (u64_max - transfer_frames) first
      then (0, next_frame)
      else (first, first + transfer_frames)

unfoldable pub feedback_take : ℕ → ℕ → Slot × ℕ
feedback_take next_frame skipped =
    if ltb (u64_max - transfer_frames) next_frame || ltb (2 ^ 32 - 1) skipped
    then (no_slot, next_frame)
    else (record { start_frame = next_frame; skipped = skipped }, next_frame + transfer_frames)

unfoldable pub feedback_skip : ℕ → ℕ → Slot × ℕ
unfolding feedback_take
feedback_skip next_frame skipped =
    if ltb ((u64_max - next_frame) / transfer_frames) skipped
    then (no_slot, next_frame)
    else feedback_take (next_frame + skipped * transfer_frames) skipped

unfoldable pub feedback_take_next : ℕ → ℕ → Slot × ℕ
unfolding feedback_take feedback_skip
feedback_take_next next_frame current_frame =
    if current_frame == u64_max
    then (no_slot, next_frame)
    else if ltb next_frame (current_frame + 1)
    then feedback_skip next_frame ((current_frame + 1 - next_frame - 1) / transfer_frames + 1)
    else feedback_take next_frame 0
