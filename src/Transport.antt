-- ===== src/Transport.antt =====
-- The playback ring between CoreAudio and the USB worker (coreaudio/NS6Transport.c and .h): 16384 slots,
-- each with a frame and the position that it was written for, its tag. The input of most functions is the
-- list of frames that `Pcm.convert_frames` makes of the caller's buffer; those at the end take the
-- buffer and its format. A frame is of a type `F`, `unset` stands for a slot out of
-- range. Positions are uint64_t; a count is below 2 ^ 32. A pointer is never NULL, and the spin lock
-- around the mix is a call that does not overlap another.
use numark_ns6_mac_arm.Double.{Double}
use numark_ns6_mac_arm.Pcm.{
  interpolate_frame, Pcm24, mix_frame, convert_frames, Format, valid_format,
}
use numark_ns6_mac_arm.Prelude.{
  ℕ, zero, suc, ◌+◌, ◌-◌, ◌%◌, ◌^◌, Bool, true, false, not, ◌&&◌, ◌||◌, List, [], ◌∷◌,
  if◌then◌else◌, leb, ltb, ◌==◌, drop, get_or, length, set,
}
use numark_ns6_mac_arm.Prelude.Int.{pos}
use numark_ns6_mac_arm.Prelude.Words.{add64, sub64, u64_max}
pub mod Contents
pub mod Playback
pub mod Delivery
pub mod Samples
pub mod Overlay
pub mod Mix
mod Tests

abbrev pub ring_frames : ℕ
ring_frames = 16384

-- UINT64_MAX, the tag of a slot that holds nothing.
abbrev pub no_tag : ℕ
no_tag = 2 ^ 64 - 1

pub record Shared (F : Type 0) : Type 0 where
  pub samples : List F
  pub tags : List ℕ
  pub read_cursor : ℕ
  pub high_water : ℕ
  pub initialized : Bool

pub data StopReason : Type 0 where
  stop_none stop_empty stop_missing_tag stop_ring_limit stop_invalid : StopReason

-- How far the loop over the tags gets from `position` on, with `n` slots left.
unfoldable pub tagged_from : List ℕ → ℕ → ℕ → ℕ
tagged_from tags position zero = 0
tagged_from tags position (suc n) =
    let rest = tagged_from tags (position + 1) n in
    if get_or tags (position % ring_frames) 0 == position then suc rest else 0

-- The loop that empties the tags.
unfoldable pub clear_tags : List ℕ → List ℕ
clear_tags [] = []
clear_tags (t ∷ ts) = no_tag ∷ clear_tags ts

module _ {F : Type 0} where
  unfoldable pub init_shared : Shared F → Shared F
  unfolding clear_tags
  init_shared s = record s {
    tags = clear_tags s.tags;
    read_cursor = 0;
    high_water = 0;
    initialized = false;
  }

  unfoldable pub reset_shared : Shared F → Shared F
  unfolding clear_tags
  reset_shared s = record s {
    tags = clear_tags s.tags;
    read_cursor = 0;
    high_water = 0;
    initialized = false;
  }

  -- The first access starts the ring at its position.
  unfoldable pub ensure_initialized : Shared F → ℕ → Shared F
  ensure_initialized s t =
      if s.initialized then s else record s { read_cursor = t; high_water = t; initialized = true }

  -- A frame and its tag go into the slot of the position.
  unfoldable pub put_frame : Shared F → ℕ → F → Shared F
  put_frame s position x = record s {
    samples = set s.samples (position % ring_frames) x;
    tags = set s.tags (position % ring_frames) position;
  }

  unfoldable pub store_frames : Shared F → ℕ → List F → Shared F
  unfolding put_frame
  store_frames s position [] = s
  store_frames s position (x ∷ xs) = store_frames (put_frame s position x) (position + 1) xs

  unfoldable pub raise_high_water : Shared F → ℕ → Shared F
  raise_high_water s end = if ltb s.high_water end then record s { high_water = end } else s

  -- The rest of the function on a ring that is started, with the high-water mark read before.
  unfoldable pub place_frames : Shared F → ℕ → List F → Bool × Shared F
  unfolding store_frames raise_high_water
  place_frames s high_water input =
      let cursor = s.read_cursor in
      let behind = ltb high_water cursor in
      let s' = if behind then record s { high_water = cursor } else s in
      let sample_time = if behind then cursor else high_water in
      let end = add64 sample_time (length input) in
      if leb end cursor
      then (true, s')
      else if ltb ring_frames (sample_time - cursor)
          || ltb (ring_frames - (sample_time - cursor)) (length input)
      then (false, s')
      else (true, raise_high_water (store_frames s' sample_time input) end)

  -- `ns6_transport_enqueue_at_shared` behind its test of the format. The caller's sample time is
  -- overwritten there before it is read, so that nothing is ever skipped.
  unfoldable pub enqueue_frames : Shared F → List F → Bool × Shared F
  unfolding ensure_initialized place_frames
  enqueue_frames s input =
      if length input == 0
      then (true, s)
      else if ltb (u64_max - length input) s.high_water
      then (false, s)
      else place_frames (ensure_initialized s s.high_water) s.high_water input

  unfoldable pub available_shared : Shared F → ℕ
  unfolding tagged_from
  available_shared s =
      if not s.initialized || leb s.high_water s.read_cursor
      then 0
      else tagged_from s.tags s.read_cursor (
          if ltb ring_frames (s.high_water - s.read_cursor)
          then ring_frames
          else s.high_water - s.read_cursor)

  -- A slot that already holds this position is mixed, any other is overwritten.
  unfoldable pub mix_frame_at : (F → F → F) → F → Shared F → ℕ → F → Shared F
  unfolding put_frame
  mix_frame_at mix unset s position x =
      let slot = position % ring_frames in
      if get_or s.tags slot 0 == position
      then record s { samples = set s.samples slot (mix (get_or s.samples slot unset) x) }
      else put_frame s position x

  unfoldable pub mix_frames : (F → F → F) → F → Shared F → ℕ → List F → Shared F
  unfolding mix_frame_at
  mix_frames mix unset s position [] = s
  mix_frames mix unset s position (x ∷ xs) =
      mix_frames mix unset (mix_frame_at mix unset s position x) (position + 1) xs

  -- A ring that has run dry far from the new position starts again there.
  unfoldable pub realign : Shared F → ℕ → Shared F
  unfolding available_shared
  realign s t =
      let distance = if ltb s.read_cursor t then t - s.read_cursor else s.read_cursor - t in
      if leb ring_frames distance && available_shared s == 0
      then record s { read_cursor = t; high_water = t }
      else s

  -- The rest of the function on a ring that is started and aligned.
  unfoldable pub mix_placed : (F → F → F) → F → Shared F → List F → ℕ → Bool × Shared F
  unfolding mix_frames raise_high_water
  mix_placed mix unset s input sample_time =
      let cursor = s.read_cursor in
      let late = cursor - sample_time in
      if ltb sample_time cursor && leb (length input) late
      then (true, s)
      else let t = if ltb sample_time cursor then cursor else sample_time in
        let rest = drop late input in
        if leb ring_frames (t - cursor) || ltb (ring_frames - (t - cursor)) (length rest)
        then (false, s)
        else (true, raise_high_water (mix_frames mix unset s t rest) (t + length rest))

  -- `ns6_transport_mix_at_shared` behind its test of the format.
  unfoldable pub mix_at : (F → F → F) → F → Shared F → List F → ℕ → Bool × Shared F
  unfolding ensure_initialized realign mix_placed
  mix_at mix unset s input sample_time =
      if length input == 0
      then (true, s)
      else if ltb (u64_max - length input) sample_time
      then (false, s)
      else mix_placed mix unset (realign (ensure_initialized s sample_time) sample_time) input
          sample_time

  unfoldable pub advance_shared : Shared F → ℕ → ℕ × Shared F
  advance_shared s frames =
      if s.initialized
      then (frames, record s { read_cursor = add64 s.read_cursor frames })
      else (0, s)

module _ {F W : Type 0} (d : Double W) (interpolate : F → F → W → F) (unset : F) where
  unfoldable pub usable_step : W → W
  usable_step step =
      if not (d.is_finite step) || (d.less step d.half || d.less d.three_halves step)
      then d.of_int (pos 1)
      else step

  -- Why the loop stops at this phase, if it does.
  unfoldable pub stop_at : Shared F → ℕ → ℕ → ℕ → StopReason
  stop_at s cursor first second =
      if leb s.high_water second
      then stop_empty
      else if leb ring_frames (sub64 second cursor)
      then stop_ring_limit
      else if not (get_or s.tags (first % ring_frames) 0 == first)
          || not (get_or s.tags (second % ring_frames) 0 == second)
      then stop_missing_tag
      else stop_none

  -- The body of the loop at a phase: the frame, and why the loop stops before it, if it does.
  unfoldable pub frame_at : Shared F → W → F × StopReason
  unfolding stop_at
  frame_at s phase =
      let whole = d.whole phase in
      let fraction = d.sub phase (d.of_int (pos whole)) in
      let first = add64 s.read_cursor whole in
      let second = add64 first (if d.less (d.of_int (pos 0)) fraction then 1 else 0) in
      (
        interpolate (get_or s.samples (first % ring_frames) unset)
            (get_or s.samples (second % ring_frames) unset) fraction,
        stop_at s s.read_cursor first second,
      )

  -- A round of the loop, from its frame and what the rounds behind it give.
  abbrev pub take_frame : F × StopReason → W → List F × StopReason × W → List F × StopReason × W
  take_frame (frame, stop_none) phase (rest, reason, end_phase) = (frame ∷ rest, reason, end_phase)
  take_frame (frame, stop_empty) phase rest = ([], stop_empty, phase)
  take_frame (frame, stop_missing_tag) phase rest = ([], stop_missing_tag, phase)
  take_frame (frame, stop_ring_limit) phase rest = ([], stop_ring_limit, phase)
  take_frame (frame, stop_invalid) phase rest = ([], stop_invalid, phase)

  -- The loop with `n` output frames left: the frames, why it stopped, and the phase that it reached.
  unfoldable pub resample : Shared F → W → ℕ → W → List F × StopReason × W
  resample s step zero phase = ([], stop_none, phase)
  resample s step (suc n) phase =
      take_frame (frame_at s phase) phase (resample s step n (d.add phase step))

  -- What a call of dequeue leaves: the output, why it stopped, the ring, and the reader's fraction.
  pub record Dequeued : Type 0 where
    pub output : List F
    pub reason : StopReason
    pub ring : Shared F
    pub read_fraction : W

  -- The end of the call, behind its loop.
  unfoldable pub settle : Shared F → List F × StopReason × W → Dequeued
  settle s (output, reason, phase) =
      let consumed = d.whole phase in
      record {
        output = output;
        reason = reason;
        ring = record s { read_cursor = add64 s.read_cursor consumed };
        read_fraction = d.sub phase (d.of_int (pos consumed));
      }

  -- `ns6_transport_dequeue_resampled_shared_diagnostic`; its result is the length of the output.
  unfoldable pub dequeue_resampled : Shared F → W → ℕ → W → Dequeued
  dequeue_resampled s read_fraction output_frames step =
      if output_frames == 0 || not s.initialized
      then record { output = []; reason = stop_invalid; ring = s; read_fraction = read_fraction }
      else settle s (resample s (usable_step step) output_frames read_fraction)

  -- `ns6_transport_dequeue_shared`: one source frame for each output frame.
  unfoldable pub dequeue : Shared F → W → ℕ → Dequeued
  dequeue s read_fraction capacity = dequeue_resampled s read_fraction capacity (d.of_int (pos 1))

  -- Returns the frames consumed, the ring and the reader's fraction.
  unfoldable pub advance_resampled : Shared F → W → ℕ → W → ℕ × Shared F × W
  unfolding usable_step
  advance_resampled s read_fraction output_frames step =
      if not s.initialized
      then (0, s, read_fraction)
      else let phase =
          d.add read_fraction (d.mul (d.of_int (pos output_frames)) (usable_step step)) in
        let consumed = d.whole phase in
        (
          consumed % 2 ^ 32,
          record s { read_cursor = add64 s.read_cursor consumed },
          d.sub phase (d.of_int (pos consumed)),
        )

  -- Returns the ring and the reader's fraction.
  unfoldable pub discard_shared : Shared F → W → Shared F × W
  unfolding reset_shared
  discard_shared s read_fraction = (reset_shared s, d.of_int (pos 0))

-- The calls on the bytes of the caller's buffer, with the format that the caller passes.
module _ {W : Type 0} (d : Double W) (float_of_bytes : List ℕ → W) where
  -- `ns6_transport_enqueue_at_shared`, and `ns6_transport_enqueue_shared` that calls it.
  unfoldable pub enqueue_at : Shared (List Pcm24) → List ℕ → ℕ → Format → Bool × Shared (List Pcm24)
  unfolding enqueue_frames convert_frames
  enqueue_at s input count f =
      if valid_format f
      then enqueue_frames s (convert_frames d float_of_bytes f input count)
      else (false, s)

  -- `ns6_transport_mix_at_shared`.
  unfoldable pub mix_input_at :
      Shared (List Pcm24) → List ℕ → ℕ → ℕ → Format → Bool × Shared (List Pcm24)
  unfolding mix_at mix_frame convert_frames
  mix_input_at s input sample_time count f =
      if valid_format f
      then mix_at mix_frame [] s (convert_frames d float_of_bytes f input count) sample_time
      else (false, s)

module _ {W : Type 0} (d : Double W) where
  -- `ns6_transport_dequeue_resampled_shared`, into frames of four samples.
  unfoldable pub dequeue_samples :
      Shared (List Pcm24) → W → ℕ → W → Dequeued d (interpolate_frame d) []
  unfolding dequeue_resampled interpolate_frame
  dequeue_samples s read_fraction output_frames step =
      dequeue_resampled d (interpolate_frame d) [] s read_fraction output_frames step
