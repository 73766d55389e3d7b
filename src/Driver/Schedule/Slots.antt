-- ===== src/Driver/Schedule/Slots.antt =====
-- The transfers follow each other without an overlap (numark-ns6/audio-out/AudioOutSchedule.cpp,
-- numark-ns6/audio-feedback/AudioFeedbackSchedule.cpp).
use numark_ns6_mac_arm.Driver.Schedule.{
  out_take_next, feedback_take_next, transfer_frames, out_take, feedback_take, OutSchedule,
  late_intervals, out_skip, feedback_skip, Slot, no_slot, lead_frames,
}
use numark_ns6_mac_arm.Prelude.{
  ℕ, ◌+◌, ◌-◌, ◌*◌, ◌/◌, ◌^◌, ◌≤◌, ◌<◌, ◌≡◌, refl, ◌≢◌, ◌⊎◌, inl, inr, false, arith, Bool-cases,
  ltb, ◌==◌,
}
use numark_ns6_mac_arm.Prelude.Words.{u64_max}

-- A slot that is taken from a schedule whose next frame was `next`: it lies `skipped` intervals on, not
-- before `least`, and no interval is skipped that is not too late. Nothing wraps.
pub record Follows (next least : ℕ) (slot : Slot) (next' : ℕ) : Type 0 where
  pub start_at : slot.start_frame ≡ next + slot.skipped * transfer_frames
  pub behind_it : next' ≡ slot.start_frame + transfer_frames
  pub in_time : least ≤ slot.start_frame
  pub needed : slot.skipped ≢ 0 → slot.start_frame < least + transfer_frames
  pub no_wrap : next' < 2 ^ 64

-- Rounded up, the late intervals reach, and one less would not.
late_intervals_enough :
    (behind : ℕ)
    → (behind ≤ late_intervals behind * transfer_frames)
      × (late_intervals behind * transfer_frames < behind + transfer_frames)
late_intervals_enough behind = ground arith

-- What a call gives: a slot, or {0, 0} and no earlier next frame.
abbrev Taken : ℕ → ℕ → Slot → ℕ → Type 0
Taken next least slot next' = Follows next least slot next' ⊎ ((slot ≡ no_slot) × (next ≤ next'))

-- Where the numbers do not run out.
abbrev Ample : ℕ → ℕ → Type 0
Ample next current_frame =
    (next ≤ u64_max - 4) × (current_frame ≤ u64_max - 12) × (current_frame ≤ next + 2 ^ 33)

out_take-Follows :
    (s : OutSchedule) (least next skipped : ℕ)
    → s.next_frame ≡ next + skipped * transfer_frames
    → s.next_frame ≤ u64_max - 4
    → least ≤ s.next_frame
    → (skipped ≢ 0 → s.next_frame < least + transfer_frames)
    → Follows next least (out_take s skipped).0 (out_take s skipped).1.next_frame
unfolding out_take
out_take-Follows s least next skipped at room late needed =
    let fits : ltb (u64_max - transfer_frames) s.next_frame ≡ false = ground (arith, room) in
    rw fits (record {
      start_at = at;
      behind_it = refl;
      in_time = late;
      needed = needed;
      no_wrap = omega (arith, room);
    })

-- Where the next frame and the current one are not near 2 ^ 64, and the current one is not more than
-- 2 ^ 33 frames ahead: the next slot lies whole intervals behind the last one, not before two frames from
-- now; none is skipped that would be in time; and the frame behind it is the next.
pub out_take_next_lem :
    (s : OutSchedule) (current_frame : ℕ)
    → Ample s.next_frame current_frame
    → Follows s.next_frame
        (current_frame + lead_frames)
        (out_take_next s current_frame).0
        (out_take_next s current_frame).1.next_frame
unfolding out_take_next out_skip
out_take_next_lem s current_frame (room, in_range, near) =
    let guard : ltb (u64_max - lead_frames) current_frame ≡ false = ground (arith, in_range) in
    elim (Bool-cases (ltb s.next_frame (current_frame + lead_frames))) [
      | inl late ↦
          let behind = current_frame + lead_frames - s.next_frame in
          let count = late_intervals behind in
          let enough = late_intervals_enough behind in
          let few : ltb (2 ^ 32 - 1) count ≡ false = ground (arith, enough.1, near) in
          let fits : ltb ((u64_max - s.next_frame) / transfer_frames) count ≡ false =
            ground (arith, enough.1, in_range, room) in
          rw (guard, late, few, fits)
            (out_take-Follows _ (current_frame + lead_frames) s.next_frame count refl
              (ground (arith, enough.1, in_range, room)) (ground (arith, enough.0))
              (λ some_skipped. ground (arith, enough.1)))
      | inr early ↦
          rw (guard, early)
            (out_take-Follows s (current_frame + lead_frames) s.next_frame 0 (omega arith) room
              (ground arith) (λ bad. absurd (bad refl)))
    ]

feedback_take-Follows :
    (at least next skipped : ℕ)
    → at ≡ next + skipped * transfer_frames
    → at ≤ u64_max - 4
    → skipped < 2 ^ 32
    → least ≤ at
    → (skipped ≢ 0 → at < least + transfer_frames)
    → Follows next least (feedback_take at skipped).0 (feedback_take at skipped).1
unfolding feedback_take
feedback_take-Follows at least next skipped so room few late needed =
    let fits : ltb (u64_max - transfer_frames) at ≡ false = ground (arith, room) in
    let small : ltb (2 ^ 32 - 1) skipped ≡ false = ground (arith, few) in
    rw (fits, small)
      (record {
        start_at = so;
        behind_it = refl;
        in_time = late;
        needed = needed;
        no_wrap = omega (arith, room);
      })

-- The same for the feedback, which may start in the next frame.
pub feedback_take_next_lem :
    (next_frame current_frame : ℕ)
    → Ample next_frame current_frame
    → Follows next_frame
        (current_frame + 1)
        (feedback_take_next next_frame current_frame).0
        (feedback_take_next next_frame current_frame).1
unfolding feedback_take_next feedback_skip
feedback_take_next_lem next_frame current_frame (room, in_range, near) =
    let guard : current_frame == u64_max ≡ false = ground (arith, in_range) in
    elim (Bool-cases (ltb next_frame (current_frame + 1))) [
      | inl late ↦
          let skipped = (current_frame + 1 - next_frame - 1) / transfer_frames + 1 in
          let enough : skipped * 4 ≤ current_frame + 1 - next_frame + 3 = ground arith in
          let reach : current_frame + 1 ≤ next_frame + skipped * 4 = ground arith in
          let fits : ltb ((u64_max - next_frame) / transfer_frames) skipped ≡ false =
            ground (arith, enough, in_range, room) in
          rw (guard, late, fits)
            (feedback_take-Follows (next_frame + skipped * transfer_frames) (current_frame + 1)
              next_frame skipped refl (ground (arith, enough, in_range, room))
              (ground (arith, enough, near)) reach (λ some_skipped. ground (arith, enough)))
      | inr early ↦
          rw (guard, early)
            (feedback_take-Follows next_frame (current_frame + 1) next_frame 0 (omega arith) room
              (omega arith) (ground arith) (λ bad. absurd (bad refl)))
    ]
