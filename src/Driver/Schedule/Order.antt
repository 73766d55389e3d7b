-- ===== src/Driver/Schedule/Order.antt =====
-- The slots of a whole run of calls, whatever frame numbers the system tells
-- (numark-ns6/audio-out/AudioOutSchedule.cpp, numark-ns6/audio-feedback/AudioFeedbackSchedule.cpp).
use mathlib.Core.Path.{subst}
use numark_ns6_mac_arm.Driver.Schedule.{
  feedback_take, feedback_take_next, Slot, OutSchedule, feedback_skip, out_take_next, no_slot,
  transfer_frames, late_intervals, out_skip, out_take, lead_frames,
}
use numark_ns6_mac_arm.Prelude.{
  ℕ, ◌+◌, ◌-◌, ◌*◌, ◌/◌, ◌^◌, ◌≤◌, ◌<◌, ◌≡◌, refl, ◌⊎◌, inl, inr, ◌||◌, List, [], ◌∷◌, arith,
  Bool-cases, ltb, ◌==◌,
}
use numark_ns6_mac_arm.Prelude.Words.{u64_max}

unfoldable pub out_run : OutSchedule → List ℕ → List Slot
out_run s [] = []
out_run s (current_frame ∷ rest) =
    let (slot, t) = out_take_next s current_frame in slot ∷ out_run t rest

unfoldable pub feedback_run : ℕ → List ℕ → List Slot
feedback_run next_frame [] = []
feedback_run next_frame (current_frame ∷ rest) =
    let (slot, next_frame') = feedback_take_next next_frame current_frame in
    slot ∷ feedback_run next_frame' rest

-- Each slot starts where the one before it has ended, or later, and ends within 64 bits; {0, 0} is none.
unfoldable pub Ascending : ℕ → List Slot → Type 0
Ascending next [] = Unit {0}
Ascending next (slot ∷ slots) =
    ((slot ≡ no_slot) × Ascending next slots)
    ⊎ ((next ≤ slot.start_frame)
        × (slot.start_frame + transfer_frames < 2 ^ 64)
        × Ascending (slot.start_frame + transfer_frames) slots)

Ascending-weaken :
    (next next' : ℕ) (slots : List Slot)
    → next ≤ next'
    → Ascending next' slots
    → Ascending next slots
unfolding Ascending
Ascending-weaken next next' [] le a = tt
Ascending-weaken next next' (slot ∷ slots) le (inl (nothing, rest)) =
    inl (nothing, Ascending-weaken next next' slots le rest)
Ascending-weaken next next' (slot ∷ slots) le (inr (late, room, rest)) =
    inr (omega (arith, le, late), room, rest)

-- What one call gives: no slot and no earlier next frame, or a slot and the frame behind it.
abbrev Next : ℕ → Slot → ℕ → Type 0
Next next slot next' =
    ((slot ≡ no_slot) × (next ≤ next'))
    ⊎ ((next ≤ slot.start_frame)
        × (slot.start_frame + transfer_frames < 2 ^ 64)
        × (next' ≡ slot.start_frame + transfer_frames))

Ascending-step :
    (next next' : ℕ) (slot : Slot) (slots : List Slot)
    → Next next slot next'
    → Ascending next' slots
    → Ascending next (slot ∷ slots)
unfolding Ascending
Ascending-step next next' slot slots (inl (nothing, le)) a =
    inl (nothing, Ascending-weaken next next' slots le a)
Ascending-step next next' slot slots (inr (late, room, so)) a =
    inr (late, room, subst (λ n. Ascending n slots) so a)

out_take-Next :
    (s : OutSchedule) (next skipped : ℕ)
    → next ≤ s.next_frame
    → Next next (out_take s skipped).0 (out_take s skipped).1.next_frame
unfolding out_take
out_take-Next s next skipped le = elim (Bool-cases (ltb (u64_max - transfer_frames) s.next_frame)) [
  | inl full ↦ rw full (inl (refl, le))
  | inr room ↦ rw room (inr (le, ground arith, refl))
]

out_take_next-Next :
    (s : OutSchedule) (current_frame : ℕ)
    → Next s.next_frame
        (out_take_next s current_frame).0
        (out_take_next s current_frame).1.next_frame
unfolding out_take_next out_skip
out_take_next-Next s current_frame =
    let behind = current_frame + lead_frames - s.next_frame in
    elim (Bool-cases (ltb (u64_max - lead_frames) current_frame)) [
      | inl far ↦ rw far (inl (refl, omega arith))
      | inr near ↦ elim (Bool-cases (ltb s.next_frame (current_frame + lead_frames))) [
        | inr early ↦ rw (near, early) (out_take-Next s s.next_frame 0 (omega arith))
        | inl late ↦ elim (Bool-cases (ltb (2 ^ 32 - 1) (late_intervals behind))) [
          | inl many ↦ rw (near, late, many) (inl (refl, omega arith))
          | inr few ↦
              elim (Bool-cases
                (ltb ((u64_max - s.next_frame) / transfer_frames) (late_intervals behind))) [
                  | inl full ↦ rw (near, late, few, full) (inl (refl, omega arith))
                  | inr room ↦
                      rw (near, late, few, room)
                        (out_take-Next _ s.next_frame (late_intervals behind) (omega arith))
                ]
        ]
      ]
    ]

feedback_take-Next :
    (at next skipped : ℕ)
    → next ≤ at
    → Next next (feedback_take at skipped).0 (feedback_take at skipped).1
unfolding feedback_take
feedback_take-Next at next skipped le =
    elim (Bool-cases (ltb (u64_max - transfer_frames) at || ltb (2 ^ 32 - 1) skipped)) [
      | inl full ↦ rw full (inl (refl, le))
      | inr room ↦ rw room (inr (le, ground arith, refl))
    ]

feedback_take_next-Next :
    (next_frame current_frame : ℕ)
    → Next next_frame
        (feedback_take_next next_frame current_frame).0
        (feedback_take_next next_frame current_frame).1
unfolding feedback_take_next feedback_skip
feedback_take_next-Next next_frame current_frame =
    let skipped = (current_frame + 1 - next_frame - 1) / transfer_frames + 1 in
    elim (Bool-cases (current_frame == u64_max)) [
      | inl far ↦ rw far (inl (refl, omega arith))
      | inr near ↦ elim (Bool-cases (ltb next_frame (current_frame + 1))) [
        | inr early ↦ rw (near, early) (feedback_take-Next next_frame next_frame 0 (omega arith))
        | inl late ↦ elim (Bool-cases (ltb ((u64_max - next_frame) / transfer_frames) skipped)) [
          | inl full ↦ rw (near, late, full) (inl (refl, omega arith))
          | inr room ↦
              rw (near, late, room)
                (feedback_take-Next (next_frame + skipped * transfer_frames) next_frame skipped
                  (omega arith))
        ]
      ]
    ]

-- Whatever frame numbers the system tells, in whatever order: the slots of the output and those of the
-- feedback are ascending, no two overlap, and each ends within 64 bits.
pub runs-Ascending :
    (s : OutSchedule) (next_frame : ℕ) (currents : List ℕ)
    → Ascending s.next_frame (out_run s currents)
      × Ascending next_frame (feedback_run next_frame currents)
unfolding out_run feedback_run Ascending
runs-Ascending s next_frame [] = (tt, tt)
runs-Ascending s next_frame (current_frame ∷ rest) =
    let after = (out_take_next s current_frame).1 in
    let behind = (feedback_take_next next_frame current_frame).1 in
    let (out, feedback) = runs-Ascending after behind rest in
    (
      Ascending-step s.next_frame after.next_frame (out_take_next s current_frame).0
          (out_run after rest) (out_take_next-Next s current_frame) out,
      Ascending-step next_frame behind (feedback_take_next next_frame current_frame).0
          (feedback_run behind rest) (feedback_take_next-Next next_frame current_frame) feedback,
    )
