-- ===== src/Midi/Reads/Targets.antt =====
-- The masks of missing reads agree with the decisions on single reads
-- (coreaudio/NS6MIDIReadLifecycle.h).
use numark_ns6_mac_arm.Midi.Reads.{
  Build, read_should_submit, active_read_count, read_target_count, read_missing_mask,
  read_target_mask,
}
use numark_ns6_mac_arm.Midi.Tables.{same, holds_from, each_of, has, same→≡}
use numark_ns6_mac_arm.Prelude.{
  ℕ, ◌≤◌, ◌<◌, ◌≡◌, refl, sym, ap, ◌∙◌, Bool, true, false, not, ◌&&◌, arith, ltb,
}

pub target_count_le :
    (b : Build) (session_running audio_active : Bool)
    → read_target_count b session_running audio_active ≤ active_read_count
unfolding read_target_count
target_count_le b session_running audio_active = ground arith

missing_table :
    holds_from 0 5 (λ target. holds_from 0 16 (λ mask. holds_from 0 4 (λ slot.
      same (has (read_missing_mask target mask) slot) (ltb slot target && not (has mask slot)))))
    ≡ true
unfolding holds_from same has read_missing_mask read_target_mask
missing_table = refl

missing_slot :
    (target mask slot : ℕ)
    → target < 5
    → mask < 16
    → slot < 4
    → has (read_missing_mask target mask) slot ≡ (ltb slot target && not (has mask slot))
missing_slot target mask slot ht hm hs = same→≡ _ _ (
    each_of 4 (λ s. same (has (read_missing_mask target mask) s) (ltb s target && not (has mask s)))
      slot
      (each_of 16
        (λ m.
          holds_from 0 4
            (λ s. same (has (read_missing_mask target m) s) (ltb s target && not (has m s))))
        mask
        (each_of 5
          (λ t. holds_from 0 16 (λ m.
            holds_from 0 4 (λ s. same (has (read_missing_mask t m) s) (ltb s t && not (has m s)))))
          target missing_table ht)
        hm)
      hs)

submit_slot : (target slot : ℕ) → read_should_submit true target slot false ≡ ltb slot target
unfolding read_should_submit
submit_slot target slot = ground arith

-- For any target that `read_target_count` gives, a slot is missing exactly if it is not in flight and a
-- read in it would be submitted, as long as the session runs and no recovery is under way.
pub has-read_missing_mask :
    (b : Build) (audio_active : Bool) (mask slot : ℕ)
    → mask < 16
    → slot < active_read_count
    → let target = read_target_count b true audio_active in
      has (read_missing_mask target mask) slot
      ≡ (read_should_submit true target slot false && not (has mask slot))
has-read_missing_mask b audio_active mask slot hm hs =
    let target = read_target_count b true audio_active in
    let le = target_count_le b true audio_active in
    missing_slot target mask slot (omega (arith, le)) hm hs
    ∙ ap (λ x. x && not (has mask slot)) (sym (submit_slot target slot))
