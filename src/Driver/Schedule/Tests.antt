-- ===== src/Driver/Schedule/Tests.antt =====
-- Runs of the schedules on concrete frame numbers.
use numark_ns6_mac_arm.Driver.Schedule.{OutSchedule, out_take_next, out_skip, out_take}
use numark_ns6_mac_arm.Driver.Schedule.Order.{feedback_run, out_run, runs-Ascending, Ascending}
use numark_ns6_mac_arm.Driver.Schedule.Slots.{Follows, out_take_next_lem}
use numark_ns6_mac_arm.Prelude.{◌≡◌, refl, [], ◌∷◌, arith}

abbrev busy : OutSchedule
busy = record { next_frame = 106; skipped_intervals = 0 }

out_take_next_lem_example :
    Follows 106 202 (out_take_next busy 200).0 (out_take_next busy 200).1.next_frame
out_take_next_lem_example = out_take_next_lem busy 200 (omega arith, omega arith, omega arith)

runs-Ascending_example :
    Ascending 106 (out_run busy (104 ∷ 200 ∷ 90 ∷ []))
    × Ascending 106 (feedback_run 106 (104 ∷ 200 ∷ 90 ∷ []))
runs-Ascending_example = runs-Ascending busy 106 (104 ∷ 200 ∷ 90 ∷ [])

late_slot : (out_take_next busy 200).0 ≡ record { start_frame = 202; skipped = 24 }
unfolding out_take_next out_skip out_take
late_slot = refl
