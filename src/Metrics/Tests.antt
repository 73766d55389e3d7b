-- ===== src/Metrics/Tests.antt =====
-- The I/O statistics (coreaudio/NS6IOMetrics.c) of two clients.
use numark_ns6_mac_arm.Metrics.{
  init, with_slot, time_call, count_call, record_output_timed, record_timed, ClientMetrics,
}
use numark_ns6_mac_arm.Metrics.Counting.{Counted}
use numark_ns6_mac_arm.Metrics.Table.{
  record_timed-IsTable, has_room, find, init-IsTable, or_blank, IsTable, record_output_timed_lem,
}
use numark_ns6_mac_arm.Prelude.{◌≡◌, refl, ◌⊎◌, true, false, none, some, List, arith}

two : List ClientMetrics
two = record_timed (record_timed init 7 512 1 100 50 80) 9 256 1 110 90 80

two-IsTable : IsTable two
two-IsTable =
    unfold two in
    record_timed-IsTable (record_timed init 7 512 1 100 50 80) 9 256 1 110 90 80
      (record_timed-IsTable init 7 512 1 100 50 80 init-IsTable)

seven_so : (or_blank (find two 7) 7).last_cycle ≡ 1
unfolding two record_timed init with_slot count_call time_call find
seven_so = refl

record_output_timed_lem_example :
    let m' = record_output_timed two 7 512 3 2048 true 300 60 80 in
    (((has_room two 7 ≡ true)
        × ((t : ClientMetrics) × (find m' 7 ≡ some t)
            × Counted 512 3 2048 true 300 60 80 (or_blank (find two 7) 7) t))
      ⊎ ((has_room two 7 ≡ false) × (find m' 7 ≡ none)))
    × (find m' 9 ≡ find two 9)
    × IsTable m'
record_output_timed_lem_example =
    record_output_timed_lem two 7 512 3 2048 true 300 60 80 9 two-IsTable (omega arith)
      (omega arith) (omega (arith, seven_so))
