-- ===== src/Realtime/Tests.antt =====
-- The work interval (coreaudio/NS6USBRealtime.h) over a few rounds.
use numark_ns6_mac_arm.Prelude.{true, false, List, [], ◌∷◌}
use numark_ns6_mac_arm.Realtime.{interval_destroy, interval_init}
use numark_ns6_mac_arm.Realtime.Interval.{
  ends, IsHeld, IsReleased, begins, Round, idle_state, rounds, rounds_lem,
}

abbrev some_rounds : List Round
some_rounds =
    begins 10 20 true
    ∷ begins 20 30 true
    ∷ ends false
    ∷ begins 40 40 true
    ∷ ends true
    ∷ begins 50 60 true
    ∷ []

rounds_lem_example :
    let s = rounds (interval_init true true idle_state).1 some_rounds in
    IsHeld s × IsReleased (interval_destroy false s)
rounds_lem_example = rounds_lem true true false some_rounds
