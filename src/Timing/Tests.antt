-- ===== src/Timing/Tests.antt =====
-- The statistics (coreaudio/NS6USBTiming.c) of five timestamps, one of them 0 and one too early.
use numark_ns6_mac_arm.Prelude.{ℕ, ◌≡◌, refl, List, [], ◌∷◌}
use numark_ns6_mac_arm.Timing.{init}
use numark_ns6_mac_arm.Timing.Summary.{IsFresh, gaps}

abbrev timestamps : List ℕ
timestamps = 100 ∷ 150 ∷ 0 ∷ 170 ∷ 160 ∷ []

init-IsFresh : IsFresh init
unfolding init
init-IsFresh = (refl, refl, refl, refl)

gaps_example : gaps 0 timestamps ≡ 50 ∷ 20 ∷ []
gaps_example = refl
