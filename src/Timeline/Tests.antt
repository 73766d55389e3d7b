-- ===== src/Timeline/Tests.antt =====
-- Sample times and timestamps (coreaudio/NS6SampleTimeline.h, NS6USBFrameTimestamps.h) at small values.
use numark_ns6_mac_arm.Prelude.{◌≡◌, some, List, [], ◌∷◌, arith}
use numark_ns6_mac_arm.Timeline.{sample_time_from_nanos, FrameTime}
use numark_ns6_mac_arm.Timeline.Nanos.{sample_time_from_nanos_lem}

-- Three seconds and a half at 44.1 kHz.
sample_time_from_nanos_lem_example : sample_time_from_nanos 3500000000 44100 ≡ some 154350
sample_time_from_nanos_lem_example = sample_time_from_nanos_lem 3500000000 44100 (omega arith)

abbrev frames : List FrameTime
frames = record { hi = 1; lo = 7 } ∷ record { hi = 0; lo = 0 } ∷ record { hi = 0; lo = 9 } ∷ []
