-- ===== src/Midi/Reads/Tests.antt =====
-- The reads in flight (coreaudio/NS6MIDIReadLifecycle.h) while audio plays, with one of them missing.
use numark_ns6_mac_arm.Midi.Reads.{Build}

abbrev build : Build
build = record { idle_read_count = 0; initial_read_count = 4 }
