-- ===== src/Midi/Recovery/Tests.antt =====
-- The recovery of the MIDI reads (coreaudio/NS6MIDIRecovery.h) on a mask with two slots.
