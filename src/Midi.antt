-- ===== src/Midi.antt =====
-- The MIDI side of the driver that is plain logic: the parser of the byte stream, the bit masks and
-- delays of the recovery from USB errors, and how many reads are kept in flight.
pub mod Tables
pub mod Parser
pub mod Recovery
pub mod Reads
