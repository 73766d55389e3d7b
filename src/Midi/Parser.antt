-- ===== src/Midi/Parser.antt =====
-- The parser that puts MIDI messages together from the controller's USB reports
-- (coreaudio/NS6MIDIParser.h). A byte is a number below 256, so that `byte & 0x80` is `128 ≤ byte`.
-- The parser, the input and the output are never NULL here.
use numark_ns6_mac_arm.Prelude.{
  ℕ, ◌+◌, ◌&&◌, ◌||◌, List, [], ◌∷◌, ◌++◌, if◌then◌else◌, leb, ltb, ◌==◌, length, set, take,
}
pub mod Stream
pub mod Messages
mod Tests

pub record Parser : Type 0 where
  pub message : List ℕ  -- three bytes
  pub used : ℕ
  pub expected : ℕ

-- A report ends in a terminator at byte 41.
pub report_stream_length : ℕ → ℕ
report_stream_length length = if ltb 41 length then 41 else length

abbrev pub reset : Parser → Parser
reset p = record p { used = 0; expected = 0 }

-- How long a message with this status byte is; used for bytes from 0x80 to 0xef.
abbrev pub message_length : ℕ → ℕ
message_length status = if leb 0xc0 status && leb status 0xdf then 2 else 3

unfoldable pub on_status : Parser → ℕ → Parser
on_status p byte =
    if leb 0x80 byte && leb byte 0xef
    then record { message = set p.message 0 byte; used = 1; expected = message_length byte }
    else reset p

-- A data byte, with `written` bytes already in an output of `capacity` bytes: the parser, and what is
-- written.
unfoldable pub on_data : ℕ → ℕ → Parser → ℕ → Parser × List ℕ
on_data capacity written p byte =
    if p.expected == 0 || leb 3 p.used
    then (p, [])
    else let q = record p { message = set p.message p.used byte; used = p.used + 1 } in
      if q.used == q.expected
      then (reset q, if ltb capacity (written + q.expected) then [] else take q.expected q.message)
      else (q, [])

-- The body of the loop of `ns6_midi_parser_feed`.
unfoldable pub step : ℕ → ℕ → Parser → ℕ → Parser × List ℕ
step capacity written p byte =
    if byte == 0xfd
    then (p, [])
    else if leb 0x80 byte
    then (on_status p byte, [])
    else on_data capacity written p byte

-- The loop over the bytes that are left. The result's list is what the rest writes.
pub feed_from : ℕ → ℕ → Parser → List ℕ → Parser × List ℕ
feed_from capacity written p [] = (p, [])
feed_from capacity written p (byte ∷ input) =
    let (p', out) = step capacity written p byte in
    let (p'', outs) = feed_from capacity (written + length out) p' input in (p'', out ++ outs)

pub feed : Parser → List ℕ → ℕ → Parser × List ℕ
feed p input capacity = feed_from capacity 0 p input
