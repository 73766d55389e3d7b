-- ===== src/Midi/Parser/Tests.antt =====
-- The parser (coreaudio/NS6MIDIParser.h) on short streams.
use numark_ns6_mac_arm.Midi.Parser.{feed, Parser}
use numark_ns6_mac_arm.Midi.Parser.Messages.{encode, short, strip, long, Message, feed-encode}
use numark_ns6_mac_arm.Midi.Parser.Stream.{IsParser, feed-append}
use numark_ns6_mac_arm.Prelude.{ℕ, ◌≡◌, refl, inl, List, [], ◌∷◌, ◌++◌, arith}

abbrev idle : Parser
idle = record { message = 0 ∷ 0 ∷ 0 ∷ []; used = 0; expected = 0 }

idle-IsParser : IsParser idle
idle-IsParser = record { three = refl; expected_le = omega arith; begun = inl refl }

-- A note on with fill bytes inside, and a program change.
abbrev stream : List ℕ
stream = 0x90 ∷ 0xfd ∷ 0x3c ∷ 0x7f ∷ 0xfd ∷ 0xc1 ∷ 0x05 ∷ []

abbrev messages : List Message
messages = long 0x90 0x3c 0x7f ∷ short 0xc1 0x05 ∷ []

feed-encode_example : (feed idle stream 41).1 ≡ encode messages
unfolding strip
feed-encode_example = feed-encode idle stream messages 41 refl (omega arith) refl (omega arith)

feed-append_example : feed idle ((0x90 ∷ 0x3c ∷ []) ++ (0x7f ∷ [])) 41 ≡ (
    let (p', out) = feed idle (0x90 ∷ 0x3c ∷ []) 41 in
    let (p'', outs) = feed p' (0x7f ∷ []) 41 in (p'', out ++ outs))
feed-append_example = feed-append idle (0x90 ∷ 0x3c ∷ []) (0x7f ∷ []) 41 idle-IsParser (omega arith)
