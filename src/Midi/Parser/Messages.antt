-- ===== src/Midi/Parser/Messages.antt =====
-- Whole messages go through the parser unchanged (coreaudio/NS6MIDIParser.h).
use numark_ns6_mac_arm.Midi.Parser.{
  step, on_status, feed_from, feed, Parser, message_length, on_data,
}
use numark_ns6_mac_arm.Prelude.{
  ℕ, ◌+◌, ◌≤◌, ◌<◌, ◌≡◌, refl, ap, ◌∙◌, inl, inr, true, List, [], ◌∷◌, ◌++◌, arith, Bool-cases,
  if◌then◌else◌, ◌==◌, length, length-append, length-set, set, take,
}

-- A channel message, with its status byte and its data bytes.
pub data Message : Type 0 where
  short : (status data1 : ℕ) → Message
  long : (status data1 data2 : ℕ) → Message

abbrev pub bytes : Message → List ℕ
bytes (short s a) = s ∷ a ∷ []
bytes (long s a b) = s ∷ a ∷ b ∷ []

abbrev pub IsMessage : Message → Type 0
IsMessage (short s a) = (0xc0 ≤ s) × (s ≤ 0xdf) × (a < 0x80)
IsMessage (long s a b) =
    (0x80 ≤ s) × (s ≤ 0xef) × (¬ ((0xc0 ≤ s) × (s ≤ 0xdf))) × (a < 0x80) × (b < 0x80)

abbrev pub AllMessages : List Message → Type 0
AllMessages [] = Unit {0}
AllMessages (m ∷ ms) = IsMessage m × AllMessages ms

abbrev pub encode : List Message → List ℕ
encode [] = []
encode (m ∷ ms) = bytes m ++ encode ms

-- The stream without the bytes that fill a report.
unfoldable pub strip : List ℕ → List ℕ
strip [] = []
strip (x ∷ xs) = if x == 0xfd then strip xs else x ∷ strip xs

step_fill :
    (capacity written : ℕ) (p : Parser) (x : ℕ)
    → (x == 0xfd) ≡ true
    → step capacity written p x ≡ (p, [])
unfolding step
step_fill capacity written p x fill = rw fill

feed_from-strip :
    (capacity written : ℕ) (p : Parser) (input : List ℕ)
    → feed_from capacity written p input ≡ feed_from capacity written p (strip input)
unfolding feed_from strip
feed_from-strip capacity written p [] = refl
feed_from-strip capacity written p (x ∷ xs) = elim (Bool-cases (x == 0xfd)) [
  | inl fill ↦
      let same : written + 0 ≡ written = omega arith in
      rw (step_fill capacity written p x fill, same, fill, feed_from-strip capacity written p xs)
  | inr byte ↦
      let (p', out) = step capacity written p x in
      rw (byte, feed_from-strip capacity (written + length out) p' xs)
]

-- A parser with three bytes of room, at a status byte.
step_status :
    (capacity written : ℕ) (p : Parser) (s : ℕ)
    → 0x80 ≤ s
    → s ≤ 0xef
    → step capacity written p s
      ≡ (record { message = set p.message 0 s; used = 1; expected = message_length s }, [])
unfolding step on_status
step_status capacity written p s low high = ground arith

-- A data byte that does not complete the message.
step_more :
    (capacity written : ℕ) (m : List ℕ) (byte : ℕ)
    → byte < 0x80
    → step capacity written (record { message = m; used = 1; expected = 3 }) byte
      ≡ (record { message = set m 1 byte; used = 2; expected = 3 }, [])
unfolding step on_data
step_more capacity written m byte lt = ground arith

-- The data byte that completes the message.
step_last :
    (capacity written : ℕ) (m : List ℕ) (u byte : ℕ)
    → byte < 0x80
    → u < 3
    → written + (u + 1) ≤ capacity
    → step capacity written (record { message = m; used = u; expected = u + 1 }) byte
      ≡ (record { message = set m u byte; used = 0; expected = 0 }, take (u + 1) (set m u byte))
unfolding step on_data
step_last capacity written m u byte lt small room = ground arith

two_bytes : (m : List ℕ) (s a : ℕ) → length m ≡ 3 → take 2 (set (set m 0 s) 1 a) ≡ s ∷ a ∷ []
two_bytes [] s a h = absurd (omega arith)
two_bytes (x ∷ []) s a h = absurd (omega arith)
two_bytes (x ∷ y ∷ m) s a h = refl

three_bytes :
    (m : List ℕ) (s a b : ℕ)
    → length m ≡ 3
    → take 3 (set (set (set m 0 s) 1 a) 2 b) ≡ s ∷ a ∷ b ∷ []
three_bytes [] s a b h = absurd (omega arith)
three_bytes (x ∷ []) s a b h = absurd (omega arith)
three_bytes (x ∷ y ∷ []) s a b h = absurd (omega arith)
three_bytes (x ∷ y ∷ z ∷ m) s a b h = refl

feed_message :
    (capacity written : ℕ) (p : Parser) (m : Message) (rest : List ℕ)
    → length p.message ≡ 3
    → IsMessage m
    → written + length (bytes m) ≤ capacity
    → (q : Parser) × (length q.message ≡ 3)
      × (feed_from capacity written p (bytes m ++ rest) ≡ (
          let (r, outs) = feed_from capacity (written + length (bytes m)) q rest in
          (r, bytes m ++ outs)))
unfolding feed_from
feed_message capacity written p (short s a) rest three h room =
    let m = set p.message 0 s in
    let two : message_length s ≡ 2 = ground arith in
    let same : written + 0 ≡ written = omega arith in
    (
      record { message = set m 1 a; used = 0; expected = 0 },
      length-set m 1 a ∙ length-set p.message 0 s ∙ three,
      rw (
        step_status capacity written p s (omega arith) (omega arith),
        same,
        two,
        step_last capacity written m 1 a h.2 (omega arith) room,
        two_bytes p.message s a three,
      ),
    )
feed_message capacity written p (long s a b) rest three h room =
    let m = set p.message 0 s in
    let long_one : message_length s ≡ 3 = ground arith in
    let same : written + 0 ≡ written = omega arith in
    (
      record { message = set (set m 1 a) 2 b; used = 0; expected = 0 },
      length-set (set m 1 a) 2 b ∙ length-set m 1 a ∙ length-set p.message 0 s ∙ three,
      rw (
        step_status capacity written p s h.0 h.1,
        same,
        long_one,
        step_more capacity written m a h.3,
        same,
        step_last capacity written (set m 1 a) 2 b h.4 (omega arith) room,
        three_bytes p.message s a b three,
      ),
    )

feed_from-encode :
    (capacity written : ℕ) (p : Parser) (ms : List Message)
    → length p.message ≡ 3
    → AllMessages ms
    → written + length (encode ms) ≤ capacity
    → (feed_from capacity written p (encode ms)).1 ≡ encode ms
unfolding feed_from
feed_from-encode capacity written p [] three h room = refl
feed_from-encode capacity written p (m ∷ ms) three h room =
    let len = length-append (bytes m) (encode ms) in
    let (q, three', fed) = feed_message capacity written p m (encode ms) three h.0 (omega arith) in
    ap (λ (r : Parser × List ℕ). r.1) fed
    ∙ ap (λ l. bytes m ++ l)
        (feed_from-encode capacity (written + length (bytes m)) q ms three' h.1 (omega arith))

-- The bytes of channel messages come out as they went in, whatever the parser held before and wherever
-- the fill byte 0xfd stands among them, if the output has room for them.
pub feed-encode :
    (p : Parser) (input : List ℕ) (ms : List Message) (capacity : ℕ)
    → length p.message ≡ 3
    → AllMessages ms
    → strip input ≡ encode ms
    → length (encode ms) ≤ capacity
    → (feed p input capacity).1 ≡ encode ms
unfolding feed
feed-encode p input ms capacity three h e room =
    ap (λ (r : Parser × List ℕ). r.1)
      (feed_from-strip capacity 0 p input ∙ ap (feed_from capacity 0 p) e)
    ∙ feed_from-encode capacity 0 p ms three h (omega arith)
