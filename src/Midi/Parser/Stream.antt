-- ===== src/Midi/Parser/Stream.antt =====
-- The reports are fragments of one stream (coreaudio/NS6MIDIParser.h): where they are cut does not
-- matter, and no output overflows.
use numark_ns6_mac_arm.Midi.Parser.{step, on_status, feed_from, feed, Parser, on_data}
use numark_ns6_mac_arm.Prelude.{
  ℕ, ◌+◌, ◌≤◌, ◌<◌, ◌≡◌, refl, ap, ◌∙◌, ◌⊎◌, List, [], ◌∷◌, ◌++◌, append_assoc, arith,
  if◌then◌else◌, ◌==◌, length, length-append, length-set, length-take, set,
}

-- What holds of the parser between two bytes: no message is begun, or one is begun and not complete.
pub record IsParser (p : Parser) : Type 0 where
  pub three : length p.message ≡ 3
  pub expected_le : p.expected ≤ 3
  pub begun : (p.expected ≡ 0) ⊎ ((0 < p.used) × (p.used < p.expected))

pub step-IsParser :
    (capacity written : ℕ) (p : Parser) (byte : ℕ)
    → IsParser p
    → IsParser (step capacity written p byte).0
unfolding step on_status on_data
step-IsParser capacity written p byte v =
    ground (arith, length-set p.message 0 byte, length-set p.message p.used byte)

-- How many bytes of a message are held back.
abbrev pub held : Parser → ℕ
held p = if p.expected == 0 then 0 else p.used

-- A step writes no more than it was given and held, and nothing past the capacity.
step_room :
    (capacity written : ℕ) (p : Parser) (byte : ℕ)
    → IsParser p
    → written ≤ capacity
    → let (p', out) = step capacity written p byte in
      (written + length out ≤ capacity) × (held p' + length out ≤ held p + 1)
unfolding step on_status on_data
step_room capacity written p byte v le = ground (
  arith,
  length-take (p.used + 1) (set p.message p.used byte),
  length-take p.expected (set p.message p.used byte),
  length-set p.message p.used byte,
)

feed_from_bounds :
    (capacity written : ℕ) (p : Parser) (input : List ℕ)
    → IsParser p
    → written ≤ capacity
    → (written + length (feed_from capacity written p input).1 ≤ capacity)
      × (held (feed_from capacity written p input).0 + length (feed_from capacity written p input).1
          ≤ held p + length input)
      × IsParser (feed_from capacity written p input).0
unfolding feed_from
feed_from_bounds capacity written p [] v le = (omega arith, omega arith, v)
feed_from_bounds capacity written p (byte ∷ input) v le =
    let (p', out) = step capacity written p byte in
    let room = step_room capacity written p byte v le in
    let (a, b, c) =
      feed_from_bounds capacity (written + length out) p' input
        (step-IsParser capacity written p byte v) room.0 in
    let split = length-append out (feed_from capacity (written + length out) p' input).1 in
    (omega arith, omega arith, c)

-- `feed` never writes past the capacity, writes at most the bytes that it was given and had held back,
-- and leaves the parser in order.
pub feed_bounds :
    (p : Parser) (input : List ℕ) (capacity : ℕ)
    → IsParser p
    → let (p', output) = feed p input capacity in
      (length output ≤ capacity) × (held p' + length output ≤ held p + length input) × IsParser p'
unfolding feed
feed_bounds p input capacity v =
    let (a, b, c) = feed_from_bounds capacity 0 p input v (omega arith) in (omega arith, b, c)

-- With room for what can come, a step does the same wherever in the output it writes.
step_room_enough :
    (capacity written written' : ℕ) (p : Parser) (byte : ℕ)
    → IsParser p
    → written + (held p + 1) ≤ capacity
    → written' + (held p + 1) ≤ capacity
    → step capacity written p byte ≡ step capacity written' p byte
unfolding step on_data
step_room_enough capacity written written' p byte v le le' = ground arith

feed_from_enough :
    (capacity written written' : ℕ) (p : Parser) (input : List ℕ)
    → IsParser p
    → written + (held p + length input) ≤ capacity
    → written' + (held p + length input) ≤ capacity
    → feed_from capacity written p input ≡ feed_from capacity written' p input
unfolding feed_from
feed_from_enough capacity w w' p [] v le le' = refl
feed_from_enough capacity w w' p (byte ∷ input) v le le' =
    let same = step_room_enough capacity w w' p byte v (omega arith) (omega arith) in
    let (p', out) = step capacity w p byte in
    let room = step_room capacity w p byte v (omega arith) in
    let rest =
      feed_from_enough capacity (w + length out) (w' + length out) p' input
        (step-IsParser capacity w p byte v) (omega arith) (omega arith) in
    rw (← same, rest)

feed_from-append :
    (capacity written : ℕ) (p : Parser) (xs ys : List ℕ)
    → feed_from capacity written p (xs ++ ys) ≡ (
        let (p', out) = feed_from capacity written p xs in
        let (p'', outs) = feed_from capacity (written + length out) p' ys in (p'', out ++ outs))
unfolding feed_from
feed_from-append capacity written p [] ys = ap (λ w. feed_from capacity w p ys) (omega arith)
feed_from-append capacity written p (x ∷ xs) ys =
    let (p', out) = step capacity written p x in
    let (p'', outs) = feed_from capacity (written + length out) p' xs in
    let e : written + length (out ++ outs) ≡ written + length out + length outs =
      omega (arith, length-append out outs) in
    rw (feed_from-append capacity (written + length out) p' xs ys, e, append_assoc)

-- It does not matter where the stream is cut into reports: fed in two parts it gives the same messages
-- and leaves the same parser, if the output has room for the bytes given and held back.
pub feed-append :
    (p : Parser) (xs ys : List ℕ) (capacity : ℕ)
    → IsParser p
    → held p + length (xs ++ ys) ≤ capacity
    → feed p (xs ++ ys) capacity ≡ (
        let (p', out) = feed p xs capacity in
        let (p'', outs) = feed p' ys capacity in (p'', out ++ outs))
unfolding feed
feed-append p xs ys capacity v le =
    let len = length-append xs ys in
    let (a, b, v') = feed_from_bounds capacity 0 p xs v (omega arith) in
    let (p', out) = feed_from capacity 0 p xs in
    let same = feed_from_enough capacity (0 + length out) 0 p' ys v' (omega arith) (omega arith) in
    feed_from-append capacity 0 p xs ys ∙ ap (λ r. (r.0, out ++ r.1)) same
