-- ===== src/Clock/Cadence.antt =====
-- How many frames the packets of a millisecond carry (coreaudio/NS6ClockControl.c).
use mathlib.Core.Path.{subst}
use native.Mathlib.Nat.{mod-eq_of_lt}
use numark_ns6_mac_arm.Clock.{
  adaptive_step, pattern_capacity, fixed_step, next_millisecond, Build, pattern_step, ClockControl,
  output_rate_millihz, patterns, spread_from, count_sent, spread, feedback_max, feedback_min,
}
use numark_ns6_mac_arm.Clock.Reports.{IsWindow-same, queued-popped, IsSound, queued, popped}
use numark_ns6_mac_arm.Clock.Window.{sum, AllValid}
use numark_ns6_mac_arm.Prelude.{
  ℕ, zero, suc, ◌+◌, ◌-◌, ◌*◌, ◌/◌, ◌%◌, ◌≤◌, ◌<◌, ◌≡◌, refl, sym, ap, ◌∙◌, ◌⊎◌, inl, inr, Bool,
  true, false, ◌&&◌, List, [], ◌∷◌, arith, ==_iff, Bool-cases, if◌then◌else◌, leb, leb→le, ◌==◌,
  drop, get_or, length,
}
use numark_ns6_mac_arm.Prelude.Words.{add64}
use numark_ns6_mac_arm.Span.{span}

-- A millisecond of eight packets that carry `frames` frames in all, nearly evenly.
pub record IsMillisecond (frames : ℕ) (packets : List ℕ) : Type 0 where
  pub eight : length packets ≡ 8
  pub carried : sum packets ≡ frames

spread_from_lem :
    (n base r acc : ℕ)
    → acc < 8
    → r < 8
    → (sum (spread_from n base r acc) ≡ n * base + (acc + n * r) / 8)
      × (length (spread_from n base r acc) ≡ n)
unfolding spread_from sum
spread_from_lem zero base r acc ha hr = omega arith
spread_from_lem (suc n) base r acc ha hr = elim (Bool-cases (leb 8 (acc + r))) [
  | inl e ↦
      let enough : 8 ≤ acc + r = leb→le 8 (acc + r) e in
      let ih = spread_from_lem n base r (acc + r - 8) (omega arith) hr in rw e (omega arith)
  | inr e ↦
      let few : acc + r < 8 = ground arith in
      let ih = spread_from_lem n base r (acc + r) few hr in rw e (omega arith)
]

-- Any number of frames is spread over the packets without loss.
pub spread-IsMillisecond : (frames : ℕ) → IsMillisecond frames (spread frames)
unfolding spread
spread-IsMillisecond frames =
    let (total, eight) =
      spread_from_lem 8 (frames / 8) (frames % 8) 0 (omega arith) (omega arith) in
    record { eight = eight; carried = total ∙ omega arith }

pattern_row : (k : ℕ) → k < 5 → IsMillisecond (feedback_min + k) (get_or patterns k [])
unfolding patterns sum
pattern_row zero lt = omega arith
pattern_row (suc zero) lt = omega arith
pattern_row (suc (suc zero)) lt = omega arith
pattern_row (suc (suc (suc zero))) lt = omega arith
pattern_row (suc (suc (suc (suc zero)))) lt = omega arith
pattern_row (suc (suc (suc (suc (suc k))))) lt = absurd (omega arith)

-- The pattern table has a row for every report that the device can send.
pub patterns-IsMillisecond :
    (v : ℕ)
    → feedback_min ≤ v
    → v ≤ feedback_max
    → IsMillisecond v (get_or patterns (v - feedback_min) [])
patterns-IsMillisecond v low high =
    let e : feedback_min + (v - feedback_min) ≡ v = omega arith in
    subst (λ u. IsMillisecond u (get_or patterns (v - feedback_min) [])) e
      (pattern_row (v - feedback_min) (omega arith))

-- How many frames `n` milliseconds of the fixed cadence carry.
pub fixed_total : ℕ → ClockControl → ℕ
fixed_total zero c = 0
fixed_total (suc n) c = (fixed_step c).0 + fixed_total n (fixed_step c).1

-- The fixed cadence is 44.1 frames a millisecond, exactly: `n` milliseconds carry 44 n frames and one
-- more for every ten, counted from the fraction that is carried over. Ten milliseconds carry 441.
pub fixed_total_lem :
    (n : ℕ) (c : ClockControl)
    → c.fixed_fraction < 1000
    → fixed_total n c ≡ 44 * n + (c.fixed_fraction + 100 * n) / 1000
unfolding fixed_total fixed_step
fixed_total_lem zero c lt = omega arith
fixed_total_lem (suc n) c lt = ground (arith, fixed_total_lem n (fixed_step c).1)

-- The fractions and the total sent are the parts that no invariant ties to the reports.
abbrev ticked : ClockControl → ℕ → ℕ → ℕ → ClockControl
ticked c fixed millionths sent = record c {
  fixed_fraction = fixed;
  adaptive_fraction = millionths;
  sent_total = sent;
}

ticked-IsSound :
    (c : ClockControl) (fixed millionths sent : ℕ)
    → fixed < 1000
    → millionths < 1000000
    → IsSound c
    → IsSound (ticked c fixed millionths sent)
ticked-IsSound c fixed millionths sent hf hm s = record {
  window = IsWindow-same c (ticked c fixed millionths sent) refl refl refl refl s.window;
  queue = record {
    queue_slots = s.queue.queue_slots;
    read_lt = s.queue.read_lt;
    queue_le = s.queue.queue_le;
    queue_valid = s.queue.queue_valid;
  };
  rate = s.rate;
  fraction_lt = hf;
  millionths_lt = hm;
}

popped-IsSound : (c : ClockControl) → IsSound c → 0 < c.pattern_queue_count → IsSound (popped c)
popped-IsSound c s some_queued = record {
  window = IsWindow-same c (popped c) refl refl refl refl s.window;
  queue = (queued-popped c s.queue some_queued).0;
  rate = s.rate;
  fraction_lt = s.fraction_lt;
  millionths_lt = s.millionths_lt;
}

fixed_step-eq-ticked :
    (c : ClockControl)
    → c.fixed_fraction < 1000
    → (fixed : ℕ) × (fixed < 1000)
      × ((fixed_step c).1 ≡ ticked c fixed c.adaptive_fraction c.sent_total)
      × (44 ≤ (fixed_step c).0)
      × ((fixed_step c).0 ≤ 45)
unfolding fixed_step
fixed_step-eq-ticked c lt = elim (Bool-cases (leb 1000 (add64 c.fixed_fraction 100))) [
  | inl e ↦
      (add64 c.fixed_fraction 100 - 1000, omega arith, rw e, rw e (omega arith), rw e (omega arith))
  | inr e ↦ (add64 c.fixed_fraction 100, ground arith, rw e, rw e (omega arith), rw e (omega arith))
]

span_of_pos :
    (size n : ℕ) (buf : List ℕ) (h : ℕ)
    → 0 < n
    → h < size
    → span size 0 buf h n ≡ get_or buf h 0 ∷ drop 1 (span size 0 buf h n)
span_of_pos size zero buf h lt hs = absurd (omega arith)
span_of_pos size (suc n) buf h lt hs = rw (mod-eq_of_lt hs)

-- What one millisecond does to the clock control: it stays sound, and asks for 40 to 48 frames.
record Ticks (c : ClockControl) (frames : ℕ) (c' : ClockControl) : Type 0 where
  sound : IsSound c'
  low : 40 ≤ frames
  high : frames ≤ 48
  sent : c'.sent_total ≡ c.sent_total

fixed_step-Ticks :
    (c : ClockControl)
    → IsSound c
    → Ticks c (fixed_step c).0 (fixed_step c).1 × (44 ≤ (fixed_step c).0) × ((fixed_step c).0 ≤ 45)
fixed_step-Ticks c s =
    let (fixed, lt, e, low, high) = fixed_step-eq-ticked c s.fraction_lt in
    (
      record {
        sound = rw e (ticked-IsSound c fixed c.adaptive_fraction c.sent_total lt s.millionths_lt s);
        low = omega arith;
        high = omega arith;
        sent = rw e refl;
      },
      low,
      high,
    )

-- The queue of reports is served in order; an empty one falls back to the fixed cadence.
pattern_step-Ticks :
    (c : ClockControl)
    → IsSound c
    → Ticks c (pattern_step c).0 (pattern_step c).1
      × (feedback_min ≤ (pattern_step c).0)
      × ((pattern_step c).0 ≤ feedback_max)
      × ((queued c ≡ []) ⊎ (queued c ≡ (pattern_step c).0 ∷ queued (pattern_step c).1))
unfolding pattern_step
pattern_step-Ticks c s = elim (Bool-cases (c.pattern_queue_count == 0)) [
  | inl e ↦
      let none_queued : c.pattern_queue_count ≡ 0 = (==_iff c.pattern_queue_count 0).0 e in
      let (ticks, low, high) = fixed_step-Ticks c s in
      rw e (ticks, omega arith, omega arith, inl (rw none_queued))
  | inr e ↦
      let some_queued : 0 < c.pattern_queue_count = ground arith in
      let (q, rest) = queued-popped c s.queue some_queued in
      let front : queued c ≡ get_or c.pattern_queue c.pattern_queue_read 0 ∷ queued (popped c) =
        span_of_pos pattern_capacity c.pattern_queue_count c.pattern_queue c.pattern_queue_read
          some_queued s.queue.read_lt
        ∙ ap (λ l. get_or c.pattern_queue c.pattern_queue_read 0 ∷ l) (sym rest) in
      let valid = subst AllValid front s.queue.queue_valid in
      rw e (
        record {
          sound = popped-IsSound c s some_queued;
          low = omega arith;
          high = omega arith;
          sent = refl;
        },
        valid.0,
        valid.1,
        inr front,
      )
]

adaptive_step-Ticks :
    (b : Build) (c : ClockControl) → IsSound c → Ticks c (adaptive_step b c).0 (adaptive_step b c).1
unfolding adaptive_step
adaptive_step-Ticks b c s =
    let part = output_rate_millihz b c % 1000000 in
    let fraction = add64 c.adaptive_fraction part in
    elim (Bool-cases (leb 1000000 fraction)) [
      | inl e ↦ rw e (record {
        sound =
            ticked-IsSound c c.fixed_fraction (fraction - 1000000) c.sent_total s.fraction_lt
              (omega arith) s;
        low = ground arith;
        high = ground arith;
        sent = refl;
      })
      | inr e ↦ rw e (record {
        sound =
            ticked-IsSound c c.fixed_fraction fraction c.sent_total s.fraction_lt (ground arith) s;
        low = ground arith;
        high = ground arith;
        sent = refl;
      })
    ]

-- The step of a build without the pattern scheduler.
plain_step-Ticks :
    (b : Build) (c : ClockControl)
    → IsSound c
    → (adaptive : Bool)
    → let (frames, c') = if adaptive then adaptive_step b c else fixed_step c in Ticks c frames c'
plain_step-Ticks b c s true = adaptive_step-Ticks b c s
plain_step-Ticks b c s false = (fixed_step-Ticks c s).0

-- What a millisecond comes to once its frames are known.
abbrev Millisecond : ClockControl → List ℕ → ClockControl → Type 0
Millisecond c packets c' =
    (length packets ≡ 8)
    × (40 ≤ sum packets)
    × (sum packets ≤ 48)
    × (c'.sent_total ≡ add64 c.sent_total (sum packets))
    × IsSound c'

Ticks-IsMillisecond :
    (c : ClockControl) (frames : ℕ) (c' : ClockControl) (packets : List ℕ)
    → Ticks c frames c'
    → IsMillisecond frames packets
    → Millisecond c packets (count_sent frames c')
Ticks-IsMillisecond c frames c' packets t m = (
  m.eight,
  rw (m.carried) t.low,
  rw (m.carried) t.high,
  rw (m.carried, t.sent) refl,
  ticked-IsSound c' c'.fixed_fraction c'.adaptive_fraction (add64 c'.sent_total frames)
      t.sound.fraction_lt t.sound.millionths_lt t.sound,
)

-- A millisecond of a sound clock control, in every build: eight packets that carry 40 to 48 frames in
-- all, a total sent that grows by exactly these, and a clock control that is sound again.
pub next_millisecond_lem :
    (b : Build) (c : ClockControl)
    → IsSound c
    → let (packets, c') = next_millisecond b c in
      (length packets ≡ 8)
      × (40 ≤ sum packets)
      × (sum packets ≤ 48)
      × (c'.sent_total ≡ add64 c.sent_total (sum packets))
      × IsSound c'
unfolding next_millisecond
next_millisecond_lem b c s = elim (Bool-cases (b.adaptive && b.pattern_scheduler)) [
  | inl on ↦
      let (t, low, high, front) = pattern_step-Ticks c s in
      rw on (
        Ticks-IsMillisecond c (pattern_step c).0 (pattern_step c).1 _ t
          (patterns-IsMillisecond (pattern_step c).0 low high))
  | inr off ↦
      let step = if b.adaptive then adaptive_step b c else fixed_step c in
      rw off (
        Ticks-IsMillisecond c step.0 step.1 (spread step.0) (plain_step-Ticks b c s b.adaptive)
          (spread-IsMillisecond step.0))
]

-- With the pattern scheduler a millisecond carries as many frames as the oldest queued report asks
-- for, and takes that report off the queue.
pub next_millisecond_serves :
    (b : Build) (c : ClockControl) (v : ℕ) (vs : List ℕ)
    → IsSound c
    → b.adaptive ≡ true
    → b.pattern_scheduler ≡ true
    → queued c ≡ v ∷ vs
    → let (packets, c') = next_millisecond b c in (sum packets ≡ v) × (queued c' ≡ vs)
unfolding next_millisecond
next_millisecond_serves b c v vs s ad pat q =
    let (t, low, high, front) = pattern_step-Ticks c s in
    let taken : (pattern_step c).0 ∷ queued (pattern_step c).1 ≡ v ∷ vs = elim front [
      | inl e ↦ cc
      | inr e ↦ sym e ∙ q
    ] in
    rw (ad, pat) ((patterns-IsMillisecond (pattern_step c).0 low high).carried ∙ cc, cc)
