-- ===== src/Driver/Packets/Requests.antt =====
-- From the reports of the device to the packets (numark-ns6/audio-out/AudioPacketPolicy.cpp).
use mathlib.Core.Path.{subst}
use numark_ns6_mac_arm.Driver.Packets.{
  enter_window, follow, Policy, replay, queue_capacity, follow_or_replay, observe_invalid_feedback,
  is_report, observe_feedback, pop_report, build_pattern, select_pattern,
}
use numark_ns6_mac_arm.Driver.Packets.Millisecond.{packets_pattern, packets_lem, packets}
use numark_ns6_mac_arm.Driver.Packets.Patterns.{sum, IsPlaying}
use numark_ns6_mac_arm.Driver.Packets.Queue.{
  queued-pop_report, queued-enqueue, length-queued, latest, queued, IsQueue,
}
use numark_ns6_mac_arm.Prelude.{
  ℕ, zero, suc, ◌+◌, ◌-◌, ◌≤◌, ◌<◌, ◌≡◌, refl, sym, ap, ap₂, ◌∙◌, inl, inr, true, false, Option,
  none, some, List, [], ◌∷◌, ◌++◌, append-nil, append_assoc, arith, Bool-cases, if◌then◌else◌, ◌==◌,
  Every, drop, get_or, length, length-append, length-drop, take,
}
use numark_ns6_mac_arm.Span.{get_or-span}

pub data Report : Type 0 where
  reported : ℕ → Report
  invalid : Report

unfoldable pub observe : Policy → Report → Policy
observe p (reported frames) = observe_feedback p frames
observe p invalid = observe_invalid_feedback p

unfoldable pub observe_all : Policy → List Report → Policy
observe_all p [] = p
observe_all p (report ∷ rest) = observe_all (observe p report) rest

-- What a report puts into the queue: a report out of range does not count, and an invalid one is a 0.
unfoldable pub entry_of : Report → List ℕ
entry_of (reported frames) = if is_report frames then frames ∷ [] else []
entry_of invalid = 0 ∷ []

unfoldable pub heard : List Report → List ℕ
heard [] = []
heard (report ∷ rest) = entry_of report ++ heard rest

drop-append : (ns ms : List ℕ) (k : ℕ) → k ≤ length ns → drop k (ns ++ ms) ≡ drop k ns ++ ms
drop-append ns ms zero le = refl
drop-append [] ms (suc k) le = absurd (omega (arith, le))
drop-append (n ∷ ns) ms (suc k) le = drop-append ns ms k (omega (arith, le))

drop-drop : (ns : List ℕ) (j k : ℕ) → drop j (drop k ns) ≡ drop (k + j) ns
drop-drop ns j zero = ap (λ n. drop n ns) (omega arith)
drop-drop [] zero (suc k) = let e : suc k + 0 ≡ suc k = omega arith in rw e refl
drop-drop [] (suc j) (suc k) = let e : suc k + suc j ≡ suc (k + suc j) = omega arith in rw e refl
drop-drop (n ∷ ns) j (suc k) =
    let e : suc k + j ≡ suc (k + j) = omega arith in rw e (drop-drop ns j k)

-- What has left the queue does not come back.
latest-latest : (ns ms : List ℕ) → latest (latest ns ++ ms) ≡ latest (ns ++ ms)
unfolding latest
latest-latest ns ms =
    let k = length ns - queue_capacity in
    let le : k ≤ length ns = omega arith in
    let inner = drop k ns in
    let size : length (inner ++ ms) ≡ length ns - k + length ms =
      length-append inner ms ∙ ap (λ n. n + length ms) (length-drop k ns) in
    let whole = length-append ns ms in
    ap (λ l. drop (length (inner ++ ms) - queue_capacity) l) (sym (drop-append ns ms k le))
    ∙ drop-drop (ns ++ ms) (length (inner ++ ms) - queue_capacity) k
    ∙ ap (λ j. drop j (ns ++ ms)) (omega (arith, size, whole))

enter_window-IsQueue :
    (p : Policy) (frames : ℕ)
    → IsQueue p
    → IsQueue (enter_window p frames) × (queued (enter_window p frames) ≡ queued p)
unfolding enter_window
enter_window-IsQueue p frames q =
    (record { slots = q.slots; read_lt = q.read_lt; count_le = q.count_le }, refl)

latest_short : (ns : List ℕ) → length ns ≤ queue_capacity → latest ns ≡ ns
unfolding latest
latest_short ns le =
    let none_over : length ns - queue_capacity ≡ 0 = omega (arith, le) in rw none_over refl

observe_lem :
    (p : Policy) (report : Report)
    → IsQueue p
    → IsQueue (observe p report)
      × (queued (observe p report) ≡ latest (queued p ++ entry_of report))
unfolding observe entry_of observe_feedback observe_invalid_feedback
observe_lem p invalid q = queued-enqueue p 0 q
observe_lem p (reported frames) q = elim (Bool-cases (is_report frames)) [
  | inl ok ↦
      let (u, same) = enter_window-IsQueue p frames q in
      let (v, here) = queued-enqueue (enter_window p frames) frames u in
      rw ok (v, here ∙ ap (λ l. latest (l ++ (frames ∷ []))) same)
  | inr bad ↦
      let short : length (queued p) ≤ queue_capacity = omega (arith, q.count_le, length-queued p) in
      rw bad (q, sym (ap latest (append-nil (queued p)) ∙ latest_short (queued p) short))
]

-- After any reports the queue holds the newest 32 of what it held and what it has heard, in their order.
pub observe_all_lem :
    (p : Policy) (reports : List Report)
    → IsQueue p
    → IsQueue (observe_all p reports)
      × (queued (observe_all p reports) ≡ latest (queued p ++ heard reports))
unfolding observe_all heard
observe_all_lem p [] q =
    let short : length (queued p) ≤ queue_capacity = omega (arith, q.count_le, length-queued p) in
    (q, sym (ap latest (append-nil (queued p)) ∙ latest_short (queued p) short))
observe_all_lem p (report ∷ rest) q =
    let (v, here) = observe_lem p report q in
    let (w, all) = observe_all_lem (observe p report) rest v in
    (
      w,
      all
          ∙ ap (λ l. latest (l ++ heard rest)) here
          ∙ latest-latest (queued p ++ entry_of report) (heard rest)
          ∙ ap latest (append_assoc (queued p) (entry_of report) (heard rest)),
    )

-- So many milliseconds of packets.
unfoldable pub milliseconds : ℕ → Policy → List ℕ × Policy
unfolding packets
milliseconds zero p = ([], p)
milliseconds (suc n) p =
    let (frames, q) = packets 8 p in let (rest, r) = milliseconds n q in (frames ++ rest, r)

sum-append : (ns ms : List ℕ) → sum (ns ++ ms) ≡ sum ns + sum ms
unfolding sum
sum-append [] ms = omega arith
sum-append (n ∷ ns) ms = omega (arith, sum-append ns ms)

follow_or_replay-IsQueue :
    (p : Policy) (o : Option (List ℕ))
    → IsQueue p
    → IsQueue (follow_or_replay p o) × (queued (follow_or_replay p o) ≡ queued p)
unfolding follow replay
follow_or_replay-IsQueue p none q =
    (record { slots = q.slots; read_lt = q.read_lt; count_le = q.count_le }, refl)
follow_or_replay-IsQueue p (some pattern) q =
    (record { slots = q.slots; read_lt = q.read_lt; count_le = q.count_le }, refl)

-- A millisecond takes the oldest report.
packets-queued :
    (p : Policy)
    → IsPlaying p
    → IsQueue p
    → p.pattern_index ≡ 0
    → 0 < p.queue_count
    → IsQueue (packets 8 p).1 × (queued (packets 8 p).1 ≡ drop 1 (queued p))
unfolding select_pattern
packets-queued p v q at some_queued =
    let idle : p.queue_count == 0 ≡ false = ground (arith, some_queued) in
    let (u, rest) = queued-pop_report p q some_queued in
    let o = build_pattern (get_or p.queue p.queue_read 0) in
    let (w, same) = follow_or_replay-IsQueue (pop_report p) o u in
    subst (λ r. IsQueue r.1 × (queued r.1 ≡ drop 1 (queued p))) (sym (packets_pattern p v at))
      (rw idle
        (record { slots = w.slots; read_lt = w.read_lt; count_le = w.count_le }, same ∙ rest))

first_of : (ns : List ℕ) → 0 < length ns → ns ≡ get_or ns 0 0 ∷ drop 1 ns
first_of [] lt = absurd (omega (arith, lt))
first_of (n ∷ ns) lt = refl

-- A report that waits at the head of the queue is the next millisecond's.
packets-head :
    (p : Policy)
    → IsPlaying p
    → IsQueue p
    → p.pattern_index ≡ 0
    → 0 < p.queue_count
    → is_report (get_or (queued p) 0 0) ≡ true
    → sum (packets 8 p).0 ≡ get_or (queued p) 0 0
packets-head p v q at some_queued ok =
    let (pattern, said, after, index) = packets_lem p v at in
    let idle : p.queue_count == 0 ≡ false = ground (arith, some_queued) in
    let head : get_or (queued p) 0 0 ≡ get_or p.queue p.queue_read 0 =
      get_or-span queue_capacity 0 p.queue p.queue_read p.queue_count 0 some_queued
      ∙ ap (λ i. get_or p.queue i 0) (omega (arith, q.read_lt)) in
    (rw idle at said) (sym (ap is_report head) ∙ ok) ∙ sym head

-- A policy in order at the start of a millisecond, whose queue holds `n` reports or more, all in range:
-- `n` milliseconds carry together what the first `n` of them ask for, and the rest stays in the queue.
pub milliseconds_lem :
    (n : ℕ) (p : Policy)
    → IsPlaying p
    → IsQueue p
    → p.pattern_index ≡ 0
    → n ≤ p.queue_count
    → Every (λ r. is_report r ≡ true) (queued p)
    → (sum (milliseconds n p).0 ≡ sum (take n (queued p)))
      × (queued (milliseconds n p).1 ≡ drop n (queued p))
unfolding milliseconds sum
milliseconds_lem zero p v q at enough valid = (refl, refl)
milliseconds_lem (suc n) p v q at enough valid =
    let some_queued : 0 < p.queue_count = omega (arith, enough) in
    let some_length : 0 < length (queued p) = omega (arith, length-queued p, enough) in
    let split = first_of (queued p) some_length in
    let head_valid : is_report (get_or (queued p) 0 0) ≡ true =
      (subst (λ l. Every (λ r. is_report r ≡ true) l) split valid).0 in
    let rest_valid = (subst (λ l. Every (λ r. is_report r ≡ true) l) split valid).1 in
    let (pattern, said, w, index) = packets_lem p v at in
    let (u, popped) = packets-queued p v q at some_queued in
    let next = (packets 8 p).1 in
    let count : next.queue_count ≡ p.queue_count - 1 =
      sym (length-queued next)
      ∙ ap length popped
      ∙ length-drop 1 (queued p)
      ∙ ap (λ k. k - 1) (length-queued p) in
    let (total, left) =
      milliseconds_lem n next w u index (omega (arith, enough, count))
        (subst (λ l. Every (λ r. is_report r ≡ true) l) (sym popped) rest_valid) in
    let carried = packets-head p v q at some_queued head_valid in
    (
      sum-append (packets 8 p).0 (milliseconds n next).0
          ∙ ap₂ (λ a b. a + b) carried (total ∙ ap (λ l. sum (take n l)) popped)
          ∙ ap (λ l. sum (take (suc n) l)) (sym split),
      left ∙ ap (λ l. drop n l) popped ∙ ap (λ l. drop (suc n) l) (sym split),
    )
