-- ===== src/Driver/Packets/Queue.antt =====
-- The reports that wait for their millisecond (numark-ns6/audio-out/AudioPacketPolicy.cpp): the newest 32, in
-- their order; each millisecond plays one.
-- The waiting reports, oldest first.
use numark_ns6_mac_arm.Driver.Packets.{enqueue, pop_report, queue_capacity, Policy}
use numark_ns6_mac_arm.Prelude.{
  ℕ, suc, ◌+◌, ◌-◌, ◌%◌, ◌≤◌, ◌<◌, ◌≡◌, refl, sym, ap, ◌∙◌, inl, inr, List, [], ◌∷◌, ◌++◌, arith,
  Bool-cases, ◌==◌, drop, length, length-append, length-set, set,
}
use numark_ns6_mac_arm.Span.{span-set, length-span, span, drop-span, span-mod}

abbrev pub queued : Policy → List ℕ
queued p = span queue_capacity 0 p.queue p.queue_read p.queue_count

pub record IsQueue (p : Policy) : Type 0 where
  pub slots : length p.queue ≡ queue_capacity
  pub read_lt : p.queue_read < queue_capacity
  pub count_le : p.queue_count ≤ queue_capacity

-- The newest that the queue can hold.
unfoldable pub latest : List ℕ → List ℕ
latest ns = drop (length ns - queue_capacity) ns

pub length-queued : (p : Policy) → length (queued p) ≡ p.queue_count
length-queued p = length-span queue_capacity 0 p.queue p.queue_read p.queue_count

pub queued-pop_report :
    (p : Policy)
    → IsQueue p
    → 0 < p.queue_count
    → IsQueue (pop_report p) × (queued (pop_report p) ≡ drop 1 (queued p))
unfolding pop_report
queued-pop_report p q some_queued =
    let read = p.queue_read in
    let n = p.queue_count in
    (
      record { slots = q.slots; read_lt = omega arith; count_le = omega (arith, q.count_le) },
      span-mod queue_capacity 0 p.queue ((read + 1) % queue_capacity) (read + 1) (n - 1)
            (omega arith)
          ∙ sym (drop-span queue_capacity 0 p.queue read 1 n some_queued),
    )

abbrev pushed : Policy → ℕ → Policy
pushed q frames = record q {
  queue = set q.queue ((q.queue_read + q.queue_count) % queue_capacity) frames;
  queue_count = q.queue_count + 1;
}

queued-pushed :
    (q : Policy) (frames : ℕ)
    → IsQueue q
    → q.queue_count < queue_capacity
    → IsQueue (pushed q frames) × (queued (pushed q frames) ≡ queued q ++ (frames ∷ []))
queued-pushed q frames v room =
    let e : q.queue_count + 1 ≡ suc q.queue_count = omega arith in
    (
      record {
        slots = length-set q.queue _ frames ∙ v.slots;
        read_lt = v.read_lt;
        count_le = omega (arith, room);
      },
      ap (λ n. span queue_capacity 0 (pushed q frames).queue q.queue_read n) e
          ∙ span-set queue_capacity 0 q.queue q.queue_read q.queue_count frames
              (omega (arith, v.slots)) room,
    )

drop_front : (ns : List ℕ) (n : ℕ) → 0 < length ns → drop 1 ns ++ (n ∷ []) ≡ drop 1 (ns ++ (n ∷ []))
drop_front [] n lt = absurd (omega (arith, lt))
drop_front (m ∷ ns) n lt = refl

-- A report enters the queue, and the oldest leaves it if it was full.
pub queued-enqueue :
    (p : Policy) (frames : ℕ)
    → IsQueue p
    → IsQueue (enqueue p frames) × (queued (enqueue p frames) ≡ latest (queued p ++ (frames ∷ [])))
unfolding enqueue latest
queued-enqueue p frames q =
    let whole = queued p ++ (frames ∷ []) in
    let size : length whole ≡ p.queue_count + 1 =
      length-append (queued p) (frames ∷ []) ∙ ap (λ n. n + 1) (length-queued p) in
    elim (Bool-cases (p.queue_count == queue_capacity)) [
      | inl full ↦
          let many : 0 < p.queue_count = ground (arith, full) in
          let (v, rest) = queued-pop_report p q many in
          let (w, all) =
            queued-pushed (pop_report p) frames v (unfold pop_report in ground (arith, full)) in
          let over : length whole - queue_capacity ≡ 1 = ground (arith, size, full) in
          rw full (
            w,
            all
                ∙ ap (λ ns. ns ++ (frames ∷ [])) rest
                ∙ drop_front (queued p) frames (omega (arith, length-queued p, many))
                ∙ ap (λ k. drop k whole) (sym over),
          )
      | inr room ↦
          let (w, all) = queued-pushed p frames q (ground (arith, room, q.count_le)) in
          let none_over : length whole - queue_capacity ≡ 0 =
            ground (arith, size, room, q.count_le) in
          rw room (w, all ∙ ap (λ k. drop k whole) (sym none_over))
    ]
