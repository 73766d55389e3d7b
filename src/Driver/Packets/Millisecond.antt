-- ===== src/Driver/Packets/Millisecond.antt =====
-- The packets of whole milliseconds (numark-ns6/audio-out/AudioPacketPolicy.cpp).
use mathlib.Core.Path.{subst}
use numark_ns6_mac_arm.Driver.Packets.{
  pop_report, select_pattern, replay, play, build_pattern, play_nominal, Policy, next_packet_frames,
  follow,
}
use numark_ns6_mac_arm.Driver.Packets.Patterns.{
  Every-at, IsPattern, Asked, IsPlaying, IsStep, select_pattern-IsPlaying, sum,
}
use numark_ns6_mac_arm.Prelude.{
  ℕ, zero, suc, ◌+◌, ◌%◌, ◌≤◌, ◌<◌, ◌≡◌, refl, sym, ap, ◌∙◌, inl, inr, true, false, List, [], ◌∷◌,
  arith, Bool-cases, Option-cases, if◌then◌else◌, ◌==◌, drop, get_or, length,
}

drop_all : (ns : List ℕ) (k : ℕ) → length ns ≤ k → drop k ns ≡ []
drop_all [] zero le = refl
drop_all [] (suc k) le = refl
drop_all (n ∷ ns) zero le = absurd (omega (arith, le))
drop_all (n ∷ ns) (suc k) le = drop_all ns k (omega (arith, le))

-- The policy between two packets of a millisecond.
abbrev played : Policy → ℕ → Policy
played p i = record p { pattern_index = i }

unfoldable pub packets : ℕ → Policy → List ℕ × Policy
packets zero p = ([], p)
packets (suc n) p =
    let (frames, q) = next_packet_frames p in let (rest, r) = packets n q in (frames ∷ rest, r)

drop-get_or : (ns : List ℕ) (i : ℕ) → i < length ns → get_or ns i 0 ∷ drop (i + 1) ns ≡ drop i ns
drop-get_or [] i lt = absurd (omega (arith, lt))
drop-get_or (n ∷ ns) zero lt = refl
drop-get_or (n ∷ ns) (suc i) lt =
    let e : suc i + 1 ≡ suc (i + 1) = omega arith in rw e (drop-get_or ns i (omega (arith, lt)))

next_playing :
    (p : Policy)
    → p.service_intervals ≡ 8000
    → next_packet_frames p ≡ play (if p.pattern_index == 0 then select_pattern p else p)
unfolding next_packet_frames
next_playing p rate = let e : p.service_intervals == 8000 ≡ true = ground (arith, rate) in rw e refl

next_rest :
    (p : Policy) (i : ℕ)
    → p.service_intervals ≡ 8000
    → 0 < i
    → next_packet_frames (played p i) ≡ (get_or p.feedback_pattern i 0, played p ((i + 1) % 8))
next_rest p i rate started =
    let e : i == 0 ≡ false = ground (arith, started) in next_playing (played p i) rate ∙ rw e refl

unchanged_index : (p : Policy) → (select_pattern p).pattern_index ≡ p.pattern_index
unfolding select_pattern follow replay pop_report play_nominal
unchanged_index p = elim (Bool-cases (p.queue_count == 0)) [
  | inl idle ↦ rw idle refl
  | inr queued ↦ elim (Option-cases (build_pattern (get_or p.queue p.queue_read 0))) [
    | inl nothing ↦ rw (queued, nothing) refl
    | inr (pattern, so) ↦ rw (queued, so) refl
  ]
]

next_first :
    (p : Policy)
    → p.service_intervals ≡ 8000
    → p.pattern_index ≡ 0
    → next_packet_frames p
      ≡ (get_or (select_pattern p).feedback_pattern 0 0, played (select_pattern p) 1)
next_first p rate at =
    let e : p.pattern_index == 0 ≡ true = ground (arith, at) in
    next_playing p rate
    ∙ rw e (
        ap
          (λ i. (
            get_or (select_pattern p).feedback_pattern i 0,
            played (select_pattern p) ((i + 1) % 8),
          ))
          (unchanged_index p ∙ at))

-- What packets give, from the first of them.
packets-suc :
    (n i frames : ℕ) (ns : List ℕ) (p q r : Policy)
    → next_packet_frames p ≡ (frames, q)
    → packets n q ≡ (ns, r)
    → packets (suc n) p ≡ (frames ∷ ns, r)
unfolding packets
packets-suc n i frames ns p q r first rest =
    ap (λ s. (s.0 ∷ (packets n s.1).0, (packets n s.1).1)) first
    ∙ ap (λ s. (frames ∷ s.0, s.1)) rest

-- The rest of a millisecond plays the rest of its pattern.
packets_rest :
    (p : Policy) (n i : ℕ)
    → p.service_intervals ≡ 8000
    → length p.feedback_pattern ≡ 8
    → i + suc n ≡ 8
    → 0 < i
    → packets (suc n) (played p i) ≡ (drop i p.feedback_pattern, played p 0)
unfolding packets
packets_rest p zero i rate eight count started =
    let last : (i + 1) % 8 ≡ 0 = omega (arith, count) in
    let behind : drop (i + 1) p.feedback_pattern ≡ [] =
      drop_all p.feedback_pattern (i + 1) (omega (arith, eight, count)) in
    let here = drop-get_or p.feedback_pattern i (omega (arith, eight, count)) in
    packets-suc 0 i (get_or p.feedback_pattern i 0) [] (played p i) (played p 0) (played p 0)
      (next_rest p i rate started ∙ ap (λ j. (get_or p.feedback_pattern i 0, played p j)) last) refl
    ∙ ap (λ ns. (ns, played p 0))
        (ap (λ ns. get_or p.feedback_pattern i 0 ∷ ns) (sym behind) ∙ here)
packets_rest p (suc n) i rate eight count started =
    let next : (i + 1) % 8 ≡ i + 1 = omega (arith, count) in
    let here = drop-get_or p.feedback_pattern i (omega (arith, eight, count)) in
    packets-suc (suc n) i (get_or p.feedback_pattern i 0) (drop (i + 1) p.feedback_pattern)
      (played p i) (played p (i + 1)) (played p 0)
      (next_rest p i rate started ∙ ap (λ j. (get_or p.feedback_pattern i 0, played p j)) next)
      (packets_rest p n (i + 1) rate eight (omega (arith, count)) (omega arith))
    ∙ ap (λ ns. (ns, played p 0)) here

-- Eight packets from the start of a millisecond on play one pattern.
pub packets_pattern :
    (p : Policy)
    → IsPlaying p
    → p.pattern_index ≡ 0
    → packets 8 p ≡ ((select_pattern p).feedback_pattern, played (select_pattern p) 0)
packets_pattern p v at =
    let (w, said) = select_pattern-IsPlaying p v in
    let q = select_pattern p in
    packets-suc 7 0 (get_or q.feedback_pattern 0 0) (drop 1 q.feedback_pattern) p (played q 1)
      (played q 0) (next_first p v.rate at)
      (packets_rest q 6 1 w.rate w.pattern.eight refl (omega arith))
    ∙ ap (λ ns. (ns, played q 0))
        (drop-get_or q.feedback_pattern 0 (omega (arith, w.pattern.eight)))

played-IsPlaying : (p : Policy) (i : ℕ) → i < 8 → IsPlaying p → IsPlaying (played p i)
played-IsPlaying p i lt v = record {
  rate = v.rate;
  pattern = v.pattern;
  past = v.past;
  past_size = v.past_size;
  index = lt;
  fraction = v.fraction;
}

-- A policy at 8000 packets per second, whose patterns are in order, at the start of a millisecond: its
-- next eight packets carry 5 or 6 frames each; together they carry the report at the head of the queue
-- if that is in range, and the nominal 44 or 45 frames if the queue is empty; and then the policy is in
-- order at the start of the next millisecond.
pub packets_lem :
    (p : Policy)
    → IsPlaying p
    → p.pattern_index ≡ 0
    → IsPattern (packets 8 p).0
      × Asked p (sum (packets 8 p).0)
      × IsPlaying (packets 8 p).1
      × ((packets 8 p).1.pattern_index ≡ 0)
packets_lem p v at =
    let (w, said) = select_pattern-IsPlaying p v in
    subst (λ r. IsPattern r.0 × Asked p (sum r.0) × IsPlaying r.1 × (r.1.pattern_index ≡ 0))
      (sym (packets_pattern p v at))
      (w.pattern, said, played-IsPlaying (select_pattern p) 0 (omega arith) w, refl)

-- Every packet of a policy in order at 8000 packets per second carries 5 or 6 frames, and keeps it so.
pub next_packet_frames-IsPlaying :
    (p : Policy)
    → IsPlaying p
    → IsStep (next_packet_frames p).0 × IsPlaying (next_packet_frames p).1
next_packet_frames-IsPlaying p v =
    let q = if p.pattern_index == 0 then select_pattern p else p in
    let w : IsPlaying q = elim (Bool-cases (p.pattern_index == 0)) [
      | inl first ↦ rw first ((select_pattern-IsPlaying p v).0)
      | inr later ↦ rw later v
    ] in
    subst (λ r. IsStep r.0 × IsPlaying r.1) (sym (next_playing p v.rate))
      (
        Every-at IsStep q.feedback_pattern q.pattern_index w.pattern.steps
            (omega (arith, w.pattern.eight, w.index)),
        played-IsPlaying q ((q.pattern_index + 1) % 8) (omega arith) w,
      )
