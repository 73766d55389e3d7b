-- ===== src/Driver/Packets/Patterns.antt =====
-- The packets of a millisecond (numark-ns6/audio-out/AudioPacketPolicy.cpp,
-- numark-ns6/audio-feedback/AudioFeedbackPatternPolicy.cpp): they carry what the device has asked for.
use mathlib.Core.Path.{subst}
use numark_ns6_mac_arm.Driver.Packets.{
  patterns, follow, Policy, replay, write_history, history_size, play_nominal, is_report,
  pop_report, read_history, build_pattern, select_pattern,
}
use numark_ns6_mac_arm.Driver.Packets.Queue.{queued}
use numark_ns6_mac_arm.Prelude.{
  ℕ, zero, suc, ◌+◌, ◌-◌, ◌%◌, ◌≤◌, ◌<◌, ◌≡◌, refl, ap, ◌∙◌, inl, inr, Bool, true, false, ◌&&◌,
  none, some, List, [], ◌∷◌, arith, Bool-cases, if◌then◌else◌, leb, ◌==◌, Every, Every-set, get_or,
  length, length-set, set,
}

abbrev pub IsStep : ℕ → Type 0
IsStep frames = (5 ≤ frames) × (frames ≤ 6)

unfoldable pub sum : List ℕ → ℕ
sum [] = 0
sum (n ∷ ns) = n + sum ns

-- The frames of eight packets.
pub record IsPattern (pattern : List ℕ) : Type 0 where
  pub steps : Every IsStep pattern
  pub eight : length pattern ≡ 8

abbrev all_steps : List ℕ → Bool
all_steps [] = true
all_steps (n ∷ ns) = (leb 5 n && leb n 6) && all_steps ns

pub all_steps-Every : (ns : List ℕ) → all_steps ns ≡ true → Every IsStep ns
all_steps-Every [] ok = tt
all_steps-Every (n ∷ ns) ok = ((ground arith, ground arith), all_steps-Every ns (ground arith))

abbrev Carries : List ℕ → ℕ → Type 0
Carries pattern frames = IsPattern pattern × (sum pattern ≡ frames)

checked :
    (pattern : List ℕ) (frames : ℕ)
    → all_steps pattern ≡ true
    → length pattern ≡ 8
    → sum pattern ≡ frames
    → Carries pattern frames
checked pattern frames steps eight total =
    (record { steps = all_steps-Every pattern steps; eight = eight }, total)

patterns-Carries : (k : ℕ) → k < 5 → Carries (get_or patterns k []) (k + 42)
unfolding sum
patterns-Carries zero lt = checked _ 42 refl refl refl
patterns-Carries (suc zero) lt = checked _ 43 refl refl refl
patterns-Carries (suc (suc zero)) lt = checked _ 44 refl refl refl
patterns-Carries (suc (suc (suc zero))) lt = checked _ 45 refl refl refl
patterns-Carries (suc (suc (suc (suc zero)))) lt = checked _ 46 refl refl refl
patterns-Carries (suc (suc (suc (suc (suc k))))) lt = absurd (omega (arith, lt))

-- The pattern of a report, and that of a report out of range.
report_pattern :
    (frames : ℕ)
    → is_report frames ≡ true
    → (build_pattern frames ≡ some (get_or patterns (frames - 42) []))
      × Carries (get_or patterns (frames - 42) []) frames
unfolding build_pattern is_report
report_pattern frames ok =
    let same : frames - 42 + 42 ≡ frames = ground (arith, ok) in
    (
      rw ok refl,
      subst (λ n. Carries (get_or patterns (frames - 42) []) n) same
          (patterns-Carries (frames - 42) (ground (arith, ok))),
    )

no_pattern : (frames : ℕ) → is_report frames ≡ false → build_pattern frames ≡ none
unfolding build_pattern
no_pattern frames bad = rw bad refl

-- The patterns that are being played and were played.
pub record IsPlaying (p : Policy) : Type 0 where
  pub rate : p.service_intervals ≡ 8000
  pub pattern : IsPattern p.feedback_pattern
  pub past : Every IsStep p.history
  pub past_size : length p.history ≡ history_size
  pub index : p.pattern_index < 8
  pub fraction : p.nominal_fraction < 1000

pub Every-at :
    (P : ℕ → Type 0) (ns : List ℕ) (i : ℕ) → Every P ns → i < length ns → P (get_or ns i 0)
Every-at P [] i all lt = absurd (omega (arith, lt))
Every-at P (n ∷ ns) zero all lt = all.0
Every-at P (n ∷ ns) (suc i) all lt = Every-at P ns i all.1 (omega (arith, lt))

write_history-steps :
    (history : List ℕ) (cursor : ℕ) (pattern : List ℕ)
    → Every IsStep history
    → Every IsStep pattern
    → Every IsStep (write_history history cursor pattern)
      × (length (write_history history cursor pattern) ≡ length history)
unfolding write_history
write_history-steps history cursor [] past steps = (past, refl)
write_history-steps history cursor (n ∷ ns) past steps =
    let at = cursor % history_size in
    let (all, size) =
      write_history-steps (set history at n) (cursor + 1) ns
        (Every-set IsStep history at n past steps.0) steps.1 in
    (all, size ∙ length-set history at n)

read_history-steps :
    (history : List ℕ) (cursor n : ℕ)
    → Every IsStep history
    → length history ≡ history_size
    → Every IsStep (read_history history cursor n) × (length (read_history history cursor n) ≡ n)
unfolding read_history
read_history-steps history cursor zero past size = (tt, refl)
read_history-steps history cursor (suc n) past size =
    let (all, count) = read_history-steps history (cursor + 1) n past size in
    (
      (Every-at IsStep history (cursor % history_size) past (omega (arith, size)), all),
      ap suc count,
    )

follow-IsPlaying :
    (p : Policy) (pattern : List ℕ) → IsPlaying p → IsPattern pattern → IsPlaying (follow p pattern)
unfolding follow
follow-IsPlaying p pattern v ok =
    let (all, size) = write_history-steps p.history p.history_cursor pattern v.past ok.steps in
    record {
      rate = v.rate;
      pattern = ok;
      past = all;
      past_size = size ∙ v.past_size;
      index = v.index;
      fraction = v.fraction;
    }

replay-IsPlaying : (p : Policy) → IsPlaying p → IsPlaying (replay p)
unfolding replay
replay-IsPlaying p v =
    let (steps, eight) = read_history-steps p.history p.history_cursor 8 v.past v.past_size in
    let (all, size) =
      write_history-steps p.history p.history_cursor (read_history p.history p.history_cursor 8)
        v.past steps in
    record {
      rate = v.rate;
      pattern = record { steps = steps; eight = eight };
      past = all;
      past_size = size ∙ v.past_size;
      index = v.index;
      fraction = v.fraction;
    }

abbrev nominal_frames : Policy → ℕ
nominal_frames p = if leb 1000 (p.nominal_fraction + 100) then 45 else 44

play_nominal-IsPlaying :
    (p : Policy)
    → IsPlaying p
    → IsPlaying (play_nominal p) × (sum (play_nominal p).feedback_pattern ≡ nominal_frames p)
unfolding play_nominal
play_nominal-IsPlaying p v = elim (Bool-cases (leb 1000 (p.nominal_fraction + 100))) [
  | inl carry ↦
      let (so, (ok, total)) = report_pattern 45 (unfold is_report in refl) in
      rw carry (
        record {
          rate = v.rate;
          pattern = ok;
          past = v.past;
          past_size = v.past_size;
          index = v.index;
          fraction = omega (arith, v.fraction);
        },
        total,
      )
  | inr none_over ↦
      let (so, (ok, total)) = report_pattern 44 (unfold is_report in refl) in
      rw none_over (
        record {
          rate = v.rate;
          pattern = ok;
          past = v.past;
          past_size = v.past_size;
          index = v.index;
          fraction = ground arith;
        },
        total,
      )
]

-- What the queue asks for at the start of a millisecond.
abbrev pub Asked : Policy → ℕ → Type 0
Asked p frames =
    if p.queue_count == 0
    then frames ≡ nominal_frames p
    else (is_report (get_or p.queue p.queue_read 0) ≡ true → frames ≡ get_or p.queue p.queue_read 0)

pub select_pattern-IsPlaying :
    (p : Policy)
    → IsPlaying p
    → IsPlaying (select_pattern p) × Asked p (sum (select_pattern p).feedback_pattern)
unfolding select_pattern pop_report follow
select_pattern-IsPlaying p v = elim (Bool-cases (p.queue_count == 0)) [
  | inl idle ↦ rw idle (play_nominal-IsPlaying p v)
  | inr queued ↦
      let report = get_or p.queue p.queue_read 0 in
      let popped : IsPlaying (pop_report p) = record {
        rate = v.rate;
        pattern = v.pattern;
        past = v.past;
        past_size = v.past_size;
        index = v.index;
        fraction = v.fraction;
      } in
      elim (Bool-cases (is_report report)) [
        | inl ok ↦
            let (so, (good, total)) = report_pattern report ok in
            rw (queued, so) (follow-IsPlaying (pop_report p) _ popped good, λ same. total)
        | inr bad ↦
            rw (queued, no_pattern report bad)
              (replay-IsPlaying (pop_report p) popped, λ same. absurd (ground (arith, bad, same)))
      ]
]
