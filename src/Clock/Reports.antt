-- ===== src/Clock/Reports.antt =====
-- What `ns6_clock_control_observe` (coreaudio/NS6ClockControl.c) makes of the reports of the device.
use native.Mathlib.Decide.{dec_lt}
use numark_ns6_mac_arm.Clock.{
  pattern_capacity, append_report, max_output_rate_millihz, enter_window, observe,
  nominal_rate_millihz, update_rate, Build, drop_oldest, ClockControl, output_rate_millihz,
  enqueue_report, is_valid, window_size,
}
use numark_ns6_mac_arm.Clock.Window.{
  kept, sum-AllValid, sum, is_valid_range, AllValid-drop, IsWindow, AllValid, AllValid-append,
  recent, enter_window-IsWindow, recent-enter_window,
}
use numark_ns6_mac_arm.Prelude.{
  ℕ, suc, ◌+◌, ◌-◌, ◌*◌, ◌/◌, ◌%◌, ◌≤◌, ◌<◌, ◌≡◌, refl, sym, ap, ◌∙◌, inl, inr, true, false, ◌&&◌,
  List, [], ◌∷◌, ◌++◌, arith, ==_iff, Bool-cases, if◌then◌else◌, ◌==◌, drop, length, length-set,
  set,
}
use numark_ns6_mac_arm.Span.{span-set, span-mod, length-span, span, drop-span}

-- The reports that wait for their millisecond, oldest first.
abbrev pub queued : ClockControl → List ℕ
queued c = span pattern_capacity 0 c.pattern_queue c.pattern_queue_read c.pattern_queue_count

pub record IsQueue (c : ClockControl) : Type 0 where
  pub queue_slots : length c.pattern_queue ≡ pattern_capacity
  pub read_lt : c.pattern_queue_read < pattern_capacity
  pub queue_le : c.pattern_queue_count ≤ pattern_capacity
  pub queue_valid : AllValid (queued c)

-- The rate is the average of a full window, and nominal before.
abbrev pub IsRate : ClockControl → Type 0
IsRate c =
    (c.feedback_count ≡ window_size → c.rate_millihz ≡ c.feedback_sum * 1000000 / window_size)
    × (c.feedback_count < window_size → c.rate_millihz ≡ nominal_rate_millihz)

-- What holds of a clock control between two calls.
pub record IsSound (c : ClockControl) : Type 0 where
  pub window : IsWindow c
  pub queue : IsQueue c
  pub rate : IsRate c
  pub fraction_lt : c.fixed_fraction < 1000
  pub millionths_lt : c.adaptive_fraction < 1000000

-- The window has nothing to do with the other fields.
pub IsWindow-same :
    (c d : ClockControl)
    → d.feedback_window ≡ c.feedback_window
    → d.feedback_index ≡ c.feedback_index
    → d.feedback_count ≡ c.feedback_count
    → d.feedback_sum ≡ c.feedback_sum
    → IsWindow c
    → IsWindow d
IsWindow-same c d p q r s w =
    let same : recent d ≡ recent c = cc in
    record {
      slots = ap length p ∙ w.slots;
      index_lt = rw q w.index_lt;
      count_le = rw r w.count_le;
      valid = rw same w.valid;
      total = s ∙ w.total ∙ sym (ap sum same);
    }

-- The queue without its oldest report.
abbrev pub popped : ClockControl → ClockControl
popped c = record c {
  pattern_queue_read = (c.pattern_queue_read + 1) % pattern_capacity;
  pattern_queue_count = c.pattern_queue_count - 1;
}

pub queued-popped :
    (c : ClockControl)
    → IsQueue c
    → 0 < c.pattern_queue_count
    → IsQueue (popped c) × (queued (popped c) ≡ drop 1 (queued c))
queued-popped c q some_queued =
    let read = c.pattern_queue_read in
    let n = c.pattern_queue_count in
    let rest : queued (popped c) ≡ drop 1 (queued c) =
      span-mod pattern_capacity 0 c.pattern_queue ((read + 1) % pattern_capacity) (read + 1) (n - 1)
        (omega arith)
      ∙ sym (drop-span pattern_capacity 0 c.pattern_queue read 1 n some_queued) in
    (
      record {
        queue_slots = q.queue_slots;
        read_lt = omega arith;
        queue_le = omega arith;
        queue_valid = rw rest (AllValid-drop (queued c) q.queue_valid);
      },
      rest,
    )

-- What is kept of the queued reports when one more comes.
abbrev pub queue_kept : ClockControl → List ℕ
queue_kept c = if c.pattern_queue_count == pattern_capacity then drop 1 (queued c) else queued c

queued-drop_oldest :
    (c : ClockControl)
    → IsQueue c
    → IsQueue (drop_oldest c)
      × (queued (drop_oldest c) ≡ queue_kept c)
      × ((drop_oldest c).pattern_queue_count < pattern_capacity)
unfolding drop_oldest
queued-drop_oldest c q = elim (Bool-cases (c.pattern_queue_count == pattern_capacity)) [
  | inl full ↦
      let n : c.pattern_queue_count ≡ pattern_capacity =
        (==_iff c.pattern_queue_count pattern_capacity).0 full in
      let (kept_queue, rest) = queued-popped c q (omega arith) in
      rw full (kept_queue, rest, omega arith)
  | inr part ↦ rw part (q, refl, ground arith)
]

queued-append_report :
    (c : ClockControl) (v : ℕ)
    → IsQueue c
    → c.pattern_queue_count < pattern_capacity
    → is_valid v ≡ true
    → IsQueue (append_report c v) × (queued (append_report c v) ≡ queued c ++ (v ∷ []))
unfolding append_report
queued-append_report c v q lt h =
    let read = c.pattern_queue_read in
    let n = c.pattern_queue_count in
    let buf = set c.pattern_queue ((read + n) % pattern_capacity) v in
    let grow : n + 1 ≡ suc n = omega arith in
    let more : span pattern_capacity 0 buf read (n + 1) ≡ queued c ++ (v ∷ []) =
      ap (span pattern_capacity 0 buf read) grow
      ∙ span-set pattern_capacity 0 c.pattern_queue read n v (omega arith) (omega arith) in
    let (low, high) = is_valid_range v h in
    (
      record {
        queue_slots = length-set c.pattern_queue ((read + n) % pattern_capacity) v ∙ q.queue_slots;
        read_lt = q.read_lt;
        queue_le = omega arith;
        queue_valid = rw more (AllValid-append (queued c) (v ∷ []) q.queue_valid (low, high, tt));
      },
      more,
    )

-- The rate after a report.
update_rate-IsRate :
    (c : ClockControl)
    → IsWindow c
    → (c.feedback_count < window_size → c.rate_millihz ≡ nominal_rate_millihz)
    → IsRate (update_rate c)
unfolding update_rate
update_rate-IsRate c w nominal =
    let small = (sum-AllValid (recent c) w.valid).1 in
    let len =
      length-span window_size 0 c.feedback_window
        (c.feedback_index + window_size - c.feedback_count) c.feedback_count in
    elim (Bool-cases (c.feedback_count == window_size)) [
      | inl full ↦
          let n : c.feedback_count ≡ window_size = (==_iff c.feedback_count window_size).0 full in
          rw full
            (λ _. ap (λ s. s / window_size) (omega (arith, w.total)), λ lt. absurd (omega arith))
      | inr part ↦ rw part (λ n. absurd (ground arith), nominal)
    ]

-- What the last step of `observe` leaves alone.
update_rate_same :
    (c : ClockControl)
    → (IsWindow c → IsWindow (update_rate c))
      × (IsQueue c → IsQueue (update_rate c))
      × (recent (update_rate c) ≡ recent c)
      × (queued (update_rate c) ≡ queued c)
      × ((update_rate c).fixed_fraction ≡ c.fixed_fraction)
      × ((update_rate c).adaptive_fraction ≡ c.adaptive_fraction)
unfolding update_rate
update_rate_same c = elim (Bool-cases (c.feedback_count == window_size)) [
  | inl full ↦ rw full (
    λ w. record {
      slots = w.slots;
      index_lt = w.index_lt;
      count_le = w.count_le;
      valid = w.valid;
      total = w.total;
    },
    λ q. record {
      queue_slots = q.queue_slots;
      read_lt = q.read_lt;
      queue_le = q.queue_le;
      queue_valid = q.queue_valid;
    },
    refl,
    refl,
    refl,
    refl,
  )
  | inr part ↦ rw part ((λ w. w), (λ q. q), refl, refl, refl, refl)
]

-- The queue of the pattern scheduler after a report; without the scheduler nothing is queued.
abbrev pub queued_after : Build → ClockControl → ℕ → List ℕ
queued_after b c v =
    if b.adaptive && b.pattern_scheduler then queue_kept c ++ (v ∷ []) else queued c

enqueue_report_lem :
    (b : Build) (c : ClockControl) (v : ℕ)
    → IsQueue c
    → is_valid v ≡ true
    → IsQueue (enqueue_report b c v) × (queued (enqueue_report b c v) ≡ queued_after b c v)
unfolding enqueue_report
enqueue_report_lem b c v q h = elim (Bool-cases (b.adaptive && b.pattern_scheduler)) [
  | inl on ↦
      let (q', kept_queue, lt) = queued-drop_oldest c q in
      let (q'', more) = queued-append_report (drop_oldest c) v q' lt h in
      rw on (q'', more ∙ ap (λ l. l ++ (v ∷ [])) kept_queue)
  | inr off ↦ rw off (q, refl)
]

enqueue_report_same :
    (b : Build) (c : ClockControl) (v : ℕ)
    → let d = enqueue_report b c v in
      (d.feedback_window ≡ c.feedback_window)
      × (d.feedback_index ≡ c.feedback_index)
      × (d.feedback_count ≡ c.feedback_count)
      × (d.feedback_sum ≡ c.feedback_sum)
      × (d.rate_millihz ≡ c.rate_millihz)
      × (d.fixed_fraction ≡ c.fixed_fraction)
      × (d.adaptive_fraction ≡ c.adaptive_fraction)
unfolding enqueue_report append_report drop_oldest
enqueue_report_same b c v = ground arith

enter_window-IsQueue : (c : ClockControl) (v : ℕ) → IsQueue c → IsQueue (enter_window c v)
unfolding enter_window
enter_window-IsQueue c v q = record {
  queue_slots = q.queue_slots;
  read_lt = q.read_lt;
  queue_le = q.queue_le;
  queue_valid = q.queue_valid;
}

enter_window_same :
    (b : Build) (c : ClockControl) (v : ℕ)
    → ((enter_window c v).rate_millihz ≡ c.rate_millihz)
      × ((enter_window c v).feedback_count < window_size → c.feedback_count < window_size)
      × ((enter_window c v).fixed_fraction ≡ c.fixed_fraction)
      × ((enter_window c v).adaptive_fraction ≡ c.adaptive_fraction)
      × (queued_after b (enter_window c v) v ≡ queued_after b c v)
unfolding enter_window
enter_window_same b c v = (refl, ground arith, refl, refl, refl)

-- A report outside 42 to 46 frames changes nothing. Any other keeps the clock control sound: the
-- window holds the last 40000 reports in order, their sum and average are right, and the queue of the
-- scheduler, where it is built in, gets the report at its end and drops its oldest when it is full.
pub observe_lem :
    (b : Build) (c : ClockControl) (v : ℕ)
    → IsSound c
    → (is_valid v ≡ false → observe b c v ≡ c)
      × (is_valid v ≡ true
          → IsSound (observe b c v)
            × (recent (observe b c v) ≡ kept c ++ (v ∷ []))
            × (queued (observe b c v) ≡ queued_after b c v))
observe_lem b c v s = (
  λ bad. unfold observe in (rw bad),
  λ good.
      let c₁ = enter_window c v in
      let c₂ = enqueue_report b c₁ v in
      let (rate₁, lt₁, fixed₁, mill₁, queue₁) = enter_window_same b c v in
      let (win₂, idx₂, cnt₂, sum₂, rate₂, fixed₂, mill₂) = enqueue_report_same b c₁ v in
      let w₁ = enter_window-IsWindow c v s.window good in
      let w₂ = IsWindow-same c₁ c₂ win₂ idx₂ cnt₂ sum₂ w₁ in
      let (q₂, more) = enqueue_report_lem b c₁ v (enter_window-IsQueue c v s.queue) good in
      let (w₃, q₃, rec₃, que₃, fixed₃, mill₃) = update_rate_same c₂ in
      let same : recent c₂ ≡ recent c₁ = cc in
      let nominal : c₂.feedback_count < window_size → c₂.rate_millihz ≡ nominal_rate_millihz =
        λ lt. rate₂ ∙ rate₁ ∙ s.rate.1 (lt₁ (omega arith)) in
      let done : observe b c v ≡ update_rate c₂ = unfold observe in (rw good) in
      rw done (
        record {
          window = w₃ w₂;
          queue = q₃ q₂;
          rate = update_rate-IsRate c₂ w₂ nominal;
          fraction_lt = rw (fixed₃ ∙ fixed₂ ∙ fixed₁) s.fraction_lt;
          millionths_lt = rw (mill₃ ∙ mill₂ ∙ mill₁) s.millionths_lt;
        },
        rec₃ ∙ same ∙ recent-enter_window c v s.window,
        que₃ ∙ more ∙ queue₁,
      ),
)

-- The measured rate never leaves 42 to 46 kHz.
pub rate_bounds :
    (c : ClockControl) → IsSound c → (42000000 ≤ c.rate_millihz) × (c.rate_millihz ≤ 46000000)
rate_bounds c s =
    let bounds = sum-AllValid (recent c) s.window.valid in
    let len =
      length-span window_size 0 c.feedback_window
        (c.feedback_index + window_size - c.feedback_count) c.feedback_count in
    elim (dec_lt c.feedback_count window_size) [
      | yes lt ↦ rw (s.rate.1 lt) (omega arith, omega arith)
      | no full ↦
          let e = s.rate.0 (omega arith) in
          rw e (omega (arith, s.window.total), omega (arith, s.window.total))
    ]

-- With the adaptive clock the output rate stays between the configured minimum and 44.1003 kHz, and
-- without it at 44.1 kHz, whatever was reported.
pub output_rate_bounds :
    (b : Build) (c : ClockControl)
    → b.min_output_rate_millihz ≤ max_output_rate_millihz
    → (b.adaptive ≡ true
        → (b.min_output_rate_millihz ≤ output_rate_millihz b c)
          × (output_rate_millihz b c ≤ max_output_rate_millihz))
      × (b.adaptive ≡ false → output_rate_millihz b c ≡ nominal_rate_millihz)
unfolding output_rate_millihz
output_rate_bounds b c le = ground arith
