-- ===== src/Clock/Window.antt =====
-- The window of feedback reports (coreaudio/NS6ClockControl.c) holds the last 40000 of them.
use mathlib.Core.Path.{subst}
use native.Mathlib.Nat.{mod-eq_of_lt, mod-add-mod}
use numark_ns6_mac_arm.Clock.{
  enter_window, ClockControl, is_valid, window_size, feedback_max, feedback_min,
}
use numark_ns6_mac_arm.Prelude.{
  ℕ, zero, suc, ◌+◌, ◌-◌, ◌*◌, ◌%◌, ◌≤◌, ◌<◌, ◌≡◌, refl, sym, ap, ◌∙◌, inl, inr, true, List, [],
  ◌∷◌, ◌++◌, arith, ==_iff, Bool-cases, if◌then◌else◌, ◌==◌, drop, get_or, length, length-set, set,
}
use numark_ns6_mac_arm.Span.{span-set, span-mod, length-span, span, span-set_full}

unfoldable pub sum : List ℕ → ℕ
sum [] = 0
sum (x ∷ xs) = x + sum xs

pub sum-append : (xs ys : List ℕ) → sum (xs ++ ys) ≡ sum xs + sum ys
unfolding sum
sum-append [] ys = omega arith
sum-append (x ∷ xs) ys = omega (arith, sum-append xs ys)

-- Every report is in the range that the device can send.
abbrev pub AllValid : List ℕ → Type 0
AllValid [] = Unit {0}
AllValid (x ∷ xs) = (feedback_min ≤ x) × (x ≤ feedback_max) × AllValid xs

pub AllValid-append : (xs ys : List ℕ) → AllValid xs → AllValid ys → AllValid (xs ++ ys)
AllValid-append [] ys h k = k
AllValid-append (x ∷ xs) ys h k = (h.0, h.1, AllValid-append xs ys h.2 k)

pub sum-AllValid :
    (xs : List ℕ)
    → AllValid xs
    → (feedback_min * length xs ≤ sum xs) × (sum xs ≤ feedback_max * length xs)
unfolding sum
sum-AllValid [] h = omega arith
sum-AllValid (x ∷ xs) h = omega (arith, sum-AllValid xs h.2)

pub is_valid_range : (v : ℕ) → is_valid v ≡ true → (feedback_min ≤ v) × (v ≤ feedback_max)
unfolding is_valid
is_valid_range v h = ground arith

-- The reports in the window, oldest first.
abbrev pub recent : ClockControl → List ℕ
recent c =
    span window_size 0 c.feedback_window (c.feedback_index + window_size - c.feedback_count)
      c.feedback_count

-- What the window keeps of its reports when one more comes.
abbrev pub kept : ClockControl → List ℕ
kept c = if c.feedback_count == window_size then drop 1 (recent c) else recent c

pub record IsWindow (c : ClockControl) : Type 0 where
  pub slots : length c.feedback_window ≡ window_size
  pub index_lt : c.feedback_index < window_size
  pub count_le : c.feedback_count ≤ window_size
  pub valid : AllValid (recent c)
  pub total : c.feedback_sum ≡ sum (recent c)

-- A report enters a window that is not full.
enter_part :
    (buf : List ℕ) (index n v : ℕ)
    → length buf ≡ window_size
    → index < window_size
    → n < window_size
    → span window_size 0
        (set buf index v)
        ((index + 1) % window_size + window_size - (n + 1))
        (n + 1)
      ≡ span window_size 0 buf (index + window_size - n) n ++ (v ∷ [])
enter_part buf index n v len lt part =
    let h : ℕ = index + window_size - n in
    let slot : (h + n) % window_size ≡ index = omega arith in
    let start : ((index + 1) % window_size + window_size - (n + 1)) % window_size
        ≡ h % window_size =
      omega arith in
    let grow : n + 1 ≡ suc n = omega arith in
    span-mod window_size 0 (set buf index v) ((index + 1) % window_size + window_size - (n + 1)) h
      (n + 1) start
    ∙ ap (span window_size 0 (set buf index v) h) grow
    ∙ subst
        (λ s. span window_size 0 (set buf s v) h (suc n) ≡ span window_size 0 buf h n ++ (v ∷ []))
        slot (span-set window_size 0 buf h n v (omega arith) (omega arith))

enter_over_oldest :
    (m : ℕ) (buf : List ℕ) (index v : ℕ)
    → length buf ≡ suc m
    → index < suc m
    → span (suc m) 0 (set buf index v) ((index + 1) % suc m + suc m - suc m) (suc m)
      ≡ drop 1 (span (suc m) 0 buf (index + suc m - suc m) (suc m)) ++ (v ∷ [])
enter_over_oldest m buf index v len lt =
    let k : ℕ = suc m in
    let start : ((index + 1) % suc m + suc m - suc m) % suc m ≡ suc index % suc m =
      ap (λ x. x % suc m) (omega arith)
      ∙ mod-add-mod (index + 1) (suc m) 0
      ∙ ap (λ x. x % suc m) (omega arith) in
    span-mod (suc m) 0 (set buf index v) ((index + 1) % suc m + suc m - suc m) (suc index) (suc m)
      start
    ∙ subst
        (λ s.
          span (suc m) 0 (set buf s v) (suc index) (suc m)
          ≡ span (suc m) 0 buf (suc index) m ++ (v ∷ []))
        (mod-eq_of_lt lt) (span-set_full 0 buf index m v (omega arith))
    ∙ ap (λ x. span (suc m) 0 buf (suc x) m ++ (v ∷ [])) (omega arith)

-- A report enters a full window, over the oldest one.
enter_full :
    (size n : ℕ) (buf : List ℕ) (index v : ℕ)
    → n ≡ size
    → length buf ≡ size
    → index < size
    → span size 0 (set buf index v) ((index + 1) % size + size - n) n
      ≡ drop 1 (span size 0 buf (index + size - n) n) ++ (v ∷ [])
enter_full size zero buf index v e = λ len lt. absurd (omega arith)
enter_full size (suc m) buf index v e =
    subst
      (λ s.
        length buf ≡ s
        → index < s
        → span s 0 (set buf index v) ((index + 1) % s + s - suc m) (suc m)
          ≡ drop 1 (span s 0 buf (index + s - suc m) (suc m)) ++ (v ∷ []))
      e (enter_over_oldest m buf index v)

-- The window after a report: the reports that it keeps, and the new one behind them.
pub recent-enter_window :
    (c : ClockControl) (v : ℕ) → IsWindow c → recent (enter_window c v) ≡ kept c ++ (v ∷ [])
unfolding enter_window
recent-enter_window c v w = elim (Bool-cases (c.feedback_count == window_size)) [
  | inl full ↦ rw full (
      enter_full window_size c.feedback_count c.feedback_window c.feedback_index v
        ((==_iff c.feedback_count window_size).0 full) w.slots w.index_lt)
  | inr part ↦ rw part (
      enter_part c.feedback_window c.feedback_index c.feedback_count v w.slots w.index_lt
        (ground arith))
]

pub AllValid-drop : (xs : List ℕ) → AllValid xs → AllValid (drop 1 xs)
AllValid-drop [] h = h
AllValid-drop (x ∷ xs) h = h.2

sum-drop :
    (size n : ℕ) (buf : List ℕ) (h : ℕ)
    → 0 < n
    → sum (span size 0 buf h n) ≡ get_or buf (h % size) 0 + sum (drop 1 (span size 0 buf h n))
unfolding sum
sum-drop size zero buf h lt = absurd (omega arith)
sum-drop size (suc n) buf h lt = refl

-- The oldest report of a full window is the one at the index.
sum-kept_full :
    (c : ClockControl)
    → IsWindow c
    → c.feedback_count ≡ window_size
    → sum (recent c) ≡ get_or c.feedback_window c.feedback_index 0 + sum (drop 1 (recent c))
sum-kept_full c w e =
    let h : ℕ = c.feedback_index + window_size - c.feedback_count in
    let slot : h % window_size ≡ c.feedback_index = omega arith in
    sum-drop window_size c.feedback_count c.feedback_window h (omega arith)
    ∙ ap (λ i. get_or c.feedback_window i 0 + sum (drop 1 (recent c))) slot

AllValid-kept : (c : ClockControl) → IsWindow c → AllValid (kept c)
AllValid-kept c w = elim (Bool-cases (c.feedback_count == window_size)) [
  | inl full ↦ rw full (AllValid-drop (recent c) w.valid)
  | inr part ↦ rw part w.valid
]

-- The sum is kept up without an overflow.
sum-enter_window :
    (c : ClockControl) (v : ℕ)
    → IsWindow c
    → is_valid v ≡ true
    → (enter_window c v).feedback_sum ≡ sum (kept c) + v
unfolding enter_window
sum-enter_window c v w h =
    let small = (sum-AllValid (recent c) w.valid).1 in
    let len =
      length-span window_size 0 c.feedback_window
        (c.feedback_index + window_size - c.feedback_count) c.feedback_count in
    let v_small = (is_valid_range v h).1 in
    elim (Bool-cases (c.feedback_count == window_size)) [
      | inl full ↦
          rw full (
            omega
              (arith, sum-kept_full c w ((==_iff c.feedback_count window_size).0 full), w.total))
      | inr part ↦ rw part (omega (arith, w.total))
    ]

pub enter_window-IsWindow :
    (c : ClockControl) (v : ℕ) → IsWindow c → is_valid v ≡ true → IsWindow (enter_window c v)
enter_window-IsWindow c v w h = record {
  slots = unfold enter_window in (length-set c.feedback_window c.feedback_index v ∙ w.slots);
  index_lt = unfold enter_window in (omega arith);
  count_le = unfold enter_window in (ground arith);
  valid = rw (recent-enter_window c v w) (
      AllValid-append (kept c) (v ∷ []) (AllValid-kept c w)
        ((is_valid_range v h).0, (is_valid_range v h).1, tt));
  total =
      sum-enter_window c v w h
      ∙ sym (
          ap sum (recent-enter_window c v w)
          ∙ sum-append (kept c) (v ∷ [])
          ∙ ap (λ k. sum (kept c) + k) (unfold sum in omega arith));
}
