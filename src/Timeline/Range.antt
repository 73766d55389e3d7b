-- ===== src/Timeline/Range.antt =====
-- The range of the timestamps of a transfer (coreaudio/NS6USBFrameTimestamps.h).
use mathlib.Core.Path.{subst}
use native.Mathlib.Decide.{ℕ_discrete}
use numark_ns6_mac_arm.Prelude.{
  ℕ, suc, ◌+◌, ◌-◌, ◌^◌, ◌≤◌, ◌<◌, ◌≡◌, refl, sym, ap, ◌∙◌, ◌≢◌, ◌⊎◌, inl, inr, true, false, none,
  some, List, [], ◌∷◌, arith, if◌then◌else◌, ltb, ◌==◌, Every, length,
}
use numark_ns6_mac_arm.Timeline.{
  TimestampRange, empty_range, ticks, widen_all, callback_lag_ticks, widen, timestamp_range,
  FrameTime,
}

-- How many frames have a timestamp.
unfoldable pub stamped : List FrameTime → ℕ
stamped [] = 0
stamped (t ∷ ts) = let rest = stamped ts in if ticks t == 0 then rest else suc rest

-- One of the frames has this timestamp.
abbrev pub Has : List FrameTime → ℕ → Type 0
Has [] x = ⊥
Has (t ∷ ts) x = ticks t ≡ x ⊎ Has ts x

abbrev pub Within : TimestampRange → FrameTime → Type 0
Within r t = ticks t ≡ 0 ⊎ ((r.oldest_ticks ≤ ticks t) × (ticks t ≤ r.newest_ticks))

-- A bound of the range is that of the range before, or one of the timestamps.
abbrev From : ℕ → ℕ → List FrameTime → ℕ → Type 0
From valid old ts new = ((0 < valid) × (new ≡ old)) ⊎ Has ts new

-- What the loop over `ts` makes of a range.
record Widened (r : TimestampRange) (ts : List FrameTime) (r' : TimestampRange) : Type 0 where
  counted : r'.valid_frames ≡ r.valid_frames + stamped ts
  down : 0 < r.valid_frames → r'.oldest_ticks ≤ r.oldest_ticks
  up : 0 < r.valid_frames → r.newest_ticks ≤ r'.newest_ticks
  within : Every (Within r') ts
  oldest : 0 < r'.valid_frames → From r.valid_frames r.oldest_ticks ts r'.oldest_ticks
  newest : 0 < r'.valid_frames → From r.valid_frames r.newest_ticks ts r'.newest_ticks

-- What one timestamp makes of it.
record Step (r : TimestampRange) (x : ℕ) (r' : TimestampRange) : Type 0 where
  counted : r'.valid_frames ≡ r.valid_frames + 1
  down : 0 < r.valid_frames → r'.oldest_ticks ≤ r.oldest_ticks
  up : 0 < r.valid_frames → r.newest_ticks ≤ r'.newest_ticks
  above : r'.oldest_ticks ≤ x
  below : x ≤ r'.newest_ticks
  oldest : ((0 < r.valid_frames) × (r'.oldest_ticks ≡ r.oldest_ticks)) ⊎ (x ≡ r'.oldest_ticks)
  newest : ((0 < r.valid_frames) × (r'.newest_ticks ≡ r.newest_ticks)) ⊎ (x ≡ r'.newest_ticks)

widen-zero : (r : TimestampRange) (x : ℕ) → x ≡ 0 → widen r x ≡ r
unfolding widen
widen-zero r x e = ground arith

widen_lem :
    (r : TimestampRange) (x : ℕ) → x ≢ 0 → r.valid_frames + 1 < 2 ^ 32 → Step r x (widen r x)
unfolding widen
widen_lem r x ne small = record {
  counted = ground arith;
  down = ground arith;
  up = ground arith;
  above = ground arith;
  below = ground arith;
  oldest = ground arith;
  newest = ground arith;
}

stamped-zero : (t : FrameTime) (ts : List FrameTime) → ticks t ≡ 0 → stamped (t ∷ ts) ≡ stamped ts
unfolding stamped
stamped-zero t ts e = let none_here : (ticks t == 0) ≡ true = ground arith in rw none_here refl

stamped-suc :
    (t : FrameTime) (ts : List FrameTime) → ticks t ≢ 0 → stamped (t ∷ ts) ≡ suc (stamped ts)
unfolding stamped
stamped-suc t ts ne = let one : (ticks t == 0) ≡ false = ground arith in rw one refl

-- A bound that comes from behind the first timestamp, or from it.
carry :
    (before old mid new valid : ℕ) (t : FrameTime) (ts : List FrameTime)
    → ((0 < before) × (mid ≡ old)) ⊎ (ticks t ≡ mid)
    → From valid mid ts new
    → From before old (t ∷ ts) new
carry before old mid new valid t ts (inl (some_before, e)) (inl (some_mid, e')) =
    inl (some_before, e' ∙ e)
carry before old mid new valid t ts (inr e) (inl (some_mid, e')) = inr (inl (e ∙ sym e'))
carry before old mid new valid t ts first (inr h) = inr (inr h)

carry_past :
    (before old new : ℕ) (t : FrameTime) (ts : List FrameTime)
    → From before old ts new
    → From before old (t ∷ ts) new
carry_past before old new t ts (inl h) = inl h
carry_past before old new t ts (inr h) = inr (inr h)

-- An empty range has no bounds of its own.
own_bounds : (old : ℕ) (ts : List FrameTime) (new : ℕ) → From 0 old ts new → Has ts new
own_bounds old ts new (inl h) = absurd (omega (arith, h))
own_bounds old ts new (inr h) = h

widen_all_lem :
    (r : TimestampRange) (ts : List FrameTime)
    → r.valid_frames + length ts < 2 ^ 32
    → Widened r ts (widen_all r ts)
unfolding widen_all
widen_all_lem r [] small = record {
  counted = unfold stamped in omega arith;
  down = λ h. omega arith;
  up = λ h. omega arith;
  within = tt;
  oldest = λ h. inl (h, refl);
  newest = λ h. inl (h, refl);
}
widen_all_lem r (t ∷ ts) small = elim (ℕ_discrete (ticks t) 0) [
  | yes none_here ↦
      let rest = widen_all_lem r ts (omega arith) in
      subst (λ r1. Widened r (t ∷ ts) (widen_all r1 ts)) (sym (widen-zero r (ticks t) none_here))
        (record {
          counted = rest.counted ∙ ap (λ k. r.valid_frames + k) (sym (stamped-zero t ts none_here));
          down = rest.down;
          up = rest.up;
          within = (inl none_here, rest.within);
          oldest = λ h. carry_past r.valid_frames r.oldest_ticks _ t ts (rest.oldest h);
          newest = λ h. carry_past r.valid_frames r.newest_ticks _ t ts (rest.newest h);
        })
  | no some_here ↦
      let r1 = widen r (ticks t) in
      let one = widen_lem r (ticks t) some_here (omega arith) in
      let more = one.counted in
      let rest = widen_all_lem r1 ts (omega arith) in
      let r' = widen_all r1 ts in
      record {
        counted = omega (arith, rest.counted, stamped-suc t ts some_here);
        down = λ h. omega (arith, one.down h, rest.down (omega arith));
        up = λ h. omega (arith, one.up h, rest.up (omega arith));
        within = (
          inr (
            omega (arith, one.above, rest.down (omega arith)),
            omega (arith, one.below, rest.up (omega arith)),
          ),
          rest.within,
        );
        oldest = λ h.
            carry r.valid_frames r.oldest_ticks r1.oldest_ticks r'.oldest_ticks r1.valid_frames t ts
              one.oldest (rest.oldest h);
        newest = λ h.
            carry r.valid_frames r.newest_ticks r1.newest_ticks r'.newest_ticks r1.valid_frames t ts
              one.newest (rest.newest h);
      }
]

-- Of up to 2 ^ 32 - 1 frames those with a timestamp are counted, and every timestamp lies between the two
-- bounds. If there is one, the bounds are timestamps of the transfer, and a callback that does not come
-- before the newest lags by the difference.
pub timestamp_range_lem :
    (frames : List FrameTime) (callback_ticks : ℕ)
    → length frames < 2 ^ 32
    → 0 < stamped frames
    → let r = timestamp_range frames in
      (r.valid_frames ≡ stamped frames)
      × Every (Within r) frames
      × Has frames r.oldest_ticks
      × Has frames r.newest_ticks
      × (callback_lag_ticks r callback_ticks ≡ (
          if ltb callback_ticks r.newest_ticks
          then none
          else some (callback_ticks - r.newest_ticks)))
unfolding timestamp_range callback_lag_ticks
timestamp_range_lem frames callback_ticks small some_stamp =
    let w = widen_all_lem empty_range frames (omega arith) in
    let count = w.counted in
    (
      omega arith,
      w.within,
      own_bounds _ frames _ (w.oldest (omega arith)),
      own_bounds _ frames _ (w.newest (omega arith)),
      ground arith,
    )
