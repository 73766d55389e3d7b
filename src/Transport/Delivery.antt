-- ===== src/Transport/Delivery.antt =====
-- What the USB worker gets from the playback ring at one source frame for each output frame
-- (coreaudio/NS6Transport.c).
use mathlib.Core.Path.{subst}
use numark_ns6_mac_arm.Double.{Double}
use numark_ns6_mac_arm.Prelude.{
  ℕ, zero, suc, ◌+◌, ◌-◌, ◌%◌, ◌^◌, ◌≤◌, ◌<◌, min, ◌≡◌, refl, sym, ap, ap₂, ◌∙◌, true, false, not,
  ◌||◌, List, [], ◌∷◌, arith, if◌then◌else◌, ltb, ◌==◌, Every, drop, drop-min, get_or, length, take,
  take-min,
}
use numark_ns6_mac_arm.Prelude.Int.{pos}
use numark_ns6_mac_arm.Prelude.Words.{add64}
use numark_ns6_mac_arm.Span.{span, length-span, drop-span, take-span}
use numark_ns6_mac_arm.Transport.{
  stop_none, dequeue, resample, stop_empty, Dequeued, frame_at, dequeue_resampled, Shared,
  StopReason, settle, usable_step, take_frame, ring_frames, stop_at,
}
use numark_ns6_mac_arm.Transport.Contents.{contents, IsQueue, drop-upto, used, tag_at}

-- Doubles count whole numbers exactly, below 2 ^ 53.
pub record IsExact {W : Type 0} (d : Double W) : Type 0 where
  pub whole_of_int : (k : ℕ) → k < 2 ^ 53 → d.whole (d.of_int (pos k)) ≡ k
  pub sub_self :
      (k : ℕ) → k < 2 ^ 53 → d.sub (d.of_int (pos k)) (d.of_int (pos k)) ≡ d.of_int (pos 0)
  pub add_one :
      (k : ℕ)
      → k + 1 < 2 ^ 53
      → d.add (d.of_int (pos k)) (d.of_int (pos 1)) ≡ d.of_int (pos (k + 1))
  pub zero_not_less : d.less (d.of_int (pos 0)) (d.of_int (pos 0)) ≡ false
  pub one_is_finite : d.is_finite (d.of_int (pos 1)) ≡ true
  pub one_not_small : d.less (d.of_int (pos 1)) d.half ≡ false
  pub one_not_large : d.less d.three_halves (d.of_int (pos 1)) ≡ false

module _ {F W : Type 0} (d : Double W) (interpolate : F → F → W → F) (unset : F)
    (exact : IsExact d) where
  abbrev nth_frame : Shared F → ℕ → F
  nth_frame s k = get_or s.samples ((s.read_cursor + k) % ring_frames) unset

  -- At a whole phase the first and the second frame are the same one.
  frame_at_whole :
      (s : Shared F) (k : ℕ)
      → IsQueue s
      → k < 2 ^ 53
      → k ≤ used s
      → frame_at d interpolate unset s (d.of_int (pos k)) ≡ (
        interpolate (nth_frame s k) (nth_frame s k) (d.of_int (pos 0)),
        stop_at d interpolate unset s s.read_cursor (s.read_cursor + k) (s.read_cursor + k),
      )
  unfolding frame_at
  frame_at_whole s k v small le =
      let high = v.high_u64 in
      let ordered = v.ordered in
      let first : add64 s.read_cursor k ≡ s.read_cursor + k = omega arith in
      let second : add64 (s.read_cursor + k) 0 ≡ s.read_cursor + k = omega arith in
      rw (exact.whole_of_int k small, exact.sub_self k small, exact.zero_not_less, first, second)
        refl

  stop_none_at :
      (s : Shared F) (k : ℕ)
      → IsQueue s
      → k < used s
      → stop_at d interpolate unset s s.read_cursor (s.read_cursor + k) (s.read_cursor + k)
        ≡ stop_none
  unfolding stop_at
  stop_none_at s k v lt =
      ground (
        arith,
        tag_at s.tags s.read_cursor k (used s) v.tagged lt,
        v.high_u64,
        v.ordered,
        v.used_le,
      )

  stop_empty_at :
      (s : Shared F) (k : ℕ)
      → IsQueue s
      → k ≡ used s
      → stop_at d interpolate unset s s.read_cursor (s.read_cursor + k) (s.read_cursor + k)
        ≡ stop_empty
  unfolding stop_at
  stop_empty_at s k v e = ground (arith, v.ordered)

  resample_more :
      (s : Shared F) (n : ℕ) (phase : W) (x : F)
      → frame_at d interpolate unset s phase ≡ (x, stop_none)
      → resample d interpolate unset s (d.of_int (pos 1)) (suc n) phase ≡ (
          let (rest, reason, end_phase) =
            resample d interpolate unset s (d.of_int (pos 1)) n (d.add phase (d.of_int (pos 1))) in
          (x ∷ rest, reason, end_phase))
  unfolding resample
  resample_more s n phase x e =
      ap
        (λ r.
          take_frame d interpolate unset r phase
            (resample d interpolate unset s (d.of_int (pos 1)) n (d.add phase (d.of_int (pos 1)))))
        e

  resample_stops :
      (s : Shared F) (n : ℕ) (phase : W) (x : F)
      → frame_at d interpolate unset s phase ≡ (x, stop_empty)
      → resample d interpolate unset s (d.of_int (pos 1)) (suc n) phase ≡ ([], stop_empty, phase)
  unfolding resample
  resample_stops s n phase x e =
      ap
        (λ r.
          take_frame d interpolate unset r phase
            (resample d interpolate unset s (d.of_int (pos 1)) n (d.add phase (d.of_int (pos 1)))))
        e

  -- Interpolating a frame with itself gives it back.
  abbrev pub Keeps : F → Type 0
  Keeps x = interpolate x x (d.of_int (pos 0)) ≡ x

  -- What the loop comes to from the frame number `k`.
  abbrev resampled : Shared F → ℕ → ℕ → ℕ → List F × StopReason × W
  resampled s n k m = (
    span ring_frames unset s.samples (s.read_cursor + k) m,
    if ltb m n then stop_empty else stop_none,
    d.of_int (pos (k + m)),
  )

  resample_lem :
      (s : Shared F) (n k m : ℕ)
      → IsQueue s
      → ((i : ℕ) → i < used s → Keeps (nth_frame s i))
      → k ≤ used s
      → m ≡ min n (used s - k)
      → resample d interpolate unset s (d.of_int (pos 1)) n (d.of_int (pos k)) ≡ resampled s n k m
  resample_lem s zero k m v same le e =
      let none_left : m ≡ 0 = omega arith in
      let stay : k + 0 ≡ k = omega arith in rw (none_left, stay) (unfold resample in refl)
  resample_lem s (suc n) k zero v same le e =
      let stay : k + 0 ≡ k = omega arith in
      let small = v.used_le in
      let short : ltb 0 (suc n) ≡ true = ground arith in
      rw (stay, short)
        (resample_stops s n (d.of_int (pos k)) _ (
          frame_at_whole s k v (omega arith) le
          ∙ ap (λ r. (interpolate (nth_frame s k) (nth_frame s k) (d.of_int (pos 0)), r))
              (stop_empty_at s k v (omega arith))))
  resample_lem s (suc n) k (suc m) v same le e =
      let small = v.used_le in
      let here : frame_at d interpolate unset s (d.of_int (pos k)) ≡ (nth_frame s k, stop_none) =
        frame_at_whole s k v (omega arith) le
        ∙ ap₂ (λ x r. (x, r)) (same k (omega arith)) (stop_none_at s k v (omega arith)) in
      let rest = resample_lem s n (k + 1) m v same (omega arith) (omega arith) in
      let position : s.read_cursor + (k + 1) ≡ suc (s.read_cursor + k) = omega arith in
      let phase : k + 1 + m ≡ k + suc m = omega arith in
      let fewer : ltb m n ≡ ltb (suc m) (suc n) = ground arith in
      resample_more s n (d.of_int (pos k)) (nth_frame s k) here
      ∙ rw (exact.add_one k (omega arith), rest, position, phase, fewer) refl

  Every-span :
      (P : F → Type 0) (buf : List F) (h n i : ℕ)
      → Every P (span ring_frames unset buf h n)
      → i < n
      → P (get_or buf ((h + i) % ring_frames) unset)
  Every-span P buf h zero i all lt = absurd (omega arith)
  Every-span P buf h (suc n) zero all lt = let same : h + 0 ≡ h = omega arith in rw same (all.0)
  Every-span P buf h (suc n) (suc i) all lt =
      let same : h + suc i ≡ suc h + i = omega arith in
      rw same (Every-span P buf (suc h) n i all.1 (omega arith))

  step_of_one : usable_step d interpolate unset (d.of_int (pos 1)) ≡ d.of_int (pos 1)
  unfolding usable_step
  step_of_one = rw (exact.one_is_finite, exact.one_not_small, exact.one_not_large) refl

  settle_whole :
      (s : Shared F) (output : List F) (reason : StopReason) (m : ℕ)
      → m < 2 ^ 53
      → s.read_cursor + m < 2 ^ 64
      → settle d interpolate unset s (output, reason, d.of_int (pos m)) ≡ record {
        output = output;
        reason = reason;
        ring = record s { read_cursor = s.read_cursor + m };
        read_fraction = d.of_int (pos 0);
      }
  unfolding settle
  settle_whole s output reason m small fits_u64 =
      let position : add64 s.read_cursor m ≡ s.read_cursor + m = omega arith in
      rw (exact.whole_of_int m small, exact.sub_self m small, position) refl

  -- The ring behind the oldest `m` frames.
  abbrev pub behind : Shared F → ℕ → Shared F
  behind s m = record s { read_cursor = s.read_cursor + m }

  dequeue_started :
      (s : Shared F) (capacity m : ℕ)
      → IsQueue s
      → s.initialized ≡ true
      → 0 < capacity
      → Every Keeps (contents unset s)
      → m ≡ min capacity (used s)
      → dequeue d interpolate unset s (d.of_int (pos 0)) capacity ≡ record {
        output = span ring_frames unset s.samples s.read_cursor m;
        reason = if ltb m capacity then stop_empty else stop_none;
        ring = behind s m;
        read_fraction = d.of_int (pos 0);
      }
  unfolding dequeue dequeue_resampled
  dequeue_started s capacity m v on some_room keep e =
      let small = v.used_le in
      let high = v.high_u64 in
      let ordered = v.ordered in
      let guard : (capacity == 0 || not s.initialized) ≡ false = ground arith in
      let stay : s.read_cursor + 0 ≡ s.read_cursor = omega arith in
      let loop =
        resample_lem s capacity 0 m v
          (λ i lt. Every-span Keeps s.samples s.read_cursor (used s) i keep lt) (omega arith)
          (omega arith) in
      let phase : 0 + m ≡ m = omega arith in
      rw (guard, step_of_one, loop, stay, phase) (settle_whole s _ _ m (omega arith) (omega arith))

  behind-IsQueue :
      (s : Shared F) (m : ℕ) → IsQueue s → s.initialized ≡ true → m ≤ used s → IsQueue (behind s m)
  behind-IsQueue s m v on le =
      let ordered = v.ordered in
      let small = v.used_le in
      let left : s.high_water - (s.read_cursor + m) ≡ used s - m = omega arith in
      record {
        slots = v.slots;
        tag_slots = v.tag_slots;
        ordered = omega arith;
        used_le = omega arith;
        high_u64 = v.high_u64;
        tagged = rw left (
            sym (drop-span ring_frames 0 s.tags s.read_cursor m (used s) le)
            ∙ ap (drop m) v.tagged
            ∙ drop-upto s.read_cursor m (used s) le);
        started = λ off. cc;
      }

  contents-behind :
      (s : Shared F) (m : ℕ)
      → IsQueue s
      → m ≤ used s
      → contents unset (behind s m) ≡ drop m (contents unset s)
  contents-behind s m v le =
      let ordered = v.ordered in
      let left : s.high_water - (s.read_cursor + m) ≡ used s - m = omega arith in
      rw left (sym (drop-span ring_frames unset s.samples s.read_cursor m (used s) le))

  -- Asked for at least one frame, the ring delivers its oldest frames unchanged, as many as it has, and
  -- keeps the others; it stops early exactly if there are too few, with the reason that it is empty, and
  -- leaves no fraction behind. The doubles are exact on small whole numbers, and interpolating a frame
  -- of the ring with itself gives it back.
  pub dequeue_lem :
      (s : Shared F) (capacity : ℕ)
      → IsQueue s
      → s.initialized ≡ true
      → 0 < capacity
      → Every Keeps (contents unset s)
      → let r = dequeue d interpolate unset s (d.of_int (pos 0)) capacity in
        (r.output ≡ take capacity (contents unset s))
        × (r.reason ≡ (if ltb (length (contents unset s)) capacity then stop_empty else stop_none))
        × (contents unset r.ring ≡ drop capacity (contents unset s))
        × (r.read_fraction ≡ d.of_int (pos 0))
        × IsQueue r.ring
        × (r.ring.initialized ≡ true)
  dequeue_lem s capacity v on some_room keep =
      let n = used s in
      let m = min capacity n in
      let len = length-span ring_frames unset s.samples s.read_cursor n in
      let le : m ≤ n = omega arith in
      let same_test : ltb m capacity ≡ ltb n capacity = ground arith in
      subst
        (λ (r : Dequeued d interpolate unset).
          (r.output ≡ take capacity (contents unset s))
          × (r.reason
              ≡ (if ltb (length (contents unset s)) capacity then stop_empty else stop_none))
          × (contents unset r.ring ≡ drop capacity (contents unset s))
          × (r.read_fraction ≡ d.of_int (pos 0))
          × IsQueue r.ring
          × (r.ring.initialized ≡ true))
        (sym (dequeue_started s capacity m v on some_room keep refl))
        (
          sym (
              take-min capacity (contents unset s)
              ∙ ap (λ k. take (min capacity k) (contents unset s)) len
              ∙ take-span ring_frames unset s.samples s.read_cursor m n le),
          rw (len, same_test) refl,
          contents-behind s m v le
              ∙ sym (
                  drop-min capacity (contents unset s)
                  ∙ ap (λ k. drop (min capacity k) (contents unset s)) len),
          refl,
          behind-IsQueue s m v on le,
          on,
        )
