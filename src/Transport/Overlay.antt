-- ===== src/Transport/Overlay.antt =====
-- The mixing loop of the playback ring (coreaudio/NS6Transport.c): frames at positions that are already
-- in the ring are mixed with those, frames behind them are appended.
use mathlib.Core.Path.{subst}
use native.Mathlib.Decide.{dec_lt}
use numark_ns6_mac_arm.Prelude.{
  ℕ, suc, ◌+◌, ◌%◌, ◌^◌, ◌≤◌, ◌<◌, ◌≡◌, refl, sym, ap, ap₂, ◌∙◌, ◌≢◌, true, false, List, [], ◌∷◌,
  ◌++◌, arith, if◌then◌else◌, ltb, get_or, get_or-set_ne, length, length-append, length-set, set,
}
use numark_ns6_mac_arm.Span.{get_or-span, slot_ne, length-span, span-set_at}
use numark_ns6_mac_arm.Transport.{
  mix_frame_at, raise_high_water, put_frame, Shared, store_frames, ring_frames, mix_frames,
}
use numark_ns6_mac_arm.Transport.Contents.{contents, IsQueue, used, tag_at}
use numark_ns6_mac_arm.Transport.Playback.{appended-IsQueue, appended}

module _ {F : Type 0} where
  -- No slot behind the high-water mark has the tag of the position that comes to it next.
  abbrev pub IsFresh : Shared F → Type 0
  IsFresh s =
      (p : ℕ)
      → s.high_water ≤ p
      → p < s.read_cursor + ring_frames
      → get_or s.tags (p % ring_frames) 0 ≢ p

module _ {F : Type 0} (mix : F → F → F) (unset : F) where
  -- The frame at index `k` of a queue: mixed with the one there, or behind the last.
  abbrev pub overlay_one : List F → ℕ → F → List F
  overlay_one q k x = if ltb k (length q) then set q k (mix (get_or q k unset) x) else q ++ (x ∷ [])

  unfoldable pub overlay : List F → ℕ → List F → List F
  overlay q k [] = q
  overlay q k (x ∷ xs) = overlay (overlay_one q k x) (k + 1) xs

  raise_here :
      (s : Shared F) (p : ℕ) → s.high_water < p → raise_high_water s p ≡ record s { high_water = p }
  unfolding raise_high_water
  raise_here s p lt = ground arith

  raise_below : (s : Shared F) (p : ℕ) → p ≤ s.high_water → raise_high_water s p ≡ s
  unfolding raise_high_water
  raise_below s p le = ground arith

  raise_twice :
      (s : Shared F) (p q : ℕ)
      → p ≤ q
      → raise_high_water (raise_high_water s p) q ≡ raise_high_water s q
  unfolding raise_high_water
  raise_twice s p q le = ground arith

  mix_frame_at-raise :
      (s : Shared F) (p position : ℕ) (x : F)
      → mix_frame_at mix unset (raise_high_water s p) position x
        ≡ raise_high_water (mix_frame_at mix unset s position x) p
  unfolding raise_high_water mix_frame_at put_frame
  mix_frame_at-raise s p position x = ground arith

  -- The loop neither reads nor moves the high-water mark.
  mix_frames-raise :
      (s : Shared F) (p position : ℕ) (xs : List F)
      → mix_frames mix unset (raise_high_water s p) position xs
        ≡ raise_high_water (mix_frames mix unset s position xs) p
  unfolding mix_frames
  mix_frames-raise s p position [] = refl
  mix_frames-raise s p position (x ∷ xs) =
      ap (λ t. mix_frames mix unset t (position + 1) xs) (mix_frame_at-raise s p position x)
      ∙ mix_frames-raise (mix_frame_at mix unset s position x) p (position + 1) xs

  -- What a step of the mix leaves, with the high-water mark behind it.
  pub record Mixed (s : Shared F) (q : List F) (t : Shared F) : Type 0 where
    pub valid : IsQueue t
    pub fresh : IsFresh t
    pub holds : contents unset t ≡ q
    pub same_cursor : t.read_cursor ≡ s.read_cursor
    pub same_started : t.initialized ≡ s.initialized

  abbrev mixed_at : Shared F → ℕ → F → Shared F
  mixed_at s position x =
      let slot = position % ring_frames in
      record s { samples = set s.samples slot (mix (get_or s.samples slot unset) x) }

  mix_tagged :
      (s : Shared F) (position : ℕ) (x : F)
      → get_or s.tags (position % ring_frames) 0 ≡ position
      → mix_frame_at mix unset s position x ≡ mixed_at s position x
  unfolding mix_frame_at
  mix_tagged s position x e = ground arith

  mix_untagged :
      (s : Shared F) (position : ℕ) (x : F)
      → get_or s.tags (position % ring_frames) 0 ≢ position
      → mix_frame_at mix unset s position x ≡ put_frame s position x
  unfolding mix_frame_at
  mix_untagged s position x ne = ground arith

  mix_inside :
      (s : Shared F) (k : ℕ) (x : F)
      → IsQueue s
      → IsFresh s
      → k < used s
      → Mixed s (overlay_one (contents unset s) k x) (
          raise_high_water (mix_frame_at mix unset s (s.read_cursor + k) x) (s.read_cursor + k + 1))
  mix_inside s k x v fresh lt =
      let position = s.read_cursor + k in
      let slot = position % ring_frames in
      let tag = tag_at s.tags s.read_cursor k (used s) v.tagged lt in
      let len = length-span ring_frames unset s.samples s.read_cursor (used s) in
      let here : ltb k (length (contents unset s)) ≡ true = ground (arith, len, lt) in
      let old : get_or (contents unset s) k unset ≡ get_or s.samples slot unset =
        get_or-span ring_frames unset s.samples s.read_cursor (used s) k lt in
      let used_le = v.used_le in
      subst (λ t. Mixed s (overlay_one (contents unset s) k x) t)
        (sym (
          ap (λ t. raise_high_water t (position + 1)) (mix_tagged s position x tag)
          ∙ raise_below (mixed_at s position x) (position + 1) (omega arith)))
        (record {
          valid = record {
            slots = length-set s.samples slot (mix (get_or s.samples slot unset) x) ∙ v.slots;
            tag_slots = v.tag_slots;
            ordered = v.ordered;
            used_le = v.used_le;
            high_u64 = v.high_u64;
            tagged = v.tagged;
            started = v.started;
          };
          fresh = fresh;
          holds =
              rw (here, old)
                (span-set_at ring_frames unset s.samples s.read_cursor (used s) k
                  (mix (get_or s.samples slot unset) x) (omega (arith, v.slots)) lt v.used_le);
          same_cursor = refl;
          same_started = refl;
        })

  fresh_behind :
      (s : Shared F) (x : F)
      → s.read_cursor ≤ s.high_water
      → IsFresh s
      → IsFresh (record (put_frame s s.high_water x) { high_water = s.high_water + 1 })
  unfolding put_frame
  fresh_behind s x ordered fresh p le lt =
      let other : get_or (set s.tags (s.high_water % ring_frames) s.high_water) (p % ring_frames) 0
          ≡ get_or s.tags (p % ring_frames) 0 =
        get_or-set_ne s.tags s.high_water 0
          (slot_ne ring_frames s.high_water p (omega arith) (omega arith)) in
      rw other (fresh p (omega arith) lt)

  mix_behind :
      (s : Shared F) (k : ℕ) (x : F)
      → IsQueue s
      → IsFresh s
      → s.initialized ≡ true
      → k ≡ used s
      → k < ring_frames
      → s.read_cursor + k + 1 < 2 ^ 64
      → Mixed s (overlay_one (contents unset s) k x) (
          raise_high_water (mix_frame_at mix unset s (s.read_cursor + k) x) (s.read_cursor + k + 1))
  unfolding store_frames
  mix_behind s k x v fresh on e small u64 =
      let ordered = v.ordered in
      let end : s.read_cursor + k ≡ s.high_water = omega arith in
      let len = length-span ring_frames unset s.samples s.read_cursor (used s) in
      let out : ltb k (length (contents unset s)) ≡ false = ground (arith, len, e) in
      let (valid, grown) = appended-IsQueue unset s (x ∷ []) v on (ground arith) (omega arith) in
      let high_tag = fresh s.high_water (omega arith) (omega arith) in
      let same : appended unset s (x ∷ [])
          ≡ record (put_frame s s.high_water x) { high_water = s.high_water + 1 } =
        raise_here (put_frame s s.high_water x) (s.high_water + 1)
          (unfold put_frame in omega arith) in
      rw (end, out)
        (subst (λ t. Mixed s (contents unset s ++ (x ∷ [])) t)
          (sym (
            ap (λ t. raise_high_water t (s.high_water + 1))
              (mix_untagged s s.high_water x high_tag)))
          (subst (λ t. Mixed s (contents unset s ++ (x ∷ [])) t) (sym same)
            (record {
              valid = subst (λ t. IsQueue t) same valid;
              fresh = fresh_behind s x v.ordered fresh;
              holds = subst (λ t. contents unset t ≡ contents unset s ++ (x ∷ [])) same grown;
              same_cursor = unfold put_frame in refl;
              same_started = unfold put_frame in refl;
            })))

  length-overlay_one :
      (q : List F) (k : ℕ) (x : F) → k ≤ length q → k + 1 ≤ length (overlay_one q k x)
  length-overlay_one q k x le =
      ground (arith, length-set q k (mix (get_or q k unset) x), length-append q (x ∷ []))

  mix_one :
      (s : Shared F) (k : ℕ) (x : F)
      → IsQueue s
      → IsFresh s
      → s.initialized ≡ true
      → k ≤ used s
      → k < ring_frames
      → s.read_cursor + k + 1 < 2 ^ 64
      → Mixed s (overlay_one (contents unset s) k x) (
          raise_high_water (mix_frame_at mix unset s (s.read_cursor + k) x) (s.read_cursor + k + 1))
  mix_one s k x v fresh on le small u64 = elim (dec_lt k (used s)) [
    | yes lt ↦ mix_inside s k x v fresh lt
    | no ge ↦ mix_behind s k x v fresh on (omega arith) small u64
  ]

  pub mix_frames-Mixed :
      (s : Shared F) (k : ℕ) (xs : List F)
      → IsQueue s
      → IsFresh s
      → s.initialized ≡ true
      → k ≤ used s
      → k + length xs ≤ ring_frames
      → s.read_cursor + k + length xs < 2 ^ 64
      → Mixed s (overlay (contents unset s) k xs) (
          raise_high_water
            (mix_frames mix unset s (s.read_cursor + k) xs)
            (s.read_cursor + k + length xs))
  unfolding overlay mix_frames
  mix_frames-Mixed s k [] v fresh on le room u64 =
      let ordered = v.ordered in
      subst (λ t. Mixed s (contents unset s) t)
        (sym (raise_below s (s.read_cursor + k + 0) (omega arith)))
        (record { valid = v; fresh = fresh; holds = refl; same_cursor = refl; same_started = refl })
  mix_frames-Mixed s k (x ∷ xs) v fresh on le room u64 =
      let s1 =
        raise_high_water (mix_frame_at mix unset s (s.read_cursor + k) x) (s.read_cursor + k + 1) in
      let one = mix_one s k x v fresh on le (omega arith) (omega arith) in
      let len = length-span ring_frames unset s1.samples s1.read_cursor (used s1) in
      let len0 = length-span ring_frames unset s.samples s.read_cursor (used s) in
      let grown = ap length one.holds in
      let at_least = length-overlay_one (contents unset s) k x in
      let cursor = one.same_cursor in
      let rest =
        mix_frames-Mixed s1 (k + 1) xs one.valid one.fresh (one.same_started ∙ on)
          (omega (arith, len, len0, grown, at_least, le)) (omega arith) (omega arith) in
      let m0 = mix_frame_at mix unset s (s.read_cursor + k) x in
      let position : s1.read_cursor + (k + 1) ≡ s.read_cursor + k + 1 = omega arith in
      let end : s1.read_cursor + (k + 1) + length xs ≡ s.read_cursor + k + suc (length xs) =
        omega arith in
      let same =
        ap₂ (λ p e. raise_high_water (mix_frames mix unset s1 p xs) e) position end
        ∙ ap (λ t. raise_high_water t (s.read_cursor + k + suc (length xs)))
            (mix_frames-raise m0 (s.read_cursor + k + 1) (s.read_cursor + k + 1) xs)
        ∙ raise_twice (mix_frames mix unset m0 (s.read_cursor + k + 1) xs) (s.read_cursor + k + 1)
            (s.read_cursor + k + suc (length xs)) (omega arith) in
      subst (λ t. Mixed s (overlay (overlay_one (contents unset s) k x) (k + 1) xs) t) same
        (record {
          valid = rest.valid;
          fresh = rest.fresh;
          holds = rest.holds ∙ ap (λ q. overlay q (k + 1) xs) one.holds;
          same_cursor = rest.same_cursor ∙ one.same_cursor;
          same_started = rest.same_started ∙ one.same_started;
        })
