-- ===== src/Transport/Playback.antt =====
-- What the playback ring delivers (coreaudio/NS6Transport.c): frames come out as they were enqueued.
use mathlib.Core.Path.{subst}
use numark_ns6_mac_arm.Prelude.{
  ℕ, suc, ◌+◌, ◌-◌, ◌^◌, ◌≤◌, ◌<◌, ◌≡◌, refl, sym, ap, ◌∙◌, inl, inr, Bool, true, false, ◌&&◌, ◌||◌,
  List, [], ◌∷◌, ◌++◌, append-nil, arith, Bool-cases, if◌then◌else◌, leb, ltb, ◌==◌, length,
}
use numark_ns6_mac_arm.Prelude.Words.{u64_max}
use numark_ns6_mac_arm.Span.{span, length-span}
use numark_ns6_mac_arm.Transport.{
  raise_high_water, reset_shared, enqueue_frames, ensure_initialized, place_frames, Shared,
  available_shared, store_frames, ring_frames, clear_tags,
}
use numark_ns6_mac_arm.Transport.Contents.{
  contents, upto, upto-append, tagged_from-span, store_frames-Stores, IsQueue, Stores, used,
}

length-clear_tags : (ts : List ℕ) → length (clear_tags ts) ≡ length ts
unfolding clear_tags
length-clear_tags [] = refl
length-clear_tags (t ∷ ts) = ap suc (length-clear_tags ts)

module _ {F : Type 0} (unset : F) where
  -- The frames appended behind the others.
  abbrev pub appended : Shared F → List F → Shared F
  appended s input =
      raise_high_water (store_frames s s.high_water input) (s.high_water + length input)

  abbrev pub fits : Shared F → List F → Bool
  fits s input =
      leb (used s + length input) ring_frames && leb (s.high_water + length input) u64_max

  pub ensure_started : (s : Shared F) (t : ℕ) → s.initialized ≡ true → ensure_initialized s t ≡ s
  unfolding ensure_initialized
  ensure_started s t on = ground arith

  ensure_fresh :
      (s : Shared F) (t : ℕ)
      → s.initialized ≡ false
      → ensure_initialized s t ≡ record s { read_cursor = t; high_water = t; initialized = true }
  unfolding ensure_initialized
  ensure_fresh s t off = ground arith

  -- What starting the ring at its high-water mark leaves.
  record Started (s t : Shared F) : Type 0 where
    valid : IsQueue t
    same_contents : contents unset t ≡ contents unset s
    same_high : t.high_water ≡ s.high_water
    same_used : used t ≡ used s
    on : t.initialized ≡ true

  started : (s : Shared F) → IsQueue s → Started s (ensure_initialized s s.high_water)
  started s v = elim (Bool-cases s.initialized) [
    | inl e ↦
        subst (λ t. Started s t) (sym (ensure_started s s.high_water e))
          (record { valid = v; same_contents = refl; same_high = refl; same_used = refl; on = e })
    | inr e ↦
        let same = v.started e in
        let none_used : used s ≡ 0 = omega (arith, same) in
        let nothing : s.high_water - s.high_water ≡ 0 = omega arith in
        subst (λ t. Started s t) (sym (ensure_fresh s s.high_water e))
          (record {
            valid = record {
              slots = v.slots;
              tag_slots = v.tag_slots;
              ordered = omega arith;
              used_le = omega arith;
              high_u64 = v.high_u64;
              tagged = rw nothing refl;
              started = λ bad. refl;
            };
            same_contents = rw (nothing, none_used) refl;
            same_high = refl;
            same_used = omega arith;
            on = refl;
          })
  ]

  pub appended-IsQueue :
      (s : Shared F) (input : List F)
      → IsQueue s
      → s.initialized ≡ true
      → fits s input ≡ true
      → 0 < length input
      → IsQueue (appended s input) × (contents unset (appended s input) ≡ contents unset s ++ input)
  unfolding raise_high_water
  appended-IsQueue s input v on room some_input =
      let end_of_used : s.read_cursor + used s ≡ s.high_water = omega (arith, v.ordered) in
      let stores : Stores unset s s.read_cursor (used s) input (store_frames s s.high_water input) =
        subst (λ p. Stores unset s s.read_cursor (used s) input (store_frames s p input))
          end_of_used
          (store_frames-Stores unset s s.read_cursor (used s) input v.slots v.tag_slots
            (ground arith)) in
      let t = store_frames s s.high_water input in
      let raised : ltb t.high_water (s.high_water + length input) ≡ true =
        ground (arith, stores.same_high) in
      let upper : s.high_water + length input - t.read_cursor ≡ used s + length input =
        omega (arith, stores.same_cursor, v.ordered) in
      let same_upper : s.high_water + length input - s.read_cursor ≡ used s + length input =
        omega (arith, v.ordered) in
      let tags_so : span ring_frames 0 t.tags s.read_cursor (used s + length input)
          ≡ upto s.read_cursor (used s + length input) =
        stores.stored_tags
        ∙ ap (λ l. l ++ upto (s.read_cursor + used s) (length input)) v.tagged
        ∙ sym (upto-append s.read_cursor (used s) (length input)) in
      rw (raised, upper, stores.same_cursor)
        (
          record {
            slots = stores.same_slots ∙ v.slots;
            tag_slots = stores.same_tag_slots ∙ v.tag_slots;
            ordered = ground (arith, stores.same_cursor, v.ordered);
            used_le = ground (arith, upper);
            high_u64 = ground arith;
            tagged = rw same_upper tags_so;
            started = λ bad. absurd (cc (bad, stores.same_started, on));
          },
          stores.stored,
        )

  place_frames-eq :
      (s : Shared F) (high : ℕ) (input : List F)
      → s.read_cursor ≤ high
      → high + length input < 2 ^ 64
      → 0 < length input
      → place_frames s high input ≡ (
          if ltb ring_frames (high - s.read_cursor + length input)
          then (false, s)
          else (true, raise_high_water (store_frames s high input) (high + length input)))
  unfolding place_frames
  place_frames-eq s high input le small some_input = ground arith

  -- What `enqueue_frames_lem` says of a result.
  abbrev Enqueued : Shared F → List F → Bool × Shared F → Type 0
  Enqueued s input (ok, s') =
      (ok ≡ (length input == 0 || fits s input))
      × (contents unset s' ≡ contents unset s ++ (if ok then input else []))
      × IsQueue s'

  refused :
      (s : Shared F) (input : List F) (s' : Shared F)
      → 0 < length input
      → fits s input ≡ false
      → contents unset s' ≡ contents unset s
      → IsQueue s'
      → Enqueued s input (false, s')
  refused s input s' some_input no_room same v =
      (ground arith, same ∙ sym (append-nil (contents unset s)), v)

  placed :
      (s : Shared F) (input : List F)
      → IsQueue s
      → 0 < length input
      → s.high_water + length input < 2 ^ 64
      → Enqueued s input (place_frames (ensure_initialized s s.high_water) s.high_water input)
  placed s input v some_input small =
      let s1 = ensure_initialized s s.high_water in
      let st = started s v in
      let same = st.same_high in
      let ordered = st.valid.ordered in
      let same_used = st.same_used in
      let eq = place_frames-eq s1 s.high_water input (omega arith) small some_input in
      subst (λ r. Enqueued s input r) (sym eq)
        (elim (Bool-cases (ltb ring_frames (s.high_water - s1.read_cursor + length input))) [
          | inl full ↦
              rw full (refused s input s1 some_input (ground arith) st.same_contents st.valid)
          | inr room ↦ rw room (
              let (valid, grown) =
                appended-IsQueue s1 input st.valid st.on (ground arith) some_input in
              subst
                (λ h.
                  Enqueued s input
                    (true, raise_high_water (store_frames s1 h input) (h + length input)))
                same (ground arith, grown ∙ ap (λ l. l ++ input) st.same_contents, valid))
        ])

  -- A call of enqueue either appends all its frames, exactly if they fit, or changes nothing; the ring
  -- stays a queue.
  pub enqueue_frames_lem :
      (s : Shared F) (input : List F)
      → IsQueue s
      → length input < 2 ^ 32
      → let (ok, s') = enqueue_frames s input in
        (ok ≡ (length input == 0 || fits s input))
        × (contents unset s' ≡ contents unset s ++ (if ok then input else []))
        × IsQueue s'
  unfolding enqueue_frames
  enqueue_frames_lem s [] v count = (refl, sym (append-nil (contents unset s)), v)
  enqueue_frames_lem s (x ∷ xs) v count =
      let input = x ∷ xs in
      let some_input : (length input == 0) ≡ false = ground arith in
      elim (Bool-cases (ltb (u64_max - length input) s.high_water)) [
        | inl over ↦
            subst (λ r. Enqueued s input r) (sym (rw (some_input, over) refl))
              (refused s input s (omega arith) (ground arith) refl v)
        | inr small ↦
            subst (λ r. Enqueued s input r) (sym (rw (some_input, small) refl))
              (placed s input v (omega arith) (ground arith))
      ]

  -- Every frame up to the high-water mark can be read.
  pub available_shared_lem :
      (s : Shared F) → IsQueue s → available_shared s ≡ length (contents unset s)
  unfolding available_shared
  available_shared_lem s v =
      let len = length-span ring_frames unset s.samples s.read_cursor (used s) in
      let count = tagged_from-span s.tags s.read_cursor (used s) v.tagged in
      ground (arith, len, count, v.started)

  -- The ring is emptied.
  pub reset_shared_lem :
      (s : Shared F) → IsQueue s → IsQueue (reset_shared s) × (contents unset (reset_shared s) ≡ [])
  unfolding reset_shared
  reset_shared_lem s v = (
    record {
      slots = v.slots;
      tag_slots = length-clear_tags s.tags ∙ v.tag_slots;
      ordered = omega arith;
      used_le = omega arith;
      high_u64 = omega arith;
      tagged = refl;
      started = λ off. refl;
    },
    refl,
  )
