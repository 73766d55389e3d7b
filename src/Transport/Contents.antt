-- ===== src/Transport/Contents.antt =====
-- The playback ring (coreaudio/NS6Transport.c) as a queue of frames: the frames from the read cursor up
-- to the high-water mark, each under its own tag.
use mathlib.Core.Path.{subst}
use numark_ns6_mac_arm.Prelude.{
  ℕ, zero, suc, ◌+◌, ◌-◌, ◌%◌, ◌^◌, ◌≤◌, ◌<◌, ◌≡◌, refl, sym, ap, ap₂, ◌∙◌, false, List, [], ◌∷◌,
  ◌++◌, append-nil, append_assoc, arith, drop, get_or, length, length-set,
}
use numark_ns6_mac_arm.Span.{span, span-set}
use numark_ns6_mac_arm.Transport.{put_frame, tagged_from, Shared, store_frames, ring_frames}

-- The positions from `start` on.
abbrev pub upto : ℕ → ℕ → List ℕ
upto start zero = []
upto start (suc n) = start ∷ upto (suc start) n

pub upto-append : (start m n : ℕ) → upto start (m + n) ≡ upto start m ++ upto (start + m) n
upto-append start zero n = ap₂ upto (omega arith) (omega arith)
upto-append start (suc m) n =
    let e : suc m + n ≡ suc (m + n) = omega arith in
    let f : start + suc m ≡ suc start + m = omega arith in rw (e, f, upto-append (suc start) m n)

pub drop-upto : (start k n : ℕ) → k ≤ n → drop k (upto start n) ≡ upto (start + k) (n - k)
drop-upto start zero n le = ap₂ upto (omega arith) (omega arith)
drop-upto start (suc k) zero le = absurd (omega arith)
drop-upto start (suc k) (suc n) le =
    drop-upto (suc start) k n (omega arith) ∙ ap₂ upto (omega arith) (omega arith)

abbrev head_or : List ℕ → ℕ
head_or [] = 0
head_or (x ∷ xs) = x

-- Slots tagged with their positions are counted to the end.
pub tagged_from-span :
    (tags : List ℕ) (start n : ℕ)
    → span ring_frames 0 tags start n ≡ upto start n
    → tagged_from tags start n ≡ n
unfolding tagged_from
tagged_from-span tags start zero h = refl
tagged_from-span tags start (suc n) h =
    let here : get_or tags (start % ring_frames) 0 ≡ start = ap head_or h in
    let next : start + 1 ≡ suc start = omega arith in
    rw next (ground (arith, here, tagged_from-span tags (suc start) n (ap (drop 1) h)))

-- The slot of a position in a tagged stretch has its tag.
pub tag_at :
    (tags : List ℕ) (start k n : ℕ)
    → span ring_frames 0 tags start n ≡ upto start n
    → k < n
    → get_or tags ((start + k) % ring_frames) 0 ≡ start + k
tag_at tags start k zero h lt = absurd (omega arith)
tag_at tags start zero (suc n) h lt =
    let same : start + 0 ≡ start = omega arith in rw same (ap head_or h)
tag_at tags start (suc k) (suc n) h lt =
    let same : start + suc k ≡ suc start + k = omega arith in
    rw same (tag_at tags (suc start) k n (ap (drop 1) h) (omega arith))

module _ {F : Type 0} where
  abbrev pub used : Shared F → ℕ
  used s = s.high_water - s.read_cursor

  pub record IsQueue (s : Shared F) : Type 0 where
    pub slots : length s.samples ≡ ring_frames
    pub tag_slots : length s.tags ≡ ring_frames
    pub ordered : s.read_cursor ≤ s.high_water
    pub used_le : used s ≤ ring_frames
    pub high_u64 : s.high_water < 2 ^ 64
    pub tagged : span ring_frames 0 s.tags s.read_cursor (used s) ≡ upto s.read_cursor (used s)
    pub started : s.initialized ≡ false → s.read_cursor ≡ s.high_water

module _ {F : Type 0} (unset : F) where
  -- The frames in the ring, oldest first.
  abbrev pub contents : Shared F → List F
  contents s = span ring_frames unset s.samples s.read_cursor (used s)

  -- What the loop that stores frames leaves behind a stretch of `m` tagged slots from `c` on.
  pub record Stores (s : Shared F) (c m : ℕ) (xs : List F) (t : Shared F) : Type 0 where
    pub same_cursor : t.read_cursor ≡ s.read_cursor
    pub same_high : t.high_water ≡ s.high_water
    pub same_started : t.initialized ≡ s.initialized
    pub same_slots : length t.samples ≡ length s.samples
    pub same_tag_slots : length t.tags ≡ length s.tags
    pub stored :
        span ring_frames unset t.samples c (m + length xs)
        ≡ span ring_frames unset s.samples c m ++ xs
    pub stored_tags :
        span ring_frames 0 t.tags c (m + length xs)
        ≡ span ring_frames 0 s.tags c m ++ upto (c + m) (length xs)

  -- One frame more in front of what the rest of the loop stores.
  after_put :
      (s t : Shared F) (c m : ℕ) (x : F) (xs : List F)
      → length s.samples ≡ ring_frames
      → length s.tags ≡ ring_frames
      → m + length (x ∷ xs) ≤ ring_frames
      → Stores (put_frame s (c + m) x) c (suc m) xs t
      → Stores s c m (x ∷ xs) t
  unfolding put_frame
  after_put s t c m x xs len len' le rest =
      let count : m + suc (length xs) ≡ suc m + length xs = omega arith in
      let position : suc (c + m) ≡ c + suc m = omega arith in
      record {
        same_cursor = rest.same_cursor;
        same_high = rest.same_high;
        same_started = rest.same_started;
        same_slots = rest.same_slots ∙ length-set s.samples ((c + m) % ring_frames) x;
        same_tag_slots = rest.same_tag_slots ∙ length-set s.tags ((c + m) % ring_frames) (c + m);
        stored =
            ap (span ring_frames unset t.samples c) count
            ∙ rest.stored
            ∙ ap (λ l. l ++ xs)
                (span-set ring_frames unset s.samples c m x (omega arith) (omega arith))
            ∙ append_assoc (span ring_frames unset s.samples c m) (x ∷ []) xs;
        stored_tags =
            ap (span ring_frames 0 t.tags c) count
            ∙ rest.stored_tags
            ∙ ap (λ l. l ++ upto (c + suc m) (length xs))
                (span-set ring_frames 0 s.tags c m (c + m) (omega arith) (omega arith))
            ∙ append_assoc (span ring_frames 0 s.tags c m) ((c + m) ∷ [])
                (upto (c + suc m) (length xs))
            ∙ ap (λ p. span ring_frames 0 s.tags c m ++ ((c + m) ∷ upto p (length xs)))
                (sym position);
      }

  pub store_frames-Stores :
      (s : Shared F) (c m : ℕ) (xs : List F)
      → length s.samples ≡ ring_frames
      → length s.tags ≡ ring_frames
      → m + length xs ≤ ring_frames
      → Stores s c m xs (store_frames s (c + m) xs)
  unfolding store_frames
  store_frames-Stores s c m [] len len' le = record {
    same_cursor = refl;
    same_high = refl;
    same_started = refl;
    same_slots = refl;
    same_tag_slots = refl;
    stored =
        ap (span ring_frames unset s.samples c) (omega arith)
        ∙ sym (append-nil (span ring_frames unset s.samples c m));
    stored_tags =
        ap (span ring_frames 0 s.tags c) (omega arith)
        ∙ sym (append-nil (span ring_frames 0 s.tags c m));
  }
  store_frames-Stores s c m (x ∷ xs) len len' le =
      let s1 = put_frame s (c + m) x in
      let next : c + suc m ≡ c + m + 1 = omega arith in
      let rest : Stores s1 c (suc m) xs (store_frames s1 (c + m + 1) xs) =
        subst (λ p. Stores s1 c (suc m) xs (store_frames s1 p xs)) next
          (store_frames-Stores s1 c (suc m) xs
            (unfold put_frame in (length-set s.samples ((c + m) % ring_frames) x ∙ len))
            (unfold put_frame in (length-set s.tags ((c + m) % ring_frames) (c + m) ∙ len'))
            (omega arith)) in
      after_put s (store_frames s1 (c + m + 1) xs) c m x xs len len' le rest
