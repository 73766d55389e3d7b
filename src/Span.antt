-- ===== src/Span.antt =====
-- Rings indexed by positions that only grow: position `p` lies in slot `p % cap`. The capture ring,
-- the queue of feedback reports and the playback ring are of this kind.
use mathlib.Core.Path.{subst}
use native.Mathlib.Decide.{dec_lt}
use native.Mathlib.Nat.{mod-eq_of_lt, mod-add-mod, mod-eq-sub-mod, mod-lt}
use numark_ns6_mac_arm.Prelude.{
  ℕ, zero, suc, ◌+◌, ◌-◌, ◌%◌, ◌≤◌, ◌<◌, ◌≡◌, refl, sym, ap, ap₂, ◌∙◌, ◌≢◌, List, [], ◌∷◌, ◌++◌,
  arith, drop, get_or, get_or-set_ne, get_or-set_self, length, set, take,
}

module _ {ℓ} {A : Type ℓ} (cap : ℕ) (d : A) where
  -- The `n` elements at the positions from `h` on. `d` stands for a slot out of range.
  abbrev pub span : List A → ℕ → ℕ → List A
  span buf h zero = []
  span buf h (suc n) = get_or buf (h % cap) d ∷ span buf (suc h) n

  pub get_or-span :
      (buf : List A) (h n k : ℕ) → k < n → get_or (span buf h n) k d ≡ get_or buf ((h + k) % cap) d
  get_or-span buf h zero k lt = absurd (omega arith)
  get_or-span buf h (suc n) zero lt = let same : h + 0 ≡ h = omega arith in rw same refl
  get_or-span buf h (suc n) (suc k) lt =
      let e : h + suc k ≡ suc h + k = omega arith in
      rw e (get_or-span buf (suc h) n k (omega arith))

  pub length-span : (buf : List A) (h n : ℕ) → length (span buf h n) ≡ n
  length-span buf h zero = refl
  length-span buf h (suc n) = ap suc (length-span buf (suc h) n)

-- Two positions less than `cap` apart have different slots.
slot_ne_add : (cap a k : ℕ) → 0 < k → k < cap → a % cap ≢ (a + k) % cap
slot_ne_add cap a k hp lt = elim (dec_lt (a % cap + k) cap) [
  | yes p ↦ omega (arith, mod-add-mod a cap k, mod-eq_of_lt p)
  | no p ↦ omega (
    arith,
    mod-add-mod a cap k,
    mod-eq-sub-mod {n = a % cap + k} {m = cap} (omega arith),
    mod-eq_of_lt {n = a % cap + k - cap} {m = cap} (omega arith),
  )
]

pub slot_ne : (cap a b : ℕ) → a < b → b < a + cap → a % cap ≢ b % cap
slot_ne cap a b lt le =
    let e : a + (b - a) ≡ b = omega arith in
    rw e at (slot_ne_add cap a (b - a) (omega arith) (omega arith))

module _ {ℓ} {A : Type ℓ} (cap : ℕ) (d : A) where
  -- A write outside the positions leaves them alone.
  span-set_ne :
      (buf : List A) (h n p : ℕ) (v : A)
      → h + n ≤ p
      → p < h + cap
      → span cap d (set buf (p % cap) v) h n ≡ span cap d buf h n
  span-set_ne buf h zero p v le lt = refl
  span-set_ne buf h (suc n) p v le lt =
      ap₂ ◌∷◌ (get_or-set_ne buf v d (λ e. slot_ne cap h p (omega arith) lt (sym e)))
        (span-set_ne buf (suc h) n p v (omega arith) (omega arith))

  -- A write just past the positions appends.
  pub span-set :
      (buf : List A) (h n : ℕ) (v : A)
      → cap ≤ length buf
      → n < cap
      → span cap d (set buf ((h + n) % cap) v) h (suc n) ≡ span cap d buf h n ++ (v ∷ [])
  span-set buf h zero v len lt =
      let e : h + 0 ≡ h = omega arith in
      let room : h % cap < length buf = omega (arith, mod-lt h {m = cap} lt) in
      rw (e, get_or-set_self buf (h % cap) v d room)
  span-set buf h (suc n) v len lt =
      let e : h + suc n ≡ suc h + n = omega arith in
      ap₂ ◌∷◌
        (get_or-set_ne buf v d (λ q. slot_ne cap h (h + suc n) (omega arith) (omega arith) (sym q)))
        (subst
          (λ p.
            span cap d (set buf (p % cap) v) (suc h) (suc n) ≡ span cap d buf (suc h) n ++ (v ∷ []))
          (sym e) (span-set buf (suc h) n v len (omega arith)))

  -- A write within the positions is a write in the stretch.
  pub span-set_at :
      (buf : List A) (h n k : ℕ) (v : A)
      → cap ≤ length buf
      → k < n
      → n ≤ cap
      → span cap d (set buf ((h + k) % cap) v) h n ≡ set (span cap d buf h n) k v
  span-set_at buf h zero k v len lt le = absurd (omega arith)
  span-set_at buf h (suc n) zero v len lt le =
      let same : h + 0 ≡ h = omega arith in
      let room : h % cap < length buf = omega (arith, mod-lt h {m = cap} (omega arith)) in
      let round_once : (h + cap) % cap ≡ h % cap =
        mod-eq-sub-mod {n = h + cap} {m = cap} (omega arith) ∙ ap (λ k. k % cap) (omega arith) in
      subst (λ m. span cap d (set buf (m % cap) v) h (suc n) ≡ set (span cap d buf h (suc n)) 0 v)
        (sym same)
        (ap₂ ◌∷◌ (get_or-set_self buf (h % cap) v d room) (
          subst (λ slot. span cap d (set buf slot v) (suc h) n ≡ span cap d buf (suc h) n)
            round_once (span-set_ne buf (suc h) n (h + cap) v (omega arith) (omega arith))))
  span-set_at buf h (suc n) (suc k) v len lt le =
      let e : suc h + k ≡ h + suc k = omega arith in
      ap₂ ◌∷◌
        (get_or-set_ne buf v d (λ q. slot_ne cap h (h + suc k) (omega arith) (omega arith) (sym q)))
        (subst
          (λ p. span cap d (set buf (p % cap) v) (suc h) n ≡ set (span cap d buf (suc h) n) k v) e
          (span-set_at buf (suc h) n k v len (omega arith) (omega arith)))

  -- Two adjacent stretches.
  pub span-add :
      (buf : List A) (h m n : ℕ)
      → span cap d buf h (m + n) ≡ span cap d buf h m ++ span cap d buf (h + m) n
  span-add buf h zero n = ap₂ (span cap d buf) (omega arith) (omega arith)
  span-add buf h (suc m) n =
      let e : suc m + n ≡ suc (m + n) = omega arith in
      let f : h + suc m ≡ suc h + m = omega arith in rw (e, f, span-add buf (suc h) m n)

  -- The stretch depends on its first slot alone.
  pub span-mod :
      (buf : List A) (a b n : ℕ) → a % cap ≡ b % cap → span cap d buf a n ≡ span cap d buf b n
  span-mod buf a b zero e = refl
  span-mod buf a b (suc n) e =
      let next : suc a % cap ≡ suc b % cap =
        ap (λ k. k % cap) (omega arith)
        ∙ sym (mod-add-mod a cap 1)
        ∙ ap (λ k. (k + 1) % cap) e
        ∙ mod-add-mod b cap 1
        ∙ ap (λ k. k % cap) (omega arith) in
      cc (e, span-mod buf (suc a) (suc b) n next)

-- Stretches cut at the front.
module _ {ℓ} {A : Type ℓ} (cap : ℕ) (d : A) where
  pub take-span :
      (buf : List A) (h k n : ℕ) → k ≤ n → take k (span cap d buf h n) ≡ span cap d buf h k
  take-span buf h zero n le = refl
  take-span buf h (suc k) zero le = absurd (omega arith)
  take-span buf h (suc k) (suc n) le = cc (take-span buf (suc h) k n (omega arith))

  pub drop-span :
      (buf : List A) (h k n : ℕ)
      → k ≤ n
      → drop k (span cap d buf h n) ≡ span cap d buf (h + k) (n - k)
  drop-span buf h zero n le = ap₂ (span cap d buf) (omega arith) (omega arith)
  drop-span buf h (suc k) zero le = absurd (omega arith)
  drop-span buf h (suc k) (suc n) le =
      drop-span buf (suc h) k n (omega arith) ∙ ap₂ (span cap d buf) (omega arith) (omega arith)

-- A ring of which every slot is in use: a write over the oldest element.
module _ {ℓ} {A : Type ℓ} (d : A) where
  pub span-set_full :
      (buf : List A) (h n : ℕ) (v : A)
      → suc n ≤ length buf
      → span (suc n) d (set buf (h % suc n) v) (suc h) (suc n)
        ≡ span (suc n) d buf (suc h) n ++ (v ∷ [])
  span-set_full buf h n v le =
      let wraps : (suc h + n) % suc n ≡ h % suc n =
        mod-eq-sub-mod {n = suc h + n} {m = suc n} (omega arith)
        ∙ ap (λ k. k % suc n) (omega arith) in
      subst
        (λ s.
          span (suc n) d (set buf s v) (suc h) (suc n) ≡ span (suc n) d buf (suc h) n ++ (v ∷ []))
        wraps (span-set (suc n) d buf (suc h) n v le (omega arith))
