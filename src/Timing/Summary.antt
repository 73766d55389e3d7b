-- ===== src/Timing/Summary.antt =====
-- What a snapshot of the statistics says (coreaudio/NS6USBTiming.c).
use mathlib.Core.Path.{subst}
use numark_ns6_mac_arm.Prelude.{
  ℕ, ◌+◌, ◌-◌, ◌%◌, ◌^◌, ◌<◌, min, max, ◌≡◌, refl, sym, ap, inl, inr, true, false, not, ◌||◌, List,
  [], ◌∷◌, arith, Bool-cases, if◌then◌else◌, leb, ◌==◌, length,
}
use numark_ns6_mac_arm.Timing.{
  take_snapshot, Timing, update_max, update_min, record_duration, record_timestamp,
}

-- The intervals between timestamps, from the last one before them. A timestamp of 0 does not count,
-- and one that is not later than the one before starts anew.
abbrev pub gaps : ℕ → List ℕ → List ℕ
gaps last [] = []
gaps last (t ∷ ts) =
    if t == 0
    then gaps last ts
    else if last == 0 || leb t last
    then gaps t ts
    else ((t - last) ∷ gaps t ts)

abbrev pub sum_of : List ℕ → ℕ
sum_of [] = 0
sum_of (d ∷ ds) = d + sum_of ds

-- The shortest and the longest; of no interval, what `init` holds.
abbrev pub least : List ℕ → ℕ
least [] = 2 ^ 64 - 1
least (d ∷ ds) = min d (least ds)

abbrev pub greatest : List ℕ → ℕ
greatest [] = 0
greatest (d ∷ ds) = max d (greatest ds)

least_le : (ds : List ℕ) → least ds < 2 ^ 64
least_le [] = omega arith
least_le (d ∷ ds) = omega (arith, least_le ds)

unfoldable pub records : Timing → List ℕ → Timing
records t [] = t
records t (x ∷ xs) = records (record_timestamp t x) xs

-- No interval has been recorded since the last snapshot.
abbrev pub IsFresh : Timing → Type 0
IsFresh t = (t.intervals ≡ 0) × (t.total_ns ≡ 0) × (t.min_ns ≡ 2 ^ 64 - 1) × (t.max_ns ≡ 0)

abbrev Adds : Timing → Timing → List ℕ → Type 0
Adds t t' ds =
    (t'.intervals ≡ (t.intervals + length ds) % 2 ^ 64)
    × (t'.total_ns ≡ (t.total_ns + sum_of ds) % 2 ^ 64)
    × (t'.min_ns ≡ min t.min_ns (least ds))
    × (t'.max_ns ≡ max t.max_ns (greatest ds))

record IsWord (t : Timing) : Type 0 where
  intervals_lt : t.intervals < 2 ^ 64
  total_lt : t.total_ns < 2 ^ 64
  min_lt : t.min_ns < 2 ^ 64

record_duration-IsWord : (t : Timing) (d : ℕ) → IsWord t → IsWord (record_duration t d)
unfolding record_duration update_min update_max
record_duration-IsWord t d w = ground arith

add_first :
    (t : Timing) (d : ℕ) (xs : List ℕ)
    → Adds (record_duration t d) (records (record_duration t d) xs) (gaps t.last_ns xs)
    → Adds t (records (record_duration t d) xs) (d ∷ gaps t.last_ns xs)
unfolding record_duration update_min update_max
add_first t d xs h = ground (arith, h)

last_duration :
    (t : Timing) (d : ℕ) (xs : List ℕ)
    → Adds
        (record_duration t d)
        (records (record_duration t d) xs)
        (gaps (record_duration t d).last_ns xs)
    → Adds (record_duration t d) (records (record_duration t d) xs) (gaps t.last_ns xs)
unfolding record_duration
last_duration t d xs h = h

stamp_ignored : (t : Timing) (x : ℕ) → (x == 0) ≡ true → record_timestamp t x ≡ t
unfolding record_timestamp
stamp_ignored t x e = rw e

stamp_stale :
    (t : Timing) (x : ℕ)
    → (x == 0) ≡ false
    → (t.last_ns == 0 || leb x t.last_ns) ≡ true
    → record_timestamp t x ≡ record t { last_ns = x }
unfolding record_timestamp
stamp_stale t x e stale = rw (e, stale)

stamp_later :
    (t : Timing) (x : ℕ)
    → (x == 0) ≡ false
    → (t.last_ns == 0 || leb x t.last_ns) ≡ false
    → record_timestamp t x ≡ record_duration (record t { last_ns = x }) (x - t.last_ns)
unfolding record_timestamp
stamp_later t x e later = rw (e, later)

Adds-step :
    (t t' : Timing) (x : ℕ) (xs ds ds' : List ℕ)
    → record_timestamp t x ≡ t'
    → ds ≡ ds'
    → Adds t (records t' xs) ds'
    → Adds t (records t (x ∷ xs)) ds
unfolding records
Adds-step t t' x xs ds ds' p q h =
    subst (λ r. Adds t (records r xs) ds) (sym p) (subst (λ d. Adds t (records t' xs) d) (sym q) h)

records-Adds : (t : Timing) (xs : List ℕ) → IsWord t → Adds t (records t xs) (gaps t.last_ns xs)
unfolding records
records-Adds t [] w =
    let a = w.intervals_lt in
    let b = w.total_lt in let c = w.min_lt in (omega arith, omega arith, omega arith, omega arith)
records-Adds t (x ∷ xs) w = elim (Bool-cases (x == 0)) [
  | inl e ↦
      Adds-step t t x xs _ (gaps t.last_ns xs) (stamp_ignored t x e) (rw e) (records-Adds t xs w)
  | inr e ↦
      let exchanged : Timing = record t { last_ns = x } in
      let w' : IsWord exchanged = record {
        intervals_lt = w.intervals_lt;
        total_lt = w.total_lt;
        min_lt = w.min_lt;
      } in
      let d = x - t.last_ns in
      elim (Bool-cases (t.last_ns == 0 || leb x t.last_ns)) [
        | inl stale ↦
            Adds-step t exchanged x xs _ (gaps x xs) (stamp_stale t x e stale) (rw (e, stale))
              (records-Adds exchanged xs w')
        | inr later ↦
            Adds-step t (record_duration exchanged d) x xs _ (d ∷ gaps x xs)
              (stamp_later t x e later) (rw (e, later))
              (add_first exchanged d xs (
                last_duration exchanged d xs (
                  records-Adds (record_duration exchanged d) xs
                    (record_duration-IsWord exchanged d w'))))
      ]
]

-- From a fresh start a snapshot tells the number and the sum of the intervals between the timestamps
-- that were recorded, the shortest and the longest, both counters up to their wrap-around; and it
-- leaves a fresh start behind that knows the last timestamp.
pub take_snapshot_lem :
    (t : Timing) (timestamps : List ℕ)
    → IsFresh t
    → let t' = records t timestamps in
      let (some_seen, s, after) = take_snapshot t' in
      let ds = gaps t.last_ns timestamps in
      (s.intervals ≡ length ds % 2 ^ 64)
      × (s.total_ns ≡ sum_of ds % 2 ^ 64)
      × (s.min_ns ≡ least ds)
      × (s.max_ns ≡ greatest ds)
      × (some_seen ≡ not (length ds % 2 ^ 64 == 0))
      × IsFresh after
      × (after.last_ns ≡ t'.last_ns)
unfolding take_snapshot
take_snapshot_lem t ts f =
    let w : IsWord t = record {
      intervals_lt = omega arith;
      total_lt = omega arith;
      min_lt = omega arith;
    } in
    let (i, total, lo, hi) = records-Adds t ts w in
    let le = least_le (gaps t.last_ns ts) in
    let count : (records t ts).intervals ≡ length (gaps t.last_ns ts) % 2 ^ 64 = omega arith in
    (
      count,
      omega arith,
      omega arith,
      omega arith,
      ap (λ n. not (n == 0)) count,
      (refl, refl, refl, refl),
      refl,
    )
