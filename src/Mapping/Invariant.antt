-- ===== src/Mapping/Invariant.antt =====
-- The invariant of the mapping and its threads (coreaudio/NS6HALMapping.h).
-- Whether a thread is among the counted readers.
use mathlib.Core.Path.{subst}
use numark_ns6_mac_arm.Mapping.{
  outside, counted, Call, withdraw, draining, withdrawn, reader_step, owner_step, publish, by_owner,
  run, Reader, by_reader, Seen, refused, published, start, storing, System, leased, latest, act,
  Owner, Action, loaded, settle_reader, Mapping,
}
use numark_ns6_mac_arm.Prelude.{
  ℕ, ◌+◌, ◌-◌, ◌%◌, ◌^◌, ◌≤◌, ◌<◌, ◌≡◌, refl, sym, ◌∙◌, ◌≢◌, inl, inr, Option, none, some, List, [],
  ◌∷◌, arith, Bool-cases, ltb, ◌==◌, Every, Every-get_or, Every-replicate, Every-set, Every-weaken,
  get_or, length, length-replicate, length-set, set,
}
use numark_ns6_mac_arm.Threads.{Every-inside, inside-replicate, inside_le, inside-set, inside}

abbrev pub weight : Reader → ℕ
weight outside = 0
weight counted = 1
weight (loaded p) = 1
weight (leased p s) = 1
weight refused = 1

pub weight_le : (r : Reader) → weight r ≤ 1
weight_le outside = omega arith
weight_le counted = omega arith
weight_le (loaded p) = omega arith
weight_le (leased p s) = omega arith
weight_le refused = omega arith

-- The memory that a thread uses, and the session that its lease names, agree with the owner: none
-- while there is no mapping, those that are published, and those last published while it drains.
abbrev pub Loads : Owner → Option ℕ → ℕ → Type 0
Loads withdrawn memory p = ⊥
Loads (storing q) memory p = ⊥
Loads published memory p = memory ≡ some p
Loads draining memory p = Unit {0}

abbrev pub Fits : Owner → Option ℕ → ℕ → Reader → Type 0
Fits o memory session outside = Unit {0}
Fits o memory session counted = Unit {0}
Fits o memory session (loaded p) = Loads o memory p
Fits o memory session (leased p s) = Loads o memory p × (s ≡ session)
Fits o memory session refused = Unit {0}

-- What the owner knows of the memory.
abbrev pub Stored : Owner → Option ℕ → Type 0
Stored withdrawn memory = memory ≡ none
Stored (storing p) memory = memory ≡ none
Stored published memory = memory ≢ none
Stored draining memory = memory ≡ none

pub record IsSafe (s : System) : Type 0 where
  pub few : length s.threads < 2 ^ 32
  pub count : s.mapping.readers ≡ inside weight s.threads
  pub stored : Stored s.owner s.mapping.memory
  pub fit : Every (Fits s.owner s.mapping.memory s.mapping.session_id) s.threads

pub start-IsSafe : (n : ℕ) → n < 2 ^ 32 → IsSafe (start n)
unfolding start
start-IsSafe n lt = record {
  few = omega (arith, length-replicate {A = Reader} n outside);
  count = sym (inside-replicate weight n outside refl);
  stored = refl;
  fit = Every-replicate _ n outside tt;
}

-- A thread that fits one owner state fits another that allows what it loads.
refit :
    (o o' : Owner) (memory memory' : Option ℕ) (session session' : ℕ)
    → ((p : ℕ) → Loads o memory p → Loads o' memory' p × (session ≡ session'))
    → (r : Reader) → Fits o memory session r
    → Fits o' memory' session' r
refit o o' memory memory' session session' f outside fits = tt
refit o o' memory memory' session session' f counted fits = tt
refit o o' memory memory' session session' f (loaded p) fits = (f p fits).0
refit o o' memory memory' session session' f (leased p s) fits =
    ((f p fits.0).0, fits.1 ∙ (f p fits.0).1)
refit o o' memory memory' session session' f refused fits = tt

-- A thread outside fits every owner state.
fit_outside :
    (o : Owner) (memory : Option ℕ) (session : ℕ) (r : Reader)
    → weight r ≡ 0
    → Fits o memory session r
fit_outside o memory session outside out = tt
fit_outside o memory session counted out = absurd (omega arith)
fit_outside o memory session (loaded p) out = absurd (omega arith)
fit_outside o memory session (leased p s) out = absurd (omega arith)
fit_outside o memory session refused out = absurd (omega arith)

-- The owner moves, with the threads where they are.
moved :
    (s : System) (o : Owner) (memory : Option ℕ) (session : ℕ)
    → IsSafe s
    → Stored o memory
    → ((p : ℕ)
        → Loads s.owner s.mapping.memory p
        → Loads o memory p × (s.mapping.session_id ≡ session))
    → IsSafe (record {
      mapping = record { memory = memory; session_id = session; readers = s.mapping.readers };
      owner = o;
      threads = s.threads;
    })
moved s o memory session v st f = record {
  few = v.few;
  count = v.count;
  stored = st;
  fit =
      Every-weaken _ _ (refit s.owner o s.mapping.memory memory s.mapping.session_id session f)
        s.threads v.fit;
}

-- What one access of a thread does: it fits the owner again, and the counter follows it.
record Follows (o : Owner) (m : Mapping) (r : Reader) (m' : Mapping) (r' : Reader) : Type 0 where
  same_memory : m'.memory ≡ m.memory
  same_session : m'.session_id ≡ m.session_id
  fits : Fits o m.memory m.session_id r'
  counted_so : m'.readers ≡ (m.readers + weight r' + (2 ^ 32 - weight r)) % 2 ^ 32

seen_when_published :
    (o : Owner) (memory : Option ℕ) (p : ℕ) → Stored o memory → memory ≡ some p → Loads o memory p
seen_when_published withdrawn memory p st e = cc
seen_when_published (storing q) memory p st e = cc
seen_when_published published memory p st e = e
seen_when_published draining memory p st e = tt

counted-Follows :
    (o : Owner) (memory : Option ℕ) (session n : ℕ)
    → n < 2 ^ 32
    → Stored o memory
    → let m : Mapping = record { memory = memory; session_id = session; readers = n } in
      let (m', r') = reader_step m counted (latest m) in Follows o m counted m' r'
unfolding reader_step
counted-Follows o none session n lt st = record {
  same_memory = refl;
  same_session = refl;
  fits = tt;
  counted_so = omega arith;
}
counted-Follows o (some p) session n lt st = record {
  same_memory = refl;
  same_session = refl;
  fits = seen_when_published o (some p) p st refl;
  counted_so = omega arith;
}

reader_step-Follows :
    (o : Owner) (m : Mapping) (r : Reader)
    → m.readers < 2 ^ 32
    → Stored o m.memory
    → Fits o m.memory m.session_id r
    → let (m', r') = reader_step m r (latest m) in Follows o m r m' r'
unfolding reader_step
reader_step-Follows o m outside lt st f = record {
  same_memory = refl;
  same_session = refl;
  fits = tt;
  counted_so = omega arith;
}
reader_step-Follows o m counted lt st f = counted-Follows o m.memory m.session_id m.readers lt st
reader_step-Follows o m (loaded p) lt st f = record {
  same_memory = refl;
  same_session = refl;
  fits = (f, refl);
  counted_so = omega arith;
}
reader_step-Follows o m (leased p s) lt st f = record {
  same_memory = refl;
  same_session = refl;
  fits = tt;
  counted_so = omega arith;
}
reader_step-Follows o m refused lt st f = record {
  same_memory = refl;
  same_session = refl;
  fits = tt;
  counted_so = omega arith;
}

-- A thread that follows leaves the system safe.
settled :
    (s : System) (i : ℕ) (m' : Mapping) (r' : Reader)
    → IsSafe s
    → i < length s.threads
    → Follows s.owner s.mapping (get_or s.threads i outside) m' r'
    → IsSafe (settle_reader s i (m', r'))
settled s i m' r' v lt f =
    let total = inside-set weight s.threads i outside r' lt in
    let len = length-set s.threads i r' in
    let small = inside_le weight weight_le (set s.threads i r') in
    let one = weight_le (get_or s.threads i outside) in
    let few = v.few in
    let count = v.count in
    let now = f.counted_so in
    record {
      few = omega arith;
      count = omega arith;
      stored = rw f.same_memory v.stored;
      fit = rw (f.same_memory, f.same_session) (Every-set _ s.threads i r' v.fit f.fits);
    }

act_reader-IsSafe :
    (s : System) (i : ℕ) → IsSafe s → IsSafe (act s (by_reader i (latest s.mapping)))
unfolding act
act_reader-IsSafe s i v = elim (Bool-cases (ltb i (length s.threads))) [
  | inl lt ↦
      let r = get_or s.threads i outside in
      let small = inside_le weight weight_le s.threads in
      let fits = Every-get_or _ s.threads i outside v.fit tt in
      let follows =
        reader_step-Follows s.owner s.mapping r (omega (arith, small, v.count, v.few)) v.stored
          fits in
      rw lt (
        settled s i (reader_step s.mapping r (latest s.mapping)).0
          (reader_step s.mapping r (latest s.mapping)).1 v (ground arith) follows)
  | inr ge ↦ rw ge v
]

-- An owner that sees no reader finds every thread outside.
drained :
    (m : Mapping) (ts : List Reader)
    → IsSafe (record { mapping = m; owner = draining; threads = ts })
    → m.readers ≡ 0
    → IsSafe (record { mapping = m; owner = withdrawn; threads = ts })
drained m ts v none_in = record {
  few = v.few;
  count = v.count;
  stored = v.stored;
  fit =
      Every-weaken _ _ (fit_outside withdrawn m.memory m.session_id) ts
        (Every-inside weight ts (sym v.count ∙ none_in));
}

act_owner-IsSafe :
    (m : Mapping) (o : Owner) (ts : List Reader) (c : Call)
    → IsSafe (record { mapping = m; owner = o; threads = ts })
    → IsSafe (act (record { mapping = m; owner = o; threads = ts }) (by_owner c (latest m)))
unfolding act owner_step
act_owner-IsSafe m withdrawn ts (publish p s) v =
    moved _ (storing p) m.memory s v v.stored (λ q bad. absurd bad)
act_owner-IsSafe m withdrawn ts withdraw v =
    moved _ draining none m.session_id v refl (λ q bad. absurd bad)
act_owner-IsSafe m (storing p) ts c v =
    moved _ published (some p) m.session_id v (λ e. cc) (λ q bad. absurd bad)
act_owner-IsSafe m published ts (publish p s) v = v
act_owner-IsSafe m published ts withdraw v =
    moved _ draining none m.session_id v refl (λ q seen. (tt, refl))
act_owner-IsSafe m draining ts c v = elim (Bool-cases (m.readers == 0)) [
  | inl e ↦ rw e (drained m ts v (ground arith))
  | inr e ↦ rw e v
]

-- What the loads of an action return.
abbrev pub seen_by : Action → Seen
seen_by (by_owner c seen) = seen
seen_by (by_reader i seen) = seen

-- A run whose loads return what was written last, as under sequential consistency.
abbrev pub IsFresh : System → List Action → Type 0
IsFresh s [] = Unit {0}
IsFresh s (a ∷ later) = (seen_by a ≡ latest s.mapping) × IsFresh (act s a) later

act-IsSafe : (s : System) (a : Action) → seen_by a ≡ latest s.mapping → IsSafe s → IsSafe (act s a)
act-IsSafe s (by_owner c seen) fresh v =
    subst (λ l. IsSafe (act s (by_owner c l))) (sym fresh)
      (act_owner-IsSafe s.mapping s.owner s.threads c v)
act-IsSafe s (by_reader i seen) fresh v =
    subst (λ l. IsSafe (act s (by_reader i l))) (sym fresh) (act_reader-IsSafe s i v)

pub run-IsSafe :
    (s : System) (actions : List Action) → IsFresh s actions → IsSafe s → IsSafe (run s actions)
unfolding run
run-IsSafe s [] fresh v = v
run-IsSafe s (a ∷ later) fresh v = run-IsSafe (act s a) later fresh.1 (act-IsSafe s a fresh.0 v)
