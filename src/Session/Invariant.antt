-- ===== src/Session/Invariant.antt =====
-- The invariant of the session and its callbacks (coreaudio/NS6DeviceSession.h).
use mathlib.Core.Path.{subst}
use numark_ns6_mac_arm.Prelude.{
  ℕ, ◌+◌, ◌-◌, ◌%◌, ◌^◌, ◌≤◌, ◌<◌, ◌≡◌, refl, sym, ◌∙◌, ◌≢◌, inl, inr, not, ◌&&◌, List, [], ◌∷◌,
  arith, Bool-cases, ltb, ◌==◌, Every, Every-get_or, Every-replicate, Every-set, Every-weaken,
  get_or, length, length-replicate, length-set, set,
}
use numark_ns6_mac_arm.Session.{
  System, latest, run, Seen, outside, Action, refused, counted, act, start, is_current, begin_step,
  idle, callback_step, settle_callback, DeviceSession, Callback, Starter, by_callback, waiting,
  installing, running, by_service, max_attempts,
}
use numark_ns6_mac_arm.Threads.{inside-set, inside, inside-replicate, Every-inside, inside_le}

abbrev pub weight : Callback → ℕ
weight outside = 0
weight (counted id) = 1
weight (running id) = 1
weight refused = 1

pub weight_le : (c : Callback) → weight c ≤ 1
weight_le outside = omega arith
weight_le (counted id) = omega arith
weight_le (running id) = omega arith
weight_le refused = omega arith

-- Whether a callback of session `id` may run: the active one, the one that `begin` has taken and may
-- give back, and none while the new one is stored.
abbrev pub Admits : Starter → ℕ → ℕ → Type 0
Admits idle active id = id ≡ active
Admits (waiting new previous attempt) active id = id ≡ previous
Admits (installing new) active id = ⊥

abbrev pub Fits : Starter → ℕ → Callback → Type 0
Fits b active outside = Unit {0}
Fits b active (counted id) = Unit {0}
Fits b active (running id) = Admits b active id
Fits b active refused = Unit {0}

-- While `begin` is under way no session is active.
abbrev pub Stored : Starter → ℕ → Type 0
Stored idle active = Unit {0}
Stored (waiting new previous attempt) active = active ≡ 0
Stored (installing new) active = active ≡ 0

pub record IsSafe (s : System) : Type 0 where
  pub few : length s.callbacks < 2 ^ 32
  pub count : s.session.callbacks_in_flight ≡ inside weight s.callbacks
  pub stored : Stored s.starter s.session.active_id
  pub fit : Every (Fits s.starter s.session.active_id) s.callbacks

pub start-IsSafe : (n : ℕ) → n < 2 ^ 32 → IsSafe (start n)
unfolding start
start-IsSafe n lt = record {
  few = omega (arith, length-replicate {A = Callback} n outside);
  count = sym (inside-replicate weight n outside refl);
  stored = tt;
  fit = Every-replicate _ n outside tt;
}

refit :
    (b b' : Starter) (active active' : ℕ)
    → ((id : ℕ) → Admits b active id → Admits b' active' id)
    → (c : Callback) → Fits b active c
    → Fits b' active' c
refit b b' active active' f outside fits = tt
refit b b' active active' f (counted id) fits = tt
refit b b' active active' f (running id) fits = f id fits
refit b b' active active' f refused fits = tt

fit_outside : (b : Starter) (active : ℕ) (c : Callback) → weight c ≡ 0 → Fits b active c
fit_outside b active outside out = tt
fit_outside b active (counted id) out = absurd (omega arith)
fit_outside b active (running id) out = absurd (omega arith)
fit_outside b active refused out = absurd (omega arith)

-- The service moves, with the callbacks where they are.
moved :
    (s : System) (b : Starter) (active : ℕ)
    → IsSafe s
    → Stored b active
    → Every (Fits b active) s.callbacks
    → IsSafe (record s { session = record (s.session) { active_id = active }; starter = b })
moved s b active v st fit = record { few = v.few; count = v.count; stored = st; fit = fit }

-- What one access of a callback does: it fits the service again, and the counter follows it.
record Follows (b : Starter) (d : DeviceSession) (c : Callback) (d' : DeviceSession) (c' : Callback)
    : Type 0 where
  same_id : d'.active_id ≡ d.active_id
  fits : Fits b d.active_id c'
  counted_so :
      d'.callbacks_in_flight ≡ (d.callbacks_in_flight + weight c' + (2 ^ 32 - weight c)) % 2 ^ 32

admitted :
    (b : Starter) (active id : ℕ) → Stored b active → id ≢ 0 → active ≡ id → Admits b active id
admitted idle active id st ne e = sym e
admitted (waiting new previous attempt) active id st ne e = absurd (ne (sym e ∙ st))
admitted (installing new) active id st ne e = absurd (ne (sym e ∙ st))

callback_step-Follows :
    (b : Starter) (d : DeviceSession) (c : Callback) (id : ℕ)
    → d.callbacks_in_flight < 2 ^ 32
    → Stored b d.active_id
    → Fits b d.active_id c
    → let (d', c') = callback_step d c id (latest d) in Follows b d c d' c'
unfolding callback_step is_current
callback_step-Follows b d outside id lt st f = elim (Bool-cases (id == 0)) [
  | inl e ↦ rw e (record { same_id = refl; fits = tt; counted_so = omega arith })
  | inr e ↦ rw e (record { same_id = refl; fits = tt; counted_so = omega arith })
]
callback_step-Follows b d (counted own) id lt st f =
    elim (Bool-cases (not (own == 0) && d.active_id == own)) [
      | inl e ↦ rw e (record {
        same_id = refl;
        fits = admitted b d.active_id own st (ground arith) (ground arith);
        counted_so = omega arith;
      })
      | inr e ↦ rw e (record { same_id = refl; fits = tt; counted_so = omega arith })
    ]
callback_step-Follows b d (running own) id lt st f = record {
  same_id = refl;
  fits = tt;
  counted_so = omega arith;
}
callback_step-Follows b d refused id lt st f = record {
  same_id = refl;
  fits = tt;
  counted_so = omega arith;
}

-- A callback that follows leaves the system safe.
settled :
    (s : System) (i : ℕ) (d' : DeviceSession) (c' : Callback)
    → IsSafe s
    → i < length s.callbacks
    → Follows s.starter s.session (get_or s.callbacks i outside) d' c'
    → IsSafe (settle_callback s i (d', c'))
settled s i d' c' v lt f =
    let total = inside-set weight s.callbacks i outside c' lt in
    let len = length-set s.callbacks i c' in
    let small = inside_le weight weight_le (set s.callbacks i c') in
    let one = weight_le (get_or s.callbacks i outside) in
    let few = v.few in
    let count = v.count in
    let now = f.counted_so in
    record {
      few = omega arith;
      count = omega arith;
      stored = rw f.same_id v.stored;
      fit = rw f.same_id (Every-set _ s.callbacks i c' v.fit f.fits);
    }

act_callback-IsSafe :
    (s : System) (i id : ℕ) → IsSafe s → IsSafe (act s (by_callback i id (latest s.session)))
unfolding act
act_callback-IsSafe s i id v = elim (Bool-cases (ltb i (length s.callbacks))) [
  | inl lt ↦
      let c = get_or s.callbacks i outside in
      let small = inside_le weight weight_le s.callbacks in
      let fits = Every-get_or _ s.callbacks i outside v.fit tt in
      let follows =
        callback_step-Follows s.starter s.session c id (omega (arith, small, v.count, v.few))
          v.stored fits in
      let next = callback_step s.session c id (latest s.session) in
      rw lt (settled s i next.0 next.1 v (ground arith) follows)
  | inr ge ↦ rw ge v
]

-- The service that sees no callback finds every thread outside.
emptied :
    (b : Starter) (active : ℕ) (s : System)
    → IsSafe s
    → s.session.callbacks_in_flight ≡ 0
    → Every (Fits b active) s.callbacks
emptied b active s v none_in =
    Every-weaken _ _ (fit_outside b active) s.callbacks
      (Every-inside weight s.callbacks (sym v.count ∙ none_in))

-- The turns of the loop of `begin`.
wait_turn :
    (d : DeviceSession) (own previous attempt id : ℕ) (cs : List Callback)
    → let s : System = record {
      session = d;
      starter = waiting own previous attempt;
      callbacks = cs;
    } in
      IsSafe s → IsSafe (act s (by_service id (latest d)))
unfolding act begin_step
wait_turn d own previous attempt id cs v = elim (Bool-cases (ltb attempt max_attempts)) [
  | inl more ↦ elim (Bool-cases (d.callbacks_in_flight == 0)) [
    | inl e ↦
        rw (more, e)
          (moved _ (installing own) d.active_id v v.stored
            (emptied (installing own) d.active_id _ v (ground arith)))
    | inr e ↦
        rw (more, e) (moved _ (waiting own previous (attempt + 1)) d.active_id v v.stored v.fit)
  ]
  | inr out ↦ rw out (
      moved _ idle previous v tt (
        Every-weaken _ _ (refit (waiting own previous attempt) idle d.active_id previous (λ i e. e))
          cs v.fit))
]

act_service-IsSafe :
    (d : DeviceSession) (b : Starter) (cs : List Callback) (id : ℕ)
    → IsSafe (record { session = d; starter = b; callbacks = cs })
    → IsSafe (act (record { session = d; starter = b; callbacks = cs }) (by_service id (latest d)))
unfolding act begin_step
act_service-IsSafe d idle cs id v = elim (Bool-cases (id == 0)) [
  | inl e ↦ rw e v
  | inr e ↦ rw e (
      moved _ (waiting id d.active_id 0) 0 v refl (
        Every-weaken _ _ (refit idle (waiting id d.active_id 0) d.active_id 0 (λ i e. e)) cs v.fit))
]
act_service-IsSafe d (waiting own previous attempt) cs id v =
    wait_turn d own previous attempt id cs v
act_service-IsSafe d (installing own) cs id v =
    moved _ idle own v tt (
      Every-weaken _ _ (refit (installing own) idle d.active_id own (λ i bad. absurd bad)) cs v.fit)

-- What the load of an action returns.
abbrev pub seen_by : Action → Seen
seen_by (by_service id seen) = seen
seen_by (by_callback i id seen) = seen

-- A run whose loads return what was written last, as under sequential consistency.
abbrev pub IsFresh : System → List Action → Type 0
IsFresh s [] = Unit {0}
IsFresh s (a ∷ later) = (seen_by a ≡ latest s.session) × IsFresh (act s a) later

act-IsSafe : (s : System) (a : Action) → seen_by a ≡ latest s.session → IsSafe s → IsSafe (act s a)
act-IsSafe s (by_service id seen) fresh v =
    subst (λ l. IsSafe (act s (by_service id l))) (sym fresh)
      (act_service-IsSafe s.session s.starter s.callbacks id v)
act-IsSafe s (by_callback i id seen) fresh v =
    subst (λ l. IsSafe (act s (by_callback i id l))) (sym fresh) (act_callback-IsSafe s i id v)

pub run-IsSafe :
    (s : System) (actions : List Action) → IsFresh s actions → IsSafe s → IsSafe (run s actions)
unfolding run
run-IsSafe s [] fresh v = v
run-IsSafe s (a ∷ later) fresh v = run-IsSafe (act s a) later fresh.1 (act-IsSafe s a fresh.0 v)
