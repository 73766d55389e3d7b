-- ===== src/Metrics/Table.antt =====
-- The slots of the I/O statistics (coreaudio/NS6IOMetrics.c) as a map from clients to counters.
use mathlib.Core.Path.{subst}
use native.Mathlib.Decide.{ℕ_discrete}
use numark_ns6_mac_arm.Metrics.{
  init, with_slot, time_call, max_clients, count_call, record_output_timed, record_timed, unused,
  store_output, ClientMetrics,
}
use numark_ns6_mac_arm.Metrics.Counting.{calls-Counted, Counted}
use numark_ns6_mac_arm.Prelude.{
  ℕ, zero, suc, ◌+◌, ◌^◌, ◌<◌, ◌≡◌, refl, sym, ap, ◌∙◌, ◌≢◌, ◌⊎◌, inl, inr, Bool, true, false, ◌||◌,
  Option, none, some, List, [], ◌∷◌, arith, Bool-cases, if◌then◌else◌, ◌==◌, Every, Every-replicate,
  replicate,
}

-- The slot of a client, as `client_slot` looks for it.
unfoldable pub find : List ClientMetrics → ℕ → Option ClientMetrics
find [] client_id = none
find (s ∷ ss) client_id =
    let rest = find ss client_id in
    if s.client_key == client_id + 1 then some s else if s.client_key == 0 then none else rest

-- Whether the client has a slot or can get one.
unfoldable pub has_room : List ClientMetrics → ℕ → Bool
has_room [] client_id = false
has_room (s ∷ ss) client_id =
    let rest = has_room ss client_id in s.client_key == client_id + 1 || s.client_key == 0 || rest

-- A free slot holds no counts, and every slot behind it is free too.
abbrev pub IsTable : List ClientMetrics → Type 0
IsTable [] = Unit {0}
IsTable (s ∷ ss) = (s.client_key ≡ 0 → (s ≡ unused) × Every (λ t. t.client_key ≡ 0) ss) × IsTable ss

-- The slot that the first call of a client gets.
abbrev pub blank : ℕ → ClientMetrics
blank client_id = record unused { client_key = client_id + 1 }

abbrev pub or_blank : Option ClientMetrics → ℕ → ClientMetrics
or_blank (some s) client_id = s
or_blank none client_id = blank client_id

abbrev KeepsKey : (ClientMetrics → ClientMetrics) → Type 0
KeepsKey f = (s : ClientMetrics) → (f s).client_key ≡ s.client_key

-- The loops at a slot with the key, at a free one, and at one of another client.
module _ (s : ClientMetrics) (ss : List ClientMetrics) (client_id : ℕ) where
  pub find-mine : s.client_key ≡ client_id + 1 → find (s ∷ ss) client_id ≡ some s
  unfolding find
  find-mine e = ground arith

  pub find-free : s.client_key ≡ 0 → find (s ∷ ss) client_id ≡ none
  unfolding find
  find-free e = ground arith

  pub find-taken :
      s.client_key ≢ client_id + 1 → s.client_key ≢ 0 → find (s ∷ ss) client_id ≡ find ss client_id
  unfolding find
  find-taken other taken = ground arith

  has_room-some :
      s.client_key ≡ client_id + 1 ⊎ (s.client_key ≡ 0) → has_room (s ∷ ss) client_id ≡ true
  unfolding has_room
  has_room-some h = ground (arith, h)

  has_room-taken :
      s.client_key ≢ client_id + 1
      → s.client_key ≢ 0
      → has_room (s ∷ ss) client_id ≡ has_room ss client_id
  unfolding has_room
  has_room-taken other taken = ground arith

  module _ (f : ClientMetrics → ClientMetrics) where
    with_slot-mine : s.client_key ≡ client_id + 1 → with_slot (client_id + 1) f (s ∷ ss) ≡ f s ∷ ss
    unfolding with_slot
    with_slot-mine e = ground arith

    with_slot-free :
        s.client_key ≡ 0
        → with_slot (client_id + 1) f (s ∷ ss) ≡ f (record s { client_key = client_id + 1 }) ∷ ss
    unfolding with_slot
    with_slot-free e = ground arith

    with_slot-taken :
        s.client_key ≢ client_id + 1
        → s.client_key ≢ 0
        → with_slot (client_id + 1) f (s ∷ ss) ≡ s ∷ with_slot (client_id + 1) f ss
    unfolding with_slot
    with_slot-taken other taken = ground arith

find-all_free :
    (ss : List ClientMetrics) (client_id : ℕ)
    → Every (λ t. t.client_key ≡ 0) ss
    → find ss client_id ≡ none
find-all_free [] client_id all = unfold find in refl
find-all_free (s ∷ ss) client_id all = find-free s ss client_id all.0

-- The first slots decide alike, and the rest is the same to the client.
find-cons :
    (s : ClientMetrics) (ss ts : List ClientMetrics) (client_id : ℕ)
    → find ss client_id ≡ find ts client_id
    → find (s ∷ ss) client_id ≡ find (s ∷ ts) client_id
unfolding find
find-cons s ss ts client_id e = rw e refl

module _ (client_id : ℕ) (f : ClientMetrics → ClientMetrics) (keeps : KeepsKey f) where
  find-with_slot :
      (m : List ClientMetrics)
      → IsTable m
      → find (with_slot (client_id + 1) f m) client_id
        ≡ (if has_room m client_id then some (f (or_blank (find m client_id) client_id)) else none)
  find-with_slot [] valid = unfold find with_slot has_room in refl
  find-with_slot (s ∷ ss) valid = elim (ℕ_discrete s.client_key (client_id + 1)) [
    | yes mine ↦
        rw
          (
            with_slot-mine s ss client_id f mine,
            has_room-some s ss client_id (inl mine),
            find-mine s ss client_id mine,
          )
          (find-mine (f s) ss client_id (keeps s ∙ mine))
    | no other ↦ elim (ℕ_discrete s.client_key 0) [
      | yes free ↦
          rw
            (
              with_slot-free s ss client_id f free,
              has_room-some s ss client_id (inr free),
              find-free s ss client_id free,
            )
            (find-mine (f (record s { client_key = client_id + 1 })) ss client_id
                (keeps (record s { client_key = client_id + 1 }))
              ∙ ap (λ u. some (f (record u { client_key = client_id + 1 }))) (valid.0 free).0)
      | no taken ↦
          rw
            (
              with_slot-taken s ss client_id f other taken,
              has_room-taken s ss client_id other taken,
              find-taken s ss client_id other taken,
            )
            (find-taken s (with_slot (client_id + 1) f ss) client_id other taken
              ∙ find-with_slot ss valid.1)
    ]
  ]

  find-with_slot_ne :
      (m : List ClientMetrics) (other_id : ℕ)
      → IsTable m
      → other_id ≢ client_id
      → find (with_slot (client_id + 1) f m) other_id ≡ find m other_id
  find-with_slot_ne [] other_id valid ne = unfold find with_slot in refl
  find-with_slot_ne (s ∷ ss) other_id valid ne = elim (ℕ_discrete s.client_key (client_id + 1)) [
    | yes mine ↦ rw (with_slot-mine s ss client_id f mine) (
        find-taken (f s) ss other_id (omega (arith, keeps s)) (omega (arith, keeps s))
        ∙ sym (find-taken s ss other_id (omega arith) (omega arith)))
    | no other ↦ elim (ℕ_discrete s.client_key 0) [
      | yes free ↦
          let mine = record s { client_key = client_id + 1 } in
          rw (with_slot-free s ss client_id f free, find-free s ss other_id free)
            (find-taken (f mine) ss other_id (omega (arith, keeps mine)) (omega (arith, keeps mine))
              ∙ find-all_free ss other_id (valid.0 free).1)
      | no taken ↦
          rw (with_slot-taken s ss client_id f other taken)
            (find-cons s _ ss other_id (find-with_slot_ne ss other_id valid.1 ne))
    ]
  ]

  with_slot-IsTable : (m : List ClientMetrics) → IsTable m → IsTable (with_slot (client_id + 1) f m)
  with_slot-IsTable [] valid = unfold with_slot in tt
  with_slot-IsTable (s ∷ ss) valid = elim (ℕ_discrete s.client_key (client_id + 1)) [
    | yes mine ↦
        subst IsTable (sym (with_slot-mine s ss client_id f mine))
          ((λ z. absurd (omega (arith, keeps s))), valid.1)
    | no other ↦ elim (ℕ_discrete s.client_key 0) [
      | yes free ↦
          subst IsTable (sym (with_slot-free s ss client_id f free)) (
            (λ z. absurd (omega (arith, keeps (record s { client_key = client_id + 1 })))),
            valid.1,
          )
      | no taken ↦
          subst IsTable (sym (with_slot-taken s ss client_id f other taken))
            ((λ z. absurd (taken z)), with_slot-IsTable ss valid.1)
    ]
  ]

  has_room-with_slot :
      (m : List ClientMetrics)
      → has_room (with_slot (client_id + 1) f m) client_id ≡ has_room m client_id
  has_room-with_slot [] = unfold with_slot in refl
  has_room-with_slot (s ∷ ss) = elim (ℕ_discrete s.client_key (client_id + 1)) [
    | yes mine ↦
        rw (with_slot-mine s ss client_id f mine, has_room-some s ss client_id (inl mine))
          (has_room-some (f s) ss client_id (inl (keeps s ∙ mine)))
    | no other ↦ elim (ℕ_discrete s.client_key 0) [
      | yes free ↦
          let mine = record s { client_key = client_id + 1 } in
          rw (with_slot-free s ss client_id f free, has_room-some s ss client_id (inr free))
            (has_room-some (f mine) ss client_id (inl (keeps mine)))
      | no taken ↦
          rw
            (
              with_slot-taken s ss client_id f other taken,
              has_room-taken s ss client_id other taken,
            )
            (has_room-taken s (with_slot (client_id + 1) f ss) client_id other taken
              ∙ has_room-with_slot ss)
    ]
  ]

replicate-IsTable : (n : ℕ) → IsTable (replicate n unused)
replicate-IsTable zero = tt
replicate-IsTable (suc n) =
    ((λ z. (refl, Every-replicate (λ t. t.client_key ≡ 0) n unused refl)), replicate-IsTable n)

pub init-IsTable : IsTable init
unfolding init
init-IsTable = replicate-IsTable max_clients

pub record_timed-IsTable :
    (m : List ClientMetrics) (client_id frames cycle start_ns callback_ns deadline_ns : ℕ)
    → IsTable m
    → IsTable (record_timed m client_id frames cycle start_ns callback_ns deadline_ns)
unfolding record_timed
record_timed-IsTable m id frames cycle start_ns callback_ns deadline_ns valid =
    with_slot-IsTable id
      (λ s. time_call start_ns callback_ns deadline_ns (count_call frames cycle s))
      (λ s. unfold time_call count_call in refl) m valid

-- A timed call with its output position goes into the slot of its client, which a client's first call
-- takes if one is free: there each counter grows by what the call adds, as `Counted` says, from the counters
-- that the client had, or from none; without a slot the call is lost. The slots of the other clients stay
-- as they are, and so does the form of the table. Neither the number of the cycle nor that of the client's last
-- one wraps.
pub record_output_timed_lem :
    (m : List ClientMetrics) (client_id frames cycle output_sample_time : ℕ) (is_valid : Bool)
    (start_ns callback_ns deadline_ns other : ℕ)
    → IsTable m
    → other ≢ client_id
    → cycle < 2 ^ 64
    → (or_blank (find m client_id) client_id).last_cycle + 1 < 2 ^ 64
    → let m' =
        record_output_timed m client_id frames cycle output_sample_time is_valid start_ns
          callback_ns deadline_ns in
      (((has_room m client_id ≡ true)
          × ((t : ClientMetrics) × (find m' client_id ≡ some t)
              × Counted frames cycle output_sample_time is_valid start_ns callback_ns deadline_ns
                  (or_blank (find m client_id) client_id)
                  t))
        ⊎ ((has_room m client_id ≡ false) × (find m' client_id ≡ none)))
      × (find m' other ≡ find m other)
      × IsTable m'
unfolding record_output_timed record_timed
record_output_timed_lem m id frames cycle t is_valid start_ns callback_ns deadline_ns other valid ne
      lt small =
    let f : ClientMetrics → ClientMetrics =
      λ s. time_call start_ns callback_ns deadline_ns (count_call frames cycle s) in
    let g = store_output frames t is_valid in
    let keeps_f : KeepsKey f = λ s. unfold time_call count_call in refl in
    let keeps_g : KeepsKey g = λ s. unfold store_output in refl in
    let m1 = with_slot (id + 1) f m in
    let valid1 = with_slot-IsTable id f keeps_f m valid in
    let first = find-with_slot id f keeps_f m valid in
    let second = find-with_slot id g keeps_g m1 valid1 in
    let same_room = has_room-with_slot id f keeps_f m in
    (
      elim (Bool-cases (has_room m id)) [
        | inl room ↦ inl (
          room,
          (
            g (f (or_blank (find m id) id)),
            second ∙ rw (same_room, first, room) refl,
            calls-Counted frames cycle t is_valid start_ns callback_ns deadline_ns
                (or_blank (find m id) id) lt small,
          ),
        )
        | inr full ↦ inr (full, second ∙ rw (same_room, full) refl)
      ],
      find-with_slot_ne id g keeps_g m1 other valid1 ne
          ∙ find-with_slot_ne id f keeps_f m other valid ne,
      with_slot-IsTable id g keeps_g m1 valid1,
    )
