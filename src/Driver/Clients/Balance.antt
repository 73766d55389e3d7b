-- ===== src/Driver/Clients/Balance.antt =====
-- The starts of each client (numark-ns6/coreaudio/AudioClientLifecycle.cpp, AudioDeviceLifecycle.cpp): the
-- table keeps the ledger of the calls that were answered with success.
use numark_ns6_mac_arm.Driver.Clients.{
  counted, Client, start_again, max_starts, occupy, no_client, overflowing, absent, one_less,
  is_entry_of, remove_in, Again, behind, stop_in, keep_removed, keep_entry,
}
use numark_ns6_mac_arm.Prelude.{
  ℕ, ◌+◌, ◌-◌, ◌≡◌, refl, ap, ◌∙◌, ◌≢◌, ◌⊎◌, inl, inr, true, false, Option, none, some, List, [],
  ◌∷◌, arith, Bool-cases, if◌then◌else◌, ◌==◌,
}

unfoldable pub weight : ℕ → Client → ℕ
weight client_id c = if c.id == client_id then c.starts else 0

-- The starts of a client in the table.
unfoldable pub starts_of : ℕ → List Client → ℕ
unfolding weight
starts_of client_id [] = 0
starts_of client_id (c ∷ cs) = weight client_id c + starts_of client_id cs

unfoldable pub total : List Client → ℕ
total [] = 0
total (c ∷ cs) = c.starts + total cs

-- No client has two entries.
unfoldable pub Unique : List Client → Type 0
unfolding starts_of
Unique [] = Unit {0}
Unique (c ∷ cs) = ((c.starts ≡ 0) ⊎ (starts_of c.id cs ≡ 0)) × Unique cs

-- An entry that says something of no client but this.
abbrev Of : ℕ → Client → Type 0
Of client_id c = (c.starts ≡ 0) ⊎ (c.id ≡ client_id)

weight_own : (client_id : ℕ) (c : Client) → Of client_id c → weight client_id c ≡ c.starts
unfolding weight
weight_own client_id c (inl none_left) = ground (arith, none_left)
weight_own client_id c (inr same) = ground (arith, same)

weight_other :
    (client_id : ℕ) (c : Client) (j : ℕ) → Of client_id c → j ≢ client_id → weight j c ≡ 0
unfolding weight
weight_other client_id c j (inl none_left) other = ground (arith, none_left)
weight_other client_id c j (inr same) other = ground (arith, same, other)

-- A change of the table that concerns one client only.
pub record Moves (client_id : ℕ) (cs ds : List Client) : Type 0 where
  pub others : (j : ℕ) → j ≢ client_id → starts_of j ds ≡ starts_of j cs
  pub totals : total ds + starts_of client_id cs ≡ total cs + starts_of client_id ds
  pub unique : Unique cs → Unique ds

Moves-head :
    (client_id : ℕ) (c d : Client) (cs : List Client)
    → Of client_id c
    → Of client_id d
    → ((c.starts ≡ 0) ⊎ (starts_of c.id cs ≡ 0) → (d.starts ≡ 0) ⊎ (starts_of d.id cs ≡ 0))
    → Moves client_id (c ∷ cs) (d ∷ cs)
unfolding starts_of total Unique
Moves-head client_id c d cs old new fresh = record {
  others = λ j other.
      omega (arith, weight_other client_id c j old other, weight_other client_id d j new other);
  totals = omega (arith, weight_own client_id c old, weight_own client_id d new);
  unique = λ u. (fresh u.0, u.1);
}

not_entry : (client_id : ℕ) (c : Client) → is_entry_of client_id c ≡ false → weight client_id c ≡ 0
unfolding is_entry_of weight
not_entry client_id c e = ground arith

entry : (client_id : ℕ) (c : Client) → is_entry_of client_id c ≡ true → c.id ≡ client_id
unfolding is_entry_of
entry client_id c e = ground arith

entry_running : (client_id : ℕ) (c : Client) → is_entry_of client_id c ≡ true → c.starts ≢ 0
unfolding is_entry_of
entry_running client_id c e = ground arith

keeps_unique :
    (client_id : ℕ) (c : Client) (cs ds : List Client)
    → is_entry_of client_id c ≡ false
    → Moves client_id cs ds
    → (c.starts ≡ 0) ⊎ (starts_of c.id cs ≡ 0)
    → (c.starts ≡ 0) ⊎ (starts_of c.id ds ≡ 0)
unfolding is_entry_of
keeps_unique client_id c cs ds e m (inl z) = inl z
keeps_unique client_id c cs ds e m (inr z) = elim (Bool-cases (c.starts == 0)) [
  | inl idle ↦ inl (ground arith)
  | inr running ↦
      let other : c.id ≢ client_id = λ same. ground arith in inr (m.others c.id other ∙ z)
]

Moves-tail :
    (client_id : ℕ) (c : Client) (cs ds : List Client)
    → is_entry_of client_id c ≡ false
    → Moves client_id cs ds
    → Moves client_id (c ∷ cs) (c ∷ ds)
unfolding starts_of total Unique
Moves-tail client_id c cs ds e m = record {
  others = λ j other. ap (λ n. weight j c + n) (m.others j other);
  totals = omega (arith, m.totals);
  unique = λ u. (keeps_unique client_id c cs ds e m u.0, m.unique u.1);
}

-- What the loop of `start` says of the table.
unfoldable pub Answer : ℕ → List Client → Again → Type 0
Answer client_id cs absent = starts_of client_id cs ≡ 0
Answer client_id cs overflowing = Unit {0}
Answer client_id cs (counted ds) =
    Moves client_id cs ds × (starts_of client_id ds ≡ starts_of client_id cs + 1)

Answer-behind :
    (client_id : ℕ) (c : Client) (cs : List Client) (rest : Again)
    → is_entry_of client_id c ≡ false
    → Answer client_id cs rest
    → Answer client_id (c ∷ cs) (behind c rest)
unfolding Answer starts_of
Answer-behind client_id c cs absent e a = omega (arith, a, not_entry client_id c e)
Answer-behind client_id c cs overflowing e a = tt
Answer-behind client_id c cs (counted ds) e a =
    (Moves-tail client_id c cs ds e a.0, omega (arith, a.1))

Answer-here :
    (client_id : ℕ) (c : Client) (cs : List Client)
    → is_entry_of client_id c ≡ true
    → Answer client_id (c ∷ cs) (
        if c.starts == max_starts
        then overflowing
        else counted (record c { starts = c.starts + 1 } ∷ cs))
unfolding Answer starts_of
Answer-here client_id c cs e = elim (Bool-cases (c.starts == max_starts)) [
  | inl full ↦ rw full tt
  | inr room ↦
      let same = entry client_id c e in
      let d : Client = record c { starts = c.starts + 1 } in
      rw room (
        Moves-head client_id c d cs (inr same) (inr same)
            (λ u. elim u [ inl z ↦ absurd (entry_running client_id c e z) | inr z ↦ inr z ]),
        omega (arith, weight_own client_id c (inr same), weight_own client_id d (inr same)),
      )
]

pub start_again-Answer :
    (client_id : ℕ) (cs : List Client) → Answer client_id cs (start_again client_id cs)
unfolding start_again Answer starts_of
start_again-Answer client_id [] = refl
start_again-Answer client_id (c ∷ cs) = elim (Bool-cases (is_entry_of client_id c)) [
  | inl e ↦ rw e (Answer-here client_id c cs e)
  | inr e ↦
      rw e (
        Answer-behind client_id c cs (start_again client_id cs) e (start_again-Answer client_id cs))
]

-- What the three other loops say of the table, where they change it.
unfoldable pub Occupied : ℕ → List Client → Option (List Client) → Type 0
Occupied client_id cs none = Unit {0}
Occupied client_id cs (some ds) = Moves client_id cs ds × (starts_of client_id ds ≡ 1)

Occupied-keep :
    (client_id : ℕ) (c : Client) (cs : List Client) (rest : Option (List Client))
    → is_entry_of client_id c ≡ false
    → Occupied client_id cs rest
    → Occupied client_id (c ∷ cs) (keep_entry c rest)
unfolding Occupied starts_of
Occupied-keep client_id c cs none e a = tt
Occupied-keep client_id c cs (some ds) e a =
    (Moves-tail client_id c cs ds e a.0, omega (arith, a.1, not_entry client_id c e))

weightless : (client_id : ℕ) (c : Client) → weight client_id c ≡ 0 → is_entry_of client_id c ≡ false
unfolding is_entry_of weight
weightless client_id c e = ground arith

pub occupy-Occupied :
    (client_id : ℕ) (cs : List Client)
    → starts_of client_id cs ≡ 0
    → Occupied client_id cs (occupy client_id cs)
unfolding occupy Occupied starts_of
occupy-Occupied client_id [] fresh = tt
occupy-Occupied client_id (c ∷ cs) fresh = elim (Bool-cases (c.starts == 0)) [
  | inl idle ↦
      let d : Client = record { id = client_id; starts = 1 } in
      let old : c.starts ≡ 0 = ground arith in
      rw idle (
        Moves-head client_id c d cs (inl old) (inr refl) (λ u. inr (omega (arith, fresh))),
        omega (arith, fresh, weight_own client_id d (inr refl)),
      )
  | inr running ↦
      let e = weightless client_id c (omega (arith, fresh)) in
      rw running (
        Occupied-keep client_id c cs (occupy client_id cs) e
          (occupy-Occupied client_id cs (omega (arith, fresh))))
]

unfoldable pub Stopped : ℕ → List Client → Option (List Client) → Type 0
Stopped client_id cs none = starts_of client_id cs ≡ 0
Stopped client_id cs (some ds) =
    Moves client_id cs ds × (starts_of client_id ds + 1 ≡ starts_of client_id cs)

Stopped-keep :
    (client_id : ℕ) (c : Client) (cs : List Client) (rest : Option (List Client))
    → is_entry_of client_id c ≡ false
    → Stopped client_id cs rest
    → Stopped client_id (c ∷ cs) (keep_entry c rest)
unfolding Stopped starts_of
Stopped-keep client_id c cs none e a = omega (arith, a, not_entry client_id c e)
Stopped-keep client_id c cs (some ds) e a =
    (Moves-tail client_id c cs ds e a.0, omega (arith, a.1, not_entry client_id c e))

Of-one_less : (client_id : ℕ) (c : Client) → Of client_id c → Of client_id (one_less c)
Of-one_less client_id c (inl z) = elim (Bool-cases (c.starts - 1 == 0)) [
  | inl last ↦ rw last (inl refl)
  | inr more ↦ rw more (inl (omega (arith, z)))
]
Of-one_less client_id c (inr same) = elim (Bool-cases (c.starts - 1 == 0)) [
  | inl last ↦ rw last (inl refl)
  | inr more ↦ rw more (inr same)
]

starts-one_less : (c : Client) → c.starts ≢ 0 → (one_less c).starts + 1 ≡ c.starts
starts-one_less c running = ground (arith, running)

fresh-one_less :
    (c : Client) (cs : List Client)
    → starts_of c.id cs ≡ 0
    → ((one_less c).starts ≡ 0) ⊎ (starts_of (one_less c).id cs ≡ 0)
fresh-one_less c cs z = elim (Bool-cases (c.starts - 1 == 0)) [
  | inl last ↦ rw last (inl refl)
  | inr more ↦ rw more (inr z)
]

pub stop_in-Stopped :
    (client_id : ℕ) (cs : List Client) → Stopped client_id cs (stop_in client_id cs)
unfolding stop_in Stopped starts_of
stop_in-Stopped client_id [] = refl
stop_in-Stopped client_id (c ∷ cs) = elim (Bool-cases (is_entry_of client_id c)) [
  | inl e ↦
      let own : Of client_id c = inr (entry client_id c e) in
      let going = entry_running client_id c e in
      let own' = Of-one_less client_id c own in
      rw e (
        Moves-head client_id c (one_less c) cs own own'
            (λ u. elim u [ inl z ↦ absurd (going z) | inr z ↦ fresh-one_less c cs z ]),
        omega (
          arith,
          weight_own client_id c own,
          weight_own client_id (one_less c) own',
          starts-one_less c going,
        ),
      )
  | inr e ↦
      rw e (Stopped-keep client_id c cs (stop_in client_id cs) e (stop_in-Stopped client_id cs))
]

unfoldable pub Removed : ℕ → List Client → Option (ℕ × List Client) → Type 0
Removed client_id cs none = starts_of client_id cs ≡ 0
Removed client_id cs (some (n, ds)) =
    Moves client_id cs ds
    × (n + starts_of client_id ds ≡ starts_of client_id cs)
    × (n ≢ 0)
    × (Unique cs → starts_of client_id ds ≡ 0)

Removed-keep :
    (client_id : ℕ) (c : Client) (cs : List Client) (rest : Option (ℕ × List Client))
    → is_entry_of client_id c ≡ false
    → Removed client_id cs rest
    → Removed client_id (c ∷ cs) (keep_removed c rest)
unfolding Removed starts_of Unique
Removed-keep client_id c cs none e a = omega (arith, a, not_entry client_id c e)
Removed-keep client_id c cs (some (n, ds)) e (m, left, some_left, all_gone) = (
  Moves-tail client_id c cs ds e m,
  omega (arith, left, not_entry client_id c e),
  some_left,
  λ u. omega (arith, all_gone u.1, not_entry client_id c e),
)

pub remove_in-Removed :
    (client_id : ℕ) (cs : List Client) → Removed client_id cs (remove_in client_id cs)
unfolding remove_in Removed starts_of Unique
remove_in-Removed client_id [] = refl
remove_in-Removed client_id (c ∷ cs) = elim (Bool-cases (is_entry_of client_id c)) [
  | inl e ↦
      let same = entry client_id c e in
      let own : Of client_id c = inr same in
      let gone : weight client_id no_client ≡ 0 = weight_own client_id no_client (inl refl) in
      rw e (
        Moves-head client_id c no_client cs own (inl refl) (λ u. inl refl),
        omega (arith, weight_own client_id c own, gone),
        entry_running client_id c e,
        λ u. elim u.0 [
          | inl z ↦ absurd (entry_running client_id c e z)
          | inr z ↦ omega (arith, gone, ap (λ j. starts_of j cs) same ∙ refl, z)
        ],
      )
  | inr e ↦
      rw e (Removed-keep client_id c cs (remove_in client_id cs) e (remove_in-Removed client_id cs))
]
