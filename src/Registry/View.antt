-- ===== src/Registry/View.antt =====
-- The table as a map from client ids to leases, and the operations as operations on that map.
use mathlib.Core.Option
use numark_ns6_mac_arm.Prelude.{
  ℕ, ◌≡◌, refl, ◌≢◌, ◌↔◌, ◌⊎◌, Bool, true, false, Option, none, some, List, [], ◌∷◌, arith,
  if◌then◌else◌, ◌==◌,
}
use numark_ns6_mac_arm.Prelude.Int.{ℤ}
use numark_ns6_mac_arm.Registry.{
  set_audio_active, take_free, clear_process, renew, mark_active, clear_first, has_slot, detach,
  Lease, contains, attach, owned_by,
}

-- The lease of a client, as the loops find it.
unfoldable pub lease : ℕ → List Lease → Option Lease
lease id [] = none
lease id (c ∷ cs) = if c.client_id == id then some c else lease id cs

-- No client has two slots.
abbrev pub IsDistinct : List Lease → Type 0
IsDistinct [] = Unit {0}
IsDistinct (c ∷ cs) = (c.client_id ≢ 0 → has_slot c.client_id cs ≡ false) × IsDistinct cs

-- What a lease becomes when its client attaches again.
abbrev pub renewed : ℤ → Lease → Lease
renewed pid c = record c { process_id = pid }

-- `o` is a table in which the lease of `id`, if it had one, is changed by `f`; `none`, if it had none.
abbrev pub Changes : ℕ → (Lease → Lease) → List Lease → ℕ → Option (List Lease) → Type 0
Changes id f cs j none = lease id cs ≡ none
Changes id f cs j (some ds) =
    (lease j ds ≡ (if j == id then Option.map f (lease id cs) else lease j cs))
    × (lease id cs ≢ none)

pub renew-Changes :
    (id j : ℕ) (pid : ℤ) (cs : List Lease) → Changes id (renewed pid) cs j (renew id pid cs)
unfolding renew lease
renew-Changes id j pid [] = refl
renew-Changes id j pid (c ∷ cs) = ground (arith, renew-Changes id j pid cs)

-- What a lease becomes when its client starts or stops its audio.
abbrev pub activated : Bool → Lease → Lease
activated active c = record c { audio_active = active }

pub mark_active-Changes :
    (id j : ℕ) (active : Bool) (cs : List Lease)
    → Changes id (activated active) cs j (mark_active id active cs)
unfolding mark_active lease
mark_active-Changes id j active [] = refl
mark_active-Changes id j active (c ∷ cs) = ground (arith, mark_active-Changes id j active cs)

abbrev pub fresh : ℕ → ℤ → Lease
fresh id pid = record { client_id = id; process_id = pid; audio_active = false }

abbrev pub Adds : ℕ → ℤ → List Lease → ℕ → Option (List Lease) → Type 0
Adds id pid cs j none = has_slot 0 cs ≡ false
Adds id pid cs j (some ds) =
    (lease j ds ≡ (if j == id then some (fresh id pid) else lease j cs)) × (has_slot 0 cs ≡ true)

pub take_free-Adds :
    (id j : ℕ) (pid : ℤ) (cs : List Lease)
    → id ≢ 0
    → j ≢ 0
    → lease id cs ≡ none
    → Adds id pid cs j (take_free id pid cs)
unfolding take_free has_slot lease
take_free-Adds id j pid [] ne ne' h = refl
take_free-Adds id j pid (c ∷ cs) ne ne' h = ground (arith, take_free-Adds id j pid cs ne ne')

pub has_slot-eq-lease : (id : ℕ) (cs : List Lease) → (has_slot id cs ≡ false) ↔ (lease id cs ≡ none)
unfolding has_slot lease
has_slot-eq-lease id [] = ((λ _. refl), (λ _. refl))
has_slot-eq-lease id (c ∷ cs) = ground (arith, has_slot-eq-lease id cs)

-- The lease that a client holds after it attaches: its old one under the new process, or a fresh one.
abbrev pub attached : ℕ → ℤ → Option Lease → Lease
attached id pid none = fresh id pid
attached id pid (some c) = renewed pid c

-- A client that `attach` accepts holds its old lease under the new process, or a fresh one; every
-- other client keeps what it had.
pub lease-attach :
    (cs : List Lease) (id j : ℕ) (pid : ℤ)
    → j ≢ 0
    → (attach cs id pid).0 ≡ true
    → lease j (attach cs id pid).1
      ≡ (if j == id then some (attached id pid (lease id cs)) else lease j cs)
unfolding attach
lease-attach cs id j pid ne h =
    ground (arith, renew-Changes id j pid cs, take_free-Adds id j pid cs)

-- `attach` refuses exactly the client id 0, and a new client when no slot is free; it then leaves
-- the table as it was.
pub attach-refused :
    (cs : List Lease) (id : ℕ) (pid : ℤ)
    → (((attach cs id pid).0 ≡ false)
        ↔ ((id ≡ 0) ⊎ ((lease id cs ≡ none) × (has_slot 0 cs ≡ false))))
      × ((attach cs id pid).0 ≡ false → (attach cs id pid).1 ≡ cs)
unfolding attach
attach-refused cs id pid = ground (arith, renew-Changes id 1 pid cs, take_free-Adds id 1 pid cs)

abbrev pub Clears : ℕ → List Lease → ℕ → Option (List Lease) → Type 0
Clears id cs j none = lease id cs ≡ none
Clears id cs j (some ds) =
    (lease j ds ≡ (if j == id then none else lease j cs)) × (lease id cs ≢ none)

pub clear_first-Clears :
    (id j : ℕ) (cs : List Lease)
    → id ≢ 0
    → j ≢ 0
    → IsDistinct cs
    → Clears id cs j (clear_first id cs)
unfolding clear_first lease
clear_first-Clears id j [] ne ne' d = refl
clear_first-Clears id j (c ∷ cs) ne ne' d = ground (
  arith,
  clear_first-Clears id j cs ne ne',
  has_slot-eq-lease id cs,
  has_slot-eq-lease c.client_id cs,
)

pub lease-detach :
    (cs : List Lease) (id j : ℕ)
    → IsDistinct cs
    → j ≢ 0
    → (detach cs id).0 ≡ true
    → lease j (detach cs id).1 ≡ (if j == id then none else lease j cs)
unfolding detach
lease-detach cs id j d ne h = ground (arith, clear_first-Clears id j cs)

-- `detach` succeeds exactly for the clients that `contains` finds.
pub detach-contains : (cs : List Lease) (id : ℕ) → IsDistinct cs → (detach cs id).0 ≡ contains cs id
unfolding detach contains
detach-contains cs id d = ground (arith, clear_first-Clears id 1 cs, has_slot-eq-lease id cs)

-- The lease that is left of `o` when the leases of the process are cleared.
abbrev pub kept : ℤ → Option Lease → Option Lease
kept pid none = none
kept pid (some c) = if owned_by pid c then none else some c

pub lease-clear_process :
    (pid : ℤ) (cs : List Lease) (j : ℕ)
    → IsDistinct cs
    → j ≢ 0
    → lease j (clear_process pid cs).1 ≡ kept pid (lease j cs)
unfolding clear_process lease
lease-clear_process pid [] j d ne = refl
lease-clear_process pid (c ∷ cs) j d ne =
    ground (
      arith,
      lease-clear_process pid cs j,
      has_slot-eq-lease j cs,
      has_slot-eq-lease c.client_id cs,
    )

pub lease-set_audio_active :
    (cs : List Lease) (id j : ℕ) (active : Bool)
    → id ≢ 0
    → ((set_audio_active cs id active).0 ≡ has_slot id cs)
      × (lease j (set_audio_active cs id active).1
          ≡ (if j == id then Option.map (activated active) (lease id cs) else lease j cs))
unfolding set_audio_active
lease-set_audio_active cs id j active ne =
    ground (arith, mark_active-Changes id j active cs, has_slot-eq-lease id cs)
