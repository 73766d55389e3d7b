-- ===== src/Registry/Distinct.antt =====
-- Every operation keeps the table at eight slots, at most one for each client.
use numark_ns6_mac_arm.Prelude.{
  ℕ, ◌≡◌, refl, ◌≢◌, Bool, false, Option, none, some, List, [], ◌∷◌, arith, length,
}
use numark_ns6_mac_arm.Prelude.Int.{ℤ}
use numark_ns6_mac_arm.Registry.{
  detach, attach, take_free, renew, clear_first, clear_process, has_slot, empty_registry,
  detach_process, Lease, max_clients, set_audio_active, mark_active,
}
use numark_ns6_mac_arm.Registry.View.{renew-Changes, has_slot-eq-lease, IsDistinct}

-- A table of eight slots with at most one for each client.
pub record IsValid (cs : List Lease) : Type 0 where
  pub distinct : IsDistinct cs
  pub slots : length cs ≡ max_clients

pub empty_registry-IsValid : IsValid empty_registry
unfolding has_slot
empty_registry-IsValid = ground arith

-- The loop leaves a table in which `j` has no slot if it had none.
abbrev Lacks : ℕ → List Lease → Option (List Lease) → Type 0
Lacks j cs none = Unit {0}
Lacks j cs (some ds) = has_slot j cs ≡ false → has_slot j ds ≡ false

-- What a loop over the table leaves is as good as what it started from.
abbrev Keeps : List Lease → Option (List Lease) → Type 0
Keeps cs none = Unit {0}
Keeps cs (some ds) = IsDistinct ds × (length ds ≡ length cs)

renew-Lacks : (id j : ℕ) (pid : ℤ) (cs : List Lease) → Lacks j cs (renew id pid cs)
unfolding renew has_slot
renew-Lacks id j pid [] = tt
renew-Lacks id j pid (c ∷ cs) = ground (arith, renew-Lacks id j pid cs)

renew-Keeps : (id : ℕ) (pid : ℤ) (cs : List Lease) → IsDistinct cs → Keeps cs (renew id pid cs)
unfolding renew
renew-Keeps id pid [] d = tt
renew-Keeps id pid (c ∷ cs) d =
    ground (arith, renew-Keeps id pid cs, renew-Lacks id c.client_id pid cs)

mark_active-Lacks :
    (id j : ℕ) (active : Bool) (cs : List Lease) → Lacks j cs (mark_active id active cs)
unfolding mark_active has_slot
mark_active-Lacks id j active [] = tt
mark_active-Lacks id j active (c ∷ cs) = ground (arith, mark_active-Lacks id j active cs)

mark_active-Keeps :
    (id : ℕ) (active : Bool) (cs : List Lease) → IsDistinct cs → Keeps cs (mark_active id active cs)
unfolding mark_active
mark_active-Keeps id active [] d = tt
mark_active-Keeps id active (c ∷ cs) d =
    ground (arith, mark_active-Keeps id active cs, mark_active-Lacks id c.client_id active cs)

take_free-Lacks : (id j : ℕ) (pid : ℤ) (cs : List Lease) → j ≢ id → Lacks j cs (take_free id pid cs)
unfolding take_free has_slot
take_free-Lacks id j pid [] ne = tt
take_free-Lacks id j pid (c ∷ cs) ne = ground (arith, take_free-Lacks id j pid cs ne)

take_free-Keeps :
    (id : ℕ) (pid : ℤ) (cs : List Lease)
    → has_slot id cs ≡ false
    → IsDistinct cs
    → Keeps cs (take_free id pid cs)
unfolding take_free has_slot
take_free-Keeps id pid [] h d = tt
take_free-Keeps id pid (c ∷ cs) h d =
    ground (arith, take_free-Keeps id pid cs, take_free-Lacks id c.client_id pid cs)

clear_first-Lacks : (id j : ℕ) (cs : List Lease) → j ≢ 0 → Lacks j cs (clear_first id cs)
unfolding clear_first has_slot
clear_first-Lacks id j [] ne = tt
clear_first-Lacks id j (c ∷ cs) ne = ground (arith, clear_first-Lacks id j cs)

clear_first-Keeps : (id : ℕ) (cs : List Lease) → IsDistinct cs → Keeps cs (clear_first id cs)
unfolding clear_first
clear_first-Keeps id [] d = tt
clear_first-Keeps id (c ∷ cs) d =
    ground (arith, clear_first-Keeps id cs, clear_first-Lacks id c.client_id cs)

clear_process-Lacks :
    (pid : ℤ) (j : ℕ) (cs : List Lease) → j ≢ 0 → Lacks j cs (some (clear_process pid cs).1)
unfolding clear_process has_slot
clear_process-Lacks pid j [] ne h = refl
clear_process-Lacks pid j (c ∷ cs) ne h = ground (arith, clear_process-Lacks pid j cs ne)

clear_process-Keeps :
    (pid : ℤ) (cs : List Lease) → IsDistinct cs → Keeps cs (some (clear_process pid cs).1)
unfolding clear_process
clear_process-Keeps pid [] d = (tt, refl)
clear_process-Keeps pid (c ∷ cs) d =
    ground (arith, clear_process-Keeps pid cs, clear_process-Lacks pid c.client_id cs)

pub attach-IsValid :
    {cs : List Lease} (id : ℕ) (pid : ℤ) → IsValid cs → IsValid (attach cs id pid).1
unfolding attach
attach-IsValid {cs} id pid v = ground (
  arith,
  renew-Keeps id pid cs,
  renew-Changes id 1 pid cs,
  has_slot-eq-lease id cs,
  take_free-Keeps id pid cs,
)

pub set_audio_active-IsValid :
    {cs : List Lease} (id : ℕ) (active : Bool)
    → IsValid cs
    → IsValid (set_audio_active cs id active).1
unfolding set_audio_active
set_audio_active-IsValid {cs} id active v = ground (arith, mark_active-Keeps id active cs)

pub detach-IsValid : {cs : List Lease} (id : ℕ) → IsValid cs → IsValid (detach cs id).1
unfolding detach
detach-IsValid {cs} id v = ground (arith, clear_first-Keeps id cs)

pub detach_process-IsValid :
    {cs : List Lease} (pid : ℤ) → IsValid cs → IsValid (detach_process cs pid).1
unfolding detach_process
detach_process-IsValid {cs} pid v = ground (arith, clear_process-Keeps pid cs)
