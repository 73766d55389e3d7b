-- ===== src/Registry.antt =====
-- The table of attached clients (coreaudio/NS6DeviceClientRegistry.h): eight slots, searched in
-- order; a slot with client id 0 is free. A pointer argument is never NULL here, so only the tests
-- on values are kept. An operation returns its result and the table that it leaves.
use numark_ns6_mac_arm.Prelude.{
  ℕ, ◌+◌, Bool, true, false, not, ◌&&◌, ◌||◌, Option, none, some, List, [], ◌∷◌, if◌then◌else◌,
  ◌==◌, replicate,
}
use numark_ns6_mac_arm.Prelude.Int.{is_positive, ℤ, pos, ◌==ℤ◌}
pub mod View
pub mod Distinct
pub mod Active
mod Tests

pub record Lease : Type 0 where
  pub client_id : ℕ  -- uint64_t
  pub process_id : ℤ  -- int32_t
  pub audio_active : Bool

abbrev pub max_clients : ℕ
max_clients = 8

-- What `memset` leaves in a slot.
abbrev pub free_slot : Lease
free_slot = record { client_id = 0; process_id = pos 0; audio_active = false }

abbrev pub empty_registry : List Lease
empty_registry = replicate max_clients free_slot

-- The loops of `attach`: the first renews the lease of a known client, the second takes the first
-- free slot. `none` when no slot fits.
unfoldable pub renew : ℕ → ℤ → List Lease → Option (List Lease)
renew id pid [] = none
renew id pid (c ∷ cs) =
    if c.client_id == id
    then some (record c { process_id = pid } ∷ cs)
    else elim (renew id pid cs) [ none ↦ none | some ds ↦ some (c ∷ ds) ]

unfoldable pub take_free : ℕ → ℤ → List Lease → Option (List Lease)
take_free id pid [] = none
take_free id pid (c ∷ cs) =
    if c.client_id == 0
    then some (record { client_id = id; process_id = pid; audio_active = false } ∷ cs)
    else elim (take_free id pid cs) [ none ↦ none | some ds ↦ some (c ∷ ds) ]

-- The result of `attach` from those of its two loops.
abbrev pub attach_result :
    List Lease → Option (List Lease) → Option (List Lease) → Bool × List Lease
attach_result cs (some ds) o = (true, ds)
attach_result cs none (some ds) = (true, ds)
attach_result cs none none = (false, cs)

unfoldable pub attach : List Lease → ℕ → ℤ → Bool × List Lease
attach cs id pid =
    if id == 0 then (false, cs) else attach_result cs (renew id pid cs) (take_free id pid cs)

unfoldable pub mark_active : ℕ → Bool → List Lease → Option (List Lease)
mark_active id active [] = none
mark_active id active (c ∷ cs) =
    if c.client_id == id
    then some (record c { audio_active = active } ∷ cs)
    else elim (mark_active id active cs) [ none ↦ none | some ds ↦ some (c ∷ ds) ]

abbrev pub found : List Lease → Option (List Lease) → Bool × List Lease
found cs none = (false, cs)
found cs (some ds) = (true, ds)

unfoldable pub set_audio_active : List Lease → ℕ → Bool → Bool × List Lease
set_audio_active cs id active = if id == 0 then (false, cs) else found cs (mark_active id active cs)

unfoldable pub has_slot : ℕ → List Lease → Bool
has_slot id [] = false
has_slot id (c ∷ cs) = c.client_id == id || has_slot id cs

unfoldable pub contains : List Lease → ℕ → Bool
contains cs id = if id == 0 then false else has_slot id cs

unfoldable pub clear_first : ℕ → List Lease → Option (List Lease)
clear_first id [] = none
clear_first id (c ∷ cs) =
    if c.client_id == id
    then some (free_slot ∷ cs)
    else elim (clear_first id cs) [ none ↦ none | some ds ↦ some (c ∷ ds) ]

unfoldable pub detach : List Lease → ℕ → Bool × List Lease
detach cs id = if id == 0 then (false, cs) else found cs (clear_first id cs)

-- The test of the loop of `detach_process`.
abbrev pub owned_by : ℤ → Lease → Bool
owned_by pid c = not (c.client_id == 0) && c.process_id ==ℤ pid

unfoldable pub clear_process : ℤ → List Lease → ℕ × List Lease
clear_process pid [] = (0, [])
clear_process pid (c ∷ cs) =
    let (n, ds) = clear_process pid cs in
    if owned_by pid c then (n + 1, free_slot ∷ ds) else (n, c ∷ ds)

unfoldable pub detach_process : List Lease → ℤ → ℕ × List Lease
detach_process cs pid = if is_positive pid then clear_process pid cs else (0, cs)

unfoldable pub any_audio_active : List Lease → Bool
any_audio_active [] = false
any_audio_active (c ∷ cs) = (not (c.client_id == 0) && c.audio_active) || any_audio_active cs
