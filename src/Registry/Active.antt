-- ===== src/Registry/Active.antt =====
-- When some client plays audio, and how many leases a process loses.
use numark_ns6_mac_arm.Prelude.{
  ℕ, zero, suc, ◌+◌, ◌<◌, ◌≡◌, refl, ◌≢◌, ◌↔◌, inl, inr, true, false, not, ◌&&◌, none, some, List,
  [], ◌∷◌, map, arith, Bool-cases, if◌then◌else◌, ◌==◌, get_or,
}
use numark_ns6_mac_arm.Prelude.Int.{is_positive, ℤ}
use numark_ns6_mac_arm.Registry.{
  found, has_slot, take_free, clear_process, Lease, detach_process, attach, free_slot, owned_by,
  any_audio_active, set_audio_active, mark_active, renew, contains,
}
use numark_ns6_mac_arm.Registry.View.{
  has_slot-eq-lease, kept, IsDistinct, lease, lease-clear_process,
}

-- A client of the table that plays audio.
abbrev pub Playing : List Lease → Type 0
Playing cs = (id : ℕ) × (c : Lease) × (id ≢ 0) × (lease id cs ≡ some c) × (c.audio_active ≡ true)

any_audio_active_of_Playing :
    (cs : List Lease) (id : ℕ) (c : Lease)
    → id ≢ 0
    → lease id cs ≡ some c
    → c.audio_active ≡ true
    → any_audio_active cs ≡ true
unfolding lease any_audio_active
any_audio_active_of_Playing [] id c ne h a = cc
any_audio_active_of_Playing (d ∷ cs) id c ne h a =
    ground (arith, any_audio_active_of_Playing cs id c)

-- A client with a lease further down keeps it, behind a slot of another client.
Playing-cons : (d : Lease) (cs : List Lease) → IsDistinct (d ∷ cs) → Playing cs → Playing (d ∷ cs)
unfolding lease
Playing-cons d cs h (id, c, ne, e, a) =
    (id, c, ne, ground (arith, has_slot-eq-lease d.client_id cs), a)

Playing-any_audio_active :
    (cs : List Lease) → IsDistinct cs → any_audio_active cs ≡ true → Playing cs
unfolding lease any_audio_active
Playing-any_audio_active [] d h = cc
Playing-any_audio_active (c ∷ cs) d h =
    elim (Bool-cases (not (c.client_id == 0) && c.audio_active)) [
      | inl e ↦ (c.client_id, c, ground arith, ground arith, ground arith)
      | inr e ↦ Playing-cons c cs d (Playing-any_audio_active cs d.1 (ground arith))
    ]

-- In a table with at most one slot for each client, `any_audio_active` says exactly whether some
-- client has a lease that plays audio.
pub any_audio_active_iff :
    (cs : List Lease) → IsDistinct cs → (any_audio_active cs ≡ true) ↔ Playing cs
any_audio_active_iff cs d =
    (Playing-any_audio_active cs d, λ p. any_audio_active_of_Playing cs p.0 p.1 p.2 p.3 p.4)

-- How many leases the process holds.
pub held : ℤ → List Lease → ℕ
held pid [] = 0
held pid (c ∷ cs) = (if owned_by pid c then 1 else 0) + held pid cs

clear_process-held :
    (pid : ℤ) (cs : List Lease)
    → ((clear_process pid cs).0 ≡ held pid cs) × (held pid (clear_process pid cs).1 ≡ 0)
unfolding clear_process held
clear_process-held pid [] = (refl, refl)
clear_process-held pid (c ∷ cs) = ground (arith, clear_process-held pid cs)

-- For a positive process id `detach_process` returns the number of leases that the process held,
-- leaves it none, and leaves the lease of every other client as it was; for another process id it
-- does nothing. The table has at most one slot for each client.
pub detach_process_lem :
    (cs : List Lease) (pid : ℤ) (j : ℕ)
    → IsDistinct cs
    → j ≢ 0
    → (is_positive pid ≡ true
        → ((detach_process cs pid).0 ≡ held pid cs)
          × (held pid (detach_process cs pid).1 ≡ 0)
          × (lease j (detach_process cs pid).1 ≡ kept pid (lease j cs)))
      × (is_positive pid ≡ false → detach_process cs pid ≡ (0, cs))
unfolding detach_process
detach_process_lem cs pid j d ne =
    ground (arith, clear_process-held pid cs, lease-clear_process pid cs j)

-- `contains` finds exactly the clients with a lease.
pub contains_iff :
    (cs : List Lease) (id : ℕ) → (contains cs id ≡ false) ↔ ((id ≢ 0) → lease id cs ≡ none)
unfolding contains
contains_iff cs id = ground (arith, has_slot-eq-lease id cs)

-- What is left of a slot when the leases of the process are cleared.
abbrev pub cleared : ℤ → Lease → Lease
cleared pid c = if owned_by pid c then free_slot else c

clear_process-eq-map : (pid : ℤ) (cs : List Lease) → (clear_process pid cs).1 ≡ map (cleared pid) cs
unfolding clear_process
clear_process-eq-map pid [] = refl
clear_process-eq-map pid (c ∷ cs) = ground (arith, clear_process-eq-map pid cs)

-- `detach_process` of a positive process id, slot by slot.
pub detach_process-eq-map :
    (cs : List Lease) (pid : ℤ)
    → is_positive pid ≡ true
    → detach_process cs pid ≡ (held pid cs, map (cleared pid) cs)
unfolding detach_process
detach_process-eq-map cs pid h =
    ground (arith, clear_process-held pid cs, clear_process-eq-map pid cs)

-- A process with a lease in some slot holds one at least.
pub held_pos :
    (pid : ℤ) (cs : List Lease) (i : ℕ)
    → owned_by pid (get_or cs i free_slot) ≡ true
    → 0 < held pid cs
unfolding held
held_pos pid [] i h = cc
held_pos pid (c ∷ cs) zero h = ground arith
held_pos pid (c ∷ cs) (suc i) h = omega (arith, held_pos pid cs i h)

any_audio_active-renew :
    (id : ℕ) (pid : ℤ) (cs : List Lease) → elim (renew id pid cs) as (λ _. Type 0) [
      | none ↦ Unit {0}
      | some ds ↦ any_audio_active ds ≡ any_audio_active cs
    ]
unfolding renew any_audio_active
any_audio_active-renew id pid [] = tt
any_audio_active-renew id pid (c ∷ cs) = ground (arith, any_audio_active-renew id pid cs)

any_audio_active-take_free :
    (id : ℕ) (pid : ℤ) (cs : List Lease) → elim (take_free id pid cs) as (λ _. Type 0) [
      | none ↦ Unit {0}
      | some ds ↦ any_audio_active ds ≡ any_audio_active cs
    ]
unfolding take_free any_audio_active
any_audio_active-take_free id pid [] = tt
any_audio_active-take_free id pid (c ∷ cs) = ground (arith, any_audio_active-take_free id pid cs)

-- A client that attaches starts or stops nobody's audio.
pub any_audio_active-attach :
    (cs : List Lease) (id : ℕ) (pid : ℤ)
    → any_audio_active (attach cs id pid).1 ≡ any_audio_active cs
unfolding attach
any_audio_active-attach cs id pid =
    ground (arith, any_audio_active-renew id pid cs, any_audio_active-take_free id pid cs)

any_audio_active-mark_active :
    (id : ℕ) (cs : List Lease)
    → id ≢ 0
    → has_slot id cs ≡ true
    → any_audio_active (found cs (mark_active id true cs)).1 ≡ true
unfolding mark_active any_audio_active has_slot
any_audio_active-mark_active id [] ne h = cc
any_audio_active-mark_active id (c ∷ cs) ne h =
    ground (arith, any_audio_active-mark_active id cs ne)

-- An attached client that starts its audio is playing.
pub any_audio_active-set_audio_active :
    (cs : List Lease) (id : ℕ)
    → contains cs id ≡ true
    → any_audio_active (set_audio_active cs id true).1 ≡ true
unfolding contains set_audio_active
any_audio_active-set_audio_active cs id h = ground (arith, any_audio_active-mark_active id cs)
