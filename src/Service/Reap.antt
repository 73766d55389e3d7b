-- ===== src/Service/Reap.antt =====
-- `reap_dead_clients` (coreaudio/NS6DeviceMachService.c) frees exactly the slots of dead processes.
use numark_ns6_mac_arm.Prelude.{
  ℕ, zero, suc, ◌+◌, ◌≤◌, ◌≡◌, refl, sym, ◌∙◌, inl, inr, Bool, true, false, List, [], ◌∷◌, map,
  arith, Bool-cases, if◌then◌else◌, ◌==◌, get_or, length, length-map,
}
use numark_ns6_mac_arm.Prelude.Int.{ℤ, is_positive, ==ℤ_iff}
use numark_ns6_mac_arm.Registry.{free_slot, Lease, owned_by}
use numark_ns6_mac_arm.Registry.Active.{held, detach_process-eq-map, held_pos, cleared}
use numark_ns6_mac_arm.Registry.Distinct.{IsValid, detach_process-IsValid}
use numark_ns6_mac_arm.Service.{orphaned, reap_slot, reap_from}

module _ (exists : ℤ → Bool) where
  -- What is left of a slot after a reaping.
  abbrev pub clean : Lease → Lease
  clean c = if orphaned exists c then free_slot else c

  -- The first `i` slots hold no orphaned lease.
  abbrev CleanUpTo : ℕ → List Lease → Type 0
  CleanUpTo zero cs = Unit {0}
  CleanUpTo (suc i) [] = Unit {0}
  CleanUpTo (suc i) (c ∷ cs) = (orphaned exists c ≡ false) × CleanUpTo i cs

  clean-cleared :
      (pid : ℤ) (c : Lease)
      → is_positive pid ≡ true
      → exists pid ≡ false
      → clean (cleared pid c) ≡ clean c
  clean-cleared pid c p e = elim (Bool-cases (owned_by pid c)) [
    | inl o ↦
        let same : c.process_id ≡ pid = (==ℤ_iff c.process_id pid).0 (ground arith) in
        let dead : orphaned exists c ≡ true = rw same (ground arith) in rw (o, dead)
    | inr o ↦ rw o
  ]

  map-clean-cleared :
      (pid : ℤ) (cs : List Lease)
      → is_positive pid ≡ true
      → exists pid ≡ false
      → map clean (map (cleared pid) cs) ≡ map clean cs
  map-clean-cleared pid [] p e = refl
  map-clean-cleared pid (c ∷ cs) p e = cc (clean-cleared pid c p e, map-clean-cleared pid cs p e)

  cleared-alive :
      (pid : ℤ) (c : Lease) → orphaned exists c ≡ false → orphaned exists (cleared pid c) ≡ false
  cleared-alive pid c h = ground arith

  CleanUpTo-cleared :
      (pid : ℤ) (i : ℕ) (cs : List Lease) → CleanUpTo i cs → CleanUpTo i (map (cleared pid) cs)
  CleanUpTo-cleared pid zero cs h = tt
  CleanUpTo-cleared pid (suc i) [] h = tt
  CleanUpTo-cleared pid (suc i) (c ∷ cs) h =
      (cleared-alive pid c h.0, CleanUpTo-cleared pid i cs h.1)

  CleanUpTo-suc :
      (i : ℕ) (cs : List Lease)
      → CleanUpTo i cs
      → orphaned exists (get_or cs i free_slot) ≡ false
      → CleanUpTo (suc i) cs
  CleanUpTo-suc i [] h o = tt
  CleanUpTo-suc zero (c ∷ cs) h o = (o, tt)
  CleanUpTo-suc (suc i) (c ∷ cs) h o = (h.0, CleanUpTo-suc i cs h.1 o)

  map-clean_of_CleanUpTo :
      (i : ℕ) (cs : List Lease) → CleanUpTo i cs → length cs ≤ i → map clean cs ≡ cs
  map-clean_of_CleanUpTo i [] h le = refl
  map-clean_of_CleanUpTo zero (c ∷ cs) h le = absurd (omega arith)
  map-clean_of_CleanUpTo (suc i) (c ∷ cs) h le =
      cc (map-clean_of_CleanUpTo i cs h.1 (omega arith), let e : clean c ≡ c = rw (h.0) in e)

get_or-map-cleared :
    (pid : ℤ) (cs : List Lease) (i : ℕ)
    → get_or (map (cleared pid) cs) i free_slot ≡ cleared pid (get_or cs i free_slot)
get_or-map-cleared pid [] i = refl
get_or-map-cleared pid (c ∷ cs) zero = refl
get_or-map-cleared pid (c ∷ cs) (suc i) = get_or-map-cleared pid cs i

-- A slot that is cleared for its own process holds no orphaned lease.
cleared_self : (exists : ℤ → Bool) (c : Lease) → orphaned exists (cleared c.process_id c) ≡ false
cleared_self exists c = ground (arith, ==ℤ_iff c.process_id c.process_id)

orphaned-owned :
    (exists : ℤ → Bool) (c : Lease) → orphaned exists c ≡ true → owned_by c.process_id c ≡ true
orphaned-owned exists c h = ground (arith, ==ℤ_iff c.process_id c.process_id)

-- What the loop of `reap_dead_clients` leaves of `cs`, with its flag.
record Reaped (exists : ℤ → Bool) (cs : List Lease) (reaped : Bool) (out : Bool × List Lease)
    : Type 0 where
  table : out.1 ≡ map (clean exists) cs
  unchanged : out.0 ≡ false → (out.1 ≡ cs) × (reaped ≡ false)

reap_from-Reaped :
    (exists : ℤ → Bool) (n i : ℕ) (cs : List Lease) (reaped : Bool)
    → CleanUpTo exists i cs
    → length cs ≤ n + i
    → Reaped exists cs reaped (reap_from exists n i cs reaped)
unfolding reap_from reap_slot
reap_from-Reaped exists zero i cs reaped h le = record {
  table = sym (map-clean_of_CleanUpTo exists i cs h (omega arith));
  unchanged = λ e. (refl, e);
}
reap_from-Reaped exists (suc n) i cs reaped h le = elim (Bool-cases (orphaned exists c)) [
  | inl o ↦
      let p : is_positive pid ≡ true = ground arith in
      let e : exists pid ≡ false = ground arith in
      let some_held : (held pid cs == 0) ≡ false =
        ground (arith, held_pos pid cs i (orphaned-owned exists c o)) in
      let now_clean : orphaned exists (get_or (map (cleared pid) cs) i free_slot) ≡ false =
        rw (get_or-map-cleared pid cs i) (cleared_self exists c) in
      let rest =
        reap_from-Reaped exists n (suc i) (map (cleared pid) cs) true
          (CleanUpTo-suc exists i (map (cleared pid) cs) (CleanUpTo-cleared exists pid i cs h)
            now_clean)
          (omega (arith, length-map cs (cleared pid))) in
      rw (detach_process-eq-map cs pid p, o, some_held)
        (record {
          table = rest.table ∙ map-clean-cleared exists pid cs p e;
          unchanged = λ z. cc (rest.unchanged z).1;
        })
  | inr o ↦
      let rest =
        reap_from-Reaped exists n (suc i) cs reaped (CleanUpTo-suc exists i cs h o) (omega arith) in
      rw o rest
]
  where
    c : Lease
    c = get_or cs i free_slot

    pid : ℤ
    pid = c.process_id

-- Reaping a table of at most eight slots frees exactly the slots whose process is gone, and reports
-- `false` only if there was none.
pub reap_from_lem :
    (exists : ℤ → Bool) (cs : List Lease)
    → length cs ≤ 8
    → ((reap_from exists 8 0 cs false).1 ≡ map (clean exists) cs)
      × ((reap_from exists 8 0 cs false).0 ≡ false → map (clean exists) cs ≡ cs)
reap_from_lem exists cs le =
    let r = reap_from-Reaped exists 8 0 cs false tt (omega arith) in
    (r.table, λ e. sym r.table ∙ (r.unchanged e).0)

reap_slot-IsValid :
    (exists : ℤ → Bool) (c : Lease) (cs : List Lease) (reaped : Bool)
    → IsValid cs
    → IsValid (reap_slot exists c cs reaped).1
unfolding reap_slot
reap_slot-IsValid exists c cs reaped v = ground (arith, detach_process-IsValid c.process_id v)

-- The loop keeps the table valid.
pub reap_from-IsValid :
    (exists : ℤ → Bool) (n i : ℕ) (cs : List Lease) (reaped : Bool)
    → IsValid cs
    → IsValid (reap_from exists n i cs reaped).1
unfolding reap_from
reap_from-IsValid exists zero i cs reaped v = v
reap_from-IsValid exists (suc n) i cs reaped v =
    let c = get_or cs i free_slot in
    reap_from-IsValid exists n (suc i) (reap_slot exists c cs reaped).1
      (reap_slot exists c cs reaped).0 (reap_slot-IsValid exists c cs reaped v)
