-- ===== src/Mapping/Count.antt =====
-- The counter of the mapping counts its threads, whatever the loads return (coreaudio/NS6HALMapping.h).
use numark_ns6_mac_arm.Mapping.{
  outside, counted, Call, withdraw, draining, withdrawn, reader_step, owner_step, publish, by_owner,
  run, Reader, by_reader, Seen, refused, published, start, storing, System, leased, act, Owner,
  Action, loaded, Mapping,
}
use numark_ns6_mac_arm.Mapping.Invariant.{start-IsSafe, weight_le, weight}
use numark_ns6_mac_arm.Prelude.{
  ℕ, ◌+◌, ◌-◌, ◌%◌, ◌^◌, ◌<◌, ◌≡◌, refl, sym, ◌∙◌, ◌↔◌, inl, inr, List, [], ◌∷◌, arith, Bool-cases,
  Option-cases, if-cases, ltb, ◌==◌, get_or, length, length-set, set,
}
use numark_ns6_mac_arm.Threads.{inside_le, inside-set, inside}

pub record IsCounted (s : System) : Type 0 where
  pub few : length s.threads < 2 ^ 32
  pub count : s.mapping.readers ≡ inside weight s.threads

-- What one access of a thread does to the counter.
reader_step-counts :
    (m : Mapping) (r : Reader) (seen : Seen)
    → m.readers < 2 ^ 32
    → (reader_step m r seen).0.readers
      ≡ (m.readers + weight (reader_step m r seen).1 + (2 ^ 32 - weight r)) % 2 ^ 32
unfolding reader_step
reader_step-counts m outside seen lt = omega arith
reader_step-counts m counted seen lt = elim (Option-cases seen.memory_seen) [
  | inl nothing ↦ rw nothing (omega arith)
  | inr (p, something) ↦ rw something (omega arith)
]
reader_step-counts m (loaded p) seen lt = omega arith
reader_step-counts m (leased p s) seen lt = omega arith
reader_step-counts m refused seen lt = omega arith

act_reader-IsCounted :
    (s : System) (i : ℕ) (seen : Seen) → IsCounted s → IsCounted (act s (by_reader i seen))
unfolding act
act_reader-IsCounted s i seen v =
    if-cases IsCounted (ltb i (length s.threads))
      (λ lt.
        let r = get_or s.threads i outside in
        let r' = (reader_step s.mapping r seen).1 in
        let total = inside-set weight s.threads i outside r' (ground (arith, lt)) in
        let len = length-set s.threads i r' in
        let before = inside_le weight weight_le s.threads in
        let behind = inside_le weight weight_le (set s.threads i r') in
        let one = weight_le r in
        let now = reader_step-counts s.mapping r seen (omega (arith, before, v.count, v.few)) in
        record {
          few = omega (arith, len, v.few);
          count = omega (arith, total, len, behind, one, now, v.few, v.count);
        })
      (λ ge. v)

act_owner-IsCounted :
    (m : Mapping) (o : Owner) (ts : List Reader) (c : Call) (seen : Seen)
    → IsCounted (record { mapping = m; owner = o; threads = ts })
    → IsCounted (act (record { mapping = m; owner = o; threads = ts }) (by_owner c seen))
unfolding act owner_step
act_owner-IsCounted m withdrawn ts (publish p s) seen v = record { few = v.few; count = v.count }
act_owner-IsCounted m withdrawn ts withdraw seen v = record { few = v.few; count = v.count }
act_owner-IsCounted m (storing p) ts c seen v = record { few = v.few; count = v.count }
act_owner-IsCounted m published ts (publish p s) seen v = record { few = v.few; count = v.count }
act_owner-IsCounted m published ts withdraw seen v = record { few = v.few; count = v.count }
act_owner-IsCounted m draining ts c seen v = record { few = v.few; count = v.count }

pub run-IsCounted : (s : System) (actions : List Action) → IsCounted s → IsCounted (run s actions)
unfolding run
run-IsCounted s [] v = v
run-IsCounted s (by_owner c seen ∷ later) v =
    run-IsCounted (act s (by_owner c seen)) later
      (act_owner-IsCounted s.mapping s.owner s.threads c seen v)
run-IsCounted s (by_reader i seen ∷ later) v =
    run-IsCounted (act s (by_reader i seen)) later (act_reader-IsCounted s i seen v)

drain_turn :
    (m : Mapping) (o : Owner) (ts : List Reader) (c : Call) (seen : Seen)
    → o ≡ draining
    → let s : System = record { mapping = m; owner = o; threads = ts } in
      ((act s (by_owner c seen)).owner ≡ withdrawn) ↔ (seen.readers_seen ≡ 0)
unfolding act owner_step
drain_turn m withdrawn ts c seen h = cc
drain_turn m (storing p) ts c seen h = cc
drain_turn m published ts c seen h = cc
drain_turn m draining ts c seen h = elim (Bool-cases (seen.readers_seen == 0)) [
  | inl e ↦ rw e ((λ _. ground arith), (λ _. refl))
  | inr e ↦ rw e ((λ bad. cc), (λ z. ground arith))
]

-- However the threads and the owner interleave, and whatever, old or new, the loads before return: once the
-- owner's look at the counter returns the value written last, it ends `withdraw` exactly if no thread is between
-- its entry and its exit.
pub act-run_drained :
    (n : ℕ) (actions : List Action) (c : Call) (seen : Seen)
    → n < 2 ^ 32
    → let s = run (start n) actions in
      s.owner ≡ draining
      → seen.readers_seen ≡ s.mapping.readers
      → (((act s (by_owner c seen)).owner ≡ withdrawn) ↔ (inside weight s.threads ≡ 0))
act-run_drained n actions c seen lt h fresh =
    let s = run (start n) actions in
    let begun = start-IsSafe n lt in
    let v = run-IsCounted (start n) actions (record { few = begun.few; count = begun.count }) in
    let turn = drain_turn s.mapping s.owner s.threads c seen h in
    (
      (λ done. sym v.count ∙ sym fresh ∙ turn.0 done),
      (λ none_in. turn.1 (fresh ∙ v.count ∙ none_in)),
    )
