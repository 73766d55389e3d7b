-- ===== src/Driver/Worker/Runs.antt =====
-- Submissions and completions of the worker (numark-ns6/audio-out/AudioOutWorker.cpp).
use mathlib.Core.Path.{subst}
use numark_ns6_mac_arm.Double.{Double}
use numark_ns6_mac_arm.Driver.Output.{
  max_batch_bytes, batch_packets, Source, sum_bytes, build_batch, Trim, Batch, Ring,
}
use numark_ns6_mac_arm.Driver.Output.Batches.{IsSource, IsRing, build_batch_lem, IsBatch}
use numark_ns6_mac_arm.Driver.Worker.{
  is_success, Io, write_transfer, submit_next, Slots, all_zero, submit_reserved, empty_batch,
  Worker, find_free, transfer_slots, reserve_at, submit_batch, reserve_built, reserve, slot_in_use,
}
use numark_ns6_mac_arm.Driver.Worker.Balance.{
  taken-IsCounted, find_free-some, complete_transfer-IsCounted, IsCounted,
  complete_transfer-accepting,
}
use numark_ns6_mac_arm.Prelude.{
  ℕ, ◌+◌, ◌<◌, ◌≡◌, refl, sym, ap, ◌∙◌, inl, inr, true, false, not, ◌||◌, Option, some, arith,
  Bool-cases, Option-cases, if-cases, if◌then◌else◌, ltb, ◌==◌, get_or, get_or-set_self, length,
  set,
}

module _ {W R : Type 0} (d : Double W) (trim : Trim W) (ops : Ring W R) (law : IsRing ops) where
  pub record IsWorker (w : Worker R) : Type 0 where
    pub counted : IsCounted w.transfers
    pub source : IsSource d trim ops law w.source

  -- A submission: the worker stays in order, each transfer that is submitted is under way, and nothing
  -- else of the counters changes.
  pub record Submits (w : Worker R) (v : Worker R) : Type 0 where
    pub worker : IsWorker v
    pub balance : v.submitted + w.transfers.in_flight ≡ w.submitted + v.transfers.in_flight
    pub same_completed : v.completed ≡ w.completed
    pub same_failures : v.failures ≡ w.failures
    pub same_running : v.running ≡ w.running
    pub same_accepting : v.transfers.accepting ≡ w.transfers.accepting

  -- What the worker is when slot `i` has its batch.
  abbrev taken : Worker R → ℕ → Batch → Source R → Worker R
  taken w i b s = record w {
    transfers = record {
      batches = set w.transfers.batches i b;
      in_use = set w.transfers.in_use i true;
      accepting = w.transfers.accepting;
      in_flight = w.transfers.in_flight + 1;
    };
    source = s;
  }

  abbrev noted : Worker R → Batch → Worker R
  noted w b = record w { non_silent = if all_zero b.bytes then w.non_silent else w.non_silent + 1 }

  -- A batch that was built is written.
  submit_batch-written :
      (w : Worker R) (i : ℕ) (b : Batch) (answer : Io)
      → IsBatch batch_packets b
      → submit_batch d trim ops w i b answer ≡ write_transfer d trim ops (noted w b) i answer
  unfolding submit_batch
  submit_batch-written w i b answer v =
      let small : ltb max_batch_bytes (length b.bytes) ≡ false = ground (arith, v.at_most) in
      let adds : not (sum_bytes b.packet_bytes == length b.bytes) ≡ false =
        ground (arith, v.total) in
      rw (small, adds) refl

  in_use-taken :
      (w : Worker R) (i : ℕ) (b : Batch) (s : Source R)
      → i < length w.transfers.in_use
      → slot_in_use (taken w i b s).transfers i ≡ true
  unfolding slot_in_use
  in_use-taken w i b s lt = get_or-set_self w.transfers.in_use i true false lt

  write_transfer-Submits :
      (w : Worker R) (i : ℕ) (b : Batch) (s : Source R) (answer : Io)
      → IsWorker (taken w i b s)
      → i < length w.transfers.in_use
      → Submits w (write_transfer d trim ops (noted (taken w i b s) b) i answer).1
  write_transfer-Submits w i b s answer v lt =
      let t = taken w i b s in
      let (back, count) =
        complete_transfer-IsCounted t.transfers i v.counted (in_use-taken w i b s lt) in
      elim (Bool-cases (is_success answer)) [
        | inl ok ↦ rw ok (record {
          worker = record { counted = v.counted; source = v.source };
          balance = omega arith;
          same_completed = refl;
          same_failures = refl;
          same_running = refl;
          same_accepting = refl;
        })
        | inr refused ↦ rw refused (record {
          worker = record { counted = back; source = v.source };
          balance = omega (arith, count);
          same_completed = refl;
          same_failures = refl;
          same_running = refl;
          same_accepting = complete_transfer-accepting t.transfers i;
        })
      ]

  unchanged : (w v : Worker R) → IsWorker w → w ≡ v → Submits w v
  unchanged w v x e =
      subst (λ u. Submits w u) e
        (record {
          worker = x;
          balance = refl;
          same_completed = refl;
          same_failures = refl;
          same_running = refl;
          same_accepting = refl;
        })

  -- A slot that is free takes a batch, which is then written.
  reserve_at-some :
      (w : Worker R) (i : ℕ) (answer : Io)
      → IsWorker w
      → i < transfer_slots
      → get_or w.transfers.in_use i true ≡ false
      → (b : Batch) × (s : Source R) × IsWorker (taken w i b s)
        × (submit_reserved d trim ops w answer (reserve_at d trim ops w.transfers w.source (some i))
            ≡ write_transfer d trim ops (noted (taken w i b s) b) i answer)
  unfolding IsCounted
  reserve_at-some w i answer v lt free =
      let (b, built, whole, small, next) = build_batch_lem d trim ops law w.source v.source in
      let s = (build_batch d trim ops w.source).1 in
      let t = taken w i b s in
      let made : build_batch d trim ops w.source ≡ (some b, s) = ap (λ o. (o, s)) built in
      let same : get_or t.transfers.batches i empty_batch ≡ b =
        get_or-set_self w.transfers.batches i b empty_batch (omega (arith, lt, v.counted.1)) in
      (
        b,
        s,
        record { counted = taken-IsCounted w.transfers i b v.counted lt free; source = next },
        ap (λ r. submit_reserved d trim ops w answer (reserve_built d trim ops w.transfers i r))
              made
            ∙ ap (λ c. submit_batch d trim ops t i c answer) same
            ∙ submit_batch-written t i b answer whole,
      )

  pub submit_next-Submits :
      (w : Worker R) (answer : Io) → IsWorker w → Submits w (submit_next d trim ops w answer).1
  unfolding submit_next reserve IsCounted
  submit_next-Submits w answer v =
      if-cases (λ (r : Io × Worker R). Submits w r.1) (not w.running || not w.has_interface)
        (λ e. unchanged w w v refl)
        (λ e.
          if-cases
            (λ (r : Option ℕ × Slots × Source R).
              Submits w (submit_reserved d trim ops w answer r).1)
            w.transfers.accepting
            (λ on. elim (Option-cases (find_free w.transfers.in_use 0)) [
              | inl full ↦
                  subst
                    (λ o.
                      Submits w
                        (submit_reserved d trim ops w answer
                          (reserve_at d trim ops w.transfers w.source o)).1)
                    (sym full) (unchanged w w v refl)
              | inr (i, found) ↦
                  let (j, at, lt, free) = find_free-some w.transfers.in_use 0 i found in
                  let same : i ≡ j = omega (arith, at) in
                  let in_range : i < length w.transfers.in_use = omega (arith, same, lt) in
                  let (b, s, x, written) =
                    reserve_at-some w i answer v (omega (arith, in_range, v.counted.0))
                      (ap (λ k. get_or w.transfers.in_use k true) same ∙ free) in
                  subst
                    (λ o.
                      Submits w
                        (submit_reserved d trim ops w answer
                          (reserve_at d trim ops w.transfers w.source o)).1)
                    (sym found)
                    (subst (λ r. Submits w r.1) (sym written)
                      (write_transfer-Submits w i b s answer x in_range))
            ])
            (λ off. unchanged w w v refl))
