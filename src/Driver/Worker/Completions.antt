-- ===== src/Driver/Worker/Completions.antt =====
-- Transfers that end, in any order (numark-ns6/audio-out/AudioOutWorker.cpp).
use numark_ns6_mac_arm.Double.{Double}
use numark_ns6_mac_arm.Driver.Output.{Trim, Ring}
use numark_ns6_mac_arm.Driver.Output.Batches.{IsRing}
use numark_ns6_mac_arm.Driver.Worker.{
  is_success, did_complete, Io, complete_transfer, check_resubmit, IsocFrame, Worker, submit_next,
  empty_batch, completed_well, final_status, slot_in_use,
}
use numark_ns6_mac_arm.Driver.Worker.Balance.{IsCounted, complete_transfer-IsCounted}
use numark_ns6_mac_arm.Driver.Worker.Runs.{IsWorker, Submits, submit_next-Submits}
use numark_ns6_mac_arm.Prelude.{
  ℕ, ◌+◌, ◌≤◌, ◌<◌, ◌≡◌, inl, inr, true, List, [], ◌∷◌, arith, Bool-cases, if-cases, get_or, length,
}

pub record Completion : Type 0 where
  pub slot : ℕ
  pub outcome : Io
  pub frames : List IsocFrame
  pub next_answer : Io

module _ {W R : Type 0} (d : Double W) (trim : Trim W) (ops : Ring W R) (law : IsRing ops) where
  -- A transfer that ends.
  record Ends (w v : Worker R) : Type 0 where
    pub worker : IsWorker d trim ops law v
    pub balance : v.submitted + w.transfers.in_flight ≡ w.submitted + v.transfers.in_flight + 1
    pub told : w.completed + w.failures < v.completed + v.failures

  -- The worker whose transfer in slot `i` has ended.
  abbrev ended : Worker R → ℕ → Worker R
  ended w i = record w { transfers = (complete_transfer w.transfers i).1 }

  check_resubmit-Ends :
      (w v : Worker R) (r : Io × Worker R)
      → Submits d trim ops law v r.1
      → w.completed + w.failures < v.completed + v.failures
      → v.submitted + w.transfers.in_flight ≡ w.submitted + v.transfers.in_flight + 1
      → Ends w (check_resubmit d trim ops r)
  unfolding IsCounted
  check_resubmit-Ends w v (result, u) s told balance = elim (Bool-cases (is_success result)) [
    | inl ok ↦ rw ok (record {
      worker = s.worker;
      balance = omega (arith, s.balance, balance);
      told = omega (arith, told, s.same_completed, s.same_failures);
    })
    | inr failed ↦ rw failed (record {
      worker = record { counted = s.worker.counted; source = s.worker.source };
      balance = omega (arith, s.balance, balance);
      told = omega (arith, told, s.same_completed, s.same_failures);
    })
  ]

  did_complete-Ends :
      (w : Worker R) (i : ℕ) (status : Io) (frames : List IsocFrame) (answer : Io)
      → IsWorker d trim ops law w
      → slot_in_use w.transfers i ≡ true
      → Ends w (did_complete d trim ops w i status frames answer)
  unfolding did_complete completed_well complete_transfer IsCounted
  did_complete-Ends w i status frames answer v used =
      let (back, count) = complete_transfer-IsCounted w.transfers i v.counted used in
      let missing = (get_or (complete_transfer w.transfers i).1.batches i empty_batch).missing in
      let well : Worker R = record (ended w i) {
        completed = w.completed + 1;
        underrun_frames = w.underrun_frames + missing;
      } in
      if-cases (λ (r : Worker R). Ends w r) (is_success (final_status status frames))
        (λ ok.
          if-cases (λ (r : Worker R). Ends w r) w.running
            (λ on.
              check_resubmit-Ends w well (submit_next d trim ops well answer)
                (submit_next-Submits d trim ops law well answer
                  (record { counted = back; source = v.source }))
                (omega arith) (omega (arith, count)))
            (λ off. record {
              worker = record { counted = back; source = v.source };
              balance = omega (arith, count);
              told = omega arith;
            }))
        (λ bad. record {
          worker = record { counted = back; source = v.source };
          balance = omega (arith, count);
          told = omega arith;
        })

  unfoldable pub complete_all : Worker R → List Completion → Worker R
  complete_all w [] = w
  complete_all w (c ∷ cs) =
      complete_all (did_complete d trim ops w c.slot c.outcome c.frames c.next_answer) cs

  -- Each completion is of a slot that is in use when it comes.
  unfoldable pub AreUnderWay : Worker R → List Completion → Type 0
  AreUnderWay w [] = Unit {0}
  AreUnderWay w (c ∷ cs) =
      (slot_in_use w.transfers c.slot ≡ true)
      × AreUnderWay (did_complete d trim ops w c.slot c.outcome c.frames c.next_answer) cs

  -- A worker in order, and completions of transfers under way, in any order, whatever their results and the
  -- answers to the next transfers. Of the transfers that were submitted those are under way that have
  -- not ended; the slots in use are as many; each end is counted as completed or as a failure; and the
  -- worker stays in order, so that each further batch can be built.
  pub complete_all_lem :
      (w : Worker R) (cs : List Completion)
      → IsWorker d trim ops law w
      → AreUnderWay w cs
      → IsWorker d trim ops law (complete_all w cs)
        × ((complete_all w cs).submitted + w.transfers.in_flight
            ≡ w.submitted + (complete_all w cs).transfers.in_flight + length cs)
        × (w.completed + w.failures + length cs
            ≤ (complete_all w cs).completed + (complete_all w cs).failures)
  unfolding complete_all AreUnderWay
  complete_all_lem w [] v under_way = (v, omega arith, omega arith)
  complete_all_lem w (c ∷ cs) v (used, later) =
      let e = did_complete-Ends w c.slot c.outcome c.frames c.next_answer v used in
      let v' = did_complete d trim ops w c.slot c.outcome c.frames c.next_answer in
      let (x, balance, told) = complete_all_lem v' cs e.worker later in
      (x, omega (arith, balance, e.balance), omega (arith, told, e.told))
