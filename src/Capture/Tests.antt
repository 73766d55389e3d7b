-- ===== src/Capture/Tests.antt =====
-- The capture ring (coreaudio/NS6CaptureRing.h) near the end of its slots.
use numark_ns6_mac_arm.Capture.{CaptureRing, capacity}
use numark_ns6_mac_arm.Capture.Queue.{IsValid, contents}
use numark_ns6_mac_arm.Capture.Run.{
  Op, run_ops, flush, took, queue_step, run_queue, run_refines, nothing, gave, put, get,
}
use numark_ns6_mac_arm.Prelude.{
  ℕ, ◌≡◌, refl, List, [], ◌∷◌, arith, length, length-replicate, replicate,
}

-- A ring whose cursors stand at the last slot, over slots that hold 0.
zeros : List ℕ
zeros = replicate capacity 0

length-zeros : length zeros ≡ capacity
unfolding zeros
length-zeros = length-replicate {A = ℕ} capacity 0

abbrev late : CaptureRing ℕ
late = record { samples = zeros; head = 8191; tail = 8191 }

late-IsValid : IsValid late
late-IsValid = record {
  slots = length-zeros;
  head_u64 = omega arith;
  tail_u64 = omega arith;
  used_le = omega arith;
}

abbrev ops : List (Op ℕ)
ops = put (7 ∷ 8 ∷ 9 ∷ []) ∷ get 2 ∷ get 2 ∷ flush ∷ []

run_refines_example : run_ops 0 late ops ≡ run_queue 0 (contents 0 late) ops
run_refines_example = run_refines 0 ops late late-IsValid

-- Three frames go round the end of the slots, and come out in order with silence behind.
run_queue_example :
    run_queue 0 [] ops ≡ took 3 ∷ gave 2 (7 ∷ 8 ∷ []) ∷ gave 1 (9 ∷ 0 ∷ []) ∷ nothing ∷ []
unfolding run_queue queue_step
run_queue_example = refl
