-- ===== src/Driver/Worker/Tests.antt =====
-- A worker with a ring whose state is the number of its frames, all of the value 1.
-- Doubles that are whole numbers.
use numark_ns6_mac_arm.Double.{Double}
use numark_ns6_mac_arm.Driver.Output.{Trim, Ring, Source}
use numark_ns6_mac_arm.Driver.Output.Batches.{IsRing}
use numark_ns6_mac_arm.Driver.Packets.Start.{fresh, fresh-IsPlaying}
use numark_ns6_mac_arm.Driver.Worker.{
  is_success, did_complete, io_success, io_other, complete_transfer, Worker, transfer_slots,
  empty_batch, Slots, final_status, slot_in_use,
}
use numark_ns6_mac_arm.Driver.Worker.Balance.{used_weight, IsCounted}
use numark_ns6_mac_arm.Driver.Worker.Completions.{
  Completion, complete_all_lem, AreUnderWay, complete_all,
}
use numark_ns6_mac_arm.Driver.Worker.Runs.{IsWorker}
use numark_ns6_mac_arm.Prelude.{
  ℕ, ◌+◌, ◌-◌, ◌*◌, ◌≤◌, min, ◌≡◌, refl, true, false, List, [], ◌∷◌, arith, ltb, replicate,
}
use numark_ns6_mac_arm.Prelude.Int.{pos, negsuc, ℤ}

abbrev whole_of : ℤ → ℕ
whole_of (pos n) = n
whole_of (negsuc n) = 0

abbrev whole_doubles : Double ℕ
whole_doubles = record {
  of_int = whole_of;
  half = 0;
  three_halves = 2;
  add = ◌+◌;
  sub = ◌-◌;
  mul = ◌*◌;
  less = ltb;
  is_finite = λ w. true;
  whole = λ w. w;
  round = pos;
}

abbrev no_trim : Trim ℕ
no_trim = record {
  div = λ a b. a;
  llround = pos;
  per_frame = 0;
  least_trim = 0;
  most_trim = 0;
  least_step = 0;
  most_step = 0;
}

abbrev ones : Ring ℕ ℕ
ones = record {
  ring_channels = λ r. 4;
  available_frames = λ r. r;
  read_resampled = λ r frames step. (min frames r, replicate (min frames r * 4) 1, r - frames);
  advance_resampled = λ r frames step. r;
}

ones-IsRing : IsRing ones
ones-IsRing = record {
  read_le = λ r frames step. omega arith;
  read_channels = λ r frames step. refl;
  advance_channels = λ r frames step. refl;
}

abbrev first_source : Source ℕ
first_source = record { ring = 100; policy = fresh }

abbrev first_transfers : Slots
first_transfers = record {
  batches = replicate transfer_slots empty_batch;
  in_use = replicate transfer_slots false;
  accepting = true;
  in_flight = 0;
}

abbrev idle_worker : Worker ℕ
idle_worker = record {
  has_interface = true;
  running = true;
  source = first_source;
  transfers = first_transfers;
  submitted = 0;
  completed = 0;
  failures = 0;
  non_silent = 0;
  underrun_frames = 0;
}

-- Two transfers are under way.
abbrev busy_worker : Worker ℕ
busy_worker = record idle_worker {
  transfers = record first_transfers { in_use = true ∷ true ∷ replicate 6 false; in_flight = 2 };
  submitted = 2;
}

busy_worker-IsWorker : IsWorker whole_doubles no_trim ones ones-IsRing busy_worker
unfolding IsCounted used_weight
busy_worker-IsWorker = record {
  counted = (refl, refl, refl);
  source = record { stereo_pairs = refl; playing = fresh-IsPlaying };
}

-- The second transfer fails, then the first.
abbrev some_ends : List Completion
some_ends =
    record { slot = 1; outcome = io_other 5; frames = []; next_answer = io_success }
    ∷ record { slot = 0; outcome = io_other 5; frames = []; next_answer = io_success }
    ∷ []

some_ends-AreUnderWay : AreUnderWay whole_doubles no_trim ones ones-IsRing busy_worker some_ends
unfolding AreUnderWay slot_in_use did_complete complete_transfer final_status is_success
some_ends-AreUnderWay = (refl, (refl, tt))

complete_all_lem_example :
    IsWorker whole_doubles no_trim ones ones-IsRing
      (complete_all whole_doubles no_trim ones ones-IsRing busy_worker some_ends)
    × ((complete_all whole_doubles no_trim ones ones-IsRing busy_worker some_ends).submitted + 2
        ≡ 2
          + (complete_all whole_doubles no_trim ones ones-IsRing busy_worker
              some_ends).transfers.in_flight
          + 2)
    × (0 + 0 + 2
        ≤ (complete_all whole_doubles no_trim ones ones-IsRing busy_worker some_ends).completed
          + (complete_all whole_doubles no_trim ones ones-IsRing busy_worker some_ends).failures)
complete_all_lem_example =
    complete_all_lem whole_doubles no_trim ones ones-IsRing busy_worker some_ends
      busy_worker-IsWorker some_ends-AreUnderWay
