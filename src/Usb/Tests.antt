-- ===== src/Usb/Tests.antt =====
-- Runs of the capture reads on concrete drains.
use numark_ns6_mac_arm.Capture.{store, capacity, write}
use numark_ns6_mac_arm.Prelude.{ℕ, ◌≡◌, refl, true, false, none, [], ◌∷◌, arith, replicate}
use numark_ns6_mac_arm.Usb.{
  is_current, take_block, io_stalled, final_answer, end_demand, io_success, io_other, stop_drain,
  submit_read, is_stall, is_success, read_slots, reset_session, read_complete, Answers, Read,
  use_block, no_read, submit_all, read_at, Drain, start_drain, accept_frames,
}
use numark_ns6_mac_arm.Usb.Resubmit.{read_complete-resubmits}
use numark_ns6_mac_arm.Usb.Stale.{stale_read_lem}

abbrev still_drain : Drain ℕ
still_drain = record {
  running = false;
  pipe_open = true;
  generation = 4;
  reads = replicate read_slots no_read;
  completions = 0;
  errors = 0;
  frames_decoded = 0;
  ring_drops = 0;
  ring = record { samples = replicate capacity 0; head = 0; tail = 0 };
  own_demand = record { requested = true; last_demand_ns = 1000 };
  shared_demand = none;
}

abbrev accepted : Answers
accepted = record { first_read = io_success; cleared = io_success; second_read = io_success }

abbrev stalled : Answers
stalled = record { first_read = io_stalled; cleared = io_success; second_read = io_success }

-- The third read is refused.
abbrev refused : Answers
refused = record { first_read = io_other 7; cleared = io_success; second_read = io_success }

abbrev flying_read : Read
flying_read = record { in_flight = true; read_generation = 5 }

abbrev busy_drain : Drain ℕ
busy_drain = record still_drain {
  running = true;
  generation = 5;
  reads = flying_read ∷ flying_read ∷ (record { in_flight = false; read_generation = 5 }) ∷ [];
  errors = 1;
}

start_so : start_drain still_drain accepted stalled refused ≡ busy_drain
unfolding start_drain submit_all submit_read final_answer is_success is_stall
start_so = refl

frames_arrive :
    (read_complete (λ d. d) busy_drain 0 io_success (8 ∷ 9 ∷ []) 2000 accepted).frames_decoded ≡ 2
unfolding read_complete use_block take_block accept_frames is_current submit_read final_answer
    is_success is_stall write store
frames_arrive = refl

-- A reset while the block is decoded keeps its frames out.
frames_are_dropped :
    (read_complete reset_session busy_drain 0 io_success (8 ∷ 9 ∷ []) 2000 accepted).ring.head ≡ 0
unfolding read_complete use_block take_block accept_frames is_current submit_read final_answer
    is_success is_stall write store reset_session
frames_are_dropped = refl

demand_runs_out :
    (read_complete
      (λ d. d)
      busy_drain
      0
      io_success
      (8 ∷ [])
      250001000
      accepted).own_demand.requested
    ≡ false
unfolding read_complete use_block end_demand submit_read final_answer is_success is_stall
demand_runs_out = refl

stale_read_lem_example :
    let restarted = start_drain (stop_drain busy_drain) accepted accepted accepted in
    let late = read_complete (λ d. d) restarted 1 io_success (8 ∷ 9 ∷ []) 2000 accepted in
    (late.ring ≡ busy_drain.ring) × (late.completions ≡ busy_drain.completions)
stale_read_lem_example =
    stale_read_lem (λ d. d) busy_drain 1 io_success (8 ∷ 9 ∷ []) 2000 accepted accepted accepted
      accepted refl refl

read_complete-resubmits_example :
    let after = read_complete (λ d. d) busy_drain 0 io_success (8 ∷ 9 ∷ []) 2000 stalled in
    read_at after 0 ≡ record { in_flight = true; read_generation = after.generation }
unfolding final_answer is_success is_stall
read_complete-resubmits_example =
    read_complete-resubmits (λ d. d) busy_drain 0 io_success (8 ∷ 9 ∷ []) 2000 stalled (omega arith)
      refl refl (λ x idle. idle) refl
