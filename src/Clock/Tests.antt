-- ===== src/Clock/Tests.antt =====
-- The clock control (coreaudio/NS6ClockControl.c) from its initial state.
use numark_ns6_mac_arm.Clock.{
  init, observe, next_millisecond, is_valid, pattern_capacity, ClockControl, Build, window_size,
  zero_queue, zero_window,
}
use numark_ns6_mac_arm.Clock.Cadence.{next_millisecond_serves, next_millisecond_lem}
use numark_ns6_mac_arm.Clock.Reports.{IsSound, queued, observe_lem, queued_after}
use numark_ns6_mac_arm.Clock.Window.{kept, sum, recent}
use numark_ns6_mac_arm.Prelude.{
  ℕ, ◌≤◌, ◌≡◌, refl, true, false, [], ◌∷◌, ◌++◌, arith, length, length-replicate,
}
use numark_ns6_mac_arm.Prelude.Words.{add64}

abbrev adaptive_build : Build
adaptive_build = record {
  adaptive = true;
  pattern_scheduler = true;
  min_output_rate_millihz = 44000000;
}

length-zero_window : length zero_window ≡ window_size
unfolding zero_window
length-zero_window = length-replicate {A = ℕ} window_size 0

length-zero_queue : length zero_queue ≡ pattern_capacity
unfolding zero_queue
length-zero_queue = length-replicate {A = ℕ} pattern_capacity 0

init-IsSound : IsSound init
unfolding init sum
init-IsSound = record {
  window = record {
    slots = length-zero_window;
    index_lt = omega arith;
    count_le = omega arith;
    valid = tt;
    total = refl;
  };
  queue = record {
    queue_slots = length-zero_queue;
    read_lt = omega arith;
    queue_le = omega arith;
    queue_valid = tt;
  };
  rate = ((λ e. absurd (omega arith)), λ lt. refl);
  fraction_lt = omega arith;
  millionths_lt = omega arith;
}

good_report : is_valid 45 ≡ true
unfolding is_valid
good_report = refl

observe_lem_example :
    (is_valid 45 ≡ false → observe adaptive_build init 45 ≡ init)
    × (is_valid 45 ≡ true
        → IsSound (observe adaptive_build init 45)
          × (recent (observe adaptive_build init 45) ≡ kept init ++ (45 ∷ []))
          × (queued (observe adaptive_build init 45) ≡ queued_after adaptive_build init 45))
observe_lem_example = observe_lem adaptive_build init 45 init-IsSound

-- After one report of 45 frames.
told : ClockControl
told = observe adaptive_build init 45

told-IsSound : IsSound told
unfolding told
told-IsSound = (observe_lem_example.1 good_report).0

queued-told : queued told ≡ 45 ∷ []
unfolding told init
queued-told = (observe_lem_example.1 good_report).2

next_millisecond_serves_example :
    let (packets, c') = next_millisecond adaptive_build told in
    (sum packets ≡ 45) × (queued c' ≡ [])
next_millisecond_serves_example =
    next_millisecond_serves adaptive_build told 45 [] told-IsSound refl refl queued-told

next_millisecond_lem_example :
    let (packets, c') = next_millisecond adaptive_build told in
    (length packets ≡ 8)
    × (40 ≤ sum packets)
    × (sum packets ≤ 48)
    × (c'.sent_total ≡ add64 told.sent_total (sum packets))
    × IsSound c'
next_millisecond_lem_example = next_millisecond_lem adaptive_build told told-IsSound
