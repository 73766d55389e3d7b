-- ===== src/Driver/Packets/Start.antt =====
-- The policy that the constructor makes for 44100 Hz and 8000 packets per second
-- (numark-ns6/audio-out/AudioPacketPolicy.cpp).
use numark_ns6_mac_arm.Driver.Packets.{
  queue_capacity, empty_window, Policy, first_history, history_size, nominal_pattern, is_report,
  new_policy, build_pattern,
}
use numark_ns6_mac_arm.Driver.Packets.Patterns.{all_steps-Every, IsPlaying}
use numark_ns6_mac_arm.Prelude.{◌≡◌, refl, false, some, arith, replicate}

abbrev pub fresh : Policy
fresh = record {
  whole_frames = 5;
  remainder_frames = 4100;
  service_intervals = 8000;
  sample_rate = 44100;
  phase = 0;
  feedback_pattern = nominal_pattern;
  history = first_history 0 history_size;
  history_cursor = 0;
  reacquisition_reference = 0;
  pattern_locked = false;
  queue = replicate queue_capacity 0;
  queue_read = 0;
  queue_count = 0;
  window = empty_window;
  feedback_sum = 0;
  feedback_count = 0;
  feedback_index = 0;
  measured_millihz = 44100000;
  pattern_index = 0;
  nominal_fraction = 0;
}

fresh_so : new_policy 44100 8000 ≡ some fresh
unfolding new_policy build_pattern is_report
fresh_so = refl

pub fresh-IsPlaying : IsPlaying fresh
unfolding first_history
fresh-IsPlaying = record {
  rate = refl;
  pattern = record { steps = all_steps-Every nominal_pattern refl; eight = refl };
  past = all_steps-Every (first_history 0 history_size) refl;
  past_size = refl;
  index = omega arith;
  fraction = omega arith;
}
