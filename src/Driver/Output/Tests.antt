-- ===== src/Driver/Output/Tests.antt =====
-- A batch from a ring whose state is the number of its frames, all of the value 1.
-- Doubles that are whole numbers.
use numark_ns6_mac_arm.Double.{Double}
use numark_ns6_mac_arm.Driver.Output.{
  batch_packets, Trim, Ring, Source, build_batch, max_batch_bytes, Batch,
}
use numark_ns6_mac_arm.Driver.Output.Batches.{build_batch_lem, IsBatch, IsSource, IsRing}
use numark_ns6_mac_arm.Driver.Packets.Start.{fresh, fresh-IsPlaying}
use numark_ns6_mac_arm.Prelude.{
  ℕ, ◌+◌, ◌-◌, ◌*◌, ◌≤◌, min, ◌≡◌, refl, true, some, arith, ltb, length, replicate,
}
use numark_ns6_mac_arm.Prelude.Int.{pos, negsuc, ℤ}

abbrev whole_of : ℤ → ℕ
whole_of (pos n) = n
whole_of (negsuc n) = 0

abbrev whole_doubles : Double ℕ
whole_doubles = record {
  of_int = whole_of;
  half = 0;
  three_halves = 2;
  add = ◌+◌;
  sub = ◌-◌;
  mul = ◌*◌;
  less = ltb;
  is_finite = λ w. true;
  whole = λ w. w;
  round = pos;
}

abbrev no_trim : Trim ℕ
no_trim = record {
  div = λ a b. a;
  llround = pos;
  per_frame = 0;
  least_trim = 0;
  most_trim = 0;
  least_step = 0;
  most_step = 0;
}

abbrev ones : Ring ℕ ℕ
ones = record {
  ring_channels = λ r. 4;
  available_frames = λ r. r;
  read_resampled = λ r frames step. (min frames r, replicate (min frames r * 4) 1, r - frames);
  advance_resampled = λ r frames step. r;
}

ones-IsRing : IsRing ones
ones-IsRing = record {
  read_le = λ r frames step. omega arith;
  read_channels = λ r frames step. refl;
  advance_channels = λ r frames step. refl;
}

abbrev first_source : Source ℕ
first_source = record { ring = 100; policy = fresh }

build_batch_lem_example :
    (b : Batch) × ((build_batch whole_doubles no_trim ones first_source).0 ≡ some b)
    × IsBatch batch_packets b
    × (length b.bytes ≤ max_batch_bytes)
    × IsSource whole_doubles no_trim ones ones-IsRing
        (build_batch whole_doubles no_trim ones first_source).1
build_batch_lem_example =
    build_batch_lem whole_doubles no_trim ones ones-IsRing first_source
      (record { stereo_pairs = refl; playing = fresh-IsPlaying })
