-- ===== src/Driver/Output/Batches.antt =====
-- A batch is always built, and fits its transfer (numark-ns6/audio-out/AudioOutPacket.cpp,
-- AudioOutTransferBatch.cpp).
-- What the packets rely on of the ring: a read produces no more than it was asked for, and neither call
-- changes the number of channels.
use numark_ns6_mac_arm.Double.{Double}
use numark_ns6_mac_arm.Driver.Output.{
  build_rest, max_packet_frames, build_batch, max_batch_bytes, Source, add_packet, build_packet,
  source_frames, build_next, sum_bytes, Packet, pack_samples, Trim, fill_packet, Ring, pack_sample,
  batch_packets, Batch,
}
use numark_ns6_mac_arm.Driver.Packets.{next_packet_frames}
use numark_ns6_mac_arm.Driver.Packets.Millisecond.{next_packet_frames-IsPlaying}
use numark_ns6_mac_arm.Driver.Packets.Patterns.{IsStep, IsPlaying}
use numark_ns6_mac_arm.Prelude.{
  ℕ, zero, suc, ◌+◌, ◌-◌, ◌*◌, ◌≤◌, ◌≡◌, refl, ap, ◌∙◌, ◌⊎◌, false, not, ◌||◌, Option, none, some,
  List, [], ◌∷◌, ◌++◌, arith, if-cases, ltb, ◌==◌, Every, Every-append, length, length-append,
  length-replicate, replicate,
}

pub record IsRing {W R : Type 0} (ops : Ring W R) : Type 0 where
  pub read_le : (r : R) (frames : ℕ) (step : W) → (ops.read_resampled r frames step).0 ≤ frames
  pub read_channels :
      (r : R) (frames : ℕ) (step : W)
      → ops.ring_channels (ops.read_resampled r frames step).2 ≡ ops.ring_channels r
  pub advance_channels :
      (r : R) (frames : ℕ) (step : W)
      → ops.ring_channels (ops.advance_resampled r frames step) ≡ ops.ring_channels r

-- The bytes of a packet of 5 or 6 frames.
abbrev IsSize : ℕ → Type 0
IsSize bytes = (bytes ≡ 60) ⊎ (bytes ≡ 72)

pub record IsBatch (count : ℕ) (b : Batch) : Type 0 where
  pub packets_count : length b.packet_bytes ≡ count
  pub sizes : Every IsSize b.packet_bytes
  pub total : sum_bytes b.packet_bytes ≡ length b.bytes
  pub at_most : length b.bytes ≤ count * 72

step-IsSize : (frames : ℕ) → IsStep frames → IsSize (frames * 12)
step-IsSize frames small = ground (arith, small)

sum_bytes-append : (ns ms : List ℕ) → sum_bytes (ns ++ ms) ≡ sum_bytes ns + sum_bytes ms
unfolding sum_bytes
sum_bytes-append [] ms = omega arith
sum_bytes-append (n ∷ ns) ms = omega (arith, sum_bytes-append ns ms)

module _ {W R : Type 0} (d : Double W) (trim : Trim W) (ops : Ring W R) (law : IsRing ops) where
  -- A source that packets can be built from.
  pub record IsSource (s : Source R) : Type 0 where
    pub stereo_pairs : ops.ring_channels s.ring ≡ 4
    pub playing : IsPlaying s.policy

  length-pack_samples :
      (samples : List W) (n : ℕ) → length (pack_samples d trim ops samples n) ≤ n * 3
  unfolding pack_samples pack_sample
  length-pack_samples samples zero = omega arith
  length-pack_samples [] (suc n) = omega arith
  length-pack_samples (x ∷ samples) (suc n) = omega (arith, length-pack_samples samples n)

  -- A packet, and the source behind it.
  abbrev Built : Option Packet × Source R → Type 0
  Built (none, s) = ⊥
  Built (some p, s) = IsStep p.frames × (length p.bytes ≡ p.frames * 12) × IsSource s

  fill_packet-Built :
      (s : Source R) (frames : ℕ)
      → IsSource s
      → IsStep frames
      → (length (fill_packet d trim ops s frames).0.bytes ≡ frames * 12)
        × IsSource (fill_packet d trim ops s frames).1
  unfolding fill_packet
  fill_packet-Built s frames v small =
      let step = source_frames d trim ops s.policy (ops.available_frames s.ring) in
      let read = ops.read_resampled s.ring frames step in
      let packed = pack_samples d trim ops read.1 (read.0 * 4) in
      let filler : List ℕ = replicate (frames * 12 - length packed) 0 in
      let bounded = length-pack_samples read.1 (read.0 * 4) in
      let le = law.read_le s.ring frames step in
      let same = law.read_channels s.ring frames step ∙ v.stereo_pairs in
      (
        omega (
          arith,
          length-append packed filler,
          length-replicate {A = ℕ} (frames * 12 - length packed) 0,
          bounded,
          le,
        ),
        record {
          stereo_pairs =
              if-cases (λ r. ops.ring_channels r ≡ 4) (frames - read.0 == 0) (λ e. same)
                (λ e. law.advance_channels read.2 (frames - read.0) step ∙ same);
          playing = v.playing;
        },
      )

  build_packet-Built : (s : Source R) → IsSource s → Built (build_packet d trim ops s)
  unfolding build_packet
  build_packet-Built s v =
      let stereo : not (ops.ring_channels s.ring == 4) ≡ false = ground (arith, v.stereo_pairs) in
      let (small, w) = next_packet_frames-IsPlaying s.policy v.playing in
      let frames = (next_packet_frames s.policy).0 in
      let allowed : (ltb max_packet_frames frames || frames == 0) ≡ false = ground (arith, small) in
      let t : Source R = record s { policy = (next_packet_frames s.policy).1 } in
      let (size, u) =
        fill_packet-Built t frames (record { stereo_pairs = v.stereo_pairs; playing = w }) small in
      rw (stereo, allowed) (small, size, u)

  -- The rest of a batch, and the source behind it.
  abbrev Batched : ℕ → Option Batch × Source R → Type 0
  Batched count (none, s) = ⊥
  Batched count (some b, s) = IsBatch count b × IsSource s

  add_packet-IsBatch :
      (count : ℕ) (b : Batch) (p : Packet)
      → IsBatch count b
      → IsStep p.frames
      → length p.bytes ≡ p.frames * 12
      → IsBatch (count + 1) (add_packet d trim ops b p)
  unfolding sum_bytes
  add_packet-IsBatch count b p v small size =
      let bytes = length-append b.bytes p.bytes in
      record {
        packets_count =
            length-append b.packet_bytes (p.frames * 12 ∷ []) ∙ ap (λ n. n + 1) v.packets_count;
        sizes =
            Every-append IsSize b.packet_bytes (p.frames * 12 ∷ []) v.sizes
              (step-IsSize p.frames small, tt);
        total =
            omega
              (arith, sum_bytes-append b.packet_bytes (p.frames * 12 ∷ []), v.total, bytes, size);
        at_most = omega (arith, bytes, size, v.at_most, small.1);
      }

  build_next-Batched :
      (n count : ℕ) (b : Batch) (r : Option Packet × Source R)
      → IsBatch count b
      → Built r
      → ((b' : Batch) (s : Source R)
          → IsBatch (count + 1) b'
          → IsSource s
          → Batched (count + 1 + n) (build_rest d trim ops n b' s))
      → Batched (count + suc n) (build_next d trim ops (build_rest d trim ops n) b r)
  build_next-Batched n count b (none, s) v made rest = absurd made
  build_next-Batched n count b (some p, s) v (small, size, w) rest =
      let e : count + suc n ≡ count + 1 + n = omega arith in
      rw e (rest (add_packet d trim ops b p) s (add_packet-IsBatch count b p v small size) w)

  build_rest-Batched :
      (n count : ℕ) (b : Batch) (s : Source R)
      → IsBatch count b
      → IsSource s
      → Batched (count + n) (build_rest d trim ops n b s)
  unfolding build_rest
  build_rest-Batched zero count b s v w =
      let same : count + 0 ≡ count = omega arith in rw same (v, w)
  build_rest-Batched (suc n) count b s v w =
      build_next-Batched n count b (build_packet d trim ops s) v (build_packet-Built s w)
        (λ b' t v' w'. build_rest-Batched n (count + 1) b' t v' w')

  some_batch :
      (r : Option Batch × Source R)
      → Batched batch_packets r
      → (b : Batch) × (r.0 ≡ some b)
        × IsBatch batch_packets b
        × (length b.bytes ≤ max_batch_bytes)
        × IsSource r.1
  some_batch (none, s) made = absurd made
  some_batch (some b, s) (v, w) = (b, refl, v, omega (arith, v.at_most), w)

  -- A batch is built from any such source: 32 packets of 60 or 72 bytes, whose sizes add up to the
  -- bytes of the batch, which fit into its buffer; and the source stays one.
  pub build_batch_lem :
      (s : Source R)
      → IsSource s
      → (b : Batch) × ((build_batch d trim ops s).0 ≡ some b)
        × IsBatch batch_packets b
        × (length b.bytes ≤ max_batch_bytes)
        × IsSource (build_batch d trim ops s).1
  unfolding build_batch sum_bytes
  build_batch_lem s v =
      let start : Batch = record { packet_bytes = []; bytes = []; missing = 0 } in
      let fresh : IsBatch 0 start = record {
        packets_count = refl;
        sizes = tt;
        total = refl;
        at_most = omega arith;
      } in
      some_batch (build_rest d trim ops batch_packets start s)
        (build_rest-Batched batch_packets 0 start s fresh v)
