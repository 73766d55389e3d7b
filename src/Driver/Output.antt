-- ===== src/Driver/Output.antt =====
-- The packets and batches of the output endpoint in the C++ driver (numark-ns6/audio-out/AudioOutPacket.cpp and
-- .hpp, AudioOutTransferBatch.cpp and .hpp, and the resampling step of AudioPacketPolicy.cpp). The ring of
-- frames is the interface `Ring`, the arithmetic of a double the record `Double` with `Trim`. A count is
-- below 2 ^ 32.
use numark_ns6_mac_arm.Double.{Double}
use numark_ns6_mac_arm.Driver.Packets.{effective_millihz, next_packet_frames, Policy}
use numark_ns6_mac_arm.Pcm.{pack24, Pcm24}
use numark_ns6_mac_arm.Prelude.{
  ℕ, zero, suc, ◌+◌, ◌-◌, ◌*◌, min, not, ◌||◌, Option, none, some, List, [], ◌∷◌, ◌++◌,
  if◌then◌else◌, ltb, ◌==◌, length, replicate,
}
use numark_ns6_mac_arm.Prelude.Int.{ℤ, pos, negsuc}
pub mod Batches
mod Tests

-- What the worker uses of AudioOutputRing, whose state is an `R`. A read gives how many frames it has
-- produced, and their samples.
pub record Ring (W R : Type 0) : Type 0 where
  pub ring_channels : R → ℕ
  pub available_frames : R → ℕ
  pub read_resampled : R → ℕ → W → ℕ × List W × R
  pub advance_resampled : R → ℕ → W → R

-- What the arithmetic has besides: a division, llround, and the literals.
pub record Trim (W : Type 0) : Type 0 where
  pub div : W → W → W
  pub llround : W → ℤ
  pub per_frame : W  -- 0.000002
  pub least_trim : W  -- -0.005
  pub most_trim : W  -- 0.005
  pub least_step : W  -- 0.995
  pub most_step : W  -- 1.005

abbrev pub max_packet_frames : ℕ
max_packet_frames = 13

abbrev max_packet_bytes : ℕ
max_packet_bytes = 156

abbrev pub batch_packets : ℕ
batch_packets = 32

abbrev pub max_batch_bytes : ℕ
max_batch_bytes = batch_packets * max_packet_bytes

pub record Packet : Type 0 where
  pub frames : ℕ
  pub bytes : List ℕ
  pub missing : ℕ

pub record Batch : Type 0 where
  pub packet_bytes : List ℕ
  pub bytes : List ℕ
  pub missing : ℕ

-- The state that a packet is built from.
pub record Source (R : Type 0) : Type 0 where
  pub ring : R
  pub policy : Policy

unfoldable pub sum_bytes : List ℕ → ℕ
sum_bytes [] = 0
sum_bytes (n ∷ ns) = n + sum_bytes ns

abbrev packed_bytes : Pcm24 → List ℕ
packed_bytes p = p.low ∷ p.mid ∷ p.high ∷ []

module _ {W R : Type 0} (d : Double W) (trim : Trim W) (ops : Ring W R) where
  abbrev clamp : W → W → W → W
  clamp value least most =
      if d.less value least then least else if d.less most value then most else value

  -- AudioPacketPolicy::sourceFramesPerOutputFrame
  unfoldable pub source_frames : Policy → ℕ → W
  unfolding effective_millihz
  source_frames p queued_frames =
      let one = d.of_int (pos 1) in
      let step =
        trim.div (d.mul (d.of_int (pos p.sample_rate)) (d.of_int (pos 1000)))
          (d.of_int (pos (effective_millihz p))) in
      let ahead = d.sub (d.of_int (pos queued_frames)) (d.of_int (pos 4096)) in
      let wanted = clamp (d.mul ahead trim.per_frame) trim.least_trim trim.most_trim in
      clamp (d.mul step (d.add one wanted)) trim.least_step trim.most_step

  abbrev clamp24 : ℤ → ℤ
  clamp24 (pos n) = pos (min n 8388607)
  clamp24 (negsuc n) = negsuc (min n 8388607)

  -- The body of the loop over the samples.
  unfoldable pub pack_sample : W → List ℕ
  unfolding pack24
  pack_sample sample =
      let input = if d.is_finite sample then sample else d.of_int (pos 0) in
      let scaled =
        d.mul (clamp input (d.of_int (negsuc 0)) (d.of_int (pos 1))) (d.of_int (pos 8388608)) in
      packed_bytes (pack24 (clamp24 (trim.llround scaled)))

  -- The loop with `n` samples left; the buffer holds at least as many.
  unfoldable pub pack_samples : List W → ℕ → List ℕ
  unfolding pack_sample
  pack_samples samples zero = []
  pack_samples [] (suc n) = []
  pack_samples (s ∷ samples) (suc n) = pack_sample s ++ pack_samples samples n

  -- The part of `build` behind its guards.
  unfoldable pub fill_packet : Source R → ℕ → Packet × Source R
  unfolding source_frames pack_samples
  fill_packet s frames =
      let step = source_frames s.policy (ops.available_frames s.ring) in
      let (available, samples, ring) = ops.read_resampled s.ring frames step in
      let missing = frames - available in
      let packed = pack_samples samples (available * 4) in
      (
        record {
          frames = frames;
          bytes = packed ++ replicate (frames * 12 - length packed) 0;
          missing = missing;
        },
        record s { ring = if missing == 0 then ring else ops.advance_resampled ring missing step },
      )

  -- AudioOutPacket::build, with none for a result of 0.
  unfoldable pub build_packet : Source R → Option Packet × Source R
  unfolding fill_packet
  build_packet s =
      if not (ops.ring_channels s.ring == 4)
      then (none, s)
      else let (frames, policy) = next_packet_frames s.policy in
        let t = record s { policy = policy } in
        if ltb max_packet_frames frames || frames == 0
        then (none, if ltb max_packet_frames frames then t else (fill_packet t frames).1)
        else let (packet, u) = fill_packet t frames in (some packet, u)

  abbrev pub add_packet : Batch → Packet → Batch
  add_packet b p = record {
    packet_bytes = b.packet_bytes ++ (p.frames * 12 ∷ []);
    bytes = b.bytes ++ p.bytes;
    missing = b.missing + p.missing;
  }

  -- A round of the loop of AudioOutTransferBatch::build, from what the rest of it does.
  abbrev pub build_next :
      (Batch → Source R → Option Batch × Source R)
      → Batch
      → Option Packet × Source R
      → Option Batch × Source R
  build_next rest b (none, s) = (none, s)
  build_next rest b (some p, s) = rest (add_packet b p) s

  -- The loop with `n` packets left.
  unfoldable pub build_rest : ℕ → Batch → Source R → Option Batch × Source R
  unfolding build_packet
  build_rest zero b s = (some b, s)
  build_rest (suc n) b s = build_next (build_rest n) b (build_packet s)

  unfoldable pub build_batch : Source R → Option Batch × Source R
  unfolding build_rest
  build_batch s = build_rest batch_packets (record { packet_bytes = []; bytes = []; missing = 0 }) s
