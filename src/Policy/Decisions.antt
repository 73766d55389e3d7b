-- ===== src/Policy/Decisions.antt =====
-- What the decisions of the USB worker (coreaudio/NS6ActiveFlow.h and others) come to.
use numark_ns6_mac_arm.Policy.{
  ActiveFlow, startup_prefill_frames, snapshot_flow, clear_flow, firmware_version_decode,
  record_flow,
}
use numark_ns6_mac_arm.Prelude.{
  ℕ, ◌+◌, ◌*◌, ◌/◌, ◌%◌, ◌≤◌, ◌<◌, max, ◌≡◌, refl, false, not, ◌&&◌, ◌||◌, some, List, ◌∷◌, arith,
  if◌then◌else◌, leb, ltb, ◌==◌, length,
}

-- What a callback records is seen for that many ticks, and nothing after that, before it, or once it is
-- cleared.
pub snapshot_flow-record_flow :
    (flow : ActiveFlow) (frames client_id tick now max_age_ticks : ℕ)
    → let s = snapshot_flow (record_flow flow frames client_id tick) now max_age_ticks in
      let fresh = not (tick == 0) && leb tick now && ltb now (tick + max_age_ticks) in
      (s ≡ (
        if fresh
        then record { frames = frames; client_id = client_id }
        else record { frames = 0; client_id = 0 }))
      × (snapshot_flow (clear_flow flow) now max_age_ticks ≡ record { frames = 0; client_id = 0 })
unfolding snapshot_flow record_flow clear_flow
snapshot_flow-record_flow flow frames client_id tick now max_age_ticks = (ground arith, refl)

-- The threshold is the least that reaches all three.
pub startup_prefill_frames_lem :
    (configured minimum target : ℕ)
    → startup_prefill_frames configured minimum target ≡ max configured (max minimum target)
unfolding startup_prefill_frames
startup_prefill_frames_lem configured minimum target = ground arith

-- A firmware version is read back from the numbers that it is made of.
pub firmware_version_decode_lem :
    (major minor patch : ℕ) (rest : List ℕ)
    → 0 < major
    → minor < 10
    → patch < 10
    → length rest ≤ 5
    → firmware_version_decode (0x31 ∷ major ∷ (10 * minor + patch) ∷ rest)
      ≡ some (record { major = major; minor = minor; patch = patch })
unfolding firmware_version_decode
firmware_version_decode_lem major minor patch rest some_major minor_lt patch_lt le =
    let tens : (10 * minor + patch) / 10 ≡ minor = omega arith in
    let ones : (10 * minor + patch) % 10 ≡ patch = omega arith in
    let guard : (ltb (length (0x31 ∷ major ∷ (10 * minor + patch) ∷ rest)) 3
          || ltb 8 (length (0x31 ∷ major ∷ (10 * minor + patch) ∷ rest))
          || not (0x31 == 0x31)
          || major == 0
          || ltb 99 (10 * minor + patch))
        ≡ false =
      ground arith in
    rw (guard, tens, ones) refl
