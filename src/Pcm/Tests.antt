-- ===== src/Pcm/Tests.antt =====
-- Samples of three bytes (coreaudio/NS6Transport.c) at their bounds.
use numark_ns6_mac_arm.Pcm.{mix_sample, pack24, Pcm24, unpack24}
use numark_ns6_mac_arm.Pcm.Mixing.{InRange, mix_sample_lem, IsPcm, pack24-IsPcm}
use numark_ns6_mac_arm.Prelude.{◌≡◌}
use numark_ns6_mac_arm.Prelude.Int.{◌≤ℤ◌, pos, negsuc, ◌+ℤ◌}

loudest : Pcm24
loudest = pack24 (pos 8388607)

mix_sample_lem_example :
    let quiet = pack24 (pos 1) in
    let sum = unpack24 loudest +ℤ unpack24 quiet in
    let v = unpack24 (mix_sample loudest quiet) in
    IsPcm (mix_sample loudest quiet)
    × (InRange sum → v ≡ sum)
    × (¬ (sum ≤ℤ pos 8388607) → v ≡ pos 8388607)
    × (¬ (negsuc 8388607 ≤ℤ sum) → v ≡ negsuc 8388607)
    × (mix_sample loudest quiet ≡ mix_sample quiet loudest)
unfolding loudest
mix_sample_lem_example =
    mix_sample_lem loudest (pack24 (pos 1)) (pack24-IsPcm (pos 8388607)) (pack24-IsPcm (pos 1))
