-- ===== src/Transport/Tests.antt =====
-- The playback ring (coreaudio/NS6Transport.c) near the end of its slots, with numbers for frames.
use numark_ns6_mac_arm.Double.{Double}
use numark_ns6_mac_arm.Pcm.{Pcm24}
use numark_ns6_mac_arm.Prelude.{
  ℕ, zero, suc, ◌+◌, ◌-◌, ◌*◌, ◌%◌, ◌≡◌, refl, ◌≢◌, true, ◌||◌, List, [], ◌∷◌, ◌++◌, arith,
  if◌then◌else◌, leb, ◌==◌, drop, get_or, length, length-replicate, replicate,
}
use numark_ns6_mac_arm.Prelude.Int.{ℤ, pos_part, ◌-ℤ◌, ltb_ℤ, negsuc, ◌+ℤ◌, pos}
use numark_ns6_mac_arm.Transport.{mix_at, enqueue_frames, ring_frames, no_tag, Shared}
use numark_ns6_mac_arm.Transport.Contents.{contents, IsQueue}
use numark_ns6_mac_arm.Transport.Mix.{mix_at_lem}
use numark_ns6_mac_arm.Transport.Overlay.{IsFresh, overlay}
use numark_ns6_mac_arm.Transport.Playback.{fits, enqueue_frames_lem}

-- Doubles that are integers.
abbrev times : ℤ → ℤ → ℤ
times (pos a) (pos b) = pos (a * b)
times (pos zero) (negsuc b) = pos 0
times (pos (suc a)) (negsuc b) = negsuc (suc a * suc b - 1)
times (negsuc a) (pos zero) = pos 0
times (negsuc a) (pos (suc b)) = negsuc (suc a * suc b - 1)
times (negsuc a) (negsuc b) = pos (suc a * suc b)

abbrev integers : Double ℤ
unfolding ◌+ℤ◌ ◌-ℤ◌
integers = record {
  of_int = λ v. v;
  half = pos 0;
  three_halves = pos 2;
  add = ◌+ℤ◌;
  sub = ◌-ℤ◌;
  mul = times;
  less = ltb_ℤ;
  is_finite = λ w. true;
  whole = pos_part;
  round = λ v. v;
}

-- Slots that hold 0, and tags that stand for none.
zeros : List ℕ
zeros = replicate ring_frames 0

length-zeros : length zeros ≡ ring_frames
unfolding zeros
length-zeros = length-replicate {A = ℕ} ring_frames 0

blank : List ℕ
blank = replicate ring_frames no_tag

length-blank : length blank ≡ ring_frames
unfolding blank
length-blank = length-replicate {A = ℕ} ring_frames no_tag

get_or-replicate : (n a i d p : ℕ) → a ≢ p → d ≢ p → get_or (replicate n a) i d ≢ p
get_or-replicate zero a i d p ha hd = hd
get_or-replicate (suc n) a zero d p ha hd = ha
get_or-replicate (suc n) a (suc i) d p ha hd = get_or-replicate n a i d p ha hd

get_or-blank : (i p : ℕ) → no_tag ≢ p → 0 ≢ p → get_or blank i 0 ≢ p
unfolding blank
get_or-blank i p ha hd = get_or-replicate ring_frames no_tag i 0 p ha hd

-- An empty ring whose next frame goes into the last slot but one.
abbrev late : Shared ℕ
late = record {
  samples = zeros;
  tags = blank;
  read_cursor = 16382;
  high_water = 16382;
  initialized = true;
}

late-IsQueue : IsQueue late
late-IsQueue = record {
  slots = length-zeros;
  tag_slots = length-blank;
  ordered = omega arith;
  used_le = omega arith;
  high_u64 = omega arith;
  tagged = refl;
  started = λ off. refl;
}

late-IsFresh : IsFresh late
late-IsFresh p le lt = get_or-blank (p % ring_frames) p (omega arith) (omega arith)

abbrev frames : List ℕ
frames = 7 ∷ 8 ∷ 9 ∷ []

enqueue_frames_lem_example :
    let (ok, s') = enqueue_frames late frames in
    (ok ≡ (length frames == 0 || fits 0 late frames))
    × (contents 0 s' ≡ contents 0 late ++ (if ok then frames else []))
    × IsQueue s'
enqueue_frames_lem_example = enqueue_frames_lem 0 late frames late-IsQueue (omega arith)

-- The same ring for frames of samples, with three of them, which go round the end of the slots.
abbrev sample : ℕ → Pcm24
sample n = record { low = n; mid = 0; high = 128 }

abbrev sample_frames : List (List Pcm24)
sample_frames =
    (sample 1 ∷ sample 2 ∷ sample 3 ∷ sample 4 ∷ [])
    ∷ (sample 5 ∷ sample 6 ∷ sample 7 ∷ sample 8 ∷ [])
    ∷ (sample 9 ∷ sample 10 ∷ sample 11 ∷ sample 12 ∷ [])
    ∷ []

no_frames : List (List Pcm24)
no_frames = replicate ring_frames []

abbrev late_samples : Shared (List Pcm24)
late_samples = record {
  samples = no_frames;
  tags = blank;
  read_cursor = 16382;
  high_water = 16382;
  initialized = true;
}

filled : Shared (List Pcm24)
filled = (enqueue_frames late_samples sample_frames).1

mix_at_lem_example :
    let (ok, s') = mix_at ◌+◌ 0 late frames 16381 in
    (ok ≡ leb (0 + length (drop 1 frames)) ring_frames)
    × (contents 0 s' ≡ overlay ◌+◌ 0 (contents 0 late) 0 (if ok then drop 1 frames else []))
    × IsQueue s'
    × IsFresh s'
mix_at_lem_example =
    mix_at_lem ◌+◌ 0 late frames 16381 late-IsQueue late-IsFresh refl (omega arith) (omega arith)
      (omega arith) (omega arith)
