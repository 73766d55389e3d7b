-- ===== src/Transport/Mix.antt =====
-- Mixing into the playback ring (coreaudio/NS6Transport.c): the whole call.
use mathlib.Core.Path.{subst}
use numark_ns6_mac_arm.Prelude.{
  ℕ, ◌+◌, ◌-◌, ◌^◌, ◌≤◌, ◌<◌, ◌≡◌, refl, sym, ap, ◌∙◌, inl, inr, Bool, true, false, ◌&&◌, ◌||◌,
  List, [], ◌∷◌, arith, Bool-cases, if◌then◌else◌, leb, ltb, ◌==◌, drop, length, length-drop,
}
use numark_ns6_mac_arm.Prelude.Words.{u64_max}
use numark_ns6_mac_arm.Transport.{
  raise_high_water, mix_placed, ensure_initialized, Shared, mix_at, realign, ring_frames,
  mix_frames,
}
use numark_ns6_mac_arm.Transport.Contents.{contents, IsQueue}
use numark_ns6_mac_arm.Transport.Overlay.{mix_frames-Mixed, overlay, IsFresh}
use numark_ns6_mac_arm.Transport.Playback.{ensure_started}

module _ {F : Type 0} (mix : F → F → F) (unset : F) where
  realign_none :
      (s : Shared F) (t : ℕ)
      → s.read_cursor < t + ring_frames
      → t < s.read_cursor + ring_frames
      → realign s t ≡ s
  unfolding realign
  realign_none s t near near' = ground arith

  mix_placed-eq :
      (s : Shared F) (input : List F) (t : ℕ)
      → t < s.read_cursor + ring_frames
      → let k = t - s.read_cursor in
        let rest = drop (s.read_cursor - t) input in
        mix_placed mix unset s input t ≡ (
          if ltb t s.read_cursor && leb (length input) (s.read_cursor - t)
          then (true, s)
          else if ltb ring_frames (k + length rest)
          then (false, s)
          else (
            true,
            raise_high_water
                (mix_frames mix unset s (s.read_cursor + k) rest)
                (s.read_cursor + k + length rest),
          ))
  unfolding mix_placed
  mix_placed-eq s input t near =
      let k = t - s.read_cursor in
      let rest = drop (s.read_cursor - t) input in
      let start : (if ltb t s.read_cursor then s.read_cursor else t) ≡ s.read_cursor + k =
        ground arith in
      let room : (leb ring_frames (s.read_cursor + k - s.read_cursor)
            || ltb (ring_frames - (s.read_cursor + k - s.read_cursor)) (length rest))
          ≡ ltb ring_frames (k + length rest) =
        ground arith in
      rw (start, room) refl

  -- What `mix_at_lem` says of a result, with the frames that are not too late.
  abbrev Outcome : Shared F → ℕ → List F → Bool × Shared F → Type 0
  Outcome s k rest (ok, s') =
      (ok ≡ leb (k + length rest) ring_frames)
      × (contents unset s' ≡ overlay mix unset (contents unset s) k (if ok then rest else []))
      × IsQueue s'
      × IsFresh s'

  unchanged :
      (s : Shared F) (k : ℕ) (rest : List F) (ok : Bool)
      → IsQueue s
      → IsFresh s
      → (if ok then rest else []) ≡ []
      → ok ≡ leb (k + length rest) ring_frames
      → Outcome s k rest (ok, s)
  unfolding overlay
  unchanged s k rest ok v fresh none_of_them room = (room, rw none_of_them refl, v, fresh)

  empty_of_length : (xs : List F) → length xs ≡ 0 → xs ≡ []
  empty_of_length [] e = refl
  empty_of_length (x ∷ xs) e = absurd (omega arith)

  placed :
      (s : Shared F) (input : List F) (t : ℕ)
      → IsQueue s
      → IsFresh s
      → s.initialized ≡ true
      → t ≤ s.high_water
      → t < s.read_cursor + ring_frames
      → s.read_cursor < t + ring_frames
      → t + length input < 2 ^ 64
      → Outcome s
          (t - s.read_cursor)
          (drop (s.read_cursor - t) input)
          (mix_placed mix unset s input t)
  placed s input t v fresh on le near near' u64 =
      let k = t - s.read_cursor in
      let late = s.read_cursor - t in
      let rest = drop late input in
      let count = length-drop late input in
      let ordered = v.ordered in
      subst (λ r. Outcome s k rest r) (sym (mix_placed-eq s input t near))
        (elim (Bool-cases (ltb t s.read_cursor && leb (length input) late)) [
          | inl gone ↦
              rw gone (
                unchanged s k rest true v fresh (empty_of_length rest (ground arith))
                  (ground arith))
          | inr some_left ↦ rw some_left (elim (Bool-cases (ltb ring_frames (k + length rest))) [
            | inl full ↦ rw full (unchanged s k rest false v fresh refl (ground arith))
            | inr room ↦ rw room (
                let m =
                  mix_frames-Mixed mix unset s k rest v fresh on (omega arith) (ground arith)
                    (ground arith) in
                (ground arith, m.holds, m.valid, m.fresh))
          ])
        ])

  -- A started ring takes frames for positions that leave no gap behind those it has, and that lie less
  -- than one round of the ring off its cursor. If the frames that are not too late fit into the ring, each
  -- is mixed with the frame at its position, or appended where there is none; if not, the call fails and
  -- changes nothing. The ring stays a queue, and its free slots keep no tag of a position to come.
  pub mix_at_lem :
      (s : Shared F) (input : List F) (sample_time : ℕ)
      → IsQueue s
      → IsFresh s
      → s.initialized ≡ true
      → sample_time ≤ s.high_water
      → s.read_cursor < sample_time + ring_frames
      → sample_time < s.read_cursor + ring_frames
      → sample_time + length input < 2 ^ 64
      → let (ok, s') = mix_at mix unset s input sample_time in
        let k = sample_time - s.read_cursor in
        let rest = drop (s.read_cursor - sample_time) input in
        (ok ≡ leb (k + length rest) ring_frames)
        × (contents unset s' ≡ overlay mix unset (contents unset s) k (if ok then rest else []))
        × IsQueue s'
        × IsFresh s'
  unfolding mix_at
  mix_at_lem s [] t v fresh on le near near' u64 =
      let nothing =
        empty_of_length (drop (s.read_cursor - t) [])
          (omega (arith, length-drop {A = F} (s.read_cursor - t) [])) in
      unchanged s (t - s.read_cursor) (drop (s.read_cursor - t) []) true v fresh nothing
        (ground (arith, nothing))
  mix_at_lem s (x ∷ xs) t v fresh on le near near' u64 =
      let input = x ∷ xs in
      let k = t - s.read_cursor in
      let rest = drop (s.read_cursor - t) input in
      let some_input : (length input == 0) ≡ false = ground arith in
      let small : ltb (u64_max - length input) t ≡ false = ground arith in
      let same : realign (ensure_initialized s t) t ≡ s =
        ap (λ r. realign r t) (ensure_started unset s t on) ∙ realign_none s t near near' in
      subst (λ r. Outcome s k rest r)
        (sym (rw (some_input, small) (ap (λ r. mix_placed mix unset r input t) same)))
        (placed s input t v fresh on le near' near u64)
