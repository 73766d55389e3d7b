-- ===== src/Capture/Run.antt =====
-- Any sequence of calls of the capture ring (coreaudio/NS6CaptureRing.h) against a plain queue.
use numark_ns6_mac_arm.Capture.{capacity, read, clear, write, CaptureRing}
use numark_ns6_mac_arm.Capture.Queue.{IsValid, write_lem, contents, clear_lem, read_lem}
use numark_ns6_mac_arm.Prelude.{
  ℕ, ◌-◌, min, ◌≡◌, refl, ap, ap₂, ◌∙◌, List, [], ◌∷◌, ◌++◌, drop, length, replicate, take,
}

pub data Op (A : Type 0) : Type 0 where
  put : List A → Op A
  get : ℕ → Op A
  flush : Op A

-- What a caller sees: how many frames a write took, or the frames that a read delivered.
pub data Seen (A : Type 0) : Type 0 where
  took : ℕ → Seen A
  gave : ℕ → List A → Seen A
  nothing : Seen A

module _ {A : Type 0} (silence : A) where
  pub step : CaptureRing A → Op A → Seen A × CaptureRing A
  step r (put xs) = let (n, r') = write r xs in (took n, r')
  step r (get frames) = let (n, output, r') = read silence r frames in (gave n output, r')
  step r flush = (nothing, clear r)

  pub run_ops : CaptureRing A → List (Op A) → List (Seen A)
  run_ops r [] = []
  run_ops r (o ∷ os) = (step r o).0 ∷ run_ops (step r o).1 os

  -- A queue of at most `capacity` frames. What does not fit is dropped at the end, and what is missing
  -- is delivered as silence.
  unfoldable pub queue_step : List A → Op A → Seen A × List A
  queue_step q (put xs) = let n = min (length xs) (capacity - length q) in (took n, q ++ take n xs)
  queue_step q (get frames) =
      let n = min frames (length q) in
      (gave n (take n q ++ replicate (frames - n) silence), drop n q)
  queue_step q flush = (nothing, [])

  unfoldable pub run_queue : List A → List (Op A) → List (Seen A)
  run_queue q [] = []
  run_queue q (o ∷ os) = (queue_step q o).0 ∷ run_queue (queue_step q o).1 os

  step_refines :
      (r : CaptureRing A) (o : Op A)
      → IsValid r
      → ((step r o).0 ≡ (queue_step (contents silence r) o).0)
        × (contents silence (step r o).1 ≡ (queue_step (contents silence r) o).1)
        × IsValid (step r o).1
  unfolding step queue_step
  step_refines r (put xs) v =
      let (n, q, w) = write_lem silence r xs v in
      (ap took n, q ∙ ap (λ k. contents silence r ++ take k xs) n, w)
  step_refines r (get frames) v =
      let (n, o, q, w) = read_lem silence r frames v in
      (
        ap₂ gave n (o ∙ ap (λ k. take k (contents silence r) ++ replicate (frames - k) silence) n),
        q ∙ ap (λ k. drop k (contents silence r)) n,
        w,
      )
  step_refines r flush v = let (q, w) = clear_lem silence r v in (refl, q, w)

  -- No sequence of writes, reads and clears tells a valid ring from the bounded queue of its frames.
  pub run_refines :
      (os : List (Op A)) (r : CaptureRing A)
      → IsValid r
      → run_ops r os ≡ run_queue (contents silence r) os
  unfolding run_ops run_queue
  run_refines [] r v = refl
  run_refines (o ∷ os) r v =
      let (seen, left, w) = step_refines r o v in
      ap₂ ◌∷◌ seen (run_refines os (step r o).1 w ∙ ap (λ q. run_queue q os) left)
