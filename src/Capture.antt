-- ===== src/Capture.antt =====
-- The capture ring between the USB reader and CoreAudio (coreaudio/NS6CaptureRing.h). A frame, two
-- adjacent floats of the C array, is one value of a type `A`; `silence` is the frame of two zeros.
-- The cursors are uint64_t and wrap. A buffer argument is never NULL here.
use numark_ns6_mac_arm.Prelude.{
  ℕ, zero, suc, ◌-◌, ◌%◌, List, [], ◌∷◌, ◌++◌, if◌then◌else◌, leb, ltb, ◌==◌, get_or, length,
  replicate, set, take,
}
use numark_ns6_mac_arm.Prelude.Words.{sub64, add64}
pub mod Queue
pub mod Run
mod Tests

abbrev pub capacity : ℕ
capacity = 8192

pub record CaptureRing (A : Type 0) : Type 0 where
  pub samples : List A
  pub head : ℕ
  pub tail : ℕ

module _ {A : Type 0} where
  pub init : CaptureRing A → CaptureRing A
  init r = record r { head = 0; tail = 0 }

  pub clear : CaptureRing A → CaptureRing A
  clear r = record r { tail = r.head }

  -- The loop of `ns6_capture_ring_write` over the frames that are left, from number `frame` on.
  unfoldable pub store : List A → ℕ → ℕ → List A → List A
  store samples head frame [] = samples
  store samples head frame (x ∷ xs) =
      store (set samples (add64 head frame % capacity) x) head (suc frame) xs

  -- The list is `input[0 .. frames)`.
  unfoldable pub write : CaptureRing A → List A → ℕ × CaptureRing A
  unfolding store
  write r input =
      let used = sub64 r.head r.tail in
      if length input == 0
      then (0, r)
      else if leb capacity used
      then (0, r)
      else let available = capacity - used in
        let frames = if ltb available (length input) then available else length input in
        (
          frames,
          record r {
            samples = store r.samples r.head 0 (take frames input);
            head = add64 r.head frames;
          },
        )

  -- The first loop of `ns6_capture_ring_read`, with `n` frames left from number `frame` on.
  pub gather : A → List A → ℕ → ℕ → ℕ → List A
  gather silence samples tail frame zero = []
  gather silence samples tail frame (suc n) =
      get_or samples (add64 tail frame % capacity) silence
      ∷ gather silence samples tail (suc frame) n

  -- Returns the number of frames consumed and the `frames` frames of `output`.
  pub read : A → CaptureRing A → ℕ → ℕ × List A × CaptureRing A
  unfolding gather
  read silence r frames =
      if frames == 0
      then (0, [], r)
      else let available = sub64 r.head r.tail in
        let consumed = if ltb frames available then frames else available in
        (
          consumed,
          gather silence r.samples r.tail 0 consumed ++ replicate (frames - consumed) silence,
          record r { tail = add64 r.tail consumed },
        )
