-- ===== src/Capture/Queue.antt =====
-- The capture ring (coreaudio/NS6CaptureRing.h) is a bounded queue of frames.
use numark_ns6_mac_arm.Capture.{capacity, gather, read, clear, store, write, CaptureRing}
use numark_ns6_mac_arm.Prelude.{
  ℕ, zero, suc, ◌+◌, ◌-◌, ◌%◌, ◌^◌, ◌≤◌, ◌<◌, min, ◌≡◌, refl, sym, ap, ◌∙◌, List, [], ◌∷◌, ◌++◌,
  append-nil, append_assoc, arith, drop, length, length-set, length-take, replicate, set, take,
}
use numark_ns6_mac_arm.Prelude.Words.{sub64, add64}
use numark_ns6_mac_arm.Span.{length-span, span, take-span, drop-span, span-mod, span-set}

pub record IsValid {A : Type 0} (r : CaptureRing A) : Type 0 where
  pub slots : length r.samples ≡ capacity
  pub head_u64 : r.head < 2 ^ 64
  pub tail_u64 : r.tail < 2 ^ 64
  pub used_le : sub64 r.head r.tail ≤ capacity

module _ {A : Type 0} (silence : A) where
  -- The frames in the ring, oldest first.
  abbrev pub contents : CaptureRing A → List A
  contents r = span capacity silence r.samples r.tail (sub64 r.head r.tail)

  store-span :
      (buf : List A) (head frame t m : ℕ) (xs : List A)
      → length buf ≡ capacity
      → (t + m) % capacity ≡ (head + frame) % capacity
      → m + length xs ≤ capacity
      → span capacity silence (store buf head frame xs) t (m + length xs)
        ≡ span capacity silence buf t m ++ xs
  unfolding store
  store-span buf head frame t m [] len at le =
      ap (span capacity silence buf t) (omega arith)
      ∙ sym (append-nil (span capacity silence buf t m))
  store-span buf head frame t m (x ∷ xs) len at le =
      let slot : add64 head frame % capacity ≡ (t + m) % capacity = omega arith in
      let here = span-set capacity silence buf t m x (omega arith) (omega arith) in
      let rest =
        store-span (set buf (add64 head frame % capacity) x) head (suc frame) t (suc m) xs
          (length-set buf (add64 head frame % capacity) x ∙ len) (omega arith) (omega arith) in
      let out = store (set buf (add64 head frame % capacity) x) head (suc frame) xs in
      ap (span capacity silence out t) (omega arith)
      ∙ rest
      ∙ ap (λ s. span capacity silence (set buf s x) t (suc m) ++ xs) slot
      ∙ ap (λ l. l ++ xs) here
      ∙ append_assoc (span capacity silence buf t m) (x ∷ []) xs

  length-store :
      (buf : List A) (head frame : ℕ) (xs : List A) → length (store buf head frame xs) ≡ length buf
  unfolding store
  length-store buf head frame [] = refl
  length-store buf head frame (x ∷ xs) =
      length-store (set buf (add64 head frame % capacity) x) head (suc frame) xs
      ∙ length-set buf (add64 head frame % capacity) x

  gather-span :
      (buf : List A) (tail frame t n : ℕ)
      → (tail + frame) % capacity ≡ t % capacity
      → gather silence buf tail frame n ≡ span capacity silence buf t n
  unfolding gather
  gather-span buf tail frame t zero e = refl
  gather-span buf tail frame t (suc n) e =
      let slot : add64 tail frame % capacity ≡ t % capacity = omega arith in
      cc (slot, gather-span buf tail (suc frame) (suc t) n (omega arith))

  -- The state that `write` leaves after `n` frames, and the state that `read` leaves.
  abbrev written : CaptureRing A → List A → ℕ → CaptureRing A
  written r input n = record r {
    samples = store r.samples r.head 0 (take n input);
    head = add64 r.head n;
  }

  abbrev consumed : CaptureRing A → ℕ → CaptureRing A
  consumed r n = record r { tail = add64 r.tail n }

  abbrev fits : CaptureRing A → List A → ℕ
  fits r input = min (length input) (capacity - sub64 r.head r.tail)

  -- The early returns of `write` are the case of no frames.
  write-eq-written :
      (r : CaptureRing A) (input : List A)
      → IsValid r
      → write r input ≡ (fits r input, written r input (fits r input))
  unfolding write
  write-eq-written r input v = ground arith

  contents-written :
      (r : CaptureRing A) (input : List A) (n : ℕ)
      → IsValid r
      → n ≤ fits r input
      → contents (written r input n) ≡ contents r ++ take n input
  contents-written r input n v le =
      let used = sub64 r.head r.tail in
      let some_taken : length (take n input) ≡ n = omega (arith, length-take n input) in
      let grown : sub64 (add64 r.head n) r.tail ≡ used + length (take n input) = omega arith in
      ap (span capacity silence (written r input n).samples r.tail) grown
      ∙ store-span r.samples r.head 0 r.tail used (take n input) v.slots (omega arith) (omega arith)

  written-IsValid :
      (r : CaptureRing A) (input : List A) (n : ℕ)
      → IsValid r
      → n ≤ fits r input
      → IsValid (written r input n)
  written-IsValid r input n v le = record {
    slots = length-store r.samples r.head 0 (take n input) ∙ v.slots;
    head_u64 = omega arith;
    tail_u64 = v.tail_u64;
    used_le = omega arith;
  }

  -- `write` takes as many frames as there is room for, appends exactly those in order, and keeps the
  -- ring valid.
  pub write_lem :
      (r : CaptureRing A) (input : List A)
      → IsValid r
      → let (n, r') = write r input in
        (n ≡ min (length input) (capacity - length (contents r)))
        × (contents r' ≡ contents r ++ take n input)
        × IsValid r'
  write_lem r input v =
      let used = sub64 r.head r.tail in
      rw (write-eq-written r input v, length-span capacity silence r.samples r.tail used)
        (
          refl,
          contents-written r input (fits r input) v (omega arith),
          written-IsValid r input (fits r input) v (omega arith),
        )

  abbrev ready : CaptureRing A → ℕ → ℕ
  ready r frames = min frames (sub64 r.head r.tail)

  read-eq-consumed :
      (r : CaptureRing A) (frames : ℕ)
      → IsValid r
      → read silence r frames ≡ (
        ready r frames,
        gather silence r.samples r.tail 0 (ready r frames)
            ++ replicate (frames - ready r frames) silence,
        consumed r (ready r frames),
      )
  unfolding read
  read-eq-consumed r frames v = ground arith

  contents-consumed :
      (r : CaptureRing A) (n : ℕ)
      → IsValid r
      → n ≤ sub64 r.head r.tail
      → contents (consumed r n) ≡ drop n (contents r)
  contents-consumed r n v le =
      let used = sub64 r.head r.tail in
      let left : sub64 r.head (add64 r.tail n) ≡ used - n = omega arith in
      ap (span capacity silence r.samples (add64 r.tail n)) left
      ∙ span-mod capacity silence r.samples (add64 r.tail n) (r.tail + n) (used - n) (omega arith)
      ∙ sym (drop-span capacity silence r.samples r.tail n used le)

  -- `read` returns the oldest frames, as many as there are, fills the rest of the output with
  -- silence, leaves the later frames in the ring, and keeps it valid.
  pub read_lem :
      (r : CaptureRing A) (frames : ℕ)
      → IsValid r
      → let (n, output, r') = read silence r frames in
        (n ≡ min frames (length (contents r)))
        × (output ≡ take n (contents r) ++ replicate (frames - n) silence)
        × (contents r' ≡ drop n (contents r))
        × IsValid r'
  read_lem r frames v =
      let used = sub64 r.head r.tail in
      let n = ready r frames in
      let got : gather silence r.samples r.tail 0 n ≡ take n (contents r) =
        gather-span r.samples r.tail 0 r.tail n (omega arith)
        ∙ sym (take-span capacity silence r.samples r.tail n used (omega arith)) in
      rw (read-eq-consumed r frames v, length-span capacity silence r.samples r.tail used)
        (
          refl,
          ap (λ l. l ++ replicate (frames - n) silence) got,
          contents-consumed r n v (omega arith),
          record {
            slots = v.slots;
            head_u64 = v.head_u64;
            tail_u64 = omega arith;
            used_le = omega arith;
          },
        )

  -- Clearing drops every frame.
  pub clear_lem : (r : CaptureRing A) → IsValid r → (contents (clear r) ≡ []) × IsValid (clear r)
  unfolding clear
  clear_lem r v =
      let none_left : sub64 r.head r.head ≡ 0 = omega arith in
      (ap (span capacity silence r.samples r.head) none_left, omega arith)
