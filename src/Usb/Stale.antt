-- ===== src/Usb/Stale.antt =====
-- What the completions of the capture reads do to the ring, and which reads stay under way
-- (coreaudio/NS6USB.c).
-- What a submission leaves as it is.
use numark_ns6_mac_arm.Prelude.{
  ℕ, suc, ◌≡◌, refl, sym, ap, ◌∙◌, ◌≢◌, ◌⊎◌, inl, inr, true, false, not, ◌||◌, List, [], ◌∷◌, arith,
  if-cases, ◌==◌, get_or, get_or-set_ne,
}
use numark_ns6_mac_arm.Usb.{
  Io, is_success, check_submit, submit_read, read_at, Answers, reset_session, start_drain, no_read,
  Drain, read_complete, submit_all, next_generation, put_read, stop_drain,
}
use numark_ns6_mac_arm.Usb.Resubmit.{check_submit-reads}

record Unheard {A : Type 0} (d e : Drain A) : Type 0 where
  same_ring : e.ring ≡ d.ring
  same_completions : e.completions ≡ d.completions
  same_generation : e.generation ≡ d.generation
  same_running : e.running ≡ d.running

two_ahead : (g : ℕ) → g ≢ next_generation (next_generation g)
two_ahead g same = omega (arith, same)

not_equal : (m n : ℕ) → m ≢ n → (m == n) ≡ false
not_equal m n differ = ground (arith, differ)

module _ {A : Type 0} where
  Unheard-refl : (d : Drain A) → Unheard d d
  Unheard-refl d = record {
    same_ring = refl;
    same_completions = refl;
    same_generation = refl;
    same_running = refl;
  }

  Unheard-trans : (c d e : Drain A) → Unheard c d → Unheard d e → Unheard c e
  Unheard-trans c d e u v = record {
    same_ring = v.same_ring ∙ u.same_ring;
    same_completions = v.same_completions ∙ u.same_completions;
    same_generation = v.same_generation ∙ u.same_generation;
    same_running = v.same_running ∙ u.same_running;
  }

  submit_read-Unheard : (d : Drain A) (i : ℕ) (a : Answers) → Unheard d (submit_read d i a).1
  unfolding submit_read
  submit_read-Unheard d i a =
      if-cases (λ (r : Io × Drain A). Unheard d r.1) (not d.pipe_open || not d.running)
        (λ no. Unheard-refl d)
        (λ ready.
          if-cases (λ (r : Io × Drain A). Unheard d r.1) (read_at d i).in_flight
            (λ busy. Unheard-refl d)
            (λ free. record {
              same_ring = refl;
              same_completions = refl;
              same_generation = refl;
              same_running = refl;
            }))

  check_submit-Unheard :
      (d : Drain A) (r : Io × Drain A) → Unheard d r.1 → Unheard d (check_submit r)
  check_submit-Unheard d (result, e) u =
      if-cases (Unheard d) (is_success result) (λ good. u)
        (λ bad. record {
          same_ring = u.same_ring;
          same_completions = u.same_completions;
          same_generation = u.same_generation;
          same_running = u.same_running;
        })

  apart :
      (d : Drain A) (i j : ℕ)
      → (read_at d i).in_flight ≡ true
      → (read_at d j).in_flight ≡ false
      → j ≢ i
  apart d i j flying free same =
      let clash = sym flying ∙ ap (λ k. (read_at d k).in_flight) (sym same) ∙ free in
      ground (arith, clash)

  -- A read under way is not touched by a submission.
  submit_read-kept :
      (d : Drain A) (i j : ℕ) (a : Answers)
      → (read_at d i).in_flight ≡ true
      → read_at (submit_read d j a).1 i ≡ read_at d i
  unfolding submit_read
  submit_read-kept d i j a flying =
      if-cases (λ (r : Io × Drain A). read_at r.1 i ≡ read_at d i)
        (not d.pipe_open || not d.running) (λ no. refl)
        (λ ready.
          if-cases (λ (r : Io × Drain A). read_at r.1 i ≡ read_at d i) (read_at d j).in_flight
            (λ busy. refl) (λ free. get_or-set_ne d.reads _ no_read (apart d i j flying free)))

  submit_all-kept :
      (d : Drain A) (i j : ℕ) (answers : List Answers)
      → (read_at d i).in_flight ≡ true
      → read_at (submit_all d j answers) i ≡ read_at d i
  unfolding submit_all
  submit_all-kept d i j [] flying = refl
  submit_all-kept d i j (a ∷ rest) flying =
      let here =
        ap (λ l. get_or l i no_read) (check_submit-reads (submit_read d j a)).0
        ∙ submit_read-kept d i j a flying in
      submit_all-kept (check_submit (submit_read d j a)) i (suc j) rest
        (ap (λ r. r.in_flight) here ∙ flying)
      ∙ here

  submit_all-Unheard :
      (d : Drain A) (j : ℕ) (answers : List Answers) → Unheard d (submit_all d j answers)
  unfolding submit_all
  submit_all-Unheard d j [] = Unheard-refl d
  submit_all-Unheard d j (a ∷ rest) =
      let one = check_submit (submit_read d j a) in
      Unheard-trans d one (submit_all one (suc j) rest)
        (check_submit-Unheard d (submit_read d j a) (submit_read-Unheard d j a))
        (submit_all-Unheard one (suc j) rest)

  -- A completion that comes when the drain does not run or has another generation.
  read_complete-Unheard :
      (meanwhile : Drain A → Drain A) (d : Drain A) (i : ℕ) (status : Io) (frames : List A)
      (now_ns : ℕ) (a : Answers)
      → d.running ≡ false ⊎ ((read_at d i).read_generation == d.generation) ≡ false
      → Unheard d (read_complete meanwhile d i status frames now_ns a)
  unfolding read_complete
  read_complete-Unheard meanwhile d i status frames now_ns a stale =
      let ended = put_read d i (record (read_at d i) { in_flight = false }) in
      let quiet : Unheard d ended = record {
        same_ring = refl;
        same_completions = refl;
        same_generation = refl;
        same_running = refl;
      } in
      if-cases (Unheard d) (not d.running) (λ off. quiet)
        (λ on.
          if-cases (Unheard d) (not ((read_at d i).read_generation == d.generation))
            (λ old.
              Unheard-trans d ended (submit_read ended i a).1 quiet (submit_read-Unheard ended i a))
            (λ new. elim stale [
              | inl off ↦ absurd (ground (arith, on, off))
              | inr old ↦ absurd (ground (arith, new, old))
            ]))

  start_drain-kept :
      (d : Drain A) (i : ℕ) (a b c : Answers)
      → (read_at d i).in_flight ≡ true
      → read_at (start_drain d a b c) i ≡ read_at d i
  unfolding start_drain
  start_drain-kept d i a b c flying =
      if-cases (λ (e : Drain A). read_at e i ≡ read_at d i) (not d.pipe_open) (λ closed. refl)
        (λ ready.
          submit_all-kept (record d { generation = next_generation d.generation; running = true }) i
            0 (a ∷ b ∷ c ∷ []) flying)

  start_drain-ring :
      (d : Drain A) (a b c : Answers)
      → ((start_drain d a b c).ring ≡ d.ring) × ((start_drain d a b c).completions ≡ d.completions)
  unfolding start_drain
  start_drain-ring d a b c =
      if-cases (λ (e : Drain A). (e.ring ≡ d.ring) × (e.completions ≡ d.completions))
        (not d.pipe_open) (λ closed. (refl, refl))
        (λ ready.
          let u =
            submit_all-Unheard
              (record d { generation = next_generation d.generation; running = true }) 0
              (a ∷ b ∷ c ∷ []) in
          (u.same_ring, u.same_completions))

  -- A drain that is started runs in the next generation, or it stays as it was.
  start_drain-generation :
      (d : Drain A) (a b c : Answers)
      → (start_drain d a b c ≡ d)
        ⊎ ((start_drain d a b c).generation ≡ next_generation d.generation)
  unfolding start_drain
  start_drain-generation d a b c =
      if-cases (λ (e : Drain A). (e ≡ d) ⊎ (e.generation ≡ next_generation d.generation))
        (not d.pipe_open) (λ closed. inl refl)
        (λ ready.
          inr
            (submit_all-Unheard
              (record d { generation = next_generation d.generation; running = true }) 0
              (a ∷ b ∷ c ∷ [])).same_generation)

  -- A read that is under way when the drain stops, and completes only after the drain has been started
  -- again, brings nothing into the ring and counts as no completion, whatever its status and the answers to the
  -- reads submitted meanwhile; `d` is the drain before the stop, in whose generation the read was submitted.
  pub stale_read_lem :
      (meanwhile : Drain A → Drain A) (d : Drain A) (i : ℕ) (status : Io) (frames : List A)
      (now_ns : ℕ) (a b c again : Answers)
      → (read_at d i).in_flight ≡ true
      → (read_at d i).read_generation ≡ d.generation
      → let restarted = start_drain (stop_drain d) a b c in
        let late = read_complete meanwhile restarted i status frames now_ns again in
        (late.ring ≡ d.ring) × (late.completions ≡ d.completions)
  unfolding stop_drain reset_session
  stale_read_lem meanwhile d i status frames now_ns a b c again flying mine =
      let restarted = start_drain (stop_drain d) a b c in
      let same_read = start_drain-kept (stop_drain d) i a b c flying in
      let since = start_drain-ring (stop_drain d) a b c in
      let stale : restarted.running ≡ false
          ⊎ ((read_at restarted i).read_generation == restarted.generation) ≡ false =
        elim (start_drain-generation (stop_drain d) a b c) [
          | inl same ↦ inl (ap (λ e. e.running) same)
          | inr next ↦ inr (
              not_equal _ _ (λ e.
                two_ahead d.generation
                  (sym (ap (λ r. r.read_generation) same_read ∙ mine) ∙ e ∙ next)))
        ] in
      let quiet = read_complete-Unheard meanwhile restarted i status frames now_ns again stale in
      (quiet.same_ring ∙ since.0, quiet.same_completions ∙ since.1)
