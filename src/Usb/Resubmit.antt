-- ===== src/Usb/Resubmit.antt =====
-- The read of a slot behind its completion (coreaudio/NS6USB.c): the drain keeps its reads under way.
-- The drain runs on an open pipe, and slot `i`, which it has, is free.
use mathlib.Core.Path.{subst}
use numark_ns6_mac_arm.Prelude.{
  ℕ, ◌+◌, ◌<◌, ◌≡◌, refl, sym, ap, ◌∙◌, true, false, not, ◌&&◌, ◌||◌, List, arith, if-cases,
  if◌then◌else◌, leb, ltb, ◌==◌, get_or, get_or-set_self, length, length-set,
}
use numark_ns6_mac_arm.Prelude.Words.{sub64}
use numark_ns6_mac_arm.Usb.{
  is_current, demand_of, Io, is_success, check_submit, count_error, Read, submit_read, use_block,
  read_at, Answers, final_answer, no_read, take_block, Drain, read_complete, accept_frames,
  put_read, end_demand, demand_timeout_ns,
}

pub record IsIdle {A : Type 0} (i : ℕ) (d : Drain A) : Type 0 where
  pub inside : i < length d.reads
  pub runs : d.running ≡ true
  pub opened : d.pipe_open ≡ true
  pub free : (read_at d i).in_flight ≡ false

module _ {A : Type 0} where
  -- A submission that the system accepts puts the slot's read under way, in the generation there is.
  submit_read-accepted :
      (d : Drain A) (i : ℕ) (a : Answers)
      → IsIdle i d
      → is_success (final_answer a) ≡ true
      → let after = check_submit (submit_read d i a) in
        (read_at after i ≡ record { in_flight = true; read_generation = d.generation })
        × (after.generation ≡ d.generation)
  unfolding submit_read
  submit_read-accepted d i a idle good =
      let flying : Read = record { in_flight = true; read_generation = d.generation } in
      if-cases
        (λ (r : Io × Drain A).
          (read_at (check_submit r) i ≡ flying) × ((check_submit r).generation ≡ d.generation))
        (not d.pipe_open || not d.running)
        (λ no. absurd (ground (arith, no, idle.runs, idle.opened)))
        (λ ready.
          if-cases
            (λ (r : Io × Drain A).
              (read_at (check_submit r) i ≡ flying) × ((check_submit r).generation ≡ d.generation))
            (read_at d i).in_flight (λ busy. absurd (ground (arith, busy, idle.free)))
            (λ free.
              if-cases (λ (e : Drain A). (read_at e i ≡ flying) × (e.generation ≡ d.generation))
                (is_success (final_answer a))
                (λ yes. (
                  get_or-set_self d.reads i _ no_read idle.inside
                      ∙ ap (λ b. record { in_flight = b; read_generation = d.generation }) yes,
                  refl,
                ))
                (λ bad. absurd (ground (arith, good, bad)))))

  resubmitted_checked :
      (d : Drain A) (i : ℕ) (a : Answers)
      → IsIdle i d
      → is_success (final_answer a) ≡ true
      → let after = check_submit (submit_read d i a) in
        read_at after i ≡ record { in_flight = true; read_generation = after.generation }
  resubmitted_checked d i a idle good =
      let (flying, same) = submit_read-accepted d i a idle good in
      flying ∙ ap (λ n. record { in_flight = true; read_generation = n }) (sym same)

  pub check_submit-reads :
      (r : Io × Drain A)
      → ((check_submit r).reads ≡ r.1.reads) × ((check_submit r).generation ≡ r.1.generation)
  check_submit-reads (result, e) =
      if-cases (λ (f : Drain A). (f.reads ≡ e.reads) × (f.generation ≡ e.generation))
        (is_success result) (λ good. (refl, refl)) (λ bad. (refl, refl))

  -- A stale read's submission, whose failure nobody counts.
  resubmitted :
      (d : Drain A) (i : ℕ) (a : Answers)
      → IsIdle i d
      → is_success (final_answer a) ≡ true
      → let after = (submit_read d i a).1 in
        read_at after i ≡ record { in_flight = true; read_generation = after.generation }
  resubmitted d i a idle good =
      let (same_reads, same_generation) = check_submit-reads (submit_read d i a) in
      ap (λ l. get_or l i no_read) (sym same_reads)
      ∙ resubmitted_checked d i a idle good
      ∙ ap (λ n. record { in_flight = true; read_generation = n }) same_generation

  -- What is done with a block leaves the slot as it is.
  IsIdle-record :
      (i : ℕ) (d e : Drain A)
      → IsIdle i d
      → e.reads ≡ d.reads
      → e.running ≡ d.running
      → e.pipe_open ≡ d.pipe_open
      → IsIdle i e
  IsIdle-record i d e idle same_reads same_running same_pipe = record {
    inside = subst (λ l. i < length l) (sym same_reads) idle.inside;
    runs = same_running ∙ idle.runs;
    opened = same_pipe ∙ idle.opened;
    free = ap (λ l. (get_or l i no_read).in_flight) same_reads ∙ idle.free;
  }

  take_block-IsIdle :
      (meanwhile : Drain A → Drain A) (i : ℕ)
      → ((x : Drain A) → IsIdle i x → IsIdle i (meanwhile x))
      → (d : Drain A) (generation : ℕ) (frames : List A) → IsIdle i d
      → IsIdle i (take_block meanwhile d generation frames)
  unfolding take_block accept_frames
  take_block-IsIdle meanwhile i keeps d generation frames idle =
      let later = keeps d idle in
      if-cases (IsIdle i) (is_current (meanwhile d) generation)
        (λ yes.
          IsIdle-record i (meanwhile d) (accept_frames (meanwhile d) frames) later refl refl refl)
        (λ no. later)

  use_block-IsIdle :
      (meanwhile : Drain A → Drain A) (i : ℕ)
      → ((x : Drain A) → IsIdle i x → IsIdle i (meanwhile x))
      → (d : Drain A) (generation : ℕ) (frames : List A) (now_ns : ℕ) → IsIdle i d
      → IsIdle i (use_block meanwhile d generation frames now_ns)
  unfolding use_block end_demand
  use_block-IsIdle meanwhile i keeps d generation frames now_ns idle =
      let counted = record d { completions = d.completions + 1 } in
      let demand = demand_of d in
      let age = sub64 now_ns demand.last_demand_ns in
      let still = IsIdle-record i d counted idle refl refl refl in
      if-cases (IsIdle i)
        (demand.requested && not (demand.last_demand_ns == 0) && ltb age demand_timeout_ns)
        (λ live. take_block-IsIdle meanwhile i keeps counted generation frames still)
        (λ dead.
          if-cases (IsIdle i) (not (demand.last_demand_ns == 0) && leb demand_timeout_ns age)
            (λ over. IsIdle-record i d (end_demand counted) idle refl refl refl) (λ waits. still))

  -- Behind the completion of the read of slot `i`, good, failed or stale, the slot's read is under way
  -- again in the generation that there is then: if the drain has the slot, runs on an open pipe, what other
  -- threads do while the block is decoded leaves such a drain with the slot free, and the system accepts the read,
  -- at once or behind a stall that it clears.
  pub read_complete-resubmits :
      (meanwhile : Drain A → Drain A) (d : Drain A) (i : ℕ) (status : Io) (frames : List A)
      (now_ns : ℕ) (a : Answers)
      → i < length d.reads
      → d.running ≡ true
      → d.pipe_open ≡ true
      → ((x : Drain A) → IsIdle i x → IsIdle i (meanwhile x))
      → is_success (final_answer a) ≡ true
      → let after = read_complete meanwhile d i status frames now_ns a in
        read_at after i ≡ record { in_flight = true; read_generation = after.generation }
  unfolding read_complete
  read_complete-resubmits meanwhile d i status frames now_ns a lt runs opened keeps good =
      let ended = put_read d i (record (read_at d i) { in_flight = false }) in
      let Again : Drain A → Type 0 =
        λ e. read_at e i ≡ record { in_flight = true; read_generation = e.generation } in
      let idle : IsIdle i ended = record {
        inside = subst (λ n. i < n) (sym (length-set d.reads i _)) lt;
        runs = runs;
        opened = opened;
        free = ap (λ r. r.in_flight) (get_or-set_self d.reads i _ no_read lt);
      } in
      let seen =
        if is_success status
        then use_block meanwhile ended (read_at d i).read_generation frames now_ns
        else count_error ended in
      let still : IsIdle i seen =
        if-cases (IsIdle i) (is_success status)
          (λ yes.
            use_block-IsIdle meanwhile i keeps ended (read_at d i).read_generation frames now_ns
              idle)
          (λ no. IsIdle-record i ended (count_error ended) idle refl refl refl) in
      if-cases Again (not d.running) (λ off. absurd (ground (arith, off, runs)))
        (λ on.
          if-cases Again (not ((read_at d i).read_generation == d.generation))
            (λ old. resubmitted ended i a idle good)
            (λ new. resubmitted_checked seen i a still good))
