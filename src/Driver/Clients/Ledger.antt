-- ===== src/Driver/Clients/Ledger.antt =====
-- The calls of a device's clients in any order (numark-ns6/coreaudio/AudioDeviceLifecycle.cpp): what the
-- answers say, and that the table agrees with the answers.
use numark_ns6_mac_arm.Driver.Clients.{
  start, counted, Client, start_io, remove_client, stop_io, stop, start_again, Lifecycle, start_new,
  rejected, stopped, occupy, no_client, started, overflowing, client_stopped_still_active, absent,
  one_less, client_not_active, start_found, remove_io, client_capacity, Transition, remove_in,
  last_client_stopped, empty, remove_found, first_client_started, additional_client_started, Again,
  stop_found, stop_in,
}
use numark_ns6_mac_arm.Driver.Clients.Balance.{
  Answer, Stopped, weight, occupy-Occupied, Moves, start_again-Answer, Occupied, starts_of, Removed,
  remove_in-Removed, Unique, total, stop_in-Stopped,
}
use numark_ns6_mac_arm.Prelude.{
  ℕ, zero, suc, ◌+◌, ◌-◌, ◌<◌, ◌≡◌, refl, sym, ap, ◌∙◌, ◌≢◌, inl, inr, Bool, true, false, Option,
  none, some, List, [], ◌∷◌, arith, Bool-cases, if◌then◌else◌, ◌==◌, replicate,
}

pub data Call : Type 0 where
  call_start call_stop call_remove : ℕ → Call

unfoldable pub perform : Lifecycle → Call → Transition × Lifecycle
perform s (call_start client_id) = start_io s client_id
perform s (call_stop client_id) = stop_io s client_id
perform s (call_remove client_id) = remove_io s client_id

unfoldable pub run : Lifecycle → List Call → List Transition × Lifecycle
unfolding perform
run s [] = ([], s)
run s (call ∷ calls) =
    let (answer, t) = perform s call in let (answers, u) = run t calls in (answer ∷ answers, u)

abbrev accepted : Transition → Bool
accepted rejected = false
accepted client_not_active = false
accepted first_client_started = true
accepted additional_client_started = true
accepted client_stopped_still_active = true
accepted last_client_stopped = true

abbrev entered : Call → ℕ → ℕ → ℕ
entered (call_start client_id) j n = if client_id == j then n + 1 else n
entered (call_stop client_id) j n = if client_id == j then n - 1 else n
entered (call_remove client_id) j n = if client_id == j then 0 else n

-- The starts of a client, as the calls and their answers tell them.
unfoldable pub tally : ℕ → List Call → List Transition → ℕ → ℕ
tally j (call ∷ calls) (answer ∷ answers) n =
    tally j calls answers (if accepted answer then entered call j n else n)
tally j [] answers n = n
tally j (call ∷ calls) [] n = n

unfoldable pub IsConsistent : Lifecycle → Type 0
unfolding total Unique
IsConsistent s = (s.active_starts ≡ total s.clients) × Unique s.clients

-- What an answer tells of the device before and after the call.
unfoldable pub Tells : Transition → Lifecycle → Lifecycle → Type 0
unfolding total
Tells rejected s t = s ≡ t
Tells client_not_active s t = s ≡ t
Tells first_client_started s t = (total s.clients ≡ 0) × (total t.clients ≡ 1)
Tells additional_client_started s t =
    (0 < total s.clients) × (total t.clients ≡ total s.clients + 1)
Tells client_stopped_still_active s t = 0 < total t.clients
Tells last_client_stopped s t = (0 < total s.clients) × (total t.clients ≡ 0)

pub record Step (s : Lifecycle) (call : Call) (r : Transition × Lifecycle) : Type 0 where
  pub consistent : IsConsistent r.1
  pub kept :
      (j : ℕ)
      → starts_of j r.1.clients
        ≡ (if accepted r.0 then entered call j (starts_of j s.clients) else starts_of j s.clients)
  pub told : Tells r.0 s r.1

-- A change of one client's starts is entered as such.
moved :
    (client_id j n : ℕ) (cs ds : List Client)
    → Moves client_id cs ds
    → starts_of client_id ds ≡ n
    → starts_of j ds ≡ (if client_id == j then n else starts_of j cs)
moved client_id j n cs ds m now = elim (Bool-cases (client_id == j)) [
  | inl e ↦
      let same : client_id ≡ j = ground arith in rw e (ap (λ i. starts_of i ds) (sym same) ∙ now)
  | inr e ↦ rw e (m.others j (λ same. ground arith))
]

moved_up :
    (client_id j : ℕ) (cs ds : List Client)
    → Moves client_id cs ds
    → starts_of client_id ds ≡ starts_of client_id cs + 1
    → starts_of j ds ≡ entered (call_start client_id) j (starts_of j cs)
moved_up client_id j cs ds m now = elim (Bool-cases (client_id == j)) [
  | inl e ↦
      let same : client_id ≡ j = ground arith in
      rw e (ap (λ i. starts_of i ds) (sym same) ∙ now ∙ ap (λ i. starts_of i cs + 1) same)
  | inr e ↦ rw e (m.others j (λ same. ground arith))
]

moved_down :
    (client_id j : ℕ) (cs ds : List Client)
    → Moves client_id cs ds
    → starts_of client_id ds + 1 ≡ starts_of client_id cs
    → starts_of j ds ≡ entered (call_stop client_id) j (starts_of j cs)
moved_down client_id j cs ds m now = elim (Bool-cases (client_id == j)) [
  | inl e ↦
      let same : client_id ≡ j = ground arith in
      let less : starts_of client_id ds ≡ starts_of client_id cs - 1 = omega (arith, now) in
      rw e (ap (λ i. starts_of i ds) (sym same) ∙ less ∙ ap (λ i. starts_of i cs - 1) same)
  | inr e ↦ rw e (m.others j (λ same. ground arith))
]

abbrev with_one_more : Lifecycle → List Client → Lifecycle
with_one_more s ds = record { clients = ds; active_starts = s.active_starts + 1 }

grown :
    (s : Lifecycle) (client_id : ℕ) (ds : List Client)
    → IsConsistent s
    → Moves client_id s.clients ds
    → starts_of client_id ds ≡ starts_of client_id s.clients + 1
    → Step s (call_start client_id) (started (s.active_starts == 0) (true, with_one_more s ds))
unfolding IsConsistent Tells
grown s client_id ds c m now =
    let more : total ds ≡ total s.clients + 1 = omega (arith, m.totals, now) in
    elim (Bool-cases (s.active_starts == 0)) [
      | inl idle ↦
          let none_before : total s.clients ≡ 0 = ground (arith, c.0) in
          rw idle (record {
            consistent = (omega (arith, c.0, more), m.unique c.1);
            kept = λ j. moved_up client_id j s.clients ds m now;
            told = (none_before, omega (arith, more, none_before));
          })
      | inr busy ↦
          let some_before : 0 < total s.clients = ground (arith, c.0) in
          rw busy (record {
            consistent = (omega (arith, c.0, more), m.unique c.1);
            kept = λ j. moved_up client_id j s.clients ds m now;
            told = (some_before, more);
          })
    ]

refused_start :
    (s : Lifecycle) (client_id : ℕ) (was_idle : Bool)
    → IsConsistent s
    → Step s (call_start client_id) (started was_idle (false, s))
unfolding Tells
refused_start s client_id was_idle c = record { consistent = c; kept = λ j. refl; told = refl }

new_client :
    (s : Lifecycle) (client_id : ℕ) (o : Option (List Client))
    → IsConsistent s
    → starts_of client_id s.clients ≡ 0
    → Occupied client_id s.clients o
    → Step s (call_start client_id) (started (s.active_starts == 0) (start_new s o))
unfolding Occupied
new_client s client_id none c fresh o = refused_start s client_id (s.active_starts == 0) c
new_client s client_id (some ds) c fresh o = grown s client_id ds c o.0 (omega (arith, o.1, fresh))

start-Step :
    (s : Lifecycle) (client_id : ℕ) (a : Again)
    → IsConsistent s
    → Answer client_id s.clients a
    → Step s (call_start client_id) (started (s.active_starts == 0) (start_found s client_id a))
unfolding Answer
start-Step s client_id overflowing c a = refused_start s client_id (s.active_starts == 0) c
start-Step s client_id (counted ds) c a = grown s client_id ds c a.0 a.1
start-Step s client_id absent c a =
    new_client s client_id (occupy client_id s.clients) c a (occupy-Occupied client_id s.clients a)

abbrev with_less : Lifecycle → ℕ → List Client → Lifecycle
with_less s n ds = record { clients = ds; active_starts = s.active_starts - n }

shrunk :
    (s : Lifecycle) (call : Call) (n : ℕ) (ds : List Client)
    → IsConsistent s
    → total ds + n ≡ total s.clients
    → n ≢ 0
    → Unique ds
    → ((j : ℕ) → starts_of j ds ≡ entered call j (starts_of j s.clients))
    → Step s call (stopped (true, with_less s n ds))
unfolding IsConsistent Tells
shrunk s call n ds c less some_less one_entry kept = elim (Bool-cases (s.active_starts - n == 0)) [
  | inl e ↦
      let nothing : total ds ≡ 0 = ground (arith, c.0, less) in
      rw e (record {
        consistent = (omega (arith, c.0, less), one_entry);
        kept = kept;
        told = (omega (arith, less, some_less), nothing);
      })
  | inr e ↦
      let something : 0 < total ds = ground (arith, c.0, less) in
      rw e (record {
        consistent = (omega (arith, c.0, less), one_entry);
        kept = kept;
        told = something;
      })
]

stop-Step :
    (s : Lifecycle) (client_id : ℕ) (o : Option (List Client))
    → IsConsistent s
    → Stopped client_id s.clients o
    → Step s (call_stop client_id) (stopped (stop_found s o))
unfolding Stopped IsConsistent Tells
stop-Step s client_id none c a = record { consistent = c; kept = λ j. refl; told = refl }
stop-Step s client_id (some ds) c (m, one_less) =
    shrunk s (call_stop client_id) 1 ds c (omega (arith, m.totals, one_less))
      (λ z. omega (arith, z)) (m.unique c.1) (λ j. moved_down client_id j s.clients ds m one_less)

remove-Step :
    (s : Lifecycle) (client_id : ℕ) (o : Option (ℕ × List Client))
    → IsConsistent s
    → Removed client_id s.clients o
    → Step s (call_remove client_id) (stopped (remove_found s o))
unfolding Removed IsConsistent Tells
remove-Step s client_id none c a = record { consistent = c; kept = λ j. refl; told = refl }
remove-Step s client_id (some (n, ds)) c (m, left, some_left, all_gone) =
    shrunk s (call_remove client_id) n ds c (omega (arith, m.totals, left)) some_left (m.unique c.1)
      (λ j. moved client_id j 0 s.clients ds m (all_gone c.1))

-- A call keeps the count of the starts and one entry for each client; a client's starts change as the
-- answer says; and the answer tells whether the device was idle before a start, and is after a stop.
pub perform-Step : (s : Lifecycle) (call : Call) → IsConsistent s → Step s call (perform s call)
unfolding perform start_io stop_io remove_io start stop remove_client
perform-Step s (call_start client_id) c =
    start-Step s client_id (start_again client_id s.clients) c
      (start_again-Answer client_id s.clients)
perform-Step s (call_stop client_id) c =
    stop-Step s client_id (stop_in client_id s.clients) c (stop_in-Stopped client_id s.clients)
perform-Step s (call_remove client_id) c =
    remove-Step s client_id (remove_in client_id s.clients) c
      (remove_in-Removed client_id s.clients)

run-tally :
    (calls : List Call) (s : Lifecycle)
    → IsConsistent s
    → IsConsistent (run s calls).1
      × ((j : ℕ)
          → starts_of j (run s calls).1.clients
            ≡ tally j calls (run s calls).0 (starts_of j s.clients))
unfolding run tally
run-tally [] s c = (c, λ j. refl)
run-tally (call ∷ calls) s c =
    let step = perform-Step s call c in
    let rest = run-tally calls (perform s call).1 step.consistent in
    let answers = (run (perform s call).1 calls).0 in
    (rest.0, λ j. rest.1 j ∙ ap (λ n. tally j calls answers n) (step.kept j))

starts_of-replicate : (j n : ℕ) → starts_of j (replicate n no_client) ≡ 0
unfolding starts_of weight
starts_of-replicate j zero = refl
starts_of-replicate j (suc n) = ground (arith, starts_of-replicate j n)

total-replicate : (n : ℕ) → total (replicate n no_client) ≡ 0
unfolding total
total-replicate zero = refl
total-replicate (suc n) = omega (arith, total-replicate n)

Unique-replicate : (n : ℕ) → Unique (replicate n no_client)
unfolding Unique
Unique-replicate zero = tt
Unique-replicate (suc n) = (inl refl, Unique-replicate n)

pub empty-IsConsistent : IsConsistent empty
unfolding IsConsistent empty
empty-IsConsistent = (sym (total-replicate client_capacity), Unique-replicate client_capacity)

-- For any calls from the empty table on: the count of the starts is that of the entries, no client has two
-- entries, and each client has the starts that the calls and their answers tell.
pub calls-IsConsistent :
    (calls : List Call)
    → IsConsistent (run empty calls).1
      × ((j : ℕ) → starts_of j (run empty calls).1.clients ≡ tally j calls (run empty calls).0 0)
unfolding empty
calls-IsConsistent calls =
    let r = run-tally calls empty empty-IsConsistent in
    let none_yet : (j : ℕ) → starts_of j empty.clients ≡ 0 =
      λ j. starts_of-replicate j client_capacity in
    (r.0, λ j. r.1 j ∙ ap (λ n. tally j calls (run empty calls).0 n) (none_yet j))
