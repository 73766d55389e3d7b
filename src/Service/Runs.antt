-- ===== src/Service/Runs.antt =====
-- The device service started and stopped any number of times (coreaudio/NS6DeviceMachService.c).
use mathlib.Core.Path.{subst}
use numark_ns6_mac_arm.Prelude.{
  ℕ, suc, ◌-◌, ◌≡◌, refl, sym, ap, ap₂, ◌∙◌, ◌≢◌, inl, inr, Bool, true, false, not, ◌&&◌, ◌||◌,
  Option, none, some, List, [], ◌∷◌, arith, Bool-cases, if◌then◌else◌, ◌==◌, Every, get_or, length,
  length-drop, length-take, take,
}
use numark_ns6_mac_arm.Service.{round, Event, World, Layout, Service}
use numark_ns6_mac_arm.Service.Lifecycle.{
  publish, SharedMemory, update_device_state, drop_entry, Daemon, shared_memory_version, Answers,
  stop, drop_receive, erase, shut_down,
}
use numark_ns6_mac_arm.Service.Release.{
  held, is_some, too_small, or_false, either_way, entry_good, may_publish, rest_good, publish_lem,
  IsSound,
}

-- One call from outside the service thread, or one round of that thread.
pub data Op : Type 0 where
  start : Answers → SharedMemory → Op
  finish : Op
  serve : World → Event → Op
  tell_state : Bool → Bool → Option (List ℕ) → Op

-- A round needs the thread.
unfoldable pub life_step : Layout → Daemon → Op → Daemon
unfolding publish stop
life_step l d (start a m) = (publish l a m d).1
life_step l d finish = stop d
life_step l d (serve w e) =
    if d.thread_alive then record d { service = (round l d.service w e).1 } else d
life_step l d (tell_state connected transport_ready version) = record d {
  service = update_device_state connected transport_ready version d.service;
}

unfoldable pub live : Layout → Daemon → List Op → Daemon
unfolding life_step
live l d [] = d
live l d (op ∷ ops) = live l (life_step l d op) ops

-- The system never answers with an entry that is too small.
abbrev pub Enough : Layout → Op → Type 0
Enough l (start a m) = too_small l a.page_size m a.entry ≡ false
Enough l finish = Unit {0}
Enough l (serve w e) = Unit {0}
Enough l (tell_state connected transport_ready version) = Unit {0}

-- The entry is all that the task holds, while the service runs.
abbrev pub IsClean : Daemon → Type 0
IsClean d = length d.entry_rights ≡ (if d.is_running then 1 else 0)

erase-held : (o : Option ℕ) → erase o (held o) ≡ []
erase-held none = refl
erase-held (some p) = let same : (p == p) ≡ true = ground arith in rw same refl

length-erase :
    (o : Option ℕ) (rights : List ℕ)
    → o ≢ none
    → take 1 rights ≡ held o
    → suc (length (erase o rights)) ≡ length rights
length-erase none rights ne e = absurd (ne refl)
length-erase (some p) [] ne e = absurd (omega (arith, ap length e))
length-erase (some p) (q ∷ rights) ne e =
    let first : q ≡ p = ap (λ l. get_or l 0 0) e in
    let same : (q == p) ≡ true = ground (arith, first) in rw same refl

-- What holds of the daemon between two calls.
abbrev Holds : Daemon → Type 0
Holds d = IsSound d × IsClean d

shut_down_lem : (d : Daemon) → Holds d → d.is_running ≡ true → Holds (shut_down d)
unfolding shut_down drop_receive drop_entry
shut_down_lem d (v, c) on =
    let one = length-erase d.memory_entry d.entry_rights (v.entry_some on) (v.entry_held on) in
    (
      record {
        owned = refl;
        threaded = refl;
        receives = ap (erase d.receive_port) v.receives ∙ erase-held d.receive_port;
        ports = λ off. refl;
        port_some = λ bad. absurd (cc bad);
        entry_held = λ bad. absurd (cc bad);
        entry_some = λ bad. absurd (cc bad);
      },
      ground (arith, one, c, on),
    )

stop_lem : (d : Daemon) → Holds d → Holds (stop d)
unfolding stop
stop_lem d h = elim (Bool-cases d.is_running) [
  | inl on ↦ subst (λ b. Holds (if not b then d else shut_down d)) (sym on) (shut_down_lem d h on)
  | inr off ↦ subst (λ b. Holds (if not b then d else shut_down d)) (sym off) h
]

length-held : (o : Option ℕ) → o ≢ none → length (held o) ≡ 1
length-held none ne = absurd (ne refl)
length-held (some p) ne = refl

and_left : (p q : Bool) → (p && q) ≡ true → p ≡ true
and_left true q e = refl
and_left false q e = absurd (cc e)

idle_before : (p q r : Bool) → not (p || q || r) ≡ true → p ≡ false
idle_before true q r e = absurd (cc e)
idle_before false q r e = refl

and_false : (b : Bool) → (b && false) ≡ false
and_false true = refl
and_false false = refl

start_lem :
    (l : Layout) (a : Answers) (m : SharedMemory) (d : Daemon)
    → Holds d
    → too_small l a.page_size m a.entry ≡ false
    → Holds (publish l a m d).1
start_lem l a m d (v, c) enough =
    let r = publish l a m d in
    let asks = may_publish l m d && is_some a.account in
    let (v', running, good, entries) = publish_lem l a m d v in
    let none_leaks : (asks && too_small l a.page_size m a.entry) ≡ false =
      ap (λ b. asks && b) enough ∙ and_false asks in
    let skip : ℕ = if (asks && too_small l a.page_size m a.entry) || r.0 then 1 else 0 in
    let count : length r.1.entry_rights - skip ≡ length d.entry_rights =
      sym (length-drop skip r.1.entry_rights) ∙ ap length entries in
    (
      v',
      elim (Bool-cases r.0) [
        | inl ok ↦
            let idle : d.is_running ≡ false =
              idle_before d.is_running (not (m.protocol_version == shared_memory_version))
                (not (m.struct_size == l.shared_size))
                (and_left (may_publish l m d) (is_some a.account) (
                  and_left asks (entry_good l a.page_size m a.entry) (
                    and_left (asks && entry_good l a.page_size m a.entry) (rest_good a)
                      (sym good ∙ ok)))) in
            let on : r.1.is_running ≡ true = running ∙ ap₂ (λ p q. p || q) idle ok in
            let skips : skip ≡ 1 = ap₂ (λ p q. if p || q then 1 else 0) none_leaks ok in
            let before : length d.entry_rights ≡ 0 = c ∙ ap (λ b. if b then 1 else 0) idle in
            let some_left : length (take 1 r.1.entry_rights) ≡ 1 =
              ap length (v'.entry_held on) ∙ length-held r.1.memory_entry (v'.entry_some on) in
            let one : length r.1.entry_rights ≡ 1 =
              omega (arith, length-take 1 r.1.entry_rights, count, skips) in
            one ∙ sym (ap (λ b. if b then 1 else 0) on)
        | inr failed ↦
            let skips : skip ≡ 0 = ap₂ (λ p q. if p || q then 1 else 0) none_leaks failed in
            let same : r.1.is_running ≡ d.is_running =
              running ∙ ap (λ b. d.is_running || b) failed ∙ or_false d.is_running in
            let stay : length r.1.entry_rights ≡ length d.entry_rights =
              omega (arith, count, skips) in
            stay ∙ c ∙ sym (ap (λ b. if b then 1 else 0) same)
      ],
    )

same_service : (d : Daemon) (s : Service) → Holds d → Holds (record d { service = s })
same_service d s (v, c) = (
  record {
    owned = v.owned;
    threaded = v.threaded;
    receives = v.receives;
    ports = v.ports;
    port_some = v.port_some;
    entry_held = v.entry_held;
    entry_some = v.entry_some;
  },
  c,
)

length-receives :
    (d : Daemon) → IsSound d → length d.receive_rights ≡ (if d.is_running then 1 else 0)
length-receives d v = elim (Bool-cases d.is_running) [
  | inl on ↦
      ap length v.receives
      ∙ length-held d.receive_port (v.port_some on)
      ∙ sym (ap (λ b. if b then 1 else 0) on)
  | inr off ↦
      ap length (v.receives ∙ ap held (v.ports off)) ∙ sym (ap (λ b. if b then 1 else 0) off)
]

life_step_lem :
    (l : Layout) (d : Daemon) (op : Op) → Holds d → Enough l op → Holds (life_step l d op)
unfolding life_step
life_step_lem l d (start a m) h enough = start_lem l a m d h enough
life_step_lem l d finish h enough = stop_lem d h
life_step_lem l d (serve w e) h enough =
    either_way (λ b x. Holds x) d.thread_alive (same_service d (round l d.service w e).1 h) h
life_step_lem l d (tell_state connected transport_ready version) h enough =
    same_service d (update_device_state connected transport_ready version d.service) h

-- However the service is started, stopped and served, and whatever the system answers to each call, as long
-- as it gives no memory entry that is too small: while the service runs, and only then, it is the owner,
-- its thread is alive, and the task holds one right to receive and one memory entry.
pub live_lem :
    (l : Layout) (d : Daemon) (ops : List Op)
    → IsSound d
    → IsClean d
    → Every (Enough l) ops
    → let d' = live l d ops in
      (d'.owner.claimed ≡ d'.is_running)
      × (d'.thread_alive ≡ d'.is_running)
      × (length d'.receive_rights ≡ (if d'.is_running then 1 else 0))
      × (length d'.entry_rights ≡ (if d'.is_running then 1 else 0))
unfolding live
live_lem l d [] v c enough = (v.owned, v.threaded, length-receives d v, c)
live_lem l d (op ∷ ops) v c enough =
    let (v', c') = life_step_lem l d op (v, c) enough.0 in
    live_lem l (life_step l d op) ops v' c' enough.1
