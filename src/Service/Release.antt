-- ===== src/Service/Release.antt =====
-- What the device service holds (coreaudio/NS6DeviceMachService.c): its ports and its thread while it
-- runs, and nothing of them before and after.
use mathlib.Core.Path.{subst}
use numark_ns6_mac_arm.Prelude.{
  ℕ, ◌≡◌, refl, sym, ap, ap₂, ◌∙◌, ◌≢◌, inl, inr, Bool, true, false, not, ◌&&◌, ◌||◌, Option, none,
  some, List, [], ◌∷◌, arith, Bool-cases, if◌then◌else◌, ltb, ◌==◌, drop, take,
}
use numark_ns6_mac_arm.Service.{Layout}
use numark_ns6_mac_arm.Service.Lifecycle.{
  publish, Daemon, shared_memory_version, make_entry, check_in, mapped_size, owner_claim,
  SharedMemory, abandon, drop_receive, drop_entry, owner_release, Answers, begin_session,
  create_thread, ready, begun,
}

abbrev pub held : Option ℕ → List ℕ
held none = []
held (some p) = p ∷ []

pub record IsSound (d : Daemon) : Type 0 where
  pub owned : d.owner.claimed ≡ d.is_running
  pub threaded : d.thread_alive ≡ d.is_running
  pub receives : d.receive_rights ≡ held d.receive_port
  pub ports : d.is_running ≡ false → d.receive_port ≡ none
  pub port_some : d.is_running ≡ true → d.receive_port ≢ none
  pub entry_held : d.is_running ≡ true → take 1 d.entry_rights ≡ held d.memory_entry
  pub entry_some : d.is_running ≡ true → d.memory_entry ≢ none

-- Whether the system gives an entry, but one that is too small for the memory.
abbrev pub too_small : Layout → ℕ → SharedMemory → Option (ℕ × ℕ) → Bool
too_small l page_size m none = false
too_small l page_size m (some (name, entry_size)) = ltb entry_size (mapped_size l page_size m)

pub or_false : (b : Bool) → (b || false) ≡ b
or_false true = refl
or_false false = refl

eq_self : (p : ℕ) → (p == p) ≡ true
eq_self p = ground arith

-- By cases on a test, or on an answer, that the statement may speak about.
pub either_way :
    {A : Type 0} (P : Bool → A → Type 0) (test : Bool) {x y : A}
    → P true x
    → P false y
    → P test (if test then x else y)
either_way P true hx hy = hx
either_way P false hx hy = hy

pub some_or_none :
    {A B : Type 0} (P : Option A → B → Type 0) (o : Option A) {x : B} {y : A → B}
    → P none x
    → ((p : A) → P (some p) (y p))
    → P o (elim o [ none ↦ x | some p ↦ y p ])
some_or_none P none hx hy = hx
some_or_none P (some p) hx hy = hy p

abbrev pub is_some : {A : Type 0} → Option A → Bool
is_some none = false
is_some (some x) = true

-- What a call leaves of a daemon that was idle, with the entries that it held, and whether it is to
-- succeed.
abbrev Opened : Bool → List ℕ → Bool × Daemon → Type 0
Opened good entries (ok, d) =
    IsSound d
    × (d.is_running ≡ ok)
    × (ok ≡ good)
    × (drop (if ok then 1 else 0) d.entry_rights ≡ entries)

-- A daemon with its ports.
abbrev equipped : Daemon → ℕ → ℕ → List ℕ → Daemon
equipped d p e entries = record d {
  receive_port = some p;
  memory_entry = some e;
  receive_rights = p ∷ [];
  entry_rights = e ∷ entries;
}

-- The daemon in the middle of a call of publish.
record IsOpening (d : Daemon) : Type 0 where
  claimed : d.owner.claimed ≡ true
  not_running : d.is_running ≡ false
  no_thread : d.thread_alive ≡ false

abandon_lem :
    (d : Daemon) (p e : ℕ) (entries : List ℕ)
    → IsOpening d
    → Opened false entries (false, abandon (equipped d p e entries))
unfolding abandon drop_receive drop_entry
abandon_lem d p e entries v =
    rw (eq_self p, eq_self e)
      (
        record {
          owned = sym v.not_running;
          threaded = v.no_thread ∙ sym v.not_running;
          receives = refl;
          ports = λ off. refl;
          port_some = λ on. absurd (cc (on, v.not_running));
          entry_held = λ on. absurd (cc (on, v.not_running));
          entry_some = λ on. absurd (cc (on, v.not_running));
        },
        v.not_running,
        refl,
        refl,
      )

create_thread_lem :
    (a : Answers) (d : Daemon) (p e : ℕ) (entries : List ℕ)
    → IsOpening d
    → Opened a.thread_created entries (create_thread a (equipped d p e entries))
unfolding create_thread
create_thread_lem a d p e entries v =
    either_way (λ b r. Opened b entries r) a.thread_created
      (
        record {
          owned = v.claimed;
          threaded = refl;
          receives = refl;
          ports = λ off. cc;
          port_some = λ on none. cc;
          entry_held = λ on. refl;
          entry_some = λ on none. cc;
        },
        refl,
        refl,
        refl,
      )
      (abandon_lem (ready d) p e entries
        (record { claimed = v.claimed; not_running = v.not_running; no_thread = v.no_thread }))

begin_session_lem :
    (l : Layout) (a : Answers) (m : SharedMemory) (d : Daemon) (p e : ℕ) (entries : List ℕ)
    → IsOpening d
    → Opened
        (a.callbacks_leave && a.thread_created)
        entries
        (begin_session l a m (equipped d p e entries))
unfolding begin_session
begin_session_lem l a m d p e entries v =
    let opening : IsOpening (begun l a m d) = record {
      claimed = v.claimed;
      not_running = v.not_running;
      no_thread = v.no_thread;
    } in
    either_way (λ b r. Opened (b && a.thread_created) entries r) a.callbacks_leave
      (create_thread_lem a (begun l a m d) p e entries opening)
      (abandon_lem (begun l a m d) p e entries opening)

-- The daemon without a port to receive on.
abbrev without_port : Daemon → Option ℕ → List ℕ → Daemon
without_port d entry entries = record d {
  receive_port = none;
  memory_entry = entry;
  receive_rights = [];
  entry_rights = entries;
}

given_up-IsSound :
    (d : Daemon) (entry : Option ℕ) (entries : List ℕ)
    → IsOpening d
    → IsSound (record (without_port d entry entries) { owner = owner_release d.owner })
given_up-IsSound d entry entries v = record {
  owned = sym v.not_running;
  threaded = v.no_thread ∙ sym v.not_running;
  receives = refl;
  ports = λ off. refl;
  port_some = λ on. absurd (cc (on, v.not_running));
  entry_held = λ on. absurd (cc (on, v.not_running));
  entry_some = λ on. absurd (cc (on, v.not_running));
}

-- Whether the answers behind the memory entry let the call succeed.
abbrev pub rest_good : Answers → Bool
rest_good a = is_some a.port && a.callbacks_leave && a.thread_created

check_in_lem :
    (l : Layout) (a : Answers) (m : SharedMemory) (d : Daemon) (e : ℕ) (entries : List ℕ)
    → IsOpening d
    → Opened (rest_good a) entries (check_in l a m (without_port d (some e) (e ∷ entries)))
unfolding check_in
check_in_lem l a m d e entries v =
    some_or_none (λ o r. Opened (is_some o && a.callbacks_leave && a.thread_created) entries r)
      a.port
      (unfold drop_entry in
        rw (eq_self e) (given_up-IsSound d none entries v, v.not_running, refl, refl))
      (λ p. begin_session_lem l a m d p e entries v)

-- Whether the answer is an entry that is large enough.
abbrev pub entry_good : Layout → ℕ → SharedMemory → Option (ℕ × ℕ) → Bool
entry_good l page_size m answer = is_some answer && not (too_small l page_size m answer)

-- What a call with this answer leaves.
abbrev pub Made : Layout → Answers → SharedMemory → List ℕ → Option (ℕ × ℕ) → Bool × Daemon → Type 0
Made l a m entries answer (ok, d) =
    IsSound d
    × (d.is_running ≡ ok)
    × (ok ≡ (entry_good l a.page_size m answer && rest_good a))
    × (drop (if too_small l a.page_size m answer || ok then 1 else 0) d.entry_rights ≡ entries)

make_entry_lem :
    (l : Layout) (a : Answers) (m : SharedMemory) (d : Daemon) (entry : Option ℕ) (entries : List ℕ)
    (answer : Option (ℕ × ℕ))
    → IsOpening d
    → Made l a m entries answer (make_entry l a m (without_port d entry entries) answer)
unfolding make_entry
make_entry_lem l a m d entry entries none v =
    (given_up-IsSound d entry entries v, v.not_running, refl, refl)
make_entry_lem l a m d entry entries (some (name, entry_size)) v =
    either_way
      (λ b (r : Bool × Daemon).
        IsSound r.1
        × (r.1.is_running ≡ r.0)
        × (r.0 ≡ (not b && rest_good a))
        × (drop (if b || r.0 then 1 else 0) r.1.entry_rights ≡ entries))
      (ltb entry_size (mapped_size l a.page_size m))
      (given_up-IsSound d (some name) (name ∷ entries) v, v.not_running, refl, refl)
      (check_in_lem l a m d name entries v)

-- The claimed daemon of a call of publish.
abbrev claimed_by : Daemon → ℕ → Daemon
claimed_by d uid = record d {
  service = record (d.service) { coreaudiod_uid = uid };
  owner = record { claimed = true };
}

-- What the caller and the daemon must be for a call to ask the system for anything.
abbrev pub may_publish : Layout → SharedMemory → Daemon → Bool
may_publish l m d = not (
    d.is_running
    || not (m.protocol_version == shared_memory_version)
    || not (m.struct_size == l.shared_size))

-- What `publish_lem` says.
abbrev Published : Layout → Answers → SharedMemory → Daemon → Bool → Bool × Daemon → Type 0
Published l a m d asks (ok, d') =
    IsSound d'
    × (d'.is_running ≡ (d.is_running || ok))
    × (ok ≡ (asks && entry_good l a.page_size m a.entry && rest_good a))
    × (drop (if (asks && too_small l a.page_size m a.entry) || ok then 1 else 0) d'.entry_rights
        ≡ d.entry_rights)

refuses :
    (l : Layout) (a : Answers) (m : SharedMemory) (d : Daemon)
    → IsSound d
    → Published l a m d false (false, d)
refuses l a m d v = (v, sym (or_false d.is_running), refl, refl)

asked :
    (l : Layout) (a : Answers) (m : SharedMemory) (d : Daemon) (uid : ℕ)
    → IsSound d
    → d.is_running ≡ false
    → Published l a m d true (make_entry l a m (claimed_by d uid) a.entry)
asked l a m d uid v off =
    let no_port = v.ports off in
    let opening : IsOpening (claimed_by d uid) = record {
      claimed = refl;
      not_running = off;
      no_thread = v.threaded ∙ off;
    } in
    let same : without_port (claimed_by d uid) d.memory_entry d.entry_rights ≡ claimed_by d uid =
      ap₂ (λ p r. record (claimed_by d uid) { receive_port = p; receive_rights = r }) (sym no_port)
        (sym (v.receives ∙ ap held no_port)) in
    let r =
      make_entry l a m (without_port (claimed_by d uid) d.memory_entry d.entry_rights) a.entry in
    let made =
      make_entry_lem l a m (claimed_by d uid) d.memory_entry d.entry_rights a.entry opening in
    subst (λ x. Published l a m d true (make_entry l a m x a.entry)) same
      (made.0, made.1 ∙ sym (ap (λ b. b || r.0) off), made.2, made.3)

-- A call of publish on a daemon whose ports and thread are in order succeeds exactly if the daemon does not
-- run, the memory has the right version and size, and the system grants the account, an entry that is
-- large enough, the port, the end of the callbacks and the thread. The daemon stays in order and then
-- runs. A call that fails leaves the memory entries that were held before, and one more exactly if the
-- system gave an entry that is too small; a call that succeeds adds its own.
pub publish_lem :
    (l : Layout) (a : Answers) (m : SharedMemory) (d : Daemon)
    → IsSound d
    → let asks = may_publish l m d && is_some a.account in
      let (ok, d') = publish l a m d in
      IsSound d'
      × (d'.is_running ≡ (d.is_running || ok))
      × (ok ≡ (asks && entry_good l a.page_size m a.entry && rest_good a))
      × (drop (if (asks && too_small l a.page_size m a.entry) || ok then 1 else 0) d'.entry_rights
          ≡ d.entry_rights)
unfolding publish owner_claim
publish_lem l a m d v =
    let test =
      d.is_running
      || not (m.protocol_version == shared_memory_version)
      || not (m.struct_size == l.shared_size) in
    let answered : Bool × Daemon = elim a.account [
      | none ↦ (false, d)
      | some uid ↦ make_entry l a m (claimed_by d uid) a.entry
    ] in
    elim (Bool-cases test) [
      | inl bad ↦
          subst
            (λ b.
              Published l a m d (not b && is_some a.account) (if b then (false, d) else answered))
            (sym bad) (refuses l a m d v)
      | inr good ↦
          subst
            (λ b.
              Published l a m d (not b && is_some a.account) (if b then (false, d) else answered))
            (sym good)
            (some_or_none (λ o r. Published l a m d (is_some o) r) a.account (refuses l a m d v)
              (λ uid. asked l a m d uid v (ground (arith, good))))
    ]
