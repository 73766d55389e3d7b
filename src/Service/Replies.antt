-- ===== src/Service/Replies.antt =====
-- What the service (coreaudio/NS6DeviceMachService.c) answers, and whom it lets change its state.
use mathlib.Core.Option
use numark_ns6_mac_arm.Prelude.{
  ℕ, ◌-◌, ◌^◌, ◌≡◌, refl, sym, ◌∙◌, ◌≢◌, ◌↔◌, ◌⊎◌, inl, inr, true, false, none, some, arith,
  Bool-cases, if◌then◌else◌, ◌==◌,
}
use numark_ns6_mac_arm.Prelude.Int.{ℤ}
use numark_ns6_mac_arm.Registry.{has_slot, detach, contains}
use numark_ns6_mac_arm.Registry.Active.{
  any_audio_active_iff, any_audio_active-set_audio_active, Playing,
}
use numark_ns6_mac_arm.Registry.Distinct.{detach-IsValid}
use numark_ns6_mac_arm.Registry.View.{
  lease-attach, detach-contains, lease-detach, lease, attached, attach-refused,
}
use numark_ns6_mac_arm.Service.{
  round, hello_reply, message, success, peer_uid_authorized, sender_is_authorized, Layout,
  bad_arguments, Trailer, resource_shortage, state_reply, bad_id, Service, handle_control,
  version_supported, is_current, World, Reply, update_audio_active, release_request,
  reject_unauthorized, control_switch, Status, set_active_request, control_reply,
  msg_set_audio_active, Request, handle_hello, protocol_version, no_access,
}
use numark_ns6_mac_arm.Service.Invariant.{IsConsistent, paused_as_told}

-- The status that a reply carries.
pub status : Reply → Status
status (hello_reply st size offset id sent) = st
status (control_reply st) = st
status (state_reply st snap) = st

-- A peer that is neither root nor the _coreaudiod account changes nothing, whatever it sends, and is
-- told that it has no access.
pub stranger_changes_nothing :
    (l : Layout) (s : Service) (w : World) (r : Request) (t : Trailer)
    → t.peer_uid ≢ 0
    → t.peer_uid ≢ s.coreaudiod_uid
    → ((round l s w (message r t)).1 ≡ s)
      × (Option.map status (round l s w (message r t)).0 ≡ some no_access)
unfolding round peer_uid_authorized reject_unauthorized status
stranger_changes_nothing l s w r t root other = ground arith

-- Where no `_coreaudiod` account is known, only root is heard: its id is then -1 as a uid_t.
pub only_root_without_account :
    (s : Service) (t : Trailer)
    → s.coreaudiod_uid ≡ 2 ^ 32 - 1
    → sender_is_authorized s t ≡ true
    → t.peer_uid ≡ 0
unfolding sender_is_authorized
only_root_without_account s t e h = ground arith

-- A control request changes the state only if it speaks the protocol version, names the session that
-- is active, and names an attached client; any other is refused.
pub handle_control_guard :
    (w : World) (s : Service) (r : Request)
    → ((r.version ≡ protocol_version)
        × (s.active_id ≢ 0)
        × (r.quad0 ≡ s.active_id)
        × (contains s.clients r.quad1 ≡ true))
      ⊎ (((handle_control w s r).1 ≡ s) × (status (handle_control w s r).0 ≢ success))
unfolding handle_control version_supported is_current status
handle_control_guard w s r = ground arith

-- What a hello must say: the protocol version, the size of the shared memory, and a client id.
abbrev pub IsGreeting : Layout → Request → Type 0
IsGreeting l r = (r.version ≡ protocol_version) × (r.word ≡ l.shared_size) × (r.quad0 ≢ 0)

-- A hello is accepted exactly if it speaks the protocol version, gives the size of the shared memory and
-- a client id other than 0, and the client has a lease or a slot is free. Then the client is attached under
-- the sender's process, every other lease is as before, and the reply carries the session and the place of
-- the shared memory. Any other hello changes nothing, and is told whether its arguments were bad or there
-- was no slot.
pub handle_hello_lem :
    (l : Layout) (s : Service) (r : Request) (pid : ℤ) (j : ℕ)
    → j ≢ 0
    → let (reply, s') = handle_hello l s r pid in
      (IsGreeting l r
        × ((lease r.quad0 s.clients ≢ none) ⊎ (has_slot 0 s.clients ≡ true))
        × (reply ≡ hello_reply success s.mapping_size s.memory_offset s.session_id true)
        × (lease j s'.clients ≡ (
            if j == r.quad0
            then some (attached r.quad0 pid (lease r.quad0 s.clients))
            else lease j s.clients)))
      ⊎ (¬ IsGreeting l r × (reply ≡ hello_reply bad_arguments 0 0 0 false) × (s' ≡ s))
      ⊎ (IsGreeting l r
          × (lease r.quad0 s.clients ≡ none)
          × (has_slot 0 s.clients ≡ false)
          × (reply ≡ hello_reply resource_shortage 0 0 0 false)
          × (s' ≡ s))
unfolding handle_hello version_supported
handle_hello_lem l s r pid j ne =
    let full = attach-refused s.clients r.quad0 pid in
    ground (arith, lease-attach s.clients r.quad0 j pid ne, full)

-- A client that is attached to the active session starts the audio of the whole device by a request,
-- and the USB worker is left running.
pub set_active_starts_audio :
    (w : World) (s : Service) (r : Request)
    → IsConsistent s
    → r.version ≡ protocol_version
    → r.msgh_id ≡ msg_set_audio_active
    → r.word ≡ 1
    → r.quad0 ≡ s.active_id
    → s.active_id ≢ 0
    → contains s.clients r.quad1 ≡ true
    → let (reply, s') = handle_control w s r in
      (reply ≡ control_reply success) × (s'.audio_active ≡ true) × (paused_as_told s'.usb ≡ false)
unfolding handle_control control_switch set_active_request update_audio_active paused_as_told
set_active_starts_audio w s r v ver id one cur act known =
    ground (arith, any_audio_active-set_audio_active s.clients r.quad1 known)

-- A release is accepted exactly if the client is attached. Then it holds no lease any more, every other
-- lease is as before, and audio goes on exactly if another client plays. A client that is not attached is
-- refused, and nothing changes.
pub release_lem :
    (s : Service) (r : Request) (j : ℕ)
    → IsConsistent s
    → j ≢ 0
    → let (st, s') = release_request s r in
      ((contains s.clients r.quad1 ≡ true)
        × (st ≡ success)
        × (lease j s'.clients ≡ (if j == r.quad1 then none else lease j s.clients))
        × ((s'.audio_active ≡ true) ↔ Playing s'.clients))
      ⊎ ((contains s.clients r.quad1 ≡ false) × (st ≡ bad_id) × (s' ≡ s))
unfolding release_request update_audio_active
release_lem s r j v ne =
    let known = detach-contains s.clients r.quad1 v.table.distinct in
    elim (Bool-cases (detach s.clients r.quad1).0) [
      | inl ok ↦
          let after = detach-IsValid r.quad1 v.table in
          rw ok (
            inl (
              sym known ∙ ok,
              refl,
              lease-detach s.clients r.quad1 j v.table.distinct ne ok,
              any_audio_active_iff (detach s.clients r.quad1).1 after.distinct,
            ))
      | inr bad ↦ rw bad (inr (sym known ∙ bad, refl, refl))
    ]
