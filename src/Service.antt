-- ===== src/Service.antt =====
-- The device service (coreaudio/NS6DeviceMachService.c): the state behind its Mach port, its message
-- handlers, and one round of its loop. What the system answers in a round (which processes exist,
-- whether USB is ready) is a `World`; the calls into the USB worker and the replies are recorded.
-- Logging is left out, and the port rights are in Lifecycle.
use numark_ns6_mac_arm.Prelude.{
  ℕ, zero, suc, ◌-◌, ◌^◌, Bool, true, false, not, ◌&&◌, ◌||◌, Option, none, some, List, [], ◌∷◌,
  if◌then◌else◌, leb, ltb, ◌==◌, get_or,
}
use numark_ns6_mac_arm.Prelude.Int.{ℤ, is_positive}
use numark_ns6_mac_arm.Registry.{
  contains, set_audio_active, free_slot, Lease, detach_process, any_audio_active, attach, detach,
}
pub mod Reap
pub mod Lifecycle
pub mod Release
pub mod Runs
pub mod Invariant
pub mod Replies
mod Tests

-- The calls into coreaudio/NS6USB.c, the latest first.
pub data UsbCall : Type 0 where
  set_paused : Bool → UsbCall
  set_startup_buffer_frames : ℕ → UsbCall
  request_restart : UsbCall

-- `NS6DeviceStateSnapshot`, without the counters that the service leaves at 0.
pub record Snapshot : Type 0 where
  pub connected : Bool
  pub transport_ready : Bool
  pub firmware_version : List ℕ
  pub active_frames : ℕ

pub record Service : Type 0 where
  pub clients : List Lease
  pub audio_active : Bool
  pub startup_buffer_frames : ℕ
  pub session_id : ℕ
  pub active_id : ℕ  -- `memory->session.active_id`
  pub mapping_size : ℕ
  pub memory_offset : ℕ
  pub coreaudiod_uid : ℕ
  pub snapshot : Snapshot
  pub usb : List UsbCall

pub record World : Type 0 where
  pub exists : ℤ → Bool  -- `kill(pid, 0) == 0 || errno != ESRCH`
  pub usb_ready : Bool  -- `ns6_usb_is_ready`
  pub restart_accepted : Bool  -- what `ns6_usb_request_restart` returns

-- The sizes that the compiler fixes.
pub record Layout : Type 0 where
  pub shared_size : ℕ  -- sizeof(NS6SharedMemory)
  pub hello_size : ℕ  -- sizeof(NS6DeviceHelloRequest)
  pub control_size : ℕ  -- sizeof(NS6DeviceControlRequest)

-- The message ids that requests carry.
abbrev pub msg_hello : ℕ
msg_hello = 0x4e530001

abbrev pub msg_set_audio_active : ℕ
msg_set_audio_active = 0x4e530003

abbrev pub msg_set_startup_buffer : ℕ
msg_set_startup_buffer = 0x4e530004

abbrev pub msg_get_state : ℕ
msg_get_state = 0x4e530005

abbrev pub msg_release_client : ℕ
msg_release_client = 0x4e530008

abbrev pub protocol_version : ℕ
protocol_version = 4

-- A received message. The two request structs lie over the same bytes: after the protocol version
-- `NS6DeviceHelloRequest` has a 32-bit size and the client id, `NS6DeviceControlRequest` a 32-bit
-- value, the session id and the client id.
pub record Request : Type 0 where
  pub msgh_id : ℕ
  pub msgh_size : ℕ
  pub version : ℕ
  pub word : ℕ  -- client_struct_size, or value
  pub quad0 : ℕ  -- client_id of a hello, or session_id
  pub quad1 : ℕ  -- client_id of a control request

-- The audit trailer behind a message.
pub record Trailer : Type 0 where
  pub well_formed : Bool  -- format 0, and at least the size of an audit trailer
  pub peer_uid : ℕ
  pub peer_pid : ℤ

pub data Status : Type 0 where
  success bad_arguments resource_shortage bad_id no_access failure : Status

pub data Reply : Type 0 where
  -- status, mapped_size, memory_offset, session_id, and whether the memory entry is sent along
  hello_reply : Status → ℕ → ℕ → ℕ → Bool → Reply
  control_reply : Status → Reply
  state_reply : Status → Snapshot → Reply

pub version_supported : ℕ → Bool
version_supported v = v == protocol_version

-- `ns6_device_session_is_current`
pub is_current : ℕ → ℕ → Bool
is_current active id = not (id == 0) && active == id

-- `ns6_device_peer_uid_authorized`; `(uid_t)-1` is 2 ^ 32 - 1.
pub peer_uid_authorized : ℕ → ℕ → Bool
peer_uid_authorized peer_uid coreaudiod_uid =
    peer_uid == 0 || (not (coreaudiod_uid == 2 ^ 32 - 1) && peer_uid == coreaudiod_uid)

pub sender_is_authorized : Service → Trailer → Bool
unfolding peer_uid_authorized
sender_is_authorized s t = t.well_formed && peer_uid_authorized t.peer_uid s.coreaudiod_uid

pub handle_hello : Layout → Service → Request → ℤ → Reply × Service
unfolding version_supported
handle_hello l s r peer_pid =
    if not (version_supported r.version) || not (r.word == l.shared_size) || r.quad0 == 0
    then (hello_reply bad_arguments 0 0 0 false, s)
    else let (ok, clients') = attach s.clients r.quad0 peer_pid in
      if ok
      then (
        hello_reply success s.mapping_size s.memory_offset s.session_id true,
        record s { clients = clients' },
      )
      else (hello_reply resource_shortage 0 0 0 false, s)

-- The calls that a change of the aggregate makes.
abbrev pub pause_calls : Bool → Bool → List UsbCall → List UsbCall
pause_calls true false calls = set_paused false ∷ calls
pause_calls false true calls = set_paused true ∷ calls
pause_calls true true calls = calls
pause_calls false false calls = calls

pub update_audio_active : Service → Service
update_audio_active s =
    let active = any_audio_active s.clients in
    record s { audio_active = active; usb = pause_calls active s.audio_active s.usb }

-- A lease whose process is gone.
abbrev pub orphaned : (ℤ → Bool) → Lease → Bool
orphaned exists c = not (c.client_id == 0) && is_positive c.process_id && not (exists c.process_id)

-- The body of the loop of `reap_dead_clients` at a slot that holds `c`.
pub reap_slot : (ℤ → Bool) → Lease → List Lease → Bool → Bool × List Lease
reap_slot exists c cs reaped =
    let (detached, ds) = detach_process cs c.process_id in
    if orphaned exists c && not (detached == 0) then (true, ds) else (reaped, cs)

-- The loop over the slots from `i` on, with `n` of them left.
pub reap_from : (ℤ → Bool) → ℕ → ℕ → List Lease → Bool → Bool × List Lease
reap_from exists zero i cs reaped = (reaped, cs)
reap_from exists (suc n) i cs reaped =
    let (reaped', cs') = reap_slot exists (get_or cs i free_slot) cs reaped in
    reap_from exists n (suc i) cs' reaped'

pub reap_dead_clients : World → Service → Service
reap_dead_clients w s =
    let (reaped, cs) = reap_from w.exists 8 0 s.clients false in
    if reaped then update_audio_active (record s { clients = cs }) else s

-- The cases of the `switch` in `handle_control`.
pub set_active_request : Service → Request → Status × Service
set_active_request s r = if ltb 1 r.word then (bad_arguments, s) else (
  success,
  update_audio_active
      (record s { clients = (set_audio_active s.clients r.quad1 (not (r.word == 0))).1 }),
)

pub release_request : Service → Request → Status × Service
release_request s r =
    let (ok, cs) = detach s.clients r.quad1 in
    if ok then (success, update_audio_active (record s { clients = cs })) else (bad_id, s)

pub startup_buffer_request : World → Service → Request → Status × Service
startup_buffer_request w s r =
    if not (contains s.clients r.quad1)
    then (bad_id, s)
    else if r.word == 0 || ltb 65536 r.word
    then (bad_arguments, s)
    else let changed = not (s.startup_buffer_frames == r.word) in
      let asks = changed && w.usb_ready in
      let calls = set_startup_buffer_frames r.word ∷ s.usb in
      (
        if asks && not w.restart_accepted then failure else success,
        record s {
          startup_buffer_frames = r.word;
          usb = if asks then request_restart ∷ calls else calls;
        },
      )

pub control_switch : World → Service → Request → Status × Service
control_switch w s r =
    if r.msgh_id == msg_set_audio_active
    then set_active_request s r
    else if r.msgh_id == msg_release_client
    then release_request s r
    else if r.msgh_id == msg_set_startup_buffer
    then startup_buffer_request w s r
    else (bad_id, s)

pub handle_control : World → Service → Request → Reply × Service
unfolding version_supported is_current
handle_control w s r =
    if not (version_supported r.version)
    then (control_reply bad_arguments, s)
    else if not (is_current s.active_id r.quad0) || not (contains s.clients r.quad1)
    then (control_reply bad_id, s)
    else let (status, t) = control_switch w s r in (control_reply status, t)

pub handle_state : Service → Request → Reply
unfolding version_supported is_current
handle_state s r =
    state_reply
      (if version_supported r.version
          && is_current s.active_id r.quad0
          && contains s.clients r.quad1
        then success
        else bad_id)
      (record (s.snapshot) { active_frames = s.startup_buffer_frames })

abbrev pub blank_snapshot : Snapshot
blank_snapshot = record {
  connected = false;
  transport_ready = false;
  firmware_version = [];
  active_frames = 0;
}

pub reject_unauthorized : Request → Reply
reject_unauthorized r =
    if r.msgh_id == msg_hello
    then hello_reply no_access 0 0 0 false
    else if r.msgh_id == msg_get_state
    then state_reply no_access blank_snapshot
    else control_reply no_access

-- The dispatch on an authorized message.
pub dispatch : Layout → World → Service → Request → ℤ → Reply × Service
dispatch l w s r peer_pid =
    if r.msgh_id == msg_hello && leb l.hello_size r.msgh_size
    then handle_hello l s r peer_pid
    else if r.msgh_id == msg_get_state && leb l.control_size r.msgh_size
    then (handle_state s r, s)
    else if leb l.control_size r.msgh_size
    then handle_control w s r
    else (control_reply bad_arguments, s)

-- What `mach_msg` returns in a round of the loop.
pub data Event : Type 0 where
  message : Request → Trailer → Event
  timed_out : Event
  receive_error : Event

pub round : Layout → Service → World → Event → Option Reply × Service
unfolding sender_is_authorized
round l s w (message r t) =
    if sender_is_authorized s t
    then (let (reply, s') = dispatch l w (reap_dead_clients w s) r t.peer_pid in (some reply, s'))
    else (some (reject_unauthorized r), s)
round l s w timed_out = (none, reap_dead_clients w s)
round l s w receive_error = (none, s)

-- The rounds of the service thread, in order.
pub run : Layout → Service → List (World × Event) → Service
run l s [] = s
run l s ((w, e) ∷ es) = run l (round l s w e).1 es
