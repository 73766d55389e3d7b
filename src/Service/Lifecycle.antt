-- ===== src/Service/Lifecycle.antt =====
-- How the device service starts and stops (coreaudio/NS6DeviceMachService.c, with NS6DeviceOwner.h): the
-- port rights that it acquires and gives back. What the system answers to a call of publish is an
-- `Answers`. A port is its name, MACH_PORT_NULL is `none`, and a memory is the number of its address. The
-- page size is a power of two, so that the masks of the code round to a multiple of it. The lock of the
-- snapshot guards a section that nothing else runs in, and is left out, as is logging.
use Prim.Native.Nat.{bit_xor}
use numark_ns6_mac_arm.Prelude.{
  ℕ, ◌+◌, ◌-◌, ◌%◌, Bool, true, false, not, ◌||◌, Option, none, some, List, [], ◌∷◌, if◌then◌else◌,
  ltb, ◌==◌, take,
}
use numark_ns6_mac_arm.Registry.{empty_registry}
use numark_ns6_mac_arm.Service.{Service, Layout}

-- `NS6DeviceOwner`; a call of an operation is one atomic access.
pub record Owner : Type 0 where
  pub claimed : Bool

abbrev pub owner_init : Owner
owner_init = record { claimed = false }

unfoldable pub owner_claim : Owner → Bool × Owner
owner_claim o = (not o.claimed, record { claimed = true })

abbrev pub owner_release : Owner → Owner
owner_release o = record { claimed = false }

-- The static `service` with what its handlers do not read, and the rights that the task holds.
pub record Daemon : Type 0 where
  pub service : Service
  pub memory : Option ℕ
  pub receive_port : Option ℕ
  pub memory_entry : Option ℕ
  pub mapping_base : ℕ
  pub stopping : Bool
  pub owner : Owner
  pub is_running : Bool
  pub thread_alive : Bool
  pub receive_rights : List ℕ
  pub entry_rights : List ℕ

-- What the caller passes: the address, and what stands at it.
pub record SharedMemory : Type 0 where
  pub address : ℕ
  pub protocol_version : ℕ
  pub struct_size : ℕ
  pub active_id : ℕ  -- `session.active_id`

abbrev pub shared_memory_version : ℕ
shared_memory_version = 5

pub record Answers : Type 0 where
  pub account : Option ℕ  -- the uid of `getpwnam("_coreaudiod")`
  pub page_size : ℕ  -- vm_page_size
  pub entry : Option (ℕ × ℕ)  -- the name and the size, if mach_make_memory_entry_64 succeeds
  pub port : Option ℕ  -- the port, if bootstrap_check_in succeeds
  pub now : ℕ  -- mach_absolute_time
  pub callbacks_leave : Bool  -- whether the loop of ns6_device_session_begin finds no callback inside
  pub thread_created : Bool  -- whether pthread_create returns 0

abbrev pub align_down : ℕ → ℕ → ℕ
align_down x page = x - x % page

-- A right of this name is given back.
abbrev pub erase : Option ℕ → List ℕ → List ℕ
erase none rights = rights
erase (some p) [] = []
erase (some p) (q ∷ rights) = if q == p then rights else q ∷ erase (some p) rights

-- mach_port_mod_refs with MACH_PORT_RIGHT_RECEIVE and -1.
unfoldable pub drop_receive : Daemon → Daemon
drop_receive d = record d { receive_rights = erase d.receive_port d.receive_rights }

-- mach_port_deallocate of the memory entry.
unfoldable pub drop_entry : Daemon → Daemon
drop_entry d = record d { entry_rights = erase d.memory_entry d.entry_rights }

-- The end of a failed call that has all its ports.
unfoldable pub abandon : Daemon → Daemon
unfolding drop_receive drop_entry
abandon d = record (drop_entry (drop_receive d)) {
  receive_port = none;
  memory_entry = none;
  memory = none;
  owner = owner_release d.owner;
}

-- The state that the service thread starts with.
abbrev pub ready : Daemon → Daemon
ready d = record d {
  service = record (d.service) {
    snapshot = record (d.service.snapshot) {
      connected = false;
      transport_ready = false;
      firmware_version = [];
    };
    audio_active = false;
  };
  stopping = false;
}

-- The call behind the start of the session.
unfoldable pub create_thread : Answers → Daemon → Bool × Daemon
unfolding abandon
create_thread a d =
    if a.thread_created
    then (true, record (ready d) { thread_alive = true; is_running = true })
    else (false, abandon (ready d))

-- `mach_absolute_time() ^ address`, and 1 in place of 0.
abbrev pub new_session_id : ℕ → ℕ → ℕ
new_session_id now address = let id = bit_xor now address in if id == 0 then 1 else id

-- The size of the memory in whole pages, with the part of its first page in front of it.
abbrev pub mapped_size : Layout → ℕ → SharedMemory → ℕ
mapped_size l page_size m =
    let offset = m.address - align_down m.address page_size in
    align_down (offset + l.shared_size + page_size - 1) page_size

-- The state that a session is begun with.
abbrev pub begun : Layout → Answers → SharedMemory → Daemon → Daemon
begun l a m d =
    let base = align_down m.address a.page_size in
    let offset = m.address - base in
    let id = new_session_id a.now m.address in
    record d {
      service = record (d.service) {
        mapping_size = mapped_size l a.page_size m;
        memory_offset = offset;
        session_id = id;
        clients = empty_registry;
        active_id = if a.callbacks_leave then id else m.active_id;
      };
      memory = some m.address;
      mapping_base = base;
    }

-- The call behind the check-in of the port.
unfoldable pub begin_session : Layout → Answers → SharedMemory → Daemon → Bool × Daemon
unfolding create_thread
begin_session l a m d =
    if a.callbacks_leave then create_thread a (begun l a m d) else (false, abandon (begun l a m d))

-- The call behind the memory entry.
unfoldable pub check_in : Layout → Answers → SharedMemory → Daemon → Bool × Daemon
unfolding begin_session drop_entry
check_in l a m d = elim a.port [
  | none ↦ (false, record (drop_entry d) { memory_entry = none; owner = owner_release d.owner })
  | some p ↦
      begin_session l a m
        (record d { receive_port = some p; receive_rights = p ∷ d.receive_rights })
]

-- The call behind the claim, with the answer about the memory entry.
unfoldable pub make_entry :
    Layout → Answers → SharedMemory → Daemon → Option (ℕ × ℕ) → Bool × Daemon
unfolding check_in
make_entry l a m d none = (false, record d { owner = owner_release d.owner })
make_entry l a m d (some (name, entry_size)) =
    let made = record d { memory_entry = some name; entry_rights = name ∷ d.entry_rights } in
    if ltb entry_size (mapped_size l a.page_size m)
    then (false, record made { owner = owner_release d.owner })
    else check_in l a m made

-- `ns6_device_service_publish`
unfoldable pub publish : Layout → Answers → SharedMemory → Daemon → Bool × Daemon
unfolding owner_claim make_entry
publish l a m d =
    if d.is_running
      || not (m.protocol_version == shared_memory_version)
      || not (m.struct_size == l.shared_size)
    then (false, d)
    else elim a.account [
      | none ↦ (false, d)
      | some uid ↦
          (let (ok, owner') = owner_claim owner_init in
            let claimed = record d {
              service = record (d.service) { coreaudiod_uid = uid };
              owner = owner';
            } in
            if ok then make_entry l a m claimed a.entry else (false, claimed))
    ]

-- The body of stop; the thread ends when its port is gone.
unfoldable pub shut_down : Daemon → Daemon
unfolding drop_receive drop_entry
shut_down d =
    record (drop_entry
      (record (drop_receive (record d { stopping = true })) { thread_alive = false })) {
        service = record (d.service) { mapping_size = 0; memory_offset = 0 };
        receive_port = none;
        memory_entry = none;
        memory = none;
        mapping_base = 0;
        is_running = false;
        owner = owner_release d.owner;
      }

-- `ns6_device_service_stop`
unfoldable pub stop : Daemon → Daemon
unfolding shut_down
stop d = if not d.is_running then d else shut_down d

-- The bytes that `strlcpy` leaves in the 32 bytes of the snapshot, without the NUL.
abbrev pub version_bytes : Option (List ℕ) → List ℕ
version_bytes none = []
version_bytes (some bytes) = take 31 bytes

-- `ns6_device_service_update_device_state`
unfoldable pub update_device_state : Bool → Bool → Option (List ℕ) → Service → Service
update_device_state connected transport_ready firmware_version s = record s {
  snapshot = record (s.snapshot) {
    connected = connected;
    transport_ready = transport_ready;
    firmware_version = version_bytes firmware_version;
  };
}
