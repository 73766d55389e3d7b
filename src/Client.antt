-- ===== src/Client.antt =====
-- The client side of the device protocol (coreaudio/NS6DeviceClient.c and .h). The exchange of a message is a
-- parameter that takes the state of the other side, of type `S`: what `exchange_message` brings back, if
-- it brings anything. A port is its name and MACH_PORT_NULL is `none`; a memory is its address. The task
-- counts the rights and the mappings that the calls here hold. A pointer argument is never NULL.
use Prim.Native.Nat.{bit_xor}
use numark_ns6_mac_arm.Prelude.{
  ℕ, ◌+◌, ◌-◌, Bool, true, false, not, ◌&&◌, ◌||◌, Option, none, some, if◌then◌else◌, leb, ltb,
  ◌==◌,
}
use numark_ns6_mac_arm.Prelude.Words.{add64}
use numark_ns6_mac_arm.Service.{
  Layout, msg_set_startup_buffer, Snapshot, msg_get_state, Status, no_access, failure,
  msg_set_audio_active, protocol_version, success, bad_id, Request, resource_shortage,
  msg_release_client, bad_arguments, msg_hello,
}
use numark_ns6_mac_arm.Service.Lifecycle.{shared_memory_version}
pub mod Balance
mod Tests

-- `NS6DeviceClient`
pub record Client : Type 0 where
  pub service_port : Option ℕ
  pub mapping_address : ℕ
  pub mapping_size : ℕ
  pub shared_memory : Option ℕ
  pub session_id : ℕ
  pub client_id : ℕ
  pub connected : Bool

abbrev pub blank_client : Client
blank_client = record {
  service_port = none;
  mapping_address = 0;
  mapping_size = 0;
  shared_memory = none;
  session_id = 0;
  client_id = 0;
  connected = false;
}

pub record Task : Type 0 where
  pub next_client_id : ℕ
  pub service_rights : ℕ
  pub entry_rights : ℕ
  pub mappings : ℕ

-- The fields of a reply to a hello. With a memory entry the message is a complex one.
pub record Hello : Type 0 where
  pub version : ℕ
  pub shared_struct_size : ℕ
  pub session_id : ℕ
  pub status : Status
  pub memory_entry : Option ℕ
  pub mapped_size : ℕ
  pub memory_offset : ℕ

pub data Answer : Type 0 where
  hello_answer : Hello → Answer
  control_answer : Status → Answer
  state_answer : Status → Snapshot → Answer

pub data StateResult : Type 0 where
  state_unavailable state_replaced : StateResult
  state_ready : Snapshot → StateResult

-- What the system answers to a call of connect.
pub record Answers : Type 0 where
  pub retained : Bool  -- whether mach_port_mod_refs adds a send right
  pub now : ℕ  -- mach_absolute_time
  pub client_address : ℕ  -- the address of the client
  pub mapped : Option ℕ  -- the address that mach_vm_map gives
  pub memory_version : ℕ  -- `protocol_version` of the memory
  pub memory_size : ℕ  -- `struct_size` of the memory

-- A client, its task, and the other side.
pub record Link (S : Type 0) : Type 0 where
  pub client : Client
  pub task : Task
  pub remote : S

abbrev pub is_success : Status → Bool
is_success success = true
is_success bad_arguments = false
is_success resource_shortage = false
is_success bad_id = false
is_success no_access = false
is_success failure = false

-- Whether this is the reply to a control request, with success.
abbrev pub control_accepted : Option Answer → Bool
control_accepted none = false
control_accepted (some (hello_answer h)) = false
control_accepted (some (control_answer status)) = is_success status
control_accepted (some (state_answer status s)) = false

abbrev pub is_some : {A : Type 0} → Option A → Bool
is_some none = false
is_some (some x) = true

-- The test of the reply to a hello, but for its kind.
unfoldable pub valid_hello : Layout → ℕ → Hello → Bool
valid_hello l client_id h =
    h.version == protocol_version
    && h.shared_struct_size == l.shared_size
    && not (h.session_id == 0)
    && not (client_id == 0)
    && is_success h.status
    && is_some h.memory_entry
    && not (h.mapped_size == 0)
    && ltb h.memory_offset h.mapped_size
    && leb l.shared_size (h.mapped_size - h.memory_offset)

module _ {S : Type 0} (l : Layout) (exchange : S → Request → Option Answer × S) where
  unfoldable pub send_control : Link S → ℕ → ℕ → Bool × Link S
  send_control k kind value =
      if not k.client.connected || not (is_some k.client.service_port)
      then (false, k)
      else let (answer, remote') = exchange k.remote (record {
        msgh_id = kind;
        msgh_size = l.control_size;
        version = protocol_version;
        word = value;
        quad0 = k.client.session_id;
        quad1 = k.client.client_id;
      }) in
        (control_accepted answer, record k { remote = remote' })

  unfoldable pub set_audio_active : Link S → Bool → Bool × Link S
  unfolding send_control
  set_audio_active k active = send_control k msg_set_audio_active (if active then 1 else 0)

  unfoldable pub set_startup_buffer : Link S → ℕ → Bool × Link S
  unfolding send_control
  set_startup_buffer k frames = send_control k msg_set_startup_buffer frames

  abbrev pub state_result : Option Answer → StateResult
  state_result none = state_unavailable
  state_result (some (hello_answer h)) = state_unavailable
  state_result (some (control_answer status)) = state_unavailable
  state_result (some (state_answer success s)) = state_ready s
  state_result (some (state_answer bad_id s)) = state_replaced
  state_result (some (state_answer bad_arguments s)) = state_unavailable
  state_result (some (state_answer resource_shortage s)) = state_unavailable
  state_result (some (state_answer no_access s)) = state_unavailable
  state_result (some (state_answer failure s)) = state_unavailable

  unfoldable pub get_state_result : Link S → StateResult × Link S
  get_state_result k =
      if not k.client.connected
      then (state_unavailable, k)
      else let (answer, remote') = exchange k.remote (record {
        msgh_id = msg_get_state;
        msgh_size = l.control_size;
        version = protocol_version;
        word = 0;
        quad0 = k.client.session_id;
        quad1 = k.client.client_id;
      }) in
        (state_result answer, record k { remote = remote' })

  -- What disconnect does behind its message.
  unfoldable pub tear_down : Link S → Link S
  tear_down k =
      let mapped = not (k.client.mapping_address == 0) && not (k.client.mapping_size == 0) in
      record k {
        task = record (k.task) {
          mappings = if mapped then k.task.mappings - 1 else k.task.mappings;
          service_rights =
              if is_some k.client.service_port
              then k.task.service_rights - 1
              else k.task.service_rights;
        };
        client = blank_client;
      }

  unfoldable pub disconnect : Link S → Link S
  unfolding send_control tear_down
  disconnect k = tear_down (
      if k.client.connected && not (k.client.client_id == 0)
      then (send_control k msg_release_client 0).1
      else k)

  -- The call behind a valid reply: the memory is mapped, and its layout is tested.
  unfoldable pub map_memory : Answers → Link S → Hello → Bool × Link S
  unfolding disconnect
  map_memory a k h =
      let dropped = record k {
        task = record (k.task) { entry_rights = k.task.entry_rights - 1 };
      } in
      elim a.mapped [
        | none ↦ (false, disconnect dropped)
        | some address ↦
            (let mapped = record dropped {
              task = record (dropped.task) { mappings = dropped.task.mappings + 1 };
              client = record (dropped.client) {
                mapping_address = address;
                mapping_size = h.mapped_size;
              };
            } in
              if not (a.memory_version == shared_memory_version)
                || not (a.memory_size == l.shared_size)
              then (false, disconnect mapped)
              else (
                true,
                record mapped {
                  client = record (mapped.client) {
                    shared_memory = some (address + h.memory_offset);
                  };
                },
              ))
      ]

  -- One reference to the service port less.
  abbrev pub let_go : Link S → Link S
  let_go k = record k { task = record (k.task) { service_rights = k.task.service_rights - 1 } }

  -- The call behind the exchange of the hello.
  unfoldable pub take_answer : Answers → ℕ → ℕ → Link S → Option Answer → Bool × Link S
  unfolding valid_hello map_memory
  take_answer a port client_id k none = (false, let_go k)
  take_answer a port client_id k (some (control_answer status)) = (false, let_go k)
  take_answer a port client_id k (some (state_answer status s)) = (false, let_go k)
  take_answer a port client_id k (some (hello_answer h)) =
      let received = record k {
        task = record (k.task) {
          entry_rights =
              if is_some h.memory_entry then k.task.entry_rights + 1 else k.task.entry_rights;
        };
      } in
      if not (valid_hello l client_id h)
      then (
        false,
        let_go (record k {
          task = record (k.task) {
            entry_rights =
                if is_some h.memory_entry
                then received.task.entry_rights - 1
                else received.task.entry_rights;
          };
        }),
      )
      else map_memory a
          (record received {
            client = record (received.client) {
              service_port = some port;
              session_id = h.session_id;
              client_id = client_id;
              connected = true;
            };
          })
          h

  -- The three numbers are combined bit by bit, and 1 stands in place of 0.
  abbrev pub new_client_id : ℕ → ℕ → ℕ → ℕ
  new_client_id now address next =
      let id = bit_xor (bit_xor now address) next in if id == 0 then 1 else id

  -- `ns6_device_client_connect_to_port`
  unfoldable pub connect_to_port : Answers → Link S → Option ℕ → Bool × Link S
  unfolding disconnect take_answer
  connect_to_port a k none = (false, k)
  connect_to_port a k (some port) =
      let gone = disconnect k in
      if not a.retained
      then (false, gone)
      else let id = new_client_id a.now a.client_address gone.task.next_client_id in
        let (answer, remote') = exchange gone.remote (record {
          msgh_id = msg_hello;
          msgh_size = l.hello_size;
          version = protocol_version;
          word = l.shared_size;
          quad0 = id;
          quad1 = 0;
        }) in
        take_answer a port id
          (record gone {
            remote = remote';
            task = record (gone.task) {
              next_client_id = add64 gone.task.next_client_id 1;
              service_rights = gone.task.service_rights + 1;
            };
          })
          answer
