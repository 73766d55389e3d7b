-- ===== src/Client/Tests.antt =====
-- A client (coreaudio/NS6DeviceClient.c) of the service of coreaudio/NS6DeviceMachService.c.
use numark_ns6_mac_arm.Client.{
  hello_answer, Answer, state_answer, Answers, Link, control_answer, blank_client,
}
use numark_ns6_mac_arm.Prelude.{true, false, Option, none, some, [], if◌then◌else◌}
use numark_ns6_mac_arm.Prelude.Int.{pos}
use numark_ns6_mac_arm.Registry.{empty_registry}
use numark_ns6_mac_arm.Service.{
  Reply, state_reply, control_reply, blank_snapshot, Service, protocol_version, Layout, hello_reply,
  Trailer, World,
}
use numark_ns6_mac_arm.Service.Replies.{status}

-- A reply as the client reads it; the entry that is sent along has the name 21.
abbrev answer_of : Layout → Option Reply → Option Answer
answer_of l none = none
answer_of l (some (hello_reply status size offset session has_entry)) = some (
    hello_answer (record {
      version = protocol_version;
      shared_struct_size = l.shared_size;
      session_id = session;
      status = status;
      memory_entry = if has_entry then some 21 else none;
      mapped_size = size;
      memory_offset = offset;
    }))
answer_of l (some (control_reply status)) = some (control_answer status)
answer_of l (some (state_reply status s)) = some (state_answer status s)

abbrev layout : Layout
layout = record { shared_size = 400; hello_size = 40; control_size = 48 }

abbrev world : World
world = record { exists = λ p. true; usb_ready = true; restart_accepted = false }

abbrev root_trailer : Trailer
root_trailer = record { well_formed = true; peer_uid = 0; peer_pid = pos 71 }

abbrev running : Service
running = record {
  clients = empty_registry;
  audio_active = false;
  startup_buffer_frames = 256;
  session_id = 9;
  active_id = 9;
  mapping_size = 4096;
  memory_offset = 16;
  coreaudiod_uid = 202;
  snapshot = blank_snapshot;
  usb = [];
}

abbrev fresh : Link Service
fresh = record {
  client = blank_client;
  task = record { next_client_id = 1; service_rights = 0; entry_rights = 0; mappings = 0 };
  remote = running;
}

abbrev answers : Answers
answers = record {
  retained = true;
  now = 5;
  client_address = 64;
  mapped = some 8192;
  memory_version = 5;
  memory_size = 400;
}
