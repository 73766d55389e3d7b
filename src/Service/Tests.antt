-- ===== src/Service/Tests.antt =====
-- The service (coreaudio/NS6DeviceMachService.c) run on small messages, and the theorems at them.
use mathlib.Core.Option
use numark_ns6_mac_arm.Prelude.{
  ◌≡◌, refl, ◌≢◌, ◌↔◌, ◌⊎◌, true, false, ◌&&◌, ◌||◌, none, some, List, [], ◌∷◌, map, arith,
  if◌then◌else◌, ◌==◌, drop, length, replicate,
}
use numark_ns6_mac_arm.Prelude.Int.{pos, ◌==ℤ◌}
use numark_ns6_mac_arm.Registry.{
  set_audio_active, take_free, clear_process, renew, mark_active, free_slot, clear_first, has_slot,
  detach, Lease, contains, attach, any_audio_active, detach_process, empty_registry,
}
use numark_ns6_mac_arm.Registry.Active.{Playing}
use numark_ns6_mac_arm.Registry.Distinct.{empty_registry-IsValid, IsValid}
use numark_ns6_mac_arm.Registry.View.{lease, attached}
use numark_ns6_mac_arm.Service.{
  run, round, hello_reply, message, success, timed_out, sender_is_authorized, set_paused, Layout,
  bad_arguments, Trailer, reap_slot, Event, resource_shortage, reap_from, bad_id, Service,
  handle_control, reap_dead_clients, msg_hello, World, update_audio_active, release_request,
  msg_release_client, control_switch, set_active_request, blank_snapshot, control_reply,
  msg_set_audio_active, Request, handle_hello, dispatch, no_access,
}
use numark_ns6_mac_arm.Service.Invariant.{IsConsistent, paused_as_told, run-IsConsistent}
use numark_ns6_mac_arm.Service.Lifecycle.{publish, Answers, Daemon, SharedMemory}
use numark_ns6_mac_arm.Service.Reap.{reap_from_lem, clean}
use numark_ns6_mac_arm.Service.Release.{
  is_some, rest_good, may_publish, IsSound, entry_good, publish_lem, too_small,
}
use numark_ns6_mac_arm.Service.Replies.{
  stranger_changes_nothing, set_active_starts_audio, handle_hello_lem, release_lem, status,
  IsGreeting,
}
use numark_ns6_mac_arm.Service.Runs.{start, Op, live_lem, live, finish, serve}

abbrev root_trailer : Trailer
root_trailer = record { well_formed = true; peer_uid = 0; peer_pid = pos 71 }

abbrev stranger_trailer : Trailer
stranger_trailer = record { well_formed = true; peer_uid = 501; peer_pid = pos 71 }

abbrev layout : Layout
layout = record { shared_size = 400; hello_size = 40; control_size = 48 }

-- Process 71 exists, no other does.
abbrev world : World
world = record { exists = λ p. p ==ℤ pos 71; usb_ready = true; restart_accepted = false }

abbrev started : Service
started = record {
  clients = empty_registry;
  audio_active = false;
  startup_buffer_frames = 256;
  session_id = 9;
  active_id = 9;
  mapping_size = 4096;
  memory_offset = 16;
  coreaudiod_uid = 202;
  snapshot = blank_snapshot;
  usb = [];
}

abbrev hello : Request
hello = record {
  msgh_id = msg_hello;
  msgh_size = 40;
  version = 4;
  word = 400;
  quad0 = 5;
  quad1 = 0;
}

abbrev play : Request
play = record {
  msgh_id = msg_set_audio_active;
  msgh_size = 48;
  version = 4;
  word = 1;
  quad0 = 9;
  quad1 = 5;
}

abbrev leave : Request
leave = record play { msgh_id = msg_release_client }

abbrev player : Lease
player = record { client_id = 5; process_id = pos 71; audio_active = true }

-- A client that plays, and one whose process is gone.
abbrev two_clients : List Lease
two_clients =
    player
    ∷ record { client_id = 6; process_id = pos 72; audio_active = true }
    ∷ replicate 6 free_slot

abbrev playing : Service
playing = record started { clients = two_clients; audio_active = true; usb = set_paused false ∷ [] }

two_clients-IsValid : IsValid two_clients
unfolding has_slot
two_clients-IsValid = ground arith

started-IsConsistent : IsConsistent started
unfolding any_audio_active paused_as_told
started-IsConsistent = record {
  table = empty_registry-IsValid;
  aggregate = refl;
  told = refl;
  buffer_pos = omega arith;
  buffer_le = omega arith;
}

playing-IsConsistent : IsConsistent playing
unfolding any_audio_active paused_as_told
playing-IsConsistent = record {
  table = two_clients-IsValid;
  aggregate = refl;
  told = refl;
  buffer_pos = omega arith;
  buffer_le = omega arith;
}

abbrev script : List (World × Event)
script =
    (world, message hello root_trailer)
    ∷ (world, message play root_trailer)
    ∷ (world, message leave root_trailer)
    ∷ []

-- Hello, start of audio, and release leave an empty table and a paused device.
run-script :
    let s = run layout started script in
    (s.clients ≡ empty_registry) × (s.usb ≡ set_paused true ∷ set_paused false ∷ [])
unfolding run round sender_is_authorized reap_dead_clients reap_from reap_slot detach_process
    clear_process dispatch handle_hello handle_control control_switch set_active_request
    release_request update_audio_active attach renew take_free set_audio_active mark_active contains
    has_slot detach clear_first any_audio_active
run-script = (refl, refl)

run-IsConsistent_example : IsConsistent (run layout started script)
run-IsConsistent_example = run-IsConsistent layout started script started-IsConsistent

stranger_changes_nothing_example :
    ((round layout playing world (message leave stranger_trailer)).1 ≡ playing)
    × (Option.map status (round layout playing world (message leave stranger_trailer)).0
        ≡ some no_access)
stranger_changes_nothing_example =
    stranger_changes_nothing layout playing world leave stranger_trailer (omega arith) (omega arith)

handle_hello_lem_example :
    let (reply, s') = handle_hello layout playing hello (pos 71) in
    (IsGreeting layout hello
      × ((lease 5 playing.clients ≢ none) ⊎ (has_slot 0 playing.clients ≡ true))
      × (reply ≡ hello_reply success 4096 16 9 true)
      × (lease 5 s'.clients ≡ (
          if 5 == hello.quad0
          then some (attached hello.quad0 (pos 71) (lease hello.quad0 playing.clients))
          else lease 5 playing.clients)))
    ⊎ (¬ IsGreeting layout hello × (reply ≡ hello_reply bad_arguments 0 0 0 false) × (s' ≡ playing))
    ⊎ (IsGreeting layout hello
        × (lease 5 playing.clients ≡ none)
        × (has_slot 0 playing.clients ≡ false)
        × (reply ≡ hello_reply resource_shortage 0 0 0 false)
        × (s' ≡ playing))
handle_hello_lem_example = handle_hello_lem layout playing hello (pos 71) 5 (omega arith)

set_active_starts_audio_example :
    let (reply, s') = handle_control world playing play in
    (reply ≡ control_reply success) × (s'.audio_active ≡ true) × (paused_as_told s'.usb ≡ false)
unfolding contains has_slot
set_active_starts_audio_example =
    set_active_starts_audio world playing play playing-IsConsistent refl refl refl refl
      (omega arith) refl

release_lem_example :
    let (st, s') = release_request playing leave in
    ((contains playing.clients leave.quad1 ≡ true)
      × (st ≡ success)
      × (lease 6 s'.clients ≡ (if 6 == leave.quad1 then none else lease 6 playing.clients))
      × ((s'.audio_active ≡ true) ↔ Playing s'.clients))
    ⊎ ((contains playing.clients leave.quad1 ≡ false) × (st ≡ bad_id) × (s' ≡ playing))
release_lem_example = release_lem playing leave 6 playing-IsConsistent (omega arith)

reap_from_lem_example :
    ((reap_from world.exists 8 0 two_clients false).1 ≡ map (clean world.exists) two_clients)
    × ((reap_from world.exists 8 0 two_clients false).0 ≡ false
        → map (clean world.exists) two_clients ≡ two_clients)
reap_from_lem_example = reap_from_lem world.exists two_clients (omega arith)

-- A service that was never started, and a system that grants everything.
abbrev stopped : Daemon
stopped = record {
  service = started;
  memory = none;
  receive_port = none;
  memory_entry = none;
  mapping_base = 0;
  stopping = false;
  owner = record { claimed = false };
  is_running = false;
  thread_alive = false;
  receive_rights = [];
  entry_rights = [];
}

stopped-IsSound : IsSound stopped
stopped-IsSound = record {
  owned = refl;
  threaded = refl;
  receives = refl;
  ports = λ off. refl;
  port_some = λ on. absurd (cc on);
  entry_held = λ on. absurd (cc on);
  entry_some = λ on. absurd (cc on);
}

abbrev granted : Answers
granted = record {
  account = some 202;
  page_size = 4096;
  entry = some (11, 8192);
  port = some 12;
  now = 77;
  callbacks_leave = true;
  thread_created = true;
}

abbrev shared : SharedMemory
shared = record { address = 8000; protocol_version = 5; struct_size = 400; active_id = 0 }

publish_lem_example :
    let asks = may_publish layout shared stopped && is_some granted.account in
    let (ok, d') = publish layout granted shared stopped in
    IsSound d'
    × (d'.is_running ≡ ok)
    × (ok ≡ (asks && entry_good layout 4096 shared granted.entry && rest_good granted))
    × (drop
          (if (asks && too_small layout 4096 shared granted.entry) || ok then 1 else 0)
          d'.entry_rights
        ≡ [])
publish_lem_example = publish_lem layout granted shared stopped stopped-IsSound

abbrev life : List Op
life =
    start granted shared
    ∷ serve world timed_out
    ∷ finish
    ∷ start (record granted { thread_created = false }) shared
    ∷ start granted shared
    ∷ []

live_lem_example :
    let d' = live layout stopped life in
    (d'.owner.claimed ≡ d'.is_running)
    × (d'.thread_alive ≡ d'.is_running)
    × (length d'.receive_rights ≡ (if d'.is_running then 1 else 0))
    × (length d'.entry_rights ≡ (if d'.is_running then 1 else 0))
live_lem_example =
    live_lem layout stopped life stopped-IsSound refl (refl, (tt, (tt, (refl, (refl, tt)))))
