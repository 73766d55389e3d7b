-- ===== src/Service/Invariant.antt =====
-- What holds of the service (coreaudio/NS6DeviceMachService.c) between two rounds of its loop.
use numark_ns6_mac_arm.Prelude.{◌≤◌, ◌<◌, ◌≡◌, Bool, true, false, not, List, [], ◌∷◌, arith, ◌==◌}
use numark_ns6_mac_arm.Prelude.Int.{ℤ}
use numark_ns6_mac_arm.Registry.{set_audio_active, Lease, any_audio_active, detach}
use numark_ns6_mac_arm.Registry.Active.{any_audio_active-attach}
use numark_ns6_mac_arm.Registry.Distinct.{
  IsValid, detach-IsValid, set_audio_active-IsValid, attach-IsValid,
}
use numark_ns6_mac_arm.Service.{
  Request, run, handle_hello, startup_buffer_request, set_startup_buffer_frames, Event, dispatch,
  release_request, update_audio_active, request_restart, UsbCall, set_active_request, timed_out,
  message, Service, World, receive_error, reap_from, Layout, control_switch, reap_dead_clients,
  handle_control, round, set_paused,
}
use numark_ns6_mac_arm.Service.Reap.{reap_from-IsValid}

-- Whether the USB worker is paused, as far as the service has told it. It starts paused.
unfoldable pub paused_as_told : List UsbCall → Bool
paused_as_told [] = true
paused_as_told (set_paused p ∷ calls) = p
paused_as_told (set_startup_buffer_frames n ∷ calls) = paused_as_told calls
paused_as_told (request_restart ∷ calls) = paused_as_told calls

pub record IsConsistent (s : Service) : Type 0 where
  pub table : IsValid s.clients
  pub aggregate : s.audio_active ≡ any_audio_active s.clients
  pub told : paused_as_told s.usb ≡ not s.audio_active
  pub buffer_pos : 0 < s.startup_buffer_frames
  pub buffer_le : s.startup_buffer_frames ≤ 65536

-- The facts that an update of the table needs.
update_audio_active-IsConsistent :
    (s : Service) (cs : List Lease)
    → IsConsistent s
    → IsValid cs
    → IsConsistent (update_audio_active (record s { clients = cs }))
unfolding update_audio_active paused_as_told
update_audio_active-IsConsistent s cs v w = ground arith

reap_dead_clients-IsConsistent :
    (w : World) (s : Service) → IsConsistent s → IsConsistent (reap_dead_clients w s)
unfolding reap_dead_clients
reap_dead_clients-IsConsistent w s v = ground (
  arith,
  update_audio_active-IsConsistent s (reap_from w.exists 8 0 s.clients false).1 v,
  reap_from-IsValid w.exists 8 0 s.clients false,
)

handle_hello-IsConsistent :
    (l : Layout) (s : Service) (r : Request) (pid : ℤ)
    → IsConsistent s
    → IsConsistent (handle_hello l s r pid).1
unfolding handle_hello
handle_hello-IsConsistent l s r pid v =
    ground
      (arith, attach-IsValid r.quad0 pid v.table, any_audio_active-attach s.clients r.quad0 pid)

control_switch-IsConsistent :
    (w : World) (s : Service) (r : Request) → IsConsistent s → IsConsistent (control_switch w s r).1
unfolding control_switch set_active_request release_request startup_buffer_request paused_as_told
control_switch-IsConsistent w s r v = ground (
  arith,
  update_audio_active-IsConsistent s (set_audio_active s.clients r.quad1 (not (r.word == 0))).1 v
      (set_audio_active-IsValid r.quad1 (not (r.word == 0)) v.table),
  update_audio_active-IsConsistent s (detach s.clients r.quad1).1 v
      (detach-IsValid r.quad1 v.table),
)

dispatch-IsConsistent :
    (l : Layout) (w : World) (s : Service) (r : Request) (pid : ℤ)
    → IsConsistent s
    → IsConsistent (dispatch l w s r pid).1
unfolding dispatch handle_control
dispatch-IsConsistent l w s r pid v =
    ground (arith, handle_hello-IsConsistent l s r pid v, control_switch-IsConsistent w s r v)

-- A round of the loop keeps the invariant, whatever arrives and whatever the system answers.
pub round-IsConsistent :
    (l : Layout) (s : Service) (w : World) (e : Event)
    → IsConsistent s
    → IsConsistent (round l s w e).1
unfolding round
round-IsConsistent l s w (message r t) v = ground (
  arith,
  dispatch-IsConsistent l w (reap_dead_clients w s) r t.peer_pid,
  reap_dead_clients-IsConsistent w s v,
)
round-IsConsistent l s w timed_out v = reap_dead_clients-IsConsistent w s v
round-IsConsistent l s w receive_error v = v

-- From a consistent service, any rounds lead to a consistent service: at most one slot for each
-- client among the eight, an aggregate flag that says whether some client plays, a USB worker that was
-- last told to pause exactly when none does, and a startup buffer of 1 to 65536 frames.
pub run-IsConsistent :
    (l : Layout) (s : Service) (es : List (World × Event))
    → IsConsistent s
    → IsConsistent (run l s es)
unfolding run
run-IsConsistent l s [] v = v
run-IsConsistent l s ((w, e) ∷ es) v =
    run-IsConsistent l (round l s w e).1 es (round-IsConsistent l s w e v)
