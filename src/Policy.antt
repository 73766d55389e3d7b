-- ===== src/Policy.antt =====
-- The small decisions of the USB worker: coreaudio/NS6ActiveFlow.h, NS6AudioPrefill.h,
-- NS6AudioTransportPolicy.h, NS6BufferFrameSize.h, NS6BulkINIdlePolicy.h, NS6ConnectionPolicy.h,
-- NS6FeedbackReadGate.h, NS6FeedbackTelemetry.h and NS6FirmwareVersion.c. A pointer is never NULL; a result
-- that the code writes through a pointer, and only on success, is an Option.
use numark_ns6_mac_arm.Prelude.{
  ℕ, ◌-◌, ◌/◌, ◌%◌, Bool, not, ◌&&◌, ◌||◌, Option, none, some, List, if◌then◌else◌, leb, ltb, ◌==◌,
  get_or, length,
}
pub mod Decisions

-- `NS6ActiveFlow`
pub record ActiveFlow : Type 0 where
  pub frames : ℕ
  pub client_id : ℕ
  pub last_callback_tick : ℕ

pub record FlowSnapshot : Type 0 where
  pub frames : ℕ
  pub client_id : ℕ

unfoldable pub should_rearm : FlowSnapshot → ℕ → ℕ → Bool
should_rearm flow queued_frames minimum_queued_frames =
    flow.frames == 0 && ltb 0 queued_frames && ltb queued_frames minimum_queued_frames

-- `ns6_active_flow_record`, of which the name is a keyword here.
unfoldable pub record_flow : ActiveFlow → ℕ → ℕ → ℕ → ActiveFlow
record_flow flow frames client_id tick = record {
  frames = frames;
  client_id = client_id;
  last_callback_tick = tick;
}

unfoldable pub clear_flow : ActiveFlow → ActiveFlow
clear_flow flow = record { frames = 0; client_id = 0; last_callback_tick = 0 }

unfoldable pub snapshot_flow : ActiveFlow → ℕ → ℕ → FlowSnapshot
snapshot_flow flow now max_age_ticks =
    let last = flow.last_callback_tick in
    if not (last == 0) && leb last now && ltb (now - last) max_age_ticks
    then record { frames = flow.frames; client_id = flow.client_id }
    else record { frames = 0; client_id = 0 }

unfoldable pub startup_prefill_frames : ℕ → ℕ → ℕ → ℕ
startup_prefill_frames configured_frames minimum_frames queue_target_frames =
    let threshold =
      if ltb configured_frames minimum_frames then minimum_frames else configured_frames in
    if ltb threshold queue_target_frames then queue_target_frames else threshold

pub data TransportAction : Type 0 where
  keep_transport start_transport : TransportAction

unfoldable pub transport_action : Bool → ℕ → TransportAction
transport_action transport_open active_clients =
    if not (active_clients == 0) && not transport_open then start_transport else keep_transport

unfoldable pub buffer_frame_size_request_valid : ℕ → ℕ → ℕ → Bool
buffer_frame_size_request_valid frames minimum maximum =
    not (frames == 0)
    && not (minimum == 0)
    && leb minimum maximum
    && leb minimum frames
    && leb frames maximum

-- The first argument is the build's NS6_KEEP_WAVEFORM_DRAIN_IDLE.
unfoldable pub bulk_in_reads_should_run : Bool → Bool → Bool → Bool
bulk_in_reads_should_run keep_waveform_drain_idle midi_session_active capture_requested =
    keep_waveform_drain_idle || not midi_session_active || capture_requested

unfoldable pub should_defer_disconnect : Bool → ℕ → Bool
should_defer_disconnect physically_connected active_clients =
    not physically_connected && ltb 0 active_clients

unfoldable pub feedback_read_should_submit : Bool → Bool → Bool
feedback_read_should_submit running in_flight = running && not in_flight

unfoldable pub feedback_elapsed_ms : ℕ → ℕ → Option ℕ
feedback_elapsed_ms now_ms since_ms =
    if since_ms == 0 || ltb now_ms since_ms then none else some (now_ms - since_ms)

-- The numbers of a firmware version.
pub record FirmwareVersion : Type 0 where
  pub major : ℕ
  pub minor : ℕ
  pub patch : ℕ

-- `ns6_firmware_version_decode`, before its numbers are printed; they always fit into the 32 bytes.
unfoldable pub firmware_version_decode : List ℕ → Option FirmwareVersion
firmware_version_decode response =
    if ltb (length response) 3
      || ltb 8 (length response)
      || not (get_or response 0 0 == 0x31)
      || get_or response 1 0 == 0
      || ltb 99 (get_or response 2 0)
    then none
    else some (record {
      major = get_or response 1 0;
      minor = get_or response 2 0 / 10;
      patch = get_or response 2 0 % 10;
    })
