-- ===== src/Lib.antt =====
-- A model of the user-space driver of the Numark NS6 DJ controller (the C program
-- in coreaudio/), and of parts of its C++ driver (in numark-ns6/).
--
-- The driver has three processes' worth of code. The HAL plug-in (coreaudio/NS6HAL.c) runs in
-- coreaudiod and exchanges audio frames with the USB worker (coreaudio/NS6USB.c) through rings in
-- shared memory. The device service (coreaudio/NS6DeviceMachService.c) owns that memory, hands it to
-- clients over a Mach port, keeps a table of the clients and tells the USB worker when to pause. The
-- worker reads rate reports from the device, which the clock control turns into packet sizes, and a
-- MIDI reader puts the controller's reports together into messages and recovers from USB errors.
--
-- Which file models which part:
--   Registry    coreaudio/NS6DeviceClientRegistry.h, the table of clients: a list of `Lease`, and one
--               function per operation (ns6_device_client_registry_attach is `attach`, and so on).
--               View reads the table as a map, Distinct has its invariant, Active who plays audio.
--   Service     coreaudio/NS6DeviceMachService.c, with NS6DeviceProtocol.h and
--               NS6DeviceAuthorization.h: the static `service` is the record `Service`, each handler is
--               a function of it (handle_hello, handle_control, handle_state, reap_dead_clients), and
--               `round` is one turn of service_thread. It stands on Registry.
--               Lifecycle has `publish` and `stop` with coreaudio/NS6DeviceOwner.h, Release and Runs are
--               about the rights that they hold.
--   Client      coreaudio/NS6DeviceClient.c and .h, the other side of the protocol, over any exchange of
--               messages. Balance is about what it holds.
--   Capture     coreaudio/NS6CaptureRing.h: `init`, `clear`, `write`, `read` on `CaptureRing`, as calls
--               that do not overlap. Queue has its contents, Run whole sequences of calls.
--   Clock       coreaudio/NS6ClockControl.c and .h: `observe` takes a report, `next_millisecond` says
--               what eight packets carry. Window and Reports are about the former, Cadence the latter.
--   Midi.Parser coreaudio/NS6MIDIParser.h: `feed`, over a `step` per byte.
--   Midi.Recovery  coreaudio/NS6MIDIRecovery.h: the slot masks and the delays.
--   Midi.Reads  coreaudio/NS6MIDIReadLifecycle.h and NS6MIDILease.h: how many reads are in flight, and
--               the messages that say so. Midi.Tables checks laws of masks by tables.
--   Accounting  coreaudio/NS6IOClientAccounting.h: `account_start`, `account_stop`, `account_remove`
--               on counters, and `calls` for what NS6HAL.c makes of them.
--   Timing      coreaudio/NS6USBTiming.c and .h: `record_timestamp`, `record_duration` and
--               `take_snapshot` on the record `Timing`.
--   Realtime    coreaudio/NS6USBRealtime.h: the work interval of the USB thread.
--   Policy      the small decisions of the USB worker: coreaudio/NS6ActiveFlow.h, NS6AudioPrefill.h,
--               NS6ConnectionPolicy.h and others, and NS6FirmwareVersion.c. Decisions is about them.
--   Timeline    coreaudio/NS6SampleTimeline.h (Nanos) and NS6USBFrameTimestamps.h (Range).
--   Mapping     coreaudio/NS6HALMapping.h: `reader_step` is an access of acquire or release, `owner_step`
--               one of publish or withdraw, and `run` an interleaving. Invariant and Safety, and Count for
--               what holds whatever the loads return.
--   Session     coreaudio/NS6DeviceSession.h, in the same way: `callback_step` for io_begin and io_end,
--               `begin_step` for begin. Threads has what the two share.
--   Pcm         the samples of coreaudio/NS6Transport.c: `pack24`, `unpack24`, `convert_frame`,
--               `mix_sample`, `interpolate_frame`. Mixing has the laws of the first two. Level is about
--               coreaudio/NS6PCMLevel.h and NS6IdlePCM.h, Lanes about NS6CaptureDecoder.h.
--   Transport   the playback ring of coreaudio/NS6Transport.c: `enqueue_frames`, `mix_at`, `dequeue`,
--               `dequeue_resampled` and the others on the record `Shared`. Contents reads the ring as
--               a queue of frames, Playback is about enqueuing, Delivery and Samples about dequeuing,
--               Overlay and Mix about mixing.
--   Metrics     coreaudio/NS6IOMetrics.c and .h: the calls that record, and `take_snapshot`, on a list of
--               `ClientMetrics`. Counting says what a call adds, Table reads the list as a map from
--               clients, Report is about snapshots.
--   Driver      the C++ driver in numark-ns6/. Clients has coreaudio/AudioClientLifecycle.cpp and
--               AudioDeviceLifecycle.cpp; Schedule has audio-out/AudioOutSchedule.cpp and
--               audio-feedback/AudioFeedbackSchedule.cpp; Packets has audio-out/AudioPacketPolicy.cpp with
--               audio-feedback/AudioFeedbackPatternPolicy.cpp; Output has AudioOutPacket.cpp and
--               AudioOutTransferBatch.cpp, and Worker AudioOutTransferSlots.cpp and AudioOutWorker.cpp, all in
--               audio-out/; Input has audio-in/AudioInputReader.cpp. A class is a record of its members, a
--               member function a function of it. Worker builds its batches with Output, which asks Packets
--               for the size of each packet and a ring, as the interface `Ring`, for its frames.
--   Usb         the reads of the capture endpoint in coreaudio/NS6USB.c: submit_waveform_read is
--               `submit_read`, waveform_read_complete `read_complete`, and `start_drain`, `stop_drain` and
--               `reset_session` are the others. It writes into Capture's ring.
--   Double      the arithmetic of doubles, a parameter of the definitions that use it.
--   Span, Prelude  stretches of a ring's slots, and shared helpers: lists and tests over the native
--               numbers, 64-bit words, integers.
--
-- Numbers are natural numbers; a wrap-around at 32 or 64 bits is written out where the code can reach
-- it. The only fuels are that of `count_from`, the bit-counting loop: 33 rounds, one more than a uint32_t
-- has bits; and that of `drain_completions`: 9 rounds, one more than there are slots, since each round
-- frees one. Every other loop is bounded by the data it runs over, or is one step an iteration. Atomic
-- accesses interleave in any order, and in Mapping and Session what a load returns is an argument, since
-- acquire and release order let it be an older value; a theorem there says whether it needs the latest one.
-- Elsewhere calls do not overlap. What the system answers (which processes exist, whether USB is ready, whether
-- a restart is accepted) is a `World`, one per round of the service, or an `Answers`, one per call of
-- publish or connect and one per read of Usb; a position or a count in a ring, and a number of nanoseconds, stays below 2 ^ 64.
--
-- Not modelled: zero timestamps (coreaudio/NS6ZeroTimestamp.h), the in-process entry points of
-- coreaudio/NS6Transport.c, which only forward, the output and feedback transfers of
-- coreaudio/NS6USB.c, and what NS6HAL.c and NS6MIDI.c do around the parts above. Left out: logging, NULL arguments, IOKit, CoreAudio and CoreMIDI calls, the
-- tools, the Swift status application, and of the C++ driver the start and stop of its workers, the
-- plug-in, the device session and the MIDI bridge, which are mostly calls of the system, the ring, the
-- engines over it and the feedback reader.
pub mod Prelude
pub mod Span
pub mod Client
pub mod Clock
pub mod Capture
pub mod Driver
pub mod Metrics
pub mod Midi
pub mod Policy
pub mod Realtime
pub mod Registry
pub mod Service
pub mod Threads
pub mod Mapping
pub mod Session
pub mod Accounting
pub mod Timing
pub mod Timeline
pub mod Double
pub mod Pcm
pub mod Transport
pub mod Usb
