-- ===== src/Session.antt =====
-- The session of the shared memory (coreaudio/NS6DeviceSession.h): the service starts sessions while
-- real-time callbacks enter and leave. Every atomic access is one step, and the steps of the callbacks
-- and of the service interleave in any order. A read-modify-write acts on the latest value; what a load returns
-- is an argument of its step, since loads with acquire order may return an older value. No pointer argument
-- is NULL here.
use numark_ns6_mac_arm.Prelude.{
  ℕ, ◌+◌, Bool, not, ◌&&◌, List, [], ◌∷◌, if◌then◌else◌, ltb, ◌==◌, get_or, length, replicate, set,
}
use numark_ns6_mac_arm.Threads.{sub_one, add_one}
pub mod Invariant
pub mod Count
pub mod Safety
mod Tests

pub record DeviceSession : Type 0 where
  pub active_id : ℕ
  pub callbacks_in_flight : ℕ

pub init : DeviceSession
init = record { active_id = 0; callbacks_in_flight = 0 }

-- What a load returns, of whichever of the two it is.
pub record Seen : Type 0 where
  pub active_seen : ℕ
  pub callbacks_seen : ℕ

-- The values written last.
abbrev pub latest : DeviceSession → Seen
latest d = record { active_seen = d.active_id; callbacks_seen = d.callbacks_in_flight }

pub is_current : Seen → ℕ → Bool
is_current seen id = not (id == 0) && seen.active_seen == id

-- Where a callback stands: outside, counted but not admitted, between `io_begin` and `io_end`, or
-- before it takes itself off the count again.
pub data Callback : Type 0 where
  outside : Callback
  counted running : ℕ → Callback
  refused : Callback

-- The next access of a callback, which calls `io_begin` with `id`, and `io_end` if it is admitted.
unfoldable pub callback_step : DeviceSession → Callback → ℕ → Seen → DeviceSession × Callback
unfolding is_current
callback_step d outside id seen =
    if id == 0
    then (d, outside)
    else (record d { callbacks_in_flight = add_one d.callbacks_in_flight }, counted id)
callback_step d (counted own) id seen = (d, if is_current seen own then running own else refused)
callback_step d (running own) id seen =
    (record d { callbacks_in_flight = sub_one d.callbacks_in_flight }, outside)
callback_step d refused id seen =
    (record d { callbacks_in_flight = sub_one d.callbacks_in_flight }, outside)

abbrev pub max_attempts : ℕ
max_attempts = 100000

-- Where the service stands in `begin`: before it, in the loop with the session that it took and the
-- attempts made, or before it stores the new session.
pub data Starter : Type 0 where
  idle : Starter
  waiting : (id previous attempt : ℕ) → Starter
  installing : ℕ → Starter

-- The next access of the service, which calls `begin` with `id`.
unfoldable pub begin_step : DeviceSession → Starter → ℕ → Seen → DeviceSession × Starter
begin_step d idle id seen =
    if id == 0 then (d, idle) else (record d { active_id = 0 }, waiting id d.active_id 0)
begin_step d (waiting own previous attempt) id seen =
    if ltb attempt max_attempts
    then (
      d,
      if seen.callbacks_seen == 0 then installing own else waiting own previous (attempt + 1),
    )
    else (record d { active_id = previous }, idle)
begin_step d (installing own) id seen = (record d { active_id = own }, idle)

pub record System : Type 0 where
  pub session : DeviceSession
  pub starter : Starter
  pub callbacks : List Callback

-- Who makes the next access, the session that it names if that access opens a call, and what it sees if it
-- is a load.
pub data Action : Type 0 where
  by_service : ℕ → Seen → Action
  by_callback : ℕ → ℕ → Seen → Action

abbrev pub settle_callback : System → ℕ → DeviceSession × Callback → System
settle_callback s i (d, c) = record s { session = d; callbacks = set s.callbacks i c }

abbrev pub settle_service : System → DeviceSession × Starter → System
settle_service s (d, b) = record s { session = d; starter = b }

unfoldable pub act : System → Action → System
act s (by_service id seen) = settle_service s (begin_step s.session s.starter id seen)
act s (by_callback i id seen) =
    if ltb i (length s.callbacks)
    then settle_callback s i (callback_step s.session (get_or s.callbacks i outside) id seen)
    else s

unfoldable pub run : System → List Action → System
run s [] = s
run s (a ∷ later) = run (act s a) later

-- The session as initialised, with `n` callback threads.
unfoldable pub start : ℕ → System
unfolding init
start n = record { session = init; starter = idle; callbacks = replicate n outside }
