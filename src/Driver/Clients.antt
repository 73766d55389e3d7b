-- ===== src/Driver/Clients.antt =====
-- The clients that run I/O on a device of the C++ driver (numark-ns6/coreaudio/AudioClientLifecycle.cpp and
-- .hpp, AudioDeviceLifecycle.cpp and .hpp). The mutex makes each call a step. A loop over the table gives
-- the changed table, or none where it leaves no entry changed. `activeStarts_` is a uint64_t that 64 entries
-- of uint32_t cannot fill.
use numark_ns6_mac_arm.Prelude.{
  ℕ, ◌+◌, ◌-◌, ◌^◌, Bool, true, false, not, ◌&&◌, Option, none, some, List, [], ◌∷◌, if◌then◌else◌,
  ◌==◌, replicate,
}
pub mod Balance
pub mod Ledger
mod Tests

pub record Client : Type 0 where
  pub id : ℕ
  pub starts : ℕ

abbrev pub client_capacity : ℕ
client_capacity = 64

abbrev pub max_starts : ℕ
max_starts = 2 ^ 32 - 1

abbrev pub no_client : Client
no_client = record { id = 0; starts = 0 }

pub record Lifecycle : Type 0 where
  pub clients : List Client
  pub active_starts : ℕ

unfoldable pub empty : Lifecycle
empty = record { clients = replicate client_capacity no_client; active_starts = 0 }

-- What the loop of `start` finds of a client that has started before.
pub data Again : Type 0 where
  absent overflowing : Again
  counted : List Client → Again

-- The entry of a client that is running.
unfoldable pub is_entry_of : ℕ → Client → Bool
is_entry_of client_id c = not (c.starts == 0) && c.id == client_id

abbrev pub behind : Client → Again → Again
behind c absent = absent
behind c overflowing = overflowing
behind c (counted cs) = counted (c ∷ cs)

unfoldable pub start_again : ℕ → List Client → Again
start_again client_id [] = absent
start_again client_id (c ∷ cs) =
    let rest = start_again client_id cs in
    if is_entry_of client_id c
    then if c.starts == max_starts
      then overflowing
      else counted (record c { starts = c.starts + 1 } ∷ cs)
    else behind c rest

abbrev pub keep_entry : Client → Option (List Client) → Option (List Client)
keep_entry c none = none
keep_entry c (some cs) = some (c ∷ cs)

-- The first free entry, `freeSlot`, is given to the client.
unfoldable pub occupy : ℕ → List Client → Option (List Client)
occupy client_id [] = none
occupy client_id (c ∷ cs) =
    let rest = occupy client_id cs in
    if c.starts == 0 then some (record { id = client_id; starts = 1 } ∷ cs) else keep_entry c rest

-- The end of `start`, behind its loop.
abbrev pub start_new : Lifecycle → Option (List Client) → Bool × Lifecycle
start_new s none = (false, s)
start_new s (some cs) = (true, record { clients = cs; active_starts = s.active_starts + 1 })

abbrev pub start_found : Lifecycle → ℕ → Again → Bool × Lifecycle
start_found s client_id absent = start_new s (occupy client_id s.clients)
start_found s client_id overflowing = (false, s)
start_found s client_id (counted cs) =
    (true, record { clients = cs; active_starts = s.active_starts + 1 })

unfoldable pub start : Lifecycle → ℕ → Bool × Lifecycle
start s client_id = start_found s client_id (start_again client_id s.clients)

abbrev pub one_less : Client → Client
one_less c =
    if c.starts - 1 == 0 then record { id = 0; starts = 0 } else record c { starts = c.starts - 1 }

unfoldable pub stop_in : ℕ → List Client → Option (List Client)
stop_in client_id [] = none
stop_in client_id (c ∷ cs) =
    let rest = stop_in client_id cs in
    if is_entry_of client_id c then some (one_less c ∷ cs) else keep_entry c rest

abbrev pub stop_found : Lifecycle → Option (List Client) → Bool × Lifecycle
stop_found s none = (false, s)
stop_found s (some cs) = (true, record { clients = cs; active_starts = s.active_starts - 1 })

unfoldable pub stop : Lifecycle → ℕ → Bool × Lifecycle
stop s client_id = stop_found s (stop_in client_id s.clients)

abbrev pub keep_removed : Client → Option (ℕ × List Client) → Option (ℕ × List Client)
keep_removed c none = none
keep_removed c (some (n, cs)) = some (n, c ∷ cs)

-- Returns the starts that are taken back, too.
unfoldable pub remove_in : ℕ → List Client → Option (ℕ × List Client)
remove_in client_id [] = none
remove_in client_id (c ∷ cs) =
    let rest = remove_in client_id cs in
    if is_entry_of client_id c then some (c.starts, no_client ∷ cs) else keep_removed c rest

abbrev pub remove_found : Lifecycle → Option (ℕ × List Client) → Bool × Lifecycle
remove_found s none = (false, s)
remove_found s (some (n, cs)) = (true, record { clients = cs; active_starts = s.active_starts - n })

unfoldable pub remove_client : Lifecycle → ℕ → Bool × Lifecycle
remove_client s client_id = remove_found s (remove_in client_id s.clients)

-- AudioIOTransition
pub data Transition : Type 0 where
  rejected first_client_started additional_client_started : Transition
  client_stopped_still_active last_client_stopped client_not_active : Transition

abbrev pub started : Bool → Bool × Lifecycle → Transition × Lifecycle
started was_idle (false, s) = (rejected, s)
started true (true, s) = (first_client_started, s)
started false (true, s) = (additional_client_started, s)

unfoldable pub start_io : Lifecycle → ℕ → Transition × Lifecycle
start_io s client_id = started (s.active_starts == 0) (start s client_id)

abbrev pub stopped : Bool × Lifecycle → Transition × Lifecycle
stopped (false, s) = (client_not_active, s)
stopped (true, s) =
    (if s.active_starts == 0 then last_client_stopped else client_stopped_still_active, s)

unfoldable pub stop_io : Lifecycle → ℕ → Transition × Lifecycle
stop_io s client_id = stopped (stop s client_id)

unfoldable pub remove_io : Lifecycle → ℕ → Transition × Lifecycle
remove_io s client_id = stopped (remove_client s client_id)
