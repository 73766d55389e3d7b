-- ===== src/Accounting.antt =====
-- How the HAL plug-in counts the clients that do I/O (coreaudio/NS6IOClientAccounting.h): each tracked
-- client has a number of starts, the starts of clients that are not tracked have one number of their
-- own, and `active_starts` counts them all. The calls that NS6HAL.c makes of these functions, under
-- its lock, are `Call`s. A number is an `unsigned`. A counter pointer is never NULL here, but for that
-- of a client which is not tracked.
use numark_ns6_mac_arm.Prelude.{
  ℕ, ◌-◌, Bool, true, false, Option, none, some, List, [], ◌∷◌, if◌then◌else◌, leb, ltb, ◌==◌,
  get_or, length, set,
}
use numark_ns6_mac_arm.Threads.{add_one}
pub mod Balance
mod Tests

pub needs_service_activation : ℕ → Bool
needs_service_activation active_starts = active_starts == 0

pub account_start : ℕ → ℕ → ℕ × ℕ
account_start client_starts active_starts = (add_one client_starts, add_one active_starts)

pub account_untracked_start : ℕ → ℕ → ℕ × ℕ
account_untracked_start untracked_starts active_starts =
    (add_one untracked_starts, add_one active_starts)

-- Returns how many starts were removed, and the two counters.
pub account_remove : ℕ → ℕ → ℕ × ℕ × ℕ
account_remove client_starts active_starts =
    (client_starts, 0, if leb client_starts active_starts then active_starts - client_starts else 0)

-- The counters that a stop leaves, and whether it stopped anything.
pub record Stopped : Type 0 where
  pub stopped : Bool
  pub client : Option ℕ
  pub untracked : ℕ
  pub active : ℕ

-- The two branches that take a start off untracked ones.
abbrev pub stop_untracked : Option ℕ → ℕ → ℕ → Stopped
stop_untracked client_starts untracked_starts active_starts =
    if untracked_starts == 0
    then record {
      stopped = false;
      client = client_starts;
      untracked = untracked_starts;
      active = active_starts;
    }
    else record {
      stopped = true;
      client = client_starts;
      untracked = untracked_starts - 1;
      active = active_starts - 1;
    }

-- `none` is the NULL pointer of a client that is not tracked.
pub account_stop : Option ℕ → ℕ → ℕ → Stopped
account_stop none untracked_starts active_starts =
    if active_starts == 0
    then record {
      stopped = false;
      client = none;
      untracked = untracked_starts;
      active = active_starts;
    }
    else stop_untracked none untracked_starts active_starts
account_stop (some client_starts) untracked_starts active_starts =
    if active_starts == 0
    then record {
      stopped = false;
      client = some client_starts;
      untracked = untracked_starts;
      active = active_starts;
    }
    else if client_starts == 0
    then stop_untracked (some client_starts) untracked_starts active_starts
    else record {
      stopped = true;
      client = some (client_starts - 1);
      untracked = untracked_starts;
      active = active_starts - 1;
    }

pub record Ledger : Type 0 where
  pub clients : List ℕ  -- the starts of each tracked client, by slot
  pub untracked : ℕ  -- untracked_io_starts
  pub active : ℕ  -- io_clients

-- StartIO, StopIO and RemoveDeviceClient. A slot past the end is a client that is not tracked.
pub data Call : Type 0 where
  start_io stop_io remove_client : ℕ → Call

abbrev pub starts_at : List ℕ → ℕ → ℕ
starts_at clients i = get_or clients i 0

abbrev pub stop_with : Ledger → ℕ → Stopped → Ledger
stop_with l i s = record {
  clients = elim s.client [ none ↦ l.clients | some n ↦ set l.clients i n ];
  untracked = s.untracked;
  active = s.active;
}

unfoldable pub call : Ledger → Call → Ledger
unfolding account_start account_untracked_start account_stop account_remove
call l (start_io i) =
    if ltb i (length l.clients)
    then (let (n, a) = account_start (starts_at l.clients i) l.active in
        record l { clients = set l.clients i n; active = a })
    else (let (n, a) = account_untracked_start l.untracked l.active in
        record l { untracked = n; active = a })
call l (stop_io i) =
    if ltb i (length l.clients)
    then stop_with l i (account_stop (some (starts_at l.clients i)) l.untracked l.active)
    else stop_with l i (account_stop none l.untracked l.active)
call l (remove_client i) =
    if ltb i (length l.clients)
    then (let (removed, n, a) = account_remove (starts_at l.clients i) l.active in
        record l { clients = set l.clients i n; active = a })
    else l

unfoldable pub calls : Ledger → List Call → Ledger
calls l [] = l
calls l (c ∷ cs) = calls (call l c) cs
