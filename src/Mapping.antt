-- ===== src/Mapping.antt =====
-- The mapping of the shared memory in the HAL plug-in (coreaudio/NS6HALMapping.h): one owner replaces
-- it, and real-time threads take leases on it. Every atomic access is one step, and the steps of the
-- threads interleave in any order. A read-modify-write acts on the latest value; what a load returns is an
-- argument of its step, since loads with acquire order may return an older value. A mapping is the
-- number of its address, and NULL is `none`. No pointer argument is NULL here.
use numark_ns6_mac_arm.Prelude.{
  ℕ, Option, none, some, List, [], ◌∷◌, if◌then◌else◌, ltb, ◌==◌, get_or, length, replicate, set,
}
use numark_ns6_mac_arm.Threads.{sub_one, add_one}
pub mod Invariant
pub mod Count
pub mod Safety
mod Tests

pub record Mapping : Type 0 where
  pub memory : Option ℕ
  pub session_id : ℕ
  pub readers : ℕ

pub init : Mapping
init = record { memory = none; session_id = 0; readers = 0 }

-- What a load returns, of whichever of the three it is.
pub record Seen : Type 0 where
  pub memory_seen : Option ℕ
  pub session_seen : ℕ
  pub readers_seen : ℕ

-- The values written last.
abbrev pub latest : Mapping → Seen
latest m = record { memory_seen = m.memory; session_seen = m.session_id; readers_seen = m.readers }

-- Where a thread stands in `acquire` and `release`: before it counted itself, before it loads the
-- memory, before it loads the session, with a lease, or before it gives up.
pub data Reader : Type 0 where
  outside counted : Reader
  loaded : ℕ → Reader
  leased : ℕ → ℕ → Reader
  refused : Reader

-- The next access of a thread; one with a lease releases it.
unfoldable pub reader_step : Mapping → Reader → Seen → Mapping × Reader
reader_step m outside seen = (record m { readers = add_one m.readers }, counted)
reader_step m counted seen = elim seen.memory_seen [ none ↦ (m, refused) | some p ↦ (m, loaded p) ]
reader_step m (loaded p) seen = (m, leased p seen.session_seen)
reader_step m (leased p s) seen = (record m { readers = sub_one m.readers }, outside)
reader_step m refused seen = (record m { readers = sub_one m.readers }, outside)

-- Where the owner stands: with no mapping, in `publish` before it stores the memory, with one
-- published, or in the loop of `withdraw`.
pub data Owner : Type 0 where
  withdrawn : Owner
  storing : ℕ → Owner
  published draining : Owner

-- What the owner calls next.
pub data Call : Type 0 where
  publish : (memory session_id : ℕ) → Call
  withdraw : Call

-- The next access of the owner. It publishes only after `withdraw` has completed.
unfoldable pub owner_step : Mapping → Owner → Call → Seen → Mapping × Owner
owner_step m withdrawn (publish p s) seen = (record m { session_id = s }, storing p)
owner_step m withdrawn withdraw seen = (record m { memory = none }, draining)
owner_step m (storing p) c seen = (record m { memory = some p }, published)
owner_step m published (publish p s) seen = (m, published)
owner_step m published withdraw seen = (record m { memory = none }, draining)
owner_step m draining c seen = (m, if seen.readers_seen == 0 then withdrawn else draining)

pub record System : Type 0 where
  pub mapping : Mapping
  pub owner : Owner
  pub threads : List Reader

pub data Action : Type 0 where
  by_owner : Call → Seen → Action
  by_reader : ℕ → Seen → Action

abbrev pub settle_reader : System → ℕ → Mapping × Reader → System
settle_reader s i (m, r) = record s { mapping = m; threads = set s.threads i r }

abbrev pub settle_owner : System → Mapping × Owner → System
settle_owner s (m, o) = record s { mapping = m; owner = o }

unfoldable pub act : System → Action → System
act s (by_owner c seen) = settle_owner s (owner_step s.mapping s.owner c seen)
act s (by_reader i seen) =
    if ltb i (length s.threads)
    then settle_reader s i (reader_step s.mapping (get_or s.threads i outside) seen)
    else s

unfoldable pub run : System → List Action → System
run s [] = s
run s (a ∷ later) = run (act s a) later

-- The mapping as initialised, with `n` threads.
unfoldable pub start : ℕ → System
unfolding init
start n = record { mapping = init; owner = withdrawn; threads = replicate n outside }
