-- ===== src/Client/Balance.antt =====
-- What a client of the device service holds (coreaudio/NS6DeviceClient.c): a right to the port and a mapping
-- while it is connected, and nothing of them otherwise.
use numark_ns6_mac_arm.Client.{Task, Answer, blank_client, Link, is_some, Client}
use numark_ns6_mac_arm.Prelude.{ℕ, ◌≡◌, Bool, true, not, ◌&&◌, Option, if◌then◌else◌, ◌==◌}
use numark_ns6_mac_arm.Service.{Request, Layout}

abbrev pub has_mapping : Client → Bool
has_mapping c = not (c.mapping_address == 0) && not (c.mapping_size == 0)

abbrev pub one_if : Bool → ℕ
one_if b = if b then 1 else 0

-- The task holds what the client knows of.
pub record IsBalanced (c : Client) (t : Task) : Type 0 where
  pub port_right : t.service_rights ≡ one_if (is_some c.service_port)
  pub no_entry : t.entry_rights ≡ 0
  pub one_mapping : t.mappings ≡ one_if (has_mapping c)

-- A client between two calls is connected, with its port and its memory, or has nothing.
pub record IsReady (c : Client) : Type 0 where
  pub has_port : is_some c.service_port ≡ c.connected
  pub has_memory : is_some c.shared_memory ≡ c.connected
  pub is_mapped : has_mapping c ≡ c.connected

module _ {S : Type 0} (l : Layout) (exchange : S → Request → Option Answer × S) where
  -- What a link has after a call that drops the connection.
  record Dropped (k : Link S) : Type 0 where
    nothing : k.client ≡ blank_client
    balanced : IsBalanced k.client k.task

  -- What a call of connect leaves.
  abbrev Connected : Bool × Link S → Type 0
  Connected (ok, k) = IsBalanced k.client k.task × IsReady k.client × (k.client.connected ≡ ok)

  -- A link that has its port and a memory entry, and no mapping.
  record IsAnswered (k : Link S) : Type 0 where
    port : is_some k.client.service_port ≡ true
    on : k.client.connected ≡ true
    no_address : k.client.mapping_address ≡ 0
    one_right : k.task.service_rights ≡ 1
    one_entry : k.task.entry_rights ≡ 1
    no_mapping : k.task.mappings ≡ 0

  -- A link with nothing but one right to the port.
  record IsHeld (k : Link S) : Type 0 where
    blank : k.client ≡ blank_client
    one_right : k.task.service_rights ≡ 1
    no_entry : k.task.entry_rights ≡ 0
    no_mapping : k.task.mappings ≡ 0
