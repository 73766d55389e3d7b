-- ===== src/Metrics/Report.antt =====
-- Reports of the I/O statistics (coreaudio/NS6IOMetrics.c): each tells what has been counted for a client
-- since the one before.
use mathlib.Core.Option
use numark_ns6_mac_arm.Metrics.{Snapshot, ClientMetrics}
use numark_ns6_mac_arm.Metrics.Counting.{Tells, Cleared}
use numark_ns6_mac_arm.Prelude.{Option, none, some, List, [], ◌∷◌, if◌then◌else◌, ◌==◌}

-- The slots that belong to a client.
unfoldable pub in_use : List ClientMetrics → List ClientMetrics
in_use [] = []
in_use (s ∷ ss) = let rest = in_use ss in if s.client_key == 0 then rest else s ∷ rest

-- The snapshots tell of the slots one by one.
abbrev pub AllTell : List ClientMetrics → List Snapshot → Type 0
AllTell [] [] = Unit {0}
AllTell [] (t ∷ ts) = ⊥
AllTell (s ∷ ss) [] = ⊥
AllTell (s ∷ ss) (t ∷ ts) = Tells s t × AllTell ss ts

-- The slot of a client before and behind a snapshot.
abbrev pub IsCleared : Option ClientMetrics → Option ClientMetrics → Type 0
IsCleared none none = Unit {0}
IsCleared none (some t) = ⊥
IsCleared (some s) none = ⊥
IsCleared (some s) (some t) = Cleared s t
