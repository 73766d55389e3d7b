-- ===== src/Mapping/Safety.antt =====
-- No thread of the HAL plug-in uses a mapping that the owner has withdrawn
-- (coreaudio/NS6HALMapping.h).
-- The memory that a thread may read and write.
use numark_ns6_mac_arm.Mapping.{
  outside, counted, draining, Reader, refused, published, System, leased, loaded,
}
use numark_ns6_mac_arm.Prelude.{ℕ, ◌≡◌, ◌⊎◌, Option, none, some}

abbrev pub memory_of : Reader → Option ℕ
memory_of outside = none
memory_of counted = none
memory_of (loaded p) = some p
memory_of (leased p s) = some p
memory_of refused = none

-- When a thread may use a memory.
abbrev pub MayUse : System → ℕ → Type 0
MayUse s p = (s.owner ≡ draining) ⊎ ((s.owner ≡ published) × (s.mapping.memory ≡ some p))
