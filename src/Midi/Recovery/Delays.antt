-- ===== src/Midi/Recovery/Delays.antt =====
-- The delays between attempts at recovery (coreaudio/NS6MIDIRecovery.h).
use numark_ns6_mac_arm.Midi.Recovery.{backoff_ms}
use numark_ns6_mac_arm.Prelude.{ℕ, zero, suc, ◌+◌, ◌*◌, ◌≤◌, ◌<◌, ◌≡◌, refl, arith}

backoff_doubles : (n : ℕ) → 0 < n → n < 5 → backoff_ms (n + 1) ≡ 2 * backoff_ms n
unfolding backoff_ms
backoff_doubles zero pos_n lt = absurd (omega arith)
backoff_doubles (suc zero) pos_n lt = refl
backoff_doubles (suc (suc zero)) pos_n lt = refl
backoff_doubles (suc (suc (suc zero))) pos_n lt = refl
backoff_doubles (suc (suc (suc (suc zero)))) pos_n lt = refl
backoff_doubles (suc (suc (suc (suc (suc n))))) pos_n lt = absurd (omega arith)

backoff_bounds : (n : ℕ) → (backoff_ms n ≤ 1000) × (backoff_ms n ≤ backoff_ms (n + 1))
unfolding backoff_ms
backoff_bounds zero = omega arith
backoff_bounds (suc zero) = omega arith
backoff_bounds (suc (suc zero)) = omega arith
backoff_bounds (suc (suc (suc zero))) = omega arith
backoff_bounds (suc (suc (suc (suc zero)))) = omega arith
backoff_bounds (suc (suc (suc (suc (suc zero))))) = omega arith
backoff_bounds (suc (suc (suc (suc (suc (suc n)))))) = ground arith

-- The first attempt does not wait, the next waits 50 ms, each up to the fifth waits twice as long as
-- the one before, and none waits less than the one before or longer than a second.
pub backoff_lem :
    (n : ℕ)
    → (backoff_ms 0 ≡ 0)
      × (backoff_ms 1 ≡ 50)
      × (0 < n → n < 5 → backoff_ms (n + 1) ≡ 2 * backoff_ms n)
      × (backoff_ms n ≤ backoff_ms (n + 1))
      × (backoff_ms n ≤ 1000)
backoff_lem n = (
  unfold backoff_ms in refl,
  unfold backoff_ms in refl,
  backoff_doubles n,
  (backoff_bounds n).1,
  (backoff_bounds n).0,
)
