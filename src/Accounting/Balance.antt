-- ===== src/Accounting/Balance.antt =====
-- The total of the starts is always the sum of its parts (coreaudio/NS6IOClientAccounting.h).
use numark_ns6_mac_arm.Accounting.{
  Call, account_stop, remove_client, account_remove, call, calls, account_untracked_start,
  starts_at, stop_io, Ledger, needs_service_activation, start_io, account_start,
}
use numark_ns6_mac_arm.Prelude.{
  ℕ, zero, suc, ◌+◌, ◌-◌, ◌^◌, ◌≤◌, ◌<◌, ◌≡◌, ◌↔◌, inl, inr, true, List, [], ◌∷◌, arith, Bool-cases,
  ltb, length, set,
}
use numark_ns6_mac_arm.Threads.{inside, inside-set, add_one}

abbrev total : List ℕ → ℕ
total ns = inside (λ n. n) ns

abbrev pub IsBalanced : Ledger → Type 0
IsBalanced l = l.active ≡ inside (λ n. n) l.clients + l.untracked

total_ge : (ns : List ℕ) (i : ℕ) → starts_at ns i ≤ total ns
total_ge [] i = omega arith
total_ge (n ∷ ns) zero = omega arith
total_ge (n ∷ ns) (suc i) = omega (arith, total_ge ns i)

total-set :
    (ns : List ℕ) (i n : ℕ) → i < length ns → total (set ns i n) + starts_at ns i ≡ total ns + n
total-set ns i n lt = inside-set (λ n. n) ns i 0 n lt

-- One call keeps the balance, and adds one start at most.
call-IsBalanced :
    (l : Ledger) (c : Call)
    → IsBalanced l
    → l.active + 1 < 2 ^ 32
    → IsBalanced (call l c) × ((call l c).active ≤ l.active + 1)
unfolding call account_start account_untracked_start account_stop account_remove
call-IsBalanced l (start_io i) b lt = elim (Bool-cases (ltb i (length l.clients))) [
  | inl e ↦ rw e (
      omega (
        arith,
        total_ge l.clients i,
        total-set l.clients i (add_one (starts_at l.clients i)) (ground arith),
      ))
  | inr e ↦ rw e (omega arith)
]
call-IsBalanced l (stop_io i) b lt = elim (Bool-cases (ltb i (length l.clients))) [
  | inl e ↦
      let here : i < length l.clients = ground arith in
      let one = total-set l.clients i (starts_at l.clients i - 1) here in
      let same = total-set l.clients i (starts_at l.clients i) here in
      let ge = total_ge l.clients i in rw e (ground (arith, one, same, ge))
  | inr e ↦ rw e (ground arith)
]
call-IsBalanced l (remove_client i) b lt = elim (Bool-cases (ltb i (length l.clients))) [
  | inl e ↦
      let here : i < length l.clients = ground arith in
      let gone = total-set l.clients i 0 here in
      let ge = total_ge l.clients i in rw e (ground (arith, gone, ge))
  | inr e ↦ rw e (omega arith)
]

calls-IsBalanced :
    (l : Ledger) (cs : List Call)
    → IsBalanced l
    → l.active + length cs < 2 ^ 32
    → IsBalanced (calls l cs)
unfolding calls
calls-IsBalanced l [] b lt = b
calls-IsBalanced l (c ∷ cs) b lt =
    let (b', le) = call-IsBalanced l c b (omega arith) in
    calls-IsBalanced (call l c) cs b' (omega arith)

-- From balanced counters, fewer calls of StartIO, StopIO and RemoveDeviceClient than an `unsigned` can
-- count, in any order and of any clients, tracked or not, leave the total equal to the starts of the
-- tracked clients and of the others; so the service is to be activated again exactly if none of them
-- is left.
pub calls_lem :
    (l : Ledger) (cs : List Call)
    → IsBalanced l
    → l.active + length cs < 2 ^ 32
    → let l' = calls l cs in
      (l'.active ≡ inside (λ n. n) l'.clients + l'.untracked)
      × ((needs_service_activation l'.active ≡ true)
          ↔ ((inside (λ n. n) l'.clients ≡ 0) × (l'.untracked ≡ 0)))
unfolding needs_service_activation
calls_lem l cs b lt =
    let b' = calls-IsBalanced l cs b lt in (b', ((λ e. ground arith), (λ z. ground arith)))
