-- ===== src/Accounting/Tests.antt =====
-- The counters (coreaudio/NS6IOClientAccounting.h) with two tracked clients and one that is not.
use numark_ns6_mac_arm.Accounting.{
  Call, needs_service_activation, calls, account_start, account_remove, account_untracked_start,
  account_stop, start_io, call, remove_client, Ledger, stop_io,
}
use numark_ns6_mac_arm.Accounting.Balance.{calls_lem}
use numark_ns6_mac_arm.Prelude.{◌+◌, ◌≡◌, refl, ◌↔◌, true, List, [], ◌∷◌, arith}
use numark_ns6_mac_arm.Threads.{inside}

abbrev quiet : Ledger
quiet = record { clients = 0 ∷ 0 ∷ []; untracked = 0; active = 0 }

abbrev script : List Call
script = start_io 0 ∷ start_io 5 ∷ start_io 0 ∷ stop_io 1 ∷ remove_client 0 ∷ []

-- The second client has no start of its own, so its stop takes one of the client that is not tracked.
after_script : calls quiet script ≡ quiet
unfolding calls call account_start account_untracked_start account_stop account_remove
after_script = refl

calls_lem_example :
    let l' = calls quiet script in
    (l'.active ≡ inside (λ n. n) l'.clients + l'.untracked)
    × ((needs_service_activation l'.active ≡ true)
        ↔ ((inside (λ n. n) l'.clients ≡ 0) × (l'.untracked ≡ 0)))
calls_lem_example = calls_lem quiet script refl (omega arith)
