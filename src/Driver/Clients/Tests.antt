-- ===== src/Driver/Clients/Tests.antt =====
-- Runs of the device's clients on concrete calls.
use numark_ns6_mac_arm.Driver.Clients.{
  start, start_io, remove_client, stop_io, stop, first_client_started, remove_in,
  additional_client_started, is_entry_of, empty, remove_io, stop_in, client_stopped_still_active,
  last_client_stopped, occupy, client_not_active, start_again,
}
use numark_ns6_mac_arm.Driver.Clients.Balance.{starts_of}
use numark_ns6_mac_arm.Driver.Clients.Ledger.{
  run, Call, IsConsistent, call_start, call_remove, Step, perform-Step, call_stop,
  empty-IsConsistent, calls-IsConsistent, tally, perform,
}
use numark_ns6_mac_arm.Prelude.{ℕ, ◌≡◌, refl, List, [], ◌∷◌}

abbrev some_calls : List Call
some_calls =
    call_start 7
    ∷ call_start 9
    ∷ call_start 7
    ∷ call_stop 7
    ∷ call_remove 7
    ∷ call_stop 7
    ∷ call_stop 9
    ∷ []

answers_so :
    (run empty some_calls).0
    ≡ first_client_started ∷ additional_client_started ∷ additional_client_started
      ∷ client_stopped_still_active ∷ client_stopped_still_active ∷ client_not_active
      ∷ last_client_stopped ∷ []
unfolding run perform empty start_io stop_io remove_io start stop remove_client start_again occupy
    stop_in remove_in is_entry_of
answers_so = refl

calls-IsConsistent_example :
    IsConsistent (run empty some_calls).1
    × ((j : ℕ)
        → starts_of j (run empty some_calls).1.clients
          ≡ tally j some_calls (run empty some_calls).0 0)
calls-IsConsistent_example = calls-IsConsistent some_calls

perform-Step_example : Step empty (call_start 7) (perform empty (call_start 7))
perform-Step_example = perform-Step empty (call_start 7) empty-IsConsistent
