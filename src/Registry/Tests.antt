-- ===== src/Registry/Tests.antt =====
-- The client table (coreaudio/NS6DeviceClientRegistry.h) with two clients of one process and one of
-- another.
use numark_ns6_mac_arm.Prelude.{◌≡◌, refl, true, false, List, [], ◌∷◌}
use numark_ns6_mac_arm.Prelude.Int.{pos}
use numark_ns6_mac_arm.Registry.{free_slot, take_free, renew, has_slot, attach, Lease}
use numark_ns6_mac_arm.Registry.View.{IsDistinct}

abbrev one : Lease
one = record { client_id = 1; process_id = pos 10; audio_active = true }

abbrev two : Lease
two = record { client_id = 2; process_id = pos 20; audio_active = false }

abbrev three : Lease
three = record { client_id = 3; process_id = pos 10; audio_active = false }

abbrev table : List Lease
table = one ∷ two ∷ three ∷ free_slot ∷ []

table-IsDistinct : IsDistinct table
unfolding has_slot
table-IsDistinct = ((λ _. refl), ((λ _. refl), ((λ _. refl), ((λ _. refl), tt))))

attached_four : (attach table 4 (pos 30)).0 ≡ true
unfolding attach renew take_free
attached_four = refl
