-- ===== src/Driver/Packets/Tests.antt =====
-- The first policy, and one with two reports.
use numark_ns6_mac_arm.Driver.Packets.{Policy, is_report}
use numark_ns6_mac_arm.Driver.Packets.Millisecond.{packets_lem, packets}
use numark_ns6_mac_arm.Driver.Packets.Patterns.{IsPattern, sum, IsPlaying, Asked}
use numark_ns6_mac_arm.Driver.Packets.Queue.{queued, latest, IsQueue}
use numark_ns6_mac_arm.Driver.Packets.Requests.{
  milliseconds_lem, entry_of, observe_all_lem, Report, invalid, observe_all, milliseconds, heard,
  reported,
}
use numark_ns6_mac_arm.Driver.Packets.Start.{fresh, fresh-IsPlaying}
use numark_ns6_mac_arm.Prelude.{
  ◌≡◌, refl, true, List, [], ◌∷◌, ◌++◌, arith, Every, drop, replicate, take,
}

fresh-IsQueue : IsQueue fresh
fresh-IsQueue = record { slots = refl; read_lt = omega arith; count_le = omega arith }

packets_lem_example :
    IsPattern (packets 8 fresh).0
    × Asked fresh (sum (packets 8 fresh).0)
    × IsPlaying (packets 8 fresh).1
    × ((packets 8 fresh).1.pattern_index ≡ 0)
packets_lem_example = packets_lem fresh fresh-IsPlaying refl

abbrev some_reports : List Report
some_reports = reported 44 ∷ reported 60 ∷ invalid ∷ reported 45 ∷ []

observe_all_lem_example :
    IsQueue (observe_all fresh some_reports)
    × (queued (observe_all fresh some_reports) ≡ latest (queued fresh ++ heard some_reports))
observe_all_lem_example = observe_all_lem fresh some_reports fresh-IsQueue

heard_so : heard some_reports ≡ 44 ∷ 0 ∷ 45 ∷ []
unfolding heard entry_of is_report
heard_so = refl

-- Two reports wait.
abbrev waiting : Policy
waiting = record fresh { queue = 43 ∷ 46 ∷ replicate 30 0; queue_count = 2 }

waiting-IsPlaying : IsPlaying waiting
waiting-IsPlaying = record {
  rate = refl;
  pattern = fresh-IsPlaying.pattern;
  past = fresh-IsPlaying.past;
  past_size = fresh-IsPlaying.past_size;
  index = omega arith;
  fraction = omega arith;
}

waiting-valid : Every (λ r. is_report r ≡ true) (queued waiting)
unfolding is_report
waiting-valid = (refl, (refl, tt))

milliseconds_lem_example :
    (sum (milliseconds 2 waiting).0 ≡ sum (take 2 (queued waiting)))
    × (queued (milliseconds 2 waiting).1 ≡ drop 2 (queued waiting))
milliseconds_lem_example =
    milliseconds_lem 2 waiting waiting-IsPlaying
      (record { slots = refl; read_lt = omega arith; count_le = omega arith }) refl (omega arith)
      waiting-valid
