-- ===== src/LinkTracking/Tests.antt =====
-- Four intervals of which the middle two are alike, and the queues of two links.
use basic_sim.Prelude.{◌≡◌, refl, Bool, ◌==◌, List, [], ◌∷◌, All, arith}
use basic_sim.Prelude.Int.{ℤ, pos}
use basic_sim.Prelude.Results.{ok, ◌>>=◌}
use basic_sim.LogUpdate.{Entry}
use basic_sim.QueueTracker.{Event, packets, bytes, packets_of, bytes_of}
use basic_sim.LinkTracking.Queues.{Link, observe, write_results, AreLines, write_results-observe}
use basic_sim.Utilization.{Interval}
use basic_sim.LinkTracking.{LinkReport, write_link, busy_sum}
use basic_sim.LinkTracking.Compression.{concat, lines_of, IsGroup, AreCut, write_link-groups}

-- Intervals of one length, compared by their busy time.
abbrev same_busy : Interval → Interval → Bool
same_busy x y = x.busy == y.busy

abbrev intervals : List Interval
intervals =
    record { start = 0; end = 10; busy = 10 }
    ∷ record { start = 10; end = 20; busy = 4 }
    ∷ record { start = 20; end = 30; busy = 4 }
    ∷ record { start = 30; end = 40; busy = 0 }
    ∷ []

abbrev report : LinkReport
report = record {
  plain = intervals;
  compressed =
      record { start = 0; end = 10; busy = 10 }
      ∷ record { start = 10; end = 30; busy = 8 }
      ∷ record { start = 30; end = 40; busy = 0 }
      ∷ [];
  utilization_busy_sum_ns = 18;
  end = 40;
}

write_link-intervals : write_link same_busy intervals ≡ ok report
unfolding write_link
write_link-intervals = refl

write_link-groups_example :
    (gs : List (List Interval)) × (concat gs ≡ intervals)
    × (report.compressed ≡ lines_of 0 gs)
    × All (IsGroup same_busy) gs
    × AreCut same_busy gs
    × (busy_sum report.compressed ≡ busy_sum intervals)
    × (report.utilization_busy_sum_ns ≡ busy_sum intervals)
write_link-groups_example = write_link-groups same_busy intervals report write_link-intervals

-- What two queues tell until the time 9.
abbrev observed : List (Link × List Event)
observed =
    ((pos 0, pos 1), packets 2 1 ∷ bytes 2 1500 ∷ packets 4 0 ∷ bytes 4 0 ∷ [])
    ∷ ((pos 1, pos 0), bytes 3 40 ∷ [])
    ∷ []

write_results-observe_example :
    (pkts : List (Link × Entry ℤ)) × (bytes' : List (Link × Entry ℤ)) × ((observe observed
        >>= write_results 9)
      ≡ ok (pkts, bytes'))
    × AreLines packets_of 9 observed pkts
    × AreLines bytes_of 9 observed bytes'
write_results-observe_example = write_results-observe observed 9 (
  (omega arith, (omega arith, (omega arith, (omega arith, omega arith)))),
  ((omega arith, omega arith), tt),
)
