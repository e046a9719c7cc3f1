-- ===== src/LinkTracking.antt =====
-- helper/core/ptop-link-net-device-utilization-tracking.cc: which links are tracked, and the lines
-- that are written of the intervals of a tracker. The files ptop-link-net-device-queue-tracking.cc and
-- ptop-link-interface-tc-qdisc-queue-tracking.cc choose their links in the same way. Whether the
-- utilizations of two intervals are approximately equal, a test of doubles, is an argument.
pub mod Compression
pub mod Queues
mod Tests
use basic_sim.Prelude.{
  ℕ, zero, suc, ◌+◌, ◌-◌, Bool, true, false, not, List, [], ◌∷◌, ◌++◌, if◌then◌else◌, map, Option,
}
use basic_sim.Prelude.Int.{ℤ, pos_part}
use basic_sim.Prelude.Text.{Bytes, codes, bytes_beq}
use basic_sim.Prelude.Results.{Result, ok, err, out_of_range, ◌>>=◌}
use basic_sim.ExpUtil.Collections.{parse_set_directed_pair_positive_int64}
use basic_sim.BasicSimulation.{
  BasicSimulation, Call, get_config_param_or_default, get_config_param_or_fail, stamp,
}
use basic_sim.Scheduler.{filter_schedule, if_enabled}
use basic_sim.Utilization.{Interval, NetDeviceUtilizationTracker, create}
use basic_sim.ExpUtil.Numbers.{parse_geq_one_int64}

-- The links that the configuration names, all of them by default, which start at a node of this
-- system.
unfoldable pub tracked_links : Bytes → List (ℤ × ℤ) → BasicSimulation → Call (List (ℤ × ℤ))
unfolding filter_schedule
tracked_links key links_set s = do
  e ← get_config_param_or_default key (codes "all") s
  enable_for_links_set ←
      (if bytes_beq e.0 (codes "all")
        then ok links_set
        else parse_set_directed_pair_positive_int64 e.0)
  links ← filter_schedule (λ (p : ℤ × ℤ). p.0) e.1 enable_for_links_set
  ok (links, e.1)

-- The constructor of an enabled helper: the trackers of the links.
unfoldable pub set_up :
    (Bytes → ℤ)
    → List (ℤ × ℤ)
    → BasicSimulation
    → Call (List ((ℤ × ℤ) × NetDeviceUtilizationTracker))
unfolding tracked_links stamp get_config_param_or_fail
set_up clock links_set s = do
  i ← get_config_param_or_fail (codes "link_net_device_utilization_tracking_interval_ns") s
  interval_ns ← parse_geq_one_int64 i.0
  links ←
      tracked_links (codes "link_net_device_utilization_tracking_enable_for_links") links_set i.1
  ok (
    map (λ link. (link, create (pos_part interval_ns))) links.0,
    stamp clock (codes "Remove previous utilization tracking log files")
        (stamp clock (codes "Install utilization trackers") links.1),
  )

unfoldable pub construct :
    (Bytes → ℤ)
    → List (ℤ × ℤ)
    → BasicSimulation
    → Call (Option (List ((ℤ × ℤ) × NetDeviceUtilizationTracker)))
unfolding set_up if_enabled
construct clock links_set =
    if_enabled (codes "enable_link_net_device_utilization_tracking") (set_up clock links_set)

module _ (approximately_equal : Interval → Interval → Bool) where
  -- The loop over the intervals, with the left side of the line to come and the busy time since. A line
  -- is written of the last interval, and where the next interval is not approximately equal.
  unfoldable pub compressed_lines : ℕ → ℕ → List Interval → List Interval
  compressed_lines interval_left_side_ns running_busy_sum_ns [] = []
  compressed_lines interval_left_side_ns running_busy_sum_ns (x ∷ []) =
      record { start = interval_left_side_ns; end = x.end; busy = running_busy_sum_ns + x.busy }
      ∷ []
  compressed_lines interval_left_side_ns running_busy_sum_ns (x ∷ y ∷ xs) =
      let written = compressed_lines x.end 0 (y ∷ xs) in
      let merged = compressed_lines interval_left_side_ns (running_busy_sum_ns + x.busy) (y ∷ xs) in
      if approximately_equal x y
      then merged
      else record {
        start = interval_left_side_ns;
        end = x.end;
        busy = running_busy_sum_ns + x.busy;
      }
        ∷ written

-- The whole busy time, for the summary.
unfoldable pub busy_sum : List Interval → ℕ
busy_sum [] = 0
busy_sum (x ∷ xs) = x.busy + busy_sum xs

-- `intervals.at(intervals.size() - 1)`: without an interval the index is out of range.
unfoldable pub last_end : List Interval → Result ℕ
last_end [] = err out_of_range
last_end (x ∷ []) = ok x.end
last_end (x ∷ y ∷ xs) = last_end (y ∷ xs)

-- What is written of one tracker: the lines as they are, the compressed ones, and the busy time and
-- the end for the summary.
pub record LinkReport : Type 0 where
  pub plain : List Interval
  pub compressed : List Interval
  pub utilization_busy_sum_ns : ℕ
  pub end : ℕ

unfoldable pub write_link : (Interval → Interval → Bool) → List Interval → Result LinkReport
unfolding compressed_lines busy_sum last_end
write_link approximately_equal intervals = do
  end ← last_end intervals
  ok (record {
    plain = intervals;
    compressed = compressed_lines approximately_equal 0 0 intervals;
    utilization_busy_sum_ns = busy_sum intervals;
    end = end;
  })
