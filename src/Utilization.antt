-- ===== src/Utilization.antt =====
-- model/core/net-device-utilization-tracker.cc: how long a device was busy in each interval.
-- Times are nanoseconds since the start. The simulator's clock, `Simulator::Now()`, is the argument
-- `now_ns` of each call and never falls; then each difference below is of a larger and a smaller
-- time, so that subtraction on ℕ is the source's. The loop over the intervals takes fuel.
pub mod Busy
pub mod Invariant
pub mod Finalize
mod Tests
use basic_sim.Prelude.{
  ℕ, zero, suc, ◌+◌, ◌-◌, ◌≡◌, Bool, true, false, not, List, [], ◌∷◌, ◌++◌, ltb, leb, ◌==◌,
  if◌then◌else◌,
}
use basic_sim.Prelude.Results.{Result, ok, err, abort, guard, ◌>>=◌, ◌>>◌}

-- `std::tuple<int64_t, int64_t, int64_t>`: from, to, and the busy time between.
pub record Interval : Type 0 where
  pub start : ℕ
  pub end : ℕ
  pub busy : ℕ

pub record NetDeviceUtilizationTracker : Type 0 where
  pub interval_ns : ℕ
  pub prev_time_ns : ℕ
  pub current_interval_start : ℕ
  pub current_interval_end : ℕ
  pub idle_time_counter_ns : ℕ
  pub busy_time_counter_ns : ℕ
  pub current_state_is_on : Bool
  pub intervals : List Interval

unfoldable pub create : ℕ → NetDeviceUtilizationTracker
create interval_ns = record {
  interval_ns = interval_ns;
  prev_time_ns = 0;
  current_interval_start = 0;
  current_interval_end = interval_ns;
  idle_time_counter_ns = 0;
  busy_time_counter_ns = 0;
  current_state_is_on = false;
  intervals = [];
}

-- Count the time up to `time`: what went before a change to "on" was idle, else busy.
unfoldable pub count_until : Bool → ℕ → NetDeviceUtilizationTracker → NetDeviceUtilizationTracker
count_until true time s = record s {
  idle_time_counter_ns = s.idle_time_counter_ns + (time - s.prev_time_ns);
}
count_until false time s = record s {
  busy_time_counter_ns = s.busy_time_counter_ns + (time - s.prev_time_ns);
}

-- Save the current interval and move to the next.
unfoldable pub save_interval : NetDeviceUtilizationTracker → NetDeviceUtilizationTracker
save_interval s = record s {
  intervals =
      s.intervals
      ++ record {
        start = s.current_interval_start;
        end = s.current_interval_end;
        busy = s.busy_time_counter_ns;
      }
        ∷ [];
  idle_time_counter_ns = 0;
  busy_time_counter_ns = 0;
  prev_time_ns = s.current_interval_end;
  current_interval_start = s.current_interval_start + s.interval_ns;
  current_interval_end = s.current_interval_end + s.interval_ns;
}

-- The body of the loop: the current interval is complete. The assertion aborts.
unfoldable pub end_interval :
    Bool → NetDeviceUtilizationTracker → Result NetDeviceUtilizationTracker
end_interval next_state_is_on s = do
  let c = count_until next_state_is_on s.current_interval_end s
  guard (c.idle_time_counter_ns + c.busy_time_counter_ns == c.interval_ns) abort
  ok (save_interval c)

-- `while (now_ns >= m_current_interval_end)`.
unfoldable pub end_intervals :
    ℕ → Bool → ℕ → NetDeviceUtilizationTracker → Result NetDeviceUtilizationTracker
end_intervals zero next now_ns s = ok s
end_intervals (suc fuel) next now_ns s = elim (leb s.current_interval_end now_ns) [
  | true ↦ end_interval next s >>= λ s'. end_intervals fuel next now_ns s'
  | false ↦ ok s
]

-- Each round moves the end by at least one, so `now_ns + 1` rounds are enough.
unfoldable pub track_utilization :
    Bool → ℕ → NetDeviceUtilizationTracker → Result NetDeviceUtilizationTracker
track_utilization next now_ns s = do
  s' ← end_intervals (suc now_ns) next now_ns s
  ok (record (count_until next now_ns s') { current_state_is_on = next; prev_time_ns = now_ns })

-- The trace callbacks.
unfoldable pub phy_tx_begin : ℕ → NetDeviceUtilizationTracker → Result NetDeviceUtilizationTracker
phy_tx_begin now_ns s = track_utilization true now_ns s

unfoldable pub phy_tx_end : ℕ → NetDeviceUtilizationTracker → Result NetDeviceUtilizationTracker
phy_tx_end now_ns s = track_utilization false now_ns s

-- Also the interval that is not complete is saved.
unfoldable pub save_partial : ℕ → NetDeviceUtilizationTracker → NetDeviceUtilizationTracker
save_partial now_ns s = if now_ns == s.current_interval_start then s else record s {
  intervals =
      s.intervals
      ++ record { start = s.current_interval_start; end = now_ns; busy = s.busy_time_counter_ns }
        ∷ [];
}

-- The result is the field `intervals` of the state that is returned.
unfoldable pub finalize_utilization :
    ℕ → NetDeviceUtilizationTracker → Result NetDeviceUtilizationTracker
finalize_utilization now_ns s = do
  s' ← track_utilization (not s.current_state_is_on) now_ns s
  ok (save_partial now_ns s')
