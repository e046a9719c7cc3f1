-- ===== src/QueueTracker/Tests.antt =====
-- Callbacks of both measures, in turns.
use basic_sim.Prelude.{◌≡◌, refl, List, [], ◌∷◌}
use basic_sim.Prelude.Int.{ℤ, pos}
use basic_sim.Prelude.Results.{Result, ok, ◌>>=◌}
use basic_sim.LogUpdate.{Entry, create, update, finalize}
use basic_sim.QueueTracker.{
  Event, packets, bytes, create_tracker, callbacks, get_intervals_num_packets,
}

abbrev events : List Event
events = packets 2 1 ∷ bytes 2 1500 ∷ packets 4 0 ∷ bytes 4 0 ∷ []

abbrev packets_log : Result (List (Entry ℤ))
packets_log = do
  start ← create_tracker
  s ← callbacks events start
  log ← get_intervals_num_packets 9 s
  ok log.log_time_value

packets_log_test :
    packets_log
    ≡ ok (
        record { left = pos 0; right = pos 2; value = pos 0 }
        ∷ record { left = pos 2; right = pos 4; value = pos 1 }
        ∷ record { left = pos 4; right = pos 9; value = pos 0 }
        ∷ [])
unfolding create_tracker callbacks get_intervals_num_packets create update finalize
packets_log_test = refl
