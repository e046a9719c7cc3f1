-- ===== src/Utilization/Tests.antt =====
-- A signal that is busy from 3 to 12, over intervals of 5.
use basic_sim.Prelude.{◌≡◌, true, false, List, [], ◌∷◌, arith}
use basic_sim.Prelude.Results.{ok}
use basic_sim.Utilization.{NetDeviceUtilizationTracker}
use basic_sim.Utilization.Finalize.{
  Event, measure, signal, IsOrdered, IsMeasured, measure-IsMeasured,
}

abbrev burst : List Event
burst = (true, 3) ∷ (false, 12) ∷ []

burst-IsOrdered : IsOrdered 0 burst 17
burst-IsOrdered = (omega arith, (omega arith, omega arith))

measure-IsMeasured_example :
    (s : NetDeviceUtilizationTracker) × (measure 5 burst 17 ≡ ok s)
    × IsMeasured 5 (signal 0 false burst 17) 17 s
measure-IsMeasured_example = measure-IsMeasured 5 burst 17 (omega arith) burst-IsOrdered
