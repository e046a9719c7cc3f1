-- ===== src/Scheduler.antt =====
-- helper/apps/tcp-flow-scheduler.cc, udp-burst-scheduler.cc, udp-ping-scheduler.cc: what the three
-- schedulers of applications share. Which part of the schedule is for this system, which ids are
-- logged, and the chain of starts, where each start schedules the next. What a start installs is an
-- argument. The wall clock, by the label of the timestamp that reads it, is an argument. File names are
-- left out. The simulator calls an event at its time and asserts that a delay is not negative.
-- Indices are below 2 ^ 31.
pub mod Starts
pub mod TcpFlows
pub mod UdpBursts
pub mod UdpPings
mod Tests
use basic_sim.Prelude.{
  ℕ, zero, suc, Bool, true, false, not, ◌&&◌, List, [], ◌∷◌, ◌++◌, Option, none, some,
  if◌then◌else◌, ◌==◌, length, is_nil,
}
use basic_sim.Prelude.Int.{ℤ, pos, ltb_ℤ, eqb_ℤ, ◌-ℤ◌, ◌+ℤ◌, int_ord}
use basic_sim.Prelude.Text.{Bytes, codes, bytes_beq}
use basic_sim.Prelude.Results.{
  Result, ok, err, invalid_argument, abort, out_of_fuel, guard, ◌>>=◌, ◌>>◌,
}
use basic_sim.Containers.SortedSet.{insert}
use basic_sim.ExpUtil.Collections.{at_index, parse_set_positive_int64}
use basic_sim.ExpUtil.Numbers.{parse_boolean}
use basic_sim.ExpUtil.Config.{File}
use basic_sim.BasicSimulation.{
  BasicSimulation, Call, is_node_assigned_to_this_system, get_config_param_or_default,
  get_config_param_or_fail,
}
use basic_sim.Schedule.{Reader, read_schedule}

-- The ids `n`, `n + 1`, ..., `count` of them.
abbrev pub ids_from : ℕ → ℕ → List ℤ
ids_from n zero = []
ids_from n (suc count) = pos n ∷ ids_from (suc n) count

-- The ids to log must be those of entries.
unfoldable pub check_logging_ids : ℕ → List ℤ → Result (Unit {0})
check_logging_ids size [] = ok tt
check_logging_ids size (id ∷ ids) =
    guard (not (ltb_ℤ id (pos 0)) && ltb_ℤ id (pos size)) invalid_argument
    >> check_logging_ids size ids

unfoldable pub logging_ids : Bytes → ℕ → Result (List ℤ)
unfolding check_logging_ids
logging_ids enable_for_ids_str size = do
  ids ←
      (if bytes_beq enable_for_ids_str (codes "all")
        then ok (ids_from 0 size)
        else parse_set_positive_int64 enable_for_ids_str)
  check_logging_ids size ids
  ok ids

module _ {E : Type 0} (from_of : E → ℤ) where
  -- The entries that start at a node of this system.
  unfoldable pub local_entries : BasicSimulation → List E → Result (List E)
  local_entries s [] = ok []
  local_entries s (x ∷ xs) = do
    b ← is_node_assigned_to_this_system (from_of x) s
    rest ← local_entries s xs
    ok (if b then x ∷ rest else rest)

  unfoldable pub filter_schedule : BasicSimulation → List E → Result (List E)
  unfolding local_entries
  filter_schedule s complete_schedule =
      if s.enable_distributed then local_entries s complete_schedule else ok complete_schedule

-- Whether the scheduler is enabled.
unfoldable pub ask_enabled : Bytes → BasicSimulation → Call Bool
ask_enabled key s = do
  e ← get_config_param_or_default key (codes "false") s
  enabled ← parse_boolean e.0
  ok (enabled, e.1)

-- A constructor whose scheduler is set up only if it is enabled.
unfoldable pub if_enabled :
    {A : Type 0} → Bytes → (BasicSimulation → Call A) → BasicSimulation → Call (Option A)
unfolding ask_enabled
if_enabled key next s = do
  e ← ask_enabled key s
  if e.0 then (do r ← next e.1; ok (some r.0, r.1)) else ok (none, e.1)

unfoldable pub ask_logging_ids : Bytes → ℕ → BasicSimulation → Call (List ℤ)
unfolding logging_ids
ask_logging_ids key size s = do
  l ← get_config_param_or_default key (codes "set()") s
  ids ← logging_ids l.0 size
  ok (ids, l.1)

-- The schedule of the file that the configuration names, in the run directory.
unfoldable pub ask_schedule :
    {valid : ℤ → Bool} {end_time : ℤ} {E : Type 0}
    → Reader valid end_time E
    → (Bytes → File)
    → Bytes
    → BasicSimulation
    → Call (List E)
ask_schedule r file_in_run_dir key s = do
  f ← get_config_param_or_fail key s
  complete_schedule ← read_schedule r (file_in_run_dir f.0)
  ok (complete_schedule, f.1)

-- The endpoints of this system, which get a server each.
unfoldable pub local_endpoints : BasicSimulation → List ℤ → Result (List ℤ)
unfolding filter_schedule
local_endpoints = filter_schedule (λ endpoint. endpoint)

module _ {E A : Type 0} (start_of : E → ℤ) (install : ℤ → E → Result A) (schedule : List E) where
  -- Schedule the start of the entry at an index, from the time `now`.
  unfoldable pub next_start : ℕ → ℤ → Result (Option (ℤ × ℕ))
  next_start i now_ns = if i == length schedule then ok none else (do
    next ← at_index schedule i
    guard (not (ltb_ℤ (start_of next -ℤ now_ns) (pos 0))) abort
    ok (some (now_ns +ℤ (start_of next -ℤ now_ns), i)))

  -- Start the entry at an index; the applications so far get one more.
  unfoldable pub start_next : ℕ → ℤ → List A → Result (List A × Option (ℤ × ℕ))
  unfolding next_start
  start_next i now_ns apps = do
    entry ← at_index schedule i
    guard (eqb_ℤ now_ns (start_of entry)) abort
    app ← install now_ns entry
    next ← next_start (suc i) now_ns
    ok (apps ++ app ∷ [], next)

  -- The simulator calls what is scheduled, until nothing is.
  unfoldable pub run_starts : ℕ → Option (ℤ × ℕ) → List A → Result (List A)
  unfolding start_next
  run_starts fuel none apps = ok apps
  run_starts zero (some event) apps = err out_of_fuel
  run_starts (suc fuel) (some event) apps = do
    r ← start_next event.1 event.0 apps
    run_starts fuel r.1 r.0

  unfoldable pub start_all : Result (List A)
  unfolding run_starts
  start_all = do first ← next_start 0 (pos 0); run_starts (length schedule) first []
