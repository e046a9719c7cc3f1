-- ===== src/BasicSimulation.antt =====
-- model/core/basic-simulation.cc: the configuration that a run asks for, the distribution over systems
-- and the timestamps. What MPI tells, the wall clock and the file system are arguments; what is
-- printed, the progress output and the random seed of ns-3 are left out.
pub mod Requests
pub mod Systems
mod Tests
use basic_sim.Prelude.{
  ℕ, zero, suc, ◌%◌, ◌^◌, Bool, true, false, not, ◌&&◌, ◌||◌, List, [], ◌∷◌, ◌++◌, if◌then◌else◌,
  ◌==◌, All, Option, none, some,
}
use basic_sim.Prelude.Int.{ℤ, pos, negsuc, ltb_ℤ, eqb_ℤ, ◌-ℤ◌, pos_part}
use basic_sim.Prelude.Text.{Bytes, codes, bytes_beq, bytes_ord}
use basic_sim.Prelude.Results.{
  Result, ok, err, invalid_argument, runtime_error, out_of_range, guard, ◌>>=◌, ◌>>◌,
}
use basic_sim.Containers.SortedSet.{member, insert}
use basic_sim.Containers.SortedMap.{keys}
use basic_sim.ExpUtil.Numbers.{parse_positive_int64, parse_boolean}
use basic_sim.ExpUtil.Collections.{at_index, parse_list_positive_int64}
use basic_sim.ExpUtil.Config.{Config, File, read_config, get_param_or_fail, get_param_or_default}

pub record BasicSimulation : Type 0 where
  pub config : Config
  pub config_requested_keys : List Bytes
  pub simulation_seed : ℤ
  pub simulation_end_time_ns : ℤ
  pub enable_distributed : Bool
  pub system_id : ℕ
  pub systems_count : ℕ
  pub distributed_node_system_id_assignment : List ℤ
  pub timestamps : List (Bytes × ℤ)

-- A call of a method: what it returns and the state behind it. An exception ends the program.
abbrev pub Call : Type 0 → Type 0
Call A = Result (A × BasicSimulation)

abbrev pub request : Bytes → BasicSimulation → BasicSimulation
request key s = record s { config_requested_keys = insert key s.config_requested_keys }

unfoldable pub get_config_param_or_fail : Bytes → BasicSimulation → Call Bytes
get_config_param_or_fail key s = do
  value ← get_param_or_fail key s.config
  ok (value, request key s)

unfoldable pub get_config_param_or_default : Bytes → Bytes → BasicSimulation → Call Bytes
get_config_param_or_default key default_value s =
    ok (get_param_or_default key default_value s.config, request key s)

unfoldable pub register_timestamp : Bytes → ℤ → BasicSimulation → BasicSimulation
register_timestamp label now_ns s = record s { timestamps = s.timestamps ++ (label, now_ns) ∷ [] }

-- The timestamp of a stage, with the wall clock at the time of each label.
unfoldable pub stamp : (Bytes → ℤ) → Bytes → BasicSimulation → BasicSimulation
unfolding register_timestamp
stamp clock label s = register_timestamp label (clock label) s

-- The run directory has the file of the configuration.
unfoldable pub read_config_file : File → BasicSimulation → Result BasicSimulation
unfolding get_config_param_or_fail
read_config_file file s = do
  config ← read_config file
  a ← get_config_param_or_fail (codes "simulation_end_time_ns") (record s { config = config })
  simulation_end_time_ns ← parse_positive_int64 a.0
  b ←
      get_config_param_or_fail (codes "simulation_seed")
        (record a.1 { simulation_end_time_ns = simulation_end_time_ns })
  simulation_seed ← parse_positive_int64 b.0
  ok (record b.1 { simulation_seed = simulation_seed })

-- Each node must be assigned to one of the systems.
unfoldable pub check_assignment : ℕ → List ℤ → Result (Unit {0})
check_assignment systems_count [] = ok tt
check_assignment systems_count (a ∷ as') =
    guard (not (ltb_ℤ a (pos 0) || not (ltb_ℤ a (pos systems_count)))) invalid_argument
    >> check_assignment systems_count as'

unfoldable pub check_implementation_type : Bytes → Result (Unit {0})
check_implementation_type t =
    if bytes_beq t (codes "nullmsg")
    then ok tt
    else if bytes_beq t (codes "default")
    then ok tt
    else err runtime_error

-- The distributed part of `ConfigureSimulation`; MPI gives the id of this system and the count.
unfoldable pub configure_distributed : ℕ → ℕ → BasicSimulation → Result BasicSimulation
unfolding check_assignment check_implementation_type get_config_param_or_fail
configure_distributed mpi_system_id mpi_size s = do
  t ← get_config_param_or_fail (codes "distributed_simulator_implementation_type") s
  check_implementation_type t.0
  c ← get_config_param_or_fail (codes "distributed_systems_count") t.1
  config_systems_count ← parse_positive_int64 c.0
  guard (mpi_size == pos_part config_systems_count % 2 ^ 32) runtime_error
  a ← get_config_param_or_fail (codes "distributed_node_system_id_assignment") c.1
  assignment ← parse_list_positive_int64 a.0
  check_assignment mpi_size assignment
  ok (record a.1 {
    enable_distributed = true;
    system_id = mpi_system_id;
    systems_count = mpi_size;
    distributed_node_system_id_assignment = assignment;
  })

-- Without distribution there is one system.
unfoldable pub configure_systems : Bool → ℕ → ℕ → BasicSimulation → Result BasicSimulation
unfolding configure_distributed
configure_systems true mpi_system_id mpi_size s = configure_distributed mpi_system_id mpi_size s
configure_systems false mpi_system_id mpi_size s = ok (record s {
  enable_distributed = false;
  system_id = 0;
  systems_count = 1;
  distributed_node_system_id_assignment = [];
})

unfoldable pub configure_simulation : ℤ → ℕ → ℕ → BasicSimulation → Result BasicSimulation
unfolding configure_systems get_config_param_or_default register_timestamp
configure_simulation now_ns mpi_system_id mpi_size s = do
  e ← get_config_param_or_default (codes "enable_distributed") (codes "false") s
  enable_distributed ← parse_boolean e.0
  s' ← configure_systems enable_distributed mpi_system_id mpi_size e.1
  ok (register_timestamp (codes "Configure simulator") now_ns s')

-- Every key of the configuration must have been asked for.
unfoldable pub confirm_keys : List Bytes → List Bytes → Result (Unit {0})
confirm_keys [] requested = ok tt
confirm_keys (key ∷ ks) requested =
    guard (member key requested) runtime_error >> confirm_keys ks requested

unfoldable pub confirm_all_config_param_keys_requested : BasicSimulation → Result (Unit {0})
unfolding confirm_keys
confirm_all_config_param_keys_requested s = confirm_keys (keys s.config) s.config_requested_keys

unfoldable pub get_system_id : BasicSimulation → Result ℕ
get_system_id s = do guard s.enable_distributed runtime_error; ok s.system_id

unfoldable pub get_systems_count : BasicSimulation → Result ℕ
get_systems_count s = do guard s.enable_distributed runtime_error; ok s.systems_count

-- `vector::at` at an int64; a negative one is a large size_t.
abbrev pub at_int64 {ℓ} : {A : Type ℓ} → List A → ℤ → Result A
at_int64 xs (pos i) = at_index xs i
at_int64 xs (negsuc i) = err out_of_range

unfoldable pub is_node_assigned_to_this_system : ℤ → BasicSimulation → Result Bool
is_node_assigned_to_this_system node_id s = do
  guard s.enable_distributed runtime_error
  a ← at_int64 s.distributed_node_system_id_assignment node_id
  ok (eqb_ℤ a (pos s.system_id))

-- The lines of the timing results: each timestamp behind the first, with the time since the one
-- before. The first is told by a time of -1 before it.
unfoldable pub timing_lines : ℤ → List (Bytes × ℤ) → List (Bytes × ℤ)
timing_lines t_prev [] = []
timing_lines t_prev ((label, t) ∷ ts) =
    let rest = timing_lines t ts in
    if eqb_ℤ t_prev (negsuc 0) then rest else (label, t -ℤ t_prev) ∷ rest

unfoldable pub store_timing_results : BasicSimulation → List (Bytes × ℤ)
unfolding timing_lines
store_timing_results s = timing_lines (negsuc 0) s.timestamps
