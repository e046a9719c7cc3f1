-- ===== src/BasicSimulation/Tests.antt =====
-- A simulation that is distributed over two systems, with three nodes.
use basic_sim.Prelude.{ℕ, ◌<◌, ◌≡◌, refl, true, ◌⊎◌, false, List, [], ◌∷◌, map, arith, ◌==◌, All}
use basic_sim.Prelude.Int.{pos}
use basic_sim.Prelude.Text.{codes, bytes_ord, bytes_beq, bytes_lt}
use basic_sim.Prelude.Results.{ok, err, runtime_error, map_result}
use basic_sim.Containers.SortedSet.{member, same}
use basic_sim.Containers.SortedSet
use basic_sim.Containers.SortedMap.{keys}
use basic_sim.Containers.SortedMap
use basic_sim.ExpUtil.Strings
use basic_sim.ExpUtil.Strings.{trim, is_space, left_trim, right_trim, starts_with, ends_with}
use basic_sim.ExpUtil.Split.{split_loop, split_string}
use basic_sim.ExpUtil.Numbers.{
  parse_boolean, parse_positive_int64, parse_int64, stoll, digits_prefix, is_digit, fits_int64,
  value, signed, read_digits, read_signed,
}
use basic_sim.ExpUtil.Collections.{inside, parse_list_positive_int64, parse_list_string}
use basic_sim.ExpUtil.Config.{get_param_or_default, get_param_or_fail}
use basic_sim.BasicSimulation.{
  BasicSimulation, configure_simulation, register_timestamp, is_node_assigned_to_this_system,
  confirm_all_config_param_keys_requested, check_assignment, check_implementation_type,
  configure_distributed, configure_systems, store_timing_results, register_timestamp,
}
use basic_sim.BasicSimulation.Systems.{configure_simulation-shares}
use basic_sim.BasicSimulation.Requests.{
  Lookup, or_fail, or_default, key_of, look_up_all, confirm_lem,
}

abbrev fresh : BasicSimulation
fresh = record {
  config =
      (codes "distributed_node_system_id_assignment", codes "list(1,0,1)")
      ∷ (codes "distributed_simulator_implementation_type", codes "default")
      ∷ (codes "distributed_systems_count", codes "2")
      ∷ (codes "enable_distributed", codes "true")
      ∷ [];
  config_requested_keys = [];
  simulation_seed = pos 1;
  simulation_end_time_ns = pos 100;
  enable_distributed = false;
  system_id = 0;
  systems_count = 1;
  distributed_node_system_id_assignment = [];
  timestamps = [];
}

abbrev configured : BasicSimulation
configured = record fresh {
  config_requested_keys =
      codes "distributed_node_system_id_assignment"
      ∷ codes "distributed_simulator_implementation_type"
      ∷ codes "distributed_systems_count"
      ∷ codes "enable_distributed"
      ∷ [];
  enable_distributed = true;
  systems_count = 2;
  distributed_node_system_id_assignment = pos 1 ∷ pos 0 ∷ pos 1 ∷ [];
  timestamps = (codes "Configure simulator", pos 70) ∷ [];
}

configure_fresh : configure_simulation (pos 70) 0 2 fresh ≡ ok configured
unfolding configure_simulation parse_boolean parse_positive_int64 parse_int64 stoll digits_prefix
    is_digit fits_int64 value signed read_digits read_signed bytes_beq bytes_lt trim
    get_param_or_default get_param_or_fail SortedMap.find same SortedSet.insert is_space
    check_assignment check_implementation_type configure_distributed configure_systems inside
    parse_list_positive_int64 parse_list_string split_loop split_string ends_with Strings.find
    left_trim right_trim starts_with map_result register_timestamp
configure_fresh = refl

configure_simulation-shares_example :
    (k : ℕ) × (k < 2)
    × ((j : ℕ)
        → is_node_assigned_to_this_system (pos 1) (record configured { system_id = j })
          ≡ ok (k == j))
configure_simulation-shares_example =
    configure_simulation-shares (pos 70) 0 2 fresh configured 1 configure_fresh refl (omega arith)

abbrev lookups : List Lookup
lookups =
    or_default (codes "enable_distributed") (codes "false")
    ∷ or_fail (codes "distributed_simulator_implementation_type")
    ∷ []

abbrev looked_up : BasicSimulation
looked_up = record fresh {
  config_requested_keys =
      codes "distributed_simulator_implementation_type" ∷ codes "enable_distributed" ∷ [];
}

look_up-fresh : look_up_all lookups fresh ≡ ok looked_up
unfolding look_up_all get_param_or_fail SortedMap.find same bytes_lt SortedSet.insert
look_up-fresh = refl

confirm_lem_example :
    (All (λ k. member k (map key_of lookups) ≡ true) (keys fresh.config)
      × (confirm_all_config_param_keys_requested looked_up ≡ ok tt))
    ⊎ ((k : List ℕ) × (member k (keys fresh.config) ≡ true)
        × (member k (map key_of lookups) ≡ false)
        × (confirm_all_config_param_keys_requested looked_up ≡ err runtime_error))
confirm_lem_example = confirm_lem lookups fresh looked_up refl look_up-fresh

-- Labels with the time since the timestamp before.
timing_of_three :
    store_timing_results (
      register_timestamp
        (codes "c")
        (pos 30)
        (register_timestamp (codes "b") (pos 12) (register_timestamp (codes "a") (pos 5) fresh)))
    ≡ (codes "b", pos 7) ∷ (codes "c", pos 18) ∷ []
unfolding store_timing_results register_timestamp
timing_of_three = refl
