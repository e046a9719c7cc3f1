-- ===== src/Topology/Tests.antt =====
-- Two servers at one ToR.
use basic_sim.Prelude.{
  ℕ, suc, ◌==◌, ltb, ◌≡◌, refl, Bool, true, false, List, [], ◌∷◌, length, arith, none,
}
use basic_sim.Prelude.Int.{ℤ, pos, int_ord}
use basic_sim.Prelude.Order.{pair_ord, pair_lt}
use basic_sim.Prelude.Text.{Bytes, codes, bytes_beq, bytes_lt}
use basic_sim.Prelude.Results.{Result, ok, map_result}
use basic_sim.Containers.SortedSet.{member, same, insert_all, intersection, union}
use basic_sim.Containers.SortedSet
use basic_sim.Containers.SortedMap
use basic_sim.Containers.SortedMap.{keys}
use basic_sim.Containers.Sort.{sort}
use basic_sim.ExpUtil.Strings
use basic_sim.ExpUtil.Strings.{trim, starts_with, ends_with, is_space, left_trim}
use basic_sim.ExpUtil.Split.{split_string, split_string_expected}
use basic_sim.ExpUtil.Collections.{
  parse_set_string, parse_set_positive_int64, parse_map_string, all_items_are_less_than,
  direct_set_intersection, direct_set_union,
}
use basic_sim.ExpUtil.Numbers.{
  Doubles, value, digits_prefix, is_digit, fits_int64, signed, stoll, parse_int64,
  parse_positive_int64, parse_double, parse_positive_double,
}
use basic_sim.ExpUtil.Config.{Config, get_param_or_fail}
use basic_sim.Topology.{
  Link, Graph, parse_topology_graph, get_links_set, is_valid_endpoint, get_endpoints,
}
use basic_sim.Topology.Sound.{IsTopology, parse_topology_graph_sound}
use basic_sim.Topology.LinkProperties.{
  LinkMap, parse_undirected_edge_map, parse_directed_edge_map, parse_values, for_each_link,
  parse_selected, parse_link_channel_delay_ns, parse_link_net_device_data_rate_megabit_per_s,
  parse_link_net_device_queue, parse_link_net_device_receive_error_model,
  parse_link_interface_traffic_control_qdisc,
}
use basic_sim.Topology.LinkProperties.Complete.{link_properties-keys}
use basic_sim.Topology.Setup.{Mappings, End, setup_links}
use basic_sim.Topology.Accepted.{
  parse_topology_link_properties, setup_links-total, is_valid_endpoint_lem,
}

abbrev config : Config
config =
    (codes "link_channel_delay_ns", codes "map(0-1: 10,1-2: 20)")
    ∷ (codes "link_interface_traffic_control_qdisc", codes "disabled")
    ∷ (codes "link_net_device_data_rate_megabit_per_s", codes "100")
    ∷ (codes "link_net_device_queue", codes "q")
    ∷ (codes "link_net_device_receive_error_model", codes "none")
    ∷ (codes "num_nodes", codes "3")
    ∷ (codes "num_undirected_edges", codes "2")
    ∷ (codes "servers", codes "set(0,2)")
    ∷ (codes "switches", codes "set(1)")
    ∷ (codes "switches_which_are_tors", codes "set(1)")
    ∷ (codes "undirected_edges", codes "set(0-1,1-2)")
    ∷ []

abbrev edges : List Link
edges = (pos 0, pos 1) ∷ (pos 1, pos 2) ∷ []

abbrev graph : Graph
graph = record {
  num_nodes = pos 3;
  num_undirected_edges = pos 2;
  switches = pos 1 ∷ [];
  switches_which_are_tors = pos 1 ∷ [];
  servers = pos 0 ∷ pos 2 ∷ [];
  all_node_ids = pos 0 ∷ pos 1 ∷ pos 2 ∷ [];
  undirected_edges = edges;
  undirected_edges_set = edges;
  adjacency_list = (pos 1 ∷ []) ∷ (pos 0 ∷ pos 2 ∷ []) ∷ (pos 1 ∷ []) ∷ [];
  has_zero_servers = false;
}

graph_parsed : parse_topology_graph config none ≡ ok graph
unfolding parse_topology_graph get_param_or_fail SortedMap.find same bytes_lt bytes_beq trim
    is_space left_trim starts_with ends_with split_string split_string_expected Strings.find
    parse_positive_int64 parse_int64 stoll digits_prefix is_digit fits_int64 value signed
    parse_set_positive_int64 parse_set_string map_result insert_all SortedSet.insert member pair_lt
    intersection union sort all_items_are_less_than direct_set_intersection direct_set_union
graph_parsed = refl

parse_topology_graph_sound_example : IsTopology graph
parse_topology_graph_sound_example = parse_topology_graph_sound config none graph graph_parsed

is_valid_endpoint_lem_example :
    is_valid_endpoint false graph (pos 2) ≡ member (pos 2) (get_endpoints false graph)
is_valid_endpoint_lem_example =
    is_valid_endpoint_lem config none graph false 2 graph_parsed (omega arith)

abbrev delays : LinkMap ℤ
delays = ((pos 0, pos 1), pos 10) ∷ ((pos 1, pos 2), pos 20) ∷ []

delays_parsed : parse_link_channel_delay_ns edges config ≡ ok delays
unfolding parse_link_channel_delay_ns get_param_or_fail SortedMap.find same bytes_lt bytes_beq trim
    is_space left_trim starts_with ends_with split_string split_string_expected Strings.find
    parse_positive_int64 parse_int64 stoll digits_prefix is_digit fits_int64 value signed
    parse_map_string parse_undirected_edge_map SortedSet.insert member pair_lt SortedMap.insert
    parse_values
delays_parsed = refl

-- Digits stand for doubles.
abbrev whole_numbers : Doubles
whole_numbers = record {
  Double = ℕ;
  stod = λ s. ok (value 0 (digits_prefix s), length (digits_prefix s));
  is_negative = λ x. false;
  is_zero = λ x. x == 0;
  is_above_one = λ x. ltb 1 x;
}

abbrev parse_queue : Bytes → Result Bytes
parse_queue text = ok text

abbrev parse_error_model : Bytes → Result (Bool × Bytes)
parse_error_model text = ok (false, text)

abbrev parse_qdisc : Bytes → Result (Bool × Bytes)
parse_qdisc text = ok (true, text)

link_properties-keys_example :
    ((m : LinkMap ℕ)
      → parse_link_net_device_data_rate_megabit_per_s whole_numbers edges config ≡ ok m
      → keys m ≡ get_links_set edges)
    × ((m : LinkMap Bytes)
        → parse_link_net_device_queue parse_queue edges config ≡ ok m
        → keys m ≡ get_links_set edges)
    × ((m : LinkMap (Bool × Bytes))
        → parse_link_net_device_receive_error_model parse_error_model edges config ≡ ok m
        → keys m ≡ get_links_set edges)
    × ((m : LinkMap (Bool × Bytes))
        → parse_link_interface_traffic_control_qdisc parse_qdisc edges config ≡ ok m
        → keys m ≡ get_links_set edges)
link_properties-keys_example =
    link_properties-keys whole_numbers edges config parse_queue parse_error_model parse_qdisc

abbrev on_links : {A : Type 0} → A → LinkMap A
on_links v =
    ((pos 0, pos 1), v) ∷ ((pos 1, pos 0), v) ∷ ((pos 1, pos 2), v) ∷ ((pos 2, pos 1), v) ∷ []

abbrev mappings : Mappings ℕ Bytes Bytes Bytes
mappings = record {
  link_channel_delay_ns = delays;
  link_net_device_data_rate_megabit_per_s = on_links 100;
  link_net_device_queue = on_links (codes "q");
  link_net_device_receive_error_model = on_links (false, codes "none");
  link_interface_traffic_control_qdisc = on_links (true, codes "disabled");
}

mappings_parsed :
    parse_topology_link_properties whole_numbers parse_queue parse_error_model parse_qdisc edges
      config
    ≡ ok mappings
unfolding parse_topology_link_properties get_param_or_fail SortedMap.find same bytes_lt bytes_beq
    trim is_space left_trim starts_with ends_with split_string split_string_expected Strings.find
    parse_positive_int64 parse_int64 stoll digits_prefix is_digit fits_int64 value signed
    parse_map_string parse_undirected_edge_map SortedSet.insert member pair_lt SortedMap.insert
    parse_values parse_link_channel_delay_ns parse_link_net_device_data_rate_megabit_per_s
    parse_link_net_device_queue parse_link_net_device_receive_error_model
    parse_link_interface_traffic_control_qdisc parse_selected for_each_link parse_positive_double
    parse_double parse_directed_edge_map
mappings_parsed = refl

-- The network counts its links.
abbrev install : Link → End ℕ Bytes Bytes Bytes → End ℕ Bytes Bytes Bytes → ℤ → ℕ → ℕ × (ℕ × ℕ)
install e a b delay links = (suc links, (suc links, suc links))

setup_links-total_example :
    (r : ℕ × List (ℕ × ℕ)) × (setup_links install mappings edges 0 [] ≡ ok r)
    × (length r.1 ≡ length edges)
setup_links-total_example =
    setup_links-total whole_numbers parse_queue parse_error_model parse_qdisc install config none
      graph mappings 0 graph_parsed mappings_parsed
