-- ===== src/Topology.antt =====
-- model/core/topology-ptop.cc: the graph that a topology configuration describes.
-- The type of a node id is an int64. The loop over the nodes counts in an int; the model is that of
-- fewer than 2 ^ 31 nodes, where the two agree.
pub mod LinkProperties
pub mod Laws
mod Tests
pub mod Accepted
pub mod Setup
pub mod Sound
pub mod Nodes
use basic_sim.Prelude.{
  ℕ, zero, suc, ◌≡◌, Bool, true, false, not, ◌&&◌, ◌||◌, List, [], ◌∷◌, ◌++◌, map, if◌then◌else◌,
  ◌==◌, length, is_nil, replicate, set, Option, none, some,
}
use basic_sim.Prelude.Int.{ℤ, pos, negsuc, ltb_ℤ, int_ord}
use basic_sim.Prelude.Order.{pair_ord}
use basic_sim.Prelude.Text.{Bytes, codes, bytes_beq}
use basic_sim.Prelude.Results.{
  Result, ok, err, invalid_argument, runtime_error, out_of_range, guard, ◌>>=◌, ◌>>◌,
}
use basic_sim.Containers.SortedSet.{insert, insert_all, member, same}
use basic_sim.Containers.Sort.{sort}
use basic_sim.ExpUtil.Split.{split_string_expected}
use basic_sim.ExpUtil.Numbers.{parse_positive_int64, parse_boolean}
use basic_sim.ExpUtil.Collections.{
  at_index, parse_set_string, parse_set_positive_int64, all_items_are_less_than,
  direct_set_intersection, direct_set_union,
}
use basic_sim.ExpUtil.Config.{Config, File, read_config, get_param_or_fail, get_param_or_default}

abbrev pub Link : Type 0
Link = ℤ × ℤ

-- The number of nodes is never negative.
abbrev pub count_of : ℤ → ℕ
count_of (pos n) = n
count_of (negsuc n) = 0

-- `vector::at` with an int64, of which a negative one is a very large index.
abbrev pub at_id {ℓ} : {A : Type ℓ} → List A → ℤ → Result A
at_id xs (pos i) = at_index xs i
at_id xs (negsuc i) = err out_of_range

abbrev pub topology_properties : List Bytes
topology_properties =
    codes "num_nodes"
    ∷ codes "num_undirected_edges"
    ∷ codes "switches"
    ∷ codes "switches_which_are_tors"
    ∷ codes "servers"
    ∷ codes "undirected_edges"
    ∷ codes "all_nodes_are_endpoints"
    ∷ codes "link_channel_delay_ns"
    ∷ codes "link_net_device_data_rate_megabit_per_s"
    ∷ codes "link_net_device_queue"
    ∷ codes "link_net_device_receive_error_model"
    ∷ codes "link_interface_traffic_control_qdisc"
    ∷ []

abbrev is_property : Bytes → List Bytes → Bool
is_property k [] = false
is_property k (p ∷ ps) = bytes_beq k p || is_property k ps

unfoldable pub check_properties : Config → Result (Unit {0})
check_properties [] = ok tt
check_properties ((k, v) ∷ entries) =
    guard (is_property k topology_properties) runtime_error >> check_properties entries

-- The configuration, and whether all nodes are endpoints.
unfoldable pub read_topology_config : File → Result (Config × Bool)
unfolding check_properties
read_topology_config file = do
  topology_config ← read_config file
  check_properties topology_config
  all_nodes_are_endpoints ←
      parse_boolean
        (get_param_or_default (codes "all_nodes_are_endpoints") (codes "false") topology_config)
  ok (topology_config, all_nodes_are_endpoints)

-- What the loop over the edges fills.
pub record Edges : Type 0 where
  pub undirected_edges : List Link
  pub undirected_edges_set : List Link
  pub adjacency_list : List (List ℤ)

-- `adjacency_list.at(a).insert(b)`.
unfoldable pub insert_neighbor : ℤ → ℤ → List (List ℤ) → Result (List (List ℤ))
insert_neighbor (pos i) b lists = do
  neighbors ← at_index lists i
  ok (set lists i (insert b neighbors))
insert_neighbor (negsuc i) b lists = err out_of_range

-- An edge as it is written, with the checks on it.
unfoldable pub parse_edge : ℤ → Bytes → Result Link
parse_edge num_nodes s = do
  spl ← split_string_expected s (codes "-") 2
  a ← at_index spl 0 >>= parse_positive_int64
  b ← at_index spl 1 >>= parse_positive_int64
  guard (not (same a b)) invalid_argument
  guard (ltb_ℤ a num_nodes) invalid_argument
  guard (ltb_ℤ b num_nodes) invalid_argument
  guard (not (ltb_ℤ b a)) invalid_argument
  ok (a, b)

unfoldable pub add_edge : Link → Edges → Result Edges
unfolding insert_neighbor
add_edge (a, b) es = do
  lists ← insert_neighbor a b es.adjacency_list
  lists' ← insert_neighbor b a lists
  ok (record {
    undirected_edges = es.undirected_edges ++ (a, b) ∷ [];
    undirected_edges_set = insert (a, b) es.undirected_edges_set;
    adjacency_list = lists';
  })

unfoldable pub read_edges : ℤ → List Bytes → Edges → Result Edges
unfolding parse_edge add_edge
read_edges num_nodes [] es = ok es
read_edges num_nodes (s ∷ strings) es = do
  e ← parse_edge num_nodes s
  es' ← add_edge e es
  read_edges num_nodes strings es'

-- The ids 0, 1, ..., as they are inserted into the set.
unfoldable pub all_ids : ℕ → List ℤ
all_ids zero = []
all_ids (suc n) = insert (pos n) (all_ids n)

unfoldable pub all_in : List ℤ → List ℤ → Bool
all_in [] s = true
all_in (x ∷ xs) s = member x s && all_in xs s

-- Servers must be connected to ToRs only.
unfoldable pub check_servers : List ℤ → List ℤ → List (List ℤ) → Result (Unit {0})
unfolding all_in
check_servers [] tors lists = ok tt
check_servers (node_id ∷ servers) tors lists = do
  neighbors ← at_id lists node_id
  guard (all_in neighbors tors) invalid_argument
  check_servers servers tors lists

pub record Graph : Type 0 where
  pub num_nodes : ℤ
  pub num_undirected_edges : ℤ
  pub switches : List ℤ
  pub switches_which_are_tors : List ℤ
  pub servers : List ℤ
  pub all_node_ids : List ℤ
  pub undirected_edges : List Link
  pub undirected_edges_set : List Link
  pub adjacency_list : List (List ℤ)
  pub has_zero_servers : Bool

-- The checks on the edges and on the kinds of the nodes.
unfoldable pub check_graph : Graph → Result (Unit {0})
unfolding check_servers
check_graph g = do
  guard (length g.undirected_edges == count_of g.num_undirected_edges) invalid_argument
  guard (length g.undirected_edges == length g.undirected_edges_set) invalid_argument
  guard (is_nil (direct_set_intersection g.servers g.switches)) invalid_argument
  guard (length (direct_set_union g.servers g.switches) == count_of g.num_nodes) invalid_argument
  guard
      (length (direct_set_intersection g.switches g.switches_which_are_tors)
        == length g.switches_which_are_tors)
      invalid_argument
  check_servers g.servers g.switches_which_are_tors g.adjacency_list

-- A parameter that is a set of node ids.
unfoldable pub parse_nodes : Bytes → ℤ → Config → Result (List ℤ)
parse_nodes key num_nodes config = do
  tmp ← get_param_or_fail key config
  ids ← parse_set_positive_int64 tmp
  all_items_are_less_than ids num_nodes
  ok ids

-- `assigned` is the number of nodes with a system id in a distributed run.
unfoldable pub check_assignment : Option ℕ → ℤ → Result (Unit {0})
check_assignment none num_nodes = ok tt
check_assignment (some assigned) num_nodes = guard (assigned == count_of num_nodes) invalid_argument

unfoldable pub parse_topology_graph : Config → Option ℕ → Result Graph
unfolding parse_nodes read_edges all_ids check_graph check_assignment
parse_topology_graph config assigned = do
  num_nodes ← get_param_or_fail (codes "num_nodes") config >>= parse_positive_int64
  num_undirected_edges ←
      get_param_or_fail (codes "num_undirected_edges") config >>= parse_positive_int64
  switches ← parse_nodes (codes "switches") num_nodes config
  switches_which_are_tors ← parse_nodes (codes "switches_which_are_tors") num_nodes config
  servers ← parse_nodes (codes "servers") num_nodes config
  string_set ← get_param_or_fail (codes "undirected_edges") config >>= parse_set_string
  es ← read_edges num_nodes string_set (record {
    undirected_edges = [];
    undirected_edges_set = [];
    adjacency_list = replicate (count_of num_nodes) [];
  })
  let g : Graph = record {
    num_nodes = num_nodes;
    num_undirected_edges = num_undirected_edges;
    switches = switches;
    switches_which_are_tors = switches_which_are_tors;
    servers = servers;
    all_node_ids = all_ids (count_of num_nodes);
    undirected_edges = sort es.undirected_edges;
    undirected_edges_set = es.undirected_edges_set;
    adjacency_list = es.adjacency_list;
    has_zero_servers = is_nil servers;
  }
  check_graph g
  check_assignment assigned num_nodes
  ok g

unfoldable pub is_valid_endpoint : Bool → Graph → ℤ → Bool
is_valid_endpoint all_nodes_are_endpoints g node_id =
    if all_nodes_are_endpoints
    then true
    else if g.has_zero_servers
    then member node_id g.switches_which_are_tors
    else member node_id g.servers

unfoldable pub get_endpoints : Bool → Graph → List ℤ
get_endpoints all_nodes_are_endpoints g =
    if all_nodes_are_endpoints
    then g.all_node_ids
    else if g.has_zero_servers
    then g.switches_which_are_tors
    else g.servers

unfoldable pub get_links : List Link → List Link
get_links [] = []
get_links (e ∷ es) = e ∷ (e.1, e.0) ∷ get_links es

unfoldable pub get_links_set : List Link → List Link
unfolding get_links
get_links_set undirected_edges = insert_all (get_links undirected_edges) []
