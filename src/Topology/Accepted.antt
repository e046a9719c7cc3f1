-- ===== src/Topology/Accepted.antt =====
-- The constructor of `TopologyPtop` from the configuration to the links.
use basic_sim.Prelude.{ℕ, ◌≡◌, ◌<◌, ◌∙◌, ap, Bool, List, [], Option, arith, length}
use mathlib.Core.Path.{subst}
use basic_sim.Prelude.Int.{ℤ, pos, int_ord}
use basic_sim.Prelude.Order.{pair_ord}
use basic_sim.Prelude.Text.{Bytes}
use basic_sim.Prelude.Results.{Result, ok, ◌>>=◌, >>=-eq-ok, ok-injective}
use basic_sim.Containers.SortedSet.{member}
use basic_sim.Containers.SortedSet.Subset.{IsWithin-of_members}
use basic_sim.ExpUtil.Numbers.{Doubles}
use basic_sim.ExpUtil.Config.{Config}
use basic_sim.Topology.{
  Link, Graph, parse_topology_graph, is_valid_endpoint, get_endpoints, count_of,
}
use basic_sim.Topology.Sound.{IsTopology, parse_topology_graph_sound}
use basic_sim.Topology.Nodes.{member-all_ids}
use basic_sim.Topology.LinkProperties.{
  parse_link_channel_delay_ns, parse_link_net_device_data_rate_megabit_per_s,
  parse_link_net_device_queue, parse_link_net_device_receive_error_model,
  parse_link_interface_traffic_control_qdisc,
}
use basic_sim.Topology.LinkProperties.Complete.{
  parse_link_channel_delay_ns-keys, link_properties-keys,
}
use basic_sim.Topology.Setup.{Mappings, End, setup_links, IsComplete, setup_suffix}

module _ {Q M D : Type 0} (d : Doubles) (parse_queue : Bytes → Result Q)
    (parse_error_model : Bytes → Result (Bool × M)) (parse_qdisc : Bytes → Result (Bool × D)) where
  unfoldable pub parse_topology_link_properties :
      List Link → Config → Result (Mappings (d.Double) Q M D)
  parse_topology_link_properties edges_set config = do
    delays ← parse_link_channel_delay_ns edges_set config
    rates ← parse_link_net_device_data_rate_megabit_per_s d edges_set config
    queues ← parse_link_net_device_queue parse_queue edges_set config
    error_models ← parse_link_net_device_receive_error_model parse_error_model edges_set config
    qdiscs ← parse_link_interface_traffic_control_qdisc parse_qdisc edges_set config
    ok (record {
      link_channel_delay_ns = delays;
      link_net_device_data_rate_megabit_per_s = rates;
      link_net_device_queue = queues;
      link_net_device_receive_error_model = error_models;
      link_interface_traffic_control_qdisc = qdiscs;
    })

  link_properties-IsComplete :
      (config : Config) (g : Graph) (ms : Mappings (d.Double) Q M D)
      → IsTopology g
      → parse_topology_link_properties g.undirected_edges_set config ≡ ok ms
      → IsComplete ms g.undirected_edges_set
  unfolding parse_topology_link_properties
  link_properties-IsComplete config g ms t h =
      let s = g.undirected_edges_set in
      let (delays, h0, h1) = >>=-eq-ok (parse_link_channel_delay_ns s config) _ h in
      let (rates, h2, h3) =
        >>=-eq-ok (parse_link_net_device_data_rate_megabit_per_s d s config) _ h1 in
      let (queues, h4, h5) = >>=-eq-ok (parse_link_net_device_queue parse_queue s config) _ h3 in
      let (models, h6, h7) =
        >>=-eq-ok (parse_link_net_device_receive_error_model parse_error_model s config) _ h5 in
      let (qdiscs, h8, h9) =
        >>=-eq-ok (parse_link_interface_traffic_control_qdisc parse_qdisc s config) _ h7 in
      let covers = link_properties-keys d s config parse_queue parse_error_model parse_qdisc in
      subst (λ m. IsComplete m s) (ok-injective h9)
        (record {
          delays = parse_link_channel_delay_ns-keys s config delays t.distinct.0 h0;
          rates = covers.0 rates h2;
          queues = covers.1 queues h4;
          error_models = covers.2 models h6;
          qdiscs = covers.3 qdiscs h8;
        })

  -- After a graph and the properties of its links were accepted, setting up the links looks up
  -- nothing that is missing, and every edge gets its pair of interface indices.
  pub setup_links-total :
      {Network : Type 0}
      (install : Link
        → End (d.Double) Q M D
        → End (d.Double) Q M D
        → ℤ
        → Network
        → Network × (ℕ × ℕ))
      (config : Config) (assigned : Option ℕ) (g : Graph) (ms : Mappings (d.Double) Q M D)
      (network : Network)
      → parse_topology_graph config assigned ≡ ok g
      → parse_topology_link_properties g.undirected_edges_set config ≡ ok ms
      → (r : Network × List (ℕ × ℕ)) × (setup_links install ms g.undirected_edges network [] ≡ ok r)
        × (length r.1 ≡ length g.undirected_edges)
  setup_links-total install config assigned g ms network h k =
      let t = parse_topology_graph_sound config assigned g h in
      let all =
        IsWithin-of_members g.undirected_edges g.undirected_edges_set (λ e m. t.edges_set e ∙ m) in
      let (r, e, len) =
        setup_suffix install ms g.undirected_edges_set g.undirected_edges network []
          (link_properties-IsComplete config g ms t k) all in
      (r, e, omega (arith, len))

-- In an accepted graph a node id is a valid endpoint just if it is in the set of the endpoints.
pub is_valid_endpoint_lem :
    (config : Config) (assigned : Option ℕ) (g : Graph) (all_nodes_are_endpoints : Bool) (i : ℕ)
    → parse_topology_graph config assigned ≡ ok g
    → i < count_of g.num_nodes
    → is_valid_endpoint all_nodes_are_endpoints g (pos i)
      ≡ member (pos i) (get_endpoints all_nodes_are_endpoints g)
unfolding is_valid_endpoint get_endpoints
is_valid_endpoint_lem config assigned g everyone i h lt =
    let ids = ap (member (pos i)) (parse_topology_graph_sound config assigned g h).ids in
    ground (arith, ids, member-all_ids (count_of g.num_nodes) (pos i))
