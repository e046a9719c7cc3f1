-- ===== src/Topology/LinkProperties/Complete.antt =====
-- About the properties of links that are accepted (model/core/topology-ptop.cc).
use basic_sim.Prelude.{◌≡◌, sym, ◌∙◌, ap, Bool, List, [], if◌then◌else◌, true, false}
use mathlib.Core.Path.{subst}
use basic_sim.Prelude.Int.{ℤ, int_ord}
use basic_sim.Prelude.Order.{pair_ord}
use basic_sim.Prelude.Text.{Bytes, codes}
use basic_sim.Prelude.Results.{Result, ok, ◌>>=◌, >>=-eq-ok, ok-injective}
use basic_sim.Containers.SortedSet.{IsSorted}
use basic_sim.Containers.SortedSet.Subset.{insert_all_self}
use basic_sim.Containers.SortedMap.{keys}
use basic_sim.ExpUtil.Strings.{trim, starts_with}
use basic_sim.ExpUtil.Numbers.{Doubles, parse_positive_int64, parse_positive_double}
use basic_sim.ExpUtil.Config.{Config, get_param_or_fail}
use basic_sim.Topology.{Link, get_links_set}
use basic_sim.Topology.LinkProperties.{
  LinkMap, parse_undirected_edge_map, parse_directed_edge_map, parse_values, for_each_edge,
  for_each_link, parse_selected, parse_link_net_device_queue,
  parse_link_net_device_receive_error_model, parse_link_interface_traffic_control_qdisc,
  parse_link_channel_delay_ns, parse_link_net_device_data_rate_megabit_per_s,
}
use basic_sim.Topology.LinkProperties.Coverage.{
  parse_undirected_edge_map-keys, parse_directed_edge_map-keys, mapped-keys, keys-for_each_edge,
  keys-for_each_link, get_links_set-IsSorted,
}

-- What holds of both results holds of the one that is taken.
either-keys :
    {A : Type 0} (b : Bool) (mapped single : Result (LinkMap A)) (t : List Link) (r : LinkMap A)
    → (mapped ≡ ok r → keys r ≡ t)
    → (single ≡ ok r → keys r ≡ t)
    → (if b then mapped else single) ≡ ok r
    → keys r ≡ t
either-keys true mapped single t r f g h = f h
either-keys false mapped single t r f g h = g h

-- Printing the value does not change the map.
printed-eq :
    {A B : Type 0} (b : Bool) (p : Result A) (r m : B)
    → (if b then ok r else (p >>= λ printed. ok r)) ≡ ok m
    → r ≡ m
printed-eq true p r m h = ok-injective h
printed-eq false p r m h = let (printed, h0, h1) = >>=-eq-ok p _ h in ok-injective h1

-- An accepted channel delay covers exactly the undirected edges.
pub parse_link_channel_delay_ns-keys :
    (s : List Link) (config : Config) (m : LinkMap ℤ)
    → IsSorted s
    → parse_link_channel_delay_ns s config ≡ ok m
    → keys m ≡ s
unfolding parse_link_channel_delay_ns
parse_link_channel_delay_ns-keys s config m sorted h =
    let (value, h0, h1) =
      >>=-eq-ok (get_param_or_fail (codes "link_channel_delay_ns") config) _ h in
    either-keys (starts_with (trim value) (codes "map"))
      (parse_undirected_edge_map s value >>= λ entries.
        parse_values parse_positive_int64 entries [])
      (parse_positive_int64 value >>= λ v. ok (for_each_edge v s [])) s m
      (mapped-keys parse_positive_int64 s (parse_undirected_edge_map s value) m
        (λ r. parse_undirected_edge_map-keys s value r sorted) sorted)
      (λ g.
        let (v, g0, g1) = >>=-eq-ok (parse_positive_int64 value) _ g in
        ap keys (sym (ok-injective g1)) ∙ keys-for_each_edge v s [] ∙ insert_all_self s sorted)
      h1

module _ {A : Type 0} where
  link_map-keys :
      (parse : Bytes → Result A) (s : List Link) (value : Bytes) (parsed : Result A) (m : LinkMap A)
      → (if starts_with (trim value) (codes "map")
          then (parse_directed_edge_map s value >>= λ entries. parse_values parse entries [])
          else for_each_link parsed s [])
        ≡ ok m
      → keys m ≡ get_links_set s
  unfolding get_links_set
  link_map-keys parse s value parsed m h =
      either-keys (starts_with (trim value) (codes "map"))
        (parse_directed_edge_map s value >>= λ entries. parse_values parse entries [])
        (for_each_link parsed s []) (get_links_set s) m
        (mapped-keys parse (get_links_set s) (parse_directed_edge_map s value) m
          (parse_directed_edge_map-keys s value) (get_links_set-IsSorted s))
        (keys-for_each_link parsed s [] m) h

  pub parse_selected-keys :
      (key : Bytes) (parse : Bytes → Result A) (s : List Link) (config : Config) (m : LinkMap A)
      → parse_selected key parse s config ≡ ok m
      → keys m ≡ get_links_set s
  unfolding parse_selected
  parse_selected-keys key parse s config m h =
      let (value, h0, h1) = >>=-eq-ok (get_param_or_fail key config) _ h in
      link_map-keys parse s value (parse value) m h1

  queue-keys :
      (parse : Bytes → Result A) (s : List Link) (config : Config) (m : LinkMap A)
      → parse_link_net_device_queue parse s config ≡ ok m
      → keys m ≡ get_links_set s
  unfolding parse_link_net_device_queue
  queue-keys parse s config m h =
      let key = codes "link_net_device_queue" in
      let (value, h0, h1) = >>=-eq-ok (get_param_or_fail key config) _ h in
      let (r, h2, h3) = >>=-eq-ok (parse_selected key parse s config) _ h1 in
      let same = printed-eq (starts_with (trim value) (codes "map")) (parse value) r m h3 in
      subst (λ k. keys k ≡ get_links_set s) same (parse_selected-keys key parse s config r h2)

-- An accepted data rate, queue, receive error model or queueing discipline covers exactly the
-- links, both ways of each undirected edge.
pub link_properties-keys :
    {Q M D : Type 0} (d : Doubles) (s : List Link) (config : Config)
    (parse_queue : Bytes → Result Q) (parse_error_model : Bytes → Result (Bool × M))
    (parse_qdisc : Bytes → Result (Bool × D))
    → ((m : LinkMap (d.Double))
        → parse_link_net_device_data_rate_megabit_per_s d s config ≡ ok m
        → keys m ≡ get_links_set s)
      × ((m : LinkMap Q)
          → parse_link_net_device_queue parse_queue s config ≡ ok m
          → keys m ≡ get_links_set s)
      × ((m : LinkMap (Bool × M))
          → parse_link_net_device_receive_error_model parse_error_model s config ≡ ok m
          → keys m ≡ get_links_set s)
      × ((m : LinkMap (Bool × D))
          → parse_link_interface_traffic_control_qdisc parse_qdisc s config ≡ ok m
          → keys m ≡ get_links_set s)
unfolding parse_link_net_device_data_rate_megabit_per_s parse_link_net_device_receive_error_model
    parse_link_interface_traffic_control_qdisc
link_properties-keys d s config parse_queue parse_error_model parse_qdisc = (
  λ m h.
      let (value, h0, h1) =
        >>=-eq-ok (get_param_or_fail (codes "link_net_device_data_rate_megabit_per_s") config) _
          h in
      either-keys (starts_with (trim value) (codes "map"))
        (parse_directed_edge_map s value >>= λ entries.
          parse_values (parse_positive_double d) entries [])
        (parse_positive_double d value >>= λ rate. for_each_link (ok rate) s []) (get_links_set s) m
        (mapped-keys (parse_positive_double d) (get_links_set s) (parse_directed_edge_map s value) m
          (parse_directed_edge_map-keys s value) (get_links_set-IsSorted s))
        (λ g.
          let (rate, g0, g1) = >>=-eq-ok (parse_positive_double d value) _ g in
          unfold get_links_set in keys-for_each_link (ok rate) s [] m g1)
        h1,
  queue-keys parse_queue s config,
  parse_selected-keys (codes "link_net_device_receive_error_model") parse_error_model s config,
  parse_selected-keys (codes "link_interface_traffic_control_qdisc") parse_qdisc s config,
)
