-- ===== src/Topology/LinkProperties.antt =====
-- The properties of links in model/core/topology-ptop.cc: one value for all links, or a map.
-- What the selectors make of a text (ns-3 objects) is an argument.
pub mod Coverage
pub mod Complete
use basic_sim.Prelude.{
  ℕ, ◌*◌, ◌≡◌, Bool, true, false, not, ◌&&◌, List, [], ◌∷◌, if◌then◌else◌, ◌==◌, length, Option,
  none, some,
}
use basic_sim.Prelude.Int.{ℤ, pos, ltb_ℤ, int_ord}
use basic_sim.Prelude.Order.{pair_ord}
use basic_sim.Prelude.Text.{Bytes, codes}
use basic_sim.Prelude.Results.{
  Result, ok, err, invalid_argument, runtime_error, out_of_range, guard, ◌>>=◌, ◌>>◌,
}
use basic_sim.Containers.SortedSet.{member}
use basic_sim.Containers.SortedMap.{find, insert}
use basic_sim.ExpUtil.Strings.{trim, starts_with}
use basic_sim.ExpUtil.Split.{split_string_expected}
use basic_sim.ExpUtil.Numbers.{Doubles, parse_positive_int64, parse_positive_double}
use basic_sim.ExpUtil.Collections.{at_index, parse_map_string}
use basic_sim.ExpUtil.Config.{Config, get_param_or_fail}
use basic_sim.Topology.{Link}

abbrev pub LinkMap : Type 0 → Type 0
LinkMap A = List (Link × A)

abbrev pub is_present : {A : Type 0} → Link → LinkMap A → Bool
is_present e m = elim (find e m) [ none ↦ false | some v ↦ true ]

-- The key of an entry of an undirected map.
unfoldable pub parse_undirected_key : Bytes → Result Link
parse_undirected_key key = do
  dash_split_list ← split_string_expected key (codes "-") 2
  a ← at_index dash_split_list 0 >>= parse_positive_int64
  b ← at_index dash_split_list 1 >>= parse_positive_int64
  guard (not (ltb_ℤ b a)) invalid_argument
  ok (a, b)

unfoldable pub undirected_entries :
    List Link → List (Bytes × Bytes) → LinkMap Bytes → Result (LinkMap Bytes)
unfolding parse_undirected_key
undirected_entries edges_set [] result = ok result
undirected_entries edges_set (p ∷ pair_list) result = do
  e ← parse_undirected_key p.0
  guard (not (is_present e result)) runtime_error
  guard (member e edges_set) runtime_error
  undirected_entries edges_set pair_list (insert e p.1 result)

unfoldable pub parse_undirected_edge_map : List Link → Bytes → Result (LinkMap Bytes)
unfolding undirected_entries
parse_undirected_edge_map edges_set value = do
  pair_list ← parse_map_string value
  result ← undirected_entries edges_set pair_list []
  guard (length edges_set == length result) runtime_error
  ok result

unfoldable pub parse_directed_key : Bytes → Result Link
parse_directed_key key = do
  dash_split_list ← split_string_expected key (codes "->") 2
  a ← at_index dash_split_list 0 >>= parse_positive_int64
  b ← at_index dash_split_list 1 >>= parse_positive_int64
  ok (a, b)

-- `make_pair(a < b ? a : b, b > a ? b : a)`.
unfoldable pub undirected : Link → Link
undirected (a, b) = (if ltb_ℤ a b then a else b, if ltb_ℤ a b then b else a)

unfoldable pub directed_entries :
    List Link → List (Bytes × Bytes) → LinkMap Bytes → Result (LinkMap Bytes)
unfolding parse_directed_key undirected
directed_entries edges_set [] result = ok result
directed_entries edges_set (p ∷ pair_list) result = do
  e ← parse_directed_key p.0
  guard (not (is_present e result)) runtime_error
  guard (member (undirected e) edges_set) runtime_error
  directed_entries edges_set pair_list (insert e p.1 result)

unfoldable pub parse_directed_edge_map : List Link → Bytes → Result (LinkMap Bytes)
unfolding directed_entries
parse_directed_edge_map edges_set value = do
  pair_list ← parse_map_string value
  result ← directed_entries edges_set pair_list []
  guard (length edges_set * 2 == length result) runtime_error
  ok result

module _ {A : Type 0} where
  -- The entries of a map, with their values parsed.
  unfoldable pub parse_values : (Bytes → Result A) → LinkMap Bytes → LinkMap A → Result (LinkMap A)
  parse_values parse [] m = ok m
  parse_values parse ((e, text) ∷ entries) m = do
    v ← parse text
    parse_values parse entries (insert e v m)

  -- One value for each undirected edge.
  unfoldable pub for_each_edge : A → List Link → LinkMap A → LinkMap A
  for_each_edge v [] m = m
  for_each_edge v (e ∷ es) m = for_each_edge v es (insert e v m)

  -- The same value both ways; it is parsed anew for each edge.
  unfoldable pub for_each_link : Result A → List Link → LinkMap A → Result (LinkMap A)
  for_each_link parsed [] m = ok m
  for_each_link parsed (e ∷ es) m = do
    v ← parsed
    for_each_link parsed es (insert (e.1, e.0) v (insert e v m))

  -- A property whose values a selector makes. For the queue the value is parsed once more at the
  -- end, to be printed.
  unfoldable pub parse_selected :
      Bytes → (Bytes → Result A) → List Link → Config → Result (LinkMap A)
  unfolding parse_values for_each_link
  parse_selected key parse_value edges_set config = do
    value ← get_param_or_fail key config
    let single = for_each_link (parse_value value) edges_set []
    let mapped =
        parse_directed_edge_map edges_set value >>= λ entries. parse_values parse_value entries []
    if starts_with (trim value) (codes "map") then mapped else single

  unfoldable pub parse_link_net_device_queue :
      (Bytes → Result A) → List Link → Config → Result (LinkMap A)
  parse_link_net_device_queue parse_queue_value edges_set config = do
    value ← get_param_or_fail (codes "link_net_device_queue") config
    m ← parse_selected (codes "link_net_device_queue") parse_queue_value edges_set config
    if starts_with (trim value) (codes "map")
        then ok m
        else (parse_queue_value value >>= λ printed. ok m)

unfoldable pub parse_link_net_device_receive_error_model :
    {M : Type 0} → (Bytes → Result (Bool × M)) → List Link → Config → Result (LinkMap (Bool × M))
parse_link_net_device_receive_error_model parse_value =
    parse_selected (codes "link_net_device_receive_error_model") parse_value

unfoldable pub parse_link_interface_traffic_control_qdisc :
    {Q : Type 0} → (Bytes → Result (Bool × Q)) → List Link → Config → Result (LinkMap (Bool × Q))
parse_link_interface_traffic_control_qdisc parse_value =
    parse_selected (codes "link_interface_traffic_control_qdisc") parse_value

unfoldable pub parse_link_channel_delay_ns : List Link → Config → Result (LinkMap ℤ)
parse_link_channel_delay_ns edges_set config = do
  value ← get_param_or_fail (codes "link_channel_delay_ns") config
  let single = parse_positive_int64 value >>= λ link_channel_delay_ns.
      ok (for_each_edge link_channel_delay_ns edges_set [])
  let mapped = parse_undirected_edge_map edges_set value >>= λ entries.
      parse_values parse_positive_int64 entries []
  if starts_with (trim value) (codes "map") then mapped else single

-- The data rate is parsed before the loop.
unfoldable pub parse_link_net_device_data_rate_megabit_per_s :
    (d : Doubles) → List Link → Config → Result (LinkMap (d.Double))
parse_link_net_device_data_rate_megabit_per_s d edges_set config = do
  value ← get_param_or_fail (codes "link_net_device_data_rate_megabit_per_s") config
  let single = parse_positive_double d value >>= λ rate. for_each_link (ok rate) edges_set []
  let mapped = parse_directed_edge_map edges_set value >>= λ entries.
      parse_values (parse_positive_double d) entries []
  if starts_with (trim value) (codes "map") then mapped else single
