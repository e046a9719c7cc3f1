-- ===== src/Topology/Sound.antt =====
-- What an accepted topology configuration promises of the graph.
use basic_sim.Prelude.{
  ℕ, zero, suc, ◌<◌, ◌≡◌, refl, sym, ◌∙◌, ap, true, false, not, ◌&&◌, ◌||◌, List, [], ◌∷◌, arith,
  ◌==◌, length, All, is_nil, replicate, Option, inl, inr, ◌⊎◌,
}
use mathlib.Core.Path.{subst}
use basic_sim.Prelude.Int.{ℤ, pos, negsuc, ltb_ℤ, int_ord}
use basic_sim.Prelude.Order.{pair_ord}
use basic_sim.Prelude.Text.{codes}
use basic_sim.Prelude.Results.{
  Result, ok, invalid_argument, ◌>>=◌, >>=-eq-ok, guard-eq-ok, ok-injective,
}
use basic_sim.Containers.SortedSet.{member, IsSorted, intersection, union}
use basic_sim.Containers.SortedSet.Merge.{
  member-intersection, member-union, intersection-IsSorted, union-IsSorted,
}
use basic_sim.Containers.SortedSet.Subset.{IsWithin-of_members, subset-length}
use basic_sim.Containers.Sort.{sort, member-sort}
use basic_sim.ExpUtil.Numbers.{parse_positive_int64}
use basic_sim.ExpUtil.Collections.{
  at_index, parse_set_string, direct_set_intersection, direct_set_union,
}
use basic_sim.ExpUtil.Config.{Config, get_param_or_fail}
use basic_sim.Topology.{
  Link, Edges, Graph, count_of, at_id, all_in, all_ids, check_servers, check_graph, parse_nodes,
  read_edges, check_assignment, parse_topology_graph,
}
use basic_sim.Topology.Laws.{
  IsEdge, IsTables, neighbors, read_edges-IsTables, at_index-neighbors, parse_positive_int64-nonneg,
}
use basic_sim.Topology.Nodes.{
  IsNode, All-member, parse_nodes-IsNode, all_ids-IsSorted, member-all_ids, length-all_ids,
}

-- What the tables and sets of the graph say of each other.
pub record IsTopology (g : Graph) : Type 0 where
  pub edges : (e : Link) → member e g.undirected_edges ≡ true → IsEdge g.num_nodes e
  pub edges_set : (e : Link) → member e g.undirected_edges_set ≡ member e g.undirected_edges
  pub distinct :
      IsSorted g.undirected_edges_set × (length g.undirected_edges ≡ length g.undirected_edges_set)
  pub lists : length g.adjacency_list ≡ count_of g.num_nodes
  pub symmetric :
      (i : ℕ) (c : ℤ)
      → member c (neighbors g.adjacency_list i)
        ≡ member (pos i, c) g.undirected_edges || member (c, pos i) g.undirected_edges
  pub ids : g.all_node_ids ≡ all_ids (count_of g.num_nodes)
  pub zero_servers : g.has_zero_servers ≡ is_nil g.servers
  pub disjoint : (v : ℤ) → member v g.servers && member v g.switches ≡ false
  pub kinds :
      (i : ℕ)
      → i < count_of g.num_nodes
      → member (pos i) g.servers || member (pos i) g.switches ≡ true
  pub tors : (v : ℤ) → member v g.switches_which_are_tors ≡ true → member v g.switches ≡ true
  pub attached :
      (i : ℕ) (c : ℤ)
      → member (pos i) g.servers ≡ true
      → member c (neighbors g.adjacency_list i) ≡ true
      → member c g.switches_which_are_tors ≡ true

-- The fields before the checks on them.
record IsRead (g : Graph) : Type 0 where
  tables :
      (es : Edges) × IsTables g.num_nodes (count_of g.num_nodes) es
      × ((g.undirected_edges ≡ sort es.undirected_edges)
          × (g.undirected_edges_set ≡ es.undirected_edges_set)
          × (g.adjacency_list ≡ es.adjacency_list))
  ids : g.all_node_ids ≡ all_ids (count_of g.num_nodes)
  zero_servers : g.has_zero_servers ≡ is_nil g.servers
  nonneg : ltb_ℤ g.num_nodes (pos 0) ≡ false
  servers : IsSorted g.servers × All (IsNode g.num_nodes) g.servers
  switches : IsSorted g.switches × All (IsNode g.num_nodes) g.switches
  tors : IsSorted g.switches_which_are_tors × All (IsNode g.num_nodes) g.switches_which_are_tors

all_in-member :
    (xs s : List ℤ) (c : ℤ) → all_in xs s ≡ true → member c xs ≡ true → member c s ≡ true
unfolding all_in
all_in-member xs s c h m = All-member (λ x. member x s ≡ true) c xs (all xs h) m
  where
    all : (xs : List ℤ) → all_in xs s ≡ true → All (λ x. member x s ≡ true) xs
    all [] h = tt
    all (x ∷ xs) h = (ground (arith, h), all xs (ground (arith, h)))

servers_attached :
    (servers tors : List ℤ) (lists : List (List ℤ)) (i : ℕ) (c : ℤ)
    → check_servers servers tors lists ≡ ok tt
    → member (pos i) servers ≡ true
    → member c (neighbors lists i) ≡ true
    → member c tors ≡ true
unfolding check_servers
servers_attached servers tors lists i c h m k =
    All-member (IsAttached i) (pos i) servers (all servers h) m refl
  where
    IsAttached : ℕ → ℤ → Type 0
    IsAttached i v = v ≡ pos i → member c tors ≡ true

    all : (vs : List ℤ) → check_servers vs tors lists ≡ ok tt → All (IsAttached i) vs
    all [] h = tt
    all (v ∷ vs) h =
        let (row, h0, h1) = >>=-eq-ok (at_id lists v) _ h in
        let (b, h2) =
          guard-eq-ok (all_in row tors) invalid_argument (check_servers vs tors lists) h1 in
        (
          λ e.
              let at : at_index lists i ≡ ok row = ap (at_id lists) (sym e) ∙ h0 in
              let r = (at_index-neighbors lists i row at).1 in
              all_in-member row tors c b (ap (member c) r ∙ k),
          all vs h2,
        )

unit_eq : {r : Result (Unit {0})} (u : Unit {0}) → r ≡ ok u → r ≡ ok tt
unit_eq tt h = h

is_nil-eq : {A : Type 0} (xs : List A) → is_nil xs ≡ true → xs ≡ []
is_nil-eq [] h = refl
is_nil-eq (x ∷ xs) h = cc

disjoint_sets :
    (xs ys : List ℤ)
    → IsSorted xs
    → IsSorted ys
    → is_nil (intersection xs ys) ≡ true
    → (v : ℤ) → member v xs && member v ys ≡ false
disjoint_sets xs ys s t h v =
    sym (member-intersection v xs ys s t)
    ∙ ap (member v) (is_nil-eq (intersection xs ys) h)
    ∙ unfold member in refl

-- Sets that hold `n` ids below `n` between them hold all of those.
all_kinds :
    (n : ℕ) (xs ys : List ℤ)
    → IsSorted xs
    → IsSorted ys
    → All (IsNode (pos n)) xs
    → All (IsNode (pos n)) ys
    → length (union xs ys) ≡ n
    → (i : ℕ) → i < n
    → member (pos i) xs || member (pos i) ys ≡ true
all_kinds n xs ys s t p q size i lt =
    let within =
      IsWithin-of_members (union xs ys) (all_ids n)
        (λ b m. member-all_ids n b ∙ in_range b (ground (arith, member-union b xs ys, m))) in
    let e : union xs ys ≡ all_ids n =
      (subset-length (union xs ys) (all_ids n) (union-IsSorted xs ys s t) (all_ids-IsSorted n)
          within).1
        (omega (arith, size, length-all_ids n)) in
    sym (member-union (pos i) xs ys)
    ∙ ap (member (pos i)) e
    ∙ member-all_ids n (pos i)
    ∙ ground arith
  where
    in_range :
        (b : ℤ)
        → (member b xs ≡ true) ⊎ (member b ys ≡ true)
        → not (ltb_ℤ b (pos 0)) && ltb_ℤ b (pos n) ≡ true
    in_range b (inl m) = ground (arith, All-member (IsNode (pos n)) b xs p m)
    in_range b (inr m) = ground (arith, All-member (IsNode (pos n)) b ys q m)

-- A set whose common part with another has its own size is within the other.
common_part :
    (xs ys : List ℤ)
    → IsSorted xs
    → IsSorted ys
    → length (intersection xs ys) ≡ length ys
    → (v : ℤ) → member v ys ≡ true
    → member v xs ≡ true
common_part xs ys s t size v m =
    let within =
      IsWithin-of_members (intersection xs ys) ys
        (λ b k. ground (arith, member-intersection b xs ys s t, k)) in
    let e : intersection xs ys ≡ ys =
      (subset-length (intersection xs ys) ys (intersection-IsSorted xs ys s) t within).1
        (omega (arith, size)) in
    ground (arith, member-intersection v xs ys s t, ap (member v) e, m)

kinds_of :
    (n : ℤ)
    → ltb_ℤ n (pos 0) ≡ false
    → (xs ys : List ℤ) → IsSorted xs × All (IsNode n) xs
    → IsSorted ys × All (IsNode n) ys
    → length (union xs ys) ≡ count_of n
    → (i : ℕ) → i < count_of n
    → member (pos i) xs || member (pos i) ys ≡ true
kinds_of (pos n) h xs ys s t size i lt = all_kinds n xs ys s.0 t.0 s.1 t.1 size i lt
kinds_of (negsuc n) h xs ys s t size i lt = absurd (omega arith)

check_graph-lem : (g : Graph) → IsRead g → check_graph g ≡ ok tt → IsTopology g
unfolding check_graph direct_set_intersection direct_set_union
check_graph-lem g r h =
    let (b1, h1) =
      guard-eq-ok (length g.undirected_edges == count_of g.num_undirected_edges) invalid_argument _
        h in
    let (b2, h2) =
      guard-eq-ok (length g.undirected_edges == length g.undirected_edges_set) invalid_argument _
        h1 in
    let (b3, h3) = guard-eq-ok (is_nil (intersection g.servers g.switches)) invalid_argument _ h2 in
    let (b4, h4) =
      guard-eq-ok (length (union g.servers g.switches) == count_of g.num_nodes) invalid_argument _
        h3 in
    let (b5, h5) =
      guard-eq-ok
        (length (intersection g.switches g.switches_which_are_tors)
          == length g.switches_which_are_tors)
        invalid_argument (check_servers g.servers g.switches_which_are_tors g.adjacency_list) h4 in
    let (es, t, (e1, e2, e3)) = r.tables in
    record {
      edges = λ e m.
          All-member (IsEdge g.num_nodes) e es.undirected_edges t.edges
            (sym (member-sort e es.undirected_edges) ∙ ap (member e) (sym e1) ∙ m);
      edges_set = λ e.
          ap (member e) e2
          ∙ t.members e
          ∙ sym (member-sort e es.undirected_edges)
          ∙ ap (member e) (sym e1);
      distinct = (subst IsSorted (sym e2) t.sorted, ground (arith, b2));
      lists = ap length e3 ∙ t.lists;
      symmetric = λ i c. ground (
        arith,
        ap (λ l. member c (neighbors l i)) e3,
        t.symmetric i c,
        member-sort (pos i, c) es.undirected_edges,
        member-sort (c, pos i) es.undirected_edges,
        ap (member (pos i, c)) e1,
        ap (member (c, pos i)) e1,
      );
      ids = r.ids;
      zero_servers = r.zero_servers;
      disjoint = disjoint_sets g.servers g.switches r.servers.0 r.switches.0 b3;
      kinds =
          kinds_of g.num_nodes r.nonneg g.servers g.switches r.servers r.switches
            (ground (arith, b4));
      tors =
          common_part g.switches g.switches_which_are_tors r.switches.0 r.tors.0
            (ground (arith, b5));
      attached =
          λ i c. servers_attached g.servers g.switches_which_are_tors g.adjacency_list i c h5;
    }

start : ℕ → Edges
start size = record {
  undirected_edges = [];
  undirected_edges_set = [];
  adjacency_list = replicate size [];
}

start-IsTables : (n : ℤ) (size : ℕ) → IsTables n size (start size)
unfolding start member neighbors
start-IsTables n size = record {
  edges = tt;
  sorted = tt;
  members = λ e. refl;
  lists = len size;
  symmetric = λ i c. no_neighbor c size i;
}
  where
    len : (k : ℕ) → length (replicate {A = List ℤ} k []) ≡ k
    len zero = refl
    len (suc k) = ap suc (len k)

    no_neighbor : (c : ℤ) (k i : ℕ) → member c (neighbors (replicate k []) i) ≡ false
    no_neighbor c zero i = refl
    no_neighbor c (suc k) zero = refl
    no_neighbor c (suc k) (suc i) = no_neighbor c k i

-- An accepted configuration gives a graph in which the edges are distinct and lead from a node to a
-- higher one, the adjacency lists are those of the edges, the servers and the switches are all the
-- nodes and have none in common, the ToRs are switches, and servers have edges to ToRs only.
pub parse_topology_graph_sound :
    (config : Config) (assigned : Option ℕ) (g : Graph)
    → parse_topology_graph config assigned ≡ ok g
    → IsTopology g
unfolding parse_topology_graph start
parse_topology_graph_sound config assigned g h =
    let (n, h0, h1) =
      >>=-eq-ok (get_param_or_fail (codes "num_nodes") config >>= parse_positive_int64) _ h in
    let (m, h2, h3) =
      >>=-eq-ok (get_param_or_fail (codes "num_undirected_edges") config >>= parse_positive_int64) _
        h1 in
    let (switches, h4, h5) = >>=-eq-ok (parse_nodes (codes "switches") n config) _ h3 in
    let (tors, h6, h7) = >>=-eq-ok (parse_nodes (codes "switches_which_are_tors") n config) _ h5 in
    let (servers, h8, h9) = >>=-eq-ok (parse_nodes (codes "servers") n config) _ h7 in
    let (strings, g0, g1) =
      >>=-eq-ok (get_param_or_fail (codes "undirected_edges") config >>= parse_set_string) _ h9 in
    let (es, g2, g3) = >>=-eq-ok (read_edges n strings (start (count_of n))) _ g1 in
    let g' : Graph = record {
      num_nodes = n;
      num_undirected_edges = m;
      switches = switches;
      switches_which_are_tors = tors;
      servers = servers;
      all_node_ids = all_ids (count_of n);
      undirected_edges = sort es.undirected_edges;
      undirected_edges_set = es.undirected_edges_set;
      adjacency_list = es.adjacency_list;
      has_zero_servers = is_nil servers;
    } in
    let (u, g4, g5) = >>=-eq-ok (check_graph g') _ g3 in
    let (v, g6, g7) = >>=-eq-ok (check_assignment assigned n) (λ v. ok g') g5 in
    let (text, f0, f1) = >>=-eq-ok (get_param_or_fail (codes "num_nodes") config) _ h0 in
    let read : IsRead g' = record {
      tables = (
        es,
        read_edges-IsTables n (count_of n) strings (start (count_of n)) es g2
            (start-IsTables n (count_of n)),
        (refl, refl, refl),
      );
      ids = refl;
      zero_servers = refl;
      nonneg = parse_positive_int64-nonneg text n f1;
      servers = parse_nodes-IsNode (codes "servers") n config servers h8;
      switches = parse_nodes-IsNode (codes "switches") n config switches h4;
      tors = parse_nodes-IsNode (codes "switches_which_are_tors") n config tors h6;
    } in
    subst IsTopology (ok-injective g7) (check_graph-lem g' read (unit_eq u g4))
