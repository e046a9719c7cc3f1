-- ===== src/Topology/Laws.antt =====
-- What the loop over the edges makes: edges between two nodes each, and symmetric adjacency lists.
use basic_sim.Prelude.{
  ℕ, zero, suc, ◌<◌, ◌≡◌, refl, sym, ◌∙◌, ap, Bool, true, false, not, ◌&&◌, ◌||◌, List, [], ◌∷◌,
  ◌++◌, arith, if◌then◌else◌, ◌==◌, length, length-set, set, All, All-append, Bool-cases, inl, inr,
}
use mathlib.Core.Path.{subst}
use basic_sim.Prelude.Int.{ℤ, pos, negsuc, ltb_ℤ, int_ord, lt_ℤ_total, lt_ℤ_irrefl}
use basic_sim.Prelude.Order.{pair_ord, pair_lt}
use basic_sim.Prelude.Text.{Bytes, codes}
use basic_sim.Prelude.Results.{ok, invalid_argument, ◌>>=◌, >>=-eq-ok, guard-eq-ok, ok-injective}
use basic_sim.Containers.SortedSet.{insert, member, same, IsSorted, insert-IsSorted, member-insert}
use basic_sim.ExpUtil.Split.{split_string_expected}
use basic_sim.ExpUtil.Numbers.{parse_int64, parse_positive_int64}
use basic_sim.ExpUtil.Collections.{at_index}
use basic_sim.Topology.{Link, Edges, insert_neighbor, parse_edge, add_edge, read_edges}

-- An edge from a node to a higher one.
abbrev pub IsEdge : ℤ → Link → Type 0
IsEdge n e = (ltb_ℤ e.0 (pos 0) ≡ false) × (ltb_ℤ e.0 e.1 ≡ true) × (ltb_ℤ e.1 n ≡ true)

pub parse_positive_int64-nonneg :
    (s : Bytes) (v : ℤ) → parse_positive_int64 s ≡ ok v → ltb_ℤ v (pos 0) ≡ false
unfolding parse_positive_int64
parse_positive_int64-nonneg s v h =
    let (r, h0, h1) = >>=-eq-ok (parse_int64 s) _ h in
    let (b, h2) = guard-eq-ok (not (ltb_ℤ r (pos 0))) invalid_argument (ok r) h1 in
    ground (arith, b, ok-injective h2)

parse_edge-IsEdge : (n : ℤ) (s : Bytes) (e : Link) → parse_edge n s ≡ ok e → IsEdge n e
unfolding parse_edge same
parse_edge-IsEdge n s e h =
    let (spl, h0, h1) = >>=-eq-ok (split_string_expected s (codes "-") 2) _ h in
    let (a, h2, h3) = >>=-eq-ok (at_index spl 0 >>= parse_positive_int64) _ h1 in
    let (b, h4, h5) = >>=-eq-ok (at_index spl 1 >>= parse_positive_int64) _ h3 in
    let (d, h6) = guard-eq-ok (not (same a b)) invalid_argument _ h5 in
    let (u, h7) = guard-eq-ok (ltb_ℤ a n) invalid_argument _ h6 in
    let (v, h8) = guard-eq-ok (ltb_ℤ b n) invalid_argument _ h7 in
    let (w, h9) = guard-eq-ok (not (ltb_ℤ b a)) invalid_argument (ok (a, b)) h8 in
    let (t, g0, g1) = >>=-eq-ok (at_index spl 0) _ h2 in
    let nonneg = parse_positive_int64-nonneg t a g1 in
    ground (arith, nonneg, d, v, w, ok-injective h9)

-- The adjacency list of a node; it is empty where there is none.
unfoldable pub neighbors : List (List ℤ) → ℕ → List ℤ
neighbors [] i = []
neighbors (x ∷ xs) zero = x
neighbors (x ∷ xs) (suc i) = neighbors xs i

pub at_index-neighbors :
    (lists : List (List ℤ)) (i : ℕ) (row : List ℤ)
    → at_index lists i ≡ ok row
    → (i < length lists) × (row ≡ neighbors lists i)
unfolding neighbors
at_index-neighbors [] i row h = cc
at_index-neighbors (x ∷ lists) zero row h = (omega arith, cc)
at_index-neighbors (x ∷ lists) (suc i) row h =
    let r = at_index-neighbors lists i row h in (omega (arith, r.0), r.1)

neighbors-set :
    (lists : List (List ℤ)) (i j : ℕ) (v : List ℤ)
    → i < length lists
    → neighbors (set lists i v) j ≡ (if i == j then v else neighbors lists j)
unfolding neighbors
neighbors-set [] i j v h = absurd (omega arith)
neighbors-set (x ∷ lists) zero zero v h = refl
neighbors-set (x ∷ lists) zero (suc j) v h = ground arith
neighbors-set (x ∷ lists) (suc i) zero v h = ground arith
neighbors-set (x ∷ lists) (suc i) (suc j) v h = ground (arith, neighbors-set lists i j v)

-- Whether an int64 is the index `i`.
abbrev is_index : ℤ → ℕ → Bool
is_index (pos k) i = k == i
is_index (negsuc k) i = false

insert_neighbor-lem :
    (a b : ℤ) (lists lists' : List (List ℤ))
    → insert_neighbor a b lists ≡ ok lists'
    → (length lists' ≡ length lists)
      × ((c : ℤ) (i : ℕ)
          → member c (neighbors lists' i)
            ≡ (is_index a i && same c b) || member c (neighbors lists i))
unfolding insert_neighbor
insert_neighbor-lem (pos k) b lists lists' h =
    let (row, h0, h1) = >>=-eq-ok (at_index lists k) _ h in
    let (lt, e) = at_index-neighbors lists k row h0 in
    let new : lists' ≡ set lists k (insert b row) = sym (ok-injective h1) in
    (
      ap length new ∙ length-set lists k (insert b row),
      λ c i.
          let at = neighbors-set lists k i (insert b row) lt in
          ap (λ l. member c (neighbors l i)) new ∙ ap (member c) at ∙ elim (Bool-cases (k == i)) [
            | inl same_row ↦
                let k-i : k ≡ i = ground (arith, same_row) in
                ground (arith, same_row, member-insert c b row, ap (neighbors lists) k-i, e)
            | inr other ↦ ground (arith, other)
          ],
    )
insert_neighbor-lem (negsuc k) b lists lists' h = cc

-- What the tables hold after some edges.
pub record IsTables (n : ℤ) (size : ℕ) (es : Edges) : Type 0 where
  pub edges : All (IsEdge n) es.undirected_edges
  pub sorted : IsSorted es.undirected_edges_set
  pub members : (e : Link) → member e es.undirected_edges_set ≡ member e es.undirected_edges
  pub lists : length es.adjacency_list ≡ size
  pub symmetric :
      (i : ℕ) (c : ℤ)
      → member c (neighbors es.adjacency_list i)
        ≡ member (pos i, c) es.undirected_edges || member (c, pos i) es.undirected_edges

member-append : (e x : Link) (es : List Link) → member e (es ++ x ∷ []) ≡ same e x || member e es
unfolding member
member-append e x [] = refl
member-append e x (y ∷ es) = ground (arith, member-append e x es)

same_pair : (x y a b : ℤ) → same {A = Link} (x, y) (a, b) ≡ same x a && same y b
unfolding same pair_lt
same_pair x y a b = ground (arith, lt_ℤ_total x a, lt_ℤ_irrefl a)

same_index : (i : ℕ) (a : ℤ) → same (pos i) a ≡ is_index a i
unfolding same
same_index i (pos k) = ground arith
same_index i (negsuc k) = ground arith

both_ways :
    (a b : ℤ) (i : ℕ) (c : ℤ) (es : List Link) (old : Bool)
    → old ≡ member (pos i, c) es || member (c, pos i) es
    → (is_index b i && same c a) || ((is_index a i && same c b) || old)
      ≡ member (pos i, c) (es ++ (a, b) ∷ []) || member (c, pos i) (es ++ (a, b) ∷ [])
both_ways a b i c es old h = ground (
  h,
  member-append (pos i, c) (a, b) es,
  member-append (c, pos i) (a, b) es,
  same_pair (pos i) c a b,
  same_pair c (pos i) a b,
  same_index i a,
  same_index i b,
  arith,
)

add_edge-IsTables :
    (n : ℤ) (size : ℕ) (e : Link) (es es' : Edges)
    → IsEdge n e
    → add_edge e es ≡ ok es'
    → IsTables n size es
    → IsTables n size es'
unfolding add_edge
add_edge-IsTables n size (a, b) es es' edge h t =
    let (l1, h0, h1) = >>=-eq-ok (insert_neighbor a b es.adjacency_list) _ h in
    let (l2, h2, h3) = >>=-eq-ok (insert_neighbor b a l1) _ h1 in
    let first = insert_neighbor-lem a b es.adjacency_list l1 h0 in
    let second = insert_neighbor-lem b a l1 l2 h2 in
    subst (IsTables n size) (ok-injective h3) (record {
      edges = All-append (IsEdge n) es.undirected_edges ((a, b) ∷ []) t.edges (edge, tt);
      sorted = insert-IsSorted (a, b) es.undirected_edges_set t.sorted;
      members = λ x.
          member-insert x (a, b) es.undirected_edges_set
          ∙ ap (λ m. same x (a, b) || m) (t.members x)
          ∙ sym (member-append x (a, b) es.undirected_edges);
      lists = second.0 ∙ first.0 ∙ t.lists;
      symmetric = λ i c.
          second.1 c i
          ∙ ap (λ m. (is_index b i && same c a) || m) (first.1 c i)
          ∙ both_ways a b i c es.undirected_edges (member c (neighbors es.adjacency_list i))
              (t.symmetric i c);
    })

pub read_edges-IsTables :
    (n : ℤ) (size : ℕ) (strings : List Bytes) (es es' : Edges)
    → read_edges n strings es ≡ ok es'
    → IsTables n size es
    → IsTables n size es'
unfolding read_edges
read_edges-IsTables n size [] es es' h t = subst (IsTables n size) (ok-injective h) t
read_edges-IsTables n size (s ∷ strings) es es' h t =
    let (e, h0, h1) = >>=-eq-ok (parse_edge n s) _ h in
    let (mid, h2, h3) = >>=-eq-ok (add_edge e es) _ h1 in
    read_edges-IsTables n size strings mid es' h3
      (add_edge-IsTables n size e es mid (parse_edge-IsEdge n s e h0) h2 t)
