-- ===== src/Topology/LinkProperties/Coverage.antt =====
-- About the keys of the maps of link properties (model/core/topology-ptop.cc).
use basic_sim.Prelude.{
  suc, ◌*◌, ◌≤◌, ◌≡◌, refl, sym, ◌∙◌, ap, Bool, true, false, ◌||◌, List, [], ◌∷◌, arith, ◌==◌,
  length, Bool-cases, inl, inr, ◌⊎◌,
}
use mathlib.Core.Path.{subst}
use basic_sim.Prelude.Int.{ℤ, ltb_ℤ, int_ord}
use basic_sim.Prelude.Order.{pair_ord}
use basic_sim.Prelude.Text.{Bytes}
use basic_sim.Prelude.Results.{
  Result, ok, runtime_error, ◌>>=◌, >>=-eq-ok, guard-eq-ok, ok-injective,
}
use basic_sim.Containers.SortedSet.{
  member, same, same_iff, insert_all, IsSorted, insert-IsSorted, insert_all-IsSorted,
  member-insert_all,
}
use basic_sim.Containers.SortedSet
use basic_sim.Containers.SortedSet.Subset.{
  IsWithin, insert-IsWithin, subset-length, length-insert_all-le, insert_all_self,
}
use basic_sim.Containers.SortedMap.{insert, keys, keys-insert}
use basic_sim.ExpUtil.Collections.{parse_map_string}
use basic_sim.Topology.{Link, get_links, get_links_set}
use basic_sim.Topology.LinkProperties.{
  LinkMap, parse_undirected_key, undirected_entries, parse_undirected_edge_map, parse_directed_key,
  undirected, directed_entries, parse_directed_edge_map, parse_values, for_each_edge, for_each_link,
}

-- The keys are a set within `s`.
abbrev IsKeyed : List Link → {A : Type 0} → LinkMap A → Type 0
IsKeyed s m = IsSorted (keys m) × IsWithin (keys m) s

insert-IsKeyed :
    {A : Type 0} (s : List Link) (e : Link) (v : A) (m : LinkMap A)
    → member e s ≡ true
    → IsKeyed s m
    → IsKeyed s (insert e v m)
insert-IsKeyed s e v m h k =
    rw (keys-insert e v m) (insert-IsSorted e (keys m) k.0, insert-IsWithin e (keys m) s h k.1)

or_false : (b : Bool) → b || false ≡ b
or_false true = refl
or_false false = refl

pub get_links_set-IsSorted : (s : List Link) → IsSorted (get_links_set s)
unfolding get_links_set
get_links_set-IsSorted s = insert_all-IsSorted (get_links s) [] tt

length-keys : {A : Type 0} (m : LinkMap A) → length (keys m) ≡ length m
length-keys [] = refl
length-keys ((e, v) ∷ m) = ap suc (length-keys m)

undirected_entries-IsKeyed :
    (s : List Link) (pl : List (Bytes × Bytes)) (r m : LinkMap Bytes)
    → undirected_entries s pl r ≡ ok m
    → IsKeyed s r
    → IsKeyed s m
unfolding undirected_entries
undirected_entries-IsKeyed s [] r m h k = subst (IsKeyed s) (ok-injective h) k
undirected_entries-IsKeyed s (p ∷ pl) r m h k =
    let (e, h0, h1) = >>=-eq-ok (parse_undirected_key p.0) _ h in
    let (b, h2) = guard-eq-ok _ _ _ h1 in
    let (known, h3) = guard-eq-ok _ _ _ h2 in
    undirected_entries-IsKeyed s pl (insert e p.1 r) m h3 (insert-IsKeyed s e p.1 r known k)

-- An accepted undirected map has a value for each undirected edge, and for nothing else.
pub parse_undirected_edge_map-keys :
    (s : List Link) (value : Bytes) (m : LinkMap Bytes)
    → IsSorted s
    → parse_undirected_edge_map s value ≡ ok m
    → keys m ≡ s
unfolding parse_undirected_edge_map
parse_undirected_edge_map-keys s value m sorted h =
    let (pl, h0, h1) = >>=-eq-ok (parse_map_string value) _ h in
    let (r, h2, h3) = >>=-eq-ok (undirected_entries s pl []) _ h1 in
    let (size, h4) = guard-eq-ok (length s == length r) runtime_error (ok r) h3 in
    let k = undirected_entries-IsKeyed s pl [] r h2 (tt, tt) in
    let len = length-keys r in
    ap keys (sym (ok-injective h4))
    ∙ (subset-length (keys r) s k.0 sorted k.1).1 (ground (arith, len, size))

directed_entries-IsKeyed :
    (s t : List Link) (pl : List (Bytes × Bytes)) (r m : LinkMap Bytes)
    → ((e : Link) → member (undirected e) s ≡ true → member e t ≡ true)
    → directed_entries s pl r ≡ ok m
    → IsKeyed t r
    → IsKeyed t m
unfolding directed_entries
directed_entries-IsKeyed s t [] r m both h k = subst (IsKeyed t) (ok-injective h) k
directed_entries-IsKeyed s t (p ∷ pl) r m both h k =
    let (e, h0, h1) = >>=-eq-ok (parse_directed_key p.0) _ h in
    let (b, h2) = guard-eq-ok _ _ _ h1 in
    let (known, h3) = guard-eq-ok _ _ _ h2 in
    directed_entries-IsKeyed s t pl (insert e p.1 r) m both h3
      (insert-IsKeyed t e p.1 r (both e known) k)

-- A link of an edge.
pub member-get_links :
    (s : List Link) (a b : ℤ)
    → member (a, b) s || member (b, a) s ≡ true
    → member (a, b) (get_links s) ≡ true
unfolding member get_links
member-get_links [] a b h = cc
member-get_links ((x, y) ∷ s) a b h = ground (
  arith,
  member-get_links s a b,
  same_iff {A = Link} (a, b) (x, y),
  same_iff {A = Link} (a, b) (y, x),
  same_iff {A = Link} (b, a) (x, y),
)

undirected-cases : (a b : ℤ) → (undirected (a, b) ≡ (a, b)) ⊎ (undirected (a, b) ≡ (b, a))
unfolding undirected
undirected-cases a b = elim (Bool-cases (ltb_ℤ a b)) [
  | inl up ↦ inl (ground (arith, up))
  | inr down ↦ inr (ground (arith, down))
]

pub member-get_links_set :
    (s : List Link) (e : Link) → member e (get_links_set s) ≡ member e (get_links s)
unfolding get_links_set
member-get_links_set s e =
    member-insert_all e (get_links s) [] ∙ unfold member in or_false (member e (get_links s))

undirected-link :
    (s : List Link) (e : Link) → member (undirected e) s ≡ true → member e (get_links_set s) ≡ true
undirected-link s (a, b) h =
    member-get_links_set s (a, b)
    ∙ member-get_links s a b (elim (undirected-cases a b) [
      | inl up ↦ ground (arith, ap (λ e. member e s) up, h)
      | inr down ↦ ground (arith, ap (λ e. member e s) down, h)
    ])

length-get_links : (s : List Link) → length (get_links s) ≡ length s * 2
unfolding get_links
length-get_links [] = refl
length-get_links (e ∷ s) = omega (arith, length-get_links s)

length-get_links_set : (s : List Link) → length (get_links_set s) ≤ length s * 2
unfolding get_links_set
length-get_links_set s = omega (arith, length-insert_all-le (get_links s) [] tt, length-get_links s)

-- An accepted directed map has a value for each link, both ways of each edge, and for nothing else.
pub parse_directed_edge_map-keys :
    (s : List Link) (value : Bytes) (m : LinkMap Bytes)
    → parse_directed_edge_map s value ≡ ok m
    → keys m ≡ get_links_set s
unfolding parse_directed_edge_map
parse_directed_edge_map-keys s value m h =
    let (pl, h0, h1) = >>=-eq-ok (parse_map_string value) _ h in
    let (r, h2, h3) = >>=-eq-ok (directed_entries s pl []) _ h1 in
    let (size, h4) = guard-eq-ok (length s * 2 == length r) runtime_error (ok r) h3 in
    let t = get_links_set s in
    let k = directed_entries-IsKeyed s t pl [] r (undirected-link s) h2 (tt, tt) in
    let few : length t ≤ length s * 2 = length-get_links_set s in
    let len = length-keys r in
    ap keys (sym (ok-injective h4))
    ∙ (subset-length (keys r) t k.0 (get_links_set-IsSorted s) k.1).1
        (ground (arith, len, size, few))

module _ {A : Type 0} where
  keys-parse_values :
      (parse : Bytes → Result A) (entries : LinkMap Bytes) (m r : LinkMap A)
      → parse_values parse entries m ≡ ok r
      → keys r ≡ insert_all (keys entries) (keys m)
  unfolding parse_values insert_all
  keys-parse_values parse [] m r h = ap keys (sym (ok-injective h))
  keys-parse_values parse ((e, text) ∷ entries) m r h =
      let (v, h0, h1) = >>=-eq-ok (parse text) _ h in
      keys-parse_values parse entries (insert e v m) r h1
      ∙ ap (insert_all (keys entries)) (keys-insert e v m)

  pub keys-for_each_edge :
      (v : A) (s : List Link) (m : LinkMap A) → keys (for_each_edge v s m) ≡ insert_all s (keys m)
  unfolding for_each_edge insert_all
  keys-for_each_edge v [] m = refl
  keys-for_each_edge v (e ∷ s) m =
      keys-for_each_edge v s (insert e v m) ∙ ap (insert_all s) (keys-insert e v m)

  pub keys-for_each_link :
      (parsed : Result A) (s : List Link) (m r : LinkMap A)
      → for_each_link parsed s m ≡ ok r
      → keys r ≡ insert_all (get_links s) (keys m)
  unfolding for_each_link get_links insert_all
  keys-for_each_link parsed [] m r h = ap keys (sym (ok-injective h))
  keys-for_each_link parsed ((a, b) ∷ s) m r h =
      let (v, h0, h1) = >>=-eq-ok parsed _ h in
      let there = insert (a, b) v m in
      keys-for_each_link parsed s (insert (b, a) v there) r h1
      ∙ ap (insert_all (get_links s))
          (keys-insert (b, a) v there ∙ ap (SortedSet.insert (b, a)) (keys-insert (a, b) v m))

  -- Values parsed for a whole map.
  pub mapped-keys :
      (parse : Bytes → Result A) (t : List Link) (map : Result (LinkMap Bytes)) (r : LinkMap A)
      → ((m : LinkMap Bytes) → map ≡ ok m → keys m ≡ t)
      → IsSorted t
      → (map >>= λ entries. parse_values parse entries []) ≡ ok r
      → keys r ≡ t
  mapped-keys parse t map r covers sorted h =
      let (m, h0, h1) = >>=-eq-ok map _ h in
      keys-parse_values parse m [] r h1
      ∙ ap (λ ks. insert_all ks []) (covers m h0)
      ∙ insert_all_self t sorted
