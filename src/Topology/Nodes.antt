-- ===== src/Topology/Nodes.antt =====
-- Sets of node ids: what a parameter gives, and the set of all ids.
use basic_sim.Prelude.{
  ℕ, zero, suc, ◌≡◌, refl, sym, ◌∙◌, ap, true, false, not, ◌&&◌, ◌||◌, List, [], ◌∷◌, arith, ◌==◌,
  length, All, Bool-cases, inl, inr,
}
use mathlib.Core.Path.{subst}
use basic_sim.Prelude.Int.{ℤ, pos, negsuc, ltb_ℤ, int_ord}
use basic_sim.Prelude.Text.{Bytes}
use basic_sim.Prelude.Order.{Ord}
use basic_sim.Prelude.Results.{
  Result, ok, invalid_argument, >>=-eq-ok, guard-eq-ok, ok-injective, map_result,
}
use basic_sim.Containers.SortedSet.{
  insert, insert_all, member, same, same_iff, IsSorted, insert-IsSorted, insert_all-IsSorted,
  member-insert, length-insert,
}
use basic_sim.ExpUtil.Numbers.{parse_positive_int64}
use basic_sim.ExpUtil.Collections.{
  parse_set_string, parse_set_positive_int64, all_items_are_less_than,
}
use basic_sim.ExpUtil.Config.{Config, get_param_or_fail}
use basic_sim.Topology.{parse_nodes, all_ids}
use basic_sim.Topology.Laws.{parse_positive_int64-nonneg}

module _ {A : Type 0} ⦃o : Ord A⦄ where
  pub All-member : (P : A → Type 0) (a : A) (xs : List A) → All P xs → member a xs ≡ true → P a
  unfolding member
  All-member P a [] h m = cc
  All-member P a (x ∷ xs) h m = elim (Bool-cases (same a x)) [
    | inl e ↦ subst P (sym ((same_iff a x).0 e)) h.0
    | inr e ↦ All-member P a xs h.1 (ground (arith, e, m))
  ]

  All-insert : (P : A → Type 0) (a : A) (xs : List A) → P a → All P xs → All P (insert a xs)
  unfolding insert
  All-insert P a [] p h = (p, tt)
  All-insert P a (x ∷ xs) p h =
      let rest = All-insert P a xs p h.1 in
      elim (Bool-cases (o.lt a x)) [
        | inl e ↦ rw (e, insert) (p, h)
        | inr e ↦ elim (Bool-cases (o.lt x a)) [
          | inl f ↦ rw (e, f, insert) (h.0, rest)
          | inr f ↦ rw (e, f, insert) h
        ]
      ]

  All-insert_all :
      (P : A → Type 0) (as' xs : List A) → All P as' → All P xs → All P (insert_all as' xs)
  unfolding insert_all
  All-insert_all P [] xs p h = h
  All-insert_all P (a ∷ as') xs p h =
      All-insert_all P as' (insert a xs) p.1 (All-insert P a xs p.0 h)

All-map_result :
    {A B : Type 0} (P : B → Type 0) (f : A → Result B) (xs : List A) (ys : List B)
    → ((x : A) (y : B) → f x ≡ ok y → P y)
    → map_result f xs ≡ ok ys
    → All P ys
unfolding map_result
All-map_result P f [] ys p h = subst (All P) (ok-injective h) tt
All-map_result P f (x ∷ xs) ys p h =
    let (y, h0, h1) = >>=-eq-ok (f x) _ h in
    let (zs, h2, h3) = >>=-eq-ok (map_result f xs) _ h1 in
    subst (All P) (ok-injective h3) (p x y h0, All-map_result P f xs zs p h2)

-- The id of a node.
abbrev pub IsNode : ℤ → ℤ → Type 0
IsNode n v = (ltb_ℤ v (pos 0) ≡ false) × (ltb_ℤ v n ≡ true)

less_than-all :
    (n : ℤ) (ids : List ℤ)
    → all_items_are_less_than ids n ≡ ok tt
    → All (λ v. ltb_ℤ v (pos 0) ≡ false) ids
    → All (IsNode n) ids
unfolding all_items_are_less_than
less_than-all n [] h p = tt
less_than-all n (v ∷ ids) h p =
    let (b, h') = guard-eq-ok (ltb_ℤ v n) invalid_argument (all_items_are_less_than ids n) h in
    ((p.0, b), less_than-all n ids h' p.1)

less_eq : {r : Result (Unit {0})} (u : Unit {0}) → r ≡ ok u → r ≡ ok tt
less_eq tt h = h

pub parse_nodes-IsNode :
    (key : Bytes) (n : ℤ) (config : Config) (ids : List ℤ)
    → parse_nodes key n config ≡ ok ids
    → IsSorted ids × All (IsNode n) ids
unfolding parse_nodes parse_set_positive_int64
parse_nodes-IsNode key n config ids h =
    let (tmp, h0, h1) = >>=-eq-ok (get_param_or_fail key config) _ h in
    let (s, h2, h3) = >>=-eq-ok (parse_set_positive_int64 tmp) _ h1 in
    let (u, h4, h5) = >>=-eq-ok (all_items_are_less_than s n) (λ u. ok s) h3 in
    let (strings, g0, g1) = >>=-eq-ok (parse_set_string tmp) _ h2 in
    let (ints, g2, g3) = >>=-eq-ok (map_result parse_positive_int64 strings) _ g1 in
    let (size, g4) =
      guard-eq-ok (length strings == length (insert_all ints [])) invalid_argument
        (ok (insert_all ints [])) g3 in
    let nonneg =
      All-map_result (λ v. ltb_ℤ v (pos 0) ≡ false) parse_positive_int64 strings ints
        parse_positive_int64-nonneg g2 in
    let e : insert_all ints [] ≡ s = ok-injective g4 in
    subst (λ r. IsSorted r × All (IsNode n) r) (ok-injective h5)
      (
        subst IsSorted e (insert_all-IsSorted ints [] tt),
        less_than-all n s (less_eq u h4)
            (subst (All (λ v. ltb_ℤ v (pos 0) ≡ false)) e (All-insert_all _ ints [] nonneg tt)),
      )

pub all_ids-IsSorted : (n : ℕ) → IsSorted (all_ids n)
unfolding all_ids
all_ids-IsSorted zero = tt
all_ids-IsSorted (suc n) = insert-IsSorted (pos n) (all_ids n) (all_ids-IsSorted n)

last_id :
    (n : ℕ) (v : ℤ)
    → same v (pos n) || (not (ltb_ℤ v (pos 0)) && ltb_ℤ v (pos n))
      ≡ not (ltb_ℤ v (pos 0)) && ltb_ℤ v (pos (suc n))
unfolding same
last_id n (pos k) = ground arith
last_id n (negsuc k) = ground arith

pub member-all_ids :
    (n : ℕ) (v : ℤ) → member v (all_ids n) ≡ not (ltb_ℤ v (pos 0)) && ltb_ℤ v (pos n)
unfolding all_ids
member-all_ids zero v = unfold member in ground arith
member-all_ids (suc n) v =
    member-insert v (pos n) (all_ids n)
    ∙ ap (λ m. same v (pos n) || m) (member-all_ids n v)
    ∙ last_id n v

pub length-all_ids : (n : ℕ) → length (all_ids n) ≡ n
unfolding all_ids
length-all_ids zero = refl
length-all_ids (suc n) = ground (
  arith,
  length-insert (pos n) (all_ids n) (all_ids-IsSorted n),
  member-all_ids n (pos n),
  length-all_ids n,
)
