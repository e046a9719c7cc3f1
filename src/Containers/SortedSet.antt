-- ===== src/Containers/SortedSet.antt =====
-- `std::set<A>`: insertion, lookup, and the merges `std::set_intersection` and `std::set_union`.
pub mod Merge
pub mod Subset
use basic_sim.Prelude.{
  ℕ, ◌+◌, ◌≡◌, refl, Bool, true, false, not, ◌&&◌, ◌||◌, List, [], ◌∷◌, arith, if◌then◌else◌,
  length, All, inl, inr, Bool-cases, ◌⊎◌, ◌↔◌,
}
use basic_sim.Prelude.Order.{Ord}

module _ {A : Type 0} ⦃o : Ord A⦄ where
  -- Two values are one key if neither is less.
  unfoldable pub same : A → A → Bool
  same a b = not (o.lt a b) && not (o.lt b a)

  unfoldable pub member : A → List A → Bool
  unfolding same
  member a [] = false
  member a (x ∷ xs) = same a x || member a xs

  unfoldable pub insert : A → List A → List A
  insert a [] = a ∷ []
  insert a (x ∷ xs) =
      let rest = insert a xs in
      if o.lt a x then a ∷ x ∷ xs else if o.lt x a then x ∷ rest else x ∷ xs

  -- Insert the items of a list, first to last.
  unfoldable pub insert_all : List A → List A → List A
  insert_all [] s = s
  insert_all (a ∷ as') s = insert_all as' (insert a s)

  unfoldable pub intersection : List A → List A → List A
  intersection [] ys = []
  intersection (x ∷ xs) [] = []
  intersection (x ∷ xs) (y ∷ ys) = elim (o.lt x y) [
    | true ↦ intersection xs (y ∷ ys)
    | false ↦ elim (o.lt y x) [ true ↦ intersection (x ∷ xs) ys | false ↦ x ∷ intersection xs ys ]
  ]

  unfoldable pub union : List A → List A → List A
  union [] ys = ys
  union (x ∷ xs) [] = x ∷ xs
  union (x ∷ xs) (y ∷ ys) = elim (o.lt x y) [
    | true ↦ x ∷ union xs (y ∷ ys)
    | false ↦ elim (o.lt y x) [ true ↦ y ∷ union (x ∷ xs) ys | false ↦ x ∷ union xs ys ]
  ]

  -- Every item is above `a`.
  abbrev pub Above : A → List A → Type 0
  Above a = All (λ x. o.lt a x ≡ true)

  abbrev pub IsSorted : List A → Type 0
  IsSorted [] = Unit
  IsSorted (x ∷ xs) = Above x xs × IsSorted xs

  pub Above-trans : (a b : A) (xs : List A) → o.lt a b ≡ true → Above b xs → Above a xs
  Above-trans a b [] h k = tt
  Above-trans a b (x ∷ xs) h k = (o.lt_trans a b x h k.0, Above-trans a b xs h k.1)

  pub same_iff : (a b : A) → (same a b ≡ true) ↔ (a ≡ b)
  unfolding same
  same_iff a b = ground (arith, o.lt_total a b, o.lt_irrefl a)

  -- What is below every item is no item.
  pub not_member : (a : A) (xs : List A) → Above a xs → member a xs ≡ false
  unfolding member
  not_member a [] h = refl
  not_member a (x ∷ xs) h = ground (arith, not_member a xs)

  Above-insert : (b a : A) (xs : List A) → o.lt b a ≡ true → Above b xs → Above b (insert a xs)
  unfolding insert
  Above-insert b a [] h k = (h, tt)
  Above-insert b a (x ∷ xs) h k = ground (arith, Above-insert b a xs)

  pub insert-IsSorted : (a : A) (xs : List A) → IsSorted xs → IsSorted (insert a xs)
  unfolding insert
  insert-IsSorted a [] s = (tt, tt)
  insert-IsSorted a (x ∷ xs) s =
      ground (arith, insert-IsSorted a xs s.1, Above-insert x a xs, Above-trans a x xs)

  pub member-insert : (b a : A) (xs : List A) → member b (insert a xs) ≡ same b a || member b xs
  unfolding insert member
  member-insert b a [] = refl
  member-insert b a (x ∷ xs) = ground (arith, member-insert b a xs, o.lt_total a x, o.lt_irrefl a)

  pub length-insert :
      (a : A) (xs : List A)
      → IsSorted xs
      → length (insert a xs) ≡ (if member a xs then length xs else length xs + 1)
  unfolding insert member
  length-insert a [] s = omega arith
  length-insert a (x ∷ xs) s =
      ground (arith, length-insert a xs s.1, not_member a xs, Above-trans a x xs)

  pub insert_all-IsSorted : (as' xs : List A) → IsSorted xs → IsSorted (insert_all as' xs)
  unfolding insert_all
  insert_all-IsSorted [] xs s = s
  insert_all-IsSorted (a ∷ as') xs s =
      insert_all-IsSorted as' (insert a xs) (insert-IsSorted a xs s)

  pub member-insert_all :
      (b : A) (as' xs : List A) → member b (insert_all as' xs) ≡ member b as' || member b xs
  unfolding insert_all member
  member-insert_all b [] xs = refl
  member-insert_all b (a ∷ as') xs =
      ground (arith, member-insert_all b as' (insert a xs), member-insert b a xs)
