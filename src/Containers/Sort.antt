-- ===== src/Containers/Sort.antt =====
-- `std::sort` of a vector.
use basic_sim.Prelude.{suc, ◌≡◌, refl, ◌∙◌, ap, ◌||◌, List, [], ◌∷◌, arith, if◌then◌else◌, length}
use basic_sim.Prelude.Order.{Ord}
use basic_sim.Containers.SortedSet.{member, same}

module _ {A : Type 0} ⦃o : Ord A⦄ where
  unfoldable pub put : A → List A → List A
  put a [] = a ∷ []
  put a (x ∷ xs) = let rest = put a xs in if o.lt x a then x ∷ rest else a ∷ x ∷ xs

  unfoldable pub sort : List A → List A
  unfolding put
  sort [] = []
  sort (x ∷ xs) = put x (sort xs)

  length-put : (a : A) (xs : List A) → length (put a xs) ≡ suc (length xs)
  unfolding put
  length-put a [] = refl
  length-put a (x ∷ xs) = ground (arith, length-put a xs)

  pub length-sort : (xs : List A) → length (sort xs) ≡ length xs
  unfolding sort
  length-sort [] = refl
  length-sort (x ∷ xs) = length-put x (sort xs) ∙ ap suc (length-sort xs)

  member-put : (b a : A) (xs : List A) → member b (put a xs) ≡ same b a || member b xs
  unfolding put member
  member-put b a [] = refl
  member-put b a (x ∷ xs) = ground (arith, member-put b a xs)

  pub member-sort : (b : A) (xs : List A) → member b (sort xs) ≡ member b xs
  unfolding sort member
  member-sort b [] = refl
  member-sort b (x ∷ xs) = member-put b x (sort xs) ∙ ap (λ t. same b x || t) (member-sort b xs)
