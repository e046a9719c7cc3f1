-- ===== src/Containers/SortedSet/Subset.antt =====
-- About sets of one size of which one is within the other.
use basic_sim.Prelude.{
  ◌≤◌, ◌≡◌, refl, sym, ◌∙◌, ◌+◌, Bool, true, false, ◌||◌, List, [], ◌∷◌, arith, length, All,
  Bool-cases, inl, inr,
}
use basic_sim.Prelude.Order.{Ord}
use basic_sim.Containers.SortedSet.{
  member, Above, IsSorted, Above-trans, same_iff, not_member, insert, insert_all, insert-IsSorted,
  length-insert, insert_all-IsSorted, member-insert_all,
}

or_false : (b : Bool) → b || false ≡ b
or_false true = refl
or_false false = refl

module _ {A : Type 0} ⦃o : Ord A⦄ where
  -- Every item of the first list is in the second.
  abbrev pub IsWithin : List A → List A → Type 0
  IsWithin xs ys = All (λ x. member x ys ≡ true) xs

  IsWithin-tail : (y : A) (ys xs : List A) → Above y xs → IsWithin xs (y ∷ ys) → IsWithin xs ys
  unfolding member
  IsWithin-tail y ys [] h w = tt
  IsWithin-tail y ys (x ∷ xs) h w =
      (ground (arith, w.0, same_iff x y, h.0, o.lt_irrefl y), IsWithin-tail y ys xs h.1 w.1)

  pub subset-length :
      (xs ys : List A)
      → IsSorted xs
      → IsSorted ys
      → IsWithin xs ys
      → (length xs ≤ length ys) × (length ys ≤ length xs → xs ≡ ys)
  unfolding member
  subset-length [] [] s t w = (omega arith, λ h. refl)
  subset-length [] (y ∷ ys) s t w = (omega arith, λ h. absurd (omega arith))
  subset-length (x ∷ xs) [] s t w = ground (arith, w.0)
  subset-length (x ∷ xs) (y ∷ ys) s t w = elim (Bool-cases (o.lt y x)) [
    | inl below ↦
        let le =
          (subset-length (x ∷ xs) ys s t.1
            (IsWithin-tail y ys (x ∷ xs) (below, Above-trans y x xs below s.0) w)).0 in
        (omega (arith, le), λ h. absurd (omega (arith, le)))
    | inr e ↦
        let at : x ≡ y =
          ground
            (arith, w.0, o.lt_total x y, same_iff x y, not_member x ys, Above-trans x y ys, t.0) in
        let rest = subset-length xs ys s.1 t.1 (IsWithin-tail y ys xs (rw (sym at) s.0) w.1) in
        (omega (arith, rest.0), λ h. cc (at, rest.1 (omega arith)))
  ]

  pub IsWithin-of_members :
      (xs ys : List A) → ((b : A) → member b xs ≡ true → member b ys ≡ true) → IsWithin xs ys
  unfolding member
  IsWithin-of_members [] ys h = tt
  IsWithin-of_members (x ∷ xs) ys h =
      (h x (ground (arith, same_iff x x)), IsWithin-of_members xs ys (λ b m. h b (ground arith)))

  -- A set is determined by its members.
  pub same_members :
      (xs ys : List A) → IsSorted xs → IsSorted ys → ((b : A) → member b xs ≡ member b ys) → xs ≡ ys
  same_members xs ys s t h =
      let le = (subset-length ys xs t s (IsWithin-of_members ys xs (λ b m. h b ∙ m))).0 in
      (subset-length xs ys s t (IsWithin-of_members xs ys (λ b m. sym (h b) ∙ m))).1 le

  pub insert-IsWithin :
      (a : A) (xs ys : List A) → member a ys ≡ true → IsWithin xs ys → IsWithin (insert a xs) ys
  unfolding insert
  insert-IsWithin a [] ys h w = (h, tt)
  insert-IsWithin a (x ∷ xs) ys h w = ground (arith, insert-IsWithin a xs ys h w.1)

  pub length-insert_all-le :
      (xs s : List A) → IsSorted s → length (insert_all xs s) ≤ length xs + length s
  unfolding insert_all
  length-insert_all-le [] s h = omega arith
  length-insert_all-le (x ∷ xs) s h =
      ground
        (arith, length-insert_all-le xs (insert x s) (insert-IsSorted x s h), length-insert x s h)

  -- A set inserted into the empty one is itself.
  pub insert_all_self : (xs : List A) → IsSorted xs → insert_all xs [] ≡ xs
  insert_all_self xs s =
      same_members (insert_all xs []) xs (insert_all-IsSorted xs [] tt) s
        (λ b. member-insert_all b xs [] ∙ unfold member in or_false (member b xs))
