-- ===== src/Containers/SortedSet/Merge.antt =====
-- About the two merges of sorted sets, std::set_intersection and std::set_union.
use basic_sim.Prelude.{
  ◌≡◌, refl, ap, ◌∙◌, inl, inr, Bool-cases, Bool, true, false, ◌&&◌, ◌||◌, List, [], ◌∷◌, arith,
}
use basic_sim.Prelude.Order.{Ord}
use basic_sim.Containers.SortedSet.{
  member, intersection, union, Above, IsSorted, Above-trans, same_iff, not_member,
}

module _ {A : Type 0} ⦃o : Ord A⦄ where
  below_all : (b a : A) (xs : List A) → o.lt b a ≡ true → Above a xs → member b xs ≡ false
  below_all b a xs h k = not_member b xs (Above-trans b a xs h k)

  -- The head of one set is below the other set: it is no item of the other.
  skip_head :
      (b x y : A) (xs ys : List A)
      → o.lt x y ≡ true
      → Above y ys
      → member b xs && member b (y ∷ ys) ≡ member b (x ∷ xs) && member b (y ∷ ys)
  unfolding member
  skip_head b x y xs ys xy k =
      let out = not_member x (y ∷ ys) (xy, Above-trans x y ys xy k) in
      ground (arith, same_iff b x, out)

  cons_member : (b x : A) (xs : List A) → member b (x ∷ xs) ≡ member b (x ∷ []) || member b xs
  unfolding member
  cons_member b x xs = ground arith

  union_left :
      (b x : A) (xs ys : List A) (r : Bool)
      → r ≡ member b xs || member b ys
      → member b (x ∷ []) || r ≡ member b (x ∷ xs) || member b ys
  unfolding member
  union_left b x xs ys r h = ground arith

  union_right :
      (b y : A) (xs ys : List A) (r : Bool)
      → r ≡ member b xs || member b ys
      → member b (y ∷ []) || r ≡ member b xs || member b (y ∷ ys)
  unfolding member
  union_right b y xs ys r h = ground arith

  union_both :
      (b x y : A) (xs ys : List A) (r : Bool)
      → x ≡ y
      → r ≡ member b xs || member b ys
      → member b (x ∷ []) || r ≡ member b (x ∷ xs) || member b (y ∷ ys)
  unfolding member
  union_both b x y xs ys r e h = ground arith

  skip_head_right :
      (b x y : A) (xs ys : List A)
      → o.lt y x ≡ true
      → Above x xs
      → member b (x ∷ xs) && member b ys ≡ member b (x ∷ xs) && member b (y ∷ ys)
  unfolding member
  skip_head_right b x y xs ys yx k =
      let out = not_member y (x ∷ xs) (yx, Above-trans y x xs yx k) in
      ground (arith, same_iff b y, out)

  -- The two heads are one item.
  shared_head :
      (b x y : A) (xs ys : List A)
      → x ≡ y
      → Above x xs
      → Above y ys
      → member b (x ∷ []) || (member b xs && member b ys) ≡ member b (x ∷ xs) && member b (y ∷ ys)
  unfolding member
  shared_head b x y xs ys e h k = ground arith

  pub member-intersection :
      (b : A) (xs ys : List A)
      → IsSorted xs
      → IsSorted ys
      → member b (intersection xs ys) ≡ member b xs && member b ys
  unfolding intersection
  member-intersection b [] ys sx sy = unfold member in refl
  member-intersection b (x ∷ xs) [] sx sy = unfold member in ground arith
  member-intersection b (x ∷ xs) (y ∷ ys) sx sy = elim (Bool-cases (o.lt x y)) [
    | inl xy ↦
        rw (xy, intersection)
          (member-intersection b xs (y ∷ ys) sx.1 sy ∙ skip_head b x y xs ys xy sy.0)
    | inr nxy ↦ elim (Bool-cases (o.lt y x)) [
      | inl yx ↦
          rw (nxy, yx, intersection)
            (member-intersection b (x ∷ xs) ys sx sy.1 ∙ skip_head_right b x y xs ys yx sx.0)
      | inr nyx ↦
          rw (nxy, nyx, intersection)
            (cons_member b x (intersection xs ys)
              ∙ ap (λ r. member b (x ∷ []) || r) (member-intersection b xs ys sx.1 sy.1)
              ∙ shared_head b x y xs ys (o.lt_total x y nxy nyx) sx.0 sy.0)
    ]
  ]

  pub member-union : (b : A) (xs ys : List A) → member b (union xs ys) ≡ member b xs || member b ys
  unfolding union
  member-union b [] ys = unfold member in refl
  member-union b (x ∷ xs) [] = unfold member in ground arith
  member-union b (x ∷ xs) (y ∷ ys) = elim (Bool-cases (o.lt x y)) [
    | inl xy ↦
        rw (xy, union)
          (cons_member b x (union xs (y ∷ ys))
            ∙ union_left b x xs (y ∷ ys) _ (member-union b xs (y ∷ ys)))
    | inr nxy ↦ elim (Bool-cases (o.lt y x)) [
      | inl yx ↦
          rw (nxy, yx, union)
            (cons_member b y (union (x ∷ xs) ys)
              ∙ union_right b y (x ∷ xs) ys _ (member-union b (x ∷ xs) ys))
      | inr nyx ↦
          rw (nxy, nyx, union)
            (cons_member b x (union xs ys)
              ∙ union_both b x y xs ys _ (o.lt_total x y nxy nyx) (member-union b xs ys))
    ]
  ]

  Above-intersection : (a : A) (xs ys : List A) → Above a xs → Above a (intersection xs ys)
  unfolding intersection
  Above-intersection a [] ys h = tt
  Above-intersection a (x ∷ xs) [] h = tt
  Above-intersection a (x ∷ xs) (y ∷ ys) h = ground (
    arith,
    Above-intersection a xs (y ∷ ys),
    Above-intersection a (x ∷ xs) ys,
    Above-intersection a xs ys,
  )

  pub intersection-IsSorted : (xs ys : List A) → IsSorted xs → IsSorted (intersection xs ys)
  unfolding intersection
  intersection-IsSorted [] ys s = tt
  intersection-IsSorted (x ∷ xs) [] s = tt
  intersection-IsSorted (x ∷ xs) (y ∷ ys) s = ground (
    arith,
    intersection-IsSorted xs (y ∷ ys) s.1,
    intersection-IsSorted (x ∷ xs) ys s,
    intersection-IsSorted xs ys s.1,
    Above-intersection x xs ys s.0,
  )

  Above-union : (a : A) (xs ys : List A) → Above a xs → Above a ys → Above a (union xs ys)
  unfolding union
  Above-union a [] ys h k = k
  Above-union a (x ∷ xs) [] h k = h
  Above-union a (x ∷ xs) (y ∷ ys) h k =
      ground (arith, Above-union a xs (y ∷ ys), Above-union a (x ∷ xs) ys, Above-union a xs ys)

  pub union-IsSorted : (xs ys : List A) → IsSorted xs → IsSorted ys → IsSorted (union xs ys)
  unfolding union
  union-IsSorted [] ys s t = t
  union-IsSorted (x ∷ xs) [] s t = s
  union-IsSorted (x ∷ xs) (y ∷ ys) s t = ground (
    arith,
    union-IsSorted xs (y ∷ ys) s.1 t,
    union-IsSorted (x ∷ xs) ys s t.1,
    union-IsSorted xs ys s.1 t.1,
    Above-union x xs (y ∷ ys) s.0,
    Above-union y (x ∷ xs) ys,
    Above-union x xs ys s.0,
    Above-trans x y ys,
    Above-trans y x xs,
    o.lt_total x y,
  )
