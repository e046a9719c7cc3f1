-- ===== src/Containers/SortedMap.antt =====
-- `std::map<A, B>`: `insert` does not replace a value, `find` gives the value.
use basic_sim.Prelude.{◌≡◌, refl, false, List, [], ◌∷◌, arith, if◌then◌else◌, Option, none, some}
use basic_sim.Prelude.Order.{Ord}
use basic_sim.Containers.SortedSet.{same, Above, IsSorted, Above-trans, same_iff}
use basic_sim.Containers.SortedSet

module _ {A B : Type 0} ⦃o : Ord A⦄ where
  unfoldable pub find : A → List (A × B) → Option B
  find a [] = none
  find a ((x, v) ∷ m) = if same a x then some v else find a m

  unfoldable pub insert : A → B → List (A × B) → List (A × B)
  insert a b [] = (a, b) ∷ []
  insert a b ((x, v) ∷ m) =
      let rest = insert a b m in
      if o.lt a x then (a, b) ∷ (x, v) ∷ m else if o.lt x a then (x, v) ∷ rest else (x, v) ∷ m

  abbrev pub keys : List (A × B) → List A
  keys [] = []
  keys ((x, v) ∷ m) = x ∷ keys m

  -- The keys are those of the set with the new key.
  pub keys-insert :
      (a : A) (b : B) (m : List (A × B)) → keys (insert a b m) ≡ SortedSet.insert a (keys m)
  unfolding insert SortedSet.insert
  keys-insert a b [] = refl
  keys-insert a b ((x, v) ∷ m) = ground (arith, keys-insert a b m)

  -- A key is found if it is in the set of the keys.
  pub find-member :
      (a : A) (m : List (A × B)) → SortedSet.member a (keys m) ≡ false → find a m ≡ none
  unfolding find SortedSet.member
  find-member a [] h = refl
  find-member a ((x, v) ∷ m) h = ground (arith, find-member a m)

  -- What `find` gives after an insertion: the old value of the key if there was one.
  pub find-insert :
      (c a : A) (b : B) (m : List (A × B))
      → IsSorted (keys m)
      → find c (insert a b m)
        ≡ elim (find c m) [ some v ↦ some v | none ↦ (if same c a then some b else none) ]
  unfolding find insert
  find-insert c a b [] s = refl
  find-insert c a b ((x, v) ∷ m) s = ground (
    arith,
    find-insert c a b m s.1,
    o.lt_total a x,
    o.lt_irrefl a,
    o.lt_trans a x a,
    same_iff c a,
    same_iff c x,
    find-member a m,
    SortedSet.not_member a (keys m),
    Above-trans a x (keys m),
  )

  pub find-none : (a : A) (m : List (A × B)) → find a m ≡ none → SortedSet.member a (keys m) ≡ false
  unfolding find SortedSet.member
  find-none a [] h = refl
  find-none a ((x, v) ∷ m) h = ground (arith, find-none a m)
