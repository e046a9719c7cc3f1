-- ===== src/ExpUtil/Collections/Laws.antt =====
-- What the parsers of sets accept, and what the set then holds.
use basic_sim.Prelude.{
  ℕ, suc, ◌-◌, ◌+◌, ◌≤◌, ◌≡◌, ◌≢◌, refl, sym, Bool, true, false, ◌||◌, List, [], ◌∷◌, ◌++◌, map,
  if◌then◌else◌, ◌==◌, length, drop, take, is_nil, ap, ◌∙◌, arith, Bool-cases, inl, inr,
  length-append, length-drop, take-append-drop, append-nil, ◌⊎◌, length-map,
}
use basic_sim.Prelude.Order.{Ord}
use basic_sim.Prelude.Int.{int_ord}
use basic_sim.Prelude.Text.{Bytes, codes, bytes_beq, bytes_beq_iff, bytes_ord}
use basic_sim.Prelude.Results.{ok, invalid_argument, guard, ◌>>◌, >>=-eq-ok}
use basic_sim.Containers.SortedSet.{
  insert, insert_all, member, IsSorted, insert-IsSorted, insert_all-IsSorted, member-insert_all,
  length-insert,
}
use basic_sim.Containers.SortedSet.Subset.{length-insert_all-le}
use basic_sim.ExpUtil.Strings.{trim, starts_with, ends_with}
use basic_sim.ExpUtil.Split.{split_string}
use basic_sim.ExpUtil.Collections.{comma, inside, parse_set_string}

module _ {A : Type 0} ⦃o : Ord A⦄ where
  -- No item stands in a list twice, nor in the set `s`.
  abbrev pub IsDistinct : List A → List A → Type 0
  IsDistinct [] s = Unit
  IsDistinct (x ∷ xs) s = (member x s ≡ false) × IsDistinct xs (insert x s)

  -- The set has the size of the list only if nothing was in it before.
  pub insert_all-IsDistinct :
      (xs s : List A)
      → IsSorted s
      → length (insert_all xs s) ≡ length xs + length s
      → IsDistinct xs s
  unfolding insert_all
  insert_all-IsDistinct [] s h e = tt
  insert_all-IsDistinct (x ∷ xs) s h e =
      let h' = insert-IsSorted x s h in
      ground (
        arith,
        insert_all-IsDistinct xs (insert x s) h',
        length-insert_all-le xs (insert x s) h',
        length-insert x s h,
      )

starts_with_split :
    (str prefix : Bytes) → starts_with str prefix ≡ true → str ≡ prefix ++ drop (length prefix) str
unfolding starts_with
starts_with_split str prefix h =
    let e : take (length prefix) str ≡ prefix =
      (bytes_beq_iff (take (length prefix) str) prefix).0 (ground (arith, h)) in
    sym (take-append-drop (length prefix) str) ∙ ap (λ p. p ++ drop (length prefix) str) e

pub ends_with_split :
    (str suffix : Bytes)
    → ends_with str suffix ≡ true
    → str ≡ take (length str - length suffix) str ++ suffix
unfolding ends_with
ends_with_split str suffix h =
    let n = length str - length suffix in
    let e : drop n str ≡ suffix = (bytes_beq_iff (drop n str) suffix).0 (ground (arith, h)) in
    sym (take-append-drop n str) ∙ ap (λ p. take n str ++ p) e

drop-append : (xs ys : Bytes) (n : ℕ) → drop (length xs + n) (xs ++ ys) ≡ drop n ys
drop-append [] ys n = let z : 0 + n ≡ n = omega arith in rw z
drop-append (x ∷ xs) ys n =
    let z : suc (length xs) + n ≡ suc (length xs + n) = omega arith in rw z (drop-append xs ys n)

inside_tail :
    (opening q : Bytes)
    → q ≢ []
    → ends_with (opening ++ q) (41 ∷ []) ≡ true
    → q ≡ take (length q - 1) q ++ 41 ∷ []
unfolding ends_with
inside_tail opening q ne h =
    let len = length-append opening q in
    let pos-q : 1 ≤ length q = not_empty q ne in
    let n : length (opening ++ q) - 1 ≡ length opening + (length q - 1) =
      omega (arith, len, pos-q) in
    let e : drop (length (opening ++ q) - 1) (opening ++ q) ≡ 41 ∷ [] =
      (bytes_beq_iff (drop (length (opening ++ q) - 1) (opening ++ q)) (41 ∷ [])).0
        (ground (arith, h)) in
    let e' : drop (length q - 1) q ≡ 41 ∷ [] =
      sym (drop-append opening q (length q - 1)) ∙ ap (λ k. drop k (opening ++ q)) (sym n) ∙ e in
    sym (take-append-drop (length q - 1) q) ∙ ap (λ p. take (length q - 1) q ++ p) e'
  where
    not_empty : (q : Bytes) → q ≢ [] → 1 ≤ length q
    not_empty [] h = absurd (h refl)
    not_empty (c ∷ q) h = omega arith

-- What is inside stands between the opening and the closing parenthesis.
pub inside_sound :
    (opening str r : Bytes)
    → ends_with opening (codes ")") ≡ false
    → inside opening str ≡ ok r
    → str ≡ opening ++ (r ++ codes ")")
unfolding inside
inside_sound opening str r unclosed h =
    let q = drop (length opening) str in
    let both : (starts_with str opening ≡ true)
        × (ends_with str (codes ")") ≡ true)
        × (r ≡ take (length str - suc (length opening)) q) =
      ground (arith, h) in
    let e : str ≡ opening ++ q = starts_with_split str opening both.0 in
    let closed : ends_with (opening ++ q) (codes ")") ≡ true =
      ap (λ t. ends_with t (codes ")")) (sym e) ∙ both.1 in
    let tail : q ≡ take (length q - 1) q ++ codes ")" =
      inside_tail opening q
        (λ empty. cc (
          unclosed,
          closed,
          ap (λ t. ends_with (opening ++ t) (codes ")")) empty,
          append-nil opening,
          ap (λ t. ends_with t (codes ")")) (append-nil opening),
        ))
        closed in
    let n : length str - suc (length opening) ≡ length q - 1 =
      omega (arith, length-drop (length opening) str) in
    e
    ∙ ap (λ t. opening ++ t)
        (tail ∙ ap (λ t. t ++ codes ")") (ap (λ k. take k q) (sym n) ∙ sym both.2))

-- The entries of a set as they are written, without the spaces around them.
abbrev pub entries : Bytes → List Bytes
entries inner = map trim (split_string inner (codes ","))

-- A sorted set that holds what stands inside: nothing between blanks, or the entries, which differ.
abbrev pub IsSetOf : Bytes → List Bytes → Type 0
IsSetOf inner s =
    ((trim inner ≡ []) × (s ≡ []))
    ⊎ (IsDistinct (entries inner) []
        × (length s ≡ length (entries inner))
        × ((b : Bytes) → member b s ≡ member b (entries inner)))

set_of_entries :
    (xs : List Bytes)
    → length (insert_all xs []) ≡ length xs
    → IsDistinct xs []
      × (length (insert_all xs []) ≡ length xs)
      × ((b : Bytes) → member b (insert_all xs []) ≡ member b xs)
set_of_entries xs e = (
  insert_all-IsDistinct xs [] tt (omega (arith, e)),
  e,
  λ b. member-insert_all b xs [] ∙ unfold member in or_false (member b xs),
)
  where
    or_false : (b : Bool) → b || false ≡ b
    or_false true = refl
    or_false false = refl

inner-IsSetOf :
    (inner : Bytes) (s : List Bytes)
    → (if is_nil (trim inner)
        then ok []
        else (guard
              (length (split_string inner comma) == length (insert_all (entries inner) []))
              invalid_argument
            >> ok (insert_all (entries inner) [])))
      ≡ ok s
    → IsSorted s × IsSetOf inner s
inner-IsSetOf inner s h = elim (Bool-cases (is_nil (trim inner))) [
  | inl blank ↦
      let e : s ≡ [] = ground (arith, h) in (rw e tt, inl (is_nil_iff (trim inner) blank, e))
  | inr filled ↦
      let both : (length (split_string inner comma) ≡ length (insert_all (entries inner) []))
          × (s ≡ insert_all (entries inner) []) =
        ground (arith, h) in
      let size = sym both.0 ∙ sym (length-map trim (split_string inner comma)) in
      (
        rw both.1 (insert_all-IsSorted (entries inner) [] tt),
        inr (rw both.1 (set_of_entries (entries inner) size)),
      )
]
  where
    is_nil_iff : (t : Bytes) → is_nil t ≡ true → t ≡ []
    is_nil_iff [] h = refl
    is_nil_iff (c ∷ t) h = cc

-- An accepted text is `set(` and `)` around something, and the result is the sorted set of it.
pub parse_set_string_sound :
    (str : Bytes) (s : List Bytes)
    → parse_set_string str ≡ ok s
    → (inner : Bytes) × (str ≡ codes "set(" ++ (inner ++ codes ")"))
      × (IsSorted s × IsSetOf inner s)
unfolding parse_set_string
parse_set_string_sound str s h =
    let (inner, e, e') = >>=-eq-ok (inside (codes "set(") str) _ h in
    (
      inner,
      inside_sound (codes "set(") str inner (unfold ends_with bytes_beq in refl) e,
      inner-IsSetOf inner s e',
    )
