-- ===== src/Ecmp/Candidates.antt =====
-- The lists of next hops: which nodes stand in them.
pub mod Members
use basic_sim.Prelude.{
  ℕ, zero, suc, ◌+◌, ◌*◌, ◌≤◌, ◌<◌, ◌≡◌, ◌≢◌, ◌↔◌, refl, sym, ◌∙◌, ap, Bool, true, false, ◌&&◌, ◌⊎◌,
  inl, inr, List, [], ◌∷◌, ◌++◌, arith, if◌then◌else◌, ◌==◌, ltb, length, replicate, All,
  append-nil, append_assoc, Bool-cases,
}
use basic_sim.Prelude.Results.{ok}
use basic_sim.Ecmp.{
  entry, cell, loop, loop_inv, Edge, State, modify, push_candidate, is_one_less, add_candidates,
  all_candidates, distances, calculate_global_state,
}
use basic_sim.Ecmp.Graph.{IsGraph, Joined}

unfoldable pub get_or {ℓ} : {A : Type ℓ} → List A → ℕ → A → A
get_or [] i default = default
get_or (x ∷ xs) zero default = x
get_or (x ∷ xs) (suc i) default = get_or xs i default

module _ {A : Type 0} where
  length-modify : (xs : List A) (i : ℕ) (f : A → A) → length (modify xs i f) ≡ length xs
  unfolding modify
  length-modify [] i f = refl
  length-modify (x ∷ xs) zero f = refl
  length-modify (x ∷ xs) (suc i) f = ap suc (length-modify xs i f)

  get_or-modify :
      (xs : List A) (i j : ℕ) (f : A → A) (default : A)
      → i < length xs
      → get_or (modify xs i f) j default
        ≡ (if i == j then f (get_or xs j default) else get_or xs j default)
  unfolding modify get_or
  get_or-modify [] i j f default h = absurd (omega arith)
  get_or-modify (x ∷ xs) zero zero f default h = refl
  get_or-modify (x ∷ xs) zero (suc j) f default h = ground arith
  get_or-modify (x ∷ xs) (suc i) zero f default h = ground arith
  get_or-modify (x ∷ xs) (suc i) (suc j) f default h =
      ground (arith, get_or-modify xs i j f default)

-- The next hops at node `a` towards node `t`.
unfoldable pub hops : State → ℕ → ℕ → List ℕ
unfolding get_or
hops g a t = get_or (get_or g a []) t []

-- A row for each node, in it a list for each destination.
abbrev pub IsShaped : ℕ → State → Type 0
IsShaped n g = (length g ≡ n) × ((a : ℕ) → a < n → length (get_or g a []) ≡ n)

push_candidate-IsShaped :
    (n a j b : ℕ) (g : State) → a < n → IsShaped n g → IsShaped n (push_candidate a j b g)
unfolding push_candidate
push_candidate-IsShaped n a j b g ha s =
    let f = λ (row : List (List ℕ)). modify row j (λ hs. hs ++ b ∷ []) in
    (
      length-modify g a f ∙ s.0,
      λ x hx. ground (
        arith,
        get_or-modify g a x f [],
        length-modify (get_or g x []) j (λ hs. hs ++ b ∷ []),
        s.1 x hx,
        s.0,
      ),
    )

hops-push :
    (n a j b : ℕ) (g : State) (x t : ℕ)
    → IsShaped n g
    → a < n
    → j < n
    → hops (push_candidate a j b g) x t
      ≡ (if a == x && j == t then hops g x t ++ b ∷ [] else hops g x t)
unfolding hops push_candidate
hops-push n a j b g x t s ha hj =
    let f = λ (row : List (List ℕ)). modify row j (λ hs. hs ++ b ∷ []) in
    ground (
      arith,
      get_or-modify g a x f [],
      get_or-modify (get_or g x []) j t (λ hs. hs ++ b ∷ []) [],
      s.1 a ha,
      s.0,
    )

-- What the edge between `x` and `y` adds at node `a` towards `t`.
unfoldable pub extra : ℕ → List ℕ → ℕ → ℕ → ℕ → ℕ → List ℕ
extra n d x y a t =
    if a == x && is_one_less d (x * n + t) (y * n + t)
    then y ∷ []
    else if a == y && is_one_less d (y * n + t) (x * n + t)
    then x ∷ []
    else []

pub hops-add :
    (n : ℕ) (d : List ℕ) (x y j : ℕ) (g : State) (a t : ℕ)
    → IsShaped n g
    → x < n
    → y < n
    → x ≢ y
    → j < n
    → hops (add_candidates n d x y j g) a t
      ≡ (if j == t then hops g a t ++ extra n d x y a t else hops g a t)
unfolding add_candidates extra
hops-add n d x y j g a t s hx hy ne hj = ground (
  arith,
  append-nil (hops g a t),
  hops-push n x j y g a t s hx hj,
  hops-push n y j x (push_candidate x j y g) a t (push_candidate-IsShaped n x j y g hx s) hy hj,
  hops-push n y j x g a t s hy hj,
)

pub add_candidates-IsShaped :
    (n : ℕ) (d : List ℕ) (x y j : ℕ) (g : State)
    → x < n
    → y < n
    → IsShaped n g
    → IsShaped n (add_candidates n d x y j g)
unfolding add_candidates
add_candidates-IsShaped n d x y j g hx hy s =
    elim (Bool-cases (is_one_less d (x * n + j) (y * n + j))) [
      | inl e ↦ elim (Bool-cases (is_one_less d (y * n + j) (x * n + j))) [
        | inl f ↦
            rw (e, f, add_candidates)
              (push_candidate-IsShaped n y j x _ hy (push_candidate-IsShaped n x j y g hx s))
        | inr f ↦ rw (e, f, add_candidates) (push_candidate-IsShaped n x j y g hx s)
      ]
      | inr e ↦ elim (Bool-cases (is_one_less d (y * n + j) (x * n + j))) [
        | inl f ↦ rw (e, f, add_candidates) (push_candidate-IsShaped n y j x g hy s)
        | inr f ↦ rw (e, f, add_candidates) s
      ]
    ]
