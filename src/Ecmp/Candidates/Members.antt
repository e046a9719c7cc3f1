-- ===== src/Ecmp/Candidates/Members.antt =====
-- About the nodes that stand in a list of next hops (helper/core/arbiter-ecmp-helper.cc).
use basic_sim.Prelude.{
  ℕ, zero, suc, ◌+◌, ◌*◌, ◌≤◌, ◌<◌, ◌≡◌, ◌≢◌, ◌↔◌, refl, sym, ◌∙◌, ap, true, ◌⊎◌, inl, inr, List,
  [], ◌∷◌, ◌++◌, arith, if◌then◌else◌, ltb, length, replicate,
}
use mathlib.Core.Path.{subst}
use basic_sim.Prelude.Results.{ok, err, runtime_error}
use basic_sim.Ecmp.{
  entry, cell, loop, loop_inv, Edge, State, is_one_less, add_candidates, all_candidates, distances,
  calculate_global_state,
}
use basic_sim.Ecmp.Graph.{IsGraph, Joined}
use basic_sim.Ecmp.Candidates.{get_or, hops, IsShaped, extra, hops-add, add_candidates-IsShaped}

abbrev pub In : ℕ → List ℕ → Type 0
In b [] = ⊥
In b (x ∷ xs) = (b ≡ x) ⊎ In b xs

In-append : (b : ℕ) (xs ys : List ℕ) → In b (xs ++ ys) ↔ (In b xs ⊎ In b ys)
In-append b [] ys = (inr, λ h. elim h [ inl no_item ↦ absurd no_item | inr h' ↦ h' ])
In-append b (x ∷ xs) ys = (
  λ h. elim h [
    | inl e ↦ inl (inl e)
    | inr h' ↦ elim ((In-append b xs ys).0 h') [ inl l ↦ inl (inr l) | inr r ↦ inr r ]
  ],
  λ h. elim h [
    | inl l ↦ elim l [ inl e ↦ inl e | inr l' ↦ inr ((In-append b xs ys).1 (inl l')) ]
    | inr r ↦ inr ((In-append b xs ys).1 (inr r))
  ],
)

-- The loop over the destinations for one edge.
edge_hops :
    (n : ℕ) (d : List ℕ) (x y : ℕ) (g : State)
    → IsShaped n g
    → x < n
    → y < n
    → x ≢ y
    → let g' = loop n (λ j h. add_candidates n d x y j h) g in
      IsShaped n g' × ((a t : ℕ) → t < n → hops g' a t ≡ hops g a t ++ extra n d x y a t)
edge_hops n d x y g s hx hy ne =
    let done =
      loop_inv
        (λ k g'.
          IsShaped n g'
          × ((a t : ℕ)
              → t < n
              → hops g' a t ≡ (if ltb t k then hops g a t ++ extra n d x y a t else hops g a t)))
        n (λ j h. add_candidates n d x y j h) g (s, λ a t ht. ground arith)
        (λ k g' hk p. (
          add_candidates-IsShaped n d x y k g' hx hy p.0,
          λ a t ht. ground (arith, hops-add n d x y k g' a t p.0 hx hy ne hk, p.1 a t ht),
        )) in
    (done.0, λ a t ht. ground (arith, done.1 a t ht))

one_less_iff :
    (n : ℕ) (d : List ℕ) (x y t : ℕ)
    → (is_one_less d (x * n + t) (y * n + t) ≡ true) ↔ (cell n d x t ≡ suc (cell n d y t))
unfolding is_one_less cell
one_less_iff n d x y t =
    let ex : x * n + t ≡ n * x + t = omega arith in
    let ey : y * n + t ≡ n * y + t = omega arith in ground (arith, ap (entry d) ex, ap (entry d) ey)

-- `b` is a next hop from `a` towards `t` by one of the edges.
abbrev pub IsNearer : ℕ → List ℕ → List Edge → ℕ → ℕ → ℕ → Type 0
IsNearer n d es a b t = Joined es a b × (cell n d a t ≡ suc (cell n d b t))

In-extra :
    (n : ℕ) (d : List ℕ) (x y a b t : ℕ)
    → x ≢ y
    → In b (extra n d x y a t) ↔ IsNearer n d ((x, y) ∷ []) a b t
unfolding extra
In-extra n d x y a b t ne = ground (arith, one_less_iff n d x y t, one_less_iff n d y x t)

IsNearer-first :
    (n : ℕ) (d : List ℕ) (es : List Edge) (x y a b t : ℕ)
    → IsNearer n d ((x, y) ∷ []) a b t
    → IsNearer n d ((x, y) ∷ es) a b t
IsNearer-first n d es x y a b t (inl at, lt) = (inl at, lt)
IsNearer-first n d es x y a b t (inr (inl at), lt) = (inr (inl at), lt)
IsNearer-first n d es x y a b t (inr (inr no_edge), lt) = absurd no_edge

IsNearer-cases :
    (n : ℕ) (d : List ℕ) (es : List Edge) (x y a b t : ℕ)
    → IsNearer n d ((x, y) ∷ es) a b t
    → IsNearer n d ((x, y) ∷ []) a b t ⊎ IsNearer n d es a b t
IsNearer-cases n d es x y a b t (inl at, lt) = inl (inl at, lt)
IsNearer-cases n d es x y a b t (inr (inl at), lt) = inl (inr (inl at), lt)
IsNearer-cases n d es x y a b t (inr (inr later), lt) = inr (later, lt)

In-all :
    (n : ℕ) (d : List ℕ) (es : List Edge) (g : State)
    → IsGraph n es
    → IsShaped n g
    → (a b t : ℕ) → t < n
    → In b (hops (all_candidates n d es g) a t) ↔ (In b (hops g a t) ⊎ IsNearer n d es a b t)
unfolding all_candidates
In-all n d [] g w s a b t ht = (inl, λ h. elim h [ inl h' ↦ h' | inr h' ↦ absurd h'.0 ])
In-all n d ((x, y) ∷ es) g ((hx, hy, ne), w) s a b t ht =
    let here = edge_hops n d x y g s hx hy ne in
    let rest = In-all n d es (loop n (λ j h. add_candidates n d x y j h) g) w here.0 a b t ht in
    let added = In-append b (hops g a t) (extra n d x y a t) in
    let one = In-extra n d x y a b t ne in
    let there = here.1 a t ht in
    (
      λ h. elim (rest.0 h) [
        | inl h' ↦ elim (added.0 (subst (In b) there h')) [
          | inl old ↦ inl old
          | inr new ↦ inr (IsNearer-first n d es x y a b t (one.0 new))
        ]
        | inr h' ↦ inr (inr (inr h'.0), h'.1)
      ],
      λ h. rest.1 (elim h [
        | inl old ↦ inl (subst (In b) (sym there) (added.1 (inl old)))
        | inr c ↦ elim (IsNearer-cases n d es x y a b t c) [
          | inl first ↦ inl (subst (In b) (sym there) (added.1 (inr (one.1 first))))
          | inr later ↦ inr later
        ]
      ]),
    )

get_or-replicate :
    {A : Type 0} (n i : ℕ) (x default : A) → i < n → get_or (replicate n x) i default ≡ x
unfolding get_or
get_or-replicate zero i x default h = absurd (omega arith)
get_or-replicate (suc n) zero x default h = refl
get_or-replicate (suc n) (suc i) x default h = get_or-replicate n i x default (omega arith)

length-replicate : {A : Type 0} (n : ℕ) (x : A) → length (replicate n x) ≡ n
length-replicate zero x = refl
length-replicate (suc n) x = ap suc (length-replicate n x)

start-IsShaped : (n : ℕ) → IsShaped n (replicate n (replicate n []))
start-IsShaped n = (
  length-replicate n (replicate n []),
  λ a ha. ap length (get_or-replicate n a (replicate n []) [] ha) ∙ length-replicate n [],
)

start-hops : (n a t : ℕ) → a < n → t < n → hops (replicate n (replicate n [])) a t ≡ []
unfolding hops
start-hops n a t ha ht =
    ap (λ row. get_or row t []) (get_or-replicate n a (replicate n []) [] ha)
    ∙ get_or-replicate n t [] [] ht

-- For at most 40000 nodes a state is computed, in which the candidates at `a` towards `t` are just
-- the neighbours whose distance to `t` is one less; for more nodes there is a runtime error.
pub calculate_global_state_lem :
    (n : ℕ) (es : List Edge) (raw : List ℕ)
    → IsGraph n es
    → (n ≤ 40000
        → (g : State) × (calculate_global_state n es raw ≡ ok g)
          × ((a b t : ℕ)
              → a < n
              → t < n
              → In b (hops g a t) ↔ IsNearer n (distances n es raw) es a b t))
      × (40000 < n → calculate_global_state n es raw ≡ err runtime_error)
unfolding calculate_global_state
calculate_global_state_lem n es raw w =
    let d = distances n es raw in
    let start = replicate n (replicate n []) in
    (
      λ small. (
        all_candidates n d es start,
        ground arith,
        λ a b t ha ht.
            let h = In-all n d es start w (start-IsShaped n) a b t ht in
            (
              λ i. elim (h.0 i) [
                | inl i' ↦ absurd (subst (In b) (start-hops n a t ha ht) i')
                | inr c ↦ c
              ],
              λ c. h.1 (inr c),
            ),
      ),
      λ large. ground arith,
    )
