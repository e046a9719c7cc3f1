-- ===== src/Ecmp/Graph.antt =====
-- Undirected graphs, walks, and what the distance matrix says of walks at all times.
use basic_sim.Prelude.{
  ℕ, zero, suc, ◌+◌, ◌*◌, ◌≤◌, ◌<◌, ◌≡◌, ◌≢◌, ◌&&◌, ◌⊎◌, inl, inr, List, [], ◌∷◌, arith,
  if◌then◌else◌, ◌==◌, ltb, length, length-set, All, Bool-cases, ◌∙◌,
}
use mathlib.Core.Path.{subst}
use basic_sim.Ecmp.{cell, loop, loop_inv, infinity, Edge, fill_cell, fill, relax}
use basic_sim.Ecmp.Matrix.{cell-set}

-- The edges are between different nodes below `n`.
abbrev pub IsGraph : ℕ → List Edge → Type 0
IsGraph n = All (λ e. (e.0 < n) × (e.1 < n) × (e.0 ≢ e.1))

-- There is an edge between `a` and `b`, in either order.
abbrev pub Joined : List Edge → ℕ → ℕ → Type 0
Joined [] a b = ⊥
Joined ((x, y) ∷ es) a b = ((a ≡ x) × (b ≡ y)) ⊎ (((a ≡ y) × (b ≡ x)) ⊎ Joined es a b)

-- A walk along edges, with its number of edges.
pub data Walk (es : List Edge) : ℕ → ℕ → ℕ → Type 0 where
  stay : {i : ℕ} → Walk es i i zero
  step : {i j k l : ℕ} → Joined es i j → Walk es j k l → Walk es i k (suc l)

Walk-append : {es : List Edge} {i j k l m : ℕ} → Walk es i j l → Walk es j k m → Walk es i k (l + m)
Walk-append {es} {i} {j} {k} {l} {m} stay w = subst (Walk es i k) (omega arith) w
Walk-append {es} {i} {j} {k} {l} {m} (step {l = l'} e v) w =
    subst (Walk es i k) (omega arith) (step e (Walk-append v w))

-- What holds of the matrix from the edges on: a finite entry is the length of a walk, a node has
-- distance 0 to itself, and at most 1 to a neighbour.
pub record IsSound (n : ℕ) (es : List Edge) (d : List ℕ) : Type 0 where
  pub size : length d ≡ n * n
  pub finite : (i j : ℕ) → i < n → j < n → cell n d i j < infinity → Walk es i j (cell n d i j)
  pub top : (i j : ℕ) → i < n → j < n → cell n d i j ≤ infinity
  pub diagonal : (i : ℕ) → i < n → cell n d i i ≡ 0
  pub edge : (i j : ℕ) → i < n → j < n → Joined es i j → cell n d i j ≤ 1

-- What a relaxation does to each cell.
pub cell-relax :
    (n k i j : ℕ) (d : List ℕ) (x y : ℕ)
    → length d ≡ n * n
    → i < n
    → j < n
    → y < n
    → cell n (relax n k i j d) x y ≡ (
        if (i == x && j == y) && ltb (cell n d i k + cell n d k j) (cell n d i j)
        then cell n d i k + cell n d k j
        else cell n d x y)
unfolding relax
cell-relax n k i j d x y len hi hj hy =
    ground (arith, cell-set n d i j (cell n d i k + cell n d k j) x y len hi hj hy)

pub length-relax : (n k i j : ℕ) (d : List ℕ) → length (relax n k i j d) ≡ length d
unfolding relax
length-relax n k i j d = ground (arith, length-set d (n * i + j) (cell n d i k + cell n d k j))

finite-relax :
    (n : ℕ) (es : List Edge) (k i j : ℕ) (d : List ℕ)
    → IsSound n es d
    → k < n
    → i < n
    → j < n
    → (x y : ℕ) → x < n
    → y < n
    → cell n (relax n k i j d) x y < infinity
    → Walk es x y (cell n (relax n k i j d) x y)
finite-relax n es k i j d s hk hi hj x y hx hy lt =
    let through = cell n d i k + cell n d k j in
    let better = (i == x && j == y) && ltb through (cell n d i j) in
    let e = cell-relax n k i j d x y s.size hi hj hy in
    elim (Bool-cases better) [
      | inl b ↦
          let new : cell n (relax n k i j d) x y ≡ through = ground (arith, e, b) in
          let at : (i ≡ x) × (j ≡ y) × (through < cell n d i j) = ground (arith, b) in
          let w : Walk es i j through =
            Walk-append (s.finite i k hi hk (omega (arith, s.top i j hi hj)))
              (s.finite k j hk hj (omega (arith, s.top i j hi hj))) in
          rw new
            (subst (λ y'. Walk es x y' through) at.1 (subst (λ x'. Walk es x' j through) at.0 w))
      | inr b ↦
          let old : cell n (relax n k i j d) x y ≡ cell n d x y = ground (arith, e, b) in
          rw old (s.finite x y hx hy (rw old at lt))
    ]

pub relax-IsSound :
    (n : ℕ) (es : List Edge) (k i j : ℕ) (d : List ℕ)
    → IsSound n es d
    → k < n
    → i < n
    → j < n
    → IsSound n es (relax n k i j d)
relax-IsSound n es k i j d s hk hi hj = record {
  size = length-relax n k i j d ∙ s.size;
  finite = finite-relax n es k i j d s hk hi hj;
  top = λ x y hx hy. ground (arith, cell-relax n k i j d x y s.size hi hj hy, s.top x y);
  diagonal = λ x hx. ground (arith, cell-relax n k i j d x x s.size hi hj hx, s.diagonal x);
  edge =
      λ x y hx hy e. ground (arith, cell-relax n k i j d x y s.size hi hj hy, s.edge x y hx hy e);
}

-- The matrix before the first round: 0, 1 or infinity.
pub record IsFilled (n : ℕ) (d : List ℕ) : Type 0 where
  pub size : length d ≡ n * n
  pub cells : (i j : ℕ) → i < n → j < n → cell n d i j ≡ (if i == j then 0 else infinity)

-- Rows below `r`, and in row `r` the columns below `c`, are filled.
abbrev Filling : ℕ → ℕ → ℕ → List ℕ → Type 0
Filling n r c d =
    (length d ≡ n * n)
    × ((i j : ℕ)
        → i < n
        → j < n
        → (i < r) ⊎ ((i ≡ r) × (j < c))
        → cell n d i j ≡ (if i == j then 0 else infinity))

fill_cell-Filling :
    (n r c : ℕ) (d : List ℕ)
    → r < n
    → c < n
    → Filling n r c d
    → Filling n r (suc c) (fill_cell n r c d)
unfolding fill_cell
fill_cell-Filling n r c d hr hc f = (
  length-set d (n * r + c) _ ∙ f.0,
  λ i j hi hj at.
      ground (arith, cell-set n d r c (if r == c then 0 else infinity) i j f.0 hr hc hj, f.1 i j),
)

fill_row-Filling :
    (n r : ℕ) (d : List ℕ)
    → r < n
    → Filling n r 0 d
    → Filling n (suc r) 0 (loop n (λ j d'. fill_cell n r j d') d)
fill_row-Filling n r d hr f =
    let done =
      loop_inv (λ c d'. Filling n r c d') n (λ j d'. fill_cell n r j d') d f
        (λ c d' hc f'. fill_cell-Filling n r c d' hr hc f') in
    (done.0, λ i j hi hj at. done.1 i j hi hj (omega arith))

pub fill-IsFilled : (n : ℕ) (raw : List ℕ) → length raw ≡ n * n → IsFilled n (fill n raw)
unfolding fill
fill-IsFilled n raw len =
    let done =
      loop_inv (λ r d. Filling n r 0 d) n (λ i d. loop n (λ j d'. fill_cell n i j d') d) raw
        (len, λ i j hi hj at. absurd (omega arith)) (λ r d hr f. fill_row-Filling n r d hr f) in
    record { size = done.0; cells = λ i j hi hj. done.1 i j hi hj (inl hi) }
