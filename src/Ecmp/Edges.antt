-- ===== src/Ecmp/Edges.antt =====
-- The matrix once the edges are in it.
use basic_sim.Prelude.{
  ℕ, ◌+◌, ◌*◌, ◌≤◌, ◌<◌, ◌≡◌, ◌≢◌, refl, ◌∙◌, ◌&&◌, ◌||◌, ◌⊎◌, inl, inr, List, [], ◌∷◌, arith,
  if◌then◌else◌, ◌==◌, set, length, length-set, Bool-cases,
}
use mathlib.Core.Path.{subst}
use basic_sim.Ecmp.{cell, infinity, Edge, fill, put_edges}
use basic_sim.Ecmp.Matrix.{cell-set}
use basic_sim.Ecmp.Graph.{IsGraph, Joined, Walk, stay, step, IsSound, IsFilled, fill-IsFilled}

-- The matrix while the edges `es` of the graph `all` are still to be put in.
record Putting (n : ℕ) (all es : List Edge) (d : List ℕ) : Type 0 where
  size : length d ≡ n * n
  finite : (i j : ℕ) → i < n → j < n → cell n d i j < infinity → Walk all i j (cell n d i j)
  top : (i j : ℕ) → i < n → j < n → cell n d i j ≤ infinity
  diagonal : (i : ℕ) → i < n → cell n d i i ≡ 0
  edge : (i j : ℕ) → i < n → j < n → Joined all i j → (cell n d i j ≤ 1) ⊎ Joined es i j

abbrev put_edge : ℕ → Edge → List ℕ → List ℕ
put_edge n e d = set (set d (n * e.0 + e.1) 1) (n * e.1 + e.0) 1

cell-put_edge :
    (n a b : ℕ) (d : List ℕ) (x y : ℕ)
    → length d ≡ n * n
    → a < n
    → b < n
    → y < n
    → cell n (put_edge n (a, b) d) x y
      ≡ (if (b == x && a == y) || (a == x && b == y) then 1 else cell n d x y)
cell-put_edge n a b d x y len ha hb hy = ground (
  arith,
  cell-set n (set d (n * a + b) 1) b a 1 x y (length-set d (n * a + b) 1 ∙ len) hb ha hy,
  cell-set n d a b 1 x y len ha hb hy,
)

finite-put_edge :
    (n : ℕ) (all : List Edge) (a b : ℕ) (es : List Edge) (d : List ℕ)
    → Putting n all ((a, b) ∷ es) d
    → a < n
    → b < n
    → Joined all a b
    → Joined all b a
    → (x y : ℕ) → x < n
    → y < n
    → cell n (put_edge n (a, b) d) x y < infinity
    → Walk all x y (cell n (put_edge n (a, b) d) x y)
finite-put_edge n all a b es d p ha hb ab ba x y hx hy lt =
    let e = cell-put_edge n a b d x y p.size ha hb hy in
    elim (Bool-cases (b == x && a == y)) [
      | inl t ↦
          let new : cell n (put_edge n (a, b) d) x y ≡ 1 = ground (arith, e, t) in
          let at : (b ≡ x) × (a ≡ y) = ground (arith, t) in
          rw new
            (subst (λ y'. Walk all x y' 1) at.1 (subst (λ x'. Walk all x' a 1) at.0 (step ba stay)))
      | inr f ↦ elim (Bool-cases (a == x && b == y)) [
        | inl t ↦
            let new : cell n (put_edge n (a, b) d) x y ≡ 1 = ground (arith, e, t) in
            let at : (a ≡ x) × (b ≡ y) = ground (arith, t) in
            rw new (
              subst (λ y'. Walk all x y' 1) at.1
                (subst (λ x'. Walk all x' b 1) at.0 (step ab stay)))
        | inr g ↦
            let old : cell n (put_edge n (a, b) d) x y ≡ cell n d x y = ground (arith, e, f, g) in
            rw old (p.finite x y hx hy (rw old at lt))
      ]
    ]

put_edge-Putting :
    (n : ℕ) (all : List Edge) (a b : ℕ) (es : List Edge) (d : List ℕ)
    → Putting n all ((a, b) ∷ es) d
    → a < n
    → b < n
    → a ≢ b
    → Joined all a b
    → Joined all b a
    → Putting n all es (put_edge n (a, b) d)
put_edge-Putting n all a b es d p ha hb ne ab ba = record {
  size = length-set (set d (n * a + b) 1) (n * b + a) 1 ∙ length-set d (n * a + b) 1 ∙ p.size;
  finite = finite-put_edge n all a b es d p ha hb ab ba;
  top = λ x y hx hy. ground (arith, cell-put_edge n a b d x y p.size ha hb hy, p.top x y hx hy);
  diagonal = λ x hx. ground (arith, cell-put_edge n a b d x x p.size ha hb hx, p.diagonal x hx);
  edge =
      λ x y hx hy e. ground (arith, cell-put_edge n a b d x y p.size ha hb hy, p.edge x y hx hy e);
}

put_edges-Putting :
    (n : ℕ) (all es : List Edge) (d : List ℕ)
    → IsGraph n es
    → ((a b : ℕ) → Joined es a b → Joined all a b)
    → Putting n all es d
    → Putting n all [] (put_edges n es d)
unfolding put_edges
put_edges-Putting n all [] d g sub p = p
put_edges-Putting n all ((a, b) ∷ es) d g sub p =
    put_edges-Putting n all es (put_edge n (a, b) d) g.1 (λ x y j. sub x y (inr (inr j)))
      (put_edge-Putting n all a b es d p g.0.0 g.0.1 g.0.2 (sub a b (inl (refl, refl)))
        (sub b a (inr (inl (refl, refl)))))

-- Of the graph's edges the matrix then says what it has to say.
pub put_edges-IsSound :
    (n : ℕ) (es : List Edge) (raw : List ℕ)
    → IsGraph n es
    → length raw ≡ n * n
    → IsSound n es (put_edges n es (fill n raw))
put_edges-IsSound n es raw g len =
    let f = fill-IsFilled n raw len in
    let p = put_edges-Putting n es es (fill n raw) g (λ a b j. j) (start f) in
    record {
      size = p.size;
      finite = p.finite;
      top = p.top;
      diagonal = p.diagonal;
      edge = λ i j hi hj e. elim (p.edge i j hi hj e) [ inl le ↦ le | inr none ↦ absurd none ];
    }
  where
    finite₀ :
        IsFilled n (fill n raw)
        → (i j : ℕ) → i < n
        → j < n
        → cell n (fill n raw) i j < infinity
        → Walk es i j (cell n (fill n raw) i j)
    finite₀ f i j hi hj lt =
        let e = f.cells i j hi hj in
        let at : i ≡ j = ground (arith, e) in
        let zero_cell : cell n (fill n raw) i j ≡ 0 = ground (arith, e) in
        rw zero_cell (subst (λ k. Walk es i k 0) at stay)

    start : IsFilled n (fill n raw) → Putting n es es (fill n raw)
    start f = record {
      size = f.size;
      finite = finite₀ f;
      top = λ i j hi hj. ground (arith, f.cells i j hi hj);
      diagonal = λ i hi. ground (arith, f.cells i i hi hi);
      edge = λ i j hi hj e. inr e;
    }
