-- ===== src/Ecmp/Shortest.antt =====
-- About the distances the algorithm computes (helper/core/arbiter-ecmp-helper.cc) and walks.
use basic_sim.Prelude.{ℕ, suc, ◌+◌, ◌*◌, ◌≤◌, ◌<◌, ◌≡◌, inl, inr, List, [], ◌∷◌, arith, length}
use basic_sim.Ecmp.{cell, loop_inv, floyd_warshall, distances, fill, put_edges, Edge, infinity}
use basic_sim.Ecmp.Graph.{IsGraph, IsSound, Joined, Walk, stay, step}
use basic_sim.Ecmp.Edges.{put_edges-IsSound}
use basic_sim.Ecmp.Round.{round, round_lem, round-IsSound}

-- No way through a node below `k` is better than the entry.
abbrev pub IsClosed : ℕ → ℕ → List ℕ → Type 0
IsClosed n k d =
    (m i j : ℕ) → m < k → m < n → i < n → j < n → cell n d i j ≤ cell n d i m + cell n d m j

round-IsClosed :
    (n k : ℕ) (d : List ℕ)
    → length d ≡ n * n
    → k < n
    → IsClosed n k d
    → IsClosed n (suc k) (round n k d)
round-IsClosed n k d len hk c m i j hm hmn hi hj =
    let at = round_lem n k d len hk in
    ground (arith, at i j hi hj, at i m hi hmn, at m j hmn hj, c m i j, c m i k, c m k j, c m k k)

floyd_warshall-rounds :
    (n : ℕ) (es : List Edge) (d : List ℕ)
    → IsSound n es d
    → IsSound n es (floyd_warshall n d) × IsClosed n n (floyd_warshall n d)
unfolding floyd_warshall round
floyd_warshall-rounds n es d s =
    loop_inv (λ k d'. IsSound n es d' × IsClosed n k d') n (λ k d'. round n k d') d
      (s, λ m i j hm hmn hi hj. absurd (omega arith))
      λ k d' hk p. (round-IsSound n es k d' hk p.0, round-IsClosed n k d' p.0.size hk p.1)

Joined-lt : (n : ℕ) (es : List Edge) (a b : ℕ) → IsGraph n es → Joined es a b → (a < n) × (b < n)
Joined-lt n [] a b g j = absurd j
Joined-lt n ((x, y) ∷ es) a b g (inl at) = (omega arith, omega arith)
Joined-lt n ((x, y) ∷ es) a b g (inr (inl at)) = (omega arith, omega arith)
Joined-lt n ((x, y) ∷ es) a b g (inr (inr j)) = Joined-lt n es a b g.1 j

pub Joined-end-lt : (n : ℕ) (es : List Edge) (a b : ℕ) → IsGraph n es → Joined es a b → b < n
Joined-end-lt n es a b g j = (Joined-lt n es a b g j).1

pub cell-le-Walk :
    (n : ℕ) (es : List Edge) (d : List ℕ)
    → IsGraph n es
    → IsSound n es d
    → IsClosed n n d
    → {i j l : ℕ} → Walk es i j l
    → i < n
    → j < n
    → cell n d i j ≤ l
cell-le-Walk n es d g s c {i} stay hi hj = omega (arith, s.diagonal i hi)
cell-le-Walk n es d g s c {i} {j} (step {j = m} e w) hi hj =
    let hm = Joined-end-lt n es i m g e in
    omega (arith, s.edge i m hi hm e, cell-le-Walk n es d g s c w hm hj, c m i j hm hm hi hj)

pub distances-IsSound :
    (n : ℕ) (es : List Edge) (raw : List ℕ)
    → IsGraph n es
    → length raw ≡ n * n
    → IsSound n es (distances n es raw) × IsClosed n n (distances n es raw)
unfolding distances
distances-IsSound n es raw g len =
    floyd_warshall-rounds n es (put_edges n es (fill n raw)) (put_edges-IsSound n es raw g len)

-- The matrix has the lengths of the shortest walks, whatever the new array held: an entry below
-- infinity is the length of a walk, no walk is shorter than the entry, and none is above infinity.
pub distances-IsShortest :
    (n : ℕ) (es : List Edge) (raw : List ℕ) (i j : ℕ)
    → IsGraph n es
    → length raw ≡ n * n
    → i < n
    → j < n
    → let d = cell n (distances n es raw) i j in
      (d < infinity → Walk es i j d) × ((l : ℕ) → Walk es i j l → d ≤ l) × (d ≤ infinity)
distances-IsShortest n es raw i j g len hi hj =
    let (s, c) = distances-IsSound n es raw g len in
    (
      s.finite i j hi hj,
      λ l w. cell-le-Walk n es (distances n es raw) g s c w hi hj,
      s.top i j hi hj,
    )
