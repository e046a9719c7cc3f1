-- ===== src/Ecmp/Tests.antt =====
-- The routing state of a line of three nodes.
use basic_sim.Prelude.{ℕ, ◌+◌, ◌≤◌, ◌<◌, ◌≡◌, ◌≢◌, ◌↔◌, refl, List, [], ◌∷◌, inl, inr, arith}
use basic_sim.Prelude.Results.{ok, err, runtime_error}
use basic_sim.Ecmp.{
  Edge, State, cell, infinity, distances, calculate_global_state, all_candidates, loop,
  add_candidates, entry, floyd_warshall, relax, put_edges, fill, fill_cell,
}
use basic_sim.Ecmp.Graph.{IsGraph, Walk, stay, step}
use basic_sim.Ecmp.Shortest.{distances-IsShortest}
use basic_sim.Ecmp.Candidates.{hops}
use basic_sim.Ecmp.Candidates.Members.{In, IsNearer, calculate_global_state_lem}
use basic_sim.Ecmp.Forwarding.{here, hop, forwarding_lem}

abbrev line : List Edge
line = (0, 1) ∷ (1, 2) ∷ []

-- What the new array happens to hold.
abbrev raw : List ℕ
raw = 5 ∷ 5 ∷ 5 ∷ 5 ∷ 5 ∷ 5 ∷ 5 ∷ 5 ∷ 5 ∷ []

abbrev line_state : State
line_state =
    ([] ∷ (1 ∷ []) ∷ (1 ∷ []) ∷ [])
    ∷ ((0 ∷ []) ∷ [] ∷ (2 ∷ []) ∷ [])
    ∷ ((1 ∷ []) ∷ (1 ∷ []) ∷ [] ∷ [])
    ∷ []

line-IsGraph : IsGraph 3 line
line-IsGraph = (
  (omega arith, omega arith, λ e. omega arith),
  ((omega arith, omega arith, λ e. omega arith), tt),
)

line_computed : calculate_global_state 3 line raw ≡ ok line_state
unfolding calculate_global_state distances all_candidates loop add_candidates entry floyd_warshall
    relax cell put_edges fill fill_cell
line_computed = refl

line-Walk : Walk line 0 2 2
line-Walk = step (inl (refl, refl)) (step (inr (inr (inl (refl, refl)))) stay)

distances-IsShortest_example :
    let d = cell 3 (distances 3 line raw) 0 2 in
    (d < infinity → Walk line 0 2 d) × ((l : ℕ) → Walk line 0 2 l → d ≤ l) × (d ≤ infinity)
distances-IsShortest_example =
    distances-IsShortest 3 line raw 0 2 line-IsGraph refl (omega arith) (omega arith)

calculate_global_state_lem_example :
    (3 ≤ 40000
      → (g : State) × (calculate_global_state 3 line raw ≡ ok g)
        × ((a b t : ℕ)
            → a < 3
            → t < 3
            → In b (hops g a t) ↔ IsNearer 3 (distances 3 line raw) line a b t))
    × (40000 < 3 → calculate_global_state 3 line raw ≡ err runtime_error)
calculate_global_state_lem_example = calculate_global_state_lem 3 line raw line-IsGraph

-- The packet has come from 0 to 1, on its way to 2.
forwarding_lem_example :
    let dist = cell 3 (distances 3 line raw) in
    (1 + dist 1 2 ≡ dist 0 2)
    × (1 ≡ dist 0 2 → ◌≡◌ {A = ℕ} 1 2)
    × (◌≢◌ {A = ℕ} 1 2 → (b : ℕ) × In b (hops line_state 1 2))
unfolding hops
forwarding_lem_example =
    forwarding_lem 3 line raw line_state 0 2 2 (omega arith) line-IsGraph refl line_computed
      (omega arith) (omega arith) line-Walk (omega arith) 1 1 (hop {b = 1} (inl refl) here)
