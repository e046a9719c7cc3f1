-- ===== src/Ecmp.antt =====
-- helper/core/arbiter-ecmp-helper.cc: shortest paths and the next hops on them.
-- Node ids are below `n`, and so are the ends of the edges, which `TopologyPtop` checks; then no
-- index is out of range. Distances stay at most `infinity` and their sums at most twice that, which
-- fits an int32, so they are plain numbers.
pub mod Matrix
pub mod Graph
pub mod Edges
pub mod Round
pub mod Shortest
pub mod Candidates
pub mod Forwarding
mod Tests
use basic_sim.Prelude.{
  ℕ, zero, suc, ◌-◌, ◌+◌, ◌*◌, Bool, true, false, List, [], ◌∷◌, ◌++◌, if◌then◌else◌, ◌==◌, ltb,
  set, replicate, ◌≤◌, arith,
}
use basic_sim.Prelude.Int.{pos, sub_ℕ, eqb_ℤ}
use basic_sim.Prelude.Results.{Result, ok, err, runtime_error}

-- `for (i = 0; i < k; i++)`.
unfoldable pub loop {ℓ} : {S : Type ℓ} → ℕ → (ℕ → S → S) → S → S
loop zero body s = s
loop (suc k) body s = body k (loop k body s)

pub loop_inv {ℓ κ} :
    {S : Type ℓ} (P : ℕ → S → Type κ) (k : ℕ) (body : ℕ → S → S) (s : S)
    → P 0 s
    → ((i : ℕ) (t : S) → suc i ≤ k → P i t → P (suc i) (body i t))
    → P k (loop k body s)
unfolding loop
loop_inv P zero body s h keep = h
loop_inv P (suc k) body s h keep =
    keep k (loop k body s) (omega arith)
      (loop_inv P k body s h (λ i t lt p. keep i t (omega arith) p))

abbrev pub infinity : ℕ
infinity = 100_000_000

-- A read of the array `dist`.
unfoldable pub entry : List ℕ → ℕ → ℕ
entry [] i = 0
entry (x ∷ xs) zero = x
entry (x ∷ xs) (suc i) = entry xs i

-- `dist[n * i + j]`.
unfoldable pub cell : ℕ → List ℕ → ℕ → ℕ → ℕ
cell n d i j = entry d (n * i + j)

abbrev pub Edge : Type 0
Edge = ℕ × ℕ

-- 0 on the diagonal, infinity elsewhere.
unfoldable pub fill_cell : ℕ → ℕ → ℕ → List ℕ → List ℕ
fill_cell n i j dist = set dist (n * i + j) (if i == j then 0 else infinity)

unfoldable pub fill : ℕ → List ℕ → List ℕ
fill n dist = loop n (λ i d. loop n (λ j d'. fill_cell n i j d') d) dist

-- An edge is a distance of 1 both ways.
unfoldable pub put_edges : ℕ → List Edge → List ℕ → List ℕ
put_edges n [] dist = dist
put_edges n ((a, b) ∷ es) dist = put_edges n es (set (set dist (n * a + b) 1) (n * b + a) 1)

unfoldable pub relax : ℕ → ℕ → ℕ → ℕ → List ℕ → List ℕ
relax n k i j dist =
    let through = cell n dist i k + cell n dist k j in
    if ltb through (cell n dist i j) then set dist (n * i + j) through else dist

unfoldable pub floyd_warshall : ℕ → List ℕ → List ℕ
floyd_warshall n dist =
    loop n (λ k d. loop n (λ i d'. loop n (λ j d''. relax n k i j d'') d') d) dist

-- The distance matrix; `raw` is the new array, whose contents are not set.
unfoldable pub distances : ℕ → List Edge → List ℕ → List ℕ
distances n es raw = floyd_warshall n (put_edges n es (fill n raw))

-- Change one element.
unfoldable pub modify {ℓ} : {A : Type ℓ} → List A → ℕ → (A → A) → List A
modify [] i f = []
modify (x ∷ xs) zero f = f x ∷ xs
modify (x ∷ xs) (suc i) f = x ∷ modify xs i f

abbrev pub State : Type 0
State = List (List (List ℕ))

-- `global_candidate_list.at(a).at(j).push_back(b)`.
unfoldable pub push_candidate : ℕ → ℕ → ℕ → State → State
unfolding modify
push_candidate a j b g = modify g a (λ row. modify row j (λ hops. hops ++ b ∷ []))

-- `dist[x] - 1 == dist[y]`, in which the left side may be -1.
unfoldable pub is_one_less : List ℕ → ℕ → ℕ → Bool
is_one_less dist x y = eqb_ℤ (sub_ℕ (entry dist x) 1) (pos (entry dist y))

-- What the edge from `a` to `b` gives for the destination `j`, one way and the other.
unfoldable pub add_candidates : ℕ → List ℕ → ℕ → ℕ → ℕ → State → State
unfolding is_one_less push_candidate
add_candidates n dist a b j g =
    let g' = if is_one_less dist (a * n + j) (b * n + j) then push_candidate a j b g else g in
    if is_one_less dist (b * n + j) (a * n + j) then push_candidate b j a g' else g'

unfoldable pub all_candidates : ℕ → List ℕ → List Edge → State → State
all_candidates n dist [] g = g
all_candidates n dist ((a, b) ∷ es) g =
    all_candidates n dist es (loop n (λ j g'. add_candidates n dist a b j g') g)

unfoldable pub calculate_global_state : ℕ → List Edge → List ℕ → Result State
calculate_global_state n es raw =
    if ltb 40000 n
    then err runtime_error
    else ok (all_candidates n (distances n es raw) es (replicate n (replicate n [])))
