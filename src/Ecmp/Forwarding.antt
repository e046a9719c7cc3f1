-- ===== src/Ecmp/Forwarding.antt =====
-- Forwarding by the candidate lists: what a packet does that follows them hop by hop.
use basic_sim.Prelude.{ℕ, zero, suc, ◌+◌, ◌*◌, ◌≤◌, ◌<◌, ◌≡◌, ◌≢◌, refl, List, arith, length}
use mathlib.Core.Path.{subst}
use basic_sim.Prelude.Results.{ok}
use basic_sim.Ecmp.{cell, infinity, Edge, State, distances, calculate_global_state}
use basic_sim.Ecmp.Graph.{IsGraph, IsSound, Walk, stay, step}
use basic_sim.Ecmp.Shortest.{IsClosed, distances-IsSound, cell-le-Walk, Joined-end-lt}
use basic_sim.Ecmp.Candidates.{hops}
use basic_sim.Ecmp.Candidates.Members.{In, IsNearer, calculate_global_state_lem}

-- A packet for `t` goes from one node to another in a number of hops, each to some candidate.
pub data Route (g : State) (t : ℕ) : ℕ → ℕ → ℕ → Type 0 where
  here : {a : ℕ} → Route g t a a zero
  hop : {a b c k : ℕ} → In b (hops g a t) → Route g t b c k → Route g t a c (suc k)

Walk-end : {es : List Edge} {i j l : ℕ} → Walk es i j l → l ≡ 0 → i ≡ j
Walk-end stay e = refl
Walk-end (step j w) e = absurd (omega arith)

-- The first edge of a shortest walk leads to a nearer node.
IsNearer-neighbour :
    (n : ℕ) (es : List Edge) (d : List ℕ)
    → IsGraph n es
    → IsSound n es d
    → IsClosed n n d
    → (a t l : ℕ) → a < n
    → t < n
    → a ≢ t
    → Walk es a t l
    → l ≡ cell n d a t
    → (b : ℕ) × IsNearer n d es a b t
IsNearer-neighbour n es d g s c a t l ha ht ne stay e = absurd (ne refl)
IsNearer-neighbour n es d g s c a t (suc l) ha ht ne (step {j = m} j w) e =
    let hm = Joined-end-lt n es a m g j in
    (
      m,
      (
        j,
        omega (arith, cell-le-Walk n es d g s c w hm ht, c m a t hm hm ha ht, s.edge a m ha hm j),
      ),
    )

-- The state is the one computed for the graph.
abbrev pub IsStateOf : ℕ → List Edge → List ℕ → State → Type 0
IsStateOf n es d g =
    (a b t : ℕ)
    → a < n
    → t < n
    → (In b (hops g a t) → IsNearer n d es a b t) × (IsNearer n d es a b t → In b (hops g a t))

route_distance :
    (n : ℕ) (es : List Edge) (d : List ℕ) (g : State)
    → IsGraph n es
    → IsStateOf n es d g
    → {t a c k : ℕ} → a < n
    → t < n
    → Route g t a c k
    → (c < n) × (k + cell n d c t ≡ cell n d a t)
route_distance n es d g w is ha ht here = (ha, omega arith)
route_distance n es d g w is {t} {a} {c} {k} ha ht (hop {b = b} i r) =
    let near = (is a b t ha ht).0 i in
    let rest = route_distance n es d g w is (Joined-end-lt n es a b w near.0) ht r in
    (rest.0, omega (arith, rest.1, near.1))

-- Where a walk to the destination exists, forwarding by the computed state never lacks a candidate
-- before the destination; each hop comes one nearer, so a route has at most as many hops as the
-- distance; and a route of just that many hops has arrived, whichever candidates were chosen.
pub forwarding_lem :
    (n : ℕ) (es : List Edge) (raw : List ℕ) (g : State) (a t l : ℕ)
    → n ≤ 40000
    → IsGraph n es
    → length raw ≡ n * n
    → calculate_global_state n es raw ≡ ok g
    → a < n
    → t < n
    → Walk es a t l
    → l < infinity
    → let dist = cell n (distances n es raw) in
      (c k : ℕ)
      → Route g t a c k
      → (k + dist c t ≡ dist a t) × (k ≡ dist a t → c ≡ t) × (c ≢ t → (b : ℕ) × In b (hops g c t))
forwarding_lem n es raw g a t l small w len e ha ht walk fin c k r =
    let d = distances n es raw in
    let (s, closed) = distances-IsSound n es raw w len in
    let (g', e', members) = (calculate_global_state_lem n es raw w).0 small in
    let same : g' ≡ g = cc in
    let is = subst (IsStateOf n es d) same members in
    let (hc, sum) = route_distance n es d g w is ha ht r in
    let short = cell-le-Walk n es d w s closed walk ha ht in
    let w' = s.finite c t hc ht (omega arith) in
    (
      sum,
      λ all. Walk-end w' (omega arith),
      λ ne.
          let (b, near) =
            IsNearer-neighbour n es d w s closed c t (cell n d c t) hc ht ne w' refl in
          (b, (is c b t hc ht).1 near),
    )
