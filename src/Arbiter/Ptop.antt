-- ===== src/Arbiter/Ptop.antt =====
-- model/core/arbiter-ptop.cc: from the chosen neighbour to the interface that leads there. The
-- choice (`TopologyPtopDecide` of a subclass) is an argument.
use basic_sim.Prelude.{
  ℕ, zero, suc, ◌<◌, ◌≡◌, ◌≢◌, refl, sym, ◌∙◌, ap, true, false, not, ◌&&◌, ◌||◌, List, [], ◌∷◌,
  arith, if◌then◌else◌, ◌==◌, length, length-set, set, replicate, All, ◌≤◌, ◌⊎◌, inl, inr,
  Bool-cases, ltb,
}
use mathlib.Core.Path.{subst}
use basic_sim.Prelude.Int.{ℤ, pos, negsuc, ltb_ℤ, eqb_ℤ, eqb_ℤ_iff}
use basic_sim.Prelude.Results.{
  Result, ok, err, runtime_error, out_of_range, guard, ◌>>=◌, ◌>>◌, >>=-eq-ok, ok-injective,
}
use basic_sim.Ecmp.{entry}
use basic_sim.Ecmp.Matrix.{entry-set}
use basic_sim.ExpUtil.Collections.{at_index}
use basic_sim.Topology.{Link, at_id}
use basic_sim.Arbiter.{ArbiterResult, arbiter_result}

-- `m_neighbor_node_id_to_if_idx.at(b) = if_idx`.
unfoldable pub put_if_idx : ℤ → ℕ → List ℕ → Result (List ℕ)
put_if_idx (pos b) if_idx table =
    if ltb b (length table) then ok (set table b if_idx) else err out_of_range
put_if_idx (negsuc b) if_idx table = err out_of_range

-- What one edge writes; its ends have the interfaces `idxs`.
unfoldable pub put_edge : ℤ → Link → ℕ × ℕ → List ℕ → Result (List ℕ)
unfolding put_if_idx
put_edge node_id (x, y) (p, q) table =
    if eqb_ℤ x node_id
    then put_if_idx y p table
    else if eqb_ℤ y node_id
    then put_if_idx x q table
    else ok table

unfoldable pub put_edges : ℤ → List Link → List (ℕ × ℕ) → List ℕ → Result (List ℕ)
unfolding put_edge
put_edges node_id [] idxs table = ok table
put_edges node_id ((x, y) ∷ es) [] table =
    let rest = put_edges node_id es [] table in
    if eqb_ℤ x node_id || eqb_ℤ y node_id then err out_of_range else rest
put_edges node_id (e ∷ es) (i ∷ idxs) table = do
  table' ← put_edge node_id e i table
  put_edges node_id es idxs table'

-- The constructor's table; 0 is no interface.
unfoldable pub neighbor_node_id_to_if_idx : ℤ → ℕ → List Link → List (ℕ × ℕ) → Result (List ℕ)
unfolding put_edges
neighbor_node_id_to_if_idx node_id num_nodes edges idxs =
    put_edges node_id edges idxs (replicate num_nodes 0)

unfoldable pub decide : ℤ → ℕ → List ℕ → Result ArbiterResult
decide selected_node_id num_nodes table = do
  let valid = not (ltb_ℤ selected_node_id (pos 0)) && ltb_ℤ selected_node_id (pos num_nodes)
  let next = do
    guard valid runtime_error
    selected_if_idx ← at_id table selected_node_id
    guard (not (selected_if_idx == 0)) runtime_error
    arbiter_result false selected_if_idx 0
  if eqb_ℤ selected_node_id (negsuc 0) then arbiter_result true 0 0 else next

-- An edge between the node and `b` has the interface `v` at the node.
abbrev pub IsInterface : ℤ → ℕ → List Link → List (ℕ × ℕ) → ℕ → Type 0
IsInterface node_id b [] idxs v = ⊥
IsInterface node_id b (e ∷ es) [] v = ⊥
IsInterface node_id b ((x, y) ∷ es) ((p, q) ∷ idxs) v =
    (((x ≡ node_id) × (y ≡ pos b) × (v ≡ p)) ⊎ ((y ≡ node_id) × (x ≡ pos b) × (v ≡ q)))
    ⊎ IsInterface node_id b es idxs v

-- The entry of `b` is untouched, or an interface towards `b`.
abbrev IsPut : ℤ → ℕ → List Link → List (ℕ × ℕ) → List ℕ → List ℕ → Type 0
IsPut node_id b es idxs table table' =
    ((entry table' b ≡ entry table b) × ((v : ℕ) → IsInterface node_id b es idxs v → ⊥))
    ⊎ IsInterface node_id b es idxs (entry table' b)

put_if_idx-lem :
    (c : ℤ) (v b : ℕ) (table table' : List ℕ)
    → put_if_idx c v table ≡ ok table'
    → (length table' ≡ length table)
      × (((c ≡ pos b) × (entry table' b ≡ v)) ⊎ ((c ≢ pos b) × (entry table' b ≡ entry table b)))
unfolding put_if_idx
put_if_idx-lem (pos c) v b table table' h = elim (Bool-cases (ltb c (length table))) [
  | inl lt ↦
      let new : table' ≡ set table c v = ground (arith, lt, h) in
      let at = entry-set table c b v (ground (arith, lt)) in
      (ap length new ∙ length-set table c v, ground (arith, ap (λ t. entry t b) new, at))
  | inr out ↦ ground (arith, out, h)
]
put_if_idx-lem (negsuc c) v b table table' h = cc

at_index-entry : (xs : List ℕ) (i : ℕ) → i < length xs → at_index xs i ≡ ok (entry xs i)
unfolding entry
at_index-entry [] i h = absurd (omega arith)
at_index-entry (x ∷ xs) zero h = refl
at_index-entry (x ∷ xs) (suc i) h = at_index-entry xs i (omega arith)

length-zeros : (n : ℕ) → length {A = ℕ} (replicate n 0) ≡ n
length-zeros zero = refl
length-zeros (suc n) = ap suc (length-zeros n)

zeros : (n b : ℕ) → entry (replicate n 0) b ≡ 0
unfolding entry
zeros zero b = refl
zeros (suc n) zero = refl
zeros (suc n) (suc b) = zeros n b

put_edge-IsPut :
    (node_id x y : ℤ) (p q b : ℕ) (table table' : List ℕ)
    → x ≢ y
    → put_edge node_id (x, y) (p, q) table ≡ ok table'
    → (length table' ≡ length table) × IsPut node_id b ((x, y) ∷ []) ((p, q) ∷ []) table table'
unfolding put_edge
put_edge-IsPut node_id x y p q b table table' ne h = elim (Bool-cases (eqb_ℤ x node_id)) [
  | inl left ↦
      let at : x ≡ node_id = (eqb_ℤ_iff x node_id).0 left in
      let put = put_if_idx-lem y p b table table' (ground (arith, left, h)) in
      (
        put.0,
        elim put.1 [
          | inl here ↦ inr (inl (inl (at, here.0, here.1)))
          | inr other ↦ inl (
            other.1,
            λ v i. elim i [
              | inl j ↦ elim j [ inl k ↦ other.0 k.1 | inr k ↦ ne (at ∙ sym k.0) ]
              | inr j ↦ j
            ],
          )
        ],
      )
  | inr not_left ↦ elim (Bool-cases (eqb_ℤ y node_id)) [
    | inl right ↦
        let at : y ≡ node_id = (eqb_ℤ_iff y node_id).0 right in
        let put = put_if_idx-lem x q b table table' (ground (arith, not_left, right, h)) in
        (
          put.0,
          elim put.1 [
            | inl here ↦ inr (inl (inr (at, here.0, here.1)))
            | inr other ↦ inl (
              other.1,
              λ v i. elim i [
                | inl j ↦ elim j [ inl k ↦ ne (k.0 ∙ sym at) | inr k ↦ other.0 k.1 ]
                | inr j ↦ j
              ],
            )
          ],
        )
    | inr not_right ↦
        let same : table' ≡ table = ground (arith, not_left, not_right, h) in
        (
          ap length same,
          inl (
            ap (λ t. entry t b) same,
            λ v i. elim i [
              | inl j ↦ elim j [
                | inl k ↦ cc (not_left, (eqb_ℤ_iff x node_id).1 k.0)
                | inr k ↦ cc (not_right, (eqb_ℤ_iff y node_id).1 k.0)
              ]
              | inr j ↦ j
            ],
          ),
        )
  ]
]

-- The ends of every edge differ.
abbrev pub HasNoLoop : List Link → Type 0
HasNoLoop = All (λ e. e.0 ≢ e.1)

no_interface : (node_id : ℤ) (b : ℕ) (es : List Link) (v : ℕ) → IsInterface node_id b es [] v → ⊥
no_interface node_id b [] v i = i
no_interface node_id b (e ∷ es) v i = i

put_edges-IsPut :
    (node_id : ℤ) (b : ℕ) (es : List Link) (idxs : List (ℕ × ℕ)) (table table' : List ℕ)
    → HasNoLoop es
    → put_edges node_id es idxs table ≡ ok table'
    → (length table' ≡ length table) × IsPut node_id b es idxs table table'
unfolding put_edges
put_edges-IsPut node_id b [] idxs table table' l h =
    let same = ok-injective h in
    (ap length (sym same), inl (ap (λ t. entry t b) (sym same), λ v i. i))
put_edges-IsPut node_id b ((x, y) ∷ es) [] table table' l h =
    elim (Bool-cases (eqb_ℤ x node_id || eqb_ℤ y node_id)) [
      | inl touching ↦ absurd (ground (arith, touching, h))
      | inr other ↦
          let rest = put_edges-IsPut node_id b es [] table table' l.1 (ground (arith, other, h)) in
          (
            rest.0,
            elim rest.1 [
              | inl kept ↦ inl (kept.0, λ v i. i)
              | inr i ↦ absurd (no_interface node_id b es (entry table' b) i)
            ],
          )
    ]
put_edges-IsPut node_id b ((x, y) ∷ es) ((p, q) ∷ idxs) table table' l h =
    let (mid, h0, h1) = >>=-eq-ok (put_edge node_id (x, y) (p, q) table) _ h in
    let first = put_edge-IsPut node_id x y p q b table mid l.0 h0 in
    let rest = put_edges-IsPut node_id b es idxs mid table' l.1 h1 in
    (
      rest.0 ∙ first.0,
      elim rest.1 [
        | inr later ↦ inr (inr later)
        | inl kept ↦ elim first.1 [
          | inr here ↦
              inr
                (elim (subst (IsInterface node_id b ((x, y) ∷ []) ((p, q) ∷ [])) (sym kept.0)
                  here) [ inl j ↦ inl j | inr none ↦ absurd none ])
          | inl missed ↦
              inl (
                kept.0 ∙ missed.0,
                λ v i. elim i [ inl j ↦ missed.1 v (inl j) | inr j ↦ kept.1 v j ],
              )
        ]
      ],
    )

-- Once the table was made, a choice of -1 is a failed result; a choice of a node id succeeds with an
-- interface of an edge between the two nodes if there is such an edge, whose interfaces are then not
-- 0; and it is a runtime error if there is none, as is a choice that is no node id.
pub decide_lem :
    (node_id : ℤ) (n : ℕ) (edges : List Link) (idxs : List (ℕ × ℕ)) (table : List ℕ)
    → HasNoLoop edges
    → ((b v : ℕ) → IsInterface node_id b edges idxs v → v ≢ 0)
    → neighbor_node_id_to_if_idx node_id n edges idxs ≡ ok table
    → (decide (negsuc 0) n table
        ≡ ok (record { failed = true; out_if_idx = 0; gateway_ip_address = 0 }))
      × ((b : ℕ)
          → b < n
          → ((v : ℕ) × IsInterface node_id b edges idxs v
              × (decide (pos b) n table
                  ≡ ok (record { failed = false; out_if_idx = v; gateway_ip_address = 0 })))
            ⊎ (((v : ℕ) → IsInterface node_id b edges idxs v → ⊥)
                × (decide (pos b) n table ≡ err runtime_error)))
      × ((b : ℕ) → n ≤ b → decide (pos b) n table ≡ err runtime_error)
      × ((b : ℕ) → decide (negsuc (suc b)) n table ≡ err runtime_error)
unfolding decide neighbor_node_id_to_if_idx arbiter_result
decide_lem node_id n edges idxs table l nonzero h = (
  refl,
  λ b lt.
      let put = put_edges-IsPut node_id b edges idxs (replicate n 0) table l h in
      let found : at_index table b ≡ ok (entry table b) =
        at_index-entry table b (omega (arith, put.0, length-zeros n)) in
      elim put.1 [
        | inr i ↦ inl (entry table b, i, ground (arith, found, nonzero b (entry table b) i))
        | inl missing ↦ inr (missing.1, ground (arith, found, missing.0, zeros n b))
      ],
  λ b le. ground arith,
  λ b. ground arith,
)
