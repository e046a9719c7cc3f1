-- ===== src/Arbiter.antt =====
-- model/core/arbiter.cc: what an arbiter decides, and the table from IP addresses to nodes.
-- Addresses, interface indices and node ids are uint32 values, kept as numbers. The arbiter of a
-- subclass is the argument `decide`.
pub mod Ptop
pub mod Hash
pub mod Routing
mod Tests
use basic_sim.Prelude.{
  ℕ, zero, suc, ◌+◌, ◌≡◌, refl, sym, ◌∙◌, ap, Bool, true, false, not, ◌&&◌, ◌||◌, List, [], ◌∷◌,
  ◌++◌, arith, if◌then◌else◌, ◌==◌, Option, none, some, Option-cases, inl, inr, ◌⊎◌, Bool-cases,
}
use mathlib.Core.Path.{subst}
use basic_sim.Prelude.Order.{nat_ord}
use basic_sim.Prelude.Int.{ℤ, pos}
use basic_sim.Prelude.Results.{Result, ok, err, invalid_argument, runtime_error, guard, ◌>>=◌, ◌>>◌}
use basic_sim.Containers.SortedSet.{same, same_iff, IsSorted, insert-IsSorted}
use basic_sim.Containers.SortedMap.{find, insert, keys, find-insert, keys-insert}

pub record ArbiterResult : Type 0 where
  pub failed : Bool
  pub out_if_idx : ℕ
  pub gateway_ip_address : ℕ

unfoldable pub arbiter_result : Bool → ℕ → ℕ → Result ArbiterResult
arbiter_result failed out_if_idx gateway_ip_address = do
  guard (not (failed && not (out_if_idx == 0))) invalid_argument
  guard (not (failed && not (gateway_ip_address == 0))) invalid_argument
  guard (not (not failed && out_if_idx == 0)) invalid_argument
  ok (record { failed = failed; out_if_idx = out_if_idx; gateway_ip_address = gateway_ip_address })

unfoldable pub get_out_if_idx : ArbiterResult → Result ℕ
get_out_if_idx r = if r.failed then err runtime_error else ok r.out_if_idx

unfoldable pub get_gateway_ip_address : ArbiterResult → Result ℕ
get_gateway_ip_address r = if r.failed then err runtime_error else ok r.gateway_ip_address

-- The addresses of a node's interfaces; interface 0 is the loop-back.
abbrev pub Addresses : Type 0
Addresses = List ℕ

-- The interfaces from 1 on.
abbrev pub without_loopback : Addresses → List ℕ
without_loopback [] = []
without_loopback (a ∷ as') = as'

unfoldable pub insert_addresses : ℕ → List ℕ → List (ℕ × ℕ) → List (ℕ × ℕ)
insert_addresses i [] m = m
insert_addresses i (a ∷ as') m = insert_addresses i as' (insert a i m)

-- The loop over the nodes, from node `i` on.
unfoldable pub insert_nodes : ℕ → List Addresses → List (ℕ × ℕ) → List (ℕ × ℕ)
unfolding insert_addresses
insert_nodes i [] m = m
insert_nodes i (as' ∷ nodes) m =
    insert_nodes (suc i) nodes (insert_addresses i (without_loopback as') m)

unfoldable pub ip_to_node_id : List Addresses → List (ℕ × ℕ)
unfolding insert_nodes
ip_to_node_id nodes = insert_nodes 0 nodes []

unfoldable pub resolve_node_id_from_ip : List (ℕ × ℕ) → ℕ → Result ℕ
resolve_node_id_from_ip table ip = elim (find ip table) [
  | none ↦ err invalid_argument
  | some i ↦ ok i
]

-- 102.102.102.102, the source address of a request for the source address.
abbrev pub request_for_source_ip : ℕ
request_for_source_ip = 1_717_986_918

module _ {R : Type 0} (decide : ℕ → ℕ → Bool → Result R) where
  unfoldable pub base_decide : ℕ → List (ℕ × ℕ) → ℕ → ℕ → Result R
  base_decide node_id table source_ip destination_ip = do
    let is_request = source_ip == request_for_source_ip
    source_node_id ← if is_request then ok node_id else resolve_node_id_from_ip table source_ip
    target_node_id ← resolve_node_id_from_ip table destination_ip
    decide source_node_id target_node_id is_request

unfoldable pub has_address : ℕ → List ℕ → Bool
has_address ip [] = false
has_address ip (a ∷ as') = ip == a || has_address ip as'

-- The first node, from `i` on, that has the address on an interface other than the loop-back.
unfoldable pub owner : ℕ → List Addresses → ℕ → Option ℕ
unfolding has_address
owner i [] ip = none
owner i (as' ∷ nodes) ip =
    let later = owner (suc i) nodes ip in
    if has_address ip (without_loopback as') then some i else later

-- An entry that is there stays; otherwise the node gets its addresses.
find-insert_addresses :
    (i ip : ℕ) (as' : List ℕ) (m : List (ℕ × ℕ))
    → IsSorted (keys m)
    → IsSorted (keys (insert_addresses i as' m))
      × (find ip (insert_addresses i as' m) ≡ elim (find ip m) [
        | some v ↦ some v
        | none ↦ (if has_address ip as' then some i else none)
      ])
unfolding insert_addresses has_address
find-insert_addresses i ip [] m s = (s, ground arith)
find-insert_addresses i ip (a ∷ as') m s =
    let m' = insert a i m in
    let s' = subst IsSorted (sym (keys-insert a i m)) (insert-IsSorted a (keys m) s) in
    let rest = find-insert_addresses i ip as' m' s' in
    (rest.0, ground (arith, rest.1, find-insert ip a i m s, same_iff ip a))

find-insert_nodes :
    (i ip : ℕ) (nodes : List Addresses) (m : List (ℕ × ℕ))
    → IsSorted (keys m)
    → find ip (insert_nodes i nodes m)
      ≡ elim (find ip m) [ some v ↦ some v | none ↦ owner i nodes ip ]
unfolding insert_nodes owner
find-insert_nodes i ip [] m s = ground arith
find-insert_nodes i ip (as' ∷ nodes) m s =
    let here = find-insert_addresses i ip (without_loopback as') m s in
    ground (
      arith,
      here.1,
      find-insert_nodes (suc i) ip nodes (insert_addresses i (without_loopback as') m) here.0,
    )

-- An address leads to the first node that has it on an interface other than the loop-back, and an
-- address that no node has is an invalid argument.
pub resolve_node_id_lem :
    (nodes : List Addresses) (ip : ℕ)
    → resolve_node_id_from_ip (ip_to_node_id nodes) ip
      ≡ elim (owner 0 nodes ip) [ none ↦ err invalid_argument | some i ↦ ok i ]
unfolding resolve_node_id_from_ip ip_to_node_id find
resolve_node_id_lem nodes ip =
    let found : find ip (insert_nodes 0 nodes []) ≡ owner 0 nodes ip =
      find-insert_nodes 0 ip nodes [] tt in
    ap (λ (o : Option ℕ). elim o [ none ↦ err invalid_argument | some i ↦ ok i ]) found
