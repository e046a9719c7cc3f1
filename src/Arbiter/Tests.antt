-- ===== src/Arbiter/Tests.antt =====
-- A node with two neighbours.
use basic_sim.Prelude.{
  ◌==◌, ℕ, suc, ◌<◌, ◌≤◌, ◌≡◌, ◌≢◌, refl, true, false, not, List, [], ◌∷◌, length, arith, none,
  some, ◌⊎◌, ap,
}
use basic_sim.Prelude.Int.{pos, negsuc}
use basic_sim.Prelude.Results.{ok, err, abort, invalid_argument, runtime_error}
use basic_sim.Topology.{Link}
use basic_sim.Ecmp.Candidates.Members.{In}
use basic_sim.Arbiter.{
  Addresses, ip_to_node_id, resolve_node_id_from_ip, owner, resolve_node_id_lem,
}
use basic_sim.Arbiter.Ptop.{IsInterface, HasNoLoop, neighbor_node_id_to_if_idx, decide, decide_lem}
use basic_sim.Arbiter.Hash.{
  Header, Packet, bytes_32, bytes_32_lem, buffer, ports_of, topology_ptop_decide, buffer-injective,
  topology_ptop_decide_lem,
}
use basic_sim.Ecmp.{entry}
use basic_sim.Arbiter.Routing.{Stack, IsAdmitted, set_ipv4, set_ipv4_lem}

abbrev nodes : List Addresses
nodes = (1 ∷ 10 ∷ []) ∷ (1 ∷ 11 ∷ 20 ∷ []) ∷ (1 ∷ 21 ∷ []) ∷ []

resolve_node_id_lem_example :
    resolve_node_id_from_ip (ip_to_node_id nodes) 20
    ≡ elim (owner 0 nodes 20) [ none ↦ err invalid_argument | some i ↦ ok i ]
resolve_node_id_lem_example = resolve_node_id_lem nodes 20

abbrev edges : List Link
edges = (pos 0, pos 1) ∷ (pos 1, pos 2) ∷ []

abbrev interfaces : List (ℕ × ℕ)
interfaces = (1, 1) ∷ (2, 1) ∷ []

edges-HasNoLoop : HasNoLoop edges
edges-HasNoLoop = (λ e. cc e, (λ e. cc e, tt))

interfaces_nonzero : (b v : ℕ) → IsInterface (pos 1) b edges interfaces v → v ≢ 0
interfaces_nonzero b v i e = ground (arith, i, e)

table_made : neighbor_node_id_to_if_idx (pos 1) 3 edges interfaces ≡ ok (1 ∷ 0 ∷ 2 ∷ [])
unfolding neighbor_node_id_to_if_idx
table_made = refl

decide_lem_example :
    (decide (negsuc 0) 3 (1 ∷ 0 ∷ 2 ∷ [])
      ≡ ok (record { failed = true; out_if_idx = 0; gateway_ip_address = 0 }))
    × ((b : ℕ)
        → b < 3
        → ((v : ℕ) × IsInterface (pos 1) b edges interfaces v
            × (decide (pos b) 3 (1 ∷ 0 ∷ 2 ∷ [])
                ≡ ok (record { failed = false; out_if_idx = v; gateway_ip_address = 0 })))
          ⊎ (((v : ℕ) → IsInterface (pos 1) b edges interfaces v → ⊥)
              × (decide (pos b) 3 (1 ∷ 0 ∷ 2 ∷ []) ≡ err runtime_error)))
    × ((b : ℕ) → 3 ≤ b → decide (pos b) 3 (1 ∷ 0 ∷ 2 ∷ []) ≡ err runtime_error)
    × ((b : ℕ) → decide (negsuc (suc b)) 3 (1 ∷ 0 ∷ 2 ∷ []) ≡ err runtime_error)
decide_lem_example =
    decide_lem (pos 1) 3 edges interfaces (1 ∷ 0 ∷ 2 ∷ []) edges-HasNoLoop interfaces_nonzero
      table_made

abbrev udp_header : Header
udp_header = record { source_ip = 10; destination_ip = 21; protocol = 17; frag_offset = 0 }

abbrev tcp_header : Header
tcp_header = record { source_ip = 10; destination_ip = 21; protocol = 6; frag_offset = 0 }

bytes_32-injective :
    (ip ip' : ℕ) → ip < 4_294_967_296 → ip' < 4_294_967_296 → bytes_32 ip ≡ bytes_32 ip' → ip ≡ ip'
unfolding bytes_32 entry
bytes_32-injective ip ip' r r' e =
    let at = λ (i : ℕ). ap (λ l. entry l i) e in
    bytes_32_lem ip ip' r r' (at 0) (at 1) (at 2) (at 3)

bytes_32-length : (ip : ℕ) → length (bytes_32 ip) ≡ 4
unfolding bytes_32
bytes_32-length ip = refl

buffer-injective_example :
    (length (buffer bytes_32 udp_header (1000, 1001) 4) ≡ 21)
    × (buffer bytes_32 udp_header (1000, 1001) 4 ≡ buffer bytes_32 tcp_header (1000, 1001) 5
        → (udp_header.source_ip ≡ tcp_header.source_ip)
          × (udp_header.destination_ip ≡ tcp_header.destination_ip)
          × (udp_header.protocol ≡ tcp_header.protocol)
          × (◌≡◌ {A = ℕ × ℕ} (1000, 1001) (1000, 1001))
          × (◌≡◌ {A = ℕ} 4 5))
buffer-injective_example =
    buffer-injective bytes_32 bytes_32-length bytes_32-injective udp_header tcp_header (1000, 1001)
      (1000, 1001) 4 5
      (omega arith, omega arith, omega arith, omega arith, omega arith, omega arith)
      (omega arith, omega arith, omega arith, omega arith, omega arith, omega arith)

abbrev udp_packet : Packet
udp_packet = record { tcp_ports = (0, 0); udp_ports = (1000, 1001) }

abbrev candidate_list : List (List ℕ)
candidate_list = [] ∷ [] ∷ (1 ∷ 3 ∷ []) ∷ []

ports_found : ports_of udp_header udp_packet false ≡ ok (1000, 1001)
unfolding ports_of
ports_found = refl

topology_ptop_decide_lem_example :
    let choice =
      topology_ptop_decide bytes_32 length candidate_list
        (pos 0)
        (pos 2)
        udp_header
        udp_packet
        false in
    (0 < length {A = ℕ} (1 ∷ 3 ∷ []) → (b : ℕ) × (choice ≡ ok b) × In b (1 ∷ 3 ∷ []))
    × (length {A = ℕ} (1 ∷ 3 ∷ []) ≡ 0 → choice ≡ err invalid_argument)
topology_ptop_decide_lem_example =
    topology_ptop_decide_lem bytes_32 length candidate_list 0 (pos 2) udp_header udp_packet false
      (1000, 1001) (1 ∷ 3 ∷ []) ports_found refl

-- Interface 2 is down.
abbrev stack : Stack
stack = record {
  is_multicast = λ a. false;
  is_local_multicast = λ a. false;
  is_loopback = λ a. a == 1;
  is_destination_address = λ a i. a == 11;
  is_forwarding = λ i. true;
  is_up = λ i. not (i == 2);
  source_address_selection = λ i a. 11;
  number_of_addresses = λ i. 1;
  has_loopback_address = λ i. i == 0;
  has_network_mask = λ i. not (i == 0);
}

set_ipv4_lem_example :
    (((i : ℕ) → i < 4 → IsAdmitted stack i) × (set_ipv4 stack 4 ≡ ok tt))
    ⊎ ((i : ℕ) × (i < 4)
        × ((j : ℕ) → j < i → IsAdmitted stack j)
        × (¬ IsAdmitted stack i)
        × (((stack.is_up i ≡ false) × (set_ipv4 stack 4 ≡ err runtime_error))
            ⊎ ((stack.is_up i ≡ true) × (set_ipv4 stack 4 ≡ err abort))))
set_ipv4_lem_example = set_ipv4_lem stack 4
