-- ===== src/Arbiter/Hash.antt =====
-- `ComputeFiveTupleHash` and `TopologyPtopDecide` of model/core/arbiter-ecmp.cc. `Hash32` of ns-3 is
-- an argument, as are the bytes that `Ipv4Address::Serialize` writes.
use basic_sim.Prelude.{
  ℕ, zero, suc, ◌/◌, ◌%◌, ◌<◌, ◌≡◌, refl, sym, ◌∙◌, ap, Bool, not, ◌&&◌, ◌||◌, List, [], ◌∷◌, ◌++◌,
  arith, if◌then◌else◌, ◌==◌, inl, inr, length, length-append,
}
use native.Mathlib.Nat.{mod-lt}
use basic_sim.Prelude.Int.{ℤ, pos, negsuc}
use basic_sim.Prelude.Results.{Result, ok, err, invalid_argument, abort, guard, ◌>>=◌, ◌>>◌}
use basic_sim.Ecmp.{entry}
use basic_sim.Ecmp.Candidates.Members.{In}
use basic_sim.ExpUtil.Collections.{at_index}
use basic_sim.Topology.{at_id}

-- The fields of an IP header that are read.
pub record Header : Type 0 where
  pub source_ip : ℕ
  pub destination_ip : ℕ
  pub protocol : ℕ
  pub frag_offset : ℕ

-- What `PeekHeader` gives of a packet: the source and the destination port.
pub record Packet : Type 0 where
  pub tcp_ports : ℕ × ℕ
  pub udp_ports : ℕ × ℕ

abbrev both_nonzero : ℕ × ℕ → Result (ℕ × ℕ)
both_nonzero ports = guard (not (ports.0 == 0 || ports.1 == 0)) abort >> ok ports

unfoldable pub ports_of : Header → Packet → Bool → Result (ℕ × ℕ)
ports_of header p no_other_headers =
    if no_other_headers
    then ok (0, 0)
    else if header.protocol == 6 && header.frag_offset == 0
    then both_nonzero p.tcp_ports
    else if header.protocol == 17 && header.frag_offset == 0
    then both_nonzero p.udp_ports
    else ok (0, 0)

-- `(x >> 8) & 0xff`, `x & 0xff`.
unfoldable pub bytes_16 : ℕ → List ℕ
bytes_16 x = x / 256 % 256 ∷ x % 256 ∷ []

-- `(x >> 24) & 0xff` to `x & 0xff`.
unfoldable pub bytes_32 : ℕ → List ℕ
bytes_32 x = x / 16_777_216 % 256 ∷ x / 65_536 % 256 ∷ x / 256 % 256 ∷ x % 256 ∷ []

abbrev ecmp_perturbation : ℕ
ecmp_perturbation = 1_333_527_522

module _ (serialize : ℕ → List ℕ) where
  -- The buffer `buf` that is hashed.
  unfoldable pub buffer : Header → ℕ × ℕ → ℕ → List ℕ
  unfolding bytes_16 bytes_32
  buffer header ports node_id =
      serialize header.source_ip
      ++ (serialize header.destination_ip
          ++ (header.protocol
              ∷ (bytes_16 ports.0
                  ++ (bytes_16 ports.1 ++ (bytes_32 node_id ++ bytes_32 ecmp_perturbation)))))

  module _ (hash_32 : List ℕ → ℕ) where
    unfoldable pub compute_five_tuple_hash : Header → Packet → ℤ → Bool → Result ℕ
    unfolding ports_of buffer
    compute_five_tuple_hash header p (negsuc n) no_other_headers = err abort
    compute_five_tuple_hash header p (pos node_id) no_other_headers = do
      ports ← ports_of header p no_other_headers
      ok (hash_32 (buffer header ports node_id))

    -- The candidate that the hash picks.
    unfoldable pub topology_ptop_decide : List (List ℕ) → ℤ → ℤ → Header → Packet → Bool → Result ℕ
    unfolding compute_five_tuple_hash
    topology_ptop_decide candidate_list node_id target_node_id header p no_next_header = do
      hash ← compute_five_tuple_hash header p node_id no_next_header
      candidates ← at_id candidate_list target_node_id
      guard (not (length candidates == 0)) invalid_argument
      at_index candidates (hash % length candidates)

append-injective :
    (xs ys a b : List ℕ) → length xs ≡ length ys → xs ++ a ≡ ys ++ b → (xs ≡ ys) × (a ≡ b)
append-injective [] [] a b len e = (refl, e)
append-injective [] (y ∷ ys) a b len e = absurd (omega arith)
append-injective (x ∷ xs) [] a b len e = absurd (omega arith)
append-injective (x ∷ xs) (y ∷ ys) a b len e =
    let rest = append-injective xs ys a b (omega arith) (cc e) in (cc (e, rest.0), rest.1)

bytes_16_lem :
    (x y : ℕ) → x < 65_536 → y < 65_536 → x / 256 % 256 ≡ y / 256 % 256 → x % 256 ≡ y % 256 → x ≡ y
bytes_16_lem x y hx hy e1 e0 = omega arith

pub bytes_32_lem :
    (x y : ℕ)
    → x < 4_294_967_296
    → y < 4_294_967_296
    → x / 16_777_216 % 256 ≡ y / 16_777_216 % 256
    → x / 65_536 % 256 ≡ y / 65_536 % 256
    → x / 256 % 256 ≡ y / 256 % 256
    → x % 256 ≡ y % 256
    → x ≡ y
bytes_32_lem x y hx hy e3 e2 e1 e0 = omega arith

-- The fields are the sizes that the code keeps them in.
abbrev pub IsInRange : Header → ℕ × ℕ → ℕ → Type 0
IsInRange header ports node_id =
    (header.source_ip < 4_294_967_296)
    × (header.destination_ip < 4_294_967_296)
    × (header.protocol < 256)
    × (ports.0 < 65_536)
    × (ports.1 < 65_536)
    × (node_id < 4_294_967_296)

-- Where each address, a uint32, is serialised to four bytes that determine it, the buffer has 21 bytes,
-- and it determines the five-tuple and the node, for fields in the ranges of their types: different
-- flows, or nodes, are hashed from different bytes.
pub buffer-injective :
    (serialize : ℕ → List ℕ)
    → ((ip : ℕ) → length (serialize ip) ≡ 4)
    → ((ip ip' : ℕ)
        → ip < 4_294_967_296
        → ip' < 4_294_967_296
        → serialize ip ≡ serialize ip'
        → ip ≡ ip')
    → (h h' : Header) (ports ports' : ℕ × ℕ) (node_id node_id' : ℕ) → IsInRange h ports node_id
    → IsInRange h' ports' node_id'
    → (length (buffer serialize h ports node_id) ≡ 21)
      × (buffer serialize h ports node_id ≡ buffer serialize h' ports' node_id'
          → (h.source_ip ≡ h'.source_ip)
            × (h.destination_ip ≡ h'.destination_ip)
            × (h.protocol ≡ h'.protocol)
            × (ports ≡ ports')
            × (node_id ≡ node_id'))
unfolding buffer bytes_16 bytes_32 entry
buffer-injective serialize four injective h h' (s, d) (s', d') n n' r r' = (
  omega (
    arith,
    four h.source_ip,
    four h.destination_ip,
    length-append (serialize h.source_ip) (serialize h.destination_ip ++ rest h.protocol s d n),
    length-append (serialize h.destination_ip) (rest h.protocol s d n),
  ),
  λ e.
      let first =
        append-injective (serialize h.source_ip) (serialize h'.source_ip)
          (serialize h.destination_ip ++ rest h.protocol s d n)
          (serialize h'.destination_ip ++ rest h'.protocol s' d' n')
          (four h.source_ip ∙ sym (four h'.source_ip)) e in
      let second =
        append-injective (serialize h.destination_ip) (serialize h'.destination_ip)
          (rest h.protocol s d n) (rest h'.protocol s' d' n')
          (four h.destination_ip ∙ sym (four h'.destination_ip)) first.1 in
      let at = λ (i : ℕ). ap (λ l. entry l i) second.1 in
      let s-s' : s ≡ s' = bytes_16_lem s s' r.3 r'.3 (at 1) (at 2) in
      let d-d' : d ≡ d' = bytes_16_lem d d' r.4 r'.4 (at 3) (at 4) in
      (
        injective h.source_ip h'.source_ip r.0 r'.0 first.0,
        injective h.destination_ip h'.destination_ip r.1 r'.1 second.0,
        at 0,
        cc (s-s', d-d'),
        bytes_32_lem n n' r.5 r'.5 (at 5) (at 6) (at 7) (at 8),
      ),
)
  where
    rest : ℕ → ℕ → ℕ → ℕ → List ℕ
    rest p s d n = p ∷ (bytes_16 s ++ (bytes_16 d ++ (bytes_32 n ++ bytes_32 ecmp_perturbation)))

at_index-In : (xs : List ℕ) (i : ℕ) → i < length xs → (x : ℕ) × (at_index xs i ≡ ok x) × In x xs
at_index-In [] i h = absurd (omega arith)
at_index-In (x ∷ xs) zero h = (x, refl, inl refl)
at_index-In (x ∷ xs) (suc i) h = let (y, e, m) = at_index-In xs i (omega arith) in (y, e, inr m)

-- For a packet with valid ports the choice is one of the candidates towards the target, whatever the
-- hash function gives, and an invalid argument if there is none.
pub topology_ptop_decide_lem :
    (serialize : ℕ → List ℕ) (hash_32 : List ℕ → ℕ) (candidate_list : List (List ℕ)) (node_id : ℕ)
    (target_node_id : ℤ) (header : Header) (p : Packet) (no_next_header : Bool) (ports : ℕ × ℕ)
    (candidates : List ℕ)
    → ports_of header p no_next_header ≡ ok ports
    → at_id candidate_list target_node_id ≡ ok candidates
    → let choice =
        topology_ptop_decide serialize hash_32 candidate_list
          (pos node_id)
          target_node_id
          header
          p
          no_next_header in
      (0 < length candidates → (b : ℕ) × (choice ≡ ok b) × In b candidates)
      × (length candidates ≡ 0 → choice ≡ err invalid_argument)
unfolding topology_ptop_decide compute_five_tuple_hash
topology_ptop_decide_lem serialize hash_32 candidate_list node_id target header p no_next ports
      candidates hp hc =
    let hash = hash_32 (buffer serialize header ports node_id) in
    (
      λ some_candidate.
          let (b, e, m) =
            at_index-In candidates (hash % length candidates) (mod-lt hash some_candidate) in
          (b, ground (arith, hp, hc, e), m),
      λ empty. ground (arith, hp, hc),
    )
