-- ===== src/Arbiter/Routing.antt =====
-- model/core/ipv4-arbiter-routing.cc: routes from an arbiter's decisions. What ns-3 knows of the
-- node (addresses, interfaces) is a record of functions; the callbacks give the outcome as a value.
use basic_sim.Prelude.{
  ℕ, zero, suc, ◌<◌, ◌≡◌, ◌≢◌, refl, sym, Bool, true, false, not, ◌&&◌, if◌then◌else◌, ◌==◌, Option,
  none, some, arith, Bool-cases, inl, inr, ◌⊎◌,
}
use mathlib.Core.Path.{subst}
use basic_sim.Prelude.Results.{Result, ok, err, runtime_error, abort, guard, ◌>>=◌, ◌>>◌}
use basic_sim.Arbiter.{ArbiterResult, get_out_if_idx, get_gateway_ip_address}

-- The parts of an address that are asked for, and the node's ns-3 stack.
pub record Stack : Type 0 where
  pub is_multicast : ℕ → Bool
  pub is_local_multicast : ℕ → Bool
  pub is_loopback : ℕ → Bool
  pub is_destination_address : ℕ → ℕ → Bool
  pub is_forwarding : ℕ → Bool
  pub is_up : ℕ → Bool
  pub source_address_selection : ℕ → ℕ → ℕ
  pub number_of_addresses : ℕ → ℕ
  pub has_loopback_address : ℕ → Bool
  pub has_network_mask : ℕ → Bool

pub record Route : Type 0 where
  pub destination : ℕ
  pub source : ℕ
  pub gateway : ℕ
  pub output_interface : ℕ

pub data SocketError : Type 0 where
  no_error no_route_to_host : SocketError

-- What becomes of a packet that came in.
pub data Input : Type 0 where
  deliver : ℕ → Input
  forward : Route → Input
  no_route : Input

module _ (stack : Stack) where
  open stack use {
    is_multicast, is_local_multicast, is_loopback, is_destination_address, is_forwarding, is_up,
    source_address_selection, number_of_addresses, has_loopback_address, has_network_mask,
  }

  -- `none` is the zero pointer. The decision is `none` where no arbiter is set.
  unfoldable pub lookup_arbiter : Option (Result ArbiterResult) → ℕ → Bool → Result (Option Route)
  lookup_arbiter none dest has_oif = err runtime_error
  lookup_arbiter (some base_decide) dest has_oif = do
    guard (not (is_local_multicast dest)) abort
    guard (not has_oif) abort
    guard (not (is_loopback dest)) abort
    result ← base_decide
    let found = do
      if_idx ← get_out_if_idx result
      gateway_ip_address ← get_gateway_ip_address result
      ok (
          some (record {
            destination = dest;
            source = source_address_selection if_idx dest;
            gateway = gateway_ip_address;
            output_interface = if_idx;
          }))
    if result.failed then ok none else found

  unfoldable pub route_output :
      Option (Result ArbiterResult) → ℕ → Bool → Result (Option Route × SocketError)
  unfolding lookup_arbiter
  route_output decision destination has_oif = do
    guard (not (is_multicast destination)) abort
    route ← lookup_arbiter decision destination has_oif
    ok (route, elim route [ none ↦ no_route_to_host | some r ↦ no_error ])

  unfoldable pub route_input : Option (Result ArbiterResult) → ℕ → ℕ → Result Input
  unfolding lookup_arbiter
  route_input decision destination iif = do
    guard (not (is_multicast destination)) abort
    let onward = do
      guard (is_forwarding iif) abort
      route ← lookup_arbiter decision destination false
      ok (elim route [ none ↦ no_route | some r ↦ forward r ])
    if is_destination_address destination iif then ok (deliver iif) else onward

  unfoldable pub notify_interface_up : ℕ → Result (Unit {0})
  notify_interface_up i = do
    guard (number_of_addresses i == 1) abort
    guard (not (i == 0 && not (has_loopback_address i))) abort
    guard (not (not (i == 0) && not (has_network_mask i))) abort

  unfoldable pub notify_add_address : ℕ → Result (Unit {0})
  notify_add_address interface = guard (not (is_up interface)) runtime_error

unfoldable pub notify_interface_down : ℕ → Result (Unit {0})
notify_interface_down i = err runtime_error

unfoldable pub notify_remove_address : ℕ → Result (Unit {0})
notify_remove_address interface = err runtime_error

module _ (stack : Stack) where
  -- A loop over the interfaces below `k`.
  unfoldable pub set_ipv4 : ℕ → Result (Unit {0})
  unfolding notify_interface_up notify_interface_down
  set_ipv4 zero = ok tt
  set_ipv4 (suc k) =
      set_ipv4 k >> (if stack.is_up k then notify_interface_up stack k else notify_interface_down k)

-- An interface that the protocol admits: it is up and has one address; that of interface 0 is the
-- loop-back address, that of another has the mask 255.255.255.0.
pub record IsAdmitted (stack : Stack) (i : ℕ) : Type 0 where
  pub up : stack.is_up i ≡ true
  pub single : stack.number_of_addresses i ≡ 1
  pub loopback : i ≡ 0 → stack.has_loopback_address i ≡ true
  pub masked : i ≢ 0 → stack.has_network_mask i ≡ true

-- What becomes of one interface.
IsSetUp : Stack → ℕ → Result (Unit {0}) → Type 0
IsSetUp stack i r =
    (IsAdmitted stack i × (r ≡ ok tt))
    ⊎ (((stack.is_up i ≡ false) × (r ≡ err runtime_error))
        ⊎ ((stack.is_up i ≡ true) × (¬ IsAdmitted stack i) × (r ≡ err abort)))

notify_interface_up-IsSetUp :
    (stack : Stack) (i : ℕ)
    → IsSetUp stack i
        (if stack.is_up i then notify_interface_up stack i else notify_interface_down i)
unfolding IsSetUp notify_interface_up notify_interface_down
notify_interface_up-IsSetUp stack i = elim (Bool-cases (stack.is_up i)) [
  | inr down ↦ inr (inl (down, ground (arith, down)))
  | inl up ↦ elim (Bool-cases (stack.number_of_addresses i == 1)) [
    | inr more ↦ inr (inr (up, λ a. ground (arith, more, a.single), ground (arith, up, more)))
    | inl single ↦ elim (Bool-cases (i == 0)) [
      | inl zeroth ↦ elim (Bool-cases (stack.has_loopback_address i)) [
        | inl has ↦ inl (
          record {
            up = up;
            single = ground (arith, single);
            loopback = λ e. has;
            masked = λ ne. absurd (ne (ground (arith, zeroth)));
          },
          ground (arith, up, single, zeroth, has),
        )
        | inr has_not ↦ inr (
            inr (
              up,
              λ a. cc (a.loopback (ground (arith, zeroth)), has_not),
              ground (arith, up, single, zeroth, has_not),
            ))
      ]
      | inr other ↦ elim (Bool-cases (stack.has_network_mask i)) [
        | inl has ↦ inl (
          record {
            up = up;
            single = ground (arith, single);
            loopback = λ e. ground (arith, other, e);
            masked = λ ne. has;
          },
          ground (arith, up, single, other, has),
        )
        | inr has_not ↦ inr (
            inr (
              up,
              λ a. cc (a.masked (λ e. ground (arith, other, e)), has_not),
              ground (arith, up, single, other, has_not),
            ))
      ]
    ]
  ]
]

le_or_same : (i k : ℕ) → i < suc k → (i < k) ⊎ (i ≡ k)
le_or_same i k lt = elim (Bool-cases (i == k)) [
  | inl same ↦ inr (ground (arith, same))
  | inr other ↦ inl (ground (arith, lt, other))
]

pub set_ipv4_lem :
    (stack : Stack) (k : ℕ)
    → (((i : ℕ) → i < k → IsAdmitted stack i) × (set_ipv4 stack k ≡ ok tt))
      ⊎ ((i : ℕ) × (i < k)
          × ((j : ℕ) → j < i → IsAdmitted stack j)
          × (¬ IsAdmitted stack i)
          × (((stack.is_up i ≡ false) × (set_ipv4 stack k ≡ err runtime_error))
              ⊎ ((stack.is_up i ≡ true) × (set_ipv4 stack k ≡ err abort))))
unfolding set_ipv4 IsSetUp
set_ipv4_lem stack zero = inl (λ i lt. absurd (omega (arith, lt)), refl)
set_ipv4_lem stack (suc k) = elim (set_ipv4_lem stack k) [
  | inr (i, lt, before, bad, ends) ↦ inr (
    i,
    omega (arith, lt),
    before,
    bad,
    elim ends [ inl (down, e) ↦ inl (down, rw e refl) | inr (up, e) ↦ inr (up, rw e refl) ],
  )
  | inl (all, e) ↦ elim (notify_interface_up-IsSetUp stack k) [
    | inl (admitted, e') ↦ inl (
      λ i lt. elim (le_or_same i k lt) [
        | inl below ↦ all i below
        | inr same ↦ subst (IsAdmitted stack) (sym same) admitted
      ],
      rw e e',
    )
    | inr (inl (down, e')) ↦ inr (k, omega arith, all, λ a. cc (a.up, down), inl (down, rw e e'))
    | inr (inr (up, bad, e')) ↦ inr (k, omega arith, all, bad, inr (up, rw e e'))
  ]
]
