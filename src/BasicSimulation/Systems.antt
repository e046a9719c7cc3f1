-- ===== src/BasicSimulation/Systems.antt =====
-- About the assignment of nodes to systems (model/core/basic-simulation.cc).
use basic_sim.Prelude.{
  ℕ, zero, suc, ◌<◌, ◌%◌, ◌^◌, ◌≡◌, ◌∙◌, refl, ap, Bool, true, false, not, ◌||◌, List, [], ◌∷◌,
  arith, ◌==◌, length,
}
use mathlib.Core.Path.{subst}
use basic_sim.Prelude.Int.{ℤ, pos, negsuc, ltb_ℤ, pos_part}
use basic_sim.Prelude.Text.{codes}
use basic_sim.Prelude.Results.{
  ok, invalid_argument, runtime_error, >>=-elim, guard-eq-ok, ok-injective,
}
use basic_sim.ExpUtil.Numbers.{parse_positive_int64, parse_boolean}
use basic_sim.ExpUtil.Collections.{at_index, parse_list_positive_int64}
use basic_sim.BasicSimulation.{
  BasicSimulation, get_config_param_or_fail, get_config_param_or_default, check_assignment,
  check_implementation_type, configure_distributed, configure_systems, configure_simulation,
  register_timestamp, is_node_assigned_to_this_system,
}

-- Each node has a system.
check_assignment-at :
    (count : ℕ) (assignment : List ℤ) (u : Unit {0}) (i : ℕ)
    → check_assignment count assignment ≡ ok u
    → i < length assignment
    → (k : ℕ) × (k < count) × (at_index assignment i ≡ ok (pos k))
unfolding check_assignment
check_assignment-at count [] u i h lt = absurd (omega arith)
check_assignment-at count (pos k ∷ as') u zero h lt =
    let (b, h1) =
      guard-eq-ok (not (ltb_ℤ (pos k) (pos 0) || not (ltb_ℤ (pos k) (pos count)))) invalid_argument
        (check_assignment count as') h in
    (k, ground (arith, b), refl)
check_assignment-at count (negsuc k ∷ as') u zero h lt = ground arith
check_assignment-at count (a ∷ as') u (suc i) h lt =
    let (b, h1) =
      guard-eq-ok (not (ltb_ℤ a (pos 0) || not (ltb_ℤ a (pos count)))) invalid_argument
        (check_assignment count as') h in
    check_assignment-at count as' u i h1 (omega arith)

pub record IsDistributed (mpi_size : ℕ) (s : BasicSimulation) : Type 0 where
  pub counted : s.systems_count ≡ mpi_size
  pub enabled : s.enable_distributed ≡ true
  pub assigned : check_assignment mpi_size s.distributed_node_system_id_assignment ≡ ok tt

configure_distributed-IsDistributed :
    (id size : ℕ) (s s' : BasicSimulation)
    → configure_distributed id size s ≡ ok s'
    → IsDistributed size s'
unfolding configure_distributed
configure_distributed-IsDistributed id size s s' h =
    >>=-elim (get_config_param_or_fail (codes "distributed_simulator_implementation_type") s) _ h
      λ t h0 h1. >>=-elim (check_implementation_type t.0) _ h1 λ u1 h2 h3.
        >>=-elim (get_config_param_or_fail (codes "distributed_systems_count") t.1) _ h3 λ c h4 h5.
          >>=-elim (parse_positive_int64 c.0) _ h5 λ n h6 h7.
            let (b, h8) = guard-eq-ok (size == pos_part n % 2 ^ 32) runtime_error _ h7 in
            >>=-elim (get_config_param_or_fail (codes "distributed_node_system_id_assignment") c.1)
              _ h8
              λ a g0 g1. >>=-elim (parse_list_positive_int64 a.0) _ g1 λ assignment g2 g3.
                >>=-elim (check_assignment size assignment) _ g3 λ u2 g4 g5.
                  subst (IsDistributed size) (ok-injective g5)
                    (record { counted = refl; enabled = refl; assigned = g4 })

configure_systems-IsDistributed :
    (b : Bool) (id size : ℕ) (s s' : BasicSimulation)
    → configure_systems b id size s ≡ ok s'
    → s'.enable_distributed ≡ true
    → IsDistributed size s'
unfolding configure_systems
configure_systems-IsDistributed true id size s s' h on =
    configure_distributed-IsDistributed id size s s' h
configure_systems-IsDistributed false id size s s' h on =
    let off : false ≡ s'.enable_distributed =
      ap (λ (t : BasicSimulation). t.enable_distributed) (ok-injective h) in
    absurd (cc (off, on))

register_timestamp-IsDistributed :
    (size : ℕ) (now : ℤ) (s : BasicSimulation)
    → IsDistributed size s
    → IsDistributed size (register_timestamp (codes "Configure simulator") now s)
unfolding register_timestamp
register_timestamp-IsDistributed size now s d = record {
  counted = d.counted;
  enabled = d.enabled;
  assigned = d.assigned;
}

-- In distributed mode the systems of an accepted configuration share out the nodes: each node that the
-- assignment names belongs to just one of the systems that there are.
pub configure_simulation-shares :
    (now : ℤ) (id size : ℕ) (s s' : BasicSimulation) (i : ℕ)
    → configure_simulation now id size s ≡ ok s'
    → s'.enable_distributed ≡ true
    → i < length s'.distributed_node_system_id_assignment
    → (k : ℕ) × (k < s'.systems_count)
      × ((j : ℕ)
          → is_node_assigned_to_this_system (pos i) (record s' { system_id = j }) ≡ ok (k == j))
unfolding configure_simulation is_node_assigned_to_this_system register_timestamp
configure_simulation-shares now id size s s' i h on lt =
    >>=-elim (get_config_param_or_default (codes "enable_distributed") (codes "false") s) _ h
      λ e h0 h1. >>=-elim (parse_boolean e.0) _ h1 λ b h2 h3.
        >>=-elim (configure_systems b id size e.1) _ h3 λ s1 h4 h5.
          let same = ok-injective h5 in
          let on' : s1.enable_distributed ≡ true =
            ap (λ (t : BasicSimulation). t.enable_distributed) same ∙ on in
          let d1 = configure_systems-IsDistributed b id size e.1 s1 h4 on' in
          let d =
            subst (IsDistributed size) same (register_timestamp-IsDistributed size now s1 d1) in
          let (k, small, at_i) = check_assignment-at size _ tt i d.assigned lt in
          (k, ground (arith, small, d.counted), λ j. ground (arith, on, at_i))
