-- ===== src/UdpBurst/Tests.antt =====
-- A burst of 25 ns with a gap of 10 ns, and a server with two bursts.
use basic_sim.Prelude.{
  ℕ, suc, ◌/◌, ◌%◌, ◌^◌, ◌≡◌, ◌⊎◌, refl, Bool, true, false, List, [], ◌∷◌, arith, some, All,
}
use basic_sim.Prelude.Int.{ℤ, pos, int_ord}
use basic_sim.Prelude.Results.{ok, err, out_of_range, map_result}
use basic_sim.Containers.SortedSet.{member, same}
use basic_sim.Containers.SortedMap.{find, insert}
use basic_sim.TcpFlow.{to_int64}
use basic_sim.UdpHeaders.{UdpBurstHeader}
use basic_sim.UdpBurst.{
  UdpBurstClient, UdpBurstServer, create_client, run_sends, new_server, get_received_counter_of,
  get_incoming_bursts_information,
}
use basic_sim.UdpBurst.Sends.{packets, run_sends-packets}
use basic_sim.UdpBurst.Counts.{register_all, handle_all, count, ids_of, received_lem}

abbrev client : UdpBurstClient
client = create_client 3 7 25 1472 true

run_sends-packets_example :
    (c' : UdpBurstClient) × (run_sends 26 10 7 client
      ≡ some (c', packets 3 1472 10 7 0 (suc (24 / 10))))
    × (c'.sent ≡ suc (24 / 10))
unfolding create_client
run_sends-packets_example = run_sends-packets 10 client (omega arith) refl (omega arith)

abbrev registrations : List (ℤ × Bool)
registrations = (pos 3, true) ∷ (pos 1, false) ∷ []

-- Two packets of burst 3 and one of burst 1.
abbrev received : List (UdpBurstHeader × ℕ)
received =
    (record { id = 3; seq = 0 }, 20)
    ∷ (record { id = 1; seq = 0 }, 21)
    ∷ (record { id = 3; seq = 2 }, 40)
    ∷ []

received_lem_example :
    (All
        (λ (h : UdpBurstHeader × ℕ). member (to_int64 h.0.id) (ids_of registrations) ≡ true)
        received
      × ((s : UdpBurstServer) × (handle_all received (register_all registrations new_server) ≡ ok s)
          × ((id : ℤ)
              → member id (ids_of registrations) ≡ true
              → get_received_counter_of id s ≡ ok (count id received % 2 ^ 64))))
    ⊎ ((¬ All
          (λ (h : UdpBurstHeader × ℕ). member (to_int64 h.0.id) (ids_of registrations) ≡ true)
          received)
        × (handle_all received (register_all registrations new_server) ≡ err out_of_range))
received_lem_example = received_lem registrations received

abbrev after : UdpBurstServer
after = record {
  incoming_bursts = pos 3 ∷ pos 1 ∷ [];
  incoming_bursts_received_counter = (pos 1, 1) ∷ (pos 3, 2) ∷ [];
  incoming_bursts_enable_precise_logging = (pos 1, false) ∷ (pos 3, true) ∷ [];
  incoming_lines = (record { id = 3; seq = 0 }, 20) ∷ (record { id = 3; seq = 2 }, 40) ∷ [];
}

handle_received : handle_all received (register_all registrations new_server) ≡ ok after
unfolding handle_all register_all insert find same
handle_received = refl

information_after : get_incoming_bursts_information after ≡ ok ((pos 3, 2) ∷ (pos 1, 1) ∷ [])
unfolding get_incoming_bursts_information find same map_result
information_after = refl
