-- ===== src/Scheduler/UdpBursts/Incoming.antt =====
-- About the file of the incoming bursts, over all hosts of a system (helper/apps/udp-burst-scheduler.cc).
use basic_sim.Prelude.{ℕ, ◌%◌, ◌^◌, ◌≡◌, sym, ◌∙◌, true, List, arith, All, inl, inr, length}
use mathlib.Core.Path.{subst}
use basic_sim.Prelude.Int.{ℤ, int_ord}
use basic_sim.Prelude.Results.{ok, ok-injective}
use basic_sim.Containers.SortedSet.{member}
use basic_sim.UdpBurst.{new_server, get_received_counter_of}
use basic_sim.UdpBurst.Counts.{register_all, handle_all, count, ids_of, received_lem}
use basic_sim.Schedule.UdpBurst.{UdpBurstInfo}
use basic_sim.Scheduler.UdpBursts.{BurstLine, bursts_to, server_at}
use basic_sim.Scheduler.UdpBursts.Files.{
  IsIn, responsible_for_incoming, sort_by_id, write_incoming, length-sort_by_id,
  sort_by_id-IsAscending, sort_by_id-All, sort_by_id-IsIn,
}
use basic_sim.Scheduler.UdpBursts.Lines.{
  IsBurstLine, IsMatch, HasCounter, incoming_of-AreMatches, length-AreMatches, all_lines, line_of,
}
use basic_sim.Scheduler.UdpBursts.Hosts.{
  registrations, register_bursts-register_all, AreKnown-registrations, bursts_to-IsIn, of_all, Host,
  servers_of, all_lines_to, HasAscendingIds, HasAscendingIds-AreMatches,
  length-responsible_for_incoming, responsible_for_incoming-IsIn, responsible_for_incoming-All,
}

module _ {D : Type 0} where
  -- The host has read its headers, from the server that the constructor sets up.
  abbrev pub HasRead : List ℤ → List (UdpBurstInfo D) → Host → Type 0
  HasRead ids complete h = handle_all h.headers (server_at ids complete h.endpoint) ≡ ok h.server

  counter_of :
      (ids : List ℤ) (complete : List (UdpBurstInfo D)) (h : Host) (x : UdpBurstInfo D)
      → HasRead ids complete h
      → IsIn x (bursts_to h.endpoint complete)
      → get_received_counter_of x.udp_burst_id h.server
        ≡ ok (count x.udp_burst_id h.headers % 2 ^ 64)
  unfolding server_at
  counter_of ids complete h x read i =
      let xs = bursts_to h.endpoint complete in
      let rs = registrations ids xs in
      let run : handle_all h.headers (register_all rs new_server) ≡ ok h.server =
        subst (λ t. handle_all h.headers t ≡ ok h.server)
          (register_bursts-register_all ids xs new_server) read in
      elim (received_lem rs h.headers) [
        | inr (not_all, failed) ↦ absurd (cc (run, failed))
        | inl (all, (s', run', counts)) ↦
            let same_server : s' ≡ h.server = ground (arith, run, run') in
            subst
              (λ t.
                get_received_counter_of x.udp_burst_id t
                ≡ ok (count x.udp_burst_id h.headers % 2 ^ 64))
              same_server
              (counts x.udp_burst_id (
                of_all (λ (y : UdpBurstInfo D). member y.udp_burst_id (ids_of rs) ≡ true) x xs
                  (AreKnown-registrations ids xs) i))
      ]

  counted_line :
      (end : ℤ) (size payload : ℕ) (h : Host) (x : UdpBurstInfo D) (l : BurstLine) {n : ℕ}
      → get_received_counter_of x.udp_burst_id h.server ≡ ok n
      → IsMatch end size payload (x, h.server) l
      → IsBurstLine end size payload x n l
  counted_line end size payload h x l e (m, e', is) =
      subst (λ k. IsBurstLine end size payload x k l) (ok-injective (sym e' ∙ e)) is

  -- A host with a burst that goes there.
  abbrev pub IsOf : ℤ → ℕ → ℕ → List (UdpBurstInfo D) → List Host → BurstLine → Type 0
  IsOf end size payload complete hosts l =
      (h : Host) × (x : UdpBurstInfo D) × IsIn h hosts
      × IsIn x complete
      × (x.to_node_id ≡ h.endpoint)
      × IsBurstLine end size payload x (count x.udp_burst_id h.headers % 2 ^ 64) l

  pub write_incoming-IsOf :
      (end : ℤ) (size payload : ℕ) (ids : List ℤ) (complete : List (UdpBurstInfo D))
      (hosts : List Host)
      → ((h : Host) → IsIn h hosts → HasRead ids complete h)
      → (lines : List BurstLine) × (write_incoming end size payload
            (responsible_for_incoming complete (servers_of hosts))
          ≡ ok lines)
        × HasAscendingIds lines
        × (length lines ≡ all_lines_to hosts complete)
        × All (IsOf end size payload complete hosts) lines
        × ((h : Host)
            → IsIn h hosts
            → (x : UdpBurstInfo D) → IsIn x complete
            → x.to_node_id ≡ h.endpoint
            → (l : BurstLine) × IsIn l lines
              × IsBurstLine end size payload x (count x.udp_burst_id h.headers % 2 ^ 64) l)
  unfolding write_incoming
  write_incoming-IsOf end size payload ids complete hosts read =
      let ps = responsible_for_incoming complete (servers_of hosts) in
      let counters = sort_by_id-All HasCounter ps (
        responsible_for_incoming-All HasCounter complete hosts (λ h i x j.
          (count x.udp_burst_id h.headers % 2 ^ 64, counter_of ids complete h x (read h i) j))) in
      let (lines, written, matches) =
        incoming_of-AreMatches end size payload (sort_by_id ps) counters in
      (
        lines,
        written,
        HasAscendingIds-AreMatches end size payload (sort_by_id ps) lines
            (sort_by_id-IsAscending ps) matches,
        length-AreMatches end size payload (sort_by_id ps) lines matches
            ∙ (length-sort_by_id ps ∙ length-responsible_for_incoming complete hosts),
        all_lines end size payload (λ p l f m. f l m) (sort_by_id ps) lines
            (sort_by_id-All
              (λ p.
                (l : BurstLine)
                → IsMatch end size payload p l
                → IsOf end size payload complete hosts l)
              ps
              (responsible_for_incoming-All _ complete hosts (λ h i x j l m.
                let to = (bursts_to-IsIn h.endpoint x complete).0 j in
                (
                  h,
                  x,
                  i,
                  to.0,
                  to.1,
                  counted_line end size payload h x l (counter_of ids complete h x (read h i) j) m,
                ))))
            matches,
        λ h i x j to.
            let there = (bursts_to-IsIn h.endpoint x complete).1 (j, to) in
            let (l, k, m) =
              line_of end size payload (x, h.server) (sort_by_id ps) lines
                (sort_by_id-IsIn (x, h.server) ps
                  (responsible_for_incoming-IsIn complete hosts h x i there))
                matches in
            (
              l,
              k,
              counted_line end size payload h x l (counter_of ids complete h x (read h i) there) m,
            ),
      )
