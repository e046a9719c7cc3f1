-- ===== src/Scheduler/UdpBursts/Files.antt =====
-- helper/apps/udp-burst-scheduler.cc: the lines of both files of results, in the order of the ids of
-- the bursts. The ids of a schedule are different, so that the order of equal ids does not matter.
use basic_sim.Prelude.{
  ℕ, suc, ◌≡◌, refl, ◌∙◌, ap, false, List, [], ◌∷◌, ◌++◌, map, length, if◌then◌else◌, arith,
  Bool-cases, inl, inr, All, ◌⊎◌,
}
use basic_sim.Prelude.Int.{ℤ, ltb_ℤ}
use basic_sim.Prelude.Results.{Result, ok, ◌>>=◌}
use basic_sim.UdpBurst.{UdpBurstClient, UdpBurstServer}
use basic_sim.Schedule.UdpBurst.{UdpBurstInfo}
use basic_sim.Scheduler.UdpBursts.{BurstLine, bursts_to, outgoing_line, incoming_line}

abbrev pub IsIn : {A : Type 0} → A → List A → Type 0
IsIn x [] = ⊥
IsIn x (y ∷ ys) = (x ≡ y) ⊎ IsIn x ys

module _ {D A : Type 0} where
  -- `std::sort` by the id of the burst.
  unfoldable pub put_by_id :
      UdpBurstInfo D × A → List (UdpBurstInfo D × A) → List (UdpBurstInfo D × A)
  put_by_id p [] = p ∷ []
  put_by_id p (q ∷ qs) =
      let rest = put_by_id p qs in
      if ltb_ℤ q.0.udp_burst_id p.0.udp_burst_id then q ∷ rest else p ∷ q ∷ qs

  unfoldable pub sort_by_id : List (UdpBurstInfo D × A) → List (UdpBurstInfo D × A)
  unfolding put_by_id
  sort_by_id [] = []
  sort_by_id (p ∷ ps) = put_by_id p (sort_by_id ps)

module _ {D : Type 0} where
  -- The bursts into each server of this system, with the server.
  unfoldable pub responsible_for_incoming :
      List (UdpBurstInfo D) → List (ℤ × UdpBurstServer) → List (UdpBurstInfo D × UdpBurstServer)
  unfolding bursts_to
  responsible_for_incoming complete_schedule [] = []
  responsible_for_incoming complete_schedule ((endpoint, server) ∷ servers) =
      map (λ info. (info, server)) (bursts_to endpoint complete_schedule)
      ++ responsible_for_incoming complete_schedule servers

module _ {D : Type 0} (simulation_end_time_ns : ℤ)
    (complete_packet_size max_udp_payload_size : ℕ) where
  unfoldable pub write_outgoing : List (UdpBurstInfo D × UdpBurstClient) → List BurstLine
  unfolding outgoing_line sort_by_id
  write_outgoing ps =
      map
        (λ (p : UdpBurstInfo D × UdpBurstClient).
          outgoing_line simulation_end_time_ns complete_packet_size max_udp_payload_size p.0 p.1)
        (sort_by_id ps)

  unfoldable pub incoming_of : List (UdpBurstInfo D × UdpBurstServer) → Result (List BurstLine)
  unfolding incoming_line
  incoming_of [] = ok []
  incoming_of ((info, server) ∷ ps) = do
    line ←
        incoming_line simulation_end_time_ns complete_packet_size max_udp_payload_size info server
    lines ← incoming_of ps
    ok (line ∷ lines)

  unfoldable pub write_incoming : List (UdpBurstInfo D × UdpBurstServer) → Result (List BurstLine)
  unfolding incoming_of sort_by_id
  write_incoming ps = incoming_of (sort_by_id ps)

-- The ids never fall.
abbrev pub IsAscending : {D A : Type 0} → List (UdpBurstInfo D × A) → Type 0
IsAscending [] = Unit
IsAscending (p ∷ ps) =
    All (λ (q : UdpBurstInfo _ × _). ltb_ℤ q.0.udp_burst_id p.0.udp_burst_id ≡ false) ps
    × IsAscending ps

module _ {D A : Type 0} where
  length-put_by_id :
      (p : UdpBurstInfo D × A) (ps : List (UdpBurstInfo D × A))
      → length (put_by_id p ps) ≡ suc (length ps)
  unfolding put_by_id
  length-put_by_id p [] = refl
  length-put_by_id p (q ∷ qs) = ground (arith, length-put_by_id p qs)

  -- A file has a line for each burst.
  pub length-sort_by_id : (ps : List (UdpBurstInfo D × A)) → length (sort_by_id ps) ≡ length ps
  unfolding sort_by_id
  length-sort_by_id [] = refl
  length-sort_by_id (p ∷ ps) = length-put_by_id p (sort_by_id ps) ∙ ap suc (length-sort_by_id ps)

  pub put_by_id-All :
      (P : UdpBurstInfo D × A → Type 0) (p : UdpBurstInfo D × A) (ps : List (UdpBurstInfo D × A))
      → P p
      → All P ps
      → All P (put_by_id p ps)
  unfolding put_by_id
  put_by_id-All P p [] h all = (h, tt)
  put_by_id-All P p (q ∷ qs) h all = elim (Bool-cases (ltb_ℤ q.0.udp_burst_id p.0.udp_burst_id)) [
    | inl less ↦ rw less (all.0, put_by_id-All P p qs h all.1)
    | inr not_less ↦ rw not_less (h, all)
  ]

  All-later :
      (p q : UdpBurstInfo D × A) (ps : List (UdpBurstInfo D × A))
      → ltb_ℤ q.0.udp_burst_id p.0.udp_burst_id ≡ false
      → All (λ (r : UdpBurstInfo D × A). ltb_ℤ r.0.udp_burst_id q.0.udp_burst_id ≡ false) ps
      → All (λ (r : UdpBurstInfo D × A). ltb_ℤ r.0.udp_burst_id p.0.udp_burst_id ≡ false) ps
  All-later p q [] h all = tt
  All-later p q (r ∷ rs) h all = (ground (arith, h, all.0), All-later p q rs h all.1)

  put_by_id-IsAscending :
      (p : UdpBurstInfo D × A) (ps : List (UdpBurstInfo D × A))
      → IsAscending ps
      → IsAscending (put_by_id p ps)
  unfolding put_by_id
  put_by_id-IsAscending p [] a = (tt, tt)
  put_by_id-IsAscending p (q ∷ qs) a = elim (Bool-cases (ltb_ℤ q.0.udp_burst_id p.0.udp_burst_id)) [
    | inl less ↦
        rw less (put_by_id-All _ p qs (ground (arith, less)) a.0, put_by_id-IsAscending p qs a.1)
    | inr not_less ↦ rw not_less ((not_less, All-later p q qs not_less a.0), a)
  ]

  pub sort_by_id-IsAscending : (ps : List (UdpBurstInfo D × A)) → IsAscending (sort_by_id ps)
  unfolding sort_by_id
  sort_by_id-IsAscending [] = tt
  sort_by_id-IsAscending (p ∷ ps) =
      put_by_id-IsAscending p (sort_by_id ps) (sort_by_id-IsAscending ps)

  pub sort_by_id-All :
      (P : UdpBurstInfo D × A → Type 0) (ps : List (UdpBurstInfo D × A))
      → All P ps
      → All P (sort_by_id ps)
  unfolding sort_by_id
  sort_by_id-All P [] all = tt
  sort_by_id-All P (p ∷ ps) all =
      put_by_id-All P p (sort_by_id ps) all.0 (sort_by_id-All P ps all.1)

  put_by_id-IsIn :
      (r p : UdpBurstInfo D × A) (ps : List (UdpBurstInfo D × A))
      → IsIn r (p ∷ ps)
      → IsIn r (put_by_id p ps)
  unfolding put_by_id
  put_by_id-IsIn r p [] i = i
  put_by_id-IsIn r p (q ∷ qs) i = elim (Bool-cases (ltb_ℤ q.0.udp_burst_id p.0.udp_burst_id)) [
    | inr not_less ↦ rw not_less i
    | inl less ↦ rw less (elim i [
      | inl here ↦ inr (put_by_id-IsIn r p qs (inl here))
      | inr later ↦ elim later [
        | inl first ↦ inl first
        | inr rest ↦ inr (put_by_id-IsIn r p qs (inr rest))
      ]
    ])
  ]

  pub sort_by_id-IsIn :
      (r : UdpBurstInfo D × A) (ps : List (UdpBurstInfo D × A)) → IsIn r ps → IsIn r (sort_by_id ps)
  unfolding sort_by_id
  sort_by_id-IsIn r [] i = i
  sort_by_id-IsIn r (p ∷ ps) i =
      put_by_id-IsIn r p (sort_by_id ps)
        (elim i [ inl here ↦ inl here | inr later ↦ inr (sort_by_id-IsIn r ps later) ])
