-- ===== src/Scheduler/UdpBursts/Lines.antt =====
-- About the lines of udp_bursts_incoming.csv (helper/apps/udp-burst-scheduler.cc).
use basic_sim.Prelude.{
  ℕ, ◌*◌, ◌%◌, ◌^◌, ◌≡◌, refl, sym, ap, suc, true, false, List, [], ◌∷◌, length, arith, All, inl,
  inr,
}
use mathlib.Core.Path.{subst}
use basic_sim.Prelude.Int.{ℤ, ltb_ℤ, ◌+ℤ◌, ◌-ℤ◌}
use basic_sim.Prelude.Results.{ok}
use basic_sim.UdpBurst.{UdpBurstServer, get_received_counter_of}
use basic_sim.Schedule.UdpBurst.{UdpBurstInfo}
use basic_sim.Scheduler.UdpBursts.{BurstLine, burst_line, incoming_line}
use basic_sim.Scheduler.UdpBursts.Files.{IsIn, incoming_of}

-- The server of a burst has a counter for it.
abbrev pub HasCounter : {D : Type 0} → UdpBurstInfo D × UdpBurstServer → Type 0
HasCounter (info, server) = (n : ℕ) × (get_received_counter_of info.udp_burst_id server ≡ ok n)

module _ {D : Type 0} (end : ℤ) (size payload : ℕ) where
  -- The line of a burst of which `n` packets came in: its entry in the schedule, the part of its
  -- duration before the end of the simulation, the packets and their bytes, as uint64s.
  pub record IsBurstLine (info : UdpBurstInfo D) (n : ℕ) (l : BurstLine) : Type 0 where
    pub named : l.udp_burst_id ≡ info.udp_burst_id
    pub from : l.from_node_id ≡ info.from_node_id
    pub to : l.to_node_id ≡ info.to_node_id
    pub start : l.start_time_ns ≡ info.start_time_ns
    pub duration : l.duration_ns ≡ info.duration_ns
    pub whole :
        ltb_ℤ (info.start_time_ns +ℤ info.duration_ns) end ≡ true
        → l.effective_duration_ns ≡ info.duration_ns
    pub cut :
        ltb_ℤ (info.start_time_ns +ℤ info.duration_ns) end ≡ false
        → l.effective_duration_ns ≡ end -ℤ info.start_time_ns
    pub counted : l.packets ≡ n
    pub with_headers : l.bytes_incl_headers ≡ n * size % 2 ^ 64
    pub without_headers : l.bytes_payload ≡ n * payload % 2 ^ 64
    pub told : l.metadata ≡ info.metadata

  burst_line-IsBurstLine :
      (info : UdpBurstInfo D) (n : ℕ) → IsBurstLine info n (burst_line end size payload info n)
  unfolding burst_line
  burst_line-IsBurstLine info n = record {
    named = refl;
    from = refl;
    to = refl;
    start = refl;
    duration = refl;
    whole = λ h. rw h refl;
    cut = λ h. rw h refl;
    counted = refl;
    with_headers = refl;
    without_headers = refl;
    told = refl;
  }

  -- A burst, its server and its line.
  abbrev pub IsMatch : UdpBurstInfo D × UdpBurstServer → BurstLine → Type 0
  IsMatch (info, server) l =
      (n : ℕ) × (get_received_counter_of info.udp_burst_id server ≡ ok n) × IsBurstLine info n l

  abbrev pub AreMatches : List (UdpBurstInfo D × UdpBurstServer) → List BurstLine → Type 0
  AreMatches [] [] = Unit
  AreMatches [] (l ∷ ls) = ⊥
  AreMatches (p ∷ ps) [] = ⊥
  AreMatches (p ∷ ps) (l ∷ ls) = IsMatch p l × AreMatches ps ls

  pub incoming_of-AreMatches :
      (ps : List (UdpBurstInfo D × UdpBurstServer))
      → All HasCounter ps
      → (lines : List BurstLine) × (incoming_of end size payload ps ≡ ok lines)
        × AreMatches ps lines
  unfolding incoming_of incoming_line
  incoming_of-AreMatches [] all = ([], refl, tt)
  incoming_of-AreMatches ((info, server) ∷ ps) ((n, e), all) =
      let (lines, es, matches) = incoming_of-AreMatches ps all in
      (
        burst_line end size payload info n ∷ lines,
        ground (arith, e, es),
        ((n, e, burst_line-IsBurstLine info n), matches),
      )

  pub length-AreMatches :
      (ps : List (UdpBurstInfo D × UdpBurstServer)) (ls : List BurstLine)
      → AreMatches ps ls
      → length ls ≡ length ps
  length-AreMatches [] [] m = refl
  length-AreMatches [] (l ∷ ls) m = absurd m
  length-AreMatches (p ∷ ps) [] m = absurd m
  length-AreMatches (p ∷ ps) (l ∷ ls) m = ap suc (length-AreMatches ps ls m.1)

  -- What holds of the bursts holds of the lines, and the other way round.
  pub all_lines :
      {P : UdpBurstInfo D × UdpBurstServer → Type 0} {Q : BurstLine → Type 0}
      → ((p : UdpBurstInfo D × UdpBurstServer) (l : BurstLine) → P p → IsMatch p l → Q l)
      → (ps : List (UdpBurstInfo D × UdpBurstServer)) (ls : List BurstLine) → All P ps
      → AreMatches ps ls
      → All Q ls
  all_lines f [] [] all m = tt
  all_lines f [] (l ∷ ls) all m = absurd m
  all_lines f (p ∷ ps) [] all m = absurd m
  all_lines f (p ∷ ps) (l ∷ ls) all m = (f p l all.0 m.0, all_lines f ps ls all.1 m.1)

  pub line_of :
      (p : UdpBurstInfo D × UdpBurstServer) (ps : List (UdpBurstInfo D × UdpBurstServer))
      (ls : List BurstLine)
      → IsIn p ps
      → AreMatches ps ls
      → (l : BurstLine) × IsIn l ls × IsMatch p l
  line_of p [] ls i m = absurd i
  line_of p (q ∷ qs) [] i m = absurd m
  line_of p (q ∷ qs) (l ∷ ls) i m = elim i [
    | inl here ↦ (l, inl refl, subst (λ r. IsMatch r l) (sym here) m.0)
    | inr later ↦ let (found, j, k) = line_of p qs ls later m.1 in (found, inr j, k)
  ]
