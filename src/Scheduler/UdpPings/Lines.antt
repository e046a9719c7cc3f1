-- ===== src/Scheduler/UdpPings/Lines.antt =====
-- About the lines of udp_pings.csv (helper/apps/udp-ping-scheduler.cc).
use basic_sim.Prelude.{
  ℕ, zero, suc, ◌+◌, ◌<◌, ◌≤◌, ◌≡◌, refl, true, false, not, List, [], ◌∷◌, arith, length,
  if◌then◌else◌, Bool-cases, inl, inr,
}
use basic_sim.Prelude.Int.{ℤ, pos, negsuc, eqb_ℤ, ◌+ℤ◌, ◌-ℤ◌}
use basic_sim.Prelude.Results.{ok}
use basic_sim.ExpUtil.Collections.{at_index}
use basic_sim.UdpPing.{UdpPingClient, none_yet}
use basic_sim.UdpPing.Replies.{ArePaired, IsConsistent}
use basic_sim.Scheduler.UdpPings.{PingLine, ping_line, ping_lines}

at_index-ok : (xs : List ℤ) (i : ℕ) → i < length xs → (x : ℤ) × (at_index xs i ≡ ok x)
at_index-ok [] i h = absurd (omega arith)
at_index-ok (x ∷ xs) zero h = (x, refl)
at_index-ok (x ∷ xs) (suc i) h = at_index-ok xs i (omega arith)

ArePaired-at :
    (xs ys : List ℤ) (i : ℕ) (a b : ℤ)
    → ArePaired xs ys
    → at_index xs i ≡ ok a
    → at_index ys i ≡ ok b
    → eqb_ℤ a none_yet ≡ eqb_ℤ b none_yet
ArePaired-at [] [] i a b p h k = cc
ArePaired-at [] (y ∷ ys) i a b p h k = absurd p
ArePaired-at (x ∷ xs) [] i a b p h k = absurd p
ArePaired-at (x ∷ xs) (y ∷ ys) zero a b p h k = ground (arith, p.0, h, k)
ArePaired-at (x ∷ xs) (y ∷ ys) (suc i) a b p h k = ArePaired-at xs ys i a b p.1 h k

-- The line of request `j`: its times are those that the client keeps at `j`. If the reply arrived, the
-- latencies and the round trip are the times between these; otherwise all three are -1.
pub record IsPingLine (id : ℤ) (c : UdpPingClient) (j : ℕ) (l : PingLine) : Type 0 where
  pub named : l.udp_ping_id ≡ id
  pub numbered : l.seq ≡ j
  pub sent_at : at_index c.send_request_timestamps j ≡ ok l.send_request_timestamp
  pub replied_at : at_index c.reply_timestamps j ≡ ok l.reply_timestamp
  pub received_at : at_index c.receive_reply_timestamps j ≡ ok l.receive_reply_timestamp
  pub arrived : eqb_ℤ l.reply_timestamp (negsuc 0) ≡ not l.reply_arrived
  pub received : eqb_ℤ l.receive_reply_timestamp (negsuc 0) ≡ not l.reply_arrived
  pub there :
      l.reply_arrived ≡ true → l.latency_to_there_ns ≡ l.reply_timestamp -ℤ l.send_request_timestamp
  pub back :
      l.reply_arrived ≡ true
      → l.latency_from_there_ns ≡ l.receive_reply_timestamp -ℤ l.reply_timestamp
  pub round_trip :
      l.reply_arrived ≡ true → l.rtt_ns ≡ l.receive_reply_timestamp -ℤ l.send_request_timestamp
  pub lost :
      l.reply_arrived ≡ false
      → (l.latency_to_there_ns ≡ negsuc 0)
        × (l.latency_from_there_ns ≡ negsuc 0)
        × (l.rtt_ns ≡ negsuc 0)

-- The lines of the requests from `j` on.
abbrev pub ArePingLines : ℤ → UdpPingClient → ℕ → List PingLine → Type 0
ArePingLines id c j [] = Unit
ArePingLines id c j (l ∷ ls) = IsPingLine id c j l × ArePingLines id c (suc j) ls

round_trip-parts :
    (sent reply received : ℤ) → (reply -ℤ sent) +ℤ (received -ℤ reply) ≡ received -ℤ sent
round_trip-parts sent reply received = ground arith

ping_line-IsPingLine :
    (id : ℤ) (c : UdpPingClient) (j : ℕ) (sent reply received : ℤ)
    → at_index c.send_request_timestamps j ≡ ok sent
    → at_index c.reply_timestamps j ≡ ok reply
    → at_index c.receive_reply_timestamps j ≡ ok received
    → eqb_ℤ reply none_yet ≡ eqb_ℤ received none_yet
    → IsPingLine id c j (ping_line id j sent reply received)
unfolding ping_line
ping_line-IsPingLine id c j sent reply received e1 e2 e3 paired =
    elim (Bool-cases (eqb_ℤ reply none_yet)) [
      | inl none_here ↦ record {
        named = refl;
        numbered = refl;
        sent_at = e1;
        replied_at = e2;
        received_at = e3;
        arrived = ground (arith, none_here);
        received = ground (arith, paired, none_here);
        there = λ h. ground (arith, none_here);
        back = λ h. ground (arith, none_here);
        round_trip = λ h. ground (arith, none_here);
        lost =
            λ h. (ground (arith, none_here), ground (arith, none_here), ground (arith, none_here));
      }
      | inr here ↦ record {
        named = refl;
        numbered = refl;
        sent_at = e1;
        replied_at = e2;
        received_at = e3;
        arrived = ground (arith, here);
        received = ground (arith, paired, here);
        there = λ h. rw here refl;
        back = λ h. rw here refl;
        round_trip = λ h. rw here (round_trip-parts sent reply received);
        lost = λ h. ground (arith, here);
      }
    ]

pub ping_lines-eq :
    (id : ℤ) (c : UdpPingClient) (j count : ℕ)
    → IsConsistent c
    → j + count ≤ length c.send_request_timestamps
    → (lines : List PingLine) × (ping_lines id c j count ≡ ok lines)
      × (length lines ≡ count)
      × ArePingLines id c j lines
unfolding ping_lines
ping_lines-eq id c j zero i h = ([], refl, refl, tt)
ping_lines-eq id c j (suc count) i h =
    let (sent, e1) = at_index-ok c.send_request_timestamps j (omega arith) in
    let (reply, e2) = at_index-ok c.reply_timestamps j (omega (arith, i.reply_places)) in
    let (received, e3) =
      at_index-ok c.receive_reply_timestamps j (omega (arith, i.receive_places)) in
    let (lines, es, len, all) = ping_lines-eq id c (suc j) count i (omega arith) in
    let paired =
      ArePaired-at c.reply_timestamps c.receive_reply_timestamps j reply received i.paired e2 e3 in
    (
      ping_line id j sent reply received ∷ lines,
      ground (arith, e1, e2, e3, es),
      omega (arith, len),
      (ping_line-IsPingLine id c j sent reply received e1 e2 e3 paired, all),
    )

-- A value of the lines of the replies that arrived, and a sum.
abbrev pub of_arrived : (PingLine → ℤ) → List PingLine → List ℤ
of_arrived f [] = []
of_arrived f (l ∷ ls) = let rest = of_arrived f ls in if l.reply_arrived then f l ∷ rest else rest

abbrev pub rtts_of : List PingLine → List ℤ
rtts_of = of_arrived (λ l. l.rtt_ns)

abbrev pub sum_ℤ : List ℤ → ℤ
sum_ℤ [] = pos 0
sum_ℤ (r ∷ rs) = r +ℤ sum_ℤ rs
