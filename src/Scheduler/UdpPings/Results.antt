-- ===== src/Scheduler/UdpPings/Results.antt =====
-- About the results of the pings (helper/apps/udp-ping-scheduler.cc).
use basic_sim.Prelude.{
  ◌^◌, ◌<◌, ◌≡◌, refl, ◌∙◌, true, false, List, [], ◌∷◌, arith, length, All, is_nil, if◌then◌else◌,
}
use basic_sim.Prelude.Int.{ℤ, pos, ltb_ℤ}
use basic_sim.Prelude.Results.{ok}
use basic_sim.UdpPing.{UdpPingClient, none_yet}
use basic_sim.UdpPing.Replies.{IsConsistent}
use basic_sim.Scheduler.UdpPings.{
  PingLine, Statistics, min_rtt, max_rtt, Summary, summary, ping_results,
}
use basic_sim.Scheduler.UdpPings.Lines.{ArePingLines, ping_lines-eq, of_arrived, rtts_of, sum_ℤ}
use basic_sim.Scheduler.UdpPings.Sums.{
  add_lines-rtts, add_lines-total, add_lines-to_there, add_lines-from_there, min_rtt-le, max_rtt-le,
  zero-add,
}

-- What the summary of a client says of its lines.
pub record IsSummary (lines : List PingLine) (s : Summary) : Type 0 where
  pub arrived : s.statistics.total ≡ length (rtts_of lines)
  pub sum_to_there :
      s.statistics.sum_latency_to_there_ns ≡ sum_ℤ (of_arrived (λ l. l.latency_to_there_ns) lines)
  pub sum_from_there :
      s.statistics.sum_latency_from_there_ns
      ≡ sum_ℤ (of_arrived (λ l. l.latency_from_there_ns) lines)
  pub least : All (λ r. ltb_ℤ r s.min_rtt_ns ≡ false) (rtts_of lines)
  pub greatest : All (λ r. ltb_ℤ s.max_rtt_ns r ≡ false) (rtts_of lines)
  pub all_lost : s.statistics.total ≡ 0 → (s.min_rtt_ns ≡ none_yet) × (s.max_rtt_ns ≡ none_yet)

least-of :
    (rs : List ℤ)
    → All
        (λ r. ltb_ℤ r (if is_nil rs then none_yet else min_rtt (pos 10000000000000) rs) ≡ false)
        rs
least-of [] = tt
least-of (r ∷ rs) = (min_rtt-le (pos 10000000000000) (r ∷ rs)).1

greatest-of :
    (rs : List ℤ)
    → All (λ r. ltb_ℤ (if is_nil rs then none_yet else max_rtt none_yet rs) r ≡ false) rs
greatest-of [] = tt
greatest-of (r ∷ rs) = (max_rtt-le none_yet (r ∷ rs)).1

abbrev none_counted : Statistics
none_counted = record {
  total = 0;
  sum_latency_to_there_ns = pos 0;
  sum_latency_from_there_ns = pos 0;
  rtts_ns = [];
}

nil_of_length : (rs : List ℤ) → length rs ≡ 0 → is_nil rs ≡ true
nil_of_length [] h = refl
nil_of_length (r ∷ rs) h = absurd (omega (arith, h))

summary-IsSummary : (lines : List PingLine) → IsSummary lines (summary lines)
unfolding summary
summary-IsSummary lines =
    let rtts = add_lines-rtts lines none_counted in
    let total = add_lines-total lines none_counted in
    record {
      arrived = omega (arith, total);
      sum_to_there = add_lines-to_there lines none_counted ∙ zero-add _;
      sum_from_there = add_lines-from_there lines none_counted ∙ zero-add _;
      least = rw rtts (least-of (rtts_of lines));
      greatest = rw rtts (greatest-of (rtts_of lines));
      all_lost = λ h.
          let empty = nil_of_length (rtts_of lines) (omega (arith, total, h)) in
          rw (rtts, empty) (refl, refl);
    }

pub ping_results-IsSummary :
    (id : ℤ) (c : UdpPingClient)
    → IsConsistent c
    → length c.send_request_timestamps < 2 ^ 32
    → (lines : List PingLine) × (s : Summary) × (ping_results id c ≡ ok (lines, s))
      × (length lines ≡ length c.send_request_timestamps)
      × ArePingLines id c 0 lines
      × IsSummary lines s
unfolding ping_results
ping_results-IsSummary id c i small =
    let count : c.sent ≡ length c.send_request_timestamps = omega (arith, i.counted, small) in
    let (lines, e, len, all) = ping_lines-eq id c 0 c.sent i (omega (arith, count)) in
    (lines, summary lines, rw e refl, omega (arith, len, count), all, summary-IsSummary lines)
