-- ===== src/TcpFlow/Logs/Changes.antt =====
-- One callback of the detailed logs (model/apps/tcp-flow-client.cc), and what it does to each of them.
use basic_sim.Prelude.{ℕ, ◌≡◌, refl, Option, none, some}
use basic_sim.Prelude.Int.{pos, int_eq}
use basic_sim.Prelude.Order.{Eq}
use basic_sim.Prelude.Text.{bytes_eq}
use basic_sim.Prelude.Results.{ok}
use basic_sim.LogUpdate.{LogUpdateHelper, update}
use basic_sim.LogUpdate.Totality.{IsBefore, update-total}
use basic_sim.TcpFlow.Logs.{
  TcpFlowLogs, Change, change, state_string, cong_state_string, tx_buffer_unack_sequence, rtt, rto,
  cwnd, cwnd_inflated, ssthresh, inflight, tcp_state, cong_state,
}
use basic_sim.TcpFlow.Logs.Traces.{ForEach, each, ForEach-map}

-- The logs have no update later than `now`.
abbrev pub AreBefore : ℕ → TcpFlowLogs → Type 0
AreBefore now l = ForEach (λ V e f pick. IsBefore ⦃e = e⦄ now (f l))

-- A log has one update more, or none.
abbrev pub Follows :
    {V : Type 0} ⦃e : Eq V⦄ → Option V → ℕ → LogUpdateHelper V → LogUpdateHelper V → Type 0
Follows none now h h' = (h ≡ h') × IsBefore now h'
Follows (some v) now h h' = (update h (pos now) v ≡ ok h') × IsBefore now h'

abbrev pub IsStep : ℕ → Change → TcpFlowLogs → TcpFlowLogs → Type 0
IsStep now c l l' = ForEach (λ V e f pick. Follows ⦃e = e⦄ (pick c) now (f l) (f l'))

same-IsStep :
    (now : ℕ) (l : TcpFlowLogs)
    → AreBefore now l
    → ForEach (λ V e f pick. (f l ≡ f l) × IsBefore ⦃e = e⦄ now (f l))
same-IsStep now l b = ForEach-map _ _ (λ V e f pick h. (refl, h)) b

pub change-IsStep :
    (now : ℕ) (c : Change) (l : TcpFlowLogs)
    → AreBefore now l
    → (l' : TcpFlowLogs) × (change now c l ≡ ok l') × IsStep now c l l'
unfolding change
change-IsStep now (tx_buffer_unack_sequence v) l b =
    let (h, e, b') = update-total now (v) l.progress_byte b.progress_byte in
    let s = same-IsStep now l b in
    (
      record l { progress_byte = h },
      rw e refl,
      each (e, b') s.rtt_ns s.rto_ns s.cwnd_byte s.cwnd_inflated_byte s.ssthresh_byte
          s.inflight_byte s.state s.cong_state,
    )
change-IsStep now (rtt v) l b =
    let (h, e, b') = update-total now (v) l.rtt_ns b.rtt_ns in
    let s = same-IsStep now l b in
    (
      record l { rtt_ns = h },
      rw e refl,
      each s.progress_byte (e, b') s.rto_ns s.cwnd_byte s.cwnd_inflated_byte s.ssthresh_byte
          s.inflight_byte s.state s.cong_state,
    )
change-IsStep now (rto v) l b =
    let (h, e, b') = update-total now (v) l.rto_ns b.rto_ns in
    let s = same-IsStep now l b in
    (
      record l { rto_ns = h },
      rw e refl,
      each s.progress_byte s.rtt_ns (e, b') s.cwnd_byte s.cwnd_inflated_byte s.ssthresh_byte
          s.inflight_byte s.state s.cong_state,
    )
change-IsStep now (cwnd v) l b =
    let (h, e, b') = update-total now (pos v) l.cwnd_byte b.cwnd_byte in
    let s = same-IsStep now l b in
    (
      record l { cwnd_byte = h },
      rw e refl,
      each s.progress_byte s.rtt_ns s.rto_ns (e, b') s.cwnd_inflated_byte s.ssthresh_byte
          s.inflight_byte s.state s.cong_state,
    )
change-IsStep now (cwnd_inflated v) l b =
    let (h, e, b') = update-total now (pos v) l.cwnd_inflated_byte b.cwnd_inflated_byte in
    let s = same-IsStep now l b in
    (
      record l { cwnd_inflated_byte = h },
      rw e refl,
      each s.progress_byte s.rtt_ns s.rto_ns s.cwnd_byte (e, b') s.ssthresh_byte s.inflight_byte
          s.state s.cong_state,
    )
change-IsStep now (ssthresh v) l b =
    let (h, e, b') = update-total now (pos v) l.ssthresh_byte b.ssthresh_byte in
    let s = same-IsStep now l b in
    (
      record l { ssthresh_byte = h },
      rw e refl,
      each s.progress_byte s.rtt_ns s.rto_ns s.cwnd_byte s.cwnd_inflated_byte (e, b')
          s.inflight_byte s.state s.cong_state,
    )
change-IsStep now (inflight v) l b =
    let (h, e, b') = update-total now (pos v) l.inflight_byte b.inflight_byte in
    let s = same-IsStep now l b in
    (
      record l { inflight_byte = h },
      rw e refl,
      each s.progress_byte s.rtt_ns s.rto_ns s.cwnd_byte s.cwnd_inflated_byte s.ssthresh_byte
          (e, b') s.state s.cong_state,
    )
change-IsStep now (tcp_state v) l b =
    let (h, e, b') = update-total now (state_string v) l.state b.state in
    let s = same-IsStep now l b in
    (
      record l { state = h },
      rw e refl,
      each s.progress_byte s.rtt_ns s.rto_ns s.cwnd_byte s.cwnd_inflated_byte s.ssthresh_byte
          s.inflight_byte (e, b') s.cong_state,
    )
change-IsStep now (cong_state v) l b =
    let (h, e, b') = update-total now (cong_state_string v) l.cong_state b.cong_state in
    let s = same-IsStep now l b in
    (
      record l { cong_state = h },
      rw e refl,
      each s.progress_byte s.rtt_ns s.rto_ns s.cwnd_byte s.cwnd_inflated_byte s.ssthresh_byte
          s.inflight_byte s.state (e, b'),
    )
