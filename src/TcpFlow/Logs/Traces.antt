-- ===== src/TcpFlow/Logs/Traces.antt =====
-- The traces of the detailed logs (model/apps/tcp-flow-client.cc): what each log has of the callbacks.
use basic_sim.Prelude.{ℕ, List, [], ◌∷◌, Option, none, some}
use basic_sim.Prelude.Int.{ℤ, pos, int_eq}
use basic_sim.Prelude.Order.{Eq}
use basic_sim.Prelude.Text.{Bytes, bytes_eq}
use basic_sim.LogUpdate.{LogUpdateHelper}
use basic_sim.TcpFlow.Logs.{
  TcpFlowLogs, Change, state_string, cong_state_string, tx_buffer_unack_sequence, rtt, rto, cwnd,
  cwnd_inflated, ssthresh, inflight, tcp_state, cong_state,
}

-- What a callback tells each of the logs.
abbrev pub acked_of : Change → Option ℤ
acked_of (tx_buffer_unack_sequence v) = some (v)
acked_of c = none

abbrev pub rtt_of : Change → Option ℤ
rtt_of (rtt v) = some (v)
rtt_of c = none

abbrev pub rto_of : Change → Option ℤ
rto_of (rto v) = some (v)
rto_of c = none

abbrev pub cwnd_of : Change → Option ℤ
cwnd_of (cwnd v) = some (pos v)
cwnd_of c = none

abbrev pub cwnd_inflated_of : Change → Option ℤ
cwnd_inflated_of (cwnd_inflated v) = some (pos v)
cwnd_inflated_of c = none

abbrev pub ssthresh_of : Change → Option ℤ
ssthresh_of (ssthresh v) = some (pos v)
ssthresh_of c = none

abbrev pub inflight_of : Change → Option ℤ
inflight_of (inflight v) = some (pos v)
inflight_of c = none

abbrev pub state_of : Change → Option Bytes
state_of (tcp_state v) = some (state_string v)
state_of c = none

abbrev pub cong_state_of : Change → Option Bytes
cong_state_of (cong_state v) = some (cong_state_string v)
cong_state_of c = none

abbrev pub add_picked : {V : Type 0} → ℕ → Option V → List (ℕ × V) → List (ℕ × V)
add_picked t none us = us
add_picked t (some v) us = (t, v) ∷ us

-- The updates of one log.
unfoldable pub picked : {V : Type 0} → (Change → Option V) → List (ℕ × Change) → List (ℕ × V)
picked pick [] = []
picked pick ((t, c) ∷ es) = add_picked t (pick c) (picked pick es)

-- A statement of each log, with its trace.
pub record ForEach
    (P : (V : Type 0) → Eq V → (TcpFlowLogs → LogUpdateHelper V) → (Change → Option V) → Type 0)
    : Type 0 where
  pub progress_byte : P ℤ int_eq (λ l. l.progress_byte) acked_of
  pub rtt_ns : P ℤ int_eq (λ l. l.rtt_ns) rtt_of
  pub rto_ns : P ℤ int_eq (λ l. l.rto_ns) rto_of
  pub cwnd_byte : P ℤ int_eq (λ l. l.cwnd_byte) cwnd_of
  pub cwnd_inflated_byte : P ℤ int_eq (λ l. l.cwnd_inflated_byte) cwnd_inflated_of
  pub ssthresh_byte : P ℤ int_eq (λ l. l.ssthresh_byte) ssthresh_of
  pub inflight_byte : P ℤ int_eq (λ l. l.inflight_byte) inflight_of
  pub state : P Bytes bytes_eq (λ l. l.state) state_of
  pub cong_state : P Bytes bytes_eq (λ l. l.cong_state) cong_state_of

pub each :
    {P : (V : Type 0) → Eq V → (TcpFlowLogs → LogUpdateHelper V) → (Change → Option V) → Type 0}
    → P ℤ int_eq (λ l. l.progress_byte) acked_of
    → P ℤ int_eq (λ l. l.rtt_ns) rtt_of
    → P ℤ int_eq (λ l. l.rto_ns) rto_of
    → P ℤ int_eq (λ l. l.cwnd_byte) cwnd_of
    → P ℤ int_eq (λ l. l.cwnd_inflated_byte) cwnd_inflated_of
    → P ℤ int_eq (λ l. l.ssthresh_byte) ssthresh_of
    → P ℤ int_eq (λ l. l.inflight_byte) inflight_of
    → P Bytes bytes_eq (λ l. l.state) state_of
    → P Bytes bytes_eq (λ l. l.cong_state) cong_state_of
    → ForEach P
each a b c d e f g h i = record {
  progress_byte = a;
  rtt_ns = b;
  rto_ns = c;
  cwnd_byte = d;
  cwnd_inflated_byte = e;
  ssthresh_byte = f;
  inflight_byte = g;
  state = h;
  cong_state = i;
}

pub ForEach-map :
    (P Q : (V : Type 0) → Eq V → (TcpFlowLogs → LogUpdateHelper V) → (Change → Option V) → Type 0)
    → ((V : Type 0) (e : Eq V) (f : TcpFlowLogs → LogUpdateHelper V) (pick : Change → Option V)
        → P V e f pick
        → Q V e f pick)
    → ForEach P
    → ForEach Q
ForEach-map P Q g x = record {
  progress_byte = g _ _ _ _ x.progress_byte;
  rtt_ns = g _ _ _ _ x.rtt_ns;
  rto_ns = g _ _ _ _ x.rto_ns;
  cwnd_byte = g _ _ _ _ x.cwnd_byte;
  cwnd_inflated_byte = g _ _ _ _ x.cwnd_inflated_byte;
  ssthresh_byte = g _ _ _ _ x.ssthresh_byte;
  inflight_byte = g _ _ _ _ x.inflight_byte;
  state = g _ _ _ _ x.state;
  cong_state = g _ _ _ _ x.cong_state;
}

pub ForEach-zip :
    (P Q R : (V : Type 0) → Eq V → (TcpFlowLogs → LogUpdateHelper V) → (Change → Option V) → Type 0)
    → ((V : Type 0) (e : Eq V) (f : TcpFlowLogs → LogUpdateHelper V) (pick : Change → Option V)
        → P V e f pick
        → Q V e f pick
        → R V e f pick)
    → ForEach P
    → ForEach Q
    → ForEach R
ForEach-zip P Q R g x y = record {
  progress_byte = g _ _ _ _ x.progress_byte y.progress_byte;
  rtt_ns = g _ _ _ _ x.rtt_ns y.rtt_ns;
  rto_ns = g _ _ _ _ x.rto_ns y.rto_ns;
  cwnd_byte = g _ _ _ _ x.cwnd_byte y.cwnd_byte;
  cwnd_inflated_byte = g _ _ _ _ x.cwnd_inflated_byte y.cwnd_inflated_byte;
  ssthresh_byte = g _ _ _ _ x.ssthresh_byte y.ssthresh_byte;
  inflight_byte = g _ _ _ _ x.inflight_byte y.inflight_byte;
  state = g _ _ _ _ x.state y.state;
  cong_state = g _ _ _ _ x.cong_state y.cong_state;
}
