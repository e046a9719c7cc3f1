-- ===== src/TcpFlow/Logs.antt =====
-- The detailed logs of model/apps/tcp-flow-client.cc: nine logs to files, which the trace sources of
-- the socket keep. The time of a callback is an argument, and so is what `GetAckedBytes` tells then.
pub mod Traces
pub mod Changes
pub mod Runs
pub mod Histories
use basic_sim.Prelude.{ℕ, Bool, true, false, List, [], ◌∷◌, if◌then◌else◌}
use basic_sim.Prelude.Int.{ℤ, pos, negsuc, int_eq}
use basic_sim.Prelude.Text.{Bytes, codes, bytes_eq}
use basic_sim.Prelude.Results.{Result, ok, ◌>>=◌}
use basic_sim.LogUpdate.{LogUpdateHelper, create, update, finalize}
use basic_sim.TcpFlow.{TcpFlowClient, is_ended}

pub record TcpFlowLogs : Type 0 where
  pub progress_byte : LogUpdateHelper ℤ
  pub rtt_ns : LogUpdateHelper ℤ
  pub rto_ns : LogUpdateHelper ℤ
  pub cwnd_byte : LogUpdateHelper ℤ
  pub cwnd_inflated_byte : LogUpdateHelper ℤ
  pub ssthresh_byte : LogUpdateHelper ℤ
  pub inflight_byte : LogUpdateHelper ℤ
  pub state : LogUpdateHelper Bytes
  pub cong_state : LogUpdateHelper Bytes

-- ns-3's `TcpSocket::TcpStates_t` and `TcpSocketState::TcpCongState_t`.
pub data TcpState : Type 0 where
  closed listen syn_sent syn_rcvd established close_wait last_ack fin_wait_1 fin_wait_2 : TcpState
  closing time_wait last_state : TcpState

pub data CongState : Type 0 where
  ca_open ca_disorder ca_cwr ca_recovery ca_loss ca_last_state : CongState

unfoldable pub state_string : TcpState → Bytes
state_string closed = codes "CLOSED"
state_string listen = codes "LISTEN"
state_string syn_sent = codes "SYN_SENT"
state_string syn_rcvd = codes "SYN_RCVD"
state_string established = codes "ESTABLISHED"
state_string close_wait = codes "CLOSE_WAIT"
state_string last_ack = codes "LAST_ACK"
state_string fin_wait_1 = codes "FIN_WAIT_1"
state_string fin_wait_2 = codes "FIN_WAIT_2"
state_string closing = codes "CLOSING"
state_string time_wait = codes "TIME_WAIT"
state_string last_state = codes "LAST_STATE"

unfoldable pub cong_state_string : CongState → Bytes
cong_state_string ca_open = codes "CA_OPEN"
cong_state_string ca_disorder = codes "CA_DISORDER"
cong_state_string ca_cwr = codes "CA_CWR"
cong_state_string ca_recovery = codes "CA_RECOVERY"
cong_state_string ca_loss = codes "CA_LOSS"
cong_state_string ca_last_state = codes "CA_LAST_STATE"

-- A log of numbers and one of texts, to a file. -1, assigned to a string, is the one byte 255.
unfoldable pub number_log : Result (LogUpdateHelper ℤ)
number_log = create (negsuc 0) false true

unfoldable pub text_log : Result (LogUpdateHelper Bytes)
text_log = create (255 ∷ []) false true

-- The logs of a new client, whose helpers are constructed without arguments: they keep in memory.
unfoldable pub default_logs : Result TcpFlowLogs
default_logs = do
  number ← create {V = ℤ} (negsuc 0) true false
  text ← create {V = Bytes} (255 ∷ []) true false
  ok (record {
    progress_byte = number;
    rtt_ns = number;
    rto_ns = number;
    cwnd_byte = number;
    cwnd_inflated_byte = number;
    ssthresh_byte = number;
    inflight_byte = number;
    state = text;
    cong_state = text;
  })

-- The callbacks of the trace sources, with the new value.
pub data Change : Type 0 where
  tx_buffer_unack_sequence : ℤ → Change
  rtt rto : ℤ → Change
  cwnd cwnd_inflated ssthresh inflight : ℕ → Change
  tcp_state : TcpState → Change
  cong_state : CongState → Change

unfoldable pub change : ℕ → Change → TcpFlowLogs → Result TcpFlowLogs
unfolding state_string cong_state_string
change now (tx_buffer_unack_sequence acked_bytes) l = do
  h ← update l.progress_byte (pos now) acked_bytes
  ok (record l { progress_byte = h })
change now (rtt new_rtt) l = do h ← update l.rtt_ns (pos now) new_rtt; ok (record l { rtt_ns = h })
change now (rto new_rto) l = do h ← update l.rto_ns (pos now) new_rto; ok (record l { rto_ns = h })
change now (cwnd new_cwnd) l = do
  h ← update l.cwnd_byte (pos now) (pos new_cwnd)
  ok (record l { cwnd_byte = h })
change now (cwnd_inflated new_cwnd_inflated) l = do
  h ← update l.cwnd_inflated_byte (pos now) (pos new_cwnd_inflated)
  ok (record l { cwnd_inflated_byte = h })
change now (ssthresh new_ssthresh) l = do
  h ← update l.ssthresh_byte (pos now) (pos new_ssthresh)
  ok (record l { ssthresh_byte = h })
change now (inflight new_inflight) l = do
  h ← update l.inflight_byte (pos now) (pos new_inflight)
  ok (record l { inflight_byte = h })
change now (tcp_state new_state) l = do
  h ← update l.state (pos now) (state_string new_state)
  ok (record l { state = h })
change now (cong_state new_cong_state) l = do
  h ← update l.cong_state (pos now) (cong_state_string new_cong_state)
  ok (record l { cong_state = h })

-- The logs of a new socket: three of them begin at once.
unfoldable pub start_logs : ℕ → ℤ → Result TcpFlowLogs
unfolding number_log text_log change
start_logs now acked_bytes = do
  progress_byte ← number_log
  progress_byte' ← update progress_byte (pos now) acked_bytes
  rtt_ns ← number_log
  rto_ns ← number_log
  cwnd_byte ← number_log
  cwnd_inflated_byte ← number_log
  ssthresh_byte ← number_log
  inflight_byte ← number_log
  state ← text_log
  cong_state' ← text_log
  l ← change now (tcp_state closed) (record {
    progress_byte = progress_byte';
    rtt_ns = rtt_ns;
    rto_ns = rto_ns;
    cwnd_byte = cwnd_byte;
    cwnd_inflated_byte = cwnd_inflated_byte;
    ssthresh_byte = ssthresh_byte;
    inflight_byte = inflight_byte;
    state = state;
    cong_state = cong_state';
  })
  change now (cong_state ca_open) l

-- When the traced values of a client end: with its connection, or now.
unfoldable pub log_end : {S : Type 0} → ℕ → TcpFlowClient S → ℤ
log_end now c = if is_ended c then c.completion_time_ns else pos now

-- The logs end, those of the states now, the others at the given time.
unfoldable pub finalize_logs : ℤ → ℕ → TcpFlowLogs → Result TcpFlowLogs
finalize_logs timestamp now l = do
  progress_byte ← finalize l.progress_byte timestamp
  rtt_ns ← finalize l.rtt_ns timestamp
  rto_ns ← finalize l.rto_ns timestamp
  cwnd_byte ← finalize l.cwnd_byte timestamp
  cwnd_inflated_byte ← finalize l.cwnd_inflated_byte timestamp
  ssthresh_byte ← finalize l.ssthresh_byte timestamp
  inflight_byte ← finalize l.inflight_byte timestamp
  state ← finalize l.state (pos now)
  cong_state' ← finalize l.cong_state (pos now)
  ok (record {
    progress_byte = progress_byte;
    rtt_ns = rtt_ns;
    rto_ns = rto_ns;
    cwnd_byte = cwnd_byte;
    cwnd_inflated_byte = cwnd_inflated_byte;
    ssthresh_byte = ssthresh_byte;
    inflight_byte = inflight_byte;
    state = state;
    cong_state = cong_state';
  })

-- `FinalizeDetailedLogs`.
unfoldable pub finalize_detailed_logs :
    {S : Type 0} → Bool → ℕ → TcpFlowClient S → TcpFlowLogs → Result TcpFlowLogs
unfolding finalize_logs log_end
finalize_detailed_logs enable_detailed_logging now c l =
    if enable_detailed_logging then finalize_logs (log_end now c) now l else ok l
