-- ===== src/TcpFlow/Tests.antt =====
-- A flow of 250 bytes over a socket with a buffer of 100 bytes.
use basic_sim.Prelude.{
  ℕ, List, [], ◌∷◌, ◌+◌, ◌≡◌, refl, true, false, ◌&&◌, some, arith, ◌==◌, leb, if◌then◌else◌,
}
use basic_sim.Prelude.Int.{pos, negsuc, ltb_ℤ}
use basic_sim.Prelude.Results.{ok}
use basic_sim.TcpFlow.{
  TcpSocket, TcpFlowClient, create, send_data, start_application, connection_succeeded, data_send,
  get_acked_bytes,
}
use basic_sim.TcpFlow.SendData.{IsSocket, IsFilled, send_data-IsFilled}
use basic_sim.TcpFlow.Steps.{
  Reach, here, next, network, start, succeed, may_send, IsSound, create-IsSound,
}
use basic_sim.TcpFlow.Outcome.{Reach-IsSound}
use basic_sim.LogUpdate.History.{last_of}
use basic_sim.TcpFlow.Logs.{TcpFlowLogs, Change, rtt, cwnd, tcp_state, syn_sent, closed, log_end}
use basic_sim.TcpFlow.Logs.Histories.{AreRecorded, with_first, log_run, log_run-AreRecorded}
use basic_sim.TcpFlow.Progress.{Step-get_acked_bytes}

-- Buffers that fill up; what does not fit is refused.
abbrev small_buffer : TcpSocket ℕ
small_buffer = record {
  bind = λ s. (pos 0, s);
  connect = λ s. (pos 0, s);
  shutdown_recv = λ s. s;
  send = λ n s. if leb (s + n) 100 then (pos n, s + n) else (negsuc 0, s);
  close = λ s. s;
  tx_size = λ s. s;
}

small_buffer-IsSocket : IsSocket small_buffer
small_buffer-IsSocket = record {
  send_part = λ n s. ground arith;
  send_refused = λ n k s e. ground arith;
  send_size = λ n s. ground arith;
  close_size = λ s. refl;
  bind_size = λ s. refl;
  connect_size = λ s. refl;
  shutdown_size = λ s. refl;
}

abbrev client : TcpFlowClient ℕ
client = create true true 40 250

abbrev connecting : TcpFlowClient ℕ
connecting = record (create {S = ℕ} true true 40 250) { socket = some 0 }

-- Two offers of 40 bytes are taken, the third does not fit.
abbrev sending : TcpFlowClient ℕ
sending = record (create {S = ℕ} true true 40 250) {
  socket = some 80;
  tot_bytes = 80;
  connected = true;
}

start_connecting : start_application small_buffer 5 0 client ≡ ok connecting
unfolding start_application create
start_connecting = refl

succeed_sending : connection_succeeded small_buffer connecting ≡ ok sending
unfolding connection_succeeded create
succeed_sending = refl

abbrev connected_client : TcpFlowClient ℕ
connected_client = record (create {S = ℕ} true true 40 250) { socket = some 0; connected = true }

send_data-IsFilled_example :
    (s' : ℕ) × (tot : ℕ) × IsFilled small_buffer 0 connected_client s' tot
    × (send_data small_buffer connected_client
        ≡ ok (
            if tot == 250 && true
            then record connected_client { socket = some s'; tot_bytes = tot; connected = false }
            else record connected_client { socket = some s'; tot_bytes = tot }))
unfolding create
send_data-IsFilled_example =
    send_data-IsFilled small_buffer-IsSocket 0 connected_client
      (record {
        step_pos = omega arith;
        step_bound = omega arith;
        flow_bound = omega arith;
        within = omega arith;
      })
      refl

client-IsSound : IsSound small_buffer 250 client
client-IsSound =
    create-IsSound small_buffer true true 40 250 (omega arith) (omega arith) (omega arith)

-- The network takes 50 bytes, and there is place for one more offer.
abbrev sent_on : TcpFlowClient ℕ
sent_on = record (create {S = ℕ} true true 40 250) {
  socket = some 70;
  tot_bytes = 120;
  connected = true;
}

may_send_on : data_send small_buffer (record sending { socket = some 30 }) ≡ ok sent_on
unfolding data_send create
may_send_on = refl

Reach-sent_on : Reach small_buffer client sent_on
unfolding create
Reach-sent_on =
    next
      (next (next (next here (start 5 0 refl refl refl start_connecting)) (succeed succeed_sending))
        (network 80 30 refl (omega arith)))
      (may_send may_send_on)

Reach-IsSound_example : IsSound small_buffer 250 sent_on
Reach-IsSound_example = Reach-IsSound small_buffer-IsSocket client-IsSound Reach-sent_on

sending-IsSound : IsSound small_buffer 250 sending
unfolding create
sending-IsSound =
    Reach-IsSound small_buffer-IsSocket client-IsSound
      (next (next here (start 5 0 refl refl refl start_connecting)) (succeed succeed_sending))

Step-get_acked_bytes_example : (ltb_ℤ (pos 50) (pos 0) ≡ false) × (ltb_ℤ (pos 250) (pos 50) ≡ false)
unfolding create get_acked_bytes
Step-get_acked_bytes_example =
    Step-get_acked_bytes small_buffer-IsSocket (pos 0) (pos 50) sending-IsSound
      (network 80 30 refl (omega arith)) (omega arith) refl refl refl

-- A client whose connection ended at 12, and what its traces told before.
abbrev ended_client : TcpFlowClient ℕ
ended_client = record (create {S = ℕ} true true 40 250) {
  completion_time_ns = pos 12;
  conn_failed = true;
}

abbrev traced : List (ℕ × Change)
traced = (7, rtt (pos 100)) ∷ (7, cwnd 1500) ∷ (9, tcp_state syn_sent) ∷ (12, tcp_state closed) ∷ []

log_run-AreRecorded_example :
    (l : TcpFlowLogs) × (log_run 5 (pos 0) traced ended_client 20 ≡ ok l)
    × AreRecorded (with_first 5 (pos 0) traced) 12 20 l
unfolding create log_end last_of
log_run-AreRecorded_example =
    log_run-AreRecorded 5 (pos 0) traced ended_client 12 20
      (omega arith, (omega arith, (omega arith, (omega arith, tt)))) refl (omega arith)
      (omega arith)
