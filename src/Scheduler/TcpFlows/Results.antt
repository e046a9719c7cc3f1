-- ===== src/Scheduler/TcpFlows/Results.antt =====
-- About the lines of tcp_flows.csv (helper/apps/tcp-flow-scheduler.cc).
use basic_sim.Prelude.{
  ℕ, Bool, suc, ◌^◌, ◌<◌, ◌≡◌, ◌≢◌, ◌⊎◌, ◌↔◌, inl, inr, refl, true, false, List, [], ◌∷◌, ◌++◌,
  some, arith, length, length-append, append_assoc, All, Bool-cases,
}
use mathlib.Core.Path.{subst}
use basic_sim.Prelude.Int.{int_eq, ℤ, pos, ltb_ℤ}
use basic_sim.Prelude.Text.{bytes_eq}
use basic_sim.Prelude.Results.{ok}
use basic_sim.TcpFlow.{TcpSocket, TcpFlowClient, is_ended, get_acked_bytes, sub_64, to_int64}
use basic_sim.TcpFlow.Steps.{IsSound}
use basic_sim.TcpFlow.Progress.{get_acked_bytes-acked}
use basic_sim.LogUpdate.Totality.{finalize-total_at}
use basic_sim.TcpFlow.Logs.{TcpFlowLogs, log_end, finalize_logs, finalize_detailed_logs}
use basic_sim.Schedule.TcpFlow.{TcpFlowScheduleEntry}
use basic_sim.Scheduler.Starts.{at_index-append, sub-add}
use basic_sim.Scheduler.TcpFlows.{
  TcpFlowApp, TcpFlowScheduler, yes_completed, no_conn_fail, no_bad_close, no_err_close, no_ongoing,
  finished_state, ResultLine, line_with, result_line, write_lines, write_results,
}

module _ {S : Type 0} (tcp : TcpSocket S) where
  -- A client that was started, and whose flow is an int64: it has ended or has its socket.
  pub record IsStarted (c : TcpFlowClient S) : Type 0 where
    pub sound : IsSound tcp c.flow_size_byte c
    pub small : c.flow_size_byte < 2 ^ 63
    pub live : (is_ended c ≡ true) ⊎ ((s : S) × (c.socket ≡ some s))

-- What a line says of an entry and its client.
pub record IsLine {S : Type 0} (entry : TcpFlowScheduleEntry) (c : TcpFlowClient S)
    (line : ResultLine) : Type 0 where
  pub named : line.tcp_flow_id ≡ entry.tcp_flow_id
  pub completed :
      (line.finished ≡ yes_completed)
      ↔ ((c.closed_normally ≡ true) × (c.acked_bytes ≡ c.flow_size_byte))
  pub failed : (line.finished ≡ no_conn_fail) ↔ (c.conn_failed ≡ true)
  pub short :
      (line.finished ≡ no_bad_close)
      ↔ ((c.closed_normally ≡ true) × (c.acked_bytes ≢ c.flow_size_byte))
  pub broken : (line.finished ≡ no_err_close) ↔ (c.closed_by_error ≡ true)
  pub ongoing : (line.finished ≡ no_ongoing) ↔ (is_ended c ≡ false)
  pub sent_nonneg : ltb_ℤ line.sent_byte (pos 0) ≡ false
  pub sent_bound : ltb_ℤ (pos c.flow_size_byte) line.sent_byte ≡ false
  pub sent_all : line.finished ≡ yes_completed → line.sent_byte ≡ pos c.flow_size_byte
  pub ended : line.finished ≡ yes_completed → line.end_time_ns ≡ c.completion_time_ns

-- The entries, their applications, and their lines with the finalized logs, one by one.
abbrev pub AreLines :
    {S : Type 0}
    → ℕ
    → List TcpFlowScheduleEntry
    → List (TcpFlowApp S)
    → List (ResultLine × TcpFlowLogs)
    → Type 0
AreLines now [] [] [] = Unit
AreLines now (x ∷ xs) (a ∷ as') (l ∷ ls) =
    IsLine x a.client l.0
    × (finalize_detailed_logs a.enable_detailed_logging now a.client a.logs ≡ ok l.1)
    × AreLines now xs as' ls
AreLines now xs as' ls = ⊥

-- No log of a client has an update after the time at which it is finalized: the end of a connection
-- that has ended, otherwise now; for the two logs of states, now.
pub record AreTimely {S : Type 0} (now : ℕ) (c : TcpFlowClient S) (l : TcpFlowLogs) : Type 0 where
  pub end_nonneg : ltb_ℤ (log_end now c) (pos 0) ≡ false
  pub progress_byte-timely : ltb_ℤ (log_end now c) l.progress_byte.last_interval_check_time ≡ false
  pub rtt_ns-timely : ltb_ℤ (log_end now c) l.rtt_ns.last_interval_check_time ≡ false
  pub rto_ns-timely : ltb_ℤ (log_end now c) l.rto_ns.last_interval_check_time ≡ false
  pub cwnd_byte-timely : ltb_ℤ (log_end now c) l.cwnd_byte.last_interval_check_time ≡ false
  pub cwnd_inflated_byte-timely :
      ltb_ℤ (log_end now c) l.cwnd_inflated_byte.last_interval_check_time ≡ false
  pub ssthresh_byte-timely : ltb_ℤ (log_end now c) l.ssthresh_byte.last_interval_check_time ≡ false
  pub inflight_byte-timely : ltb_ℤ (log_end now c) l.inflight_byte.last_interval_check_time ≡ false
  pub state-timely : ltb_ℤ (pos now) l.state.last_interval_check_time ≡ false
  pub cong_state-timely : ltb_ℤ (pos now) l.cong_state.last_interval_check_time ≡ false

-- A flow that writes no logs has none to finalize.
abbrev pub HasTimelyLogs : {S : Type 0} → ℕ → TcpFlowApp S → Type 0
HasTimelyLogs now a = a.enable_detailed_logging ≡ true → AreTimely now a.client a.logs

finalize_detailed_logs-ok :
    {S : Type 0} (now : ℕ) (c : TcpFlowClient S) (b : Bool) (l : TcpFlowLogs)
    → (b ≡ true → AreTimely now c l)
    → (l' : TcpFlowLogs) × (finalize_detailed_logs b now c l ≡ ok l')
unfolding finalize_detailed_logs finalize_logs
finalize_detailed_logs-ok now c false l timely = (l, refl)
finalize_detailed_logs-ok now c true l timely =
    let t = timely refl in
    let end = log_end now c in
    let (h0, e0) = finalize-total_at end l.progress_byte t.end_nonneg t.progress_byte-timely in
    let (h1, e1) = finalize-total_at end l.rtt_ns t.end_nonneg t.rtt_ns-timely in
    let (h2, e2) = finalize-total_at end l.rto_ns t.end_nonneg t.rto_ns-timely in
    let (h3, e3) = finalize-total_at end l.cwnd_byte t.end_nonneg t.cwnd_byte-timely in
    let (h4, e4) =
      finalize-total_at end l.cwnd_inflated_byte t.end_nonneg t.cwnd_inflated_byte-timely in
    let (h5, e5) = finalize-total_at end l.ssthresh_byte t.end_nonneg t.ssthresh_byte-timely in
    let (h6, e6) = finalize-total_at end l.inflight_byte t.end_nonneg t.inflight_byte-timely in
    let (h7, e7) = finalize-total_at (pos now) l.state (ground arith) t.state-timely in
    let (h8, e8) = finalize-total_at (pos now) l.cong_state (ground arith) t.cong_state-timely in
    (
      record {
        progress_byte = h0;
        rtt_ns = h1;
        rto_ns = h2;
        cwnd_byte = h3;
        cwnd_inflated_byte = h4;
        ssthresh_byte = h5;
        inflight_byte = h6;
        state = h7;
        cong_state = h8;
      },
      rw (e0, e1, e2, e3, e4, e5, e6, e7, e8) refl,
    )

module _ {S : Type 0} {tcp : TcpSocket S} where
  get_acked_bytes-ok :
      (c : TcpFlowClient S) → IsStarted tcp c → (a : ℤ) × (get_acked_bytes tcp c ≡ ok a)
  unfolding get_acked_bytes
  get_acked_bytes-ok c i = elim i.live [
    | inl done ↦ (to_int64 c.acked_bytes, ground (arith, done))
    | inr (s, e) ↦ elim (Bool-cases (is_ended c)) [
      | inl done ↦ (to_int64 c.acked_bytes, ground (arith, done))
      | inr going ↦ (to_int64 (sub_64 c.tot_bytes (tcp.tx_size s)), ground (arith, going, e))
    ]
  ]

  result_line-IsLine :
      (end : ℤ) (now : ℕ) (entry : TcpFlowScheduleEntry) (app : TcpFlowApp S)
      → IsStarted tcp app.client
      → HasTimelyLogs now app
      → (line : ResultLine) × (logs : TcpFlowLogs) × (result_line tcp end now entry app
          ≡ ok (line, logs))
        × IsLine entry app.client line
        × (finalize_detailed_logs app.enable_detailed_logging now app.client app.logs ≡ ok logs)
  unfolding result_line line_with finished_state
  result_line-IsLine end now entry app i timely =
      let (logs, e') =
        finalize_detailed_logs-ok now app.client app.enable_detailed_logging app.logs timely in
      let c = app.client in
      let (a, e) = get_acked_bytes-ok app.client i in
      let (v, bound) = get_acked_bytes-acked app.client a i.sound i.small e in
      let full = i.sound.completed in
      let one = i.sound.one_end in
      let close = i.sound.one_close in
      (
        line_with tcp end a entry app,
        logs,
        rw (e', e) refl,
        record {
          named = refl;
          completed = ground (arith, full, one, close);
          failed = ground (arith, full, one, close);
          short = ground (arith, full, one, close);
          broken = ground (arith, full, one, close);
          ongoing = ground (arith, full, one, close);
          sent_nonneg = ground (arith, v);
          sent_bound = ground (arith, v, bound);
          sent_all = λ h. ground (arith, h, full, one, v);
          ended = λ h.
              let done : c.is_completed ≡ true = ground (arith, h) in
              rw done (sub-add entry.start_time_ns c.completion_time_ns);
        },
        e',
      )

module _ {S : Type 0} (tcp : TcpSocket S) where
  write_lines-AreLines :
      (end : ℤ) (now : ℕ) (entries : List TcpFlowScheduleEntry) (before apps : List (TcpFlowApp S))
      → length apps ≡ length entries
      → All (λ (a : TcpFlowApp S). IsStarted tcp a.client) apps
      → All (HasTimelyLogs now) apps
      → (lines : List (ResultLine × TcpFlowLogs)) × (write_lines tcp end now
            (before ++ apps)
            (length before)
            entries
          ≡ ok lines)
        × AreLines now entries apps lines
  unfolding write_lines
  write_lines-AreLines end now [] before [] len i t = ([], refl, tt)
  write_lines-AreLines end now [] before (a ∷ as') len i t = absurd (omega (arith, len))
  write_lines-AreLines end now (x ∷ xs) before [] len i t = absurd (omega (arith, len))
  write_lines-AreLines end now (x ∷ xs) before (a ∷ as') len i t =
      let (line, logs, e, l, f) = result_line-IsLine end now x a i.0 t.0 in
      let (lines, es, ls) =
        write_lines-AreLines end now xs (before ++ a ∷ []) as' (omega (arith, len)) i.1 t.1 in
      let count : length (before ++ a ∷ []) ≡ suc (length before) =
        omega (arith, length-append before (a ∷ [])) in
      let rest : write_lines tcp end now (before ++ a ∷ as') (suc (length before)) xs ≡ ok lines =
        subst (λ n. write_lines tcp end now (before ++ a ∷ as') n xs ≡ ok lines) count
          (subst (λ all. write_lines tcp end now all (length (before ++ a ∷ [])) xs ≡ ok lines)
            (append_assoc before (a ∷ []) as') es) in
      ((line, logs) ∷ lines, rw (at_index-append before a as', e, rest) refl, (l, f, ls))

  -- When each flow of the schedule has its application, which was started, and no detailed log that is
  -- enabled has an update later than the time at which it is finalized, a time from 0 on: the results
  -- are written, a line for each flow in the order of the schedule, with its own outcome, and the logs of
  -- the flow are finalized. The last column tells the end of the flow apart: all acknowledged,
  -- connection failed, closed short of it, closed by an error, going on. What was sent is between 0 and
  -- the size, all of it for a completed flow, whose line ends at the completion.
  pub write_results-AreLines :
      (end : ℤ) (now : ℕ) (scheduler : TcpFlowScheduler) (apps : List (TcpFlowApp S))
      → length apps ≡ length scheduler.schedule
      → All (λ (a : TcpFlowApp S). IsStarted tcp a.client) apps
      → All (HasTimelyLogs now) apps
      → (lines : List (ResultLine × TcpFlowLogs)) × (write_results tcp end now scheduler apps
          ≡ ok lines)
        × AreLines now scheduler.schedule apps lines
  unfolding write_results
  write_results-AreLines end now scheduler apps len i t =
      write_lines-AreLines end now scheduler.schedule [] apps len i t
