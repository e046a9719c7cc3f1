-- ===== src/TcpFlow/Logs/Histories.antt =====
-- Whole runs of the detailed logs of a TCP flow (model/apps/tcp-flow-client.cc).
use basic_sim.Prelude.{ℕ, ◌≤◌, ◌≡◌, refl, true, false, List, [], ◌∷◌, arith}
use basic_sim.Prelude.Int.{ℤ, pos, negsuc, int_eq}
use basic_sim.Prelude.Order.{Eq}
use basic_sim.Prelude.Text.{bytes_eq}
use basic_sim.Prelude.Results.{Result, ok, ◌>>=◌}
use basic_sim.LogUpdate.{LogUpdateHelper, create, finalize, run}
use basic_sim.LogUpdate.Abstract.{IsAscending}
use basic_sim.LogUpdate.History.{timed, last_of}
use basic_sim.LogUpdate.Whole.{record_history}
use basic_sim.LogUpdate.Totality.{IsBefore-later, update-total, finalize-total}
use basic_sim.TcpFlow.{TcpFlowClient}
use basic_sim.TcpFlow.Logs.{
  TcpFlowLogs, Change, change, start_logs, finalize_logs, log_end, finalize_detailed_logs,
  number_log, text_log, state_string, cong_state_string, tx_buffer_unack_sequence, tcp_state,
  cong_state, closed, ca_open,
}
use basic_sim.TcpFlow.Logs.Traces.{
  picked, acked_of, rtt_of, rto_of, cwnd_of, cwnd_inflated_of, ssthresh_of, inflight_of, state_of,
  cong_state_of,
}
use basic_sim.TcpFlow.Logs.Changes.{AreBefore}
use basic_sim.TcpFlow.Logs.Runs.{changes, changes-IsRun}

-- The logs of a socket from its creation to the results, where the client is as given.
unfoldable pub log_run :
    {S : Type 0} → ℕ → ℤ → List (ℕ × Change) → TcpFlowClient S → ℕ → Result TcpFlowLogs
unfolding changes finalize_detailed_logs
log_run start acked_bytes es c now = do
  l ← start_logs start acked_bytes >>= changes es
  finalize_detailed_logs true now c l

-- A log to a file that nothing was written to.
abbrev fresh_log : {V : Type 0} → V → LogUpdateHelper V
fresh_log minus_one = record {
  log_time_value = [];
  last_update_value = minus_one;
  interval_alpha_value = minus_one;
  last_interval_check_time = negsuc 0;
  interval_alpha_left_time = negsuc 0;
  interval_beta_left_time = negsuc 0;
  save_in_memory = false;
  save_to_file = true;
  file_lines = [];
  is_open = true;
}

abbrev fresh_logs : TcpFlowLogs
fresh_logs = record {
  progress_byte = fresh_log (negsuc 0);
  rtt_ns = fresh_log (negsuc 0);
  rto_ns = fresh_log (negsuc 0);
  cwnd_byte = fresh_log (negsuc 0);
  cwnd_inflated_byte = fresh_log (negsuc 0);
  ssthresh_byte = fresh_log (negsuc 0);
  inflight_byte = fresh_log (negsuc 0);
  state = fresh_log (255 ∷ []);
  cong_state = fresh_log (255 ∷ []);
}

fresh-AreBefore : AreBefore 0 fresh_logs
fresh-AreBefore = record {
  progress_byte = refl;
  rtt_ns = refl;
  rto_ns = refl;
  cwnd_byte = refl;
  cwnd_inflated_byte = refl;
  ssthresh_byte = refl;
  inflight_byte = refl;
  state = refl;
  cong_state = refl;
}

-- All callbacks, with the three values that the logs begin with.
abbrev pub with_first : ℕ → ℤ → List (ℕ × Change) → List (ℕ × Change)
with_first start acked_bytes es =
    (start, tx_buffer_unack_sequence acked_bytes)
    ∷ (start, tcp_state closed)
    ∷ (start, cong_state ca_open)
    ∷ es

start_logs-changes :
    (start : ℕ) (acked_bytes : ℤ) (es : List (ℕ × Change))
    → (start_logs start acked_bytes >>= changes es)
      ≡ changes (with_first start acked_bytes es) fresh_logs
unfolding start_logs number_log text_log create changes change
start_logs-changes start acked_bytes es =
    let (h1, e1, b1) = update-total start acked_bytes (fresh_log (negsuc 0)) (ground arith) in
    let (h2, e2, b2) =
      update-total start (state_string closed) (fresh_log (255 ∷ [])) (ground arith) in
    let (h3, e3, b3) =
      update-total start (cong_state_string ca_open) (fresh_log (255 ∷ [])) (ground arith) in
    rw (e1, e2, e3) refl

log_run-eq :
    {S : Type 0} (start : ℕ) (acked_bytes : ℤ) (es : List (ℕ × Change)) (c : TcpFlowClient S)
    (timestamp : ℤ) (now : ℕ) (l l' : TcpFlowLogs)
    → log_end now c ≡ timestamp
    → changes (with_first start acked_bytes es) fresh_logs ≡ ok l
    → finalize_logs timestamp now l ≡ ok l'
    → log_run start acked_bytes es c now ≡ ok l'
unfolding log_run finalize_detailed_logs
log_run-eq start acked_bytes es c timestamp now l l' e h k =
    rw (start_logs-changes start acked_bytes es, h, e) k

-- Each log is the log of its own trace, from the first callback to its end.
pub record AreRecorded (all : List (ℕ × Change)) (end now : ℕ) (l : TcpFlowLogs) : Type 0 where
  pub progress_byte :
      record_history (negsuc 0) false true (timed (picked acked_of all)) (pos end)
      ≡ ok l.progress_byte
  pub rtt_ns :
      record_history (negsuc 0) false true (timed (picked rtt_of all)) (pos end) ≡ ok l.rtt_ns
  pub rto_ns :
      record_history (negsuc 0) false true (timed (picked rto_of all)) (pos end) ≡ ok l.rto_ns
  pub cwnd_byte :
      record_history (negsuc 0) false true (timed (picked cwnd_of all)) (pos end) ≡ ok l.cwnd_byte
  pub cwnd_inflated_byte :
      record_history (negsuc 0) false true (timed (picked cwnd_inflated_of all)) (pos end)
      ≡ ok l.cwnd_inflated_byte
  pub ssthresh_byte :
      record_history (negsuc 0) false true (timed (picked ssthresh_of all)) (pos end)
      ≡ ok l.ssthresh_byte
  pub inflight_byte :
      record_history (negsuc 0) false true (timed (picked inflight_of all)) (pos end)
      ≡ ok l.inflight_byte
  pub state :
      record_history (255 ∷ []) false true (timed (picked state_of all)) (pos now) ≡ ok l.state
  pub cong_state :
      record_history (255 ∷ []) false true (timed (picked cong_state_of all)) (pos now)
      ≡ ok l.cong_state

record_history-eq :
    {V : Type 0} ⦃e : Eq V⦄ (d : V) (us : List (ℕ × V)) (t : ℕ) (h h' : LogUpdateHelper V)
    → run (fresh_log d) (timed us) ≡ ok h
    → finalize h (pos t) ≡ ok h'
    → record_history d false true (timed us) (pos t) ≡ ok h'
unfolding record_history create
record_history-eq d us t h h' r f = rw r f

-- The detailed logs of a flow, whose callbacks come at times that never fall, none later than the end
-- of the connection, or the results if it has none, and none later than the results: no update and no
-- end of a log throws, and each of the nine logs is that of its own trace alone, with the acknowledged
-- bytes and both states from the creation of the socket on, up to the end of the connection for the
-- values and up to the results for the states.
pub log_run-AreRecorded :
    {S : Type 0} (start : ℕ) (acked_bytes : ℤ) (es : List (ℕ × Change)) (c : TcpFlowClient S)
    (end now : ℕ)
    → IsAscending start es
    → log_end now c ≡ pos end
    → last_of start es ≤ end
    → last_of start es ≤ now
    → (l : TcpFlowLogs) × (log_run start acked_bytes es c now ≡ ok l)
      × AreRecorded (with_first start acked_bytes es) end now l
unfolding log_run finalize_logs last_of
log_run-AreRecorded start acked_bytes es c end now a ended le_end le_now =
    let (l, e, r, b) =
      changes-IsRun 0 (with_first start acked_bytes es) fresh_logs
        (omega arith, (omega arith, (omega arith, a))) fresh-AreBefore in
    let (h0, e0) =
      finalize-total end l.progress_byte
        (IsBefore-later (last_of start es) end l.progress_byte le_end b.progress_byte) in
    let (h1, e1) =
      finalize-total end l.rtt_ns
        (IsBefore-later (last_of start es) end l.rtt_ns le_end b.rtt_ns) in
    let (h2, e2) =
      finalize-total end l.rto_ns
        (IsBefore-later (last_of start es) end l.rto_ns le_end b.rto_ns) in
    let (h3, e3) =
      finalize-total end l.cwnd_byte
        (IsBefore-later (last_of start es) end l.cwnd_byte le_end b.cwnd_byte) in
    let (h4, e4) =
      finalize-total end l.cwnd_inflated_byte
        (IsBefore-later (last_of start es) end l.cwnd_inflated_byte le_end b.cwnd_inflated_byte) in
    let (h5, e5) =
      finalize-total end l.ssthresh_byte
        (IsBefore-later (last_of start es) end l.ssthresh_byte le_end b.ssthresh_byte) in
    let (h6, e6) =
      finalize-total end l.inflight_byte
        (IsBefore-later (last_of start es) end l.inflight_byte le_end b.inflight_byte) in
    let (h7, e7) =
      finalize-total now l.state (IsBefore-later (last_of start es) now l.state le_now b.state) in
    let (h8, e8) =
      finalize-total now l.cong_state
        (IsBefore-later (last_of start es) now l.cong_state le_now b.cong_state) in
    (
      record {
        progress_byte = h0;
        rtt_ns = h1;
        rto_ns = h2;
        cwnd_byte = h3;
        cwnd_inflated_byte = h4;
        ssthresh_byte = h5;
        inflight_byte = h6;
        state = h7;
        cong_state = h8;
      },
      log_run-eq start acked_bytes es c (pos end) now l _ ended e
          (rw (e0, e1, e2, e3, e4, e5, e6, e7, e8) refl),
      record {
        progress_byte =
            record_history-eq (negsuc 0) (picked acked_of (with_first start acked_bytes es)) end
              l.progress_byte h0 r.progress_byte e0;
        rtt_ns =
            record_history-eq (negsuc 0) (picked rtt_of (with_first start acked_bytes es)) end
              l.rtt_ns h1 r.rtt_ns e1;
        rto_ns =
            record_history-eq (negsuc 0) (picked rto_of (with_first start acked_bytes es)) end
              l.rto_ns h2 r.rto_ns e2;
        cwnd_byte =
            record_history-eq (negsuc 0) (picked cwnd_of (with_first start acked_bytes es)) end
              l.cwnd_byte h3 r.cwnd_byte e3;
        cwnd_inflated_byte =
            record_history-eq (negsuc 0) (picked cwnd_inflated_of (with_first start acked_bytes es))
              end l.cwnd_inflated_byte h4 r.cwnd_inflated_byte e4;
        ssthresh_byte =
            record_history-eq (negsuc 0) (picked ssthresh_of (with_first start acked_bytes es)) end
              l.ssthresh_byte h5 r.ssthresh_byte e5;
        inflight_byte =
            record_history-eq (negsuc 0) (picked inflight_of (with_first start acked_bytes es)) end
              l.inflight_byte h6 r.inflight_byte e6;
        state =
            record_history-eq (255 ∷ []) (picked state_of (with_first start acked_bytes es)) now
              l.state h7 r.state e7;
        cong_state =
            record_history-eq (255 ∷ []) (picked cong_state_of (with_first start acked_bytes es))
              now l.cong_state h8 r.cong_state e8;
      },
    )
