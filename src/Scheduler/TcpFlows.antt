-- ===== src/Scheduler/TcpFlows.antt =====
-- helper/apps/tcp-flow-scheduler.cc: the TCP flow clients and servers that are installed, and the
-- lines of the results. helper/apps/client-remote-port-selector.cc and model/apps/ip-tos-generator.cc
-- have the default choices of the port and the type of service. Addresses are those of ns-3.
pub mod Results
use basic_sim.Prelude.{
  ℕ, Option, zero, suc, ◌%◌, ◌^◌, Bool, true, false, List, [], ◌∷◌, ◌++◌, map, if◌then◌else◌,
  length,
}
use basic_sim.Prelude.Order.{nat_ord}
use basic_sim.Prelude.Int.{ℤ, pos, ltb_ℤ, ◌-ℤ◌, ◌+ℤ◌, pos_part, int_ord}
use basic_sim.Prelude.Text.{Bytes, codes}
use basic_sim.Prelude.Results.{Result, ok, err, abort, guard, ◌>>=◌, ◌>>◌}
use basic_sim.Containers.SortedSet.{member}
use basic_sim.ExpUtil.Collections.{at_index}
use basic_sim.ExpUtil.Config.{File}
use basic_sim.BasicSimulation.{BasicSimulation, Call, stamp}
use basic_sim.TcpFlow.{TcpSocket, TcpFlowClient, create, get_acked_bytes}
use basic_sim.TcpFlow.Logs.{TcpFlowLogs, default_logs, finalize_detailed_logs}
use basic_sim.Schedule.TcpFlow.{TcpFlowScheduleEntry, tcp_flows}
use basic_sim.Scheduler.{
  if_enabled, ask_schedule, ask_logging_ids, filter_schedule, local_endpoints, start_all,
}

abbrev pub default_server_port : ℕ
default_server_port = 1024

-- `ClientRemotePortSelectorDefault` and `IpTosGeneratorDefault`, by the id of the flow.
unfoldable pub default_select_remote_port : ℕ → ℤ → ℕ
default_select_remote_port remote_port id = remote_port

unfoldable pub default_generate_ip_tos : ℤ → ℕ
default_generate_ip_tos id = 0

-- A flow of the schedule with its client: the ends as IPv4 address, port and type of service, and the
-- logs that the client keeps.
pub record TcpFlowApp (S : Type 0) : Type 0 where
  pub tcp_flow_id : ℤ
  pub from_address : ℕ
  pub to_address : ℕ
  pub remote_port : ℕ
  pub ip_tos : ℕ
  pub additional_parameters : Bytes
  pub enable_detailed_logging : Bool
  pub client : TcpFlowClient S
  pub logs : TcpFlowLogs

-- The state of an enabled scheduler.
pub record TcpFlowScheduler : Type 0 where
  pub schedule : List TcpFlowScheduleEntry
  pub enable_logging_for_tcp_flow_ids : List ℤ
  pub server_ports : List ℕ

-- One server for each port at an endpoint.
unfoldable pub servers : List ℕ → List ℤ → List (ℤ × ℕ)
servers server_ports [] = []
servers server_ports (endpoint ∷ endpoints) =
    map (λ port. (endpoint, port)) server_ports ++ servers server_ports endpoints

-- The constructor behind the test whether it is enabled: the scheduler and the servers.
unfoldable pub set_up :
    (ℤ → Bool)
    → List ℤ
    → (Bytes → File)
    → (Bytes → ℤ)
    → List ℕ
    → BasicSimulation
    → Call (TcpFlowScheduler × List (ℤ × ℕ))
unfolding servers ask_schedule ask_logging_ids filter_schedule local_endpoints stamp
set_up is_valid_endpoint endpoints file_in_run_dir clock server_ports s = do
  complete ←
      ask_schedule (tcp_flows is_valid_endpoint s.simulation_end_time_ns) file_in_run_dir
        (codes "tcp_flow_schedule_filename") s
  ids ←
      ask_logging_ids (codes "tcp_flow_enable_logging_for_tcp_flow_ids") (length complete.0)
        complete.1
  schedule ← filter_schedule (λ (x : TcpFlowScheduleEntry). x.from_node_id) ids.1 complete.0
  own ← local_endpoints ids.1 endpoints
  ok (
    (
      record {
        schedule = schedule;
        enable_logging_for_tcp_flow_ids = ids.0;
        server_ports = server_ports;
      },
      servers server_ports own,
    ),
    stamp clock (codes "Setup traffic TCP flow starter") (
        stamp clock (codes "Setup TCP flow servers") (
          stamp clock (codes "Remove previous flow log files")
            (stamp clock (codes "Read flow schedule") ids.1))),
  )

-- The whole constructor: nothing is set up unless the scheduler is enabled.
unfoldable pub construct :
    (ℤ → Bool)
    → List ℤ
    → (Bytes → File)
    → (Bytes → ℤ)
    → List ℕ
    → BasicSimulation
    → Call (Option (TcpFlowScheduler × List (ℤ × ℕ)))
unfolding set_up if_enabled
construct is_valid_endpoint endpoints file_in_run_dir clock server_ports s =
    if_enabled (codes "enable_tcp_flow_scheduler")
      (set_up is_valid_endpoint endpoints file_in_run_dir clock server_ports) s

module _ {S : Type 0} (address_of : ℤ → ℕ) (select_remote_port generate_ip_tos : ℤ → ℕ) where
  -- What `StartNextFlow` installs. The attribute `FlowSizeByte` is at least 1, and `SendStepSize` is
  -- left at its default.
  unfoldable pub install : TcpFlowScheduler → ℤ → TcpFlowScheduleEntry → Result (TcpFlowApp S)
  install scheduler now_ns entry = do
    guard (ltb_ℤ (pos 0) entry.size_byte) abort
    guard (member (select_remote_port entry.tcp_flow_id) scheduler.server_ports) abort
    logs ← default_logs
    ok (record {
      tcp_flow_id = entry.tcp_flow_id;
      from_address = address_of entry.from_node_id;
      to_address = address_of entry.to_node_id;
      remote_port = select_remote_port entry.tcp_flow_id;
      ip_tos = generate_ip_tos entry.tcp_flow_id;
      additional_parameters = entry.additional_parameters;
      enable_detailed_logging = member entry.tcp_flow_id scheduler.enable_logging_for_tcp_flow_ids;
      client = create true true 100000 (pos_part entry.size_byte);
      logs = logs;
    })

  unfoldable pub start_flows : TcpFlowScheduler → Result (List (TcpFlowApp S))
  unfolding install
  start_flows scheduler =
      start_all (λ (x : TcpFlowScheduleEntry). x.start_time_ns) (install scheduler)
        scheduler.schedule

-- Why a flow is done or is not.
pub data FinishedState : Type 0 where
  yes_completed no_conn_fail no_bad_close no_err_close no_ongoing : FinishedState

unfoldable pub finished_text : FinishedState → Bytes
finished_text yes_completed = codes "YES"
finished_text no_conn_fail = codes "NO_CONN_FAIL"
finished_text no_bad_close = codes "NO_BAD_CLOSE"
finished_text no_err_close = codes "NO_ERR_CLOSE"
finished_text no_ongoing = codes "NO_ONGOING"

unfoldable pub finished_state : {S : Type 0} → TcpFlowClient S → FinishedState
finished_state c =
    if c.is_completed
    then yes_completed
    else if c.conn_failed
    then no_conn_fail
    else if c.closed_normally
    then no_bad_close
    else if c.closed_by_error
    then no_err_close
    else no_ongoing

-- A line of tcp_flows.csv.
pub record ResultLine : Type 0 where
  pub tcp_flow_id : ℤ
  pub from_node_id : ℤ
  pub to_node_id : ℤ
  pub size_byte : ℤ
  pub start_time_ns : ℤ
  pub end_time_ns : ℤ
  pub fct_ns : ℤ
  pub sent_byte : ℤ
  pub finished : FinishedState
  pub metadata : Bytes

module _ {S : Type 0} (tcp : TcpSocket S) (simulation_end_time_ns : ℤ) where
  -- The line, with the count of acknowledged bytes.
  unfoldable pub line_with : ℤ → TcpFlowScheduleEntry → TcpFlowApp S → ResultLine
  unfolding finished_state
  line_with sent_byte entry app =
      let fct_ns =
        (if app.client.is_completed
          then app.client.completion_time_ns -ℤ entry.start_time_ns
          else simulation_end_time_ns -ℤ entry.start_time_ns) in
      record {
        tcp_flow_id = entry.tcp_flow_id;
        from_node_id = entry.from_node_id;
        to_node_id = entry.to_node_id;
        size_byte = entry.size_byte;
        start_time_ns = entry.start_time_ns;
        end_time_ns = entry.start_time_ns +ℤ fct_ns;
        fct_ns = fct_ns;
        sent_byte = sent_byte;
        finished = finished_state app.client;
        metadata = entry.metadata;
      }

  -- The line of a flow, and its logs, which are finalized before.
  unfoldable pub result_line :
      ℕ → TcpFlowScheduleEntry → TcpFlowApp S → Result (ResultLine × TcpFlowLogs)
  unfolding line_with
  result_line now entry app = do
    logs ← finalize_detailed_logs app.enable_detailed_logging now app.client app.logs
    sent_byte ← get_acked_bytes tcp app.client
    ok (line_with sent_byte entry app, logs)

  -- The loop over the schedule, with the index of the application; `now` is the simulator's time.
  unfoldable pub write_lines :
      ℕ
      → List (TcpFlowApp S)
      → ℕ
      → List TcpFlowScheduleEntry
      → Result (List (ResultLine × TcpFlowLogs))
  unfolding result_line
  write_lines now apps app_idx [] = ok []
  write_lines now apps app_idx (entry ∷ entries) = do
    app ← at_index apps app_idx
    line ← result_line now entry app
    lines ← write_lines now apps (suc app_idx) entries
    ok (line ∷ lines)

  unfoldable pub write_results :
      ℕ → TcpFlowScheduler → List (TcpFlowApp S) → Result (List (ResultLine × TcpFlowLogs))
  unfolding write_lines
  write_results now scheduler apps = write_lines now apps 0 scheduler.schedule
