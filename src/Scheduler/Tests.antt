-- ===== src/Scheduler/Tests.antt =====
-- The two flows of the sample schedule, installed and reported.
use basic_sim.Prelude.{
  ◌%◌, ◌^◌, All, ℕ, ◌+◌, ◌≡◌, refl, sym, true, inr, false, List, [], ◌∷◌, map, length, arith, inl,
  leb, if◌then◌else◌,
}
use basic_sim.Prelude.Int.{ℤ, pos, negsuc, pos_part, int_ord}
use basic_sim.Containers.SortedSet.{member, same}
use basic_sim.Containers.SortedMap.{find, insert}
use basic_sim.Prelude.Results.{Result, ok}
use basic_sim.BasicSimulation.{BasicSimulation}
use basic_sim.TcpFlow.{TcpSocket, create}
use basic_sim.LogUpdate.{LogUpdateHelper}
use basic_sim.TcpFlow.Logs.{TcpFlowLogs, default_logs, log_end}
use basic_sim.Prelude.Text.{Bytes}
use mathlib.Core.Path.{subst}
use basic_sim.Schedule.TcpFlow.{TcpFlowScheduleEntry, tcp_flows}
use basic_sim.Schedule.Samples.{below_four, flow_lines, flows, flows_read}
use basic_sim.Scheduler.{filter_schedule, start_all}
use basic_sim.Scheduler.Starts.{start_all-map}
use basic_sim.Scheduler.TcpFlows.{
  TcpFlowApp, TcpFlowScheduler, ResultLine, install, default_select_remote_port,
  default_generate_ip_tos, write_results,
}
use basic_sim.Scheduler.TcpFlows.Results.{IsStarted, AreTimely, AreLines, write_results-AreLines}
use basic_sim.UdpHeaders.{UdpBurstHeader}
use basic_sim.UdpBurst.{UdpBurstServer}
use basic_sim.UdpBurst.Counts.{handle_all, count}
use basic_sim.Schedule.UdpBurst.{UdpBurstInfo}
use basic_sim.Scheduler.UdpBursts.{BurstLine, server_at}
use basic_sim.Scheduler.UdpBursts.Files.{IsIn, responsible_for_incoming, write_incoming}
use basic_sim.Scheduler.UdpBursts.Lines.{IsBurstLine}
use basic_sim.Scheduler.UdpBursts.Hosts.{Host, servers_of, all_lines_to, HasAscendingIds}
use basic_sim.Scheduler.UdpBursts.Incoming.{HasRead, IsOf, write_incoming-IsOf}
use basic_sim.UdpPing.{UdpPingClient}
use basic_sim.UdpPing.Replies.{IsConsistent}
use basic_sim.Scheduler.UdpPings.{PingLine, Summary, ping_results}
use basic_sim.Scheduler.UdpPings.Lines.{ArePingLines}
use basic_sim.Scheduler.UdpPings.Results.{IsSummary, ping_results-IsSummary}

-- A run that is not distributed.
abbrev single : BasicSimulation
single = record {
  config = [];
  config_requested_keys = [];
  simulation_seed = pos 1;
  simulation_end_time_ns = pos 10;
  enable_distributed = false;
  system_id = 0;
  systems_count = 1;
  distributed_node_system_id_assignment = [];
  timestamps = [];
}

abbrev scheduler : TcpFlowScheduler
scheduler = record {
  schedule = flows;
  enable_logging_for_tcp_flow_ids = pos 1 ∷ [];
  server_ports = 1024 ∷ [];
}

abbrev node_address : ℤ → ℕ
node_address (pos n) = 167772160 + n
node_address (negsuc n) = 0

-- Sockets with a count of buffered bytes.
abbrev counting : TcpSocket ℕ
counting = record {
  bind = λ s. (pos 0, s);
  connect = λ s. (pos 0, s);
  shutdown_recv = λ s. s;
  send = λ n s. if leb (s + n) 100 then (pos n, s + n) else (negsuc 0, s);
  close = λ s. s;
  tx_size = λ s. s;
}

abbrev install_flow : ℤ → TcpFlowScheduleEntry → Result (TcpFlowApp ℕ)
install_flow =
    install node_address (default_select_remote_port 1024) default_generate_ip_tos scheduler

abbrev no_number : LogUpdateHelper ℤ
no_number = record {
  log_time_value = [];
  last_update_value = negsuc 0;
  interval_alpha_value = negsuc 0;
  last_interval_check_time = negsuc 0;
  interval_alpha_left_time = negsuc 0;
  interval_beta_left_time = negsuc 0;
  save_in_memory = true;
  save_to_file = false;
  file_lines = [];
  is_open = false;
}

abbrev no_text : LogUpdateHelper Bytes
no_text = record {
  log_time_value = [];
  last_update_value = 255 ∷ [];
  interval_alpha_value = 255 ∷ [];
  last_interval_check_time = negsuc 0;
  interval_alpha_left_time = negsuc 0;
  interval_beta_left_time = negsuc 0;
  save_in_memory = true;
  save_to_file = false;
  file_lines = [];
  is_open = false;
}

abbrev no_logs : TcpFlowLogs
no_logs = record {
  progress_byte = no_number;
  rtt_ns = no_number;
  rto_ns = no_number;
  cwnd_byte = no_number;
  cwnd_inflated_byte = no_number;
  ssthresh_byte = no_number;
  inflight_byte = no_number;
  state = no_text;
  cong_state = no_text;
}

-- The application of a flow with the given size and logging.
abbrev app_of : TcpFlowScheduleEntry → TcpFlowApp ℕ
app_of x = record {
  tcp_flow_id = x.tcp_flow_id;
  from_address = node_address x.from_node_id;
  to_address = node_address x.to_node_id;
  remote_port = 1024;
  ip_tos = 0;
  additional_parameters = x.additional_parameters;
  enable_detailed_logging = member x.tcp_flow_id (pos 1 ∷ []);
  client = create true true 100000 (pos_part x.size_byte);
  logs = no_logs;
}

start_all-map_example :
    start_all (λ (x : TcpFlowScheduleEntry). x.start_time_ns) install_flow flows
    ≡ ok (map app_of flows)
unfolding filter_schedule install default_select_remote_port default_generate_ip_tos member same
    default_logs basic_sim.LogUpdate.create
start_all-map_example =
    start_all-map (tcp_flows below_four (pos 10)) install_flow app_of flow_lines flows flows single
      flows_read refl (refl, (refl, tt))

-- The first flow is completed, the second could not connect.
abbrev completed_app : TcpFlowApp ℕ
completed_app =
    record (app_of (record {
      tcp_flow_id = pos 0;
      from_node_id = pos 0;
      to_node_id = pos 1;
      size_byte = pos 1000;
      start_time_ns = pos 5;
      additional_parameters = [];
      metadata = [];
    })) {
      enable_detailed_logging = false;
      client = record (create {S = ℕ} true true 100000 1000) {
        tot_bytes = 1000;
        acked_bytes = 1000;
        completion_time_ns = pos 9;
        closed_normally = true;
        is_completed = true;
      };
    }

abbrev failed_app : TcpFlowApp ℕ
failed_app = record completed_app {
  tcp_flow_id = pos 1;
  enable_detailed_logging = true;
  logs = record no_logs {
    progress_byte = record no_number {
      last_update_value = pos 0;
      last_interval_check_time = pos 6;
      interval_alpha_left_time = pos 6;
    };
  };
  client = record (create {S = ℕ} true true 100000 99) {
    completion_time_ns = pos 7;
    conn_failed = true;
  };
}

completed-IsStarted : IsStarted counting completed_app.client
unfolding create
completed-IsStarted = record {
  sound = record {
    same_flow = refl;
    sending = record {
      step_pos = omega arith;
      step_bound = omega arith;
      flow_bound = omega arith;
      within = omega arith;
    };
    buffered = λ s e. cc;
    more = λ e. cc;
    released = λ e. refl;
    timed = refl;
    one_end = refl;
    one_close = refl;
    acked = omega arith;
    acked_all = λ e. refl;
    completed = refl;
  };
  small = omega arith;
  live = inl refl;
}

failed-IsStarted : IsStarted counting failed_app.client
unfolding create
failed-IsStarted = record {
  sound = record {
    same_flow = refl;
    sending = record {
      step_pos = omega arith;
      step_bound = omega arith;
      flow_bound = omega arith;
      within = omega arith;
    };
    buffered = λ s e. cc;
    more = λ e. cc;
    released = λ e. refl;
    timed = refl;
    one_end = refl;
    one_close = refl;
    acked = omega arith;
    acked_all = λ e. cc;
    completed = refl;
  };
  small = omega arith;
  live = inl refl;
}

failed-HasTimelyLogs : AreTimely 10 failed_app.client failed_app.logs
unfolding log_end
failed-HasTimelyLogs = record {
  end_nonneg = refl;
  progress_byte-timely = refl;
  rtt_ns-timely = refl;
  rto_ns-timely = refl;
  cwnd_byte-timely = refl;
  cwnd_inflated_byte-timely = refl;
  ssthresh_byte-timely = refl;
  inflight_byte-timely = refl;
  state-timely = refl;
  cong_state-timely = refl;
}

write_results-AreLines_example :
    (lines : List (ResultLine × TcpFlowLogs)) × (write_results counting
        (pos 10)
        10
        scheduler
        (completed_app ∷ failed_app ∷ [])
      ≡ ok lines)
    × AreLines 10 flows (completed_app ∷ failed_app ∷ []) lines
write_results-AreLines_example =
    write_results-AreLines counting (pos 10) 10 scheduler (completed_app ∷ failed_app ∷ []) refl
      (completed-IsStarted, (failed-IsStarted, tt))
      ((λ off. absurd (cc off)), ((λ on. failed-HasTimelyLogs), tt))

-- A ping client with two requests, one of which is answered.
abbrev pinging : UdpPingClient
pinging = record {
  udp_ping_id = 3;
  interval = 10;
  duration = 20;
  wait_afterwards = 0;
  start_time = 7;
  sent = 2;
  send_request_timestamps = pos 7 ∷ pos 17 ∷ [];
  reply_timestamps = negsuc 0 ∷ pos 19 ∷ [];
  receive_reply_timestamps = negsuc 0 ∷ pos 22 ∷ [];
}

pinging-IsConsistent : IsConsistent pinging
pinging-IsConsistent = record {
  counted = refl;
  reply_places = refl;
  receive_places = refl;
  paired = (refl, (refl, tt));
}

ping_results-IsSummary_example :
    (lines : List PingLine) × (s : Summary) × (ping_results (pos 3) pinging ≡ ok (lines, s))
    × (length lines ≡ 2)
    × ArePingLines (pos 3) pinging 0 lines
    × IsSummary lines s
ping_results-IsSummary_example =
    ping_results-IsSummary (pos 3) pinging pinging-IsConsistent (omega arith)

-- Two bursts into node 1, one into node 2; node 1 receives two packets of the first.
abbrev burst_of : ℕ → ℤ → UdpBurstInfo ℕ
burst_of id to = record {
  udp_burst_id = pos id;
  from_node_id = pos 0;
  to_node_id = to;
  target_rate_megabit_per_s = 10;
  start_time_ns = pos 5;
  duration_ns = pos 100;
  additional_parameters = [];
  metadata = [];
}

abbrev bursts : List (UdpBurstInfo ℕ)
bursts = burst_of 0 (pos 1) ∷ burst_of 1 (pos 2) ∷ burst_of 2 (pos 1) ∷ []

abbrev arrivals : List (UdpBurstHeader × ℕ)
arrivals = (record { id = 0; seq = 0 }, 8) ∷ (record { id = 0; seq = 1 }, 9) ∷ []

abbrev receiver : UdpBurstServer
receiver = record {
  incoming_bursts = pos 0 ∷ pos 2 ∷ [];
  incoming_bursts_received_counter = (pos 0, 2) ∷ (pos 2, 0) ∷ [];
  incoming_bursts_enable_precise_logging = (pos 0, false) ∷ (pos 2, true) ∷ [];
  incoming_lines = [];
}

handle_arrivals : handle_all arrivals (server_at (pos 2 ∷ []) bursts (pos 1)) ≡ ok receiver
unfolding handle_all server_at find insert same member
handle_arrivals = refl

-- The one host of this system.
abbrev host : Host
host = record { endpoint = pos 1; headers = arrivals; server = receiver }

host-HasRead : (h : Host) → IsIn h (host ∷ []) → HasRead (pos 2 ∷ []) bursts h
host-HasRead h i = elim i [
  | inl here ↦ subst (HasRead (pos 2 ∷ []) bursts) (sym here) handle_arrivals
  | inr nowhere ↦ absurd nowhere
]

write_incoming-IsOf_example :
    (lines : List BurstLine) × (write_incoming
        (pos 50)
        1500
        1472
        (responsible_for_incoming bursts (servers_of (host ∷ [])))
      ≡ ok lines)
    × HasAscendingIds lines
    × (length lines ≡ all_lines_to (host ∷ []) bursts)
    × All (IsOf (pos 50) 1500 1472 bursts (host ∷ [])) lines
    × ((h : Host)
        → IsIn h (host ∷ [])
        → (x : UdpBurstInfo ℕ) → IsIn x bursts
        → x.to_node_id ≡ h.endpoint
        → (l : BurstLine) × IsIn l lines
          × IsBurstLine (pos 50) 1500 1472 x (count x.udp_burst_id h.headers % 2 ^ 64) l)
write_incoming-IsOf_example =
    write_incoming-IsOf (pos 50) 1500 1472 (pos 2 ∷ []) bursts (host ∷ []) host-HasRead
