-- ===== src/Scheduler/UdpPings.antt =====
-- helper/apps/udp-ping-scheduler.cc: the ping clients and servers that are installed, and the lines
-- and the statistics of the results. The means and the deviation, which are doubles, are left out;
-- the sums that they are made of are here.
pub mod Lines
pub mod Sums
pub mod Results
use basic_sim.Prelude.{
  ℕ, Option, zero, suc, ◌+◌, ◌%◌, ◌^◌, Bool, true, false, not, List, [], ◌∷◌, ◌++◌, is_nil,
  if◌then◌else◌,
}
use basic_sim.Prelude.Int.{ℤ, pos, negsuc, ltb_ℤ, eqb_ℤ, ◌+ℤ◌, ◌-ℤ◌, pos_part}
use basic_sim.Prelude.Text.{Bytes, codes}
use basic_sim.Prelude.Results.{Result, ok, err, ◌>>=◌}
use basic_sim.ExpUtil.Collections.{at_index}
use basic_sim.ExpUtil.Config.{File}
use basic_sim.BasicSimulation.{BasicSimulation, Call, stamp}
use basic_sim.UdpPing.{UdpPingClient, none_yet}
use basic_sim.Schedule.UdpPing.{UdpPingInfo, udp_pings}
use basic_sim.Scheduler.{if_enabled, ask_schedule, filter_schedule, local_endpoints, start_all}

-- The constructor of an enabled scheduler: the schedule of this system and the nodes with a server.
unfoldable pub set_up :
    (ℤ → Bool)
    → List ℤ
    → (Bytes → File)
    → (Bytes → ℤ)
    → BasicSimulation
    → Call (List UdpPingInfo × List ℤ)
unfolding ask_schedule filter_schedule local_endpoints stamp
set_up is_valid_endpoint endpoints file_in_run_dir clock s = do
  complete ←
      ask_schedule (udp_pings is_valid_endpoint s.simulation_end_time_ns) file_in_run_dir
        (codes "udp_ping_schedule_filename") s
  schedule ← filter_schedule (λ (x : UdpPingInfo). x.from_node_id) complete.1 complete.0
  own ← local_endpoints complete.1 endpoints
  ok (
    (schedule, own),
    stamp clock (codes "Schedule start of first UDP ping client") (
        stamp clock (codes "Setup UDP ping servers") (
          stamp clock (codes "Remove previous UDP ping log files")
            (stamp clock (codes "Read UDP ping schedule") complete.1))),
  )

-- The whole constructor: nothing is set up unless the scheduler is enabled.
unfoldable pub construct :
    (ℤ → Bool)
    → List ℤ
    → (Bytes → File)
    → (Bytes → ℤ)
    → BasicSimulation
    → Call (Option (List UdpPingInfo × List ℤ))
unfolding set_up if_enabled
construct is_valid_endpoint endpoints file_in_run_dir clock s =
    if_enabled (codes "enable_udp_ping_scheduler")
      (set_up is_valid_endpoint endpoints file_in_run_dir clock) s

-- A client with its ends as IPv4 addresses and its type of service.
pub record UdpPingApp : Type 0 where
  pub from_address : ℕ
  pub to_address : ℕ
  pub ip_tos : ℕ
  pub additional_parameters : Bytes
  pub client : UdpPingClient

module _ (address_of : ℤ → ℕ) (generate_ip_tos : ℤ → ℕ) where
  -- What `StartNextUdpPing` installs. The client keeps its id as a uint32.
  unfoldable pub install : ℤ → UdpPingInfo → Result UdpPingApp
  install now_ns entry = ok (record {
    from_address = address_of entry.from_node_id;
    to_address = address_of entry.to_node_id;
    ip_tos = generate_ip_tos entry.udp_ping_id;
    additional_parameters = entry.additional_parameters;
    client = record {
      udp_ping_id = pos_part entry.udp_ping_id % 2 ^ 32;
      interval = pos_part entry.interval_ns;
      duration = pos_part entry.duration_ns;
      wait_afterwards = pos_part entry.wait_afterwards_ns;
      start_time = pos_part now_ns;
      sent = 0;
      send_request_timestamps = [];
      reply_timestamps = [];
      receive_reply_timestamps = [];
    };
  })

  unfoldable pub start_pings : List UdpPingInfo → Result (List UdpPingApp)
  unfolding install
  start_pings schedule = start_all (λ (x : UdpPingInfo). x.start_time_ns) install schedule

-- A line of udp_pings.csv.
pub record PingLine : Type 0 where
  pub udp_ping_id : ℤ
  pub seq : ℕ
  pub send_request_timestamp : ℤ
  pub reply_timestamp : ℤ
  pub receive_reply_timestamp : ℤ
  pub latency_to_there_ns : ℤ
  pub latency_from_there_ns : ℤ
  pub rtt_ns : ℤ
  pub reply_arrived : Bool

unfoldable pub ping_line : ℤ → ℕ → ℤ → ℤ → ℤ → PingLine
ping_line id j sent reply received =
    let reply_arrived = not (eqb_ℤ reply none_yet) in
    let there = (if reply_arrived then reply -ℤ sent else none_yet) in
    let back = (if reply_arrived then received -ℤ reply else none_yet) in
    record {
      udp_ping_id = id;
      seq = j;
      send_request_timestamp = sent;
      reply_timestamp = reply;
      receive_reply_timestamp = received;
      latency_to_there_ns = there;
      latency_from_there_ns = back;
      rtt_ns = (if reply_arrived then there +ℤ back else none_yet);
      reply_arrived = reply_arrived;
    }

-- The loop over the pings from `j` on, `count` of them.
unfoldable pub ping_lines : ℤ → UdpPingClient → ℕ → ℕ → Result (List PingLine)
unfolding ping_line
ping_lines id c j zero = ok []
ping_lines id c j (suc count) = do
  reply ← at_index c.reply_timestamps j
  sent ← at_index c.send_request_timestamps j
  received ← at_index c.receive_reply_timestamps j
  lines ← ping_lines id c (suc j) count
  ok (ping_line id j sent reply received ∷ lines)

pub record Statistics : Type 0 where
  pub total : ℕ
  pub sum_latency_to_there_ns : ℤ
  pub sum_latency_from_there_ns : ℤ
  pub rtts_ns : List ℤ

-- The statistics with one line more, if its reply arrived.
unfoldable pub add_line : PingLine → Statistics → Statistics
add_line l s =
    if l.reply_arrived
    then record {
      total = s.total + 1;
      sum_latency_to_there_ns = s.sum_latency_to_there_ns +ℤ l.latency_to_there_ns;
      sum_latency_from_there_ns = s.sum_latency_from_there_ns +ℤ l.latency_from_there_ns;
      rtts_ns = s.rtts_ns ++ l.rtt_ns ∷ [];
    }
    else s

unfoldable pub add_lines : List PingLine → Statistics → Statistics
unfolding add_line
add_lines [] s = s
add_lines (l ∷ ls) s = add_lines ls (add_line l s)

abbrev pub min_ℤ : ℤ → ℤ → ℤ
min_ℤ a b = if ltb_ℤ b a then b else a

abbrev pub max_ℤ : ℤ → ℤ → ℤ
max_ℤ a b = if ltb_ℤ a b then b else a

unfoldable pub min_rtt : ℤ → List ℤ → ℤ
min_rtt m [] = m
min_rtt m (r ∷ rs) = min_rtt (min_ℤ m r) rs

unfoldable pub max_rtt : ℤ → List ℤ → ℤ
max_rtt m [] = m
max_rtt m (r ∷ rs) = max_rtt (max_ℤ m r) rs

-- What the line of udp_pings.txt tells of a client: the least and the greatest round trip, -1 where
-- no reply arrived, and how many arrived.
pub record Summary : Type 0 where
  pub min_rtt_ns : ℤ
  pub max_rtt_ns : ℤ
  pub statistics : Statistics

unfoldable pub summary : List PingLine → Summary
unfolding add_lines min_rtt max_rtt
summary lines =
    let s = add_lines lines (record {
      total = 0;
      sum_latency_to_there_ns = pos 0;
      sum_latency_from_there_ns = pos 0;
      rtts_ns = [];
    }) in
    record {
      min_rtt_ns = (if is_nil s.rtts_ns then none_yet else min_rtt (pos 10000000000000) s.rtts_ns);
      max_rtt_ns = (if is_nil s.rtts_ns then none_yet else max_rtt none_yet s.rtts_ns);
      statistics = s;
    }

-- The results of a client, in both files.
unfoldable pub ping_results : ℤ → UdpPingClient → Result (List PingLine × Summary)
unfolding ping_lines summary
ping_results id c = do lines ← ping_lines id c 0 c.sent; ok (lines, summary lines)
