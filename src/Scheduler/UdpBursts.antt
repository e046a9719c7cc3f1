-- ===== src/Scheduler/UdpBursts.antt =====
-- helper/apps/udp-burst-scheduler.cc: the burst clients and servers that are installed, the bursts
-- that each server registers, and the lines of the results. The rates, which are doubles, are left
-- out; the durations and counts that they are made of are here.
pub mod Files
pub mod Lines
pub mod Hosts
pub mod Incoming
use basic_sim.Prelude.{
  ℕ, Option, ◌*◌, ◌%◌, ◌^◌, Bool, true, false, not, List, [], ◌∷◌, ◌++◌, length, map, if◌then◌else◌,
}
use basic_sim.Prelude.Int.{ℤ, pos, ltb_ℤ, eqb_ℤ, ◌+ℤ◌, ◌-ℤ◌, pos_part, int_ord}
use basic_sim.Prelude.Text.{Bytes, codes}
use basic_sim.Prelude.Results.{Result, ok, ◌>>=◌, map_result}
use basic_sim.Containers.SortedSet.{member}
use basic_sim.ExpUtil.Config.{File}
use basic_sim.ExpUtil.Numbers.{Doubles}
use basic_sim.BasicSimulation.{BasicSimulation, Call, stamp}
use basic_sim.UdpBurst.{
  UdpBurstClient, UdpBurstServer, create_client, new_server, register_incoming_burst,
  get_received_counter_of,
}
use basic_sim.Schedule.UdpBurst.{UdpBurstInfo, udp_bursts}
use basic_sim.Scheduler.{
  if_enabled, ask_schedule, ask_logging_ids, filter_schedule, local_endpoints, start_all,
}

module _ {D : Type 0} where
  -- The bursts of the schedule that go to an endpoint.
  unfoldable pub bursts_to : ℤ → List (UdpBurstInfo D) → List (UdpBurstInfo D)
  bursts_to endpoint [] = []
  bursts_to endpoint (entry ∷ entries) =
      let rest = bursts_to endpoint entries in
      if eqb_ℤ entry.to_node_id endpoint then entry ∷ rest else rest

  -- The server with its incoming bursts, which are logged if their ids are among `ids`.
  unfoldable pub register_bursts : List ℤ → List (UdpBurstInfo D) → UdpBurstServer → UdpBurstServer
  unfolding register_incoming_burst
  register_bursts ids [] s = s
  register_bursts ids (entry ∷ entries) s =
      register_bursts ids entries
        (register_incoming_burst entry.udp_burst_id (member entry.udp_burst_id ids) s)

  unfoldable pub server_at : List ℤ → List (UdpBurstInfo D) → ℤ → UdpBurstServer
  unfolding bursts_to register_bursts
  server_at ids complete_schedule endpoint =
      register_bursts ids (bursts_to endpoint complete_schedule) new_server

-- The state of an enabled scheduler: with the endpoints of this system and their servers.
pub record UdpBurstScheduler (D : Type 0) : Type 0 where
  pub schedule : List (UdpBurstInfo D)
  pub enable_logging_for_udp_burst_ids : List ℤ
  pub servers : List (ℤ × UdpBurstServer)

unfoldable pub set_up :
    (d : Doubles)
    → (ℤ → Bool)
    → List ℤ
    → (Bytes → File)
    → (Bytes → ℤ)
    → BasicSimulation
    → Call (UdpBurstScheduler d.Double)
unfolding ask_schedule ask_logging_ids filter_schedule local_endpoints server_at stamp
set_up d is_valid_endpoint endpoints file_in_run_dir clock s = do
  complete ←
      ask_schedule (udp_bursts d is_valid_endpoint s.simulation_end_time_ns) file_in_run_dir
        (codes "udp_burst_schedule_filename") s
  ids ←
      ask_logging_ids (codes "udp_burst_enable_logging_for_udp_burst_ids") (length complete.0)
        complete.1
  own ← local_endpoints ids.1 endpoints
  schedule ← filter_schedule (λ (x : UdpBurstInfo d.Double). x.from_node_id) ids.1 complete.0
  ok (
    record {
      schedule = schedule;
      enable_logging_for_udp_burst_ids = ids.0;
      servers = map (λ endpoint. (endpoint, server_at ids.0 complete.0 endpoint)) own;
    },
    stamp clock (codes "Schedule start of first UDP burst client") (
        stamp clock (codes "Filter UDP burst schedule for this system") (
          stamp clock (codes "Setup UDP burst servers") (
            stamp clock (codes "Remove previous UDP burst log files")
              (stamp clock (codes "Read UDP burst schedule") ids.1)))),
  )

-- The whole constructor: nothing is set up unless the scheduler is enabled.
unfoldable pub construct :
    (d : Doubles)
    → (ℤ → Bool)
    → List ℤ
    → (Bytes → File)
    → (Bytes → ℤ)
    → BasicSimulation
    → Call (Option (UdpBurstScheduler d.Double))
unfolding set_up if_enabled
construct d is_valid_endpoint endpoints file_in_run_dir clock s =
    if_enabled (codes "enable_udp_burst_scheduler")
      (set_up d is_valid_endpoint endpoints file_in_run_dir clock) s

-- A client with its ends as IPv4 addresses, its type of service and its rate.
pub record UdpBurstApp (D : Type 0) : Type 0 where
  pub from_address : ℕ
  pub to_address : ℕ
  pub ip_tos : ℕ
  pub target_rate_megabit_per_s : D
  pub additional_parameters : Bytes
  pub client : UdpBurstClient

module _ {D : Type 0} (address_of : ℤ → ℕ) (generate_ip_tos : ℤ → ℕ) where
  -- What `StartNextUdpBurst` installs; the payload size is left at its default.
  unfoldable pub install : UdpBurstScheduler D → ℤ → UdpBurstInfo D → Result (UdpBurstApp D)
  install scheduler now_ns entry = ok (record {
    from_address = address_of entry.from_node_id;
    to_address = address_of entry.to_node_id;
    ip_tos = generate_ip_tos entry.udp_burst_id;
    target_rate_megabit_per_s = entry.target_rate_megabit_per_s;
    additional_parameters = entry.additional_parameters;
    client =
        create_client (pos_part entry.udp_burst_id) (pos_part now_ns) (pos_part entry.duration_ns)
          1472 (member entry.udp_burst_id scheduler.enable_logging_for_udp_burst_ids);
  })

  unfoldable pub start_bursts : UdpBurstScheduler D → Result (List (UdpBurstApp D))
  unfolding install
  start_bursts scheduler =
      start_all (λ (x : UdpBurstInfo D). x.start_time_ns) (install scheduler) scheduler.schedule

-- A line of udp_bursts_outgoing.csv or udp_bursts_incoming.csv, without the rates, and the duration
-- that the rates are taken over.
pub record BurstLine : Type 0 where
  pub udp_burst_id : ℤ
  pub from_node_id : ℤ
  pub to_node_id : ℤ
  pub start_time_ns : ℤ
  pub duration_ns : ℤ
  pub effective_duration_ns : ℤ
  pub packets : ℕ
  pub bytes_incl_headers : ℕ
  pub bytes_payload : ℕ
  pub metadata : Bytes

module _ {D : Type 0} (simulation_end_time_ns : ℤ)
    (complete_packet_size max_udp_payload_size : ℕ) where
  -- The line of a burst with a count of packets, a uint64.
  unfoldable pub burst_line : UdpBurstInfo D → ℕ → BurstLine
  burst_line info counter = record {
    udp_burst_id = info.udp_burst_id;
    from_node_id = info.from_node_id;
    to_node_id = info.to_node_id;
    start_time_ns = info.start_time_ns;
    duration_ns = info.duration_ns;
    effective_duration_ns =
        if not (ltb_ℤ (info.start_time_ns +ℤ info.duration_ns) simulation_end_time_ns)
        then simulation_end_time_ns -ℤ info.start_time_ns
        else info.duration_ns;
    packets = counter;
    bytes_incl_headers = counter * complete_packet_size % 2 ^ 64;
    bytes_payload = counter * max_udp_payload_size % 2 ^ 64;
    metadata = info.metadata;
  }

  unfoldable pub outgoing_line : UdpBurstInfo D → UdpBurstClient → BurstLine
  unfolding burst_line
  outgoing_line info client = burst_line info client.sent

  unfoldable pub incoming_line : UdpBurstInfo D → UdpBurstServer → Result BurstLine
  unfolding burst_line get_received_counter_of
  incoming_line info server = do
    received_counter ← get_received_counter_of info.udp_burst_id server
    ok (burst_line info received_counter)
