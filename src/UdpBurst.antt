-- ===== src/UdpBurst.antt =====
-- model/apps/udp-burst-client.cc and udp-burst-server.cc: packets at a steady rate, and their count.
-- Sockets are left out: what is sent is a result, what is received an argument. The gap between
-- packets, which the source computes with doubles, is an argument. Times are nanoseconds, the sums
-- below 2 ^ 64.
pub mod Sends
pub mod Counts
mod Tests
use basic_sim.Prelude.{
  ℕ, zero, suc, ◌+◌, ◌-◌, ◌%◌, ◌^◌, Bool, true, false, List, [], ◌∷◌, ◌++◌, if◌then◌else◌, ltb,
  Option, none, some,
}
use basic_sim.Prelude.Int.{ℤ, pos, negsuc, int_ord}
use basic_sim.Prelude.Results.{Result, ok, err, out_of_range, ◌>>=◌, map_result}
use basic_sim.Containers.SortedSet.{same}
use basic_sim.Containers.SortedMap.{find, insert}
use basic_sim.TcpFlow.{to_int64}
use basic_sim.UdpHeaders.{UdpBurstHeader, burst_serialized_size}

pub record UdpBurstClient : Type 0 where
  pub udp_burst_id : ℕ
  pub start_time : ℕ
  pub duration : ℕ
  pub max_udp_payload_size_byte : ℕ
  pub enable_detailed_logging : Bool
  pub sent : ℕ
  pub outgoing_lines : List (UdpBurstHeader × ℕ)

-- The attribute is a uint64, the field a uint32.
unfoldable pub create_client : ℕ → ℕ → ℕ → ℕ → Bool → UdpBurstClient
create_client udp_burst_id start_time duration max_udp_payload_size_byte enable_detailed_logging =
    record {
      udp_burst_id = udp_burst_id % 2 ^ 32;
      start_time = start_time;
      duration = duration;
      max_udp_payload_size_byte = max_udp_payload_size_byte;
      enable_detailed_logging = enable_detailed_logging;
      sent = 0;
      outgoing_lines = [];
    }

-- A packet: its header and how many bytes stand behind it.
pub record Packet : Type 0 where
  pub header : UdpBurstHeader
  pub payload_size : ℕ

unfoldable pub outgoing : UdpBurstClient → Packet
outgoing c = record {
  header = record { id = c.udp_burst_id; seq = c.sent };
  payload_size = (c.max_udp_payload_size_byte + 2 ^ 32 - burst_serialized_size) % 2 ^ 32;
}

-- The state behind a send, and the time of the next one, if there is one.
unfoldable pub send : ℕ → ℕ → UdpBurstClient → UdpBurstClient × Option ℕ
unfolding outgoing
send packet_gap now_ns c = (
  record c {
    sent = (c.sent + 1) % 2 ^ 32;
    outgoing_lines =
        if c.enable_detailed_logging
        then c.outgoing_lines ++ ((outgoing c).header, now_ns) ∷ []
        else c.outgoing_lines;
  },
  if ltb (now_ns + packet_gap) (c.start_time + c.duration)
      then some (now_ns + packet_gap)
      else none,
)

-- The packets of a client with their times, from a send at `now` on; `none` where the fuel ends.
unfoldable pub run_sends : ℕ → ℕ → ℕ → UdpBurstClient → Option (UdpBurstClient × List (Packet × ℕ))
unfolding send
run_sends zero packet_gap now c = none
run_sends (suc fuel) packet_gap now c =
    let r = send packet_gap now c in
    elim r.1 [
      | none ↦ some (r.0, (outgoing c, now) ∷ [])
      | some t ↦ elim (run_sends fuel packet_gap t r.0) [
        | none ↦ none
        | some q ↦ some (q.0, (outgoing c, now) ∷ q.1)
      ]
    ]

pub record UdpBurstServer : Type 0 where
  pub incoming_bursts : List ℤ
  pub incoming_bursts_received_counter : List (ℤ × ℕ)
  pub incoming_bursts_enable_precise_logging : List (ℤ × Bool)
  pub incoming_lines : List (UdpBurstHeader × ℕ)

abbrev pub new_server : UdpBurstServer
new_server = record {
  incoming_bursts = [];
  incoming_bursts_received_counter = [];
  incoming_bursts_enable_precise_logging = [];
  incoming_lines = [];
}

unfoldable pub register_incoming_burst : ℤ → Bool → UdpBurstServer → UdpBurstServer
register_incoming_burst udp_burst_id enable_precise_logging s = record s {
  incoming_bursts = s.incoming_bursts ++ udp_burst_id ∷ [];
  incoming_bursts_received_counter = insert udp_burst_id 0 s.incoming_bursts_received_counter;
  incoming_bursts_enable_precise_logging =
      insert udp_burst_id enable_precise_logging s.incoming_bursts_enable_precise_logging;
}

-- `map::at`.
abbrev pub at_id : {V : Type 0} → ℤ → List (ℤ × V) → Result V
at_id id m = elim (find id m) [ none ↦ err out_of_range | some v ↦ ok v ]

-- `map.at(id) += 1`.
unfoldable pub add_one : ℤ → List (ℤ × ℕ) → List (ℤ × ℕ)
add_one id [] = []
add_one id ((k, n) ∷ m) =
    let rest = add_one id m in if same id k then (k, (n + 1) % 2 ^ 64) ∷ m else (k, n) ∷ rest

-- One packet of the loop over those that came in. The id, a uint64, is a key as an int64.
unfoldable pub handle_read : ℕ → UdpBurstHeader → UdpBurstServer → Result UdpBurstServer
unfolding add_one
handle_read now_ns header s = do
  counter ← at_id (to_int64 header.id) s.incoming_bursts_received_counter
  precise ← at_id (to_int64 header.id) s.incoming_bursts_enable_precise_logging
  ok (record s {
    incoming_bursts_received_counter =
        add_one (to_int64 header.id) s.incoming_bursts_received_counter;
    incoming_lines =
        if precise then s.incoming_lines ++ (header, now_ns) ∷ [] else s.incoming_lines;
  })

unfoldable pub get_received_counter_of : ℤ → UdpBurstServer → Result ℕ
get_received_counter_of udp_burst_id s = at_id udp_burst_id s.incoming_bursts_received_counter

unfoldable pub get_incoming_bursts_information : UdpBurstServer → Result (List (ℤ × ℕ))
unfolding get_received_counter_of
get_incoming_bursts_information s =
    map_result (λ id. do n ← get_received_counter_of id s; ok (id, n)) s.incoming_bursts
