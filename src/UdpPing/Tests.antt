-- ===== src/UdpPing/Tests.antt =====
-- A client with an interval of 10 for a duration of 25.
use basic_sim.Prelude.{suc, ◌+◌, ◌-◌, ◌/◌, ◌≡◌, refl, List, [], ◌∷◌, ◌++◌, arith, some}
use basic_sim.Prelude.Int.{pos, negsuc}
use basic_sim.Prelude.Results.{ok}
use basic_sim.UdpPing.{UdpPingClient, run_sends, send, handle_read}
use basic_sim.UdpPing.Timing.{times, run_sends_lem}
use basic_sim.UdpPing.Replies.{IsConsistent, Event, sends, receives, run, run-IsConsistent}

abbrev client : UdpPingClient
client = record {
  udp_ping_id = 3;
  interval = 10;
  duration = 25;
  wait_afterwards = 100;
  start_time = 7;
  sent = 0;
  send_request_timestamps = [];
  reply_timestamps = [];
  receive_reply_timestamps = [];
}

run_sends_lem_example :
    (s' : UdpPingClient) × (run_sends (suc 25) 7 client ≡ some (s', 7 + 25 + 100))
    × (s'.send_request_timestamps ≡ [] ++ times 7 10 (suc ((25 - 1) / 10)))
run_sends_lem_example = run_sends_lem client (omega arith)

client-IsConsistent : IsConsistent client
client-IsConsistent = record {
  counted = refl;
  reply_places = refl;
  receive_places = refl;
  paired = tt;
}

-- The reply to another client's ping is ignored.
abbrev events : List Event
events =
    sends 7
    ∷ sends 17
    ∷ receives 20 (record { id = 3; seq = 1; ts = 18 })
    ∷ receives 21 (record { id = 4; seq = 0; ts = 18 })
    ∷ []

abbrev answered : UdpPingClient
answered = record client {
  sent = 2;
  send_request_timestamps = pos 7 ∷ pos 17 ∷ [];
  reply_timestamps = negsuc 0 ∷ pos 18 ∷ [];
  receive_reply_timestamps = negsuc 0 ∷ pos 20 ∷ [];
}

run-events : run events client ≡ ok answered
unfolding run send handle_read
run-events = refl

run-IsConsistent_example : IsConsistent answered
run-IsConsistent_example =
    run-IsConsistent events client answered (tt, (tt, (omega arith, (omega arith, tt))))
      client-IsConsistent run-events
