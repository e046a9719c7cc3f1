-- ===== src/UdpPing.antt =====
-- model/apps/udp-ping-client.cc and udp-ping-server.cc: the handlers of a ping. The clock of the
-- simulator is an argument and sockets are left out: what is sent is a result of the handler, and
-- what is received is its argument. Times are nanoseconds below 2 ^ 63; no `Send` comes after the end
-- of the duration, so that the differences are the source's.
pub mod Timing
pub mod Replies
mod Tests
use basic_sim.Prelude.{
  ℕ, zero, suc, ◌+◌, ◌-◌, ◌%◌, ◌^◌, Bool, true, false, not, ◌&&◌, List, [], ◌∷◌, ◌++◌,
  if◌then◌else◌, ◌==◌, ltb, length, set, Option, none, some,
}
use basic_sim.Prelude.Int.{ℤ, pos, negsuc, eqb_ℤ}
use basic_sim.Prelude.Results.{Result, ok, err, abort, guard, ◌>>=◌, ◌>>◌}
use basic_sim.ExpUtil.Collections.{at_index}
use basic_sim.TcpFlow.{to_int64}
use basic_sim.UdpHeaders.{UdpPingHeader}

pub record UdpPingClient : Type 0 where
  pub udp_ping_id : ℕ
  pub interval : ℕ
  pub duration : ℕ
  pub wait_afterwards : ℕ
  pub start_time : ℕ
  pub sent : ℕ
  pub send_request_timestamps : List ℤ
  pub reply_timestamps : List ℤ
  pub receive_reply_timestamps : List ℤ

-- What is scheduled, with its time: the next `Send`, or `Finish`.
pub data Next : Type 0 where
  send_at : ℕ → Next
  finish_at : ℕ → Next

-- No time yet.
abbrev pub none_yet : ℤ
none_yet = negsuc 0

-- The header that goes out.
unfoldable pub outgoing : ℕ → UdpPingClient → UdpPingHeader
outgoing now_ns s = record { id = s.udp_ping_id; seq = s.sent; ts = now_ns }

unfoldable pub send : ℕ → UdpPingClient → UdpPingClient × Next
send now_ns s = (
  record s {
    send_request_timestamps = s.send_request_timestamps ++ pos now_ns ∷ [];
    reply_timestamps = s.reply_timestamps ++ none_yet ∷ [];
    receive_reply_timestamps = s.receive_reply_timestamps ++ none_yet ∷ [];
    sent = (s.sent + 1) % 2 ^ 32;
  },
  if ltb (now_ns + s.interval) (s.start_time + s.duration)
      then send_at (now_ns + s.interval)
      else finish_at (now_ns + (s.start_time + s.duration - now_ns + s.wait_afterwards)),
)

-- A reply to a request that has none yet. The timestamp of the header, a uint64, is kept as an int64.
unfoldable pub store_reply : ℕ → ℕ → ℕ → UdpPingClient → Result UdpPingClient
store_reply now_ns seq_no ts s = do
  guard (ltb seq_no (length s.send_request_timestamps)) abort
  reply ← at_index s.reply_timestamps seq_no
  receive_reply ← at_index s.receive_reply_timestamps seq_no
  guard (eqb_ℤ reply none_yet && eqb_ℤ receive_reply none_yet) abort
  ok (record s {
    reply_timestamps = set s.reply_timestamps seq_no (to_int64 ts);
    receive_reply_timestamps = set s.receive_reply_timestamps seq_no (pos now_ns);
  })

-- One packet of the loop over those that came in. The sequence number is cut to a uint32; a reply
-- to another client is ignored.
unfoldable pub handle_read : ℕ → UdpPingHeader → UdpPingClient → Result UdpPingClient
unfolding store_reply
handle_read now_ns h s =
    if h.id == s.udp_ping_id then store_reply now_ns (h.seq % 2 ^ 32) h.ts s else ok s

-- The answer of the server.
unfoldable pub answer : ℕ → UdpPingHeader → UdpPingHeader
answer now_ns h = record { id = h.id; seq = h.seq; ts = now_ns }

-- The sends of a client, from `now` on, and the time of `Finish`; `none` where the fuel ends.
unfoldable pub run_sends : ℕ → ℕ → UdpPingClient → Option (UdpPingClient × ℕ)
unfolding send
run_sends zero now s = none
run_sends (suc fuel) now s =
    let r = send now s in
    elim r.1 [ send_at t ↦ run_sends fuel t r.0 | finish_at t ↦ some (r.0, t) ]
