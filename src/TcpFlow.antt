-- ===== src/TcpFlow.antt =====
-- model/apps/tcp-flow-client.cc: a flow of bytes over a TCP connection. The socket of ns-3 is a
-- parameter; its callbacks are calls of the handlers, with the socket as it is at that time, and the
-- time. A call through the null pointer of a released socket is an abort, as `Ptr` asserts.
pub mod SendData
pub mod Steps
pub mod Outcome
pub mod Progress
pub mod Logs
mod Server
mod Tests
use Prim.Native.Nat.{min}
use basic_sim.Prelude.{
  ℕ, zero, suc, ◌+◌, ◌-◌, ◌%◌, ◌^◌, Bool, true, false, not, ◌&&◌, ◌||◌, Option, none, some, List,
  [], ◌∷◌, if◌then◌else◌, ◌==◌, ltb,
}
use basic_sim.Prelude.Int.{ℤ, pos, negsuc, pos_part, eqb_ℤ}
use basic_sim.Prelude.Results.{
  Result, ok, err, runtime_error, abort, out_of_fuel, guard, ◌>>=◌, ◌>>◌,
}

-- The operations of ns-3's `TcpSocketBase` that the client calls. `send` tells how many bytes it took,
-- or -1; `tx_size` is the size of the transmission buffer.
pub record TcpSocket (S : Type 0) : Type 0 where
  pub bind : S → ℤ × S
  pub connect : S → ℤ × S
  pub shutdown_recv : S → S
  pub send : ℕ → S → ℤ × S
  pub close : S → S
  pub tx_size : S → ℕ

pub record TcpFlowClient (S : Type 0) : Type 0 where
  pub local_is_ipv4 : Bool
  pub remote_is_ipv4 : Bool
  pub send_step_size : ℕ
  pub flow_size_byte : ℕ
  pub socket : Option S
  pub connected : Bool
  pub tot_bytes : ℕ
  pub completion_time_ns : ℤ
  pub conn_failed : Bool
  pub closed_normally : Bool
  pub closed_by_error : Bool
  pub acked_bytes : ℕ
  pub is_completed : Bool

-- `(unsigned) actual`, of an int.
abbrev pub to_unsigned : ℤ → ℕ
to_unsigned (pos n) = n
to_unsigned (negsuc n) = 2 ^ 32 - 1 - n

-- A uint64 difference.
abbrev pub sub_64 : ℕ → ℕ → ℕ
sub_64 a b = (a + 2 ^ 64 - b) % 2 ^ 64

-- A uint64 as an int64.
abbrev pub to_int64 : ℕ → ℤ
to_int64 n = if ltb n (2 ^ 63) then pos n else negsuc (2 ^ 64 - 1 - n)

-- `m_socket`, which must not be null.
abbrev pub deref {ℓ} : {A : Type ℓ} → Option A → Result A
deref none = err abort
deref (some s) = ok s

module _ {S : Type 0} where
  -- The constructor, with the attributes.
  unfoldable pub create : Bool → Bool → ℕ → ℕ → TcpFlowClient S
  create local_is_ipv4 remote_is_ipv4 send_step_size flow_size_byte = record {
    local_is_ipv4 = local_is_ipv4;
    remote_is_ipv4 = remote_is_ipv4;
    send_step_size = send_step_size;
    flow_size_byte = flow_size_byte;
    socket = none;
    connected = false;
    tot_bytes = 0;
    completion_time_ns = negsuc 0;
    conn_failed = false;
    closed_normally = false;
    closed_by_error = false;
    acked_bytes = 0;
    is_completed = false;
  }

  -- What one round of the sending loop offers to the socket.
  abbrev pub to_send : TcpFlowClient S → ℕ
  to_send c = min c.send_step_size (c.flow_size_byte - c.tot_bytes)

  unfoldable pub connection_failed : ℕ → TcpFlowClient S → TcpFlowClient S
  connection_failed now c = record c {
    completion_time_ns = pos now;
    conn_failed = true;
    closed_by_error = false;
    closed_normally = false;
    acked_bytes = 0;
    is_completed = false;
    socket = none;
  }

  -- Whether the flow has ended in one of the three ways.
  abbrev pub is_ended : TcpFlowClient S → Bool
  is_ended c = c.conn_failed || (c.closed_normally || c.closed_by_error)

module _ {S : Type 0} (tcp : TcpSocket S) where
  -- What the socket took of an offer is counted; `actual` of -1 counts nothing.
  unfoldable pub after_send : S → TcpFlowClient S → TcpFlowClient S
  after_send s c = record c {
    socket = some (tcp.send (to_send c) s).1;
    tot_bytes = (c.tot_bytes + pos_part (tcp.send (to_send c) s).0) % 2 ^ 64;
  }

  -- The loop of `SendData`, which goes on while the socket takes all that is offered.
  unfoldable pub send_loop : ℕ → S → TcpFlowClient S → Result (TcpFlowClient S)
  unfolding after_send
  send_loop zero s c = err out_of_fuel
  send_loop (suc fuel) s c =
      let rest = send_loop fuel (tcp.send (to_send c) s).1 (after_send s c) in
      if ltb c.tot_bytes c.flow_size_byte
      then (if to_unsigned (tcp.send (to_send c) s).0 == to_send c
          then rest
          else ok (after_send s c))
      else ok c

  -- The socket is closed once all bytes are put into it; it goes on to send what it has buffered.
  unfoldable pub close_if_done : TcpFlowClient S → Result (TcpFlowClient S)
  close_if_done c =
      if c.tot_bytes == c.flow_size_byte && c.connected
      then (do s ← deref c.socket; ok (record c { socket = some (tcp.close s); connected = false }))
      else ok c

  -- The loop begins only with something to put in, and then needs the socket.
  unfoldable pub send_data : TcpFlowClient S → Result (TcpFlowClient S)
  unfolding send_loop close_if_done
  send_data c = do
    c' ←
        (if ltb c.tot_bytes c.flow_size_byte
          then (do s ← deref c.socket; send_loop (suc (c.flow_size_byte - c.tot_bytes)) s c)
          else ok c)
    close_if_done c'

  unfoldable pub connection_succeeded : TcpFlowClient S → Result (TcpFlowClient S)
  unfolding send_data
  connection_succeeded c = send_data (record c { connected = true })

  unfoldable pub data_send : TcpFlowClient S → Result (TcpFlowClient S)
  unfolding send_data
  data_send c = if c.connected then send_data c else ok c

  unfoldable pub socket_closed_normal : ℕ → TcpFlowClient S → Result (TcpFlowClient S)
  socket_closed_normal now c = do
    s ← deref c.socket
    guard (tcp.tx_size s == 0) abort
    let acked_bytes = sub_64 c.tot_bytes (tcp.tx_size s)
    ok (record c {
      completion_time_ns = pos now;
      conn_failed = false;
      closed_by_error = false;
      closed_normally = true;
      acked_bytes = acked_bytes;
      is_completed = acked_bytes == c.flow_size_byte;
      socket = none;
    })

  unfoldable pub socket_closed_error : ℕ → TcpFlowClient S → Result (TcpFlowClient S)
  socket_closed_error now c = do
    s ← deref c.socket
    ok (record c {
      completion_time_ns = pos now;
      conn_failed = false;
      closed_by_error = true;
      closed_normally = false;
      acked_bytes = sub_64 c.tot_bytes (tcp.tx_size s);
      is_completed = false;
      socket = none;
    })

  -- Create the socket and connect it, with the new socket that the generator gives.
  unfoldable pub open_socket : ℕ → S → TcpFlowClient S → Result (TcpFlowClient S × Bool)
  unfolding connection_failed
  open_socket now new c = do
    guard c.local_is_ipv4 abort
    guard c.remote_is_ipv4 abort
    guard (not (eqb_ℤ (tcp.bind new).0 (negsuc 0))) runtime_error
    let r = tcp.connect (tcp.bind new).1
    ok (
        if eqb_ℤ r.0 (negsuc 0)
        then (connection_failed now c, false)
        else (record c { socket = some (tcp.shutdown_recv r.1) }, true))

  -- The Boolean tells whether `StartApplication` goes on behind the connecting.
  unfoldable pub start_application : ℕ → S → TcpFlowClient S → Result (TcpFlowClient S)
  unfolding open_socket data_send
  start_application now new c = do
    r ← elim c.socket [ none ↦ open_socket now new c | some s ↦ ok (c, true) ]
    if r.1 then data_send r.0 else ok r.0

  unfoldable pub get_acked_bytes : TcpFlowClient S → Result ℤ
  get_acked_bytes c =
      if is_ended c
      then ok (to_int64 c.acked_bytes)
      else (do s ← deref c.socket; ok (to_int64 (sub_64 c.tot_bytes (tcp.tx_size s))))

  -- `StopApplication`.
  unfoldable pub stop_application : TcpFlowClient S → Result (TcpFlowClient S)
  stop_application c = err runtime_error
