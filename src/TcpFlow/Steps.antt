-- ===== src/TcpFlow/Steps.antt =====
-- The callbacks of a TCP flow client (model/apps/tcp-flow-client.cc) as steps, and what holds of its
-- states.
use basic_sim.Prelude.{
  ℕ, ◌-◌, ◌^◌, ◌≤◌, ◌<◌, ◌≡◌, refl, Bool, true, false, ◌&&◌, ◌||◌, not, Option, none, some, arith,
  ◌==◌,
}
use basic_sim.Prelude.Int.{negsuc, eqb_ℤ}
use basic_sim.Prelude.Results.{ok}
use basic_sim.TcpFlow.{
  TcpSocket, TcpFlowClient, create, is_ended, deref, send_data, connection_succeeded,
  connection_failed, data_send, socket_closed_normal, socket_closed_error, start_application,
}
use basic_sim.TcpFlow.SendData.{IsSending}

module _ {S : Type 0} (tcp : TcpSocket S) where
  -- One callback, or what the network does to the socket in between. ns-3 starts an application once.
  pub data Step (c : TcpFlowClient S) : TcpFlowClient S → Type 0 where
    network :
        (s s' : S)
        → c.socket ≡ some s
        → tcp.tx_size s' ≤ tcp.tx_size s
        → Step c (record c { socket = some s' })
    start :
        (now : ℕ) (new : S) {c' : TcpFlowClient S}
        → tcp.tx_size new ≡ 0
        → c.socket ≡ none
        → is_ended c ≡ false
        → start_application tcp now new c ≡ ok c'
        → Step c c'
    succeed : {c' : TcpFlowClient S} → connection_succeeded tcp c ≡ ok c' → Step c c'
    fail : (now : ℕ) → Step c (connection_failed now c)
    may_send : {c' : TcpFlowClient S} → data_send tcp c ≡ ok c' → Step c c'
    close : (now : ℕ) {c' : TcpFlowClient S} → socket_closed_normal tcp now c ≡ ok c' → Step c c'
    break : (now : ℕ) {c' : TcpFlowClient S} → socket_closed_error tcp now c ≡ ok c' → Step c c'

  pub data Reach (c : TcpFlowClient S) : TcpFlowClient S → Type 0 where
    here : Reach c c
    next : {c' c'' : TcpFlowClient S} → Reach c c' → Step c' c'' → Reach c c''

  -- The bytes in the buffer are some that were put in; nothing is left to put in once the client is no
  -- longer connected for that reason; a flow has one end, at a time that is known just then, and lets
  -- the socket go with it; it is completed just if it closed normally with every byte acknowledged.
  pub record IsSound (flow : ℕ) (c : TcpFlowClient S) : Type 0 where
    pub same_flow : c.flow_size_byte ≡ flow
    pub sending : IsSending c
    pub buffered : (s : S) → c.socket ≡ some s → tcp.tx_size s ≤ c.tot_bytes
    pub more : c.connected ≡ true → c.tot_bytes < c.flow_size_byte
    pub released : is_ended c ≡ true → c.socket ≡ none
    pub timed : eqb_ℤ c.completion_time_ns (negsuc 0) ≡ not (is_ended c)
    pub one_end : (c.conn_failed && (c.closed_normally || c.closed_by_error)) ≡ false
    pub one_close : (c.closed_normally && c.closed_by_error) ≡ false
    pub acked : c.acked_bytes ≤ c.tot_bytes
    pub acked_all : c.closed_normally ≡ true → c.acked_bytes ≡ c.tot_bytes
    pub completed : c.is_completed ≡ (c.closed_normally && c.acked_bytes == c.flow_size_byte)

module _ {S : Type 0} where
  pub deref-eq-ok : (o : Option S) (s : S) → deref o ≡ ok s → o ≡ some s
  deref-eq-ok none s h = cc
  deref-eq-ok (some s1) s h = cc

  -- Without a socket there is nothing to put in, and nothing to close.
  pub idle_send :
      (tcp : TcpSocket S) (c c' : TcpFlowClient S)
      → c.socket ≡ none
      → c.tot_bytes ≤ c.flow_size_byte
      → send_data tcp c ≡ ok c'
      → (c ≡ c') × (c.connected ≡ false)
  unfolding send_data
  idle_send tcp c c' e w h = ground (arith, e)

module _ {S : Type 0} (tcp : TcpSocket S) where
  pub create-IsSound :
      (l r : Bool) (step flow : ℕ)
      → 0 < step
      → step < 2 ^ 32 - 1
      → flow < 2 ^ 64
      → IsSound tcp flow (create l r step flow)
  unfolding create
  create-IsSound l r step flow h k m = record {
    same_flow = refl;
    sending = record { step_pos = h; step_bound = k; flow_bound = m; within = omega arith };
    buffered = λ s e. cc;
    more = λ e. cc;
    released = λ e. refl;
    timed = refl;
    one_end = refl;
    one_close = refl;
    acked = omega arith;
    acked_all = λ e. cc;
    completed = refl;
  }
