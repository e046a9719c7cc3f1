-- ===== src/TcpFlow/Outcome.antt =====
-- About how a TCP flow ends (model/apps/tcp-flow-client.cc): the states that the callbacks of the
-- socket lead to, in whichever order they come.
use basic_sim.Prelude.{
  ℕ, ◌≤◌, ◌<◌, ◌≡◌, inl, inr, refl, Bool, true, false, ◌&&◌, not, none, some, arith, ◌==◌,
  if◌then◌else◌, Bool-cases, Option-cases,
}
use mathlib.Core.Path.{subst}
use basic_sim.Prelude.Int.{negsuc, eqb_ℤ}
use basic_sim.Prelude.Results.{ok, abort, runtime_error, guard-eq-ok, >>=-elim, ok-injective}
use basic_sim.TcpFlow.{
  TcpSocket, TcpFlowClient, is_ended, deref, send_data, connection_succeeded, connection_failed,
  data_send, socket_closed_normal, socket_closed_error, open_socket, start_application,
}
use basic_sim.TcpFlow.SendData.{IsSocket, send_data-IsFilled}
use basic_sim.TcpFlow.Steps.{
  Step, network, start, succeed, fail, may_send, close, break, Reach, here, next, IsSound,
  deref-eq-ok, idle_send,
}

module _ {S : Type 0} {tcp : TcpSocket S} {flow : ℕ} (law : IsSocket tcp) where
  connection_failed-IsSound :
      (now : ℕ) (c : TcpFlowClient S)
      → IsSound tcp flow c
      → IsSound tcp flow (connection_failed now c)
  unfolding connection_failed
  connection_failed-IsSound now c i = record {
    same_flow = i.same_flow;
    sending = i.sending;
    buffered = λ s e. cc;
    more = i.more;
    released = λ e. refl;
    timed = ground arith;
    one_end = refl;
    one_close = refl;
    acked = omega arith;
    acked_all = λ e. cc;
    completed = refl;
  }

  pub live :
      (c : TcpFlowClient S) (s : S) → IsSound tcp flow c → c.socket ≡ some s → is_ended c ≡ false
  live c s i e = elim (Bool-cases (is_ended c)) [
    | inl ended ↦ cc (i.released ended)
    | inr open' ↦ open'
  ]

  -- A live client that has put more into its socket.
  filled-IsSound :
      (c : TcpFlowClient S) (s s' : S) (tot : ℕ) (b : Bool)
      → IsSound tcp flow c
      → c.socket ≡ some s
      → c.tot_bytes ≤ tot
      → tot ≤ c.flow_size_byte
      → tcp.tx_size s' ≤ tot
      → (b ≡ true → tot < c.flow_size_byte)
      → IsSound tcp flow (record c { socket = some s'; tot_bytes = tot; connected = b })
  filled-IsSound c s s' tot b i e grows within size more =
      let l = live c s i e in
      record {
        same_flow = i.same_flow;
        sending = record {
          step_pos = i.sending.step_pos;
          step_bound = i.sending.step_bound;
          flow_bound = i.sending.flow_bound;
          within = within;
        };
        buffered = λ s1 e1. subst (λ s2. tcp.tx_size s2 ≤ tot) (cc e1) size;
        more = more;
        released = λ ended. cc (l, ended);
        timed = i.timed;
        one_end = i.one_end;
        one_close = i.one_close;
        acked = omega (arith, i.acked);
        acked_all = λ closed. ground (arith, l, closed);
        completed = i.completed;
      }

  send_data-IsSound :
      (b : Bool) (c c' : TcpFlowClient S)
      → IsSound tcp flow c
      → send_data tcp (record c { connected = b }) ≡ ok c'
      → IsSound tcp flow c'
  unfolding send_data
  send_data-IsSound b c c' i h = elim (Option-cases c.socket) [
    | inl e ↦
        let (same, unconnected) =
          idle_send tcp (record c { connected = b }) c' e i.sending.within h in
        subst (IsSound tcp flow) same (record {
          same_flow = i.same_flow;
          sending = i.sending;
          buffered = i.buffered;
          more = λ k. cc (k, unconnected);
          released = i.released;
          timed = i.timed;
          one_end = i.one_end;
          one_close = i.one_close;
          acked = i.acked;
          acked_all = i.acked_all;
          completed = i.completed;
        })
    | inr (s, e) ↦
        let (s', tot, f, run) = send_data-IsFilled law s (record c { connected = b }) i.sending e in
        elim (Bool-cases (tot == c.flow_size_byte && b)) [
          | inl all ↦ subst (IsSound tcp flow) (ok-injective (ground (arith, all, run, h))) (
              filled-IsSound c s (tcp.close s') tot false i e f.grows f.within
                (omega (arith, law.close_size s', f.buffered, i.buffered s e)) (λ k. cc))
          | inr not_all ↦
              subst (IsSound tcp flow) (ok-injective (ground (arith, not_all, run, h))) (
                filled-IsSound c s s' tot b i e f.grows f.within
                  (omega (arith, f.buffered, i.buffered s e))
                  (λ k. ground (arith, not_all, f.within)))
        ]
  ]

  close-IsSound :
      (now : ℕ) (c c' : TcpFlowClient S)
      → IsSound tcp flow c
      → socket_closed_normal tcp now c ≡ ok c'
      → IsSound tcp flow c'
  unfolding socket_closed_normal
  close-IsSound now c c' i h = >>=-elim (deref c.socket) _ h λ s e h1.
      let (empty, h2) = guard-eq-ok (tcp.tx_size s == 0) abort _ h1 in
      subst (IsSound tcp flow) (ok-injective h2) (record {
        same_flow = i.same_flow;
        sending = i.sending;
        buffered = λ s1 e1. cc;
        more = i.more;
        released = λ ended. refl;
        timed = ground arith;
        one_end = refl;
        one_close = refl;
        acked = ground (arith, empty, i.sending.within, i.sending.flow_bound);
        acked_all = λ closed. ground (arith, empty, i.sending.within, i.sending.flow_bound);
        completed = refl;
      })

  break-IsSound :
      (now : ℕ) (c c' : TcpFlowClient S)
      → IsSound tcp flow c
      → socket_closed_error tcp now c ≡ ok c'
      → IsSound tcp flow c'
  unfolding socket_closed_error
  break-IsSound now c c' i h = >>=-elim (deref c.socket) _ h λ s e h1.
      subst (IsSound tcp flow) (ok-injective h1) (record {
        same_flow = i.same_flow;
        sending = i.sending;
        buffered = λ s1 e1. cc;
        more = i.more;
        released = λ ended. refl;
        timed = ground arith;
        one_end = refl;
        one_close = refl;
        acked = omega (
          arith,
          i.buffered s (deref-eq-ok c.socket s e),
          i.sending.within,
          i.sending.flow_bound,
        );
        acked_all = λ closed. cc;
        completed = refl;
      })

  data_send-IsSound :
      (c c' : TcpFlowClient S) → IsSound tcp flow c → data_send tcp c ≡ ok c' → IsSound tcp flow c'
  unfolding data_send
  data_send-IsSound c c' i h = elim (Bool-cases c.connected) [
    | inl connected ↦ send_data-IsSound c.connected c c' i (ground (arith, connected, h))
    | inr unconnected ↦ subst (IsSound tcp flow) (ok-injective (ground (arith, unconnected, h))) i
  ]

  open_socket-IsSound :
      (now : ℕ) (new : S) (c : TcpFlowClient S) (r : TcpFlowClient S × Bool)
      → tcp.tx_size new ≡ 0
      → is_ended c ≡ false
      → IsSound tcp flow c
      → open_socket tcp now new c ≡ ok r
      → IsSound tcp flow r.0
  unfolding open_socket
  open_socket-IsSound now new c r empty open' i h =
      let s' = tcp.shutdown_recv (tcp.connect (tcp.bind new).1).1 in
      let (b1, h1) = guard-eq-ok c.local_is_ipv4 abort _ h in
      let (b2, h2) = guard-eq-ok c.remote_is_ipv4 abort _ h1 in
      let (b3, h3) = guard-eq-ok (not (eqb_ℤ (tcp.bind new).0 (negsuc 0))) runtime_error _ h2 in
      elim (Bool-cases (eqb_ℤ (tcp.connect (tcp.bind new).1).0 (negsuc 0))) [
        | inl failed ↦
            let same : (connection_failed now c, false) ≡ r =
              ok-injective (ground (arith, failed, h3)) in
            subst (λ (q : TcpFlowClient S × Bool). IsSound tcp flow q.0) same
              (connection_failed-IsSound now c i)
        | inr done ↦
            let same : (record c { socket = some s' }, true) ≡ r =
              ok-injective (ground (arith, done, h3)) in
            subst (λ (q : TcpFlowClient S × Bool). IsSound tcp flow q.0) same
              (record {
                same_flow = i.same_flow;
                sending = i.sending;
                buffered = λ s1 e1.
                    let e2 : s' ≡ s1 = cc e1 in
                    subst (λ s2. tcp.tx_size s2 ≤ c.tot_bytes) e2
                      (omega (
                        arith,
                        law.shutdown_size (tcp.connect (tcp.bind new).1).1,
                        law.connect_size (tcp.bind new).1,
                        law.bind_size new,
                      ));
                more = i.more;
                released = λ ended. cc (open', ended);
                timed = i.timed;
                one_end = i.one_end;
                one_close = i.one_close;
                acked = i.acked;
                acked_all = i.acked_all;
                completed = i.completed;
              })
      ]

  start_application-IsSound :
      (now : ℕ) (new : S) (c c' : TcpFlowClient S)
      → tcp.tx_size new ≡ 0
      → c.socket ≡ none
      → is_ended c ≡ false
      → IsSound tcp flow c
      → start_application tcp now new c ≡ ok c'
      → IsSound tcp flow c'
  unfolding start_application
  start_application-IsSound now new c c' empty e open' i h =
      >>=-elim (open_socket tcp now new c) (λ r. if r.1 then data_send tcp r.0 else ok r.0) {b = c'}
        (ground (arith, e, h))
        λ r h0 h1.
          let j = open_socket-IsSound now new c r empty open' i h0 in
          elim (Bool-cases r.1) [
            | inl goes_on ↦ data_send-IsSound r.0 c' j (ground (arith, goes_on, h1))
            | inr ends ↦ subst (IsSound tcp flow) (ok-injective (ground (arith, ends, h1))) j
          ]

  pub Step-IsSound :
      {c c' : TcpFlowClient S} → IsSound tcp flow c → Step tcp c c' → IsSound tcp flow c'
  unfolding connection_succeeded
  Step-IsSound {c} i (network s s' e size) =
      filled-IsSound c s s' c.tot_bytes c.connected i e (omega arith) i.sending.within
        (omega (arith, i.buffered s e)) i.more
  Step-IsSound {c} {c'} i (start now new empty e open' h) =
      start_application-IsSound now new c c' empty e open' i h
  Step-IsSound {c} {c'} i (succeed h) = send_data-IsSound true c c' i h
  Step-IsSound {c} i (fail now) = connection_failed-IsSound now c i
  Step-IsSound {c} {c'} i (may_send h) = data_send-IsSound c c' i h
  Step-IsSound {c} {c'} i (close now h) = close-IsSound now c c' i h
  Step-IsSound {c} {c'} i (break now h) = break-IsSound now c c' i h

  -- From a client for which this holds, as it does for a new one, whatever the network does and whichever
  -- callbacks come in whichever order: a flow has at most one end, at a time that is known just then, and
  -- lets its socket go with it; no more is acknowledged than put in, nor put in than the flow has; while
  -- it is connected something is left; it is completed just if it closed normally with all its bytes
  -- acknowledged.
  pub Reach-IsSound :
      {c c' : TcpFlowClient S} → IsSound tcp flow c → Reach tcp c c' → IsSound tcp flow c'
  Reach-IsSound i here = i
  Reach-IsSound i (next r st) = Step-IsSound (Reach-IsSound i r) st
