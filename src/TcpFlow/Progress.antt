-- ===== src/TcpFlow/Progress.antt =====
-- About the progress of a TCP flow, the count of acknowledged bytes (model/apps/tcp-flow-client.cc).
use basic_sim.Prelude.{
  ℕ, ◌-◌, ◌^◌, ◌≤◌, ◌<◌, ◌≡◌, inl, inr, Bool, true, false, ◌&&◌, none, some, arith, ◌==◌,
  if◌then◌else◌, Bool-cases, Option-cases,
}
use mathlib.Core.Path.{subst}
use basic_sim.Prelude.Int.{ℤ, pos, ltb_ℤ}
use basic_sim.Prelude.Results.{ok, abort, guard-eq-ok, >>=-elim, ok-injective}
use basic_sim.TcpFlow.{
  TcpSocket, TcpFlowClient, is_ended, deref, send_data, connection_succeeded, connection_failed,
  data_send, socket_closed_normal, socket_closed_error, get_acked_bytes,
}
use basic_sim.TcpFlow.SendData.{IsSocket, send_data-IsFilled}
use basic_sim.TcpFlow.Steps.{
  Step, network, start, succeed, fail, may_send, close, break, IsSound, deref-eq-ok, idle_send,
}
use basic_sim.TcpFlow.Outcome.{Step-IsSound, live}

module _ {S : Type 0} (tcp : TcpSocket S) where
  -- What the other side has acknowledged: what was put in and is no longer in the buffer.
  abbrev pub acked : TcpFlowClient S → ℕ
  acked c =
      if is_ended c
      then c.acked_bytes
      else elim c.socket [ none ↦ 0 | some s ↦ c.tot_bytes - tcp.tx_size s ]

module _ {S : Type 0} {tcp : TcpSocket S} {flow : ℕ} where
  pub get_acked_bytes-acked :
      (c : TcpFlowClient S) (a : ℤ)
      → IsSound tcp flow c
      → flow < 2 ^ 63
      → get_acked_bytes tcp c ≡ ok a
      → (a ≡ pos (acked tcp c)) × (acked tcp c ≤ flow)
  unfolding get_acked_bytes
  get_acked_bytes-acked c a i small h = elim (Bool-cases (is_ended c)) [
    | inl ended ↦ (
      ground (arith, ended, h, i.acked, i.sending.within, i.same_flow),
      ground (arith, ended, i.acked, i.sending.within, i.same_flow),
    )
    | inr open' ↦ elim (Option-cases c.socket) [
      | inl e ↦ ground (arith, open', e, h)
      | inr (s, e) ↦ (
        ground (arith, open', e, h, i.buffered s e, i.sending.within, i.same_flow),
        ground (arith, open', e, i.sending.within, i.same_flow),
      )
    ]
  ]

module _ {S : Type 0} {tcp : TcpSocket S} {flow : ℕ} (law : IsSocket tcp) where
  send_data-acked :
      (b : Bool) (c c' : TcpFlowClient S)
      → IsSound tcp flow c
      → send_data tcp (record c { connected = b }) ≡ ok c'
      → acked tcp c ≤ acked tcp c'
  send_data-acked b c c' i h = elim (Option-cases c.socket) [
    | inl e ↦
        let (same, unconnected) =
          idle_send tcp (record c { connected = b }) c' e i.sending.within h in
        subst (λ d. acked tcp c ≤ acked tcp d) same (omega arith)
    | inr (s, e) ↦
        let l = live law c s i e in
        let (s', tot, f, run) = send_data-IsFilled law s (record c { connected = b }) i.sending e in
        elim (Bool-cases (tot == c.flow_size_byte && b)) [
          | inl all ↦
              let same : record c {
                socket = some (tcp.close s');
                tot_bytes = tot;
                connected = false;
              }
                  ≡ c' =
                ok-injective (ground (arith, all, run, h)) in
              subst (λ d. acked tcp c ≤ acked tcp d) same
                (ground (arith, l, e, f.buffered, i.buffered s e, law.close_size s', f.grows))
          | inr not_all ↦
              let same : record c { socket = some s'; tot_bytes = tot; connected = b } ≡ c' =
                ok-injective (ground (arith, not_all, run, h)) in
              subst (λ d. acked tcp c ≤ acked tcp d) same
                (ground (arith, l, e, f.buffered, i.buffered s e, f.grows))
        ]
  ]

  Step-acked :
      {c c' : TcpFlowClient S}
      → IsSound tcp flow c
      → Step tcp c c'
      → c'.conn_failed ≡ false
      → acked tcp c ≤ acked tcp c'
  unfolding connection_succeeded connection_failed data_send socket_closed_normal
      socket_closed_error
  Step-acked {c} i (network s s' e size) ok' = ground (arith, live law c s i e, e, size)
  Step-acked {c} i (start now new empty e open' h) ok' = ground (arith, open', e)
  Step-acked {c} {c'} i (succeed h) ok' = send_data-acked true c c' i h
  Step-acked {c} i (fail now) ok' = cc
  Step-acked {c} {c'} i (may_send h) ok' = elim (Bool-cases c.connected) [
    | inl connected ↦ send_data-acked c.connected c c' i (ground (arith, connected, h))
    | inr unconnected ↦
        let same : c ≡ c' = ok-injective (ground (arith, unconnected, h)) in
        subst (λ d. acked tcp c ≤ acked tcp d) same (omega arith)
  ]
  Step-acked {c} {c'} i (close now h) ok' = >>=-elim (deref c.socket) _ h λ s e h1.
      let (empty, h2) = guard-eq-ok (tcp.tx_size s == 0) abort _ h1 in
      let e' = deref-eq-ok c.socket s e in
      subst (λ d. acked tcp c ≤ acked tcp d) (ok-injective h2)
        (ground (arith, live law c s i e', e', empty, i.sending.within, i.sending.flow_bound))
  Step-acked {c} {c'} i (break now h) ok' = >>=-elim (deref c.socket) _ h λ s e h1.
      let e' = deref-eq-ok c.socket s e in
      subst (λ d. acked tcp c ≤ acked tcp d) (ok-injective h1)
        (ground
          (arith, live law c s i e', e', i.buffered s e', i.sending.within, i.sending.flow_bound))

  -- What a client tells as acknowledged never falls, unless the connection fails, and is at most the
  -- size of the flow, which is an int64.
  pub Step-get_acked_bytes :
      {c c' : TcpFlowClient S} (a b : ℤ)
      → IsSound tcp flow c
      → Step tcp c c'
      → flow < 2 ^ 63
      → c'.conn_failed ≡ false
      → get_acked_bytes tcp c ≡ ok a
      → get_acked_bytes tcp c' ≡ ok b
      → (ltb_ℤ b a ≡ false) × (ltb_ℤ (pos flow) b ≡ false)
  Step-get_acked_bytes {c} {c'} a b i st small fine h k =
      let (ea, la) = get_acked_bytes-acked c a i small h in
      let (eb, lb) = get_acked_bytes-acked c' b (Step-IsSound law i st) small k in
      ground (arith, ea, eb, la, lb, Step-acked i st fine)
