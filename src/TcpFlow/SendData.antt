-- ===== src/TcpFlow/SendData.antt =====
-- About the sending loop of the TCP flow client (model/apps/tcp-flow-client.cc).
use basic_sim.Prelude.{
  ℕ, zero, suc, ◌+◌, ◌-◌, ◌^◌, ◌≤◌, ◌<◌, ◌≡◌, ◌≢◌, ◌⊎◌, inl, inr, refl, ap, true, false, ◌&&◌,
  if◌then◌else◌, some, arith, ◌==◌, ltb, Bool-cases,
}
use basic_sim.Prelude.Int.{ℤ, pos, negsuc, pos_part}
use basic_sim.Prelude.Results.{ok}
use basic_sim.TcpFlow.{
  TcpSocket, TcpFlowClient, to_unsigned, to_send, after_send, send_loop, close_if_done, send_data,
}

-- What ns-3 documents of a socket: `Send` takes a part of what is offered into the buffer, or gives
-- -1, and the other operations leave it. The network only takes bytes out of the buffer.
pub record IsSocket {S : Type 0} (tcp : TcpSocket S) : Type 0 where
  pub send_part : (n : ℕ) (s : S) → pos_part (tcp.send n s).0 ≤ n
  pub send_refused : (n k : ℕ) (s : S) → (tcp.send n s).0 ≡ negsuc k → k ≡ 0
  pub send_size :
      (n : ℕ) (s : S) → tcp.tx_size (tcp.send n s).1 ≡ tcp.tx_size s + pos_part (tcp.send n s).0
  pub close_size : (s : S) → tcp.tx_size (tcp.close s) ≡ tcp.tx_size s
  pub bind_size : (s : S) → tcp.tx_size (tcp.bind s).1 ≡ tcp.tx_size s
  pub connect_size : (s : S) → tcp.tx_size (tcp.connect s).1 ≡ tcp.tx_size s
  pub shutdown_size : (s : S) → tcp.tx_size (tcp.shutdown_recv s) ≡ tcp.tx_size s

-- A step that is not the largest uint32, which -1 looks like, and a flow that no more was put in of
-- than its size.
pub record AreBounds (step flow tot : ℕ) : Type 0 where
  pub step_pos : 0 < step
  pub step_bound : step < 2 ^ 32 - 1
  pub flow_bound : flow < 2 ^ 64
  pub within : tot ≤ flow

abbrev pub IsSending : {S : Type 0} → TcpFlowClient S → Type 0
IsSending c = AreBounds c.send_step_size c.flow_size_byte c.tot_bytes

module _ {S : Type 0} (tcp : TcpSocket S) where
  -- The socket came out of an offer that it did not take whole.
  abbrev pub IsFull : S → Type 0
  IsFull s = (before : S) × (n : ℕ) × ((tcp.send n before).0 ≢ pos n) × (s ≡ (tcp.send n before).1)

  -- The bytes that were put in since are in the buffer, and nothing is left or the socket is full.
  pub record IsFilled (s : S) (c : TcpFlowClient S) (s' : S) (tot : ℕ) : Type 0 where
    pub grows : c.tot_bytes ≤ tot
    pub within : tot ≤ c.flow_size_byte
    pub buffered : tcp.tx_size s' + c.tot_bytes ≡ tcp.tx_size s + tot
    pub progress : (tot ≡ c.flow_size_byte) ⊎ IsFull s'

module _ {S : Type 0} {tcp : TcpSocket S} (law : IsSocket tcp) where
  offer_pos :
      (c : TcpFlowClient S)
      → IsSending c
      → c.tot_bytes < c.flow_size_byte
      → (0 < to_send c) × (to_send c < 2 ^ 32 - 1) × (c.tot_bytes + to_send c ≤ c.flow_size_byte)
  offer_pos c i h = (omega (arith, i.step_pos), omega (arith, i.step_bound), omega arith)

  after_send-tot :
      (s : S) (c : TcpFlowClient S)
      → IsSending c
      → c.tot_bytes < c.flow_size_byte
      → (after_send tcp s c).tot_bytes ≡ c.tot_bytes + pos_part (tcp.send (to_send c) s).0
  unfolding after_send
  after_send-tot s c i h =
      omega (arith, law.send_part (to_send c) s, (offer_pos c i h).2, i.flow_bound)

  taken_whole :
      (n : ℕ) (a : ℤ)
      → n < 2 ^ 32 - 1
      → ((k : ℕ) → a ≡ negsuc k → k ≡ 0)
      → (to_unsigned a == n) ≡ true
      → a ≡ pos n
  taken_whole n (pos m) h r e = ground arith
  taken_whole n (negsuc m) h r e = ground (arith, r m refl)

  not_whole : (n : ℕ) (a : ℤ) → (to_unsigned a == n) ≡ false → a ≢ pos n
  not_whole n a e h = ground arith

  -- Enough fuel: each round that goes on has put at least one byte in.
  send_loop-IsFilled :
      (fuel : ℕ) (s : S) (c : TcpFlowClient S)
      → IsSending c
      → c.socket ≡ some s
      → c.flow_size_byte - c.tot_bytes < fuel
      → (s' : S) × (tot : ℕ) × (send_loop tcp fuel s c
          ≡ ok (record c { socket = some s'; tot_bytes = tot }))
        × IsFilled tcp s c s' tot
  unfolding send_loop after_send
  send_loop-IsFilled zero s c i e enough = absurd (omega arith)
  send_loop-IsFilled (suc fuel) s c i e enough =
      elim (Bool-cases (ltb c.tot_bytes c.flow_size_byte)) [
        | inr done ↦ (
          s,
          c.tot_bytes,
          ground (arith, done, e),
          record {
            grows = omega arith;
            within = i.within;
            buffered = refl;
            progress = inl (ground (arith, done, i.within));
          },
        )
        | inl more ↦
            let a = (tcp.send (to_send c) s).0 in
            let s1 = (tcp.send (to_send c) s).1 in
            let c1 = after_send tcp s c in
            let o = offer_pos c i (ground (arith, more)) in
            let t = after_send-tot s c i (ground (arith, more)) in
            let p = law.send_part (to_send c) s in
            elim (Bool-cases (to_unsigned a == to_send c)) [
              | inr less ↦ (
                s1,
                c1.tot_bytes,
                ground (arith, more, less),
                record {
                  grows = omega (arith, t);
                  within = omega (arith, t, p, o.2);
                  buffered = omega (arith, t, law.send_size (to_send c) s);
                  progress = inr (s, to_send c, not_whole (to_send c) a less, refl);
                },
              )
              | inl all ↦
                  let w =
                    taken_whole (to_send c) a o.1 (λ k. law.send_refused (to_send c) k s) all in
                  let full : pos_part a ≡ to_send c = ap pos_part w in
                  let i1 : IsSending c1 = record {
                    step_pos = i.step_pos;
                    step_bound = i.step_bound;
                    flow_bound = i.flow_bound;
                    within = omega (arith, t, p, o.2);
                  } in
                  let (s', tot, run, f) =
                    send_loop-IsFilled fuel s1 c1 i1 refl (omega (arith, t, full, o.0)) in
                  (
                    s',
                    tot,
                    ground (arith, more, all, run),
                    record {
                      grows = omega (arith, t, f.grows);
                      within = f.within;
                      buffered = omega (arith, t, f.buffered, law.send_size (to_send c) s);
                      progress = f.progress;
                    },
                  )
            ]
      ]

  -- For a socket as ns-3 documents it and a step below the largest uint32: `SendData` ends. What it put
  -- in is in the buffer, and either all bytes of the flow are in, or the socket did not take the last
  -- offer whole. The socket is closed, and the client no longer connected, just when all is in.
  pub send_data-IsFilled :
      (s : S) (c : TcpFlowClient S)
      → IsSending c
      → c.socket ≡ some s
      → (s' : S) × (tot : ℕ) × IsFilled tcp s c s' tot
        × (send_data tcp c
            ≡ ok (
                if tot == c.flow_size_byte && c.connected
                then record c { socket = some (tcp.close s'); tot_bytes = tot; connected = false }
                else record c { socket = some s'; tot_bytes = tot }))
  unfolding send_data close_if_done
  send_data-IsFilled s c i e = elim (Bool-cases (ltb c.tot_bytes c.flow_size_byte)) [
    | inr done ↦ (
      s,
      c.tot_bytes,
      record {
        grows = omega arith;
        within = i.within;
        buffered = refl;
        progress = inl (ground (arith, done, i.within));
      },
      ground (arith, done, e),
    )
    | inl more ↦
        let (s', tot, run, f) =
          send_loop-IsFilled (suc (c.flow_size_byte - c.tot_bytes)) s c i e (omega arith) in
        (s', tot, f, ground (arith, more, e, run))
  ]
