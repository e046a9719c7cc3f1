-- ===== src/TcpFlow/Server.antt =====
-- model/apps/tcp-flow-server.cc: the sockets of accepted connections and the bytes that came in. A
-- socket is its identity, a number; the packets that `RecvFrom` gives before its null are an argument,
-- by their sizes. The listening socket of ns-3 is left out.
use basic_sim.Prelude.{
  ℕ, ◌+◌, ◌≡◌, ap, ◌%◌, ◌^◌, Bool, true, false, List, [], ◌∷◌, ◌++◌, if◌then◌else◌, ◌==◌, arith,
  Bool-cases, inl, inr,
}

pub record TcpFlowServer : Type 0 where
  pub socket_list : List ℕ
  pub total_rx : ℕ

abbrev pub new_server : TcpFlowServer
new_server = record { socket_list = []; total_rx = 0 }

unfoldable pub handle_accept : ℕ → TcpFlowServer → TcpFlowServer
handle_accept socket s = record s { socket_list = s.socket_list ++ socket ∷ [] }

-- A packet of no bytes ends the reading.
unfoldable pub drain : List ℕ → ℕ → ℕ
drain [] total_rx = total_rx
drain (size ∷ sizes) total_rx =
    let rest = drain sizes ((total_rx + size) % 2 ^ 64) in if size == 0 then total_rx else rest

unfoldable pub handle_read : List ℕ → TcpFlowServer → TcpFlowServer
unfolding drain
handle_read sizes s = record s { total_rx = drain sizes s.total_rx }

-- Take out the first entry of a socket, if there is one.
unfoldable pub erase_first : ℕ → List ℕ → List ℕ
erase_first socket [] = []
erase_first socket (it ∷ list) =
    let rest = erase_first socket list in if it == socket then list else it ∷ rest

-- Called by `HandlePeerClose` and by `HandlePeerError`.
unfoldable pub clean_up : ℕ → TcpFlowServer → TcpFlowServer
unfolding erase_first
clean_up socket s = record s { socket_list = erase_first socket s.socket_list }

-- Whether a socket is not among those of a list.
abbrev lacks : ℕ → List ℕ → Bool
lacks socket [] = true
lacks socket (it ∷ list) = if it == socket then false else lacks socket list

erase_first-snoc :
    (socket : ℕ) (list : List ℕ)
    → lacks socket list ≡ true
    → erase_first socket (list ++ socket ∷ []) ≡ list
unfolding erase_first
erase_first-snoc socket [] h = ground arith
erase_first-snoc socket (it ∷ list) h = elim (Bool-cases (it == socket)) [
  | inl same ↦ ground (arith, same, h)
  | inr other ↦ ground (arith, other, h, erase_first-snoc socket list (ground (arith, other, h)))
]

-- A new connection that is accepted and ends leaves the server as it was.
clean_up-handle_accept :
    (socket : ℕ) (s : TcpFlowServer)
    → lacks socket s.socket_list ≡ true
    → clean_up socket (handle_accept socket s) ≡ s
unfolding clean_up handle_accept
clean_up-handle_accept socket s h =
    ap (λ list. record s { socket_list = list }) (erase_first-snoc socket s.socket_list h)
