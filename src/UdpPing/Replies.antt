-- ===== src/UdpPing/Replies.antt =====
-- About the timestamps a client keeps and the replies it gets (model/apps/udp-ping-client.cc).
use basic_sim.Prelude.{
  ℕ, zero, suc, ◌%◌, ◌^◌, ◌≡◌, refl, ◌∙◌, ◌&&◌, List, [], ◌∷◌, ◌++◌, arith, ◌==◌, ltb, length,
  length-append, set, length-set, Bool-cases, inl, inr, All, false, ◌<◌, ◌-◌,
}
use mathlib.Core.Path.{subst}
use basic_sim.Prelude.Int.{ℤ, pos, eqb_ℤ}
use basic_sim.Prelude.Results.{Result, ok, abort, ◌>>=◌, >>=-elim, guard-eq-ok, ok-injective}
use basic_sim.ExpUtil.Collections.{at_index}
use basic_sim.TcpFlow.{to_int64}
use basic_sim.UdpHeaders.{UdpPingHeader}
use basic_sim.UdpPing.{UdpPingClient, none_yet, send, store_reply, handle_read}

-- Both times of a reply are known, or neither is.
abbrev pub ArePaired : List ℤ → List ℤ → Type 0
ArePaired [] [] = Unit
ArePaired [] (b ∷ bs) = ⊥
ArePaired (a ∷ as') [] = ⊥
ArePaired (a ∷ as') (b ∷ bs) = (eqb_ℤ a none_yet ≡ eqb_ℤ b none_yet) × ArePaired as' bs

ArePaired-snoc :
    (xs ys : List ℤ) → ArePaired xs ys → ArePaired (xs ++ none_yet ∷ []) (ys ++ none_yet ∷ [])
ArePaired-snoc [] [] p = (refl, tt)
ArePaired-snoc [] (y ∷ ys) p = absurd p
ArePaired-snoc (x ∷ xs) [] p = absurd p
ArePaired-snoc (x ∷ xs) (y ∷ ys) p = (p.0, ArePaired-snoc xs ys p.1)

ArePaired-set :
    (xs ys : List ℤ) (i n : ℕ) (a : ℤ)
    → eqb_ℤ a none_yet ≡ false
    → ArePaired xs ys
    → ArePaired (set xs i a) (set ys i (pos n))
ArePaired-set [] [] i n a k p = tt
ArePaired-set [] (y ∷ ys) i n a k p = absurd p
ArePaired-set (x ∷ xs) [] i n a k p = absurd p
ArePaired-set (x ∷ xs) (y ∷ ys) zero n a k p = (ground (arith, k), p.1)
ArePaired-set (x ∷ xs) (y ∷ ys) (suc i) n a k p = (p.0, ArePaired-set xs ys i n a k p.1)

-- There is a place for a reply to each request, and the count is that of the requests, as a uint32.
pub record IsConsistent (s : UdpPingClient) : Type 0 where
  pub counted : s.sent ≡ length s.send_request_timestamps % 2 ^ 32
  pub reply_places : length s.reply_timestamps ≡ length s.send_request_timestamps
  pub receive_places : length s.receive_reply_timestamps ≡ length s.send_request_timestamps
  pub paired : ArePaired s.reply_timestamps s.receive_reply_timestamps

send-IsConsistent : (now : ℕ) (s : UdpPingClient) → IsConsistent s → IsConsistent (send now s).0
unfolding send
send-IsConsistent now s c = record {
  counted = omega (arith, c.counted, length-append s.send_request_timestamps (pos now ∷ []));
  reply_places = omega (
    arith,
    c.reply_places,
    length-append s.send_request_timestamps (pos now ∷ []),
    length-append s.reply_timestamps (none_yet ∷ []),
  );
  receive_places = omega (
    arith,
    c.receive_places,
    length-append s.send_request_timestamps (pos now ∷ []),
    length-append s.receive_reply_timestamps (none_yet ∷ []),
  );
  paired = ArePaired-snoc s.reply_timestamps s.receive_reply_timestamps c.paired;
}

to_int64-known : (ts : ℕ) → ts < 2 ^ 64 - 1 → eqb_ℤ (to_int64 ts) none_yet ≡ false
to_int64-known ts h = ground arith

store_reply-IsConsistent :
    (now seq_no ts : ℕ) (s s' : UdpPingClient)
    → ts < 2 ^ 64 - 1
    → store_reply now seq_no ts s ≡ ok s'
    → IsConsistent s
    → IsConsistent s'
unfolding store_reply
store_reply-IsConsistent now seq_no ts s s' known h c =
    let (b, h1) = guard-eq-ok (ltb seq_no (length s.send_request_timestamps)) abort _ h in
    >>=-elim (at_index s.reply_timestamps seq_no) _ h1 λ reply h2 h3.
      >>=-elim (at_index s.receive_reply_timestamps seq_no) _ h3 λ receive h4 h5.
        let (d, h6) = guard-eq-ok (eqb_ℤ reply none_yet && eqb_ℤ receive none_yet) abort _ h5 in
        subst IsConsistent (ok-injective h6) (record {
          counted = c.counted;
          reply_places = length-set s.reply_timestamps seq_no (to_int64 ts) ∙ c.reply_places;
          receive_places =
              length-set s.receive_reply_timestamps seq_no (pos now) ∙ c.receive_places;
          paired =
              ArePaired-set s.reply_timestamps s.receive_reply_timestamps seq_no now (to_int64 ts)
                (to_int64-known ts known) c.paired;
        })

-- A client sends, or it receives a header.
pub data Event : Type 0 where
  sends : ℕ → Event
  receives : ℕ → UdpPingHeader → Event

unfoldable pub run : List Event → UdpPingClient → Result UdpPingClient
run [] s = ok s
run (sends now ∷ es) s = run es (send now s).0
run (receives now h ∷ es) s = do s' ← handle_read now h s; run es s'

-- The timestamp of a header that came in, a uint64, is not the greatest one, which is -1 as an int64.
abbrev pub IsStamped : Event → Type 0
IsStamped (sends now) = Unit
IsStamped (receives now header) = header.ts < 2 ^ 64 - 1

-- Whatever is sent and received, in whichever order, if no header that came in has the timestamp
-- 2 ^ 64 - 1: every request keeps a place for its reply, the count is that of the requests as a
-- uint32, and both times of a reply are known or neither is.
pub run-IsConsistent :
    (es : List Event) (s s' : UdpPingClient)
    → All IsStamped es
    → IsConsistent s
    → run es s ≡ ok s'
    → IsConsistent s'
unfolding run handle_read
run-IsConsistent [] s s' stamped c h = subst IsConsistent (ok-injective h) c
run-IsConsistent (sends now ∷ es) s s' stamped c h =
    run-IsConsistent es (send now s).0 s' stamped.1 (send-IsConsistent now s c) h
run-IsConsistent (receives now header ∷ es) s s' stamped c h =
    >>=-elim (handle_read now header s) _ h λ mid h0 h1.
      run-IsConsistent es mid s' stamped.1
        (elim (Bool-cases (header.id == s.udp_ping_id)) [
          | inl own ↦
              store_reply-IsConsistent now (header.seq % 2 ^ 32) header.ts s mid stamped.0
                (ground (arith, own, h0)) c
          | inr other ↦ subst IsConsistent (ok-injective (ground (arith, other, h0))) c
        ])
        h1
