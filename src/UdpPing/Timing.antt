-- ===== src/UdpPing/Timing.antt =====
-- When the pings of a client are sent, and when it finishes.
use basic_sim.Prelude.{
  ℕ, zero, suc, ◌+◌, ◌-◌, ◌*◌, ◌/◌, ◌⊎◌, inl, inr, ◌≤◌, ◌<◌, ◌≡◌, refl, sym, ◌∙◌, ap, List, [], ◌∷◌,
  ◌++◌, arith, some, append_assoc,
}
use native.Mathlib.Nat.{div-add-mod, mod-lt}
use basic_sim.Prelude.Int.{ℤ, pos}
use basic_sim.UdpPing.{UdpPingClient, send, run_sends}

-- The times `now`, `now + i`, ..., `n` of them.
unfoldable pub times : ℕ → ℕ → ℕ → List ℤ
times now i zero = []
times now i (suc n) = pos now ∷ times (now + i) i n

run_from :
    (n fuel now : ℕ) (s : UdpPingClient)
    → (now + n * s.interval < s.start_time + s.duration)
    → (s.start_time + s.duration ≤ now + n * s.interval + s.interval)
    → n < fuel
    → (s' : UdpPingClient) × (run_sends fuel now s
        ≡ some (s', s.start_time + s.duration + s.wait_afterwards))
      × (s'.send_request_timestamps ≡ s.send_request_timestamps ++ times now s.interval (suc n))
unfolding run_sends send times
run_from n zero now s last next enough = absurd (omega arith)
run_from zero (suc fuel) now s last next enough = ((send now s).0, ground arith, refl)
run_from (suc n) (suc fuel) now s last next enough =
    let more : suc n * s.interval ≡ s.interval + n * s.interval = grind arith in
    let s1 = (send now s).0 in
    let (s', e, stamps) =
      run_from n fuel (now + s.interval) s1 (omega arith) (omega arith) (omega arith) in
    (
      s',
      ground (arith, e),
      stamps
          ∙ append_assoc s.send_request_timestamps (pos now ∷ [])
              (times (now + s.interval) s.interval (suc n)),
    )

eq_or_pos : (n : ℕ) → (n ≡ 0) ⊎ (0 < n)
eq_or_pos zero = inl refl
eq_or_pos (suc n) = inr (omega arith)

-- A client that starts at `start` sends a ping then and at each multiple of the interval before the
-- end of its duration, at those times only, and finishes when the duration and the wait are over.
-- There are `(duration - 1) / interval + 1` pings, one for a duration of 0.
pub run_sends_lem :
    (s : UdpPingClient)
    → 0 < s.interval
    → (s' : UdpPingClient) × (run_sends (suc s.duration) s.start_time s
        ≡ some (s', s.start_time + s.duration + s.wait_afterwards))
      × (s'.send_request_timestamps
          ≡ s.send_request_timestamps
            ++ times s.start_time s.interval (suc ((s.duration - 1) / s.interval)))
unfolding run_sends send times
run_sends_lem s positive =
    let n = (s.duration - 1) / s.interval in
    let e = div-add-mod (s.duration - 1) s.interval in
    let lt = mod-lt (s.duration - 1) positive in
    let short : n ≤ s.duration = grind (arith, e) in
    elim (eq_or_pos s.duration) [
      | inl empty ↦
          let z : n ≡ 0 = grind (arith, e) in
          (
            (send s.start_time s).0,
            ground (arith, empty, positive),
            ap
                (λ k.
                  s.send_request_timestamps
                  ++ pos s.start_time ∷ times (s.start_time + s.interval) s.interval k)
                (sym z),
          )
      | inr some_time ↦
          run_from n (suc s.duration) s.start_time s (grind (arith, e)) (grind (arith, e))
            (omega arith)
    ]
