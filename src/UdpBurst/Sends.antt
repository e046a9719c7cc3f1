-- ===== src/UdpBurst/Sends.antt =====
-- About the packets that a client of UDP bursts sends (model/apps/udp-burst-client.cc).
use basic_sim.Prelude.{
  ℕ, zero, suc, ◌+◌, ◌-◌, ◌*◌, ◌/◌, ◌%◌, ◌^◌, ◌≤◌, ◌<◌, ◌≡◌, List, [], ◌∷◌, arith, some,
}
use native.Mathlib.Nat.{div-add-mod, mod-lt}
use basic_sim.UdpHeaders.{burst_serialized_size}
use basic_sim.UdpBurst.{UdpBurstClient, Packet, outgoing, send, run_sends}

abbrev pub packet : ℕ → ℕ → ℕ → Packet
packet id seq size = record {
  header = record { id = id; seq = seq };
  payload_size = (size + 2 ^ 32 - burst_serialized_size) % 2 ^ 32;
}

-- `n` packets with ascending sequence numbers, at times a gap apart.
unfoldable pub packets : ℕ → ℕ → ℕ → ℕ → ℕ → ℕ → List (Packet × ℕ)
packets id size packet_gap now seq zero = []
packets id size packet_gap now seq (suc n) =
    (packet id seq size, now) ∷ packets id size packet_gap (now + packet_gap) (seq + 1) n

run_from :
    (n fuel gap now : ℕ) (c : UdpBurstClient)
    → (0 < n → now + n * gap < c.start_time + c.duration)
    → c.start_time + c.duration ≤ now + n * gap + gap
    → n < fuel
    → c.sent + n + 1 < 2 ^ 32
    → (c' : UdpBurstClient) × (run_sends fuel gap now c
        ≡ some (c', packets c.udp_burst_id c.max_udp_payload_size_byte gap now c.sent (suc n)))
      × (c'.sent ≡ c.sent + suc n)
unfolding run_sends send outgoing packets
run_from n zero gap now c last next enough small = absurd (omega arith)
run_from zero (suc fuel) gap now c last next enough small =
    ((send gap now c).0, ground arith, omega arith)
run_from (suc n) (suc fuel) gap now c last next enough small =
    let more : suc n * gap ≡ gap + n * gap = grind arith in
    let c1 = (send gap now c).0 in
    let count : c1.sent ≡ c.sent + 1 = omega arith in
    let end = last (omega arith) in
    let (c', e, sent) =
      run_from n fuel gap (now + gap) c1 (λ h. omega arith) (omega arith) (omega arith)
        (omega arith) in
    (c', ground (arith, e, count), omega (arith, sent, count))

-- A burst with a gap between packets sends at its start and at each multiple of the gap before the end
-- of its duration, at those times only, and then ends: `(duration - 1) / gap + 1` packets, one for a
-- duration of 0, which must be less than 2 ^ 32. They are numbered from 0 on, with no number left out,
-- and counted.
pub run_sends-packets :
    (gap : ℕ) (c : UdpBurstClient)
    → 0 < gap
    → c.sent ≡ 0
    → suc ((c.duration - 1) / gap) < 2 ^ 32
    → (c' : UdpBurstClient) × (run_sends (suc c.duration) gap c.start_time c
        ≡ some (
          c',
          packets c.udp_burst_id c.max_udp_payload_size_byte gap c.start_time 0
              (suc ((c.duration - 1) / gap)),
        ))
      × (c'.sent ≡ suc ((c.duration - 1) / gap))
run_sends-packets gap c positive fresh small =
    let n = (c.duration - 1) / gap in
    let e = div-add-mod (c.duration - 1) gap in
    let lt = mod-lt (c.duration - 1) positive in
    let short : n ≤ c.duration = grind (arith, e) in
    let (c', run, sent) =
      run_from n (suc c.duration) gap c.start_time c (λ h. grind (arith, e)) (grind (arith, e))
        (omega arith) (omega (arith, fresh, small)) in
    (c', ground (arith, run, fresh), omega (arith, sent, fresh))
