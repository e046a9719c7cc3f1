-- ===== src/Scheduler/UdpPings/Sums.antt =====
-- About the sums and extremes in the results of the pings (helper/apps/udp-ping-scheduler.cc).
use basic_sim.Prelude.{
  ◌+◌, ◌≡◌, refl, sym, ◌∙◌, false, List, [], ◌∷◌, ◌++◌, arith, length, All, Bool-cases, inl, inr,
  append_assoc, append-nil,
}
use basic_sim.Prelude.Int.{ℤ, pos, ltb_ℤ, lt_ℤ_irrefl, ◌+ℤ◌}
use basic_sim.Scheduler.UdpPings.{
  PingLine, Statistics, add_line, add_lines, min_ℤ, max_ℤ, min_rtt, max_rtt,
}
use basic_sim.Scheduler.UdpPings.Lines.{of_arrived, rtts_of, sum_ℤ}

pub add_lines-rtts :
    (ls : List PingLine) (s : Statistics) → (add_lines ls s).rtts_ns ≡ s.rtts_ns ++ rtts_of ls
unfolding add_lines add_line
add_lines-rtts [] s = sym (append-nil s.rtts_ns)
add_lines-rtts (l ∷ ls) s = elim (Bool-cases l.reply_arrived) [
  | inl arrived ↦
      add_lines-rtts ls (add_line l s)
      ∙ rw arrived (append_assoc s.rtts_ns (l.rtt_ns ∷ []) (rtts_of ls))
  | inr lost ↦ add_lines-rtts ls (add_line l s) ∙ rw lost refl
]

pub add_lines-total :
    (ls : List PingLine) (s : Statistics) → (add_lines ls s).total ≡ s.total + length (rtts_of ls)
unfolding add_lines add_line
add_lines-total [] s = omega arith
add_lines-total (l ∷ ls) s = ground (arith, add_lines-total ls (add_line l s))

add_assoc : (a b c : ℤ) → (a +ℤ b) +ℤ c ≡ a +ℤ (b +ℤ c)
add_assoc a b c = ground arith

add-zero : (a : ℤ) → a +ℤ pos 0 ≡ a
add-zero a = ground arith

pub zero-add : (a : ℤ) → pos 0 +ℤ a ≡ a
zero-add a = ground arith

pub add_lines-to_there :
    (ls : List PingLine) (s : Statistics)
    → (add_lines ls s).sum_latency_to_there_ns
      ≡ s.sum_latency_to_there_ns +ℤ sum_ℤ (of_arrived (λ l. l.latency_to_there_ns) ls)
unfolding add_lines add_line
add_lines-to_there [] s = sym (add-zero s.sum_latency_to_there_ns)
add_lines-to_there (l ∷ ls) s = elim (Bool-cases l.reply_arrived) [
  | inl arrived ↦
      add_lines-to_there ls (add_line l s)
      ∙ rw arrived (
          add_assoc s.sum_latency_to_there_ns l.latency_to_there_ns
            (sum_ℤ (of_arrived (λ m. m.latency_to_there_ns) ls)))
  | inr lost ↦ add_lines-to_there ls (add_line l s) ∙ rw lost refl
]

pub add_lines-from_there :
    (ls : List PingLine) (s : Statistics)
    → (add_lines ls s).sum_latency_from_there_ns
      ≡ s.sum_latency_from_there_ns +ℤ sum_ℤ (of_arrived (λ l. l.latency_from_there_ns) ls)
unfolding add_lines add_line
add_lines-from_there [] s = sym (add-zero s.sum_latency_from_there_ns)
add_lines-from_there (l ∷ ls) s = elim (Bool-cases l.reply_arrived) [
  | inl arrived ↦
      add_lines-from_there ls (add_line l s)
      ∙ rw arrived (
          add_assoc s.sum_latency_from_there_ns l.latency_from_there_ns
            (sum_ℤ (of_arrived (λ m. m.latency_from_there_ns) ls)))
  | inr lost ↦ add_lines-from_there ls (add_line l s) ∙ rw lost refl
]

lt_ℤ_le_trans : (a b c : ℤ) → ltb_ℤ b a ≡ false → ltb_ℤ c b ≡ false → ltb_ℤ c a ≡ false
lt_ℤ_le_trans a b c h k = ground arith

min_ℤ_le : (a b : ℤ) → (ltb_ℤ a (min_ℤ a b) ≡ false) × (ltb_ℤ b (min_ℤ a b) ≡ false)
min_ℤ_le a b = elim (Bool-cases (ltb_ℤ b a)) [
  | inl less ↦ (ground arith, ground arith)
  | inr not_less ↦ (ground arith, ground arith)
]

max_ℤ_le : (a b : ℤ) → (ltb_ℤ (max_ℤ a b) a ≡ false) × (ltb_ℤ (max_ℤ a b) b ≡ false)
max_ℤ_le a b = elim (Bool-cases (ltb_ℤ a b)) [
  | inl less ↦ (ground arith, ground arith)
  | inr not_less ↦ (ground arith, ground arith)
]

pub min_rtt-le :
    (m : ℤ) (rs : List ℤ)
    → (ltb_ℤ m (min_rtt m rs) ≡ false) × All (λ r. ltb_ℤ r (min_rtt m rs) ≡ false) rs
unfolding min_rtt
min_rtt-le m [] = (lt_ℤ_irrefl m, tt)
min_rtt-le m (r ∷ rs) =
    let (least, all) = min_rtt-le (min_ℤ m r) rs in
    let (le_m, le_r) = min_ℤ_le m r in
    (
      lt_ℤ_le_trans (min_rtt (min_ℤ m r) rs) (min_ℤ m r) m least le_m,
      (lt_ℤ_le_trans (min_rtt (min_ℤ m r) rs) (min_ℤ m r) r least le_r, all),
    )

pub max_rtt-le :
    (m : ℤ) (rs : List ℤ)
    → (ltb_ℤ (max_rtt m rs) m ≡ false) × All (λ r. ltb_ℤ (max_rtt m rs) r ≡ false) rs
unfolding max_rtt
max_rtt-le m [] = (lt_ℤ_irrefl m, tt)
max_rtt-le m (r ∷ rs) =
    let (most, all) = max_rtt-le (max_ℤ m r) rs in
    let (le_m, le_r) = max_ℤ_le m r in
    (
      lt_ℤ_le_trans m (max_ℤ m r) (max_rtt (max_ℤ m r) rs) le_m most,
      (lt_ℤ_le_trans r (max_ℤ m r) (max_rtt (max_ℤ m r) rs) le_r most, all),
    )
