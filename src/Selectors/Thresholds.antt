-- ===== src/Selectors/Thresholds.antt =====
-- About the accepted texts of RED (model/core/topology-ptop-tc-qdisc-selector-default.cc).
use basic_sim.Prelude.{
  ◌≡◌, Bool, true, false, not, ◌||◌, ◌++◌, ◌⊎◌, inl, inr, Bool-cases, arith, if◌then◌else◌,
}
use mathlib.Core.Path.{subst}
use basic_sim.Prelude.Int.{ℤ, pos, ltb_ℤ}
use basic_sim.Prelude.Text.{Bytes, codes, bytes_beq}
use basic_sim.Prelude.Results.{
  Result, Error, ok, err, invalid_argument, runtime_error, ◌>>=◌, >>=-elim, guard-eq-ok,
  ok-injective,
}
use basic_sim.ExpUtil.Strings.{trim, ends_with}
use basic_sim.ExpUtil.Collections.Laws.{ends_with_split}
use basic_sim.ExpUtil.Split.{split_string_expected}
use basic_sim.ExpUtil.Numbers.{
  Doubles, parse_int64, parse_geq_one_int64, parse_positive_int64, parse_double,
}
use basic_sim.ExpUtil.Collections.{at_index}
use basic_sim.Selectors.{
  check_queue_size, without_unit, Red, simple_red, one_of, check_unit, size_in_pkt, parse_red,
  parse_fq_codel, parse_tc_qdisc_value, is_call, inner_part,
}

parse_positive_int64-nonneg :
    (s : Bytes) (v : ℤ) → parse_positive_int64 s ≡ ok v → ltb_ℤ v (pos 0) ≡ false
unfolding parse_positive_int64
parse_positive_int64-nonneg s v h = >>=-elim (parse_int64 s) _ h λ w h0 h1.
    let (b, h2) = guard-eq-ok (not (ltb_ℤ w (pos 0))) invalid_argument (ok w) h1 in
    subst (λ u. ltb_ℤ u (pos 0) ≡ false) (ok-injective h2) (ground (arith, b))

parse_geq_one_int64-pos :
    (s : Bytes) (v : ℤ) → parse_geq_one_int64 s ≡ ok v → ltb_ℤ v (pos 1) ≡ false
unfolding parse_geq_one_int64
parse_geq_one_int64-pos s v h = >>=-elim (parse_positive_int64 s) _ h λ w h0 h1.
    let (b, h2) = guard-eq-ok (not (ltb_ℤ w (pos 1))) invalid_argument (ok w) h1 in
    subst (λ u. ltb_ℤ u (pos 1) ≡ false) (ok-injective h2) (ground (arith, b))

-- A text of a queue of `n` packets, or of `n` bytes, that are so many packets of the mean size.
abbrev pub IsSize : (ℤ → ℤ → ℤ) → ℤ → Bytes → ℤ → Type 0
IsSize ceil_div mean_pkt_size_byte text packets =
    (digits : Bytes) × (n : ℤ) × (parse_geq_one_int64 digits ≡ ok n)
    × (((text ≡ digits ++ codes "p") × (packets ≡ n))
        ⊎ ((text ≡ digits ++ codes "B") × (packets ≡ ceil_div n mean_pkt_size_byte)))

-- The thresholds are in order and within the queue; the weight and the probability are not negative,
-- not zero and not above 1.
pub record IsRed (d : Doubles) {Q : Type 0} (queue_size : Bytes → Result Q) (ceil_div : ℤ → ℤ → ℤ)
    (r : Red d.Double Q) : Type 0 where
  pub mean_pos : ltb_ℤ r.mean_pkt_size_byte (pos 1) ≡ false
  pub min_nonneg : ltb_ℤ r.min_th_pkt (pos 0) ≡ false
  pub ordered : ltb_ℤ r.max_th_pkt r.min_th_pkt ≡ false
  pub within :
      (size : Bytes) × (packets : ℤ) × (queue_size size ≡ ok r.max_size)
      × IsSize ceil_div r.mean_pkt_size_byte size packets
      × (ltb_ℤ packets r.max_th_pkt ≡ false)
  pub weight :
      (d.is_negative r.queue_weight ≡ false)
      × (d.is_zero r.queue_weight ≡ false)
      × (d.is_above_one r.queue_weight ≡ false)
  pub probability :
      (d.is_negative r.max_p ≡ false)
      × (d.is_zero r.max_p ≡ false)
      × (d.is_above_one r.max_p ≡ false)

else_of {ℓ} :
    {A : Type ℓ} (b : Bool) (x y : Result A) {r : A}
    → (if b then x else y) ≡ ok r
    → (x ≡ ok r → ⊥)
    → y ≡ ok r
else_of true x y h never = absurd (never h)
else_of false x y h never = h

then_of {ℓ} :
    {A : Type ℓ} (b : Bool) (x : Result A) (e : Error) {r : A}
    → (if b then x else err e) ≡ ok r
    → x ≡ ok r
then_of true x e h = h
then_of false x e h = cc

module _ (d : Doubles) {Q : Type 0} (queue_size : Bytes → Result Q) (ceil_div : ℤ → ℤ → ℤ) where
  check_unit-eq :
      (v : d.Double) (u : Unit {0})
      → check_unit d queue_size ceil_div v ≡ ok u
      → (d.is_negative v ≡ false) × (d.is_zero v ≡ false) × (d.is_above_one v ≡ false)
  unfolding check_unit
  check_unit-eq v u h = (ground (arith, h), ground (arith, h), ground (arith, h))

  size_in_pkt-IsSize :
      (size : Bytes) (mean packets : ℤ)
      → size_in_pkt d queue_size ceil_div size mean ≡ ok packets
      → IsSize ceil_div mean size packets
  unfolding size_in_pkt check_queue_size
  size_in_pkt-IsSize size mean packets h = >>=-elim (check_queue_size size) _ h λ n h0 h1.
      let (unit, h2) =
        guard-eq-ok (ends_with size (codes "p") || ends_with size (codes "B")) runtime_error _ h0 in
      let at = ok-injective h1 in
      elim (Bool-cases (ends_with size (codes "p"))) [
        | inl p ↦ (
          without_unit size,
          n,
          h2,
          inl (ends_with_split size (codes "p") p, ground (arith, at, p)),
        )
        | inr no_p ↦ (
          without_unit size,
          n,
          h2,
          inr (
            ends_with_split size (codes "B") (ground (arith, unit, no_p)),
            ground (arith, at, no_p),
          ),
        )
      ]

  parse_red-IsRed :
      (inner : Bytes) (r : Red d.Double Q)
      → parse_red d queue_size ceil_div inner ≡ ok r
      → IsRed d queue_size ceil_div r
  unfolding parse_red
  parse_red-IsRed inner r h = >>=-elim (split_string_expected inner (codes ";") 9) _ h λ spl h0 h1.
      >>=-elim (at_index spl 0) _ h1 λ action h2 h3.
        >>=-elim (one_of (codes "ecn") (codes "drop") (trim action)) _ h3 λ ecn h4 h5.
          >>=-elim (at_index spl 1 >>= parse_geq_one_int64) _ h5 λ mean h6 h7.
            >>=-elim (at_index spl 2 >>= parse_double d) _ h7 λ weight h8 h9.
              >>=-elim (check_unit d queue_size ceil_div weight) _ h9 λ u1 g0 g1.
                >>=-elim (at_index spl 3 >>= parse_positive_int64) _ g1 λ min_th g2 g3.
                  >>=-elim (at_index spl 4 >>= parse_positive_int64) _ g3 λ max_th g4 g5.
                    >>=-elim (at_index spl 5) _ g5 λ size g6 g7.
                      >>=-elim (size_in_pkt d queue_size ceil_div (trim size) mean) _ g7
                        λ max_size g8 g9.
                          let (b1, k1) =
                            guard-eq-ok (not (ltb_ℤ max_th min_th)) invalid_argument _ g9 in
                          let (b2, k2) =
                            guard-eq-ok (not (ltb_ℤ max_size max_th)) invalid_argument _ k1 in
                          >>=-elim (at_index spl 6 >>= parse_double d) _ k2 λ max_p j0 j1.
                            >>=-elim (check_unit d queue_size ceil_div max_p) _ j1 λ u2 j2 j3.
                              >>=-elim (at_index spl 7) _ j3 λ wait_word j4 j5.
                                >>=-elim (one_of (codes "wait") (codes "no_wait") (trim wait_word))
                                  _ j5
                                  λ wait j6 j7. >>=-elim (at_index spl 8) _ j7 λ gentle_word j8 j9.
                                    >>=-elim
                                      (one_of (codes "gentle") (codes "not_gentle")
                                        (trim gentle_word))
                                      _ j9
                                      λ gentle f0 f1.
                                        >>=-elim (queue_size (trim size)) _ f1 λ q f2 f3.
                                          subst (IsRed d queue_size ceil_div) (ok-injective f3)
                                            (record {
                                              mean_pos =
                                                  >>=-elim (at_index spl 1) _ h6
                                                    λ t e. parse_geq_one_int64-pos t mean;
                                              min_nonneg =
                                                  >>=-elim (at_index spl 3) _ g2
                                                    λ t e. parse_positive_int64-nonneg t min_th;
                                              ordered = ground (arith, b1);
                                              within = (
                                                trim size,
                                                max_size,
                                                f2,
                                                size_in_pkt-IsSize (trim size) mean max_size g8,
                                                ground (arith, b2),
                                              );
                                              weight = check_unit-eq weight u1 g0;
                                              probability = check_unit-eq max_p u2 j2;
                                            })

  fq_codel-ne-red :
      (inner : Bytes) (r : Red d.Double Q)
      → parse_fq_codel d queue_size ceil_div inner ≡ ok (simple_red r)
      → ⊥
  unfolding parse_fq_codel
  fq_codel-ne-red inner r h = ground (arith, h)

  -- What is accepted as a queueing discipline: a RED has a mean packet size of at least 1, thresholds
  -- from 0 on that are in order and within the size of its queue, in packets or rounded up from bytes by
  -- the mean packet size, and a weight and a probability of which each test of the code, for a
  -- negative value, a zero and one above 1, is false.
  pub parse_tc_qdisc_value-IsRed :
      (value : Bytes) (r : Red d.Double Q)
      → parse_tc_qdisc_value d queue_size ceil_div value ≡ ok (simple_red r)
      → IsRed d queue_size ceil_div r
  unfolding parse_tc_qdisc_value
  parse_tc_qdisc_value-IsRed value r h =
      let h1 = else_of (bytes_beq value (codes "disabled")) _ _ h (λ e. ground (arith, e)) in
      let h2 = else_of (bytes_beq value (codes "default")) _ _ h1 (λ e. ground (arith, e)) in
      let h3 =
        else_of (is_call (codes "fq_codel(") value) _ _ h2
          (fq_codel-ne-red (inner_part (codes "fq_codel(") value) r) in
      let h4 = else_of (is_call (codes "fifo(") value) _ _ h3 (λ e. ground (arith, e)) in
      let h5 = else_of (is_call (codes "pfifo_fast(") value) _ _ h4 (λ e. ground (arith, e)) in
      let red = then_of (is_call (codes "simple_red(") value) _ _ h5 in
      >>=-elim (parse_red d queue_size ceil_div (inner_part (codes "simple_red(") value)) _ red
        λ r' e e'.
          let same : r' ≡ r = ground (arith, e') in
          subst (IsRed d queue_size ceil_div) same
            (parse_red-IsRed (inner_part (codes "simple_red(") value) r' e)
