-- ===== src/TcpConfig/Asked.antt =====
-- About the values of the three types of configuration of TCP (helper/apps/tcp-config-helper.cc).
use basic_sim.Prelude.{
  ◌≡◌, refl, sym, ◌∙◌, ap, Bool, true, false, Option, none, some, Bool-cases, inl, inr,
}
use mathlib.Core.Path.{subst}
use basic_sim.Prelude.Int.{ℤ, pos}
use basic_sim.Prelude.Text.{Bytes, codes, bytes_beq, bytes_beq_iff}
use basic_sim.Prelude.Results.{Result, ok, ◌>>=◌, >>=-elim, ok-injective}
use basic_sim.ExpUtil.Config.{Config, get_param_or_fail}
use basic_sim.ExpUtil.Numbers.{parse_positive_int64, parse_boolean}
use basic_sim.BasicSimulation.{BasicSimulation, get_config_param_or_fail}
use basic_sim.TcpConfig.{TcpAttributes, basic, ask_positive, ask_boolean, ask_custom, choose}

-- The values of "basic".
pub record IsBasic (c : TcpAttributes) : Type 0 where
  pub clock_granularity_ns-basic : c.clock_granularity_ns ≡ pos 1000000
  pub init_cwnd_pkt-basic : c.init_cwnd_pkt ≡ pos 10
  pub snd_buf_size_byte-basic : c.snd_buf_size_byte ≡ pos 1073741824
  pub rcv_buf_size_byte-basic : c.rcv_buf_size_byte ≡ pos 1073741824
  pub segment_size_byte-basic : c.segment_size_byte ≡ pos 1380
  pub opt_timestamp_enabled-basic : c.opt_timestamp_enabled ≡ true
  pub opt_sack_enabled-basic : c.opt_sack_enabled ≡ true
  pub opt_win_scaling_enabled-basic : c.opt_win_scaling_enabled ≡ true
  pub pacing_enabled-basic : c.pacing_enabled ≡ false
  pub delayed_ack_packet_count-basic : c.delayed_ack_packet_count ≡ pos 2
  pub no_delay-basic : c.no_delay ≡ true
  pub max_seg_lifetime_ns-basic : c.max_seg_lifetime_ns ≡ pos 120000000000
  pub min_rto_ns-basic : c.min_rto_ns ≡ pos 200000000
  pub initial_rtt_estimate_ns-basic : c.initial_rtt_estimate_ns ≡ pos 1000000000
  pub connection_timeout_ns-basic : c.connection_timeout_ns ≡ pos 1000000000
  pub delayed_ack_timeout_ns-basic : c.delayed_ack_timeout_ns ≡ pos 200000000
  pub persist_timeout_ns-basic : c.persist_timeout_ns ≡ pos 6000000000

-- A key of the configuration leads to a text that is read as a value.
abbrev pub IsPositive : Config → Bytes → ℤ → Type 0
IsPositive config key n =
    (v : Bytes) × (get_param_or_fail key config ≡ ok v) × (parse_positive_int64 v ≡ ok n)

abbrev pub IsBoolean : Config → Bytes → Bool → Type 0
IsBoolean config key b =
    (v : Bytes) × (get_param_or_fail key config ≡ ok v) × (parse_boolean v ≡ ok b)

-- The values of "custom": each from its own key.
pub record IsCustom (config : Config) (c : TcpAttributes) : Type 0 where
  pub clock_granularity_ns-custom :
      IsPositive config (codes "tcp_clock_granularity_ns") c.clock_granularity_ns
  pub init_cwnd_pkt-custom : IsPositive config (codes "tcp_init_cwnd_pkt") c.init_cwnd_pkt
  pub snd_buf_size_byte-custom :
      IsPositive config (codes "tcp_snd_buf_size_byte") c.snd_buf_size_byte
  pub rcv_buf_size_byte-custom :
      IsPositive config (codes "tcp_rcv_buf_size_byte") c.rcv_buf_size_byte
  pub segment_size_byte-custom :
      IsPositive config (codes "tcp_segment_size_byte") c.segment_size_byte
  pub opt_timestamp_enabled-custom :
      IsBoolean config (codes "tcp_opt_timestamp_enabled") c.opt_timestamp_enabled
  pub opt_sack_enabled-custom : IsBoolean config (codes "tcp_opt_sack_enabled") c.opt_sack_enabled
  pub opt_win_scaling_enabled-custom :
      IsBoolean config (codes "tcp_opt_win_scaling_enabled") c.opt_win_scaling_enabled
  pub pacing_enabled-custom : IsBoolean config (codes "tcp_opt_pacing_enabled") c.pacing_enabled
  pub delayed_ack_packet_count-custom :
      IsPositive config (codes "tcp_delayed_ack_packet_count") c.delayed_ack_packet_count
  pub no_delay-custom : IsBoolean config (codes "tcp_no_delay") c.no_delay
  pub max_seg_lifetime_ns-custom :
      IsPositive config (codes "tcp_max_seg_lifetime_ns") c.max_seg_lifetime_ns
  pub min_rto_ns-custom : IsPositive config (codes "tcp_min_rto_ns") c.min_rto_ns
  pub initial_rtt_estimate_ns-custom :
      IsPositive config (codes "tcp_initial_rtt_estimate_ns") c.initial_rtt_estimate_ns
  pub connection_timeout_ns-custom :
      IsPositive config (codes "tcp_connection_timeout_ns") c.connection_timeout_ns
  pub delayed_ack_timeout_ns-custom :
      IsPositive config (codes "tcp_delayed_ack_timeout_ns") c.delayed_ack_timeout_ns
  pub persist_timeout_ns-custom :
      IsPositive config (codes "tcp_persist_timeout_ns") c.persist_timeout_ns

-- What a type of configuration asks for.
pub data IsChosen (config : Config) : Bytes → Option TcpAttributes → Type 0 where
  is_default : IsChosen config (codes "default") none
  is_basic : {c : TcpAttributes} → IsBasic c → IsChosen config (codes "basic") (some c)
  is_custom : {c : TcpAttributes} → IsCustom config c → IsChosen config (codes "custom") (some c)

pub get_config_param_or_fail-eq :
    (key : Bytes) (s : BasicSimulation) (a : Bytes × BasicSimulation)
    → get_config_param_or_fail key s ≡ ok a
    → (get_param_or_fail key s.config ≡ ok a.0) × (a.1.config ≡ s.config)
unfolding get_config_param_or_fail
get_config_param_or_fail-eq key s a h = >>=-elim (get_param_or_fail key s.config) _ h λ v h1 h2.
    let same = ok-injective h2 in (h1 ∙ ap (λ r. ok r.0) same, ap (λ r. r.1.config) (sym same))

-- A value is asked for, and the rest goes on with the same configuration.
ask_positive-elim {ℓ κ} :
    {B : Type ℓ} {P : Type κ} (config : Config) (key : Bytes) (s : BasicSimulation)
    (f : ℤ × BasicSimulation → Result B) {b : B}
    → s.config ≡ config
    → (ask_positive key s >>= f) ≡ ok b
    → ((a : ℤ × BasicSimulation) → IsPositive config key a.0 → a.1.config ≡ config → f a ≡ ok b → P)
    → P
unfolding ask_positive
ask_positive-elim config key s f same h k = >>=-elim (ask_positive key s) f h λ a h1 h2.
    >>=-elim (get_config_param_or_fail key s) _ h1 λ v h3 h4.
      >>=-elim (parse_positive_int64 v.0) _ h4 λ n h5 h6.
        let (found, kept) = get_config_param_or_fail-eq key s v h3 in
        let at = ok-injective h6 in
        k a (v.0, ap (get_param_or_fail key) (sym same) ∙ found, h5 ∙ ap (λ r. ok r.0) at)
          (ap (λ r. r.1.config) (sym at) ∙ kept ∙ same) h2

ask_boolean-elim {ℓ κ} :
    {B : Type ℓ} {P : Type κ} (config : Config) (key : Bytes) (s : BasicSimulation)
    (f : Bool × BasicSimulation → Result B) {b : B}
    → s.config ≡ config
    → (ask_boolean key s >>= f) ≡ ok b
    → ((a : Bool × BasicSimulation)
        → IsBoolean config key a.0
        → a.1.config ≡ config
        → f a ≡ ok b
        → P)
    → P
unfolding ask_boolean
ask_boolean-elim config key s f same h k = >>=-elim (ask_boolean key s) f h λ a h1 h2.
    >>=-elim (get_config_param_or_fail key s) _ h1 λ v h3 h4.
      >>=-elim (parse_boolean v.0) _ h4 λ n h5 h6.
        let (found, kept) = get_config_param_or_fail-eq key s v h3 in
        let at = ok-injective h6 in
        k a (v.0, ap (get_param_or_fail key) (sym same) ∙ found, h5 ∙ ap (λ r. ok r.0) at)
          (ap (λ r. r.1.config) (sym at) ∙ kept ∙ same) h2

ask_custom-IsCustom :
    (s : BasicSimulation) (r : TcpAttributes × BasicSimulation)
    → ask_custom s ≡ ok r
    → IsCustom s.config r.0
unfolding ask_custom
ask_custom-IsCustom s r h =
    ask_positive-elim s.config (codes "tcp_clock_granularity_ns") s _ refl h λ a0 r0 c0 h0.
      ask_positive-elim s.config (codes "tcp_init_cwnd_pkt") a0.1 _ c0 h0 λ a1 r1 c1 h1.
        ask_positive-elim s.config (codes "tcp_snd_buf_size_byte") a1.1 _ c1 h1 λ a2 r2 c2 h2.
          ask_positive-elim s.config (codes "tcp_rcv_buf_size_byte") a2.1 _ c2 h2 λ a3 r3 c3 h3.
            ask_positive-elim s.config (codes "tcp_segment_size_byte") a3.1 _ c3 h3 λ a4 r4 c4 h4.
              ask_boolean-elim s.config (codes "tcp_opt_timestamp_enabled") a4.1 _ c4 h4
                λ a5 r5 c5 h5.
                  ask_boolean-elim s.config (codes "tcp_opt_sack_enabled") a5.1 _ c5 h5
                    λ a6 r6 c6 h6.
                      ask_boolean-elim s.config (codes "tcp_opt_win_scaling_enabled") a6.1 _ c6 h6
                        λ a7 r7 c7 h7.
                          ask_boolean-elim s.config (codes "tcp_opt_pacing_enabled") a7.1 _ c7 h7
                            λ a8 r8 c8 h8.
                              ask_positive-elim s.config (codes "tcp_delayed_ack_packet_count") a8.1
                                _ c8 h8
                                λ a9 r9 c9 h9.
                                  ask_boolean-elim s.config (codes "tcp_no_delay") a9.1 _ c9 h9
                                    λ a10 r10 c10 h10.
                                      ask_positive-elim s.config (codes "tcp_max_seg_lifetime_ns")
                                        a10.1 _ c10 h10
                                        λ a11 r11 c11 h11.
                                          ask_positive-elim s.config (codes "tcp_min_rto_ns") a11.1
                                            _ c11 h11
                                            λ a12 r12 c12 h12.
                                              ask_positive-elim s.config
                                                (codes "tcp_initial_rtt_estimate_ns") a12.1 _ c12
                                                h12
                                                λ a13 r13 c13 h13.
                                                  ask_positive-elim s.config
                                                    (codes "tcp_connection_timeout_ns") a13.1 _ c13
                                                    h13
                                                    λ a14 r14 c14 h14.
                                                      ask_positive-elim s.config
                                                        (codes "tcp_delayed_ack_timeout_ns") a14.1 _
                                                        c14 h14
                                                        λ a15 r15 c15 h15.
                                                          ask_positive-elim s.config
                                                            (codes "tcp_persist_timeout_ns") a15.1 _
                                                            c15 h15
                                                            λ a16 r16 c16 h16.
                                                            subst (IsCustom s.config)
                                                            (ap (λ r. r.0) (ok-injective h16))
                                                            (record {
                                                            clock_granularity_ns-custom = r0;
                                                            init_cwnd_pkt-custom = r1;
                                                            snd_buf_size_byte-custom = r2;
                                                            rcv_buf_size_byte-custom = r3;
                                                            segment_size_byte-custom = r4;
                                                            opt_timestamp_enabled-custom = r5;
                                                            opt_sack_enabled-custom = r6;
                                                            opt_win_scaling_enabled-custom = r7;
                                                            pacing_enabled-custom = r8;
                                                            delayed_ack_packet_count-custom = r9;
                                                            no_delay-custom = r10;
                                                            max_seg_lifetime_ns-custom = r11;
                                                            min_rto_ns-custom = r12;
                                                            initial_rtt_estimate_ns-custom = r13;
                                                            connection_timeout_ns-custom = r14;
                                                            delayed_ack_timeout_ns-custom = r15;
                                                            persist_timeout_ns-custom = r16;
                                                            })

basic-IsBasic : IsBasic basic
basic-IsBasic = record {
  clock_granularity_ns-basic = refl;
  init_cwnd_pkt-basic = refl;
  snd_buf_size_byte-basic = refl;
  rcv_buf_size_byte-basic = refl;
  segment_size_byte-basic = refl;
  opt_timestamp_enabled-basic = refl;
  opt_sack_enabled-basic = refl;
  opt_win_scaling_enabled-basic = refl;
  pacing_enabled-basic = refl;
  delayed_ack_packet_count-basic = refl;
  no_delay-basic = refl;
  max_seg_lifetime_ns-basic = refl;
  min_rto_ns-basic = refl;
  initial_rtt_estimate_ns-basic = refl;
  connection_timeout_ns-basic = refl;
  delayed_ack_timeout_ns-basic = refl;
  persist_timeout_ns-basic = refl;
}

pub choose-IsChosen :
    (t : Bytes) (s : BasicSimulation) (c : Option TcpAttributes × BasicSimulation)
    → choose t s ≡ ok c
    → IsChosen s.config t c.0
unfolding choose
choose-IsChosen t s c h = elim (Bool-cases (bytes_beq t (codes "default"))) [
  | inl d ↦
      let at : ok (none, s) ≡ ok c = rw d at h in
      subst (λ u. IsChosen s.config u c.0) (sym ((bytes_beq_iff t (codes "default")).0 d))
        (subst (IsChosen s.config (codes "default")) (ap (λ r. r.0) (ok-injective at)) is_default)
  | inr no_default ↦ elim (Bool-cases (bytes_beq t (codes "basic"))) [
    | inl b ↦
        let at : ok (some basic, s) ≡ ok c = rw (no_default, b) at h in
        subst (λ u. IsChosen s.config u c.0) (sym ((bytes_beq_iff t (codes "basic")).0 b))
          (subst (IsChosen s.config (codes "basic")) (ap (λ r. r.0) (ok-injective at))
            (is_basic basic-IsBasic))
    | inr no_basic ↦ elim (Bool-cases (bytes_beq t (codes "custom"))) [
      | inl u ↦
          let at = rw (no_default, no_basic, u) at h in
          >>=-elim (ask_custom s) _ at λ a h1 h2.
            subst (λ u. IsChosen s.config u c.0) (sym ((bytes_beq_iff t (codes "custom")).0 u))
              (subst (IsChosen s.config (codes "custom")) (ap (λ r. r.0) (ok-injective h2))
                (is_custom (ask_custom-IsCustom s a h1)))
      | inr no_custom ↦ absurd (cc (rw (no_default, no_basic, no_custom) at h))
    ]
  ]
]
