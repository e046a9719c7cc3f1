-- ===== src/TcpConfig/Settings.antt =====
-- About what is set behind a configuration of TCP (helper/apps/tcp-config-helper.cc).
use basic_sim.Prelude.{
  ◌≡◌, refl, sym, ◌∙◌, ap, Bool, true, false, ◌&&◌, List, [], ◌∷◌, All, arith, Option, none, some,
  Option-cases, inl, inr, not,
}
use mathlib.Core.Path.{subst}
use basic_sim.Prelude.Int.{ℤ, eqb_ℤ_iff}
use basic_sim.Prelude.Text.{Bytes, codes, bytes_beq}
use basic_sim.Prelude.Results.{
  ok, invalid_argument, abort, guard, ◌>>=◌, >>=-elim, guard-eq-ok, ok-injective,
}
use basic_sim.BasicSimulation.{BasicSimulation, get_config_param_or_fail, stamp}
use basic_sim.ExpUtil.Config.{get_param_or_fail}
use basic_sim.TcpConfig.Asked.{IsChosen, choose-IsChosen, get_config_param_or_fail-eq}
use basic_sim.TcpConfig.{
  Value, uint_value, time_value, double_value, boolean_value, same_kind, value_beq, Attributes,
  TcpAttributes, Setting, settings, get_attribute_information, check_initial_value, set_attribute,
  set_attributes, set_tcp_attributes, choose, configure,
}

value_beq-eq : (v w : Value) → value_beq v w ≡ true → v ≡ w
value_beq-eq (uint_value a) (uint_value b) h = ap uint_value ((eqb_ℤ_iff a b).0 h)
value_beq-eq (time_value a) (time_value b) h = ap time_value ((eqb_ℤ_iff a b).0 h)
value_beq-eq (double_value a) (double_value b) h = ap double_value ((eqb_ℤ_iff a b).0 h)
value_beq-eq (boolean_value true) (boolean_value b) h = ap boolean_value (sym h)
value_beq-eq (boolean_value false) (boolean_value true) h = cc
value_beq-eq (boolean_value false) (boolean_value false) h = refl
value_beq-eq (uint_value a) (time_value b) h = cc
value_beq-eq (uint_value a) (double_value b) h = cc
value_beq-eq (uint_value a) (boolean_value b) h = cc
value_beq-eq (time_value a) (uint_value b) h = cc
value_beq-eq (time_value a) (double_value b) h = cc
value_beq-eq (time_value a) (boolean_value b) h = cc
value_beq-eq (double_value a) (uint_value b) h = cc
value_beq-eq (double_value a) (time_value b) h = cc
value_beq-eq (double_value a) (boolean_value b) h = cc
value_beq-eq (boolean_value true) (uint_value b) h = cc
value_beq-eq (boolean_value true) (time_value b) h = cc
value_beq-eq (boolean_value true) (double_value b) h = cc
value_beq-eq (boolean_value false) (uint_value b) h = cc
value_beq-eq (boolean_value false) (time_value b) h = cc
value_beq-eq (boolean_value false) (double_value b) h = cc

-- Whether two settings are of attributes of one name, of whichever type.
abbrev pub same_attribute : Setting → Setting → Bool
same_attribute x y = bytes_beq x.attribute_name y.attribute_name

-- As ns-3 documents `Config::SetDefault`: the defaults of attributes of other names stay. One of the
-- same name may change too, since an attribute is also found under the types that inherit it.
pub record IsStore {S : Type 0} (attributes : Attributes S) : Type 0 where
  pub others :
      (x y : Setting) (s s' : S)
      → attributes.set_default x.tid_name x.attribute_name x.value s ≡ ok s'
      → same_attribute x y ≡ false
      → attributes.initial_value y.tid_name y.attribute_name s'
        ≡ attributes.initial_value y.tid_name y.attribute_name s

abbrev differs : Setting → List Setting → Bool
differs y [] = true
differs y (x ∷ xs) = not (same_attribute x y) && differs y xs

abbrev are_distinct : List Setting → Bool
are_distinct [] = true
are_distinct (x ∷ xs) = differs x xs && are_distinct xs

guard_passed : (b : Bool) {u : Unit {0}} → guard b abort ≡ ok u → b ≡ true
guard_passed true h = refl
guard_passed false h = cc

other_and_rest : (a b : Bool) → (not a && b) ≡ true → (a ≡ false) × (b ≡ true)
other_and_rest a b h = ground (arith, h)

both_of : (a b : Bool) → (a && b) ≡ true → (a ≡ true) × (b ≡ true)
both_of a b h = ground (arith, h)

module _ {S : Type 0} (attributes : Attributes S) where
  -- An attribute has the value of a setting.
  abbrev pub HasValue : S → Setting → Type 0
  HasValue s x = attributes.initial_value x.tid_name x.attribute_name s ≡ some x.value

  get_attribute_information-eq :
      (t a : Bytes) (s : S) (v : Value)
      → get_attribute_information attributes t a s ≡ ok v
      → attributes.initial_value t a s ≡ some v
  unfolding get_attribute_information
  get_attribute_information-eq t a s v h = elim (Option-cases (attributes.initial_value t a s)) [
    | inl e ↦ ground (arith, e, h)
    | inr (w, e) ↦ ground (arith, e, h)
  ]

  check_initial_value-eq :
      (t a : Bytes) (v : Value) (s : S) (u : Unit {0})
      → check_initial_value attributes t a v s ≡ ok u
      → attributes.initial_value t a s ≡ some v
  unfolding check_initial_value
  check_initial_value-eq t a v s u h =
      >>=-elim (get_attribute_information attributes t a s) _ h λ w e h1.
        let (k, h2) =
          guard-eq-ok (same_kind w v) invalid_argument (guard (value_beq w v) abort) h1 in
        get_attribute_information-eq t a s w e
        ∙ ap some (value_beq-eq w v (guard_passed (value_beq w v) h2))

  abbrev pub Has : S → Bytes → Bytes → Value → Type 0
  Has s t a v = attributes.initial_value t a s ≡ some v

  -- Each attribute of ns-3 with its value.
  pub record AreSet (s : S) (c : TcpAttributes) : Type 0 where
    pub clock_granularity_ns-set :
        Has s
          (codes "ns3::TcpSocketBase")
          (codes "ClockGranularity")
          (time_value c.clock_granularity_ns)
    pub init_cwnd_pkt-set :
        Has s (codes "ns3::TcpSocket") (codes "InitialCwnd") (uint_value c.init_cwnd_pkt)
    pub snd_buf_size_byte-set :
        Has s (codes "ns3::TcpSocket") (codes "SndBufSize") (uint_value c.snd_buf_size_byte)
    pub rcv_buf_size_byte-set :
        Has s (codes "ns3::TcpSocket") (codes "RcvBufSize") (uint_value c.rcv_buf_size_byte)
    pub segment_size_byte-set :
        Has s (codes "ns3::TcpSocket") (codes "SegmentSize") (uint_value c.segment_size_byte)
    pub opt_timestamp_enabled-set :
        Has s
          (codes "ns3::TcpSocketBase")
          (codes "Timestamp")
          (boolean_value c.opt_timestamp_enabled)
    pub opt_sack_enabled-set :
        Has s (codes "ns3::TcpSocketBase") (codes "Sack") (boolean_value c.opt_sack_enabled)
    pub opt_win_scaling_enabled-set :
        Has s
          (codes "ns3::TcpSocketBase")
          (codes "WindowScaling")
          (boolean_value c.opt_win_scaling_enabled)
    pub pacing_enabled-set :
        Has s (codes "ns3::TcpSocketState") (codes "EnablePacing") (boolean_value c.pacing_enabled)
    pub delayed_ack_packet_count-set :
        Has s (codes "ns3::TcpSocket") (codes "DelAckCount") (uint_value c.delayed_ack_packet_count)
    pub no_delay-set :
        Has s (codes "ns3::TcpSocket") (codes "TcpNoDelay") (boolean_value c.no_delay)
    pub max_seg_lifetime_ns-set :
        Has s
          (codes "ns3::TcpSocketBase")
          (codes "MaxSegLifetime")
          (double_value c.max_seg_lifetime_ns)
    pub min_rto_ns-set :
        Has s (codes "ns3::TcpSocketBase") (codes "MinRto") (time_value c.min_rto_ns)
    pub initial_rtt_estimate_ns-set :
        Has s
          (codes "ns3::RttEstimator")
          (codes "InitialEstimation")
          (time_value c.initial_rtt_estimate_ns)
    pub connection_timeout_ns-set :
        Has s (codes "ns3::TcpSocket") (codes "ConnTimeout") (time_value c.connection_timeout_ns)
    pub delayed_ack_timeout_ns-set :
        Has s (codes "ns3::TcpSocket") (codes "DelAckTimeout") (time_value c.delayed_ack_timeout_ns)
    pub persist_timeout_ns-set :
        Has s (codes "ns3::TcpSocket") (codes "PersistTimeout") (time_value c.persist_timeout_ns)

  AreSet-settings : (s : S) (c : TcpAttributes) → All (HasValue s) (settings c) → AreSet s c
  unfolding settings
  AreSet-settings s c all = record {
    clock_granularity_ns-set = all.0;
    init_cwnd_pkt-set = all.1.0;
    snd_buf_size_byte-set = all.1.1.0;
    rcv_buf_size_byte-set = all.1.1.1.0;
    segment_size_byte-set = all.1.1.1.1.0;
    opt_timestamp_enabled-set = all.1.1.1.1.1.0;
    opt_sack_enabled-set = all.1.1.1.1.1.1.0;
    opt_win_scaling_enabled-set = all.1.1.1.1.1.1.1.0;
    pacing_enabled-set = all.1.1.1.1.1.1.1.1.0;
    delayed_ack_packet_count-set = all.1.1.1.1.1.1.1.1.1.0;
    no_delay-set = all.1.1.1.1.1.1.1.1.1.1.0;
    max_seg_lifetime_ns-set = all.1.1.1.1.1.1.1.1.1.1.1.0;
    min_rto_ns-set = all.1.1.1.1.1.1.1.1.1.1.1.1.0;
    initial_rtt_estimate_ns-set = all.1.1.1.1.1.1.1.1.1.1.1.1.1.0;
    connection_timeout_ns-set = all.1.1.1.1.1.1.1.1.1.1.1.1.1.1.0;
    delayed_ack_timeout_ns-set = all.1.1.1.1.1.1.1.1.1.1.1.1.1.1.1.0;
    persist_timeout_ns-set = all.1.1.1.1.1.1.1.1.1.1.1.1.1.1.1.1.0;
  }

  -- What is set: nothing, or all attributes.
  abbrev pub IsConfigured : S → S → Option TcpAttributes → Type 0
  IsConfigured attrs attrs' none = attrs' ≡ attrs
  IsConfigured attrs attrs' (some c) = AreSet attrs' c

  module _ (store : IsStore attributes) where
    set_attribute-HasValue :
        (x : Setting) (s s1 : S)
        → set_attribute attributes x s ≡ ok s1
        → (attributes.set_default x.tid_name x.attribute_name x.value s ≡ ok s1) × HasValue s1 x
    unfolding set_attribute
    set_attribute-HasValue x s s1 h =
        >>=-elim (check_initial_value attributes x.tid_name x.attribute_name x.unchanged s) _ h
          λ u k0 k1.
            >>=-elim (attributes.set_default x.tid_name x.attribute_name x.value s) _ k1 λ s2 k2 k3.
              >>=-elim (check_initial_value attributes x.tid_name x.attribute_name x.value s2) _ k3
                λ w k4 k5.
                  let same : s2 ≡ s1 = ok-injective k5 in
                  (
                    k2 ∙ k5,
                    subst (λ a. HasValue a x) same
                        (check_initial_value-eq x.tid_name x.attribute_name x.value s2 w k4),
                  )

    set_attributes-others :
        (y : Setting) (xs : List Setting) (s s' : S)
        → differs y xs ≡ true
        → set_attributes attributes xs s ≡ ok s'
        → attributes.initial_value y.tid_name y.attribute_name s'
          ≡ attributes.initial_value y.tid_name y.attribute_name s
    unfolding set_attributes
    set_attributes-others y [] s s' d h =
        ap (attributes.initial_value y.tid_name y.attribute_name) (sym (ok-injective h))
    set_attributes-others y (x ∷ xs) s s' d h =
        >>=-elim (set_attribute attributes x s) _ h λ s1 h1 h2.
          let (other, rest) = other_and_rest (same_attribute x y) (differs y xs) d in
          set_attributes-others y xs s1 s' rest h2
          ∙ store.others x y s s1 (set_attribute-HasValue x s s1 h1).0 other

    set_attributes-HasValue :
        (xs : List Setting) (s s' : S)
        → are_distinct xs ≡ true
        → set_attributes attributes xs s ≡ ok s'
        → All (HasValue s') xs
    unfolding set_attributes
    set_attributes-HasValue [] s s' d h = tt
    set_attributes-HasValue (x ∷ xs) s s' d h =
        >>=-elim (set_attribute attributes x s) _ h λ s1 h1 h2.
          let (first, rest) = both_of (differs x xs) (are_distinct xs) d in
          (
            set_attributes-others x xs s1 s' first h2 ∙ (set_attribute-HasValue x s s1 h1).1,
            set_attributes-HasValue xs s1 s' rest h2,
          )

    settings-are_distinct : (c : TcpAttributes) → are_distinct (settings c) ≡ true
    unfolding settings bytes_beq
    settings-are_distinct c = refl

    chosen-IsConfigured :
        (o : Option TcpAttributes) (s2 : BasicSimulation) (clock : Bytes → ℤ) (s' : BasicSimulation)
        (attrs attrs' : S)
        → ((elim o [ none ↦ ok attrs | some values ↦ set_tcp_attributes attributes values attrs ])
            >>= λ a.
                let r : S × BasicSimulation =
                  (a, stamp clock (codes "Setup TCP configuration") s2) in
                ok r)
          ≡ ok (attrs', s')
        → IsConfigured attrs attrs' o
    unfolding set_tcp_attributes
    chosen-IsConfigured none s2 clock s' attrs attrs' k = ap (λ r. r.0) (sym (ok-injective k))
    chosen-IsConfigured (some c) s2 clock s' attrs attrs' k =
        >>=-elim (set_attributes attributes (settings c) attrs) _ k λ a k1 k2.
          subst (λ b. AreSet b c) (ap (λ r. r.0) (ok-injective k2))
            (AreSet-settings a c
              (set_attributes-HasValue (settings c) attrs a (settings-are_distinct c) k1))

    -- A configuration of TCP that is accepted has set what the value of its key "tcp_config" asks for,
    -- if a default that is set leaves those of other names: with "default" nothing; with "basic" the
    -- 17 attributes, each to a fixed number or flag; with "custom" the 17 attributes, each to what its
    -- own key of the configuration is read as. No other type is accepted.
    pub configure-IsConfigured :
        (clock : Bytes → ℤ) (s s' : BasicSimulation) (attrs attrs' : S)
        → configure attributes clock s attrs ≡ ok (attrs', s')
        → (t : Bytes) × (c : Option TcpAttributes) × (get_param_or_fail
              (codes "tcp_config")
              s.config
            ≡ ok t)
          × IsChosen s.config t c
          × IsConfigured attrs attrs' c
    unfolding configure set_tcp_attributes
    configure-IsConfigured clock s s' attrs attrs' h =
        >>=-elim (get_config_param_or_fail (codes "tcp_config") s) _ h λ t h0 h1.
          >>=-elim (choose t.0 t.1) _ h1 λ c h2 h3.
            let (found, kept) = get_config_param_or_fail-eq (codes "tcp_config") s t h0 in
            (
              t.0,
              c.0,
              found,
              subst (λ b. IsChosen b t.0 c.0) kept (choose-IsChosen t.0 t.1 c h2),
              chosen-IsConfigured c.0 c.1 clock s' attrs attrs' h3,
            )
