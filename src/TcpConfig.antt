-- ===== src/TcpConfig.antt =====
-- helper/apps/tcp-config-helper.cc: the defaults of TCP that a run sets, and the reading of a default
-- of helper/core/initial-helpers.cc. The attributes of ns-3 are a parameter. The one attribute that is
-- a double, in seconds, is told by its nanoseconds. What is printed is left out.
pub mod Asked
pub mod Settings
mod Tests
use basic_sim.Prelude.{
  ℕ, ◌*◌, Bool, true, false, not, ◌&&◌, List, [], ◌∷◌, Option, none, some, if◌then◌else◌,
}
use basic_sim.Prelude.Int.{ℤ, pos, eqb_ℤ}
use basic_sim.Prelude.Text.{Bytes, codes, bytes_beq}
use basic_sim.Prelude.Results.{
  Result, ok, err, invalid_argument, runtime_error, abort, guard, ◌>>=◌, ◌>>◌,
}
use basic_sim.ExpUtil.Numbers.{parse_positive_int64, parse_boolean}
use basic_sim.BasicSimulation.{BasicSimulation, Call, get_config_param_or_fail, stamp}

pub data Value : Type 0 where
  uint_value time_value double_value : ℤ → Value
  boolean_value : Bool → Value

abbrev pub same_kind : Value → Value → Bool
same_kind (uint_value a) (uint_value b) = true
same_kind (time_value a) (time_value b) = true
same_kind (double_value a) (double_value b) = true
same_kind (boolean_value a) (boolean_value b) = true
same_kind v w = false

abbrev pub value_beq : Value → Value → Bool
value_beq (uint_value a) (uint_value b) = eqb_ℤ a b
value_beq (time_value a) (time_value b) = eqb_ℤ a b
value_beq (double_value a) (double_value b) = eqb_ℤ a b
value_beq (boolean_value true) (boolean_value b) = b
value_beq (boolean_value false) (boolean_value b) = not b
value_beq v w = false

-- The initial values of ns-3's attributes, by type and name: `none` if there is no such type or
-- attribute. `Config::SetDefault` refuses some values.
pub record Attributes (S : Type 0) : Type 0 where
  pub initial_value : Bytes → Bytes → S → Option Value
  pub set_default : Bytes → Bytes → Value → S → Result S

pub record TcpAttributes : Type 0 where
  pub clock_granularity_ns : ℤ
  pub init_cwnd_pkt : ℤ
  pub snd_buf_size_byte : ℤ
  pub rcv_buf_size_byte : ℤ
  pub segment_size_byte : ℤ
  pub opt_timestamp_enabled : Bool
  pub opt_sack_enabled : Bool
  pub opt_win_scaling_enabled : Bool
  pub pacing_enabled : Bool
  pub delayed_ack_packet_count : ℤ
  pub no_delay : Bool
  pub max_seg_lifetime_ns : ℤ
  pub min_rto_ns : ℤ
  pub initial_rtt_estimate_ns : ℤ
  pub connection_timeout_ns : ℤ
  pub delayed_ack_timeout_ns : ℤ
  pub persist_timeout_ns : ℤ

-- An attribute with the default of ns-3 that is expected and the value to set.
pub record Setting : Type 0 where
  pub tid_name : Bytes
  pub attribute_name : Bytes
  pub unchanged : Value
  pub value : Value

abbrev pub setting : Bytes → Bytes → Value → Value → Setting
setting tid_name attribute_name unchanged value = record {
  tid_name = tid_name;
  attribute_name = attribute_name;
  unchanged = unchanged;
  value = value;
}

unfoldable pub settings : TcpAttributes → List Setting
settings c =
    setting (codes "ns3::TcpSocketBase") (codes "ClockGranularity") (time_value (pos 1000000))
      (time_value c.clock_granularity_ns)
    ∷ setting (codes "ns3::TcpSocket") (codes "InitialCwnd") (uint_value (pos 10))
        (uint_value c.init_cwnd_pkt)
    ∷ setting (codes "ns3::TcpSocket") (codes "SndBufSize") (uint_value (pos 131072))
        (uint_value c.snd_buf_size_byte)
    ∷ setting (codes "ns3::TcpSocket") (codes "RcvBufSize") (uint_value (pos 131072))
        (uint_value c.rcv_buf_size_byte)
    ∷ setting (codes "ns3::TcpSocket") (codes "SegmentSize") (uint_value (pos 536))
        (uint_value c.segment_size_byte)
    ∷ setting (codes "ns3::TcpSocketBase") (codes "Timestamp") (boolean_value true)
        (boolean_value c.opt_timestamp_enabled)
    ∷ setting (codes "ns3::TcpSocketBase") (codes "Sack") (boolean_value true)
        (boolean_value c.opt_sack_enabled)
    ∷ setting (codes "ns3::TcpSocketBase") (codes "WindowScaling") (boolean_value true)
        (boolean_value c.opt_win_scaling_enabled)
    ∷ setting (codes "ns3::TcpSocketState") (codes "EnablePacing") (boolean_value false)
        (boolean_value c.pacing_enabled)
    ∷ setting (codes "ns3::TcpSocket") (codes "DelAckCount") (uint_value (pos 2))
        (uint_value c.delayed_ack_packet_count)
    ∷ setting (codes "ns3::TcpSocket") (codes "TcpNoDelay") (boolean_value true)
        (boolean_value c.no_delay)
    ∷ setting (codes "ns3::TcpSocketBase") (codes "MaxSegLifetime")
        (double_value (pos 120000000000)) (double_value c.max_seg_lifetime_ns)
    ∷ setting (codes "ns3::TcpSocketBase") (codes "MinRto") (time_value (pos 1000000000))
        (time_value c.min_rto_ns)
    ∷ setting (codes "ns3::RttEstimator") (codes "InitialEstimation") (time_value (pos 1000000000))
        (time_value c.initial_rtt_estimate_ns)
    ∷ setting (codes "ns3::TcpSocket") (codes "ConnTimeout") (time_value (pos 3000000000))
        (time_value c.connection_timeout_ns)
    ∷ setting (codes "ns3::TcpSocket") (codes "DelAckTimeout") (time_value (pos 200000000))
        (time_value c.delayed_ack_timeout_ns)
    ∷ setting (codes "ns3::TcpSocket") (codes "PersistTimeout") (time_value (pos 6000000000))
        (time_value c.persist_timeout_ns)
    ∷ []

abbrev pub basic : TcpAttributes
basic = record {
  clock_granularity_ns = pos 1000000;
  init_cwnd_pkt = pos 10;
  snd_buf_size_byte = pos (131072 * 8192);
  rcv_buf_size_byte = pos (131072 * 8192);
  segment_size_byte = pos 1380;
  opt_timestamp_enabled = true;
  opt_sack_enabled = true;
  opt_win_scaling_enabled = true;
  pacing_enabled = false;
  delayed_ack_packet_count = pos 2;
  no_delay = true;
  max_seg_lifetime_ns = pos 120000000000;
  min_rto_ns = pos 200000000;
  initial_rtt_estimate_ns = pos 1000000000;
  connection_timeout_ns = pos 1000000000;
  delayed_ack_timeout_ns = pos 200000000;
  persist_timeout_ns = pos 6000000000;
}

module _ {S : Type 0} (attributes : Attributes S) where
  -- `GetAttributeInformation`, with its initial value.
  unfoldable pub get_attribute_information : Bytes → Bytes → S → Result Value
  get_attribute_information tid_name attribute_name s =
      elim (attributes.initial_value tid_name attribute_name s) [
        | none ↦ err invalid_argument
        | some v ↦ ok v
      ]

  -- `GetInitialUintValue` and its kin, by the kind of a value, compared with this value.
  unfoldable pub check_initial_value : Bytes → Bytes → Value → S → Result (Unit {0})
  unfolding get_attribute_information
  check_initial_value tid_name attribute_name expected s = do
    v ← get_attribute_information tid_name attribute_name s
    guard (same_kind v expected) invalid_argument
    guard (value_beq v expected) abort

  unfoldable pub set_attribute : Setting → S → Result S
  unfolding check_initial_value
  set_attribute x s = do
    check_initial_value x.tid_name x.attribute_name x.unchanged s
    s' ← attributes.set_default x.tid_name x.attribute_name x.value s
    check_initial_value x.tid_name x.attribute_name x.value s'
    ok s'

  unfoldable pub set_attributes : List Setting → S → Result S
  unfolding set_attribute
  set_attributes [] s = ok s
  set_attributes (x ∷ xs) s = do s' ← set_attribute x s; set_attributes xs s'

  unfoldable pub set_tcp_attributes : TcpAttributes → S → Result S
  unfolding set_attributes settings
  set_tcp_attributes c s = set_attributes (settings c) s

-- A value of the configuration.
unfoldable pub ask_positive : Bytes → BasicSimulation → Call ℤ
ask_positive key s = do
  a ← get_config_param_or_fail key s
  n ← parse_positive_int64 a.0
  ok (n, a.1)

unfoldable pub ask_boolean : Bytes → BasicSimulation → Call Bool
ask_boolean key s = do a ← get_config_param_or_fail key s; b ← parse_boolean a.0; ok (b, a.1)

-- The values of `ConfigureCustom`.
unfoldable pub ask_custom : BasicSimulation → Call TcpAttributes
unfolding ask_positive ask_boolean
ask_custom s = do
  a0 ← ask_positive (codes "tcp_clock_granularity_ns") s
  a1 ← ask_positive (codes "tcp_init_cwnd_pkt") a0.1
  a2 ← ask_positive (codes "tcp_snd_buf_size_byte") a1.1
  a3 ← ask_positive (codes "tcp_rcv_buf_size_byte") a2.1
  a4 ← ask_positive (codes "tcp_segment_size_byte") a3.1
  a5 ← ask_boolean (codes "tcp_opt_timestamp_enabled") a4.1
  a6 ← ask_boolean (codes "tcp_opt_sack_enabled") a5.1
  a7 ← ask_boolean (codes "tcp_opt_win_scaling_enabled") a6.1
  a8 ← ask_boolean (codes "tcp_opt_pacing_enabled") a7.1
  a9 ← ask_positive (codes "tcp_delayed_ack_packet_count") a8.1
  a10 ← ask_boolean (codes "tcp_no_delay") a9.1
  a11 ← ask_positive (codes "tcp_max_seg_lifetime_ns") a10.1
  a12 ← ask_positive (codes "tcp_min_rto_ns") a11.1
  a13 ← ask_positive (codes "tcp_initial_rtt_estimate_ns") a12.1
  a14 ← ask_positive (codes "tcp_connection_timeout_ns") a13.1
  a15 ← ask_positive (codes "tcp_delayed_ack_timeout_ns") a14.1
  a16 ← ask_positive (codes "tcp_persist_timeout_ns") a15.1
  ok (
    record {
      clock_granularity_ns = a0.0;
      init_cwnd_pkt = a1.0;
      snd_buf_size_byte = a2.0;
      rcv_buf_size_byte = a3.0;
      segment_size_byte = a4.0;
      opt_timestamp_enabled = a5.0;
      opt_sack_enabled = a6.0;
      opt_win_scaling_enabled = a7.0;
      pacing_enabled = a8.0;
      delayed_ack_packet_count = a9.0;
      no_delay = a10.0;
      max_seg_lifetime_ns = a11.0;
      min_rto_ns = a12.0;
      initial_rtt_estimate_ns = a13.0;
      connection_timeout_ns = a14.0;
      delayed_ack_timeout_ns = a15.0;
      persist_timeout_ns = a16.0;
    },
    a16.1,
  )

-- What the type of configuration asks to set, if anything.
unfoldable pub choose : Bytes → BasicSimulation → Call (Option TcpAttributes)
unfolding ask_custom
choose config_type s =
    if bytes_beq config_type (codes "default")
    then ok (none, s)
    else if bytes_beq config_type (codes "basic")
    then ok (some basic, s)
    else if bytes_beq config_type (codes "custom")
    then (do c ← ask_custom s; ok (some c.0, c.1))
    else err runtime_error

module _ {S : Type 0} (attributes : Attributes S) where
  unfoldable pub configure : (Bytes → ℤ) → BasicSimulation → S → Result (S × BasicSimulation)
  unfolding choose set_tcp_attributes stamp get_config_param_or_fail
  configure clock s attrs = do
    t ← get_config_param_or_fail (codes "tcp_config") s
    c ← choose t.0 t.1
    attrs' ← elim c.0 [ none ↦ ok attrs | some values ↦ set_tcp_attributes attributes values attrs ]
    ok (attrs', stamp clock (codes "Setup TCP configuration") c.1)
