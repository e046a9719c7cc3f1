-- ===== src/Selectors.antt =====
-- model/core/topology-ptop-queue-selector-default.cc, topology-ptop-receive-error-model-selector-
-- default.cc and topology-ptop-tc-qdisc-selector-default.cc: the texts of queues, error models and
-- queueing disciplines. A factory or helper of ns-3 is the data that it is set up with. Doubles, the
-- rounded-up quotient of two of them and the reading of a queue size by ns-3 are arguments.
pub mod Thresholds
mod Tests
use basic_sim.Prelude.{
  ℕ, suc, ◌-◌, Bool, true, false, not, ◌&&◌, ◌||◌, List, [], ◌∷◌, if◌then◌else◌, length, take, drop,
}
use basic_sim.Prelude.Int.{ℤ, ltb_ℤ}
use basic_sim.Prelude.Text.{Bytes, codes, bytes_beq}
use basic_sim.Prelude.Results.{Result, ok, err, invalid_argument, runtime_error, guard, ◌>>=◌, ◌>>◌}
use basic_sim.ExpUtil.Strings.{trim, starts_with, ends_with}
use basic_sim.ExpUtil.Split.{split_string_expected}
use basic_sim.ExpUtil.Numbers.{Doubles, parse_geq_one_int64, parse_positive_int64, parse_double}
use basic_sim.ExpUtil.Collections.{at_index}

-- Whether a value is `name(...)`, and what stands inside; `opening` holds the parenthesis.
unfoldable pub is_call : Bytes → Bytes → Bool
is_call opening value = starts_with value opening && ends_with value (codes ")")

unfoldable pub inner_part : Bytes → Bytes → Bytes
inner_part opening value = take (length value - suc (length opening)) (drop (length opening) value)

-- All but the last byte.
abbrev pub without_unit : Bytes → Bytes
without_unit value = take (length value - 1) value

-- A size in packets or in bytes, such as "100p" or "100000B".
unfoldable pub check_queue_size : Bytes → Result ℤ
check_queue_size value = do
  guard (ends_with value (codes "p") || ends_with value (codes "B")) runtime_error
  parse_geq_one_int64 (without_unit value)

-- The queues: drop-tail, with its maximum size as ns-3 reads it.
module _ {Q : Type 0} (queue_size : Bytes → Result Q) where
  unfoldable pub parse_queue_value : Bytes → Result Q
  unfolding is_call inner_part check_queue_size
  parse_queue_value value =
      if is_call (codes "drop_tail(") value
      then (do
        n ← check_queue_size (inner_part (codes "drop_tail(") value)
        queue_size (inner_part (codes "drop_tail(") value))
      else err runtime_error

-- The error models: none, or a rate by packet.
pub data ErrorModel (D : Type 0) : Type 0 where
  no_error_model : ErrorModel D
  iid_uniform_random_pkt : D → ErrorModel D

unfoldable pub parse_receive_error_model_value :
    (d : Doubles) → Bytes → Result (ErrorModel d.Double)
unfolding is_call inner_part
parse_receive_error_model_value d value =
    if bytes_beq value (codes "none")
    then ok no_error_model
    else if is_call (codes "iid_uniform_random_pkt(") value
    then (do
      error_rate ← parse_double d (inner_part (codes "iid_uniform_random_pkt(") value)
      guard (not (d.is_negative error_rate || d.is_above_one error_rate)) invalid_argument
      ok (iid_uniform_random_pkt error_rate))
    else err runtime_error

-- The attributes of the RED helper.
pub record Red (D Q : Type 0) : Type 0 where
  pub action_is_ecn : Bool
  pub mean_pkt_size_byte : ℤ
  pub queue_weight : D
  pub min_th_pkt : ℤ
  pub max_th_pkt : ℤ
  pub max_size : Q
  pub max_p : D
  pub wait : Bool
  pub gentle : Bool

pub data TcQdisc (D Q : Type 0) : Type 0 where
  disabled default_qdisc : TcQdisc D Q
  fq_codel : ℤ → ℤ → Q → TcQdisc D Q
  fifo : Q → TcQdisc D Q
  pfifo_fast : Q → TcQdisc D Q
  simple_red : Red D Q → TcQdisc D Q

-- One of two words: true for the first.
unfoldable pub one_of : Bytes → Bytes → Bytes → Result Bool
one_of yes' no' word =
    if bytes_beq word yes'
    then ok true
    else if bytes_beq word no'
    then ok false
    else err invalid_argument

module _ (d : Doubles) {Q : Type 0} (queue_size : Bytes → Result Q) (ceil_div : ℤ → ℤ → ℤ) where
  unfoldable pub parse_fq_codel : Bytes → Result (TcQdisc d.Double Q)
  parse_fq_codel inner = do
    spl ← split_string_expected inner (codes ";") 3
    interval ← at_index spl 0 >>= parse_geq_one_int64
    target ← at_index spl 1 >>= parse_geq_one_int64
    size ← at_index spl 2
    guard (ends_with (trim size) (codes "p")) runtime_error
    n ← parse_geq_one_int64 (without_unit (trim size))
    max_size ← queue_size (trim size)
    ok (fq_codel interval target max_size)

  -- A probability or a weight: above 0 and at most 1.
  unfoldable pub check_unit : d.Double → Result (Unit {0})
  check_unit v = guard (not (d.is_negative v || d.is_zero v || d.is_above_one v)) invalid_argument

  -- The size of the queue in packets, rounded up from bytes.
  unfoldable pub size_in_pkt : Bytes → ℤ → Result ℤ
  unfolding check_queue_size
  size_in_pkt size mean_pkt_size_byte = do
    max_size ← check_queue_size size
    ok (if ends_with size (codes "p") then max_size else ceil_div max_size mean_pkt_size_byte)

  unfoldable pub parse_red : Bytes → Result (Red d.Double Q)
  unfolding check_unit size_in_pkt one_of
  parse_red inner = do
    spl ← split_string_expected inner (codes ";") 9
    action ← at_index spl 0
    action_is_ecn ← one_of (codes "ecn") (codes "drop") (trim action)
    mean_pkt_size_byte ← at_index spl 1 >>= parse_geq_one_int64
    queue_weight ← at_index spl 2 >>= parse_double d
    check_unit queue_weight
    min_th_pkt ← at_index spl 3 >>= parse_positive_int64
    max_th_pkt ← at_index spl 4 >>= parse_positive_int64
    size ← at_index spl 5
    max_size_pkt ← size_in_pkt (trim size) mean_pkt_size_byte
    guard (not (ltb_ℤ max_th_pkt min_th_pkt)) invalid_argument
    guard (not (ltb_ℤ max_size_pkt max_th_pkt)) invalid_argument
    max_p ← at_index spl 6 >>= parse_double d
    check_unit max_p
    wait_word ← at_index spl 7
    wait ← one_of (codes "wait") (codes "no_wait") (trim wait_word)
    gentle_word ← at_index spl 8
    gentle ← one_of (codes "gentle") (codes "not_gentle") (trim gentle_word)
    max_size ← queue_size (trim size)
    ok (record {
      action_is_ecn = action_is_ecn;
      mean_pkt_size_byte = mean_pkt_size_byte;
      queue_weight = queue_weight;
      min_th_pkt = min_th_pkt;
      max_th_pkt = max_th_pkt;
      max_size = max_size;
      max_p = max_p;
      wait = wait;
      gentle = gentle;
    })

  -- A discipline with nothing but a maximum size.
  unfoldable pub parse_sized : Bytes → Result Q
  unfolding check_queue_size
  parse_sized inner = do n ← check_queue_size (trim inner); queue_size (trim inner)

  unfoldable pub parse_tc_qdisc_value : Bytes → Result (TcQdisc d.Double Q)
  unfolding parse_fq_codel parse_red parse_sized is_call inner_part
  parse_tc_qdisc_value value =
      if bytes_beq value (codes "disabled")
      then ok disabled
      else if bytes_beq value (codes "default")
      then ok default_qdisc
      else if is_call (codes "fq_codel(") value
      then parse_fq_codel (inner_part (codes "fq_codel(") value)
      else if is_call (codes "fifo(") value
      then (parse_sized (inner_part (codes "fifo(") value) >>= λ q. ok (fifo q))
      else if is_call (codes "pfifo_fast(") value
      then (parse_sized (inner_part (codes "pfifo_fast(") value) >>= λ q. ok (pfifo_fast q))
      else if is_call (codes "simple_red(") value
      then (parse_red (inner_part (codes "simple_red(") value) >>= λ r. ok (simple_red r))
      else err runtime_error
