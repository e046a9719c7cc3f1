-- ===== src/Selectors/Tests.antt =====
-- A RED queue, with doubles that are read as whole hundredths.
use basic_sim.Prelude.{ℕ, ◌+◌, ◌-◌, ◌/◌, ◌≡◌, refl, true, false, ◌==◌, ltb, if◌then◌else◌, length}
use basic_sim.Prelude.Int.{ℤ, pos, pos_part}
use basic_sim.Prelude.Text.{Bytes, codes, bytes_beq}
use basic_sim.Prelude.Results.{Result, ok, err, runtime_error}
use basic_sim.ExpUtil.Strings
use basic_sim.ExpUtil.Strings.{trim, is_space, left_trim, right_trim, starts_with, ends_with}
use basic_sim.ExpUtil.Split.{split_loop, split_string, split_string_expected}
use basic_sim.ExpUtil.Numbers.{
  Doubles, parse_double, parse_geq_one_int64, parse_positive_int64, parse_int64, stoll,
  digits_prefix, is_digit, fits_int64, value, signed, read_digits, read_signed,
}
use basic_sim.Selectors.{Red, simple_red, parse_tc_qdisc_value, parse_queue_value}
use basic_sim.Selectors.Thresholds.{IsRed, parse_tc_qdisc_value-IsRed}

-- "1.0" and any other text are one and a half.
abbrev hundredths : Doubles
hundredths = record {
  Double = ℕ;
  stod = λ s. ok (if bytes_beq s (codes "1.0") then 100 else 50, length s);
  is_negative = λ v. false;
  is_zero = λ v. v == 0;
  is_above_one = λ v. ltb 100 v;
}

abbrev as_text : Bytes → Result Bytes
as_text s = ok s

abbrev rounded_up : ℤ → ℤ → ℤ
rounded_up a b = pos ((pos_part a + pos_part b - 1) / pos_part b)

abbrev red_value : Bytes
red_value = codes "simple_red(ecn; 1500; 1.0; 10; 20; 45000B; 0.5; wait; not_gentle)"

abbrev red : Red ℕ Bytes
red = record {
  action_is_ecn = true;
  mean_pkt_size_byte = pos 1500;
  queue_weight = 100;
  min_th_pkt = pos 10;
  max_th_pkt = pos 20;
  max_size = codes "45000B";
  max_p = 50;
  wait = true;
  gentle = false;
}

red_parsed : parse_tc_qdisc_value hundredths as_text rounded_up red_value ≡ ok (simple_red red)
unfolding parse_tc_qdisc_value bytes_beq starts_with ends_with split_string_expected split_string
    split_loop Strings.find trim left_trim right_trim is_space parse_geq_one_int64
    parse_positive_int64 parse_int64 parse_double stoll digits_prefix is_digit fits_int64 value
    signed read_digits read_signed
red_parsed = refl

parse_tc_qdisc_value-IsRed_example : IsRed hundredths as_text rounded_up red
parse_tc_qdisc_value-IsRed_example =
    parse_tc_qdisc_value-IsRed hundredths as_text rounded_up red_value red red_parsed

drop_tail_refused : parse_queue_value as_text (codes "drop_tail(100)") ≡ err runtime_error
unfolding parse_queue_value starts_with ends_with bytes_beq
drop_tail_refused = refl
