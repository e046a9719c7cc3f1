-- ===== src/Schedule/Samples.antt =====
-- A schedule of two flows, for the tests.
use basic_sim.Prelude.{◌≡◌, refl, Bool, List, [], ◌∷◌}
use basic_sim.Prelude.Int.{ℤ, pos, ltb_ℤ}
use basic_sim.Prelude.Text.{Bytes, codes, bytes_beq}
use basic_sim.Prelude.Results.{ok}
use basic_sim.ExpUtil.Strings
use basic_sim.ExpUtil.Strings.{trim, is_space, left_trim}
use basic_sim.ExpUtil.Split.{split_string, split_string_expected}
use basic_sim.ExpUtil.Numbers.{
  parse_positive_int64, parse_int64, stoll, digits_prefix, is_digit, fits_int64, value, signed,
}
use basic_sim.ExpUtil.Config.{text}
use basic_sim.Schedule.{read_schedule, check_entry, id_at}
use basic_sim.Schedule.TcpFlow.{TcpFlowScheduleEntry, tcp_flows, parse_tcp_flow}

-- Nodes below 4 are endpoints.
abbrev pub below_four : ℤ → Bool
below_four v = ltb_ℤ v (pos 4)

abbrev pub flow_lines : List Bytes
flow_lines = codes "0,0,1,1000,5,," ∷ codes "1,3,2,99,5,x,y" ∷ []

abbrev pub flows : List TcpFlowScheduleEntry
flows =
    record {
      tcp_flow_id = pos 0;
      from_node_id = pos 0;
      to_node_id = pos 1;
      size_byte = pos 1000;
      start_time_ns = pos 5;
      additional_parameters = [];
      metadata = [];
    }
    ∷ record {
      tcp_flow_id = pos 1;
      from_node_id = pos 3;
      to_node_id = pos 2;
      size_byte = pos 99;
      start_time_ns = pos 5;
      additional_parameters = codes "x";
      metadata = codes "y";
    }
    ∷ []

pub flows_read : read_schedule (tcp_flows below_four (pos 10)) (text flow_lines) ≡ ok flows
unfolding read_schedule parse_tcp_flow check_entry id_at trim is_space left_trim split_string
    split_string_expected Strings.find bytes_beq parse_positive_int64 parse_int64 stoll
    digits_prefix is_digit fits_int64 value signed
flows_read = refl
