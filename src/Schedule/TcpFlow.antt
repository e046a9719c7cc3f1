-- ===== src/Schedule/TcpFlow.antt =====
-- helper/apps/tcp-flow-schedule-reader.cc: an entry, and the line that it is read from.
use basic_sim.Prelude.{ℕ, ◌≡◌, Bool}
use mathlib.Core.Path.{subst}
use basic_sim.Prelude.Int.{ℤ}
use basic_sim.Prelude.Text.{Bytes, codes}
use basic_sim.Prelude.Results.{Result, ok, ◌>>=◌, ◌>>◌, >>=-elim, ok-injective}
use basic_sim.ExpUtil.Split.{split_string_expected}
use basic_sim.ExpUtil.Collections.{at_index}
use basic_sim.Schedule.{number_at, id_at, check_entry, IsEntry, Reader, check_entry_lem, id_at-eq}

pub record TcpFlowScheduleEntry : Type 0 where
  pub tcp_flow_id : ℤ
  pub from_node_id : ℤ
  pub to_node_id : ℤ
  pub size_byte : ℤ
  pub start_time_ns : ℤ
  pub additional_parameters : Bytes
  pub metadata : Bytes

unfoldable pub parse_tcp_flow : (ℤ → Bool) → ℤ → ℕ → ℤ → Bytes → Result TcpFlowScheduleEntry
unfolding number_at
parse_tcp_flow is_valid_endpoint end_time_ns line_counter prev_start_time_ns line = do
  comma_split ← split_string_expected line (codes ",") 7
  tcp_flow_id ← id_at comma_split line_counter
  from_node_id ← number_at comma_split 1
  to_node_id ← number_at comma_split 2
  size_byte ← number_at comma_split 3
  start_time_ns ← number_at comma_split 4
  additional_parameters ← at_index comma_split 5
  metadata ← at_index comma_split 6
  check_entry is_valid_endpoint end_time_ns prev_start_time_ns from_node_id to_node_id start_time_ns
  ok (record {
    tcp_flow_id = tcp_flow_id;
    from_node_id = from_node_id;
    to_node_id = to_node_id;
    size_byte = size_byte;
    start_time_ns = start_time_ns;
    additional_parameters = additional_parameters;
    metadata = metadata;
  })

pub parse_tcp_flow-IsEntry :
    (valid : ℤ → Bool) (end_time : ℤ) (n : ℕ) (prev : ℤ) (line : Bytes) (x : TcpFlowScheduleEntry)
    → parse_tcp_flow valid end_time n prev line ≡ ok x
    → IsEntry valid end_time n prev x.tcp_flow_id x.from_node_id x.to_node_id x.start_time_ns
unfolding parse_tcp_flow
parse_tcp_flow-IsEntry valid end_time n prev line x h =
    >>=-elim (split_string_expected line (codes ",") 7) _ h λ split h0 h1.
      >>=-elim (id_at split n) _ h1 λ id h2 h3. >>=-elim (number_at split 1) _ h3 λ from h4 h5.
        >>=-elim (number_at split 2) _ h5 λ to h6 h7.
          >>=-elim (number_at split 3) _ h7 λ size h8 h9.
            >>=-elim (number_at split 4) _ h9 λ start g0 g1.
              >>=-elim (at_index split 5) _ g1 λ parameters g2 g3.
                >>=-elim (at_index split 6) _ g3 λ metadata g4 g5.
                  >>=-elim (check_entry valid end_time prev from to start) _ g5 λ u g6 g7.
                    subst
                      (λ y.
                        IsEntry valid end_time n prev y.tcp_flow_id y.from_node_id y.to_node_id
                          y.start_time_ns)
                      (ok-injective g7)
                      (check_entry_lem valid end_time id n prev from to start u
                        (id_at-eq split n id h2) g6)

abbrev pub tcp_flows :
    (valid : ℤ → Bool) (end_time : ℤ) → Reader valid end_time TcpFlowScheduleEntry
tcp_flows valid end_time = record {
  id_of = λ x. x.tcp_flow_id;
  from_of = λ x. x.from_node_id;
  to_of = λ x. x.to_node_id;
  start_of = λ x. x.start_time_ns;
  parse_line = parse_tcp_flow valid end_time;
  parse_line-IsEntry = parse_tcp_flow-IsEntry valid end_time;
}
