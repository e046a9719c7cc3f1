-- ===== src/Schedule/UdpPing.antt =====
-- helper/apps/udp-ping-schedule-reader.cc: an entry, and the line that it is read from.
use basic_sim.Prelude.{ℕ, ◌≡◌, Bool, not}
use mathlib.Core.Path.{subst}
use basic_sim.Prelude.Int.{ℤ, pos, eqb_ℤ}
use basic_sim.Prelude.Text.{Bytes, codes}
use basic_sim.Prelude.Results.{
  Result, ok, invalid_argument, guard, ◌>>=◌, ◌>>◌, >>=-elim, guard-eq-ok, ok-injective,
}
use basic_sim.ExpUtil.Split.{split_string_expected}
use basic_sim.ExpUtil.Collections.{at_index}
use basic_sim.Schedule.{number_at, id_at, check_entry, IsEntry, Reader, check_entry_lem, id_at-eq}

pub record UdpPingInfo : Type 0 where
  pub udp_ping_id : ℤ
  pub from_node_id : ℤ
  pub to_node_id : ℤ
  pub interval_ns : ℤ
  pub start_time_ns : ℤ
  pub duration_ns : ℤ
  pub wait_afterwards_ns : ℤ
  pub additional_parameters : Bytes
  pub metadata : Bytes

unfoldable pub parse_udp_ping : (ℤ → Bool) → ℤ → ℕ → ℤ → Bytes → Result UdpPingInfo
unfolding number_at
parse_udp_ping is_valid_endpoint end_time_ns line_counter prev_start_time_ns line = do
  comma_split ← split_string_expected line (codes ",") 9
  udp_ping_id ← id_at comma_split line_counter
  from_node_id ← number_at comma_split 1
  to_node_id ← number_at comma_split 2
  interval_ns ← number_at comma_split 3
  start_time_ns ← number_at comma_split 4
  duration_ns ← number_at comma_split 5
  wait_afterwards_ns ← number_at comma_split 6
  additional_parameters ← at_index comma_split 7
  metadata ← at_index comma_split 8
  guard (not (eqb_ℤ interval_ns (pos 0))) invalid_argument
  check_entry is_valid_endpoint end_time_ns prev_start_time_ns from_node_id to_node_id start_time_ns
  ok (record {
    udp_ping_id = udp_ping_id;
    from_node_id = from_node_id;
    to_node_id = to_node_id;
    interval_ns = interval_ns;
    start_time_ns = start_time_ns;
    duration_ns = duration_ns;
    wait_afterwards_ns = wait_afterwards_ns;
    additional_parameters = additional_parameters;
    metadata = metadata;
  })

pub parse_udp_ping-IsEntry :
    (valid : ℤ → Bool) (end_time : ℤ) (n : ℕ) (prev : ℤ) (line : Bytes) (x : UdpPingInfo)
    → parse_udp_ping valid end_time n prev line ≡ ok x
    → IsEntry valid end_time n prev x.udp_ping_id x.from_node_id x.to_node_id x.start_time_ns
unfolding parse_udp_ping
parse_udp_ping-IsEntry valid end_time n prev line x h =
    >>=-elim (split_string_expected line (codes ",") 9) _ h λ split h0 k0.
      >>=-elim (id_at split n) _ k0 λ udp_ping_id h1 k1.
        >>=-elim (number_at split 1) _ k1 λ from h2 k2.
          >>=-elim (number_at split 2) _ k2 λ to h3 k3.
            >>=-elim (number_at split 3) _ k3 λ interval_ns h4 k4.
              >>=-elim (number_at split 4) _ k4 λ start h5 k5.
                >>=-elim (number_at split 5) _ k5 λ duration_ns h6 k6.
                  >>=-elim (number_at split 6) _ k6 λ wait_afterwards_ns h7 k7.
                    >>=-elim (at_index split 7) _ k7 λ additional_parameters h8 k8.
                      >>=-elim (at_index split 8) _ k8 λ metadata h9 k9.
                        let (nonzero, g0) =
                          guard-eq-ok (not (eqb_ℤ interval_ns (pos 0))) invalid_argument _ k9 in
                        >>=-elim (check_entry valid end_time prev from to start) _ g0 λ u g1 g2.
                          subst
                            (λ (y : UdpPingInfo).
                              IsEntry valid end_time n prev y.udp_ping_id y.from_node_id
                                y.to_node_id y.start_time_ns)
                            (ok-injective g2)
                            (check_entry_lem valid end_time udp_ping_id n prev from to start u
                              (id_at-eq split n udp_ping_id h1) g1)

abbrev pub udp_pings : (valid : ℤ → Bool) (end_time : ℤ) → Reader valid end_time UdpPingInfo
udp_pings valid end_time = record {
  id_of = λ x. x.udp_ping_id;
  from_of = λ x. x.from_node_id;
  to_of = λ x. x.to_node_id;
  start_of = λ x. x.start_time_ns;
  parse_line = parse_udp_ping valid end_time;
  parse_line-IsEntry = parse_udp_ping-IsEntry valid end_time;
}
