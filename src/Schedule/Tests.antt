-- ===== src/Schedule/Tests.antt =====
-- A schedule of two flows is read.
use basic_sim.Prelude.{◌≡◌, length}
use basic_sim.Prelude.Int.{pos}
use basic_sim.Schedule.{IsSchedule, read_schedule_sound}
use basic_sim.Schedule.TcpFlow.{tcp_flows}
use basic_sim.Schedule.Samples.{below_four, flow_lines, flows, flows_read}

read_schedule_sound_example :
    (length flows ≡ length flow_lines) × IsSchedule (tcp_flows below_four (pos 10)) 0 (pos 0) flows
read_schedule_sound_example =
    read_schedule_sound (tcp_flows below_four (pos 10)) flow_lines flows flows_read
