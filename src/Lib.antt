-- ===== src/Lib.antt =====
-- basic_sim: the core of basic-sim, a set of modules for the network simulator ns-3, which reads a
-- topology and schedules of applications, sets up the links and the routing, and tracks what the
-- links do.
--
-- How the program's parts meet: a configuration (model/core/exp-util.cc) describes a topology
-- (model/core/topology-ptop.cc). The topology sets up the links and says which nodes may send. The
-- ECMP helper (helper/core/arbiter-ecmp-helper.cc) computes for each node the next hops towards
-- each destination, from which the arbiter of the node (model/core/arbiter-ecmp.cc, over
-- arbiter-ptop.cc and arbiter.cc) chooses one by a hash of the packet; the routing protocol
-- (model/core/ipv4-arbiter-routing.cc) asks it for each packet. The basic simulation
-- (model/core/basic-simulation.cc) holds the configuration and says which nodes belong to this
-- system. The schedulers (helper/apps) read their schedules, whose readers ask the topology for
-- valid endpoints, start the applications (model/apps) of the nodes of this system one after the
-- other and write what became of them. Trackers (model/core/net-device-utilization-tracker.cc,
-- queue-tracker.cc over log-update-helper.h) record what the simulator's callbacks tell; the
-- tracking helpers (helper/core) choose the links and write the records.
--
-- Which file models which part:
--   Prelude: shared names, integers, orders, exceptions as results, texts as bytes, lists.
--   Containers: std::set and std::map as ascending lists, and std::sort.
--   ExpUtil: exp-util.cc: Strings (trim and the like), Split (split_string), Numbers (parse_int64
--     and the other numbers), Collections (sets, lists, maps), Config (read_config and lookups).
--   Topology: topology-ptop.cc: ReadTopologyConfig and ParseTopologyGraph; LinkProperties: the
--     five ParseLink... functions and the edge maps; Setup: SetupLinks; Accepted:
--     ParseTopologyLinkProperties and the way from the configuration to the links. Laws, Nodes,
--     Sound, Coverage and Complete prove what an accepted topology promises.
--   Ecmp: CalculateGlobalState of arbiter-ecmp-helper.cc. Matrix, Graph, Edges, Round and Shortest
--     are on the distances, Candidates and Members on the next hops, Forwarding on packets that
--     follow them.
--   Arbiter: arbiter.cc; Ptop: arbiter-ptop.cc; Hash: arbiter-ecmp.cc; Routing:
--     ipv4-arbiter-routing.cc.
--   Schedule: the loop that the three schedule readers share, as a client of the interface Reader;
--     TcpFlow, UdpBurst and UdpPing fill it.
--   UdpHeaders: udp-burst-header.cc and udp-ping-header.cc.
--   UdpPing: udp-ping-client.cc and udp-ping-server.cc; Timing is on the sends, Replies on the
--     timestamps.
--   UdpBurst: udp-burst-client.cc and udp-burst-server.cc; Sends is on the packets of a burst,
--     Counts on the counters of the server.
--   TcpFlow: tcp-flow-client.cc; SendData is on the sending loop, Steps and Outcome on sequences
--     of callbacks, Progress on the acknowledged bytes. Logs: the detailed logs of the client, with
--     Traces, Changes, Runs and Histories on what each of them gets; Server: tcp-flow-server.cc.
--   Scheduler: what tcp-flow-scheduler.cc, udp-burst-scheduler.cc and udp-ping-scheduler.cc
--     (helper/apps) share, with Starts on the chain of starts; TcpFlows, UdpBursts and UdpPings:
--     what each of them installs and the lines of its results (in UdpBursts, Files has both files,
--     Lines, Hosts and Incoming are on the incoming one). TcpFlows also has
--     helper/apps/client-remote-port-selector.cc and model/apps/ip-tos-generator.cc.
--   BasicSimulation: basic-simulation.cc; Requests is on the keys that are asked for, Systems on
--     the distribution.
--   TcpConfig: helper/apps/tcp-config-helper.cc and helper/core/initial-helpers.cc; Asked is on
--     the values that a configuration asks for, Settings on what is set.
--   LinkTracking: helper/core/ptop-link-net-device-utilization-tracking.cc; Compression is on the
--     merged lines; Queues: ptop-link-net-device-queue-tracking.cc and
--     ptop-link-interface-tc-qdisc-queue-tracking.cc beside it.
--   Selectors: topology-ptop-queue-selector-default.cc,
--     topology-ptop-receive-error-model-selector-default.cc and
--     topology-ptop-tc-qdisc-selector-default.cc; Thresholds is on the attributes of RED.
--   LogUpdate: log-update-helper.h; Abstract has the specification, Refinement relates the helper
--     to it, History and Whole are on runs, Totality on what throws nothing.
--   Utilization: net-device-utilization-tracker.cc; Busy has the specification, Invariant and
--     Finalize relate the tracker to it.
--   QueueTracker: queue-tracker.cc.
-- Each component has a module Tests with runs at concrete inputs.
--
-- State and operations: a class is a record with its fields, a method a function to a new record;
-- fields keep their names without m_, methods are in snake case. An exception is an error value of
-- Result, by its class, without its message; NS_ABORT_MSG and a failed NS_ASSERT are the error
-- abort. Texts that are printed are left out.
--
-- Numbers: int64 values that a text or a check can make negative are the integers of Prelude.Int;
-- times, counters, node ids and indices that never are negative are natural numbers, with
-- subtraction only where it does not pass 0. The parsers check the range of an int64. Distances
-- are at most 100000000 and sums of two fit an int32. Bytes of the hash buffer and the ports have
-- their sizes written out.
--
-- Fuel: where a loop of the program would go on, a run that is out of fuel is an error or none,
-- never a result. The sending loop of a TCP flow has the bytes that remain plus one, and each
-- round that goes on puts at least one byte in; the starts of a schedule have one round for each
-- entry; the sends of a burst have the duration plus one, and each is at least one nanosecond
-- after the one before. The splitting loop has the length of the line plus one, and each round
-- takes the delimiter away; the loop over complete intervals has the time plus one, and each round
-- moves the end of the interval by at least one. Split_string is not called with an empty
-- delimiter, for which the source does not end.
--
-- Parameters: ns-3 (devices, addresses, buffers, packets, the simulator's clock), Hash32, doubles,
-- the TCP socket, the gap between packets, the test whether two utilizations are approximately
-- equal, the reading of a queue size by ns-3, the store of attributes of ns-3, MPI and the wall
-- clock are arguments of the definitions that use them.
--
-- Not modelled: the listening socket of the server of TCP flows, and callbacks of a socket within
-- a call of it; the formatted text files of all results, means and rates, which are doubles, and
-- the names of files; the tracker of queueing disciplines, whose operations are those of the queue
-- tracker; the progress output and the clean-up of the basic simulation; installation helpers and
-- socket generators, which make ns-3 objects, the point-to-point helper with two ends; programs,
-- examples, tests, plots and documents.
pub mod Prelude
pub mod LogUpdate
pub mod Utilization
pub mod Containers
pub mod ExpUtil
pub mod Ecmp
pub mod Topology
pub mod Arbiter
pub mod Schedule
pub mod UdpHeaders
pub mod UdpPing
pub mod QueueTracker
pub mod TcpConfig
pub mod TcpFlow
pub mod BasicSimulation
pub mod Scheduler
pub mod UdpBurst
pub mod LinkTracking
pub mod Selectors
