-- ===== src/LinkTracking/Queues.antt =====
-- helper/core/ptop-link-net-device-queue-tracking.cc and ptop-link-interface-tc-qdisc-queue-tracking.cc:
-- the trackers of the queues of links, and the lines of their logs. The tracker of a queueing
-- discipline (model/core/qdisc-queue-tracker.cc) does what that of a queue does. Node ids, which are
-- written as int, are below 2 ^ 31. The links come from a set, so that sorting them again changes
-- nothing.
use basic_sim.Prelude.{ℕ, ◌≡◌, refl, Bool, Option, List, [], ◌∷◌, ◌++◌, map, All}
use basic_sim.Prelude.Int.{ℤ}
use basic_sim.Prelude.Text.{Bytes, codes}
use basic_sim.Prelude.Results.{
  Result, ok, invalid_argument, guard, ◌>>=◌, ◌>>◌, map_result, >>=-elim,
}
use basic_sim.BasicSimulation.{BasicSimulation, Call, stamp}
use basic_sim.Scheduler.{if_enabled}
use basic_sim.LogUpdate.{LogUpdateHelper, Entry}
use basic_sim.QueueTracker.{
  QueueTracker, Event, IsOrdered, Tells, create_tracker, callbacks, packets_of, bytes_of,
  get_intervals_num_packets, get_intervals_num_bytes, tracker_lem,
}
use basic_sim.LinkTracking.{tracked_links}

abbrev pub Link : Type 0
Link = ℤ × ℤ

-- A new tracker for each link.
unfoldable pub track_queues : List Link → Result (List (Link × QueueTracker))
track_queues = map_result (λ link. do tracker ← create_tracker; ok (link, tracker))

-- A link without a queueing discipline at its interface cannot be tracked.
unfoldable pub track_qdiscs : (Link → Bool) → List Link → Result (List (Link × QueueTracker))
track_qdiscs has_qdisc = map_result (λ link. do
  guard (has_qdisc link) invalid_argument
  tracker ← create_tracker
  ok (link, tracker))

unfoldable pub set_up_queues :
    (Bytes → ℤ) → List Link → BasicSimulation → Call (List (Link × QueueTracker))
unfolding track_queues tracked_links stamp
set_up_queues clock links_set s = do
  links ← tracked_links (codes "link_net_device_queue_tracking_enable_for_links") links_set s
  trackers ← track_queues links.0
  ok (
    trackers,
    stamp clock (codes "Remove previous link (net-device) queue tracking log files")
        (stamp clock (codes "Install link (net-device) queue trackers") links.1),
  )

unfoldable pub set_up_qdiscs :
    (Link → Bool) → (Bytes → ℤ) → List Link → BasicSimulation → Call (List (Link × QueueTracker))
unfolding track_qdiscs tracked_links stamp
set_up_qdiscs has_qdisc clock links_set s = do
  links ←
      tracked_links (codes "link_interface_tc_qdisc_queue_tracking_enable_for_links") links_set s
  trackers ← track_qdiscs has_qdisc links.0
  ok (
    trackers,
    stamp clock
        (codes "Remove previous link (interface traffic-control) qdisc queue tracking log files")
        (stamp clock (codes "Install link (interface traffic-control) qdisc queue trackers")
          links.1),
  )

unfoldable pub construct_queues :
    (Bytes → ℤ) → List Link → BasicSimulation → Call (Option (List (Link × QueueTracker)))
unfolding set_up_queues if_enabled
construct_queues clock links_set =
    if_enabled (codes "enable_link_net_device_queue_tracking") (set_up_queues clock links_set)

unfoldable pub construct_qdiscs :
    (Link → Bool)
    → (Bytes → ℤ)
    → List Link
    → BasicSimulation
    → Call (Option (List (Link × QueueTracker)))
unfolding set_up_qdiscs if_enabled
construct_qdiscs has_qdisc clock links_set =
    if_enabled (codes "enable_link_interface_tc_qdisc_queue_tracking")
      (set_up_qdiscs has_qdisc clock links_set)

-- The lines of a log: the link and an interval with its value.
abbrev pub lines_with : Link → LogUpdateHelper ℤ → List (Link × Entry ℤ)
lines_with link log = map (λ entry. (link, entry)) log.log_time_value

-- The lines of the packets and those of the bytes.
unfoldable pub write_results :
    ℕ → List (Link × QueueTracker) → Result (List (Link × Entry ℤ) × List (Link × Entry ℤ))
write_results now [] = ok ([], [])
write_results now ((link, tracker) ∷ trackers) = do
  pkt ← get_intervals_num_packets now tracker
  byte ← get_intervals_num_bytes now tracker
  rest ← write_results now trackers
  ok (lines_with link pkt ++ rest.0, lines_with link byte ++ rest.1)

-- The links with what their queues tell, over a whole run: each gets a new tracker, which takes the
-- callbacks of its queue.
unfoldable pub observe : List (Link × List Event) → Result (List (Link × QueueTracker))
observe [] = ok []
observe ((link, es) ∷ xs) = do
  tracker ← create_tracker
  tracker' ← callbacks es tracker
  rest ← observe xs
  ok ((link, tracker') ∷ rest)

-- The lines of one measure: for each link in its turn those of a log that tells what the queue told.
abbrev pub AreLines :
    (List Event → List (ℕ × ℤ)) → ℕ → List (Link × List Event) → List (Link × Entry ℤ) → Type 0
AreLines measure end [] lines = lines ≡ []
AreLines measure end ((link, es) ∷ xs) lines =
    (log : LogUpdateHelper ℤ) × (rest : List (Link × Entry ℤ)) × Tells (measure es) end log
    × (lines ≡ lines_with link log ++ rest)
    × AreLines measure end xs rest

pub write_results-observe :
    (xs : List (Link × List Event)) (end : ℕ)
    → All (λ (x : Link × List Event). IsOrdered 0 x.1 end) xs
    → (pkts : List (Link × Entry ℤ)) × (bytes : List (Link × Entry ℤ)) × ((observe xs
          >>= write_results end)
        ≡ ok (pkts, bytes))
      × AreLines packets_of end xs pkts
      × AreLines bytes_of end xs bytes
unfolding observe write_results
write_results-observe [] end h = ([], [], refl, refl, refl)
write_results-observe ((link, es) ∷ xs) end h =
    let (start, s, pkt, byte, e1, e2, e3, e4, tp, tb) = tracker_lem es end h.0 in
    let (pkts, bytes, e, ps, bs) = write_results-observe xs end h.1 in
    >>=-elim (observe xs) _ e λ trackers o w. (
      lines_with link pkt ++ pkts,
      lines_with link byte ++ bytes,
      rw (e1, e2, o, e3, e4, w) refl,
      (pkt, pkts, tp, refl, ps),
      (byte, bytes, tb, refl, bs),
    )
