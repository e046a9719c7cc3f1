-- ===== src/QueueTracker.antt =====
-- model/core/queue-tracker.cc: two logs, of the packets and of the bytes of a queue, that the
-- queue's callbacks keep. The time of a callback is the simulator's clock, an argument.
mod Tests
use basic_sim.Prelude.{
  ℕ, ◌≤◌, ◌≡◌, refl, sym, ◌∙◌, ap, Bool, true, false, List, [], ◌∷◌, arith, if◌then◌else◌, ltb, map,
  Option, none, some,
}
use mathlib.Core.Path.{subst}
use basic_sim.Prelude.Int.{ℤ, pos, negsuc, int_eq}
use basic_sim.Prelude.Results.{Result, ok, ◌>>=◌, >>=-elim, ok-injective}
use basic_sim.LogUpdate.{LogUpdateHelper, create, update, finalize, run}
use basic_sim.LogUpdate.Abstract.{Segment, IsAscending, entry_at, written_at}
use basic_sim.LogUpdate.Refinement.{to_entry}
use basic_sim.LogUpdate.History.{timed, last_of}
use basic_sim.LogUpdate.Whole.{record_history, log_values}

pub record QueueTracker : Type 0 where
  pub queue_pkt : LogUpdateHelper ℤ
  pub queue_byte : LogUpdateHelper ℤ

-- A log that begins with 0 at time 0.
unfoldable pub started_log : Result (LogUpdateHelper ℤ)
started_log = do helper ← create (negsuc 0) true false; update helper (pos 0) (pos 0)

unfoldable pub create_tracker : Result QueueTracker
unfolding started_log
create_tracker = do
  pkt ← started_log
  byte ← started_log
  ok (record { queue_pkt = pkt; queue_byte = byte })

unfoldable pub packets_in_queue_callback : ℕ → ℕ → QueueTracker → Result QueueTracker
packets_in_queue_callback now num_packets s = do
  pkt ← update s.queue_pkt (pos now) (pos num_packets)
  ok (record s { queue_pkt = pkt })

unfoldable pub bytes_in_queue_callback : ℕ → ℕ → QueueTracker → Result QueueTracker
bytes_in_queue_callback now num_bytes s = do
  byte ← update s.queue_byte (pos now) (pos num_bytes)
  ok (record s { queue_byte = byte })

unfoldable pub get_intervals_num_packets : ℕ → QueueTracker → Result (LogUpdateHelper ℤ)
get_intervals_num_packets now s = finalize s.queue_pkt (pos now)

unfoldable pub get_intervals_num_bytes : ℕ → QueueTracker → Result (LogUpdateHelper ℤ)
get_intervals_num_bytes now s = finalize s.queue_byte (pos now)

-- What the queue tells, with its time.
pub data Event : Type 0 where
  packets : ℕ → ℕ → Event
  bytes : ℕ → ℕ → Event

unfoldable pub callbacks : List Event → QueueTracker → Result QueueTracker
unfolding packets_in_queue_callback bytes_in_queue_callback
callbacks [] s = ok s
callbacks (packets now n ∷ es) s = do s' ← packets_in_queue_callback now n s; callbacks es s'
callbacks (bytes now n ∷ es) s = do s' ← bytes_in_queue_callback now n s; callbacks es s'

unfoldable pub packets_of : List Event → List (ℕ × ℤ)
packets_of [] = []
packets_of (packets now n ∷ es) = (now, pos n) ∷ packets_of es
packets_of (bytes now n ∷ es) = packets_of es

unfoldable pub bytes_of : List Event → List (ℕ × ℤ)
bytes_of [] = []
bytes_of (packets now n ∷ es) = bytes_of es
bytes_of (bytes now n ∷ es) = (now, pos n) ∷ bytes_of es

-- The clock does not go back.
abbrev pub IsOrdered : ℕ → List Event → ℕ → Type 0
IsOrdered from [] end = from ≤ end
IsOrdered from (packets now n ∷ es) end = (from ≤ now) × IsOrdered now es end
IsOrdered from (bytes now n ∷ es) end = (from ≤ now) × IsOrdered now es end

-- The two logs do not disturb each other.
callbacks-run :
    (es : List Event) (s : QueueTracker) (p b : LogUpdateHelper ℤ)
    → run s.queue_pkt (timed (packets_of es)) ≡ ok p
    → run s.queue_byte (timed (bytes_of es)) ≡ ok b
    → callbacks es s ≡ ok (record { queue_pkt = p; queue_byte = b })
unfolding callbacks packets_of bytes_of timed run
callbacks-run [] s p b h k = cc (ok-injective h, ok-injective k)
callbacks-run (packets now n ∷ es) s p b h k =
    >>=-elim (update s.queue_pkt (pos now) (pos n)) _ h
      λ pkt e h'. rw e (callbacks-run es (record s { queue_pkt = pkt }) p b h' k)
callbacks-run (bytes now n ∷ es) s p b h k =
    >>=-elim (update s.queue_byte (pos now) (pos n)) _ k
      λ byte e k'. rw e (callbacks-run es (record s { queue_byte = byte }) p b h k')

weaken :
    (from from' end : ℕ) (us : List (ℕ × ℤ))
    → from ≤ from'
    → IsAscending from' us × (last_of from' us ≤ end)
    → IsAscending from us × (last_of from us ≤ end)
unfolding last_of
weaken from from' end [] le h = (tt, omega (arith, h.1))
weaken from from' end (u ∷ us) le h = ((omega (arith, h.0.0), h.0.1), h.1)

ordered-packets :
    (from : ℕ) (es : List Event) (end : ℕ)
    → IsOrdered from es end
    → IsAscending from (packets_of es) × (last_of from (packets_of es) ≤ end)
unfolding packets_of last_of
ordered-packets from [] end h = (tt, h)
ordered-packets from (packets now n ∷ es) end h =
    let rest = ordered-packets now es end h.1 in ((h.0, rest.0), rest.1)
ordered-packets from (bytes now n ∷ es) end h =
    weaken from now end (packets_of es) h.0 (ordered-packets now es end h.1)

ordered-bytes :
    (from : ℕ) (es : List Event) (end : ℕ)
    → IsOrdered from es end
    → IsAscending from (bytes_of es) × (last_of from (bytes_of es) ≤ end)
unfolding bytes_of last_of
ordered-bytes from [] end h = (tt, h)
ordered-bytes from (bytes now n ∷ es) end h =
    let rest = ordered-bytes now es end h.1 in ((h.0, rest.0), rest.1)
ordered-bytes from (packets now n ∷ es) end h =
    weaken from now end (bytes_of es) h.0 (ordered-bytes now es end h.1)

-- The log `s` tells at each time before the end what the history wrote last.
abbrev pub Tells : List (ℕ × ℤ) → ℕ → LogUpdateHelper ℤ → Type 0
Tells us end s =
    (ss : List (Segment ℤ)) × (s.log_time_value ≡ map to_entry ss)
    × ((x : ℕ) → entry_at ss x ≡ (if ltb x end then written_at ((0, pos 0) ∷ us) x none else none))

-- A log's part of a run: it is started, updated and finalized.
log_part :
    (us : List (ℕ × ℤ)) (end : ℕ)
    → IsAscending 0 us
    → last_of 0 us ≤ end
    → (first : LogUpdateHelper ℤ) × (last : LogUpdateHelper ℤ) × (s : LogUpdateHelper ℤ)
      × (started_log ≡ ok first)
      × (run first (timed us) ≡ ok last)
      × (finalize last (pos end) ≡ ok s)
      × Tells us end s
unfolding started_log record_history run timed
log_part us end up le =
    let (s, ss, h, e, values) = log_values (negsuc 0) false 0 (pos 0) us end up le in
    >>=-elim (create (negsuc 0) true false) _ h λ c h0 h1.
      >>=-elim (run c (timed ((0, pos 0) ∷ us))) _ h1 λ last h2 h3.
        >>=-elim (update c (pos 0) (pos 0)) _ h2
          λ first h4 h5. (first, last, s, rw h0 h4, h5, h3, (ss, e, values))

-- Whatever the order of the callbacks on the two measures: with a clock that does not go back, the
-- tracker is made, takes every callback and gives both logs; each tells, at each time before the
-- end, the number that its own measure had last, and 0 before the first callback.
pub tracker_lem :
    (es : List Event) (end : ℕ)
    → IsOrdered 0 es end
    → (start : QueueTracker) × (s : QueueTracker) × (pkt : LogUpdateHelper ℤ)
      × (byte : LogUpdateHelper ℤ) × (create_tracker ≡ ok start)
      × (callbacks es start ≡ ok s)
      × (get_intervals_num_packets end s ≡ ok pkt)
      × (get_intervals_num_bytes end s ≡ ok byte)
      × Tells (packets_of es) end pkt
      × Tells (bytes_of es) end byte
unfolding create_tracker get_intervals_num_packets get_intervals_num_bytes
tracker_lem es end h =
    let p = ordered-packets 0 es end h in
    let b = ordered-bytes 0 es end h in
    let (first, lp, sp, e1, e2, e3, tp) = log_part (packets_of es) end p.0 p.1 in
    let (first', lb, sb, f1, f2, f3, tb) = log_part (bytes_of es) end b.0 b.1 in
    let start : QueueTracker = record { queue_pkt = first; queue_byte = first' } in
    (
      start,
      record { queue_pkt = lp; queue_byte = lb },
      sp,
      sb,
      ground (arith, e1, f1),
      callbacks-run es start lp lb e2 f2,
      e3,
      f3,
      tp,
      tb,
    )
