-- ===== src/Utilization/Finalize.antt =====
-- The tracker from its construction to `FinalizeUtilization`, over any series of trace callbacks.
use basic_sim.Prelude.{
  ℕ, zero, suc, ◌+◌, ◌-◌, ◌*◌, ◌≤◌, ◌<◌, ◌≡◌, refl, Bool, true, false, not, List, [], ◌∷◌, ◌++◌,
  arith, if◌then◌else◌, ◌==◌, append_assoc, append-nil, All, All-append, ◌∙◌, ap,
}
use basic_sim.Prelude.Results.{Result, ok, ◌>>=◌}
use basic_sim.Utilization.{
  Interval, NetDeviceUtilizationTracker, create, phy_tx_begin, phy_tx_end, track_utilization,
  save_partial, finalize_utilization,
}
use basic_sim.Utilization.Busy.{
  Stretch, busy_in, IsChain, table, sum_busy, sum_busy-snoc, sum_busy-table, busy_in-add,
  busy_in-le,
}
use basic_sim.Utilization.Invariant.{Follows, create-Follows, track-Follows}

-- A callback and its time: `true` for `PhyTxBegin`, `false` for `PhyTxEnd`.
abbrev pub Event : Type 0
Event = Bool × ℕ

callback : NetDeviceUtilizationTracker → Event → Result NetDeviceUtilizationTracker
unfolding phy_tx_begin phy_tx_end
callback s (true, now) = phy_tx_begin now s
callback s (false, now) = phy_tx_end now s

callbacks : NetDeviceUtilizationTracker → List Event → Result NetDeviceUtilizationTracker
callbacks s [] = ok s
callbacks s (e ∷ es) = do s' ← callback s e; callbacks s' es

-- A tracker's whole life.
unfoldable pub measure : ℕ → List Event → ℕ → Result NetDeviceUtilizationTracker
unfolding callbacks callback
measure interval_ns es now = do s ← callbacks (create interval_ns) es; finalize_utilization now s

-- The signal that the callbacks tell: before a begin the device was idle, before an end busy, and
-- behind the last event it is as that event left it.
unfoldable pub signal : ℕ → Bool → List Event → ℕ → List Stretch
signal from on [] now = record { from = from; to = now; is_busy = on } ∷ []
signal from on ((next, t) ∷ es) now =
    record { from = from; to = t; is_busy = not next } ∷ signal t next es now

-- The calls come at times that never fall.
abbrev pub IsOrdered : ℕ → List Event → ℕ → Type 0
IsOrdered from [] now = from ≤ now
IsOrdered from ((next, t) ∷ es) now = (from ≤ t) × IsOrdered t es now

-- The interval that is not complete, if it has begun.
unfoldable pub partial : ℕ → List Stretch → ℕ → ℕ → List Interval
partial i h k now =
    if now == k * i
    then []
    else record { start = k * i; end = now; busy = busy_in h (k * i) now } ∷ []

callback_is_track :
    (s : NetDeviceUtilizationTracker) (next : Bool) (t : ℕ)
    → callback s (next, t) ≡ track_utilization next t s
unfolding callback
callback_is_track s true t = refl
callback_is_track s false t = refl

not-not : (b : Bool) → not (not b) ≡ b
not-not true = refl
not-not false = refl

save_partial-Follows :
    (i : ℕ) (h : List Stretch) (k : ℕ) (s : NetDeviceUtilizationTracker) (now : ℕ)
    → Follows i h k s
    → s.prev_time_ns ≡ now
    → (save_partial now s).intervals ≡ table i h k ++ partial i h k now
unfolding save_partial partial
save_partial-Follows i h k s now f e =
    ground (arith, append-nil (table i h k), f.past, f.start_at, f.busy_so_far)

-- What is left in the tracker: the complete intervals, and the one that has begun.
abbrev pub IsMeasured : ℕ → List Stretch → ℕ → NetDeviceUtilizationTracker → Type 0
IsMeasured i h now s =
    (k : ℕ) × (s.intervals ≡ table i h k ++ partial i h k now)
    × (k * i ≤ now)
    × (now < k * i + i)
    × IsChain 0 h now

finalize-Follows :
    (i : ℕ) (h : List Stretch) (k : ℕ) (s : NetDeviceUtilizationTracker) (now : ℕ)
    → 0 < i
    → Follows i h k s
    → s.prev_time_ns ≤ now
    → (s' : NetDeviceUtilizationTracker) × (finalize_utilization now s ≡ ok s')
      × IsMeasured i (h ++ signal s.prev_time_ns s.current_state_is_on [] now) now s'
unfolding finalize_utilization signal
finalize-Follows i h k s now p f le =
    let (k', s', e, f', at, on) = track-Follows i h k s (not s.current_state_is_on) now p f le in
    let f'' = rw not-not at f' in
    (
      save_partial now s',
      rw e,
      (
        k',
        save_partial-Follows i _ k' s' now f'' at,
        omega (arith, f''.begun),
        omega (arith, f''.running),
        rw at at f''.chain,
      ),
    )

measure_from :
    (i : ℕ) (h : List Stretch) (k : ℕ) (s : NetDeviceUtilizationTracker) (es : List Event) (now : ℕ)
    → 0 < i
    → Follows i h k s
    → IsOrdered s.prev_time_ns es now
    → (s' : NetDeviceUtilizationTracker) × ((callbacks s es >>= finalize_utilization now) ≡ ok s')
      × IsMeasured i (h ++ signal s.prev_time_ns s.current_state_is_on es now) now s'
unfolding callbacks signal
measure_from i h k s [] now p f le = finalize-Follows i h k s now p f le
measure_from i h k s ((next, t) ∷ es) now p f (le, les) =
    let (k', s', e, f', at, on) = track-Follows i h k s next t p f le in
    let (s'', e', m) = measure_from i _ k' s' es now p f' (rw at les) in
    (s'', rw (callback_is_track s next t, e) e', rw (at, on, append_assoc) at m)

-- Whatever callbacks come, at times that never fall, the tracker ends with a list that has an entry
-- for each complete interval, of the given length and from time 0 on, and one for the interval that
-- has begun, if any; each entry has exactly the time for which the signal was busy in it.
pub measure-IsMeasured :
    (i : ℕ) (es : List Event) (now : ℕ)
    → 0 < i
    → IsOrdered 0 es now
    → (s : NetDeviceUtilizationTracker) × (measure i es now ≡ ok s)
      × IsMeasured i (signal 0 false es now) now s
unfolding measure create
measure-IsMeasured i es now p ordered =
    measure_from i [] 0 (create i) es now p (create-Follows i p) ordered

sum_busy-partial :
    (i : ℕ) (h : List Stretch) (k now : ℕ)
    → k * i ≤ now
    → sum_busy (table i h k ++ partial i h k now) ≡ busy_in h 0 now
unfolding partial
sum_busy-partial i h k now le = ground (
  arith,
  append-nil (table i h k),
  sum_busy-table i h k,
  sum_busy-snoc (table i h k) (record { start = k * i; end = now; busy = busy_in h (k * i) now }),
  busy_in-add h 0 (k * i) now (omega arith) le,
)

-- No busy time is lost or counted twice: the entries add up to the time for which the signal was
-- busy until the end.
pub sum_busy-measure :
    (i : ℕ) (es : List Event) (now : ℕ)
    → 0 < i
    → IsOrdered 0 es now
    → (s : NetDeviceUtilizationTracker) × (measure i es now ≡ ok s)
      × (sum_busy s.intervals ≡ busy_in (signal 0 false es now) 0 now)
sum_busy-measure i es now p ordered =
    let (s, e, (k, shape, le, lt, chain)) = measure-IsMeasured i es now p ordered in
    (s, e, ap sum_busy shape ∙ sum_busy-partial i _ k now le)

-- An entry is a stretch of time that is not empty and within the run, busy for at most its length.
abbrev pub IsSound : ℕ → Interval → Type 0
IsSound now x = (x.start < x.end) × (x.end ≤ now) × (x.busy ≤ x.end - x.start)

table-IsSound :
    (i : ℕ) (h : List Stretch) (k now : ℕ)
    → 0 < i
    → k * i ≤ now
    → IsChain 0 h now
    → All (IsSound now) (table i h k)
unfolding table
table-IsSound i h zero now p le c = tt
table-IsSound i h (suc k) now p le c =
    let b : suc k * i ≡ k * i + i = grind arith in
    let sub : k * i + i - k * i ≡ i = omega arith in
    All-append (IsSound now) (table i h k) _ (table-IsSound i h k now p (omega arith) c)
      ((omega arith, omega arith, busy_in-le 0 h now (k * i) (k * i + i) c), tt)

-- Every entry is sound, whatever callbacks come at times that never fall.
pub measure-IsSound :
    (i : ℕ) (es : List Event) (now : ℕ)
    → 0 < i
    → IsOrdered 0 es now
    → (s : NetDeviceUtilizationTracker) × (measure i es now ≡ ok s) × All (IsSound now) s.intervals
unfolding partial
measure-IsSound i es now p ordered =
    let (s, e, (k, shape, le, lt, chain)) = measure-IsMeasured i es now p ordered in
    (
      s,
      e,
      rw shape (
          All-append (IsSound now) (table i _ k) _ (table-IsSound i _ k now p le chain)
            (ground (arith, busy_in-le 0 (signal 0 false es now) now (k * i) now chain))),
    )
