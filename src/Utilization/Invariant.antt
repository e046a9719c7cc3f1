-- ===== src/Utilization/Invariant.antt =====
-- What the tracker's state says of the signal so far, before and during a call.
use Prim.Native.Nat.{max}
use basic_sim.Prelude.{
  ℕ, zero, suc, ◌+◌, ◌-◌, ◌*◌, ◌≤◌, ◌<◌, ◌≡◌, refl, sym, Bool, true, false, not, List, [], ◌∷◌,
  ◌++◌, arith, if◌then◌else◌, leb, ◌∙◌, inl, inr, Bool-cases,
}
use basic_sim.Prelude.Results.{ok}
use basic_sim.Utilization.{
  NetDeviceUtilizationTracker, create, count_until, save_interval, end_interval, end_intervals,
  track_utilization,
}
use basic_sim.Utilization.Busy.{
  Stretch, overlap, busy_in, IsChain, IsChain-snoc, busy_in-snoc, busy_in-beyond, busy_in_self,
  table, table-snoc,
}

-- The state after the history `h`, with `k` complete intervals of length `i`.
pub record Follows (i : ℕ) (h : List Stretch) (k : ℕ) (s : NetDeviceUtilizationTracker)
    : Type 0 where
  pub length_kept : s.interval_ns ≡ i
  pub start_at : s.current_interval_start ≡ k * i
  pub end_at : s.current_interval_end ≡ k * i + i
  pub past : s.intervals ≡ table i h k
  pub begun : k * i ≤ s.prev_time_ns
  pub running : s.prev_time_ns < k * i + i
  pub busy_so_far : s.busy_time_counter_ns ≡ busy_in h (k * i) s.prev_time_ns
  pub counted : s.idle_time_counter_ns + s.busy_time_counter_ns + k * i ≡ s.prev_time_ns
  pub chain : IsChain 0 h s.prev_time_ns

pub create-Follows : (i : ℕ) → 0 < i → Follows i [] 0 (create i)
unfolding create
create-Follows i p = record {
  length_kept = refl;
  start_at = omega arith;
  end_at = omega arith;
  past = unfold table in refl;
  begun = omega arith;
  running = omega arith;
  busy_so_far = unfold busy_in in refl;
  counted = omega arith;
  chain = refl;
}

-- The assertion of a round, by what the counters say before it.
round :
    (next : Bool) (s : NetDeviceUtilizationTracker) (i k : ℕ)
    → s.idle_time_counter_ns + s.busy_time_counter_ns + k * i ≡ s.prev_time_ns
    → s.prev_time_ns < k * i + i
    → s.current_interval_end ≡ k * i + i
    → s.interval_ns ≡ i
    → end_interval next s ≡ ok (save_interval (count_until next s.current_interval_end s))
unfolding end_interval count_until
round true s i k p q r t = ground arith
round false s i k p q r t = ground arith

module _ (i : ℕ) (h : List Stretch) (from now : ℕ) (next : Bool) (chain : IsChain 0 h from) where
  -- The history with the stretch that the call ends.
  abbrev extended : List Stretch
  extended = h ++ record { from = from; to = now; is_busy = not next } ∷ []

  -- The state between two rounds of the loop.
  record Mid (k : ℕ) (s : NetDeviceUtilizationTracker) : Type 0 where
    length_kept : s.interval_ns ≡ i
    start_at : s.current_interval_start ≡ k * i
    end_at : s.current_interval_end ≡ k * i + i
    past : s.intervals ≡ table i extended k
    prev_at : s.prev_time_ns ≡ max from (k * i)
    running : s.prev_time_ns < k * i + i
    reached : s.prev_time_ns ≤ now
    busy_so_far : s.busy_time_counter_ns ≡ busy_in extended (k * i) s.prev_time_ns
    counted : s.idle_time_counter_ns + s.busy_time_counter_ns + k * i ≡ s.prev_time_ns

  busy_in-more :
      (a p q : ℕ)
      → from ≤ p
      → a ≤ p
      → p ≤ q
      → q ≤ now
      → busy_in extended a q ≡ busy_in extended a p + (if not next then q - p else 0)
  unfolding overlap
  busy_in-more a p q fp ap pq qn = ground (
    arith,
    busy_in-snoc h (record { from = from; to = now; is_busy = not next }) a q,
    busy_in-snoc h (record { from = from; to = now; is_busy = not next }) a p,
    busy_in-beyond 0 h from a p chain,
    busy_in-beyond 0 h from a q chain,
  )

  start-Mid :
      (k : ℕ) (s : NetDeviceUtilizationTracker)
      → Follows i h k s
      → s.prev_time_ns ≡ from
      → from ≤ now
      → Mid k s
  unfolding overlap
  start-Mid k s f e le = record {
    length_kept = f.length_kept;
    start_at = f.start_at;
    end_at = f.end_at;
    past = f.past ∙ sym (table-snoc i h _ k (omega (arith, f.begun)));
    prev_at = omega (arith, f.begun);
    running = f.running;
    reached = omega arith;
    busy_so_far = ground (
      arith,
      f.busy_so_far,
      busy_in-snoc h (record { from = from; to = now; is_busy = not next }) (k * i) from,
    );
    counted = f.counted;
  }

  abbrev completed : NetDeviceUtilizationTracker → NetDeviceUtilizationTracker
  completed s = save_interval (count_until next s.current_interval_end s)

  -- A round of the loop passes the assertion.
  end_interval-completed :
      (k : ℕ) (s : NetDeviceUtilizationTracker) → Mid k s → end_interval next s ≡ ok (completed s)
  unfolding end_interval count_until
  end_interval-completed k s m = round next s i k m.counted m.running m.end_at m.length_kept

  completed-Mid :
      (k : ℕ) (s : NetDeviceUtilizationTracker)
      → Mid k s
      → s.current_interval_end ≤ now
      → 0 < i
      → Mid (suc k) (completed s)
  unfolding save_interval count_until
  completed-Mid k s m le p =
      let b : suc k * i ≡ k * i + i = grind arith in
      let more =
        busy_in-more (k * i) s.prev_time_ns (k * i + i) (omega arith) (omega arith) (omega arith)
          (omega arith) in
      record {
        length_kept = ground arith;
        start_at = ground (arith, b);
        end_at = ground (arith, b);
        past = unfold table in ground (arith, more);
        prev_at = ground (arith, b);
        running = ground (arith, b);
        reached = ground (arith, b);
        busy_so_far = ground (arith, b, busy_in_self extended (k * i + i));
        counted = ground (arith, b);
      }

  end-completed :
      (s : NetDeviceUtilizationTracker)
      → (completed s).current_interval_end ≡ s.current_interval_end + s.interval_ns
  unfolding save_interval count_until
  end-completed s = ground arith

  loop-Mid :
      (fuel k : ℕ) (s : NetDeviceUtilizationTracker)
      → 0 < i
      → now < s.current_interval_end + fuel
      → Mid k s
      → (k' : ℕ) × (s' : NetDeviceUtilizationTracker) × (end_intervals fuel next now s ≡ ok s')
        × Mid k' s'
        × (now < s'.current_interval_end)
  unfolding end_intervals
  loop-Mid zero k s p q m = (k, s, refl, m, omega arith)
  loop-Mid (suc fuel) k s p q m = elim (Bool-cases (leb s.current_interval_end now)) [
    | inl more ↦
        let le : s.current_interval_end ≤ now = ground arith in
        let m' = completed-Mid k s m le p in
        let (k', s', e, m'', done) =
          loop-Mid fuel (suc k) (completed s) p (omega (arith, end-completed s, m.length_kept))
            m' in
        (k', s', rw (more, end_intervals, end_interval-completed k s m) e, m'', done)
    | inr stop ↦ (k, s, rw (stop, end_intervals), m, ground arith)
  ]

  -- Behind the loop the rest of the time is counted.
  rest-Follows :
      (k : ℕ) (s : NetDeviceUtilizationTracker)
      → Mid k s
      → from ≤ now
      → now < s.current_interval_end
      → Follows i extended k
          (record (count_until next now s) { current_state_is_on = next; prev_time_ns = now })
  unfolding count_until
  rest-Follows k s m le lt =
      let more =
        busy_in-more (k * i) s.prev_time_ns now (omega arith) (omega arith) (omega arith)
          (omega arith) in
      record {
        length_kept = ground arith;
        start_at = ground arith;
        end_at = ground arith;
        past = ground arith;
        begun = omega arith;
        running = omega arith;
        busy_so_far = ground (arith, more);
        counted = ground arith;
        chain = IsChain-snoc 0 h from now (not next) chain le;
      }

-- A call of `TrackUtilization` at a time that is not in the past succeeds, with the fuel that it
-- has, and the state then follows the history with one more stretch.
pub track-Follows :
    (i : ℕ) (h : List Stretch) (k : ℕ) (s : NetDeviceUtilizationTracker) (next : Bool) (now : ℕ)
    → 0 < i
    → Follows i h k s
    → s.prev_time_ns ≤ now
    → (k' : ℕ) × (s' : NetDeviceUtilizationTracker) × (track_utilization next now s ≡ ok s')
      × Follows i (h ++ record { from = s.prev_time_ns; to = now; is_busy = not next } ∷ []) k' s'
      × (s'.prev_time_ns ≡ now)
      × (s'.current_state_is_on ≡ next)
unfolding track_utilization
track-Follows i h k s next now p f le =
    let m = start-Mid i h s.prev_time_ns now next f.chain k s f refl le in
    let (k', s', e, m', done) =
      loop-Mid i h s.prev_time_ns now next f.chain (suc now) k s p (omega (arith, f.end_at)) m in
    (
      k',
      record (count_until next now s') { current_state_is_on = next; prev_time_ns = now },
      rw e,
      rest-Follows i h s.prev_time_ns now next f.chain k' s' m' le done,
      refl,
      refl,
    )
