-- ===== src/LogUpdate/Whole.antt =====
-- A log from its construction to its end: a series of updates, then `Finalize`.
use basic_sim.Prelude.{
  ℕ, ◌≤◌, ◌≡◌, refl, Bool, true, false, none, List, [], ◌∷◌, ◌++◌, map, arith, ltb, if◌then◌else◌,
  ap, ◌∙◌, ◌≢◌, inl, inr,
}
use basic_sim.Prelude.Int.{ℤ, pos, ltb_ℤ}
use basic_sim.Prelude.Order.{Eq}
use basic_sim.Prelude.Results.{ok, err, invalid_argument, Result, ◌>>=◌, Result-cases}
use basic_sim.LogUpdate.{LogUpdateHelper, create, update, finalize, run}
use basic_sim.LogUpdate.Abstract.{
  Segment, nothing, alpha, last_time, entry_at, value_at, written_at, IsAscending,
}
use basic_sim.LogUpdate.Refinement.{
  kept, to_entry, finished_lines, write, close, concrete, finished, update-past, finalize-concrete,
}
use basic_sim.LogUpdate.History.{
  IsLog, IsFinished, writes, timed, last_of, run-concrete, last_time-writes, writes-IsLog,
  value_at-writes, entry_at-close, close-IsFinished,
}

module _ {V : Type 0} ⦃e : Eq V⦄ where
  -- Create the helper, make the updates, finalize.
  unfoldable pub record_history : V → Bool → Bool → List (ℤ × V) → ℤ → Result (LogUpdateHelper V)
  record_history minus_one m f us t = do s ← create minus_one m f; s' ← run s us; finalize s' t

  create_in_memory : (d : V) (f : Bool) → create d true f ≡ ok (concrete d true f nothing)
  unfolding create concrete
  create_in_memory d f = refl

  run_from_nothing :
      (d : V) (m f : Bool) (t₀ : ℕ) (v₀ : V) (us : List (ℕ × V))
      → IsAscending t₀ us
      → run (concrete d m f nothing) (timed ((t₀, v₀) ∷ us))
        ≡ ok (concrete d m f (writes (alpha t₀ v₀) us))
  unfolding writes write
  run_from_nothing d m f t₀ v₀ us h = run-concrete d m f nothing ((t₀, v₀) ∷ us) (omega arith, h)

  -- The segments that the history leaves.
  segments : ℕ → V → List (ℕ × V) → ℕ → List (Segment V)
  segments t₀ v₀ us t = close (writes (alpha t₀ v₀) us) t

  module _ (d : V) (f : Bool) (t₀ : ℕ) (v₀ : V) (us : List (ℕ × V)) (t : ℕ)
      (ascending : IsAscending t₀ us) (ended : last_of t₀ us ≤ t) where
    end_state : LogUpdateHelper V
    unfolding segments
    end_state = finished d true f (writes (alpha t₀ v₀) us) (segments t₀ v₀ us t) t

    last-le : last_time (writes (alpha t₀ v₀) us) ≤ t
    last-le = rw (last_time-writes (alpha t₀ v₀) us ascending) ended

    record_history-end_state :
        record_history d true f (timed ((t₀, v₀) ∷ us)) (pos t) ≡ ok end_state
    unfolding record_history end_state segments
    record_history-end_state =
        rw (create_in_memory d f, run_from_nothing d true f t₀ v₀ us ascending)
          (finalize-concrete d true f (writes (alpha t₀ v₀) us) t last-le)

    abbrev pub Outcome : (LogUpdateHelper V → List (Segment V) → Type 0) → Type 0
    Outcome P =
        (s : LogUpdateHelper V) × (ss : List (Segment V)) × (record_history d true f
            (timed ((t₀, v₀) ∷ us)) (pos t)
          ≡ ok s)
        × (s.log_time_value ≡ map to_entry ss)
        × P s ss

    IsLog-first : IsLog t₀ (alpha t₀ v₀)
    unfolding IsLog
    IsLog-first = refl

    is_log : (writes (alpha t₀ v₀) us ≢ nothing) × IsLog t₀ (writes (alpha t₀ v₀) us)
    is_log = writes-IsLog t₀ (alpha t₀ v₀) us (λ h. cc) IsLog-first

    -- A history of updates at times that never fall succeeds, and at each time before the end the
    -- log in memory has the value of the last update that is not later; at any other time none.
    pub log_values : Outcome λ s ss.
        (x : ℕ) → entry_at ss x ≡ (if ltb x t then written_at ((t₀, v₀) ∷ us) x none else none)
    unfolding end_state segments finished kept value_at written_at
    log_values = (end_state, segments t₀ v₀ us t, record_history-end_state, refl, values)
      where
        values :
            (x : ℕ)
            → entry_at (segments t₀ v₀ us t) x
              ≡ (if ltb x t then written_at ((t₀, v₀) ∷ us) x none else none)
        values x =
            entry_at-close t₀ (writes (alpha t₀ v₀) us) t x last-le is_log.1
            ∙ ap (λ o. if ltb x t then o else none)
                (value_at-writes t₀ (alpha t₀ v₀) us x (λ h. cc) ascending IsLog-first)

    -- Such a log runs without a gap from the first update to the end, no interval is empty, and
    -- neighbours have different values.
    pub log-IsFinished : Outcome λ s ss. IsFinished t₀ ss t
    unfolding end_state segments finished kept
    log-IsFinished = (
      end_state,
      segments t₀ v₀ us t,
      record_history-end_state,
      refl,
      close-IsFinished t₀ (writes (alpha t₀ v₀) us) t last-le is_log.0 is_log.1,
    )

    -- The file tells the same: a line for each interval of the log at its start, then a line at the
    -- end with the last value; nothing if no file is wanted. The file is closed.
    pub file_lines-log :
        Outcome
          λ s ss. (s.file_lines ≡ (if f then finished_lines ss t else [])) × (s.is_open ≡ false)
    unfolding end_state segments finished kept
    file_lines-log = (end_state, segments t₀ v₀ us t, record_history-end_state, refl, (refl, refl))

  run-append :
      (s : LogUpdateHelper V) (us ws : List (ℤ × V))
      → run s (us ++ ws) ≡ (run s us >>= λ s'. run s' ws)
  unfolding run
  run-append s [] ws = refl
  run-append s ((t, v) ∷ us) ws = elim (Result-cases (update s t v)) [
    | inl (s', h) ↦ rw h (run-append s' us ws)
    | inr (x, h) ↦ rw h
  ]

  -- An update at a negative time or before the last moment of an accepted history ends it with
  -- `invalid_argument`, whatever the history and the value.
  pub run-past :
      (d : V) (m f : Bool) (t₀ : ℕ) (v₀ : V) (us : List (ℕ × V)) (time : ℤ) (v : V)
      → IsAscending t₀ us
      → ltb_ℤ time (pos (last_of t₀ us)) ≡ true
      → run (concrete d m f nothing) (timed ((t₀, v₀) ∷ us) ++ (time, v) ∷ [])
        ≡ err invalid_argument
  unfolding run
  run-past d m f t₀ v₀ us time v ascending past =
      run-append (concrete d m f nothing) (timed ((t₀, v₀) ∷ us)) ((time, v) ∷ [])
      ∙ rw (run_from_nothing d m f t₀ v₀ us ascending) (
          rw (
            update-past d m f (writes (alpha t₀ v₀) us) time v
              (rw (last_time-writes (alpha t₀ v₀) us ascending) past)))
