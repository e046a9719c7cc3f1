-- ===== src/LogUpdate/History.antt =====
-- What a whole history of updates leaves in the log.
use basic_sim.Prelude.{
  ℕ, ◌≤◌, ◌<◌, ◌≡◌, ◌≢◌, refl, Bool, none, some, List, [], ◌∷◌, ◌++◌, arith, ltb, leb,
  if◌then◌else◌, append_assoc, ap, ◌∙◌,
}
use basic_sim.Prelude.Int.{ℤ, pos}
use basic_sim.Prelude.Order.{Eq}
use basic_sim.Prelude.Results.{ok}
use basic_sim.LogUpdate.{run}
use basic_sim.LogUpdate.Abstract.{
  Segment, Steps, nothing, alpha, beta, segment, last_time, entry_at, value_at, written_at,
  IsAscending, Covers, Changes, Covers-snoc, Changes-snoc, entry_at-snoc, Alternates,
  Alternates-snoc,
}
use basic_sim.LogUpdate.Refinement.{write, close, concrete, update-concrete}

module _ {V : Type 0} where
  -- The history as the arguments of `Update`.
  unfoldable pub timed : List (ℕ × V) → List (ℤ × V)
  timed [] = []
  timed ((t, v) ∷ us) = (pos t, v) ∷ timed us

  -- The last moment of a history that begins at `from`.
  unfoldable pub last_of : ℕ → List (ℕ × V) → ℕ
  last_of from [] = from
  last_of from ((t, v) ∷ us) = last_of t us

module _ {V : Type 0} ⦃e : Eq V⦄ where
  unfoldable pub writes : Steps V → List (ℕ × V) → Steps V
  writes s [] = s
  writes s ((t, v) ∷ us) = writes (write s t v) us

  last_time-write : (s : Steps V) (t : ℕ) (v : V) → last_time s ≤ t → last_time (write s t v) ≡ t
  unfolding write
  last_time-write nothing t v h = refl
  last_time-write (alpha a va) t v h = ground arith
  last_time-write (beta log a b va vb) t v h = ground arith

  pub run-concrete :
      (d : V) (m f : Bool) (s : Steps V) (us : List (ℕ × V))
      → IsAscending (last_time s) us
      → run (concrete d m f s) (timed us) ≡ ok (concrete d m f (writes s us))
  unfolding run timed writes
  run-concrete d m f s [] h = refl
  run-concrete d m f s ((t, v) ∷ us) h =
      rw (update-concrete d m f s t v h.0)
        (run-concrete d m f (write s t v) us (rw (last_time-write s t v h.0) h.1))

  -- The invariant of the abstract steps, whose first moment is `start`.
  unfoldable pub IsLog : ℕ → Steps V → Type 0
  IsLog start nothing = Unit
  IsLog start (alpha a v) = a ≡ start
  IsLog start (beta log a b va vb) = (a < b) × Covers start log a × Changes none log (some va)

  write-IsLog :
      (start : ℕ) (s : Steps V) (t : ℕ) (v : V)
      → s ≢ nothing
      → IsLog start s
      → IsLog start (write s t v)
  unfolding IsLog write
  write-IsLog start nothing t v h w = absurd (h refl)
  write-IsLog start (alpha a va) t v h w = ground arith
  write-IsLog start (beta log a b va vb) t v h w = ground (
    arith,
    Covers-snoc start a b log va w.1 w.0,
    λ (ne : some va ≢ some vb). Changes-snoc none log (segment a b va) (some vb) w.2 ne,
    e.beq_iff va vb,
  )

  write-ne-nothing : (s : Steps V) (t : ℕ) (v : V) → write s t v ≢ nothing
  unfolding write
  write-ne-nothing nothing t v h = cc
  write-ne-nothing (alpha a va) t v h = ground arith
  write-ne-nothing (beta log a b va vb) t v h = ground arith

  value_at-write :
      (start : ℕ) (s : Steps V) (t : ℕ) (v : V) (x : ℕ)
      → last_time s ≤ t
      → IsLog start s
      → value_at (write s t v) x ≡ (if leb t x then some v else value_at s x)
  unfolding IsLog write value_at entry_at
  value_at-write start nothing t v x h w = ground arith
  value_at-write start (alpha a va) t v x h w = ground arith
  value_at-write start (beta log a b va vb) t v x h w =
      ground (arith, e.beq_iff va vb, entry_at-snoc start a b x log va w.1)

  pub last_time-writes :
      (s : Steps V) (us : List (ℕ × V))
      → IsAscending (last_time s) us
      → last_time (writes s us) ≡ last_of (last_time s) us
  unfolding writes last_of
  last_time-writes s [] h = refl
  last_time-writes s ((t, v) ∷ us) h =
      let e' = last_time-write s t v h.0 in
      last_time-writes (write s t v) us (rw e' h.1) ∙ ap (λ x. last_of x us) e'

  pub writes-IsLog :
      (start : ℕ) (s : Steps V) (us : List (ℕ × V))
      → s ≢ nothing
      → IsLog start s
      → (writes s us ≢ nothing) × IsLog start (writes s us)
  unfolding writes
  writes-IsLog start s [] ne w = (ne, w)
  writes-IsLog start s ((t, v) ∷ us) ne w =
      writes-IsLog start (write s t v) us (write-ne-nothing s t v) (write-IsLog start s t v ne w)

  pub value_at-writes :
      (start : ℕ) (s : Steps V) (us : List (ℕ × V)) (x : ℕ)
      → s ≢ nothing
      → IsAscending (last_time s) us
      → IsLog start s
      → value_at (writes s us) x ≡ written_at us x (value_at s x)
  unfolding writes written_at
  value_at-writes start s [] x ne h w = refl
  value_at-writes start s ((t, v) ∷ us) x ne h w =
      value_at-writes start (write s t v) us x (write-ne-nothing s t v)
        (rw (last_time-write s t v h.0) h.1) (write-IsLog start s t v ne w)
      ∙ ap (written_at us x) (value_at-write start s t v x h.0 w)

  pub entry_at-close :
      (start : ℕ) (s : Steps V) (t x : ℕ)
      → last_time s ≤ t
      → IsLog start s
      → entry_at (close s t) x ≡ (if ltb x t then value_at s x else none)
  unfolding IsLog close value_at
  entry_at-close start nothing t x h w = unfold entry_at in ground arith
  entry_at-close start (alpha a v) t x h w = unfold entry_at in ground arith
  entry_at-close start (beta log a b va vb) t x h w = ground (
    arith,
    e.beq_iff va vb,
    entry_at-snoc start a t x log va w.1,
    entry_at-snoc start a b x log va w.1,
    entry_at-snoc start b t x (log ++ segment a b va ∷ []) vb
        (Covers-snoc start a b log va w.1 w.0),
    append_assoc log (segment a b va ∷ []) (segment b t vb ∷ []),
  )

  -- The shape of a finished log.
  abbrev pub IsFinished : ℕ → List (Segment V) → ℕ → Type 0
  IsFinished start ss t = Covers start ss t × Alternates ss

  pub close-IsFinished :
      (start : ℕ) (s : Steps V) (t : ℕ)
      → last_time s ≤ t
      → s ≢ nothing
      → IsLog start s
      → IsFinished start (close s t) t
  unfolding IsLog close
  close-IsFinished start nothing t h ne w = absurd (ne refl)
  close-IsFinished start (alpha a v) t h ne w = ground arith
  close-IsFinished start (beta log a b va vb) t h ne w =
      let log' = log ++ segment a b va ∷ [] in
      let covers' = Covers-snoc start a b log va w.1 w.0 in
      ground (
        arith,
        e.beq_iff va vb,
        append_assoc log (segment a b va ∷ []) (segment b t vb ∷ []),
        covers',
        Covers-snoc start a t log va w.1,
        λ (lt : b < t). Covers-snoc start b t log' vb covers' lt,
        Alternates-snoc none log a t va w.2,
        Alternates-snoc none log a b va w.2,
        λ (d : some va ≢ some vb).
            Alternates-snoc none log' b t vb
              (Changes-snoc none log (segment a b va) (some vb) w.2 d),
      )
