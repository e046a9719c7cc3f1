-- ===== src/LogUpdate/Abstract.antt =====
-- The value over time that a log stands for, and the log as a list of steps without sentinels.
use basic_sim.Prelude.{
  ℕ, ◌≤◌, ◌<◌, ◌≡◌, ◌≢◌, Option, none, some, List, [], ◌∷◌, ◌++◌, arith, ltb, leb, if◌then◌else◌,
  ap,
}

-- An interval of the log at times that are not negative.
pub record Segment {ℓ} (V : Type ℓ) : Type ℓ where
  pub left : ℕ
  pub right : ℕ
  pub value : V

-- Nothing seen; one moment seen; two intervals of which the second is still open, its value is
-- the last one written.
pub data Steps {ℓ} (V : Type ℓ) : Type ℓ where
  nothing : Steps V
  alpha : ℕ → V → Steps V
  beta : List (Segment V) → ℕ → ℕ → V → V → Steps V

module _ {ℓ} {V : Type ℓ} where
  abbrev pub segment : ℕ → ℕ → V → Segment V
  segment l r v = record { left = l; right = r; value = v }

  -- The latest moment that was written to.
  abbrev pub last_time : Steps V → ℕ
  last_time nothing = 0
  last_time (alpha a v) = a
  last_time (beta log a b va v) = b

  -- The value at a time, by the first interval that holds it.
  unfoldable pub entry_at : List (Segment V) → ℕ → Option V
  entry_at [] t = none
  entry_at (s ∷ ss) t =
      let rest = entry_at ss t in
      if leb s.left t then (if ltb t s.right then some s.value else rest) else rest

  -- The value at a time while the log is still written.
  unfoldable pub value_at : Steps V → ℕ → Option V
  value_at nothing t = none
  value_at (alpha a v) t = if leb a t then some v else none
  value_at (beta log a b va v) t =
      if leb b t then some v else if leb a t then some va else entry_at log t

  -- What a series of writes says of the value at a time: the last one not after it.
  unfoldable pub written_at : List (ℕ × V) → ℕ → Option V → Option V
  written_at [] t cur = cur
  written_at ((time, v) ∷ us) t cur = written_at us t (if leb time t then some v else cur)

  -- Times never fall along the writes, from `from` on.
  abbrev pub IsAscending : ℕ → List (ℕ × V) → Type 0
  IsAscending from [] = Unit
  IsAscending from ((time, v) ∷ us) = (from ≤ time) × IsAscending time us

  -- Non-empty intervals without a gap from `a` to `b`.
  abbrev pub Covers : ℕ → List (Segment V) → ℕ → Type 0
  Covers a [] b = a ≡ b
  Covers a (s ∷ ss) b = (s.left ≡ a) × (s.left < s.right) × Covers s.right ss b

  -- No interval has the value of its neighbour: the first not `before`, the last not `after`.
  abbrev pub Changes : Option V → List (Segment V) → Option V → Type ℓ
  Changes before [] after = before ≢ after
  Changes before (s ∷ ss) after = (before ≢ some s.value) × Changes (some s.value) ss after

  pub Covers-snoc :
      (a b c : ℕ) (ss : List (Segment V)) (v : V)
      → Covers a ss b
      → b < c
      → Covers a (ss ++ segment b c v ∷ []) c
  Covers-snoc a b c [] v h lt = ground arith
  Covers-snoc a b c (s ∷ ss) v h lt = (h.0, h.1, Covers-snoc s.right b c ss v h.2 lt)

  pub Changes-snoc :
      (p : Option V) (ss : List (Segment V)) (s : Segment V) (q : Option V)
      → Changes p ss (some s.value)
      → some s.value ≢ q
      → Changes p (ss ++ s ∷ []) q
  Changes-snoc p [] s q h ne = (h, ne)
  Changes-snoc p (r ∷ ss) s q h ne = (h.0, Changes-snoc (some r.value) ss s q h.1 ne)

  -- Every time in the covered range has a value, every other none.
  pub entry_at-snoc :
      (a b c t : ℕ) (ss : List (Segment V)) (v : V)
      → Covers a ss b
      → entry_at (ss ++ segment b c v ∷ []) t
        ≡ (if leb b t then (if ltb t c then some v else none) else entry_at ss t)
  unfolding entry_at
  entry_at-snoc a b c t [] v h = ground arith
  entry_at-snoc a b c t (s ∷ ss) v h =
      ground (arith, entry_at-snoc s.right b c t ss v h.2, Covers-le s.right ss b h.2)
    where
      Covers-le : (x : ℕ) (rs : List (Segment V)) (y : ℕ) → Covers x rs y → x ≤ y
      Covers-le x [] y k = omega arith
      Covers-le x (r ∷ rs) y k = omega (arith, Covers-le r.right rs y k.2)

  -- Neighbours in a finished log have different values.
  abbrev pub Alternates : List (Segment V) → Type ℓ
  Alternates [] = Unit
  Alternates (s ∷ []) = Unit
  Alternates (s ∷ r ∷ ss) = (s.value ≢ r.value) × Alternates (r ∷ ss)

  Alternates-cons :
      (s : Segment V) (ss : List (Segment V)) (l r : ℕ) (v : V)
      → Changes (some s.value) ss (some v)
      → Alternates (ss ++ segment l r v ∷ [])
      → Alternates (s ∷ (ss ++ segment l r v ∷ []))
  Alternates-cons s [] l r v h k = (λ e. h (ap some e), k)
  Alternates-cons s (q ∷ ss) l r v h k = (λ e. h.0 (ap some e), k)

  pub Alternates-snoc :
      (p : Option V) (ss : List (Segment V)) (l r : ℕ) (v : V)
      → Changes p ss (some v)
      → Alternates (ss ++ segment l r v ∷ [])
  Alternates-snoc p [] l r v h = tt
  Alternates-snoc p (s ∷ ss) l r v h =
      Alternates-cons s ss l r v h.1 (Alternates-snoc (some s.value) ss l r v h.1)
