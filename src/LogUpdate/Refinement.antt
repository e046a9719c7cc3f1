-- ===== src/LogUpdate/Refinement.antt =====
-- The abstract steps of the log helper and the state that follows them (log-update-helper.h).
use basic_sim.Prelude.{
  ℕ, ◌≤◌, ◌≡◌, Bool, true, false, Option, none, some, List, [], ◌∷◌, ◌++◌, map, arith, ltb, ◌==◌,
  if◌then◌else◌, refl, append_assoc,
}
use mathlib.Core.List.{map-append}
use basic_sim.Prelude.Int.{ℤ, pos, negsuc, ltb_ℤ}
use basic_sim.Prelude.Order.{Eq}
use basic_sim.Prelude.Results.{ok, err, invalid_argument}
use basic_sim.LogUpdate.{Entry, LogUpdateHelper, unset, create, update, finalize}
use basic_sim.LogUpdate.Abstract.{Segment, Steps, nothing, alpha, beta, segment, last_time}

-- A list that is kept only if the flag is set.
unfoldable pub kept : {A : Type 0} → Bool → List A → List A
kept b xs = if b then xs else []

module _ {V : Type 0} where
  unfoldable pub to_entry : Segment V → Entry V
  to_entry s = record { left = pos s.left; right = pos s.right; value = s.value }

  unfoldable pub to_line : Segment V → ℤ × V
  to_line s = (pos s.left, s.value)

  unfoldable pub last_value : List (Segment V) → Option V
  last_value [] = none
  last_value (s ∷ []) = some s.value
  last_value (s ∷ r ∷ ss) = last_value (r ∷ ss)

  -- The lines of a finished log: each interval by its start, and the end with the last value.
  unfoldable pub end_line : Option V → ℕ → List (ℤ × V)
  end_line none t = []
  end_line (some v) t = (pos t, v) ∷ []

  unfoldable pub finished_lines : List (Segment V) → ℕ → List (ℤ × V)
  unfolding to_line last_value end_line
  finished_lines ss t = map to_line ss ++ end_line (last_value ss) t

  -- The state that stands for the abstract steps; `minus_one` fills the values not yet known.
  unfoldable pub concrete : V → Bool → Bool → Steps V → LogUpdateHelper V
  unfolding to_entry to_line kept
  concrete minus_one m f nothing = record {
    log_time_value = [];
    last_update_value = minus_one;
    interval_alpha_value = minus_one;
    last_interval_check_time = unset;
    interval_alpha_left_time = unset;
    interval_beta_left_time = unset;
    save_in_memory = m;
    save_to_file = f;
    file_lines = [];
    is_open = f;
  }
  concrete minus_one m f (alpha a v) = record {
    log_time_value = [];
    last_update_value = v;
    interval_alpha_value = minus_one;
    last_interval_check_time = pos a;
    interval_alpha_left_time = pos a;
    interval_beta_left_time = unset;
    save_in_memory = m;
    save_to_file = f;
    file_lines = [];
    is_open = f;
  }
  concrete minus_one m f (beta log a b va v) = record {
    log_time_value = kept m (map to_entry log);
    last_update_value = v;
    interval_alpha_value = va;
    last_interval_check_time = pos b;
    interval_alpha_left_time = pos a;
    interval_beta_left_time = pos b;
    save_in_memory = m;
    save_to_file = f;
    file_lines = kept f (map to_line log);
    is_open = f;
  }

  -- The state after `finalize`, with the finished log.
  unfoldable pub finished : V → Bool → Bool → Steps V → List (Segment V) → ℕ → LogUpdateHelper V
  unfolding concrete finished_lines
  finished minus_one m f s ss t = record (concrete minus_one m f s) {
    log_time_value = kept m (map to_entry ss);
    file_lines = kept f (finished_lines ss t);
    is_open = false;
  }

module _ {V : Type 0} ⦃e : Eq V⦄ where
  -- What `Update` means.
  unfoldable pub write : Steps V → ℕ → V → Steps V
  write nothing t v = alpha t v
  write (alpha a va) t v = if ltb a t then beta [] a t va v else alpha a v
  write (beta log a b va vb) t v =
      if ltb b t
      then (if e.beq va vb then beta log a t va v else beta (log ++ segment a b va ∷ []) b t vb v)
      else beta log a b va v

  -- What `Finalize` means.
  unfoldable pub close : Steps V → ℕ → List (Segment V)
  close nothing t = []
  close (alpha a v) t = if a == t then [] else segment a t v ∷ []
  close (beta log a b va vb) t =
      if e.beq va vb
      then log ++ segment a t va ∷ []
      else if b == t
      then log ++ segment a b va ∷ []
      else log ++ segment a b va ∷ segment b t vb ∷ []

  -- The constructor gives the empty log, unless neither memory nor file is wanted.
  pub create-concrete :
      (v : V) (m f : Bool) {s : LogUpdateHelper V}
      → create v m f ≡ ok s
      → s ≡ concrete v m f nothing
  unfolding create concrete
  create-concrete v m f h = ground arith

  -- An update at a time that is not before the last one does what `write` says.
  pub update-concrete :
      (d : V) (m f : Bool) (s : Steps V) (t : ℕ) (v : V)
      → last_time s ≤ t
      → update (concrete d m f s) (pos t) v ≡ ok (concrete d m f (write s t v))
  unfolding update concrete write
  update-concrete d m f nothing t v h = ground arith
  update-concrete d m f (alpha a va) t v h = ground arith
  update-concrete d m f (beta log a b va vb) t v h = ground (
    arith,
    map-append to_entry log (segment a b va ∷ []),
    map-append to_line log (segment a b va ∷ []),
  )

  last_value-snoc :
      (ss : List (Segment V)) (s : Segment V) → last_value (ss ++ s ∷ []) ≡ some s.value
  unfolding last_value
  last_value-snoc [] s = refl
  last_value-snoc (r ∷ []) s = refl
  last_value-snoc (r ∷ q ∷ ss) s = last_value-snoc (q ∷ ss) s

  last_value-snoc₂ :
      (ss : List (Segment V)) (r s : Segment V) → last_value (ss ++ r ∷ s ∷ []) ≡ some s.value
  last_value-snoc₂ ss r s =
      rw (← append_assoc ss (r ∷ []) (s ∷ [])) (last_value-snoc (ss ++ r ∷ []) s)

  -- An update before the last moment, or at a negative time, is refused.
  pub update-past :
      (d : V) (m f : Bool) (s : Steps V) (time : ℤ) (v : V)
      → ltb_ℤ time (pos (last_time s)) ≡ true
      → update (concrete d m f s) time v ≡ err invalid_argument
  unfolding update concrete
  update-past d m f nothing (pos t) v h = ground arith
  update-past d m f (alpha a va) (pos t) v h = ground arith
  update-past d m f (beta log a b va vb) (pos t) v h = ground arith
  update-past d m f s (negsuc t) v h = ground arith

  finalize-beta :
      (d : V) (m f : Bool) (log : List (Segment V)) (a b t : ℕ) (va vb : V)
      → b ≤ t
      → finalize (concrete d m f (beta log a b va vb)) (pos t)
        ≡ ok (finished d m f (beta log a b va vb) (close (beta log a b va vb) t) t)
  unfolding finalize concrete close finished
  finalize-beta d false false log a b t va vb h = ground arith
  finalize-beta d true false log a b t va vb h = ground (
    arith,
    map-append to_entry log (segment a b va ∷ []),
    map-append to_entry log (segment a t va ∷ []),
    map-append to_entry log (segment a b va ∷ segment b t vb ∷ []),
    append_assoc (map to_entry log) (to_entry (segment a b va) ∷ [])
        (to_entry (segment b t vb) ∷ []),
  )
  finalize-beta d false true log a b t va vb h = ground (
    arith,
    map-append to_line log (segment a b va ∷ []),
    map-append to_line log (segment a t va ∷ []),
    map-append to_line log (segment a b va ∷ segment b t vb ∷ []),
    last_value-snoc log (segment a b va),
    last_value-snoc log (segment a t va),
    last_value-snoc₂ log (segment a b va) (segment b t vb),
    append_assoc (map to_line log) ((pos a, va) ∷ []) ((pos t, va) ∷ []),
    append_assoc (map to_line log) ((pos a, va) ∷ []) ((pos b, vb) ∷ (pos t, vb) ∷ []),
    append_assoc (map to_line log) ((pos a, va) ∷ (pos b, vb) ∷ []) ((pos t, vb) ∷ []),
  )
  finalize-beta d true true log a b t va vb h = ground (
    arith,
    map-append to_line log (segment a b va ∷ []),
    map-append to_line log (segment a t va ∷ []),
    map-append to_line log (segment a b va ∷ segment b t vb ∷ []),
    last_value-snoc log (segment a b va),
    last_value-snoc log (segment a t va),
    last_value-snoc₂ log (segment a b va) (segment b t vb),
    append_assoc (map to_line log) ((pos a, va) ∷ []) ((pos t, va) ∷ []),
    append_assoc (map to_line log) ((pos a, va) ∷ []) ((pos b, vb) ∷ (pos t, vb) ∷ []),
    append_assoc (map to_line log) ((pos a, va) ∷ (pos b, vb) ∷ []) ((pos t, vb) ∷ []),
    map-append to_entry log (segment a b va ∷ []),
    map-append to_entry log (segment a t va ∷ []),
    map-append to_entry log (segment a b va ∷ segment b t vb ∷ []),
    append_assoc (map to_entry log) (to_entry (segment a b va) ∷ [])
        (to_entry (segment b t vb) ∷ []),
  )

  -- So does the end of the log, where `finalize` writes what `close` says.
  pub finalize-concrete :
      (d : V) (m f : Bool) (s : Steps V) (t : ℕ)
      → last_time s ≤ t
      → finalize (concrete d m f s) (pos t) ≡ ok (finished d m f s (close s t) t)
  unfolding finalize concrete close finished
  finalize-concrete d m f nothing t h = ground arith
  finalize-concrete d m f (alpha a va) t h = ground arith
  finalize-concrete d m f (beta log a b va vb) t h = finalize-beta d m f log a b t va vb h
