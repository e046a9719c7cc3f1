-- ===== src/LogUpdate/Totality.antt =====
-- When `Update` and `Finalize` (model/core/log-update-helper.h) throw nothing, whatever the state.
use basic_sim.Prelude.{ℕ, ◌≤◌, ◌≡◌, false, arith, inl, inr, Bool-cases}
use basic_sim.Prelude.Int.{ℤ, pos, ltb_ℤ}
use basic_sim.Prelude.Order.{Eq}
use basic_sim.Prelude.Results.{ok, Result-cases}
use basic_sim.LogUpdate.{LogUpdateHelper, update, finalize}

module _ {V : Type 0} ⦃e : Eq V⦄ where
  -- The last update was not later.
  abbrev pub IsBefore : ℕ → LogUpdateHelper V → Type 0
  IsBefore now s = ltb_ℤ (pos now) s.last_interval_check_time ≡ false

  pub IsBefore-later :
      (now later : ℕ) (s : LogUpdateHelper V) → now ≤ later → IsBefore now s → IsBefore later s
  IsBefore-later now later s le b = ground (arith, le, b)

  pub update-total :
      (now : ℕ) (v : V) (s : LogUpdateHelper V)
      → IsBefore now s
      → (s' : LogUpdateHelper V) × (update s (pos now) v ≡ ok s') × IsBefore now s'
  unfolding update
  update-total now v s b = elim (Result-cases (update s (pos now) v)) [
    | inl (s', h) ↦ (
      s',
      h,
      elim (Bool-cases (ltb_ℤ s.last_interval_check_time (pos now))) [
        | inl new ↦ ground (arith, b, new, h)
        | inr same ↦ ground (arith, b, same, h)
      ],
    )
    | inr (x, h) ↦ ground (arith, b, h)
  ]

  pub finalize-total :
      (now : ℕ) (s : LogUpdateHelper V)
      → IsBefore now s
      → (s' : LogUpdateHelper V) × (finalize s (pos now) ≡ ok s')
  unfolding finalize
  finalize-total now s b = elim (Result-cases (finalize s (pos now))) [
    | inl ended ↦ ended
    | inr (x, h) ↦ ground (arith, b, h)
  ]

  -- The same at any time from 0 on that is not before the last update.
  pub finalize-total_at :
      (t : ℤ) (s : LogUpdateHelper V)
      → ltb_ℤ t (pos 0) ≡ false
      → ltb_ℤ t s.last_interval_check_time ≡ false
      → (s' : LogUpdateHelper V) × (finalize s t ≡ ok s')
  unfolding finalize
  finalize-total_at t s nonneg b = elim (Result-cases (finalize s t)) [
    | inl ended ↦ ended
    | inr (x, h) ↦ ground (arith, nonneg, b, h)
  ]
