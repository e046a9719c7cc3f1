-- ===== src/LogUpdate.antt =====
-- model/core/log-update-helper.h: a log of a value over time, kept as intervals.
-- The state has the source's fields, its times are int64 with -1 for "not started". Opening and
-- closing of the file is the flag `is_open`; the line prefix is a constant that each line begins
-- with, so a written line is recorded by its time and value.
pub mod Abstract
pub mod Refinement
pub mod History
pub mod Whole
pub mod Totality
mod Tests
use basic_sim.Prelude.{
  ℕ, zero, ◌≡◌, Bool, true, false, not, ◌&&◌, ◌||◌, List, [], ◌∷◌, ◌++◌, if◌then◌else◌,
}
use basic_sim.Prelude.Int.{ℤ, pos, negsuc, ltb_ℤ, eqb_ℤ}
use basic_sim.Prelude.Order.{Eq}
use basic_sim.Prelude.Results.{Result, ok, err, invalid_argument, guard, ◌>>=◌, ◌>>◌}

-- `std::tuple<int64_t, int64_t, V>`: the value from `left` up to, and without, `right`.
pub record Entry {ℓ} (V : Type ℓ) : Type ℓ where
  pub left : ℤ
  pub right : ℤ
  pub value : V

pub record LogUpdateHelper {ℓ} (V : Type ℓ) : Type ℓ where
  pub log_time_value : List (Entry V)
  pub last_update_value : V
  pub interval_alpha_value : V
  pub last_interval_check_time : ℤ
  pub interval_alpha_left_time : ℤ
  pub interval_beta_left_time : ℤ
  pub save_in_memory : Bool
  pub save_to_file : Bool
  pub file_lines : List (ℤ × V)
  pub is_open : Bool

-- The sentinel of the three times.
abbrev pub unset : ℤ
unset = negsuc 0

module _ {ℓ} {V : Type ℓ} ⦃e : Eq V⦄ where
  -- The constructor; `minus_one` is -1 as a `V`.
  unfoldable pub create : V → Bool → Bool → Result (LogUpdateHelper V)
  create minus_one save_in_memory save_to_file =
      if not save_in_memory && not save_to_file
      then err invalid_argument
      else ok (record {
        log_time_value = [];
        last_update_value = minus_one;
        interval_alpha_value = minus_one;
        last_interval_check_time = unset;
        interval_alpha_left_time = unset;
        interval_beta_left_time = unset;
        save_in_memory = save_in_memory;
        save_to_file = save_to_file;
        file_lines = [];
        is_open = save_to_file;
      })

  -- Push an interval to the log, if it is kept in memory.
  save_interval : ℤ → ℤ → V → LogUpdateHelper V → LogUpdateHelper V
  save_interval l r v s =
      if s.save_in_memory
      then record s {
        log_time_value = s.log_time_value ++ record { left = l; right = r; value = v } ∷ [];
      }
      else s

  -- Write lines to the file, if there is one.
  save_lines : List (ℤ × V) → LogUpdateHelper V → LogUpdateHelper V
  save_lines ls s = if s.save_to_file then record s { file_lines = s.file_lines ++ ls } else s

  -- The start of a new interval, at a time later than the last one.
  start_interval : ℤ → LogUpdateHelper V → LogUpdateHelper V
  unfolding save_interval save_lines
  start_interval time s =
      if eqb_ℤ s.interval_alpha_left_time unset
      then record s { interval_alpha_left_time = time }
      else if eqb_ℤ s.interval_beta_left_time unset
      then record s { interval_beta_left_time = time; interval_alpha_value = s.last_update_value }
      else if e.beq s.interval_alpha_value s.last_update_value
      then record s { interval_beta_left_time = time }
      else let s' = save_lines ((s.interval_alpha_left_time, s.interval_alpha_value) ∷ []) (
          save_interval s.interval_alpha_left_time s.interval_beta_left_time s.interval_alpha_value
            s) in
        record s' {
          interval_alpha_left_time = s.interval_beta_left_time;
          interval_alpha_value = s.last_update_value;
          interval_beta_left_time = time;
        }

  -- The value is overwritten each time, the interval starts once for a moment.
  advance : ℤ → V → LogUpdateHelper V → LogUpdateHelper V
  unfolding start_interval
  advance time value s =
      if ltb_ℤ s.last_interval_check_time time
      then record (start_interval time s) {
        last_interval_check_time = time;
        last_update_value = value;
      }
      else record s { last_update_value = value }

  unfoldable pub update : LogUpdateHelper V → ℤ → V → Result (LogUpdateHelper V)
  unfolding advance
  update s time value = do
    guard (not (ltb_ℤ time (pos 0))) invalid_argument
    guard (not (ltb_ℤ time s.last_interval_check_time)) invalid_argument
    ok (advance time value s)

  -- The intervals that are still open end at `time`.
  close_alpha : ℤ → LogUpdateHelper V → LogUpdateHelper V
  unfolding save_interval save_lines
  close_alpha time s =
      if eqb_ℤ s.interval_alpha_left_time time
      then s
      else save_lines
          ((s.interval_alpha_left_time, s.last_update_value) ∷ (time, s.last_update_value) ∷ [])
          (save_interval s.interval_alpha_left_time time s.last_update_value s)

  close_merged : ℤ → LogUpdateHelper V → LogUpdateHelper V
  unfolding save_interval save_lines
  close_merged time s =
      save_lines
        ((s.interval_alpha_left_time, s.interval_alpha_value) ∷ (time, s.interval_alpha_value) ∷ [])
        (save_interval s.interval_alpha_left_time time s.interval_alpha_value s)

  close_both : ℤ → LogUpdateHelper V → LogUpdateHelper V
  unfolding save_interval save_lines
  close_both time s =
      let s' = save_lines ((s.interval_alpha_left_time, s.interval_alpha_value) ∷ []) (
        save_interval s.interval_alpha_left_time s.interval_beta_left_time s.interval_alpha_value
          s) in
      if eqb_ℤ s.interval_beta_left_time time
      then save_lines ((s.interval_beta_left_time, s.interval_alpha_value) ∷ []) s'
      else save_lines
          ((s.interval_beta_left_time, s.last_update_value) ∷ (time, s.last_update_value) ∷ [])
          (save_interval s.interval_beta_left_time time s.last_update_value s')

  close_intervals : ℤ → LogUpdateHelper V → LogUpdateHelper V
  unfolding close_alpha close_merged close_both
  close_intervals time s =
      if eqb_ℤ s.interval_alpha_left_time unset
      then s
      else if eqb_ℤ s.interval_beta_left_time unset
      then close_alpha time s
      else if e.beq s.interval_alpha_value s.last_update_value
      then close_merged time s
      else close_both time s

  -- The log is the field `log_time_value` of the state that is returned.
  unfoldable pub finalize : LogUpdateHelper V → ℤ → Result (LogUpdateHelper V)
  unfolding close_intervals
  finalize s time = do
    guard (not (ltb_ℤ time (pos 0))) invalid_argument
    guard (not (ltb_ℤ time s.last_interval_check_time)) invalid_argument
    let s' = close_intervals time s
    ok (if s'.save_to_file then record s' { is_open = false } else s')

  -- Updates one after the other; the first exception ends the run.
  unfoldable pub run : LogUpdateHelper V → List (ℤ × V) → Result (LogUpdateHelper V)
  run s [] = ok s
  run s ((time, value) ∷ us) = do s' ← update s time value; run s' us
