-- ===== src/LogUpdate/Tests.antt =====
-- A log of five updates, of which two fall on one moment.
use basic_sim.Prelude.{ℕ, ◌≤◌, ◌≡◌, true, false, List, [], ◌∷◌, arith, ltb, none, if◌then◌else◌}
use basic_sim.Prelude.Order.{nat_eq}
use basic_sim.LogUpdate.Abstract.{IsAscending, entry_at, written_at}
use basic_sim.LogUpdate.Refinement.{finished_lines}
use basic_sim.LogUpdate.History.{last_of, IsFinished}
use basic_sim.LogUpdate.Whole.{Outcome, log_values, log-IsFinished, file_lines-log}

abbrev updates : List (ℕ × ℕ)
updates = (3, 5) ∷ (3, 7) ∷ (6, 7) ∷ (9, 5) ∷ []

updates-IsAscending : IsAscending 0 updates
updates-IsAscending = (omega arith, (omega arith, (omega arith, (omega arith, tt))))

updates-last : last_of 0 updates ≤ 12
unfolding last_of
updates-last = omega arith

log_values_example : Outcome 0 true 0 2 updates 12 updates-IsAscending updates-last λ s ss.
    (x : ℕ) → entry_at ss x ≡ (if ltb x 12 then written_at ((0, 2) ∷ updates) x none else none)
log_values_example = log_values 0 true 0 2 updates 12 updates-IsAscending updates-last

log-IsFinished_example :
    Outcome 0 true 0 2 updates 12 updates-IsAscending updates-last λ s ss. IsFinished 0 ss 12
log-IsFinished_example = log-IsFinished 0 true 0 2 updates 12 updates-IsAscending updates-last

file_lines-log_example :
    Outcome 0 true 0 2 updates 12 updates-IsAscending updates-last
      λ s ss. (s.file_lines ≡ (if true then finished_lines ss 12 else [])) × (s.is_open ≡ false)
file_lines-log_example = file_lines-log 0 true 0 2 updates 12 updates-IsAscending updates-last
