-- ===== src/Schedule.antt =====
-- helper/apps/tcp-flow-schedule-reader.cc, udp-burst-schedule-reader.cc, udp-ping-schedule-reader.cc:
-- the schedules of the applications. The three readers have one loop; what they make of a line is
-- in the child modules, which fill the interface `IsReader`. Whether a node is a valid endpoint is
-- asked of the topology, so it is an argument. Lines are counted below 2 ^ 63.
pub mod TcpFlow
pub mod UdpBurst
pub mod UdpPing
pub mod Samples
mod Tests
use basic_sim.Prelude.{
  ℕ, zero, suc, ◌+◌, ◌≡◌, ◌≢◌, refl, sym, ◌∙◌, ap, Bool, true, false, not, ◌&&◌, List, [], ◌∷◌,
  ◌++◌, arith, if◌then◌else◌, ◌==◌, length, append-nil, append_assoc,
}
use mathlib.Core.Path.{subst}
use basic_sim.Prelude.Int.{ℤ, pos, ltb_ℤ, eqb_ℤ}
use basic_sim.Prelude.Text.{Bytes}
use basic_sim.Prelude.Results.{
  Result, ok, err, invalid_argument, runtime_error, abort, guard, ◌>>=◌, ◌>>◌, >>=-eq-ok,
  guard-eq-ok, ok-injective,
}
use basic_sim.ExpUtil.Collections.{at_index}
use basic_sim.ExpUtil.Numbers.{parse_positive_int64}
use basic_sim.ExpUtil.Config.{File, missing, unreadable, text}

-- `parse_positive_int64(comma_split.at(i))`.
unfoldable pub number_at : List Bytes → ℕ → Result ℤ
number_at comma_split i = at_index comma_split i >>= parse_positive_int64

-- The id must be the number of the line.
unfoldable pub id_at : List Bytes → ℕ → Result ℤ
unfolding number_at
id_at comma_split line_counter = do
  id ← number_at comma_split 0
  guard (eqb_ℤ id (pos line_counter)) invalid_argument
  ok id

-- The checks that the three readers end with: start times ascend weakly, the ends differ and are
-- valid endpoints, and the start is before the end of the simulation.
unfoldable pub check_entry : (ℤ → Bool) → ℤ → ℤ → ℤ → ℤ → ℤ → Result (Unit {0})
check_entry is_valid_endpoint end_time_ns prev_start_time_ns from_node_id to_node_id start_time_ns =
    do
      guard (not (ltb_ℤ start_time_ns prev_start_time_ns)) invalid_argument
      guard (not (eqb_ℤ from_node_id to_node_id)) invalid_argument
      guard (is_valid_endpoint from_node_id) invalid_argument
      guard (is_valid_endpoint to_node_id) invalid_argument
      guard (ltb_ℤ start_time_ns end_time_ns) invalid_argument

-- What an accepted entry has in common.
pub record IsEntry (is_valid_endpoint : ℤ → Bool) (end_time_ns : ℤ) (line_counter : ℕ)
    (prev_start_time_ns id from_node_id to_node_id start_time_ns : ℤ) : Type 0 where
  pub numbered : eqb_ℤ id (pos line_counter) ≡ true
  pub ascending : ltb_ℤ start_time_ns prev_start_time_ns ≡ false
  pub differ : eqb_ℤ from_node_id to_node_id ≡ false
  pub from_valid : is_valid_endpoint from_node_id ≡ true
  pub to_valid : is_valid_endpoint to_node_id ≡ true
  pub in_time : ltb_ℤ start_time_ns end_time_ns ≡ true

-- What the loop needs of an entry and of the parser of a line, and the law of the parser.
pub record Reader (is_valid_endpoint : ℤ → Bool) (end_time_ns : ℤ) (E : Type 0) : Type 0 where
  pub id_of : E → ℤ
  pub from_of : E → ℤ
  pub to_of : E → ℤ
  pub start_of : E → ℤ
  pub parse_line : ℕ → ℤ → Bytes → Result E
  pub parse_line-IsEntry :
      (n : ℕ) (prev : ℤ) (line : Bytes) (x : E)
      → parse_line n prev line ≡ ok x
      → IsEntry is_valid_endpoint end_time_ns n prev (id_of x) (from_of x) (to_of x) (start_of x)

pub check_entry_lem :
    (valid : ℤ → Bool) (end_time n : ℤ) (line : ℕ) (prev from to start : ℤ) (u : Unit {0})
    → eqb_ℤ n (pos line) ≡ true
    → check_entry valid end_time prev from to start ≡ ok u
    → IsEntry valid end_time line prev n from to start
unfolding check_entry
check_entry_lem valid end_time n line prev from to start u id h =
    let (a, h1) = guard-eq-ok (not (ltb_ℤ start prev)) invalid_argument _ h in
    let (b, h2) = guard-eq-ok (not (eqb_ℤ from to)) invalid_argument _ h1 in
    let (c, h3) = guard-eq-ok (valid from) invalid_argument _ h2 in
    let (d, h4) =
      guard-eq-ok (valid to) invalid_argument (guard (ltb_ℤ start end_time) invalid_argument) h3 in
    record {
      numbered = id;
      ascending = ground (arith, a);
      differ = ground (arith, b);
      from_valid = c;
      to_valid = d;
      in_time = ground (arith, h4);
    }

pub id_at-eq :
    (split : List Bytes) (n : ℕ) (id : ℤ) → id_at split n ≡ ok id → eqb_ℤ id (pos n) ≡ true
unfolding id_at
id_at-eq split n id h =
    let (i, h0, h1) = >>=-eq-ok (number_at split 0) _ h in
    let (b, h2) = guard-eq-ok (eqb_ℤ i (pos n)) invalid_argument (ok i) h1 in
    subst (λ j. eqb_ℤ j (pos n) ≡ true) (ok-injective h2) b

module _ {valid : ℤ → Bool} {end_time : ℤ} {E : Type 0} (r : Reader valid end_time E) where
  -- The loop over the lines, with the number of the line and the start of the entry before.
  unfoldable pub read_entries : List Bytes → ℕ → ℤ → List E → Result (List E)
  read_entries [] line_counter prev schedule = ok schedule
  read_entries (line ∷ lines) line_counter prev schedule = do
    x ← r.parse_line line_counter prev line
    read_entries lines (suc line_counter) (r.start_of x) (schedule ++ x ∷ [])

  unfoldable pub read_schedule : File → Result (List E)
  unfolding read_entries
  read_schedule missing = err runtime_error
  read_schedule unreadable = err abort
  read_schedule (text lines) = read_entries lines 0 (pos 0) []

  -- The entries have the numbers from `n` on and start at `prev` or later, in order.
  abbrev pub IsSchedule : ℕ → ℤ → List E → Type 0
  IsSchedule n prev [] = Unit
  IsSchedule n prev (x ∷ xs) =
      IsEntry valid end_time n prev (r.id_of x) (r.from_of x) (r.to_of x) (r.start_of x)
      × IsSchedule (suc n) (r.start_of x) xs

  read_entries-IsSchedule :
      (lines : List Bytes) (n : ℕ) (prev : ℤ) (before schedule : List E)
      → read_entries lines n prev before ≡ ok schedule
      → (xs : List E) × (schedule ≡ before ++ xs)
        × (length xs ≡ length lines)
        × IsSchedule n prev xs
  unfolding read_entries
  read_entries-IsSchedule [] n prev before schedule h =
      ([], sym (ok-injective h) ∙ sym (append-nil before), refl, tt)
  read_entries-IsSchedule (line ∷ lines) n prev before schedule h =
      let (x, h0, h1) = >>=-eq-ok (r.parse_line n prev line) _ h in
      let (xs, e, len, all) =
        read_entries-IsSchedule lines (suc n) (r.start_of x) (before ++ x ∷ []) schedule h1 in
      (
        x ∷ xs,
        e ∙ append_assoc before (x ∷ []) xs,
        omega (arith, len),
        (r.parse_line-IsEntry n prev line x h0, all),
      )

  -- An accepted schedule has an entry for each line; the ids count the lines from 0, the start times
  -- ascend weakly from 0 and are before the end of the simulation, and each entry is between two
  -- different valid endpoints.
  pub read_schedule_sound :
      (lines : List Bytes) (schedule : List E)
      → read_schedule (text lines) ≡ ok schedule
      → (length schedule ≡ length lines) × IsSchedule 0 (pos 0) schedule
  unfolding read_schedule
  read_schedule_sound lines schedule h =
      let (xs, e, len, all) = read_entries-IsSchedule lines 0 (pos 0) [] schedule h in
      (ap length e ∙ len, subst (IsSchedule 0 (pos 0)) (sym e) all)
