-- ===== src/Scheduler/Starts.antt =====
-- About the chain of starts in the schedulers of helper/apps.
use basic_sim.Prelude.{
  ℕ, zero, suc, ◌<◌, ◌≡◌, refl, sym, ◌∙◌, ap, Bool, true, false, List, [], ◌∷◌, ◌++◌, Option, none,
  some, arith, ◌==◌, length, length-append, map, All, if◌then◌else◌, Bool-cases, inl, inr,
  append_assoc,
}
use mathlib.Core.Path.{subst}
use basic_sim.Prelude.Int.{ℤ, pos, ltb_ℤ, ◌-ℤ◌, ◌+ℤ◌}
use basic_sim.Prelude.Text.{Bytes}
use basic_sim.Prelude.Results.{Result, ok, >>=-elim, ok-injective}
use basic_sim.ExpUtil.Collections.{at_index}
use basic_sim.ExpUtil.Config.{text}
use basic_sim.BasicSimulation.{BasicSimulation, is_node_assigned_to_this_system}
use basic_sim.Schedule.{Reader, IsSchedule, read_schedule, read_schedule_sound}
use basic_sim.Scheduler.{
  local_entries, filter_schedule, next_start, start_next, run_starts, start_all,
}

pub sub-add : (a b : ℤ) → a +ℤ (b -ℤ a) ≡ b
sub-add a b = ground arith

sub_nonneg : (a b : ℤ) → ltb_ℤ b a ≡ false → ltb_ℤ (b -ℤ a) (pos 0) ≡ false
sub_nonneg a b h = ground arith

pub at_index-append {ℓ} :
    {A : Type ℓ} (before : List A) (x : A) (rest : List A)
    → at_index (before ++ x ∷ rest) (length before) ≡ ok x
at_index-append [] x rest = refl
at_index-append (b ∷ before) x rest = at_index-append before x rest

module _ {E : Type 0} (start_of : E → ℤ) where
  -- The starts are at `prev` or later, in order.
  abbrev pub IsAscending : ℤ → List E → Type 0
  IsAscending prev [] = Unit
  IsAscending prev (x ∷ xs) = (ltb_ℤ (start_of x) prev ≡ false) × IsAscending (start_of x) xs

  IsAscending-weaken :
      (a b : ℤ) (xs : List E) → ltb_ℤ b a ≡ false → IsAscending b xs → IsAscending a xs
  IsAscending-weaken a b [] h k = tt
  IsAscending-weaken a b (x ∷ xs) h k = (ground (arith, k.0), k.1)

  pick-IsAscending :
      (b : Bool) (prev : ℤ) (x : E) (rest : List E)
      → ltb_ℤ (start_of x) prev ≡ false
      → IsAscending (start_of x) rest
      → IsAscending prev (if b then x ∷ rest else rest)
  pick-IsAscending true prev x rest h a = (h, a)
  pick-IsAscending false prev x rest h a = IsAscending-weaken prev (start_of x) rest h a

  -- To leave entries out keeps the order.
  local_entries-IsAscending :
      (from_of : E → ℤ) (s : BasicSimulation) (prev : ℤ) (xs ys : List E)
      → IsAscending prev xs
      → local_entries from_of s xs ≡ ok ys
      → IsAscending prev ys
  unfolding local_entries
  local_entries-IsAscending from_of s prev [] ys a h = subst (IsAscending prev) (ok-injective h) tt
  local_entries-IsAscending from_of s prev (x ∷ xs) ys a h =
      >>=-elim (is_node_assigned_to_this_system (from_of x) s) _ h λ b h0 h1.
        >>=-elim (local_entries from_of s xs) _ h1 λ rest h2 h3.
          let later = local_entries-IsAscending from_of s (start_of x) xs rest a.1 h2 in
          subst (IsAscending prev) (ok-injective h3) (pick-IsAscending b prev x rest a.0 later)

module _ {E A : Type 0} (start_of : E → ℤ) (install : ℤ → E → Result A) (app : E → A) where
  -- Each entry can be installed at its own start, and gives its application.
  abbrev pub AreInstalled : List E → Type 0
  AreInstalled = All (λ x. install (start_of x) x ≡ ok (app x))

module _ {E A : Type 0} (start_of : E → ℤ) (install : ℤ → E → Result A) (schedule : List E)
    (app : E → A) where
  next_start-eq :
      (i : ℕ) (now : ℤ) (y : E)
      → (i == length schedule) ≡ false
      → at_index schedule i ≡ ok y
      → ltb_ℤ (start_of y) now ≡ false
      → next_start start_of install schedule i now ≡ ok (some (start_of y, i))
  unfolding next_start
  next_start-eq i now y not_last at_y later =
      rw (not_last, at_y, sub_nonneg now (start_of y) later, sub-add now (start_of y)) refl

  start_next-eq :
      (before : List E) (x : E) (rest : List E) (apps : List A) (next : Option (ℤ × ℕ))
      → schedule ≡ before ++ x ∷ rest
      → install (start_of x) x ≡ ok (app x)
      → next_start start_of install schedule (suc (length before)) (start_of x) ≡ ok next
      → start_next start_of install schedule (length before) (start_of x) apps
        ≡ ok (apps ++ app x ∷ [], next)
  unfolding start_next
  start_next-eq before x rest apps next e i h =
      let at_x : at_index schedule (length before) ≡ ok x =
        ap (λ l. at_index l (length before)) e ∙ at_index-append before x rest in
      rw at_x (ground (arith, i, h))

  run_starts-from :
      (before : List E) (x : E) (rest : List E) (apps : List A) (fuel : ℕ)
      → schedule ≡ before ++ x ∷ rest
      → IsAscending start_of (start_of x) rest
      → AreInstalled start_of install app (x ∷ rest)
      → length rest < fuel
      → run_starts start_of install schedule fuel (some (start_of x, length before)) apps
        ≡ ok (apps ++ map app (x ∷ rest))
  unfolding run_starts next_start
  run_starts-from before x rest apps zero e a i h = absurd (omega arith)
  run_starts-from before x [] apps (suc fuel) e a i h =
      let len = ap length e ∙ length-append before (x ∷ []) in
      rw (start_next-eq before x [] apps none e i.0 (ground (arith, len))) refl
  run_starts-from before x (y ∷ rest) apps (suc fuel) e a i h =
      let len = ap length e ∙ length-append before (x ∷ y ∷ rest) in
      let e' : schedule ≡ (before ++ x ∷ []) ++ y ∷ rest =
        e ∙ sym (append_assoc before (x ∷ []) (y ∷ rest)) in
      let count : length (before ++ x ∷ []) ≡ suc (length before) =
        omega (arith, length-append before (x ∷ [])) in
      let at_y : at_index schedule (suc (length before)) ≡ ok y =
        ap (at_index schedule) (sym count)
        ∙ (ap (λ l. at_index l (length (before ++ x ∷ []))) e'
            ∙ at_index-append (before ++ x ∷ []) y rest) in
      let next : next_start start_of install schedule (suc (length before)) (start_of x)
          ≡ ok (some (start_of y, suc (length before))) =
        next_start-eq (suc (length before)) (start_of x) y (ground (arith, len)) at_y a.0 in
      let rec =
        run_starts-from (before ++ x ∷ []) y rest (apps ++ app x ∷ []) fuel e' a.1 i.1
          (omega arith) in
      rw
        (start_next-eq before x (y ∷ rest) apps (some (start_of y, suc (length before))) e i.0 next)
        (subst
          (λ n.
            run_starts start_of install schedule fuel (some (start_of y, n)) (apps ++ app x ∷ [])
            ≡ ok (apps ++ app x ∷ app y ∷ map app rest))
          count (rec ∙ ap ok (append_assoc apps (app x ∷ []) (app y ∷ map app rest))))

module _ {E A : Type 0} (start_of : E → ℤ) (install : ℤ → E → Result A) (app : E → A) where
  start_all-eq :
      (schedule : List E)
      → IsAscending start_of (pos 0) schedule
      → AreInstalled start_of install app schedule
      → start_all start_of install schedule ≡ ok (map app schedule)
  unfolding start_all run_starts
  start_all-eq [] a i = refl
  start_all-eq (x ∷ xs) a i =
      rw (next_start-eq start_of install (x ∷ xs) app 0 (pos 0) x (ground arith) refl a.0) (
        run_starts-from start_of install (x ∷ xs) app [] x xs [] (suc (length xs)) refl a.1 i
          (omega arith))

module _ {valid : ℤ → Bool} {end_time : ℤ} {E A : Type 0} (r : Reader valid end_time E)
    (install : ℤ → E → Result A) (app : E → A) where
  IsSchedule-IsAscending :
      (n : ℕ) (prev : ℤ) (xs : List E) → IsSchedule r n prev xs → IsAscending r.start_of prev xs
  IsSchedule-IsAscending n prev [] h = tt
  IsSchedule-IsAscending n prev (x ∷ xs) h =
      (h.0.ascending, IsSchedule-IsAscending (suc n) (r.start_of x) xs h.1)

  filter_schedule-IsAscending :
      (s : BasicSimulation) (prev : ℤ) (xs ys : List E)
      → IsAscending r.start_of prev xs
      → filter_schedule r.from_of s xs ≡ ok ys
      → IsAscending r.start_of prev ys
  unfolding filter_schedule
  filter_schedule-IsAscending s prev xs ys a h = elim (Bool-cases s.enable_distributed) [
    | inl on ↦ local_entries-IsAscending r.start_of r.from_of s prev xs ys a (ground (arith, on, h))
    | inr off ↦ subst (IsAscending r.start_of prev) (ok-injective (ground (arith, off, h))) a
  ]

  -- For a schedule that the reader accepted, filtered for this system, whose entries can each be
  -- installed at their own start: the chain of starts ends, installs each entry just once, in order
  -- and at its start, and no assertion on the time fails.
  pub start_all-map :
      (lines : List Bytes) (complete schedule : List E) (s : BasicSimulation)
      → read_schedule r (text lines) ≡ ok complete
      → filter_schedule r.from_of s complete ≡ ok schedule
      → AreInstalled r.start_of install app schedule
      → start_all r.start_of install schedule ≡ ok (map app schedule)
  start_all-map lines complete schedule s h k i =
      start_all-eq r.start_of install app schedule
        (filter_schedule-IsAscending s (pos 0) complete schedule
          (IsSchedule-IsAscending 0 (pos 0) complete (read_schedule_sound r lines complete h).1) k)
        i
