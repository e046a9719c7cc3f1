-- ===== src/Utilization/Busy.antt =====
-- What the tracker has to measure: the busy time of a signal between two times.
use Prim.Native.Nat.{min, max}
use basic_sim.Prelude.{
  ℕ, zero, suc, ◌+◌, ◌-◌, ◌*◌, ◌≤◌, ◌≡◌, refl, Bool, List, [], ◌∷◌, ◌++◌, arith, if◌then◌else◌, ◌∙◌,
}
use basic_sim.Utilization.{Interval}

-- A stretch of time in one state.
pub record Stretch : Type 0 where
  pub from : ℕ
  pub to : ℕ
  pub is_busy : Bool

unfoldable pub overlap : Stretch → ℕ → ℕ → ℕ
overlap s a b = if s.is_busy then min s.to b - max s.from a else 0

-- The busy time from `a` to `b`.
unfoldable pub busy_in : List Stretch → ℕ → ℕ → ℕ
busy_in [] a b = 0
busy_in (s ∷ h) a b = overlap s a b + busy_in h a b

-- The stretches follow one another from `a` to `b`.
abbrev pub IsChain : ℕ → List Stretch → ℕ → Type 0
IsChain a [] b = a ≡ b
IsChain a (s ∷ h) b = (s.from ≡ a) × (s.from ≤ s.to) × IsChain s.to h b

pub IsChain-le : (a : ℕ) (h : List Stretch) (b : ℕ) → IsChain a h b → a ≤ b
IsChain-le a [] b c = omega arith
IsChain-le a (s ∷ h) b c = omega (arith, IsChain-le s.to h b c.2)

pub IsChain-snoc :
    (a : ℕ) (h : List Stretch) (b c : ℕ) (on : Bool)
    → IsChain a h b
    → b ≤ c
    → IsChain a (h ++ record { from = b; to = c; is_busy = on } ∷ []) c
IsChain-snoc a [] b c on k le = (omega arith, le, refl)
IsChain-snoc a (s ∷ h) b c on k le = (k.0, k.1, IsChain-snoc s.to h b c on k.2 le)

pub busy_in-snoc :
    (h : List Stretch) (s : Stretch) (a b : ℕ)
    → busy_in (h ++ s ∷ []) a b ≡ busy_in h a b + overlap s a b
unfolding busy_in
busy_in-snoc [] s a b = omega arith
busy_in-snoc (r ∷ h) s a b = omega (arith, busy_in-snoc h s a b)

-- Time behind the end of the history adds nothing.
pub busy_in-beyond :
    (x : ℕ) (h : List Stretch) (p a b : ℕ) → IsChain x h p → p ≤ b → busy_in h a b ≡ busy_in h a p
unfolding busy_in overlap
busy_in-beyond x [] p a b k le = refl
busy_in-beyond x (s ∷ h) p a b k le =
    ground (arith, busy_in-beyond s.to h p a b k.2, IsChain-le s.to h p k.2)

pub busy_in-add :
    (h : List Stretch) (a b c : ℕ) → a ≤ b → b ≤ c → busy_in h a b + busy_in h b c ≡ busy_in h a c
unfolding busy_in overlap
busy_in-add [] a b c p q = refl
busy_in-add (s ∷ h) a b c p q = ground (arith, busy_in-add h a b c)

pub busy_in_self : (h : List Stretch) (a : ℕ) → busy_in h a a ≡ 0
unfolding busy_in overlap
busy_in_self [] a = refl
busy_in_self (s ∷ h) a = ground (arith, busy_in_self h a)

busy_in-le_from :
    (x : ℕ) (h : List Stretch) (y a b : ℕ) → IsChain x h y → busy_in h a b ≤ b - max a x
unfolding busy_in overlap
busy_in-le_from x [] y a b k = omega arith
busy_in-le_from x (s ∷ h) y a b k = ground (arith, busy_in-le_from s.to h y a b k.2)

-- No stretch of time is busy for longer than it lasts.
pub busy_in-le : (x : ℕ) (h : List Stretch) (y a b : ℕ) → IsChain x h y → busy_in h a b ≤ b - a
busy_in-le x h y a b k = omega (arith, busy_in-le_from x h y a b k)

-- The first `k` intervals of length `i`, with the busy time of each.
unfoldable pub table : ℕ → List Stretch → ℕ → List Interval
table i h zero = []
table i h (suc k) =
    table i h k
    ++ record { start = k * i; end = k * i + i; busy = busy_in h (k * i) (k * i + i) } ∷ []

nothing_more : (s : Stretch) (a b n : ℕ) → b ≤ s.from → n + overlap s a b ≡ n
unfolding overlap
nothing_more s a b n le = ground arith

-- Intervals that end before a new stretch begins are not changed by it.
pub table-snoc :
    (i : ℕ) (h : List Stretch) (s : Stretch) (k : ℕ)
    → k * i ≤ s.from
    → table i (h ++ s ∷ []) k ≡ table i h k
unfolding table
table-snoc i h s zero le = refl
table-snoc i h s (suc k) le =
    let b : suc k * i ≡ k * i + i = grind arith in
    let e : busy_in (h ++ s ∷ []) (k * i) (k * i + i) ≡ busy_in h (k * i) (k * i + i) =
      busy_in-snoc h s (k * i) (k * i + i) ∙ nothing_more s (k * i) (k * i + i) _ (omega arith) in
    rw (table-snoc i h s k (omega arith), e)

pub sum_busy : List Interval → ℕ
sum_busy [] = 0
sum_busy (x ∷ xs) = x.busy + sum_busy xs

pub sum_busy-snoc :
    (xs : List Interval) (x : Interval) → sum_busy (xs ++ x ∷ []) ≡ sum_busy xs + x.busy
unfolding sum_busy
sum_busy-snoc [] x = omega arith
sum_busy-snoc (y ∷ xs) x = omega (arith, sum_busy-snoc xs x)

-- The intervals add up to the busy time of the range that they cover.
pub sum_busy-table :
    (i : ℕ) (h : List Stretch) (k : ℕ) → sum_busy (table i h k) ≡ busy_in h 0 (k * i)
unfolding table sum_busy
sum_busy-table i h zero = let z : 0 * i ≡ 0 = omega arith in rw (z, busy_in_self h 0)
sum_busy-table i h (suc k) =
    let b : suc k * i ≡ k * i + i = grind arith in
    rw (b, sum_busy-snoc (table i h k), sum_busy-table i h k)
      (busy_in-add h 0 (k * i) (k * i + i) (omega arith) (omega arith))
