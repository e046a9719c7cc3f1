-- ===== src/Prelude/Order.antt =====
-- Equality and strict order of the values that a program compares, as interfaces, and the
-- well-founded order of the native numbers.
use mathlib.Core.WellFounded.{Acc, WellFounded}
use Prim.Native.Nat.{ℕ, zero, suc, ◌<◌}
use mathlib.Core.Path.{◌≡◌}
use mathlib.Core.Logic.{◌↔◌}
use mathlib.Core.Bool.{Bool, true, false, not, ◌&&◌, ◌||◌}
use native.Mathlib.Omega.{arith}
use basic_sim.Prelude.Tests.{ltb, ◌==◌, ==_iff}

pub record Eq {ℓ} (A : Type ℓ) : Type ℓ where
  pub beq : A → A → Bool
  pub beq_iff : (a b : A) → (beq a b ≡ true) ↔ (a ≡ b)

-- A strict total order by a Boolean test.
pub record Ord {ℓ} (A : Type ℓ) : Type ℓ where
  pub lt : A → A → Bool
  pub lt_irrefl : (a : A) → lt a a ≡ false
  pub lt_trans : (a b c : A) → lt a b ≡ true → lt b c ≡ true → lt a c ≡ true
  pub lt_total : (a b : A) → lt a b ≡ false → lt b a ≡ false → a ≡ b

instance abbrev pub nat_eq : Eq ℕ
nat_eq = record { beq = ◌==◌; beq_iff = ==_iff }

pub nat_lt_irrefl : (a : ℕ) → ltb a a ≡ false
nat_lt_irrefl a = ground arith

pub nat_lt_trans : (a b c : ℕ) → ltb a b ≡ true → ltb b c ≡ true → ltb a c ≡ true
nat_lt_trans a b c h k = ground arith

pub nat_lt_total : (a b : ℕ) → ltb a b ≡ false → ltb b a ≡ false → a ≡ b
nat_lt_total a b h k = ground arith

instance abbrev pub nat_ord : Ord ℕ
nat_ord = record {
  lt = ltb;
  lt_irrefl = nat_lt_irrefl;
  lt_trans = nat_lt_trans;
  lt_total = nat_lt_total;
}

Acc-below : (k n : ℕ) → n < k → Acc ◌<◌ n
Acc-below zero n h = elim h [ ]
Acc-below (suc k) n h = Acc.intro n (λ m hm. Acc-below k m (omega arith))

unfoldable pub lt_wf : WellFounded ◌<◌
unfolding Acc-below
lt_wf = record { apply = λ n. Acc-below (suc n) n (omega arith) }

-- Pairs by their first components, then by their second.
module _ {A B : Type 0} ⦃o : Ord A⦄ ⦃p : Ord B⦄ where
  unfoldable pub pair_lt : A × B → A × B → Bool
  pair_lt x y = o.lt x.0 y.0 || (not (o.lt y.0 x.0) && p.lt x.1 y.1)

  pub pair_lt_irrefl : (x : A × B) → pair_lt x x ≡ false
  unfolding pair_lt
  pair_lt_irrefl x = ground (arith, o.lt_irrefl x.0, p.lt_irrefl x.1)

  pub pair_lt_trans : (x y z : A × B) → pair_lt x y ≡ true → pair_lt y z ≡ true → pair_lt x z ≡ true
  unfolding pair_lt
  pair_lt_trans x y z h k = ground (
    arith,
    o.lt_trans x.0 y.0 z.0,
    o.lt_trans z.0 x.0 y.0,
    o.lt_trans y.0 z.0 x.0,
    o.lt_total x.0 y.0,
    o.lt_total y.0 z.0,
    p.lt_trans x.1 y.1 z.1,
  )

  pub pair_lt_total : (x y : A × B) → pair_lt x y ≡ false → pair_lt y x ≡ false → x ≡ y
  unfolding pair_lt
  pair_lt_total (a, b) (c, d) h k = ground (arith, o.lt_total a c, p.lt_total b d)

  instance abbrev pub pair_ord : Ord (A × B)
  pair_ord = record {
    lt = pair_lt;
    lt_irrefl = pair_lt_irrefl;
    lt_trans = pair_lt_trans;
    lt_total = pair_lt_total;
  }
