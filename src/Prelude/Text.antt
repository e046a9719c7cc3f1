-- ===== src/Prelude/Text.antt =====
-- A `std::string` as the list of its bytes.
use Prim.Native.Nat.{ℕ}
use Prim.Native.Char.{code}
use Prim.Native.String.{String}
use mathlib.Core.List.{List, [], ◌∷◌}
use mathlib.Core.Path.{◌≡◌, refl}
use mathlib.Core.Logic.{◌↔◌}
use mathlib.Core.Bool.{Bool, true, false, ◌&&◌, ◌||◌}
use native.Mathlib.Omega.{arith}
use basic_sim.Prelude.Tests.{ltb, ◌==◌}
use basic_sim.Prelude.Order.{Eq, Ord}

abbrev pub Bytes : Type 0
Bytes = List ℕ

-- The bytes of a literal, which is ASCII.
abbrev pub codes : String → Bytes
codes String.[] = []
codes (String.◌∷◌ c s) = code c ∷ codes s

-- `==` of two strings.
unfoldable pub bytes_beq : Bytes → Bytes → Bool
bytes_beq [] [] = true
bytes_beq [] (b ∷ bs) = false
bytes_beq (a ∷ as') [] = false
bytes_beq (a ∷ as') (b ∷ bs) = (a == b) && bytes_beq as' bs

pub bytes_beq_iff : (s t : Bytes) → (bytes_beq s t ≡ true) ↔ (s ≡ t)
unfolding bytes_beq
bytes_beq_iff [] [] = ground arith
bytes_beq_iff [] (b ∷ bs) = ground arith
bytes_beq_iff (a ∷ r) [] = ground arith
bytes_beq_iff (a ∷ r) (b ∷ bs) = ground (arith, bytes_beq_iff r bs)

instance abbrev pub bytes_eq : Eq Bytes
bytes_eq = record { beq = bytes_beq; beq_iff = bytes_beq_iff }

-- `<` of two strings, by their bytes.
unfoldable pub bytes_lt : Bytes → Bytes → Bool
bytes_lt s [] = false
bytes_lt [] (b ∷ bs) = true
bytes_lt (a ∷ r) (b ∷ bs) = ltb a b || ((a == b) && bytes_lt r bs)

pub bytes_lt_irrefl : (s : Bytes) → bytes_lt s s ≡ false
unfolding bytes_lt
bytes_lt_irrefl [] = refl
bytes_lt_irrefl (a ∷ r) = ground (arith, bytes_lt_irrefl r)

pub bytes_lt_trans :
    (s t u : Bytes) → bytes_lt s t ≡ true → bytes_lt t u ≡ true → bytes_lt s u ≡ true
unfolding bytes_lt
bytes_lt_trans s [] u h k = ground arith
bytes_lt_trans s (b ∷ t) [] h k = ground arith
bytes_lt_trans [] (b ∷ t) (c ∷ u) h k = refl
bytes_lt_trans (a ∷ s) (b ∷ t) (c ∷ u) h k = ground (arith, bytes_lt_trans s t u)

pub bytes_lt_total : (s t : Bytes) → bytes_lt s t ≡ false → bytes_lt t s ≡ false → s ≡ t
unfolding bytes_lt
bytes_lt_total [] [] h k = refl
bytes_lt_total [] (b ∷ t) h k = ground arith
bytes_lt_total (a ∷ s) [] h k = ground arith
bytes_lt_total (a ∷ s) (b ∷ t) h k = ground (arith, bytes_lt_total s t)

instance abbrev pub bytes_ord : Ord Bytes
bytes_ord = record {
  lt = bytes_lt;
  lt_irrefl = bytes_lt_irrefl;
  lt_trans = bytes_lt_trans;
  lt_total = bytes_lt_total;
}
