-- ===== src/Ecmp/Matrix.antt =====
-- The array `dist` as a matrix: what a read gives after a write.
use basic_sim.Prelude.{
  ℕ, zero, suc, ◌+◌, ◌*◌, ◌<◌, ◌≡◌, refl, ◌&&◌, List, [], ◌∷◌, arith, if◌then◌else◌, ◌==◌, set,
  length,
}
use basic_sim.Ecmp.{entry, cell}

pub entry-set :
    (xs : List ℕ) (i j v : ℕ)
    → i < length xs
    → entry (set xs i v) j ≡ (if i == j then v else entry xs j)
unfolding entry
entry-set [] i j v h = absurd (omega arith)
entry-set (x ∷ xs) zero zero v h = refl
entry-set (x ∷ xs) zero (suc j) v h = ground arith
entry-set (x ∷ xs) (suc i) zero v h = ground arith
entry-set (x ∷ xs) (suc i) (suc j) v h = ground (arith, entry-set xs i j v)

row_lt : (n i x j : ℕ) → i < x → j < n → n * i + j < n * x
row_lt n i x j h k = grind arith

pub index-injective : (n i j x y : ℕ) → j < n → y < n → n * i + j ≡ n * x + y → (i ≡ x) × (j ≡ y)
index-injective n i j x y hj hy e = ground (arith, row_lt n i x j, row_lt n x i y)

pub index-lt : (n i j : ℕ) → i < n → j < n → n * i + j < n * n
index-lt n i j hi hj = row_lt n i n j hi hj

pub cell-set :
    (n : ℕ) (d : List ℕ) (i j v x y : ℕ)
    → length d ≡ n * n
    → i < n
    → j < n
    → y < n
    → cell n (set d (n * i + j) v) x y ≡ (if i == x && j == y then v else cell n d x y)
unfolding cell
cell-set n d i j v x y len hi hj hy = ground (
  arith,
  entry-set d (n * i + j) (n * x + y) v,
  index-lt n i j hi hj,
  index-injective n i j x y hj hy,
)
