-- ===== src/Prelude/Results.antt =====
-- Exceptions as values: the class that is thrown, without its message.
use mathlib.Core.Path.{◌≡◌, refl}
use mathlib.Core.Bool.{Bool, true, false}
use mathlib.Core.List.{List, [], ◌∷◌}
use mathlib.Core.Logic.{◌⊎◌, inl, inr}

-- `std::invalid_argument`, `std::runtime_error`, `std::out_of_range`, an `NS_ABORT_MSG`, and the fuel
-- of a loop that has run out, where the program would go on.
pub data Error : Type 0 where
  invalid_argument runtime_error out_of_range abort out_of_fuel : Error

-- What a call gives: its value, or what it throws.
pub data Result {ℓ} (V : Type ℓ) : Type ℓ where
  err : Error → Result V
  ok : V → Result V

-- Throw if the test fails.
abbrev pub guard : Bool → Error → Result (Unit {0})
guard false thrown = err thrown
guard true thrown = ok tt

infixl 5 ◌>>=◌
abbrev pub ◌>>=◌ {ℓ κ} : {V : Type ℓ} {W : Type κ} → Result V → (V → Result W) → Result W
err thrown >>= next = err thrown
ok v >>= next = next v

infixl 5 ◌>>◌
abbrev pub ◌>>◌ {κ} : {W : Type κ} → Result (Unit {0}) → Result W → Result W
r >> next = r >>= λ _. next

-- A loop that stops at the first exception.
unfoldable pub map_result {ℓ κ} :
    {A : Type ℓ} {B : Type κ} → (A → Result B) → List A → Result (List B)
map_result f [] = ok []
map_result f (x ∷ xs) = do y ← f x; ys ← map_result f xs; ok (y ∷ ys)

pub >>=-eq-ok {ℓ κ} :
    {V : Type ℓ} {W : Type κ} (r : Result V) (next : V → Result W) {w : W}
    → (r >>= next) ≡ ok w
    → (v : V) × (r ≡ ok v) × (next v ≡ ok w)
>>=-eq-ok (err thrown) next h = cc
>>=-eq-ok (ok v) next h = (v, refl, h)

pub Result-cases {ℓ} :
    {A : Type ℓ} (r : Result A) → ((a : A) × (r ≡ ok a)) ⊎ ((e : Error) × (r ≡ err e))
Result-cases (ok a) = inl (a, refl)
Result-cases (err e) = inr (e, refl)

pub ok-injective {ℓ} : {A : Type ℓ} {a b : A} → ok a ≡ ok b → a ≡ b
ok-injective h = cc

pub guard-eq-ok {ℓ} :
    {B : Type ℓ} (b : Bool) (e : Error) (k : Result B) {r : B}
    → (guard b e >> k) ≡ ok r
    → (b ≡ true) × (k ≡ ok r)
guard-eq-ok true e k h = (refl, h)
guard-eq-ok false e k h = cc

-- The same for a chain of steps: each goes on with the value of the one before.
pub >>=-elim {ℓ κ μ} :
    {A : Type ℓ} {B : Type κ} {P : Type μ} (m : Result A) (f : A → Result B) {b : B}
    → (m >>= f) ≡ ok b
    → ((a : A) → m ≡ ok a → f a ≡ ok b → P)
    → P
>>=-elim (ok a) f h k = k a refl h
>>=-elim (err e) f h k = cc
