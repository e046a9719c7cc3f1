-- ===== src/ExpUtil/Numbers.antt =====
-- The number parsers of `exp-util.cc`, and `std::stoll`, which they call.
pub mod Laws
use basic_sim.Prelude.{
  ℕ, zero, suc, ◌-◌, ◌+◌, ◌*◌, ◌^◌, ◌≡◌, Bool, true, false, not, ◌&&◌, ◌||◌, List, [], ◌∷◌,
  if◌then◌else◌, ◌==◌, leb, ltb, length, is_nil,
}
use basic_sim.Prelude.Int.{ℤ, pos, negsuc, ltb_ℤ}
use basic_sim.Prelude.Text.{Bytes, codes, bytes_beq}
use basic_sim.Prelude.Results.{Result, ok, err, invalid_argument, out_of_range, guard, ◌>>=◌, ◌>>◌}
use basic_sim.ExpUtil.Strings.{trim, left_trim}

unfoldable pub is_digit : ℕ → Bool
is_digit c = leb 48 c && leb c 57

-- The digits that a text begins with.
unfoldable pub digits_prefix : Bytes → Bytes
digits_prefix [] = []
digits_prefix (c ∷ s) = let rest = digits_prefix s in if is_digit c then c ∷ rest else []

-- The number that digits spell behind `n`.
unfoldable pub value : ℕ → Bytes → ℕ
value n [] = n
value n (c ∷ s) = value (n * 10 + (c - 48)) s

-- Minus a number, if the sign is set.
unfoldable pub signed : Bool → ℕ → ℤ
signed true zero = pos 0
signed true (suc n) = negsuc n
signed false n = pos n

-- The range of an int64.
unfoldable pub fits_int64 : Bool → ℕ → Bool
fits_int64 true n = leb n (2 ^ 63)
fits_int64 false n = ltb n (2 ^ 63)

-- The digits of `std::stoll`, `offset` bytes into the text; the second part is the position behind
-- the number.
unfoldable pub read_digits : Bool → ℕ → Bytes → Result (ℤ × ℕ)
read_digits minus offset s =
    let digits = digits_prefix s in
    if is_nil digits
    then err invalid_argument
    else if fits_int64 minus (value 0 digits)
    then ok (signed minus (value 0 digits), offset + length digits)
    else err out_of_range

-- The sign of `std::stoll`.
unfoldable pub read_signed : ℕ → Bytes → Result (ℤ × ℕ)
unfolding read_digits
read_signed offset [] = err invalid_argument
read_signed offset (c ∷ s) =
    if c == 45
    then read_digits true (offset + 1) s
    else if c == 43
    then read_digits false (offset + 1) s
    else read_digits false offset (c ∷ s)

-- `std::stoll`: spaces, a sign, decimal digits.
unfoldable pub stoll : Bytes → Result (ℤ × ℕ)
unfolding read_signed
stoll s = read_signed (length s - length (left_trim s)) (left_trim s)

-- The `invalid_argument` of `stoll` is thrown again as one; an `out_of_range` is not caught.
unfoldable pub parse_int64 : Bytes → Result ℤ
parse_int64 str = do
  let str_no_whitespace = trim str
  r ← stoll str_no_whitespace
  guard (r.1 == length str_no_whitespace) invalid_argument
  ok r.0

unfoldable pub parse_positive_int64 : Bytes → Result ℤ
parse_positive_int64 str = do
  val ← parse_int64 str
  guard (not (ltb_ℤ val (pos 0))) invalid_argument
  ok val

unfoldable pub parse_geq_one_int64 : Bytes → Result ℤ
parse_geq_one_int64 str = do
  val ← parse_positive_int64 str
  guard (not (ltb_ℤ val (pos 1))) invalid_argument
  ok val

unfoldable pub parse_boolean : Bytes → Result Bool
parse_boolean str =
    let s = trim str in
    if bytes_beq s (codes "true") || bytes_beq s (codes "1")
    then ok true
    else if bytes_beq s (codes "false") || bytes_beq s (codes "0")
    then ok false
    else err invalid_argument

-- Doubles: the type, `std::stod` and the comparisons that the program makes.
pub record Doubles : Type 1 where
  pub Double : Type 0
  pub stod : Bytes → Result (Double × ℕ)
  pub is_negative : Double → Bool
  pub is_zero : Double → Bool
  pub is_above_one : Double → Bool

module _ (d : Doubles) where
  open d use {Double, stod, is_negative, is_above_one}

  unfoldable pub parse_double : Bytes → Result Double
  parse_double str = do
    let str_no_whitespace = trim str
    r ← stod str_no_whitespace
    guard (r.1 == length str_no_whitespace) invalid_argument
    ok r.0

  unfoldable pub parse_positive_double : Bytes → Result Double
  parse_positive_double str = do
    val ← parse_double str
    guard (not (is_negative val)) invalid_argument
    ok val

  unfoldable pub parse_double_between_zero_and_one : Bytes → Result Double
  parse_double_between_zero_and_one str = do
    val ← parse_double str
    guard (not (is_negative val || is_above_one val)) invalid_argument
    ok val
