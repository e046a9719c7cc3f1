-- ===== src/ExpUtil/Numbers/Laws.antt =====
-- Which texts the number parsers accept, and what they make of them.
use basic_sim.Prelude.{
  ℕ, ◌-◌, ◌+◌, ◌≤◌, ◌≡◌, ◌≢◌, refl, sym, Bool, true, false, [], ◌∷◌, ◌++◌, arith, if◌then◌else◌,
  ◌==◌, length, All, ap, ◌∙◌, Bool-cases, inl, inr,
}
use basic_sim.Prelude.Int.{ℤ}
use basic_sim.Prelude.Text.{Bytes}
use basic_sim.Prelude.Results.{Result, ok, err, out_of_range, ◌>>=◌, >>=-eq-ok}
use basic_sim.ExpUtil.Strings.{
  trim, left_trim, is_space, IsBlank, HasNoSpace, trim_padded, trim-id, left_trim-id,
  left_trim-trim,
}
use basic_sim.ExpUtil.Numbers.{
  is_digit, digits_prefix, value, signed, fits_int64, read_digits, read_signed, stoll, parse_int64,
}

abbrev pub IsDigits : Bytes → Type 0
IsDigits = All (λ c. is_digit c ≡ true)

-- The signs that a number may have.
pub data Sign : Type 0 where
  no_sign plus minus : Sign

abbrev pub sign_bytes : Sign → Bytes
sign_bytes no_sign = []
sign_bytes plus = 43 ∷ []
sign_bytes minus = 45 ∷ []

abbrev pub is_minus : Sign → Bool
is_minus minus = true
is_minus _ = false

digits_prefix-id : (s : Bytes) → IsDigits s → digits_prefix s ≡ s
unfolding digits_prefix
digits_prefix-id [] h = refl
digits_prefix-id (c ∷ s) h = ground (arith, digits_prefix-id s h.1)

digits-HasNoSpace : (s : Bytes) → IsDigits s → HasNoSpace s
unfolding is_digit is_space
digits-HasNoSpace [] h = tt
digits-HasNoSpace (c ∷ s) h = ground (arith, digits-HasNoSpace s h.1)

number-HasNoSpace : (g : Sign) (s : Bytes) → IsDigits s → HasNoSpace (sign_bytes g ++ s)
unfolding is_space
number-HasNoSpace no_sign s h = digits-HasNoSpace s h
number-HasNoSpace plus s h = (refl, digits-HasNoSpace s h)
number-HasNoSpace minus s h = (refl, digits-HasNoSpace s h)

-- What a number in range or out of it reads as.
abbrev pub number : Sign → Bytes → Result ℤ
number g s =
    if fits_int64 (is_minus g) (value 0 s)
    then ok (signed (is_minus g) (value 0 s))
    else err out_of_range

stoll-number :
    (g : Sign) (s : Bytes)
    → s ≢ []
    → IsDigits s
    → stoll (sign_bytes g ++ s) ≡ (number g s >>= λ z. ok (z, length (sign_bytes g ++ s)))
unfolding stoll is_digit
stoll-number g [] ne h = absurd (ne refl)
stoll-number no_sign (c ∷ s) ne h =
    ground (arith, digits_prefix-id (c ∷ s) h, left_trim-id (c ∷ s) (digits-HasNoSpace (c ∷ s) h))
stoll-number plus (c ∷ s) ne h = ground (
  arith,
  digits_prefix-id (c ∷ s) h,
  left_trim-id (43 ∷ c ∷ s) (number-HasNoSpace plus (c ∷ s) h),
)
stoll-number minus (c ∷ s) ne h = ground (
  arith,
  digits_prefix-id (c ∷ s) h,
  left_trim-id (45 ∷ c ∷ s) (number-HasNoSpace minus (c ∷ s) h),
)

-- Digits behind an optional sign, between spaces, are read as the number that they spell if it is
-- an int64, and are `out_of_range` if it is not.
pub parse_int64_complete :
    (w : Bytes) (g : Sign) (s v : Bytes)
    → IsBlank w
    → IsBlank v
    → s ≢ []
    → IsDigits s
    → parse_int64 (w ++ ((sign_bytes g ++ s) ++ v)) ≡ number g s
unfolding parse_int64
parse_int64_complete w g s v hw hv ne h =
    let t = trim_padded w (sign_bytes g ++ s) v hw hv ∙ trim-id _ (number-HasNoSpace g s h) in
    rw (t, stoll-number g s ne h) (ground arith)

digits_prefix_le : (s : Bytes) → length (digits_prefix s) ≤ length s
unfolding digits_prefix
digits_prefix_le [] = omega arith
digits_prefix_le (c ∷ s) = ground (arith, digits_prefix_le s)

digits_prefix_full :
    (s : Bytes) → length (digits_prefix s) ≡ length s → (digits_prefix s ≡ s) × IsDigits s
unfolding digits_prefix
digits_prefix_full [] e = (refl, tt)
digits_prefix_full (c ∷ s) e = ground (arith, digits_prefix_full s)

-- What is known of a number that was read to the end of the text.
abbrev pub Reads : Sign → Bytes → ℤ → Type 0
Reads g s z =
    (s ≢ [])
    × IsDigits s
    × (fits_int64 (is_minus g) (value 0 s) ≡ true)
    × (z ≡ signed (is_minus g) (value 0 s))

read_digits_sound :
    (g : Sign) (offset : ℕ) (s : Bytes) (z : ℤ) (i : ℕ)
    → read_digits (is_minus g) offset s ≡ ok (z, i)
    → i ≡ offset + length s
    → Reads g s z
unfolding read_digits
read_digits_sound g offset [] z i e at = unfold digits_prefix in ground (arith, e)
read_digits_sound g offset (c ∷ s) z i e at =
    ground (arith, digits_prefix_full (c ∷ s), fits_int64 (is_minus g))

read_signed_sound :
    (t : Bytes) (z : ℤ)
    → read_signed 0 t ≡ ok (z, length t)
    → (g : Sign) × (s : Bytes) × (t ≡ sign_bytes g ++ s) × Reads g s z
unfolding read_signed
read_signed_sound [] z h = absurd (cc h)
read_signed_sound (c ∷ s) z h = elim (Bool-cases (c == 45)) [
  | inl m ↦ (
    minus,
    s,
    ground arith,
    read_digits_sound minus 1 s z (length (c ∷ s)) (rw m at h) (omega arith),
  )
  | inr nm ↦ elim (Bool-cases (c == 43)) [
    | inl p ↦ (
      plus,
      s,
      ground arith,
      read_digits_sound plus 1 s z (length (c ∷ s)) (rw (nm, p) at h) (omega arith),
    )
    | inr np ↦ (
      no_sign,
      c ∷ s,
      refl,
      read_digits_sound no_sign 0 (c ∷ s) z (length (c ∷ s)) (rw (nm, np) at h) (omega arith),
    )
  ]
]

stoll_trimmed : (t : Bytes) → left_trim t ≡ t → stoll t ≡ read_signed 0 t
unfolding stoll
stoll_trimmed t e =
    let z : length t - length t ≡ 0 = omega arith in
    ap (λ u. read_signed (length t - length u) u) e ∙ ap (λ n. read_signed n t) z

-- A text that is accepted is, between spaces, an optional sign and at least one digit, and the
-- result is the number that they spell, which is an int64.
pub parse_int64_sound :
    (str : Bytes) (z : ℤ)
    → parse_int64 str ≡ ok z
    → (g : Sign) × (s : Bytes) × (trim str ≡ sign_bytes g ++ s) × Reads g s z
unfolding parse_int64
parse_int64_sound str z h =
    let t = trim str in
    let (r, e, e') = >>=-eq-ok (stoll t) _ h in
    let at : (r.1 ≡ length t) × (r.0 ≡ z) = ground (arith, e') in
    read_signed_sound t z
      (sym (stoll_trimmed t (left_trim-trim str)) ∙ e ∙ ap ok (λ i. (at.1 i, at.0 i)))
