-- ===== src/ExpUtil/Strings.antt =====
-- Trimming, prefixes, suffixes and quotes of `exp-util.cc`, and `std::string::find`.
use basic_sim.Prelude.{
  ℕ, suc, ◌-◌, ◌≡◌, refl, Bool, true, false, ◌&&◌, ◌||◌, [], ◌∷◌, ◌++◌, Option, none, some, arith,
  if◌then◌else◌, ◌==◌, leb, length, take, drop, is_nil, All, ap, ◌∙◌,
}
use basic_sim.Prelude.Text.{Bytes, bytes_beq}

-- The set " \t\n\r\f\v", which is also what `isspace` accepts.
unfoldable pub is_space : ℕ → Bool
is_space c = c == 32 || (c == 9 || (c == 10 || (c == 13 || (c == 12 || c == 11))))

-- Erase up to the first byte that is no space; all, if there is none.
unfoldable pub left_trim : Bytes → Bytes
left_trim [] = []
left_trim (c ∷ s) = let rest = left_trim s in if is_space c then rest else c ∷ s

-- Erase behind the last byte that is no space; all, if there is none.
unfoldable pub right_trim : Bytes → Bytes
right_trim [] = []
right_trim (c ∷ s) = let rest = right_trim s in if is_nil rest && is_space c then [] else c ∷ rest

unfoldable pub trim : Bytes → Bytes
unfolding left_trim right_trim
trim s = left_trim (right_trim s)

-- `size() >= n && 0 == compare(...)`.
unfoldable pub starts_with : Bytes → Bytes → Bool
starts_with str prefix =
    leb (length prefix) (length str) && bytes_beq (take (length prefix) str) prefix

unfoldable pub ends_with : Bytes → Bytes → Bool
ends_with str suffix =
    leb (length suffix) (length str) && bytes_beq (drop (length str - length suffix) str) suffix

abbrev quote : Bytes
quote = 34 ∷ []

unfoldable pub remove_start_end_double_quote_if_present : Bytes → Bytes
unfolding starts_with ends_with
remove_start_end_double_quote_if_present s =
    if leb 2 (length s) && (starts_with s quote && ends_with s quote)
    then take (length s - 2) (drop 1 s)
    else s

-- `find`: the first position at which the text begins with `pattern`; `none` is `npos`.
unfoldable pub find : Bytes → Bytes → Option ℕ
find pattern [] = if is_nil pattern then some 0 else none
find pattern (c ∷ s) =
    let later = find pattern s in
    if bytes_beq (take (length pattern) (c ∷ s)) pattern
    then some 0
    else elim later [ none ↦ none | some i ↦ some (suc i) ]

-- Text made of spaces, text without a space at its ends.
abbrev pub IsBlank : Bytes → Type 0
IsBlank = All (λ c. is_space c ≡ true)

abbrev pub IsTight : Bytes → Type 0
IsTight s = trim s ≡ s

left_trim-blank : (w s : Bytes) → IsBlank w → left_trim (w ++ s) ≡ left_trim s
unfolding left_trim
left_trim-blank [] s h = refl
left_trim-blank (c ∷ w) s h = ground (arith, left_trim-blank w s)

right_trim-blank : (w : Bytes) → IsBlank w → right_trim w ≡ []
unfolding right_trim
right_trim-blank [] h = refl
right_trim-blank (c ∷ w) h = ground (arith, right_trim-blank w)

right_trim-append : (s w : Bytes) → IsBlank w → right_trim (s ++ w) ≡ right_trim s
unfolding right_trim
right_trim-append [] w h = right_trim-blank w h
right_trim-append (c ∷ s) w h = ground (arith, right_trim-append s w)

-- Trimming first on the right or first on the left is the same.
left-right_trim :
    (w s : Bytes) → IsBlank w → left_trim (right_trim (w ++ s)) ≡ left_trim (right_trim s)
unfolding right_trim left_trim
left-right_trim [] s h = refl
left-right_trim (c ∷ w) s h = ground (arith, left-right_trim w s)

-- Spaces around a text are trimmed off, whatever the text is.
pub trim_padded : (w s v : Bytes) → IsBlank w → IsBlank v → trim (w ++ (s ++ v)) ≡ trim s
unfolding trim
trim_padded w s v hw hv = left-right_trim w (s ++ v) hw ∙ ap left_trim (right_trim-append s v hv)

pub left_trim_self : (s : Bytes) → left_trim (left_trim s) ≡ left_trim s
unfolding left_trim
left_trim_self [] = refl
left_trim_self (c ∷ s) = ground (arith, left_trim_self s)

-- Text with no space at all is left as it is.
abbrev pub HasNoSpace : Bytes → Type 0
HasNoSpace = All (λ c. is_space c ≡ false)

pub left_trim-id : (s : Bytes) → HasNoSpace s → left_trim s ≡ s
unfolding left_trim
left_trim-id [] h = refl
left_trim-id (c ∷ s) h = ground arith

right_trim-id : (s : Bytes) → HasNoSpace s → right_trim s ≡ s
unfolding right_trim
right_trim-id [] h = refl
right_trim-id (c ∷ s) h = ground (arith, right_trim-id s h.1)

pub trim-id : (s : Bytes) → HasNoSpace s → trim s ≡ s
unfolding trim
trim-id s h = ap left_trim (right_trim-id s h) ∙ left_trim-id s h

pub left_trim-trim : (s : Bytes) → left_trim (trim s) ≡ trim s
unfolding trim
left_trim-trim s = left_trim_self (right_trim s)
