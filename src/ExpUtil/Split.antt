-- ===== src/ExpUtil/Split.antt =====
-- `split_string` of `exp-util.cc`, for delimiters that are not empty. (An empty one is found at
-- position 0 for ever; the program passes ",", ":", "=", "-" and "->" only.)
use basic_sim.Prelude.{
  ℕ, zero, suc, ◌+◌, ◌≤◌, ◌<◌, ◌≡◌, ◌≢◌, refl, sym, List, [], ◌∷◌, ◌++◌, none, some, arith,
  if◌then◌else◌, ◌==◌, length, take-append-drop, take-take, length-take, ◌⊎◌, length-drop, take,
  drop, All, append_assoc, ap, ◌∙◌, inl, inr, Bool-cases, Option-cases,
}
use mathlib.Core.List.{concat-ne-nil}
use basic_sim.Prelude.Text.{Bytes, bytes_beq, bytes_beq_iff}
use basic_sim.Prelude.Results.{Result, ok, err, invalid_argument}
use basic_sim.ExpUtil.Strings.{find}

-- `while (idx != npos)`; each round takes at least the delimiter off, so that fuel above the length
-- is enough.
unfoldable pub split_loop : ℕ → Bytes → Bytes → List Bytes → List Bytes
split_loop zero delimiter remainder result = result ++ remainder ∷ []
split_loop (suc fuel) delimiter remainder result = elim (find delimiter remainder) [
  | none ↦ result ++ remainder ∷ []
  | some idx ↦
      split_loop fuel delimiter (drop (idx + length delimiter) remainder)
        (result ++ take idx remainder ∷ [])
]

unfoldable pub split_string : Bytes → Bytes → List Bytes
unfolding split_loop
split_string line delimiter = split_loop (suc (length line)) delimiter line []

-- The overload that checks the number of parts.
unfoldable pub split_string_expected : Bytes → Bytes → ℕ → Result (List Bytes)
split_string_expected line delimiter expected =
    let the_split = split_string line delimiter in
    if length the_split == expected then ok the_split else err invalid_argument

-- The parts with the delimiter between them.
unfoldable pub join : Bytes → List Bytes → Bytes
join d [] = []
join d (p ∷ []) = p
join d (p ∷ q ∷ ps) = p ++ (d ++ join d (q ∷ ps))

find_first_byte :
    (d : Bytes) (c : ℕ) (s : Bytes)
    → ((take (length d) (c ∷ s) ≡ d) × (find d (c ∷ s) ≡ some 0))
      ⊎ ((take (length d) (c ∷ s) ≢ d)
          × (find d (c ∷ s) ≡ elim (find d s) [ none ↦ none | some i ↦ some (suc i) ]))
unfolding find
find_first_byte d c s = elim (Bool-cases (bytes_beq (take (length d) (c ∷ s)) d)) [
  | inl e ↦ inl ((bytes_beq_iff _ d).0 e, rw e)
  | inr e ↦ inr (λ k. cc (e, (bytes_beq_iff (take (length d) (c ∷ s)) d).1 k), rw e)
]

-- What is found stands at the position that is given.
pub find-split :
    (d s : Bytes) (i : ℕ) → find d s ≡ some i → s ≡ take i s ++ (d ++ drop (i + length d) s)
find-split [] [] zero h = refl
find-split [] [] (suc i) h = unfold find in ground arith
find-split (e ∷ d) [] i h = unfold find in ground arith
find-split d (c ∷ s) zero h = elim (find_first_byte d c s) [
  | inl (t, e) ↦
      let z : 0 + length d ≡ length d = omega arith in
      rw z (sym (take-append-drop (length d) (c ∷ s)) ∙ ap (λ p. p ++ drop (length d) (c ∷ s)) t)
  | inr (t, e) ↦ absurd (ground (arith, e))
]
find-split d (c ∷ s) (suc i) h = elim (find_first_byte d c s) [
  | inl (t, e) ↦ absurd (ground (arith, e))
  | inr (t, e) ↦
      let z : suc i + length d ≡ suc (i + length d) = omega arith in
      let later : find d s ≡ some i = ground (arith, e) in
      rw z (ap (◌∷◌ c) (find-split d s i later))
]

split_loop-append :
    (f : ℕ) (d s : Bytes) (res : List Bytes) → split_loop f d s res ≡ res ++ split_loop f d s []
unfolding split_loop
split_loop-append zero d s res = refl
split_loop-append (suc f) d s res = elim (Option-cases (find d s)) [
  | inl e ↦ rw (e, split_loop)
  | inr (i, e) ↦
      rw (e, split_loop)
        (rw (
          split_loop-append f d (drop (i + length d) s) (res ++ take i s ∷ []),
          split_loop-append f d (drop (i + length d) s) (take i s ∷ []),
          append_assoc res (take i s ∷ []) (split_loop f d (drop (i + length d) s) []),
        ))
]

split_loop-ne-nil : (f : ℕ) (d s : Bytes) (res : List Bytes) → split_loop f d s res ≢ []
unfolding split_loop
split_loop-ne-nil zero d s res = concat-ne-nil s res
split_loop-ne-nil (suc f) d s res = elim (Option-cases (find d s)) [
  | inl e ↦ rw (e, split_loop) (concat-ne-nil s res)
  | inr (i, e) ↦ rw (e, split_loop) (split_loop-ne-nil f d _ _)
]

join-cons : (d p : Bytes) (ps : List Bytes) → ps ≢ [] → join d (p ∷ ps) ≡ p ++ (d ++ join d ps)
unfolding join
join-cons d p [] h = absurd (h refl)
join-cons d p (q ∷ ps) h = refl

join-split_loop : (f : ℕ) (d s : Bytes) → join d (split_loop f d s []) ≡ s
unfolding split_loop
join-split_loop zero d s = unfold join in refl
join-split_loop (suc f) d s = elim (Option-cases (find d s)) [
  | inl e ↦ rw (e, split_loop) (unfold join in refl)
  | inr (i, e) ↦
      let rest = drop (i + length d) s in
      rw (e, split_loop)
        (rw (split_loop-append f d rest (take i s ∷ [])) (
          join-cons d (take i s) _ (split_loop-ne-nil f d rest [])
          ∙ ap (λ r. take i s ++ (d ++ r)) (join-split_loop f d rest)
          ∙ sym (find-split d s i e)))
]

-- Before the first occurrence there is none.
find-nil : (d : Bytes) → d ≢ [] → find d [] ≡ none
unfolding find
find-nil [] h = absurd (h refl)
find-nil (c ∷ d) h = refl

find-take : (d s : Bytes) (i : ℕ) → d ≢ [] → find d s ≡ some i → find d (take i s) ≡ none
find-take d [] i ne h = absurd (cc (h, find-nil d ne))
find-take d (c ∷ s) zero ne h = find-nil d ne
find-take d (c ∷ s) (suc i) ne h = elim (find_first_byte d c s) [
  | inl (t, e) ↦ absurd (ground (arith, e))
  | inr (t, e) ↦ elim (find_first_byte d c (take i s)) [
    | inl (t', e') ↦
        let n : length (take (length d) (take (suc i) (c ∷ s))) ≡ length d = ap length t' in
        let le : length d ≤ suc i =
          omega (
            arith,
            n,
            length-take (length d) (take (suc i) (c ∷ s)),
            length-take (suc i) (c ∷ s),
          ) in
        absurd (t (sym (take-take (length d) (suc i) (c ∷ s) le) ∙ t'))
    | inr (t', e') ↦
        let later : find d s ≡ some i = ground (arith, e) in rw (e', find-take d s i ne later)
  ]
]

-- A round takes at least one byte off.
shorter :
    (d s : Bytes) (i f : ℕ)
    → d ≢ []
    → find d s ≡ some i
    → length s < suc f
    → length (drop (i + length d) s) < f
shorter [] s i f ne e h = absurd (ne refl)
shorter (c ∷ d) [] i f ne e h = absurd (cc (e, find-nil (c ∷ d) ne))
shorter (c ∷ d) (b ∷ s) i f ne e h = omega (arith, length-drop (i + length (c ∷ d)) (b ∷ s))

split_loop-Lacks :
    (f : ℕ) (d s : Bytes) → d ≢ [] → length s < f → All (λ p. find d p ≡ none) (split_loop f d s [])
unfolding split_loop
split_loop-Lacks zero d s ne h = absurd (omega arith)
split_loop-Lacks (suc f) d s ne h = elim (Option-cases (find d s)) [
  | inl e ↦ rw (e, split_loop) (e, tt)
  | inr (i, e) ↦
      let rest = drop (i + length d) s in
      rw (e, split_loop)
        (rw (split_loop-append f d rest (take i s ∷ []))
          (find-take d s i ne e, split_loop-Lacks f d rest ne (shorter d s i f ne e h)))
]

-- The parts of a line: with the delimiter between them they are the line, and none of them holds
-- the delimiter. The loop has enough fuel to come to that end.
pub split_string_lem :
    (line d : Bytes)
    → d ≢ []
    → (join d (split_string line d) ≡ line) × All (λ p. find d p ≡ none) (split_string line d)
unfolding split_string
split_string_lem line d ne = (
  join-split_loop (suc (length line)) d line,
  split_loop-Lacks (suc (length line)) d line ne (omega arith),
)
