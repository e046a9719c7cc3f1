-- ===== src/ExpUtil/Config/Laws.antt =====
-- What a configuration holds after it was read.
use mathlib.Core.Path.{subst}
use basic_sim.Prelude.{
  ◌≡◌, ◌≢◌, refl, true, false, List, [], ◌∷◌, ◌++◌, none, some, arith, All, ◌⊎◌, inl, inr,
  Bool-cases, sym, ◌∙◌, ap, is_nil, ◌↔◌,
}
use basic_sim.Prelude.Text.{Bytes, codes, bytes_ord}
use basic_sim.Prelude.Results.{ok, >>=-eq-ok}
use basic_sim.Containers.SortedSet.{IsSorted, insert-IsSorted, same, same_iff}
use basic_sim.Containers.SortedMap.{find, insert, keys, keys-insert, find-insert}
use basic_sim.ExpUtil.Strings.{trim, remove_start_end_double_quote_if_present}
use basic_sim.ExpUtil.Split.{split_string, split_string_expected}
use basic_sim.ExpUtil.Config.{Config, text, is_skipped, read_property, read_lines, read_config}

-- A line that is no property: it is blank, or it begins with `#`.
abbrev pub IsIgnored : Bytes → Type 0
IsIgnored line = (trim line ≡ []) ⊎ ((rest : Bytes) × (line ≡ codes "#" ++ rest))

-- The properties of the lines, in their order: each is `key=value`, with the key trimmed, and the value
-- trimmed and without its quotes.
pub data HasProperties : List Bytes → List (Bytes × Bytes) → Type 0 where
  no_line : HasProperties [] []
  ignored :
      {line : Bytes} {lines : List Bytes} {ps : List (Bytes × Bytes)}
      → IsIgnored line
      → HasProperties lines ps
      → HasProperties (line ∷ lines) ps
  property :
      {line k v : Bytes} {lines : List Bytes} {ps : List (Bytes × Bytes)}
      → ¬ IsIgnored line
      → split_string line (codes "=") ≡ k ∷ v ∷ []
      → HasProperties lines ps
      → HasProperties
          (line ∷ lines)
          ((trim k, remove_start_end_double_quote_if_present (trim v)) ∷ ps)

abbrev pub HasDistinctKeys : List (Bytes × Bytes) → Type 0
HasDistinctKeys [] = Unit
HasDistinctKeys (p ∷ ps) = All (λ (q : Bytes × Bytes). q.0 ≢ p.0) ps × HasDistinctKeys ps

abbrev pub IsAmong : Bytes → Bytes → List (Bytes × Bytes) → Type 0
IsAmong k v [] = ⊥
IsAmong k v (p ∷ ps) = ((k ≡ p.0) × (v ≡ p.1)) ⊎ IsAmong k v ps

two_parts :
    (line d : Bytes) (ps : List Bytes)
    → split_string_expected line d 2 ≡ ok ps
    → (k : Bytes) × (v : Bytes) × (split_string line d ≡ k ∷ v ∷ []) × (ps ≡ k ∷ v ∷ [])
unfolding split_string_expected
two_parts line d ps h = go (split_string line d) refl
  where
    go :
        (xs : List Bytes)
        → split_string line d ≡ xs
        → (k : Bytes) × (v : Bytes) × (split_string line d ≡ k ∷ v ∷ []) × (ps ≡ k ∷ v ∷ [])
    go [] e = absurd (ground (arith, h))
    go (k ∷ []) e = absurd (ground (arith, h))
    go (k ∷ v ∷ []) e = (k, v, e, ground (arith, h))
    go (k ∷ v ∷ w ∷ xs) e = absurd (ground (arith, h))

-- One property: the key was new, and is in the configuration behind it.
read_property_sound :
    (line : Bytes) (c c' : Config)
    → read_property line c ≡ ok c'
    → (k : Bytes) × (v : Bytes) × (split_string line (codes "=") ≡ k ∷ v ∷ [])
      × (find (trim k) c ≡ none)
      × (c' ≡ insert (trim k) (remove_start_end_double_quote_if_present (trim v)) c)
unfolding read_property
read_property_sound line c c' h =
    let (ps, e, e') = >>=-eq-ok (split_string_expected line (codes "=") 2) _ h in
    let (k, v, parts, at) = two_parts line (codes "=") ps e in
    let rest = rw at at e' in
    let new : (find (trim k) c ≡ none)
        × (insert (trim k) (remove_start_end_double_quote_if_present (trim v)) c ≡ c') =
      ground (arith, rest) in
    (k, v, parts, new.0, sym new.1)

nil_of : (xs : Bytes) → is_nil xs ≡ true → xs ≡ []
nil_of [] h = refl
nil_of (x ∷ xs) h = cc

keys-insert-IsSorted :
    (k v : Bytes) (c : Config) → IsSorted (keys c) → IsSorted (keys (insert k v c))
keys-insert-IsSorted k v c s = rw (keys-insert k v c) (insert-IsSorted k (keys c) s)

find-insert_new :
    (q k v : Bytes) (c : Config)
    → IsSorted (keys c)
    → find q (insert k v c) ≡ none
    → (q ≢ k) × (find q c ≡ none)
find-insert_new q k v c s h =
    let e = find-insert q k v c s in
    (λ same_key. ground (arith, e, h, same_iff q k, same_key), ground (arith, e, h))

find-insert_iff :
    (q w k v : Bytes) (c : Config)
    → IsSorted (keys c)
    → find k c ≡ none
    → (find q (insert k v c) ≡ some w) ↔ ((find q c ≡ some w) ⊎ ((q ≡ k) × (w ≡ v)))
find-insert_iff q w k v c s new =
    let e = find-insert q k v c s in
    elim (Bool-cases (same q k)) [
      | inl here ↦
          let at : q ≡ k = (same_iff q k).0 here in
          let old : find q c ≡ none = ap (λ a. find a c) at ∙ new in
          let got : find q (insert k v c) ≡ some v = ground (arith, e, here) in
          (
            λ h. inr (at, ground (arith, got, h)),
            λ h. elim h [
              | inl known ↦ absurd (cc (known, old))
              | inr is ↦ got ∙ ap some (sym is.1)
            ],
          )
      | inr other ↦
          let got : find q (insert k v c) ≡ find q c = ground (arith, e, other) in
          (
            λ h. inl (sym got ∙ h),
            λ h. elim h [
              | inl known ↦ got ∙ known
              | inr is ↦ absurd (cc ((same_iff q k).1 is.0, other))
            ],
          )
    ]

all_new :
    (k v : Bytes) (c : Config) (ps : List (Bytes × Bytes))
    → IsSorted (keys c)
    → All (λ (p : Bytes × Bytes). find p.0 (insert k v c) ≡ none) ps
    → All (λ (p : Bytes × Bytes). p.0 ≢ k) ps × All (λ (p : Bytes × Bytes). find p.0 c ≡ none) ps
all_new k v c [] s h = (tt, tt)
all_new k v c (p ∷ ps) s h =
    let here = find-insert_new p.0 k v c s h.0 in
    let rest = all_new k v c ps s h.1 in ((here.0, rest.0), (here.1, rest.1))

is_skipped-IsIgnored : (line : Bytes) → is_skipped line ≡ true → IsIgnored line
unfolding is_skipped trim
is_skipped-IsIgnored [] h = inl refl
is_skipped-IsIgnored (b ∷ line) h = elim (Bool-cases (is_nil (trim (b ∷ line)))) [
  | inl blank ↦ inl (nil_of (trim (b ∷ line)) blank)
  | inr text_here ↦
      let at : b ≡ 35 = ground (arith, h, text_here) in inr (line, ap (λ c. c ∷ line) at)
]

IsIgnored-is_skipped : (line : Bytes) → is_skipped line ≡ false → ¬ IsIgnored line
unfolding is_skipped
IsIgnored-is_skipped [] h i = cc
IsIgnored-is_skipped (b ∷ line) h i = elim i [
  | inl blank ↦
      let nil : is_nil (trim (b ∷ line)) ≡ true = ap is_nil blank in absurd (ground (arith, h, nil))
  | inr (rest, e) ↦ let at : b ≡ 35 = cc e in absurd (ground (arith, h, at))
]

-- What reading on from a configuration makes of it.
record IsReadFrom (lines : List Bytes) (c c' : Config) (ps : List (Bytes × Bytes)) : Type 0 where
  entries : HasProperties lines ps
  distinct : HasDistinctKeys ps
  fresh : All (λ (p : Bytes × Bytes). find p.0 c ≡ none) ps
  sorted : IsSorted (keys c')
  found : (k v : Bytes) → (find k c' ≡ some v) ↔ ((find k c ≡ some v) ⊎ IsAmong k v ps)

read_lines-IsReadFrom :
    (lines : List Bytes) (c c' : Config)
    → IsSorted (keys c)
    → read_lines lines c ≡ ok c'
    → (ps : List (Bytes × Bytes)) × IsReadFrom lines c c' ps
unfolding read_lines
read_lines-IsReadFrom [] c c' s h =
    let same_config : c ≡ c' = ground (arith, h) in
    (
      [],
      record {
        entries = no_line;
        distinct = tt;
        fresh = tt;
        sorted = subst (λ m. IsSorted (keys m)) same_config s;
        found = λ k v. (
          λ e. inl (ap (find k) same_config ∙ e),
          λ e. elim e [ inl known ↦ ap (find k) (sym same_config) ∙ known | inr i ↦ absurd i ],
        );
      },
    )
read_lines-IsReadFrom (line ∷ lines) c c' s h = elim (Bool-cases (is_skipped line)) [
  | inl skip ↦
      let (ps, r) = read_lines-IsReadFrom lines c c' s (rw skip at h) in
      (
        ps,
        record {
          entries = ignored (is_skipped-IsIgnored line skip) r.entries;
          distinct = r.distinct;
          fresh = r.fresh;
          sorted = r.sorted;
          found = r.found;
        },
      )
  | inr prop ↦
      let (c₁, e, e') = >>=-eq-ok (read_property line c) _ (rw prop at h) in
      let (k, v, parts, new, at) = read_property_sound line c c₁ e in
      let w = remove_start_end_double_quote_if_present (trim v) in
      let s' : IsSorted (keys c₁) = rw at (keys-insert-IsSorted (trim k) w c s) in
      let (ps, r) = read_lines-IsReadFrom lines c₁ c' s' e' in
      let others = all_new (trim k) w c ps s (rw at at r.fresh) in
      (
        (trim k, w) ∷ ps,
        record {
          entries = property (IsIgnored-is_skipped line prop) parts r.entries;
          distinct = (others.0, r.distinct);
          fresh = (new, others.1);
          sorted = r.sorted;
          found = λ q x.
              let here = rw at at (r.found q x) in
              let step = find-insert_iff q x (trim k) w c s new in
              (
                λ f. elim (here.0 f) [
                  | inr later ↦ inr (inr later)
                  | inl f1 ↦ elim (step.0 f1) [ inl old ↦ inl old | inr is ↦ inr (inl is) ]
                ],
                λ f. elim f [
                  | inl old ↦ here.1 (inl (step.1 (inl old)))
                  | inr i ↦ elim i [
                    | inl is ↦ here.1 (inl (step.1 (inr is)))
                    | inr later ↦ here.1 (inr later)
                  ]
                ],
              );
        },
      )
]

find-empty : (k v : Bytes) → ¬ (find k [] ≡ some v)
unfolding find
find-empty k v h = cc

-- A configuration that was read holds just the properties of the text: a key leads to a value if and
-- only if a line that is not blank and does not begin with `#` is `key=value`, with both trimmed
-- and the value without its quotes. No two of these lines have the same key, and the keys ascend.
pub read_config_sound :
    (lines : List Bytes) (c : Config)
    → read_config (text lines) ≡ ok c
    → (ps : List (Bytes × Bytes)) × HasProperties lines ps
      × HasDistinctKeys ps
      × IsSorted (keys c)
      × ((k v : Bytes) → (find k c ≡ some v) ↔ IsAmong k v ps)
unfolding read_config
read_config_sound lines c h =
    let (ps, r) = read_lines-IsReadFrom lines [] c tt h in
    (
      ps,
      r.entries,
      r.distinct,
      r.sorted,
      λ k v. (
        λ f. elim ((r.found k v).0 f) [
          | inl none_here ↦ absurd (find-empty k v none_here)
          | inr i ↦ i
        ],
        λ i. (r.found k v).1 (inr i),
      ),
    )
