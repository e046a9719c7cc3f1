-- ===== src/LinkTracking/Compression.antt =====
-- About the compressed lines of a link (helper/core/ptop-link-net-device-utilization-tracking.cc).
use basic_sim.Prelude.{
  ℕ, ◌+◌, ◌≡◌, refl, sym, ◌∙◌, ap, Bool, true, false, List, [], ◌∷◌, ◌++◌, arith, All, Bool-cases,
  inl, inr, append_assoc, append-nil,
}
use mathlib.Core.Path.{subst}
use basic_sim.Prelude.Results.{ok, >>=-elim, ok-injective}
use basic_sim.Utilization.{Interval}
use basic_sim.LinkTracking.{compressed_lines, busy_sum, last_end, write_link, LinkReport}

-- Where a list of intervals ends that begins at `left`.
abbrev pub end_of : ℕ → List Interval → ℕ
end_of left [] = left
end_of left (x ∷ xs) = end_of x.end xs

-- The line of a group of intervals.
unfoldable pub merge : ℕ → List Interval → Interval
unfolding busy_sum
merge left g = record { start = left; end = end_of left g; busy = busy_sum g }

-- The lines of groups, each from where the one before ended.
unfoldable pub lines_of : ℕ → List (List Interval) → List Interval
unfolding merge
lines_of left [] = []
lines_of left (g ∷ gs) = merge left g ∷ lines_of (end_of left g) gs

abbrev pub concat : List (List Interval) → List Interval
concat [] = []
concat (g ∷ gs) = g ++ concat gs

module _ (approximately_equal : Interval → Interval → Bool) where
  -- A group that is not empty, of neighbours that are approximately equal.
  abbrev pub IsGroup : List Interval → Type 0
  IsGroup [] = ⊥
  IsGroup (x ∷ []) = Unit
  IsGroup (x ∷ y ∷ g) = (approximately_equal x y ≡ true) × IsGroup (y ∷ g)

  -- The last of a group is not approximately equal to what follows.
  abbrev pub IsCut : List Interval → List Interval → Type 0
  IsCut [] ys = ⊥
  IsCut (x ∷ []) [] = Unit
  IsCut (x ∷ []) (y ∷ ys) = approximately_equal x y ≡ false
  IsCut (x ∷ x' ∷ g) ys = IsCut (x' ∷ g) ys

  abbrev pub AreCut : List (List Interval) → Type 0
  AreCut [] = Unit
  AreCut (g ∷ gs) = IsCut g (concat gs) × AreCut gs

  IsGroup-snoc :
      (p : List Interval) (x y : Interval)
      → IsGroup (p ++ x ∷ [])
      → approximately_equal x y ≡ true
      → IsGroup ((p ++ x ∷ []) ++ y ∷ [])
  IsGroup-snoc [] x y g e = (e, tt)
  IsGroup-snoc (z ∷ []) x y g e = (g.0, (e, tt))
  IsGroup-snoc (z ∷ w ∷ p) x y g e = (g.0, IsGroup-snoc (w ∷ p) x y g.1 e)

  IsCut-snoc :
      (p : List Interval) (x : Interval) (ys : List Interval)
      → IsCut (x ∷ []) ys
      → IsCut (p ++ x ∷ []) ys
  IsCut-snoc [] x ys c = c
  IsCut-snoc (z ∷ []) x ys c = c
  IsCut-snoc (z ∷ w ∷ p) x ys c = IsCut-snoc (w ∷ p) x ys c

end_of-snoc : (left : ℕ) (p : List Interval) (x : Interval) → end_of left (p ++ x ∷ []) ≡ x.end
end_of-snoc left [] x = refl
end_of-snoc left (z ∷ p) x = end_of-snoc z.end p x

busy_sum-append : (p q : List Interval) → busy_sum (p ++ q) ≡ busy_sum p + busy_sum q
unfolding busy_sum
busy_sum-append [] q = omega arith
busy_sum-append (z ∷ p) q = omega (arith, busy_sum-append p q)

busy_sum-snoc : (p : List Interval) (x : Interval) → busy_sum (p ++ x ∷ []) ≡ busy_sum p + x.busy
unfolding busy_sum
busy_sum-snoc p x = omega (arith, busy_sum-append p (x ∷ []))

merge-snoc :
    (left : ℕ) (p : List Interval) (x : Interval)
    → merge left (p ++ x ∷ []) ≡ record { start = left; end = x.end; busy = busy_sum p + x.busy }
unfolding merge busy_sum
merge-snoc left p x = ground (arith, end_of-snoc left p x, busy_sum-append p (x ∷ []))

module _ (approximately_equal : Interval → Interval → Bool) where
  compressed_from :
      (left : ℕ) (p : List Interval) (x : Interval) (xs : List Interval)
      → IsGroup approximately_equal (p ++ x ∷ [])
      → (gs : List (List Interval)) × (concat gs ≡ p ++ x ∷ xs)
        × (compressed_lines approximately_equal left (busy_sum p) (x ∷ xs) ≡ lines_of left gs)
        × All (IsGroup approximately_equal) gs
        × AreCut approximately_equal gs
  unfolding compressed_lines lines_of busy_sum
  compressed_from left p x [] g = (
    (p ++ x ∷ []) ∷ [],
    append-nil (p ++ x ∷ []),
    ap (λ l. l ∷ []) (sym (merge-snoc left p x)),
    (g, tt),
    (IsCut-snoc approximately_equal p x [] tt, tt),
  )
  compressed_from left p x (y ∷ xs) g = elim (Bool-cases (approximately_equal x y)) [
    | inl equal ↦
        let (gs, c, e, all, cut) =
          compressed_from left (p ++ x ∷ []) y xs
            (IsGroup-snoc approximately_equal p x y g equal) in
        (
          gs,
          c ∙ append_assoc p (x ∷ []) (y ∷ xs),
          rw equal (
              subst (λ n. compressed_lines approximately_equal left n (y ∷ xs) ≡ lines_of left gs)
                (busy_sum-snoc p x) e),
          all,
          cut,
        )
    | inr different ↦
        let (gs, c, e, all, cut) = compressed_from x.end [] y xs tt in
        (
          (p ++ x ∷ []) ∷ gs,
          ap (λ r. (p ++ x ∷ []) ++ r) c ∙ append_assoc p (x ∷ []) (y ∷ xs),
          ground (arith, different, e, merge-snoc left p x, end_of-snoc left p x),
          (g, all),
          (
            IsCut-snoc approximately_equal p x (concat gs)
                (subst (IsCut approximately_equal (x ∷ [])) (sym c) different),
            cut,
          ),
        )
  ]

  busy_sum-lines_of :
      (left : ℕ) (gs : List (List Interval)) → busy_sum (lines_of left gs) ≡ busy_sum (concat gs)
  unfolding lines_of busy_sum merge
  busy_sum-lines_of left [] = refl
  busy_sum-lines_of left (g ∷ gs) =
      omega (arith, busy_sum-lines_of (end_of left g) gs, busy_sum-append g (concat gs))

  -- The compressed lines of a link that has intervals merge groups of neighbours: in the order of the
  -- intervals, which are all in just one group, each from where the one before ended, the first from 0,
  -- with the busy time of its group. Neighbours in a group are approximately equal, and where a group
  -- ends they are not. The compressed lines and the summary have the busy time of all intervals.
  pub write_link-groups :
      (intervals : List Interval) (r : LinkReport)
      → write_link approximately_equal intervals ≡ ok r
      → (gs : List (List Interval)) × (concat gs ≡ intervals)
        × (r.compressed ≡ lines_of 0 gs)
        × All (IsGroup approximately_equal) gs
        × AreCut approximately_equal gs
        × (busy_sum r.compressed ≡ busy_sum intervals)
        × (r.utilization_busy_sum_ns ≡ busy_sum intervals)
  unfolding write_link busy_sum last_end
  write_link-groups [] r h = cc
  write_link-groups (x ∷ xs) r h = >>=-elim (last_end (x ∷ xs)) _ h λ end e h1.
      let (gs, c, lines, all, cut) = compressed_from 0 [] x xs tt in
      let same = ok-injective h1 in
      let grouped : r.compressed ≡ lines_of 0 gs =
        sym (ap (λ (t : LinkReport). t.compressed) same) ∙ lines in
      (
        gs,
        c,
        grouped,
        all,
        cut,
        ap busy_sum grouped ∙ (busy_sum-lines_of 0 gs ∙ ap busy_sum c),
        sym (ap (λ (t : LinkReport). t.utilization_busy_sum_ns) same),
      )
