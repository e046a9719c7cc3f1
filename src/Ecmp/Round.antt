-- ===== src/Ecmp/Round.antt =====
-- About one round of the algorithm (helper/core/arbiter-ecmp-helper.cc), which updates in place.
use Prim.Native.Nat.{min}
use basic_sim.Prelude.{
  ℕ, suc, ◌+◌, ◌*◌, ◌<◌, ◌≡◌, ◌&&◌, ◌||◌, List, arith, if◌then◌else◌, ◌==◌, ltb, length, ◌∙◌,
}
use basic_sim.Ecmp.{cell, loop, loop_inv, relax, Edge}
use basic_sim.Ecmp.Graph.{IsSound, cell-relax, length-relax, relax-IsSound}

-- The better of the direct way and the way through `k`.
abbrev pub through : ℕ → ℕ → List ℕ → ℕ → ℕ → ℕ
through n k d i j = min (cell n d i j) (cell n d i k + cell n d k j)

-- `d'` is `d` with the cells before row `r`, column `c` updated.
abbrev Updated : ℕ → ℕ → List ℕ → ℕ → ℕ → List ℕ → Type 0
Updated n k d r c d' =
    (length d' ≡ n * n)
    × ((i j : ℕ)
        → i < n
        → j < n
        → cell n d' i j
          ≡ (if ltb i r || (i == r && ltb j c) then through n k d i j else cell n d i j))

relax-Updated :
    (n k : ℕ) (d : List ℕ) (r c : ℕ) (d' : List ℕ)
    → k < n
    → r < n
    → c < n
    → Updated n k d r c d'
    → Updated n k d r (suc c) (relax n k r c d')
relax-Updated n k d r c d' hk hr hc u = (
  length-relax n k r c d' ∙ u.0,
  λ i j hi hj. ground (
    arith,
    cell-relax n k r c d' i j u.0 hr hc hj,
    u.1 i j hi hj,
    u.1 r k hr hk,
    u.1 k c hk hc,
    u.1 r c hr hc,
  ),
)

row-Updated :
    (n k : ℕ) (d : List ℕ) (r : ℕ) (d' : List ℕ)
    → k < n
    → r < n
    → Updated n k d r 0 d'
    → Updated n k d (suc r) 0 (loop n (λ j d''. relax n k r j d'') d')
row-Updated n k d r d' hk hr u =
    let done =
      loop_inv (λ c d''. Updated n k d r c d'') n (λ j d''. relax n k r j d'') d' u
        (λ c d'' hc u'. relax-Updated n k d r c d'' hk hr hc u') in
    (done.0, λ i j hi hj. ground (arith, done.1 i j hi hj))

-- The inner two loops.
unfoldable pub round : ℕ → ℕ → List ℕ → List ℕ
round n k d = loop n (λ i d'. loop n (λ j d''. relax n k i j d'') d') d

pub round_lem :
    (n k : ℕ) (d : List ℕ)
    → length d ≡ n * n
    → k < n
    → (i j : ℕ) → i < n
    → j < n
    → cell n (round n k d) i j ≡ through n k d i j
unfolding round
round_lem n k d len hk i j hi hj =
    let done =
      loop_inv (λ r d'. Updated n k d r 0 d') n (λ i d'. loop n (λ j d''. relax n k i j d'') d') d
        (len, λ i j hi hj. ground arith) (λ r d' hr u. row-Updated n k d r d' hk hr u) in
    ground (arith, done.1 i j hi hj)

pub round-IsSound :
    (n : ℕ) (es : List Edge) (k : ℕ) (d : List ℕ)
    → k < n
    → IsSound n es d
    → IsSound n es (round n k d)
unfolding round
round-IsSound n es k d hk s =
    loop_inv (λ r d'. IsSound n es d') n (λ i d'. loop n (λ j d''. relax n k i j d'') d') d s
      λ i d' hi s'.
        loop_inv (λ c d''. IsSound n es d'') n (λ j d''. relax n k i j d'') d' s'
          (λ j d'' hj s''. relax-IsSound n es k i j d'' s'' hk hi hj)
