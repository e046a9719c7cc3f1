-- ===== src/TcpFlow/Logs/Runs.antt =====
-- Callbacks of the detailed logs (model/apps/tcp-flow-client.cc), one after the other.
use basic_sim.Prelude.{ℕ, ◌≡◌, refl, List, [], ◌∷◌, Option, none, some}
use basic_sim.Prelude.Int.{int_eq}
use basic_sim.Prelude.Order.{Eq}
use basic_sim.Prelude.Text.{bytes_eq}
use basic_sim.Prelude.Results.{Result, ok, ◌>>=◌}
use basic_sim.LogUpdate.{LogUpdateHelper, run}
use basic_sim.LogUpdate.Abstract.{IsAscending}
use basic_sim.LogUpdate.History.{timed, last_of}
use basic_sim.LogUpdate.Totality.{IsBefore, IsBefore-later}
use basic_sim.TcpFlow.Logs.{TcpFlowLogs, Change, change}
use basic_sim.TcpFlow.Logs.Traces.{add_picked, picked, ForEach, ForEach-map, ForEach-zip}
use basic_sim.TcpFlow.Logs.Changes.{AreBefore, Follows, change-IsStep}

-- Callbacks one after the other.
unfoldable pub changes : List (ℕ × Change) → TcpFlowLogs → Result TcpFlowLogs
changes [] l = ok l
changes ((t, c) ∷ es) l = do l' ← change t c l; changes es l'

run-add_picked :
    {V : Type 0} ⦃e : Eq V⦄ (o : Option V) (t : ℕ) (us : List (ℕ × V)) (h h1 h2 : LogUpdateHelper V)
    → Follows o t h h1
    → run h1 (timed us) ≡ ok h2
    → run h (timed (add_picked t o us)) ≡ ok h2
unfolding timed run
run-add_picked none t us h h1 h2 f r = rw f.0 r
run-add_picked (some v) t us h h1 h2 f r = rw f.0 r

abbrev pub IsRun : List (ℕ × Change) → TcpFlowLogs → TcpFlowLogs → Type 0
IsRun es l l' = ForEach (λ V e f pick. run ⦃e = e⦄ (f l) (timed (picked pick es)) ≡ ok (f l'))

Follows-IsBefore :
    {V : Type 0} ⦃e : Eq V⦄ (o : Option V) (t : ℕ) (h h' : LogUpdateHelper V)
    → Follows o t h h'
    → IsBefore t h'
Follows-IsBefore none t h h' f = f.1
Follows-IsBefore (some v) t h h' f = f.1

pub changes-IsRun :
    (t : ℕ) (es : List (ℕ × Change)) (l : TcpFlowLogs)
    → IsAscending t es
    → AreBefore t l
    → (l' : TcpFlowLogs) × (changes es l ≡ ok l') × IsRun es l l' × AreBefore (last_of t es) l'
unfolding changes picked last_of timed run
changes-IsRun t [] l a b = (l, refl, ForEach-map _ _ (λ V e f pick h. refl) b, b)
changes-IsRun t ((t1, c) ∷ es) l a b =
    let (l1, e1, st) =
      change-IsStep t1 c l
        (ForEach-map _ _ (λ V e f pick h. IsBefore-later ⦃e = e⦄ t t1 (f l) a.0 h) b) in
    let before : AreBefore t1 l1 =
      ForEach-map _ _ (λ V e f pick h. Follows-IsBefore ⦃e = e⦄ (pick c) t1 (f l) (f l1) h) st in
    let (l', e', r, b') = changes-IsRun t1 es l1 a.1 before in
    (
      l',
      rw e1 e',
      ForEach-zip _ _ _
          (λ V e f pick h h'.
            run-add_picked ⦃e = e⦄ (pick c) t1 (picked pick es) (f l) (f l1) (f l') h h')
          st r,
      b',
    )
