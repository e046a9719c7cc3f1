-- ===== src/Scheduler/UdpBursts/Hosts.antt =====
-- About the hosts of a system and the bursts that go to them (helper/apps/udp-burst-scheduler.cc).
use basic_sim.Prelude.{
  ℕ, ◌+◌, ◌≡◌, refl, sym, ◌∙◌, ap, Bool, true, false, List, [], ◌∷◌, ◌++◌, map, arith, All,
  All-append, inl, inr, ◌↔◌, length, length-append, length-map, Bool-cases, if◌then◌else◌,
}
use mathlib.Core.Path.{subst}
use basic_sim.Prelude.Int.{ℤ, ltb_ℤ, eqb_ℤ, eqb_ℤ_iff, int_ord}
use basic_sim.Containers.SortedSet.{member, same_iff}
use basic_sim.UdpHeaders.{UdpBurstHeader}
use basic_sim.UdpBurst.{UdpBurstServer}
use basic_sim.UdpBurst.Counts.{register_all, ids_of}
use basic_sim.Schedule.UdpBurst.{UdpBurstInfo}
use basic_sim.Scheduler.UdpBursts.{BurstLine, bursts_to, register_bursts}
use basic_sim.Scheduler.UdpBursts.Files.{IsIn, IsAscending, responsible_for_incoming}
use basic_sim.Scheduler.UdpBursts.Lines.{AreMatches, all_lines}

module _ {D : Type 0} where
  abbrev pub registrations : List ℤ → List (UdpBurstInfo D) → List (ℤ × Bool)
  registrations ids [] = []
  registrations ids (x ∷ xs) = (x.udp_burst_id, member x.udp_burst_id ids) ∷ registrations ids xs

  pub register_bursts-register_all :
      (ids : List ℤ) (xs : List (UdpBurstInfo D)) (s : UdpBurstServer)
      → register_bursts ids xs s ≡ register_all (registrations ids xs) s
  unfolding register_bursts register_all
  register_bursts-register_all ids [] s = refl
  register_bursts-register_all ids (x ∷ xs) s = register_bursts-register_all ids xs _

  abbrev AreKnown : List ℤ → List (UdpBurstInfo D) → Type 0
  AreKnown known = All (λ (x : UdpBurstInfo D). member x.udp_burst_id known ≡ true)

  AreKnown-cons :
      (id : ℤ) (known : List ℤ) (xs : List (UdpBurstInfo D))
      → AreKnown known xs
      → AreKnown (id ∷ known) xs
  unfolding member
  AreKnown-cons id known [] k = tt
  AreKnown-cons id known (x ∷ xs) k = (ground (arith, k.0), AreKnown-cons id known xs k.1)

  pub AreKnown-registrations :
      (ids : List ℤ) (xs : List (UdpBurstInfo D)) → AreKnown (ids_of (registrations ids xs)) xs
  unfolding member
  AreKnown-registrations ids [] = tt
  AreKnown-registrations ids (x ∷ xs) = (
    ground (arith, same_iff x.udp_burst_id x.udp_burst_id),
    AreKnown-cons x.udp_burst_id (ids_of (registrations ids xs)) xs (AreKnown-registrations ids xs),
  )

  -- The bursts of a schedule that go to an endpoint.
  pub bursts_to-IsIn :
      (endpoint : ℤ) (x : UdpBurstInfo D) (xs : List (UdpBurstInfo D))
      → IsIn x (bursts_to endpoint xs) ↔ (IsIn x xs × (x.to_node_id ≡ endpoint))
  unfolding bursts_to
  bursts_to-IsIn endpoint x [] = (λ i. absurd i, λ i. i.0)
  bursts_to-IsIn endpoint x (y ∷ ys) =
      let rest = bursts_to-IsIn endpoint x ys in
      elim (Bool-cases (eqb_ℤ y.to_node_id endpoint)) [
        | inl there ↦
            let at : y.to_node_id ≡ endpoint = (eqb_ℤ_iff y.to_node_id endpoint).0 there in
            rw there (
              λ i. elim i [
                | inl here ↦ (inl here, ap (λ (z : UdpBurstInfo D). z.to_node_id) here ∙ at)
                | inr later ↦ let r = rest.0 later in (inr r.0, r.1)
              ],
              λ i. elim i.0 [ inl here ↦ inl here | inr later ↦ inr (rest.1 (later, i.1)) ],
            )
        | inr elsewhere ↦ rw elsewhere (
          λ i. let r = rest.0 i in (inr r.0, r.1),
          λ i. elim i.0 [
            | inr later ↦ rest.1 (later, i.1)
            | inl here ↦
                let at : y.to_node_id ≡ endpoint =
                  sym (ap (λ (z : UdpBurstInfo D). z.to_node_id) here) ∙ i.1 in
                absurd (cc ((eqb_ℤ_iff y.to_node_id endpoint).1 at, elsewhere))
          ],
        )
      ]

  pub of_all :
      (P : UdpBurstInfo D → Type 0) (x : UdpBurstInfo D) (xs : List (UdpBurstInfo D))
      → All P xs
      → IsIn x xs
      → P x
  of_all P x [] all i = absurd i
  of_all P x (y ∷ ys) all i = elim i [
    | inl here ↦ subst P (sym here) all.0
    | inr later ↦ of_all P x ys all.1 later
  ]

-- An endpoint of this system, the headers that came in there, and the server that has read them.
pub record Host : Type 0 where
  pub endpoint : ℤ
  pub headers : List (UdpBurstHeader × ℕ)
  pub server : UdpBurstServer

abbrev pub servers_of : List Host → List (ℤ × UdpBurstServer)
servers_of = map (λ (h : Host). (h.endpoint, h.server))

-- The lines that there should be: one for each burst of the schedule to each of the hosts.
abbrev pub lines_to : {D : Type 0} → ℤ → List (UdpBurstInfo D) → ℕ
lines_to endpoint [] = 0
lines_to endpoint (x ∷ xs) = (if eqb_ℤ x.to_node_id endpoint then 1 else 0) + lines_to endpoint xs

abbrev pub all_lines_to : {D : Type 0} → List Host → List (UdpBurstInfo D) → ℕ
all_lines_to [] complete = 0
all_lines_to (h ∷ hs) complete = lines_to h.endpoint complete + all_lines_to hs complete

abbrev pub HasAscendingIds : List BurstLine → Type 0
HasAscendingIds [] = Unit
HasAscendingIds (l ∷ ls) =
    All (λ (m : BurstLine). ltb_ℤ m.udp_burst_id l.udp_burst_id ≡ false) ls × HasAscendingIds ls

module _ {D : Type 0} where
  pub HasAscendingIds-AreMatches :
      (end : ℤ) (size payload : ℕ) (ps : List (UdpBurstInfo D × UdpBurstServer))
      (ls : List BurstLine)
      → IsAscending ps
      → AreMatches end size payload ps ls
      → HasAscendingIds ls
  HasAscendingIds-AreMatches end size payload [] [] a m = tt
  HasAscendingIds-AreMatches end size payload [] (l ∷ ls) a m = absurd m
  HasAscendingIds-AreMatches end size payload (p ∷ ps) [] a m = absurd m
  HasAscendingIds-AreMatches end size payload (p ∷ ps) (l ∷ ls) a m = (
    all_lines end size payload
        (λ q k above match.
          let (n, e, is) = match in let (n', e', is') = m.0 in rw (is.named, is'.named) above)
        ps ls a.0 m.1,
    HasAscendingIds-AreMatches end size payload ps ls a.1 m.1,
  )

  length-bursts_to :
      (endpoint : ℤ) (xs : List (UdpBurstInfo D))
      → length (bursts_to endpoint xs) ≡ lines_to endpoint xs
  unfolding bursts_to
  length-bursts_to endpoint [] = refl
  length-bursts_to endpoint (x ∷ xs) = ground (arith, length-bursts_to endpoint xs)

  pub length-responsible_for_incoming :
      (complete : List (UdpBurstInfo D)) (hosts : List Host)
      → length (responsible_for_incoming complete (servers_of hosts)) ≡ all_lines_to hosts complete
  unfolding responsible_for_incoming
  length-responsible_for_incoming complete [] = refl
  length-responsible_for_incoming complete (h ∷ hs) =
      let xs = bursts_to h.endpoint complete in
      let pairs : List (UdpBurstInfo D × UdpBurstServer) = map (λ info. (info, h.server)) xs in
      omega (
        arith,
        length-append pairs (responsible_for_incoming complete (servers_of hs)),
        length-map {B = UdpBurstInfo D × UdpBurstServer} (λ info. (info, h.server)) xs,
        length-bursts_to h.endpoint complete,
        length-responsible_for_incoming complete hs,
      )

  map-IsIn :
      (server : UdpBurstServer) (x : UdpBurstInfo D) (xs : List (UdpBurstInfo D))
      (rest : List (UdpBurstInfo D × UdpBurstServer))
      → IsIn x xs
      → IsIn (x, server) (map (λ info. (info, server)) xs ++ rest)
  map-IsIn server x [] rest i = absurd i
  map-IsIn server x (y ∷ ys) rest i = elim i [
    | inl here ↦ inl (ap (λ z. (z, server)) here)
    | inr later ↦ inr (map-IsIn server x ys rest later)
  ]

  append-IsIn :
      (r : UdpBurstInfo D × UdpBurstServer) (ps qs : List (UdpBurstInfo D × UdpBurstServer))
      → IsIn r qs
      → IsIn r (ps ++ qs)
  append-IsIn r [] qs i = i
  append-IsIn r (p ∷ ps) qs i = inr (append-IsIn r ps qs i)

  -- Each burst to a host is there with its server, and nothing else.
  pub responsible_for_incoming-IsIn :
      (complete : List (UdpBurstInfo D)) (hosts : List Host) (h : Host) (x : UdpBurstInfo D)
      → IsIn h hosts
      → IsIn x (bursts_to h.endpoint complete)
      → IsIn (x, h.server) (responsible_for_incoming complete (servers_of hosts))
  unfolding responsible_for_incoming
  responsible_for_incoming-IsIn complete [] h x i j = absurd i
  responsible_for_incoming-IsIn complete (g ∷ gs) h x i j = elim i [
    | inl here ↦
        subst
          (λ (k : Host).
            IsIn (x, k.server) (responsible_for_incoming complete (servers_of (g ∷ gs))))
          (sym here)
          (map-IsIn g.server x (bursts_to g.endpoint complete)
            (responsible_for_incoming complete (servers_of gs))
            (subst (λ (k : Host). IsIn x (bursts_to k.endpoint complete)) here j))
    | inr later ↦
        append-IsIn (x, h.server) (map (λ info. (info, g.server)) (bursts_to g.endpoint complete))
          (responsible_for_incoming complete (servers_of gs))
          (responsible_for_incoming-IsIn complete gs h x later j)
  ]

  all_of :
      (P : UdpBurstInfo D × UdpBurstServer → Type 0) (server : UdpBurstServer)
      (xs : List (UdpBurstInfo D))
      → ((x : UdpBurstInfo D) → IsIn x xs → P (x, server))
      → All P (map (λ info. (info, server)) xs)
  all_of P server [] f = tt
  all_of P server (x ∷ xs) f = (f x (inl refl), all_of P server xs (λ y i. f y (inr i)))

  pub responsible_for_incoming-All :
      (P : UdpBurstInfo D × UdpBurstServer → Type 0) (complete : List (UdpBurstInfo D))
      (hosts : List Host)
      → ((h : Host)
          → IsIn h hosts
          → (x : UdpBurstInfo D) → IsIn x (bursts_to h.endpoint complete)
          → P (x, h.server))
      → All P (responsible_for_incoming complete (servers_of hosts))
  unfolding responsible_for_incoming
  responsible_for_incoming-All P complete [] f = tt
  responsible_for_incoming-All P complete (h ∷ hs) f =
      All-append P (map (λ info. (info, h.server)) (bursts_to h.endpoint complete))
        (responsible_for_incoming complete (servers_of hs))
        (all_of P h.server (bursts_to h.endpoint complete) (λ x i. f h (inl refl) x i))
        (responsible_for_incoming-All P complete hs (λ g i x j. f g (inr i) x j))
