-- ===== src/UdpBurst/Counts.antt =====
-- About the packets that the server of UDP bursts counts (model/apps/udp-burst-server.cc).
use mathlib.Core.Path.{fun_ext}
use basic_sim.Prelude.{
  ℕ, ◌+◌, ◌%◌, ◌^◌, ◌≡◌, refl, sym, ◌∙◌, Bool, true, false, ◌||◌, List, [], ◌∷◌, none, some, arith,
  if◌then◌else◌, ◌⊎◌, inl, inr, All, Bool-cases, Option-cases, ◌++◌,
}
use mathlib.Core.Path.{subst}
use basic_sim.Prelude.Int.{ℤ, int_ord}
use basic_sim.Prelude.Results.{Result, ok, err, out_of_range, ◌>>=◌}
use basic_sim.Containers.SortedSet.{same, member, IsSorted, same_iff, insert-IsSorted}
use basic_sim.Containers.SortedMap.{find, keys, keys-insert, find-insert}
use basic_sim.TcpFlow.{to_int64}
use basic_sim.UdpHeaders.{UdpBurstHeader}
use basic_sim.UdpBurst.{
  UdpBurstServer, new_server, register_incoming_burst, add_one, handle_read,
  get_received_counter_of,
}

unfoldable pub register_all : List (ℤ × Bool) → UdpBurstServer → UdpBurstServer
unfolding register_incoming_burst
register_all [] s = s
register_all ((id, precise) ∷ rs) s = register_all rs (register_incoming_burst id precise s)

unfoldable pub handle_all : List (UdpBurstHeader × ℕ) → UdpBurstServer → Result UdpBurstServer
unfolding handle_read
handle_all [] s = ok s
handle_all ((header, now) ∷ hs) s = do s' ← handle_read now header s; handle_all hs s'

-- How many of the headers are of a burst.
unfoldable pub count : ℤ → List (UdpBurstHeader × ℕ) → ℕ
count id [] = 0
count id ((header, now) ∷ hs) = (if same id (to_int64 header.id) then 1 else 0) + count id hs

abbrev pub ids_of : List (ℤ × Bool) → List ℤ
ids_of [] = []
ids_of ((id, precise) ∷ rs) = id ∷ ids_of rs

-- The server knows the ids of `known`, and has counted `n`.
record IsCounting (known : ℤ → Bool) (n : ℤ → ℕ) (s : UdpBurstServer) : Type 0 where
  counter :
      (k : ℤ) → known k ≡ true → find k s.incoming_bursts_received_counter ≡ some (n k % 2 ^ 64)
  logging :
      (k : ℤ)
      → known k ≡ true
      → (b : Bool) × (find k s.incoming_bursts_enable_precise_logging ≡ some b)
  unknown : (k : ℤ) → known k ≡ false → find k s.incoming_bursts_received_counter ≡ none

record IsOrdered (s : UdpBurstServer) : Type 0 where
  counters : IsSorted (keys s.incoming_bursts_received_counter)
  flags : IsSorted (keys s.incoming_bursts_enable_precise_logging)

register-IsOrdered :
    (id : ℤ) (b : Bool) (s : UdpBurstServer)
    → IsOrdered s
    → IsOrdered (register_incoming_burst id b s)
unfolding register_incoming_burst
register-IsOrdered id b s o = record {
  counters =
      subst IsSorted (sym (keys-insert id 0 s.incoming_bursts_received_counter))
        (insert-IsSorted id _ o.counters);
  flags =
      subst IsSorted (sym (keys-insert id b s.incoming_bursts_enable_precise_logging))
        (insert-IsSorted id _ o.flags);
}

register-IsCounting :
    (id : ℤ) (b : Bool) (known : ℤ → Bool) (s : UdpBurstServer)
    → IsOrdered s
    → IsCounting known (λ k. 0) s
    → IsCounting (λ k. same k id || known k) (λ k. 0) (register_incoming_burst id b s)
unfolding register_incoming_burst
register-IsCounting id b known s o c = record {
  counter = λ k h.
      let e = find-insert k id 0 s.incoming_bursts_received_counter o.counters in
      ground (arith, e, c.counter k, c.unknown k, h);
  logging = λ k h.
      let e = find-insert k id b s.incoming_bursts_enable_precise_logging o.flags in
      elim (Option-cases (find k s.incoming_bursts_enable_precise_logging)) [
        | inr (v, old) ↦ (v, e ∙ rw old refl)
        | inl new ↦ elim (Bool-cases (known k)) [
          | inl kn ↦ let (v, old) = c.logging k kn in absurd (cc (old, new))
          | inr un ↦ (b, e ∙ rw new (ground (arith, un, h)))
        ]
      ];
  unknown = λ k h.
      let e = find-insert k id 0 s.incoming_bursts_received_counter o.counters in
      ground (arith, e, c.unknown k, h);
}

register_all-IsCounting :
    (rs : List (ℤ × Bool)) (known : ℤ → Bool) (s : UdpBurstServer)
    → IsOrdered s
    → IsCounting known (λ k. 0) s
    → IsCounting (λ k. member k (ids_of rs) || known k) (λ k. 0) (register_all rs s)
unfolding register_all member
register_all-IsCounting [] known s o c = c
register_all-IsCounting ((id, b) ∷ rs) known s o c =
    subst (λ p. IsCounting p (λ k. 0) (register_all rs (register_incoming_burst id b s)))
      (fun_ext (λ k. ground arith))
      (register_all-IsCounting rs (λ k. same k id || known k) (register_incoming_burst id b s)
        (register-IsOrdered id b s o) (register-IsCounting id b known s o c))

find-add_one :
    (c id : ℤ) (m : List (ℤ × ℕ))
    → find c (add_one id m)
      ≡ elim (find c m) [ none ↦ none | some n ↦ some (if same c id then (n + 1) % 2 ^ 64 else n) ]
unfolding find add_one
find-add_one c id [] = refl
find-add_one c id ((k, n) ∷ m) =
    ground (arith, find-add_one c id m, same_iff c id, same_iff c k, same_iff id k)

handle_read-IsCounting :
    (known : ℤ → Bool) (n : ℤ → ℕ) (s : UdpBurstServer) (header : UdpBurstHeader) (now : ℕ)
    → IsCounting known n s
    → known (to_int64 header.id) ≡ true
    → (s' : UdpBurstServer) × (handle_read now header s ≡ ok s')
      × IsCounting known (λ k. (if same k (to_int64 header.id) then 1 else 0) + n k) s'
unfolding handle_read
handle_read-IsCounting known n s header now c kn =
    let id = to_int64 header.id in
    let (b, flag) = c.logging id kn in
    (
      record s {
        incoming_bursts_received_counter = add_one id s.incoming_bursts_received_counter;
        incoming_lines = if b then s.incoming_lines ++ (header, now) ∷ [] else s.incoming_lines;
      },
      ground (arith, c.counter id kn, flag),
      record {
        counter = λ k h.
            find-add_one k id s.incoming_bursts_received_counter
            ∙ rw (c.counter k h) (ground arith);
        logging = c.logging;
        unknown =
            λ k h. find-add_one k id s.incoming_bursts_received_counter ∙ rw (c.unknown k h) refl;
      },
    )

handle_all-cases :
    (hs : List (UdpBurstHeader × ℕ)) (known : ℤ → Bool) (n : ℤ → ℕ) (s : UdpBurstServer)
    → IsCounting known n s
    → (All (λ (h : UdpBurstHeader × ℕ). known (to_int64 h.0.id) ≡ true) hs
        × ((s' : UdpBurstServer) × (handle_all hs s ≡ ok s')
            × IsCounting known (λ k. count k hs + n k) s'))
      ⊎ ((¬ All (λ (h : UdpBurstHeader × ℕ). known (to_int64 h.0.id) ≡ true) hs)
          × (handle_all hs s ≡ err out_of_range))
unfolding handle_all count
handle_all-cases [] known n s c =
    inl (tt, (s, refl, subst (λ f. IsCounting known f s) (fun_ext (λ k. omega arith)) c))
handle_all-cases ((header, now) ∷ hs) known n s c =
    let id = to_int64 header.id in
    elim (Bool-cases (known id)) [
      | inr un ↦ inr (λ all. cc (un, all.0), ground (arith, c.unknown id un))
      | inl kn ↦
          let (s1, e, c1) = handle_read-IsCounting known n s header now c kn in
          elim (handle_all-cases hs known _ s1 c1) [
            | inl (all, (s', run, c')) ↦ inl (
              (kn, all),
              (s', rw e run, subst (λ f. IsCounting known f s') (fun_ext (λ k. omega arith)) c'),
            )
            | inr (not_all, run) ↦ inr (λ all. not_all all.1, rw e run)
          ]
    ]

or_false : (b : Bool) → (b || false) ≡ b
or_false true = refl
or_false false = refl

new_find : (k : ℤ) → find k new_server.incoming_bursts_received_counter ≡ none
unfolding find
new_find k = refl

-- A server that has registered bursts counts the packets that come in: if all are of registered
-- bursts, the counter of each of these is the number of its packets, as a uint64; if one is not, the
-- reading ends with an exception.
pub received_lem :
    (rs : List (ℤ × Bool)) (hs : List (UdpBurstHeader × ℕ))
    → (All (λ (h : UdpBurstHeader × ℕ). member (to_int64 h.0.id) (ids_of rs) ≡ true) hs
        × ((s : UdpBurstServer) × (handle_all hs (register_all rs new_server) ≡ ok s)
            × ((id : ℤ)
                → member id (ids_of rs) ≡ true
                → get_received_counter_of id s ≡ ok (count id hs % 2 ^ 64))))
      ⊎ ((¬ All (λ (h : UdpBurstHeader × ℕ). member (to_int64 h.0.id) (ids_of rs) ≡ true) hs)
          × (handle_all hs (register_all rs new_server) ≡ err out_of_range))
unfolding get_received_counter_of
received_lem rs hs =
    let c0 =
      register_all-IsCounting rs (λ k. false) new_server (record { counters = tt; flags = tt })
        (record {
          counter = λ k h. cc;
          logging = λ k h. absurd (cc h);
          unknown = λ k h. new_find k;
        }) in
    let c =
      subst (λ p. IsCounting p (λ k. 0) (register_all rs new_server))
        (fun_ext (λ k. or_false (member k (ids_of rs)))) c0 in
    elim (handle_all-cases hs (λ k. member k (ids_of rs)) (λ k. 0) (register_all rs new_server) c) [
      | inr (not_all, run) ↦ inr (not_all, run)
      | inl (all, (s, run, c')) ↦ inl (all, (s, run, λ id kn. ground (arith, c'.counter id kn)))
    ]
