-- ===== src/BasicSimulation/Requests.antt =====
-- About the keys of the configuration that a run asks for (model/core/basic-simulation.cc).
use basic_sim.Prelude.{
  ◌≡◌, refl, sym, ◌∙◌, ap, true, false, ◌||◌, ◌⊎◌, inl, inr, List, [], ◌∷◌, arith, map, All,
  Bool-cases,
}
use mathlib.Core.Path.{subst}
use basic_sim.Prelude.Text.{Bytes, bytes_ord}
use basic_sim.Prelude.Results.{Result, ok, err, runtime_error, ◌>>=◌, >>=-elim, ok-injective}
use basic_sim.Containers.SortedSet.{member, insert, member-insert, same_iff}
use basic_sim.Containers.SortedMap.{keys}
use basic_sim.ExpUtil.Config.{get_param_or_fail}
use basic_sim.BasicSimulation.{
  BasicSimulation, get_config_param_or_fail, get_config_param_or_default, confirm_keys,
  confirm_all_config_param_keys_requested,
}

-- A lookup of either kind.
pub data Lookup : Type 0 where
  or_fail : Bytes → Lookup
  or_default : Bytes → Bytes → Lookup

abbrev pub key_of : Lookup → Bytes
key_of (or_fail key) = key
key_of (or_default key default_value) = key

unfoldable pub look_up : Lookup → BasicSimulation → Result (Bytes × BasicSimulation)
unfolding get_config_param_or_fail get_config_param_or_default
look_up (or_fail key) s = get_config_param_or_fail key s
look_up (or_default key default_value) s = get_config_param_or_default key default_value s

-- The lookups of a run, one after the other.
unfoldable pub look_up_all : List Lookup → BasicSimulation → Result BasicSimulation
unfolding look_up
look_up_all [] s = ok s
look_up_all (l ∷ ls) s = do r ← look_up l s; look_up_all ls r.1

look_up-requested :
    (l : Lookup) (s : BasicSimulation) (r : Bytes × BasicSimulation)
    → look_up l s ≡ ok r
    → (r.1.config ≡ s.config)
      × (r.1.config_requested_keys ≡ insert (key_of l) s.config_requested_keys)
unfolding look_up
look_up-requested (or_fail key) s r h =
    >>=-elim (get_param_or_fail key s.config) _ h
      λ v e h1. let e1 = ok-injective h1 in (cc e1, cc e1)
look_up-requested (or_default key default_value) s r h = let e1 = ok-injective h in (cc e1, cc e1)

-- What was asked for before or in the run.
look_up_all-requested :
    (ls : List Lookup) (s s' : BasicSimulation) (k : Bytes)
    → look_up_all ls s ≡ ok s'
    → (s'.config ≡ s.config)
      × (member k s'.config_requested_keys
          ≡ member k (map key_of ls) || member k s.config_requested_keys)
unfolding look_up_all member
look_up_all-requested [] s s' k h =
    let e = ok-injective h in
    (cc e, ap (λ (t : BasicSimulation). member k t.config_requested_keys) (sym e))
look_up_all-requested (l ∷ ls) s s' k h = >>=-elim (look_up l s) _ h λ r h0 h1.
    let (c1, q1) = look_up-requested l s r h0 in
    let (c2, q2) = look_up_all-requested ls r.1 s' k h1 in
    (c2 ∙ c1, ground (arith, q1, q2, member-insert k (key_of l) s.config_requested_keys))

-- The keys are all asked for, or one is not and there is an exception.
confirm_keys-cases :
    (ks requested : List Bytes)
    → (All (λ k. member k requested ≡ true) ks × (confirm_keys ks requested ≡ ok tt))
      ⊎ ((k : Bytes) × (member k ks ≡ true)
          × (member k requested ≡ false)
          × (confirm_keys ks requested ≡ err runtime_error))
unfolding confirm_keys member
confirm_keys-cases [] requested = inl (tt, refl)
confirm_keys-cases (k ∷ ks) requested = elim (Bool-cases (member k requested)) [
  | inr missing ↦ inr (k, ground (arith, same_iff k k), missing, ground (arith, missing))
  | inl asked ↦ elim (confirm_keys-cases ks requested) [
    | inl (all, e) ↦ inl ((asked, all), ground (arith, asked, e))
    | inr (j, m, missing, e) ↦ inr (j, ground (arith, m), missing, ground (arith, asked, e))
  ]
]

look_up_all-member :
    (ls : List Lookup) (s s' : BasicSimulation) (k : Bytes)
    → s.config_requested_keys ≡ []
    → look_up_all ls s ≡ ok s'
    → member k (map key_of ls) ≡ member k s'.config_requested_keys
unfolding member
look_up_all-member ls s s' k fresh h =
    let e = (look_up_all-requested ls s s' k h).1 in
    let none_before : member k s.config_requested_keys ≡ false = ap (member k) fresh in
    ground (arith, e, none_before)

All-map :
    (P Q : Bytes → Type 0) → ((k : Bytes) → P k → Q k) → (ks : List Bytes) → All P ks → All Q ks
All-map P Q f [] all = tt
All-map P Q f (k ∷ ks) all = (f k all.0, All-map P Q f ks all.1)

-- Before it runs, a simulation that has made some lookups confirms its configuration if each key of it
-- was the key of a lookup; if one was not, there is a runtime error.
pub confirm_lem :
    (ls : List Lookup) (s s' : BasicSimulation)
    → s.config_requested_keys ≡ []
    → look_up_all ls s ≡ ok s'
    → (All (λ k. member k (map key_of ls) ≡ true) (keys s.config)
        × (confirm_all_config_param_keys_requested s' ≡ ok tt))
      ⊎ ((k : Bytes) × (member k (keys s.config) ≡ true)
          × (member k (map key_of ls) ≡ false)
          × (confirm_all_config_param_keys_requested s' ≡ err runtime_error))
unfolding confirm_all_config_param_keys_requested
confirm_lem ls s s' fresh h =
    let same_config = (look_up_all-requested ls s s' [] h).0 in
    elim (confirm_keys-cases (keys s'.config) s'.config_requested_keys) [
      | inl (all, e) ↦ inl (
        subst (λ c. All (λ k. member k (map key_of ls) ≡ true) (keys c)) same_config
            (All-map _ _ (λ k asked. (look_up_all-member ls s s' k fresh h) ∙ asked)
              (keys s'.config) all),
        e,
      )
      | inr (k, m, missing, e) ↦ inr (
        k,
        subst (λ c. member k (keys c) ≡ true) same_config m,
        look_up_all-member ls s s' k fresh h ∙ missing,
        e,
      )
    ]
