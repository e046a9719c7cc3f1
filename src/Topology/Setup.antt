-- ===== src/Topology/Setup.antt =====
-- `SetupLinks` of model/core/topology-ptop.cc: what each link is installed with. The installation
-- itself (ns-3 devices, channel, addresses) is the argument `install`, which takes the ends and the
-- settings of the link, changes the network, and gives the interface indices at both ends.
use basic_sim.Prelude.{
  ℕ, ◌+◌, ◌≡◌, refl, ◌∙◌, ap, Bool, true, false, ◌||◌, List, [], ◌∷◌, ◌++◌, arith, length,
  length-append, All, Option, none, some, Option-cases, inl, inr,
}
use basic_sim.Prelude.Int.{ℤ, int_ord}
use basic_sim.Prelude.Order.{pair_ord}
use basic_sim.Prelude.Results.{Result, ok, err, out_of_range, ◌>>=◌}
use basic_sim.Containers.SortedSet.{member}
use basic_sim.Containers.SortedMap.{find, find-none, keys}
use basic_sim.Topology.{Link, get_links_set}
use basic_sim.Topology.LinkProperties.{LinkMap}
use basic_sim.Topology.LinkProperties.Coverage.{member-get_links, member-get_links_set}

-- `map::at`.
abbrev pub at_key : {A : Type 0} → LinkMap A → Link → Result A
at_key m e = elim (find e m) [ none ↦ err out_of_range | some v ↦ ok v ]

-- The mappings that were parsed.
pub record Mappings (Rate Queue Error Qdisc : Type 0) : Type 0 where
  pub link_channel_delay_ns : LinkMap ℤ
  pub link_net_device_data_rate_megabit_per_s : LinkMap Rate
  pub link_net_device_queue : LinkMap Queue
  pub link_net_device_receive_error_model : LinkMap (Bool × Error)
  pub link_interface_traffic_control_qdisc : LinkMap (Bool × Qdisc)

-- What an end of a link is installed with; `none` where no error model or discipline is wanted.
pub record End (Rate Queue Error Qdisc : Type 0) : Type 0 where
  pub rate : Rate
  pub queue : Queue
  pub receive_error_model : Option Error
  pub qdisc : Option Qdisc

abbrev pub enabled : {A : Type 0} → Bool × A → Option A
enabled (true, v) = some v
enabled (false, v) = none

module _ {Rate Queue Error Qdisc : Type 0} where
  -- The end of `out`; what it receives is of the link the other way, `back`.
  unfoldable pub end_of :
      Mappings Rate Queue Error Qdisc → Link → Link → Result (End Rate Queue Error Qdisc)
  end_of ms out back = do
    rate ← at_key ms.link_net_device_data_rate_megabit_per_s out
    queue ← at_key ms.link_net_device_queue out
    receive_error_model ← at_key ms.link_net_device_receive_error_model back
    qdisc ← at_key ms.link_interface_traffic_control_qdisc out
    ok (record {
      rate = rate;
      queue = queue;
      receive_error_model = enabled receive_error_model;
      qdisc = enabled qdisc;
    })

  module _ {Network : Type 0}
      (install : Link
        → End Rate Queue Error Qdisc
        → End Rate Queue Error Qdisc
        → ℤ
        → Network
        → Network × (ℕ × ℕ)) where
    unfoldable pub setup_links :
        Mappings Rate Queue Error Qdisc
        → List Link
        → Network
        → List (ℕ × ℕ)
        → Result (Network × List (ℕ × ℕ))
    unfolding end_of
    setup_links ms [] network interface_idxs = ok (network, interface_idxs)
    setup_links ms ((a, b) ∷ es) network interface_idxs = do
      end_a ← end_of ms (a, b) (b, a)
      end_b ← end_of ms (b, a) (a, b)
      delay ← at_key ms.link_channel_delay_ns (a, b)
      let done = install (a, b) end_a end_b delay network
      setup_links ms es done.0 (interface_idxs ++ done.1 ∷ [])

  -- Every mapping has the keys that it needs for the set `es` of edges.
  pub record IsComplete (ms : Mappings Rate Queue Error Qdisc) (es : List Link) : Type 0 where
    pub delays : keys ms.link_channel_delay_ns ≡ es
    pub rates : keys ms.link_net_device_data_rate_megabit_per_s ≡ get_links_set es
    pub queues : keys ms.link_net_device_queue ≡ get_links_set es
    pub error_models : keys ms.link_net_device_receive_error_model ≡ get_links_set es
    pub qdiscs : keys ms.link_interface_traffic_control_qdisc ≡ get_links_set es

at_key-ok :
    {A : Type 0} (m : LinkMap A) (e : Link)
    → member e (keys m) ≡ true
    → (v : A) × (at_key m e ≡ ok v)
at_key-ok m e h = elim (Option-cases (find e m)) [
  | inl missing ↦ cc (find-none e m missing, h)
  | inr found ↦ (found.0, ground (arith, found.1))
]

link-member :
    (es : List Link) (a b : ℤ)
    → member (a, b) es || member (b, a) es ≡ true
    → member (a, b) (get_links_set es) ≡ true
link-member es a b h = member-get_links_set es (a, b) ∙ member-get_links es a b h

module _ {Rate Queue Error Qdisc : Type 0} where
  end_of-ok :
      (ms : Mappings Rate Queue Error Qdisc) (es : List Link) (a b : ℤ)
      → IsComplete ms es
      → member (a, b) es || member (b, a) es ≡ true
      → (e : End Rate Queue Error Qdisc) × (end_of ms (a, b) (b, a) ≡ ok e)
  unfolding end_of
  end_of-ok ms es a b c h =
      let there = link-member es a b h in
      let back = link-member es b a (ground (arith, h)) in
      let (rate, h1) =
        at_key-ok ms.link_net_device_data_rate_megabit_per_s (a, b)
          (ap (member (a, b)) c.rates ∙ there) in
      let (queue, h2) =
        at_key-ok ms.link_net_device_queue (a, b) (ap (member (a, b)) c.queues ∙ there) in
      let (model, h3) =
        at_key-ok ms.link_net_device_receive_error_model (b, a)
          (ap (member (b, a)) c.error_models ∙ back) in
      let (qdisc, h4) =
        at_key-ok ms.link_interface_traffic_control_qdisc (a, b)
          (ap (member (a, b)) c.qdiscs ∙ there) in
      (
        record {
          rate = rate;
          queue = queue;
          receive_error_model = enabled model;
          qdisc = enabled qdisc;
        },
        rw (h1, h2, h3, h4) refl,
      )

  pub setup_suffix :
      {Network : Type 0}
      (install : Link
        → End Rate Queue Error Qdisc
        → End Rate Queue Error Qdisc
        → ℤ
        → Network
        → Network × (ℕ × ℕ))
      (ms : Mappings Rate Queue Error Qdisc) (es rest : List Link) (network : Network)
      (idxs : List (ℕ × ℕ))
      → IsComplete ms es
      → All (λ e. member e es ≡ true) rest
      → (r : Network × List (ℕ × ℕ)) × (setup_links install ms rest network idxs ≡ ok r)
        × (length r.1 ≡ length idxs + length rest)
  unfolding setup_links
  setup_suffix install ms es [] network idxs c all = ((network, idxs), refl, omega arith)
  setup_suffix install ms es ((a, b) ∷ rest) network idxs c all =
      let (end_a, h1) = end_of-ok ms es a b c (ground (arith, all.0)) in
      let (end_b, h2) = end_of-ok ms es b a c (ground (arith, all.0)) in
      let (delay, h3) =
        at_key-ok ms.link_channel_delay_ns (a, b) (ap (member (a, b)) c.delays ∙ all.0) in
      let done = install (a, b) end_a end_b delay network in
      let (r, h4, len) = setup_suffix install ms es rest done.0 (idxs ++ done.1 ∷ []) c all.1 in
      (r, rw (h1, h2, h3) h4, omega (arith, len, length-append idxs (done.1 ∷ [])))
