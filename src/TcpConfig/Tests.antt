-- ===== src/TcpConfig/Tests.antt =====
-- The basic configuration over a store of attributes that lists what was set.
use basic_sim.Prelude.{
  ◌≡◌, refl, false, ◌&&◌, List, [], ◌∷◌, Option, none, some, if◌then◌else◌, arith,
}
use basic_sim.Prelude.Int.{pos}
use basic_sim.Prelude.Text.{Bytes, codes, bytes_beq, bytes_lt}
use basic_sim.Prelude.Results.{ok}
use basic_sim.Containers.SortedSet.{same, insert}
use basic_sim.Containers.SortedMap.{find}
use basic_sim.ExpUtil.Config.{get_param_or_fail}
use basic_sim.BasicSimulation.{BasicSimulation, get_config_param_or_fail, stamp, register_timestamp}
use basic_sim.TcpConfig.{
  Value, Attributes, TcpAttributes, Setting, setting, settings, basic, choose, configure,
  get_attribute_information, check_initial_value, set_attribute, set_attributes, set_tcp_attributes,
}
use basic_sim.TcpConfig.Asked.{IsChosen}
use basic_sim.TcpConfig.Settings.{IsStore, IsConfigured, configure-IsConfigured}

abbrev look_up : Bytes → Bytes → List Setting → Option Value
look_up t a [] = none
look_up t a (x ∷ xs) =
    let rest = look_up t a xs in
    if bytes_beq x.tid_name t && bytes_beq x.attribute_name a then some x.value else rest

abbrev listed : Attributes (List Setting)
listed = record { initial_value = look_up; set_default = λ t a v s. ok (setting t a v v ∷ s) }

listed-IsStore : IsStore listed
listed-IsStore = record { others = λ x y s s' h other. ground (arith, h, other) }

-- The values that ns-3 begins with.
abbrev unchanged_all : List Setting → List Setting
unchanged_all [] = []
unchanged_all (x ∷ xs) =
    setting x.tid_name x.attribute_name x.unchanged x.unchanged ∷ unchanged_all xs

abbrev push_all : List Setting → List Setting → List Setting
push_all [] s = s
push_all (x ∷ xs) s = push_all xs (setting x.tid_name x.attribute_name x.value x.value ∷ s)

abbrev before : BasicSimulation
before = record {
  config = (codes "tcp_config", codes "basic") ∷ [];
  config_requested_keys = [];
  simulation_seed = pos 1;
  simulation_end_time_ns = pos 10;
  enable_distributed = false;
  system_id = 0;
  systems_count = 1;
  distributed_node_system_id_assignment = [];
  timestamps = [];
}

abbrev after : BasicSimulation
after = record before {
  config_requested_keys = codes "tcp_config" ∷ [];
  timestamps = (codes "Setup TCP configuration", pos 7) ∷ [];
}

basic_is_configured :
    configure listed (λ label. pos 7) before (unchanged_all (settings basic))
    ≡ ok (push_all (settings basic) (unchanged_all (settings basic)), after)
unfolding configure settings choose get_config_param_or_fail get_param_or_fail find insert same
    bytes_beq bytes_lt stamp register_timestamp set_tcp_attributes set_attributes set_attribute
    check_initial_value get_attribute_information
basic_is_configured = refl

configure-IsConfigured_example :
    (t : Bytes) × (c : Option TcpAttributes) × (get_param_or_fail (codes "tcp_config") before.config
      ≡ ok t)
    × IsChosen before.config t c
    × IsConfigured listed
        (unchanged_all (settings basic))
        (push_all (settings basic) (unchanged_all (settings basic)))
        c
configure-IsConfigured_example =
    configure-IsConfigured listed listed-IsStore (λ label. pos 7) before after
      (unchanged_all (settings basic)) (push_all (settings basic) (unchanged_all (settings basic)))
      basic_is_configured
