-- ===== src/Mqtt/Command/Steps.antt =====
-- src/mqtt_handler.cpp: what a command for the node itself leads to, by what its fields are.
use mesh_visualization.Prelude.{
  ℕ, ◌-◌, ◌≤◌, ◌≡◌, refl, ap, ◌∙◌, Bool, true, false, ◌||◌, none, some, List, arith, ltb, length,
  take, replicate, take_all, take-append, Bytes, codes,
}
use mesh_visualization.Config.{kernel_size, max_activations}
use mesh_visualization.Floats.{FloatUnit}
use mesh_visualization.State.{ActivationRule, zero_rule}
use mesh_visualization.Manager.{
  Manager, Nvs, fill_rules, save_state_config, describe_activation_rules, set_kernel_values,
  set_activation_rules,
}
use mesh_visualization.Node.{Node}
use mesh_visualization.Text.{c_string}
use mesh_visualization.Mqtt.Fields.{
  parse_string_field, parse_number_field, parse_bool_field, parse_float_array_field,
  parse_activations_field,
}
use mesh_visualization.Mqtt.Command.{
  command_to, Host, target_of, write_value, change_preset, change_kernel, change_rules,
  change_value, change_reset, configure, configure_node, announce, handle_mqtt_command,
}

or_true : (b : Bool) → (b || true) ≡ true
or_true true = refl
or_true false = refl

-- The rules in the state after they were set.
pub rules_set :
    (fpu : FloatUnit) (nvs : Nvs) (rules : List ActivationRule) (m : Manager)
    → length rules ≤ max_activations
    → let s = (set_activation_rules fpu nvs rules (length rules) m).0.node_state in
      (s.kernel ≡ m.node_state.kernel) × (take s.activation_count s.activations ≡ rules)
unfolding set_activation_rules save_state_config describe_activation_rules
rules_set fpu nvs rules m few =
    let fits : ltb max_activations (length rules) ≡ false = ground arith in
    let whole : take (length rules) (fill_rules (take (length rules) rules)) ≡ rules =
      ap (λ t. take (length rules) (fill_rules t)) (take_all (length rules) rules (omega arith))
      ∙ take-append rules (replicate (max_activations - length rules) zero_rule) refl in
    rw fits (ground arith, ground (arith, whole))

pub kernel_set :
    (nvs : Nvs) (kernel : List ℕ) (m : Manager)
    → (set_kernel_values nvs kernel m).node_state.kernel ≡ kernel
unfolding set_kernel_values save_state_config
kernel_set nvs kernel m = ground arith

-- What is handled of a text, by what its fields are.
module _ (h : Host) (json payload : Bytes) (n : Node) where
  pub handle_untargeted :
      h.allocated ≡ true
      → c_string payload ≡ json
      → target_of json ≡ none
      → handle_mqtt_command h payload n ≡ configure_node h json n
  unfolding handle_mqtt_command
  handle_untargeted allocated same untargeted = rw allocated (
      ap
        (λ t. elim (target_of t) [
          | none ↦ configure_node h t n
          | some target ↦ command_to h t target n
        ])
        same
      ∙ rw untargeted refl)

module _ (h : Host) (json : Bytes) where
  preset_step :
      (c : Manager × Bool)
      → parse_string_field json (codes "preset") 32 ≡ none
      → change_preset h.world.fpu h.world.nvs json c ≡ c
  unfolding change_preset
  preset_step c e = rw (e, change_preset) refl

  kernel_step :
      (kernel : List ℕ) (m : Manager) (b : Bool)
      → parse_float_array_field h.world.fpu json (codes "kernel") kernel_size ≡ some kernel
      → change_kernel h.world.fpu h.world.nvs json (m, b)
        ≡ (set_kernel_values h.world.nvs kernel m, true)
  unfolding change_kernel
  kernel_step kernel m b e = rw (e, change_kernel) refl

  rules_step :
      (rules : List ActivationRule) (m : Manager)
      → parse_activations_field h.world.fpu json ≡ some rules
      → change_rules h.world.fpu h.world.nvs json (m, true)
        ≡ ((set_activation_rules h.world.fpu h.world.nvs rules (length rules) m).0, true)
  unfolding change_rules
  rules_step rules m e =
      let t = set_activation_rules h.world.fpu h.world.nvs rules (length rules) m in
      rw (e, change_rules) (ap (λ b. (t.0, b)) (or_true t.1))

  value_step :
      (value : ℕ) (m : Manager) (b : Bool)
      → parse_number_field h.world.fpu json (codes "value") ≡ some value
      → change_value h.world.fpu h.world.nvs json (m, b)
        ≡ (write_value h.world.fpu h.world.nvs json value m, b)
  unfolding change_value
  value_step value m b e = rw (e, change_value) refl

  reset_step :
      (c : Manager × Bool)
      → parse_bool_field json (codes "reset") ≡ false
      → change_reset h.world.fpu h.world.nvs json h.world.random c ≡ c
  unfolding change_reset
  reset_step c e = rw (e, change_reset) refl

  pub configured :
      (kernel : List ℕ) (rules : List ActivationRule) (value : ℕ) (m : Manager)
      → parse_string_field json (codes "preset") 32 ≡ none
      → parse_float_array_field h.world.fpu json (codes "kernel") kernel_size ≡ some kernel
      → parse_activations_field h.world.fpu json ≡ some rules
      → parse_number_field h.world.fpu json (codes "value") ≡ some value
      → parse_bool_field json (codes "reset") ≡ false
      → configure h.world.fpu h.world.nvs json h.world.random m ≡ (
        write_value h.world.fpu h.world.nvs json value
            (set_activation_rules h.world.fpu h.world.nvs rules
              (length rules)
              (set_kernel_values h.world.nvs kernel m)).0,
        true,
      )
  unfolding configure
  configured kernel rules value m p k r v f =
      let fpu = h.world.fpu in
      let nvs = h.world.nvs in
      let m1 = set_kernel_values nvs kernel m in
      let m2 = (set_activation_rules fpu nvs rules (length rules) m1).0 in
      reset_step _ f
      ∙ ap
          (λ c.
            change_value fpu nvs json (change_rules fpu nvs json (change_kernel fpu nvs json c)))
          (preset_step (m, false) p)
      ∙ ap (λ c. change_value fpu nvs json (change_rules fpu nvs json c))
          (kernel_step kernel m false k)
      ∙ ap (change_value fpu nvs json) (rules_step rules m1 r)
      ∙ value_step value m2 true v

  pub configure_node-configured :
      (n : Node) (m : Manager)
      → configure h.world.fpu h.world.nvs json h.world.random n.manager ≡ (m, true)
      → configure_node h json n ≡ announce h (record n { manager = m })
  unfolding configure_node
  configure_node-configured n m e = rw (e, configure_node) refl
