-- ===== src/Manager/Invariant.antt =====
-- src/state_manager.cpp: what every operation on the node's state preserves, as a step relation.
use mesh_visualization.Prelude.{
  ℕ, ◌-◌, ◌≤◌, ◌<◌, ◌≡◌, inl, inr, Bool, some, List, arith, Option-cases, length, take, replicate,
  length-append, length-take, length-replicate, Bytes,
}
use mesh_visualization.Config.{kernel_size, max_activations, u32_mod, add32}
use mesh_visualization.Floats.{FloatUnit}
use mesh_visualization.State.{NodeState, ActivationRule, zero_rule}
use mesh_visualization.Neighbors.{Table}
use mesh_visualization.Manager.{
  Manager, Nvs, save_state_config, describe_activation_rules, set_kernel_values,
  set_activation_rules, load_preset, load_preset_data, apply_preset, fill_rules,
}
use mesh_visualization.Manager.Led.{
  set_led_color, update_led_color, set_led_highlight, set_state_value, toggle_state_value,
  reset_state_value,
}
use mesh_visualization.Manager.Activation.{
  Reading, read_sensors, store_temperature, read_temperature, apply_activation_function,
  update_state,
}
use mesh_visualization.Manager.Adopt.{adopt_neighbor_rules}

-- The arrays have their sizes, the rules counted are rules of the array, the value is a bit, and
-- the counters are 32-bit words.
pub record IsValid (s : NodeState) : Type 0 where
  pub kernel : length s.kernel ≡ kernel_size
  pub rules : length s.activations ≡ max_activations
  pub count : s.activation_count ≤ max_activations
  pub binary : s.value ≤ 1
  pub kernel_counter : s.kernel_sequence < u32_mod
  pub activation_counter : s.activation_sequence < u32_mod
  pub value_counter : s.value_sequence < u32_mod

-- What a received state is known to satisfy: its arrays have their sizes, its counters are words.
pub record IsReceived (s : NodeState) : Type 0 where
  pub kernel : length s.kernel ≡ kernel_size
  pub rules : length s.activations ≡ max_activations
  pub kernel_counter : s.kernel_sequence < u32_mod
  pub activation_counter : s.activation_sequence < u32_mod
  pub value_counter : s.value_sequence < u32_mod

-- One operation of the module on the variables `m`.
pub data Step (fpu : FloatUnit) : Manager → Manager → Type 0 where
  update : (r : Reading) (ns : Table) (m : Manager) → Step fpu m (update_state fpu r ns m)
  fade : (m : Manager) → Step fpu m (update_led_color fpu m)
  highlight : (on : Bool) (m : Manager) → Step fpu m (set_led_highlight fpu on m)
  color : (r g b : ℕ) (m : Manager) → Step fpu m (set_led_color r g b m)
  set_value : (now v : ℕ) (m : Manager) → Step fpu m (set_state_value fpu now v m)
  toggle : (now : ℕ) (m : Manager) → Step fpu m (toggle_state_value fpu now m)
  reset : (random : ℕ) (m : Manager) → Step fpu m (reset_state_value random m)
  -- The value as src/mqtt_handler.cpp writes it.
  write :
      (value : ℕ) (m : Manager)
      → value ≤ 1
      → Step fpu m (record m {
        node_state = record (m.node_state) {
          value = value;
          value_sequence = add32 m.node_state.value_sequence 1;
        };
      })
  set_kernel :
      (nvs : Nvs) (values : List ℕ) (m : Manager)
      → length values ≡ kernel_size
      → Step fpu m (set_kernel_values nvs values m)
  set_rules :
      (nvs : Nvs) (rules : List ActivationRule) (count : ℕ) (m : Manager)
      → count ≤ length rules
      → Step fpu m (set_activation_rules fpu nvs rules count m).0
  preset : (nvs : Nvs) (name : Bytes) (m : Manager) → Step fpu m (load_preset fpu nvs name m).0
  adopt :
      (nvs : Nvs) (random : ℕ) (theirs : NodeState) (m : Manager)
      → IsReceived theirs
      → Step fpu m (adopt_neighbor_rules fpu nvs random theirs m)

pub data Reach (fpu : FloatUnit) (m : Manager) : Manager → Type 0 where
  here : Reach fpu m m
  next : {t u : Manager} → Reach fpu m t → Step fpu t u → Reach fpu m u

length-fill_rules :
    (rules : List ActivationRule)
    → length rules ≤ max_activations
    → length (fill_rules rules) ≡ max_activations
length-fill_rules rules h = omega (
  arith,
  length-append rules (replicate (max_activations - length rules) zero_rule),
  length-replicate (max_activations - length rules) zero_rule,
)

-- The kernels of the presets have nine weights, and their rules fit.
load_preset_data-fits :
    (name : Bytes) (kernel : List ℕ) (rules : List ActivationRule)
    → load_preset_data name ≡ some (kernel, rules)
    → (length kernel ≡ kernel_size) × (length rules ≤ max_activations)
unfolding load_preset_data
load_preset_data-fits name kernel rules e = (ground arith, ground arith)

module _ (fpu : FloatUnit) where
  update-IsValid :
      (r : Reading) (ns : Table) (m : Manager)
      → IsValid m.node_state
      → IsValid (update_state fpu r ns m).node_state
  unfolding update_state read_sensors store_temperature read_temperature apply_activation_function
  update-IsValid r ns m v = ground arith

  set_value-IsValid :
      (now value : ℕ) (m : Manager)
      → IsValid m.node_state
      → IsValid (set_state_value fpu now value m).node_state
  unfolding set_state_value
  set_value-IsValid now value m v = ground arith

  set_rules-IsValid :
      (nvs : Nvs) (rules : List ActivationRule) (count : ℕ) (m : Manager)
      → count ≤ length rules
      → IsValid m.node_state
      → IsValid (set_activation_rules fpu nvs rules count m).0.node_state
  unfolding set_activation_rules save_state_config describe_activation_rules
  set_rules-IsValid nvs rules count m h v =
      ground (arith, length-fill_rules (take count rules), length-take count rules)

  apply_preset-IsValid :
      (nvs : Nvs) (name : Bytes) (kernel : List ℕ) (rules : List ActivationRule) (m : Manager)
      → length kernel ≡ kernel_size
      → length rules ≤ max_activations
      → IsValid m.node_state
      → IsValid (apply_preset fpu nvs name (kernel, rules) m).node_state
  unfolding apply_preset save_state_config describe_activation_rules
  apply_preset-IsValid nvs name kernel rules m k l v = ground (arith, length-fill_rules rules)

  preset-IsValid :
      (nvs : Nvs) (name : Bytes) (m : Manager)
      → IsValid m.node_state
      → IsValid (load_preset fpu nvs name m).0.node_state
  unfolding load_preset
  preset-IsValid nvs name m v = elim (Option-cases (load_preset_data name)) [
    | inl e ↦ rw (e, load_preset) v
    | inr ((kernel, rules), e) ↦
        let h = load_preset_data-fits name kernel rules e in
        rw (e, load_preset) (apply_preset-IsValid nvs name kernel rules m h.0 h.1 v)
  ]

  adopt-IsValid :
      (nvs : Nvs) (random : ℕ) (theirs : NodeState) (m : Manager)
      → IsReceived theirs
      → IsValid m.node_state
      → IsValid (adopt_neighbor_rules fpu nvs random theirs m).node_state
  unfolding adopt_neighbor_rules save_state_config describe_activation_rules
  adopt-IsValid nvs random theirs m h v = ground arith

  Step-IsValid : {m t : Manager} → Step fpu m t → IsValid m.node_state → IsValid t.node_state
  unfolding update_led_color set_led_highlight set_led_color toggle_state_value reset_state_value
      set_kernel_values save_state_config
  Step-IsValid (update r ns m) v = update-IsValid r ns m v
  Step-IsValid (fade m) v = ground arith
  Step-IsValid (highlight on m) v = ground arith
  Step-IsValid (color r g b m) v = ground arith
  Step-IsValid (set_value now x m) v = set_value-IsValid now x m v
  Step-IsValid (toggle now m) v = set_value-IsValid now _ m v
  Step-IsValid (reset random m) v = ground arith
  Step-IsValid (write value m h) v = ground arith
  Step-IsValid (set_kernel nvs values m h) v = ground arith
  Step-IsValid (set_rules nvs rules count m h) v = set_rules-IsValid nvs rules count m h v
  Step-IsValid (preset nvs name m) v = preset-IsValid nvs name m v
  Step-IsValid (adopt nvs random theirs m h) v = adopt-IsValid nvs random theirs m h v

  -- Whatever operations follow one another, with whatever inputs, messages and failures of the
  -- flash store, a valid state stays valid: its arrays keep their sizes, the rules counted are
  -- rules of the array, the value is a bit and the counters are 32-bit words.
  pub Reach-IsValid : {m t : Manager} → Reach fpu m t → IsValid m.node_state → IsValid t.node_state
  Reach-IsValid here v = v
  Reach-IsValid (next r s) v = Step-IsValid s (Reach-IsValid r v)
