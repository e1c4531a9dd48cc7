-- ===== src/Manager/Stored.antt =====
-- src/state_manager.cpp: what every operation preserves of the configuration in the flash store.
use mesh_visualization.Prelude.{
  ℕ, ◌<◌, ◌≡◌, sym, inl, inr, Bool, not, ◌||◌, Option, none, some, List, arith, ltb, Bool-cases,
  Option-cases, length, Bytes, if_elim,
}
use mesh_visualization.Config.{kernel_size, max_activations, u32_mod}
use mesh_visualization.Floats.{FloatUnit}
use mesh_visualization.State.{NodeState, ActivationRule}
use mesh_visualization.Neighbors.{Table}
use mesh_visualization.Manager.{
  Manager, Nvs, Blob, PersistedConfig, config_of, save_state_config, describe_activation_rules,
  set_kernel_values, set_activation_rules, load_preset, load_preset_data, apply_preset,
}
use mesh_visualization.Manager.Led.{
  set_led_color, update_led_color, set_led_highlight, set_state_value, toggle_state_value,
  reset_state_value,
}
use mesh_visualization.Manager.Activation.{
  Reading, read_sensors, store_temperature, read_temperature, apply_activation_function,
  update_state,
}
use mesh_visualization.Manager.Adopt.{
  has_newer_kernel, has_newer_activations, adopt_kernel, adopt_activations, adopt_value,
  adopt_neighbor_rules,
}
use mesh_visualization.Manager.Invariant as Managed
use mesh_visualization.Manager.Invariant.{IsValid, IsReceived, Step, Reach}

-- The arrays of a configuration have their sizes, and its counters are 32-bit words.
pub record HasSizes (c : PersistedConfig) : Type 0 where
  pub kernel : length c.kernel ≡ kernel_size
  pub rules : length c.activations ≡ max_activations
  pub kernel_counter : c.kernel_sequence < u32_mod
  pub activation_counter : c.activation_sequence < u32_mod

-- What the flash store may hold: nothing, or any bytes, as far as they make a configuration.
abbrev pub IsStored : Option Blob → Type 0
IsStored none = Unit
IsStored (some b) = HasSizes b.config

pub save-IsStored :
    (nvs : Nvs) (m : Manager)
    → IsValid m.node_state
    → IsStored m.stored
    → IsStored (save_state_config nvs m).0.stored
unfolding save_state_config
save-IsStored nvs m v s =
    let saved = λ (r : Manager × Bool). IsStored r.0.stored in
    let sizes : HasSizes (config_of m) = record {
      kernel = v.kernel;
      rules = v.rules;
      kernel_counter = v.kernel_counter;
      activation_counter = v.activation_counter;
    } in
    if_elim saved (not nvs.open_ok || not nvs.set_ok) _ _ s
      (if_elim saved nvs.commit_ok _ _ sizes (if_elim saved nvs.kept _ _ sizes s))

pub save-same : (nvs : Nvs) (m : Manager) → (save_state_config nvs m).0.node_state ≡ m.node_state
unfolding save_state_config
save-same nvs m = ground arith

-- The configuration that an operation saves is that of the state that it leaves.
save-left :
    (nvs : Nvs) (m : Manager)
    → IsValid (save_state_config nvs m).0.node_state
    → IsStored m.stored
    → IsStored (save_state_config nvs m).0.stored
save-left nvs m v = save-IsStored nvs m (rw (sym (save-same nvs m)) v)

module _ (fpu : FloatUnit) where
  set_rules-IsStored :
      (nvs : Nvs) (rules : List ActivationRule) (count : ℕ) (m : Manager)
      → IsValid (set_activation_rules fpu nvs rules count m).0.node_state
      → IsStored m.stored
      → IsStored (set_activation_rules fpu nvs rules count m).0.stored
  unfolding set_activation_rules describe_activation_rules
  set_rules-IsStored nvs rules count m = elim (Bool-cases (ltb max_activations count)) [
    | inl e ↦ rw e (λ v s. s)
    | inr e ↦ rw e (λ v s. save-left nvs _ v s)
  ]

  preset-IsStored :
      (nvs : Nvs) (name : Bytes) (m : Manager)
      → IsValid (load_preset fpu nvs name m).0.node_state
      → IsStored m.stored
      → IsStored (load_preset fpu nvs name m).0.stored
  unfolding load_preset apply_preset describe_activation_rules
  preset-IsStored nvs name m = elim (Option-cases (load_preset_data name)) [
    | inl e ↦ rw (e, load_preset) (λ v s. s)
    | inr ((kernel, rules), e) ↦ rw (e, load_preset) (λ v s. save-left nvs _ v s)
  ]

  adopted-IsValid :
      (theirs : NodeState) (m : Manager)
      → IsReceived theirs
      → IsValid m.node_state
      → IsValid (adopt_activations fpu theirs (adopt_kernel theirs m)).node_state
  unfolding adopt_activations adopt_kernel describe_activation_rules
  adopted-IsValid theirs m h v = ground arith

  adopted-same :
      (theirs : NodeState) (m : Manager)
      → (adopt_activations fpu theirs (adopt_kernel theirs m)).stored ≡ m.stored
  unfolding adopt_activations adopt_kernel describe_activation_rules
  adopted-same theirs m = ground arith

  value-same :
      (random : ℕ) (theirs : NodeState) (m : Manager)
      → (adopt_value random theirs m).stored ≡ m.stored
  unfolding adopt_value
  value-same random theirs m = ground arith

  adopt-IsStored :
      (nvs : Nvs) (random : ℕ) (theirs : NodeState) (m : Manager)
      → IsReceived theirs
      → IsValid m.node_state
      → IsStored m.stored
      → IsStored (adopt_neighbor_rules fpu nvs random theirs m).stored
  unfolding adopt_neighbor_rules
  adopt-IsStored nvs random theirs m h v s =
      let adopted = adopt_activations fpu theirs (adopt_kernel theirs m) in
      let kept : IsStored adopted.stored = rw (adopted-same theirs m) s in
      let saved = save-IsStored nvs adopted (adopted-IsValid theirs m h v) kept in
      rw (value-same random theirs) (
        if_elim (λ (r : Manager). IsStored r.stored)
          (has_newer_kernel theirs m.node_state || has_newer_activations theirs m.node_state)
          (save_state_config nvs adopted).0 adopted saved kept)

  update-same :
      (r : Reading) (ns : Table) (m : Manager) → (update_state fpu r ns m).stored ≡ m.stored
  unfolding update_state read_sensors store_temperature read_temperature apply_activation_function
  update-same r ns m = ground arith

  -- What the flash store holds keeps its sizes, whichever operation of the state manager runs, and
  -- whichever of its calls of the flash store fail.
  pub Step-IsStored :
      {m t : Manager}
      → Step fpu m t
      → IsValid m.node_state
      → IsValid t.node_state
      → IsStored m.stored
      → IsStored t.stored
  unfolding update_led_color set_led_highlight set_led_color set_state_value toggle_state_value
      reset_state_value set_kernel_values
  Step-IsStored (Managed.update r ns m) v u s = rw (update-same r ns m) s
  Step-IsStored (Managed.fade m) v u s = ground arith
  Step-IsStored (Managed.highlight on m) v u s = ground arith
  Step-IsStored (Managed.color r g b m) v u s = s
  Step-IsStored (Managed.set_value now x m) v u s = ground arith
  Step-IsStored (Managed.toggle now m) v u s = ground arith
  Step-IsStored (Managed.reset random m) v u s = s
  Step-IsStored (Managed.write value m h) v u s = s
  Step-IsStored (Managed.set_kernel nvs values m h) v u s = save-left nvs _ u s
  Step-IsStored (Managed.set_rules nvs rules count m h) v u s =
      set_rules-IsStored nvs rules count m u s
  Step-IsStored (Managed.preset nvs name m) v u s = preset-IsStored nvs name m u s
  Step-IsStored (Managed.adopt nvs random theirs m h) v u s =
      adopt-IsStored nvs random theirs m h v s
