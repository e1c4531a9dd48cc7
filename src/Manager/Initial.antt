-- ===== src/Manager/Initial.antt =====
-- src/state_manager.cpp: the state that `init_state` leaves, whatever the flash store holds.
use mesh_visualization.Prelude.{
  ℕ, ◌%◌, ◌≡◌, refl, inl, inr, Bool, true, ◌&&◌, Option, none, some, List, map, arith, Bool-cases,
  length, take, length-take, length-map, if_elim,
}
use mesh_visualization.Config.{kernel_size, node_state_booting}
use mesh_visualization.Floats.{FloatUnit}
use mesh_visualization.State.{zero_state}
use mesh_visualization.Manager.{
  Manager, Nvs, Blob, PersistedConfig, is_usable, save_state_config, describe_activation_rules,
  apply_config, load_blob, load_state_config,
}
use mesh_visualization.Manager.Led.{init_leds, set_led_color, update_led_color}
use mesh_visualization.Manager.Activation.{init_sensors, random_weight, init_state}
use mesh_visualization.Manager.Invariant.{IsValid}
use mesh_visualization.Manager.Stored.{IsStored, HasSizes, save-IsStored, save-same}

-- The state and the stored configuration are valid.
pub record IsSafe (m : Manager) : Type 0 where
  pub state : IsValid m.node_state
  pub stored : IsStored m.stored

module _ (fpu : FloatUnit) (nvs : Nvs) where
  apply_config-IsValid :
      (b : Blob) (m : Manager)
      → is_usable b ≡ true
      → HasSizes b.config
      → IsValid m.node_state
      → IsValid (apply_config fpu b.config m).node_state
  unfolding apply_config describe_activation_rules
  apply_config-IsValid b m u h v = record {
    kernel = h.kernel;
    rules = h.rules;
    count = ground arith;
    binary = v.binary;
    kernel_counter = h.kernel_counter;
    activation_counter = h.activation_counter;
    value_counter = v.value_counter;
  }

  apply_config-same : (c : PersistedConfig) (m : Manager) → (apply_config fpu c m).stored ≡ m.stored
  unfolding apply_config describe_activation_rules
  apply_config-same c m = refl

  load_blob-IsSafe :
      (stored : Option Blob) (m : Manager)
      → IsStored stored
      → IsSafe m
      → IsSafe (load_blob fpu stored m).0
  load_blob-IsSafe none m h v = v
  load_blob-IsSafe (some b) m h v = elim (Bool-cases (is_usable b)) [
    | inr e ↦ rw e v
    | inl e ↦ rw e (record {
      state = apply_config-IsValid b m e h v.state;
      stored = rw (apply_config-same b.config m) v.stored;
    })
  ]

  load-IsSafe : (m : Manager) → IsSafe m → IsSafe (load_state_config fpu nvs m).0
  unfolding load_state_config
  load-IsSafe m v =
      if_elim (λ (r : Manager × Bool). IsSafe r.0) (nvs.open_ok && nvs.get_ok) _ _
        (load_blob-IsSafe m.stored m v.stored v) v

  save-IsSafe : (m : Manager) → IsSafe m → IsSafe (save_state_config nvs m).0
  save-IsSafe m v = record {
    state = rw (save-same nvs m) v.state;
    stored = save-IsStored nvs m v.state v.stored;
  }

  lit-IsSafe :
      (created : Bool) (m : Manager)
      → IsSafe m
      → IsSafe (update_led_color fpu (init_sensors (init_leds created m)))
  unfolding init_leds init_sensors update_led_color set_led_color
  lit-IsSafe created m v = ground (arith, v.state, v.stored)

  -- With nine random words for the weights, and whatever the flash store holds and whichever of its
  -- calls fail, `init_state` leaves a valid state, and a configuration with its sizes in the store.
  pub init_state-IsSafe :
      (created : Bool) (random : ℕ) (weights : List ℕ) (m : Manager)
      → length weights ≡ kernel_size
      → IsStored m.stored
      → IsSafe (init_state fpu nvs created random weights m)
  unfolding init_state
  init_state-IsSafe created random weights m size h =
      let fresh = record m {
        node_state = record zero_state {
          state = node_state_booting;
          value = random % 2;
          kernel = map (random_weight fpu) (take kernel_size weights);
        };
      } in
      let valid : IsSafe fresh = record {
        state = record {
          kernel = omega (
            arith,
            length-map (take kernel_size weights) (random_weight fpu),
            length-take kernel_size weights,
          );
          rules = refl;
          count = omega arith;
          binary = omega arith;
          kernel_counter = omega arith;
          activation_counter = omega arith;
          value_counter = omega arith;
        };
        stored = h;
      } in
      let loaded = load-IsSafe fresh valid in
      let saved =
        if_elim (λ (r : Manager). IsSafe r) (load_state_config fpu nvs fresh).1
          (load_state_config fpu nvs fresh).0
          (save_state_config nvs (load_state_config fpu nvs fresh).0).0 loaded
          (save-IsSafe (load_state_config fpu nvs fresh).0 loaded) in
      let lit = lit-IsSafe created _ saved in
      record {
        state = record {
          kernel = lit.state.kernel;
          rules = lit.state.rules;
          count = lit.state.count;
          binary = lit.state.binary;
          kernel_counter = lit.state.kernel_counter;
          activation_counter = lit.state.activation_counter;
          value_counter = lit.state.value_counter;
        };
        stored = lit.stored;
      }
