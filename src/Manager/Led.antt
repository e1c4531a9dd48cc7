-- ===== src/Manager/Led.antt =====
-- src/state_manager.cpp: the LED, and the operations that set the node's value by hand.
use mesh_visualization.Prelude.{
  ℕ, ◌%◌, Bool, true, false, some, [], ◌∷◌, ◌==◌, if◌then◌else◌, replicate,
}
use mesh_visualization.Config.{node_state_active, node_state_idle, command_value_hold_ms, add32}
use mesh_visualization.Floats.{FloatUnit, float_zero, float_255, transition_speed}
use mesh_visualization.Manager.{Manager}

-- `node_state.value ? NODE_STATE_ACTIVE : NODE_STATE_IDLE`.
abbrev pub state_of_value : ℕ → ℕ
state_of_value value = if value == 0 then node_state_idle else node_state_active

-- `node_state.value ? 255.0f : 0.0f`.
abbrev pub brightness_of_value : ℕ → ℕ
brightness_of_value value = if value == 0 then float_zero else float_255

-- `init_leds`, given whether the strip could be created; it is then cleared.
unfoldable pub init_leds : Bool → Manager → Manager
init_leds created m =
    if created
    then record m { led_strip = true; pixel = some (replicate 3 0) }
    else record m { led_strip = false }

unfoldable pub set_led_color : ℕ → ℕ → ℕ → Manager → Manager
set_led_color r g b m =
    let color = r ∷ g ∷ b ∷ [] in
    record m {
      node_state = record (m.node_state) { color = color };
      pixel = if m.led_strip then some color else m.pixel;
    }

module _ (fpu : FloatUnit) where
  -- `CLAMP(x, 0.0f, 255.0f)`.
  abbrev clamp_brightness : ℕ → ℕ
  clamp_brightness x =
      if fpu.lt float_255 x then float_255 else (if fpu.lt x float_zero then float_zero else x)

  -- One step of the fade towards the value, in double precision.
  abbrev faded : ℕ → ℕ → ℕ
  faded brightness value =
      let target = brightness_of_value value in
      fpu.narrow (
        fpu.add_double (fpu.widen brightness)
          (fpu.mul_double (fpu.widen (fpu.sub target brightness)) transition_speed))

  unfoldable pub update_led_color : Manager → Manager
  unfolding set_led_color
  update_led_color m =
      let brightness = clamp_brightness (faded m.current_brightness m.node_state.value) in
      let smoothed = fpu.to_uint8 brightness in
      if m.led_highlight_enabled
      then set_led_color 255 0 0 (record m { current_brightness = float_255 })
      else set_led_color smoothed smoothed smoothed (record m { current_brightness = brightness })

  unfoldable pub set_led_highlight : Bool → Manager → Manager
  unfolding set_led_color
  set_led_highlight enabled m =
      let brightness = brightness_of_value m.node_state.value in
      let restored = fpu.to_uint8 brightness in
      if enabled
      then set_led_color 255 0 0
          (record m { led_highlight_enabled = true; current_brightness = float_255 })
      else set_led_color restored restored restored
          (record m { led_highlight_enabled = false; current_brightness = brightness })

  -- `set_state_value` at a time in milliseconds.
  unfoldable pub set_state_value : ℕ → ℕ → Manager → Manager
  unfolding update_led_color
  set_state_value now value m =
      let v : ℕ = if value == 0 then 0 else 1 in
      update_led_color (record m {
        node_state = record (m.node_state) {
          value = v;
          value_sequence = add32 m.node_state.value_sequence 1;
          state = state_of_value v;
        };
        manual_value_hold_until_ms = add32 now command_value_hold_ms;
      })

  unfoldable pub toggle_state_value : ℕ → Manager → Manager
  unfolding set_state_value
  toggle_state_value now m = set_state_value now (if m.node_state.value == 0 then 1 else 0) m

-- `reset_state_value`, given what `esp_random` returns.
unfoldable pub reset_state_value : ℕ → Manager → Manager
reset_state_value random m = record m {
  node_state = record (m.node_state) {
    value = random % 2;
    value_sequence = add32 m.node_state.value_sequence 1;
    state = state_of_value (random % 2);
  };
}
