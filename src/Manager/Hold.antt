-- ===== src/Manager/Hold.antt =====
-- src/state_manager.cpp: a value that is set by hand stays for COMMAND_VALUE_HOLD_MS.
use mesh_visualization.Prelude.{ℕ, ◌+◌, ◌≤◌, ◌<◌, ◌≡◌, true, arith, ◌==◌, if◌then◌else◌}
use mesh_visualization.Config.{command_value_hold_ms, u32_mod, add32}
use mesh_visualization.Floats.{FloatUnit}
use mesh_visualization.Neighbors.{Table}
use mesh_visualization.Manager.{Manager}
use mesh_visualization.Manager.Led.{
  state_of_value, set_state_value, update_led_color, set_led_color,
}
use mesh_visualization.Manager.Activation.{
  Reading, read_sensors, store_temperature, read_temperature, apply_activation_function,
  update_state,
}

abbrev pub bit : ℕ → ℕ
bit value = if value == 0 then 0 else 1

-- What reading the sensors leaves alone.
read_sensors-keeps :
    (fpu : FloatUnit) (r : Reading) (m : Manager)
    → let t = read_sensors fpu r m in
      (t.node_state.value ≡ m.node_state.value)
      × (t.node_state.value_sequence ≡ m.node_state.value_sequence)
      × (t.manual_value_hold_until_ms ≡ m.manual_value_hold_until_ms)
      × (t.sensors_initialized ≡ m.sensors_initialized)
unfolding read_sensors store_temperature read_temperature
read_sensors-keeps fpu r m = (ground arith, ground arith, ground arith, ground arith)

module _ (fpu : FloatUnit) (now value : ℕ) (r : Reading) (ns : Table) (m : Manager) where
  abbrev set_by_hand : Manager
  set_by_hand = set_state_value fpu now value m

  set_by_hand-value :
      (set_by_hand.node_state.value ≡ bit value)
      × (set_by_hand.node_state.value_sequence ≡ add32 m.node_state.value_sequence 1)
      × (set_by_hand.manual_value_hold_until_ms ≡ add32 now command_value_hold_ms)
      × (set_by_hand.sensors_initialized ≡ m.sensors_initialized)
  unfolding set_state_value update_led_color set_led_color
  set_by_hand-value = (ground arith, ground arith, ground arith, ground arith)

  -- With the sensors initialised, and as long as the end of the hold does not pass 2^32
  -- milliseconds, an update less than COMMAND_VALUE_HOLD_MS after `set_state_value` keeps the
  -- value that was set, whatever the neighbors and the rules say, and the state is that of the
  -- value.
  pub update_state-set_state_value :
      now + command_value_hold_ms < u32_mod
      → r.now < now + command_value_hold_ms
      → m.sensors_initialized ≡ true
      → let t = (update_state fpu r ns (set_state_value fpu now value m)).node_state in
        (t.value ≡ bit value) × (t.state ≡ state_of_value (bit value)) × (t.timestamp ≡ r.now)
  unfolding update_state
  update_state-set_state_value w h i =
      let k = set_by_hand-value in
      let q = read_sensors-keeps fpu r set_by_hand in
      (
        ground (arith, k.0, k.2, k.3, q.0, q.2),
        ground (arith, k.0, k.2, k.3, q.0, q.2),
        ground (arith, k.2, k.3, q.2),
      )

  -- With the sensors initialised, an update at or after the end of the hold, as 32 bits hold that
  -- end, decides the value by the activation rules again.
  update_state_after_hold :
      add32 now command_value_hold_ms ≤ r.now
      → m.sensors_initialized ≡ true
      → let read = read_sensors fpu r (set_state_value fpu now value m) in
        (update_state fpu r ns (set_state_value fpu now value m)).node_state.value
        ≡ (apply_activation_function fpu ns
            (record read { manual_value_hold_until_ms = 0 })).node_state.value
  unfolding update_state
  update_state_after_hold h i =
      let k = set_by_hand-value in
      let q = read_sensors-keeps fpu r set_by_hand in ground (arith, k.2, k.3, q.2)
