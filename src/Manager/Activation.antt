-- ===== src/Manager/Activation.antt =====
-- src/state_manager.cpp: the sensors, the activation kernel, and the update of the node's state.
use mesh_visualization.Prelude.{
  ℕ, ◌-◌, ◌%◌, Bool, true, false, not, ◌&&◌, ◌||◌, List, [], ◌∷◌, ◌++◌, map, ltb, leb, ◌==◌,
  if◌then◌else◌, modify, take,
}
use mesh_visualization.Prelude.Int.{ℤ, pos, ◌-ℤ◌}
use mesh_visualization.Config.{
  kernel_size, node_state_booting, node_state_error, temp_read_interval_ms, sub32,
}
use mesh_visualization.Floats.{
  FloatUnit, float_zero, float_one, float_half, float_25, float_30, float_80, float_10000,
  float_tolerance, temperature_scale,
}
use mesh_visualization.State.{NodeState, ActivationRule, zero_state}
use mesh_visualization.Neighbors.{Table, fill_neighbor_values}
use mesh_visualization.Manager.{Manager, Nvs, save_state_config, load_state_config}
use mesh_visualization.Manager.Led.{init_leds, update_led_color, state_of_value}

unfoldable pub init_sensors : Manager → Manager
init_sensors m = record m { sensors_initialized = true }

-- What the hardware shows during one update: the clock in milliseconds at its three reads, and the
-- level of the presence pin.
pub record Reading : Type 0 where
  pub sensors_at : ℕ
  pub temperature_at : ℕ
  pub now : ℕ
  pub presence_level : ℕ

module _ (fpu : FloatUnit) where
  -- `read_temperature`, a simulation that climbs by half a degree every ten seconds.
  unfoldable pub read_temperature : ℕ → Manager → Manager × ℕ
  read_temperature now m =
      let warmer = fpu.add m.simulated_temp float_half in
      let next = if fpu.lt float_30 warmer then float_25 else warmer in
      if ltb 10000 (sub32 now m.last_temp_update)
      then (record m { last_temp_update = now; simulated_temp = next }, next)
      else (m, m.simulated_temp)

  -- `(int16_t)(read_temperature() * TEMPERATURE_SCALE)`.
  unfoldable pub store_temperature : ℕ → ℕ → Manager → Manager
  unfolding read_temperature
  store_temperature sensors_at temperature_at m =
      let (after, temp) = read_temperature temperature_at m in
      record after {
        last_temp_read_ms = sensors_at;
        node_state = record (after.node_state) {
          temperature = fpu.double_to_int16 (fpu.mul_double (fpu.widen temp) temperature_scale);
        };
      }

  -- `read_sensors`.
  unfoldable pub read_sensors : Reading → Manager → Manager
  unfolding store_temperature
  read_sensors r m =
      let due = leb temp_read_interval_ms (sub32 r.sensors_at m.last_temp_read_ms) in
      let warm = if due then store_temperature r.sensors_at r.temperature_at m else m in
      if not m.sensors_initialized then m else record warm {
        node_state = record (warm.node_state) {
          mmwave_presence = if r.presence_level == 1 then 1 else 0;
          mmwave_distance = 0;
          timestamp = r.sensors_at;
        };
      }

  -- The nine inputs: the neighbors' values, the first replaced where someone is present, and the
  -- node's own.
  abbrev set_presence : ℕ → List ℕ → List ℕ
  set_presence presence inputs = if presence == 0 then inputs else modify inputs 0 (λ _. float_one)

  unfoldable pub kernel_inputs : Table → NodeState → List ℕ
  unfolding fill_neighbor_values
  kernel_inputs ns s =
      set_presence s.mmwave_presence (fill_neighbor_values ns (kernel_size - 1))
      ++ fpu.of_int (pos s.value) ∷ []

  -- The weighted sum, added up from the first element.
  unfoldable pub kernel_sum : ℕ → List ℕ → List ℕ → ℕ
  kernel_sum sum [] inputs = sum
  kernel_sum sum (k ∷ ks) [] = sum
  kernel_sum sum (k ∷ ks) (x ∷ xs) = kernel_sum (fpu.add sum (fpu.mul k x)) ks xs

  -- One rule of the `switch`.
  unfoldable pub rule_fires : ℕ → ActivationRule → Bool
  rule_fires sum r =
      if r.op == 0
      then fpu.lt sum r.value
      else (if r.op == 1
          then fpu.le sum r.value
          else (if r.op == 2
              then fpu.lt (fpu.abs (fpu.sub sum r.value)) float_tolerance
              else (if r.op == 3
                  then fpu.le r.value sum
                  else (if r.op == 4 then fpu.lt r.value sum else false))))

  -- The loop ends at the first rule that fires.
  unfoldable pub any_rule : ℕ → List ActivationRule → Bool
  unfolding rule_fires
  any_rule sum [] = false
  any_rule sum (r ∷ rs) = rule_fires sum r || any_rule sum rs

  unfoldable pub next_value : ℕ → NodeState → Bool
  unfolding any_rule
  next_value sum s =
      if s.activation_count == 0
      then fpu.lt float_zero sum
      else any_rule sum (take s.activation_count s.activations)

  -- The test for a high temperature, in degrees.
  abbrev pub is_hot : ℤ → Bool
  is_hot temperature =
      fpu.lt float_80
        (fpu.narrow (fpu.div_double (fpu.double_of_int temperature) temperature_scale))

  -- `apply_activation_function`.
  unfoldable pub apply_activation_function : Table → Manager → Manager
  unfolding kernel_inputs kernel_sum next_value
  apply_activation_function ns m =
      let s = m.node_state in
      let sum = kernel_sum float_zero s.kernel (kernel_inputs ns s) in
      let v : ℕ = if next_value sum s then 1 else 0 in
      record m {
        node_state = record s {
          activation_sum = sum;
          value = v;
          state = if is_hot s.temperature then node_state_error else state_of_value v;
        };
      }

  -- `update_state`.
  unfoldable pub update_state : Reading → Table → Manager → Manager
  update_state r ns m =
      let read = read_sensors r m in
      let applied = apply_activation_function ns (record read { manual_value_hold_until_ms = 0 }) in
      if not m.sensors_initialized
      then m
      else (if not (read.manual_value_hold_until_ms == 0)
            && ltb r.now read.manual_value_hold_until_ms
          then record read {
            node_state = record (read.node_state) {
              state = state_of_value read.node_state.value;
              timestamp = r.now;
            };
          }
          else record applied { node_state = record (applied.node_state) { timestamp = r.now } })

  -- `((int32_t)(esp_random() % 20001) - 10000) / 10000.0f`.
  abbrev pub random_weight : ℕ → ℕ
  random_weight random = fpu.div (fpu.of_int (pos (random % 20001) -ℤ pos 10000)) float_10000

  -- `init_state`, given the random numbers for the value and for the kernel.
  unfoldable pub init_state : Nvs → Bool → ℕ → List ℕ → Manager → Manager
  unfolding save_state_config load_state_config init_leds init_sensors update_led_color
  init_state nvs led_created random weights m =
      let fresh = record m {
        node_state = record zero_state {
          state = node_state_booting;
          value = random % 2;
          kernel = map random_weight (take kernel_size weights);
        };
      } in
      let (loaded, ok) = load_state_config fpu nvs fresh in
      let saved = if ok then loaded else (save_state_config nvs loaded).0 in
      let ready = update_led_color fpu (init_sensors (init_leds led_created saved)) in
      record ready {
        node_state = record (ready.node_state) { state = state_of_value ready.node_state.value };
      }
