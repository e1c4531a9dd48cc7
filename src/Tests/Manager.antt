-- ===== src/Tests/Manager.antt =====
-- The theorems on the node's state, at two nodes with different configurations.
use mesh_visualization.Prelude.{◌≡◌, refl, ◌↔◌, ◌⊎◌, true, false, some, [], ◌∷◌, arith}
use mesh_visualization.Manager.{Blob, save_state_config, load_state_config}
use mesh_visualization.Manager.Led.{
  state_of_value, brightness_of_value, set_state_value, set_led_highlight,
}
use mesh_visualization.Manager.Activation.{Reading, apply_activation_function, update_state}
use mesh_visualization.Manager.Adopt.{adopt_neighbor_rules}
use mesh_visualization.Manager.Merge.{Agree, adopt_neighbor_rules_twice, exchange-Agree}
use mesh_visualization.Manager.Persistence.{
  works, SameConfig, load-save, Usable, configured, load_state_config_iff,
}
use mesh_visualization.Manager.Sum.{partial_sum}
use mesh_visualization.Manager.Rules.{Decides, Shows, apply_activation_function_lem}
use mesh_visualization.Manager.Hold.{bit, update_state-set_state_value}
use mesh_visualization.Manager.Brightness.{red, updates, set_led_highlight_lem}
use mesh_visualization.Tests.{soft, table_a, manager_a, manager_b, flash}

exchange-Agree_example :
    let a = adopt_neighbor_rules soft flash 1 manager_b.node_state manager_a in
    Agree a.node_state (adopt_neighbor_rules soft flash 0 a.node_state manager_b).node_state
exchange-Agree_example =
    exchange-Agree soft flash flash 1 0 manager_a manager_b
      (record { kernel = λ e. absurd (omega arith); rules = λ e. absurd (omega arith) })
      (omega arith) (omega arith)

adopt_neighbor_rules_twice_example :
    let once = adopt_neighbor_rules soft flash 1 manager_b.node_state manager_a in
    adopt_neighbor_rules soft works 0 manager_b.node_state once ≡ once
adopt_neighbor_rules_twice_example =
    adopt_neighbor_rules_twice soft flash 1 manager_b.node_state works 0 manager_a

load-save_example :
    let (saved, ok) = save_state_config works manager_a in
    let (loaded, found) =
      load_state_config soft works (record manager_b { stored = saved.stored }) in
    (ok ≡ true) × (found ≡ true) × SameConfig loaded manager_a
load-save_example = load-save soft manager_a manager_b (omega arith) (omega arith) (λ e. cc)

load_state_config_iff_example :
    let r = load_state_config soft works manager_a in
    ((r.1 ≡ true) ↔ (
      (works.open_ok ≡ true)
      × (works.get_ok ≡ true)
      × ((b : Blob) × (manager_a.stored ≡ some b) × Usable b)))
    × (((r.1 ≡ false) × (r.0 ≡ manager_a))
        ⊎ ((b : Blob) × (manager_a.stored ≡ some b)
            × (r.1 ≡ true)
            × (r.0.node_state ≡ configured b.config manager_a.node_state)))
load_state_config_iff_example = load_state_config_iff soft works manager_a

apply_activation_function_lem_example :
    let s = manager_a.node_state in
    let t = (apply_activation_function soft table_a manager_a).node_state in
    let sum = partial_sum soft table_a s 9 in
    (t.activation_sum ≡ sum)
    × (((t.value ≡ 1) × Decides soft sum s) ⊎ ((t.value ≡ 0) × ¬ Decides soft sum s))
    × Shows soft s.temperature t.value t.state
apply_activation_function_lem_example = apply_activation_function_lem soft table_a manager_a refl

-- Two seconds after the button was pressed at the first second.
abbrev soon : Reading
soon = record { sensors_at = 3000; temperature_at = 3000; now = 3001; presence_level = 0 }

update_state-set_state_value_example :
    let t = (update_state soft soon table_a (set_state_value soft 1000 1 manager_a)).node_state in
    (t.value ≡ bit 1) × (t.state ≡ state_of_value (bit 1)) × (t.timestamp ≡ 3001)
update_state-set_state_value_example =
    update_state-set_state_value soft 1000 1 soon table_a manager_a (omega arith) (omega arith) refl

set_led_highlight_lem_example :
    let t = updates soft 3 (set_led_highlight soft true manager_a) in
    let u = set_led_highlight soft false t in
    let grey = soft.to_uint8 (brightness_of_value t.node_state.value) in
    (t.node_state.color ≡ red)
    × (t.pixel ≡ some red)
    × (u.node_state.color ≡ grey ∷ grey ∷ grey ∷ [])
    × (u.led_highlight_enabled ≡ false)
set_led_highlight_lem_example = set_led_highlight_lem soft 3 manager_a refl
