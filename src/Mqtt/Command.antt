-- ===== src/Mqtt/Command.antt =====
-- src/mqtt_handler.cpp: the commands that arrive by MQTT.
pub mod Valid
pub mod Targeted
pub mod EndToEnd
pub mod Ignored
pub mod Absent
pub mod Steps
pub mod Configured
use mesh_visualization.Prelude.{
  ℕ, Bool, true, false, not, ◌||◌, Option, none, some, List, [], ◌++◌, if◌then◌else◌, length, Bytes,
  codes, bytes_eq,
}
use mesh_visualization.Config.{kernel_size, add32}
use mesh_visualization.Floats.{FloatUnit, float_zero}
use mesh_visualization.State.{Mac}
use mesh_visualization.Manager.{Manager, Nvs, set_kernel_values, set_activation_rules, load_preset}
use mesh_visualization.Manager.Led.{reset_state_value}
use mesh_visualization.Node.{
  Node, World, Send, send_mesh_toggle_command, send_mesh_highlight_command, broadcast_state,
}
use mesh_visualization.Node.Receive.{EspNow, send_local_status_to_neighbors}
use mesh_visualization.Text.{◌>>=◌, c_string}
use mesh_visualization.Mqtt.Fields.{
  parse_string_field, parse_mac_string, parse_number_field, parse_bool_field,
  parse_float_array_field, parse_activations_field,
}

-- What the surroundings answer while a command is handled: also the routing table as
-- `broadcast_state` reads it, and whether the copy of the text could be allocated.
pub record Host : Type 0 where
  pub world : World
  pub routing : Option (List Mac)
  pub esp : EspNow
  pub allocated : Bool

-- What handling a command hands out; the last is the call of `mqtt_publish_topology_and_state`.
pub record Handled : Type 0 where
  pub node : Node
  pub sends : List Send
  pub published : Bool

abbrev pub is_text : Bytes → Option Bytes → Bool
is_text text none = false
is_text text (some read) = bytes_eq read text

unfoldable pub target_of : Bytes → Option Mac
unfolding parse_string_field parse_mac_string
target_of json = do text ← parse_string_field json (codes "target_mac") 18; parse_mac_string text

-- The part of the handler that configures the node: each step with whether it changes the
-- configuration.
abbrev Change : Type 0
Change = Manager × Bool

module _ (fpu : FloatUnit) (nvs : Nvs) (json : Bytes) where
  unfoldable pub change_preset : Change → Change
  unfolding parse_string_field
  change_preset (m, changed) = elim (parse_string_field json (codes "preset") 32) [
    | none ↦ (m, changed)
    | some preset ↦ let (loaded, ok) = load_preset fpu nvs preset m in (loaded, ok || changed)
  ]

  unfoldable pub change_kernel : Change → Change
  unfolding parse_float_array_field
  change_kernel (m, changed) =
      elim (parse_float_array_field fpu json (codes "kernel") kernel_size) [
        | none ↦ (m, changed)
        | some kernel ↦ (set_kernel_values nvs kernel m, true)
      ]

  unfoldable pub change_rules : Change → Change
  unfolding parse_activations_field
  change_rules (m, changed) = elim (parse_activations_field fpu json) [
    | none ↦ (m, changed)
    | some rules ↦
        let (set, ok) = set_activation_rules fpu nvs rules (length rules) m in (set, ok || changed)
  ]

  abbrev pub write_value : ℕ → Manager → Manager
  write_value value m = record m {
    node_state = record (m.node_state) {
      value = if fpu.eq value float_zero then 0 else 1;
      value_sequence = add32 m.node_state.value_sequence 1;
    };
  }

  unfoldable pub change_value : Change → Change
  unfolding parse_number_field
  change_value (m, changed) = elim (parse_number_field fpu json (codes "value")) [
    | none ↦ (m, changed)
    | some value ↦ (write_value value m, changed)
  ]

  unfoldable pub change_reset : ℕ → Change → Change
  unfolding parse_bool_field
  change_reset random (m, changed) =
      if parse_bool_field json (codes "reset")
      then (reset_state_value random m, true)
      else (m, changed)

  unfoldable pub configure : ℕ → Manager → Change
  unfolding change_preset change_kernel change_rules change_value change_reset
  configure random m =
      change_reset random (change_value (change_rules (change_kernel (change_preset (m, false)))))

-- The end of the handler, for a changed configuration.
unfoldable pub announce : Host → Node → Handled
announce h n =
    let (counted, messages) = broadcast_state h.world h.routing n in
    let (ready, status) = send_local_status_to_neighbors h.esp counted in
    record { node = ready; sends = messages ++ status; published = true }

unfoldable pub configure_node : Host → Bytes → Node → Handled
unfolding configure announce
configure_node h json n =
    let (m, changed) = configure h.world.fpu h.world.nvs json h.world.random n.manager in
    if changed
    then announce h (record n { manager = m })
    else record { node = record n { manager = m }; sends = []; published = false }

abbrev pub sent : Node × List Send → Handled
sent (n, sends) = record { node = n; sends = sends; published = false }

-- A command for the node `target`, if the text is one.
unfoldable pub command_to : Host → Bytes → Mac → Node → Handled
unfolding configure_node parse_string_field parse_bool_field
command_to h json target n =
    let command = parse_string_field json (codes "command") 32 in
    if is_text (codes "toggle") command
    then sent (send_mesh_toggle_command h.world target n)
    else if is_text (codes "highlight") command
    then sent
        (send_mesh_highlight_command h.world target (parse_bool_field json (codes "enabled")) n)
    else if parse_bool_field json (codes "toggle")
    then sent (send_mesh_toggle_command h.world target n)
    else configure_node h json n

-- `handle_mqtt_command`.
unfoldable pub handle_mqtt_command : Host → Bytes → Node → Handled
unfolding c_string target_of command_to configure_node
handle_mqtt_command h payload n =
    let json = c_string payload in
    if not h.allocated
    then record { node = n; sends = []; published = false }
    else elim (target_of json) [
      | none ↦ configure_node h json n
      | some target ↦ command_to h json target n
    ]
