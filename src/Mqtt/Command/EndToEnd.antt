-- ===== src/Mqtt/Command/EndToEnd.antt =====
-- src/mqtt_handler.cpp and src/mesh_node.cpp: a toggle command on its way from the broker over the
-- root to its target.
use mesh_visualization.Prelude.{
  ◌<◌, ◌≡◌, ap, ◌∙◌, true, false, some, [], ◌∷◌, if◌then◌else◌, All, Bytes, bytes_eq,
}
use mesh_visualization.Config.{u32_mod, mesh_command_toggle_value, millis}
use mesh_visualization.State.{Mac}
use mesh_visualization.Manager.Led.{toggle_state_value}
use mesh_visualization.Wire.RoundTrip.{IsMac}
use mesh_visualization.Node.{
  Node, World, p2p, count_message, run_command, send_mesh_toggle_command, send_state_to_neighbors,
}
use mesh_visualization.Node.Receive.{mesh_receive}
use mesh_visualization.Node.Commands.{send_mesh_command_to_node_lem}
use mesh_visualization.Mqtt.Fields.Address.{IsByte}
use mesh_visualization.Mqtt.Command.{Host, sent, handle_mqtt_command}
use mesh_visualization.Mqtt.Command.Targeted.{toggle_command, handle_mqtt_command_targeted}

-- The initialised root of the mesh, with a 32-bit sequence number, that gets the toggle command of
-- the visualization for the address of another node, of six bytes, and can allocate a copy of its
-- text, sends one message to that address and changes nothing else but its sequence number. A node
-- that receives the message toggles its value by hand and sends its state on if it has the
-- address, and ignores the message if it has another.
pub toggle_command_lem :
    (h : Host) (u : World) (mac : Mac) (tail : Bytes) (root node : Node)
    → h.allocated ≡ true
    → root.mesh_initialized ≡ true
    → h.world.is_root ≡ true
    → IsMac mac
    → All IsByte mac
    → root.message_sequence < u32_mod
    → bytes_eq mac root.node_mac ≡ false
    → (message : Bytes) × (handle_mqtt_command h (toggle_command mac tail) root
        ≡ sent (count_message root, p2p mac message ∷ []))
      × (mesh_receive u (some message) node ≡ (
          if bytes_eq mac node.node_mac
          then send_state_to_neighbors u
              (record node { manager = toggle_state_value u.fpu (millis u.us) node.manager })
          else (node, [])))
unfolding send_mesh_toggle_command run_command
toggle_command_lem h u mac tail root node allocated up is_root six bytes word other =
    let (message, out, read, into) =
      send_mesh_command_to_node_lem h.world u mac mesh_command_toggle_value 0 root node up is_root
        six word other in
    (
      message,
      (handle_mqtt_command_targeted h mac true tail root allocated six bytes).0 ∙ ap sent out,
      into,
    )
