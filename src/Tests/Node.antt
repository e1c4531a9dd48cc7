-- ===== src/Tests/Node.antt =====
-- The theorems on a node and on two nodes that exchange messages, at the nodes `node_a` and
-- `node_c`.
use mesh_visualization.Prelude.{
  ◌%◌, drop, ◌≤◌, ◌≡◌, refl, ◌↔◌, ◌⊎◌, inl, false, some, [], ◌∷◌, arith, if◌then◌else◌, take, All,
  Bytes, bytes_eq,
}
use mesh_visualization.Prelude.Int.{◌≤ℤ◌}
use mesh_visualization.Config.{
  u32_mod, millis, protocol_version, msg_type_state_update, msg_type_command,
}
use mesh_visualization.Wire.{get_u32}
use mesh_visualization.Wire.Messages.{decode_header, decode_command}
use mesh_visualization.State.{Mac, Neighbor}
use mesh_visualization.Neighbors.{get_neighbor_count}
use mesh_visualization.Node.Listed.{told_of, AllActive, build_message_lem}
use mesh_visualization.Neighbors.Lookup.{lookup}
use mesh_visualization.Neighbors.Update.{IsFull}
use mesh_visualization.Node.{
  Node, build_message, p2p, local, towards_root, count_message, run_command,
  send_mesh_command_to_node, send_state_to_neighbors,
}
use mesh_visualization.Node.Receive.{
  mesh_receive, local_status_recv_callback, local_status, send_local_status_to_neighbors,
}
use mesh_visualization.Node.Commands.{altered, send_mesh_command_to_node_lem, mesh_receive-altered}
use mesh_visualization.Node.Exchange.{received, send_state_to_neighbors_lem}
use mesh_visualization.Node.Status.{Tells, send_local_status_to_neighbors_lem}
use mesh_visualization.Tests.{
  neighbor_b, off, mac_a, mac_b, mac_c, near, node_a, node_a-IsNode, node_c, node_c_table-IsValid,
  child, root, esp,
}

differ :
    (bytes_eq mac_b mac_a ≡ false) × (bytes_eq mac_a mac_c ≡ false) × (bytes_eq mac_c mac_a ≡ false)
unfolding bytes_eq
differ = (refl, refl, refl)

send_mesh_command_to_node_lem_example :
    (message : Bytes) × (send_mesh_command_to_node root mac_c 1 0 node_a
      ≡ (record node_a { message_sequence = 18 }, p2p mac_c message ∷ []))
    × (decode_command message ≡ record {
      version = protocol_version;
      msg_type = msg_type_command;
      target_mac = mac_c;
      command = 1;
      value = 0;
      sequence = 17;
    })
    × (mesh_receive child (some message) node_c
        ≡ (if bytes_eq mac_c mac_c then run_command child 1 node_c else (node_c, [])))
send_mesh_command_to_node_lem_example =
    send_mesh_command_to_node_lem root child mac_c 1 0 node_a node_c refl refl refl (omega arith)
      differ.2

send_state_to_neighbors_lem_example :
    (message : Bytes) × (send_state_to_neighbors child node_a
      ≡ (count_message node_a, towards_root (some mac_c) message ∷ []))
    × (decode_header message
        ≡ (protocol_version, msg_type_state_update, mac_a, node_a.manager.node_state))
    × ((get_u32 (drop 148 message)).0 ≡ 17 % u32_mod)
    × ((get_u32 (drop 152 message)).0 ≡ millis child.us % u32_mod)
    × (mesh_receive root (some message) node_c ≡ received root node_a message node_c)
send_state_to_neighbors_lem_example =
    send_state_to_neighbors_lem child root node_a node_c node_a-IsNode refl refl

send_local_status_to_neighbors_lem_example :
    (message : Bytes) × (send_local_status_to_neighbors esp node_a ≡ (node_a, local message ∷ []))
    × (((n : Neighbor) × (lookup mac_a
              (local_status_recv_callback child (some near) message node_c).neighbor_list
            ≡ some n)
          × Tells (local_status node_a) near 5000 n)
        ⊎ (IsFull node_c.neighbor_list × All (λ k. near ≤ℤ k.rssi) node_c.neighbor_list))
send_local_status_to_neighbors_lem_example =
    send_local_status_to_neighbors_lem esp child (some near) node_a node_c node_a-IsNode
      node_c_table-IsValid refl differ.1 refl

-- The seventh byte of a command: the first of its target.
abbrev before : Bytes
before = 1 ∷ 4 ∷ 2 ∷ 0 ∷ 0 ∷ 0 ∷ 0 ∷ []

abbrev after : Bytes
after = 1 ∷ 0 ∷ 0 ∷ 0 ∷ 44 ∷ 1 ∷ 0 ∷ 0 ∷ []

mesh_receive-altered_example :
    mesh_receive child
      (some (
        altered child node_c before after 0x0c 0x0a
          (omega arith)
          (omega arith)
          (λ e. absurd (omega arith))
          16))
      node_c
    ≡ (node_c, [])
mesh_receive-altered_example =
    mesh_receive-altered child node_c before after 0x0c 0x0a (omega arith) (omega arith)
      (λ e. absurd (omega arith)) 16 (inl refl) refl

-- The free slot stands in front.
abbrev node_gap : Node
node_gap = record node_a {
  neighbor_list = off ∷ neighbor_b ∷ off ∷ off ∷ off ∷ off ∷ off ∷ off ∷ [];
}

build_message_lem_example :
    let count = get_neighbor_count node_gap.neighbor_list in
    let neighbors = (build_message child node_gap).neighbors in
    let listed = get_neighbor_count neighbors in
    ((mac : Mac) → lookup mac neighbors ≡ told_of (lookup mac (take count node_gap.neighbor_list)))
    × (listed ≤ count)
    × ((listed ≡ count) ↔ AllActive (take count node_gap.neighbor_list))
build_message_lem_example = build_message_lem child node_gap
