-- ===== src/Node/Exchange.antt =====
-- src/mesh_node.cpp: what a state that one node sends does at the node that receives it.
use mesh_visualization.Prelude.{
  ℕ, zero, suc, ◌≡◌, refl, ap, ◌∙◌, inl, inr, true, false, some, List, [], ◌∷◌, arith,
  if◌then◌else◌, Bool-cases, length, drop, ◌%◌, All, Bytes,
}
use mesh_visualization.Config.{
  max_neighbors, u32_mod, millis, protocol_version, msg_type_state_update,
}
use mesh_visualization.State.{zero_state, Neighbor}
use mesh_visualization.Neighbors.{Table, empty_neighbor, get_neighbor_count}
use mesh_visualization.Manager.Adopt.{adopt_neighbor_rules}
use mesh_visualization.Wire.Messages.{encode_message, decode_header}
use mesh_visualization.Wire.{get_u32}
use mesh_visualization.Wire.RoundTrip.{IsMac, IsState}
use mesh_visualization.Wire.Sizes.{
  IsNeighbor, IsMessage, decode_header-encode_message, encode_message-sequence,
  encode_message-mesh_timestamp,
}
use mesh_visualization.Node.{
  Node, World, Send, publish, towards_root, copied_neighbor, copy_neighbors, build_message,
  send_state_to_neighbors, count_message, forward_to_visualization,
}
use mesh_visualization.Node.Receive.{mesh_receive, receive_message, neighbor_bytes}

length-copy_neighbors : (k : ℕ) (ns : Table) → length (copy_neighbors k ns) ≡ length ns
unfolding copy_neighbors
length-copy_neighbors k [] = refl
length-copy_neighbors zero (n ∷ ns) = ap suc (length-copy_neighbors zero ns)
length-copy_neighbors (suc k) (n ∷ ns) = ap suc (length-copy_neighbors k ns)

zero-IsState : IsState zero_state
zero-IsState = record {
  color = refl;
  temperature = omega arith;
  mmwave_distance = omega arith;
  timestamp = omega arith;
  kernel_sequence = omega arith;
  value_sequence = omega arith;
  activation_sequence = omega arith;
  kernel_length = refl;
  kernel = ground arith;
  rules_length = refl;
  rules = ground arith;
  activation_sum = omega arith;
}

empty-IsNeighbor : IsNeighbor empty_neighbor
unfolding empty_neighbor
empty-IsNeighbor = record { mac = refl; ip = refl; state = zero-IsState }

copied-IsNeighbor : (n : Neighbor) → IsMac n.mac → IsNeighbor (copied_neighbor n)
unfolding empty_neighbor
copied-IsNeighbor n h = elim (Bool-cases n.active) [
  | inl e ↦ rw e (record { mac = h; ip = refl; state = zero-IsState })
  | inr e ↦ rw e empty-IsNeighbor
]

copy_neighbors-IsNeighbor :
    (k : ℕ) (ns : Table) → All (λ n. IsMac n.mac) ns → All IsNeighbor (copy_neighbors k ns)
unfolding copy_neighbors
copy_neighbors-IsNeighbor k [] h = tt
copy_neighbors-IsNeighbor zero (n ∷ ns) h =
    (empty-IsNeighbor, copy_neighbors-IsNeighbor zero ns h.1)
copy_neighbors-IsNeighbor (suc k) (n ∷ ns) h =
    (copied-IsNeighbor n h.0, copy_neighbors-IsNeighbor k ns h.1)

-- The variables of a node have the sizes and ranges of their C types.
pub record IsNode (n : Node) : Type 0 where
  pub mac : IsMac n.node_mac
  pub state : IsState n.manager.node_state
  pub size : length n.neighbor_list ≡ max_neighbors
  pub macs : All (λ k. IsMac k.mac) n.neighbor_list

build_message-IsMessage : (w : World) (n : Node) → IsNode n → IsMessage (build_message w n)
unfolding build_message
build_message-IsMessage w n h = record {
  mac = h.mac;
  state = h.state;
  neighbors_length =
      length-copy_neighbors (get_neighbor_count n.neighbor_list) n.neighbor_list ∙ h.size;
  neighbors = copy_neighbors-IsNeighbor (get_neighbor_count n.neighbor_list) n.neighbor_list h.macs;
}

-- What a receiver does with the message of the node `from`: it adopts the state; the root also
-- publishes the state under the sender's address and forwards the message.
abbrev pub received : World → Node → Bytes → Node → Node × List Send
received w from message n = (
  record n {
    manager = adopt_neighbor_rules w.fpu w.nvs w.random from.manager.node_state n.manager;
  },
  if w.is_root
      then publish from.node_mac from.manager.node_state (neighbor_bytes message)
        ∷ forward_to_visualization message n
      else [],
)

-- A node of the mesh that is not the root, and whose variables have the sizes and ranges of their
-- C types, sends one message towards the root. Its header holds the version, the type of a state
-- update, the node's address and its whole state; at the bytes 148 and 152 stand, as 32-bit words,
-- the node's count of messages and the milliseconds since its start. Whoever receives the message
-- adopts exactly the state that was sent.
pub send_state_to_neighbors_lem :
    (w u : World) (from to : Node)
    → IsNode from
    → from.mesh_initialized ≡ true
    → w.is_root ≡ false
    → (message : Bytes) × (send_state_to_neighbors w from
        ≡ (count_message from, towards_root from.current_root_addr message ∷ []))
      × (decode_header message
          ≡ (protocol_version, msg_type_state_update, from.node_mac, from.manager.node_state))
      × ((get_u32 (drop 148 message)).0 ≡ from.message_sequence % u32_mod)
      × ((get_u32 (drop 152 message)).0 ≡ millis w.us % u32_mod)
      × (mesh_receive u (some message) to ≡ received u from message to)
unfolding send_state_to_neighbors mesh_receive receive_message
send_state_to_neighbors_lem w u from to h up root =
    let m = build_message w from in
    let right = build_message-IsMessage w from h in
    let (size, sum, header) = decode_header-encode_message m right in
    (
      encode_message m,
      rw (up, root) refl,
      header ∙ unfold build_message in refl,
      encode_message-sequence m right ∙ unfold build_message in refl,
      encode_message-mesh_timestamp m right ∙ unfold build_message in refl,
      rw (size, receive_message, sum, header) (unfold build_message in refl),
    )
