-- ===== src/Node.antt =====
-- src/mesh_node.cpp: the variables of a node and the messages that it sends and receives. What the
-- libraries answer is an argument, and what is handed to them is a list of sends.
pub mod Receive
pub mod Commands
pub mod Exchange
pub mod Status
pub mod Decoded
pub mod Listed
pub mod Invariant
use mesh_visualization.Prelude.{
  ℕ, zero, suc, Bool, true, false, not, ◌||◌, Option, none, some, List, [], ◌∷◌, ◌==◌,
  if◌then◌else◌, get_or, Bytes, bytes_eq,
}
use mesh_visualization.Config.{
  protocol_version, msg_type_state_update, msg_type_command, mesh_command_toggle_value,
  mesh_command_highlight_on, mesh_command_highlight_off, add32, millis,
}
use mesh_visualization.Floats.{FloatUnit}
use mesh_visualization.State.{Mac, NodeState, Neighbor}
use mesh_visualization.Neighbors.{Table, empty_neighbor, get_neighbor_count}
use mesh_visualization.Manager.{Manager, Nvs}
use mesh_visualization.Manager.Led.{toggle_state_value, set_led_highlight}
use mesh_visualization.Wire.Messages.{Command, encode_command, MeshMessage, encode_message}
use mesh_visualization.Udp.{prepare_udp_message}

pub record Node : Type 0 where
  pub node_mac : Mac
  pub manager : Manager
  pub neighbor_list : Table
  pub message_sequence : ℕ
  pub mesh_initialized : Bool
  pub current_root_addr : Option Mac
  pub local_status_initialized : Bool
  -- `udp_socket >= 0`
  pub udp_open : Bool

-- What the surroundings answer during one call: the time in microseconds, whether the node is the
-- root, a random word, and the results of the flash store.
pub record World : Type 0 where
  pub fpu : FloatUnit
  pub nvs : Nvs
  pub random : ℕ
  pub us : ℕ
  pub is_root : Bool

pub data Send : Type 0 where
  -- `esp_mesh_send` to an address, and towards the root without one
  p2p : Mac → Bytes → Send
  to_ds : Bytes → Send
  -- `esp_now_send` to the broadcast address
  local : Bytes → Send
  -- `sendto` of the visualization server
  datagram : Bytes → Send
  -- `mqtt_publish_node_state_with_neighbors` of an address and a state; the neighbors follow as
  -- they lie in the message
  publish : Mac → NodeState → Bytes → Send

-- The loop over the first `copy_count` slots; the rest of `msg.neighbors` is cleared.
abbrev pub copied_neighbor : Neighbor → Neighbor
copied_neighbor n =
    if n.active
    then record empty_neighbor {
      mac = n.mac;
      rssi = n.rssi;
      last_seen = n.last_seen;
      active = true;
    }
    else empty_neighbor

unfoldable pub copy_neighbors : ℕ → Table → List Neighbor
copy_neighbors k [] = []
copy_neighbors zero (n ∷ ns) = empty_neighbor ∷ copy_neighbors zero ns
copy_neighbors (suc k) (n ∷ ns) = copied_neighbor n ∷ copy_neighbors k ns

-- `copy_count` is the number of active neighbors, which is at most MAX_NEIGHBORS.
unfoldable pub build_message : World → Node → MeshMessage
unfolding copy_neighbors
build_message w n = record {
  version = protocol_version;
  msg_type = msg_type_state_update;
  mac = n.node_mac;
  state = n.manager.node_state;
  sequence = n.message_sequence;
  mesh_timestamp = millis w.us;
  neighbors = copy_neighbors (get_neighbor_count n.neighbor_list) n.neighbor_list;
}

abbrev pub count_message : Node → Node
count_message n = record n { message_sequence = add32 n.message_sequence 1 }

abbrev pub towards_root : Option Mac → Bytes → Send
towards_root none message = to_ds message
towards_root (some root) message = p2p root message

-- `send_state_to_neighbors`.
unfoldable pub send_state_to_neighbors : World → Node → Node × List Send
send_state_to_neighbors w n =
    let message = encode_message (build_message w n) in
    if not n.mesh_initialized
    then (n, [])
    else if w.is_root
    then (count_message n, [])
    else (count_message n, towards_root n.current_root_addr message ∷ [])

-- The loop over the routes, without the node's own address.
send_routes : Mac → Bytes → List Mac → List Send
send_routes own message [] = []
send_routes own message (route ∷ routes) =
    let rest = send_routes own message routes in
    if bytes_eq route own then rest else p2p route message ∷ rest

-- `broadcast_state`, given the routes, if the table has a size and could be allocated and read.
unfoldable pub broadcast_state : World → Option (List Mac) → Node → Node × List Send
unfolding send_routes
broadcast_state w routing n =
    let message = encode_message (build_message w n) in
    if not n.mesh_initialized
    then (n, [])
    else if not w.is_root
    then send_state_to_neighbors w n
    else (
      count_message n,
      elim routing [ none ↦ [] | some routes ↦ send_routes n.node_mac message routes ],
    )

-- The `switch` of `apply_mesh_command` and of `send_mesh_command_to_node`, which are the same.
unfoldable pub run_command : World → ℕ → Node → Node × List Send
run_command w command n =
    let toggled = record n { manager = toggle_state_value w.fpu (millis w.us) n.manager } in
    if command == mesh_command_toggle_value
    then send_state_to_neighbors w toggled
    else if command == mesh_command_highlight_on
    then (record n { manager = set_led_highlight w.fpu true n.manager }, [])
    else if command == mesh_command_highlight_off
    then (record n { manager = set_led_highlight w.fpu false n.manager }, [])
    else (n, [])

-- `apply_mesh_command`.
unfoldable pub apply_mesh_command : World → Command → Node → Node × List Send
apply_mesh_command w c n =
    if bytes_eq c.target_mac n.node_mac then run_command w c.command n else (n, [])

unfoldable pub build_command : Mac → ℕ → ℕ → Node → Command
build_command target command value n = record {
  version = protocol_version;
  msg_type = msg_type_command;
  target_mac = target;
  command = command;
  value = value;
  sequence = n.message_sequence;
}

-- `send_mesh_command_to_node`.
unfoldable pub send_mesh_command_to_node : World → Mac → ℕ → ℕ → Node → Node × List Send
send_mesh_command_to_node w target command value n =
    if bytes_eq target n.node_mac
    then run_command w command n
    else if not n.mesh_initialized || not w.is_root
    then (n, [])
    else (count_message n, p2p target (encode_command (build_command target command value n)) ∷ [])

-- `send_mesh_toggle_command`.
unfoldable pub send_mesh_toggle_command : World → Mac → Node → Node × List Send
send_mesh_toggle_command w target n =
    send_mesh_command_to_node w target mesh_command_toggle_value 0 n

-- `send_mesh_highlight_command`.
unfoldable pub send_mesh_highlight_command : World → Mac → Bool → Node → Node × List Send
send_mesh_highlight_command w target enabled n =
    send_mesh_command_to_node w target
      (if enabled then mesh_command_highlight_on else mesh_command_highlight_off)
      (if enabled then 1 else 0) n

-- `send_udp_message` and `forward_to_visualization`: the structure as it lies in memory.
unfoldable pub forward_to_visualization : Bytes → Node → List Send
forward_to_visualization message n = if n.udp_open then datagram message ∷ [] else []

-- `send_state_update_to_visualization` of src/main.cpp.
unfoldable pub send_state_update_to_visualization : Node → List Send
send_state_update_to_visualization n =
    if n.udp_open
    then datagram (prepare_udp_message n.node_mac n.manager.node_state n.neighbor_list) ∷ []
    else []

-- `mac_to_ip` in the default environment.
unfoldable mac_to_ip : Mac → Bytes
mac_to_ip mac = 10 ∷ 65 ∷ get_or mac 4 0 ∷ get_or mac 5 0 ∷ []

-- `set_node_state`.
unfoldable pub set_node_state : ℕ → Node → Node
set_node_state state n = record n {
  manager = record (n.manager) { node_state = record (n.manager.node_state) { state = state } };
}
