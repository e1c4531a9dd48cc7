-- ===== src/Node/Receive.antt =====
-- src/mesh_node.cpp: the receivers of mesh messages and of local status messages.
use mesh_visualization.Prelude.{
  ℕ, Bool, true, not, ◌&&◌, ◌||◌, Option, none, some, List, [], ◌∷◌, ◌==◌, if◌then◌else◌, length,
  take, drop, Bytes, bytes_eq,
}
use mesh_visualization.Prelude.Int.{ℤ, negsuc}
use mesh_visualization.Config.{protocol_version, msg_type_state_update, msg_type_command, millis}
use mesh_visualization.State.{Neighbor}
use mesh_visualization.Neighbors.{Table, update_existing, update_neighbor_list}
use mesh_visualization.Manager.Adopt.{adopt_neighbor_rules}
use mesh_visualization.Wire.{command_size, local_status_size, message_size}
use mesh_visualization.Wire.Messages.{
  decode_command, verify_command_checksum, LocalStatus, encode_local_status, decode_local_status,
  verify_local_status_checksum, decode_header, verify_checksum,
}
use mesh_visualization.Node.{
  Node, World, Send, publish, local, apply_mesh_command, forward_to_visualization,
}

-- The part of a message that holds its neighbors.
abbrev pub neighbor_bytes : Bytes → Bytes
neighbor_bytes message = take 1280 (drop 156 message)

unfoldable pub receive_command : World → Bytes → Node → Node × List Send
receive_command w payload n =
    let cmd = decode_command payload in
    if not (cmd.version == protocol_version) || not (cmd.msg_type == msg_type_command)
    then (n, [])
    else if not (verify_command_checksum payload)
    then (n, [])
    else apply_mesh_command w cmd n

-- The root also publishes and forwards the message.
unfoldable pub receive_message : World → Bytes → Node → Node × List Send
receive_message w payload n =
    let (version, msg_type, mac, state) = decode_header payload in
    if not (version == protocol_version) || not (msg_type == msg_type_state_update)
    then (n, [])
    else if not (verify_checksum payload)
    then (n, [])
    else (
      record n { manager = adopt_neighbor_rules w.fpu w.nvs w.random state n.manager },
      if w.is_root
          then publish mac state (neighbor_bytes payload) ∷ forward_to_visualization payload n
          else [],
    )

-- One turn of `mesh_receive_task`: `esp_mesh_recv` returns data, or it fails or times out.
unfoldable pub mesh_receive : World → Option Bytes → Node → Node × List Send
mesh_receive w none n = (n, [])
mesh_receive w (some payload) n =
    if length payload == command_size
    then receive_command w payload n
    else if length payload == message_size
    then receive_message w payload n
    else (n, [])

-- The fields that a local status sets in the slot of its sender.
abbrev pub report_status : LocalStatus → ℕ → Neighbor → Neighbor
report_status msg now n = record n {
  state = record (n.state) {
    state = msg.state;
    value = msg.value;
    temperature = msg.temperature;
    mmwave_presence = msg.mmwave_presence;
    mmwave_distance = msg.mmwave_distance;
    timestamp = msg.timestamp;
    value_sequence = msg.value_sequence;
  };
  has_state = true;
  last_seen = now;
}

unfoldable pub report_neighbor : LocalStatus → ℕ → Table → Table
report_neighbor msg now ns = update_existing msg.mac (report_status msg now) ns ns

-- The signal, -50 where the driver gives none.
abbrev pub signal_of : Option ℤ → ℤ
signal_of none = negsuc 49
signal_of (some rssi) = rssi

-- `local_status_recv_callback`, with the signal if `rx_ctrl` is given.
unfoldable pub local_status_recv_callback : World → Option ℤ → Bytes → Node → Node
local_status_recv_callback w rx_ctrl payload n =
    let msg = decode_local_status payload in
    let now = millis w.us in
    if not (length payload == local_status_size)
    then n
    else if not (msg.version == protocol_version) || not (msg.msg_type == msg_type_state_update)
    then n
    else if not (verify_local_status_checksum payload)
    then n
    else if bytes_eq msg.mac n.node_mac
    then n
    else record n {
      neighbor_list =
          report_neighbor msg now
            (update_neighbor_list n.node_mac msg.mac (signal_of rx_ctrl) now n.neighbor_list);
    }

-- What the ESP-NOW calls of `init_local_neighbor_status` return, with the errors that it accepts.
pub record EspNow : Type 0 where
  pub init_ok : Bool
  pub register_ok : Bool
  pub peer_exists : Bool
  pub add_ok : Bool

unfoldable pub init_local_neighbor_status : EspNow → Node → Node
init_local_neighbor_status esp n =
    if n.local_status_initialized
    then n
    else if not esp.init_ok
    then n
    else if not esp.register_ok
    then n
    else if not esp.peer_exists && not esp.add_ok
    then n
    else record n { local_status_initialized = true }

abbrev pub local_status : Node → LocalStatus
local_status n =
    let s = n.manager.node_state in
    record {
      version = protocol_version;
      msg_type = msg_type_state_update;
      mac = n.node_mac;
      state = s.state;
      value = s.value;
      temperature = s.temperature;
      mmwave_presence = s.mmwave_presence;
      mmwave_distance = s.mmwave_distance;
      timestamp = s.timestamp;
      value_sequence = s.value_sequence;
    }

-- `send_local_status_to_neighbors`.
unfoldable pub send_local_status_to_neighbors : EspNow → Node → Node × List Send
send_local_status_to_neighbors esp n =
    let ready = init_local_neighbor_status esp n in
    if ready.local_status_initialized
    then (ready, local (encode_local_status (local_status ready)) ∷ [])
    else (ready, [])
