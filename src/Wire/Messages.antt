-- ===== src/Wire/Messages.antt =====
-- include/mesh_node.h and src/mesh_node.cpp: the command, the local status and the mesh message as
-- records without their checksums, and the bytes that stand for them.
use mesh_visualization.Prelude.{ℕ, Bool, List, [], ◌∷◌, ◌++◌, drop, Bytes}
use mesh_visualization.Prelude.Int.{ℤ}
use mesh_visualization.State.{Mac, NodeState, Neighbor}
use mesh_visualization.Wire.{
  put_u32, put_i16, get_u8, get_u32, get_i16, get_bytes, put_state, get_state, put_neighbors,
  verify_at, command_checksum_offset, local_status_checksum_offset, message_checksum_offset, sealed,
}

-- `mesh_command_t`.
pub record Command : Type 0 where
  pub version : ℕ
  pub msg_type : ℕ
  pub target_mac : Mac
  pub command : ℕ
  pub value : ℕ
  pub sequence : ℕ

-- The bytes before the checksum.
unfoldable pub command_body : Command → Bytes
command_body c =
    c.version ∷ c.msg_type ∷ (c.target_mac ++ c.command ∷ c.value ∷ 0 ∷ 0 ∷ put_u32 c.sequence [])

unfoldable pub encode_command : Command → Bytes
unfolding command_body
encode_command c = sealed command_checksum_offset (command_body c) (0 ∷ 0 ∷ [])

unfoldable pub decode_command : Bytes → Command
decode_command bs =
    let (version, bs) = get_u8 bs in
    let (msg_type, bs) = get_u8 bs in
    let (target_mac, bs) = get_bytes 6 bs in
    let (command, bs) = get_u8 bs in
    let (value, bs) = get_u8 bs in
    let (sequence, bs) = get_u32 (drop 2 bs) in
    record {
      version = version;
      msg_type = msg_type;
      target_mac = target_mac;
      command = command;
      value = value;
      sequence = sequence;
    }

-- `verify_command_checksum`.
unfoldable pub verify_command_checksum : Bytes → Bool
unfolding verify_at
verify_command_checksum bs = verify_at command_checksum_offset bs

-- `local_status_message_t`.
pub record LocalStatus : Type 0 where
  pub version : ℕ
  pub msg_type : ℕ
  pub mac : Mac
  pub state : ℕ
  pub value : ℕ
  pub temperature : ℤ
  pub mmwave_presence : ℕ
  pub mmwave_distance : ℕ
  pub timestamp : ℕ
  pub value_sequence : ℕ

unfoldable pub local_status_body : LocalStatus → Bytes
local_status_body s =
    s.version
    ∷ s.msg_type
    ∷ (s.mac
        ++ s.state
          ∷ s.value
          ∷ put_i16 s.temperature (
              s.mmwave_presence
              ∷ 0
              ∷ 0
              ∷ 0
              ∷ put_u32 s.mmwave_distance (put_u32 s.timestamp (put_u32 s.value_sequence []))))

unfoldable pub encode_local_status : LocalStatus → Bytes
unfolding local_status_body
encode_local_status s = sealed local_status_checksum_offset (local_status_body s) (0 ∷ 0 ∷ [])

unfoldable pub decode_local_status : Bytes → LocalStatus
decode_local_status bs =
    let (version, bs) = get_u8 bs in
    let (msg_type, bs) = get_u8 bs in
    let (mac, bs) = get_bytes 6 bs in
    let (state, bs) = get_u8 bs in
    let (value, bs) = get_u8 bs in
    let (temperature, bs) = get_i16 bs in
    let (mmwave_presence, bs) = get_u8 bs in
    let (mmwave_distance, bs) = get_u32 (drop 3 bs) in
    let (timestamp, bs) = get_u32 bs in
    let (value_sequence, bs) = get_u32 bs in
    record {
      version = version;
      msg_type = msg_type;
      mac = mac;
      state = state;
      value = value;
      temperature = temperature;
      mmwave_presence = mmwave_presence;
      mmwave_distance = mmwave_distance;
      timestamp = timestamp;
      value_sequence = value_sequence;
    }

-- `verify_local_status_checksum`.
unfoldable pub verify_local_status_checksum : Bytes → Bool
unfolding verify_at
verify_local_status_checksum bs = verify_at local_status_checksum_offset bs

-- `mesh_message_t`.
pub record MeshMessage : Type 0 where
  pub version : ℕ
  pub msg_type : ℕ
  pub mac : Mac
  pub state : NodeState
  pub sequence : ℕ
  pub mesh_timestamp : ℕ
  pub neighbors : List Neighbor

unfoldable pub message_body : MeshMessage → Bytes
unfolding put_state put_neighbors
message_body m =
    m.version
    ∷ m.msg_type
    ∷ (m.mac
        ++ put_state m.state
            (put_u32 m.sequence (put_u32 m.mesh_timestamp (put_neighbors m.neighbors []))))

unfoldable pub encode_message : MeshMessage → Bytes
unfolding message_body
encode_message m = sealed message_checksum_offset (message_body m) (0 ∷ 0 ∷ [])

-- What the receiver reads of a message before it passes it on.
unfoldable pub decode_header : Bytes → ℕ × ℕ × Mac × NodeState
decode_header bs =
    let (version, bs) = get_u8 bs in
    let (msg_type, bs) = get_u8 bs in
    let (mac, bs) = get_bytes 6 bs in
    let (state, bs) = get_state bs in (version, msg_type, mac, state)

-- `verify_checksum`.
unfoldable pub verify_checksum : Bytes → Bool
unfolding verify_at
verify_checksum bs = verify_at message_checksum_offset bs
