-- ===== src/Wire.antt =====
-- include/mesh_node.h and src/mesh_node.cpp: the messages as they lie in memory, and their sums of
-- bytes. The layout is that of the 32-bit target: little-endian words at multiples of their size,
-- and padding bytes that are zero because every message starts as `{}`.
use mesh_visualization.Prelude.{
  ℕ, zero, suc, ◌+◌, ◌*◌, ◌/◌, ◌%◌, ◌^◌, Bool, List, [], ◌∷◌, ◌++◌, ◌==◌, if◌then◌else◌, get_or,
  take, drop, Bytes,
}
use mesh_visualization.Prelude.Int.{ℤ, to_bits, from_bits}
use mesh_visualization.Config.{kernel_size, max_activations, u16_mod}
use mesh_visualization.State.{NodeState, ActivationRule, Neighbor}
pub mod Checksum
pub mod Messages
pub mod RoundTrip
pub mod Sizes

-- Writers put a field in front of what follows it.
abbrev pub put_u16 : ℕ → Bytes → Bytes
put_u16 v rest = (v % 256) ∷ (v / 256 % 256) ∷ rest

abbrev pub put_u32 : ℕ → Bytes → Bytes
put_u32 v rest = (v % 256) ∷ (v / 2 ^ 8 % 256) ∷ (v / 2 ^ 16 % 256) ∷ (v / 2 ^ 24 % 256) ∷ rest

abbrev pub put_i8 : ℤ → Bytes → Bytes
put_i8 v rest = to_bits 8 v ∷ rest

abbrev pub put_i16 : ℤ → Bytes → Bytes
put_i16 v rest = put_u16 (to_bits 16 v) rest

abbrev put_bool : Bool → Bytes → Bytes
put_bool b rest = (if b then 1 else 0) ∷ rest

abbrev pub put_words : List ℕ → Bytes → Bytes
put_words [] rest = rest
put_words (w ∷ ws) rest = put_u32 w (put_words ws rest)

abbrev pub put_rules : List ActivationRule → Bytes → Bytes
put_rules [] rest = rest
put_rules (r ∷ rs) rest = r.op ∷ 0 ∷ 0 ∷ 0 ∷ put_u32 r.value (put_rules rs rest)

-- Readers return a field and what follows it; past the end they read zeros.
abbrev pub get_u8 : Bytes → ℕ × Bytes
get_u8 bs = (get_or bs 0 0, drop 1 bs)

abbrev pub get_u16 : Bytes → ℕ × Bytes
get_u16 bs = (get_or bs 0 0 + 256 * get_or bs 1 0, drop 2 bs)

abbrev pub get_u32 : Bytes → ℕ × Bytes
get_u32 bs = (
  get_or bs 0 0 + 2 ^ 8 * get_or bs 1 0 + 2 ^ 16 * get_or bs 2 0 + 2 ^ 24 * get_or bs 3 0,
  drop 4 bs,
)

abbrev pub get_i16 : Bytes → ℤ × Bytes
get_i16 bs = (from_bits 16 (get_u16 bs).0, drop 2 bs)

abbrev pub get_bytes : ℕ → Bytes → Bytes × Bytes
get_bytes n bs = (take n bs, drop n bs)

unfoldable pub get_words : ℕ → Bytes → List ℕ × Bytes
get_words zero bs = ([], bs)
get_words (suc n) bs = let (w, bs₁) = get_u32 bs in let (ws, bs₂) = get_words n bs₁ in (w ∷ ws, bs₂)

unfoldable pub get_rules : ℕ → Bytes → List ActivationRule × Bytes
get_rules zero bs = ([], bs)
get_rules (suc n) bs =
    let (value, bs₁) = get_u32 (drop 4 bs) in
    let (rs, bs₂) = get_rules n bs₁ in (record { op = get_or bs 0 0; value = value } ∷ rs, bs₂)

-- `node_state_t`, 140 bytes.
unfoldable pub put_state : NodeState → Bytes → Bytes
put_state s rest =
    s.state
    ∷ (s.color
        ++ put_i16 s.temperature (
            s.mmwave_presence
            ∷ 0
            ∷ put_u32 s.mmwave_distance (
                put_u32 s.timestamp (
                  s.value
                  ∷ 0
                  ∷ 0
                  ∷ 0
                  ∷ put_u32 s.kernel_sequence (
                      put_u32 s.value_sequence (
                        put_u32 s.activation_sequence (
                          put_words s.kernel (
                            put_rules s.activations (
                              s.activation_count
                              ∷ 0
                              ∷ 0
                              ∷ 0
                              ∷ put_u32 s.activation_sum rest)))))))))

unfoldable pub get_state : Bytes → NodeState × Bytes
get_state bs =
    let (state, bs) = get_u8 bs in
    let (color, bs) = get_bytes 3 bs in
    let (temperature, bs) = get_i16 bs in
    let (mmwave_presence, bs) = get_u8 bs in
    let (mmwave_distance, bs) = get_u32 (drop 1 bs) in
    let (timestamp, bs) = get_u32 bs in
    let (value, bs) = get_u8 bs in
    let (kernel_sequence, bs) = get_u32 (drop 3 bs) in
    let (value_sequence, bs) = get_u32 bs in
    let (activation_sequence, bs) = get_u32 bs in
    let (kernel, bs) = get_words kernel_size bs in
    let (activations, bs) = get_rules max_activations bs in
    let (activation_count, bs) = get_u8 bs in
    let (activation_sum, bs) = get_u32 (drop 3 bs) in
    (
      record {
        state = state;
        color = color;
        temperature = temperature;
        mmwave_presence = mmwave_presence;
        mmwave_distance = mmwave_distance;
        timestamp = timestamp;
        value = value;
        kernel_sequence = kernel_sequence;
        value_sequence = value_sequence;
        activation_sequence = activation_sequence;
        kernel = kernel;
        activations = activations;
        activation_count = activation_count;
        activation_sum = activation_sum;
      },
      bs,
    )

-- `neighbor_info_t`, 160 bytes.
unfoldable pub put_neighbor : Neighbor → Bytes → Bytes
unfolding put_state
put_neighbor n rest =
    n.mac
    ++ put_i8 n.rssi (
        0
        ∷ put_u32 n.last_seen
            (n.ip ++ put_bool n.active (put_bool n.has_state (0 ∷ 0 ∷ put_state n.state rest))))

unfoldable pub put_neighbors : List Neighbor → Bytes → Bytes
unfolding put_neighbor
put_neighbors [] rest = rest
put_neighbors (n ∷ ns) rest = put_neighbor n (put_neighbors ns rest)

-- The loop of the four checksum functions; `checksum` is a `uint16_t`.
pub add_bytes : ℕ → Bytes → ℕ
add_bytes checksum [] = checksum
add_bytes checksum (b ∷ bs) = add_bytes ((checksum + b) % u16_mod) bs

-- The sum of the bytes before the checksum field, which stands at `len`.
unfoldable pub checksum_at : ℕ → Bytes → ℕ
unfolding add_bytes
checksum_at len bs = add_bytes 0 (take len bs)

-- `calculated == msg->checksum`.
unfoldable pub verify_at : ℕ → Bytes → Bool
unfolding checksum_at
verify_at len bs = checksum_at len bs == (get_u16 (drop len bs)).0

-- The offsets of the checksum fields and the sizes of the structures.
abbrev pub command_checksum_offset : ℕ
command_checksum_offset = 16

abbrev pub command_size : ℕ
command_size = 20

abbrev pub local_status_checksum_offset : ℕ
local_status_checksum_offset = 28

abbrev pub local_status_size : ℕ
local_status_size = 32

abbrev pub message_checksum_offset : ℕ
message_checksum_offset = 1436

abbrev pub message_size : ℕ
message_size = 1440

-- A message without its checksum, with the checksum filled in and the padding behind it.
abbrev pub sealed : ℕ → Bytes → Bytes → Bytes
sealed len body padding = body ++ put_u16 (checksum_at len body) padding
