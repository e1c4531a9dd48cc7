-- ===== src/Mqtt.antt =====
-- src/mqtt_handler.cpp: the texts that a node publishes. `printf` writes a number in decimal, an
-- address byte in two hexadecimal digits, and a float with the digits that the float unit gives.
pub mod Lists
pub mod Fields
pub mod Command
pub mod Topology
pub mod Lengths
pub mod Fits
use mesh_visualization.Prelude.{
  ℕ, zero, suc, ◌+◌, ◌/◌, ◌%◌, Bool, true, false, not, ◌&&◌, Option, none, some, List, [], ◌∷◌,
  ◌++◌, map, ltb, ◌==◌, if◌then◌else◌, get_or, take, Bytes, codes,
}
use mesh_visualization.Prelude.Int.{ℤ, pos, negsuc}
use mesh_visualization.Floats.{FloatUnit}
use mesh_visualization.State.{Mac, NodeState, ActivationRule, Neighbor}
use mesh_visualization.Neighbors.{Table}
use mesh_visualization.Manager.{Manager}
use mesh_visualization.Printf.{
  decimal, signed, nibble, Buffer, append, append_all, close, join, separated,
}

-- MACSTR: "%02x:%02x:%02x:%02x:%02x:%02x".
abbrev pub mac_text : Mac → Bytes
mac_text mac =
    join (separated (codes ":") (map (λ b. nibble (b / 16 % 16) ∷ nibble (b % 16) ∷ []) mac))

-- The idiom of the lists: an opening bracket, the elements as far as they fit, a closing bracket.
abbrev pub format_list : ℕ → List Bytes → Bytes
format_list size elements =
    close size (append_all size (append size ([], 0) (codes "[")) elements) (codes "]")

module _ (fpu : FloatUnit) where
  -- `format_kernel_json` into a buffer of `size` bytes.
  unfoldable pub format_kernel_json : ℕ → NodeState → Bytes
  format_kernel_json size s = format_list size (separated (codes ",") (map (fpu.print 4) s.kernel))

  abbrev pub activation_json : ActivationRule → Bytes
  activation_json r =
      codes "{\"op\":"
      ++ (decimal r.op ++ (codes ",\"value\":" ++ (fpu.print 4 r.value ++ codes "}")))

  -- `format_activations_json`.
  unfoldable pub format_activations_json : ℕ → NodeState → Bytes
  format_activations_json size s =
      format_list size
        (separated (codes ",") (map activation_json (take s.activation_count s.activations)))

-- The text of a neighbor in the two lists of neighbors.
abbrev pub neighbor_json : Neighbor → Bytes
neighbor_json n =
    codes "{\"mac\":\""
    ++ (mac_text n.mac
        ++ (codes "\",\"rssi\":"
            ++ (signed n.rssi
                ++ (codes ",\"last_seen\":"
                    ++ (decimal n.last_seen
                        ++ (codes ",\"value\":"
                            ++ (decimal (if n.has_state then n.state.value else 0)
                                ++ codes "}")))))))

abbrev pub comma : Bool → Bytes
comma first = if first then [] else codes ","

-- The loop over the slots, with `first` and `active_count`.
unfoldable pub append_neighbors : ℕ → Buffer → Bool → ℕ → Table → Buffer × ℕ
append_neighbors size b first active_count [] = (b, active_count)
append_neighbors size b first active_count (n ∷ ns) =
    let skipped = append_neighbors size b first active_count ns in
    let written =
      append_neighbors size (append size b (comma first ++ neighbor_json n)) false
        (suc active_count) ns in
    if not (ltb b.1 size) then (b, active_count) else if not n.active then skipped else written

-- `format_neighbors_json`: the text and the result. No neighbors is a null pointer.
unfoldable pub format_neighbors_json : ℕ → Table → Bytes × ℕ
format_neighbors_json size ns =
    let (b, active_count) = append_neighbors size (append size ([], 0) (codes "[")) true 0 ns in
    (close size b (codes "]"), active_count)

-- The payload of `mqtt_publish_node_state_with_neighbors`, through its buffer of 2200 bytes; the
-- names of kernel and rules are the publishing node's own.
unfoldable node_state_payload : FloatUnit → Mac → NodeState → Table → Manager → Bytes
node_state_payload fpu mac s ns own =
    let (neighbors, active_neighbor_count) = format_neighbors_json 768 ns in
    take 2199 (
      join (
        codes "{\"mac\":\""
        ∷ mac_text mac
        ∷ codes "\",\"state\":"
        ∷ decimal s.state
        ∷ codes ",\"temperature\":"
        ∷ signed s.temperature
        ∷ codes ",\"mmwave_presence\":"
        ∷ decimal s.mmwave_presence
        ∷ codes ",\"mmwave_distance\":"
        ∷ decimal s.mmwave_distance
        ∷ codes ",\"timestamp\":"
        ∷ decimal s.timestamp
        ∷ codes ",\"value\":"
        ∷ decimal s.value
        ∷ codes ",\"activation_sum\":"
        ∷ fpu.print 4 s.activation_sum
        ∷ codes ",\"kernel_function\":\""
        ∷ own.kernel_function
        ∷ codes "\",\"activation_function\":\""
        ∷ own.activation_function
        ∷ codes "\",\"kernel_sequence\":"
        ∷ decimal s.kernel_sequence
        ∷ codes ",\"value_sequence\":"
        ∷ decimal s.value_sequence
        ∷ codes ",\"activation_sequence\":"
        ∷ decimal s.activation_sequence
        ∷ codes ",\"activation_count\":"
        ∷ decimal s.activation_count
        ∷ codes ",\"kernel\":"
        ∷ format_kernel_json fpu 192 s
        ∷ codes ",\"activations\":"
        ∷ format_activations_json fpu 256 s
        ∷ codes ",\"neighbor_count\":"
        ∷ decimal active_neighbor_count
        ∷ codes ",\"neighbors\":"
        ∷ neighbors
        ∷ codes ",\"color\":["
        ∷ decimal (get_or s.color 0 0)
        ∷ codes ","
        ∷ decimal (get_or s.color 1 0)
        ∷ codes ","
        ∷ decimal (get_or s.color 2 0)
        ∷ codes "]}"
        ∷ []))

-- `mqtt_publish_node_state_with_neighbors`, given whether the client is connected and whether the
-- buffers could be allocated.
unfoldable pub mqtt_publish_node_state_with_neighbors :
    FloatUnit → Bool → Bool → Mac → NodeState → Table → Manager → Option Bytes
unfolding node_state_payload
mqtt_publish_node_state_with_neighbors fpu connected allocated mac s ns own =
    if connected && allocated then some (node_state_payload fpu mac s ns own) else none
