-- ===== src/Udp.antt =====
-- include/mesh_node.h and src/mesh_node.cpp: the packed message for the visualization server,
-- `udp_message_t`, and the choice of the neighbors that it reports.
pub mod Waiting
pub mod Selection
pub mod Packet
use mesh_visualization.Prelude.{
  ℕ, zero, suc, ◌-◌, Bool, false, not, ◌&&◌, ◌||◌, Option, none, some, List, [], ◌∷◌, ◌++◌, ltb,
  if◌then◌else◌, replicate, Bytes, bytes_eq,
}
use mesh_visualization.Prelude.Int.{ℤ, ltb_ℤ}
use mesh_visualization.Config.{protocol_version, msg_type_state_update, no_rssi}
use mesh_visualization.State.{Mac, zero_mac, NodeState, Neighbor}
use mesh_visualization.Neighbors.{Table, get_neighbor_count}
use mesh_visualization.Wire.{put_u32, put_i8, put_i16, sealed}

-- An element of `msg->neighbors`.
pub record Entry : Type 0 where
  pub mac : Mac
  pub rssi : ℤ

abbrev pub no_entry : Entry
no_entry = record { mac = zero_mac; rssi = no_rssi }

abbrev pub udp_neighbors : ℕ
udp_neighbors = 8

abbrev pub udp_checksum_offset : ℕ
udp_checksum_offset = 79

-- `already_included`: the loop over the entries that are written.
abbrev pub already_included : Mac → List Entry → Bool
already_included mac [] = false
already_included mac (e ∷ es) = bytes_eq mac e.mac || already_included mac es

abbrev pub is_better : List Entry → ℤ → Neighbor → Bool
is_better chosen best n = (n.active && ltb_ℤ best n.rssi) && not (already_included n.mac chosen)

-- The inner loop: `best_rssi`, and the slot of `best_index` if there is one.
unfoldable pub strongest_from : List Entry → ℤ × Option Neighbor → Table → ℤ × Option Neighbor
strongest_from chosen best [] = best
strongest_from chosen best (n ∷ ns) =
    strongest_from chosen (if is_better chosen best.0 n then (n.rssi, some n) else best) ns

unfoldable pub next_entry : List Entry → Table → Entry
unfolding strongest_from
next_entry chosen ns = elim (strongest_from chosen (no_rssi, none) ns).1 [
  | none ↦ no_entry
  | some n ↦ record { mac = n.mac; rssi = n.rssi }
]

-- The outer loop, with the entries that it has written.
unfoldable pub choose : ℕ → List Entry → Table → List Entry
unfolding next_entry
choose zero chosen ns = chosen
choose (suc k) chosen ns = choose k (chosen ++ next_entry chosen ns ∷ []) ns

abbrev pub copy_count : Table → ℕ
copy_count ns =
    if ltb (get_neighbor_count ns) udp_neighbors then get_neighbor_count ns else udp_neighbors

unfoldable pub select_neighbors : Table → List Entry
unfolding choose
select_neighbors ns =
    choose (copy_count ns) [] ns ++ replicate (udp_neighbors - copy_count ns) no_entry

abbrev pub put_entries : List Entry → Bytes → Bytes
put_entries [] rest = rest
put_entries (e ∷ es) rest = e.mac ++ put_i8 e.rssi (put_entries es rest)

-- The bytes before the checksum.
unfoldable pub udp_body : Mac → NodeState → List Entry → Bytes
udp_body own s entries =
    protocol_version
    ∷ msg_type_state_update
    ∷ (own
        ++ s.state
          ∷ (s.color
              ++ put_i16 s.temperature (
                  s.mmwave_presence
                  ∷ put_u32 s.mmwave_distance (put_u32 s.timestamp (put_entries entries [])))))

-- `prepare_udp_message` of the node whose address is `own`.
unfoldable pub prepare_udp_message : Mac → NodeState → Table → Bytes
unfolding udp_body select_neighbors
prepare_udp_message own s ns = sealed udp_checksum_offset (udp_body own s (select_neighbors ns)) []
