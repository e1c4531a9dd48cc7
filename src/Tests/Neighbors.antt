-- ===== src/Tests/Neighbors.antt =====
-- The theorems on the neighbor table and the transmission power, at a table with one neighbor.
use mesh_visualization.Prelude.{◌≡◌, refl, ◌⊎◌, true, false, none, some, arith, length, bytes_eq}
use mesh_visualization.Prelude.Int.{pos, ◌+ℤ◌, ◌-ℤ◌, ◌≤ℤ◌, half_ℤ}
use mesh_visualization.Config.{target_rssi, min_tx_power, max_tx_power}
use mesh_visualization.Neighbors.{update_neighbor_list, cleanup_inactive_neighbors}
use mesh_visualization.Neighbors.Lookup.{lookup}
use mesh_visualization.Neighbors.Update.{
  Settles, Spares, touched, unless_expired, update_neighbor_list_weak, update_neighbor_list_strong,
  update_neighbor_list_others, cleanup_inactive_neighbors_lem,
}
use mesh_visualization.TxPower.{clamp, next_tx_power, adjust_tx_power}
use mesh_visualization.TxPower.Control.{adjust_tx_power-InRange, next_tx_power_lem}
use mesh_visualization.Udp.{select_neighbors, prepare_udp_message, udp_checksum_offset}
use mesh_visualization.Udp.Selection.{Selects, select_neighbors-Selects}
use mesh_visualization.Udp.Packet.{prepare_udp_message_lem}
use mesh_visualization.Wire.{verify_at}
use mesh_visualization.Tests.{mac_a, mac_b, mac_c, near, far, table_a, table_a-IsValid, manager_a}

other :
    (bytes_eq mac_b mac_a ≡ false) × (bytes_eq mac_c mac_a ≡ false) × (bytes_eq mac_c mac_b ≡ false)
unfolding bytes_eq
other = (refl, refl, refl)

update_neighbor_list_weak_example :
    lookup mac_b (update_neighbor_list mac_a mac_b far 700 table_a)
    ≡ touched mac_b 700 mac_b table_a
update_neighbor_list_weak_example =
    update_neighbor_list_weak mac_a mac_b far 700 table_a table_a-IsValid other.0 mac_b refl

update_neighbor_list_strong_example :
    Settles mac_c near 700 table_a (update_neighbor_list mac_a mac_c near 700 table_a)
update_neighbor_list_strong_example =
    update_neighbor_list_strong mac_a mac_c near 700 table_a table_a-IsValid other.1 refl

update_neighbor_list_others_example :
    Spares mac_b near table_a (update_neighbor_list mac_a mac_c near 700 table_a)
update_neighbor_list_others_example =
    update_neighbor_list_others mac_a mac_c near 700 table_a table_a-IsValid other.1 mac_b refl
      other.2

cleanup_inactive_neighbors_lem_example :
    lookup mac_b (cleanup_inactive_neighbors 9000 table_a)
    ≡ unless_expired 9000 (lookup mac_b table_a)
cleanup_inactive_neighbors_lem_example =
    cleanup_inactive_neighbors_lem mac_a mac_b 9000 table_a table_a-IsValid

adjust_tx_power-InRange_example :
    let r = adjust_tx_power true table_a (pos 8) in
    (min_tx_power ≤ℤ r.0) × (r.0 ≤ℤ max_tx_power) × ((r.1 ≡ none) ⊎ (r.1 ≡ some r.0))
adjust_tx_power-InRange_example =
    adjust_tx_power-InRange true table_a (pos 8) (omega arith, omega arith)

next_tx_power_lem_example :
    (next_tx_power (pos 8) near ≡ clamp (pos 8 +ℤ half_ℤ (target_rssi -ℤ near)) (pos 0) (pos 20))
    × (((near ≤ℤ target_rssi) × (pos 8 ≤ℤ next_tx_power (pos 8) near))
        ⊎ ((target_rssi ≤ℤ near) × (next_tx_power (pos 8) near ≤ℤ pos 8)))
next_tx_power_lem_example =
    next_tx_power_lem (pos 8) near (omega arith, omega arith) (omega arith) (omega arith)

select_neighbors-Selects_example : Selects table_a (select_neighbors table_a)
select_neighbors-Selects_example = select_neighbors-Selects mac_a table_a table_a-IsValid

prepare_udp_message_lem_example :
    (length (prepare_udp_message mac_a manager_a.node_state table_a) ≡ 81)
    × (verify_at udp_checksum_offset (prepare_udp_message mac_a manager_a.node_state table_a)
        ≡ true)
prepare_udp_message_lem_example =
    prepare_udp_message_lem mac_a manager_a.node_state table_a refl refl (ground arith)
