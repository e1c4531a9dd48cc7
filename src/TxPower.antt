-- ===== src/TxPower.antt =====
-- src/mesh_node.cpp: the control of the transmission power.
pub mod Control
use mesh_visualization.Prelude.{Bool, not, ◌&&◌, Option, none, some, [], ◌∷◌, if◌then◌else◌}
use mesh_visualization.Prelude.Int.{ℤ, pos, ◌+ℤ◌, ◌-ℤ◌, ltb_ℤ, eqb_ℤ, half_ℤ, int8}
use mesh_visualization.Config.{target_rssi, min_tx_power, max_tx_power, no_rssi}
use mesh_visualization.Neighbors.{Table}

abbrev default_tx_power : ℤ
default_tx_power = pos 8

-- `CLAMP(x, low, high)`.
abbrev pub clamp : ℤ → ℤ → ℤ → ℤ
clamp x low high = if ltb_ℤ high x then high else (if ltb_ℤ x low then low else x)

-- The loop over the table, whose variable the source calls `weakest_rssi`.
pub weakest_rssi_from : ℤ → Table → ℤ
weakest_rssi_from best [] = best
weakest_rssi_from best (n ∷ ns) =
    weakest_rssi_from (if n.active && ltb_ℤ best n.rssi then n.rssi else best) ns

pub weakest_rssi : Table → ℤ
unfolding weakest_rssi_from
weakest_rssi = weakest_rssi_from no_rssi

-- The new power for a signal; each assignment to an `int8_t` converts.
pub next_tx_power : ℤ → ℤ → ℤ
next_tx_power power rssi =
    let rssi_diff = int8 (target_rssi -ℤ rssi) in
    clamp (int8 (power +ℤ half_ℤ rssi_diff)) min_tx_power max_tx_power

-- `init_tx_power`.
init_tx_power : ℤ
init_tx_power = default_tx_power

-- `adjust_tx_power`: the new `current_tx_power`, and the argument of `esp_wifi_set_max_tx_power`
-- where it is called.
unfoldable pub adjust_tx_power : Bool → Table → ℤ → ℤ × Option ℤ
unfolding weakest_rssi next_tx_power
adjust_tx_power wifi_initialized ns power =
    let rssi = weakest_rssi ns in
    let new_power = next_tx_power power rssi in
    if not wifi_initialized
    then (power, none)
    else (if eqb_ℤ rssi no_rssi
        then (default_tx_power, none)
        else (if eqb_ℤ new_power power then (power, none) else (new_power, some new_power)))

-- `calculate_required_tx_power`.
unfoldable calculate_required_tx_power : Table → ℤ
unfolding weakest_rssi next_tx_power
calculate_required_tx_power ns =
    let rssi = weakest_rssi ns in
    if eqb_ℤ rssi no_rssi then default_tx_power else next_tx_power default_tx_power rssi
