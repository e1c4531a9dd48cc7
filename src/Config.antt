-- ===== src/Config.antt =====
-- include/config.h: the constants of the build, with its default (studio) environment.
use mesh_visualization.Prelude.{ℕ, ◌+◌, ◌-◌, ◌/◌, ◌%◌, ◌^◌, [], ◌∷◌, Bytes}
use mesh_visualization.Prelude.Int.{ℤ, pos, negsuc}

abbrev pub node_state_booting : ℕ
node_state_booting = 0

abbrev pub node_state_idle : ℕ
node_state_idle = 1

abbrev pub node_state_active : ℕ
node_state_active = 2

abbrev pub node_state_error : ℕ
node_state_error = 3

abbrev pub kernel_size : ℕ
kernel_size = 9

abbrev pub max_activations : ℕ
max_activations = 8

abbrev pub max_neighbors : ℕ
max_neighbors = 8

-- -80 dBm.
abbrev pub rssi_threshold : ℤ
rssi_threshold = negsuc 79

-- The value that marks a slot without a signal, -127.
abbrev pub no_rssi : ℤ
no_rssi = negsuc 126

abbrev pub neighbor_timeout_ms : ℕ
neighbor_timeout_ms = 5000

abbrev pub command_value_hold_ms : ℕ
command_value_hold_ms = 5000

abbrev pub temp_read_interval_ms : ℕ
temp_read_interval_ms = 5000

abbrev pub mqtt_update_interval_ms : ℕ
mqtt_update_interval_ms = 5000

abbrev pub mesh_target_node_count : ℕ
mesh_target_node_count = 1000

abbrev pub mqtt_topology_route_sample_limit : ℕ
mqtt_topology_route_sample_limit = 16

abbrev pub mqtt_topology_neighbor_sample_limit : ℕ
mqtt_topology_neighbor_sample_limit = 8

abbrev pub state_update_interval : ℕ
state_update_interval = 100

abbrev pub mesh_health_check_interval_ms : ℕ
mesh_health_check_interval_ms = 10000

abbrev pub mesh_reconnect_attempt_ms : ℕ
mesh_reconnect_attempt_ms = 15000

abbrev pub mesh_reconnect_restart_ms : ℕ
mesh_reconnect_restart_ms = 60000

-- -65 dBm.
abbrev pub target_rssi : ℤ
target_rssi = negsuc 64

abbrev pub min_tx_power : ℤ
min_tx_power = pos 0

abbrev pub max_tx_power : ℤ
max_tx_power = pos 20

abbrev pub msg_type_state_update : ℕ
msg_type_state_update = 1

abbrev pub msg_type_command : ℕ
msg_type_command = 4

abbrev pub mesh_command_toggle_value : ℕ
mesh_command_toggle_value = 1

abbrev pub mesh_command_highlight_on : ℕ
mesh_command_highlight_on = 2

abbrev pub mesh_command_highlight_off : ℕ
mesh_command_highlight_off = 3

abbrev pub protocol_version : ℕ
protocol_version = 1

-- "n2048", MESH_ROUTER_SSID.
abbrev pub mesh_router_ssid : Bytes
mesh_router_ssid = b'n' ∷ b'2' ∷ b'0' ∷ b'4' ∷ b'8' ∷ []

abbrev pub u16_mod : ℕ
u16_mod = 2 ^ 16

abbrev pub u32_mod : ℕ
u32_mod = 2 ^ 32

-- `a - b` and `a + b` on `uint32_t`.
abbrev pub sub32 : ℕ → ℕ → ℕ
sub32 a b = (a + u32_mod - b) % u32_mod

abbrev pub add32 : ℕ → ℕ → ℕ
add32 a b = (a + b) % u32_mod

-- `esp_timer_get_time() / 1000` as a `uint32_t`, of a time in microseconds.
abbrev pub millis : ℕ → ℕ
millis us = us / 1000 % u32_mod
