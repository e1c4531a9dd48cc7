-- ===== src/Tests.antt =====
-- Concrete nodes, tables and messages on which the theorems about the firmware are applied.
use mesh_visualization.Prelude.{
  ℕ, ◌+◌, ◌-◌, ◌*◌, ◌/◌, ◌%◌, ◌^◌, refl, ◌&&◌, Option, none, some, List, [], ◌∷◌, arith, true,
  false, ltb, leb, ◌==◌, if◌then◌else◌, replicate, Bytes, codes, bytes_eq,
}
use mesh_visualization.Prelude.Int.{ℤ, pos, negsuc, pos_part}
pub mod Neighbors
pub mod Beacon
pub mod Manager
pub mod Node
pub mod App
pub mod Mqtt
pub mod Tcp
use mesh_visualization.Floats.{FloatUnit}
use mesh_visualization.State.{Mac, Neighbor, zero_state}
use mesh_visualization.Neighbors as Nbrs
use mesh_visualization.Neighbors.{Table}
use mesh_visualization.Neighbors.Invariant.{IsValid}
use mesh_visualization.Manager as Mgr
use mesh_visualization.Manager.{Nvs}
use mesh_visualization.Node as Nd
use mesh_visualization.Wire.RoundTrip.{IsState}
use mesh_visualization.Node.Exchange.{IsNode}
use mesh_visualization.Node.Receive.{EspNow}
use mesh_visualization.App as Ap
use mesh_visualization.Mqtt.Command.{Host}
use mesh_visualization.Mqtt.Topology.{Mesh}
use mesh_visualization.App.{Net}
use mesh_visualization.Node.{World}

-- A number of one digit at the start of a text.
abbrev pub digit : Bytes → Option (ℕ × ℕ)
digit [] = none
digit (c ∷ cs) = if leb 48 c && leb c 57 then some (c - 48, 1) else none

-- Numbers in place of floats: on patterns that are not negative the comparisons are right.
abbrev pub soft : FloatUnit
soft = record {
  add = λ a b. a + b;
  sub = λ a b. a - b;
  mul = λ a b. a * b;
  div = λ a b. a / b;
  lt = λ a b. ltb a b;
  le = λ a b. leb a b;
  abs = λ a. a;
  add_double = λ a b. a + b;
  mul_double = λ a b. a * b;
  div_double = λ a b. a / b;
  widen = λ a. a;
  narrow = λ a. a;
  of_int = λ a. pos_part a;
  double_of_int = λ a. pos_part a;
  to_uint8 = λ a. a % 256;
  double_to_int16 = λ a. pos (a % 2 ^ 15);
  eq = λ a b. a == b;
  strtof = λ p. digit p;
  scan = λ p. digit p;
  print = λ digits a. (48 + a % 10) ∷ [];
}

abbrev pub mac_a : Mac
mac_a = 2 ∷ 0 ∷ 0 ∷ 0 ∷ 0 ∷ 0x0a ∷ []

abbrev pub mac_b : Mac
mac_b = 2 ∷ 0 ∷ 0 ∷ 0 ∷ 0 ∷ 0x0b ∷ []

abbrev pub mac_c : Mac
mac_c = 2 ∷ 0 ∷ 0 ∷ 0 ∷ 0 ∷ 0x0c ∷ []

-- -60 dBm
abbrev pub near : ℤ
near = negsuc 59

-- -90 dBm
abbrev pub far : ℤ
far = negsuc 89

abbrev pub neighbor_b : Neighbor
neighbor_b = record {
  mac = mac_b;
  rssi = near;
  last_seen = 100;
  ip = replicate 4 0;
  active = true;
  has_state = true;
  state = record zero_state { value = 1 };
}

abbrev pub off : Neighbor
off = record neighbor_b {
  mac = replicate 6 0;
  rssi = negsuc 126;
  last_seen = 0;
  active = false;
  has_state = false;
  state = zero_state;
}

-- The table of the node `mac_a`, which has heard `mac_b`.
abbrev pub table_a : Table
table_a = neighbor_b ∷ off ∷ off ∷ off ∷ off ∷ off ∷ off ∷ off ∷ []

pub table_a-IsValid : IsValid mac_a table_a
unfolding bytes_eq
table_a-IsValid = record {
  size = refl;
  distinct = ground arith;
  own_absent = refl;
  strong = ground arith;
}

abbrev pub manager_a : Mgr.Manager
manager_a = record {
  node_state = record zero_state {
    color = replicate 3 7;
    kernel = replicate 9 1;
    kernel_sequence = 3;
    activations = replicate 8 (record { op = 4; value = 2 });
    activation_count = 1;
    activation_sequence = 4;
  };
  sensors_initialized = true;
  current_brightness = 0;
  led_highlight_enabled = false;
  last_temp_read_ms = 0;
  simulated_temp = 0;
  last_temp_update = 0;
  manual_value_hold_until_ms = 0;
  led_strip = true;
  pixel = none;
  kernel_function = codes "life";
  activation_function = codes ">0";
  stored = none;
}

-- A node with an older configuration.
abbrev pub manager_b : Mgr.Manager
manager_b = record manager_a {
  node_state = record (manager_a.node_state) {
    kernel = replicate 9 2;
    kernel_sequence = 1;
    activation_sequence = 5;
    value_sequence = 6;
  };
}

abbrev pub flash : Nvs
flash = record { open_ok = true; set_ok = true; commit_ok = true; get_ok = true; kept = false }

abbrev pub node_a : Nd.Node
node_a = record {
  node_mac = mac_a;
  manager = manager_a;
  neighbor_list = table_a;
  message_sequence = 17;
  mesh_initialized = true;
  current_root_addr = some mac_c;
  local_status_initialized = true;
  udp_open = true;
}

-- A node without neighbors.
abbrev pub node_c : Nd.Node
node_c = record node_a {
  node_mac = mac_c;
  manager = manager_b;
  neighbor_list = off ∷ off ∷ off ∷ off ∷ off ∷ off ∷ off ∷ off ∷ [];
}

pub node_c_table-IsValid : IsValid mac_c node_c.neighbor_list
node_c_table-IsValid = record {
  size = refl;
  distinct = ground arith;
  own_absent = refl;
  strong = ground arith;
}

abbrev pub child : World
child = record { fpu = soft; nvs = flash; random = 1; us = 5_000_000; is_root = false }

abbrev pub root : World
root = record child { is_root = true }

manager_a-IsState : IsState manager_a.node_state
manager_a-IsState = record {
  color = refl;
  temperature = (omega arith, omega arith);
  mmwave_distance = omega arith;
  timestamp = omega arith;
  kernel_sequence = omega arith;
  value_sequence = omega arith;
  activation_sequence = omega arith;
  kernel_length = refl;
  kernel = ground arith;
  rules_length = refl;
  rules = ground arith;
  activation_sum = omega arith;
}

pub node_a-IsNode : IsNode node_a
node_a-IsNode = record { mac = refl; state = manager_a-IsState; size = refl; macs = ground arith }

abbrev pub answers : Net
answers = record {
  layer = 0;
  is_root = false;
  has_ip = false;
  has_netif = true;
  mesh_init_ok = true;
  mesh_config_ok = true;
  mesh_start_ok = true;
  udp_socket_ok = true;
  udp_bind_ok = true;
  tcp_socket_ok = true;
  tcp_bind_ok = true;
  tcp_listen_ok = true;
  mqtt_init_ok = true;
  mqtt_start_ok = true;
}

abbrev pub esp : EspNow
esp = record { init_ok = true; register_ok = true; peer_exists = true; add_ok = true }

-- The root, which handles commands.
abbrev pub host : Host
host = record { world = root; routing = some (mac_b ∷ []); esp = esp; allocated = true }

abbrev pub mesh : Mesh
mesh = record { layer = 1; routing_table_size = 1; routing_table = λ k. some (mac_b ∷ []) }

-- A table of eight neighbors.
abbrev pub heard : Neighbor
heard = record neighbor_b { last_seen = 1234 }

abbrev pub full_table : Table
full_table = heard ∷ heard ∷ heard ∷ heard ∷ heard ∷ heard ∷ heard ∷ heard ∷ []
