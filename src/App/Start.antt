-- ===== src/App/Start.antt =====
-- src/main.cpp: what `app_main` does before its loop, on a chip that was just powered on or
-- restarted. The set-up of drivers by ESP_ERROR_CHECK, which restarts the chip unless it succeeds,
-- is left out.
use mesh_visualization.Prelude.{
  ℕ, Bool, true, false, Option, none, some, List, if◌then◌else◌, replicate, codes, bytes_eq,
}
use mesh_visualization.Prelude.Int.{pos}
use mesh_visualization.Config.{max_neighbors}
use mesh_visualization.Floats.{float_zero, float_25}
use mesh_visualization.State.{Mac, zero_mac, zero_state, Neighbor}
use mesh_visualization.Neighbors.{init_neighbor_list}
use mesh_visualization.Manager.{Manager, Blob}
use mesh_visualization.Manager.Activation.{init_state}
use mesh_visualization.Node.{Node, World}
use mesh_visualization.Node.Receive.{EspNow, init_local_neighbor_status}
use mesh_visualization.Beacon.Radio.{
  Radio, Driver, Call, init_beacon_monitoring, start_promiscuous_mode,
}
use mesh_visualization.App.{App, Net, Act, init_mesh, init_udp}
use mesh_visualization.App.Loop.{Loop}

-- What the surroundings answer: the address of the station, nine random words for the kernel (that
-- for the value is in `world`), and whether the LED strip could be created.
pub record Start : Type 0 where
  pub mac : Mac
  pub world : World
  pub weights : List ℕ
  pub led_created : Bool
  pub esp : EspNow
  pub net : Net
  pub driver : Driver

-- The variables of src/state_manager.cpp in memory that was just set up.
abbrev initial_manager : Option Blob → Manager
initial_manager stored = record {
  node_state = zero_state;
  sensors_initialized = false;
  current_brightness = float_zero;
  led_highlight_enabled = false;
  last_temp_read_ms = 0;
  simulated_temp = float_25;
  last_temp_update = 0;
  manual_value_hold_until_ms = 0;
  led_strip = false;
  pixel = none;
  kernel_function = codes "random";
  activation_function = codes "threshold";
  stored = stored;
}

-- A slot of `neighbor_list` in memory that was set to zero.
abbrev zero_neighbor : Neighbor
zero_neighbor = record {
  mac = zero_mac;
  rssi = pos 0;
  last_seen = 0;
  ip = replicate 4 0;
  active = false;
  has_state = false;
  state = zero_state;
}

abbrev pub initial_node : Mac → Option Blob → Node
initial_node mac stored = record {
  node_mac = mac;
  manager = initial_manager stored;
  neighbor_list = replicate max_neighbors zero_neighbor;
  message_sequence = 0;
  mesh_initialized = false;
  current_root_addr = none;
  local_status_initialized = false;
  udp_open = false;
}

abbrev pub initial_app : Node → App
initial_app n = record {
  node = n;
  mesh_stack_initialized = false;
  mesh_rx_task_started = false;
  last_mesh_attached_ms = 0;
  last_mesh_health_check_ms = 0;
  last_mesh_reconnect_attempt_ms = 0;
  last_root_ip_ok_ms = 0;
  mesh_status_publish_requested = false;
  tcp_open = false;
  mqtt_client = false;
  mqtt_connected = false;
}

abbrev initial_radio : Radio
initial_radio = record { beacon_monitoring_active = false; promiscuous_mode_active = false }

abbrev initial_loop : App → Loop
initial_loop a = record {
  app = a;
  last_state_update = 0;
  last_mesh_state_publish = 0;
  last_neighbor_cleanup = 0;
  last_visualization_update = 0;
  last_published = none;
}

-- `init_state`, `init_neighbor_list` and `init_local_neighbor_status`.
unfoldable pub init_node : Start → Node → Node
unfolding init_state init_neighbor_list init_local_neighbor_status
init_node s n =
    let w = s.world in
    init_local_neighbor_status s.esp (record n {
      manager = init_state w.fpu w.nvs s.led_created w.random s.weights n.manager;
      neighbor_list = init_neighbor_list;
    })

-- What `app_main` starts its loop with, and the calls that it has made of the mesh and the radio.
pub record Started : Type 0 where
  pub wifi_initialized : Bool
  pub loop : Loop
  pub acts : List Act
  pub radio : Radio
  pub calls : List Call

-- What `app_main` does before its loop, for the content of the flash store.
unfoldable pub set_up : Start → Option Blob → Started
unfolding init_node init_mesh init_udp init_beacon_monitoring start_promiscuous_mode
set_up s stored =
    let (a, acts) = init_mesh s.net (initial_app (init_node s (initial_node s.mac stored))) in
    let (radio, calls) = start_promiscuous_mode s.driver (init_beacon_monitoring initial_radio) in
    record {
      wifi_initialized = true;
      loop = initial_loop (init_udp s.net a);
      acts = acts;
      radio = radio;
      calls = calls;
    }

-- For an address of zeros the chip restarts.
unfoldable pub app_main : Start → Option Blob → Option Started
unfolding set_up
app_main s stored = if bytes_eq s.mac zero_mac then none else some (set_up s stored)
