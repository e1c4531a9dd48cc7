-- ===== src/App.antt =====
-- src/main.cpp, with `init_mesh` and `init_udp` of src/mesh_node.cpp and the life of the client in
-- src/mqtt_handler.cpp: the variables of the program, its services, and the events of the mesh.
-- What the libraries answer is an argument; a failed ESP_ERROR_CHECK, which restarts the chip, and
-- the delays are left out.
use mesh_visualization.Prelude.{
  ℕ, ◌-◌, Bool, true, false, not, ◌&&◌, Option, none, some, List, [], ◌∷◌, ◌++◌, ltb, if◌then◌else◌,
  modify, take, Bytes, codes,
}
pub mod Health
pub mod Tcp
pub mod Loop
pub mod Core
pub mod Valid
pub mod Start
pub mod Lives
use mesh_visualization.State.{Mac}
use mesh_visualization.Node.{Node, Send}
use mesh_visualization.Mqtt.{mac_text, mqtt_publish_node_state_with_neighbors}
use mesh_visualization.Mqtt.Command.{Host, handle_mqtt_command}
use mesh_visualization.Mqtt.Topology.{Mesh, mqtt_publish_topology}

pub record App : Type 0 where
  pub node : Node
  pub mesh_stack_initialized : Bool
  pub mesh_rx_task_started : Bool
  pub last_mesh_attached_ms : ℕ
  pub last_mesh_health_check_ms : ℕ
  pub last_mesh_reconnect_attempt_ms : ℕ
  pub last_root_ip_ok_ms : ℕ
  pub mesh_status_publish_requested : Bool
  -- `tcp_server_socket >= 0`, `mqtt_client != NULL`
  pub tcp_open : Bool
  pub mqtt_client : Bool
  pub mqtt_connected : Bool

-- What the mesh, the network interfaces and the sockets answer during one call.
pub record Net : Type 0 where
  pub layer : ℕ
  pub is_root : Bool
  pub has_ip : Bool
  -- `mesh_netif_sta != NULL`
  pub has_netif : Bool
  pub mesh_init_ok : Bool
  pub mesh_config_ok : Bool
  pub mesh_start_ok : Bool
  pub udp_socket_ok : Bool
  pub udp_bind_ok : Bool
  pub tcp_socket_ok : Bool
  pub tcp_bind_ok : Bool
  pub tcp_listen_ok : Bool
  pub mqtt_init_ok : Bool
  pub mqtt_start_ok : Bool

-- The calls that change the mesh or the network.
pub data Act : Type 0 where
  start_mesh : Act
  stop_mesh : Act
  connect : Act
  start_receive_task : Act
  start_dhcp : Act

abbrev pub request_mesh_status_publish : App → App
request_mesh_status_publish a = record a { mesh_status_publish_requested = true }

abbrev pub set_mesh_initialized : Bool → App → App
set_mesh_initialized b a = record a { node = record (a.node) { mesh_initialized = b } }

abbrev pub set_root_addr : Option Mac → App → App
set_root_addr addr a = record a { node = record (a.node) { current_root_addr = addr } }

abbrev set_udp_open : Bool → App → App
set_udp_open b a = record a { node = record (a.node) { udp_open = b } }

-- The end of `init_mesh`: the task that receives messages is created once.
abbrev pub start_rx_task : App → App × List Act
start_rx_task a =
    if a.mesh_rx_task_started
    then (a, [])
    else (record a { mesh_rx_task_started = true }, start_receive_task ∷ [])

unfoldable pub init_mesh : Net → App → App × List Act
init_mesh net a =
    let ready = record a { mesh_stack_initialized = true } in
    let (started, acts) = start_rx_task (set_mesh_initialized true ready) in
    if not a.mesh_stack_initialized && not net.mesh_init_ok
    then (a, [])
    else if not net.mesh_config_ok
    then (ready, [])
    else if not net.mesh_start_ok
    then (ready, start_mesh ∷ [])
    else (started, start_mesh ∷ acts)

unfoldable pub init_udp : Net → App → App
init_udp net a =
    if a.node.udp_open then a else set_udp_open (net.udp_socket_ok && net.udp_bind_ok) a

unfoldable pub start_tcp_server : Net → App → App
start_tcp_server net a =
    if a.tcp_open
    then a
    else record a { tcp_open = net.tcp_socket_ok && (net.tcp_bind_ok && net.tcp_listen_ok) }

unfoldable pub init_mqtt : Net → App → App
init_mqtt net a =
    if a.mqtt_client then a else record a { mqtt_client = net.mqtt_init_ok && net.mqtt_start_ok }

unfoldable pub mqtt_disconnect : App → App
mqtt_disconnect a =
    if a.mqtt_client then record a { mqtt_client = false; mqtt_connected = false } else a

-- The events of the MQTT client that its handler treats; the last brings a message.
pub data MqttEvent : Type 0 where
  mqtt_event_connected : MqttEvent
  mqtt_event_disconnected : MqttEvent
  mqtt_event_error : MqttEvent
  mqtt_event_data : Bytes → MqttEvent

pub data MqttCall : Type 0 where
  subscribe : Bytes → MqttCall
  -- `esp_mqtt_client_publish` of a text on a topic
  publish_text : Bytes → Bytes → MqttCall

abbrev publish_on : Bytes → Option Bytes → List MqttCall
publish_on topic none = []
publish_on topic (some payload) = publish_text topic payload ∷ []

-- `mqtt_publish_topology_and_state`.
unfoldable pub mqtt_publish_topology_and_state : Host → Mesh → App → List MqttCall
mqtt_publish_topology_and_state host mesh a =
    let client = a.mqtt_connected && a.mqtt_client in
    let n = a.node in
    if a.mqtt_connected
    then publish_on (codes "mesh/topology") (mqtt_publish_topology client host.allocated mesh n)
      ++ publish_on (codes "mesh/state") (
          mqtt_publish_node_state_with_neighbors host.world.fpu client host.allocated n.node_mac
            n.manager.node_state n.neighbor_list n.manager)
    else []

-- "mesh/commands/" and the node's address, through the two buffers.
abbrev node_topic : Mac → Bytes
node_topic mac = take 63 (codes "mesh/commands/" ++ take 17 (mac_text mac))

-- `mqtt_event_handler`, with what is sent to other nodes and to the broker.
unfoldable pub mqtt_event_handler : Host → Mesh → MqttEvent → App → App × List Send × List MqttCall
unfolding mqtt_publish_topology_and_state
mqtt_event_handler host mesh mqtt_event_connected a =
    let connected = record a { mqtt_connected = true } in
    (
      connected,
      [],
      subscribe (codes "mesh/commands")
          ∷ subscribe (node_topic a.node.node_mac)
          ∷ mqtt_publish_topology_and_state host mesh connected,
    )
mqtt_event_handler host mesh mqtt_event_disconnected a =
    (record a { mqtt_connected = false }, [], [])
mqtt_event_handler host mesh mqtt_event_error a = (record a { mqtt_connected = false }, [], [])
mqtt_event_handler host mesh (mqtt_event_data payload) a =
    let handled = handle_mqtt_command host payload a.node in
    let b = record a { node = handled.node } in
    (
      b,
      handled.sends,
      if handled.published then mqtt_publish_topology_and_state host mesh b else [],
    )

-- `ip_event_handler` for IP_EVENT_STA_GOT_IP.
unfoldable pub ip_event_handler : Net → ℕ → App → App
unfolding init_udp start_tcp_server init_mqtt
ip_event_handler net now a = init_mqtt net (
    start_tcp_server net
      (init_udp net (request_mesh_status_publish (record a { last_root_ip_ok_ms = now }))))

pub data MeshEvent : Type 0 where
  started : MeshEvent
  stopped : MeshEvent
  child_connected : MeshEvent
  child_disconnected : MeshEvent
  parent_connected : MeshEvent
  root_address : Mac → MeshEvent
  parent_disconnected : MeshEvent
  layer_change : ℕ → MeshEvent
  no_parent_found : MeshEvent
  routing_table_changed : MeshEvent
  to_ds_state : MeshEvent

-- The station address of the root: the last byte of its access point, less one where that is
-- above zero.
abbrev root_sta_address : Mac → Mac
root_sta_address addr = modify addr 5 (λ b. if ltb 0 b then b - 1 else b)

-- The services of a node that has become the root.
unfoldable pub become_root : Net → ℕ → App → App × List Act
unfolding init_udp start_tcp_server init_mqtt
become_root net now a =
    let addressed = set_root_addr (some a.node.node_mac) a in
    let timed = if net.has_ip then record addressed { last_root_ip_ok_ms = now } else addressed in
    let served = start_tcp_server net (init_udp net timed) in
    (
      if net.has_ip then init_mqtt net served else served,
      if net.has_netif then start_dhcp ∷ [] else [],
    )

abbrev pub attached_at : ℕ → App → App
attached_at now a = record a { last_mesh_attached_ms = now; last_mesh_reconnect_attempt_ms = 0 }

-- `mesh_event_handler` at a time in milliseconds.
unfoldable pub mesh_event_handler : Net → ℕ → MeshEvent → App → App × List Act
unfolding become_root
mesh_event_handler net now started a = (request_mesh_status_publish a, [])
mesh_event_handler net now stopped a =
    (request_mesh_status_publish (set_root_addr none (set_mesh_initialized false a)), [])
mesh_event_handler net now child_connected a = (request_mesh_status_publish a, [])
mesh_event_handler net now child_disconnected a = (request_mesh_status_publish a, [])
mesh_event_handler net now parent_connected a =
    let b = request_mesh_status_publish (attached_at now a) in
    if net.is_root then become_root net now b else (b, [])
mesh_event_handler net now (root_address addr) a =
    let root = if net.is_root then addr else root_sta_address addr in
    (request_mesh_status_publish (set_root_addr (some root) a), [])
mesh_event_handler net now parent_disconnected a =
    (request_mesh_status_publish (set_root_addr none a), [])
mesh_event_handler net now (layer_change layer) a =
    (request_mesh_status_publish (if ltb 0 layer then attached_at now a else a), [])
mesh_event_handler net now no_parent_found a = (request_mesh_status_publish a, [])
mesh_event_handler net now routing_table_changed a = (request_mesh_status_publish a, [])
mesh_event_handler net now to_ds_state a = (a, [])
