-- ===== src/App/Loop.antt =====
-- src/main.cpp: one turn of the loop of `app_main`, without the scan for beacons, which stands in
-- Beacon/Radio.
use mesh_visualization.Prelude.{
  ℕ, Bool, true, false, not, ◌&&◌, ◌||◌, Option, none, some, List, [], ◌++◌, ltb, leb, ◌==◌,
  if◌then◌else◌, Bytes,
}
use mesh_visualization.Prelude.Int.{eqb_ℤ}
pub mod Published
pub mod Wanted
use mesh_visualization.Config.{sub32, state_update_interval, mqtt_update_interval_ms, millis}
use mesh_visualization.State.{NodeState}
use mesh_visualization.Neighbors.{cleanup_inactive_neighbors}
use mesh_visualization.Manager.Led.{update_led_color}
use mesh_visualization.Manager.Activation.{Reading, update_state}
use mesh_visualization.Node.{
  Node, World, Send, send_state_to_neighbors, send_state_update_to_visualization,
}
use mesh_visualization.Node.Receive.{EspNow, send_local_status_to_neighbors}
use mesh_visualization.App.{App, Net, Act}
use mesh_visualization.App.Health.{check_mesh_health}
use mesh_visualization.App.Tcp.{Chunk, handle_tcp_client}

pub record Loop : Type 0 where
  pub app : App
  pub last_state_update : ℕ
  pub last_mesh_state_publish : ℕ
  pub last_neighbor_cleanup : ℕ
  pub last_visualization_update : ℕ
  -- `last_published_state`, if `has_published_state`
  pub last_published : Option NodeState

-- What the surroundings answer during one turn.
pub record Turn : Type 0 where
  pub now : ℕ
  pub world : World
  pub net : Net
  pub esp : EspNow
  pub reading : Reading
  -- What a client of the TCP server sends until it disconnects, if one is accepted.
  pub client : Option (List Chunk)

-- What a turn hands out: `topology` and `state` are the calls of `mqtt_publish_topology` and
-- `mqtt_publish_state`, and `answers` goes to the client of the TCP server.
pub record Output : Type 0 where
  pub acts : List Act
  pub sends : List Send
  pub topology : Bool
  pub state : Bool
  pub answers : List Bytes

abbrev pub silent : Output
silent = record { acts = []; sends = []; topology = false; state = false; answers = [] }

unfoldable pub state_publish_relevant_change : NodeState → NodeState → Bool
state_publish_relevant_change previous current =
    not (previous.state == current.state)
    || (not (previous.value == current.value)
        || (not (eqb_ℤ previous.temperature current.temperature)
            || (not (previous.mmwave_presence == current.mmwave_presence)
                || (not (previous.mmwave_distance == current.mmwave_distance)
                    || (not (previous.kernel_sequence == current.kernel_sequence)
                        || (not (previous.value_sequence == current.value_sequence)
                            || not
                                (previous.activation_sequence == current.activation_sequence)))))))

-- There is no published state, or the state differs from it.
abbrev pub state_changed : Option NodeState → NodeState → Bool
state_changed none current = true
state_changed (some previous) current = state_publish_relevant_change previous current

abbrev pub set_node : Node → Loop → Loop
set_node n l = record l { app = record (l.app) { node = n } }

-- `update_state` and `update_led_color`.
unfoldable pub update_node : Turn → Node → Node
update_node t n = record n {
  manager =
      update_led_color t.world.fpu (update_state t.world.fpu t.reading n.neighbor_list n.manager);
}

abbrev periodic_due : Turn → Loop → Bool
periodic_due t l = leb mqtt_update_interval_ms (sub32 t.now l.last_mesh_state_publish)

unfoldable pub is_due : Turn → Loop → Bool
is_due t l =
    state_changed l.last_published l.app.node.manager.node_state
    || (periodic_due t l || l.app.mesh_status_publish_requested)

-- The messages to the other nodes.
unfoldable pub send_state : Turn → Node → Node × List Send
send_state t n =
    let (a, status) = send_local_status_to_neighbors t.esp n in
    let (b, message) = send_state_to_neighbors t.world a in
    if a.mesh_initialized && ltb 0 t.net.layer then (b, status ++ message) else (a, status)

unfoldable pub publish_state : Turn → Loop → Loop × Output
publish_state t l =
    let (n, sends) = send_state t l.app.node in
    let bridge = t.net.is_root && l.app.mqtt_connected in
    (
      record l {
        app = record (l.app) { node = n; mesh_status_publish_requested = false };
        last_mesh_state_publish = t.now;
        last_published = some l.app.node.manager.node_state;
      },
      record {
        acts = [];
        sends = sends;
        topology = bridge && (periodic_due t l || l.app.mesh_status_publish_requested);
        state = bridge;
        answers = [];
      },
    )

-- The state of the node, once in STATE_UPDATE_INTERVAL.
unfoldable pub update_turn : Turn → Loop → Loop × Output
update_turn t l =
    let updated = set_node (update_node t l.app.node) (record l { last_state_update = t.now }) in
    let published = publish_state t updated in
    if leb state_update_interval (sub32 t.now l.last_state_update)
    then (if is_due t updated then published else (updated, silent))
    else (l, silent)

unfoldable pub cleanup_turn : Turn → Loop → Loop
cleanup_turn t l =
    let cleaned = record (l.app.node) {
      neighbor_list = cleanup_inactive_neighbors (millis t.world.us) l.app.node.neighbor_list;
    } in
    if leb 1000 (sub32 t.now l.last_neighbor_cleanup)
    then set_node cleaned (record l { last_neighbor_cleanup = t.now })
    else l

unfoldable pub visualization_turn : Turn → Loop → Loop × List Send
visualization_turn t l =
    if (t.net.has_ip || t.net.is_root) && leb 1000 (sub32 t.now l.last_visualization_update)
    then (
      record l { last_visualization_update = t.now },
      send_state_update_to_visualization l.app.node,
    )
    else (l, [])

abbrev pub accepted : Bool → Option (List Chunk) → List Chunk
accepted tcp none = []
accepted tcp (some chunks) = if tcp then chunks else []

-- The client that is accepted is served until it disconnects.
unfoldable pub client_turn : Turn → Loop → Loop × List Bytes
client_turn t l =
    let (n, answers) = handle_tcp_client t.world (accepted l.app.tcp_open t.client) l.app.node in
    (set_node n l, answers)

unfoldable pub loop_turn : Turn → Loop → Loop × Output
loop_turn t l =
    let (a, acts) = check_mesh_health t.net t.now l.app in
    let (updated, out) = update_turn t (record l { app = a }) in
    let (shown, datagrams) = visualization_turn t (cleanup_turn t updated) in
    let (served, answers) = client_turn t shown in
    (served, record out { acts = acts; sends = out.sends ++ datagrams; answers = answers })
