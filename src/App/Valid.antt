-- ===== src/App/Valid.antt =====
-- src/main.cpp: what the turns of the loop and the events of the program preserve.
use mesh_visualization.Prelude.{ℕ, ◌≡◌, ◌&&◌, List, arith, ltb, leb, if_elim}
use mesh_visualization.Config.{millis, sub32, state_update_interval}
use mesh_visualization.Manager.Invariant as Managed
use mesh_visualization.Node.{Node, Send}
use mesh_visualization.Node.Receive.{send_local_status_to_neighbors}
use mesh_visualization.Node.Invariant as Noded
use mesh_visualization.Mqtt.Command.{Host}
use mesh_visualization.Mqtt.Command.Valid.{handle_mqtt_command-Reach}
use mesh_visualization.Mqtt.Topology.{Mesh}
use mesh_visualization.App.{
  App, Net, MqttEvent, mqtt_event_handler, mqtt_event_connected, mqtt_event_disconnected,
  mqtt_event_error, mqtt_event_data, MeshEvent, mesh_event_handler, ip_event_handler,
}
use mesh_visualization.App.Health.{check_mesh_health}
use mesh_visualization.App.Core.{
  core-IsValid, core-check_mesh_health, core-mesh_event_handler, core-ip_event_handler,
}
use mesh_visualization.App.Tcp.Valid.{handle_tcp_client-Reach}
use mesh_visualization.App.Loop.{
  Loop, Turn, Output, set_node, update_node, is_due, send_state, publish_state, update_turn,
  cleanup_turn, visualization_turn, accepted, client_turn, loop_turn,
}

module _ (t : Turn) where
  update_node-Reach : (n : Node) → Noded.Reach n (update_node t n)
  unfolding update_node
  update_node-Reach n = Noded.managed-Reach t.world.fpu n (
      Managed.next (Managed.next Managed.here (Managed.update t.reading n.neighbor_list n.manager))
        (Managed.fade _))

  send_state-Reach : (n : Node) → Noded.Reach n (send_state t n).0
  unfolding send_state
  send_state-Reach n =
      let status = Noded.next Noded.here (Noded.report t.esp n) in
      let a = (send_local_status_to_neighbors t.esp n).0 in
      if_elim (λ (r : Node × List Send). Noded.Reach n r.0)
        (a.mesh_initialized && ltb 0 t.net.layer) _ _ (Noded.next status (Noded.send t.world a))
        status

  abbrev Reached : Node → Loop × Output → Type 0
  Reached n r = Noded.Reach n r.0.app.node

  update_turn-Reach : (l : Loop) → Reached l.app.node (update_turn t l)
  unfolding update_turn publish_state
  update_turn-Reach l =
      let updated = set_node (update_node t l.app.node) (record l { last_state_update = t.now }) in
      let step = update_node-Reach l.app.node in
      if_elim (Reached l.app.node) (leb state_update_interval (sub32 t.now l.last_state_update)) _ _
        (if_elim (Reached l.app.node) (is_due t updated) _ _
          (Noded.Reach-trans step (send_state-Reach (update_node t l.app.node))) step)
        Noded.here

  cleanup_turn-Reach : (l : Loop) → Noded.Reach l.app.node (cleanup_turn t l).app.node
  unfolding cleanup_turn
  cleanup_turn-Reach l =
      if_elim (λ (r : Loop). Noded.Reach l.app.node r.app.node)
        (leb 1000 (sub32 t.now l.last_neighbor_cleanup)) _ _
        (Noded.next Noded.here (Noded.clean (millis t.world.us) l.app.node)) Noded.here

  visualization_turn-same : (l : Loop) → (visualization_turn t l).0.app.node ≡ l.app.node
  unfolding visualization_turn
  visualization_turn-same l = ground arith

  client_turn-Reach : (l : Loop) → Noded.Reach l.app.node (client_turn t l).0.app.node
  unfolding client_turn
  client_turn-Reach l =
      handle_tcp_client-Reach t.world (accepted l.app.tcp_open t.client) l.app.node

  loop_turn-IsValid :
      (l : Loop) → Noded.IsValid l.app.node → Noded.IsValid (loop_turn t l).0.app.node
  unfolding loop_turn
  loop_turn-IsValid l v =
      let a = (check_mesh_health t.net t.now l.app).0 in
      let checked = record l { app = a } in
      let updated = (update_turn t checked).0 in
      let cleaned = cleanup_turn t updated in
      let shown = (visualization_turn t cleaned).0 in
      let healthy = core-IsValid l.app.node a.node (core-check_mesh_health t.net t.now l.app) v in
      let before =
        Noded.node-Reach-IsValid
          (Noded.Reach-trans (update_turn-Reach checked) (cleanup_turn-Reach updated)) healthy in
      Noded.node-Reach-IsValid (client_turn-Reach shown)
        (rw (visualization_turn-same cleaned) before)

mqtt_event-Reach :
    (host : Host) (mesh : Mesh) (e : MqttEvent) (a : App)
    → Noded.Reach a.node (mqtt_event_handler host mesh e a).0.node
unfolding mqtt_event_handler
mqtt_event-Reach host mesh mqtt_event_connected a = Noded.here
mqtt_event-Reach host mesh mqtt_event_disconnected a = Noded.here
mqtt_event-Reach host mesh mqtt_event_error a = Noded.here
mqtt_event-Reach host mesh (mqtt_event_data payload) a =
    handle_mqtt_command-Reach host payload a.node

-- One step of the program: a turn of the loop, an event of a library, or an operation of a node,
-- such as the receipt of a message, which another task runs.
pub data Step : Loop → Loop → Type 0 where
  turn : (t : Turn) (l : Loop) → Step l (loop_turn t l).0
  mesh_event :
      (net : Net) (now : ℕ) (e : MeshEvent) (l : Loop)
      → Step l (record l { app = (mesh_event_handler net now e l.app).0 })
  ip_event :
      (net : Net) (now : ℕ) (l : Loop) → Step l (record l { app = ip_event_handler net now l.app })
  mqtt_event :
      (host : Host) (mesh : Mesh) (e : MqttEvent) (l : Loop)
      → Step l (record l { app = (mqtt_event_handler host mesh e l.app).0 })
  node_step : (l : Loop) (n : Node) → Noded.Step l.app.node n → Step l (set_node n l)

pub program_step-IsValid :
    {l u : Loop} → Step l u → Noded.IsValid l.app.node → Noded.IsValid u.app.node
program_step-IsValid (turn t l) v = loop_turn-IsValid t l v
program_step-IsValid (mesh_event net now e l) v =
    core-IsValid l.app.node _ (core-mesh_event_handler net now e l.app) v
program_step-IsValid (ip_event net now l) v =
    core-IsValid l.app.node _ (core-ip_event_handler net now l.app) v
program_step-IsValid (mqtt_event host mesh e l) v =
    Noded.node-Reach-IsValid (mqtt_event-Reach host mesh e l.app) v
program_step-IsValid (node_step l n s) v = Noded.node-Reach-IsValid (Noded.next Noded.here s) v
