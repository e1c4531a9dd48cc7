-- ===== src/App/Core.antt =====
-- src/main.cpp: the events of the mesh and the watch over it leave the address, the state and the
-- table of the node as they are.
use mesh_visualization.Prelude.{
  ℕ, ◌≡◌, refl, ap, ◌∙◌, Bool, false, not, ◌&&◌, none, some, List, arith, ltb, leb, ◌==◌,
  if◌then◌else◌, if_elim,
}
use mesh_visualization.Config.{sub32, mesh_health_check_interval_ms, mesh_reconnect_restart_ms}
use mesh_visualization.State.{Mac}
use mesh_visualization.Neighbors.{Table}
use mesh_visualization.Manager.{Manager}
use mesh_visualization.Node.{Node}
use mesh_visualization.Node.Invariant as Noded
use mesh_visualization.App.{
  App, Act, Net, MeshEvent, started, stopped, child_connected, child_disconnected, parent_connected,
  root_address, parent_disconnected, layer_change, no_parent_found, routing_table_changed,
  to_ds_state, mesh_event_handler, ip_event_handler, init_mesh, start_rx_task, init_udp,
  start_tcp_server, init_mqtt, mqtt_disconnect, become_root, request_mesh_status_publish,
  set_mesh_initialized, set_root_addr, attached_at,
}
use mesh_visualization.App.Health.{
  check_mesh_health, check_root, check_detached, request_reconnect, restart_mesh,
}

-- What the validity of a node is about.
abbrev pub Core : Type 0
Core = Mac × Manager × Table

abbrev pub core : Node → Core
core n = (n.node_mac, n.manager, n.neighbor_list)

pub core-IsValid : (n t : Node) → core t ≡ core n → Noded.IsValid n → Noded.IsValid t
core-IsValid n t e v = record {
  state = rw (ap (λ c. c.1) e) v.state;
  stored = rw (ap (λ c. c.1) e) v.stored;
  table = rw (ap (λ c. c.0) e, ap (λ c. c.2) e) v.table;
}

-- The parts of the handlers, which only change the rest.
module _ (net : Net) (now : ℕ) (a : App) where
  core-init_mqtt : core (init_mqtt net a).node ≡ core a.node
  unfolding init_mqtt
  core-init_mqtt = ground arith

  core-mqtt_disconnect : core (mqtt_disconnect a).node ≡ core a.node
  unfolding mqtt_disconnect
  core-mqtt_disconnect = ground arith

  pub core-init_udp : core (init_udp net a).node ≡ core a.node
  unfolding init_udp
  core-init_udp = ground arith

  core-start_tcp_server : core (start_tcp_server net a).node ≡ core a.node
  unfolding start_tcp_server
  core-start_tcp_server = ground arith

  core-start_rx_task : core (start_rx_task a).0.node ≡ core a.node
  core-start_rx_task = ground arith

-- Both branches of a test.
core_if :
    (c : Core) (b : Bool) (x y : App × List Act)
    → core x.0.node ≡ c
    → core y.0.node ≡ c
    → core (if b then x else y).0.node ≡ c
core_if c = if_elim (λ (t : App × List Act). core t.0.node ≡ c)

module _ (net : Net) (now : ℕ) (a : App) where
  pub core-init_mesh : core (init_mesh net a).0.node ≡ core a.node
  unfolding init_mesh
  core-init_mesh =
      let same = core_if (core a.node) in
      same (not a.mesh_stack_initialized && not net.mesh_init_ok) _ _ refl (
        same (not net.mesh_config_ok) _ _ refl
          (same (not net.mesh_start_ok) _ _ refl (core-start_rx_task net now _)))

  core-request_reconnect : core (request_reconnect now a).0.node ≡ core a.node
  unfolding request_reconnect
  core-request_reconnect = ground arith

  core-check_root : core (check_root net now a).0.node ≡ core a.node
  unfolding check_root
  core-check_root =
      core_if (core a.node) net.has_ip _ _
        (core-init_mqtt net now (record a { last_root_ip_ok_ms = now }))
        (core-mqtt_disconnect net now
            (if a.last_root_ip_ok_ms == 0 then record a { last_root_ip_ok_ms = now } else a)
          ∙ if_elim (λ (t : App). core t.node ≡ core a.node) (a.last_root_ip_ok_ms == 0) _ _ refl
              refl)

module _ (net : Net) (now : ℕ) (a : App) where
  core-restart_mesh : core (restart_mesh net now a).0.node ≡ core a.node
  unfolding restart_mesh
  core-restart_mesh =
      core_if (core a.node) (leb mesh_reconnect_restart_ms (sub32 now a.last_mesh_attached_ms)) _ _
        (core-init_mesh net now (set_mesh_initialized false (set_root_addr none a))) refl

  core-become_root : core (become_root net now a).0.node ≡ core a.node
  unfolding become_root
  core-become_root =
      let addressed = set_root_addr (some a.node.node_mac) a in
      let timed = if net.has_ip then record addressed { last_root_ip_ok_ms = now } else addressed in
      let served = start_tcp_server net (init_udp net timed) in
      let same =
        core-start_tcp_server net now (init_udp net timed)
        ∙ core-init_udp net now timed
        ∙ if_elim (λ (t : App). core t.node ≡ core a.node) net.has_ip _ _ refl refl in
      if_elim (λ (t : App). core t.node ≡ core a.node) net.has_ip _ _
        (core-init_mqtt net now served ∙ same) same

module _ (net : Net) (now : ℕ) where
  core-check_detached : (a : App) → core (check_detached net now a).0.node ≡ core a.node
  unfolding check_detached
  core-check_detached a =
      core_if (core a.node) (a.last_mesh_attached_ms == 0) _ _ refl
        (core-restart_mesh net now (request_reconnect now a).0 ∙ core-request_reconnect net now a)

  pub core-check_mesh_health : (a : App) → core (check_mesh_health net now a).0.node ≡ core a.node
  unfolding check_mesh_health
  core-check_mesh_health a =
      let same = core_if (core a.node) in
      let b = record a { last_mesh_health_check_ms = now } in
      same (ltb (sub32 now a.last_mesh_health_check_ms) mesh_health_check_interval_ms) _ _ refl (
        same (not a.node.mesh_initialized) _ _ (core-init_mesh net now b) (
          same (ltb 0 net.layer) _ _
            (same net.is_root _ _
              (core-check_root net now (record b { last_mesh_attached_ms = now })) refl)
            (core-check_detached b)))

  pub core-mesh_event_handler :
      (e : MeshEvent) (a : App) → core (mesh_event_handler net now e a).0.node ≡ core a.node
  unfolding mesh_event_handler
  core-mesh_event_handler started a = refl
  core-mesh_event_handler stopped a = refl
  core-mesh_event_handler child_connected a = refl
  core-mesh_event_handler child_disconnected a = refl
  core-mesh_event_handler parent_connected a =
      core_if (core a.node) net.is_root _ _
        (core-become_root net now (request_mesh_status_publish (attached_at now a))) refl
  core-mesh_event_handler (root_address addr) a = refl
  core-mesh_event_handler parent_disconnected a = refl
  core-mesh_event_handler (layer_change layer) a =
      if_elim (λ (t : App). core t.node ≡ core a.node) (ltb 0 layer) _ _ refl refl
  core-mesh_event_handler no_parent_found a = refl
  core-mesh_event_handler routing_table_changed a = refl
  core-mesh_event_handler to_ds_state a = refl

  pub core-ip_event_handler : (a : App) → core (ip_event_handler net now a).node ≡ core a.node
  unfolding ip_event_handler
  core-ip_event_handler a =
      let timed = request_mesh_status_publish (record a { last_root_ip_ok_ms = now }) in
      core-init_mqtt net now (start_tcp_server net (init_udp net timed))
      ∙ core-start_tcp_server net now (init_udp net timed)
      ∙ core-init_udp net now timed
