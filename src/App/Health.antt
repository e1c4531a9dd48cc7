-- ===== src/App/Health.antt =====
-- src/main.cpp: `check_mesh_health`, which watches over the attachment to the mesh.
pub mod Watch
use mesh_visualization.Prelude.{
  ℕ, false, not, ◌&&◌, none, List, [], ◌∷◌, ◌++◌, ltb, leb, ◌==◌, if◌then◌else◌,
}
use mesh_visualization.Config.{
  sub32, mesh_health_check_interval_ms, mesh_reconnect_attempt_ms, mesh_reconnect_restart_ms,
}
use mesh_visualization.App.{
  App, Net, Act, stop_mesh, connect, start_dhcp, init_mesh, init_mqtt, mqtt_disconnect,
  request_mesh_status_publish, set_mesh_initialized, set_root_addr,
}

-- The root in a mesh: with an address the bridge runs, without one it pauses.
unfoldable pub check_root : Net → ℕ → App → App × List Act
check_root net now a =
    let timed = if a.last_root_ip_ok_ms == 0 then record a { last_root_ip_ok_ms = now } else a in
    if net.has_ip
    then (init_mqtt net (record a { last_root_ip_ok_ms = now }), [])
    else (mqtt_disconnect timed, if net.has_netif then start_dhcp ∷ [] else [])

-- A request to reconnect, where both times are long enough ago.
unfoldable pub request_reconnect : ℕ → App → App × List Act
request_reconnect now a =
    if leb mesh_reconnect_attempt_ms (sub32 now a.last_mesh_attached_ms)
      && leb mesh_reconnect_attempt_ms (sub32 now a.last_mesh_reconnect_attempt_ms)
    then (set_root_addr none (record a { last_mesh_reconnect_attempt_ms = now }), connect ∷ [])
    else (a, [])

-- A restart of the mesh, where it has been detached for long enough.
unfoldable pub restart_mesh : Net → ℕ → App → App × List Act
restart_mesh net now a =
    let (b, acts) = init_mesh net (set_mesh_initialized false (set_root_addr none a)) in
    if leb mesh_reconnect_restart_ms (sub32 now a.last_mesh_attached_ms)
    then (
      request_mesh_status_publish
          (record b { last_mesh_attached_ms = now; last_mesh_reconnect_attempt_ms = now }),
      stop_mesh ∷ acts,
    )
    else (a, [])

unfoldable pub check_detached : Net → ℕ → App → App × List Act
check_detached net now a =
    let (b, asked) = request_reconnect now a in
    let (c, restarted) = restart_mesh net now b in
    if a.last_mesh_attached_ms == 0
    then (record a { last_mesh_attached_ms = now }, [])
    else (c, asked ++ restarted)

-- `check_mesh_health` at a time in milliseconds.
unfoldable pub check_mesh_health : Net → ℕ → App → App × List Act
check_mesh_health net now a =
    let b = record a { last_mesh_health_check_ms = now } in
    let attached = record b { last_mesh_attached_ms = now } in
    if ltb (sub32 now a.last_mesh_health_check_ms) mesh_health_check_interval_ms
    then (a, [])
    else if not a.node.mesh_initialized
    then init_mesh net b
    else if ltb 0 net.layer
    then (if net.is_root then check_root net now attached else (attached, []))
    else check_detached net now b
