-- ===== src/App/Loop/Published.antt =====
-- src/main.cpp: what a turn of the loop publishes, and that no change of the state goes
-- unpublished.
use mesh_visualization.Prelude.{
  ◌≤◌, ◌<◌, ◌≡◌, refl, ◌↔◌, ◌⊎◌, inl, inr, true, false, some, List, ◌++◌, arith, ltb, leb,
  Bool-cases,
}
use mesh_visualization.Config.{sub32, state_update_interval}
use mesh_visualization.Node.{Node, Send, send_state_to_neighbors}
use mesh_visualization.Node.Receive.{send_local_status_to_neighbors, init_local_neighbor_status}
use mesh_visualization.App.Loop.{
  Loop, Turn, Output, silent, set_node, update_node, is_due, send_state, publish_state, update_turn,
}
use mesh_visualization.App.Loop.Wanted.{
  SameView-refl, Periodic, Wanted, Settled, due_iff, wanted, settled, not-Wanted,
}

-- The datagrams that tell the other nodes of the state: the local status, and behind it the message
-- to the mesh where the node is in a mesh and has a layer in it.
abbrev pub Tells : Turn → Node → List Send → Type 0
Tells t n sends =
    let (told, status) = send_local_status_to_neighbors t.esp n in
    ((n.mesh_initialized ≡ true)
      × (0 < t.net.layer)
      × (sends ≡ status ++ (send_state_to_neighbors t.world told).1))
    ⊎ (((n.mesh_initialized ≡ false) ⊎ (t.net.layer ≡ 0)) × (sends ≡ status))

-- The turn publishes the state of the node: to the other nodes, and by MQTT where the node is the
-- root and connected, with the topology if it is time or was asked for.
pub record Published (t : Turn) (l : Loop) (n : Node) (u : Loop) (out : Output) : Type 0 where
  pub last : u.last_published ≡ some n.manager.node_state
  pub time : u.last_mesh_state_publish ≡ t.now
  pub nodes : Tells t n out.sends
  pub mqtt : (out.state ≡ true) ↔ ((t.net.is_root ≡ true) × (l.app.mqtt_connected ≡ true))
  pub topology :
      (out.topology ≡ true)
      ↔ ((out.state ≡ true) × (Periodic t l ⊎ (l.app.mesh_status_publish_requested ≡ true)))

status-mesh_initialized :
    (t : Turn) (n : Node)
    → (send_local_status_to_neighbors t.esp n).0.mesh_initialized ≡ n.mesh_initialized
unfolding send_local_status_to_neighbors init_local_neighbor_status
status-mesh_initialized t n = ground arith

send_state-Tells : (t : Turn) (n : Node) → Tells t n (send_state t n).1
unfolding send_state
send_state-Tells t n =
    let same = status-mesh_initialized t n in
    elim (Bool-cases n.mesh_initialized) [
      | inr e ↦ rw (same, e) (inr (inl refl, refl))
      | inl e ↦ elim (Bool-cases (ltb 0 t.net.layer)) [
        | inl f ↦ rw (same, e, f) (inl (refl, ground arith, refl))
        | inr f ↦ rw (same, e, f) (inr (inr (ground arith), refl))
      ]
    ]

send_state-manager : (t : Turn) (n : Node) → (send_state t n).0.manager ≡ n.manager
unfolding send_state send_local_status_to_neighbors init_local_neighbor_status
    send_state_to_neighbors
send_state-manager t n = ground arith

publish_state-Published :
    (t : Turn) (l : Loop) → let (u, out) = publish_state t l in Published t l l.app.node u out
unfolding publish_state
publish_state-Published t l = record {
  last = refl;
  time = refl;
  nodes = send_state-Tells t l.app.node;
  mqtt = ((λ h. ground arith), (λ h. ground arith));
  topology = (
    (λ h. (ground arith, (due_iff t l).0 (ground arith))),
    (λ h. ground (arith, (due_iff t l).1 h.1, h.0)),
  );
}

publish_state-Settled :
    (t : Turn) (l : Loop)
    → let u = (publish_state t l).0 in (u.app.node.manager ≡ l.app.node.manager) × Settled u
unfolding publish_state
publish_state-Settled t l =
    let same = send_state-manager t l.app.node in
    (same, ((l.app.node.manager.node_state, refl, rw same (SameView-refl _)), refl))

-- A turn in which the update of the state is due leaves no request to publish, and the state noted
-- as published last is the same as the node's in eight fields: state, value, temperature, presence,
-- distance and the three counters. If none was published so far, the last one differs in such a
-- field, the time between two publications has passed or it was asked for, then the turn notes the
-- updated state and the time, sends the local status and behind it, if the node is in the mesh at
-- a layer above zero, the mesh message, and publishes by MQTT exactly if the node is the root and
-- connected, with the topology if the time has passed or it was asked for. Otherwise it sends and
-- publishes nothing.
pub update_turn_lem :
    (t : Turn) (l : Loop)
    → state_update_interval ≤ sub32 t.now l.last_state_update
    → let (u, out) = update_turn t l in
      let n = update_node t l.app.node in
      (u.app.node.manager ≡ n.manager)
      × Settled u
      × ((Wanted t l n.manager.node_state × Published t l n u out)
          ⊎ ((¬ Wanted t l n.manager.node_state)
              × (u.last_published ≡ l.last_published)
              × (out ≡ silent)))
unfolding update_turn
update_turn_lem t l h =
    let updated = set_node (update_node t l.app.node) (record l { last_state_update = t.now }) in
    let due : leb state_update_interval (sub32 t.now l.last_state_update) ≡ true = ground arith in
    elim (Bool-cases (is_due t updated)) [
      | inl e ↦
          let (same, rest) = publish_state-Settled t updated in
          let p = publish_state-Published t updated in
          rw (due, e)
            (
              same,
              rest,
              inl (
                wanted t updated e,
                record {
                  last = p.last;
                  time = p.time;
                  nodes = p.nodes;
                  mqtt = p.mqtt;
                  topology = p.topology;
                },
              ),
            )
      | inr e ↦ rw (due, e) (refl, settled t updated e, inr (not-Wanted t updated e, refl, refl))
    ]
