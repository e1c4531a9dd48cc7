-- ===== src/App/Lives.antt =====
-- src/main.cpp: the life of a node, from its first start over any number of restarts.
use mesh_visualization.Prelude.{
  ◌≡◌, refl, sym, ap, ◌∙◌, false, Option, none, some, arith, length, bytes_eq, if_elim,
}
use mesh_visualization.Config.{kernel_size}
use mesh_visualization.State.{zero_mac}
use mesh_visualization.Neighbors.{init_neighbor_list}
use mesh_visualization.Neighbors.Invariant.{init_neighbor_list-IsValid}
use mesh_visualization.Manager.{Blob}
use mesh_visualization.Manager.Activation.{init_state}
use mesh_visualization.Manager.Stored.{IsStored}
use mesh_visualization.Manager.Initial.{init_state-IsSafe}
use mesh_visualization.Node.{Node}
use mesh_visualization.Node.Invariant as Noded
use mesh_visualization.Node.Receive.{EspNow, init_local_neighbor_status}
use mesh_visualization.App.{init_mesh, init_udp}
use mesh_visualization.App.Core.{core, core-IsValid, core-init_mesh, core-init_udp}
use mesh_visualization.App.Loop.{Loop}
use mesh_visualization.App.Valid.{Step, program_step-IsValid}
use mesh_visualization.App.Start.{
  Start, Started, initial_node, initial_app, init_node, set_up, app_main,
}

-- Unless its address is zero, a node starts.
pub app_main-some :
    (s : Start) (stored : Option Blob)
    → bytes_eq s.mac zero_mac ≡ false
    → (t : Started) × (app_main s stored ≡ some t)
unfolding app_main
app_main-some s stored h = (set_up s stored, rw h refl)

-- What a node goes through whose flash store holds `stored` at first; at a restart, which may come
-- after any step, all but the content of the flash store is lost.
pub data Lives (stored : Option Blob) : Loop → Type 0 where
  start :
      (s : Start) (t : Started)
      → length s.weights ≡ kernel_size
      → app_main s stored ≡ some t
      → Lives stored t.loop
  then_step : {l u : Loop} → Lives stored l → Step l u → Lives stored u
  restart :
      (s : Start) (t : Started) {l : Loop}
      → Lives stored l
      → length s.weights ≡ kernel_size
      → app_main s l.app.node.manager.stored ≡ some t
      → Lives stored t.loop

core-init_local_neighbor_status :
    (esp : EspNow) (n : Node) → core (init_local_neighbor_status esp n) ≡ core n
unfolding init_local_neighbor_status
core-init_local_neighbor_status esp n = ground arith

init_node-IsValid :
    (s : Start) (stored : Option Blob)
    → length s.weights ≡ kernel_size
    → IsStored stored
    → Noded.IsValid (init_node s (initial_node s.mac stored))
unfolding init_node
init_node-IsValid s stored size h =
    let w = s.world in
    let n = initial_node s.mac stored in
    let safe = init_state-IsSafe w.fpu w.nvs s.led_created w.random s.weights n.manager size h in
    let filled = record n {
      manager = init_state w.fpu w.nvs s.led_created w.random s.weights n.manager;
      neighbor_list = init_neighbor_list;
    } in
    core-IsValid filled (init_local_neighbor_status s.esp filled)
      (core-init_local_neighbor_status s.esp filled)
      (record {
        state = safe.state;
        table = init_neighbor_list-IsValid s.mac;
        stored = safe.stored;
      })

-- The node that is started, or another if none is.
node_or : Node → Option Started → Node
node_or n none = n
node_or n (some t) = t.loop.app.node

app_main-IsValid :
    (s : Start) (stored : Option Blob) (t : Started)
    → length s.weights ≡ kernel_size
    → IsStored stored
    → app_main s stored ≡ some t
    → Noded.IsValid t.loop.app.node
unfolding app_main set_up node_or
app_main-IsValid s stored t size h e =
    let n = init_node s (initial_node s.mac stored) in
    let a = (init_mesh s.net (initial_app n)).0 in
    let u = (init_udp s.net a).node in
    let valid : Noded.IsValid u =
      core-IsValid n u (core-init_udp s.net 0 a ∙ core-init_mesh s.net 0 (initial_app n))
        (init_node-IsValid s stored size h) in
    let same : u ≡ t.loop.app.node =
      sym
        (if_elim (λ (r : Option Started). node_or u r ≡ u) (bytes_eq s.mac zero_mac) _ _ refl refl)
      ∙ ap (node_or u) e in
    rw (sym same) valid

-- If the flash store holds nothing at the first start, or a blob whose arrays and counters have
-- the sizes of their C types, and nine random words are drawn at every start: whatever the node
-- goes through, turns of the loop, events of the mesh, the network and the broker, MQTT commands
-- and TCP clients with any bytes, received messages and restarts, in whatever order and with
-- whatever answers of the libraries, its state and its neighbor table are valid, and the blob that
-- its flash store holds, if any, has such sizes.
pub lives-IsValid :
    (stored : Option Blob) {l : Loop} → IsStored stored → Lives stored l → Noded.IsValid l.app.node
lives-IsValid stored h (start s t size e) = app_main-IsValid s stored t size h e
lives-IsValid stored h (then_step r s) = program_step-IsValid s (lives-IsValid stored h r)
lives-IsValid stored h (restart s t r size e) =
    app_main-IsValid s _ t size (lives-IsValid stored h r).stored e
