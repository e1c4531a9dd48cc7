-- ===== src/Node/Invariant.antt =====
-- src/mesh_node.cpp and src/state_manager.cpp: what the operations of a node preserve, whatever
-- bytes it receives.
use mesh_visualization.Prelude.{ℕ, ◌≡◌, true, false, Option, some, List, arith, Bytes}
use mesh_visualization.Prelude.Int.{ℤ}
use mesh_visualization.Config.{millis}
use mesh_visualization.Floats.{FloatUnit}
use mesh_visualization.State.{Mac}
use mesh_visualization.Neighbors.{update_neighbor_list, cleanup_inactive_neighbors}
use mesh_visualization.Neighbors.Scan.{
  AccessPoint, wifi_scan_done_callback, wifi_scan_done_callback-IsValid,
}
use mesh_visualization.Neighbors.Invariant as NeighborsInvariant
use mesh_visualization.Manager.Invariant as ManagerInvariant
use mesh_visualization.Manager.{Manager}
use mesh_visualization.Manager.Stored.{IsStored, Step-IsStored}
use mesh_visualization.Wire.Messages.{decode_command, decode_header}
use mesh_visualization.Node.{
  Node, World, count_message, run_command, apply_mesh_command, send_state_to_neighbors,
  broadcast_state, send_mesh_command_to_node, set_node_state,
}
use mesh_visualization.Node.Receive.{
  mesh_receive, receive_command, receive_message, local_status_recv_callback, EspNow,
  init_local_neighbor_status, send_local_status_to_neighbors,
}
use mesh_visualization.Node.Status.{local_status_recv_callback-IsValid}
use mesh_visualization.Node.Decoded.{AllBytes, decode_header-IsReceived}

-- The state and the neighbor table are valid, and so is what the flash store holds.
pub record IsValid (n : Node) : Type 0 where
  pub state : ManagerInvariant.IsValid n.manager.node_state
  pub table : NeighborsInvariant.IsValid n.node_mac n.neighbor_list
  pub stored : IsStored n.manager.stored

with_manager :
    (fpu : FloatUnit) (n : Node) (m : Manager)
    → ManagerInvariant.Step fpu n.manager m
    → IsValid n
    → IsValid (record n { manager = m })
with_manager fpu n m s v =
    let state =
      ManagerInvariant.Reach-IsValid fpu (ManagerInvariant.next ManagerInvariant.here s) v.state in
    record { state = state; table = v.table; stored = Step-IsStored fpu s v.state state v.stored }

module _ (w : World) where
  send_state-IsValid : (n : Node) → IsValid n → IsValid (send_state_to_neighbors w n).0
  unfolding send_state_to_neighbors
  send_state-IsValid n v =
      let counted : IsValid (count_message n) = record {
        state = v.state;
        table = v.table;
        stored = v.stored;
      } in
      ground (arith, v, counted)

  run_command-IsValid : (command : ℕ) (n : Node) → IsValid n → IsValid (run_command w command n).0
  unfolding run_command
  run_command-IsValid command n v = ground (
    arith,
    v,
    send_state-IsValid _
        (with_manager w.fpu n _ (ManagerInvariant.toggle (millis w.us) n.manager) v),
    with_manager w.fpu n _ (ManagerInvariant.highlight true n.manager) v,
    with_manager w.fpu n _ (ManagerInvariant.highlight false n.manager) v,
  )

  receive_command-IsValid :
      (payload : Bytes) (n : Node) → IsValid n → IsValid (receive_command w payload n).0
  unfolding receive_command apply_mesh_command
  receive_command-IsValid payload n v =
      ground (arith, v, run_command-IsValid (decode_command payload).command n v)

  receive_message-IsValid :
      (payload : Bytes) (n : Node)
      → AllBytes payload
      → IsValid n
      → IsValid (receive_message w payload n).0
  unfolding receive_message
  receive_message-IsValid payload n b v = ground (
    arith,
    v,
    with_manager w.fpu n _
        (ManagerInvariant.adopt w.nvs w.random (decode_header payload).3 n.manager
          (decode_header-IsReceived payload b))
        v,
  )

  mesh_receive-IsValid :
      (payload : Bytes) (n : Node)
      → AllBytes payload
      → IsValid n
      → IsValid (mesh_receive w (some payload) n).0
  unfolding mesh_receive
  mesh_receive-IsValid payload n b v =
      ground (arith, v, receive_command-IsValid payload n v, receive_message-IsValid payload n b v)

  broadcast-IsValid :
      (routing : Option (List Mac)) (n : Node) → IsValid n → IsValid (broadcast_state w routing n).0
  unfolding broadcast_state
  broadcast-IsValid routing n v =
      let counted : IsValid (count_message n) = record {
        state = v.state;
        table = v.table;
        stored = v.stored;
      } in
      ground (arith, v, counted, send_state-IsValid n v)

  send_command-IsValid :
      (target : Mac) (command value : ℕ) (n : Node)
      → IsValid n
      → IsValid (send_mesh_command_to_node w target command value n).0
  unfolding send_mesh_command_to_node
  send_command-IsValid target command value n v =
      let counted : IsValid (count_message n) = record {
        state = v.state;
        table = v.table;
        stored = v.stored;
      } in
      ground (arith, v, counted, run_command-IsValid command n v)

-- One operation of a node.
pub data Step : Node → Node → Type 0 where
  receive :
      (w : World) (payload : Bytes) (n : Node)
      → AllBytes payload
      → Step n (mesh_receive w (some payload) n).0
  hear :
      (w : World) (rx_ctrl : Option ℤ) (payload : Bytes) (n : Node)
      → Step n (local_status_recv_callback w rx_ctrl payload n)
  find :
      (mac : Mac) (rssi : ℤ) (now : ℕ) (n : Node)
      → Step n (record n {
        neighbor_list = update_neighbor_list n.node_mac mac rssi now n.neighbor_list;
      })
  scan :
      (now : ℕ) (found : Option (List AccessPoint)) (n : Node)
      → Step n (record n {
        neighbor_list = wifi_scan_done_callback n.node_mac now found n.neighbor_list;
      })
  clean :
      (now : ℕ) (n : Node)
      → Step n (record n { neighbor_list = cleanup_inactive_neighbors now n.neighbor_list })
  command :
      (w : World) (target : Mac) (code value : ℕ) (n : Node)
      → Step n (send_mesh_command_to_node w target code value n).0
  broadcast :
      (w : World) (routing : Option (List Mac)) (n : Node) → Step n (broadcast_state w routing n).0
  send : (w : World) (n : Node) → Step n (send_state_to_neighbors w n).0
  report : (esp : EspNow) (n : Node) → Step n (send_local_status_to_neighbors esp n).0
  set_state : (state : ℕ) (n : Node) → Step n (set_node_state state n)
  manage :
      (fpu : FloatUnit) (n : Node) (m : Manager)
      → ManagerInvariant.Step fpu n.manager m
      → Step n (record n { manager = m })

pub data Reach (n : Node) : Node → Type 0 where
  here : Reach n n
  next : {t u : Node} → Reach n t → Step t u → Reach n u

pub Reach-trans : {n t u : Node} → Reach n t → Reach t u → Reach n u
Reach-trans r here = r
Reach-trans r (next q s) = next (Reach-trans r q) s

hear-same :
    (w : World) (rx_ctrl : Option ℤ) (payload : Bytes) (n : Node)
    → ((local_status_recv_callback w rx_ctrl payload n).node_mac ≡ n.node_mac)
      × ((local_status_recv_callback w rx_ctrl payload n).manager ≡ n.manager)
unfolding local_status_recv_callback
hear-same w rx_ctrl payload n = (ground arith, ground arith)

report-IsValid :
    (esp : EspNow) (n : Node) → IsValid n → IsValid (send_local_status_to_neighbors esp n).0
unfolding send_local_status_to_neighbors init_local_neighbor_status
report-IsValid esp n v =
    let ready : IsValid (record n { local_status_initialized = true }) = record {
      state = v.state;
      table = v.table;
      stored = v.stored;
    } in
    ground (arith, v, ready)

set_state-IsValid : (state : ℕ) (n : Node) → IsValid n → IsValid (set_node_state state n)
unfolding set_node_state
set_state-IsValid state n v = record {
  state = record {
    kernel = v.state.kernel;
    rules = v.state.rules;
    count = v.state.count;
    binary = v.state.binary;
    kernel_counter = v.state.kernel_counter;
    activation_counter = v.state.activation_counter;
    value_counter = v.state.value_counter;
  };
  table = v.table;
  stored = v.stored;
}

-- Several operations of the state manager.
pub managed-Reach :
    (fpu : FloatUnit) (n : Node) {m : Manager}
    → ManagerInvariant.Reach fpu n.manager m
    → Reach n (record n { manager = m })
managed-Reach fpu n ManagerInvariant.here = here
managed-Reach fpu n (ManagerInvariant.next r s) = next (managed-Reach fpu n r) (manage fpu _ _ s)

Step-IsValid : {n t : Node} → Step n t → IsValid n → IsValid t
Step-IsValid (receive w payload n b) v = mesh_receive-IsValid w payload n b v
Step-IsValid (hear w rx_ctrl payload n) v = record {
  state = rw (hear-same w rx_ctrl payload n).1 v.state;
  stored = rw (hear-same w rx_ctrl payload n).1 v.stored;
  table =
      rw (hear-same w rx_ctrl payload n).0
        (local_status_recv_callback-IsValid w rx_ctrl payload n v.table);
}
Step-IsValid (find mac rssi now n) v = record {
  state = v.state;
  stored = v.stored;
  table =
      NeighborsInvariant.update_neighbor_list-IsValid n.node_mac mac rssi now n.neighbor_list
        v.table;
}
Step-IsValid (scan now found n) v = record {
  state = v.state;
  stored = v.stored;
  table = wifi_scan_done_callback-IsValid n.node_mac now found n.neighbor_list v.table;
}
Step-IsValid (clean now n) v = record {
  state = v.state;
  stored = v.stored;
  table =
      NeighborsInvariant.cleanup_inactive_neighbors-IsValid n.node_mac now n.neighbor_list v.table;
}
Step-IsValid (command w target code value n) v = send_command-IsValid w target code value n v
Step-IsValid (broadcast w routing n) v = broadcast-IsValid w routing n v
Step-IsValid (send w n) v = send_state-IsValid w n v
Step-IsValid (report esp n) v = report-IsValid esp n v
Step-IsValid (set_state state n) v = set_state-IsValid state n v
Step-IsValid (manage fpu n m s) v = with_manager fpu n m s v

-- Whatever bytes a node receives and hears and whatever it does, in whatever order and with
-- whatever answers of the libraries: if its state, its neighbor table and what its flash store
-- holds are valid, they stay valid.
pub node-Reach-IsValid : {n t : Node} → Reach n t → IsValid n → IsValid t
node-Reach-IsValid here v = v
node-Reach-IsValid (next r s) v = Step-IsValid s (node-Reach-IsValid r v)
