-- ===== src/Node/Status.antt =====
-- src/mesh_node.cpp: what a local status that one node broadcasts does to the neighbor table of the
-- node that hears it.
use mesh_visualization.Prelude.{
  ℕ, ◌≡◌, refl, ap, ◌∙◌, ◌⊎◌, inl, inr, true, false, Option, some, [], ◌∷◌, arith, if◌then◌else◌,
  All, Bytes, bytes_eq, bytes_eq_refl, bytes_eq→eq,
}
use mesh_visualization.Prelude.Int.{ℤ, ◌≤ℤ◌, ltb_ℤ}
use mathlib.Core.Option
use mesh_visualization.Config.{millis, rssi_threshold}
use mesh_visualization.State.{Mac, Neighbor}
use mesh_visualization.Neighbors.{Table, update_neighbor_list}
use mesh_visualization.Neighbors.Lookup.{lookup, Distinct, update_existing_cases, listed-lookup}
use mesh_visualization.Neighbors.Invariant.{IsValid, update_neighbor_list-IsValid, modify-IsValid}
use mesh_visualization.Neighbors.Update.{IsFull, update_neighbor_list_strong, lookup-modify}
use mesh_visualization.Wire.Messages.{LocalStatus, encode_local_status, decode_local_status}
use mesh_visualization.Wire.RoundTrip.{IsLocalStatus, decode-encode_local_status}
use mesh_visualization.Node.{Node, World, local}
use mesh_visualization.Node.Exchange.{IsNode}
use mesh_visualization.Node.Receive.{
  local_status_recv_callback, report_neighbor, report_status, local_status, signal_of, EspNow,
  send_local_status_to_neighbors, init_local_neighbor_status,
}

module _ (msg : LocalStatus) (now : ℕ) where
  report_neighbor-lookup :
      (m : Mac) (ns : Table)
      → Distinct ns
      → lookup m (report_neighbor msg now ns) ≡ (
          if bytes_eq msg.mac m
          then Option.map (report_status msg now) (lookup m ns)
          else lookup m ns)
  unfolding report_neighbor
  report_neighbor-lookup m ns d =
      update_existing_cases
        (λ t. lookup m t ≡ (
          if bytes_eq msg.mac m
          then Option.map (report_status msg now) (lookup m ns)
          else lookup m ns))
        msg.mac (report_status msg now) ns ns
        (λ h. ground (arith, bytes_eq→eq msg.mac m, listed-lookup m ns))
        (λ i h. lookup-modify (report_status msg now) (λ k n. refl) msg.mac m ns i h.0 d h.1 h.2)

  report_neighbor-IsValid :
      (own : Mac) (ns : Table) → IsValid own ns → IsValid own (report_neighbor msg now ns)
  unfolding report_neighbor
  report_neighbor-IsValid own ns v =
      update_existing_cases (IsValid own) msg.mac (report_status msg now) ns ns (λ _. v)
        (λ i _.
          modify-IsValid (report_status msg now) (λ m n. refl) (λ n. refl) (λ n. refl) own ns i
            (λ n s. s) v)

-- Whatever bytes arrive with whatever signal, a valid neighbor table stays valid.
pub local_status_recv_callback-IsValid :
    (w : World) (rx_ctrl : Option ℤ) (payload : Bytes) (n : Node)
    → IsValid n.node_mac n.neighbor_list
    → IsValid n.node_mac (local_status_recv_callback w rx_ctrl payload n).neighbor_list
unfolding local_status_recv_callback
local_status_recv_callback-IsValid w rx_ctrl payload n v = ground (
  arith,
  v,
  report_neighbor-IsValid msg now n.node_mac _
      (update_neighbor_list-IsValid n.node_mac msg.mac (signal_of rx_ctrl) now n.neighbor_list v),
)
  where
    msg : LocalStatus
    msg = decode_local_status payload

    now : ℕ
    now = millis w.us

-- The entry says what the status says, and when and how strongly it was heard.
pub record Tells (s : LocalStatus) (rssi : ℤ) (now : ℕ) (n : Neighbor) : Type 0 where
  pub mac : n.mac ≡ s.mac
  pub signal : n.rssi ≡ rssi
  pub last_seen : n.last_seen ≡ now
  pub has_state : n.has_state ≡ true
  pub state : n.state.state ≡ s.state
  pub value : n.state.value ≡ s.value
  pub temperature : n.state.temperature ≡ s.temperature
  pub mmwave_presence : n.state.mmwave_presence ≡ s.mmwave_presence
  pub mmwave_distance : n.state.mmwave_distance ≡ s.mmwave_distance
  pub timestamp : n.state.timestamp ≡ s.timestamp
  pub value_sequence : n.state.value_sequence ≡ s.value_sequence

receive-encoded :
    (w : World) (rx_ctrl : Option ℤ) (s : LocalStatus) (n : Node)
    → IsLocalStatus s
    → s.version ≡ 1
    → s.msg_type ≡ 1
    → bytes_eq s.mac n.node_mac ≡ false
    → (local_status_recv_callback w rx_ctrl (encode_local_status s) n).neighbor_list
      ≡ report_neighbor s
          (millis w.us)
          (update_neighbor_list n.node_mac s.mac (signal_of rx_ctrl) (millis w.us) n.neighbor_list)
unfolding local_status_recv_callback
receive-encoded w rx_ctrl s n h v t other =
    let (size, sum, same) = decode-encode_local_status s h in rw (size, same, sum, v, t, other) refl

-- A node whose ESP-NOW is initialised, and whose variables have the sizes and ranges of their C
-- types, broadcasts its status as one message. Another node with a valid table that hears it at
-- the threshold or above has afterwards an entry under the sender's address that says what the
-- sender's state says; or its table was full of entries at least as strong.
pub send_local_status_to_neighbors_lem :
    (esp : EspNow) (w : World) (rx_ctrl : Option ℤ) (from to : Node)
    → IsNode from
    → IsValid to.node_mac to.neighbor_list
    → from.local_status_initialized ≡ true
    → bytes_eq from.node_mac to.node_mac ≡ false
    → ltb_ℤ (signal_of rx_ctrl) rssi_threshold ≡ false
    → (message : Bytes) × (send_local_status_to_neighbors esp from ≡ (from, local message ∷ []))
      × (((n : Neighbor) × (lookup from.node_mac
                (local_status_recv_callback w rx_ctrl message to).neighbor_list
              ≡ some n)
            × Tells (local_status from) (signal_of rx_ctrl) (millis w.us) n)
          ⊎ (IsFull to.neighbor_list × All (λ k. signal_of rx_ctrl ≤ℤ k.rssi) to.neighbor_list))
unfolding send_local_status_to_neighbors init_local_neighbor_status
send_local_status_to_neighbors_lem esp w rx_ctrl from to f v up other strong = (
  encode_local_status (local_status from),
  rw (up) refl,
  elim (update_neighbor_list_strong to.node_mac from.node_mac (signal_of rx_ctrl) (millis w.us)
      to.neighbor_list v other strong) [
        | inl (k, l, m, r, t) ↦ inl (
          report_status (local_status from) (millis w.us) k,
          ap (lookup from.node_mac)
                (receive-encoded w rx_ctrl (local_status from) to representable refl refl other)
              ∙ report_neighbor-lookup (local_status from) (millis w.us) from.node_mac _
                  valid.distinct
              ∙ (rw (bytes_eq_refl from.node_mac, l) refl),
          record {
            mac = m;
            signal = r;
            last_seen = refl;
            has_state = refl;
            state = refl;
            value = refl;
            temperature = refl;
            mmwave_presence = refl;
            mmwave_distance = refl;
            timestamp = refl;
            value_sequence = refl;
          },
        )
        | inr (e, full, all) ↦ inr (full, all)
      ],
)
  where
    representable : IsLocalStatus (local_status from)
    representable = record {
      mac = f.mac;
      temperature = f.state.temperature;
      mmwave_distance = f.state.mmwave_distance;
      timestamp = f.state.timestamp;
      value_sequence = f.state.value_sequence;
    }

    valid : IsValid to.node_mac (
        update_neighbor_list to.node_mac from.node_mac
          (signal_of rx_ctrl)
          (millis w.us)
          to.neighbor_list)
    valid =
        update_neighbor_list-IsValid to.node_mac from.node_mac (signal_of rx_ctrl) (millis w.us)
          to.neighbor_list v
