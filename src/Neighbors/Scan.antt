-- ===== src/Neighbors/Scan.antt =====
-- src/mesh_node.cpp: the scan for access points, which a build with ENABLE_WIFI_NEIGHBOR_SCAN has.
use mesh_visualization.Prelude.{
  ℕ, ap, Bool, ◌||◌, Option, none, some, List, [], ◌∷◌, arith, if◌then◌else◌, length, take, Bytes,
  bytes_eq,
}
use mesh_visualization.Prelude.Int.{ℤ, pos, negsuc, eqb_ℤ}
use mesh_visualization.Config.{mesh_router_ssid}
use mesh_visualization.State.{Mac}
use mesh_visualization.Neighbors.{Table, update_neighbor_list, cleanup_inactive_neighbors}
use mesh_visualization.Neighbors.Invariant.{
  IsValid, update_neighbor_list-IsValid, cleanup_inactive_neighbors-IsValid,
}

-- The fields of a `wifi_ap_record_t` that the callback reads.
pub record AccessPoint : Type 0 where
  pub bssid : Mac
  pub ssid : Bytes
  pub rssi : ℤ

-- An invalid signal, or a name that starts with the router's.
abbrev is_skipped : AccessPoint → Bool
is_skipped ap =
    (eqb_ℤ ap.rssi (pos 0) || eqb_ℤ ap.rssi (negsuc 127))
    || bytes_eq (take (length mesh_router_ssid) ap.ssid) mesh_router_ssid

-- The loop over the records that were found.
unfoldable pub scan_records : Mac → ℕ → List AccessPoint → Table → Table
scan_records own now [] ns = ns
scan_records own now (ap ∷ aps) ns =
    scan_records own now aps
      (if is_skipped ap then ns else update_neighbor_list own ap.bssid ap.rssi now ns)

-- `wifi_scan_done_callback` at a time in milliseconds, given the records that the driver returns
-- for WIFI_EVENT_SCAN_DONE; there are none for another event.
unfoldable pub wifi_scan_done_callback : Mac → ℕ → Option (List AccessPoint) → Table → Table
wifi_scan_done_callback own now none ns = ns
wifi_scan_done_callback own now (some aps) ns =
    cleanup_inactive_neighbors now (scan_records own now aps ns)

scan_records-IsValid :
    (own : Mac) (now : ℕ) (aps : List AccessPoint) (ns : Table)
    → IsValid own ns
    → IsValid own (scan_records own now aps ns)
unfolding scan_records
scan_records-IsValid own now [] ns v = v
scan_records-IsValid own now (ap ∷ aps) ns v =
    scan_records-IsValid own now aps _
      (ground (arith, v, update_neighbor_list-IsValid own ap.bssid ap.rssi now ns v))

-- Whatever access points a scan finds, a valid table stays valid.
pub wifi_scan_done_callback-IsValid :
    (own : Mac) (now : ℕ) (found : Option (List AccessPoint)) (ns : Table)
    → IsValid own ns
    → IsValid own (wifi_scan_done_callback own now found ns)
unfolding wifi_scan_done_callback
wifi_scan_done_callback-IsValid own now none ns v = v
wifi_scan_done_callback-IsValid own now (some aps) ns v =
    cleanup_inactive_neighbors-IsValid own now _ (scan_records-IsValid own now aps ns v)
