-- ===== src/Beacon/Discovery.antt =====
-- src/beacon_monitor.cpp: what an overheard frame does to the table of neighbors.
use mesh_visualization.Prelude.{
  ℕ, ◌^◌, ◌≤◌, ◌<◌, ◌≡◌, refl, ◌⊎◌, inl, inr, true, false, Option, none, some, ap, ◌∙◌, arith,
  Bool-cases, Option-cases, length, All, Bytes,
}
use mesh_visualization.Prelude.Int.{ℤ}
use mesh_visualization.Config.{millis}
use mesh_visualization.State.{Mac}
use mesh_visualization.Neighbors.{Table, update_neighbor_list}
use mesh_visualization.Neighbors.Invariant.{IsValid, update_neighbor_list-IsValid}
use mesh_visualization.Beacon.{
  Beacon, Scan, ssid_matches_router, is_mesh_beacon, mac_has_espressif_oui,
  normalize_mesh_ap_bssid_to_sta_mac, is_valid_mac, extract_beacon_info, beacon_neighbor,
  named_neighbor, process_beacon_frame, heard_beacon,
}
use mesh_visualization.Beacon.Address.{IsByte, is_mesh_beacon-reads}
use mesh_visualization.Beacon.Elements.{extract_beacon_info-Extracted}

-- What `beacon_neighbor` has checked when it names a neighbor.
pub record Announces (frame : Bytes) (len : ℕ) (b : Beacon) (mac : Mac) : Type 0 where
  pub not_router : ssid_matches_router b ≡ false
  pub from_mesh : (is_mesh_beacon frame len ≡ some true) ⊎ (mac_has_espressif_oui b.mac ≡ true)
  pub valid : is_valid_mac mac ≡ true
  pub normalized : mac ≡ normalize_mesh_ap_bssid_to_sta_mac b.mac

beacon_neighbor-Announces :
    (frame : Bytes) (len : ℕ) (b : Beacon) {mac : Mac}
    → beacon_neighbor frame len b ≡ some (some mac)
    → Announces frame len b mac
unfolding beacon_neighbor
beacon_neighbor-Announces frame len b h = elim (Option-cases (is_mesh_beacon frame len)) [
  | inl e ↦ ground arith
  | inr (found, e) ↦ ground arith
]

-- The filters read only bytes of the frame.
beacon_neighbor-reads :
    (frame : Bytes) (len : ℕ) (b : Beacon)
    → len ≤ length frame
    → (neighbor : Option Mac) × (beacon_neighbor frame len b ≡ some neighbor)
unfolding beacon_neighbor
beacon_neighbor-reads frame len b h =
    let (found, e) = is_mesh_beacon-reads frame len h in
    elim (Bool-cases (ssid_matches_router b)) [
      | inl r ↦ (none, rw r refl)
      | inr r ↦ (named_neighbor b found, rw (r, e) refl)
    ]

abbrev pub scanned : ℕ → Table → Scan
scanned us t = record { neighbors = t; last_beacon_scan_time = millis us }

-- On a frame of `len` bytes, at most 65535, `process_beacon_frame` reads only bytes of the frame.
-- It leaves everything as it was, or it gives `update_neighbor_list` the station address of a
-- beacon which is not the router's and which carries the mesh identifier or an Espressif address,
-- and notes the time. A valid table stays valid.
pub process_beacon_frame_lem :
    (own : Mac) (us : ℕ) (frame : Bytes) (len : ℕ) (rssi : ℤ) (s : Scan)
    → len ≤ length frame
    → len < 2 ^ 16
    → All IsByte frame
    → IsValid own s.neighbors
    → (t : Scan) × (process_beacon_frame own us frame len rssi s ≡ some t)
      × IsValid own t.neighbors
      × ((t ≡ s)
          ⊎ ((b : Beacon) × (mac : Mac) × (extract_beacon_info frame len ≡ some (some b))
              × Announces frame len b mac
              × (t ≡ scanned us (update_neighbor_list own mac rssi (millis us) s.neighbors))))
unfolding process_beacon_frame heard_beacon
process_beacon_frame_lem own us frame len rssi s h w b v =
    elim (extract_beacon_info-Extracted frame len h w b) [
      | inl e ↦ rw e (s, refl, v, inl refl)
      | inr (k, e, _, _, _, _) ↦
          let (neighbor, n) = beacon_neighbor-reads frame len k h in
          elim (Option-cases neighbor) [
            | inl o ↦ rw (e, n, o) (s, refl, v, inl refl)
            | inr (mac, o) ↦
                rw (e, n, o)
                  (
                    scanned us (update_neighbor_list own mac rssi (millis us) s.neighbors),
                    refl,
                    update_neighbor_list-IsValid own mac rssi (millis us) s.neighbors v,
                    inr (k, mac, refl, beacon_neighbor-Announces frame len k (n ∙ ap some o), refl),
                  )
          ]
    ]
