-- ===== src/Tests/Beacon.antt =====
-- The theorems on overheard frames, at a beacon of a mesh node.
use mesh_visualization.Prelude.{
  ℕ, ◌+◌, ◌≤◌, ◌≡◌, refl, ◌↔◌, ◌⊎◌, true, some, [], ◌∷◌, ◌++◌, arith, take, drop, replicate, Bytes,
}
use mesh_visualization.Config.{millis}
use mesh_visualization.State.{Mac}
use mesh_visualization.Neighbors.{update_neighbor_list}
use mesh_visualization.Neighbors.Invariant.{IsValid}
use mesh_visualization.Beacon as Bcn
use mesh_visualization.Beacon.{
  Scan, extract_beacon_info, process_beacon_frame, normalize_mesh_ap_bssid_to_sta_mac, is_valid_mac,
  is_mesh_beacon, mesh_id_pattern,
}
use mesh_visualization.Beacon.Address.{normalize_mesh_ap_bssid_to_sta_mac_lem, is_mesh_beacon_iff}
use mesh_visualization.Beacon.Elements.{Extracted, extract_beacon_info-Extracted}
use mesh_visualization.Beacon.Discovery.{Announces, scanned, process_beacon_frame_lem}
use mesh_visualization.Tests.{mac_a, near, table_a, table_a-IsValid}

-- An address that ends in a zero byte, and the one before it.
abbrev bssid : Mac
bssid = 0x24 ∷ 0x0a ∷ 0xc4 ∷ 0 ∷ 1 ∷ 0 ∷ []

abbrev station : Mac
station = 0x24 ∷ 0x0a ∷ 0xc4 ∷ 0 ∷ 0 ∷ 255 ∷ []

-- A beacon with the SSID "hi", and the mesh identifier behind it.
abbrev frame : Bytes
frame =
    (0x80 ∷ replicate 15 0)
    ++ (bssid
        ++ (replicate 14 0
            ++ 0 ∷ 2 ∷ b'h' ∷ b'i' ∷ 0xdd ∷ 6 ∷ 0x47 ∷ 0x4c ∷ 0x4f ∷ 0x57 ∷ 0x20 ∷ 0x01 ∷ []))

abbrev scan : Scan
scan = record { neighbors = table_a; last_beacon_scan_time = 0 }

process_beacon_frame_lem_example :
    (t : Scan) × (process_beacon_frame mac_a 5_000_000 frame 48 near scan ≡ some t)
    × IsValid mac_a t.neighbors
    × ((t ≡ scan)
        ⊎ ((b : Bcn.Beacon) × (mac : Mac) × (extract_beacon_info frame 48 ≡ some (some b))
            × Announces frame 48 b mac
            × (t
                ≡ scanned 5_000_000
                    (update_neighbor_list mac_a mac near (millis 5_000_000) table_a))))
process_beacon_frame_lem_example =
    process_beacon_frame_lem mac_a 5_000_000 frame 48 near scan (omega arith) (omega arith)
      (ground arith) table_a-IsValid

extract_beacon_info-Extracted_example : Extracted frame (extract_beacon_info frame 48)
extract_beacon_info-Extracted_example =
    extract_beacon_info-Extracted frame 48 (omega arith) (omega arith) (ground arith)

normalize_mesh_ap_bssid_to_sta_mac_lem_example : normalize_mesh_ap_bssid_to_sta_mac bssid ≡ station
normalize_mesh_ap_bssid_to_sta_mac_lem_example =
    normalize_mesh_ap_bssid_to_sta_mac_lem bssid station (ground arith) (ground arith) refl refl

is_mesh_beacon_iff_example :
    (is_mesh_beacon frame 48 ≡ some true)
    ↔ ((j : ℕ) × (j + 6 ≤ 48) × (take 6 (drop j frame) ≡ mesh_id_pattern))
is_mesh_beacon_iff_example = is_mesh_beacon_iff frame 48
