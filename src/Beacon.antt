-- ===== src/Beacon.antt =====
-- src/beacon_monitor.cpp: neighbor discovery from the beacons that the radio overhears.
-- A frame is the bytes of the buffer, which are read through `read_byte` and `read_bytes`: `none`
-- is a read outside of the buffer. `len` is the length that the radio reports.
pub mod Elements
pub mod Address
pub mod Discovery
pub mod Radio
use mesh_visualization.Prelude.{
  ℕ, zero, suc, ◌+◌, ◌-◌, ◌*◌, ◌/◌, ◌%◌, ◌^◌, Bool, true, false, not, ◌&&◌, ◌||◌, Option, none,
  some, List, [], ◌∷◌, ◌++◌, ltb, leb, ◌==◌, if◌then◌else◌, length, get_elem?, get_or, take, drop,
  replicate, Bytes, bytes_eq,
}
use mesh_visualization.Prelude.Int.{ℤ}
use mathlib.Core.List.{reverse}
use mesh_visualization.Config.{mesh_router_ssid, millis}
use mesh_visualization.State.{Mac}
use mesh_visualization.Neighbors.{Table, update_neighbor_list}

-- A read that may leave the buffer.
infixl 5 ◌>>=◌
abbrev pub ◌>>=◌ {ℓ κ} : {A : Type ℓ} {B : Type κ} → Option A → (A → Option B) → Option B
none >>= f = none
some a >>= f = f a

abbrev pub read_byte : Bytes → ℕ → Option ℕ
read_byte = get_elem?

-- `memcpy(out, frame + offset, n)`.
abbrev pub read_bytes : Bytes → ℕ → ℕ → Option Bytes
read_bytes frame offset n =
    if leb (offset + n) (length frame) then some (take n (drop offset frame)) else none

abbrev pub mesh_id_pattern : Bytes
mesh_id_pattern = 0x47 ∷ 0x4c ∷ 0x4f ∷ 0x57 ∷ 0x20 ∷ 0x01 ∷ []

abbrev oui_list : List Bytes
oui_list =
    (0x24 ∷ 0x6f ∷ 0x28 ∷ [])
    ∷ (0x30 ∷ 0xae ∷ 0xa4 ∷ [])
    ∷ (0x7c ∷ 0xdf ∷ 0xa1 ∷ [])
    ∷ (0x84 ∷ 0xf3 ∷ 0xeb ∷ [])
    ∷ (0xac ∷ 0x27 ∷ 0x6e ∷ [])
    ∷ (0xc8 ∷ 0xf0 ∷ 0x9e ∷ [])
    ∷ (0xcc ∷ 0xdb ∷ 0xa7 ∷ [])
    ∷ (0xdc ∷ 0x54 ∷ 0x75 ∷ [])
    ∷ (0xe8 ∷ 0xf6 ∷ 0x0a ∷ [])
    ∷ (0xec ∷ 0x94 ∷ 0xcb ∷ [])
    ∷ []

-- The loop of `mac_has_espressif_oui`.
has_oui : List Bytes → Mac → Bool
has_oui [] mac = false
has_oui (oui ∷ ouis) mac = bytes_eq (take 3 mac) oui || has_oui ouis mac

unfoldable pub mac_has_espressif_oui : Mac → Bool
unfolding has_oui
mac_has_espressif_oui = has_oui oui_list

-- The fields of `beacon_info_t` that the code sets. `ssid` is the array of 33 bytes.
pub record Beacon : Type 0 where
  pub mac : Mac
  pub ssid : Bytes
  pub ssid_len : ℕ

unfoldable pub ssid_matches_router : Beacon → Bool
ssid_matches_router b =
    let router_len = length mesh_router_ssid in
    ltb 0 router_len
    && b.ssid_len == router_len
    && bytes_eq (take router_len b.ssid) mesh_router_ssid

-- The loop of `frame_contains_mesh_id` with `rounds` positions left.
pub contains_from : ℕ → Bytes → ℕ → Option Bool
contains_from zero frame i = some false
contains_from (suc rounds) frame i =
    let rest = contains_from rounds frame (i + 1) in
    read_bytes frame i 6 >>= λ id. if bytes_eq id mesh_id_pattern then some true else rest

-- `frame_contains_mesh_id`, and `is_mesh_beacon`, which only calls it.
unfoldable pub is_mesh_beacon : Bytes → ℕ → Option Bool
unfolding contains_from
is_mesh_beacon frame len = if ltb len 6 then some false else contains_from (len - 6 + 1) frame 0

-- The decrement of a number whose least byte is first.
pub decrement : Bytes → Bytes
decrement [] = []
decrement (b ∷ bs) = if ltb 0 b then (b - 1) ∷ bs else 0xff ∷ decrement bs

-- The loop goes from the last byte to the first.
unfoldable pub normalize_mesh_ap_bssid_to_sta_mac : Mac → Mac
unfolding decrement
normalize_mesh_ap_bssid_to_sta_mac bssid = reverse (decrement (reverse bssid))

-- Every byte of the address has the value.
pub all_bytes : ℕ → Bytes → Bool
all_bytes v [] = true
all_bytes v (b ∷ bs) = b == v && all_bytes v bs

unfoldable pub is_valid_mac : Mac → Bool
unfolding all_bytes
is_valid_mac mac = not (all_bytes 0x00 mac) && not (all_bytes 0xff mac) && get_or mac 0 0 % 2 == 0

-- The element `id` whose `ie_len` bytes start at `next`: the loop ends where they leave the frame
-- and at the SSID, of which at most 32 bytes are copied, and goes on with `rest` otherwise.
abbrev pub element : Bytes → ℕ → ℕ → ℕ → ℕ → Option (Option Bytes) → Option (Option Bytes)
element frame len id ie_len next rest =
    if ltb len (next + ie_len)
    then some none
    else (if id == 0
        then (read_bytes frame next (if ltb ie_len 32 then ie_len else 32) >>= λ ssid.
            some (some ssid))
        else rest)

-- What the loop over the information elements leaves: the SSID, if there is one. `offset` is a
-- `uint16_t`.
pub parse_elements : ℕ → Bytes → ℕ → ℕ → Option (Option Bytes)
parse_elements zero frame len offset = none
parse_elements (suc fuel) frame len offset =
    if leb (offset + 2) len
    then (do
      id ← read_byte frame offset
      ie_len ← read_byte frame (offset + 1)
      let next = (offset + 2) % 2 ^ 16
      element frame len id ie_len next (parse_elements fuel frame len ((next + ie_len) % 2 ^ 16)))
    else some none

-- The SSID in its array of 33 zero bytes.
abbrev pub store_ssid : Mac → Option Bytes → Beacon
store_ssid mac none = record { mac = mac; ssid = replicate 33 0; ssid_len = 0 }
store_ssid mac (some ssid) = record {
  mac = mac;
  ssid = ssid ++ replicate (33 - length ssid) 0;
  ssid_len = length ssid;
}

-- The bits of the frame control field that hold the type and the subtype.
abbrev pub is_beacon_frame : ℕ → Bool
is_beacon_frame frame_control =
    let frame_type = frame_control / 4 % 4 in
    let frame_subtype = frame_control / 16 % 16 in
    frame_type == 0 && (frame_subtype == 8 || frame_subtype == 5)

-- `return is_valid_mac(beacon->mac)`.
abbrev pub accept : Mac → Option Bytes → Option Beacon
accept mac ssid = if is_valid_mac mac then some (store_ssid mac ssid) else none

-- The part of `extract_beacon_info` behind the frame control field.
pub extract_fields : Bytes → ℕ → Option (Option Beacon)
unfolding parse_elements is_valid_mac
extract_fields frame len = do
  mac ← read_bytes frame 16 6
  ssid ← parse_elements (suc len) frame len 36
  some (accept mac ssid)

-- `extract_beacon_info`; the inner `none` is its result `false`. An element takes two bytes at
-- least, so `len` rounds of the loop are enough.
unfoldable pub extract_beacon_info : Bytes → ℕ → Option (Option Beacon)
unfolding extract_fields
extract_beacon_info frame len = if ltb len 36 then some none else (do
  low ← read_byte frame 0
  high ← read_byte frame 1
  if is_beacon_frame (low + 256 * high) then extract_fields frame len else some none)

-- The neighbor that a beacon names which is not the router's, once the scan for the mesh identifier
-- has its answer.
abbrev pub named_neighbor : Beacon → Bool → Option Mac
named_neighbor b from_mesh =
    let neighbor_mac = normalize_mesh_ap_bssid_to_sta_mac b.mac in
    if not from_mesh && not (mac_has_espressif_oui b.mac)
    then none
    else (if is_valid_mac neighbor_mac then some neighbor_mac else none)

-- Which neighbor a beacon announces, after the filters of `process_beacon_frame`; the outer `none`
-- is a read outside of the frame.
unfoldable pub beacon_neighbor : Bytes → ℕ → Beacon → Option (Option Mac)
beacon_neighbor frame len b =
    if ssid_matches_router b
    then some none
    else (is_mesh_beacon frame len >>= λ from_mesh. some (named_neighbor b from_mesh))

-- The table of neighbors and `last_beacon_scan_time`.
pub record Scan : Type 0 where
  pub neighbors : Table
  pub last_beacon_scan_time : ℕ

-- The neighbor that a beacon announces enters the table.
pub heard_beacon : Mac → ℕ → ℤ → Scan → Option Mac → Scan
heard_beacon own us rssi s none = s
heard_beacon own us rssi s (some mac) = record {
  neighbors = update_neighbor_list own mac rssi (millis us) s.neighbors;
  last_beacon_scan_time = millis us;
}

-- `process_beacon_frame` at a time in microseconds: `none` is a read outside of the frame.
unfoldable pub process_beacon_frame : Mac → ℕ → Bytes → ℕ → ℤ → Scan → Option Scan
process_beacon_frame own us frame len rssi s = do
  info ← extract_beacon_info frame len
  elim info [
    | none ↦ some s
    | some b ↦
        beacon_neighbor frame len b >>= λ neighbor. some (heard_beacon own us rssi s neighbor)
  ]
