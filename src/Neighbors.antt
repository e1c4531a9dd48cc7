-- ===== src/Neighbors.antt =====
-- src/mesh_node.cpp: the neighbor table, `neighbor_list`. A pointer into the table is an index,
-- and the time and the node's own address are arguments.
pub mod Lookup
pub mod Invariant
pub mod Weakest
pub mod Update
pub mod Values
pub mod Scan
use mesh_visualization.Prelude.{
  ℕ, zero, suc, ◌+◌, ◌-◌, Bool, true, false, ◌&&◌, Option, none, some, List, [], ◌∷◌, ◌++◌, ltb,
  ◌==◌, if◌then◌else◌, length, modify, replicate, bytes_eq,
}
use mesh_visualization.Prelude.Int.{ℤ, ltb_ℤ}
use mesh_visualization.Config.{max_neighbors, rssi_threshold, no_rssi, neighbor_timeout_ms, sub32}
use mesh_visualization.Floats.{float_zero, float_one}
use mesh_visualization.State.{Mac, zero_mac, zero_state, Neighbor}

abbrev pub Table : Type 0
Table = List Neighbor

unfoldable pub empty_neighbor : Neighbor
empty_neighbor = record {
  mac = zero_mac;
  rssi = no_rssi;
  last_seen = 0;
  ip = replicate 4 0;
  active = false;
  has_state = false;
  state = zero_state;
}

-- `init_neighbor_list`; every field of every slot is written.
unfoldable pub init_neighbor_list : Table
unfolding empty_neighbor
init_neighbor_list = replicate max_neighbors empty_neighbor

-- `neighbor_list[i].active && memcmp(neighbor_list[i].mac, mac, 6) == 0`.
abbrev pub holds : Mac → Neighbor → Bool
holds mac n = n.active && bytes_eq n.mac mac

-- `get_neighbor_by_mac`: the first slot that matches.
unfoldable pub get_neighbor_by_mac : Mac → Table → Option ℕ
get_neighbor_by_mac mac [] = none
get_neighbor_by_mac mac (n ∷ ns) =
    let rest = get_neighbor_by_mac mac ns in
    if holds mac n then some 0 else elim rest [ none ↦ none | some i ↦ some (suc i) ]

unfoldable pub get_neighbor_count : Table → ℕ
get_neighbor_count [] = 0
get_neighbor_count (n ∷ ns) = (if n.active then 1 else 0) + get_neighbor_count ns

-- The first loop of `fill_neighbor_values`: at most `max` values, those of the slots with a state.
pub neighbor_values : Table → ℕ → List ℕ
neighbor_values [] max = []
neighbor_values (n ∷ ns) zero = []
neighbor_values (n ∷ ns) (suc max) =
    let more = neighbor_values ns max in
    let skip = neighbor_values ns (suc max) in
    if n.active && n.has_state
    then (if n.state.value == 0 then float_zero else float_one) ∷ more
    else skip

-- `fill_neighbor_values`: the rest of the `max` values is 0.0f.
unfoldable pub fill_neighbor_values : Table → ℕ → List ℕ
unfolding neighbor_values
fill_neighbor_values ns max =
    let written = neighbor_values ns max in written ++ replicate (max - length written) float_zero

pub seen : ℕ → Neighbor → Neighbor
seen now n = record n { last_seen = now }

pub refresh : ℤ → ℕ → Neighbor → Neighbor
refresh rssi now n = record n { rssi = rssi; last_seen = now }

-- What both the free slot and the replaced slot receive; `state` keeps its old content.
pub occupy : Mac → ℤ → ℕ → Neighbor → Neighbor
occupy mac rssi now n = record n {
  active = true;
  has_state = false;
  mac = mac;
  rssi = rssi;
  last_seen = now;
  ip = replicate 4 0;
}

pub empty_slot : Table → Option ℕ
empty_slot [] = none
empty_slot (n ∷ ns) =
    let rest = empty_slot ns in
    if n.active then elim rest [ none ↦ none | some i ↦ some (suc i) ] else some 0

-- The search for the weakest slot from slot `i` on.
pub weakest_from : ℕ → ℕ × ℤ → Table → ℕ × ℤ
weakest_from i best [] = best
weakest_from i best (n ∷ ns) =
    weakest_from (suc i) (if ltb_ℤ n.rssi best.1 then (i, n.rssi) else best) ns

pub weakest : Table → ℕ × ℤ
unfolding weakest_from
weakest [] = (0, no_rssi)
weakest (n ∷ ns) = weakest_from 1 (0, n.rssi) ns

pub replace_weakest : Mac → ℤ → ℕ → Table → Table
unfolding weakest occupy
replace_weakest mac rssi now ns =
    let found = weakest ns in
    if ltb_ℤ found.1 rssi then modify ns found.0 (occupy mac rssi now) else ns

-- `if (existing) { update(existing); }`
unfoldable pub update_existing : Mac → (Neighbor → Neighbor) → Table → Table → Table
update_existing mac f otherwise ns = elim (get_neighbor_by_mac mac ns) [
  | none ↦ otherwise
  | some i ↦ modify ns i f
]

pub add_neighbor : Mac → ℤ → ℕ → Table → Table
unfolding empty_slot replace_weakest occupy
add_neighbor mac rssi now ns = elim (empty_slot ns) [
  | some i ↦ modify ns i (occupy mac rssi now)
  | none ↦ replace_weakest mac rssi now ns
]

-- `update_neighbor_list` of the node whose address is `own`.
unfoldable pub update_neighbor_list : Mac → Mac → ℤ → ℕ → Table → Table
unfolding update_existing add_neighbor seen refresh
update_neighbor_list own mac rssi now ns =
    if bytes_eq mac own
    then ns
    else if ltb_ℤ rssi rssi_threshold
    then update_existing mac (seen now) ns ns
    else update_existing mac (refresh rssi now) (add_neighbor mac rssi now ns) ns

is_expired : ℕ → Neighbor → Bool
is_expired now n = n.active && ltb neighbor_timeout_ms (sub32 now n.last_seen)

-- `cleanup_inactive_neighbors`; the counts before and after are only logged.
unfoldable pub cleanup_inactive_neighbors : ℕ → Table → Table
unfolding is_expired
cleanup_inactive_neighbors now [] = []
cleanup_inactive_neighbors now (n ∷ ns) =
    (if is_expired now n then record n { active = false; has_state = false; rssi = no_rssi } else n)
    ∷ cleanup_inactive_neighbors now ns
