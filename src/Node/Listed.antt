-- ===== src/Node/Listed.antt =====
-- src/mesh_node.cpp: the neighbors that a mesh message lists.
use mesh_visualization.Prelude.{
  ℕ, zero, suc, ◌≤◌, ◌≡◌, refl, ◌↔◌, inl, inr, true, Option, none, some, bytes_eq, [], ◌∷◌, arith,
  Bool-cases, length, take, All, length-take,
}
use mesh_visualization.Neighbors.{Table, empty_neighbor, get_neighbor_count}
use mesh_visualization.State.{Mac, Neighbor}
use mesh_visualization.Neighbors.Lookup.{lookup}
use mesh_visualization.Neighbors.Values.{get_neighbor_count-le}
use mesh_visualization.Node.{Node, World, copy_neighbors, build_message}

-- Whether every slot is in use.
abbrev pub AllActive : Table → Type 0
AllActive ns = All (λ n. n.active ≡ true) ns

copied_count :
    (k : ℕ) (ns : Table) → get_neighbor_count (copy_neighbors k ns) ≡ get_neighbor_count (take k ns)
unfolding copy_neighbors get_neighbor_count empty_neighbor
copied_count zero [] = refl
copied_count (suc k) [] = refl
copied_count zero (n ∷ ns) = omega (arith, copied_count zero ns)
copied_count (suc k) (n ∷ ns) = elim (Bool-cases n.active) [
  | inl e ↦ rw e (omega (arith, copied_count k ns))
  | inr e ↦ rw e (omega (arith, copied_count k ns))
]

full_iff : (ns : Table) → (get_neighbor_count ns ≡ length ns) ↔ AllActive ns
unfolding get_neighbor_count
full_iff [] = ((λ e. tt), (λ h. refl))
full_iff (n ∷ ns) = elim (Bool-cases n.active) [
  | inl e ↦
      rw e (
        (λ h. (refl, (full_iff ns).0 (omega (arith, h)))),
        (λ h. omega (arith, (full_iff ns).1 h.1)),
      )
  | inr e ↦ rw e ((λ h. absurd (omega (arith, h, get_neighbor_count-le ns))), (λ h. cc))
]

-- What a message tells of an active neighbor.
abbrev pub told : Neighbor → Neighbor
told n = record empty_neighbor {
  mac = n.mac;
  rssi = n.rssi;
  last_seen = n.last_seen;
  active = true;
}

abbrev pub told_of : Option Neighbor → Option Neighbor
told_of none = none
told_of (some n) = some (told n)

lookup-copied :
    (mac : Mac) (k : ℕ) (ns : Table)
    → lookup mac (copy_neighbors k ns) ≡ told_of (lookup mac (take k ns))
unfolding copy_neighbors empty_neighbor
lookup-copied mac zero [] = refl
lookup-copied mac (suc k) [] = refl
lookup-copied mac zero (n ∷ ns) = lookup-copied mac zero ns
lookup-copied mac (suc k) (n ∷ ns) = elim (Bool-cases n.active) [
  | inr e ↦ rw e (lookup-copied mac k ns)
  | inl e ↦ elim (Bool-cases (bytes_eq n.mac mac)) [
    | inl h ↦ rw (e, h) refl
    | inr h ↦ rw (e, h) (lookup-copied mac k ns)
  ]
]

-- In the neighbors of a mesh message an address finds what it finds among the first slots of the
-- table, as many as there are active neighbors: its address, signal and time, with the address of
-- the network and the state left empty. The message lists at most as many neighbors as are active,
-- and it lists so many exactly if the active ones stand in front of all others.
pub build_message_lem :
    (w : World) (n : Node)
    → let count = get_neighbor_count n.neighbor_list in
      let neighbors = (build_message w n).neighbors in
      let listed = get_neighbor_count neighbors in
      ((mac : Mac) → lookup mac neighbors ≡ told_of (lookup mac (take count n.neighbor_list)))
      × (listed ≤ count)
      × ((listed ≡ count) ↔ AllActive (take count n.neighbor_list))
unfolding build_message
build_message_lem w n =
    let count = get_neighbor_count n.neighbor_list in
    let front = take count n.neighbor_list in
    let same = copied_count count n.neighbor_list in
    let size : length front ≡ count =
      omega (arith, length-take count n.neighbor_list, get_neighbor_count-le n.neighbor_list) in
    (
      (λ mac. lookup-copied mac count n.neighbor_list),
      omega (arith, same, size, get_neighbor_count-le front),
      (
        (λ e. (full_iff front).0 (omega (arith, e, same, size))),
        (λ h. omega (arith, (full_iff front).1 h, same, size)),
      ),
    )
