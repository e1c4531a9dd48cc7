-- ===== src/Neighbors/Invariant.antt =====
-- src/mesh_node.cpp: what every operation on the neighbor table preserves.
use mesh_visualization.Prelude.{
  ℕ, zero, suc, ◌≡◌, refl, ap, ◌∙◌, inl, inr, false, ◌&&◌, [], ◌∷◌, arith, Bool-cases, Option-cases,
  length, modify, All, length-modify, All-modify, bytes_eq,
}
use mesh_visualization.Prelude.Int.{ℤ, ltb_ℤ}
use mesh_visualization.Config.{max_neighbors, rssi_threshold}
use mesh_visualization.State.{Mac, Neighbor}
use mesh_visualization.Neighbors.{
  Table, holds, init_neighbor_list, seen, refresh, occupy, empty_slot, weakest, replace_weakest,
  add_neighbor, update_neighbor_list, cleanup_inactive_neighbors,
}
use mesh_visualization.Neighbors.Lookup.{
  listed, Distinct, update_existing_cases, listed-modify, listed-occupy, Distinct-occupy,
}

-- An active entry was last heard at the threshold or above.
abbrev pub IsStrong : Neighbor → Type 0
IsStrong n = (n.active && ltb_ℤ n.rssi rssi_threshold) ≡ false

-- The table has its size, each address at most once and never the node's own, and strong entries.
pub record IsValid (own : Mac) (ns : Table) : Type 0 where
  pub size : length ns ≡ max_neighbors
  pub distinct : Distinct ns
  pub own_absent : listed own ns ≡ false
  pub strong : All IsStrong ns

-- A change of one slot that keeps its address and activity, and its strength.
module _ (f : Neighbor → Neighbor) (keep : (m : Mac) (n : Neighbor) → holds m (f n) ≡ holds m n)
    (same : (n : Neighbor) → (f n).mac ≡ n.mac)
    (on : (n : Neighbor) → (f n).active ≡ n.active) where
  Distinct-modify : (ns : Table) (i : ℕ) → Distinct ns → Distinct (modify ns i f)
  Distinct-modify [] i d = d
  Distinct-modify (n ∷ ns) zero d = (rw (same n, on n) d.0, d.1)
  Distinct-modify (n ∷ ns) (suc i) d =
      (rw (listed-modify f keep n.mac ns i) d.0, Distinct-modify ns i d.1)

  pub modify-IsValid :
      (own : Mac) (ns : Table) (i : ℕ)
      → ((n : Neighbor) → IsStrong n → IsStrong (f n))
      → IsValid own ns
      → IsValid own (modify ns i f)
  modify-IsValid own ns i s v = record {
    size = length-modify ns i f ∙ v.size;
    distinct = Distinct-modify ns i v.distinct;
    own_absent = listed-modify f keep own ns i ∙ v.own_absent;
    strong = All-modify IsStrong f s ns i v.strong;
  }

module _ (own mac : Mac) (rssi : ℤ) (now : ℕ) where
  seen-IsValid : (ns : Table) (i : ℕ) → IsValid own ns → IsValid own (modify ns i (seen now))
  unfolding seen
  seen-IsValid ns i =
      modify-IsValid (seen now) (λ m n. refl) (λ n. refl) (λ n. refl) own ns i (λ n s. s)

  refresh-IsValid :
      (ns : Table) (i : ℕ)
      → ltb_ℤ rssi rssi_threshold ≡ false
      → IsValid own ns
      → IsValid own (modify ns i (refresh rssi now))
  unfolding refresh
  refresh-IsValid ns i e =
      modify-IsValid (refresh rssi now) (λ m n. refl) (λ n. refl) (λ n. refl) own ns i
        (λ n s. ground arith)

  occupy-IsValid :
      (ns : Table) (i : ℕ)
      → ltb_ℤ rssi rssi_threshold ≡ false
      → bytes_eq mac own ≡ false
      → listed mac ns ≡ false
      → IsValid own ns
      → IsValid own (modify ns i (occupy mac rssi now))
  unfolding occupy
  occupy-IsValid ns i e o h v = record {
    size = length-modify ns i (occupy mac rssi now) ∙ v.size;
    distinct = Distinct-occupy mac rssi now ns i h v.distinct;
    own_absent = listed-occupy mac rssi now own ns i v.own_absent o;
    strong = All-modify IsStrong (occupy mac rssi now) (λ n s. e) ns i v.strong;
  }

  add_neighbor-IsValid :
      (ns : Table)
      → ltb_ℤ rssi rssi_threshold ≡ false
      → bytes_eq mac own ≡ false
      → listed mac ns ≡ false
      → IsValid own ns
      → IsValid own (add_neighbor mac rssi now ns)
  unfolding add_neighbor
  add_neighbor-IsValid ns e o h v = elim (Option-cases (empty_slot ns)) [
    | inl x ↦
        rw (x, add_neighbor)
          (elim (Bool-cases (ltb_ℤ (weakest ns).1 rssi)) [
            | inl t ↦ rw (t, replace_weakest) (occupy-IsValid ns _ e o h v)
            | inr t ↦ rw (t, replace_weakest) v
          ])
    | inr (i, x) ↦ rw (x, add_neighbor) (occupy-IsValid ns i e o h v)
  ]

-- `update_neighbor_list` keeps a valid table valid, whatever address and signal it is given.
pub update_neighbor_list-IsValid :
    (own mac : Mac) (rssi : ℤ) (now : ℕ) (ns : Table)
    → IsValid own ns
    → IsValid own (update_neighbor_list own mac rssi now ns)
unfolding update_neighbor_list
update_neighbor_list-IsValid own mac rssi now ns v = elim (Bool-cases (bytes_eq mac own)) [
  | inl o ↦ rw o v
  | inr o ↦ rw o (elim (Bool-cases (ltb_ℤ rssi rssi_threshold)) [
    | inl w ↦ rw w (
        update_existing_cases (IsValid own) mac (seen now) ns ns (λ _. v)
          (λ i _. seen-IsValid own mac rssi now ns i v))
    | inr w ↦ rw w (
        update_existing_cases (IsValid own) mac (refresh rssi now) _ ns
          (λ h. add_neighbor-IsValid own mac rssi now ns w o h v)
          (λ i _. refresh-IsValid own mac rssi now ns i w v))
  ])
]

module _ (now : ℕ) where
  listed-cleanup :
      (m : Mac) (ns : Table)
      → listed m ns ≡ false
      → listed m (cleanup_inactive_neighbors now ns) ≡ false
  unfolding cleanup_inactive_neighbors
  listed-cleanup m [] h = refl
  listed-cleanup m (n ∷ ns) h = ground (arith, listed-cleanup m ns)

  Distinct-cleanup : (ns : Table) → Distinct ns → Distinct (cleanup_inactive_neighbors now ns)
  unfolding cleanup_inactive_neighbors
  Distinct-cleanup [] d = d
  Distinct-cleanup (n ∷ ns) d =
      (ground (arith, d.0, listed-cleanup n.mac ns), Distinct-cleanup ns d.1)

  length-cleanup : (ns : Table) → length (cleanup_inactive_neighbors now ns) ≡ length ns
  unfolding cleanup_inactive_neighbors
  length-cleanup [] = refl
  length-cleanup (n ∷ ns) = ap suc (length-cleanup ns)

  IsStrong-cleanup :
      (ns : Table) → All IsStrong ns → All IsStrong (cleanup_inactive_neighbors now ns)
  unfolding cleanup_inactive_neighbors
  IsStrong-cleanup [] s = s
  IsStrong-cleanup (n ∷ ns) s = (ground (arith, s.0), IsStrong-cleanup ns s.1)

-- `cleanup_inactive_neighbors` keeps a valid table valid.
pub cleanup_inactive_neighbors-IsValid :
    (own : Mac) (now : ℕ) (ns : Table)
    → IsValid own ns
    → IsValid own (cleanup_inactive_neighbors now ns)
cleanup_inactive_neighbors-IsValid own now ns v = record {
  size = length-cleanup now ns ∙ v.size;
  distinct = Distinct-cleanup now ns v.distinct;
  own_absent = listed-cleanup now own ns v.own_absent;
  strong = IsStrong-cleanup now ns v.strong;
}

-- The table of a node that has just started is valid.
pub init_neighbor_list-IsValid : (own : Mac) → IsValid own init_neighbor_list
unfolding init_neighbor_list
init_neighbor_list-IsValid own = record {
  size = refl;
  distinct = ground arith;
  own_absent = refl;
  strong = ground arith;
}
