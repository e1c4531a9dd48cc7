-- ===== src/Neighbors/Update.antt =====
-- src/mesh_node.cpp: what `update_neighbor_list` and `cleanup_inactive_neighbors` do to the map
-- from addresses to entries.
use mesh_visualization.Prelude.{
  ℕ, zero, suc, ◌<◌, ◌≡◌, refl, ◌∙◌, ◌⊎◌, inl, inr, true, false, Option, none, some, [], ◌∷◌, arith,
  ltb, if◌then◌else◌, Bool-cases, length, get_elem?, modify, All, bytes_eq, bytes_eq_refl,
  bytes_eq→eq,
}
use mesh_visualization.Prelude.Int.{ℤ, ◌≤ℤ◌, ◌<ℤ◌, ltb_ℤ}
use mathlib.Core.Option
use mesh_visualization.Config.{rssi_threshold, neighbor_timeout_ms, sub32}
use mesh_visualization.State.{Mac, Neighbor}
use mesh_visualization.Neighbors.{
  Table, holds, seen, refresh, occupy, empty_slot, weakest, add_neighbor, update_neighbor_list,
  cleanup_inactive_neighbors,
}
use mesh_visualization.Neighbors.Lookup.{
  listed, lookup, Distinct, Finds, listed-lookup, listed_of_get, lookup_of_get,
  update_existing_cases, IsFree, empty_slot-IsFree, lookup-occupy, lookup-occupy_ne,
}
use mesh_visualization.Neighbors.Weakest.{IsWeakest, weakest-IsWeakest}
use mesh_visualization.Neighbors.Invariant.{IsValid}

-- A change of the slot of an address is a change of its entry.
module _ (f : Neighbor → Neighbor)
    (keep : (m : Mac) (n : Neighbor) → holds m (f n) ≡ holds m n) where
  pub lookup-modify :
      (mac m : Mac) (ns : Table) (i : ℕ) (n : Neighbor)
      → Distinct ns
      → get_elem? ns i ≡ some n
      → holds mac n ≡ true
      → lookup m (modify ns i f)
        ≡ (if bytes_eq mac m then Option.map f (lookup m ns) else lookup m ns)
  lookup-modify mac m [] i n d g h = cc
  lookup-modify mac m (x ∷ ns) zero n d g h = ground (
    arith,
    keep m x,
    bytes_eq→eq x.mac m,
    bytes_eq→eq x.mac mac,
    bytes_eq→eq mac m,
    bytes_eq_refl m,
  )
  lookup-modify mac m (x ∷ ns) (suc i) n d g h = ground (
    arith,
    d.0,
    bytes_eq→eq x.mac m,
    bytes_eq→eq mac m,
    listed_of_get mac ns i n g h,
    lookup-modify mac m ns i n d.1 g h,
  )

-- Every slot is in use.
abbrev pub IsFull : Table → Type 0
IsFull = All (λ n. n.active ≡ true)

All-rssi_trans :
    (a b : ℤ) (ns : Table) → a ≤ℤ b → All (λ k. b ≤ℤ k.rssi) ns → All (λ k. a ≤ℤ k.rssi) ns
All-rssi_trans a b [] h s = tt
All-rssi_trans a b (n ∷ ns) h s = (omega (arith, s.0), All-rssi_trans a b ns h s.1)

-- The three ways to treat a new address: a free slot, the weakest slot, or no slot.
add_neighbor_cases {ℓ} :
    (P : Table → Type ℓ) (mac : Mac) (rssi : ℤ) (now : ℕ) (ns : Table)
    → 0 < length ns
    → ((i : ℕ) (n : Neighbor)
        → get_elem? ns i ≡ some n
        → n.active ≡ false
        → P (modify ns i (occupy mac rssi now)))
    → ((i : ℕ) (n : Neighbor)
        → get_elem? ns i ≡ some n
        → IsFull ns
        → All (λ k. n.rssi ≤ℤ k.rssi) ns
        → n.rssi <ℤ rssi
        → P (modify ns i (occupy mac rssi now)))
    → (IsFull ns → All (λ k. rssi ≤ℤ k.rssi) ns → P ns)
    → P (add_neighbor mac rssi now ns)
unfolding add_neighbor
add_neighbor_cases P mac rssi now [] z free weak refused = absurd (omega arith)
add_neighbor_cases P mac rssi now (x ∷ xs) z free weak refused =
    go (empty_slot ns) (empty_slot-IsFree ns) (weakest ns) (weakest-IsWeakest x xs)
      (Bool-cases (ltb_ℤ (weakest ns).1 rssi))
  where
    ns : Table
    ns = x ∷ xs

    go :
        (o : Option ℕ)
        → IsFree ns o
        → (r : ℕ × ℤ) → IsWeakest ns r
        → (ltb_ℤ r.1 rssi ≡ true) ⊎ (ltb_ℤ r.1 rssi ≡ false)
        → P (elim o [
          | some i ↦ modify ns i (occupy mac rssi now)
          | none ↦ (if ltb_ℤ r.1 rssi then modify ns r.0 (occupy mac rssi now) else ns)
        ])
    go (some i) (n, g, a) r w t = free i n g a
    go none f r (n, g, e, all) (inl t) =
        rw t (weak r.0 n g f all (let h : ltb_ℤ n.rssi rssi ≡ true = (rw (← e) t) in ground arith))
    go none f r (n, g, e, all) (inr t) = rw t (
        refused f (
          All-rssi_trans rssi n.rssi ns
            (let h : ltb_ℤ n.rssi rssi ≡ false = (rw (← e) t) in ground arith) all))

-- The entry of `m` after the time of `mac` is set.
abbrev pub touched : Mac → ℕ → Mac → Table → Option Neighbor
touched mac now m ns =
    if bytes_eq mac m
    then Option.map {A = Neighbor} (λ n. record n { last_seen = now }) (lookup m ns)
    else lookup m ns

-- The address has an entry with the signal and the time, or the table is full of entries at least
-- as strong and stays as it is.
abbrev pub Settles : Mac → ℤ → ℕ → Table → Table → Type 0
Settles mac rssi now ns t =
    ((n : Neighbor) × (lookup mac t ≡ some n)
      × (n.mac ≡ mac)
      × (n.rssi ≡ rssi)
      × (n.last_seen ≡ now))
    ⊎ ((t ≡ ns) × IsFull ns × All (λ k. rssi ≤ℤ k.rssi) ns)

-- The entry of `m` stays, or it was the weakest of a full table, weaker than the new signal, and
-- is gone.
abbrev pub Spares : Mac → ℤ → Table → Table → Type 0
Spares m rssi ns t =
    (lookup m t ≡ lookup m ns)
    ⊎ ((n : Neighbor) × (lookup m ns ≡ some n)
        × (lookup m t ≡ none)
        × (n.rssi <ℤ rssi)
        × IsFull ns
        × All (λ k. n.rssi ≤ℤ k.rssi) ns)

module _ (mac : Mac) (rssi : ℤ) (now : ℕ) (ns : Table) (z : 0 < length ns)
    (absent : listed mac ns ≡ false) where
  add_neighbor-Settles : Settles mac rssi now ns (add_neighbor mac rssi now ns)
  add_neighbor-Settles =
      add_neighbor_cases (Settles mac rssi now ns) mac rssi now ns z (λ i n g a. inl (filled i n g))
        (λ i n g f s t. inl (filled i n g)) (λ f s. inr (refl, f, s))
    where
      filled :
          (i : ℕ) (n : Neighbor)
          → get_elem? ns i ≡ some n
          → (k : Neighbor) × (lookup mac (modify ns i (occupy mac rssi now)) ≡ some k)
            × (k.mac ≡ mac)
            × (k.rssi ≡ rssi)
            × (k.last_seen ≡ now)
      filled i n g = (
        occupy mac rssi now n,
        lookup-occupy mac rssi now ns i n absent g,
        unfold occupy in refl,
        unfold occupy in refl,
        unfold occupy in refl,
      )

  add_neighbor-Spares :
      (m : Mac)
      → Distinct ns
      → bytes_eq mac m ≡ false
      → Spares m rssi ns (add_neighbor mac rssi now ns)
  add_neighbor-Spares m d e =
      add_neighbor_cases (Spares m rssi ns) mac rssi now ns z
        (λ i n g a. inl (
          lookup-occupy_ne mac rssi now m ns i n d e g
          ∙ (let h : holds m n ≡ false = ground arith in rw h)))
        (λ i n g f s t. elim (Bool-cases (holds m n)) [
          | inl h ↦ inr (
            n,
            lookup_of_get m ns i n d g h,
            lookup-occupy_ne mac rssi now m ns i n d e g ∙ (rw h),
            t,
            f,
            s,
          )
          | inr h ↦ inl (lookup-occupy_ne mac rssi now m ns i n d e g ∙ (rw h))
        ])
        (λ f s. inl refl)

refreshed :
    (mac : Mac) (rssi : ℤ) (now : ℕ) (ns : Table)
    → Distinct ns
    → (i : ℕ) → Finds mac ns (some i)
    → (n : Neighbor) × (lookup mac (modify ns i (refresh rssi now)) ≡ some n)
      × (n.mac ≡ mac)
      × (n.rssi ≡ rssi)
      × (n.last_seen ≡ now)
unfolding refresh
refreshed mac rssi now ns d i (n, g, a, l) = (
  refresh rssi now n,
  ground (
    arith,
    lookup-modify (refresh rssi now) (λ k n. refl) mac mac ns i n d g a,
    bytes_eq_refl mac,
  ),
  ground (arith, bytes_eq→eq n.mac mac),
  refl,
  refl,
)

module _ (own mac : Mac) (rssi : ℤ) (now : ℕ) (ns : Table) (v : IsValid own ns)
    (other : bytes_eq mac own ≡ false) where
  -- For a valid table and the address of another node, a signal below the threshold adds, removes
  -- and changes no entry; only the time at which a known address was last seen is set.
  pub update_neighbor_list_weak :
      (m : Mac)
      → ltb_ℤ rssi rssi_threshold ≡ true
      → lookup m (update_neighbor_list own mac rssi now ns) ≡ touched mac now m ns
  unfolding update_neighbor_list
  update_neighbor_list_weak m w =
      rw (other, w)
        (update_existing_cases (λ t. lookup m t ≡ touched mac now m ns) mac (seen now) ns ns
          (λ h. ground (arith, bytes_eq→eq mac m, listed-lookup m ns))
          (λ i h.
            unfold seen in
            lookup-modify (seen now) (λ k n. refl) mac m ns i h.0 v.distinct h.1 h.2))

  -- For a valid table and the address of another node: after a signal at the threshold or above
  -- the address has an entry with that signal and that time, or the table is full of entries at
  -- least as strong and unchanged.
  pub update_neighbor_list_strong :
      ltb_ℤ rssi rssi_threshold ≡ false
      → Settles mac rssi now ns (update_neighbor_list own mac rssi now ns)
  unfolding update_neighbor_list
  update_neighbor_list_strong w =
      rw (other, w)
        (update_existing_cases (Settles mac rssi now ns) mac (refresh rssi now) _ ns
          (λ h. add_neighbor-Settles mac rssi now ns (omega (arith, v.size)) h)
          (λ i h. inl (refreshed mac rssi now ns v.distinct i h)))

  -- For a valid table and a signal at the threshold or above from another node, the entry of any
  -- further address is the same afterwards, unless the table was full, that entry was the weakest
  -- and weaker than the signal: then it is gone.
  pub update_neighbor_list_others :
      (m : Mac)
      → ltb_ℤ rssi rssi_threshold ≡ false
      → bytes_eq mac m ≡ false
      → Spares m rssi ns (update_neighbor_list own mac rssi now ns)
  unfolding update_neighbor_list
  update_neighbor_list_others m w e =
      rw (other, w)
        (update_existing_cases (Spares m rssi ns) mac (refresh rssi now) _ ns
          (λ h. add_neighbor-Spares mac rssi now ns (omega (arith, v.size)) h m v.distinct e)
          (λ i h. inl (
            unfold refresh in
            (lookup-modify (refresh rssi now) (λ k n. refl) mac m ns i h.0 v.distinct h.1 h.2
              ∙ (rw e)))))

-- The entry, unless it was last seen more than NEIGHBOR_TIMEOUT_MS ago.
abbrev pub unless_expired : ℕ → Option Neighbor → Option Neighbor
unless_expired now none = none
unless_expired now (some n) =
    if ltb neighbor_timeout_ms (sub32 now n.last_seen) then none else some n

lookup-cleanup :
    (now : ℕ) (m : Mac) (ns : Table)
    → Distinct ns
    → lookup m (cleanup_inactive_neighbors now ns) ≡ unless_expired now (lookup m ns)
unfolding cleanup_inactive_neighbors
lookup-cleanup now m [] d = refl
lookup-cleanup now m (n ∷ ns) d =
    ground (arith, d.0, bytes_eq→eq n.mac m, listed-lookup m ns, lookup-cleanup now m ns d.1)

-- `cleanup_inactive_neighbors` on a valid table: every address keeps its entry exactly as it is,
-- unless that entry was last seen more than the timeout ago (in 32-bit time); then it has none.
pub cleanup_inactive_neighbors_lem :
    (own m : Mac) (now : ℕ) (ns : Table)
    → IsValid own ns
    → lookup m (cleanup_inactive_neighbors now ns) ≡ unless_expired now (lookup m ns)
cleanup_inactive_neighbors_lem own m now ns v = lookup-cleanup now m ns v.distinct
