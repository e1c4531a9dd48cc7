-- ===== src/Neighbors/Lookup.antt =====
-- The table of src/mesh_node.cpp seen as a finite map: which entry an address finds.
use mesh_visualization.Prelude.{
  ℕ, zero, suc, ◌≡◌, refl, ap, inl, inr, Bool, true, false, ◌&&◌, ◌||◌, Option, none, some, [], ◌∷◌,
  arith, if◌then◌else◌, Bool-cases, get_elem?, modify, All, bytes_eq, bytes_eq_refl, bytes_eq→eq,
  bytes_eq_comm,
}
use mesh_visualization.Prelude.Int.{ℤ}
use mesh_visualization.State.{Mac, Neighbor}
use mesh_visualization.Neighbors.{
  Table, holds, get_neighbor_by_mac, empty_slot, occupy, update_existing,
}

-- Some active slot holds the address.
abbrev pub listed : Mac → Table → Bool
listed mac [] = false
listed mac (n ∷ ns) = holds mac n || listed mac ns

-- The entry of an address, the first in the table.
abbrev pub lookup : Mac → Table → Option Neighbor
lookup mac [] = none
lookup mac (n ∷ ns) = if holds mac n then some n else lookup mac ns

-- No two active slots hold one address.
abbrev pub Distinct : Table → Type 0
Distinct [] = Unit
Distinct (n ∷ ns) = ((n.active && listed n.mac ns) ≡ false) × Distinct ns

pub listed-lookup : (mac : Mac) (ns : Table) → listed mac ns ≡ false → lookup mac ns ≡ none
listed-lookup mac [] h = refl
listed-lookup mac (n ∷ ns) h = ground (arith, listed-lookup mac ns)

pub listed_of_get :
    (mac : Mac) (ns : Table) (i : ℕ) (n : Neighbor)
    → get_elem? ns i ≡ some n
    → holds mac n ≡ true
    → listed mac ns ≡ true
listed_of_get mac [] i n g h = cc
listed_of_get mac (x ∷ ns) zero n g h = ground arith
listed_of_get mac (x ∷ ns) (suc i) n g h = ground (arith, listed_of_get mac ns i n)

pub lookup_of_get :
    (mac : Mac) (ns : Table) (i : ℕ) (n : Neighbor)
    → Distinct ns
    → get_elem? ns i ≡ some n
    → holds mac n ≡ true
    → lookup mac ns ≡ some n
lookup_of_get mac [] i n d g h = cc
lookup_of_get mac (x ∷ ns) zero n d g h = ground arith
lookup_of_get mac (x ∷ ns) (suc i) n d g h = ground (
  arith,
  d.0,
  bytes_eq→eq x.mac mac,
  listed_of_get mac ns i n g h,
  lookup_of_get mac ns i n d.1 g h,
)

-- What `get_neighbor_by_mac` returns.
abbrev pub Finds : Mac → Table → Option ℕ → Type 0
Finds mac ns none = listed mac ns ≡ false
Finds mac ns (some i) =
    (n : Neighbor) × (get_elem? ns i ≡ some n) × (holds mac n ≡ true) × (lookup mac ns ≡ some n)

Finds-next :
    (mac : Mac) (n : Neighbor) (ns : Table) (o : Option ℕ)
    → holds mac n ≡ false
    → Finds mac ns o
    → Finds mac (n ∷ ns) (elim o [ none ↦ none | some i ↦ some (suc i) ])
Finds-next mac n ns none e h = ground arith
Finds-next mac n ns (some i) e h = (h.0, h.1, h.2, ground (arith, h.3))

get_neighbor_by_mac-Finds : (mac : Mac) (ns : Table) → Finds mac ns (get_neighbor_by_mac mac ns)
unfolding get_neighbor_by_mac
get_neighbor_by_mac-Finds mac [] = refl
get_neighbor_by_mac-Finds mac (n ∷ ns) = elim (Bool-cases (holds mac n)) [
  | inl e ↦ rw e (n, refl, e, rw e refl)
  | inr e ↦ rw e (Finds-next mac n ns _ e (get_neighbor_by_mac-Finds mac ns))
]

-- The two ways of an update: no slot holds the address, or the slot that it finds is changed.
pub update_existing_cases {ℓ} :
    (P : Table → Type ℓ) (mac : Mac) (f : Neighbor → Neighbor) (other ns : Table)
    → (listed mac ns ≡ false → P other)
    → ((i : ℕ) → Finds mac ns (some i) → P (modify ns i f))
    → P (update_existing mac f other ns)
unfolding update_existing
update_existing_cases P mac f other ns absent present =
    go (get_neighbor_by_mac mac ns) (get_neighbor_by_mac-Finds mac ns)
  where
    go : (o : Option ℕ) → Finds mac ns o → P (elim o [ none ↦ other | some i ↦ modify ns i f ])
    go none h = absent h
    go (some i) h = present i h

-- A free slot is inactive; without one every slot is active.
abbrev pub IsFree : Table → Option ℕ → Type 0
IsFree ns none = All (λ n. n.active ≡ true) ns
IsFree ns (some i) = (n : Neighbor) × (get_elem? ns i ≡ some n) × (n.active ≡ false)

IsFree-next :
    (n : Neighbor) (ns : Table) (o : Option ℕ)
    → n.active ≡ true
    → IsFree ns o
    → IsFree (n ∷ ns) (elim o [ none ↦ none | some i ↦ some (suc i) ])
IsFree-next n ns none e h = (e, h)
IsFree-next n ns (some i) e h = h

pub empty_slot-IsFree : (ns : Table) → IsFree ns (empty_slot ns)
unfolding empty_slot
empty_slot-IsFree [] = tt
empty_slot-IsFree (n ∷ ns) = elim (Bool-cases n.active) [
  | inl e ↦ simp e (IsFree-next n ns _ e (empty_slot-IsFree ns))
  | inr e ↦ simp e (n, refl, e)
]

-- A change of a slot that keeps its address and its activity keeps the set of addresses.
module _ (f : Neighbor → Neighbor)
    (keep : (m : Mac) (n : Neighbor) → holds m (f n) ≡ holds m n) where
  pub listed-modify : (m : Mac) (ns : Table) (i : ℕ) → listed m (modify ns i f) ≡ listed m ns
  listed-modify m [] i = refl
  listed-modify m (n ∷ ns) zero = ap (λ b. b || listed m ns) (keep m n)
  listed-modify m (n ∷ ns) (suc i) = ap (λ b. holds m n || b) (listed-modify m ns i)

module _ (mac : Mac) (rssi : ℤ) (now : ℕ) where
  -- The slot that receives a new address holds no other.
  pub listed-occupy :
      (m : Mac) (ns : Table) (i : ℕ)
      → listed m ns ≡ false
      → bytes_eq mac m ≡ false
      → listed m (modify ns i (occupy mac rssi now)) ≡ false
  unfolding occupy
  listed-occupy m [] i h e = h
  listed-occupy m (n ∷ ns) zero h e = ground arith
  listed-occupy m (n ∷ ns) (suc i) h e = ground (arith, listed-occupy m ns i)

  pub Distinct-occupy :
      (ns : Table) (i : ℕ)
      → listed mac ns ≡ false
      → Distinct ns
      → Distinct (modify ns i (occupy mac rssi now))
  unfolding occupy
  Distinct-occupy [] i h d = d
  Distinct-occupy (n ∷ ns) zero h d = (ground arith, d.1)
  Distinct-occupy (n ∷ ns) (suc i) h d = (
    ground (arith, d.0, listed-occupy n.mac ns i, bytes_eq_comm mac n.mac),
    Distinct-occupy ns i (ground arith) d.1,
  )

  -- The new address is found in the slot that received it.
  pub lookup-occupy :
      (ns : Table) (i : ℕ) (n : Neighbor)
      → listed mac ns ≡ false
      → get_elem? ns i ≡ some n
      → lookup mac (modify ns i (occupy mac rssi now)) ≡ some (occupy mac rssi now n)
  unfolding occupy
  lookup-occupy [] i n h e = cc
  lookup-occupy (x ∷ ns) zero n h e = rw (bytes_eq_refl mac) (ground arith)
  lookup-occupy (x ∷ ns) (suc i) n h e = ground (arith, lookup-occupy ns i n)

  -- Another address finds what it found before, unless its own entry was overwritten.
  pub lookup-occupy_ne :
      (m : Mac) (ns : Table) (i : ℕ) (n : Neighbor)
      → Distinct ns
      → bytes_eq mac m ≡ false
      → get_elem? ns i ≡ some n
      → lookup m (modify ns i (occupy mac rssi now)) ≡ (if holds m n then none else lookup m ns)
  unfolding occupy
  lookup-occupy_ne m [] i n d e g = cc
  lookup-occupy_ne m (x ∷ ns) zero n d e g =
      ground (arith, d.0, bytes_eq→eq x.mac m, listed-lookup m ns)
  lookup-occupy_ne m (x ∷ ns) (suc i) n d e g =
      ground (
        arith,
        d.0,
        bytes_eq→eq x.mac m,
        lookup-occupy_ne m ns i n d.1 e g,
        listed_of_get m ns i n g,
      )
