-- ===== src/Neighbors/Weakest.antt =====
-- src/mesh_node.cpp: the search of `update_neighbor_list` for the slot with the weakest signal.
use mesh_visualization.Prelude.{
  ℕ, suc, ◌+◌, ◌≡◌, refl, ap, ◌⊎◌, inl, inr, true, false, some, [], ◌∷◌, arith, Bool-cases,
  get_elem?, All,
}
use mesh_visualization.Prelude.Int.{ℤ, ◌≤ℤ◌, ltb_ℤ}
use mesh_visualization.State.{Neighbor}
use mesh_visualization.Neighbors.{Table, weakest_from, weakest}

-- The search from slot `i` on returns the best so far or a slot of the rest, and nothing is weaker.
record Least (i : ℕ) (best r : ℕ × ℤ) (ns : Table) : Type 0 where
  bound : r.1 ≤ℤ best.1
  all : All (λ n. r.1 ≤ℤ n.rssi) ns
  origin :
      (r ≡ best)
      ⊎ ((j : ℕ) × (n : Neighbor) × (get_elem? ns j ≡ some n) × (r.0 ≡ i + j) × (r.1 ≡ n.rssi))

Least-hit :
    (i : ℕ) (best r : ℕ × ℤ) (n : Neighbor) (ns : Table)
    → ltb_ℤ n.rssi best.1 ≡ true
    → Least (suc i) (i, n.rssi) r ns
    → Least i best r (n ∷ ns)
Least-hit i best r n ns e l = record {
  bound = ground (arith, l.bound);
  all = (l.bound, l.all);
  origin = elim l.origin [
    | inl h ↦ inr (0, n, refl, ground arith, ground arith)
    | inr h ↦ inr (suc h.0, h.1, h.2, omega (arith, h.3), h.4)
  ];
}

Least-miss :
    (i : ℕ) (best r : ℕ × ℤ) (n : Neighbor) (ns : Table)
    → ltb_ℤ n.rssi best.1 ≡ false
    → Least (suc i) best r ns
    → Least i best r (n ∷ ns)
Least-miss i best r n ns e l = record {
  bound = l.bound;
  all = (ground (arith, l.bound), l.all);
  origin = elim l.origin [
    | inl h ↦ inl h
    | inr h ↦ inr (suc h.0, h.1, h.2, omega (arith, h.3), h.4)
  ];
}

weakest_from-Least : (i : ℕ) (best : ℕ × ℤ) (ns : Table) → Least i best (weakest_from i best ns) ns
unfolding weakest_from
weakest_from-Least i best [] = record { bound = omega arith; all = tt; origin = inl refl }
weakest_from-Least i best (n ∷ ns) = elim (Bool-cases (ltb_ℤ n.rssi best.1)) [
  | inl e ↦ simp e (Least-hit i best _ n ns e (weakest_from-Least (suc i) (i, n.rssi) ns))
  | inr e ↦ simp e (Least-miss i best _ n ns e (weakest_from-Least (suc i) best ns))
]

-- The slot found holds the signal found, and no slot of the table has a weaker one.
abbrev pub IsWeakest : Table → ℕ × ℤ → Type 0
IsWeakest ns r =
    (n : Neighbor) × (get_elem? ns r.0 ≡ some n) × (r.1 ≡ n.rssi) × All (λ k. n.rssi ≤ℤ k.rssi) ns

Least-IsWeakest :
    (n : Neighbor) (ns : Table) (r : ℕ × ℤ) → Least 1 (0, n.rssi) r ns → IsWeakest (n ∷ ns) r
Least-IsWeakest n ns r l = elim l.origin [
  | inl h ↦
      let s : r.1 ≡ n.rssi = ap (λ (t : ℕ × ℤ). t.1) h in
      let i : r.0 ≡ 0 = ap (λ (t : ℕ × ℤ). t.0) h in
      (n, rw i refl, s, (rw s at l.bound, rw s at l.all))
  | inr h ↦
      let i : r.0 ≡ suc h.0 = omega (arith, h.3) in
      (h.1, rw i h.2, h.4, (rw h.4 at l.bound, rw h.4 at l.all))
]

pub weakest-IsWeakest : (n : Neighbor) (ns : Table) → IsWeakest (n ∷ ns) (weakest (n ∷ ns))
unfolding weakest
weakest-IsWeakest n ns = Least-IsWeakest n ns _ (weakest_from-Least 1 (0, n.rssi) ns)
