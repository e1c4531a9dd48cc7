-- ===== src/Neighbors/Values.antt =====
-- src/mesh_node.cpp: the inputs that the table gives to the activation kernel, and its count.
use mesh_visualization.Prelude.{
  ℕ, zero, suc, ◌-◌, ◌≤◌, ◌≡◌, refl, sym, ap, inl, inr, ◌&&◌, List, [], ◌∷◌, ◌++◌, arith, ◌==◌,
  if◌then◌else◌, Bool-cases, length, take, replicate,
}
use mesh_visualization.Floats.{float_zero, float_one}
use mesh_visualization.State.{Neighbor}
use mesh_visualization.Neighbors.{Table, get_neighbor_count, neighbor_values, fill_neighbor_values}

-- 1.0f for a value that is not zero.
abbrev pub level : Neighbor → ℕ
level n = if n.state.value == 0 then float_zero else float_one

-- The levels of the active neighbors whose state is known, in the order of the slots.
abbrev pub reports : Table → List ℕ
reports [] = []
reports (n ∷ ns) = if n.active && n.has_state then level n ∷ reports ns else reports ns

pub get_neighbor_count-le : (ns : Table) → get_neighbor_count ns ≤ length ns
unfolding get_neighbor_count
get_neighbor_count-le [] = omega arith
get_neighbor_count-le (n ∷ ns) = ground (arith, get_neighbor_count-le ns)

neighbor_values_lem : (ns : Table) (max : ℕ) → neighbor_values ns max ≡ take max (reports ns)
unfolding neighbor_values
neighbor_values_lem [] zero = refl
neighbor_values_lem [] (suc max) = refl
neighbor_values_lem (n ∷ ns) zero = refl
neighbor_values_lem (n ∷ ns) (suc max) = elim (Bool-cases (n.active && n.has_state)) [
  | inl e ↦ simp (e, neighbor_values_lem ns max)
  | inr e ↦ simp (e, neighbor_values_lem ns (suc max))
]

take-replicate : (z m k : ℕ) → m ≤ k → take m (replicate k z) ≡ replicate m z
take-replicate z zero k h = refl
take-replicate z (suc m) zero h = absurd (omega arith)
take-replicate z (suc m) (suc k) h = ap (λ t. z ∷ t) (take-replicate z m k (omega arith))

take-pad :
    (xs : List ℕ) (z m k : ℕ)
    → m ≤ k
    → take m xs ++ replicate (m - length (take m xs)) z ≡ take m (xs ++ replicate k z)
take-pad xs z zero k h = refl
take-pad [] z (suc m) k h =
    let e : suc m - 0 ≡ suc m = omega arith in rw e (sym (take-replicate z (suc m) k h))
take-pad (x ∷ xs) z (suc m) k h =
    let e : suc m - suc (length (take m xs)) ≡ m - length (take m xs) = omega arith in
    rw e (ap (λ t. x ∷ t) (take-pad xs z m k (omega arith)))

-- `fill_neighbor_values` writes the first `max` levels, and 0.0f where there are fewer.
pub fill_neighbor_values_lem :
    (ns : Table) (max : ℕ)
    → fill_neighbor_values ns max ≡ take max (reports ns ++ replicate max float_zero)
unfolding fill_neighbor_values
fill_neighbor_values_lem ns max =
    rw (neighbor_values_lem ns max) (take-pad (reports ns) float_zero max max (omega arith))
