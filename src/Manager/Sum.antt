-- ===== src/Manager/Sum.antt =====
-- src/state_manager.cpp: the weighted sum of the activation kernel, by the places of its inputs.
use mesh_visualization.Prelude.{
  ℕ, zero, suc, ◌≡◌, refl, sym, ap, ◌∙◌, inl, inr, not, ◌&&◌, List, [], ◌∷◌, ◌++◌, arith, ◌==◌,
  if◌then◌else◌, Bool-cases, length, get_or, take, replicate,
}
use mesh_visualization.Prelude.Int.{pos}
use mesh_visualization.Floats.{FloatUnit, float_zero, float_one}
use mesh_visualization.State.{NodeState}
use mesh_visualization.Neighbors.{Table}
use mesh_visualization.Neighbors.Values.{reports, fill_neighbor_values_lem}
use mesh_visualization.Manager.Activation.{kernel_inputs, kernel_sum}

take_eight :
    (xs : List ℕ)
    → let x : ℕ → ℕ = λ i. get_or xs i float_zero in
      take 8 (xs ++ replicate 8 float_zero) ≡ x 0 ∷ x 1 ∷ x 2 ∷ x 3 ∷ x 4 ∷ x 5 ∷ x 6 ∷ x 7 ∷ []
take_eight [] = refl
take_eight (a ∷ []) = refl
take_eight (a ∷ b ∷ []) = refl
take_eight (a ∷ b ∷ c ∷ []) = refl
take_eight (a ∷ b ∷ c ∷ d ∷ []) = refl
take_eight (a ∷ b ∷ c ∷ d ∷ e ∷ []) = refl
take_eight (a ∷ b ∷ c ∷ d ∷ e ∷ f ∷ []) = refl
take_eight (a ∷ b ∷ c ∷ d ∷ e ∷ f ∷ g ∷ []) = refl
take_eight (a ∷ b ∷ c ∷ d ∷ e ∷ f ∷ g ∷ h ∷ rest) = refl

module _ (fpu : FloatUnit) where
  -- The input at a place of the kernel: the node's own value at place 8, one at place 0 where
  -- someone is present, and otherwise what the neighbor there reports, or zero.
  abbrev pub input : Table → NodeState → ℕ → ℕ
  input ns s i =
      if i == 8
      then fpu.of_int (pos s.value)
      else (if i == 0 && not (s.mmwave_presence == 0)
          then float_one
          else get_or (reports ns) i float_zero)

  -- The sum of the first `i` products of weight and input, added from the front.
  abbrev pub partial_sum : Table → NodeState → ℕ → ℕ
  partial_sum ns s zero = float_zero
  partial_sum ns s (suc i) =
      fpu.add (partial_sum ns s i) (fpu.mul (get_or s.kernel i 0) (input ns s i))

  -- The nine inputs are the ones that the list has.
  inputs_lem :
      (ns : Table) (s : NodeState)
      → let x = input ns s in
        kernel_inputs fpu ns s ≡ x 0 ∷ x 1 ∷ x 2 ∷ x 3 ∷ x 4 ∷ x 5 ∷ x 6 ∷ x 7 ∷ x 8 ∷ []
  unfolding kernel_inputs
  inputs_lem ns s =
      rw (fill_neighbor_values_lem ns 8, take_eight (reports ns))
        (elim (Bool-cases (s.mmwave_presence == 0)) [ inl e ↦ rw e refl | inr e ↦ rw e refl ])

  -- The same sum over any two lists, from any start.
  sum_of : ℕ → List ℕ → List ℕ → ℕ → ℕ
  sum_of start ks xs zero = start
  sum_of start ks xs (suc i) =
      fpu.add (sum_of start ks xs i) (fpu.mul (get_or ks i 0) (get_or xs i 0))

  sum_of-shift :
      (start k x : ℕ) (ks xs : List ℕ) (i : ℕ)
      → sum_of start (k ∷ ks) (x ∷ xs) (suc i) ≡ sum_of (fpu.add start (fpu.mul k x)) ks xs i
  unfolding sum_of
  sum_of-shift start k x ks xs zero = refl
  sum_of-shift start k x ks xs (suc i) =
      ap (λ t. fpu.add t (fpu.mul (get_or ks i 0) (get_or xs i 0))) (sum_of-shift start k x ks xs i)

  kernel_sum-sum_of :
      (start : ℕ) (ks xs : List ℕ)
      → length ks ≡ length xs
      → kernel_sum fpu start ks xs ≡ sum_of start ks xs (length ks)
  unfolding kernel_sum sum_of
  kernel_sum-sum_of start [] xs h = refl
  kernel_sum-sum_of start (k ∷ ks) [] h = absurd (omega arith)
  kernel_sum-sum_of start (k ∷ ks) (x ∷ xs) h =
      kernel_sum-sum_of (fpu.add start (fpu.mul k x)) ks xs (omega arith)
      ∙ sym (sum_of-shift start k x ks xs (length ks))

  -- Nine weights and nine inputs.
  pub kernel_sum_lem :
      (ns : Table) (s : NodeState)
      → length s.kernel ≡ 9
      → kernel_sum fpu float_zero s.kernel (kernel_inputs fpu ns s) ≡ partial_sum ns s 9
  unfolding sum_of
  kernel_sum_lem ns s h =
      let x = input ns s in
      let inputs = x 0 ∷ x 1 ∷ x 2 ∷ x 3 ∷ x 4 ∷ x 5 ∷ x 6 ∷ x 7 ∷ x 8 ∷ [] in
      ap (kernel_sum fpu float_zero s.kernel) (inputs_lem ns s)
      ∙ kernel_sum-sum_of float_zero s.kernel inputs h
      ∙ ap (sum_of float_zero s.kernel inputs) h
