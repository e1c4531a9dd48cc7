-- ===== src/Manager/Rules.antt =====
-- src/state_manager.cpp: what the activation rules decide.
use mesh_visualization.Prelude.{
  ℕ, zero, suc, ◌<◌, ◌≡◌, refl, ◌≢◌, ◌↔◌, ◌⊎◌, inl, inr, Bool, true, false, ◌||◌, some, List, [],
  ◌∷◌, arith, ◌==◌, if◌then◌else◌, Bool-cases, length, get_elem?, take,
}
use mesh_visualization.Prelude.Int.{ℤ}
use mesh_visualization.Config.{node_state_error, node_state_idle, node_state_active}
use mesh_visualization.Floats.{FloatUnit, float_zero, float_tolerance}
use mesh_visualization.State.{NodeState, ActivationRule}
use mesh_visualization.Neighbors.{Table}
use mesh_visualization.Manager.{Manager}
use mesh_visualization.Manager.Led.{state_of_value}
use mesh_visualization.Manager.Activation.{
  rule_fires, any_rule, next_value, is_hot, apply_activation_function,
}
use mesh_visualization.Manager.Sum.{partial_sum, kernel_sum_lem}

module _ (fpu : FloatUnit) where
  -- What a rule asks of the weighted sum: the operators 0 to 4 are <, <=, ==, >= and >.
  abbrev pub Holds : ℕ → ℕ → ℕ → Type 0
  Holds sum op value =
      ((op ≡ 0) × (fpu.lt sum value ≡ true))
      ⊎ ((op ≡ 1) × (fpu.le sum value ≡ true))
      ⊎ ((op ≡ 2) × (fpu.lt (fpu.abs (fpu.sub sum value)) float_tolerance ≡ true))
      ⊎ ((op ≡ 3) × (fpu.le value sum ≡ true))
      ⊎ ((op ≡ 4) × (fpu.lt value sum ≡ true))

  rule_fires_iff :
      (sum : ℕ) (r : ActivationRule) → (rule_fires fpu sum r ≡ true) ↔ Holds sum r.op r.value
  unfolding rule_fires
  rule_fires_iff sum r = ((λ e. ground arith), (λ h. ground arith))

  -- A rule among the first `count` holds.
  abbrev pub SomeHolds : ℕ → ℕ → List ActivationRule → Type 0
  SomeHolds sum count rules =
      (i : ℕ) × (r : ActivationRule) × (i < count)
      × (get_elem? rules i ≡ some r)
      × Holds sum r.op r.value

  Holds-later :
      (sum count : ℕ) (x : ActivationRule) (rules : List ActivationRule)
      → (SomeHolds sum count rules → any_rule fpu sum (take count rules) ≡ true)
      → (i : ℕ) (r : ActivationRule) → i < suc count
      → get_elem? (x ∷ rules) i ≡ some r
      → Holds sum r.op r.value
      → (rule_fires fpu sum x || any_rule fpu sum (take count rules)) ≡ true
  Holds-later sum count x rules rest zero r h g f =
      let fires = (rule_fires_iff sum r).1 f in ground arith
  Holds-later sum count x rules rest (suc i) r h g f =
      ground (arith, rest (i, r, omega arith, g, f))

  any_rule_iff :
      (sum count : ℕ) (rules : List ActivationRule)
      → (any_rule fpu sum (take count rules) ≡ true) ↔ SomeHolds sum count rules
  unfolding any_rule
  any_rule_iff sum zero rules = ((λ e. cc), (λ (i, r, h, g, f). absurd (omega arith)))
  any_rule_iff sum (suc count) [] = ((λ e. cc), (λ (i, r, h, g, f). cc))
  any_rule_iff sum (suc count) (x ∷ rules) = (
    (λ e. elim (Bool-cases (rule_fires fpu sum x)) [
      | inl t ↦ (0, x, omega arith, refl, (rule_fires_iff sum x).0 t)
      | inr t ↦
          let (i, r, h, g, f) = (any_rule_iff sum count rules).0 (rw t at e) in
          (suc i, r, omega arith, g, f)
    ]),
    (λ (i, r, h, g, f). Holds-later sum count x rules (any_rule_iff sum count rules).1 i r h g f),
  )

  -- The value that the rules give the node at a weighted sum.
  abbrev pub Decides : ℕ → NodeState → Type 0
  Decides sum s =
      ((s.activation_count ≡ 0) × (fpu.lt float_zero sum ≡ true))
      ⊎ ((s.activation_count ≢ 0) × SomeHolds sum s.activation_count s.activations)

  next_value_iff : (sum : ℕ) (s : NodeState) → (next_value fpu sum s ≡ true) ↔ Decides sum s
  unfolding next_value
  next_value_iff sum s = elim (Bool-cases (s.activation_count == 0)) [
    | inl e ↦ rw e (
      (λ t. inl (ground arith, t)),
      (λ d. elim d [ inl (z, t) ↦ t | inr (z, t) ↦ absurd (ground arith) ]),
    )
    | inr e ↦ rw e (
      (λ t. inr (ground arith, (any_rule_iff sum s.activation_count s.activations).0 t)),
      (λ d. elim d [
        | inl (z, t) ↦ absurd (ground arith)
        | inr (z, t) ↦ (any_rule_iff sum s.activation_count s.activations).1 t
      ]),
    )
  ]

  decided :
      (sum : ℕ) (s : NodeState)
      → let v : ℕ = if next_value fpu sum s then 1 else 0 in
        ((v ≡ 1) × Decides sum s) ⊎ ((v ≡ 0) × ¬ Decides sum s)
  decided sum s = elim (Bool-cases (next_value fpu sum s)) [
    | inl e ↦ rw e (inl (refl, (next_value_iff sum s).0 e))
    | inr e ↦ rw e (inr (refl, (λ d. let t = (next_value_iff sum s).1 d in cc)))
  ]

  -- Which state a node shows at a temperature and a value.
  abbrev pub Shows : ℤ → ℕ → ℕ → Type 0
  Shows temperature value state =
      ((is_hot fpu temperature ≡ true) × (state ≡ node_state_error))
      ⊎ ((is_hot fpu temperature ≡ false) × (value ≡ 1) × (state ≡ node_state_active))
      ⊎ ((is_hot fpu temperature ≡ false) × (value ≡ 0) × (state ≡ node_state_idle))

  shown :
      (temperature : ℤ) (b : Bool)
      → let v : ℕ = if b then 1 else 0 in
        Shows temperature v (if is_hot fpu temperature then node_state_error else state_of_value v)
  shown temperature b = elim (Bool-cases (is_hot fpu temperature)) [
    | inl e ↦ rw e (inl (refl, refl))
    | inr e ↦ rw e (elim (Bool-cases b) [
      | inl t ↦ rw t (inr (inl (refl, refl, refl)))
      | inr t ↦ rw t (inr (inr (refl, refl, refl)))
    ])
  ]

  -- `apply_activation_function` of a kernel of nine weights stores their weighted sum, and sets the
  -- value to one exactly if a rule among those counted holds at the sum, or, without rules, if the
  -- sum is positive, and to zero otherwise. The state is then an error where the temperature is too
  -- high, and else active or idle as the value is one or zero.
  pub apply_activation_function_lem :
      (ns : Table) (m : Manager)
      → length m.node_state.kernel ≡ 9
      → let s = m.node_state in
        let t = (apply_activation_function fpu ns m).node_state in
        let sum = partial_sum fpu ns s 9 in
        (t.activation_sum ≡ sum)
        × (((t.value ≡ 1) × Decides sum s) ⊎ ((t.value ≡ 0) × ¬ Decides sum s))
        × Shows s.temperature t.value t.state
  unfolding apply_activation_function
  apply_activation_function_lem ns m h =
      let s = m.node_state in
      rw (kernel_sum_lem fpu ns s h)
        (refl, decided (partial_sum fpu ns s 9) s, shown s.temperature _)
