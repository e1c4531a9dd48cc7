-- ===== src/Mqtt/Fields/Rules.antt =====
-- src/mqtt_handler.cpp: what `parse_activations_field` returns, on any text.
use mesh_visualization.Prelude.{
  ℕ, zero, suc, ◌≤◌, ◌<◌, ◌≡◌, refl, ◌≢◌, ◌⊎◌, inl, inr, ◌||◌, Option, none, some, List, [], ◌∷◌,
  ◌++◌, arith, leb, ◌==◌, Bool-cases, Option-cases, length, drop, All, length-append, Bytes, codes,
}
use mesh_visualization.Prelude.Int.{ℤ, pos, negsuc}
use mesh_visualization.Config.{max_activations}
use mesh_visualization.Floats.{FloatUnit}
use mesh_visualization.State.{ActivationRule}
use mesh_visualization.Text.{◌>>=◌, skip_ws, strstr, strchr, expect, strtol, strtof}
use mesh_visualization.Text.Progress.{
  Shortens, Shortens-bind, length-drop-lt, Keeps, length-drop-le, length-skip_ws-le,
  strtol-Shortens, strchr-le, expect-lt, float_at-Keeps,
}
use mesh_visualization.Mqtt.Fields.{
  object_element, pair_element, read_element, add_rule, at_end, skip_comma, read_rules,
  parse_activations_field,
}

-- An operator of the five that there are.
abbrev pub IsOperator : ActivationRule → Type 0
IsOperator r = r.op ≤ 4

-- At most eight rules, each with such an operator.
pub record AreRules (rules : List ActivationRule) : Type 0 where
  pub fit : length rules ≤ max_activations
  pub operators : All IsOperator rules

All-concat :
    (rules : List ActivationRule) (r : ActivationRule)
    → All IsOperator rules
    → IsOperator r
    → All IsOperator (rules ++ r ∷ [])
All-concat [] r all last = (last, tt)
All-concat (x ∷ rules) r all last = (all.0, All-concat rules r all.1 last)

module _ (fpu : FloatUnit) where
  object_element-Shortens : (p : Bytes) → Shortens p (object_element fpu p)
  object_element-Shortens p = Shortens-bind p (strchr p b'}') _ (λ obj_end found.
      let bounds = strchr-le p b'}' found in omega (arith, length-drop-lt obj_end bounds.0, bounds))

  strtof-Keeps : (p : Bytes) → Keeps p (strtof fpu p)
  unfolding strtof
  strtof-Keeps p = float_at-Keeps p (fpu.strtof p)

  pair_element-Shortens : (p : Bytes) → Shortens p (pair_element fpu p)
  pair_element-Shortens p = Shortens-bind p (strtol p) _ (λ r e.
      let first = rw e at (strtol-Shortens p) in
      Shortens-bind p (expect b',' (skip_ws r.1)) _ (λ q e'.
        let second = expect-lt b',' (skip_ws r.1) e' in
        Shortens-bind p (strtof fpu (skip_ws q)) _ (λ v e''.
          let third = rw e'' at (strtof-Keeps (skip_ws q)) in
          omega (arith, first, second, third, length-skip_ws-le q, length-skip_ws-le r.1))))

  read_element-Shortens : (p : Bytes) → Shortens p (read_element fpu p)
  unfolding read_element
  read_element-Shortens [] = pair_element-Shortens []
  read_element-Shortens (c ∷ cs) = elim (Bool-cases (c == b'{')) [
    | inl e ↦ rw e (object_element-Shortens (c ∷ cs))
    | inr e ↦ rw e (pair_element-Shortens (c ∷ cs))
  ]

  length-skip_comma-le : (p : Bytes) → length (skip_comma fpu p) ≤ length p
  length-skip_comma-le [] = omega arith
  length-skip_comma-le (c ∷ cs) = ground arith

  add_rule-AreRules :
      (rule : Option (ℤ × ℕ)) (rules : List ActivationRule)
      → length rules < max_activations
      → AreRules rules
      → AreRules (add_rule fpu rule rules)
  add_rule-AreRules none rules h v = v
  add_rule-AreRules (some (negsuc op, value)) rules h v = v
  add_rule-AreRules (some (pos op, value)) rules h v = elim (Bool-cases (leb op 4)) [
    | inr e ↦ rw e v
    | inl e ↦ rw e (record {
      fit = omega (arith, length-append rules (record { op = op; value = value } ∷ []));
      operators = All-concat rules _ v.operators (ground arith);
    })
  ]

  -- The loop ends, with rules that are of the five operators and fit.
  read_rules-AreRules :
      (fuel : ℕ) (p : Bytes) (rules : List ActivationRule)
      → length p < fuel
      → AreRules rules
      → (result : List ActivationRule) × (read_rules fpu fuel p rules ≡ some result)
        × AreRules result
  unfolding read_rules
  read_rules-AreRules zero p rules h v = absurd (omega arith)
  read_rules-AreRules (suc fuel) p rules h v =
      elim (Bool-cases (at_end fpu p || leb max_activations (length rules))) [
        | inl e ↦ (rules, rw (e, read_rules) refl, v)
        | inr e ↦ elim (Option-cases (read_element fpu (skip_ws p))) [
          | inl stop ↦ (rules, rw (e, stop, read_rules) refl, v)
          | inr ((rule, q), more) ↦
              let shorter = rw more at (read_element-Shortens (skip_ws p)) in
              let (result, same, valid) =
                read_rules-AreRules fuel (skip_comma fpu (skip_ws q)) (add_rule fpu rule rules)
                  (omega (
                    arith,
                    shorter,
                    length-skip_ws-le p,
                    length-skip_ws-le q,
                    length-skip_comma-le (skip_ws q),
                  ))
                  (add_rule-AreRules rule rules (ground arith) v) in
              (result, rw (e, more, read_rules) same, valid)
        ]
      ]

  -- `parse_activations_field` ends on every text. It returns false exactly if no bracket stands
  -- behind the name of the field; otherwise it gives at most eight rules, each with one of the five
  -- operators.
  pub parse_activations_field_lem :
      (json : Bytes)
      → let bracket = strstr json (codes "\"activations\"") >>= λ p. strchr p b'[' in
        ((bracket ≡ none) × (parse_activations_field fpu json ≡ none))
        ⊎ ((rules : List ActivationRule) × (parse_activations_field fpu json ≡ some rules)
            × (bracket ≢ none)
            × AreRules rules)
  unfolding parse_activations_field
  parse_activations_field_lem json = elim (Option-cases (strstr json (codes "\"activations\""))) [
    | inl e ↦ inl (rw e refl, rw e refl)
    | inr (p, e) ↦ elim (Option-cases (strchr p b'[')) [
      | inl e' ↦ inl (rw (e, e') refl, rw (e, e') refl)
      | inr (q, e') ↦
          let (result, same, valid) =
            read_rules-AreRules (suc (length q)) (drop 1 q) [] (omega (arith, length-drop-le 1 q))
              (record { fit = omega arith; operators = tt }) in
          inr (result, rw (e, e') same, rw (e, e') (λ h. cc), valid)
    ]
  ]
