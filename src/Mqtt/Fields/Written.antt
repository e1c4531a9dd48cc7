-- ===== src/Mqtt/Fields/Written.antt =====
-- src/mqtt_handler.cpp: `parse_activations_field` reads the rules that a node publishes.
use mesh_visualization.Prelude.{
  ℕ, zero, suc, ◌+◌, ◌≤◌, ◌<◌, ◌≡◌, refl, ap, ◌∙◌, inl, true, false, ◌||◌, Option, some, List, [],
  ◌∷◌, ◌++◌, map, arith, leb, length, length-append, Bytes, codes,
}
use mesh_visualization.Prelude.Int.{ℤ, pos}
use mathlib.Core.List.{append-nil, append_assoc}
use mesh_visualization.Config.{max_activations}
use mesh_visualization.Floats.{FloatUnit}
use mesh_visualization.State.{ActivationRule}
use mesh_visualization.Printf.{join, separated}
use mesh_visualization.Text.{skip_ws, starts, strstr, strchr, strtof}
use mesh_visualization.Text.Search.{is_clear, strstr-append}
use mesh_visualization.Mqtt.{activation_json}
use mesh_visualization.Mqtt.Lists.{array}
use mesh_visualization.Mqtt.Fields.{
  read_element, add_rule, at_end, skip_comma, read_rules, parse_activations_field,
  parse_number_field, after_name,
}
use mesh_visualization.Mqtt.Fields.Rules.{IsOperator}
use mesh_visualization.Mqtt.Fields.Element.{
  ReadsBack, AreReadable, strtof-written, value_key, object, activation_json-object, strstr-value,
  read_element-written,
}

module _ (fpu : FloatUnit) (rest : Bytes) where
  -- What the array holds from a rule on, and from the comma in front of it.
  abbrev written : List ActivationRule → Bytes
  written rules = join (separated (codes ",") (map (activation_json fpu) rules)) ++ b']' ∷ rest

  abbrev following : List ActivationRule → Bytes
  following rules =
      join (map (λ p. codes "," ++ p) (map (activation_json fpu) rules)) ++ b']' ∷ rest

  skip-following :
      (rules : List ActivationRule) → skip_comma fpu (skip_ws (following rules)) ≡ written rules
  unfolding skip_ws
  skip-following [] = refl
  skip-following (r ∷ rules) = refl

  written-cons :
      (r : ActivationRule) (rules : List ActivationRule)
      → written (r ∷ rules) ≡ activation_json fpu r ++ following rules
  written-cons r rules =
      append_assoc (activation_json fpu r)
        (join (map (λ p. codes "," ++ p) (map (activation_json fpu) rules))) (b']' ∷ rest)

  read_rules_step :
      (fuel : ℕ) (p q : Bytes) (rule : Option (ℤ × ℕ)) (acc : List ActivationRule)
      → (at_end fpu p || leb max_activations (length acc)) ≡ false
      → read_element fpu (skip_ws p) ≡ some (rule, q)
      → read_rules fpu (suc fuel) p acc
        ≡ read_rules fpu fuel (skip_comma fpu (skip_ws q)) (add_rule fpu rule acc)
  unfolding read_rules
  read_rules_step fuel p q rule acc more e = rw (more, e, read_rules) refl

  read_element-first :
      (r : ActivationRule) (rules : List ActivationRule)
      → IsOperator r
      → ReadsBack fpu r.value
      → read_element fpu (skip_ws (written (r ∷ rules)))
        ≡ some (some (pos r.op, r.value), following rules)
  unfolding skip_ws
  read_element-first r rules o v =
      ap (read_element fpu) (written-cons r rules)
      ∙ read_element-written fpu r.value v r.op (following rules) o

  add_rule-operator :
      (r : ActivationRule) (acc : List ActivationRule)
      → IsOperator r
      → add_rule fpu (some (pos r.op, r.value)) acc ≡ acc ++ r ∷ []
  add_rule-operator r acc o = let small : leb r.op 4 ≡ true = ground arith in rw small refl

  read_rules-written :
      (fuel : ℕ) (rules acc : List ActivationRule)
      → length rules < fuel
      → length acc + length rules ≤ max_activations
      → AreReadable fpu rules
      → read_rules fpu fuel (written rules) acc ≡ some (acc ++ rules)
  read_rules-written zero rules acc f h v = absurd (omega arith)
  read_rules-written (suc fuel) [] acc f h v = rw append-nil (unfold read_rules in refl)
  read_rules-written (suc fuel) (r ∷ rules) acc f h v =
      read_rules_step fuel (written (r ∷ rules)) (following rules) (some (pos r.op, r.value)) acc
        (ground arith) (read_element-first r rules v.0.0 v.0.1)
      ∙ (λ i. read_rules fpu fuel (skip-following rules i) (add_rule-operator r acc v.0.0 i))
      ∙ read_rules-written fuel rules (acc ++ r ∷ []) (omega arith)
          (omega (arith, length-append acc (r ∷ []))) v.1
      ∙ ap some (append_assoc acc (r ∷ []) rules)

  length-texts-le :
      (rules : List ActivationRule)
      → length rules ≤ length (join (map (λ p. codes "," ++ p) (map (activation_json fpu) rules)))
  length-texts-le [] = omega arith
  length-texts-le (r ∷ rules) = omega (
    arith,
    length-texts-le rules,
    length-append (codes "," ++ activation_json fpu r)
        (join (map (λ p. codes "," ++ p) (map (activation_json fpu) rules))),
  )

  length-written-le : (rules : List ActivationRule) → length rules < suc (length (written rules))
  length-written-le [] = omega arith
  length-written-le (r ∷ rules) =
      let texts = join (map (λ p. codes "," ++ p) (map (activation_json fpu) rules)) in
      omega (
        arith,
        length-texts-le rules,
        length-append (activation_json fpu r) texts,
        length-append (activation_json fpu r ++ texts) (b']' ∷ rest),
      )

-- A text in which the name of the field first stands in front of rules as a node publishes them,
-- at most eight with operators of the five and values that `strtof` reads back, is read as exactly
-- these rules.
pub parse_activations_field-array :
    (fpu : FloatUnit) (before : Bytes) (rules : List ActivationRule) (rest : Bytes)
    → is_clear (codes "\"activations\"") before ≡ true
    → length rules ≤ max_activations
    → AreReadable fpu rules
    → parse_activations_field fpu
        (before ++ (codes "\"activations\":" ++ (array (map (activation_json fpu) rules) ++ rest)))
      ≡ some rules
unfolding parse_activations_field strstr starts strchr
parse_activations_field-array fpu before rules rest clear fit v =
    let named = codes "\"activations\":" ++ (array (map (activation_json fpu) rules) ++ rest) in
    rw
      (
        strstr-append (codes "\"activations\"") before named clear,
        append_assoc (join (separated (codes ",") (map (activation_json fpu) rules))) (codes "]")
            rest,
      )
      (read_rules-written fpu rest (suc (suc (length (written fpu rest rules)))) rules []
        (omega (arith, length-written-le fpu rest rules)) (omega arith) v)

value-found :
    (fpu : FloatUnit) (json text tail : Bytes) {value : ℕ}
    → strstr json (codes "\"value\"") ≡ some (codes "\"value\":" ++ text)
    → strtof fpu (skip_ws text) ≡ some (value, tail)
    → parse_number_field fpu json (codes "value") ≡ some value
unfolding parse_number_field after_name strchr
value-found fpu json text tail e r = rw (e, r) refl

-- With such rules in a text a value is found, that of the first rule, if its name stands nowhere
-- before: a command that sets rules also writes the node's own value.
pub parse_number_field-array :
    (fpu : FloatUnit) (before : Bytes) (r : ActivationRule) (rules : List ActivationRule)
    (rest : Bytes)
    → is_clear (codes "\"value\"") before ≡ true
    → IsOperator r
    → ReadsBack fpu r.value
    → parse_number_field fpu
        (before
          ++ (codes "\"activations\":" ++ (array (map (activation_json fpu) (r ∷ rules)) ++ rest)))
        (codes "value")
      ≡ some r.value
parse_number_field-array fpu before r rules rest clear o v =
    let texts = map (activation_json fpu) (r ∷ rules) in
    let tail = following fpu rest rules in
    let found : strstr (before ++ (codes "\"activations\":" ++ (array texts ++ rest)))
          (codes "\"value\"")
        ≡ some (value_key fpu r.value v r.op tail o) =
      strstr-append (codes "\"value\"") before (codes "\"activations\":" ++ (array texts ++ rest))
        clear
      ∙ ap (λ t. strstr (codes "\"activations\":[" ++ t) (codes "\"value\""))
          (append_assoc (join (separated (codes ",") texts)) (codes "]") rest
            ∙ written-cons fpu rest r rules
            ∙ activation_json-object fpu r.value v r.op tail o)
      ∙ strstr-append (codes "\"value\"") (codes "\"activations\":[")
          (object fpu r.value v r.op tail o) (unfold is_clear in refl)
      ∙ strstr-value fpu r.value v r.op tail o in
    value-found fpu _ (fpu.print 4 r.value ++ b'}' ∷ tail) (b'}' ∷ tail) found
      (strtof-written fpu r.value v b'}' tail (inl refl))
