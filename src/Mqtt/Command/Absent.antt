-- ===== src/Mqtt/Command/Absent.antt =====
-- src/mqtt_handler.cpp: the text of a command that gives the mesh a kernel and rules, and the names
-- that it does not hold.
use mesh_visualization.Prelude.{
  ℕ, ◌+◌, ◌<◌, ◌≡◌, refl, sym, ap, ◌∙◌, true, false, none, List, [], ◌∷◌, ◌++◌, map, arith, ◌==◌,
  All, Bytes, codes,
}
use mathlib.Core.List.{append-nil}
use mesh_visualization.Floats.{FloatUnit}
use mesh_visualization.State.{ActivationRule}
use mesh_visualization.Printf.{join}
use mesh_visualization.Text.{c_string, strstr, starts}
use mesh_visualization.Text.Search.{
  differs, is_clear, is_clear-append, strstr-clear, c_string-append,
}
use mesh_visualization.Mqtt.{activation_json}
use mesh_visualization.Mqtt.Lists.{array}
use mesh_visualization.Mqtt.Fields.Rules.{IsOperator}
use mesh_visualization.Mqtt.Fields.Element.{IsFloatByte, ReadsBack, AreReadable, decimal-digit}

-- The text of a command with a kernel and rules.
abbrev pub kernel_part : FloatUnit → List ℕ → Bytes
kernel_part fpu kernel = codes "{\"kernel\":" ++ (array (map (fpu.print 4) kernel) ++ codes ",")

abbrev pub config_command : FloatUnit → List ℕ → List ActivationRule → Bytes
config_command fpu kernel rules =
    kernel_part fpu kernel
    ++ (codes "\"activations\":" ++ (array (map (activation_json fpu) rules) ++ codes "}"))

-- What holds of texts that are put together, and of what arrays of numbers are put together from.
pub record IsTextual (P : Bytes → Type 0) : Type 0 where
  together : (p q : Bytes) → P p → P q → P (p ++ q)
  numbers : (p : Bytes) → All IsFloatByte p → P p
  brackets : P (codes "[") × P (codes "]")
  comma : P (codes ",")

-- The same of what the text of a rule is put together from.
pub record IsRuled (P : Bytes → Type 0) : Type 0 where
  op : P (codes "{\"op\":")
  value : P (codes ",\"value\":")
  brace : P (codes "}")

module _ (P : Bytes → Type 0) (t : IsTextual P) where
  all_after_comma : (texts : List Bytes) → All P texts → P (join (map (λ p. codes "," ++ p) texts))
  all_after_comma [] h = t.numbers [] tt
  all_after_comma (x ∷ xs) h =
      t.together (codes "," ++ x) _ (t.together (codes ",") x t.comma h.0) (all_after_comma xs h.1)

  in_array : (texts : List Bytes) → All P texts → P (array texts)
  in_array [] h = t.together (codes "[") (codes "]") t.brackets.0 t.brackets.1
  in_array (x ∷ xs) h =
      t.together (codes "[" ++ (x ++ join (map (λ p. codes "," ++ p) xs))) (codes "]")
        (t.together (codes "[") _ t.brackets.0 (t.together x _ h.0 (all_after_comma xs h.1)))
        t.brackets.1

  in_kernel :
      (fpu : FloatUnit) (kernel : List ℕ)
      → All (ReadsBack fpu) kernel
      → All P (map (fpu.print 4) kernel)
  in_kernel fpu [] r = tt
  in_kernel fpu (v ∷ vs) r = (t.numbers _ r.0.plain, in_kernel fpu vs r.1)

  in_rule :
      (q : IsRuled P) (fpu : FloatUnit) (r : ActivationRule)
      → IsOperator r
      → ReadsBack fpu r.value
      → P (activation_json fpu r)
  in_rule q fpu r o v =
      let digit : P ((48 + r.op) ∷ []) = t.numbers _ ((omega arith, omega arith), tt) in
      rw (decimal-digit r.op (omega arith)) (
        t.together (codes "{\"op\":") _ q.op (
          t.together ((48 + r.op) ∷ []) _ digit (
            t.together (codes ",\"value\":") _ q.value
              (t.together (fpu.print 4 r.value) (codes "}") (t.numbers _ v.plain) q.brace))))

  in_rules :
      (q : IsRuled P) (fpu : FloatUnit) (rules : List ActivationRule)
      → AreReadable fpu rules
      → All P (map (activation_json fpu) rules)
  in_rules q fpu [] h = tt
  in_rules q fpu (r ∷ rs) h = (in_rule q fpu r h.0.0 h.0.1, in_rules q fpu rs h.1)

  module _ (fpu : FloatUnit) (kernel : List ℕ) (k : All (ReadsBack fpu) kernel)
      (name : P (codes "{\"kernel\":")) where
    pub in_kernel_part : P (kernel_part fpu kernel)
    in_kernel_part = t.together (codes "{\"kernel\":") _ name (
        t.together (array (map (fpu.print 4) kernel)) (codes ",")
          (in_array _ (in_kernel fpu kernel k)) t.comma)

    in_command :
        (q : IsRuled P) (rules : List ActivationRule)
        → AreReadable fpu rules
        → P (codes "\"activations\":")
        → P (config_command fpu kernel rules)
    in_command q rules r second = t.together (kernel_part fpu kernel) _ in_kernel_part (
        t.together (codes "\"activations\":") _ second (
          t.together (array (map (activation_json fpu) rules)) (codes "}")
            (in_array _ (in_rules q fpu rules r)) q.brace))

-- The command holds no zero.
abbrev NoZero : Bytes → Type 0
NoZero p = All (λ c. 0 < c) p

NoZero-append : (p q : Bytes) → NoZero p → NoZero q → NoZero (p ++ q)
NoZero-append [] q h k = k
NoZero-append (c ∷ cs) q h k = (h.0, NoZero-append cs q h.1 k)

NoZero-numbers : (p : Bytes) → All IsFloatByte p → NoZero p
NoZero-numbers [] h = tt
NoZero-numbers (c ∷ cs) h = (omega (arith, h.0.0), NoZero-numbers cs h.1)

NoZero-IsTextual : IsTextual NoZero
NoZero-IsTextual = record {
  together = NoZero-append;
  numbers = NoZero-numbers;
  brackets = (ground arith, ground arith);
  comma = ground arith;
}

NoZero-IsRuled : IsRuled NoZero
NoZero-IsRuled = record { op = ground arith; value = ground arith; brace = ground arith }

-- A needle that begins with a quote begins in no number.
is_clear-numbers : (name p : Bytes) → All IsFloatByte p → is_clear (b'"' ∷ name) p ≡ true
unfolding is_clear differs
is_clear-numbers name [] h = refl
is_clear-numbers name (c ∷ cs) h =
    let other : (b'"' == c) ≡ false = ground arith in rw other (is_clear-numbers name cs h.1)

-- A name that is neither of a rule.
pub record IsOther (name : Bytes) : Type 0 where
  pub op : is_clear (b'"' ∷ name) (codes "{\"op\":") ≡ true
  pub value : is_clear (b'"' ∷ name) (codes ",\"value\":") ≡ true

pub is_clear-IsTextual : (name : Bytes) → IsTextual (λ p. is_clear (b'"' ∷ name) p ≡ true)
unfolding is_clear differs
is_clear-IsTextual name = record {
  together = is_clear-append (b'"' ∷ name);
  numbers = is_clear-numbers name;
  brackets = (refl, refl);
  comma = refl;
}

is_clear-IsRuled : (name : Bytes) → IsOther name → IsRuled (λ p. is_clear (b'"' ∷ name) p ≡ true)
unfolding is_clear differs
is_clear-IsRuled name o = record { op = o.op; value = o.value; brace = refl }

module _ (fpu : FloatUnit) (kernel : List ℕ) (rules : List ActivationRule)
    (k : All (ReadsBack fpu) kernel) (r : AreReadable fpu rules) where
  pub c_string-config_command :
      c_string (config_command fpu kernel rules) ≡ config_command fpu kernel rules
  unfolding c_string
  c_string-config_command =
      let command = config_command fpu kernel rules in
      ap c_string (sym (append-nil command))
      ∙ c_string-append command [] (
          in_command NoZero NoZero-IsTextual fpu kernel k (ground arith) NoZero-IsRuled rules r
            (ground arith))
      ∙ append-nil command

  -- A name that is not in the command is not found.
  pub strstr-config_command :
      (name : Bytes)
      → IsOther name
      → is_clear (b'"' ∷ name) (codes "{\"kernel\":") ≡ true
      → is_clear (b'"' ∷ name) (codes "\"activations\":") ≡ true
      → strstr (config_command fpu kernel rules) (b'"' ∷ name) ≡ none
  unfolding strstr starts
  strstr-config_command name o first second =
      strstr-clear (b'"' ∷ name) (config_command fpu kernel rules) refl (
        in_command (λ p. is_clear (b'"' ∷ name) p ≡ true) (is_clear-IsTextual name) fpu kernel k
          first (is_clear-IsRuled name o) rules r second)
