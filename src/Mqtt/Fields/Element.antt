-- ===== src/Mqtt/Fields/Element.antt =====
-- src/mqtt_handler.cpp: `read_element` reads a rule as a node publishes it.
use mesh_visualization.Prelude.{
  ℕ, ◌+◌, ◌/◌, ◌%◌, ◌≤◌, ◌<◌, ◌≡◌, refl, ap, ◌∙◌, ◌≢◌, ◌⊎◌, inl, true, false, some, List, [], ◌∷◌,
  ◌++◌, arith, ltb, ◌==◌, length, drop, All, length-append, drop-append, Bytes, codes,
}
use mesh_visualization.Prelude.Int.{pos}
use mathlib.Core.List.{append_assoc}
use mesh_visualization.Floats.{FloatUnit}
use mesh_visualization.State.{ActivationRule}
use mesh_visualization.Printf.{digits, decimal}
use mesh_visualization.Text.{
  skip_ws, starts, strstr, strchr, read_digits, read_unsigned, read_signed, strtol, atoi, strtof,
}
use mesh_visualization.Text.Search.{strchr-append}
use mesh_visualization.Mqtt.{activation_json}
use mesh_visualization.Mqtt.Fields.{object_rule, read_element}
use mesh_visualization.Mqtt.Fields.Rules.{IsOperator}

-- A byte of the decimal text of a finite float.
abbrev pub IsFloatByte : ℕ → Type 0
IsFloatByte c = (45 ≤ c) × (c ≤ 57)

-- `strtof` reads the text of a value back, up to a brace, a bracket or a comma behind it.
pub record ReadsBack (fpu : FloatUnit) (value : ℕ) : Type 0 where
  pub present : 0 < length (fpu.print 4 value)
  pub plain : All IsFloatByte (fpu.print 4 value)
  pub reads :
      (c : ℕ) (rest : Bytes)
      → (c ≡ b'}') ⊎ ((c ≡ b']') ⊎ (c ≡ b','))
      → fpu.strtof (fpu.print 4 value ++ c ∷ rest) ≡ some (value, length (fpu.print 4 value))

pub decimal-digit : (n : ℕ) → n < 10 → decimal n ≡ (48 + n) ∷ []
unfolding digits
decimal-digit n h =
    let last : (n / 10 == 0) ≡ true = ground arith in
    let digit : n % 10 ≡ n = omega arith in rw (last, digit) refl

skip_ws-plain : (c : ℕ) (cs : Bytes) → 45 ≤ c → skip_ws (c ∷ cs) ≡ c ∷ cs
unfolding skip_ws
skip_ws-plain c cs h = ground arith

atoi-digit : (n : ℕ) (rest : Bytes) → n < 10 → atoi ((48 + n) ∷ (b',' ∷ rest)) ≡ pos n
unfolding atoi strtol read_signed read_unsigned read_digits
atoi-digit n rest h = ground (arith, skip_ws-plain (48 + n) (b',' ∷ rest))

skip_ws-text : (t rest : Bytes) → 0 < length t → All IsFloatByte t → skip_ws (t ++ rest) ≡ t ++ rest
skip_ws-text [] rest h p = absurd (omega arith)
skip_ws-text (c ∷ cs) rest h p = skip_ws-plain c (cs ++ rest) p.0.0

text_ne : (t : Bytes) → All IsFloatByte t → All (λ d. d ≢ b'}') t
text_ne [] h = tt
text_ne (c ∷ cs) h = (ground arith, text_ne cs h.1)

-- The rules have operators, and `strtof` reads their values back.
abbrev pub AreReadable : FloatUnit → List ActivationRule → Type 0
AreReadable fpu rules = All (λ r. IsOperator r × ReadsBack fpu r.value) rules

module _ (fpu : FloatUnit) (value : ℕ) (r : ReadsBack fpu value) where
  abbrev pub text : Bytes
  text = fpu.print 4 value

  pub strtof-written :
      (c : ℕ) (rest : Bytes)
      → (c ≡ b'}') ⊎ ((c ≡ b']') ⊎ (c ≡ b','))
      → strtof fpu (skip_ws (text ++ c ∷ rest)) ≡ some (value, c ∷ rest)
  unfolding strtof
  strtof-written c rest h =
      let size : (length text == 0) ≡ false = ground (arith, r.present) in
      rw
        (
          skip_ws-text text (c ∷ rest) r.present r.plain,
          r.reads c rest h,
          size,
          drop-append text (c ∷ rest) refl,
        )
        refl

  module _ (op : ℕ) (tail : Bytes) (small : op ≤ 4) where
    -- The object of a rule, part by part.
    abbrev pub value_key : Bytes
    value_key = codes "\"value\":" ++ (text ++ b'}' ∷ tail)

    abbrev pub object : Bytes
    object = codes "{\"op\":" ++ ((48 + op) ∷ (b',' ∷ value_key))

    abbrev front : Bytes
    front = codes "{\"op\":" ++ ((48 + op) ∷ (codes ",\"value\":" ++ text))

    pub activation_json-object :
        activation_json fpu (record { op = op; value = value }) ++ tail ≡ object
    activation_json-object =
        rw (decimal-digit op (omega arith), append_assoc text (codes "}") tail) refl

    strchr-object : strchr object b'}' ≡ some (b'}' ∷ tail)
    unfolding strchr
    strchr-object = strchr-append front (b'}' ∷ tail) b'}' (ground (arith, text_ne text r.plain))

    strstr-op : strstr object (codes "\"op\"") ≡ some (drop 1 object)
    unfolding strstr starts
    strstr-op = refl

    pub strstr-value : strstr object (codes "\"value\"") ≡ some value_key
    unfolding strstr starts
    strstr-value = let other : (b'"' == 48 + op) ≡ false = ground arith in rw other refl

    object_rule-object : object_rule fpu (b'}' ∷ tail) object ≡ some (pos op, value)
    unfolding object_rule strchr
    object_rule-object =
        let size = length-append text (b'}' ∷ tail) in
        let first : ltb (length (b'}' ∷ tail)) (length (drop 1 object)) ≡ true =
          ground (arith, size) in
        let second : ltb (length (b'}' ∷ tail)) (length value_key) ≡ true = ground (arith, size) in
        rw
          (
            strstr-op,
            first,
            strstr-value,
            second,
            skip_ws-plain (48 + op) (b',' ∷ value_key) (omega arith),
            atoi-digit op value_key (omega arith),
            strtof-written b'}' tail (inl refl),
          )
          refl

    pub read_element-written :
        read_element fpu (activation_json fpu (record { op = op; value = value }) ++ tail)
        ≡ some (some (pos op, value), tail)
    unfolding read_element
    read_element-written =
        ap (read_element fpu) activation_json-object ∙ rw (strchr-object, object_rule-object) refl
