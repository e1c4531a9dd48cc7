-- ===== src/Mqtt/Fields.antt =====
-- src/mqtt_handler.cpp: the parsers of the fields of a command. A field that is missing, or a value
-- that is none, is the result `none`.
pub mod Rules
pub mod Element
pub mod Written
pub mod Kernel
pub mod Address
use mesh_visualization.Prelude.{
  ℕ, zero, suc, ◌-◌, Bool, true, false, ◌&&◌, ◌||◌, Option, none, some, List, [], ◌∷◌, ◌++◌, ltb,
  leb, ◌==◌, if◌then◌else◌, length, take, drop, Bytes, codes,
}
use mesh_visualization.Prelude.Int.{ℤ, pos, negsuc}
use mesh_visualization.Config.{max_activations}
use mesh_visualization.Floats.{FloatUnit, float_zero}
use mesh_visualization.State.{Mac, ActivationRule}
use mesh_visualization.Text.{
  ◌>>=◌, skip_ws, starts, strstr, strchr, expect, strtol, atoi, scan_hex, strtof,
}

-- The name of a field in quotes, through the buffer of 32 bytes.
abbrev pub needle : Bytes → Bytes
needle field = take 31 (b'"' ∷ (field ++ (b'"' ∷ [])))

-- What follows the first `mark` behind the first occurrence of the quoted name.
unfoldable pub after_name : Bytes → Bytes → ℕ → Option Bytes
unfolding strstr strchr
after_name json field mark = do
  p ← strstr json (needle field)
  q ← strchr (drop (length (needle field)) p) mark
  some (drop 1 q)

-- The loop over a string of at most `size` bytes.
unfoldable pub string_bytes : ℕ → Bytes → Bytes
string_bytes zero p = []
string_bytes (suc size) [] = []
string_bytes (suc size) (c ∷ cs) = if c == b'"' then [] else c ∷ string_bytes size cs

abbrev pub non_empty : Bytes → Option Bytes
non_empty [] = none
non_empty (c ∷ cs) = some (c ∷ cs)

-- `parse_string_field` into a buffer of `out_len` bytes.
unfoldable pub parse_string_field : Bytes → Bytes → ℕ → Option Bytes
unfolding after_name skip_ws expect string_bytes
parse_string_field json field out_len = do
  p ← after_name json field b':'
  q ← expect b'"' (skip_ws p)
  non_empty (string_bytes (out_len - 1) q)

-- The fields of "%02x:%02x:%02x:%02x:%02x:%02x", `k` of them behind the first.
unfoldable pub scan_bytes : ℕ → Bytes → Option (List ℕ)
unfolding scan_hex expect
scan_bytes zero p = do (v, rest) ← scan_hex p; some (v ∷ [])
scan_bytes (suc k) p = do
  (v, rest) ← scan_hex p
  q ← expect b':' rest
  vs ← scan_bytes k q
  some (v ∷ vs)

abbrev pub all_fit : List ℕ → Bool
all_fit [] = true
all_fit (v ∷ vs) = leb v 255 && all_fit vs

unfoldable pub parse_mac_string : Bytes → Option Mac
unfolding scan_bytes
parse_mac_string text = do vs ← scan_bytes 5 text; if all_fit vs then some vs else none

unfoldable pub parse_number_field : FloatUnit → Bytes → Bytes → Option ℕ
unfolding after_name skip_ws strtof
parse_number_field fpu json field = do
  p ← after_name json field b':'
  (value, end) ← strtof fpu (skip_ws p)
  some value

abbrev pub is_true : Option Bytes → Bool
is_true none = false
is_true (some p) = starts (codes "true") p || starts (codes "1") p

unfoldable pub parse_bool_field : Bytes → Bytes → Bool
unfolding after_name skip_ws starts
parse_bool_field json field = is_true (do p ← after_name json field b':'; some (skip_ws p))

module _ (fpu : FloatUnit) where
  -- The loop over `count` floats with commas between them.
  unfoldable pub read_floats : ℕ → Bytes → Option (List ℕ)
  unfolding skip_ws strtof expect
  read_floats zero p = some []
  read_floats (suc zero) p = do (value, end) ← strtof fpu (skip_ws p); some (value ∷ [])
  read_floats (suc (suc k)) p = do
    (value, end) ← strtof fpu (skip_ws p)
    q ← expect b',' (skip_ws end)
    values ← read_floats (suc k) q
    some (value ∷ values)

  unfoldable pub parse_float_array_field : Bytes → Bytes → ℕ → Option (List ℕ)
  unfolding after_name read_floats
  parse_float_array_field json field count = do p ← after_name json field b'['; read_floats count p

  -- A key of the object that ends at `obj_end`, and what follows its colon.
  abbrev key_before : Bytes → Bytes → Bytes → Option Bytes
  key_before obj_end p name = do
    key ← strstr p name
    if ltb (length obj_end) (length key) then some key else none

  abbrev value_or_zero : Option (ℕ × Bytes) → ℕ
  value_or_zero none = float_zero
  value_or_zero (some (value, end)) = value

  -- The operator and the value of an object, if it has both keys.
  unfoldable pub object_rule : Bytes → Bytes → Option (ℤ × ℕ)
  unfolding strstr strchr skip_ws atoi strtof
  object_rule obj_end p = do
    op_key ← key_before obj_end p (codes "\"op\"")
    value_key ← key_before obj_end p (codes "\"value\"")
    op ← strchr op_key b':'
    value ← strchr value_key b':'
    some (atoi (skip_ws (drop 1 op)), value_or_zero (strtof fpu (skip_ws (drop 1 value))))

  abbrev pub object_element : Bytes → Option (Option (ℤ × ℕ) × Bytes)
  object_element p = do obj_end ← strchr p b'}'; some (object_rule obj_end p, drop 1 obj_end)

  abbrev pub pair_element : Bytes → Option (Option (ℤ × ℕ) × Bytes)
  pair_element p = do
    (op, end) ← strtol p
    q ← expect b',' (skip_ws end)
    (value, rest) ← strtof fpu (skip_ws q)
    some (some (op, value), rest)

  -- One element of the array, an object or two numbers: the rule that it holds, if it does, and
  -- what follows. `none` is a `break`.
  unfoldable pub read_element : Bytes → Option (Option (ℤ × ℕ) × Bytes)
  unfolding object_rule strchr strtol expect skip_ws strtof
  read_element [] = pair_element []
  read_element (c ∷ cs) = if c == b'{' then object_element (c ∷ cs) else pair_element (c ∷ cs)

  -- `rules[*count] = ...; (*count)++` for an operator that there is.
  abbrev pub add_rule : Option (ℤ × ℕ) → List ActivationRule → List ActivationRule
  add_rule none rules = rules
  add_rule (some (negsuc op, value)) rules = rules
  add_rule (some (pos op, value)) rules =
      if leb op 4 then rules ++ (record { op = op; value = value } ∷ []) else rules

  abbrev pub at_end : Bytes → Bool
  at_end [] = true
  at_end (c ∷ cs) = c == b']'

  abbrev pub skip_comma : Bytes → Bytes
  skip_comma [] = []
  skip_comma (c ∷ cs) = if c == b',' then cs else c ∷ cs

  -- The loop over the array, on at most `fuel` elements; `none` is that this is not enough.
  unfoldable pub read_rules : ℕ → Bytes → List ActivationRule → Option (List ActivationRule)
  unfolding read_element skip_ws
  read_rules zero p rules = none
  read_rules (suc fuel) p rules = elim (at_end p || leb max_activations (length rules)) [
    | true ↦ some rules
    | false ↦ elim (read_element (skip_ws p)) [
      | none ↦ some rules
      | some (rule, q) ↦ read_rules fuel (skip_comma (skip_ws q)) (add_rule rule rules)
    ]
  ]

  -- The rules, whose number is the count.
  unfoldable pub parse_activations_field : Bytes → Option (List ActivationRule)
  unfolding strstr strchr read_rules
  parse_activations_field json = do
    p ← strstr json (codes "\"activations\"")
    q ← strchr p b'['
    read_rules (suc (length q)) (drop 1 q) []
