-- ===== src/Mqtt/Command/Ignored.antt =====
-- src/mqtt_handler.cpp: a text that holds no field is ignored.
use mesh_visualization.Prelude.{
  ℕ, ◌≡◌, refl, ◌∙◌, inl, inr, Bool, false, none, [], ◌∷◌, ◌++◌, arith, ◌==◌, Bool-cases, take,
  Bytes, codes,
}
use mesh_visualization.Text.{c_string, starts, strstr, strchr}
use mesh_visualization.Mqtt.Fields.{
  after_name, parse_string_field, parse_number_field, parse_bool_field, parse_float_array_field,
  parse_activations_field,
}
use mesh_visualization.Config.{kernel_size}
use mesh_visualization.Manager.{Manager}
use mesh_visualization.Node.{Node}
use mesh_visualization.Mqtt.Command.{
  Host, target_of, change_preset, change_kernel, change_rules, change_value, change_reset,
  configure, configure_node, handle_mqtt_command,
}

strstr-unquoted : (p name : Bytes) → strchr p b'"' ≡ none → strstr p (b'"' ∷ name) ≡ none
unfolding strstr strchr starts
strstr-unquoted [] name h = refl
strstr-unquoted (c ∷ cs) name h = elim (Bool-cases (c == b'"')) [
  | inl e ↦ absurd (ground arith)
  | inr e ↦
      let other : (b'"' == c) ≡ false = ground arith in
      let later : strchr cs b'"' ≡ none = rw e at h in rw other (strstr-unquoted cs name later)
]

module _ (h : Host) (json : Bytes) (none_there : strchr json b'"' ≡ none) where
  unnamed : (field : Bytes) (mark : ℕ) → after_name json field mark ≡ none
  unfolding after_name
  unnamed field mark = rw (strstr-unquoted json (take 30 (field ++ b'"' ∷ [])) none_there) refl

  no_target : target_of json ≡ none
  unfolding target_of parse_string_field
  no_target = rw (unnamed (codes "target_mac") b':') refl

  no_rules : parse_activations_field h.world.fpu json ≡ none
  unfolding parse_activations_field
  no_rules = rw (strstr-unquoted json (codes "activations\"") none_there) refl

  no_string : (field : Bytes) (size : ℕ) → parse_string_field json field size ≡ none
  unfolding parse_string_field
  no_string field size = rw (unnamed field b':') refl

  no_number : (field : Bytes) → parse_number_field h.world.fpu json field ≡ none
  unfolding parse_number_field
  no_number field = rw (unnamed field b':') refl

  no_flag : (field : Bytes) → parse_bool_field json field ≡ false
  unfolding parse_bool_field
  no_flag field = rw (unnamed field b':') refl

  no_array : (field : Bytes) (k : ℕ) → parse_float_array_field h.world.fpu json field k ≡ none
  unfolding parse_float_array_field
  no_array field k = rw (unnamed field b'[') refl

  module _ (c : Manager × Bool) where
    same_preset : change_preset h.world.fpu h.world.nvs json c ≡ c
    unfolding change_preset
    same_preset = rw (no_string (codes "preset") 32, change_preset) refl

    same_kernel : change_kernel h.world.fpu h.world.nvs json c ≡ c
    unfolding change_kernel
    same_kernel = rw (no_array (codes "kernel") kernel_size, change_kernel) refl

    same_rules : change_rules h.world.fpu h.world.nvs json c ≡ c
    unfolding change_rules
    same_rules = rw (no_rules, change_rules) refl

    same_value : change_value h.world.fpu h.world.nvs json c ≡ c
    unfolding change_value
    same_value = rw (no_number (codes "value"), change_value) refl

    same_reset : (random : ℕ) → change_reset h.world.fpu h.world.nvs json random c ≡ c
    unfolding change_reset
    same_reset random = rw (no_flag (codes "reset"), change_reset) refl

  no_configuration :
      (random : ℕ) (m : Manager) → configure h.world.fpu h.world.nvs json random m ≡ (m, false)
  unfolding configure
  no_configuration random m =
      same_reset _ random ∙ same_value _ ∙ same_rules _ ∙ same_kernel _ ∙ same_preset (m, false)

-- A text without a double quote, whatever else it holds, changes nothing, and the node sends and
-- publishes nothing because of it.
pub handle_mqtt_command_ignored :
    (h : Host) (payload : Bytes) (n : Node)
    → strchr (c_string payload) b'"' ≡ none
    → handle_mqtt_command h payload n ≡ record { node = n; sends = []; published = false }
unfolding handle_mqtt_command configure_node
handle_mqtt_command_ignored h payload n e = elim (Bool-cases h.allocated) [
  | inr a ↦ rw a refl
  | inl a ↦
      rw
        (
          a,
          no_target h (c_string payload) e,
          no_configuration h (c_string payload) e h.world.random n.manager,
        )
        refl
]
