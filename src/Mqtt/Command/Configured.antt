-- ===== src/Mqtt/Command/Configured.antt =====
-- src/mqtt_handler.cpp: a command that gives the mesh a kernel and rules.
use mesh_visualization.Prelude.{
  ℕ, ◌≤◌, ◌≡◌, refl, sym, ap, ◌∙◌, true, false, none, some, List, ◌∷◌, ◌++◌, map, length, take, All,
  Bytes, codes,
}
use mathlib.Core.List.{append_assoc}
use mesh_visualization.Config.{kernel_size, max_activations}
use mesh_visualization.Floats.{FloatUnit}
use mesh_visualization.State.{ActivationRule}
use mesh_visualization.Manager.{set_kernel_values, set_activation_rules}
use mesh_visualization.Node.{Node}
use mesh_visualization.Text.{strstr}
use mesh_visualization.Text.Search.{is_clear, differs}
use mesh_visualization.Mqtt.{activation_json}
use mesh_visualization.Mqtt.Lists.{array}
use mesh_visualization.Mqtt.Fields.{
  needle, after_name, parse_string_field, parse_number_field, parse_bool_field,
  parse_float_array_field, parse_activations_field,
}
use mesh_visualization.Mqtt.Fields.Element.{ReadsBack, AreReadable}
use mesh_visualization.Mqtt.Fields.Written.{parse_activations_field-array, parse_number_field-array}
use mesh_visualization.Mqtt.Fields.Kernel.{parse_float_array_field-array}
use mesh_visualization.Mqtt.Command.{Host, target_of, write_value, announce, handle_mqtt_command}
use mesh_visualization.Mqtt.Command.Steps.{
  rules_set, kernel_set, handle_untargeted, configured, configure_node-configured,
}
use mesh_visualization.Mqtt.Command.Absent.{
  IsOther, kernel_part, config_command, in_kernel_part, is_clear-IsTextual, c_string-config_command,
  strstr-config_command,
}

after_name-none :
    (json field : Bytes) (mark : ℕ)
    → strstr json (needle field) ≡ none
    → after_name json field mark ≡ none
unfolding after_name
after_name-none json field mark e = rw e refl

module _ (fpu : FloatUnit) (value : ℕ) (values : List ℕ) (rule : ActivationRule)
    (rules : List ActivationRule) (size : length (value ∷ values) ≡ kernel_size)
    (few : length (rule ∷ rules) ≤ max_activations) (k : All (ReadsBack fpu) (value ∷ values))
    (r : AreReadable fpu (rule ∷ rules)) where
  abbrev json : Bytes
  json = config_command fpu (value ∷ values) (rule ∷ rules)

  absent :
      (field : Bytes)
      → let quoted = field ++ codes "\"" in
        needle field ≡ b'"' ∷ quoted
        → IsOther quoted
        → is_clear (b'"' ∷ quoted) (codes "{\"kernel\":") ≡ true
        → is_clear (b'"' ∷ quoted) (codes "\"activations\":") ≡ true
        → after_name json field b':' ≡ none
  absent field short o first second = after_name-none json field b':' (
      rw short (
        strstr-config_command fpu (value ∷ values) (rule ∷ rules) k r (field ++ codes "\"") o first
          second))

  no_target : target_of json ≡ none
  unfolding target_of parse_string_field is_clear differs
  no_target =
      rw (absent (codes "target_mac") refl (record { op = refl; value = refl }) refl refl) refl

  no_preset : parse_string_field json (codes "preset") 32 ≡ none
  unfolding parse_string_field is_clear differs
  no_preset = rw (absent (codes "preset") refl (record { op = refl; value = refl }) refl refl) refl

  no_reset : parse_bool_field json (codes "reset") ≡ false
  unfolding parse_bool_field is_clear differs
  no_reset = rw (absent (codes "reset") refl (record { op = refl; value = refl }) refl refl) refl

  kernel_read :
      parse_float_array_field fpu json (codes "kernel") kernel_size ≡ some (value ∷ values)
  unfolding is_clear differs
  kernel_read =
      let texts = array (map (fpu.print 4) (value ∷ values)) in
      let rest =
        codes "\"activations\":"
        ++ (array (map (activation_json fpu) (rule ∷ rules)) ++ codes "}") in
      let read = λ (t : Bytes) (n : ℕ).
        parse_float_array_field fpu (codes "{\"kernel\":" ++ t) (codes "kernel") n in
      ap (λ t. read t kernel_size) (append_assoc texts (codes ",") rest)
      ∙ ap (read (texts ++ (codes "," ++ rest))) (sym size)
      ∙ parse_float_array_field-array fpu (codes "{") value values (codes "," ++ rest) refl k

  rules_read : parse_activations_field fpu json ≡ some (rule ∷ rules)
  unfolding is_clear differs
  rules_read =
      parse_activations_field-array fpu (kernel_part fpu (value ∷ values)) (rule ∷ rules)
        (codes "}")
        (in_kernel_part (λ p. is_clear (codes "\"activations\"") p ≡ true)
          (is_clear-IsTextual (codes "activations\"")) fpu (value ∷ values) k refl)
        few r

  value_read : parse_number_field fpu json (codes "value") ≡ some rule.value
  unfolding is_clear differs
  value_read =
      parse_number_field-array fpu (kernel_part fpu (value ∷ values)) rule rules (codes "}")
        (in_kernel_part (λ p. is_clear (codes "\"value\"") p ≡ true)
          (is_clear-IsTextual (codes "value\"")) fpu (value ∷ values) k refl)
        r.0.0 r.0.1

-- A command with nine weights and one to eight rules, written as a node publishes them and of
-- values that `strtof` reads back, sets exactly this kernel and these rules and is announced to
-- the mesh, if a copy of its text can be allocated; but it also sets the node's own value, to
-- whether that of the first rule is not zero.
pub handle_mqtt_command_configured :
    (h : Host) (value : ℕ) (values : List ℕ) (rule : ActivationRule) (rules : List ActivationRule)
    (n : Node)
    → h.allocated ≡ true
    → length (value ∷ values) ≡ kernel_size
    → length (rule ∷ rules) ≤ max_activations
    → All (ReadsBack h.world.fpu) (value ∷ values)
    → AreReadable h.world.fpu (rule ∷ rules)
    → let w = h.world in
      let text = config_command w.fpu (value ∷ values) (rule ∷ rules) in
      let m =
        (set_activation_rules w.fpu w.nvs
          (rule ∷ rules)
          (length (rule ∷ rules))
          (set_kernel_values w.nvs (value ∷ values) n.manager)).0 in
      (handle_mqtt_command h text n
        ≡ announce h (record n { manager = write_value w.fpu w.nvs text rule.value m }))
      × (m.node_state.kernel ≡ value ∷ values)
      × (take m.node_state.activation_count m.node_state.activations ≡ rule ∷ rules)
handle_mqtt_command_configured h value values rule rules n allocated size few k r =
    let w = h.world in
    let text = config_command w.fpu (value ∷ values) (rule ∷ rules) in
    let set =
      rules_set w.fpu w.nvs (rule ∷ rules) (set_kernel_values w.nvs (value ∷ values) n.manager)
        few in
    (
      handle_untargeted h text text n allocated
            (c_string-config_command w.fpu (value ∷ values) (rule ∷ rules) k r)
            (no_target w.fpu value values rule rules size few k r)
          ∙ configure_node-configured h text n _ (
              configured h text (value ∷ values) (rule ∷ rules) rule.value n.manager
                (no_preset w.fpu value values rule rules size few k r)
                (kernel_read w.fpu value values rule rules size few k r)
                (rules_read w.fpu value values rule rules size few k r)
                (value_read w.fpu value values rule rules size few k r)
                (no_reset w.fpu value values rule rules size few k r)),
      set.0 ∙ kernel_set w.nvs (value ∷ values) n.manager,
      set.1,
    )
