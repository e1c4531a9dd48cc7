-- ===== src/Mqtt/Command/Valid.antt =====
-- src/mqtt_handler.cpp: whatever text arrives as a command, it leads to operations of the node,
-- with arguments that these allow.
use mesh_visualization.Prelude.{
  ℕ, zero, suc, ◌≡◌, inl, inr, Bool, false, some, List, arith, if◌then◌else◌, Bool-cases,
  Option-cases, length, Bytes, codes,
}
use mesh_visualization.Config.{kernel_size}
use mesh_visualization.Floats.{FloatUnit, float_zero}
use mesh_visualization.State.{Mac}
use mesh_visualization.Text.{c_string, >>=-eq-some, skip_ws, expect, strtof}
use mesh_visualization.Manager.{Manager, Nvs}
use mesh_visualization.Manager.Invariant as Managed
use mesh_visualization.Node.{Node, send_mesh_toggle_command, send_mesh_highlight_command}
use mesh_visualization.Node.Invariant as Noded
use mesh_visualization.Mqtt.Fields.{
  parse_string_field, after_name, read_floats, parse_float_array_field, parse_activations_field,
  parse_number_field, parse_bool_field,
}
use mesh_visualization.Mqtt.Command.{
  Host, target_of, is_text, change_preset, change_kernel, change_rules, change_value, change_reset,
  configure, announce, configure_node, command_to, handle_mqtt_command,
}

module _ (fpu : FloatUnit) where
  length-read_floats :
      (k : ℕ) (p : Bytes) {values : List ℕ} → read_floats fpu k p ≡ some values → length values ≡ k
  unfolding read_floats
  length-read_floats zero p e = ground arith
  length-read_floats (suc zero) p e =
      let (r, _, last) = >>=-eq-some (strtof fpu (skip_ws p)) _ e in ground arith
  length-read_floats (suc (suc k)) p e =
      let (r, _, rest) = >>=-eq-some (strtof fpu (skip_ws p)) _ e in
      let (q, _, more) = >>=-eq-some (expect b',' (skip_ws r.1)) _ rest in
      let (values, found, last) = >>=-eq-some (read_floats fpu (suc k) q) _ more in
      let size = length-read_floats (suc k) q found in ground arith

  length-parse_float_array_field :
      (json field : Bytes) (k : ℕ) {values : List ℕ}
      → parse_float_array_field fpu json field k ≡ some values
      → length values ≡ k
  unfolding parse_float_array_field
  length-parse_float_array_field json field k e =
      let (p, _, found) = >>=-eq-some (after_name json field b'[') _ e in
      length-read_floats k p found

module _ (fpu : FloatUnit) (nvs : Nvs) (json : Bytes) (m : Manager) where
  abbrev Reached : Manager × Bool → Type 0
  Reached c = Managed.Reach fpu m c.0

  preset-Reached : (c : Manager × Bool) → Reached c → Reached (change_preset fpu nvs json c)
  unfolding change_preset
  preset-Reached (t, changed) r =
      elim (Option-cases (parse_string_field json (codes "preset") 32)) [
        | inl e ↦ rw (e, change_preset) r
        | inr (name, e) ↦ rw (e, change_preset) (Managed.next r (Managed.preset nvs name t))
      ]

  kernel-Reached : (c : Manager × Bool) → Reached c → Reached (change_kernel fpu nvs json c)
  unfolding change_kernel
  kernel-Reached (t, changed) r =
      elim (Option-cases (parse_float_array_field fpu json (codes "kernel") kernel_size)) [
        | inl e ↦ rw (e, change_kernel) r
        | inr (kernel, e) ↦
            let size = length-parse_float_array_field fpu json (codes "kernel") kernel_size e in
            rw (e, change_kernel) (Managed.next r (Managed.set_kernel nvs kernel t size))
      ]

  rules-Reached : (c : Manager × Bool) → Reached c → Reached (change_rules fpu nvs json c)
  unfolding change_rules
  rules-Reached (t, changed) r = elim (Option-cases (parse_activations_field fpu json)) [
    | inl e ↦ rw (e, change_rules) r
    | inr (rules, e) ↦
        rw (e, change_rules)
          (Managed.next r (Managed.set_rules nvs rules (length rules) t (omega arith)))
  ]

  value-Reached : (c : Manager × Bool) → Reached c → Reached (change_value fpu nvs json c)
  unfolding change_value
  value-Reached (t, changed) r = elim (Option-cases (parse_number_field fpu json (codes "value"))) [
    | inl e ↦ rw (e, change_value) r
    | inr (value, e) ↦
        rw (e, change_value)
          (Managed.next r
            (Managed.write (if fpu.eq value float_zero then 0 else 1) t (ground arith)))
  ]

  reset-Reached :
      (random : ℕ) (c : Manager × Bool) → Reached c → Reached (change_reset fpu nvs json random c)
  unfolding change_reset
  reset-Reached random (t, changed) r = elim (Bool-cases (parse_bool_field json (codes "reset"))) [
    | inl e ↦ rw e (Managed.next r (Managed.reset random t))
    | inr e ↦ rw e r
  ]

  configure-Reached : (random : ℕ) → Reached (configure fpu nvs json random m)
  unfolding configure
  configure-Reached random = reset-Reached random _ (
      value-Reached _ (rules-Reached _ (kernel-Reached _ (preset-Reached (m, false) Managed.here))))

module _ (h : Host) where
  announce-Reach : (n : Node) {t : Node} → Noded.Reach n t → Noded.Reach n (announce h t).node
  unfolding announce
  announce-Reach n {t} r =
      Noded.next (Noded.next r (Noded.broadcast h.world h.routing t)) (Noded.report h.esp _)

  configure_node-Reach : (json : Bytes) (n : Node) → Noded.Reach n (configure_node h json n).node
  unfolding configure_node
  configure_node-Reach json n =
      let result = configure h.world.fpu h.world.nvs json h.world.random n.manager in
      let reached =
        Noded.managed-Reach h.world.fpu n
          (configure-Reached h.world.fpu h.world.nvs json n.manager h.world.random) in
      elim (Bool-cases result.1) [ inl e ↦ rw e (announce-Reach n reached) | inr e ↦ rw e reached ]

  toggle-Reach :
      (target : Mac) (n : Node) → Noded.Reach n (send_mesh_toggle_command h.world target n).0
  unfolding send_mesh_toggle_command
  toggle-Reach target n = Noded.next Noded.here (Noded.command h.world target _ _ n)

  highlight-Reach :
      (target : Mac) (on : Bool) (n : Node)
      → Noded.Reach n (send_mesh_highlight_command h.world target on n).0
  unfolding send_mesh_highlight_command
  highlight-Reach target on n = Noded.next Noded.here (Noded.command h.world target _ _ n)

  command_to-Reach :
      (json : Bytes) (target : Mac) (n : Node) → Noded.Reach n (command_to h json target n).node
  unfolding command_to
  command_to-Reach json target n =
      let command = parse_string_field json (codes "command") 32 in
      elim (Bool-cases (is_text (codes "toggle") command)) [
        | inl e ↦ rw e (toggle-Reach target n)
        | inr a ↦ elim (Bool-cases (is_text (codes "highlight") command)) [
          | inl e ↦ rw (a, e) (highlight-Reach target (parse_bool_field json (codes "enabled")) n)
          | inr b ↦ elim (Bool-cases (parse_bool_field json (codes "toggle"))) [
            | inl e ↦ rw (a, b, e) (toggle-Reach target n)
            | inr e ↦ rw (a, b, e) (configure_node-Reach json n)
          ]
        ]
      ]

  -- Whatever bytes arrive as an MQTT command, handling them is a sequence of operations of the
  -- node.
  pub handle_mqtt_command-Reach :
      (payload : Bytes) (n : Node) → Noded.Reach n (handle_mqtt_command h payload n).node
  unfolding handle_mqtt_command
  handle_mqtt_command-Reach payload n = elim (Bool-cases h.allocated) [
    | inr e ↦ rw e Noded.here
    | inl a ↦ elim (Option-cases (target_of (c_string payload))) [
      | inl e ↦ rw (a, e) (configure_node-Reach (c_string payload) n)
      | inr (target, e) ↦ rw (a, e) (command_to-Reach (c_string payload) target n)
    ]
  ]
