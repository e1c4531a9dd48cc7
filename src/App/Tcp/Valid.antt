-- ===== src/App/Tcp/Valid.antt =====
-- src/main.cpp: whatever a client of the TCP server sends, it leads to operations of the node.
use mesh_visualization.Prelude.{
  ℕ, zero, suc, ◌≡◌, inl, inr, some, List, [], ◌∷◌, arith, Option-cases, length, Bytes, codes,
  bytes_eq, if_elim,
}
use mesh_visualization.Floats.{FloatUnit}
use mesh_visualization.Config.{kernel_size, max_activations}
use mesh_visualization.Text.{>>=-eq-some, expect, scan_uint8, scan_float}
use mesh_visualization.Manager as Mgr
use mesh_visualization.Manager.Invariant as Managed
use mesh_visualization.Node.{Node, World, set_node_state}
use mesh_visualization.Node.Invariant as Noded
use mesh_visualization.App.Tcp.{
  literal, Chunk, scan_command, scan_color, scan_floats, scan_rules, literal, set_state_command,
  set_color_command, preset_command, update_kernel_command, update_activation_command,
  run_tcp_command, receive_chunk, handle_tcp_client, with_manager,
}

length-scan_floats :
    (fpu : FloatUnit) (k : ℕ) (p : Bytes) {values : List ℕ}
    → scan_floats fpu k p ≡ some values
    → length values ≡ k
unfolding scan_floats
length-scan_floats fpu zero p e = ground arith
length-scan_floats fpu (suc zero) p e =
    let (r, _, last) = >>=-eq-some (scan_float fpu p) _ e in ground arith
length-scan_floats fpu (suc (suc k)) p e =
    let (r, _, rest) = >>=-eq-some (scan_float fpu p) _ e in
    let (q, _, more) = >>=-eq-some (expect b',' r.1) _ rest in
    let (values, found, last) = >>=-eq-some (scan_floats fpu (suc k) q) _ more in
    let size = length-scan_floats fpu (suc k) q found in ground arith

module _ (w : World) (n : Node) where
  abbrev Reached : Node × Bytes → Type 0
  Reached t = Noded.Reach n t.0

  managed : {m : Mgr.Manager} → Managed.Step w.fpu n.manager m → Noded.Reach n (with_manager m n)
  managed s = Noded.next Noded.here (Noded.manage w.fpu n _ s)

  set_state-Reached : (args : Bytes) → Reached (set_state_command w args n)
  unfolding set_state_command
  set_state-Reached args = elim (Option-cases (scan_uint8 args)) [
    | inl e ↦ rw (e, set_state_command) Noded.here
    | inr ((state, rest), e) ↦
        rw (e, set_state_command)
          (Noded.next (Noded.next Noded.here (Noded.set_state state n))
            (Noded.manage w.fpu (set_node_state state n) _ (Managed.fade _)))
  ]

  set_color-Reached : (args : Bytes) → Reached (set_color_command args n)
  unfolding set_color_command
  set_color-Reached args = elim (Option-cases (scan_color args)) [
    | inl e ↦ rw (e, set_color_command) Noded.here
    | inr ((r, g, b), e) ↦ rw (e, set_color_command) (managed (Managed.color r g b n.manager))
  ]

  preset-Reached : (refusal args : Bytes) → Reached (preset_command w refusal args n)
  unfolding preset_command
  preset-Reached refusal args = managed (Managed.preset w.nvs args n.manager)

  update_kernel-Reached : (args : Bytes) → Reached (update_kernel_command w args n)
  unfolding update_kernel_command
  update_kernel-Reached args = elim (Option-cases (scan_floats w.fpu kernel_size args)) [
    | inl e ↦
        rw (e, update_kernel_command)
          (preset-Reached (literal (codes "ERROR: Invalid kernel\n") 22) args)
    | inr (values, e) ↦
        rw (e, update_kernel_command)
          (managed (
            Managed.set_kernel w.nvs values n.manager
              (length-scan_floats w.fpu kernel_size args e)))
  ]

  update_activation-Reached : (args : Bytes) → Reached (update_activation_command w args n)
  unfolding update_activation_command
  update_activation-Reached args =
      let rules = scan_rules w.fpu max_activations args in
      managed (Managed.set_rules w.nvs rules (length rules) n.manager (omega arith))

  run_tcp_command-Reached : (cmd args : Bytes) → Reached (run_tcp_command w cmd args n)
  unfolding run_tcp_command
  run_tcp_command-Reached cmd args =
      if_elim Reached (bytes_eq cmd (codes "SET_STATE")) _ _ (set_state-Reached args) (
        if_elim Reached (bytes_eq cmd (codes "SET_COLOR")) _ _ (set_color-Reached args) (
          if_elim Reached (bytes_eq cmd (codes "UPDATE_KERNEL")) _ _ (update_kernel-Reached args) (
            if_elim Reached (bytes_eq cmd (codes "UPDATE_ACTIVATION")) _ _
              (update_activation-Reached args)
              (if_elim Reached (bytes_eq cmd (codes "PRESET")) _ _
                (preset-Reached (literal (codes "ERROR: Unknown preset\n") 22) args)
                (if_elim Reached (bytes_eq cmd (codes "RESET_VALUE")) _ _
                  (managed (Managed.reset w.random n.manager))
                  (if_elim Reached (bytes_eq cmd (codes "GET_STATUS")) _ _ Noded.here
                    (if_elim Reached (bytes_eq cmd (codes "PING")) _ _ Noded.here Noded.here)))))))

  receive_chunk-Reached : (chunk : Chunk) → Noded.Reach n (receive_chunk w chunk n).0
  unfolding receive_chunk
  receive_chunk-Reached chunk = elim (Option-cases (scan_command chunk)) [
    | inl e ↦ rw (e, receive_chunk) Noded.here
    | inr ((cmd, args), e) ↦ rw (e, receive_chunk) (run_tcp_command-Reached cmd args)
  ]

pub handle_tcp_client-Reach :
    (w : World) (chunks : List Chunk) (n : Node) → Noded.Reach n (handle_tcp_client w chunks n).0
unfolding handle_tcp_client
handle_tcp_client-Reach w [] n = Noded.here
handle_tcp_client-Reach w (chunk ∷ chunks) n =
    Noded.Reach-trans (receive_chunk-Reached w n chunk)
      (handle_tcp_client-Reach w chunks (receive_chunk w chunk n).0)
