-- ===== src/Manager/Merge.antt =====
-- src/state_manager.cpp: how `adopt_neighbor_rules` spreads a configuration through the mesh.
use mesh_visualization.Prelude.{ℕ, ◌≤◌, ◌≡◌, arith, ltb, if◌then◌else◌}
use mesh_visualization.Config.{max_activations}
use mesh_visualization.Floats.{FloatUnit}
use mesh_visualization.State.{NodeState}
use mesh_visualization.Manager.{Manager, Nvs, save_state_config, describe_activation_rules}
use mesh_visualization.Manager.Adopt.{has_newer_kernel, has_newer_activations, adopt_neighbor_rules}

abbrev larger : ℕ → ℕ → ℕ
larger a b = if ltb a b then b else a

-- What the adoption makes of the configuration of `ours`.
abbrev Adopted : NodeState → NodeState → NodeState → Type 0
Adopted theirs ours s =
    (s.kernel ≡ (if has_newer_kernel theirs ours then theirs.kernel else ours.kernel))
    × (s.kernel_sequence ≡ larger ours.kernel_sequence theirs.kernel_sequence)
    × (s.activations
        ≡ (if has_newer_activations theirs ours then theirs.activations else ours.activations))
    × (s.activation_count ≡ (
        if has_newer_activations theirs ours
        then (if ltb theirs.activation_count max_activations
            then theirs.activation_count
            else max_activations)
        else ours.activation_count))
    × (s.activation_sequence ≡ larger ours.activation_sequence theirs.activation_sequence)
    × (s.value_sequence ≡ larger ours.value_sequence theirs.value_sequence)

module _ (fpu : FloatUnit) (nvs : Nvs) (random : ℕ) (theirs : NodeState) where
  -- The kernel and the rules of the other node are adopted if their sequence number is larger, and
  -- each of the three sequence numbers becomes the larger one.
  adopt_neighbor_rules-Adopted :
      (m : Manager)
      → Adopted theirs m.node_state (adopt_neighbor_rules fpu nvs random theirs m).node_state
  unfolding adopt_neighbor_rules describe_activation_rules save_state_config
  adopt_neighbor_rules-Adopted m =
      (ground arith, ground arith, ground arith, ground arith, ground arith, ground arith)

  adopt_stale :
      (m : Manager)
      → theirs.kernel_sequence ≤ m.node_state.kernel_sequence
      → theirs.activation_sequence ≤ m.node_state.activation_sequence
      → theirs.value_sequence ≤ m.node_state.value_sequence
      → adopt_neighbor_rules fpu nvs random theirs m ≡ m
  unfolding adopt_neighbor_rules
  adopt_stale m k a v = ground arith

  larger_bound :
      (m : Manager)
      → let s = (adopt_neighbor_rules fpu nvs random theirs m).node_state in
        (theirs.kernel_sequence ≤ s.kernel_sequence)
        × (theirs.activation_sequence ≤ s.activation_sequence)
        × (theirs.value_sequence ≤ s.value_sequence)
  larger_bound m =
      let h = adopt_neighbor_rules-Adopted m in
      (ground (arith, h.1), ground (arith, h.4), ground (arith, h.5))

module _ (fpu : FloatUnit) (nvs : Nvs) (random : ℕ) (theirs : NodeState) where
  -- Hearing the same state twice changes nothing the second time, whatever number is drawn and
  -- whatever the flash store answers.
  pub adopt_neighbor_rules_twice :
      (again : Nvs) (other : ℕ) (m : Manager)
      → let once = adopt_neighbor_rules fpu nvs random theirs m in
        adopt_neighbor_rules fpu again other theirs once ≡ once
  adopt_neighbor_rules_twice again other m =
      let b = larger_bound fpu nvs random theirs m in
      adopt_stale fpu again other theirs (adopt_neighbor_rules fpu nvs random theirs m) b.0 b.1 b.2

-- One node hears the other, and then the other hears the first: a sequence number is theirs alone
-- or both mean the same by it.
pub record Agree (a b : NodeState) : Type 0 where
  pub kernels : a.kernel ≡ b.kernel
  pub kernel_sequences : a.kernel_sequence ≡ b.kernel_sequence
  pub rules : a.activations ≡ b.activations
  pub counts : a.activation_count ≡ b.activation_count
  pub activation_sequences : a.activation_sequence ≡ b.activation_sequence
  pub value_sequences : a.value_sequence ≡ b.value_sequence

-- No sequence number stands for two configurations.
pub record Unambiguous (a b : NodeState) : Type 0 where
  pub kernel : a.kernel_sequence ≡ b.kernel_sequence → a.kernel ≡ b.kernel
  pub rules :
      a.activation_sequence ≡ b.activation_sequence
      → (a.activations ≡ b.activations) × (a.activation_count ≡ b.activation_count)

-- After one exchange the two nodes agree on kernel, rules and sequence numbers, if no number stood
-- for two configurations before and neither counts more rules than fit.
pub exchange-Agree :
    (fpu : FloatUnit) (na nb : Nvs) (ra rb : ℕ) (a b : Manager)
    → Unambiguous a.node_state b.node_state
    → a.node_state.activation_count ≤ max_activations
    → b.node_state.activation_count ≤ max_activations
    → let a' = adopt_neighbor_rules fpu na ra b.node_state a in
      let b' = adopt_neighbor_rules fpu nb rb a'.node_state b in Agree a'.node_state b'.node_state
exchange-Agree fpu na nb ra rb a b u ca cb = record {
  kernels = ground (arith, h.0, k.0, h.1, k.1, u.kernel);
  kernel_sequences = ground (arith, h.1, k.1);
  rules = ground (arith, h.2, k.2, h.4, k.4, u.rules);
  counts = ground (arith, h.3, k.3, h.4, k.4, u.rules);
  activation_sequences = ground (arith, h.4, k.4);
  value_sequences = ground (arith, h.5, k.5);
}
  where
    a' : Manager
    a' = adopt_neighbor_rules fpu na ra b.node_state a

    h : Adopted b.node_state a.node_state a'.node_state
    h = adopt_neighbor_rules-Adopted fpu na ra b.node_state a

    k :
        Adopted a'.node_state b.node_state
          (adopt_neighbor_rules fpu nb rb a'.node_state b).node_state
    k = adopt_neighbor_rules-Adopted fpu nb rb a'.node_state b
