-- ===== src/Manager/Adopt.antt =====
-- src/state_manager.cpp: the adoption of a newer configuration from another node of the mesh.
use mesh_visualization.Prelude.{ℕ, ◌%◌, Bool, ◌||◌, ltb, if◌then◌else◌, codes}
use mesh_visualization.Config.{max_activations}
use mesh_visualization.Floats.{FloatUnit}
use mesh_visualization.State.{NodeState}
use mesh_visualization.Manager.{Manager, Nvs, save_state_config, describe_activation_rules}

-- The other node's kernel is newer.
abbrev pub has_newer_kernel : NodeState → NodeState → Bool
has_newer_kernel theirs ours = ltb ours.kernel_sequence theirs.kernel_sequence

abbrev pub has_newer_activations : NodeState → NodeState → Bool
has_newer_activations theirs ours = ltb ours.activation_sequence theirs.activation_sequence

unfoldable pub adopt_kernel : NodeState → Manager → Manager
adopt_kernel theirs m =
    if has_newer_kernel theirs m.node_state
    then record m {
      node_state = record (m.node_state) {
        kernel = theirs.kernel;
        kernel_sequence = theirs.kernel_sequence;
      };
      kernel_function = codes "mesh";
    }
    else m

unfoldable pub adopt_activations : FloatUnit → NodeState → Manager → Manager
adopt_activations fpu theirs m =
    if has_newer_activations theirs m.node_state
    then describe_activation_rules fpu (record m {
      node_state = record (m.node_state) {
        activations = theirs.activations;
        activation_count =
            if ltb theirs.activation_count max_activations
            then theirs.activation_count
            else max_activations;
        activation_sequence = theirs.activation_sequence;
      };
    })
    else m

-- The value is drawn anew, from what `esp_random` returns.
unfoldable pub adopt_value : ℕ → NodeState → Manager → Manager
adopt_value random theirs m =
    if ltb m.node_state.value_sequence theirs.value_sequence
    then record m {
      node_state = record (m.node_state) {
        value_sequence = theirs.value_sequence;
        value = random % 2;
      };
    }
    else m

-- `adopt_neighbor_rules`; a changed configuration is saved before the value is looked at.
unfoldable pub adopt_neighbor_rules : FloatUnit → Nvs → ℕ → NodeState → Manager → Manager
unfolding adopt_kernel adopt_activations adopt_value
adopt_neighbor_rules fpu nvs random theirs m =
    let config_changed =
      has_newer_kernel theirs m.node_state || has_newer_activations theirs m.node_state in
    let adopted = adopt_activations fpu theirs (adopt_kernel theirs m) in
    adopt_value random theirs
      (if config_changed then (save_state_config nvs adopted).0 else adopted)
