-- ===== src/Manager.antt =====
-- src/state_manager.cpp: the variables of the module, the configuration of the kernel and its
-- activation rules, and the copy of it in flash. The node's own `node_state` is part of them.
pub mod Led
pub mod Activation
pub mod Adopt
pub mod Merge
pub mod Persistence
pub mod Rules
pub mod Sum
pub mod Hold
pub mod Brightness
pub mod Invariant
pub mod Stored
pub mod Initial
use mesh_visualization.Prelude.{
  ℕ, ◌-◌, Bool, true, false, not, ◌&&◌, ◌||◌, Option, none, some, List, [], ◌∷◌, ◌++◌, map, ltb,
  leb, ◌==◌, if◌then◌else◌, length, take, replicate, Bytes, codes, bytes_eq,
}
use mesh_visualization.Config.{max_activations, add32}
use mesh_visualization.Floats.{FloatUnit}
use mesh_visualization.State.{NodeState, ActivationRule, zero_rule}
use mesh_visualization.Printf.{append_all, separated, strlcpy}

abbrev state_config_magic : ℕ
state_config_magic = 0x4d45_5348

abbrev state_config_version : ℕ
state_config_version = 1

-- `persisted_state_config_t`, of 180 bytes in memory.
pub record PersistedConfig : Type 0 where
  pub magic : ℕ
  pub version : ℕ
  pub activation_count : ℕ
  pub kernel_sequence : ℕ
  pub activation_sequence : ℕ
  pub kernel : List ℕ
  pub activations : List ActivationRule
  pub kernel_function : Bytes

abbrev pub config_size : ℕ
config_size = 180

-- What the key of the flash store holds: a blob of some size, read as a configuration.
pub record Blob : Type 0 where
  pub size : ℕ
  pub config : PersistedConfig

-- The globals of the module. `stored` is the content of the flash store, `pixel` what the LED was
-- last told to show.
pub record Manager : Type 0 where
  pub node_state : NodeState
  pub sensors_initialized : Bool
  pub current_brightness : ℕ
  pub led_highlight_enabled : Bool
  pub last_temp_read_ms : ℕ
  pub simulated_temp : ℕ
  pub last_temp_update : ℕ
  pub manual_value_hold_until_ms : ℕ
  pub led_strip : Bool
  pub pixel : Option Bytes
  pub kernel_function : Bytes
  pub activation_function : Bytes
  pub stored : Option Blob

-- Which calls of the flash store return ESP_OK, and whether a blob that was set stays in the store
-- although it could not be committed.
pub record Nvs : Type 0 where
  pub open_ok : Bool
  pub set_ok : Bool
  pub commit_ok : Bool
  pub get_ok : Bool
  pub kept : Bool

abbrev op_text : ℕ → Bytes
op_text op =
    if op == 0
    then codes "<"
    else (if op == 1
        then codes "<="
        else (if op == 2
            then codes "=="
            else (if op == 3 then codes ">=" else (if op == 4 then codes ">" else codes "?"))))

-- The current configuration as `save_state_config` writes it.
abbrev pub config_of : Manager → PersistedConfig
config_of m = record {
  magic = state_config_magic;
  version = state_config_version;
  activation_count = m.node_state.activation_count;
  kernel_sequence = m.node_state.kernel_sequence;
  activation_sequence = m.node_state.activation_sequence;
  kernel = m.node_state.kernel;
  activations = m.node_state.activations;
  kernel_function = strlcpy 64 m.kernel_function;
}

-- `save_state_config`; its result is whether every call succeeded.
unfoldable pub save_state_config : Nvs → Manager → Manager × Bool
save_state_config nvs m =
    let written = record m {
      stored = some (record { size = config_size; config = config_of m });
    } in
    if not nvs.open_ok || not nvs.set_ok
    then (m, false)
    else (if nvs.commit_ok
        then (written, true)
        else (if nvs.kept then (written, false) else (m, false)))

-- The tests that `load_state_config` makes of a blob.
abbrev pub is_usable : Blob → Bool
is_usable b =
    b.size == config_size
    && b.config.magic == state_config_magic
    && b.config.version == state_config_version
    && leb b.config.activation_count max_activations

-- `strcmp(preset_name, ...)` down to the presets' kernels and rules, floats by their patterns.
abbrev pub eight : ℕ → ℕ → List ℕ
eight a b = a ∷ a ∷ a ∷ a ∷ a ∷ a ∷ a ∷ a ∷ b ∷ []

abbrev pub rule : ℕ → ℕ → ActivationRule
rule op value = record { op = op; value = value }

-- The data of a preset: its kernel and its rules.
abbrev pub Preset : Type 0
Preset = List ℕ × List ActivationRule

-- `load_preset_data`.
unfoldable pub load_preset_data : Bytes → Option Preset
load_preset_data name =
    if bytes_eq name (codes "conway")
    then some (
      eight 0x3f80_0000 0x4110_0000,
      rule 2 0x4040_0000 ∷ rule 2 0x4130_0000 ∷ rule 2 0x4140_0000 ∷ [],
    )
    else (if bytes_eq name (codes "rule30")
        then some (
          0x3f80_0000 ∷ 0x3f80_0000 ∷ 0x3f80_0000 ∷ replicate 6 0,
          rule 2 0x3f80_0000 ∷ rule 2 0x4000_0000 ∷ [],
        )
        else (if bytes_eq name (codes "majority")
            then some (eight 0x3f80_0000 0, rule 3 0x4090_0000 ∷ [])
            else (if bytes_eq name (codes "and")
                then some (eight 0x3f80_0000 0, rule 2 0x4100_0000 ∷ [])
                else (if bytes_eq name (codes "or")
                    then some (eight 0x3f80_0000 0, rule 3 0x3f00_0000 ∷ [])
                    else none))))

-- `memset` of the array, then `memcpy` of the first rules.
abbrev pub fill_rules : List ActivationRule → List ActivationRule
fill_rules rules = rules ++ replicate (max_activations - length rules) zero_rule

unfoldable pub set_kernel_values : Nvs → List ℕ → Manager → Manager
set_kernel_values nvs values m =
    (save_state_config nvs (record m {
      node_state = record (m.node_state) {
        kernel = values;
        kernel_sequence = add32 m.node_state.kernel_sequence 1;
      };
      kernel_function = codes "custom";
    })).0

module _ (fpu : FloatUnit) where
  abbrev pub rule_text : ActivationRule → Bytes
  rule_text r = op_text r.op ++ fpu.print 2 r.value

  -- `describe_activation_rules`, through its buffer of 128 bytes.
  unfoldable pub describe_activation_rules : Manager → Manager
  describe_activation_rules m =
      let rules = take m.node_state.activation_count m.node_state.activations in
      record m {
        activation_function =
            if m.node_state.activation_count == 0
            then codes "threshold"
            else strlcpy 128
                (append_all 128 ([], 0) (separated (codes "|") (map rule_text rules))).0;
      }

  -- The part of `load_state_config` behind its tests.
  pub apply_config : PersistedConfig → Manager → Manager
  unfolding describe_activation_rules
  apply_config c m = describe_activation_rules (record m {
    node_state = record (m.node_state) {
      kernel = c.kernel;
      activations = c.activations;
      activation_count = c.activation_count;
      kernel_sequence = c.kernel_sequence;
      activation_sequence = c.activation_sequence;
    };
    kernel_function =
        if bytes_eq c.kernel_function [] then codes "custom" else strlcpy 64 c.kernel_function;
  })

  abbrev pub load_blob : Option Blob → Manager → Manager × Bool
  load_blob none m = (m, false)
  load_blob (some b) m = if is_usable b then (apply_config b.config m, true) else (m, false)

  -- `load_state_config`.
  unfoldable pub load_state_config : Nvs → Manager → Manager × Bool
  load_state_config nvs m = if nvs.open_ok && nvs.get_ok then load_blob m.stored m else (m, false)

  -- `set_activation_rules` of `count` rules; `rules` is the array that the caller passes.
  unfoldable pub set_activation_rules : Nvs → List ActivationRule → ℕ → Manager → Manager × Bool
  set_activation_rules nvs rules count m = if ltb max_activations count then (m, false) else (
    (save_state_config nvs (
        describe_activation_rules (record m {
          node_state = record (m.node_state) {
            activations = fill_rules (take count rules);
            activation_count = count;
            activation_sequence = add32 m.node_state.activation_sequence 1;
          };
        }))).0,
    true,
  )

  pub apply_preset : Nvs → Bytes → Preset → Manager → Manager
  apply_preset nvs name (kernel, rules) m =
      (save_state_config nvs (
        describe_activation_rules (record m {
          node_state = record (m.node_state) {
            kernel = kernel;
            activations = fill_rules rules;
            activation_count = length rules;
            kernel_sequence = add32 m.node_state.kernel_sequence 1;
            activation_sequence = add32 m.node_state.activation_sequence 1;
          };
          kernel_function = strlcpy 64 name;
        }))).0

  unfoldable pub load_preset : Nvs → Bytes → Manager → Manager × Bool
  load_preset nvs name m = elim (load_preset_data name) [
    | none ↦ (m, false)
    | some preset ↦ (apply_preset nvs name preset m, true)
  ]

  -- `set_kernel_function`; the null pointer does nothing too.
  unfoldable set_kernel_function : Nvs → Bytes → Manager → Manager
  set_kernel_function nvs kernel m =
      let (loaded, ok) = load_preset nvs kernel m in
      if bytes_eq kernel []
      then m
      else (if ok then loaded else record m { kernel_function = strlcpy 64 kernel })

unfoldable set_activation_function : Bytes → Manager → Manager
set_activation_function activation m =
    if bytes_eq activation [] then m else record m { activation_function = strlcpy 128 activation }
