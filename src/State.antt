-- ===== src/State.antt =====
-- include/config.h and include/mesh_node.h: the structures that the parts of the firmware share.
-- Bytes and words are natural numbers, an `int8_t` or `int16_t` is an integer, and a `float` is
-- its 32-bit pattern, so that a structure can be laid out in memory.
use mesh_visualization.Prelude.{ℕ, Bool, List, replicate, Bytes}
use mesh_visualization.Prelude.Int.{ℤ, pos}
use mesh_visualization.Config.{kernel_size, max_activations}

-- Six bytes.
abbrev pub Mac : Type 0
Mac = Bytes

abbrev pub zero_mac : Mac
zero_mac = replicate 6 0

-- `activation_rule_t`.
pub record ActivationRule : Type 0 where
  pub op : ℕ
  pub value : ℕ

-- `node_state_t`; the arrays `color`, `kernel` and `activations` are lists of their sizes.
pub record NodeState : Type 0 where
  pub state : ℕ
  pub color : Bytes
  pub temperature : ℤ
  pub mmwave_presence : ℕ
  pub mmwave_distance : ℕ
  pub timestamp : ℕ
  pub value : ℕ
  pub kernel_sequence : ℕ
  pub value_sequence : ℕ
  pub activation_sequence : ℕ
  pub kernel : List ℕ
  pub activations : List ActivationRule
  pub activation_count : ℕ
  pub activation_sum : ℕ

abbrev pub zero_rule : ActivationRule
zero_rule = record { op = 0; value = 0 }

-- `memset(&state, 0, sizeof(node_state_t))`.
abbrev pub zero_state : NodeState
zero_state = record {
  state = 0;
  color = replicate 3 0;
  temperature = pos 0;
  mmwave_presence = 0;
  mmwave_distance = 0;
  timestamp = 0;
  value = 0;
  kernel_sequence = 0;
  value_sequence = 0;
  activation_sequence = 0;
  kernel = replicate kernel_size 0;
  activations = replicate max_activations zero_rule;
  activation_count = 0;
  activation_sum = 0;
}

-- `neighbor_info_t`.
pub record Neighbor : Type 0 where
  pub mac : Mac
  pub rssi : ℤ
  pub last_seen : ℕ
  pub ip : Bytes
  pub active : Bool
  pub has_state : Bool
  pub state : NodeState
