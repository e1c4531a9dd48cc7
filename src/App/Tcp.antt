-- ===== src/App/Tcp.antt =====
-- src/main.cpp: the commands of a client of the TCP server.
pub mod Valid
pub mod Answers
pub mod Color
use mesh_visualization.Prelude.{
  ℕ, zero, suc, Option, none, some, List, [], ◌∷◌, ◌++◌, leb, ◌==◌, if◌then◌else◌, length, take,
  Bytes, codes, bytes_eq,
}
use mesh_visualization.Prelude.Int.{ℤ, pos, negsuc}
use mesh_visualization.Config.{kernel_size, max_activations}
use mesh_visualization.Floats.{FloatUnit}
use mesh_visualization.State.{ActivationRule}
use mesh_visualization.Neighbors.{get_neighbor_count}
use mesh_visualization.Manager.{Manager, set_kernel_values, set_activation_rules, load_preset}
use mesh_visualization.Manager.Led.{set_led_color, update_led_color, reset_state_value}
use mesh_visualization.Printf.{decimal, signed, join}
use mesh_visualization.Node.{Node, World, set_node_state}
use mesh_visualization.Text.{
  ◌>>=◌, c_string, skip_ws, expect, strtol, scan_uint8, scan_float, take_word, take_until,
}

-- What one `recv` brings, and what the uninitialised array of arguments holds then, as a text.
pub record Chunk : Type 0 where
  pub received : Bytes
  pub stale : Bytes

abbrev pub or_stale : Bytes → Bytes → Bytes
or_stale stale [] = stale
or_stale stale (c ∷ cs) = c ∷ cs

-- `sscanf(buffer, "%63s %255[^\n]", cmd, args) >= 1`: the command and its arguments.
unfoldable pub scan_command : Chunk → Option (Bytes × Bytes)
unfolding c_string skip_ws
scan_command chunk =
    let (cmd, rest) = take_word 63 (skip_ws (c_string chunk.received)) in
    let args = or_stale chunk.stale (take_until b'\n' 255 (skip_ws rest)) in
    elim cmd [ [] ↦ none | c ∷ cs ↦ some (c ∷ cs, args) ]

-- `send` of `size` bytes of a literal, its final zero included.
abbrev pub literal : Bytes → ℕ → Bytes
literal text size = take size (text ++ 0 ∷ [])

-- "%hhu,%hhu,%hhu".
unfoldable pub scan_color : Bytes → Option (ℕ × ℕ × ℕ)
unfolding scan_uint8 expect
scan_color args = do
  (r, p) ← scan_uint8 args
  q ← expect b',' p
  (g, s) ← scan_uint8 q
  t ← expect b',' s
  (b, rest) ← scan_uint8 t
  some (r, g, b)

module _ (fpu : FloatUnit) where
  -- "%f,%f,...", all of `count` floats.
  unfoldable pub scan_floats : ℕ → Bytes → Option (List ℕ)
  unfolding scan_float expect
  scan_floats zero p = some []
  scan_floats (suc zero) p = do (value, rest) ← scan_float fpu p; some (value ∷ [])
  scan_floats (suc (suc k)) p = do
    (value, rest) ← scan_float fpu p
    q ← expect b',' rest
    values ← scan_floats (suc k) q
    some (value ∷ values)

  -- The rule with an operator that there is.
  abbrev rule_of : ℤ → ℕ → Bytes → Option (ActivationRule × Bytes)
  rule_of (negsuc op) value rest = none
  rule_of (pos op) value rest =
      if leb op 4 then some (record { op = op; value = value }, rest) else none

  -- "%d,%f%n", with an operator that there is.
  unfoldable pub scan_rule : Bytes → Option (ActivationRule × Bytes)
  unfolding strtol expect scan_float
  scan_rule p = do
    (op, rest) ← strtol p
    q ← expect b',' rest
    (value, end) ← scan_float fpu q
    rule_of op value end

  abbrev pub skip_one_comma : Bytes → Bytes
  skip_one_comma [] = []
  skip_one_comma (c ∷ cs) = if c == b',' then cs else c ∷ cs

  -- The loop over the rules, `room` of which still fit.
  unfoldable pub scan_rules : ℕ → Bytes → List ActivationRule
  unfolding scan_rule
  scan_rules zero p = []
  scan_rules (suc room) [] = []
  scan_rules (suc room) (c ∷ cs) = elim (scan_rule (c ∷ cs)) [
    | none ↦ []
    | some (rule, rest) ↦ rule ∷ scan_rules room (skip_one_comma rest)
  ]

  -- The answer to GET_STATUS, through its buffer of 256 bytes.
  unfoldable status_text : Node → Bytes
  status_text n =
      let s = n.manager.node_state in
      take 255 (
        join (
          codes "STATUS: state="
          ∷ decimal s.state
          ∷ codes ", value="
          ∷ decimal s.value
          ∷ codes ", sum="
          ∷ fpu.print 2 s.activation_sum
          ∷ codes ", temp="
          ∷ signed s.temperature
          ∷ codes ", neighbors="
          ∷ decimal (get_neighbor_count n.neighbor_list)
          ∷ codes ", kernel="
          ∷ n.manager.kernel_function
          ∷ codes ", activations="
          ∷ n.manager.activation_function
          ∷ codes "\n"
          ∷ []))

abbrev pub with_manager : Manager → Node → Node
with_manager m n = record n { manager = m }

-- A node and the answer that is sent.
abbrev pub Answer : Type 0
Answer = Node × Bytes

unfoldable pub set_state_command : World → Bytes → Node → Answer
unfolding scan_uint8
set_state_command w args n = elim (scan_uint8 args) [
  | none ↦ (n, literal (codes "ERROR: Invalid state\n") 22)
  | some (state, rest) ↦
      let set = set_node_state state n in
      (
        with_manager (update_led_color w.fpu set.manager) set,
        literal (codes "OK: State updated\n") 18,
      )
]

unfoldable pub set_color_command : Bytes → Node → Answer
unfolding scan_color
set_color_command args n = elim (scan_color args) [
  | none ↦ (n, literal (codes "ERROR: Invalid color\n") 21)
  | some (r, g, b) ↦
      (with_manager (set_led_color r g b n.manager) n, literal (codes "OK: Color updated\n") 18)
]

-- The answer of a command that loads a preset.
unfoldable pub preset_command : World → Bytes → Bytes → Node → Answer
preset_command w refusal args n =
    let (m, ok) = load_preset w.fpu w.nvs args n.manager in
    (with_manager m n, if ok then literal (codes "OK: Preset loaded\n") 18 else refusal)

unfoldable pub update_kernel_command : World → Bytes → Node → Answer
unfolding scan_floats preset_command
update_kernel_command w args n = elim (scan_floats w.fpu kernel_size args) [
  | none ↦ preset_command w (literal (codes "ERROR: Invalid kernel\n") 22) args n
  | some values ↦ (
    with_manager (set_kernel_values w.nvs values n.manager) n,
    literal (codes "OK: Kernel updated\n") 19,
  )
]

unfoldable pub update_activation_command : World → Bytes → Node → Answer
unfolding scan_rules
update_activation_command w args n =
    let rules = scan_rules w.fpu max_activations args in
    let (m, ok) = set_activation_rules w.fpu w.nvs rules (length rules) n.manager in
    (
      with_manager m n,
      if ok
          then literal (codes "OK: Activation updated\n") 23
          else literal (codes "ERROR: Invalid activation\n") 26,
    )

unfoldable unknown_command : Bytes → Bytes
unknown_command cmd = take 95 (codes "ERROR: Unknown cmd '" ++ (cmd ++ codes "'\n"))

-- The commands of the protocol.
unfoldable pub run_tcp_command : World → Bytes → Bytes → Node → Answer
unfolding set_state_command set_color_command update_kernel_command update_activation_command
    preset_command status_text unknown_command
run_tcp_command w cmd args n =
    if bytes_eq cmd (codes "SET_STATE")
    then set_state_command w args n
    else if bytes_eq cmd (codes "SET_COLOR")
    then set_color_command args n
    else if bytes_eq cmd (codes "UPDATE_KERNEL")
    then update_kernel_command w args n
    else if bytes_eq cmd (codes "UPDATE_ACTIVATION")
    then update_activation_command w args n
    else if bytes_eq cmd (codes "PRESET")
    then preset_command w (literal (codes "ERROR: Unknown preset\n") 22) args n
    else if bytes_eq cmd (codes "RESET_VALUE")
    then (
      with_manager (reset_state_value w.random n.manager) n,
      literal (codes "OK: Value reset\n") 16,
    )
    else if bytes_eq cmd (codes "GET_STATUS")
    then (n, status_text w.fpu n)
    else if bytes_eq cmd (codes "PING")
    then (n, literal (codes "PONG\n") 5)
    else (n, unknown_command cmd)

-- One turn of the loop over what a client sends: the node and the answer, if there is one.
unfoldable pub receive_chunk : World → Chunk → Node → Node × List Bytes
receive_chunk w chunk n = elim (scan_command chunk) [
  | none ↦ (n, [])
  | some (cmd, args) ↦ let (t, answer) = run_tcp_command w cmd args n in (t, answer ∷ [])
]

-- `handle_tcp_client`, for what the client sends until it disconnects.
unfoldable pub handle_tcp_client : World → List Chunk → Node → Node × List Bytes
unfolding receive_chunk
handle_tcp_client w [] n = (n, [])
handle_tcp_client w (chunk ∷ chunks) n =
    let (t, answers) = receive_chunk w chunk n in
    let (u, more) = handle_tcp_client w chunks t in (u, answers ++ more)
