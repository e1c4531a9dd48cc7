-- ===== src/Tests/Tcp.antt =====
-- The theorems on the TCP server, at the node `node_a`.
use mesh_visualization.Prelude.{
  ◌≡◌, ◌+◌, ◌-◌, ◌%◌, ◌++◌, ◌⊎◌, replicate, none, some, List, [], ◌∷◌, arith, if◌then◌else◌, length,
  Bytes, codes,
}
use mesh_visualization.Config.{u32_mod}
use mesh_visualization.State.{ActivationRule, zero_rule}
use mesh_visualization.App.Tcp.{
  Chunk, scan_rule, update_activation_command, receive_chunk, handle_tcp_client,
}
use mesh_visualization.App.Tcp.Answers.{
  commands, Reads, update_activation_command_lem, handle_tcp_client_answers,
}
use mesh_visualization.App.Tcp.Color.{set_color_text, receive_chunk-set_color}
use mesh_visualization.Tests.{soft, node_a, child}

-- The second rule has no operator.
abbrev rules_text : Bytes
rules_text = codes "4,2,7,1"

update_activation_command_lem_example :
    let (t, answer) = update_activation_command child rules_text node_a in
    let s = t.manager.node_state in
    (answer ≡ codes "OK: Activation updated\n")
    × ((rules : List ActivationRule) × (rest : Bytes) × Reads soft rules_text rules rest
        × ((length rules ≡ 8) ⊎ (scan_rule soft rest ≡ none))
        × (s.activation_count ≡ length rules)
        × (s.activations ≡ rules ++ replicate (8 - length rules) zero_rule)
        × (s.activation_sequence ≡ (node_a.manager.node_state.activation_sequence + 1) % u32_mod))
update_activation_command_lem_example = update_activation_command_lem child rules_text node_a

-- A command, an empty line, and a command without arguments.
abbrev chunks : List Chunk
chunks =
    record { received = codes "SET_STATE 1\n"; stale = [] }
    ∷ record { received = codes "\r\n"; stale = [] }
    ∷ record { received = codes "SET_COLOR"; stale = codes "1,2" }
    ∷ []

handle_tcp_client_answers_example :
    length (handle_tcp_client child chunks node_a).1 ≡ commands chunks
handle_tcp_client_answers_example = handle_tcp_client_answers child chunks node_a

receive_chunk-set_color_example :
    let t =
      receive_chunk child (record { received = set_color_text 255 0 40; stale = [] }) node_a in
    (t.1 ≡ codes "OK: Color updated\n" ∷ [])
    × (t.0.manager.node_state.color ≡ 255 ∷ 0 ∷ 40 ∷ [])
    × (t.0.manager.pixel
        ≡ (if node_a.manager.led_strip then some (255 ∷ 0 ∷ 40 ∷ []) else node_a.manager.pixel))
receive_chunk-set_color_example =
    receive_chunk-set_color child 255 0 40 [] node_a (omega arith) (omega arith) (omega arith)
