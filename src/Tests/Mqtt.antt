-- ===== src/Tests/Mqtt.antt =====
-- The theorems on the published texts and on MQTT commands, at the state of `node_a` and full
-- tables.
use mesh_visualization.Prelude.{
  ◌≤◌, ◌<◌, ◌≡◌, refl, ◌≢◌, ◌⊎◌, true, false, none, some, List, [], ◌∷◌, ◌++◌, map, arith,
  if◌then◌else◌, length, take, replicate, All, Bytes, codes, bytes_eq,
}
use mesh_visualization.Prelude.Int.{pos_part, neg_part}
use mesh_visualization.Config.{millis}
use mesh_visualization.State.{Neighbor, ActivationRule}
use mesh_visualization.Neighbors.{get_neighbor_count}
use mesh_visualization.Manager.Led.{toggle_state_value}
use mesh_visualization.Node.{
  p2p, count_message, send_mesh_toggle_command, send_mesh_highlight_command,
  send_state_to_neighbors,
}
use mesh_visualization.Node.Receive.{mesh_receive}
use mesh_visualization.Text.{◌>>=◌, c_string, strstr, strchr}
use mesh_visualization.Text.Search.{is_clear}
use mesh_visualization.Mqtt.{
  format_kernel_json, format_activations_json, format_neighbors_json, neighbor_json,
  activation_json,
}
use mesh_visualization.Mqtt.Lists.{
  array, actives, format_kernel_json_lem, format_neighbors_json_lem,
}
use mesh_visualization.Mqtt.Lengths.{InRange, IsLong}
use mesh_visualization.Mqtt.Topology.{sample_neighbors, format_routes, route_json}
use mesh_visualization.Mqtt.Fits.{
  format_neighbors_json-whole, topology_lists-whole, sample_neighbors-cut,
}
use mesh_visualization.Mqtt.Fields.{parse_activations_field, parse_float_array_field}
use mesh_visualization.Mqtt.Fields.Rules.{AreRules, parse_activations_field_lem}
use mesh_visualization.Mqtt.Fields.Element.{ReadsBack}
use mesh_visualization.Mqtt.Fields.Written.{parse_activations_field-array}
use mesh_visualization.Mqtt.Fields.Kernel.{parse_float_array_field-array}
use mesh_visualization.Manager.{set_kernel_values, set_activation_rules}
use mesh_visualization.Mqtt.Command.Absent.{config_command}
use mesh_visualization.Mqtt.Command.Configured.{handle_mqtt_command_configured}
use mesh_visualization.Mqtt.Command.{announce, write_value, sent, handle_mqtt_command}
use mesh_visualization.Mqtt.Command.Targeted.{
  toggle_command, highlight_command, handle_mqtt_command_targeted,
}
use mesh_visualization.Mqtt.Command.EndToEnd.{toggle_command_lem}
use mesh_visualization.Mqtt.Command.Ignored.{handle_mqtt_command_ignored}
use mesh_visualization.Tests.{
  soft, mac_b, mac_c, neighbor_b, off, table_a, heard, full_table, manager_a, node_a, node_c, child,
  host,
}

format_neighbors_json_lem_example :
    ((format_neighbors_json 768 table_a).0 ≡ take 767 (array (map neighbor_json (actives table_a))))
    × ((768 ≤ length (array (map neighbor_json (actives table_a))))
        ⊎ ((format_neighbors_json 768 table_a).1 ≡ length (actives table_a)))
format_neighbors_json_lem_example = format_neighbors_json_lem 768 table_a (omega arith)

format_kernel_json_lem_example :
    let s = manager_a.node_state in
    (format_kernel_json soft 192 s ≡ take 191 (array (map (soft.print 4) s.kernel)))
    × (format_activations_json soft 192 s
        ≡ take 191 (array (map (activation_json soft) (take s.activation_count s.activations))))
format_kernel_json_lem_example = format_kernel_json_lem soft 192 manager_a.node_state (omega arith)

in_range :
    (n : Neighbor)
    → length n.mac ≡ 6
    → (pos_part n.rssi < 128) × (neg_part n.rssi ≤ 128)
    → n.state.value < 256
    → InRange n
in_range n m r v = record { mac = m; rssi = r; value = v }

heard-InRange : InRange heard
heard-InRange = in_range heard refl (omega arith, omega arith) (omega arith)

heard-IsLong : IsLong heard
heard-IsLong = record { mac = refl; rssi = omega arith; last_seen = omega arith }

eight : (P : Neighbor → Type 0) → P heard → All P full_table
eight P p = (p, (p, (p, (p, (p, (p, (p, (p, tt))))))))

off-InRange : InRange off
off-InRange = in_range off refl (omega arith, omega arith) (omega arith)

table_a-InRange : All InRange table_a
table_a-InRange =
    let b = in_range neighbor_b refl (omega arith, omega arith) (omega arith) in
    let o = off-InRange in (b, (o, (o, (o, (o, (o, (o, (o, tt))))))))

format_neighbors_json-whole_example :
    format_neighbors_json 768 full_table
    ≡ (array (map neighbor_json (actives full_table)), get_neighbor_count full_table)
format_neighbors_json-whole_example =
    format_neighbors_json-whole full_table (omega arith) (eight InRange heard-InRange)

few : get_neighbor_count table_a ≤ 6
unfolding get_neighbor_count
few = omega arith

topology_lists-whole_example :
    (sample_neighbors table_a
      ≡ (array (map neighbor_json (actives table_a)), get_neighbor_count table_a))
    × (format_routes (mac_b ∷ mac_c ∷ []) ≡ array (map route_json (mac_b ∷ mac_c ∷ [])))
topology_lists-whole_example =
    topology_lists-whole table_a (mac_b ∷ mac_c ∷ []) (omega arith) table_a-InRange few
      (omega arith) (refl, (refl, tt))

all_eight : get_neighbor_count full_table ≡ 8
unfolding get_neighbor_count
all_eight = refl

sample_neighbors-cut_example :
    (sample_neighbors full_table).0 ≢ array (map neighbor_json (actives full_table))
sample_neighbors-cut_example =
    sample_neighbors-cut full_table refl all_eight
      (eight (λ n. InRange n × IsLong n) (heard-InRange, heard-IsLong))

abbrev rule_a : ActivationRule
rule_a = record { op = 4; value = 2 }

abbrev rule_b : ActivationRule
rule_b = record { op = 0; value = 7 }

two-ReadsBack : ReadsBack soft 2
two-ReadsBack = record { present = omega arith; plain = ground arith; reads = λ c rest h. refl }

seven-ReadsBack : ReadsBack soft 7
seven-ReadsBack = record { present = omega arith; plain = ground arith; reads = λ c rest h. refl }

abbrev front : Bytes
front = codes "{\"value_sequence\":3,"

clear_rules : is_clear (codes "\"activations\"") front ≡ true
unfolding is_clear
clear_rules = refl

clear_kernel : is_clear (codes "\"kernel\"") front ≡ true
unfolding is_clear
clear_kernel = refl

abbrev rules_text : Bytes
rules_text =
    front
    ++ (codes "\"activations\":"
        ++ (array (map (activation_json soft) (rule_a ∷ rule_b ∷ [])) ++ codes "}"))

parse_activations_field-array_example :
    parse_activations_field soft rules_text ≡ some (rule_a ∷ rule_b ∷ [])
parse_activations_field-array_example =
    parse_activations_field-array soft front (rule_a ∷ rule_b ∷ []) (codes "}") clear_rules
      (omega arith) ((omega arith, two-ReadsBack), ((omega arith, seven-ReadsBack), tt))

parse_float_array_field-array_example :
    parse_float_array_field soft
      (front ++ (codes "\"kernel\":" ++ (array (map (soft.print 4) (2 ∷ 7 ∷ 2 ∷ [])) ++ codes "}")))
      (codes "kernel")
      3
    ≡ some (2 ∷ 7 ∷ 2 ∷ [])
parse_float_array_field-array_example =
    parse_float_array_field-array soft front 2 (7 ∷ 2 ∷ []) (codes "}") clear_kernel
      (two-ReadsBack, (seven-ReadsBack, (two-ReadsBack, tt)))

-- A text with an operator that there is not, and without an end.
abbrev broken : Bytes
broken = codes "{\"activations\":[{\"op\":\"?\",\"value\":2},{\"op"

parse_activations_field_lem_example :
    let bracket = strstr broken (codes "\"activations\"") >>= λ p. strchr p b'[' in
    ((bracket ≡ none) × (parse_activations_field soft broken ≡ none))
    ⊎ ((rules : List ActivationRule) × (parse_activations_field soft broken ≡ some rules)
        × (bracket ≢ none)
        × AreRules rules)
parse_activations_field_lem_example = parse_activations_field_lem soft broken

handle_mqtt_command_targeted_example :
    (handle_mqtt_command host (toggle_command mac_b (codes "}")) node_a
      ≡ sent (send_mesh_toggle_command host.world mac_b node_a))
    × (handle_mqtt_command host (highlight_command mac_b false (codes "}")) node_a
        ≡ sent (send_mesh_highlight_command host.world mac_b false node_a))
handle_mqtt_command_targeted_example =
    handle_mqtt_command_targeted host mac_b false (codes "}") node_a refl refl (ground arith)

differ : bytes_eq mac_c node_a.node_mac ≡ false
unfolding bytes_eq
differ = refl

toggle_command_lem_example :
    (message : Bytes) × (handle_mqtt_command host (toggle_command mac_c (codes "}")) node_a
      ≡ sent (count_message node_a, p2p mac_c message ∷ []))
    × (mesh_receive child (some message) node_c ≡ (
        if bytes_eq mac_c node_c.node_mac
        then send_state_to_neighbors child (record node_c {
          manager = toggle_state_value child.fpu (millis child.us) node_c.manager;
        })
        else (node_c, [])))
toggle_command_lem_example =
    toggle_command_lem host child mac_c (codes "}") node_a node_c refl refl refl refl (ground arith)
      (omega arith) differ

unquoted : strchr (c_string (codes "{'command':'toggle'}")) b'"' ≡ none
unfolding c_string strchr
unquoted = refl

handle_mqtt_command_ignored_example :
    handle_mqtt_command host (codes "{'command':'toggle'}") node_a
    ≡ record { node = node_a; sends = []; published = false }
handle_mqtt_command_ignored_example =
    handle_mqtt_command_ignored host (codes "{'command':'toggle'}") node_a unquoted

nine-ReadBack : All (ReadsBack soft) (2 ∷ replicate 8 7)
nine-ReadBack =
    let s = seven-ReadsBack in (two-ReadsBack, (s, (s, (s, (s, (s, (s, (s, (s, tt)))))))))

handle_mqtt_command_configured_example :
    let w = host.world in
    let text = config_command w.fpu (2 ∷ replicate 8 7) (rule_a ∷ rule_b ∷ []) in
    let m =
      (set_activation_rules w.fpu w.nvs
        (rule_a ∷ rule_b ∷ [])
        2
        (set_kernel_values w.nvs (2 ∷ replicate 8 7) node_a.manager)).0 in
    (handle_mqtt_command host text node_a
      ≡ announce host (record node_a { manager = write_value w.fpu w.nvs text 2 m }))
    × (m.node_state.kernel ≡ 2 ∷ replicate 8 7)
    × (take m.node_state.activation_count m.node_state.activations ≡ rule_a ∷ rule_b ∷ [])
handle_mqtt_command_configured_example =
    handle_mqtt_command_configured host 2 (replicate 8 7) rule_a (rule_b ∷ []) node_a refl refl
      (omega arith) nine-ReadBack
      ((omega arith, two-ReadsBack), ((omega arith, seven-ReadsBack), tt))
