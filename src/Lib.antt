-- ===== src/Lib.antt =====
-- The firmware of an ESP32 node of a WiFi mesh that runs a cellular automaton
-- (firmware/platformio).
--
-- A node finds its neighbors by the beacons and the local status messages that it overhears, keeps
-- the strongest eight in a table, computes its value from theirs with a kernel and activation rules,
-- shows the value on an LED, spreads kernel and rules through the mesh by sequence numbers, and
-- reports to a visualization server. The parts, and the files that model them:
--
--   - Neighbors: `neighbor_list` of src/mesh_node.cpp. `update_neighbor_list`,
--     `cleanup_inactive_neighbors` and the other operations are functions on the list of slots, a
--     pointer into the table is an index. Neighbors/Lookup sees the table as a finite map, and
--     Neighbors/Scan has `wifi_scan_done_callback`.
--   - Beacon: src/beacon_monitor.cpp. A read outside of the frame is the result `none` of the
--     parser. Beacon/Radio has the flags and the calls of the driver.
--   - Manager: src/state_manager.cpp. `Manager` holds its globals, the blob in the flash store and
--     what the LED shows. Manager/Led, Manager/Activation and Manager/Adopt have the value set by
--     hand, the update of the automaton and the merge of configurations.
--   - Wire: the structures of include/mesh_node.h as bytes in memory, and their checksums.
--     Wire/Messages has the three messages.
--   - Udp: `prepare_udp_message` of src/mesh_node.cpp.
--   - Node: the senders of src/mesh_node.cpp, which call the table and the state manager;
--     Node/Receive has `mesh_receive_task` and `local_status_recv_callback`. What is handed to a
--     library is a list of sends, and what the libraries answer is the record `World`.
--   - TxPower: `adjust_tx_power` and `calculate_required_tx_power` of src/mesh_node.cpp.
--   - App: src/main.cpp: the events of the mesh and the services; App/Health has
--     `check_mesh_health`, App/Loop one turn of the loop of `app_main`, and App/Tcp the commands of a
--     client of the TCP server. App/Start has what `app_main` does before its loop, App/Valid the
--     steps of the whole program: turns, events of the libraries and what other tasks run, and
--     App/Lives their sequences with restarts in between.
--   - Mqtt: src/mqtt_handler.cpp: the publication of a state; Mqtt/Topology has that of the topology,
--     Mqtt/Fields the parsers of the fields of a command, and Mqtt/Command `handle_mqtt_command`. The
--     life of the client is in App.
--   - Printf: decimal numbers, and the `snprintf` idiom on a buffer with an offset.
--   - Text: the functions of the C library by which texts are read (`strstr`, `strchr`, `strtol`,
--     `atoi`, and the conversions of `sscanf` that the program uses).
--   - Config, State, Floats, Prelude: constants, shared structures, and helpers.
--   - Tests: concrete nodes, tables and messages on which the theorems are applied.
--
-- Integers are natural numbers with their wrap-around written out, `int8_t` and `int16_t` are
-- integers, and a float is its bit pattern, whose operations are the fields of the record
-- `FloatUnit`: nothing is assumed of them unless a theorem says so. Its fields `strtof` and `scan`
-- read a float at the start of a text, for `strtof` and for the conversion `%f`. Time is an argument.
-- The loop of `extract_beacon_info` runs on a number of rounds, one more than the bytes of the frame,
-- which is enough because every element takes two bytes; the loop of `parse_activations_field` runs on
-- one more than the bytes from the bracket on, which is enough because every element takes a byte; all
-- other loops are recursions on a list or on a number that the loop counts. An array that the program
-- reads before it is written, that of the arguments of a TCP command, is an argument as well.
--
-- Not modelled: the set-up of drivers in `app_main`, `init_wifi`, which nothing calls, logging, and
-- the copies of third-party libraries under managed_components, whose answers are arguments. A failed
-- ESP_ERROR_CHECK restarts the chip; App/Lives has restarts between any two steps, but not inside of
-- one. Neither is the interleaving of the tasks inside of one operation: an operation is one step.
pub mod Prelude
pub mod Config
pub mod State
pub mod Floats
pub mod Neighbors
pub mod Printf
pub mod Text
pub mod TxPower
pub mod Beacon
pub mod Manager
pub mod Wire
pub mod Udp
pub mod Node
pub mod App
pub mod Mqtt
pub mod Tests
