-- ===== src/Mqtt/Topology.antt =====
-- src/mqtt_handler.cpp: the topology that a node publishes.
use mesh_visualization.Prelude.{
  ℕ, suc, Bool, true, false, not, ◌&&◌, Option, none, some, List, [], ◌∷◌, ◌++◌, map, ltb,
  if◌then◌else◌, length, take, Bytes, codes,
}
use Prim.Native.Nat.{min}
use mesh_visualization.Config.{
  mesh_target_node_count, mqtt_topology_route_sample_limit, mqtt_topology_neighbor_sample_limit,
}
use mesh_visualization.State.{Mac}
use mesh_visualization.Neighbors.{Table, get_neighbor_count}
use mesh_visualization.Node.{Node}
use mesh_visualization.Printf.{Buffer, decimal, append, close, join, separated}
use mesh_visualization.Mqtt.{mac_text, neighbor_json, comma, format_list}

-- The loop over the slots, which also ends after `limit` neighbors.
unfoldable pub append_sample : ℕ → ℕ → Buffer → Bool → ℕ → Table → Buffer × ℕ
append_sample size limit b first count [] = (b, count)
append_sample size limit b first count (n ∷ ns) =
    let skipped = append_sample size limit b first count ns in
    let written =
      append_sample size limit (append size b (comma first ++ neighbor_json n)) false (suc count)
        ns in
    if not (ltb count limit && ltb b.1 size)
    then (b, count)
    else if not n.active
    then skipped
    else written

-- The list of neighbors and their number.
unfoldable pub sample_neighbors : Table → Bytes × ℕ
unfolding append_sample
sample_neighbors ns =
    let (b, count) =
      append_sample 512 mqtt_topology_neighbor_sample_limit (append 512 ([], 0) (codes "[")) true 0
        ns in
    (close 512 b (codes "]"), count)

-- What ESP-WiFi-Mesh answers: the layer, the size of the routing table, and the addresses that it
-- returns for a number of them, unless it fails.
pub record Mesh : Type 0 where
  pub layer : ℕ
  pub routing_table_size : ℕ
  pub routing_table : ℕ → Option (List Mac)

abbrev or_empty : Option (List Mac) → List Mac
or_empty none = []
or_empty (some routes) = routes

-- The addresses of the sample of the routing table.
unfoldable sample_routes : Mesh → Bool → List Mac
sample_routes mesh initialized =
    if initialized && ltb 0 mesh.routing_table_size
    then or_empty
        (mesh.routing_table (min mesh.routing_table_size mqtt_topology_route_sample_limit))
    else []

abbrev pub route_json : Mac → Bytes
route_json route = codes "\"" ++ (mac_text route ++ codes "\"")

unfoldable pub format_routes : List Mac → Bytes
format_routes routes = format_list 640 (separated (codes ",") (map route_json routes))

-- The payload, through its buffer of 2400 bytes.
unfoldable topology_payload : Mesh → Node → Bytes
unfolding sample_neighbors sample_routes format_routes
topology_payload mesh n =
    let layer = if n.mesh_initialized then mesh.layer else 0 in
    let size = if n.mesh_initialized then mesh.routing_table_size else 0 in
    let routes = sample_routes mesh n.mesh_initialized in
    let (neighbors, neighbor_sample_count) = sample_neighbors n.neighbor_list in
    let routing = format_routes routes in
    take 2399 (
      join (
        codes "{\"node_mac\":\""
        ∷ mac_text n.node_mac
        ∷ codes "\",\"node_state\":"
        ∷ decimal n.manager.node_state.state
        ∷ codes ",\"value\":"
        ∷ decimal n.manager.node_state.value
        ∷ codes ",\"layer\":"
        ∷ decimal layer
        ∷ codes ",\"target_node_count\":"
        ∷ decimal mesh_target_node_count
        ∷ codes ",\"routing_table_size\":"
        ∷ decimal size
        ∷ codes ",\"route_sample_count\":"
        ∷ decimal (length routes)
        ∷ codes ",\"routing_table_truncated\":"
        ∷ (if ltb (length routes) size then codes "true" else codes "false")
        ∷ codes ",\"neighbor_count\":"
        ∷ decimal (get_neighbor_count n.neighbor_list)
        ∷ codes ",\"neighbor_sample_count\":"
        ∷ decimal neighbor_sample_count
        ∷ codes ",\"neighbors\":"
        ∷ neighbors
        ∷ codes ",\"routing_table\":"
        ∷ routing
        ∷ codes ",\"routing_table_sample\":"
        ∷ routing
        ∷ codes "}"
        ∷ []))

-- `mqtt_publish_topology`, given whether the client is connected and whether the buffers could be
-- allocated.
unfoldable pub mqtt_publish_topology : Bool → Bool → Mesh → Node → Option Bytes
unfolding topology_payload
mqtt_publish_topology connected allocated mesh n =
    if connected && allocated then some (topology_payload mesh n) else none
