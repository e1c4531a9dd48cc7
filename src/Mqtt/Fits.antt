-- ===== src/Mqtt/Fits.antt =====
-- src/mqtt_handler.cpp: which lists fit into their buffers.
use mesh_visualization.Prelude.{
  ℕ, suc, ◌+◌, ◌-◌, ◌*◌, ◌≤◌, ◌<◌, ◌≡◌, refl, ap, ◌∙◌, ◌≢◌, inl, inr, Bool, true, false, List, [],
  ◌∷◌, ◌++◌, map, arith, ltb, Bool-cases, length, take, All, length-append, length-take, length-map,
  take_all, Bytes, codes,
}
use mesh_visualization.State.{Mac, Neighbor}
use mesh_visualization.Neighbors.{Table, get_neighbor_count}
use mesh_visualization.Neighbors.Values.{get_neighbor_count-le}
use mesh_visualization.Printf.{Buffer, append, join, separated, close_lem}
use mesh_visualization.Wire.RoundTrip.{IsMac}
use mesh_visualization.Mqtt.{
  mac_text, neighbor_json, comma, append_neighbors, format_neighbors_json,
}
use mesh_visualization.Mqtt.Lists.{array, actives, format_neighbors_json_lem}
use mesh_visualization.Mqtt.Topology.{append_sample, sample_neighbors, format_routes, route_json}
use mesh_visualization.Mqtt.Fields.Address.{length-mac_text}
use mesh_visualization.Mqtt.Lengths.{
  InRange, IsLong, neighbor_json_bound, neighbor_json_long, length-separated,
}

length-array :
    (text : Bytes) (texts : List Bytes) (low high : ℕ)
    → All (λ t. (low ≤ length t) × (length t ≤ high)) (text ∷ texts)
    → (length (text ∷ texts) * (low + 1) < length (array (text ∷ texts)))
      × (length (array (text ∷ texts)) ≤ length (text ∷ texts) * (high + 1) + 1)
length-array text texts low high h =
    let rest = length-separated texts low high h.1 in
    let more = join (map (λ p. codes "," ++ p) texts) in
    let inner = length-append text more in
    let whole = length-append (codes "[" ++ (text ++ more)) (codes "]") in
    (grind (arith, rest, inner, whole), grind (arith, rest, inner, whole))

length-actives : (ns : Table) → length (actives ns) ≡ get_neighbor_count ns
unfolding get_neighbor_count
length-actives [] = refl
length-actives (n ∷ ns) = ground (arith, length-actives ns)

-- The texts of the active neighbors between two sizes.
module _ (low high : ℕ) (P : Neighbor → Type 0)
    (bounds : (n : Neighbor)
      → P n
      → (low ≤ length (neighbor_json n)) × (length (neighbor_json n) ≤ high)) where
  texts_bounds :
      (ns : Table)
      → All P ns
      → All (λ t. (low ≤ length t) × (length t ≤ high)) (map neighbor_json (actives ns))
  texts_bounds [] h = tt
  texts_bounds (n ∷ ns) h = elim (Bool-cases n.active) [
    | inl e ↦ rw e (bounds n h.0, texts_bounds ns h.1)
    | inr e ↦ rw e (texts_bounds ns h.1)
  ]

whole_texts :
    (ns : Table)
    → All InRange ns
    → All (λ t. (0 ≤ length t) × (length t ≤ 74)) (map neighbor_json (actives ns))
whole_texts ns = texts_bounds 0 74 InRange (λ n r. (omega arith, neighbor_json_bound n r)) ns

long_texts :
    (ns : Table)
    → All (λ n. InRange n × IsLong n) ns
    → All (λ t. (63 ≤ length t) × (length t ≤ 74)) (map neighbor_json (actives ns))
long_texts ns =
    texts_bounds 63 74 (λ n. InRange n × IsLong n)
      (λ n r. (neighbor_json_long n r.1, neighbor_json_bound n r.0)) ns

-- An array of at least `k` texts of at least 63 bytes.
array_long :
    (texts : List Bytes) (k : ℕ)
    → 0 < k
    → k ≤ length texts
    → All (λ t. (63 ≤ length t) × (length t ≤ 74)) texts
    → k * 64 < length (array texts)
array_long [] k p l h = absurd (omega arith)
array_long (t ∷ texts) k p l h = omega (arith, length-array t texts 63 74 h)

-- An array of at most `k` texts of at most 74 bytes.
array_bound :
    (texts : List Bytes) (k : ℕ)
    → length texts ≤ k
    → All (λ t. (0 ≤ length t) × (length t ≤ 74)) texts
    → length (array texts) ≤ k * 75 + 2
array_bound [] k l h = omega arith
array_bound (t ∷ texts) k l h = omega (arith, length-array t texts 0 74 h)

format_neighbors_json-fits :
    (size : ℕ) (ns : Table)
    → length (array (map neighbor_json (actives ns))) < size
    → format_neighbors_json size ns
      ≡ (array (map neighbor_json (actives ns)), get_neighbor_count ns)
format_neighbors_json-fits size ns h =
    let (text, count) = format_neighbors_json_lem size ns (omega arith) in
    let count' : (format_neighbors_json size ns).1 ≡ get_neighbor_count ns = elim count [
      | inl long ↦ absurd (omega arith)
      | inr e ↦ e ∙ length-actives ns
    ] in
    let text' = text ∙ take_all (size - 1) _ (omega arith) in λ i. (text' i, count' i)

append_sample-append_neighbors :
    (size limit : ℕ) (b : Buffer) (first : Bool) (count : ℕ) (ns : Table)
    → count + length ns ≤ limit
    → append_sample size limit b first count ns ≡ append_neighbors size b first count ns
unfolding append_sample append_neighbors
append_sample-append_neighbors size limit b first count [] h = refl
append_sample-append_neighbors size limit b first count (n ∷ ns) h =
    let room : ltb count limit ≡ true = ground arith in
    let skipped = append_sample-append_neighbors size limit b first count ns (omega arith) in
    let written =
      append_sample-append_neighbors size limit (append size b (comma first ++ neighbor_json n))
        false (suc count) ns (omega arith) in
    rw (room, skipped, written) refl

sample-format_neighbors_json :
    (ns : Table) → length ns ≤ 8 → sample_neighbors ns ≡ format_neighbors_json 512 ns
unfolding sample_neighbors format_neighbors_json
sample-format_neighbors_json ns h =
    rw
      (append_sample-append_neighbors 512 8 (append 512 ([], 0) (codes "[")) true 0 ns
        (omega arith))
      refl

-- For a table of at most eight slots whose fields have the ranges of their C types, the list of
-- neighbors in a published state is the whole array of the texts of the active neighbors, and the
-- number with it is theirs.
pub format_neighbors_json-whole :
    (ns : Table)
    → length ns ≤ 8
    → All InRange ns
    → format_neighbors_json 768 ns ≡ (array (map neighbor_json (actives ns)), get_neighbor_count ns)
format_neighbors_json-whole ns l r =
    let few : length (map neighbor_json (actives ns)) ≤ 8 =
      omega (
        arith,
        length-map (actives ns) neighbor_json,
        length-actives ns,
        get_neighbor_count-le ns,
      ) in
    format_neighbors_json-fits 768 ns
      (omega (arith, array_bound (map neighbor_json (actives ns)) 8 few (whole_texts ns r)))

sample_neighbors-whole :
    (ns : Table)
    → length ns ≤ 8
    → All InRange ns
    → get_neighbor_count ns ≤ 6
    → sample_neighbors ns ≡ (array (map neighbor_json (actives ns)), get_neighbor_count ns)
sample_neighbors-whole ns l r few =
    let six : length (map neighbor_json (actives ns)) ≤ 6 =
      omega (arith, length-map (actives ns) neighbor_json, length-actives ns) in
    sample-format_neighbors_json ns l
    ∙ format_neighbors_json-fits 512 ns
        (omega (arith, array_bound (map neighbor_json (actives ns)) 6 six (whole_texts ns r)))

-- But with eight active neighbors, each with a signal of -10 dBm or less and heard ten
-- milliseconds after the start or later, and fields of the ranges of their C types, the list in
-- the topology is not the whole array.
pub sample_neighbors-cut :
    (ns : Table)
    → length ns ≡ 8
    → get_neighbor_count ns ≡ 8
    → All (λ n. InRange n × IsLong n) ns
    → (sample_neighbors ns).0 ≢ array (map neighbor_json (actives ns))
sample_neighbors-cut ns l full r e =
    let whole = array (map neighbor_json (actives ns)) in
    let eight : 8 ≤ length (map neighbor_json (actives ns)) =
      omega (arith, length-map (actives ns) neighbor_json, length-actives ns) in
    let long : 8 * 64 < length whole =
      array_long (map neighbor_json (actives ns)) 8 (omega arith) eight (long_texts ns r) in
    let text : (sample_neighbors ns).0 ≡ take 511 whole =
      ap (λ t. t.0) (sample-format_neighbors_json ns (omega arith))
      ∙ (format_neighbors_json_lem 512 ns (omega arith)).0 in
    omega (arith, long, ap length text, ap length e, length-take 511 whole)

route_texts :
    (routes : List Mac)
    → All IsMac routes
    → All (λ t. (0 ≤ length t) × (length t ≤ 19)) (map route_json routes)
route_texts [] r = tt
route_texts (m ∷ routes) r =
    let size = length-append (mac_text m) (codes "\"") in
    ((omega arith, omega (arith, size, length-mac_text m r.0)), route_texts routes r.1)

routes_bound :
    (routes : List Mac)
    → length routes ≤ 16
    → All IsMac routes
    → length (array (map route_json routes)) ≤ 639
routes_bound [] l r = omega arith
routes_bound (m ∷ routes) l r = omega (
  arith,
  length-map routes route_json,
  length-array (route_json m) (map route_json routes) 0 19 (route_texts (m ∷ routes) r),
)

format_routes-whole :
    (routes : List Mac)
    → length routes ≤ 16
    → All IsMac routes
    → format_routes routes ≡ array (map route_json routes)
unfolding format_routes
format_routes-whole routes l r =
    close_lem 640 (omega arith) (codes "[") (codes "]")
      (separated (codes ",") (map route_json routes))
    ∙ take_all 639 _ (routes_bound routes l r)

-- For a table of at most eight slots whose fields have the ranges of their C types, of which at
-- most six are active, and a sample of at most 16 addresses of six bytes, both lists in a
-- published topology are whole arrays, of the texts of the active neighbors, with their number,
-- and of the addresses.
pub topology_lists-whole :
    (ns : Table) (routes : List Mac)
    → length ns ≤ 8
    → All InRange ns
    → get_neighbor_count ns ≤ 6
    → length routes ≤ 16
    → All IsMac routes
    → (sample_neighbors ns ≡ (array (map neighbor_json (actives ns)), get_neighbor_count ns))
      × (format_routes routes ≡ array (map route_json routes))
topology_lists-whole ns routes l r few short six =
    (sample_neighbors-whole ns l r few, format_routes-whole routes short six)
