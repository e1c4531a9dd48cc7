-- ===== src/Mqtt/Lists.antt =====
-- src/mqtt_handler.cpp: the lists that are formatted into fixed buffers are the whole lists, as far
-- as the buffers go.
use mesh_visualization.Prelude.{
  ℕ, suc, ◌+◌, ◌-◌, ◌≤◌, ◌<◌, ◌≡◌, refl, ◌∙◌, ◌⊎◌, inl, inr, Bool, true, false, List, [], ◌∷◌, ◌++◌,
  map, arith, ltb, if◌then◌else◌, Bool-cases, length, take, length-append, Bytes, codes,
}
use mesh_visualization.Floats.{FloatUnit}
use mesh_visualization.State.{NodeState, Neighbor}
use mesh_visualization.Neighbors.{Table}
use mesh_visualization.Printf.{Buffer, append, append_all, join, separated, close_lem}
use mesh_visualization.Mqtt.{
  format_kernel_json, format_activations_json, activation_json, neighbor_json, comma,
  append_neighbors, format_neighbors_json,
}

-- The texts in brackets with commas between them.
abbrev pub array : List Bytes → Bytes
array elements = (codes "[" ++ join (separated (codes ",") elements)) ++ codes "]"

abbrev pub actives : Table → List Neighbor
actives [] = []
actives (n ∷ ns) = if n.active then n ∷ actives ns else actives ns

-- What the loop appends for the active neighbors.
abbrev pieces : Bool → List Neighbor → List Bytes
pieces true ns = separated (codes ",") (map neighbor_json ns)
pieces false ns = map (λ p. codes "," ++ p) (map neighbor_json ns)

append_all-full :
    (size : ℕ) (b : Buffer) (texts : List Bytes)
    → ltb b.1 size ≡ false
    → append_all size b texts ≡ b
unfolding append_all
append_all-full size b [] h = refl
append_all-full size b (t ∷ texts) h = rw (h, append_all-full size b texts h) refl

pieces-cons :
    (first : Bool) (n : Neighbor) (ns : List Neighbor)
    → pieces first (n ∷ ns) ≡ (comma first ++ neighbor_json n) ∷ pieces false ns
pieces-cons true n ns = refl
pieces-cons false n ns = refl

append_all-step :
    (size : ℕ) (b : Buffer) (text : Bytes) (texts : List Bytes)
    → ltb b.1 size ≡ true
    → append_all size (append size b text) texts ≡ append_all size b (text ∷ texts)
unfolding append_all
append_all-step size b text texts h = rw h refl

append_neighbors-text :
    (size : ℕ) (b : Buffer) (first : Bool) (count : ℕ) (ns : Table)
    → (append_neighbors size b first count ns).0 ≡ append_all size b (pieces first (actives ns))
unfolding append_neighbors append_all
append_neighbors-text size b true count [] = refl
append_neighbors-text size b false count [] = refl
append_neighbors-text size b first count (n ∷ ns) = elim (Bool-cases (ltb b.1 size)) [
  | inr f ↦ rw (f, append_all-full size b (pieces first (actives (n ∷ ns))) f) refl
  | inl f ↦ elim (Bool-cases n.active) [
    | inr a ↦ rw (f, a) (append_neighbors-text size b first count ns)
    | inl a ↦
        let rest =
          append_neighbors-text size (append size b (comma first ++ neighbor_json n)) false
            (suc count) ns in
        simp (f, a, pieces-cons first n (actives ns))
          (rest
            ∙ append_all-step size b (comma first ++ neighbor_json n) (pieces false (actives ns)) f)
  ]
]

append_neighbors-count :
    (size : ℕ) (b : Buffer) (first : Bool) (count : ℕ) (ns : Table)
    → b.1 + length (join (pieces first (actives ns))) < size
    → (append_neighbors size b first count ns).1 ≡ count + length (actives ns)
unfolding append_neighbors
append_neighbors-count size b first count [] h = omega arith
append_neighbors-count size b first count (n ∷ ns) h = elim (Bool-cases n.active) [
  | inr a ↦
      let f : ltb b.1 size ≡ true = ground arith in
      let h₁ = simp a at h in simp (f, a) (append_neighbors-count size b first count ns h₁)
  | inl a ↦
      let f : ltb b.1 size ≡ true = ground arith in
      let piece = comma first ++ neighbor_json n in
      let more = length-append piece (join (pieces false (actives ns))) in
      let h₁ = simp (a, pieces-cons first n (actives ns)) at h in
      simp (f, a)
        (append_neighbors-count size (append size b piece) false (suc count) ns
            (unfold append in omega (arith, more, h₁))
          ∙ (omega arith))
]

-- In a buffer of at least one byte the list of neighbors is the array of the texts of the active
-- neighbors, as far as the buffer goes; and where the whole array fits, the result is their
-- number.
pub format_neighbors_json_lem :
    (size : ℕ) (ns : Table)
    → 0 < size
    → ((format_neighbors_json size ns).0 ≡ take (size - 1) (array (map neighbor_json (actives ns))))
      × ((size ≤ length (array (map neighbor_json (actives ns))))
          ⊎ ((format_neighbors_json size ns).1 ≡ length (actives ns)))
unfolding format_neighbors_json
format_neighbors_json_lem size ns h = (
  rw (append_neighbors-text size (append size ([], 0) (codes "[")) true 0 ns)
      (close_lem size h (codes "[") (codes "]") (pieces true (actives ns))),
  elim (Bool-cases (ltb (length whole) size)) [
    | inr e ↦ inl (ground arith)
    | inl e ↦
        let parts = length-append (codes "[" ++ join (pieces true (actives ns))) (codes "]") in
        let short : length whole < size = ground arith in
        inr (
          append_neighbors-count size (append size ([], 0) (codes "[")) true 0 ns
            (unfold append in omega (arith, parts, short))
          ∙ (omega arith))
  ],
)
  where
    whole : Bytes
    whole = array (map neighbor_json (actives ns))

-- The kernel and the rules are published as the arrays of their texts, as far as their buffers of
-- at least one byte go.
pub format_kernel_json_lem :
    (fpu : FloatUnit) (size : ℕ) (s : NodeState)
    → 0 < size
    → (format_kernel_json fpu size s ≡ take (size - 1) (array (map (fpu.print 4) s.kernel)))
      × (format_activations_json fpu size s
          ≡ take
              (size - 1)
              (array (map (activation_json fpu) (take s.activation_count s.activations))))
unfolding format_kernel_json format_activations_json
format_kernel_json_lem fpu size s h = (
  close_lem size h (codes "[") (codes "]") (separated (codes ",") (map (fpu.print 4) s.kernel)),
  close_lem size h (codes "[") (codes "]")
      (separated (codes ",") (map (activation_json fpu) (take s.activation_count s.activations))),
)
