-- ===== src/Wire/Sizes.antt =====
-- The mesh message has the size that the receiver tests, and its header is read back.
use mesh_visualization.Prelude.{
  ℕ, ◌+◌, ◌*◌, ◌%◌, ◌∙◌, drop, ◌≡◌, refl, sym, ap, true, List, [], ◌∷◌, ◌++◌, arith, length, All,
  length-append, take-append, drop-append, Bytes,
}
use mathlib.Core.List.{append_assoc}
use mesh_visualization.Config.{max_neighbors, u32_mod}
use mesh_visualization.State.{NodeState, ActivationRule, Neighbor}
use mesh_visualization.Wire.Checksum.{verify-sealed}
use mesh_visualization.Wire.RoundTrip.{IsState, IsMac, length-sealed, get-put_state}
use mesh_visualization.Wire.{
  get_u32, put_u16, put_u32, checksum_at, put_words, put_rules, put_state, put_neighbor,
  put_neighbors, message_checksum_offset, message_size,
}
use mesh_visualization.Wire.Messages.{
  MeshMessage, message_body, encode_message, decode_header, verify_checksum,
}

length-put_words :
    (ws : List ℕ) (rest : Bytes) → length (put_words ws rest) ≡ 4 * length ws + length rest
length-put_words [] rest = omega arith
length-put_words (w ∷ ws) rest = omega (arith, length-put_words ws rest)

length-put_rules :
    (rs : List ActivationRule) (rest : Bytes)
    → length (put_rules rs rest) ≡ 8 * length rs + length rest
length-put_rules [] rest = omega arith
length-put_rules (r ∷ rs) rest = omega (arith, length-put_rules rs rest)

length-put_state :
    (s : NodeState) (rest : Bytes) → IsState s → length (put_state s rest) ≡ 140 + length rest
unfolding put_state
length-put_state s rest h =
    rw
      (
        length-append s.color,
        h.color,
        length-put_words s.kernel,
        length-put_rules s.activations,
        h.kernel_length,
        h.rules_length,
      )
      (omega arith)

-- The arrays of a neighbor have their sizes.
pub record IsNeighbor (n : Neighbor) : Type 0 where
  pub mac : IsMac n.mac
  pub ip : length n.ip ≡ 4
  pub state : IsState n.state

length-put_neighbor :
    (n : Neighbor) (rest : Bytes) → IsNeighbor n → length (put_neighbor n rest) ≡ 160 + length rest
unfolding put_neighbor
length-put_neighbor n rest h =
    rw (length-append n.mac, h.mac, length-append n.ip, h.ip, length-put_state n.state rest h.state)
      (omega arith)

length-put_neighbors :
    (ns : List Neighbor) (rest : Bytes)
    → All IsNeighbor ns
    → length (put_neighbors ns rest) ≡ 160 * length ns + length rest
unfolding put_neighbors
length-put_neighbors [] rest h = omega arith
length-put_neighbors (n ∷ ns) rest h =
    omega
      (arith, length-put_neighbor n (put_neighbors ns rest) h.0, length-put_neighbors ns rest h.1)

pub record IsMessage (m : MeshMessage) : Type 0 where
  pub mac : IsMac m.mac
  pub state : IsState m.state
  pub neighbors_length : length m.neighbors ≡ max_neighbors
  pub neighbors : All IsNeighbor m.neighbors

put_words-append : (ws : List ℕ) (xs ys : Bytes) → put_words ws xs ++ ys ≡ put_words ws (xs ++ ys)
put_words-append [] xs ys = refl
put_words-append (w ∷ ws) xs ys = ap (λ t. put_u32 w t) (put_words-append ws xs ys)

put_rules-append :
    (rs : List ActivationRule) (xs ys : Bytes) → put_rules rs xs ++ ys ≡ put_rules rs (xs ++ ys)
put_rules-append [] xs ys = refl
put_rules-append (r ∷ rs) xs ys =
    ap (λ t. r.op ∷ 0 ∷ 0 ∷ 0 ∷ put_u32 r.value t) (put_rules-append rs xs ys)

put_state-append : (s : NodeState) (xs ys : Bytes) → put_state s xs ++ ys ≡ put_state s (xs ++ ys)
unfolding put_state
put_state-append s xs ys =
    rw (append_assoc s.color, put_words-append s.kernel, put_rules-append s.activations) refl

-- A mesh message whose fields have the sizes and ranges of their C types arrives with the size and
-- the checksum that the receiver tests, and with the version, the type, the address and the whole
-- state that it was sent with.
pub decode_header-encode_message :
    (m : MeshMessage)
    → IsMessage m
    → (length (encode_message m) ≡ message_size)
      × (verify_checksum (encode_message m) ≡ true)
      × (decode_header (encode_message m) ≡ (m.version, m.msg_type, m.mac, m.state))
unfolding encode_message decode_header message_body verify_checksum
decode_header-encode_message m h = (
  omega (arith, length-sealed message_checksum_offset (message_body m) (0 ∷ 0 ∷ []), size),
  verify-sealed message_checksum_offset (message_body m) (0 ∷ 0 ∷ []) size,
  rw
      (
        append_assoc m.mac,
        put_state-append m.state,
        take-append m.mac _ h.mac,
        drop-append m.mac _ h.mac,
        get-put_state m.state (put_u32 m.sequence _) h.state,
      )
      refl,
)
  where
    size : length (message_body m) ≡ message_checksum_offset
    size =
        rw
          (
            length-append m.mac,
            h.mac,
            length-put_state m.state _ h.state,
            length-put_neighbors m.neighbors [] h.neighbors,
            h.neighbors_length,
          )
          (omega arith)

-- What stands in front of the sequence number.
abbrev message_front : MeshMessage → Bytes
message_front m = m.version ∷ m.msg_type ∷ (m.mac ++ put_state m.state [])

length-message_front : (m : MeshMessage) → IsMessage m → length (message_front m) ≡ 148
length-message_front m h =
    omega (
      arith,
      length-append m.mac (put_state m.state []),
      h.mac,
      length-put_state m.state [] h.state,
    )

-- The time, and what stands behind it.
timed_tail : MeshMessage → Bytes
unfolding message_body
timed_tail m = put_u32 m.mesh_timestamp (
    put_neighbors m.neighbors []
    ++ put_u16 (checksum_at message_checksum_offset (message_body m)) (0 ∷ 0 ∷ []))

-- The sequence number and the time stand behind the state.
message_tail : MeshMessage → Bytes
message_tail m = put_u32 m.sequence (timed_tail m)

encode_message-split : (m : MeshMessage) → encode_message m ≡ message_front m ++ message_tail m
unfolding encode_message message_body message_tail timed_tail
encode_message-split m =
    rw (append_assoc m.mac, put_state-append m.state, append_assoc m.mac, put_state-append m.state)
      refl

-- They are read as 32-bit words.
pub encode_message-sequence :
    (m : MeshMessage)
    → IsMessage m
    → (get_u32 (drop 148 (encode_message m))).0 ≡ m.sequence % u32_mod
unfolding message_tail
encode_message-sequence m h =
    let at =
      ap (drop 148) (encode_message-split m)
      ∙ drop-append (message_front m) (message_tail m) (length-message_front m h) in
    rw at (omega arith)

-- The four bytes of the sequence number, and what stands in front of them.
abbrev timed_front : MeshMessage → Bytes
timed_front m = message_front m ++ put_u32 m.sequence []

length-timed_front : (m : MeshMessage) → IsMessage m → length (timed_front m) ≡ 152
length-timed_front m h =
    omega (arith, length-append (message_front m) (put_u32 m.sequence []), length-message_front m h)

pub encode_message-mesh_timestamp :
    (m : MeshMessage)
    → IsMessage m
    → (get_u32 (drop 152 (encode_message m))).0 ≡ m.mesh_timestamp % u32_mod
unfolding message_tail timed_tail
encode_message-mesh_timestamp m h =
    let at =
      ap (drop 152) (
        encode_message-split m
        ∙ sym (append_assoc (message_front m) (put_u32 m.sequence []) (timed_tail m)))
      ∙ drop-append (timed_front m) (timed_tail m) (length-timed_front m h) in
    rw at (omega arith)
