-- ===== src/Node/Commands.antt =====
-- src/mesh_node.cpp: what happens to a targeted command between the root and its target.
use mesh_visualization.Prelude.{
  ℕ, ◌+◌, ◌%◌, ◌<◌, ◌≡◌, refl, ◌≢◌, ◌⊎◌, inl, inr, Bool, true, false, some, List, [], ◌∷◌, ◌++◌,
  arith, if◌then◌else◌, length, length-append, Bytes, bytes_eq,
}
use mesh_visualization.Config.{protocol_version, msg_type_command, u32_mod}
use mesh_visualization.State.{Mac}
use mesh_visualization.Wire.{
  put_u16, checksum_at, command_checksum_offset, command_size, message_checksum_offset,
  message_size,
}
use mesh_visualization.Wire.Messages.{
  Command, encode_command, decode_command, verify_command_checksum, verify_checksum,
}
use mesh_visualization.Wire.Checksum.{verify-changed}
use mesh_visualization.Wire.RoundTrip.{decode-encode_command, IsMac, IsCommand}
use mesh_visualization.Node.{
  Node, World, Send, p2p, apply_mesh_command, run_command, build_command, send_mesh_command_to_node,
}
use mesh_visualization.Node.Receive.{mesh_receive, receive_command, receive_message}

mesh_receive_command :
    (w : World) (c : Command) (n : Node)
    → IsCommand c
    → c.version ≡ protocol_version
    → c.msg_type ≡ msg_type_command
    → mesh_receive w (some (encode_command c)) n ≡ apply_mesh_command w c n
unfolding mesh_receive receive_command
mesh_receive_command w c n h v t =
    let (size, sum, same) = decode-encode_command c h in
    rw (size, receive_command, same, sum, v, t) refl

-- A command that the initialised root of the mesh, with a 32-bit sequence number, sends to the
-- six-byte address of another node is one message to that address, in which the receiver reads the
-- version and the type of a command, the address, the command and its value as they were given, and
-- the sequence number of the root; nothing else changes at the root but that its sequence number
-- goes up by one. A node that receives it runs the command if it has the address, and ignores it if
-- it has another.
pub send_mesh_command_to_node_lem :
    (w u : World) (target : Mac) (command value : ℕ) (root node : Node)
    → root.mesh_initialized ≡ true
    → w.is_root ≡ true
    → IsMac target
    → root.message_sequence < u32_mod
    → bytes_eq target root.node_mac ≡ false
    → (message : Bytes) × (send_mesh_command_to_node w target command value root ≡ (
      record root { message_sequence = (root.message_sequence + 1) % u32_mod },
      p2p target message ∷ [],
    ))
      × (decode_command message ≡ record {
        version = protocol_version;
        msg_type = msg_type_command;
        target_mac = target;
        command = command;
        value = value;
        sequence = root.message_sequence;
      })
      × (mesh_receive u (some message) node
          ≡ (if bytes_eq target node.node_mac then run_command u command node else (node, [])))
unfolding send_mesh_command_to_node apply_mesh_command build_command
send_mesh_command_to_node_lem w u target command value root node up is_root six word other =
    let c = build_command target command value root in
    let fits : IsCommand c = record { target_mac = six; sequence = word } in
    (
      encode_command c,
      rw (other, up, is_root) refl,
      (decode-encode_command c fits).2,
      mesh_receive_command u c node fits refl refl,
    )

same-if : (b : Bool) (r : Node × List Send) → (if b then r else r) ≡ r
same-if true r = refl
same-if false r = refl

receive_command-unverified :
    (w : World) (payload : Bytes) (n : Node)
    → verify_command_checksum payload ≡ false
    → receive_command w payload n ≡ (n, [])
unfolding receive_command
receive_command-unverified w payload n e = rw e (same-if _ (n, []))

receive_message-unverified :
    (w : World) (payload : Bytes) (n : Node)
    → verify_checksum payload ≡ false
    → receive_message w payload n ≡ (n, [])
unfolding receive_message
receive_message-unverified w payload n e = rw e (same-if _ (n, []))

module _ (w : World) (n : Node) (before after : Bytes) (sent received : ℕ) (s : sent < 256)
    (r : received < 256) (differ : sent ≢ received) where
  -- The bytes with the checksum of what was sent, and one byte that arrives as another.
  abbrev pub altered : ℕ → Bytes
  altered len =
      (before ++ received ∷ after)
      ++ put_u16 (checksum_at len (before ++ sent ∷ after)) (0 ∷ 0 ∷ [])

  length-altered :
      (len : ℕ) → length (before ++ sent ∷ after) ≡ len → length (altered len) ≡ len + 4
  length-altered len l = omega (
    arith,
    l,
    length-append before (sent ∷ after),
    length-append before (received ∷ after),
    length-append (before ++ received ∷ after)
        (put_u16 (checksum_at len (before ++ sent ∷ after)) (0 ∷ 0 ∷ [])),
  )

  -- A command or a mesh message in which one byte in front of the checksum arrives as another
  -- byte, while the checksum is that of the bytes sent, changes nothing at the receiver and makes
  -- it send nothing.
  pub mesh_receive-altered :
      (len : ℕ)
      → (len ≡ command_checksum_offset) ⊎ (len ≡ message_checksum_offset)
      → length (before ++ sent ∷ after) ≡ len
      → mesh_receive w (some (altered len)) n ≡ (n, [])
  unfolding mesh_receive
  mesh_receive-altered len (inl e) l =
      let size : length (altered len) ≡ command_size = omega (arith, length-altered len l) in
      rw size (
        receive_command-unverified w (altered len) n (
          unfold verify_command_checksum in
          rw (← e) (verify-changed len before after (0 ∷ 0 ∷ []) sent received s r differ l)))
  mesh_receive-altered len (inr e) l =
      let size : length (altered len) ≡ message_size = omega (arith, length-altered len l) in
      rw size (
        receive_message-unverified w (altered len) n (
          unfold verify_checksum in
          rw (← e) (verify-changed len before after (0 ∷ 0 ∷ []) sent received s r differ l)))
