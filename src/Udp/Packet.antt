-- ===== src/Udp/Packet.antt =====
-- src/mesh_node.cpp, `prepare_udp_message`: the bytes of the message.
use mesh_visualization.Prelude.{
  ℕ, zero, suc, ◌+◌, ◌-◌, ◌*◌, ◌≤◌, ◌≡◌, refl, ap, inl, inr, true, none, List, [], ◌∷◌, ◌++◌, arith,
  length, replicate, All, length-append, length-replicate, Bytes,
}
use mesh_visualization.Config.{no_rssi}
use mesh_visualization.State.{Mac, NodeState}
use mesh_visualization.Neighbors.{Table}
use mesh_visualization.Wire.Checksum.{verify-sealed}
use mesh_visualization.Wire.RoundTrip.{IsMac, length-sealed}
use mesh_visualization.Udp.{
  Entry, no_entry, udp_neighbors, udp_checksum_offset, next_entry, choose, copy_count,
  select_neighbors, put_entries, udp_body, prepare_udp_message,
}
use mesh_visualization.Udp.Waiting.{strongest_from-IsStrongest, All-get}
use mesh_visualization.Udp.Selection.{All-snoc}
use mesh_visualization.Wire.{put_i8, verify_at}

abbrev HasMac : Entry → Type 0
HasMac e = IsMac e.mac

module _ (ns : Table) (macs : All (λ n. IsMac n.mac) ns) where
  next_entry-HasMac : (chosen : List Entry) → HasMac (next_entry chosen ns)
  unfolding next_entry
  next_entry-HasMac chosen = elim (strongest_from-IsStrongest chosen (no_rssi, none) ns).source [
    | inl e ↦ rw (e, next_entry) refl
    | inr (i, n, g, w, e) ↦ rw (e, next_entry) (All-get (λ n. IsMac n.mac) ns i n macs g)
  ]

  choose-macs :
      (k : ℕ) (chosen : List Entry)
      → All HasMac chosen
      → All HasMac (choose k chosen ns) × (length (choose k chosen ns) ≡ k + length chosen)
  unfolding choose
  choose-macs zero chosen h = (h, omega arith)
  choose-macs (suc k) chosen h =
      let (all, len) =
        choose-macs k (chosen ++ next_entry chosen ns ∷ [])
          (All-snoc HasMac chosen (next_entry chosen ns) h (next_entry-HasMac chosen)) in
      (all, omega (arith, len, length-append chosen (next_entry chosen ns ∷ [])))

length-put_entries :
    (es : List Entry) (rest : Bytes)
    → All HasMac es
    → length (put_entries es rest) ≡ 7 * length es + length rest
length-put_entries [] rest h = omega arith
length-put_entries (e ∷ es) rest h = omega (
  arith,
  length-append e.mac (put_i8 e.rssi (put_entries es rest)),
  h.0,
  length-put_entries es rest h.1,
)

put_entries-append :
    (xs ys : List Entry) (rest : Bytes)
    → put_entries (xs ++ ys) rest ≡ put_entries xs (put_entries ys rest)
put_entries-append [] ys rest = refl
put_entries-append (x ∷ xs) ys rest =
    ap (λ t. x.mac ++ put_i8 x.rssi t) (put_entries-append xs ys rest)

replicate-HasMac : (k : ℕ) → All HasMac (replicate k no_entry)
replicate-HasMac zero = tt
replicate-HasMac (suc k) = (refl, replicate-HasMac k)

entries_size :
    (ns : Table) (macs : All (λ n. IsMac n.mac) ns) (k : ℕ)
    → k ≤ udp_neighbors
    → length (put_entries (choose k [] ns ++ replicate (udp_neighbors - k) no_entry) []) ≡ 56
entries_size ns macs k h =
    let (all, len) = choose-macs ns macs k [] tt in
    omega (
      arith,
      len,
      length-replicate (udp_neighbors - k) no_entry,
      ap length (put_entries-append (choose k [] ns) (replicate (udp_neighbors - k) no_entry) []),
      length-put_entries (choose k [] ns) (put_entries (replicate (udp_neighbors - k) no_entry) [])
          all,
      length-put_entries (replicate (udp_neighbors - k) no_entry) [] (replicate-HasMac _),
    )

-- The message has 81 bytes, with the sum of the first 79 in the last two, for six-byte addresses
-- of the node and of all slots and a color of three bytes.
pub prepare_udp_message_lem :
    (own : Mac) (s : NodeState) (ns : Table)
    → IsMac own
    → length s.color ≡ 3
    → All (λ n. IsMac n.mac) ns
    → (length (prepare_udp_message own s ns) ≡ 81)
      × (verify_at udp_checksum_offset (prepare_udp_message own s ns) ≡ true)
unfolding prepare_udp_message udp_body select_neighbors
prepare_udp_message_lem own s ns o c macs = (
  omega (arith, length-sealed udp_checksum_offset body [], size),
  verify-sealed udp_checksum_offset body [] size,
)
  where
    body : Bytes
    body = udp_body own s (select_neighbors ns)

    size : length body ≡ udp_checksum_offset
    size =
        rw (length-append own, o, length-append s.color, c)
          (omega (arith, entries_size ns macs (copy_count ns) (ground arith)))
