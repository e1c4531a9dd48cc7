-- ===== src/Beacon/Elements.antt =====
-- src/beacon_monitor.cpp: the loop of `extract_beacon_info` ends and stays inside of the frame.
use mesh_visualization.Prelude.{
  ℕ, zero, suc, ◌+◌, ◌-◌, ◌*◌, ◌%◌, ◌^◌, ◌≤◌, ◌<◌, ◌≡◌, refl, ◌⊎◌, inl, inr, true, Option, none,
  some, [], ◌∷◌, arith, ltb, leb, ◌==◌, if◌then◌else◌, Bool-cases, length, take, drop, replicate,
  All, length-append, length-take, length-replicate, Bytes,
}
use mesh_visualization.State.{Mac}
use mesh_visualization.Beacon.{
  ◌>>=◌, read_byte, read_bytes, element, parse_elements, Beacon, store_ssid, accept, extract_fields,
  extract_beacon_info, is_beacon_frame, is_valid_mac,
}
use mesh_visualization.Beacon.Address.{IsByte}

read_byte_in :
    (xs : Bytes) (i : ℕ)
    → i < length xs
    → All IsByte xs
    → (x : ℕ) × (read_byte xs i ≡ some x) × (x < 256)
read_byte_in [] i h b = absurd (omega arith)
read_byte_in (x ∷ xs) zero h b = (x, refl, b.0)
read_byte_in (x ∷ xs) (suc i) h b = read_byte_in xs i (omega arith) b.1

length-drop-le : (n : ℕ) (xs : Bytes) → length xs ≡ length (drop n xs) + n ⊎ (length xs < n)
length-drop-le zero xs = inl (omega arith)
length-drop-le (suc n) [] = inr (omega arith)
length-drop-le (suc n) (x ∷ xs) = elim (length-drop-le n xs) [
  | inl e ↦ inl (omega arith)
  | inr h ↦ inr (omega arith)
]

-- What is read has the length that was asked for.
read_bytes_in :
    (xs : Bytes) (i n : ℕ)
    → i + n ≤ length xs
    → (ys : Bytes) × (read_bytes xs i n ≡ some ys) × (length ys ≡ n)
read_bytes_in xs i n h =
    let e : leb (i + n) (length xs) ≡ true = ground arith in
    (take n (drop i xs), rw e refl, omega (arith, length-take n (drop i xs), length-drop-le i xs))

-- A result of the loop with an SSID of 32 bytes at most.
abbrev Parsed : Option (Option Bytes) → Type 0
Parsed r = (r ≡ some none) ⊎ ((ssid : Bytes) × (r ≡ some (some ssid)) × (length ssid ≤ 32))

element-Parsed :
    (frame : Bytes) (len id ie_len next : ℕ) (rest : Option (Option Bytes))
    → len ≤ length frame
    → (next + ie_len ≤ len → Parsed rest)
    → Parsed (element frame len id ie_len next rest)
element-Parsed frame len id ie_len next rest h go = elim (Bool-cases (ltb len (next + ie_len))) [
  | inl t ↦ rw t (inl refl)
  | inr t ↦ rw t (elim (Bool-cases (id == 0)) [
    | inl z ↦
        let n = (if ltb ie_len 32 then ie_len else 32) in
        let (ys, e, l) = read_bytes_in frame next n (ground arith) in
        rw (z, e) (inr (ys, refl, ground arith))
    | inr z ↦ rw z (go (ground arith))
  ])
]

-- With a round for every byte that is left the loop returns.
parse_elements-Parsed :
    (fuel : ℕ) (frame : Bytes) (len offset : ℕ)
    → len ≤ length frame
    → len < 2 ^ 16
    → All IsByte frame
    → offset ≤ len
    → len < fuel + offset
    → Parsed (parse_elements fuel frame len offset)
unfolding parse_elements
parse_elements-Parsed zero frame len offset h w b o f = absurd (omega arith)
parse_elements-Parsed (suc fuel) frame len offset h w b o f =
    elim (Bool-cases (leb (offset + 2) len)) [
      | inr t ↦ rw t (inl refl)
      | inl t ↦
          let (id, e, _) = read_byte_in frame offset (ground arith) b in
          let (ie_len, e', k) = read_byte_in frame (offset + 1) (ground arith) b in
          let next = (offset + 2) % 2 ^ 16 in
          let over = (next + ie_len) % 2 ^ 16 in
          rw (t, e, e')
            (element-Parsed frame len id ie_len next (parse_elements fuel frame len over) h
              (λ p. parse_elements-Parsed fuel frame len over h w b (ground arith) (ground arith)))
    ]

-- What `extract_beacon_info` makes of a frame: nothing, or a beacon with the valid address of the
-- frame and an SSID that fits its array with the closing zero.
abbrev pub Extracted : Bytes → Option (Option Beacon) → Type 0
Extracted frame r =
    (r ≡ some none)
    ⊎ ((b : Beacon) × (r ≡ some (some b))
        × (b.mac ≡ take 6 (drop 16 frame))
        × (is_valid_mac b.mac ≡ true)
        × (b.ssid_len ≤ 32)
        × (length b.ssid ≡ 33))

store_ssid_fits :
    (mac : Mac) (ssid : Option Bytes)
    → Parsed (some ssid)
    → let b = store_ssid mac ssid in (b.mac ≡ mac) × (b.ssid_len ≤ 32) × (length b.ssid ≡ 33)
store_ssid_fits mac none p = (refl, omega arith, refl)
store_ssid_fits mac (some ssid) (inl e) = cc
store_ssid_fits mac (some ssid) (inr (s, e, l)) =
    let k : length ssid ≤ 32 = ground arith in
    (
      refl,
      k,
      omega (
        arith,
        length-append ssid (replicate (33 - length ssid) 0),
        length-replicate {A = ℕ} (33 - length ssid) 0,
      ),
    )

accept-Extracted :
    (frame : Bytes) (ssid : Option Bytes)
    → Parsed (some ssid)
    → Extracted frame (some (accept (take 6 (drop 16 frame)) ssid))
accept-Extracted frame ssid p = elim (Bool-cases (is_valid_mac (take 6 (drop 16 frame)))) [
  | inr t ↦ rw t (inl refl)
  | inl t ↦
      let mac = take 6 (drop 16 frame) in
      let (m, l, k) = store_ssid_fits mac ssid p in
      rw t (inr (store_ssid mac ssid, refl, m, rw m t, l, k))
]

extract_fields-Extracted :
    (frame : Bytes) (len : ℕ)
    → len ≤ length frame
    → len < 2 ^ 16
    → All IsByte frame
    → 36 ≤ len
    → Extracted frame (extract_fields frame len)
unfolding extract_fields
extract_fields-Extracted frame len h w b l =
    go (parse_elements (suc len) frame len 36)
      (parse_elements-Parsed (suc len) frame len 36 h w b l (omega arith))
  where
    go :
        (r : Option (Option Bytes))
        → Parsed r
        → Extracted frame (read_bytes frame 16 6 >>= λ mac. r >>= λ ssid. some (accept mac ssid))
    go none (inl e) = cc
    go none (inr (s, e, l)) = cc
    go (some ssid) p =
        let e : leb (16 + 6) (length frame) ≡ true = ground arith in
        rw e (accept-Extracted frame ssid p)

-- On a frame of `len` bytes, at most 65535 and each below 256, `extract_beacon_info` returns and
-- reads no byte outside of the frame; a beacon that it reports has the valid address at byte 16 of
-- the frame, and an SSID of at most 32 bytes in its array of 33.
pub extract_beacon_info-Extracted :
    (frame : Bytes) (len : ℕ)
    → len ≤ length frame
    → len < 2 ^ 16
    → All IsByte frame
    → Extracted frame (extract_beacon_info frame len)
unfolding extract_beacon_info
extract_beacon_info-Extracted frame len h w b = elim (Bool-cases (ltb len 36)) [
  | inl t ↦ rw t (inl refl)
  | inr t ↦
      let (low, e, _) = read_byte_in frame 0 (ground arith) b in
      let (high, e', _) = read_byte_in frame 1 (ground arith) b in
      rw (t, e, e')
        (elim (Bool-cases (is_beacon_frame (low + 256 * high))) [
          | inl k ↦ rw k (extract_fields-Extracted frame len h w b (ground arith))
          | inr k ↦ rw k (inl refl)
        ])
]
