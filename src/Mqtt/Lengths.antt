-- ===== src/Mqtt/Lengths.antt =====
-- src/mqtt_handler.cpp: how long the texts of numbers, addresses and neighbors are.
use mesh_visualization.Prelude.{
  ℕ, zero, suc, ◌+◌, ◌*◌, ◌/◌, ◌%◌, ◌≤◌, ◌<◌, ◌≡◌, inl, inr, List, [], ◌∷◌, ◌++◌, map, arith, ltb,
  if◌then◌else◌, Bool-cases, length, All, length-append, Bytes, codes,
}
use mesh_visualization.Prelude.Int.{ℤ, pos, negsuc, pos_part, neg_part}
use mesh_visualization.State.{Neighbor}
use mesh_visualization.Printf.{digits, decimal, signed, join}
use mesh_visualization.Wire.RoundTrip.{IsMac}
use mesh_visualization.Mqtt.{mac_text, neighbor_json}
use mesh_visualization.Mqtt.Fields.Address.{length-mac_text}

length-digits-le : (f n : ℕ) (acc : Bytes) → length (digits f n acc) ≤ length acc + f
unfolding digits
length-digits-le zero n acc = omega arith
length-digits-le (suc f) n acc = ground (arith, length-digits-le f (n / 10) ((48 + n % 10) ∷ acc))

length-digits-ge : (f n : ℕ) (acc : Bytes) → length acc ≤ length (digits f n acc)
unfolding digits
length-digits-ge zero n acc = omega arith
length-digits-ge (suc f) n acc = ground (arith, length-digits-ge f (n / 10) ((48 + n % 10) ∷ acc))

pub length-decimal-le : (n : ℕ) → length (decimal n) ≤ 10
length-decimal-le n = omega (arith, length-digits-le 10 n [])

digits_one : (f n : ℕ) (acc : Bytes) → n < 10 → length (digits (suc f) n acc) ≡ length acc + 1
unfolding digits
digits_one f n acc h = ground arith

digits_more :
    (f n : ℕ) (acc : Bytes)
    → 10 ≤ n
    → digits (suc f) n acc ≡ digits f (n / 10) ((48 + n % 10) ∷ acc)
unfolding digits
digits_more f n acc h = ground arith

digits_present : (f n : ℕ) (acc : Bytes) → length acc + 1 ≤ length (digits (suc f) n acc)
unfolding digits
digits_present f n acc = ground (arith, length-digits-ge f (n / 10) ((48 + n % 10) ∷ acc))

-- Numbers of at least two and of at most three digits.
decimal_two : (n : ℕ) → 10 ≤ n → 2 ≤ length (decimal n)
decimal_two n h = rw (digits_more 9 n [] h) (digits_present 8 (n / 10) ((48 + n % 10) ∷ []))

below_hundred :
    (f n : ℕ) (acc : Bytes) → n < 100 → length (digits (suc (suc f)) n acc) ≤ length acc + 2
below_hundred f n acc h = elim (Bool-cases (ltb n 10)) [
  | inl e ↦ omega (arith, digits_one (suc f) n acc (ground arith))
  | inr e ↦
      let acc' = (48 + n % 10) ∷ acc in
      rw (digits_more (suc f) n acc (ground arith))
        (omega (arith, digits_one f (n / 10) acc' (omega arith)))
]

decimal_three : (n : ℕ) → n < 1000 → length (decimal n) ≤ 3
decimal_three n h = elim (Bool-cases (ltb n 10)) [
  | inl e ↦ omega (arith, digits_one 9 n [] (ground arith))
  | inr e ↦
      rw (digits_more 9 n [] (ground arith))
        (below_hundred 7 (n / 10) ((48 + n % 10) ∷ []) (omega arith))
]

-- The fields of a slot have the ranges of their C types.
pub record InRange (n : Neighbor) : Type 0 where
  pub mac : IsMac n.mac
  pub rssi : (pos_part n.rssi < 128) × (neg_part n.rssi ≤ 128)
  pub value : n.state.value < 256

signed_bound : (z : ℤ) → pos_part z < 128 → neg_part z ≤ 128 → length (signed z) ≤ 4
signed_bound (pos n) p q = omega (arith, decimal_three n (omega arith))
signed_bound (negsuc n) p q = omega (arith, decimal_three (n + 1) (omega arith))

-- A signal of -10 dBm or less.
signed_three : (z : ℤ) → 10 ≤ neg_part z → 3 ≤ length (signed z)
signed_three (pos n) p = absurd (omega arith)
signed_three (negsuc n) p = omega (arith, decimal_two (n + 1) (omega arith))

value_of : Neighbor → ℕ
value_of n = if n.has_state then n.state.value else 0

-- The text of a neighbor is three of its fields and 57 other bytes.
length-neighbor_json :
    (n : Neighbor)
    → IsMac n.mac
    → length (neighbor_json n)
      ≡ 57 + length (signed n.rssi) + length (decimal n.last_seen) + length (decimal (value_of n))
unfolding value_of
length-neighbor_json n h =
    let value = decimal (value_of n) in
    let last = codes ",\"value\":" ++ (value ++ codes "}") in
    let seen = codes ",\"last_seen\":" ++ (decimal n.last_seen ++ last) in
    let signal = codes "\",\"rssi\":" ++ (signed n.rssi ++ seen) in
    omega (
      arith,
      length-mac_text n.mac h,
      length-append (mac_text n.mac) signal,
      length-append (signed n.rssi) seen,
      length-append (decimal n.last_seen) last,
      length-append value (codes "}"),
    )

pub neighbor_json_bound : (n : Neighbor) → InRange n → length (neighbor_json n) ≤ 74
neighbor_json_bound n r =
    let value : value_of n < 1000 = unfold value_of in ground (arith, r.value) in
    omega (
      arith,
      length-neighbor_json n r.mac,
      signed_bound n.rssi r.rssi.0 r.rssi.1,
      length-digits-le 10 n.last_seen [],
      decimal_three (value_of n) value,
    )

-- A signal of -10 dBm or less, heard not within the first ten milliseconds.
pub record IsLong (n : Neighbor) : Type 0 where
  pub mac : IsMac n.mac
  pub rssi : 10 ≤ neg_part n.rssi
  pub last_seen : 10 ≤ n.last_seen

pub neighbor_json_long : (n : Neighbor) → IsLong n → 63 ≤ length (neighbor_json n)
neighbor_json_long n r = omega (
  arith,
  length-neighbor_json n r.mac,
  signed_three n.rssi r.rssi,
  decimal_two n.last_seen r.last_seen,
  digits_present 9 (value_of n) [],
)

-- An array of texts between two sizes.
pub length-separated :
    (texts : List Bytes) (low high : ℕ)
    → All (λ t. (low ≤ length t) × (length t ≤ high)) texts
    → (length texts * (low + 1) ≤ length (join (map (λ p. codes "," ++ p) texts)))
      × (length (join (map (λ p. codes "," ++ p) texts)) ≤ length texts * (high + 1))
length-separated [] low high h = (omega arith, omega arith)
length-separated (t ∷ texts) low high h =
    let rest = length-separated texts low high h.1 in
    let parts = length-append (codes "," ++ t) (join (map (λ p. codes "," ++ p) texts)) in
    (grind (arith, rest, parts), grind (arith, rest, parts))
