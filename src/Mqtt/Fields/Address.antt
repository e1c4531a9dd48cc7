-- ===== src/Mqtt/Fields/Address.antt =====
-- src/mqtt_handler.cpp: `parse_mac_string` reads the texts that MACSTR writes.
use mesh_visualization.Prelude.{
  ℕ, zero, suc, ◌+◌, ◌*◌, ◌/◌, ◌%◌, ◌≤◌, ◌<◌, ◌≡◌, refl, true, false, some, [], ◌∷◌, ◌++◌, map,
  arith, ◌==◌, length, All, Bytes, codes,
}
use mesh_visualization.State.{Mac}
use mesh_visualization.Printf.{nibble, join}
use mesh_visualization.Text.{skip_ws, hex_digit, second_digit, read_hex, scan_hex, expect}
use mesh_visualization.Wire.RoundTrip.{IsMac}
use mesh_visualization.Mqtt.{mac_text}
use mesh_visualization.Mqtt.Fields.{scan_bytes, all_fit, parse_mac_string}

abbrev pub IsByte : ℕ → Type 0
IsByte b = b < 256

-- The two digits of a byte.
abbrev hex : ℕ → Bytes
hex b = nibble (b / 16 % 16) ∷ nibble (b % 16) ∷ []

hex_digit-nibble : (n : ℕ) → n < 16 → hex_digit (nibble n) ≡ some n
hex_digit-nibble n h = ground arith

nibble_range : (n : ℕ) → n < 16 → (48 ≤ nibble n) × (nibble n < 103)
nibble_range n h = (ground arith, ground arith)

skip_ws-printed : (c : ℕ) (cs : Bytes) → 48 ≤ c → skip_ws (c ∷ cs) ≡ c ∷ cs
unfolding skip_ws
skip_ws-printed c cs h = ground arith

read_hex-nibble : (n : ℕ) (rest : Bytes) → n < 16 → read_hex (nibble n ∷ rest) ≡ second_digit n rest
unfolding read_hex
read_hex-nibble n rest h =
    let minus : (nibble n == b'-') ≡ false = ground (arith, nibble_range n h) in
    let plus : (nibble n == b'+') ≡ false = ground (arith, nibble_range n h) in
    rw (minus, plus, hex_digit-nibble n h) refl

second_digit-nibble :
    (first n : ℕ) (rest : Bytes)
    → n < 16
    → second_digit first (nibble n ∷ rest) ≡ some (first * 16 + n, rest)
second_digit-nibble first n rest h = ground arith

scan_hex-hex : (b : ℕ) (rest : Bytes) → IsByte b → scan_hex (hex b ++ rest) ≡ some (b, rest)
unfolding scan_hex
scan_hex-hex b rest h =
    let high : b / 16 % 16 < 16 = omega arith in
    let low : b % 16 < 16 = omega arith in
    let value : b / 16 % 16 * 16 + b % 16 ≡ b = omega arith in
    rw
      (
        skip_ws-printed (nibble (b / 16 % 16)) (nibble (b % 16) ∷ rest) ((nibble_range _ high).0),
        read_hex-nibble (b / 16 % 16) (nibble (b % 16) ∷ rest) high,
        second_digit-nibble (b / 16 % 16) (b % 16) rest low,
        value,
      )
      refl

scan_bytes-text :
    (k b : ℕ) (bs : Mac)
    → length bs ≡ k
    → IsByte b
    → All IsByte bs
    → scan_bytes k (hex b ++ join (map (λ p. codes ":" ++ p) (map hex bs))) ≡ some (b ∷ bs)
unfolding scan_bytes expect
scan_bytes-text zero b [] size h all = rw (scan_hex-hex b [] h) refl
scan_bytes-text zero b (c ∷ bs) size h all = absurd (omega arith)
scan_bytes-text (suc k) b [] size h all = absurd (omega arith)
scan_bytes-text (suc k) b (c ∷ bs) size h all =
    rw
      (
        scan_hex-hex b (join (map (λ p. codes ":" ++ p) (map hex (c ∷ bs)))) h,
        scan_bytes-text k c bs (omega arith) all.0 all.1,
      )
      refl

all_fit-IsByte : (bs : Mac) → All IsByte bs → all_fit bs ≡ true
all_fit-IsByte [] h = refl
all_fit-IsByte (b ∷ bs) h = ground (arith, all_fit-IsByte bs h.1)

-- An address of six bytes, written by MACSTR, is read back by `parse_mac_string`.
pub parse_mac_string-mac_text :
    (mac : Mac) → IsMac mac → All IsByte mac → parse_mac_string (mac_text mac) ≡ some mac
unfolding parse_mac_string
parse_mac_string-mac_text [] size all = absurd (omega arith)
parse_mac_string-mac_text (b ∷ bs) size all =
    rw (scan_bytes-text 5 b bs (omega arith) all.0 all.1, all_fit-IsByte (b ∷ bs) all) refl

-- The bytes of such a text are digits, letters and colons.
abbrev pub IsPrinted : ℕ → Type 0
IsPrinted c = 48 ≤ c

rest-IsPrinted : (bs : Mac) → All IsPrinted (join (map (λ p. codes ":" ++ p) (map hex bs)))
rest-IsPrinted [] = tt
rest-IsPrinted (b ∷ bs) = (
  omega arith,
  (
    (nibble_range (b / 16 % 16) (omega arith)).0,
    ((nibble_range (b % 16) (omega arith)).0, rest-IsPrinted bs),
  ),
)

pub mac_text-IsPrinted : (mac : Mac) → All IsPrinted (mac_text mac)
mac_text-IsPrinted [] = tt
mac_text-IsPrinted (b ∷ bs) = (
  (nibble_range (b / 16 % 16) (omega arith)).0,
  ((nibble_range (b % 16) (omega arith)).0, rest-IsPrinted bs),
)

length_rest : (bs : Mac) → length (join (map (λ p. codes ":" ++ p) (map hex bs))) ≡ 3 * length bs
length_rest [] = omega arith
length_rest (b ∷ bs) = omega (arith, length_rest bs)

pub length-mac_text : (mac : Mac) → IsMac mac → length (mac_text mac) ≡ 17
length-mac_text [] h = absurd (omega arith)
length-mac_text (b ∷ bs) h = omega (arith, length_rest bs)
