-- ===== src/Text.antt =====
-- The functions of the C library by which src/mqtt_handler.cpp and src/main.cpp read texts. A
-- pointer into a text is what stands from there on, and the null pointer is `none`.
use mesh_visualization.Prelude.{
  ℕ, zero, suc, ◌+◌, ◌-◌, ◌*◌, ◌%◌, ◌^◌, ◌≡◌, refl, Bool, true, false, ◌&&◌, ◌||◌, Option, none,
  some, [], ◌∷◌, ltb, leb, ◌==◌, if◌then◌else◌, drop, Bytes,
}
use mesh_visualization.Prelude.Int.{ℤ, pos, sub_ℕ}
pub mod Progress
pub mod Search
pub mod Numbers
use mesh_visualization.Floats.{FloatUnit}

infixl 5 ◌>>=◌
abbrev pub ◌>>=◌ {ℓ κ} : {A : Type ℓ} {B : Type κ} → Option A → (A → Option B) → Option B
none >>= f = none
some a >>= f = f a

pub >>=-eq-some {ℓ κ} :
    {A : Type ℓ} {B : Type κ} (m : Option A) (f : A → Option B) {b : B}
    → (m >>= f) ≡ some b
    → (a : A) × (m ≡ some a) × (f a ≡ some b)
>>=-eq-some none f h = cc
>>=-eq-some (some a) f h = (a, refl, h)

-- The text in a buffer of bytes: up to the first zero.
unfoldable pub c_string : Bytes → Bytes
c_string [] = []
c_string (c ∷ cs) = if c == 0 then [] else c ∷ c_string cs

-- `isspace`.
abbrev pub is_space : ℕ → Bool
is_space c = c == b' ' || (leb 9 c && leb c 13)

unfoldable pub skip_ws : Bytes → Bytes
skip_ws [] = []
skip_ws (c ∷ cs) = if is_space c then skip_ws cs else c ∷ cs

-- `strncmp(p, text, strlen(text)) == 0`.
unfoldable pub starts : Bytes → Bytes → Bool
starts [] p = true
starts (c ∷ cs) [] = false
starts (c ∷ cs) (d ∷ ds) = c == d && starts cs ds

unfoldable pub strstr : Bytes → Bytes → Option Bytes
unfolding starts
strstr [] needle = if starts needle [] then some [] else none
strstr (c ∷ cs) needle =
    let later = strstr cs needle in if starts needle (c ∷ cs) then some (c ∷ cs) else later

unfoldable pub strchr : Bytes → ℕ → Option Bytes
strchr [] c = none
strchr (d ∷ ds) c = let later = strchr ds c in if d == c then some (d ∷ ds) else later

-- One given byte at the start.
unfoldable pub expect : ℕ → Bytes → Option Bytes
expect c [] = none
expect c (d ∷ ds) = if d == c then some ds else none

abbrev pub is_digit : ℕ → Bool
is_digit c = leb 48 c && leb c 57

unfoldable pub read_digits : ℕ → Bytes → ℕ × Bytes
read_digits n [] = (n, [])
read_digits n (c ∷ cs) =
    let more = read_digits (n * 10 + (c - 48)) cs in if is_digit c then more else (n, c ∷ cs)

unfoldable pub read_unsigned : Bytes → Option (ℕ × Bytes)
unfolding read_digits
read_unsigned [] = none
read_unsigned (c ∷ cs) = if is_digit c then some (read_digits (c - 48) cs) else none

-- A decimal number behind spaces and a sign: whether the sign is a minus, and the digits.
abbrev pub with_sign : Bool → Option (ℕ × Bytes) → Option (Bool × ℕ × Bytes)
with_sign minus none = none
with_sign minus (some (n, rest)) = some (minus, n, rest)

unfoldable pub read_signed : Bytes → Option (Bool × ℕ × Bytes)
unfolding read_unsigned
read_signed [] = none
read_signed (c ∷ cs) =
    if c == b'-'
    then with_sign true (read_unsigned cs)
    else if c == b'+'
    then with_sign false (read_unsigned cs)
    else with_sign false (read_unsigned (c ∷ cs))

-- A `long` of 32 bits, the nearest to the number read.
abbrev long_of : Bool → ℕ → ℤ
long_of false n = pos (if ltb n (2 ^ 31) then n else 2 ^ 31 - 1)
long_of true n = sub_ℕ 0 (if ltb n (2 ^ 31) then n else 2 ^ 31)

-- `strtol` in base ten, and `%d` of `sscanf`.
unfoldable pub strtol : Bytes → Option (ℤ × Bytes)
unfolding skip_ws read_signed
strtol p = do (minus, n, rest) ← read_signed (skip_ws p); some (long_of minus n, rest)

unfoldable pub atoi : Bytes → ℤ
unfolding strtol
atoi p = elim (strtol p) [ none ↦ pos 0 | some (n, rest) ↦ n ]

-- The `unsigned long` of a number read.
abbrev ulong_of : Bool → ℕ → ℕ
ulong_of minus n =
    if ltb (2 ^ 32 - 1) n then 2 ^ 32 - 1 else if minus then (2 ^ 32 - n) % 2 ^ 32 else n

-- `%hhu`.
unfoldable pub scan_uint8 : Bytes → Option (ℕ × Bytes)
unfolding skip_ws read_signed
scan_uint8 p = do (minus, n, rest) ← read_signed (skip_ws p); some (ulong_of minus n % 256, rest)

abbrev pub hex_digit : ℕ → Option ℕ
hex_digit c =
    if is_digit c
    then some (c - 48)
    else if leb b'a' c && leb c b'f'
    then some (c - 87)
    else if leb b'A' c && leb c b'F'
    then some (c - 55)
    else none

-- The second of two bytes: a digit, the `x` of an incomplete "0x", or something else.
abbrev pub second_digit : ℕ → Bytes → Option (ℕ × Bytes)
second_digit first [] = some (first, [])
second_digit first (c ∷ cs) = elim (hex_digit c) [
  | some d ↦ some (first * 16 + d, cs)
  | none ↦ if first == 0 && (c == b'x' || c == b'X') then none else some (first, c ∷ cs)
]

-- The digit behind a sign.
abbrev signed_digit : Bool → Bytes → Option (ℕ × Bytes)
signed_digit minus [] = none
signed_digit minus (c ∷ cs) = do
  d ← hex_digit c
  some (if minus then (2 ^ 32 - d) % 2 ^ 32 else d, cs)

-- `%02x` of `sscanf`: at most two bytes, a sign included.
unfoldable pub read_hex : Bytes → Option (ℕ × Bytes)
read_hex [] = none
read_hex (c ∷ cs) =
    if c == b'-'
    then signed_digit true cs
    else if c == b'+'
    then signed_digit false cs
    else do d ← hex_digit c; second_digit d cs

unfoldable pub scan_hex : Bytes → Option (ℕ × Bytes)
unfolding skip_ws read_hex
scan_hex p = read_hex (skip_ws p)

-- A float that takes at least one byte, and what follows it.
abbrev pub float_at : Bytes → Option (ℕ × ℕ) → Option (ℕ × Bytes)
float_at p none = none
float_at p (some (value, size)) = if size == 0 then none else some (value, drop size p)

unfoldable pub strtof : FloatUnit → Bytes → Option (ℕ × Bytes)
strtof fpu p = float_at p (fpu.strtof p)

-- `%f`.
unfoldable pub scan_float : FloatUnit → Bytes → Option (ℕ × Bytes)
unfolding skip_ws
scan_float fpu p = float_at (skip_ws p) (fpu.scan (skip_ws p))

-- `%63s` and the like: the bytes up to a space, at most `size` of them.
unfoldable pub take_word : ℕ → Bytes → Bytes × Bytes
take_word zero p = ([], p)
take_word (suc size) [] = ([], [])
take_word (suc size) (c ∷ cs) =
    let more = take_word size cs in if is_space c then ([], c ∷ cs) else (c ∷ more.0, more.1)

-- `%255[^\n]` and the like: the bytes up to `stop`, at most `size` of them.
unfoldable pub take_until : ℕ → ℕ → Bytes → Bytes
take_until stop zero p = []
take_until stop (suc size) [] = []
take_until stop (suc size) (c ∷ cs) = if c == stop then [] else c ∷ take_until stop size cs
