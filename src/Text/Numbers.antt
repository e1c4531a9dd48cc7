-- ===== src/Text/Numbers.antt =====
-- The numbers that `printf` writes in decimal are read back.
use mesh_visualization.Prelude.{
  ℕ, zero, suc, ◌+◌, ◌-◌, ◌*◌, ◌/◌, ◌%◌, ◌^◌, ◌≤◌, ◌<◌, ◌≡◌, refl, ap, ◌∙◌, inl, inr, true, false,
  some, [], ◌∷◌, ◌++◌, arith, ltb, ◌==◌, Bool-cases, All, Bytes,
}
use mesh_visualization.Printf.{digits, decimal}
use mesh_visualization.Text.{
  is_space, skip_ws, is_digit, read_digits, read_unsigned, with_sign, read_signed, scan_uint8,
}

-- 10 ^ digits.
abbrev pub bound : ℕ → ℕ
bound zero = 1
bound (suc f) = 10 * bound f

digits-append : (f n : ℕ) (acc rest : Bytes) → digits f n acc ++ rest ≡ digits f n (acc ++ rest)
unfolding digits
digits-append zero n acc rest = refl
digits-append (suc f) n acc rest = elim (Bool-cases (n / 10 == 0)) [
  | inl e ↦ rw e refl
  | inr e ↦ rw e (digits-append f (n / 10) ((48 + n % 10) ∷ acc) rest)
]

read_digits_step :
    (m d : ℕ) (cs : Bytes) → d < 10 → read_digits m ((48 + d) ∷ cs) ≡ read_digits (m * 10 + d) cs
unfolding read_digits
read_digits_step m d cs h =
    let digit : is_digit (48 + d) ≡ true = ground arith in
    let value : 48 + d - 48 ≡ d = omega arith in rw (digit, value) refl

read_digits-digits :
    (f n : ℕ) (acc : Bytes) → n < bound f → read_digits 0 (digits f n acc) ≡ read_digits n acc
unfolding digits
read_digits-digits zero n acc h = let e : 0 ≡ n = omega arith in rw e refl
read_digits-digits (suc f) n acc h = elim (Bool-cases (n / 10 == 0)) [
  | inl e ↦
      let value : 0 * 10 + n % 10 ≡ n = ground arith in
      rw e (read_digits_step 0 (n % 10) acc (omega arith) ∙ ap (λ m. read_digits m acc) value)
  | inr e ↦
      let value : n / 10 * 10 + n % 10 ≡ n = omega arith in
      rw e (
        read_digits-digits f (n / 10) ((48 + n % 10) ∷ acc) (omega arith)
        ∙ read_digits_step (n / 10) (n % 10) acc (omega arith)
        ∙ ap (λ m. read_digits m acc) value)
]

-- The text begins with a digit.
abbrev BeginsWithDigit : Bytes → Type 0
BeginsWithDigit [] = ⊥
BeginsWithDigit (c ∷ cs) = (48 ≤ c) × (c ≤ 57)

digits-BeginsWithDigit :
    (f n : ℕ) (acc : Bytes) → BeginsWithDigit acc → BeginsWithDigit (digits f n acc)
unfolding digits
digits-BeginsWithDigit zero n acc h = h
digits-BeginsWithDigit (suc f) n acc h = elim (Bool-cases (n / 10 == 0)) [
  | inl e ↦ rw e (omega arith, omega arith)
  | inr e ↦
      rw e (digits-BeginsWithDigit f (n / 10) ((48 + n % 10) ∷ acc) (omega arith, omega arith))
]

decimal-BeginsWithDigit : (n : ℕ) (rest : Bytes) → BeginsWithDigit (digits 10 n rest)
unfolding digits
decimal-BeginsWithDigit n rest = elim (Bool-cases (n / 10 == 0)) [
  | inl e ↦ rw e (omega arith, omega arith)
  | inr e ↦
      rw e (digits-BeginsWithDigit 9 (n / 10) ((48 + n % 10) ∷ rest) (omega arith, omega arith))
]

read-digit :
    (p : Bytes)
    → BeginsWithDigit p
    → read_signed (skip_ws p) ≡ with_sign false (some (read_digits 0 p))
unfolding read_signed read_unsigned skip_ws read_digits
read-digit [] h = absurd h
read-digit (c ∷ cs) h =
    let digit : is_digit c ≡ true = ground arith in
    let plain : is_space c ≡ false = ground arith in
    let minus : (c == b'-') ≡ false = ground arith in
    let plus : (c == b'+') ≡ false = ground arith in
    rw (plain, minus, plus, digit, (let same : 0 * 10 + (c - 48) ≡ c - 48 = omega arith in same))
      refl

-- No digit follows.
abbrev NoDigit : Bytes → Type 0
NoDigit [] = Unit
NoDigit (c ∷ cs) = is_digit c ≡ false

read_digits-NoDigit : (n : ℕ) (rest : Bytes) → NoDigit rest → read_digits n rest ≡ (n, rest)
unfolding read_digits
read_digits-NoDigit n [] h = refl
read_digits-NoDigit n (c ∷ cs) h = rw h refl

read_signed-decimal :
    (n : ℕ) (rest : Bytes)
    → n < bound 10
    → NoDigit rest
    → read_signed (skip_ws (decimal n ++ rest)) ≡ some (false, n, rest)
read_signed-decimal n rest h e =
    ap (λ p. read_signed (skip_ws p)) (digits-append 10 n [] rest)
    ∙ read-digit (digits 10 n rest) (decimal-BeginsWithDigit n rest)
    ∙ ap (λ r. with_sign false (some r))
        (read_digits-digits 10 n rest h ∙ read_digits-NoDigit n rest e)

-- `%hhu` reads what `%u` writes of a byte.
pub scan_uint8-decimal :
    (n : ℕ) (rest : Bytes)
    → n < 256
    → NoDigit rest
    → scan_uint8 (decimal n ++ rest) ≡ some (n, rest)
unfolding scan_uint8
scan_uint8-decimal n rest h e =
    let small : ltb (2 ^ 32 - 1) n ≡ false = ground arith in
    let byte : n % 256 ≡ n = omega arith in
    rw (read_signed-decimal n rest (omega arith) e, small, byte) refl

-- A byte of numbers with commas between them.
abbrev pub IsNumberByte : ℕ → Type 0
IsNumberByte c = (44 ≤ c) × (c ≤ 57)

digits-IsNumberByte :
    (f n : ℕ) (acc : Bytes) → All IsNumberByte acc → All IsNumberByte (digits f n acc)
unfolding digits
digits-IsNumberByte zero n acc h = h
digits-IsNumberByte (suc f) n acc h =
    let more : All IsNumberByte ((48 + n % 10) ∷ acc) = ((omega arith, omega arith), h) in
    elim (Bool-cases (n / 10 == 0)) [
      | inl e ↦ rw e more
      | inr e ↦ rw e (digits-IsNumberByte f (n / 10) ((48 + n % 10) ∷ acc) more)
    ]

pub decimal-IsNumberByte : (n : ℕ) → All IsNumberByte (decimal n)
decimal-IsNumberByte n = digits-IsNumberByte 10 n [] tt
