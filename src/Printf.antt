-- ===== src/Printf.antt =====
-- `snprintf` and `strlcpy` into fixed buffers, as state_manager.cpp and mqtt_handler.cpp use them,
-- and how `printf` writes numbers.
-- A buffer is the C string that it holds; the texts that are printed hold no zero byte.
use mesh_visualization.Prelude.{
  ℕ, zero, suc, ◌+◌, ◌-◌, ◌/◌, ◌%◌, ◌≤◌, ◌<◌, ◌≡◌, refl, sym, ap, ◌∙◌, ◌⊎◌, inl, inr, true, List,
  [], ◌∷◌, ◌++◌, map, arith, ltb, ◌==◌, if◌then◌else◌, Bool-cases, length, take, length-append,
  Bytes,
}
use mesh_visualization.Prelude.Int.{ℤ, pos, negsuc}
use mathlib.Core.List.{append-nil, append_assoc}

-- `%u` of a number of at most ten digits, which 32 bits are.
unfoldable pub digits : ℕ → ℕ → Bytes → Bytes
digits zero n acc = acc
digits (suc fuel) n acc =
    let digit = 48 + n % 10 in
    let more = digits fuel (n / 10) (digit ∷ acc) in if n / 10 == 0 then digit ∷ acc else more

abbrev pub decimal : ℕ → Bytes
decimal n = digits 10 n []

-- `%d`.
abbrev pub signed : ℤ → Bytes
signed (pos n) = decimal n
signed (negsuc n) = b'-' ∷ decimal (n + 1)

abbrev pub nibble : ℕ → ℕ
nibble n = if ltb n 10 then 48 + n else 87 + n

-- A buffer's text and the code's running `offset`.
abbrev pub Buffer : Type 0
Buffer = Bytes × ℕ

-- `offset += snprintf(buffer + offset, size - offset, ...)` for the text `piece`: what fits is
-- written behind `offset`, and the full length is returned.
unfoldable pub append : ℕ → Buffer → Bytes → Buffer
append size (text, offset) piece =
    (take offset text ++ take (size - 1 - offset) piece, offset + length piece)

-- A loop of such calls that ends when `offset < size` fails.
unfoldable pub append_all : ℕ → Buffer → List Bytes → Buffer
unfolding append
append_all size b [] = b
append_all size b (piece ∷ pieces) =
    append_all size (if ltb b.1 size then append size b piece else b) pieces

-- `if (offset < size) snprintf(buffer + offset, size - offset, ...)`, the end of a list.
unfoldable pub close : ℕ → Buffer → Bytes → Bytes
unfolding append
close size b piece = (if ltb b.1 size then append size b piece else b).0

-- `strlcpy(out, text, size)`.
abbrev pub strlcpy : ℕ → Bytes → Bytes
strlcpy size text = take (size - 1) text

abbrev pub join : List Bytes → Bytes
join [] = []
join (piece ∷ pieces) = piece ++ join pieces

-- A separator before every text but the first.
abbrev pub separated : Bytes → List Bytes → List Bytes
separated sep [] = []
separated sep (piece ∷ pieces) = piece ∷ map (λ p. sep ++ p) pieces

-- The buffer holds what fits of `all`, and the offset is its length, or is past the buffer.
record Holds (size : ℕ) (b : Buffer) (all : Bytes) : Type 0 where
  text : b.0 ≡ take (size - 1) all
  offset : (b.1 ≡ length all) ⊎ ((size ≤ b.1) × (size ≤ length all))

module _ (size : ℕ) (positive : 0 < size) where
  take-take-append :
      (all piece : Bytes) (m : ℕ)
      → length all ≤ m
      → take (length all) (take m all) ++ take (m - length all) piece ≡ take m (all ++ piece)
  take-take-append [] piece m h = ap (λ k. take k piece) (omega arith)
  take-take-append (x ∷ all) piece zero h = absurd (omega arith)
  take-take-append (x ∷ all) piece (suc m) h =
      let e : suc m - suc (length all) ≡ m - length all = omega arith in
      rw e (ap (λ t. x ∷ t) (take-take-append all piece m (omega arith)))

  take-append-le : (all piece : Bytes) (m : ℕ) → m ≤ length all → take m (all ++ piece) ≡ take m all
  take-append-le all piece zero h = refl
  take-append-le [] piece (suc m) h = absurd (omega arith)
  take-append-le (x ∷ all) piece (suc m) h =
      ap (λ t. x ∷ t) (take-append-le all piece m (omega arith))

  step-Holds :
      (b : Buffer) (all piece : Bytes)
      → Holds size b all
      → Holds size (if ltb b.1 size then append size b piece else b) (all ++ piece)
  unfolding append
  step-Holds b all piece h = elim (Bool-cases (ltb b.1 size)) [
    | inl t ↦ rw t (elim h.offset [
      | inl e ↦ record {
        text = rw (e, h.text) (take-take-append all piece (size - 1) (ground arith));
        offset = inl (omega (arith, e, length-append all piece));
      }
      | inr (far, _) ↦ absurd (ground arith)
    ])
    | inr t ↦
        let long : size ≤ length all = elim h.offset [ inl e ↦ ground arith | inr k ↦ k.1 ] in
        rw t (record {
          text = h.text ∙ sym (take-append-le all piece (size - 1) (omega arith));
          offset = inr (ground arith, omega (arith, length-append all piece));
        })
  ]

  append_all-Holds :
      (b : Buffer) (all : Bytes) (pieces : List Bytes)
      → Holds size b all
      → Holds size (append_all size b pieces) (all ++ join pieces)
  unfolding append_all
  append_all-Holds b all [] h = rw append-nil h
  append_all-Holds b all (piece ∷ pieces) h = rw (← append_assoc) (
      append_all-Holds (if ltb b.1 size then append size b piece else b) (all ++ piece) pieces
        (step-Holds b all piece h))

  empty-Holds : (n : ℕ) → [] ≡ take {A = ℕ} n []
  empty-Holds zero = refl
  empty-Holds (suc n) = refl

  first-Holds : (first : Bytes) → Holds size (append size ([], 0) first) first
  first-Holds first =
      let e : ltb 0 size ≡ true = ground arith in
      rw e at
        (step-Holds ([], 0) [] first (record { text = empty-Holds (size - 1); offset = inl refl }))

  -- The loop leaves as much of the whole text as the buffer holds.
  pub append_all_lem :
      (pieces : List Bytes) → (append_all size ([], 0) pieces).0 ≡ take (size - 1) (join pieces)
  append_all_lem pieces =
      (append_all-Holds ([], 0) [] pieces
        (record { text = empty-Holds (size - 1); offset = inl refl })).text

  -- So do a first text, the loop and the last text.
  pub close_lem :
      (first last : Bytes) (pieces : List Bytes)
      → close size (append_all size (append size ([], 0) first) pieces) last
        ≡ take (size - 1) ((first ++ join pieces) ++ last)
  unfolding close
  close_lem first last pieces =
      (step-Holds _ (first ++ join pieces) last
        (append_all-Holds (append size ([], 0) first) first pieces (first-Holds first))).text
