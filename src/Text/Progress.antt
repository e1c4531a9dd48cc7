-- ===== src/Text/Progress.antt =====
-- The functions that read texts: what follows the part read is shorter than the text.
use mesh_visualization.Prelude.{
  ℕ, zero, suc, ◌+◌, ◌-◌, ◌*◌, ◌≤◌, ◌<◌, ◌≡◌, refl, inl, inr, Bool, true, false, Option, none, some,
  List, [], ◌∷◌, arith, Option-cases, length, drop, Bytes,
}
use mesh_visualization.Text.{
  ◌>>=◌, skip_ws, strchr, expect, read_digits, read_unsigned, with_sign, read_signed, strtol,
  float_at,
}

module _ {ℓ} {A : Type ℓ} where
  -- What a read leaves is shorter than `p`, or not longer.
  abbrev pub Shortens : Bytes → Option (A × Bytes) → Type 0
  Shortens p none = Unit
  Shortens p (some (a, rest)) = length rest < length p

  abbrev pub Keeps : Bytes → Option (A × Bytes) → Type 0
  Keeps p none = Unit
  Keeps p (some (a, rest)) = length rest ≤ length p

  pub length-drop-le : (n : ℕ) (p : List A) → length (drop n p) ≤ length p
  length-drop-le zero p = omega arith
  length-drop-le (suc n) [] = omega arith
  length-drop-le (suc n) (c ∷ cs) = omega (arith, length-drop-le n cs)

module _ {ℓ κ} {A : Type ℓ} {B : Type κ} where
  -- A read of the rest behind another step.
  pub Shortens-bind :
      (p : Bytes) (m : Option B) (f : B → Option (A × Bytes))
      → ((b : B) → m ≡ some b → Shortens p (f b))
      → Shortens p (m >>= f)
  Shortens-bind p none f h = tt
  Shortens-bind p (some b) f h = h b refl

pub length-drop-lt : (p : Bytes) → 0 < length p → length (drop 1 p) < length p
length-drop-lt [] h = absurd (omega arith)
length-drop-lt (c ∷ cs) h = omega arith

pub length-skip_ws-le : (p : Bytes) → length (skip_ws p) ≤ length p
unfolding skip_ws
length-skip_ws-le [] = omega arith
length-skip_ws-le (c ∷ cs) = ground (arith, length-skip_ws-le cs)

length-read_digits-le : (n : ℕ) (p : Bytes) → length (read_digits n p).1 ≤ length p
unfolding read_digits
length-read_digits-le n [] = omega arith
length-read_digits-le n (c ∷ cs) = ground (arith, length-read_digits-le (n * 10 + (c - 48)) cs)

read_unsigned-Shortens : (p : Bytes) → Shortens p (read_unsigned p)
unfolding read_unsigned
read_unsigned-Shortens [] = tt
read_unsigned-Shortens (c ∷ cs) = ground (arith, length-read_digits-le (c - 48) cs)

-- With or without a sign in front of the digits.
abbrev Fits : Bytes → Option (Bool × ℕ × Bytes) → Type 0
Fits p none = Unit
Fits p (some (minus, n, rest)) = length rest < length p

with_sign-Fits :
    (p q : Bytes) (minus : Bool) (read : Option (ℕ × Bytes))
    → Shortens p read
    → length p ≤ length q
    → Fits q (with_sign minus read)
with_sign-Fits p q minus none s h = tt
with_sign-Fits p q minus (some (n, rest)) s h = omega arith

read_signed-Fits : (p : Bytes) → Fits p (read_signed p)
unfolding read_signed
read_signed-Fits [] = tt
read_signed-Fits (c ∷ cs) = ground (
  arith,
  with_sign-Fits cs (c ∷ cs) true (read_unsigned cs) (read_unsigned-Shortens cs) (omega arith),
  with_sign-Fits cs (c ∷ cs) false (read_unsigned cs) (read_unsigned-Shortens cs) (omega arith),
  with_sign-Fits (c ∷ cs) (c ∷ cs) false (read_unsigned (c ∷ cs)) (read_unsigned-Shortens (c ∷ cs))
      (omega arith),
)

pub strtol-Shortens : (p : Bytes) → Shortens p (strtol p)
unfolding strtol
strtol-Shortens p = elim (Option-cases (read_signed (skip_ws p))) [
  | inl e ↦ rw e tt
  | inr ((minus, n, rest), e) ↦
      let fits = rw e at (read_signed-Fits (skip_ws p)) in
      rw e (omega (arith, length-skip_ws-le p, fits))
]

pub strchr-le :
    (p : Bytes) (c : ℕ) {q : Bytes} → strchr p c ≡ some q → (0 < length q) × (length q ≤ length p)
unfolding strchr
strchr-le [] c e = cc
strchr-le (d ∷ ds) c {q} e = ground (arith, strchr-le ds c {q = q})

pub expect-lt : (c : ℕ) (p : Bytes) {q : Bytes} → expect c p ≡ some q → length q < length p
unfolding expect
expect-lt c [] e = cc
expect-lt c (d ∷ ds) e = ground arith

pub float_at-Keeps : (p : Bytes) (read : Option (ℕ × ℕ)) → Keeps p (float_at p read)
float_at-Keeps p none = tt
float_at-Keeps p (some (value, size)) = ground (arith, length-drop-le size p)
