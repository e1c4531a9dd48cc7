-- ===== src/Text/Search.antt =====
-- `strstr` and `c_string` on texts of several parts.
use mesh_visualization.Prelude.{
  sym, ap, ◌∙◌, none, ℕ, ◌≤◌, ◌<◌, ◌≡◌, refl, ◌≢◌, Bool, true, false, not, ◌&&◌, ◌||◌, [], ◌∷◌,
  ◌++◌, arith, ◌==◌, All, Bytes,
}
use mathlib.Core.List.{append-nil}
use mesh_visualization.Text.{strchr, c_string, starts, strstr}

-- The text `p` differs from the needle within its length.
unfoldable pub differs : Bytes → Bytes → Bool
differs [] p = false
differs (c ∷ cs) [] = false
differs (c ∷ cs) (d ∷ ds) = not (c == d) || differs cs ds

-- So does every part of it that runs to its end.
unfoldable pub is_clear : Bytes → Bytes → Bool
unfolding differs
is_clear needle [] = true
is_clear needle (c ∷ cs) = differs needle (c ∷ cs) && is_clear needle cs

differs-append :
    (needle p rest : Bytes) → differs needle p ≡ true → starts needle (p ++ rest) ≡ false
unfolding differs starts
differs-append [] p rest h = cc
differs-append (c ∷ cs) [] rest h = cc
differs-append (c ∷ cs) (d ∷ ds) rest h = ground (arith, differs-append cs ds rest)

differs-more : (needle p rest : Bytes) → differs needle p ≡ true → differs needle (p ++ rest) ≡ true
unfolding differs
differs-more [] p rest h = cc
differs-more (c ∷ cs) [] rest h = cc
differs-more (c ∷ cs) (d ∷ ds) rest h = ground (arith, differs-more cs ds rest)

pub is_clear-append :
    (needle p q : Bytes)
    → is_clear needle p ≡ true
    → is_clear needle q ≡ true
    → is_clear needle (p ++ q) ≡ true
unfolding is_clear
is_clear-append needle [] q h k = k
is_clear-append needle (c ∷ cs) q h k =
    let here : differs needle (c ∷ cs) ≡ true = ground arith in
    let later : is_clear needle cs ≡ true = ground arith in
    rw (differs-more needle (c ∷ cs) q here) (is_clear-append needle cs q later k)

-- A part in which the needle cannot begin is passed over.
pub strstr-append :
    (needle p rest : Bytes)
    → is_clear needle p ≡ true
    → strstr (p ++ rest) needle ≡ strstr rest needle
unfolding is_clear strstr
strstr-append needle [] rest h = refl
strstr-append needle (c ∷ cs) rest h =
    let here : differs needle (c ∷ cs) ≡ true = ground arith in
    let later : is_clear needle cs ≡ true = ground arith in
    rw (differs-append needle (c ∷ cs) rest here) (strstr-append needle cs rest later)

pub strstr-clear :
    (needle p : Bytes) → strstr [] needle ≡ none → is_clear needle p ≡ true → strstr p needle ≡ none
strstr-clear needle p e h =
    ap (λ t. strstr t needle) (sym (append-nil p)) ∙ strstr-append needle p [] h ∙ e

-- A needle that begins with a quote, behind bytes that are digits, letters and colons.
pub strstr-printed :
    (needle p rest : Bytes)
    → All (λ c. 48 ≤ c) p
    → strstr (p ++ rest) (b'"' ∷ needle) ≡ strstr rest (b'"' ∷ needle)
unfolding strstr starts
strstr-printed needle [] rest h = refl
strstr-printed needle (c ∷ cs) rest h =
    let other : (b'"' == c) ≡ false = ground arith in rw other (strstr-printed needle cs rest h.1)

pub c_string-append :
    (p rest : Bytes) → All (λ c. 0 < c) p → c_string (p ++ rest) ≡ p ++ c_string rest
unfolding c_string
c_string-append [] rest h = refl
c_string-append (c ∷ cs) rest h =
    let more : (c == 0) ≡ false = ground arith in rw (more, c_string-append cs rest h.1) refl

pub strstr_step :
    (needle : Bytes) (c : ℕ) (cs : Bytes)
    → starts needle (c ∷ cs) ≡ false
    → strstr (c ∷ cs) needle ≡ strstr cs needle
unfolding strstr
strstr_step needle c cs h = rw h refl

pub strchr-append :
    (p rest : Bytes) (c : ℕ) → All (λ d. d ≢ c) p → strchr (p ++ rest) c ≡ strchr rest c
unfolding strchr
strchr-append [] rest c h = refl
strchr-append (d ∷ ds) rest c h =
    let other : (d == c) ≡ false = ground arith in rw (other, strchr-append ds rest c h.1) refl
