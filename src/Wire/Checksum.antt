-- ===== src/Wire/Checksum.antt =====
-- The 16-bit sums of the messages: what they add up to, and which changes they detect.
use mesh_visualization.Prelude.{
  ℕ, zero, suc, ◌+◌, ◌%◌, ◌<◌, ◌≡◌, refl, ap, ◌∙◌, ◌≢◌, true, false, [], ◌∷◌, ◌++◌, arith, ◌==◌,
  ==_iff, length, take, length-append, take-append, drop-append, Bytes,
}
use mesh_visualization.Config.{u16_mod}
use mesh_visualization.Wire.{add_bytes, checksum_at, verify_at, sealed, put_u16, get_u16}

-- The plain sum of the bytes.
abbrev total : Bytes → ℕ
total [] = 0
total (b ∷ bs) = b + total bs

total-append : (xs ys : Bytes) → total (xs ++ ys) ≡ total xs + total ys
total-append [] ys = omega arith
total-append (x ∷ xs) ys = omega (arith, total-append xs ys)

add_bytes-total : (c : ℕ) (bs : Bytes) → c < u16_mod → add_bytes c bs ≡ (c + total bs) % u16_mod
unfolding add_bytes
add_bytes-total c [] h = omega arith
add_bytes-total c (b ∷ bs) h = add_bytes-total ((c + b) % u16_mod) bs (omega arith) ∙ omega arith

-- The checksum is the sum of the bytes before it, modulo 2 ^ 16.
checksum_at_lem : (len : ℕ) (bs : Bytes) → checksum_at len bs ≡ total (take len bs) % u16_mod
unfolding checksum_at
checksum_at_lem len bs = add_bytes-total 0 (take len bs) (omega arith) ∙ omega arith

get-put_u16 : (c : ℕ) (rest : Bytes) → c < u16_mod → (get_u16 (put_u16 c rest)).0 ≡ c
get-put_u16 c rest h = omega arith

-- Verifying what lies behind `body` compares the two sums.
verify_at_lem :
    (len c : ℕ) (body padding : Bytes)
    → length body ≡ len
    → c < u16_mod
    → verify_at len (body ++ put_u16 c padding) ≡ (total body % u16_mod == c)
unfolding verify_at
verify_at_lem len c body padding l h =
    rw
      (
        checksum_at_lem len (body ++ put_u16 c padding),
        take-append body (put_u16 c padding) l,
        drop-append body (put_u16 c padding) l,
        get-put_u16 c padding h,
      )
      refl

take-all : (xs : Bytes) {n : ℕ} → length xs ≡ n → take n xs ≡ xs
take-all [] {n = zero} h = refl
take-all [] {n = suc n} h = refl
take-all (x ∷ xs) {n = zero} h = absurd (omega arith)
take-all (x ∷ xs) {n = suc n} h = ap (λ t. x ∷ t) (take-all xs (omega arith))

sealed_sum :
    (len : ℕ) (body : Bytes) → length body ≡ len → checksum_at len body ≡ total body % u16_mod
sealed_sum len body l = checksum_at_lem len body ∙ ap (λ t. total t % u16_mod) (take-all body l)

-- A message that was sealed with its checksum passes the test of the receiver.
pub verify-sealed :
    (len : ℕ) (body padding : Bytes)
    → length body ≡ len
    → verify_at len (sealed len body padding) ≡ true
verify-sealed len body padding l =
    let e = sealed_sum len body l in
    rw e (
      verify_at_lem len (total body % u16_mod) body padding l (omega arith)
      ∙ (==_iff (total body % u16_mod) (total body % u16_mod)).1 refl)

-- A byte in front of the checksum that arrives as another byte is always detected.
pub verify-changed :
    (len : ℕ) (before after padding : Bytes) (sent received : ℕ)
    → sent < 256
    → received < 256
    → sent ≢ received
    → length (before ++ sent ∷ after) ≡ len
    → verify_at len
        ((before ++ received ∷ after) ++ put_u16 (checksum_at len (before ++ sent ∷ after)) padding)
      ≡ false
verify-changed len before after padding sent received hs hr d l =
    rw (sealed_sum len (before ++ sent ∷ after) l) (
      verify_at_lem len (total (before ++ sent ∷ after) % u16_mod) (before ++ received ∷ after)
        padding
        (omega
          (arith, l, length-append before (sent ∷ after), length-append before (received ∷ after)))
        (omega arith)
      ∙ ground (arith, total-append before (sent ∷ after), total-append before (received ∷ after)))
