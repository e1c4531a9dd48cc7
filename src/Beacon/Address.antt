-- ===== src/Beacon/Address.antt =====
-- src/beacon_monitor.cpp: the address arithmetic and the tests on addresses.
use mesh_visualization.Prelude.{
  ℕ, zero, suc, ◌+◌, ◌-◌, ◌*◌, ◌%◌, ◌≤◌, ◌<◌, ◌≡◌, refl, sym, ap, ◌∙◌, ◌≢◌, ◌↔◌, ◌⊎◌, inl, inr,
  Bool, true, false, none, some, leb, length-take, [], ◌∷◌, ◌++◌, arith, ltb, ◌==◌, Bool-cases,
  length, take, drop, replicate, All, length-append, Bytes, bytes_eq, bytes_eq→eq, bytes_eq_iff,
}
use mathlib.Core.List.{reverse, reverse-cons, reverse-reverse}
use mathlib.Core.Path.{ap₂, subst}
use mesh_visualization.State.{Mac}
use mesh_visualization.Beacon.{
  decrement, normalize_mesh_ap_bssid_to_sta_mac, all_bytes, is_valid_mac, contains_from, read_bytes,
  is_mesh_beacon, mesh_id_pattern,
}

abbrev pub IsByte : ℕ → Type 0
IsByte b = b < 256

-- The number whose bytes these are, the least first.
abbrev pub number : Bytes → ℕ
number [] = 0
number (b ∷ bs) = b + 256 * number bs

-- The borrow runs through the zero bytes: the result is the number less one.
number-decrement : (bs : Bytes) → number bs ≢ 0 → number (decrement bs) + 1 ≡ number bs
unfolding decrement
number-decrement [] e = absurd (e refl)
number-decrement (b ∷ bs) e = ground (arith, number-decrement bs)

length-decrement : (bs : Bytes) → length (decrement bs) ≡ length bs
unfolding decrement
length-decrement [] = refl
length-decrement (b ∷ bs) = ground (arith, length-decrement bs)

decrement-IsByte : (bs : Bytes) → All IsByte bs → All IsByte (decrement bs)
unfolding decrement
decrement-IsByte [] h = tt
decrement-IsByte (b ∷ bs) h = elim (Bool-cases (ltb 0 b)) [
  | inl e ↦ rw e (omega (arith, h.0), h.1)
  | inr e ↦ rw e (omega arith, decrement-IsByte bs h.1)
]

number_injective :
    (xs ys : Bytes)
    → All IsByte xs
    → All IsByte ys
    → length xs ≡ length ys
    → number xs ≡ number ys
    → xs ≡ ys
number_injective [] [] h k l e = refl
number_injective [] (y ∷ ys) h k l e = absurd (omega arith)
number_injective (x ∷ xs) [] h k l e = absurd (omega arith)
number_injective (x ∷ xs) (y ∷ ys) h k l e =
    ap₂ ◌∷◌ (omega (arith, h.0, k.0))
      (number_injective xs ys h.1 k.1 (omega arith) (omega (arith, h.0, k.0)))

All-append : (xs ys : Bytes) → All IsByte xs → All IsByte ys → All IsByte (xs ++ ys)
All-append [] ys h k = k
All-append (x ∷ xs) ys h k = (h.0, All-append xs ys h.1 k)

All-reverse : (xs : Bytes) → All IsByte xs → All IsByte (reverse xs)
All-reverse [] h = tt
All-reverse (x ∷ xs) h =
    rw (reverse-cons x xs) (All-append (reverse xs) (x ∷ []) (All-reverse xs h.1) (h.0, tt))

length-reverse : (xs : Bytes) → length (reverse xs) ≡ length xs
length-reverse [] = refl
length-reverse (x ∷ xs) =
    omega
      (arith, ap length (reverse-cons x xs), length-append (reverse xs) (x ∷ []), length-reverse xs)

-- An address as a number, its first byte the most significant.
abbrev pub value : Mac → ℕ
value mac = number (reverse mac)

-- From the address of an access point `normalize_mesh_ap_bssid_to_sta_mac` recovers the address of
-- the station, for any two addresses of equal length, read as big-endian numbers, of which the
-- first is the one after the second.
pub normalize_mesh_ap_bssid_to_sta_mac_lem :
    (bssid sta : Mac)
    → All IsByte bssid
    → All IsByte sta
    → length bssid ≡ length sta
    → value bssid ≡ value sta + 1
    → normalize_mesh_ap_bssid_to_sta_mac bssid ≡ sta
unfolding normalize_mesh_ap_bssid_to_sta_mac
normalize_mesh_ap_bssid_to_sta_mac_lem bssid sta hb hs l e =
    ap reverse (
      number_injective (decrement (reverse bssid)) (reverse sta)
        (decrement-IsByte (reverse bssid) (All-reverse bssid hb)) (All-reverse sta hs)
        (length-decrement (reverse bssid) ∙ length-reverse bssid ∙ l ∙ sym (length-reverse sta))
        (omega (arith, number-decrement (reverse bssid) (omega arith))))
    ∙ reverse-reverse sta

all_bytes_iff : (v : ℕ) (bs : Bytes) → (all_bytes v bs ≡ true) ↔ (bs ≡ replicate (length bs) v)
unfolding all_bytes
all_bytes_iff v [] = ((λ e. refl), (λ e. refl))
all_bytes_iff v (b ∷ bs) =
    ((λ e. ground (arith, (all_bytes_iff v bs).0)), (λ e. ground (arith, (all_bytes_iff v bs).1)))

-- The address is neither all zeros nor the broadcast address, and its group bit is clear: that is
-- what `is_valid_mac` accepts, no more and no less.
is_valid_mac_iff :
    (b₀ b₁ b₂ b₃ b₄ b₅ : ℕ)
    → let mac = b₀ ∷ b₁ ∷ b₂ ∷ b₃ ∷ b₄ ∷ b₅ ∷ [] in
      (is_valid_mac mac ≡ true)
      ↔ ((mac ≢ replicate 6 0x00) × (mac ≢ replicate 6 0xff) × (b₀ % 2 ≡ 0))
unfolding is_valid_mac
is_valid_mac_iff b₀ b₁ b₂ b₃ b₄ b₅ = (
  (λ e. (
    (λ z. ground (arith, (all_bytes_iff 0 mac).1)),
    (λ z. ground (arith, (all_bytes_iff 0xff mac).1)),
    ground arith,
  )),
  (λ h. ground (arith, (all_bytes_iff 0 mac).0, (all_bytes_iff 0xff mac).0)),
)
  where
    mac : Mac
    mac = b₀ ∷ b₁ ∷ b₂ ∷ b₃ ∷ b₄ ∷ b₅ ∷ []

-- A read of six bytes is the bytes there, or leaves the frame.
read_six :
    (frame : Bytes) (i : ℕ)
    → ((i + 6 ≤ length frame) × (read_bytes frame i 6 ≡ some (take 6 (drop i frame))))
      ⊎ ((length frame < i + 6) × (read_bytes frame i 6 ≡ none))
read_six frame i = elim (Bool-cases (leb (i + 6) (length frame))) [
  | inl e ↦ rw e (inl (ground arith, refl))
  | inr e ↦ rw e (inr (ground arith, refl))
]

six_inside : (frame : Bytes) (j : ℕ) → length (take 6 (drop j frame)) ≡ 6 → j + 6 ≤ length frame
six_inside frame zero e = omega (arith, length-take 6 frame)
six_inside [] (suc j) e = absurd (omega arith)
six_inside (b ∷ frame) (suc j) e = omega (arith, six_inside frame j e)

-- The identifier is six bytes long.
pattern_inside :
    (frame : Bytes) (j : ℕ) → take 6 (drop j frame) ≡ mesh_id_pattern → j + 6 ≤ length frame
pattern_inside frame j p = six_inside frame j (ap length p)

contains_from_iff :
    (rounds : ℕ) (frame : Bytes) (i : ℕ)
    → (contains_from rounds frame i ≡ some true)
      ↔ ((j : ℕ) × (i ≤ j) × (j < i + rounds) × (take 6 (drop j frame) ≡ mesh_id_pattern))
unfolding contains_from
contains_from_iff zero frame i = ((λ e. cc), (λ h. absurd (omega (arith, h.1, h.2))))
contains_from_iff (suc rounds) frame i = elim (read_six frame i) [
  | inr (short, none_read) ↦
      rw none_read ((λ e. cc), (λ (j, lo, hi, p). absurd (omega (arith, pattern_inside frame j p))))
  | inl (inside, read) ↦ rw read (
    (λ e. elim (Bool-cases (bytes_eq (take 6 (drop i frame)) mesh_id_pattern)) [
      | inl t ↦ (i, omega arith, omega arith, bytes_eq→eq _ _ t)
      | inr t ↦
          let (j, lo, hi, p) = (contains_from_iff rounds frame (i + 1)).0 (rw t at e) in
          (j, omega arith, omega arith, p)
    ]),
    (λ (j, lo, hi, p). elim (Bool-cases (j == i)) [
      | inl t ↦
          let e : j ≡ i = ground arith in
          let h : bytes_eq (take 6 (drop i frame)) mesh_id_pattern ≡ true =
            (bytes_eq_iff _ _).1 (subst (λ k. take 6 (drop k frame) ≡ mesh_id_pattern) e p) in
          rw h refl
      | inr t ↦
          ground
            (arith, (contains_from_iff rounds frame (i + 1)).1 (j, ground arith, ground arith, p))
    ]),
  )
]

contains_from-reads :
    (rounds : ℕ) (frame : Bytes) (i : ℕ)
    → i + rounds + 5 ≤ length frame
    → (found : Bool) × (contains_from rounds frame i ≡ some found)
unfolding contains_from
contains_from-reads zero frame i h = (false, refl)
contains_from-reads (suc rounds) frame i h = elim (read_six frame i) [
  | inr (short, _) ↦ absurd (omega arith)
  | inl (inside, read) ↦
      let (found, rest) = contains_from-reads rounds frame (i + 1) (omega arith) in
      elim (Bool-cases (bytes_eq (take 6 (drop i frame)) mesh_id_pattern)) [
        | inl t ↦ (true, rw (read, t) refl)
        | inr t ↦ (found, rw (read, t) rest)
      ]
]

-- The scan reads only the first `len` bytes of the frame.
pub is_mesh_beacon-reads :
    (frame : Bytes) (len : ℕ)
    → len ≤ length frame
    → (found : Bool) × (is_mesh_beacon frame len ≡ some found)
unfolding is_mesh_beacon
is_mesh_beacon-reads frame len h = elim (Bool-cases (ltb len 6)) [
  | inl t ↦ rw t (false, refl)
  | inr t ↦ rw t (contains_from-reads (len - 6 + 1) frame 0 (ground arith))
]

-- The scan for the mesh identifier is true exactly if the identifier stands somewhere in the first
-- `len` bytes.
pub is_mesh_beacon_iff :
    (frame : Bytes) (len : ℕ)
    → (is_mesh_beacon frame len ≡ some true)
      ↔ ((j : ℕ) × (j + 6 ≤ len) × (take 6 (drop j frame) ≡ mesh_id_pattern))
unfolding is_mesh_beacon
is_mesh_beacon_iff frame len = elim (Bool-cases (ltb len 6)) [
  | inl t ↦ rw t ((λ e. cc), (λ (j, h, p). absurd (ground arith)))
  | inr t ↦ rw t (
    (λ e.
        let (j, lo, hi, p) = (contains_from_iff (len - 6 + 1) frame 0).0 e in (j, ground arith, p)),
    (λ (j, h, p). (contains_from_iff (len - 6 + 1) frame 0).1 (j, omega arith, ground arith, p)),
  )
]
