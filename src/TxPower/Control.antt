-- ===== src/TxPower/Control.antt =====
-- src/mesh_node.cpp: the bounds and the direction of the power control.
use mesh_visualization.Prelude.{
  ◌≡◌, refl, ap, ◌∙◌, ◌⊎◌, inl, inr, Bool-cases, Bool, true, ◌&&◌, none, some, [], ◌∷◌, arith,
  if◌then◌else◌, All,
}
use mesh_visualization.Prelude.Int.{ℤ, pos, negsuc, ◌+ℤ◌, ◌-ℤ◌, ◌≤ℤ◌, ltb_ℤ, half_ℤ, int8}
use mesh_visualization.Config.{target_rssi, min_tx_power, max_tx_power, no_rssi}
use mesh_visualization.Neighbors.{Table}
use mesh_visualization.TxPower.{
  clamp, weakest_rssi_from, weakest_rssi, next_tx_power, adjust_tx_power,
}

abbrev pub InRange : ℤ → Type 0
InRange p = (min_tx_power ≤ℤ p) × (p ≤ℤ max_tx_power)

clamp-InRange : (x : ℤ) → InRange (clamp x min_tx_power max_tx_power)
clamp-InRange x = ground arith

int8_small : (x : ℤ) → negsuc 127 ≤ℤ x → x ≤ℤ pos 127 → int8 x ≡ x
int8_small (pos n) lo hi = ground arith
int8_small (negsuc n) lo hi = ground arith

diff_small :
    (rssi : ℤ)
    → no_rssi ≤ℤ rssi
    → rssi ≤ℤ pos 63
    → let d = target_rssi -ℤ rssi in
      (negsuc 127 ≤ℤ d)
      × (d ≤ℤ pos 62)
      × (rssi ≤ℤ target_rssi → pos 0 ≤ℤ d)
      × (target_rssi ≤ℤ rssi → d ≤ℤ pos 0)
diff_small (pos n) lo hi = ground arith
diff_small (negsuc n) lo hi = ground arith

half_sum_small :
    (power d : ℤ)
    → InRange power
    → negsuc 127 ≤ℤ d
    → d ≤ℤ pos 62
    → (negsuc 127 ≤ℤ power +ℤ half_ℤ d) × (power +ℤ half_ℤ d ≤ℤ pos 127)
half_sum_small (pos n) (pos d) h lo hi = ground arith
half_sum_small (pos n) (negsuc d) h lo hi = ground arith
half_sum_small (negsuc n) d h lo hi = absurd (omega (arith, h.0))

clamp_up :
    (power d : ℤ) → InRange power → pos 0 ≤ℤ d → power ≤ℤ clamp (power +ℤ half_ℤ d) (pos 0) (pos 20)
clamp_up (pos n) (pos d) h p = ground arith
clamp_up (pos n) (negsuc d) h p = absurd (omega arith)
clamp_up (negsuc n) d h p = absurd (omega (arith, h.0))

clamp_down :
    (power d : ℤ) → InRange power → d ≤ℤ pos 0 → clamp (power +ℤ half_ℤ d) (pos 0) (pos 20) ≤ℤ power
clamp_down (pos n) (pos d) h p = ground arith
clamp_down (pos n) (negsuc d) h p = ground arith
clamp_down (negsuc n) d h p = absurd (omega (arith, h.0))

next_tx_power-InRange : (power rssi : ℤ) → InRange (next_tx_power power rssi)
unfolding next_tx_power
next_tx_power-InRange power rssi =
    clamp-InRange (int8 (power +ℤ half_ℤ (int8 (target_rssi -ℤ rssi))))

-- `adjust_tx_power` keeps a power between 0 and 20 dBm in that range, and what it hands to the
-- radio is the power that it stores.
pub adjust_tx_power-InRange :
    (wifi : Bool) (ns : Table) (power : ℤ)
    → InRange power
    → let r = adjust_tx_power wifi ns power in
      (min_tx_power ≤ℤ r.0) × (r.0 ≤ℤ max_tx_power) × ((r.1 ≡ none) ⊎ (r.1 ≡ some r.0))
unfolding adjust_tx_power
adjust_tx_power-InRange wifi ns power h =
    ground (arith, next_tx_power-InRange power (weakest_rssi ns))

-- For a power in its range and a signal from -127 to 63 dBm no conversion to `int8_t` wraps, so
-- the power moves by half of the distance of the signal from the target, within its range: not
-- down for a signal at most the target, not up for one at least the target.
pub next_tx_power_lem :
    (power rssi : ℤ)
    → InRange power
    → no_rssi ≤ℤ rssi
    → rssi ≤ℤ pos 63
    → (next_tx_power power rssi ≡ clamp (power +ℤ half_ℤ (target_rssi -ℤ rssi)) (pos 0) (pos 20))
      × (((rssi ≤ℤ target_rssi) × (power ≤ℤ next_tx_power power rssi))
          ⊎ ((target_rssi ≤ℤ rssi) × (next_tx_power power rssi ≤ℤ power)))
unfolding next_tx_power
next_tx_power_lem power rssi h lo hi = rw e (
  refl,
  elim (Bool-cases (ltb_ℤ target_rssi rssi)) [
    | inl t ↦ let b : target_rssi ≤ℤ rssi = ground arith in inr (b, clamp_down power d h (s.3 b))
    | inr t ↦ let a : rssi ≤ℤ target_rssi = ground arith in inl (a, clamp_up power d h (s.2 a))
  ],
)
  where
    d : ℤ
    d = target_rssi -ℤ rssi

    s :
        (negsuc 127 ≤ℤ d)
        × (d ≤ℤ pos 62)
        × (rssi ≤ℤ target_rssi → pos 0 ≤ℤ d)
        × (target_rssi ≤ℤ rssi → d ≤ℤ pos 0)
    s = diff_small rssi lo hi

    e : next_tx_power power rssi ≡ clamp (power +ℤ half_ℤ d) (pos 0) (pos 20)
    e =
        ap (λ t. clamp (int8 (power +ℤ half_ℤ t)) (pos 0) (pos 20))
          (int8_small d s.0 (omega (arith, s.1)))
        ∙ ap (λ t. clamp t (pos 0) (pos 20))
            (let k = half_sum_small power d h s.0 s.1 in int8_small _ k.0 k.1)

-- The result of the loop is at least the value that it starts with and at least the signal of
-- every active neighbor.
weakest_rssi_from_max :
    (best : ℤ) (ns : Table)
    → let r = weakest_rssi_from best ns in (best ≤ℤ r) × All (λ n. n.active ≡ true → n.rssi ≤ℤ r) ns
unfolding weakest_rssi_from
weakest_rssi_from_max best [] = (omega arith, tt)
weakest_rssi_from_max best (n ∷ ns) =
    let rest = weakest_rssi_from_max (if n.active && ltb_ℤ best n.rssi then n.rssi else best) ns in
    (ground (arith, rest.0), ((λ a. ground (arith, rest.0)), rest.1))
