-- ===== src/Manager/Persistence.antt =====
-- src/state_manager.cpp: the configuration survives a restart, and unusable data is refused.
use mesh_visualization.Prelude.{
  ℕ, zero, suc, ◌≤◌, ◌≡◌, refl, ap, ◌≢◌, ◌↔◌, ◌⊎◌, inl, inr, true, false, ◌&&◌, some, List, [], ◌∷◌,
  map, arith, leb, ◌==◌, Bool-cases, Option-cases, length, take, take_all, Bytes, codes, bytes_eq,
  bytes_eq→eq,
}
use mesh_visualization.Config.{max_activations}
use mesh_visualization.Floats.{FloatUnit}
use mesh_visualization.State.{NodeState, ActivationRule}
use mesh_visualization.Manager.{
  Manager, Nvs, Blob, PersistedConfig, is_usable, save_state_config, load_state_config, load_blob,
  apply_config, describe_activation_rules, rule_text,
}
use mesh_visualization.Printf.{append_all_lem, separated, join}

-- Every call of the flash store returns ESP_OK.
abbrev pub works : Nvs
works = record { open_ok = true; set_ok = true; commit_ok = true; get_ok = true; kept = false }

take-take : (n : ℕ) (xs : Bytes) → take n (take n xs) ≡ take n xs
take-take zero xs = refl
take-take (suc n) [] = refl
take-take (suc n) (x ∷ xs) = ap (λ t. x ∷ t) (take-take n xs)

-- The configuration of two nodes is the same.
abbrev pub SameConfig : Manager → Manager → Type 0
SameConfig a b =
    (a.node_state.kernel ≡ b.node_state.kernel)
    × (a.node_state.activations ≡ b.node_state.activations)
    × (a.node_state.activation_count ≡ b.node_state.activation_count)
    × (a.node_state.kernel_sequence ≡ b.node_state.kernel_sequence)
    × (a.node_state.activation_sequence ≡ b.node_state.activation_sequence)
    × (a.kernel_function ≡ b.kernel_function)

-- A configuration with at most eight rules, whose kernel has a name of 1 to 63 bytes, is saved by
-- `save_state_config` and restored by `load_state_config` after a restart, if no call of the flash
-- store fails, whatever the variables are by then.
pub load-save :
    (fpu : FloatUnit) (m later : Manager)
    → m.node_state.activation_count ≤ max_activations
    → length m.kernel_function ≤ 63
    → m.kernel_function ≢ []
    → let (saved, ok) = save_state_config works m in
      let (loaded, found) = load_state_config fpu works (record later { stored = saved.stored }) in
      (ok ≡ true) × (found ≡ true) × SameConfig loaded m
unfolding save_state_config load_state_config apply_config describe_activation_rules
load-save fpu m later c l n =
    rw (usable, take_all 63 m.kernel_function l, named)
      (refl, refl, (refl, refl, refl, refl, refl, take_all 63 m.kernel_function l))
  where
    usable : leb m.node_state.activation_count max_activations ≡ true
    usable = ground arith

    named : bytes_eq m.kernel_function [] ≡ false
    named = ground (arith, bytes_eq→eq m.kernel_function [])

-- The stored bytes make a configuration: 180 of them, which begin with "HSEM" and the version 1,
-- and with at most eight rules.
pub record Usable (b : Blob) : Type 0 where
  pub size : b.size ≡ 180
  pub magic : b.config.magic ≡ 0x4d455348
  pub version : b.config.version ≡ 1
  pub rules : b.config.activation_count ≤ 8

is_usable_iff : (b : Blob) → (is_usable b ≡ true) ↔ Usable b
is_usable_iff b = (
  (λ e. record {
    size = ground arith;
    magic = ground arith;
    version = ground arith;
    rules = ground arith;
  }),
  (λ u. ground (arith, u.size, u.magic, u.version, u.rules)),
)

not_usable :
    {P : Type 0} (b : Blob) → is_usable b ≡ false → ((c : Blob) × (some b ≡ some c) × Usable c) → P
not_usable b u (c, same, usable) =
    let e : is_usable c ≡ true = (is_usable_iff c).1 usable in absurd (cc)

-- The state with the kernel, the rules and their counters of a configuration.
abbrev pub configured : PersistedConfig → NodeState → NodeState
configured c s = record s {
  kernel = c.kernel;
  activations = c.activations;
  activation_count = c.activation_count;
  kernel_sequence = c.kernel_sequence;
  activation_sequence = c.activation_sequence;
}

-- `load_state_config` succeeds exactly if the flash store can be opened and read and holds a blob
-- of 180 bytes with the mark 0x4d455348, the version 1 and at most eight rules. Then exactly the
-- kernel, the rules, their number and the two counters of the state are those of the blob;
-- otherwise nothing changes.
pub load_state_config_iff :
    (fpu : FloatUnit) (nvs : Nvs) (m : Manager)
    → let r = load_state_config fpu nvs m in
      ((r.1 ≡ true) ↔ (
        (nvs.open_ok ≡ true) × (nvs.get_ok ≡ true) × ((b : Blob) × (m.stored ≡ some b) × Usable b)))
      × (((r.1 ≡ false) × (r.0 ≡ m))
          ⊎ ((b : Blob) × (m.stored ≡ some b)
              × (r.1 ≡ true)
              × (r.0.node_state ≡ configured b.config m.node_state)))
unfolding load_state_config apply_config describe_activation_rules
load_state_config_iff fpu nvs m = elim (Bool-cases (nvs.open_ok && nvs.get_ok)) [
  | inr e ↦ rw e (((λ t. cc), (λ h. ground (arith, h.0, h.1))), inl (refl, refl))
  | inl e ↦ rw e (elim (Option-cases m.stored) [
    | inl n ↦ rw (n, load_blob) (((λ t. cc), (λ h. absurd (cc))), inl (refl, refl))
    | inr (b, n) ↦ elim (Bool-cases (is_usable b)) [
      | inr u ↦ simp (n, u) (((λ t. cc), (λ h. not_usable b u h.2)), inl (refl, refl))
      | inl u ↦
          simp (n, u)
            (
              ((λ t. (ground arith, ground arith, (b, refl, (is_usable_iff b).0 u))), (λ h. refl)),
              inr (b, refl, refl, refl),
            )
    ]
  ])
]

-- Where there are rules, their description is the list of their texts with `|` between them, as
-- far as 127 bytes go.
describe_activation_rules_lem :
    (fpu : FloatUnit) (m : Manager)
    → m.node_state.activation_count ≢ 0
    → (describe_activation_rules fpu m).activation_function
      ≡ take 127 (
          join (
            separated
              (codes "|")
              (map (rule_text fpu) (take m.node_state.activation_count m.node_state.activations))))
unfolding describe_activation_rules
describe_activation_rules_lem fpu m h =
    let e : (m.node_state.activation_count == 0) ≡ false = ground arith in
    rw (e, append_all_lem 128 (omega arith) (separated (codes "|") (map (rule_text fpu) rules)))
      (take-take 127 _)
  where
    rules : List ActivationRule
    rules = take m.node_state.activation_count m.node_state.activations
