-- ===== src/Node/Decoded.antt =====
-- src/mesh_node.cpp: what is known of a state that is read from any bytes.
use mesh_visualization.Prelude.{
  ℕ, zero, suc, ◌<◌, ◌≡◌, refl, ap, [], ◌∷◌, arith, length, get_or, drop, All, Bytes,
}
use mesh_visualization.Config.{kernel_size, max_activations}
use mesh_visualization.Manager.Invariant as ManagerInvariant
use mesh_visualization.Wire.{get_u32, get_words, get_rules, get_state}
use mesh_visualization.Wire.Messages.{decode_header}
use mesh_visualization.Wire.RoundTrip.{IsByte, IsWord}

abbrev pub AllBytes : Bytes → Type 0
AllBytes bs = All IsByte bs

AllBytes-drop : (n : ℕ) (bs : Bytes) → AllBytes bs → AllBytes (drop n bs)
AllBytes-drop zero bs h = h
AllBytes-drop (suc n) [] h = h
AllBytes-drop (suc n) (b ∷ bs) h = AllBytes-drop n bs h.1

get_or-IsByte : (bs : Bytes) (i : ℕ) → AllBytes bs → get_or bs i 0 < 256
get_or-IsByte [] i h = omega arith
get_or-IsByte (b ∷ bs) zero h = h.0
get_or-IsByte (b ∷ bs) (suc i) h = get_or-IsByte bs i h.1

get_u32-IsWord : (bs : Bytes) → AllBytes bs → IsWord (get_u32 bs).0
get_u32-IsWord bs h =
    omega (
      arith,
      get_or-IsByte bs 0 h,
      get_or-IsByte bs 1 h,
      get_or-IsByte bs 2 h,
      get_or-IsByte bs 3 h,
    )

length-get_words : (n : ℕ) (bs : Bytes) → length (get_words n bs).0 ≡ n
unfolding get_words
length-get_words zero bs = refl
length-get_words (suc n) bs = ap suc (length-get_words n (drop 4 bs))

length-get_rules : (n : ℕ) (bs : Bytes) → length (get_rules n bs).0 ≡ n
unfolding get_rules
length-get_rules zero bs = refl
length-get_rules (suc n) bs = ap suc (length-get_rules n (drop 4 (drop 4 bs)))

-- A state that is read from bytes is one that the state manager may be given.
get_state-IsReceived : (bs : Bytes) → AllBytes bs → ManagerInvariant.IsReceived (get_state bs).0
unfolding get_state
get_state-IsReceived bs h = record {
  kernel = length-get_words kernel_size _;
  rules = length-get_rules max_activations _;
  kernel_counter = get_u32-IsWord _ from_kernel_sequence;
  value_counter = get_u32-IsWord _ (AllBytes-drop 4 _ from_kernel_sequence);
  activation_counter =
      get_u32-IsWord _ (AllBytes-drop 4 _ (AllBytes-drop 4 _ from_kernel_sequence));
}
  where
    from_temperature : AllBytes (drop 3 (drop 1 bs))
    from_temperature = AllBytes-drop 3 (drop 1 bs) (AllBytes-drop 1 bs h)

    from_distance : AllBytes (drop 1 (drop 1 (drop 2 (drop 3 (drop 1 bs)))))
    from_distance = AllBytes-drop 1 _ (AllBytes-drop 1 _ (AllBytes-drop 2 _ from_temperature))

    from_value : AllBytes (drop 4 (drop 4 (drop 1 (drop 1 (drop 2 (drop 3 (drop 1 bs)))))))
    from_value = AllBytes-drop 4 _ (AllBytes-drop 4 _ from_distance)

    from_kernel_sequence :
        AllBytes (drop 3 (drop 1 (drop 4 (drop 4 (drop 1 (drop 1 (drop 2 (drop 3 (drop 1 bs)))))))))
    from_kernel_sequence = AllBytes-drop 3 _ (AllBytes-drop 1 _ from_value)

pub decode_header-IsReceived :
    (bs : Bytes) → AllBytes bs → ManagerInvariant.IsReceived (decode_header bs).3
unfolding decode_header
decode_header-IsReceived bs h =
    get_state-IsReceived (drop 6 (drop 1 (drop 1 bs)))
      (AllBytes-drop 6 _ (AllBytes-drop 1 _ (AllBytes-drop 1 bs h)))
