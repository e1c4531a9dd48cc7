-- ===== src/Wire/RoundTrip.antt =====
-- The messages come back from their bytes, and have the sizes that the receivers test.
use mesh_visualization.Prelude.{
  ℕ, zero, suc, ◌+◌, ◌<◌, ◌≡◌, refl, true, List, [], ◌∷◌, arith, length, All, length-append,
  take-append, drop-append, Bytes,
}
use mesh_visualization.Prelude.Int.{ℤ, pos, negsuc, ◌≤ℤ◌}
use mathlib.Core.List.{append_assoc}
use mesh_visualization.Config.{kernel_size, max_activations, u32_mod}
use mesh_visualization.State.{NodeState, ActivationRule, Mac}
use mesh_visualization.Wire.Checksum.{verify-sealed}
use mesh_visualization.Wire.{
  put_u16, put_u32, put_i16, put_words, put_rules, get_u32, get_i16, get_words, get_rules,
  put_state, get_state, checksum_at, command_checksum_offset, command_size,
  local_status_checksum_offset, local_status_size, sealed,
}
use mesh_visualization.Wire.Messages.{
  Command, command_body, encode_command, decode_command, verify_command_checksum, LocalStatus,
  local_status_body, encode_local_status, decode_local_status, verify_local_status_checksum,
}

abbrev pub IsByte : ℕ → Type 0
IsByte n = n < 256

abbrev pub IsWord : ℕ → Type 0
IsWord n = n < u32_mod

-- -32768 .. 32767
abbrev IsInt16 : ℤ → Type 0
IsInt16 a = (negsuc 32767 ≤ℤ a) × (a ≤ℤ pos 32767)

abbrev pub IsMac : Mac → Type 0
IsMac m = length m ≡ 6

get-put_u32 : (v : ℕ) (rest : Bytes) → IsWord v → (get_u32 (put_u32 v rest)).0 ≡ v
get-put_u32 v rest h = omega arith

get-put_i16 : (v : ℤ) (rest : Bytes) → IsInt16 v → (get_i16 (put_i16 v rest)).0 ≡ v
get-put_i16 (pos n) rest h = ground arith
get-put_i16 (negsuc n) rest h = ground arith

get-put_words :
    (ws : List ℕ) (rest : Bytes) {n : ℕ}
    → length ws ≡ n
    → All IsWord ws
    → get_words n (put_words ws rest) ≡ (ws, rest)
unfolding get_words
get-put_words [] rest {n = zero} l h = refl
get-put_words [] rest {n = suc n} l h = absurd (omega arith)
get-put_words (w ∷ ws) rest {n = zero} l h = absurd (omega arith)
get-put_words (w ∷ ws) rest {n = suc n} l h =
    rw (get-put_u32 w (put_words ws rest) h.0, get-put_words ws rest {n = n} (omega arith) h.1) refl

abbrev IsRule : ActivationRule → Type 0
IsRule r = IsWord r.value

get-put_rules :
    (rs : List ActivationRule) (rest : Bytes) {n : ℕ}
    → length rs ≡ n
    → All IsRule rs
    → get_rules n (put_rules rs rest) ≡ (rs, rest)
unfolding get_rules
get-put_rules [] rest {n = zero} l h = refl
get-put_rules [] rest {n = suc n} l h = absurd (omega arith)
get-put_rules (r ∷ rs) rest {n = zero} l h = absurd (omega arith)
get-put_rules (r ∷ rs) rest {n = suc n} l h =
    rw
      (get-put_u32 r.value (put_rules rs rest) h.0, get-put_rules rs rest {n = n} (omega arith) h.1)
      refl

-- The fields of a state have the values that their C types hold.
pub record IsState (s : NodeState) : Type 0 where
  pub color : length s.color ≡ 3
  pub temperature : IsInt16 s.temperature
  pub mmwave_distance : IsWord s.mmwave_distance
  pub timestamp : IsWord s.timestamp
  pub kernel_sequence : IsWord s.kernel_sequence
  pub value_sequence : IsWord s.value_sequence
  pub activation_sequence : IsWord s.activation_sequence
  pub kernel_length : length s.kernel ≡ kernel_size
  pub kernel : All IsWord s.kernel
  pub rules_length : length s.activations ≡ max_activations
  pub rules : All IsRule s.activations
  pub activation_sum : IsWord s.activation_sum

pub length-sealed :
    (len : ℕ) (body padding : Bytes)
    → length (sealed len body padding) ≡ length body + 2 + length padding
length-sealed len body padding =
    omega (arith, length-append body (put_u16 (checksum_at len body) padding))

-- A state is read back from its bytes, whatever follows them.
pub get-put_state :
    (s : NodeState) (rest : Bytes) → IsState s → get_state (put_state s rest) ≡ (s, rest)
unfolding get_state put_state
get-put_state s rest h =
    rw
      (
        take-append s.color _ h.color,
        drop-append s.color _ h.color,
        get-put_i16 s.temperature [] h.temperature,
        get-put_u32 s.mmwave_distance [] h.mmwave_distance,
        get-put_u32 s.timestamp [] h.timestamp,
        get-put_u32 s.kernel_sequence [] h.kernel_sequence,
        get-put_u32 s.value_sequence [] h.value_sequence,
        get-put_u32 s.activation_sequence [] h.activation_sequence,
        get-put_words s.kernel _ h.kernel_length h.kernel,
        get-put_rules s.activations _ h.rules_length h.rules,
        get-put_u32 s.activation_sum [] h.activation_sum,
      )
      refl

pub record IsCommand (c : Command) : Type 0 where
  pub target_mac : IsMac c.target_mac
  pub sequence : IsWord c.sequence

-- A command with a target of six bytes and a sequence number of 32 bits arrives with the size, the
-- checksum and the fields that it was sent with.
pub decode-encode_command :
    (c : Command)
    → IsCommand c
    → (length (encode_command c) ≡ command_size)
      × (verify_command_checksum (encode_command c) ≡ true)
      × (decode_command (encode_command c) ≡ c)
unfolding encode_command decode_command command_body verify_command_checksum
decode-encode_command c h = (
  omega (arith, length-sealed command_checksum_offset (command_body c) (0 ∷ 0 ∷ []), size),
  verify-sealed command_checksum_offset (command_body c) (0 ∷ 0 ∷ []) size,
  rw
      (
        append_assoc c.target_mac,
        take-append c.target_mac _ h.target_mac,
        drop-append c.target_mac _ h.target_mac,
        get-put_u32 c.sequence [] h.sequence,
      )
      refl,
)
  where
    size : length (command_body c) ≡ command_checksum_offset
    size = omega (
      arith,
      length-append c.target_mac (c.command ∷ c.value ∷ 0 ∷ 0 ∷ put_u32 c.sequence []),
      h.target_mac,
    )

pub record IsLocalStatus (s : LocalStatus) : Type 0 where
  pub mac : IsMac s.mac
  pub temperature : IsInt16 s.temperature
  pub mmwave_distance : IsWord s.mmwave_distance
  pub timestamp : IsWord s.timestamp
  pub value_sequence : IsWord s.value_sequence

-- A local status whose fields have the sizes and ranges of their C types arrives with the size,
-- the checksum and the fields that it was sent with.
pub decode-encode_local_status :
    (s : LocalStatus)
    → IsLocalStatus s
    → (length (encode_local_status s) ≡ local_status_size)
      × (verify_local_status_checksum (encode_local_status s) ≡ true)
      × (decode_local_status (encode_local_status s) ≡ s)
unfolding encode_local_status decode_local_status local_status_body verify_local_status_checksum
decode-encode_local_status s h = (
  omega
      (arith, length-sealed local_status_checksum_offset (local_status_body s) (0 ∷ 0 ∷ []), size),
  verify-sealed local_status_checksum_offset (local_status_body s) (0 ∷ 0 ∷ []) size,
  rw
      (
        append_assoc s.mac,
        take-append s.mac _ h.mac,
        drop-append s.mac _ h.mac,
        get-put_i16 s.temperature [] h.temperature,
        get-put_u32 s.mmwave_distance [] h.mmwave_distance,
        get-put_u32 s.timestamp [] h.timestamp,
        get-put_u32 s.value_sequence [] h.value_sequence,
      )
      refl,
)
  where
    size : length (local_status_body s) ≡ local_status_checksum_offset
    size = rw (length-append s.mac, h.mac) refl
