-- ===== src/Floats.antt =====
-- The arithmetic of the floating-point unit. A `float` is its IEEE 754 pattern of 32 bits and a
-- `double` its pattern of 64 bits; the operations are the hardware's and the compiler's, so they
-- are fields of a record that the code which computes with floats takes as an argument.
use mesh_visualization.Prelude.{ℕ, Bool, Option, Bytes}
use mesh_visualization.Prelude.Int.{ℤ}

abbrev pub float_zero : ℕ
float_zero = 0x0000_0000

abbrev pub float_one : ℕ
float_one = 0x3f80_0000

-- 0.5f
abbrev pub float_half : ℕ
float_half = 0x3f00_0000

-- 25.0f
abbrev pub float_25 : ℕ
float_25 = 0x41c8_0000

-- 30.0f
abbrev pub float_30 : ℕ
float_30 = 0x41f0_0000

-- 10000.0f
abbrev pub float_10000 : ℕ
float_10000 = 0x461c_4000

-- 255.0f
abbrev pub float_255 : ℕ
float_255 = 0x437f_0000

-- 80.0f
abbrev pub float_80 : ℕ
float_80 = 0x42a0_0000

-- 0.0001f
abbrev pub float_tolerance : ℕ
float_tolerance = 0x38d1_b717

-- 0.1, the double TRANSITION_SPEED
abbrev pub transition_speed : ℕ
transition_speed = 0x3fb9_9999_9999_999a

-- 10.0, the double TEMPERATURE_SCALE
abbrev pub temperature_scale : ℕ
temperature_scale = 0x4024_0000_0000_0000

-- One rounded operation each. A comparison with a NaN is false.
pub record FloatUnit : Type 0 where
  pub add : ℕ → ℕ → ℕ
  pub sub : ℕ → ℕ → ℕ
  pub mul : ℕ → ℕ → ℕ
  pub div : ℕ → ℕ → ℕ
  pub lt : ℕ → ℕ → Bool
  pub le : ℕ → ℕ → Bool
  pub abs : ℕ → ℕ
  pub add_double : ℕ → ℕ → ℕ
  pub mul_double : ℕ → ℕ → ℕ
  pub div_double : ℕ → ℕ → ℕ
  -- conversions
  pub widen : ℕ → ℕ
  pub narrow : ℕ → ℕ
  pub of_int : ℤ → ℕ
  pub double_of_int : ℤ → ℕ
  pub to_uint8 : ℕ → ℕ
  pub double_to_int16 : ℕ → ℤ
  -- `==`, by which a NaN differs from every number.
  pub eq : ℕ → ℕ → Bool
  -- The float at the start of a text and the number of bytes that it takes, if one stands there:
  -- for `strtof`, and for `%f` of `sscanf`.
  pub strtof : Bytes → Option (ℕ × ℕ)
  pub scan : Bytes → Option (ℕ × ℕ)
  -- The text of `%.*f` at a number of digits.
  pub print : ℕ → ℕ → Bytes
