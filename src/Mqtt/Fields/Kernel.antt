-- ===== src/Mqtt/Fields/Kernel.antt =====
-- src/mqtt_handler.cpp: `parse_float_array_field` reads the kernel that a node publishes.
use mesh_visualization.Prelude.{
  ℕ, zero, suc, ◌≡◌, refl, inl, inr, true, some, List, [], ◌∷◌, ◌++◌, map, arith, length, All,
  Bytes, codes,
}
use mathlib.Core.List.{append_assoc}
use mesh_visualization.Floats.{FloatUnit}
use mesh_visualization.Printf.{join}
use mesh_visualization.Text.{skip_ws, starts, strstr, strchr, expect}
use mesh_visualization.Text.Search.{is_clear, strstr-append}
use mesh_visualization.Mqtt.Lists.{array}
use mesh_visualization.Mqtt.Fields.{after_name, read_floats, parse_float_array_field}
use mesh_visualization.Mqtt.Fields.Element.{ReadsBack, strtof-written}

module _ (fpu : FloatUnit) (rest : Bytes) where
  abbrev texts : Bytes → List ℕ → Bytes
  texts sep values = join (map (λ p. sep ++ p) (map (fpu.print 4) values)) ++ b']' ∷ rest

  read_floats-written :
      (k value : ℕ) (values : List ℕ)
      → length values ≡ k
      → All (ReadsBack fpu) (value ∷ values)
      → read_floats fpu (suc k) (fpu.print 4 value ++ texts (codes ",") values)
        ≡ some (value ∷ values)
  unfolding read_floats skip_ws expect
  read_floats-written zero value [] size r =
      rw (strtof-written fpu value r.0 b']' rest (inr (inl refl))) refl
  read_floats-written zero value (v ∷ values) size r = absurd (omega arith)
  read_floats-written (suc k) value [] size r = absurd (omega arith)
  read_floats-written (suc k) value (v ∷ values) size r =
      rw
        (
          append_assoc (fpu.print 4 v) (join (map (λ p. codes "," ++ p) (map (fpu.print 4) values)))
              (b']' ∷ rest),
          strtof-written fpu value r.0 b',' (fpu.print 4 v ++ texts (codes ",") values)
              (inr (inr refl)),
          read_floats-written k v values (omega arith) r.1,
        )
        refl

-- A text in which the name "kernel" first stands in front of an array as a node publishes it, of
-- at least one value and of values that `strtof` reads back, is read as exactly these values.
pub parse_float_array_field-array :
    (fpu : FloatUnit) (before : Bytes) (value : ℕ) (values : List ℕ) (rest : Bytes)
    → is_clear (codes "\"kernel\"") before ≡ true
    → All (ReadsBack fpu) (value ∷ values)
    → parse_float_array_field fpu
        (before ++ (codes "\"kernel\":" ++ (array (map (fpu.print 4) (value ∷ values)) ++ rest)))
        (codes "kernel")
        (length (value ∷ values))
      ≡ some (value ∷ values)
unfolding parse_float_array_field after_name strstr starts strchr
parse_float_array_field-array fpu before value values rest clear r =
    let later = join (map (λ p. codes "," ++ p) (map (fpu.print 4) values)) in
    rw
      (
        strstr-append (codes "\"kernel\"") before
            (codes "\"kernel\":" ++ (array (map (fpu.print 4) (value ∷ values)) ++ rest)) clear,
        append_assoc (fpu.print 4 value ++ later) (codes "]") rest,
        append_assoc (fpu.print 4 value) later (b']' ∷ rest),
      )
      (read_floats-written fpu rest (length values) value values refl r)
