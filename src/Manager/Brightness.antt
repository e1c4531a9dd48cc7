-- ===== src/Manager/Brightness.antt =====
-- src/state_manager.cpp: the LED's color and brightness.
use mesh_visualization.Prelude.{
  ℕ, zero, suc, ◌≡◌, refl, ◌∙◌, true, false, some, [], ◌∷◌, arith, Bytes,
}
use mesh_visualization.Floats.{FloatUnit, float_zero, float_255}
use mesh_visualization.Manager.{Manager}
use mesh_visualization.Manager.Led.{update_led_color, set_led_highlight, brightness_of_value}

-- Steps of the main loop's fade.
pub updates : FloatUnit → ℕ → Manager → Manager
updates fpu zero m = m
updates fpu (suc n) m = updates fpu n (update_led_color fpu m)

abbrev pub red : Bytes
red = 255 ∷ 0 ∷ 0 ∷ []

updates_highlighted :
    (fpu : FloatUnit) (n : ℕ) (m : Manager)
    → m.led_highlight_enabled ≡ true
    → m.node_state.color ≡ red
    → (m.led_strip ≡ true → m.pixel ≡ some red)
    → let t = updates fpu n m in
      (t.node_state.color ≡ red) × (t.led_strip ≡ true → t.pixel ≡ some red)
unfolding updates
updates_highlighted fpu zero m h c p = (c, p)
updates_highlighted fpu (suc n) m h c p =
    updates_highlighted fpu n (update_led_color fpu m) (unfold update_led_color in ground arith)
      (unfold update_led_color in ground arith) (λ e. unfold update_led_color in ground arith)

updates_strip : (fpu : FloatUnit) (n : ℕ) (m : Manager) → (updates fpu n m).led_strip ≡ m.led_strip
unfolding updates
updates_strip fpu zero m = refl
updates_strip fpu (suc n) m =
    updates_strip fpu n (update_led_color fpu m) ∙ (unfold update_led_color in ground arith)

-- A highlighted node with an LED shows red, in its state and on the LED, however often the color
-- is updated; and when the highlight ends the color is the grey of the node's value at once.
pub set_led_highlight_lem :
    (fpu : FloatUnit) (n : ℕ) (m : Manager)
    → m.led_strip ≡ true
    → let t = updates fpu n (set_led_highlight fpu true m) in
      let u = set_led_highlight fpu false t in
      let grey = fpu.to_uint8 (brightness_of_value t.node_state.value) in
      (t.node_state.color ≡ red)
      × (t.pixel ≡ some red)
      × (u.node_state.color ≡ grey ∷ grey ∷ grey ∷ [])
      × (u.led_highlight_enabled ≡ false)
unfolding set_led_highlight
set_led_highlight_lem fpu n m lit =
    let h =
      updates_highlighted fpu n (set_led_highlight fpu true m) refl refl (λ e. ground arith) in
    (
      h.0,
      h.1 (updates_strip fpu n (set_led_highlight fpu true m) ∙ (ground (arith, lit))),
      refl,
      refl,
    )

-- The brightness that is converted to a byte lies between 0 and 255, if the comparisons of these
-- two numbers are right.
update_led_color_bounded :
    (fpu : FloatUnit) (m : Manager)
    → fpu.lt float_255 float_255 ≡ false
    → fpu.lt float_zero float_zero ≡ false
    → fpu.lt float_255 float_zero ≡ false
    → let b = (update_led_color fpu m).current_brightness in
      (fpu.lt float_255 b ≡ false) × (fpu.lt b float_zero ≡ false)
unfolding update_led_color
update_led_color_bounded fpu m a b c = (ground arith, ground arith)
