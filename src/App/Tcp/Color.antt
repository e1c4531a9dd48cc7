-- ===== src/App/Tcp/Color.antt =====
-- src/main.cpp: SET_COLOR, as a client of the TCP server writes it.
use mesh_visualization.Prelude.{
  ℕ, zero, suc, ◌≤◌, ◌<◌, ◌≡◌, refl, sym, ap, ◌∙◌, false, some, [], ◌∷◌, ◌++◌, arith, ◌==◌,
  if◌then◌else◌, length, All, length-append, Bytes, codes, bytes_eq,
}
use mathlib.Core.List.{append-nil}
use mesh_visualization.Manager.Led.{set_led_color}
use mesh_visualization.Printf.{decimal}
use mesh_visualization.Node.{Node, World}
use mesh_visualization.Text.{scan_uint8, c_string, skip_ws, expect, take_word, take_until}
use mesh_visualization.Text.Search.{c_string-append}
use mesh_visualization.Text.Numbers.{scan_uint8-decimal, IsNumberByte, decimal-IsNumberByte}
use mesh_visualization.App.Tcp.Answers.{scanned, scan_command-scanned}
use mesh_visualization.App.Tcp.{
  Answer, Chunk, or_stale, scan_command, scan_color, with_manager, set_color_command,
  run_tcp_command, receive_chunk,
}
use mesh_visualization.Mqtt.Lengths.{length-decimal-le}

-- The arguments: three numbers with commas between them.
abbrev color_args : ℕ → ℕ → ℕ → Bytes
color_args r g b = decimal r ++ (b',' ∷ (decimal g ++ (b',' ∷ decimal b)))

abbrev pub set_color_text : ℕ → ℕ → ℕ → Bytes
set_color_text r g b = codes "SET_COLOR " ++ (color_args r g b ++ codes "\n")

scan_uint8-decimal_end : (b : ℕ) → b < 256 → scan_uint8 (decimal b) ≡ some (b, [])
scan_uint8-decimal_end b h =
    ap scan_uint8 (sym (append-nil (decimal b))) ∙ scan_uint8-decimal b [] h tt

scan_color-args :
    (r g b : ℕ) → r < 256 → g < 256 → b < 256 → scan_color (color_args r g b) ≡ some (r, g, b)
unfolding scan_color expect
scan_color-args r g b hr hg hb =
    rw
      (
        scan_uint8-decimal r (b',' ∷ (decimal g ++ (b',' ∷ decimal b))) hr refl,
        scan_uint8-decimal g (b',' ∷ decimal b) hg refl,
        scan_uint8-decimal_end b hb,
      )
      refl

numbers-append :
    (xs ys : Bytes) → All IsNumberByte xs → All IsNumberByte ys → All IsNumberByte (xs ++ ys)
numbers-append [] ys h k = k
numbers-append (x ∷ xs) ys h k = (h.0, numbers-append xs ys h.1 k)

color_args-IsNumberByte : (r g b : ℕ) → All IsNumberByte (color_args r g b)
color_args-IsNumberByte r g b = numbers-append (decimal r) _ (decimal-IsNumberByte r) (
  (omega arith, omega arith),
  numbers-append (decimal g) _ (decimal-IsNumberByte g)
      ((omega arith, omega arith), decimal-IsNumberByte b),
)

-- Such bytes are taken up to the end of the line.
take_until-numbers :
    (size : ℕ) (p : Bytes)
    → length p ≤ size
    → All IsNumberByte p
    → take_until b'\n' size (p ++ codes "\n") ≡ p
unfolding take_until
take_until-numbers zero [] h k = refl
take_until-numbers (suc size) [] h k = refl
take_until-numbers zero (c ∷ cs) h k = absurd (omega arith)
take_until-numbers (suc size) (c ∷ cs) h k =
    let other : (c == b'\n') ≡ false = ground arith in
    rw (other, take_until-numbers size cs (omega arith) k.1) refl

skip_ws-numbers :
    (p rest : Bytes) → 0 < length p → All IsNumberByte p → skip_ws (p ++ rest) ≡ p ++ rest
unfolding skip_ws
skip_ws-numbers [] rest h k = absurd (omega arith)
skip_ws-numbers (c ∷ cs) rest h k = ground arith

numbers-positive : (p : Bytes) → All IsNumberByte p → All (λ c. 0 < c) p
numbers-positive [] k = tt
numbers-positive (c ∷ cs) k = (omega arith, numbers-positive cs k.1)

or_stale-present : (stale p : Bytes) → 0 < length p → or_stale stale p ≡ p
or_stale-present stale [] h = absurd (omega arith)
or_stale-present stale (c ∷ cs) h = refl

length-color_args : (r g b : ℕ) → (0 < length (color_args r g b)) × (length (color_args r g b) ≤ 32)
length-color_args r g b =
    let tail = b',' ∷ decimal b in
    let rest = b',' ∷ (decimal g ++ tail) in
    let one = length-append (decimal r) rest in
    let two = length-append (decimal g) tail in
    (
      omega (arith, one),
      omega (arith, one, two, length-decimal-le r, length-decimal-le g, length-decimal-le b),
    )

take_word-command :
    (rest : Bytes)
    → take_word 63 (skip_ws (codes "SET_COLOR " ++ rest)) ≡ (codes "SET_COLOR", b' ' ∷ rest)
unfolding skip_ws take_word
take_word-command rest = refl

scanned-command :
    (stale rest : Bytes)
    → scanned stale (codes "SET_COLOR", b' ' ∷ rest)
      ≡ some (codes "SET_COLOR", or_stale stale (take_until b'\n' 255 (skip_ws rest)))
unfolding scanned skip_ws
scanned-command stale rest = refl

c_string-command :
    (rest : Bytes) → c_string (codes "SET_COLOR " ++ rest) ≡ codes "SET_COLOR " ++ c_string rest
unfolding c_string
c_string-command rest = refl

c_string-line :
    (args : Bytes) → All IsNumberByte args → c_string (args ++ codes "\n") ≡ args ++ codes "\n"
unfolding c_string
c_string-line args h = c_string-append args (codes "\n") (numbers-positive args h)

args_read :
    (stale args : Bytes)
    → 0 < length args
    → length args ≤ 255
    → All IsNumberByte args
    → or_stale stale (take_until b'\n' 255 (skip_ws (args ++ codes "\n"))) ≡ args
args_read stale args present short plain =
    ap (λ p. or_stale stale (take_until b'\n' 255 p))
      (skip_ws-numbers args (codes "\n") present plain)
    ∙ ap (or_stale stale) (take_until-numbers 255 args short plain)
    ∙ or_stale-present stale args present

scan_command-color :
    (r g b : ℕ) (stale : Bytes)
    → scan_command (record { received = set_color_text r g b; stale = stale })
      ≡ some (codes "SET_COLOR", color_args r g b)
scan_command-color r g b stale =
    let args = color_args r g b in
    let plain = color_args-IsNumberByte r g b in
    let size = length-color_args r g b in
    let text = args ++ codes "\n" in
    scan_command-scanned (record { received = set_color_text r g b; stale = stale })
    ∙ ap (λ p. scanned stale (take_word 63 (skip_ws p)))
        (c_string-command text ∙ ap (λ p. codes "SET_COLOR " ++ p) (c_string-line args plain))
    ∙ ap (scanned stale) (take_word-command text)
    ∙ scanned-command stale text
    ∙ ap (λ p. some (codes "SET_COLOR", p))
        (args_read stale args size.0 (omega (arith, size)) plain)

run_tcp_command-color :
    (w : World) (args : Bytes) (n : Node)
    → run_tcp_command w (codes "SET_COLOR") args n ≡ set_color_command args n
unfolding run_tcp_command bytes_eq
run_tcp_command-color w args n = refl

set_color_command-scanned :
    (args : Bytes) (r g b : ℕ) (n : Node)
    → scan_color args ≡ some (r, g, b)
    → set_color_command args n
      ≡ (with_manager (set_led_color r g b n.manager) n, codes "OK: Color updated\n")
unfolding set_color_command
set_color_command-scanned args r g b n e = rw (e, set_color_command) refl

receive_chunk-scanned :
    (w : World) (chunk : Chunk) (n : Node) (cmd args : Bytes)
    → scan_command chunk ≡ some (cmd, args)
    → receive_chunk w chunk n
      ≡ ((run_tcp_command w cmd args n).0, (run_tcp_command w cmd args n).1 ∷ [])
unfolding receive_chunk
receive_chunk-scanned w chunk n cmd args e = rw (e, receive_chunk) refl

-- A client that sends SET_COLOR with three bytes in decimal and commas between them, as the text
-- of one line, gets that the color is set; the color of the state is then these three bytes, and
-- so is that of the LED, if there is one.
pub receive_chunk-set_color :
    (w : World) (r g b : ℕ) (stale : Bytes) (n : Node)
    → r < 256
    → g < 256
    → b < 256
    → let t = receive_chunk w (record { received = set_color_text r g b; stale = stale }) n in
      (t.1 ≡ codes "OK: Color updated\n" ∷ [])
      × (t.0.manager.node_state.color ≡ r ∷ g ∷ b ∷ [])
      × (t.0.manager.pixel
          ≡ (if n.manager.led_strip then some (r ∷ g ∷ b ∷ []) else n.manager.pixel))
unfolding set_led_color
receive_chunk-set_color w r g b stale n hr hg hb =
    let args = color_args r g b in
    let whole =
      receive_chunk-scanned w (record { received = set_color_text r g b; stale = stale }) n
        (codes "SET_COLOR") args (scan_command-color r g b stale)
      ∙ ap (λ (a : Answer). (a.0, a.1 ∷ []))
          (run_tcp_command-color w args n
            ∙ set_color_command-scanned args r g b n (scan_color-args r g b hr hg hb)) in
    (
      ap (λ t. t.1) whole,
      ap (λ t. t.0.manager.node_state.color) whole,
      ap (λ t. t.0.manager.pixel) whole,
    )
