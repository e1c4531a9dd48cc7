-- ===== src/Mqtt/Command/Targeted.antt =====
-- src/mqtt_handler.cpp: the commands for one node that the visualization sends,
-- `publishToggleCommand` and `publishHighlightCommand` of visualization/app/server.js.
use mesh_visualization.Prelude.{
  ℕ, zero, suc, ◌/◌, ◌%◌, ◌≤◌, ◌<◌, ◌≡◌, refl, ap, ◌∙◌, Bool, true, false, some, [], ◌∷◌, ◌++◌,
  arith, ◌==◌, if◌then◌else◌, length, drop, All, Bytes, codes, bytes_eq,
}
use mesh_visualization.Printf.{nibble}
use mesh_visualization.State.{Mac}
use mesh_visualization.Text.{◌>>=◌, c_string, skip_ws, starts, strstr, strchr, expect}
use mesh_visualization.Text.Search.{
  is_clear, strstr-append, strstr-printed, strstr_step, c_string-append,
}
use mesh_visualization.Wire.RoundTrip.{IsMac}
use mesh_visualization.Node.{Node, send_mesh_toggle_command, send_mesh_highlight_command}
use mesh_visualization.Mqtt.{mac_text}
use mesh_visualization.Mqtt.Fields.{
  after_name, string_bytes, non_empty, parse_string_field, parse_bool_field, is_true,
}
use mesh_visualization.Mqtt.Fields.Address.{
  IsByte, IsPrinted, mac_text-IsPrinted, length-mac_text, parse_mac_string-mac_text,
}
use mesh_visualization.Mqtt.Command.{Host, target_of, sent, command_to, handle_mqtt_command}

string_bytes-printed :
    (size : ℕ) (p rest : Bytes)
    → All IsPrinted p
    → length p ≤ size
    → string_bytes size (p ++ (b'"' ∷ rest)) ≡ p
unfolding string_bytes
string_bytes-printed zero [] rest h s = refl
string_bytes-printed (suc size) [] rest h s = refl
string_bytes-printed zero (c ∷ cs) rest h s = absurd (omega arith)
string_bytes-printed (suc size) (c ∷ cs) rest h s =
    let other : (c == b'"') ≡ false = ground arith in
    rw (other, string_bytes-printed size cs rest h.1 (omega arith)) refl

non_empty-lem : (p : Bytes) → 0 < length p → non_empty p ≡ some p
non_empty-lem [] h = absurd (omega arith)
non_empty-lem (c ∷ cs) h = refl

-- The field of the target, and what follows.
abbrev target_field : Mac → Bytes → Bytes
target_field mac tail = codes "\"target_mac\":\"" ++ (mac_text mac ++ (b'"' ∷ tail))

target_of-field :
    (before : Bytes) (mac : Mac) (tail : Bytes)
    → is_clear (codes "\"target_mac\"") before ≡ true
    → IsMac mac
    → All IsByte mac
    → target_of (before ++ target_field mac tail) ≡ some mac
unfolding target_of parse_string_field after_name strstr strchr skip_ws expect
target_of-field before mac tail clear six bytes =
    let size = length-mac_text mac six in
    rw
      (
        strstr-append (codes "\"target_mac\"") before (target_field mac tail) clear,
        string_bytes-printed 17 (mac_text mac) tail (mac_text-IsPrinted mac) (omega (arith, size)),
        non_empty-lem (mac_text mac) (omega (arith, size)),
        parse_mac_string-mac_text mac six bytes,
      )
      refl

-- The texts of the two commands; `tail` is what the sender puts behind.
abbrev pub toggle_command : Mac → Bytes → Bytes
toggle_command mac tail = codes "{\"command\":\"toggle\"," ++ target_field mac tail

abbrev bool_text : Bool → Bytes
bool_text on = if on then codes "true" else codes "false"

abbrev pub highlight_command : Mac → Bool → Bytes → Bytes
highlight_command mac on tail =
    codes "{\"command\":\"highlight\","
    ++ target_field mac (codes ",\"enabled\":" ++ (bool_text on ++ tail))

Printed-positive : (p : Bytes) → All IsPrinted p → All (λ c. 0 < c) p
Printed-positive [] h = tt
Printed-positive (c ∷ cs) h = (omega arith, Printed-positive cs h.1)

c_string-field :
    (mac : Mac) (tail : Bytes) → c_string (target_field mac tail) ≡ target_field mac (c_string tail)
unfolding c_string
c_string-field mac tail =
    rw
      (c_string-append (mac_text mac) (b'"' ∷ tail)
        (Printed-positive (mac_text mac) (mac_text-IsPrinted mac)))
      refl

starts-quoted :
    (c d : ℕ) (rest : Bytes) → d < b'n' → starts (codes "\"enabled\"") (b'"' ∷ c ∷ d ∷ rest) ≡ false
unfolding starts
starts-quoted c d rest h = ground arith

-- The name "enabled" does not begin at the quote in front of an address.
strstr-quoted :
    (mac : Mac) (rest : Bytes)
    → IsMac mac
    → strstr (b'"' ∷ (mac_text mac ++ rest)) (codes "\"enabled\"")
      ≡ strstr rest (codes "\"enabled\"")
strstr-quoted [] rest six = absurd (omega arith)
strstr-quoted (b ∷ bs) rest six =
    strstr_step (codes "\"enabled\"") b'"' (mac_text (b ∷ bs) ++ rest)
      (starts-quoted (nibble (b / 16 % 16)) (nibble (b % 16)) _ (ground arith))
    ∙ strstr-printed (codes "enabled\"") (mac_text (b ∷ bs)) rest (mac_text-IsPrinted (b ∷ bs))

flag_lem :
    (on : Bool) (tail : Bytes)
    → is_true (do
      p ← strstr (codes "\",\"enabled\":" ++ (bool_text on ++ tail)) (codes "\"enabled\"")
      q ← strchr (drop 9 p) b':'
      some (skip_ws (drop 1 q)))
      ≡ on
unfolding strstr starts strchr skip_ws
flag_lem true tail = refl
flag_lem false tail = refl

parse_bool_field-enabled :
    (mac : Mac) (on : Bool) (tail : Bytes)
    → IsMac mac
    → parse_bool_field (highlight_command mac on tail) (codes "enabled") ≡ on
parse_bool_field-enabled mac on tail six =
    let flag = codes "\",\"enabled\":" ++ (bool_text on ++ tail) in
    let found : strstr (highlight_command mac on tail) (codes "\"enabled\"")
        ≡ strstr flag (codes "\"enabled\"") =
      strstr-append (codes "\"enabled\"") (codes "{\"command\":\"highlight\",\"target_mac\":")
        (b'"' ∷ (mac_text mac ++ flag)) (unfold is_clear in refl)
      ∙ strstr-quoted mac flag six in
    unfold parse_bool_field after_name in rw found (flag_lem on tail)

module _ (h : Host) (mac : Mac) (n : Node) where
  handle_read :
      (payload : Bytes)
      → h.allocated ≡ true
      → target_of (c_string payload) ≡ some mac
      → handle_mqtt_command h payload n ≡ command_to h (c_string payload) mac n
  unfolding handle_mqtt_command
  handle_read payload a t = rw (a, t) refl

  handle_target :
      (payload json : Bytes)
      → h.allocated ≡ true
      → c_string payload ≡ json
      → target_of json ≡ some mac
      → handle_mqtt_command h payload n ≡ command_to h json mac n
  handle_target payload json a e t =
      handle_read payload a (ap target_of e ∙ t) ∙ ap (λ j. command_to h j mac n) e

  command_to-toggle :
      (tail : Bytes)
      → command_to h (toggle_command mac tail) mac n ≡ sent (send_mesh_toggle_command h.world mac n)
  unfolding command_to parse_string_field after_name strstr starts strchr skip_ws expect
      string_bytes bytes_eq
  command_to-toggle tail = refl

  command_to-highlight :
      (json : Bytes)
      → parse_string_field json (codes "command") 32 ≡ some (codes "highlight")
      → command_to h json mac n
        ≡ sent (send_mesh_highlight_command h.world mac (parse_bool_field json (codes "enabled")) n)
  unfolding command_to bytes_eq
  command_to-highlight json e = rw e refl

command_name :
    (mac : Mac) (on : Bool) (tail : Bytes)
    → parse_string_field (highlight_command mac on tail) (codes "command") 32
      ≡ some (codes "highlight")
unfolding parse_string_field after_name strstr starts strchr skip_ws expect string_bytes
command_name mac on tail = refl

c_string-command :
    (before : Bytes) (mac : Mac) (tail : Bytes)
    → All (λ c. 0 < c) before
    → c_string (before ++ target_field mac tail) ≡ before ++ target_field mac (c_string tail)
c_string-command before mac tail h =
    c_string-append before (target_field mac tail) h
    ∙ ap (λ t. before ++ t) (c_string-field mac tail)

c_string-flag :
    (on : Bool) (tail : Bytes)
    → c_string (codes ",\"enabled\":" ++ (bool_text on ++ tail))
      ≡ codes ",\"enabled\":" ++ (bool_text on ++ c_string tail)
unfolding c_string
c_string-flag true tail = refl
c_string-flag false tail = refl

-- The two texts that the visualization sends for one node, whatever is behind the target or the
-- flag, are handled by sending that node, of six bytes, the command, with the flag as it was
-- given, and by nothing else, if the copy of the text can be allocated.
pub handle_mqtt_command_targeted :
    (h : Host) (mac : Mac) (on : Bool) (tail : Bytes) (n : Node)
    → h.allocated ≡ true
    → IsMac mac
    → All IsByte mac
    → (handle_mqtt_command h (toggle_command mac tail) n
        ≡ sent (send_mesh_toggle_command h.world mac n))
      × (handle_mqtt_command h (highlight_command mac on tail) n
          ≡ sent (send_mesh_highlight_command h.world mac on n))
handle_mqtt_command_targeted h mac on tail n allocated six bytes =
    let toggle = codes "{\"command\":\"toggle\"," in
    let highlight = codes "{\"command\":\"highlight\"," in
    let flag = codes ",\"enabled\":" ++ (bool_text on ++ tail) in
    let flag' = codes ",\"enabled\":" ++ (bool_text on ++ c_string tail) in
    let json = highlight_command mac on (c_string tail) in
    (
      handle_target h mac n (toggle_command mac tail) (toggle_command mac (c_string tail)) allocated
            (c_string-command toggle mac tail (ground arith))
            (target_of-field toggle mac (c_string tail) (unfold is_clear in refl) six bytes)
          ∙ command_to-toggle h mac n (c_string tail),
      handle_target h mac n (highlight_command mac on tail) json allocated
            (c_string-command highlight mac flag (ground arith)
              ∙ ap (λ t. highlight ++ target_field mac t) (c_string-flag on tail))
            (target_of-field highlight mac flag' (unfold is_clear in refl) six bytes)
          ∙ command_to-highlight h mac n json (command_name mac on (c_string tail))
          ∙ ap (λ b. sent (send_mesh_highlight_command h.world mac b n))
              (parse_bool_field-enabled mac on (c_string tail) six),
    )
