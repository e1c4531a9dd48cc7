-- ===== src/App/Tcp/Answers.antt =====
-- src/main.cpp: the answers to a client of the TCP server.
use mesh_visualization.Prelude.{
  ℕ, zero, suc, ◌+◌, ◌≤◌, ◌≡◌, refl, ap, ◌∙◌, ◌-◌, ◌%◌, ◌++◌, ◌⊎◌, take, take_all, replicate, inl,
  inr, Bool, true, false, Option, none, some, List, [], ◌∷◌, arith, ltb, if◌then◌else◌, Bool-cases,
  Option-cases, length, length-append, Bytes, codes,
}
use mesh_visualization.Config.{max_activations, u32_mod}
use mesh_visualization.State.{ActivationRule, zero_rule}
use mesh_visualization.Floats.{FloatUnit}
use mesh_visualization.Manager.{save_state_config, describe_activation_rules, set_activation_rules}
use mesh_visualization.Node.{Node, World}
use mesh_visualization.Text.{strtol, is_space, c_string, skip_ws, take_word, take_until}
use mesh_visualization.App.Tcp.{
  Chunk, or_stale, scan_command, scan_rule, scan_rules, skip_one_comma, update_activation_command,
  receive_chunk, handle_tcp_client,
}

length-scan_rules-le :
    (fpu : FloatUnit) (room : ℕ) (p : Bytes) → length (scan_rules fpu room p) ≤ room
unfolding scan_rules
length-scan_rules-le fpu zero p = omega arith
length-scan_rules-le fpu (suc room) [] = omega arith
length-scan_rules-le fpu (suc room) (c ∷ cs) = elim (Option-cases (scan_rule fpu (c ∷ cs))) [
  | inl e ↦ rw (e, scan_rules) (omega arith)
  | inr ((rule, rest), e) ↦
      rw (e, scan_rules) (omega (arith, length-scan_rules-le fpu room (skip_one_comma fpu rest)))
]

-- From the front of a text these rules can be read, with at most one comma behind each, and what
-- is left of the text is `rest`.
pub data Reads (fpu : FloatUnit) : Bytes → List ActivationRule → Bytes → Type 0 where
  stop : {p : Bytes} → Reads fpu p [] p
  more :
      {p q rest : Bytes} {r : ActivationRule} {rules : List ActivationRule}
      → scan_rule fpu p ≡ some (r, q)
      → Reads fpu (skip_one_comma fpu q) rules rest
      → Reads fpu p (r ∷ rules) rest

no_rule : (fpu : FloatUnit) → scan_rule fpu [] ≡ none
unfolding scan_rule strtol
no_rule fpu = refl

scan_rules-Reads :
    (fpu : FloatUnit) (room : ℕ) (p : Bytes)
    → let rules = scan_rules fpu room p in
      (rest : Bytes) × Reads fpu p rules rest
      × ((length rules ≡ room) ⊎ (scan_rule fpu rest ≡ none))
unfolding scan_rules
scan_rules-Reads fpu zero p = (p, stop, inl refl)
scan_rules-Reads fpu (suc room) [] = ([], stop, inr (no_rule fpu))
scan_rules-Reads fpu (suc room) (c ∷ cs) = elim (Option-cases (scan_rule fpu (c ∷ cs))) [
  | inl e ↦ rw (e, scan_rules) (c ∷ cs, stop, inr e)
  | inr ((rule, q), e) ↦
      let (rest, reads, end) = scan_rules-Reads fpu room (skip_one_comma fpu q) in
      rw (e, scan_rules)
        (rest, more e reads, elim end [ inl full ↦ inl (ap suc full) | inr over ↦ inr over ])
]

-- UPDATE_ACTIVATION never answers that its rules are invalid. Whatever its arguments are, it
-- answers OK, and the state holds the rules that can be read from their front, up to eight of them
-- and up to the first that cannot be read, and their number; the other places of the array are
-- zero, and the 32-bit counter of the rules goes up by one.
pub update_activation_command_lem :
    (w : World) (args : Bytes) (n : Node)
    → let (t, answer) = update_activation_command w args n in
      let s = t.manager.node_state in
      (answer ≡ codes "OK: Activation updated\n")
      × ((rules : List ActivationRule) × (rest : Bytes) × Reads w.fpu args rules rest
          × ((length rules ≡ 8) ⊎ (scan_rule w.fpu rest ≡ none))
          × (s.activation_count ≡ length rules)
          × (s.activations ≡ rules ++ replicate (8 - length rules) zero_rule)
          × (s.activation_sequence ≡ (n.manager.node_state.activation_sequence + 1) % u32_mod))
unfolding update_activation_command set_activation_rules save_state_config describe_activation_rules
update_activation_command_lem w args n =
    let rules = scan_rules w.fpu max_activations args in
    let few : ltb max_activations (length rules) ≡ false =
      ground (arith, length-scan_rules-le w.fpu max_activations args) in
    let (rest, reads, end) = scan_rules-Reads w.fpu max_activations args in
    let whole : take (length rules) rules ≡ rules = take_all (length rules) rules (omega arith) in
    (
      rw few refl,
      (
        rules,
        rest,
        reads,
        end,
        rw few (ground arith),
        rw (few, whole) (ground arith),
        rw few (ground arith),
      ),
    )

-- The chunks in which something other than spaces stands.
abbrev is_present : Bytes → Bool
is_present [] = false
is_present (c ∷ cs) = true

abbrev has_command : Chunk → Bool
has_command chunk = is_present (skip_ws (c_string chunk.received))

abbrev pub commands : List Chunk → ℕ
commands [] = 0
commands (chunk ∷ chunks) = (if has_command chunk then 1 else 0) + commands chunks

skip_ws-first : (p : Bytes) (c : ℕ) (cs : Bytes) → skip_ws p ≡ c ∷ cs → is_space c ≡ false
unfolding skip_ws
skip_ws-first [] c cs e = cc
skip_ws-first (d ∷ ds) c cs e = elim (Bool-cases (is_space d)) [
  | inl t ↦ skip_ws-first ds c cs (rw t at e)
  | inr t ↦ let same : d ∷ ds ≡ c ∷ cs = rw t at e in ground arith
]

take_word-cons :
    (k c : ℕ) (cs : Bytes)
    → is_space c ≡ false
    → take_word (suc k) (c ∷ cs) ≡ (c ∷ (take_word k cs).0, (take_word k cs).1)
unfolding take_word
take_word-cons k c cs h = rw h refl

take_word-nil : (k : ℕ) → (take_word k []).0 ≡ []
unfolding take_word
take_word-nil zero = refl
take_word-nil (suc k) = refl

-- What `scan_command` finds, by the word that is taken.
unfoldable pub scanned : (stale : Bytes) (word : Bytes × Bytes) → Option (Bytes × Bytes)
scanned stale word = elim word.0 [
  | [] ↦ none
  | c ∷ cs ↦ some (c ∷ cs, or_stale stale (take_until b'\n' 255 (skip_ws word.1)))
]

pub scan_command-scanned :
    (chunk : Chunk)
    → scan_command chunk ≡ scanned chunk.stale (take_word 63 (skip_ws (c_string chunk.received)))
unfolding scan_command scanned
scan_command-scanned chunk = refl

-- How many answers a scan leads to.
answers_to : Option (Bytes × Bytes) → ℕ
answers_to none = 0
answers_to (some found) = 1

scanned_count :
    (stale p text : Bytes)
    → skip_ws p ≡ text
    → answers_to (scanned stale (take_word 63 text)) ≡ (if is_present text then 1 else 0)
unfolding scanned answers_to
scanned_count stale p [] e = rw (take_word-nil 63) refl
scanned_count stale p (c ∷ cs) e = rw (take_word-cons 62 c cs (skip_ws-first p c cs e)) refl

receive_chunk-answers :
    (w : World) (chunk : Chunk) (n : Node)
    → length (receive_chunk w chunk n).1 ≡ answers_to (scan_command chunk)
unfolding receive_chunk answers_to
receive_chunk-answers w chunk n = elim (Option-cases (scan_command chunk)) [
  | inl e ↦ rw (e, receive_chunk) refl
  | inr (found, e) ↦ rw (e, receive_chunk) refl
]

answers_count :
    (w : World) (chunk : Chunk) (n : Node)
    → length (receive_chunk w chunk n).1 ≡ (if has_command chunk then 1 else 0)
answers_count w chunk n =
    receive_chunk-answers w chunk n
    ∙ ap answers_to (scan_command-scanned chunk)
    ∙ scanned_count chunk.stale (c_string chunk.received) (skip_ws (c_string chunk.received)) refl

-- However a client splits its commands and whatever they are, it gets exactly one answer for each
-- part that it sends in which something other than spaces stands, and none for the others.
pub handle_tcp_client_answers :
    (w : World) (chunks : List Chunk) (n : Node)
    → length (handle_tcp_client w chunks n).1 ≡ commands chunks
unfolding handle_tcp_client
handle_tcp_client_answers w [] n = refl
handle_tcp_client_answers w (chunk ∷ chunks) n =
    let (t, answers) = receive_chunk w chunk n in
    omega (
      arith,
      length-append answers (handle_tcp_client w chunks t).1,
      answers_count w chunk n,
      handle_tcp_client_answers w chunks t,
    )
