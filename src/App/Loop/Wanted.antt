-- ===== src/App/Loop/Wanted.antt =====
-- src/main.cpp: when the loop publishes the state of the node.
use mesh_visualization.Prelude.{
  ◌≤◌, ◌≡◌, refl, ap, ◌↔◌, ◌⊎◌, inl, inr, true, false, ◌||◌, none, some, arith, leb, Bool-cases,
  Option-cases,
}
use mesh_visualization.Prelude.Int.{ℤ, pos, negsuc, eqb_ℤ}
use mathlib.Core.Path.{subst}
use mesh_visualization.Config.{sub32, mqtt_update_interval_ms}
use mesh_visualization.State.{NodeState}
use mesh_visualization.App.Loop.{Loop, Turn, state_publish_relevant_change, is_due}

-- Two states are the same in everything whose change is published.
pub record SameView (p s : NodeState) : Type 0 where
  pub state : p.state ≡ s.state
  pub value : p.value ≡ s.value
  pub temperature : p.temperature ≡ s.temperature
  pub presence : p.mmwave_presence ≡ s.mmwave_presence
  pub distance : p.mmwave_distance ≡ s.mmwave_distance
  pub kernel : p.kernel_sequence ≡ s.kernel_sequence
  pub counter : p.value_sequence ≡ s.value_sequence
  pub rules : p.activation_sequence ≡ s.activation_sequence

eqb_ℤ_iff : (a b : ℤ) → (eqb_ℤ a b ≡ true) ↔ (a ≡ b)
eqb_ℤ_iff (pos a) (pos b) = ((λ h. let e : a ≡ b = ground arith in ap pos e), (λ h. ground arith))
eqb_ℤ_iff (pos a) (negsuc b) = ((λ h. absurd (ground arith)), (λ h. cc))
eqb_ℤ_iff (negsuc a) (pos b) = ((λ h. absurd (ground arith)), (λ h. cc))
eqb_ℤ_iff (negsuc a) (negsuc b) =
    ((λ h. let e : a ≡ b = ground arith in ap negsuc e), (λ h. ground arith))

same_view : (p s : NodeState) → state_publish_relevant_change p s ≡ false → SameView p s
unfolding state_publish_relevant_change
same_view p s h = record {
  state = ground arith;
  value = ground arith;
  temperature = (eqb_ℤ_iff p.temperature s.temperature).0 (ground arith);
  presence = ground arith;
  distance = ground arith;
  kernel = ground arith;
  counter = ground arith;
  rules = ground arith;
}

view_changed : (p s : NodeState) → state_publish_relevant_change p s ≡ true → ¬ SameView p s
unfolding state_publish_relevant_change
view_changed p s h v = ground (
  arith,
  (eqb_ℤ_iff p.temperature s.temperature).1 v.temperature,
  v.state,
  v.value,
  v.presence,
  v.distance,
  v.kernel,
  v.counter,
  v.rules,
)

pub SameView-refl : (s : NodeState) → SameView s s
SameView-refl s = record {
  state = refl;
  value = refl;
  temperature = refl;
  presence = refl;
  distance = refl;
  kernel = refl;
  counter = refl;
  rules = refl;
}

-- The time between two publications has passed.
abbrev pub Periodic : Turn → Loop → Type 0
Periodic t l = mqtt_update_interval_ms ≤ sub32 t.now l.last_mesh_state_publish

-- Why a state is published: none was so far, it is not the same as the last one, or it is time, or
-- it was asked for.
abbrev pub Wanted : Turn → Loop → NodeState → Type 0
Wanted t l s =
    (l.last_published ≡ none)
    ⊎ ((p : NodeState) × (l.last_published ≡ some p) × ¬ SameView p s)
    ⊎ Periodic t l
    ⊎ (l.app.mesh_status_publish_requested ≡ true)

-- The last published state is the same as the present one, and none is asked for.
abbrev pub Settled : Loop → Type 0
Settled l =
    ((p : NodeState) × (l.last_published ≡ some p) × SameView p l.app.node.manager.node_state)
    × (l.app.mesh_status_publish_requested ≡ false)

pub due_iff :
    (t : Turn) (l : Loop)
    → ((leb mqtt_update_interval_ms (sub32 t.now l.last_mesh_state_publish)
          || l.app.mesh_status_publish_requested)
        ≡ true)
      ↔ (Periodic t l ⊎ (l.app.mesh_status_publish_requested ≡ true))
due_iff t l = (
  (λ h. elim (Bool-cases l.app.mesh_status_publish_requested) [
    | inl e ↦ inr e
    | inr e ↦ inl (ground arith)
  ]),
  (λ h. elim h [ inl e ↦ ground arith | inr e ↦ ground arith ]),
)

pub wanted : (t : Turn) (l : Loop) → is_due t l ≡ true → Wanted t l l.app.node.manager.node_state
unfolding is_due
wanted t l h = elim (Option-cases l.last_published) [
  | inl e ↦ inl e
  | inr (p, e) ↦
      let s = l.app.node.manager.node_state in
      elim (Bool-cases (state_publish_relevant_change p s)) [
        | inl c ↦ inr (inl (p, e, view_changed p s c))
        | inr c ↦ inr (inr ((due_iff t l).0 (ground arith)))
      ]
]

pub settled : (t : Turn) (l : Loop) → is_due t l ≡ false → Settled l
unfolding is_due
settled t l h = elim (Option-cases l.last_published) [
  | inl e ↦ absurd (ground arith)
  | inr (p, e) ↦ ((p, e, same_view p l.app.node.manager.node_state (ground arith)), ground arith)
]

pub not-Wanted :
    (t : Turn) (l : Loop) → is_due t l ≡ false → ¬ Wanted t l l.app.node.manager.node_state
unfolding is_due
not-Wanted t l h w =
    let ((p, e, v), quiet) = settled t l h in
    elim w [
      | inl n ↦ cc
      | inr (inl (q, n, differs)) ↦
          let same : p ≡ q = cc in
          absurd (differs (subst (λ k. SameView k l.app.node.manager.node_state) same v))
      | inr (inr (inl time)) ↦ absurd (ground arith)
      | inr (inr (inr asked)) ↦ cc
    ]
