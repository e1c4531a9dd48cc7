-- ===== src/App/Health/Watch.antt =====
-- src/main.cpp, `check_mesh_health`: when a mesh that has lost its parent is restarted.
use mesh_visualization.Prelude.{
  ℕ, ◌+◌, ◌≤◌, ◌<◌, ◌≡◌, refl, ◌∙◌, ◌⊎◌, inl, inr, Bool, true, false, not, ◌&&◌, ◌||◌, List, [],
  ◌∷◌, ◌++◌, arith, ltb, leb, ◌==◌, Bool-cases,
}
use mesh_visualization.Config.{
  sub32, u32_mod, mesh_health_check_interval_ms, mesh_reconnect_attempt_ms,
  mesh_reconnect_restart_ms,
}
use mesh_visualization.App.{
  App, Net, Act, stop_mesh, start_mesh, connect, start_dhcp, start_receive_task,
}
use mesh_visualization.App.Health.{
  request_reconnect, restart_mesh, check_detached, check_mesh_health,
}

abbrev is_stop : Act → Bool
is_stop stop_mesh = true
is_stop start_mesh = false
is_stop connect = false
is_stop start_receive_task = false
is_stop start_dhcp = false

abbrev pub stops : List Act → Bool
stops [] = false
stops (x ∷ xs) = is_stop x || stops xs

-- The checks at a list of times, with the same answers.
abbrev pub watch : Net → List ℕ → App → App × List Act
watch net [] a = (a, [])
watch net (now ∷ nows) a =
    let (b, acts) = check_mesh_health net now a in
    let (c, more) = watch net nows b in (c, acts ++ more)

-- The times follow one another by at least the interval of the checks, in 32 bits.
abbrev IsSchedule : ℕ → List ℕ → Type 0
IsSchedule last [] = Unit
IsSchedule last (now ∷ nows) =
    (last + mesh_health_check_interval_ms ≤ now) × (now < u32_mod) × IsSchedule now nows

-- Some time is at the bound or after it.
abbrev pub reaches : ℕ → List ℕ → Bool
reaches bound [] = false
reaches bound (now ∷ nows) = leb bound now || reaches bound nows

stops-append : (xs ys : List Act) → stops (xs ++ ys) ≡ (stops xs || stops ys)
stops-append [] ys = refl
stops-append (x ∷ xs) ys = ground (arith, stops-append xs ys)

-- A node that knows itself in the mesh, but has no layer.
record IsDetached (since last : ℕ) (a : App) : Type 0 where
  initialized : a.node.mesh_initialized ≡ true
  attached : a.last_mesh_attached_ms ≡ since
  checked : a.last_mesh_health_check_ms ≡ last

module _ (net : Net) (no_layer : net.layer ≡ 0) (attached : ℕ) (known : 0 < attached) where
  request_reconnect-stops : (now : ℕ) (a : App) → stops (request_reconnect now a).1 ≡ false
  unfolding request_reconnect
  request_reconnect-stops now a = ground arith

  request_reconnect-IsDetached :
      (now last : ℕ) (a : App)
      → IsDetached attached last a
      → IsDetached attached last (request_reconnect now a).0
  unfolding request_reconnect
  request_reconnect-IsDetached now last a d =
      elim (Bool-cases (
        leb mesh_reconnect_attempt_ms (sub32 now a.last_mesh_attached_ms)
        && leb mesh_reconnect_attempt_ms (sub32 now a.last_mesh_reconnect_attempt_ms))) [
          | inl e ↦
              rw e
                (record { initialized = d.initialized; attached = d.attached; checked = d.checked })
          | inr e ↦ rw e d
        ]

  restart_mesh-stops :
      (now : ℕ) (a : App)
      → a.last_mesh_attached_ms ≡ attached
      → attached ≤ now
      → now < u32_mod
      → ((stops (restart_mesh net now a).1 ≡ true)
          × (leb (attached + mesh_reconnect_restart_ms) now ≡ true))
        ⊎ ((restart_mesh net now a ≡ (a, []))
            × (leb (attached + mesh_reconnect_restart_ms) now ≡ false))
  unfolding restart_mesh
  restart_mesh-stops now a at le word =
      elim (Bool-cases (leb mesh_reconnect_restart_ms (sub32 now a.last_mesh_attached_ms))) [
        | inl e ↦ inl (rw e refl, ground (arith, at))
        | inr e ↦ inr (rw e refl, ground (arith, at))
      ]

  abbrev checked_at : ℕ → App → App
  checked_at now a = record a { last_mesh_health_check_ms = now }

  check_eq :
      (now last : ℕ) (a : App)
      → IsDetached attached last a
      → attached ≤ last
      → last + mesh_health_check_interval_ms ≤ now
      → now < u32_mod
      → check_mesh_health net now a ≡ (
        (restart_mesh net now (request_reconnect now (checked_at now a)).0).0,
        (request_reconnect now (checked_at now a)).1
            ++ (restart_mesh net now (request_reconnect now (checked_at now a)).0).1,
      )
  unfolding check_mesh_health check_detached
  check_eq now last a d le due word =
      let e₁ : ltb (sub32 now a.last_mesh_health_check_ms) mesh_health_check_interval_ms ≡ false =
        ground (arith, d.checked) in
      let e₂ : (a.last_mesh_attached_ms == 0) ≡ false = ground (arith, d.attached) in
      let e₃ : ltb 0 net.layer ≡ false = ground (arith, no_layer) in
      let e₄ : not a.node.mesh_initialized ≡ false = ground (arith, d.initialized) in
      simp (e₁, e₂, e₃, e₄)

  -- One check that is due.
  check_stops :
      (now last : ℕ) (a : App)
      → IsDetached attached last a
      → attached ≤ last
      → last + mesh_health_check_interval_ms ≤ now
      → now < u32_mod
      → ((stops (check_mesh_health net now a).1 ≡ true)
          × (leb (attached + mesh_reconnect_restart_ms) now ≡ true))
        ⊎ ((stops (check_mesh_health net now a).1 ≡ false)
            × (leb (attached + mesh_reconnect_restart_ms) now ≡ false)
            × IsDetached attached now (check_mesh_health net now a).0)
  check_stops now last a d le due word =
      let b = checked_at now a in
      let asked =
        request_reconnect-IsDetached now now b
          (record { initialized = d.initialized; attached = d.attached; checked = refl }) in
      let e = check_eq now last a d le due word in
      let none_first = request_reconnect-stops now b in
      let parts =
        stops-append (request_reconnect now b).1
          (restart_mesh net now (request_reconnect now b).0).1 in
      elim (restart_mesh-stops now (request_reconnect now b).0 asked.attached (omega arith) word) [
        | inl (s, l) ↦ inl (rw e (parts ∙ (rw (none_first, s) refl)), l)
        | inr (s, l) ↦ inr (rw e (parts ∙ (rw (none_first, s) refl)), l, rw (e, s) asked)
      ]

  -- A node knows the time after zero at which it was attached, and has had a check since. While it
  -- stays without a layer and is checked at times at least ten seconds apart, before the clock
  -- wraps, the mesh is stopped at some check if and only if one of the checks is at least 60
  -- seconds after the time at which the node was attached.
  pub watch-stops :
      (nows : List ℕ) (a : App)
      → a.node.mesh_initialized ≡ true
      → a.last_mesh_attached_ms ≡ attached
      → attached ≤ a.last_mesh_health_check_ms
      → IsSchedule a.last_mesh_health_check_ms nows
      → stops (watch net nows a).1 ≡ reaches (attached + mesh_reconnect_restart_ms) nows
  watch-stops [] a up at le schedule = refl
  watch-stops (now ∷ nows) a up at le (due, word, later) =
      let d : IsDetached attached a.last_mesh_health_check_ms a = record {
        initialized = up;
        attached = at;
        checked = refl;
      } in
      let both =
        stops-append (check_mesh_health net now a).1
          (watch net nows (check_mesh_health net now a).0).1 in
      elim (check_stops now a.last_mesh_health_check_ms a d le due word) [
        | inl (s, l) ↦ both ∙ (rw (s, l) refl)
        | inr (s, l, next) ↦
            let rest =
              watch-stops nows (check_mesh_health net now a).0 next.initialized next.attached
                (omega (arith, next.checked)) (rw next.checked later) in
            both ∙ (rw (s, l) rest)
      ]
