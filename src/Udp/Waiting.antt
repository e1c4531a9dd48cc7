-- ===== src/Udp/Waiting.antt =====
-- src/mesh_node.cpp, `prepare_udp_message`: the inner loop, and how many neighbors still wait.
use mesh_visualization.Prelude.{
  ℕ, zero, suc, ◌+◌, ◌<◌, ◌≡◌, refl, ◌⊎◌, inl, inr, Bool, true, false, not, ◌&&◌, ◌||◌, Option,
  some, List, [], ◌∷◌, ◌++◌, arith, if◌then◌else◌, Bool-cases, get_elem?, All, bytes_eq,
  bytes_eq_refl, bytes_eq→eq, bytes_eq_comm,
}
use mesh_visualization.Prelude.Int.{ℤ, ◌≤ℤ◌, ◌<ℤ◌}
use mesh_visualization.Config.{no_rssi}
use mesh_visualization.State.{Mac, Neighbor}
use mesh_visualization.Neighbors.{Table, get_neighbor_count}
use mesh_visualization.Neighbors.Lookup.{listed, Distinct, listed_of_get}
use mesh_visualization.Neighbors.Invariant.{IsStrong}
use mesh_visualization.Udp.{Entry, already_included, is_better, strongest_from}

-- An active slot whose address is not written yet.
abbrev pub waits : List Entry → Neighbor → Bool
waits chosen n = n.active && not (already_included n.mac chosen)

abbrev pub entry : Neighbor → Entry
entry n = record { mac = n.mac; rssi = n.rssi }

abbrev pub waiting : List Entry → Table → ℕ
waiting chosen [] = 0
waiting chosen (n ∷ ns) = (if waits chosen n then 1 else 0) + waiting chosen ns

-- What the inner loop returns: its start, or a waiting slot that is stronger.
pub record IsStrongest (chosen : List Entry) (start : ℤ × Option Neighbor) (ns : Table)
    (found : ℤ × Option Neighbor) : Type 0 where
  pub above : start.0 ≤ℤ found.0
  pub upper : All (λ n. waits chosen n ≡ true → n.rssi ≤ℤ found.0) ns
  pub source :
      (found ≡ start)
      ⊎ ((i : ℕ) × (n : Neighbor) × (get_elem? ns i ≡ some n)
          × (waits chosen n ≡ true)
          × (found ≡ (n.rssi, some n)))

pub strongest_from-IsStrongest :
    (chosen : List Entry) (start : ℤ × Option Neighbor) (ns : Table)
    → IsStrongest chosen start ns (strongest_from chosen start ns)
unfolding strongest_from
strongest_from-IsStrongest chosen start [] = record {
  above = omega arith;
  upper = tt;
  source = inl refl;
}
strongest_from-IsStrongest chosen start (n ∷ ns) = elim (Bool-cases (is_better chosen start.0 n)) [
  | inl e ↦
      let rest = strongest_from-IsStrongest chosen (n.rssi, some n) ns in
      rw e (record {
        above = ground (arith, rest.above);
        upper = (λ _. rest.above, rest.upper);
        source = inr (elim rest.source [
          | inl same ↦ (0, n, refl, ground arith, same)
          | inr (i, m, g, w, s) ↦ (suc i, m, g, w, s)
        ]);
      })
  | inr e ↦
      let rest = strongest_from-IsStrongest chosen start ns in
      rw e (record {
        above = rest.above;
        upper = (λ w. ground (arith, rest.above), rest.upper);
        source = elim rest.source [
          | inl same ↦ inl same
          | inr (i, m, g, w, s) ↦ inr (suc i, m, g, w, s)
        ];
      })
]

pub included-snoc :
    (m : Mac) (chosen : List Entry) (e : Entry)
    → already_included m (chosen ++ e ∷ []) ≡ (already_included m chosen || bytes_eq m e.mac)
included-snoc m [] e = ground arith
included-snoc m (x ∷ chosen) e = ground (arith, included-snoc m chosen e)

waiting-absent :
    (chosen : List Entry) (e : Entry) (ns : Table)
    → listed e.mac ns ≡ false
    → waiting (chosen ++ e ∷ []) ns ≡ waiting chosen ns
waiting-absent chosen e [] h = refl
waiting-absent chosen e (n ∷ ns) h =
    ground (arith, waiting-absent chosen e ns, included-snoc n.mac chosen e)

waiting-head :
    (chosen : List Entry) (n : Neighbor) (ns : Table)
    → (n.active && listed n.mac ns) ≡ false
    → waits chosen n ≡ true
    → waiting chosen (n ∷ ns) ≡ suc (waiting (chosen ++ entry n ∷ []) (n ∷ ns))
waiting-head chosen n ns d w = ground (
  arith,
  waiting-absent chosen (entry n) ns,
  included-snoc n.mac chosen (entry n),
  bytes_eq_refl n.mac,
)

-- Writing a waiting slot leaves one slot less waiting.
pub waiting-snoc :
    (chosen : List Entry) (n : Neighbor) (ns : Table) (i : ℕ)
    → Distinct ns
    → get_elem? ns i ≡ some n
    → waits chosen n ≡ true
    → waiting chosen ns ≡ suc (waiting (chosen ++ entry n ∷ []) ns)
waiting-snoc chosen n [] i d g w = cc
waiting-snoc chosen n (x ∷ ns) zero d g w =
    let e : x ≡ n = cc in rw e (waiting-head chosen n ns (rw (← e) d.0) w)
waiting-snoc chosen n (x ∷ ns) (suc i) d g w = ground (
  arith,
  d.0,
  included-snoc x.mac chosen (entry n),
  bytes_eq_comm x.mac n.mac,
  listed_of_get x.mac ns i n g,
  waiting-snoc chosen n ns i d.1 g w,
)

pub waiting-zero :
    (chosen : List Entry) (m : Mac) (ns : Table)
    → waiting chosen ns ≡ 0
    → listed m ns ≡ true
    → already_included m chosen ≡ true
waiting-zero chosen m [] z h = cc
waiting-zero chosen m (n ∷ ns) z h = ground (arith, waiting-zero chosen m ns, bytes_eq→eq n.mac m)

pub waiting-start : (ns : Table) → waiting [] ns ≡ get_neighbor_count ns
unfolding get_neighbor_count
waiting-start [] = refl
waiting-start (n ∷ ns) = ground (arith, waiting-start ns)

-- A slot waits, and was heard above the value that marks no signal.
pub waiting-some :
    (chosen : List Entry) (ns : Table)
    → All IsStrong ns
    → 0 < waiting chosen ns
    → (i : ℕ) × (n : Neighbor) × (get_elem? ns i ≡ some n)
      × (waits chosen n ≡ true)
      × (no_rssi <ℤ n.rssi)
waiting-some chosen [] s h = absurd (omega arith)
waiting-some chosen (n ∷ ns) s h = elim (Bool-cases (waits chosen n)) [
  | inl e ↦ (0, n, refl, e, ground (arith, s.0))
  | inr e ↦ let (i, m, g, w, r) = waiting-some chosen ns s.1 (ground arith) in (suc i, m, g, w, r)
]

pub All-get {ℓ} :
    (P : Neighbor → Type ℓ) (ns : Table) (i : ℕ) (n : Neighbor)
    → All P ns
    → get_elem? ns i ≡ some n
    → P n
All-get P [] i n h g = absurd cc
All-get P (x ∷ ns) zero n h g = let e : x ≡ n = cc in rw (← e) h.0
All-get P (x ∷ ns) (suc i) n h g = All-get P ns i n h.1 g
