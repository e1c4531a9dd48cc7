-- ===== src/Udp/Selection.antt =====
-- src/mesh_node.cpp, `prepare_udp_message`: which neighbors the message reports, and in which
-- order.
use mesh_visualization.Prelude.{
  ℕ, zero, suc, ◌+◌, ◌-◌, ◌≤◌, ◌<◌, ◌≡◌, refl, inl, inr, true, none, some, List, [], ◌∷◌, ◌++◌,
  arith, length, get_elem?, replicate, All, length-append, bytes_eq_refl,
}
use mesh_visualization.Prelude.Int.{◌≤ℤ◌}
use mesh_visualization.Config.{no_rssi}
use mesh_visualization.State.{Mac, Neighbor}
use mesh_visualization.Neighbors.{Table, get_neighbor_count}
use mesh_visualization.Neighbors.Lookup.{listed, lookup, Distinct, lookup_of_get}
use mesh_visualization.Neighbors.Invariant.{IsValid, IsStrong}
use mesh_visualization.Udp.{
  Entry, no_entry, udp_neighbors, already_included, next_entry, choose, copy_count,
  select_neighbors,
}
use mesh_visualization.Udp.Waiting.{
  waits, entry, waiting, strongest_from-IsStrongest, included-snoc, waiting-snoc, waiting-zero,
  waiting-start, waiting-some, All-get,
}

pub All-snoc {ℓ} :
    (P : Entry → Type ℓ) (es : List Entry) (e : Entry) → All P es → P e → All P (es ++ e ∷ [])
All-snoc P [] e h p = (p, tt)
All-snoc P (x ∷ es) e h p = (h.0, All-snoc P es e h.1 p)

-- The signals do not rise along the entries.
abbrev Descending : List Entry → Type 0
Descending [] = Unit
Descending (e ∷ es) = All (λ f. f.rssi ≤ℤ e.rssi) es × Descending es

Descending-snoc :
    (es : List Entry) (e : Entry)
    → Descending es
    → All (λ f. e.rssi ≤ℤ f.rssi) es
    → Descending (es ++ e ∷ [])
Descending-snoc [] e d h = (tt, tt)
Descending-snoc (x ∷ es) e d h =
    (All-snoc (λ f. f.rssi ≤ℤ x.rssi) es e d.0 h.0, Descending-snoc es e d.1 h.1)

-- An entry is what the table holds under its address.
abbrev Reports : Table → Entry → Type 0
Reports ns e = (n : Neighbor) × (lookup e.mac ns ≡ some n) × (n.rssi ≡ e.rssi)

-- The entries written so far, and every waiting slot is at most as strong as each of them.
record IsChosen (ns : Table) (chosen : List Entry) : Type 0 where
  entries : All (Reports ns) chosen
  order : Descending chosen
  upper :
      (i : ℕ) (n : Neighbor)
      → get_elem? ns i ≡ some n
      → waits chosen n ≡ true
      → All (λ e. n.rssi ≤ℤ e.rssi) chosen

waits-snoc :
    (chosen : List Entry) (e : Entry) (n : Neighbor)
    → waits (chosen ++ e ∷ []) n ≡ true
    → waits chosen n ≡ true
waits-snoc chosen e n h = ground (arith, included-snoc n.mac chosen e)

module _ (ns : Table) (distinct : Distinct ns) (strong : All IsStrong ns) where
  write-IsChosen :
      (chosen : List Entry) (n : Neighbor) (i : ℕ)
      → get_elem? ns i ≡ some n
      → waits chosen n ≡ true
      → All (λ m. waits chosen m ≡ true → m.rssi ≤ℤ n.rssi) ns
      → IsChosen ns chosen
      → IsChosen ns (chosen ++ entry n ∷ [])
  write-IsChosen chosen n i g w u c = record {
    entries =
        All-snoc (Reports ns) chosen (entry n) c.entries
          (n, lookup_of_get n.mac ns i n distinct g (ground (arith, bytes_eq_refl n.mac)), refl);
    order = Descending-snoc chosen (entry n) c.order (c.upper i n g w);
    upper = λ j m h v.
        let v₁ = waits-snoc chosen (entry n) m v in
        All-snoc (λ e. m.rssi ≤ℤ e.rssi) chosen (entry n) (c.upper j m h v₁)
          (All-get (λ m. waits chosen m ≡ true → m.rssi ≤ℤ n.rssi) ns j m u h v₁);
  }

  -- A step of the outer loop writes the strongest waiting slot.
  next_entry-IsChosen :
      (chosen : List Entry)
      → 0 < waiting chosen ns
      → IsChosen ns chosen
      → IsChosen ns (chosen ++ next_entry chosen ns ∷ [])
        × (waiting chosen ns ≡ suc (waiting (chosen ++ next_entry chosen ns ∷ []) ns))
  unfolding next_entry
  next_entry-IsChosen chosen p c =
      let best = strongest_from-IsStrongest chosen (no_rssi, none) ns in
      elim best.source [
        | inl same ↦
            let (i, m, g, w, r) = waiting-some chosen ns strong p in
            let le = All-get _ ns i m best.upper g w in
            let none_above : m.rssi ≤ℤ no_rssi = rw same at le in absurd (omega arith)
        | inr (i, n, g, w, e) ↦
            let written : next_entry chosen ns ≡ entry n = rw (e, next_entry) refl in
            let upper = rw e at best.upper in
            rw written
              (write-IsChosen chosen n i g w upper c, waiting-snoc chosen n ns i distinct g w)
      ]

  choose-IsChosen :
      (k : ℕ) (chosen : List Entry)
      → waiting chosen ns ≡ k
      → IsChosen ns chosen
      → IsChosen ns (choose k chosen ns)
        × (length (choose k chosen ns) ≡ k + length chosen)
        × (waiting (choose k chosen ns) ns ≡ 0)
  unfolding choose
  choose-IsChosen zero chosen z c = (c, omega arith, z)
  choose-IsChosen (suc k) chosen z c =
      let (next, less) = next_entry-IsChosen chosen (omega arith) c in
      let (all, len, done) =
        choose-IsChosen k (chosen ++ next_entry chosen ns ∷ []) (omega arith) next in
      (all, omega (arith, len, length-append chosen (next_entry chosen ns ∷ [])), done)

count-length : (ns : Table) → get_neighbor_count ns ≤ length ns
unfolding get_neighbor_count
count-length [] = omega arith
count-length (n ∷ ns) = ground (arith, count-length ns)

-- The entries of a message: one for each active neighbor, strongest first, then empty ones.
pub record Selects (ns : Table) (entries : List Entry) : Type 0 where
  pub chosen : List Entry
  pub padded : entries ≡ chosen ++ replicate (udp_neighbors - length chosen) no_entry
  pub count : length chosen ≡ get_neighbor_count ns
  pub sound : All (Reports ns) chosen
  pub complete : (m : Mac) → listed m ns ≡ true → already_included m chosen ≡ true
  pub order : Descending chosen

-- For a valid table the message has as many entries as there are active neighbors; each has the
-- signal that the table holds under its address, every active address is among them, they go from
-- the strongest to the weakest, and empty entries fill the eight places.
pub select_neighbors-Selects :
    (own : Mac) (ns : Table) → IsValid own ns → Selects ns (select_neighbors ns)
unfolding select_neighbors
select_neighbors-Selects own ns v =
    let copied : copy_count ns ≡ get_neighbor_count ns = ground (arith, count-length ns, v.size) in
    let (all, len, done) =
      choose-IsChosen ns v.distinct v.strong (get_neighbor_count ns) [] (waiting-start ns)
        (record { entries = tt; order = tt; upper = λ i n g w. tt }) in
    record {
      chosen = choose (get_neighbor_count ns) [] ns;
      padded =
          let l : length (choose (get_neighbor_count ns) [] ns) ≡ get_neighbor_count ns =
            omega (arith, len) in
          rw (l, copied) refl;
      count = omega (arith, len);
      sound = all.entries;
      complete = λ m h. waiting-zero _ m ns done h;
      order = all.order;
    }
