-- ===== src/FindString/Automaton/Kernel.antt =====
-- The rows in the map are an automaton that the kernel's program never leaves.
use honey_potion.Base.{
  ℕ, zero, suc, ◌+◌, ◌-◌, ◌<◌, ◌≤◌, ◌≡◌, refl, ◌∙◌, true, false, Option, none, some, is_some, List,
  [], ◌∷◌, length, get_elem?, get_or, leb, ◌==◌, arith,
}
use honey_potion.Bpf.Array.{ArrayMap}
use honey_potion.FindString.{GotoResult, Row, maxc}
use honey_potion.FindString.Scan.{IsClosed}
use honey_potion.FindString.Automaton.{Memory, ok}
use honey_potion.FindString.Automaton.Fill.{put_rows, write_rows}
use honey_potion.FindString.Automaton.Rows.{IsLinked, IsEntry, Holds, goto_rows-IsEntry}

abbrev none_set : GotoResult
none_set = record { next_state = 0; match = 0 }

-- The entries of a row as the kernel reads them: an index below 26.
abbrev pub row_of : List GotoResult → Row
row_of row c = get_or row c none_set

abbrev pub row_in : Option (List GotoResult) → Option Row
row_in none = none
row_in (some row) = some (row_of row)

get_or-elem :
    (row : List GotoResult) (c : ℕ) (e : GotoResult)
    → get_elem? row c ≡ some e
    → get_or row c none_set ≡ e
get_or-elem [] c e h = absurd (ground (arith, h))
get_or-elem (x ∷ row) zero e h = ground (arith, h)
get_or-elem (x ∷ row) (suc c) e h = get_or-elem row c e h

get_or-row :
    (rows : List (List GotoResult)) (s : ℕ) (row : List GotoResult)
    → get_elem? rows s ≡ some row
    → get_or rows s [] ≡ row
get_or-row [] s row h = absurd (ground (arith, h))
get_or-row (x ∷ rows) zero row h = ground (arith, h)
get_or-row (x ∷ rows) (suc s) row h = get_or-row rows s row h

module _ (m : Memory) (states : ℕ) (unset : List GotoResult) (rows : List (List GotoResult))
    (entries : Holds (λ r row. Holds (IsEntry m states r) 0 26 row) 1 (states - 1) rows) where
  row-at :
      (s : ℕ)
      → 0 < s
      → s < states
      → (row : List GotoResult) × (get_elem? (unset ∷ rows) s ≡ some row)
        × Holds (IsEntry m states s) 0 26 row
  row-at zero some_state below = absurd (omega arith)
  row-at (suc k) some_state below = entries k (suc k) (omega arith) (omega arith)

  IsEntry-at :
      (s c : ℕ)
      → 0 < s
      → s < states
      → c < 26
      → IsEntry m states s c (row_of (get_or (unset ∷ rows) s []) c)
  IsEntry-at s c some_state below letter =
      let (row, at, here) = row-at s some_state below in
      let (e, found, good) = here c c (omega arith) letter in
      rw (get_or-row (unset ∷ rows) s row at, get_or-elem row c e found) good

module _ (gotos : ArrayMap (List GotoResult)) where
  here :
      (key : ℕ) (row : List GotoResult) (rows : List (List GotoResult)) (g g' : gotos.Map)
      → is_some (gotos.lookup g key) ≡ true
      → ((j : ℕ) → j < key + 1 → gotos.lookup g' j ≡ gotos.lookup (gotos.store g key row) j)
      → ((i j : ℕ) (x : List GotoResult)
          → j ≡ key + 1 + i
          → get_elem? rows i ≡ some x
          → gotos.lookup g' j ≡ some x)
      → (i j : ℕ) (x : List GotoResult) → j ≡ key + i
      → get_elem? (row ∷ rows) i ≡ some x
      → gotos.lookup g' j ≡ some x
  here key row rows g g' there before after zero j x e h =
      let same : (key == j) ≡ true = ground arith in
      before j (omega arith) ∙ (gotos.lookup-store g key row j ∙ (rw (there, same) h))
  here key row rows g g' there before after (suc i) j x e h = after i j x (omega arith) h

  put_rows-lookup :
      (rows : List (List GotoResult)) (key : ℕ) (g : gotos.Map)
      → key + length rows ≤ gotos.max_entries g
      → (g' : gotos.Map) × (put_rows gotos key rows g ≡ ok g')
        × ((j : ℕ) → j < key → gotos.lookup g' j ≡ gotos.lookup g j)
        × ((i j : ℕ) (row : List GotoResult)
            → j ≡ key + i
            → get_elem? rows i ≡ some row
            → gotos.lookup g' j ≡ some row)
  unfolding put_rows
  put_rows-lookup [] key g room = (g, refl, λ j h. refl, λ i j row e h. absurd (ground (arith, h)))
  put_rows-lookup (row ∷ rows) key g room =
      let g1 = gotos.store g key row in
      let inside : leb (gotos.max_entries g) key ≡ false = ground (arith, room) in
      let there = gotos.lookup_inside g key (omega (arith, room)) in
      let (g', done, before, after) =
        put_rows-lookup rows (key + 1) g1
          (rw (gotos.max_entries-store g key row) (omega (arith, room))) in
      (
        g',
        rw (put_rows, inside) done,
        λ j h.
            let other : (key == j) ≡ false = ground arith in
            before j (omega arith) ∙ (gotos.lookup-store g key row j ∙ rw (there, other) refl),
        λ i j x e h. here key row rows g g' there before after i j x e h,
      )

  -- If the failures of an automaton lead back to its initial state by fewer steps than the fuel,
  -- and the map has a place for each state, then the rows are written, and the kernel's program
  -- finds a row for each state that a row leads to, whatever stands in the row of state 0.
  pub write_rows-IsClosed :
      (rank : ℕ → ℕ) (states fuel : ℕ) (m : Memory) (unset : List GotoResult) (g : gotos.Map)
      → IsLinked rank states m
      → ((s : ℕ) → 0 < s → s < states → rank s < fuel)
      → states ≤ gotos.max_entries g
      → (g' : gotos.Map) × (rows : ℕ → Row) × (write_rows gotos fuel states unset m g ≡ ok g')
        × IsClosed (λ s. row_in (gotos.lookup g' s)) rows states
        × ((s c : ℕ) → 0 < s → s < states → c < maxc → IsEntry m states s c (rows s c))
  unfolding write_rows
  write_rows-IsClosed rank states fuel m unset g links enough room =
      let (rows, computed, size, entries) =
        goto_rows-IsEntry rank states m links fuel enough (states - 1) 1 (omega arith)
          (omega (arith, links.low)) in
      let (g', put, before, after) =
        put_rows-lookup (unset ∷ rows) 0 g (omega (arith, size, links.low)) in
      let row = λ (s : ℕ). row_of (get_or (unset ∷ rows) s []) in
      let good = IsEntry-at m states unset rows entries in
      (
        g',
        row,
        rw (write_rows, computed) put,
        record {
          has_initial = links.low;
          has_row = λ s some_state below.
              let (x, at, _) = row-at m states unset rows entries s some_state below in
              rw (after s s x (omega arith) at, get_or-row (unset ∷ rows) s x at) refl;
          stays = λ s c some_state below letter.
              let e = good s c some_state below letter in (e.above, e.below);
        },
        good,
      )
