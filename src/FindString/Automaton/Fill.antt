-- ===== src/FindString/Automaton/Fill.antt =====
-- The rows of goto_func, and fillMapStrings as a whole.
use honey_potion.Base.{ℕ, zero, suc, ◌+◌, ◌-◌, List, [], ◌∷◌, leb, ◌==◌, if◌then◌else◌}
use honey_potion.Bpf.Array.{ArrayMap}
use honey_potion.FindString.{Word, GotoResult, maxc}
use honey_potion.FindString.Automaton.{
  Memory, Result, ok, err, ◌>>=◌, no_update, load, out_at, go_at, cleared, add_lines,
}
use honey_potion.FindString.Automaton.Link.{find_next_state, linked}

-- One entry of the rows for the kernel.
unfoldable pub goto_result : ℕ → Memory → ℕ → ℕ → Result GotoResult
unfolding find_next_state
goto_result fuel m s c = load m (go_at s c) >>= λ go.
    (if go == 0 then find_next_state fuel m s c else ok go) >>= λ next.
    load m (out_at go) >>= λ out.
    ok (record { next_state = next; match = if out == 0 then 0 else out })

-- The entries of a row from `c` on.
unfoldable pub goto_row : ℕ → Memory → ℕ → ℕ → ℕ → Result (List GotoResult)
unfolding goto_result
goto_row fuel m s zero c = ok []
goto_row fuel m s (suc left) c =
    goto_result fuel m s c >>= λ r. goto_row fuel m s left (c + 1) >>= λ rs. ok (r ∷ rs)

-- The rows from `s` on.
unfoldable pub goto_rows : ℕ → Memory → ℕ → ℕ → Result (List (List GotoResult))
unfolding goto_row
goto_rows fuel m zero s = ok []
goto_rows fuel m (suc left) s =
    goto_row fuel m s maxc 0 >>= λ r. goto_rows fuel m left (s + 1) >>= λ rs. ok (r ∷ rs)

module _ (gotos : ArrayMap (List GotoResult)) where
  -- `bpf_map_update_elem` for the keys from `key` on.
  unfoldable pub put_rows : ℕ → List (List GotoResult) → gotos.Map → Result gotos.Map
  put_rows key [] g = ok g
  put_rows key (row ∷ rows) g =
      let rest = put_rows (key + 1) rows (gotos.store g key row) in
      if leb (gotos.max_entries g) key then err no_update else rest

  -- The rows into the map. `unset` is the row of state 0, which nothing sets.
  unfoldable pub write_rows : ℕ → ℕ → List GotoResult → Memory → gotos.Map → Result gotos.Map
  unfolding goto_rows put_rows
  write_rows steps states unset m g =
      goto_rows steps m (states - 1) 1 >>= λ rows. put_rows 0 (unset ∷ rows) g

module _ (words : ArrayMap Word) (gotos : ArrayMap (List GotoResult)) where
  -- `fillMapStrings` after the file is opened. The two fuels bound one walk over failures and the
  -- states that leave the queue.
  unfoldable pub fill_map_strings :
      ℕ
      → ℕ
      → Memory
      → (ℕ → ℕ)
      → List GotoResult
      → List (List ℕ)
      → words.Map × gotos.Map
      → Result (words.Map × gotos.Map)
  unfolding add_lines linked write_rows
  fill_map_strings steps fuel garbage array unset lines (strings, goto_func) =
      add_lines words 0 lines (strings, record { memory = cleared garbage; states = 2 })
      >>= λ (strings', t). linked steps fuel array t.memory >>= λ m.
          write_rows gotos steps t.states unset m goto_func >>= λ goto_func'.
          ok (strings', goto_func')
