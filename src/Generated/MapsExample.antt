-- ===== src/Generated/MapsExample.antt =====
-- examples/maps/lib/src/Maps.bpf.c: every run adds 1 to 7 to the entries of one array and 8 to
-- that of another.
pub mod Sums
use Prim.Native.String.{String}
use honey_potion.Base.{ℕ, ℤ, pos, ◌+ℤ◌, s32, List, [], ◌∷◌}
use honey_potion.Bpf.Array.{ArrayMap}
use honey_potion.Runtime.Values.{Generic, int}
use honey_potion.Generated.Machine.{State, Action, Found, ◌>>=◌, ◌>>◌, pure, modify, main}
use honey_potion.Generated.Access.{reading, value_or_fail}

module _ (bpf : ArrayMap Generic) where
  open bpf use {Map, lookup, store}

  pub record ExampleMaps : Type 0 where
    pub example_map : Map
    pub second_example_map : Map

  abbrev get : ℕ → Action ExampleMaps ℤ
  get i = reading λ m. value_or_fail (lookup m.example_map i) "Example_map"

  abbrev get_second : ℕ → Action ExampleMaps ℤ
  get_second i = reading λ m. value_or_fail (lookup m.second_example_map i) "Second_Example_map"

  -- bpf_map_update_elem of `entry + k`
  abbrev put_sum : ℕ → ℤ → ℕ → Action ExampleMaps (Unit {0})
  put_sum i entry k = modify λ s. record s {
    maps = record s.maps { example_map = store s.maps.example_map i (int (s32 (entry +ℤ pos k))) };
  }

  abbrev put_second_sum : ℕ → ℤ → ℕ → Action ExampleMaps (Unit {0})
  put_second_sum i entry k = modify λ s. record s {
    maps = record s.maps {
      second_example_map = store s.maps.second_example_map i (int (s32 (entry +ℤ pos k)));
    };
  }

  -- The eight updates.
  unfoldable pub put_entries : ℤ → ℤ → ℤ → ℤ → ℤ → ℤ → ℤ → ℤ → Action ExampleMaps ℤ
  unfolding s32 ◌+ℤ◌
  put_entries entry_0 entry_1 entry_2 entry_3 entry_4 entry_5 entry_6 entry_7 = do
    put_sum 0 entry_0 1
    put_sum 1 entry_1 2
    put_sum 2 entry_2 3
    put_sum 3 entry_3 4
    put_sum 4 entry_4 5
    put_sum 5 entry_5 6
    put_sum 6 entry_6 7
    put_second_sum 0 entry_7 8
    pure (pos 0)

  -- The eight lookups, and the updates.
  unfoldable pub maps_user : Action ExampleMaps ℤ
  unfolding value_or_fail put_entries
  maps_user = do
    entry_0 ← get 0
    entry_1 ← get 1
    entry_2 ← get 2
    entry_3 ← get 3
    entry_4 ← get 4
    entry_5 ← get 5
    entry_6 ← get 6
    entry_7 ← get_second 0
    put_entries entry_0 entry_1 entry_2 entry_3 entry_4 entry_5 entry_6 entry_7

  unfoldable pub maps_main : Found → State ExampleMaps → ℤ × State ExampleMaps
  unfolding main maps_user
  maps_main found = main found maps_user
