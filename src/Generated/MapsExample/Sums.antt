-- ===== src/Generated/MapsExample/Sums.antt =====
-- What the entries are after any number of runs.
use Prim.Native.String.{String}
use honey_potion.Base.{
  ℕ, zero, suc, ◌+◌, ◌*◌, ◌<◌, ◌≤◌, ◌^◌, ◌≡◌, refl, ap, ◌∙◌, Option-cases, Bool-cases, sym, inl,
  inr, ◌==◌, ==_iff, ℤ, pos, ◌+ℤ◌, s32, s32-eq, arith,
}
use honey_potion.Bpf.Array.{ArrayMap}
use honey_potion.Runtime.Values.{Generic, int}
use honey_potion.Generated.Machine.{State, pure, main, boot, catch, all_found}
use honey_potion.Generated.Access.{value_or_fail, value_or_zero, stored-same, stored-other}
use honey_potion.Generated.MapsExample.{ExampleMaps, put_entries, maps_user, maps_main}

module _ (bpf : ArrayMap Generic) where
  open bpf use {Map, lookup, store, max_entries}

  abbrev entry : Map → ℕ → ℤ
  entry m i = value_or_zero (lookup m i)

  -- A store for each of the first `n` entries, in ascending order, as the program does them.
  abbrev bumped : ℕ → Map → Map
  bumped zero m = m
  bumped (suc n) m = store (bumped n m) n (int (s32 (entry m n +ℤ pos (n + 1))))

  found :
      (name : String) (m : Map) (i : ℕ)
      → i < max_entries m
      → value_or_fail {M = ExampleMaps bpf} (lookup m i) name ≡ pure (entry m i)
  unfolding value_or_fail value_or_zero
  found name m i inside = elim (Option-cases (lookup m i)) [
    | inl gone ↦ absurd (ground (arith, bpf.lookup_inside m i inside, gone))
    | inr (g, e) ↦ rw e refl
  ]

  maps_main-bumped :
      (s : State (ExampleMaps bpf))
      → 7 ≤ max_entries s.maps.example_map
      → 1 ≤ max_entries s.maps.second_example_map
      → (maps_main bpf all_found s).1.maps ≡ record {
        example_map = bumped 7 s.maps.example_map;
        second_example_map =
            store s.maps.second_example_map 0
              (int (s32 (entry s.maps.second_example_map 0 +ℤ pos 8)));
      }
  unfolding maps_main main boot catch maps_user put_entries
  maps_main-bumped s seven one =
      let e = s.maps.example_map in
      let v0 = found "Example_map" e 0 (omega arith) in
      let v1 = found "Example_map" e 1 (omega arith) in
      let v2 = found "Example_map" e 2 (omega arith) in
      let v3 = found "Example_map" e 3 (omega arith) in
      let v4 = found "Example_map" e 4 (omega arith) in
      let v5 = found "Example_map" e 5 (omega arith) in
      let v6 = found "Example_map" e 6 (omega arith) in
      let v7 = found "Second_Example_map" s.maps.second_example_map 0 (omega arith) in
      rw (maps_main, main, boot, catch, maps_user, v0, v1, v2, v3, v4, v5, v6, v7) refl

  bumped-size : (n : ℕ) (m : Map) → max_entries (bumped n m) ≡ max_entries m
  bumped-size zero m = refl
  bumped-size (suc n) m = bpf.max_entries-store (bumped n m) n _ ∙ bumped-size n m

  bumped-later : (n : ℕ) (m : Map) (k : ℕ) → n ≤ k → entry (bumped n m) k ≡ entry m k
  bumped-later zero m k later = refl
  bumped-later (suc n) m k later =
      ap value_or_zero (stored-other bpf (bumped n m) n k _ (ground (arith, later)))
      ∙ bumped-later n m k (omega arith)

  bumped-entry :
      (n : ℕ) (m : Map) (k : ℕ)
      → k < n
      → n ≤ max_entries m
      → entry (bumped n m) k ≡ s32 (entry m k +ℤ pos (k + 1))
  bumped-entry zero m k below inside = absurd (omega arith)
  bumped-entry (suc n) m k below inside = elim (Bool-cases (n == k)) [
    | inl e ↦
        let at : n ≡ k = (==_iff n k).0 e in
        let room : n < max_entries (bumped n m) = omega (arith, inside, bumped-size n m) in
        rw (sym at) (stored-same bpf (bumped n m) n (entry m n +ℤ pos (n + 1)) room)
    | inr ne ↦
        ap value_or_zero (stored-other bpf (bumped n m) n k _ ne)
        ∙ bumped-entry n m k (ground (arith, below, ne)) (omega arith)
  ]

  abbrev pub run : ℕ → State (ExampleMaps bpf) → State (ExampleMaps bpf)
  run zero s = s
  run (suc n) s = run n (maps_main bpf all_found s).1

  int_sum : (a d : ℕ) → a + d < 2 ^ 31 → s32 (pos a +ℤ pos d) ≡ pos (a + d)
  unfolding ◌+ℤ◌
  int_sum a d small =
      let exact : pos a +ℤ pos d ≡ pos (a + d) = ground arith in
      rw exact (s32-eq (pos (a + d)) (ground arith))

  -- After `n` runs the entry `k` of the first array is `n * (k + 1)` larger for each `k` below 7,
  -- and that of the second array `n * 8`, as long as both fit an `int`: no run fails.
  pub run-entries :
      (n : ℕ) (s : State (ExampleMaps bpf)) (k a b : ℕ)
      → k < 7
      → 7 ≤ max_entries s.maps.example_map
      → 1 ≤ max_entries s.maps.second_example_map
      → entry s.maps.example_map k ≡ pos a
      → entry s.maps.second_example_map 0 ≡ pos b
      → a + n * (k + 1) < 2 ^ 31
      → b + n * 8 < 2 ^ 31
      → (entry (run n s).maps.example_map k ≡ pos (a + n * (k + 1)))
        × (entry (run n s).maps.second_example_map 0 ≡ pos (b + n * 8))
  run-entries zero s k a b below seven one first second small_a small_b =
      (first ∙ ap pos (omega arith), second ∙ ap pos (omega arith))
  run-entries (suc n) s k a b below seven one first second small_a small_b =
      let t = (maps_main bpf all_found s).1 in
      let step = maps_main-bumped s seven one in
      let product : suc n * (k + 1) ≡ k + 1 + n * (k + 1) = omega arith in
      let seven_t : 7 ≤ max_entries t.maps.example_map =
        rw step (omega (arith, seven, bumped-size 7 s.maps.example_map)) in
      let one_t : 1 ≤ max_entries t.maps.second_example_map = rw step (
        omega (
          arith,
          one,
          bpf.max_entries-store s.maps.second_example_map 0
              (int (s32 (entry s.maps.second_example_map 0 +ℤ pos 8))),
        )) in
      let first_t : entry t.maps.example_map k ≡ pos (a + (k + 1)) =
        ap (λ (m : ExampleMaps bpf). entry m.example_map k) step
        ∙ bumped-entry 7 s.maps.example_map k below seven
        ∙ rw first (int_sum a (k + 1) (omega arith)) in
      let second_t : entry t.maps.second_example_map 0 ≡ pos (b + 8) =
        ap (λ (m : ExampleMaps bpf). entry m.second_example_map 0) step
        ∙ stored-same bpf s.maps.second_example_map 0 (entry s.maps.second_example_map 0 +ℤ pos 8)
            (omega arith)
        ∙ rw second (int_sum b 8 (omega arith)) in
      let rest =
        run-entries n t k (a + (k + 1)) (b + 8) below seven_t one_t first_t second_t (omega arith)
          (omega arith) in
      (rest.0 ∙ ap pos (omega arith), rest.1 ∙ ap pos (omega arith))
