-- ===== src/Loader/Lifetime.antt =====
-- What is printed in a lifetime.
use honey_potion.Base.{
  ℕ, zero, suc, ◌+◌, ◌-◌, ◌%◌, ◌^◌, ◌<◌, ◌≤◌, ◌≡◌, refl, sym, ap, ◌∙◌, Bool, true, false, inl, inr,
  Option-cases, Option, none, some, List, [], ◌∷◌, ◌++◌, length, ◌==◌, arith,
}
use honey_potion.Monitor.Reading.{Follows, visits, read_all-visits}
use honey_potion.Loader.{
  Contents, Act, printed, slept, print_entry, output_opt, output_all, choose_output, count_down,
  output,
}

module _ {K V : Type 0} where
  -- The entries of the keys, in their order.
  abbrev pub entries : (K → Option V) → List K → List (K × V)
  entries lookup [] = []
  entries lookup (k ∷ ks) = elim (lookup k) [
    | none ↦ entries lookup ks
    | some v ↦ (k, v) ∷ entries lookup ks
  ]

  -- The lines of every reading, with a second between two of them.
  abbrev pub trace : (ℕ → List (K × V)) → ℕ → ℕ → List (Act K V)
  trace lines i zero = printed (lines i) ∷ []
  trace lines i (suc n) = printed (lines i) ∷ slept ∷ trace lines (suc i) n

  append_one : (xs ys : List (K × V)) (x : K × V) → (xs ++ x ∷ []) ++ ys ≡ xs ++ x ∷ ys
  append_one [] ys x = refl
  append_one (y ∷ xs) ys x = ap (λ l. y ∷ l) (append_one xs ys x)

  append_none : (xs : List (K × V)) → xs ++ [] ≡ xs
  append_none [] = refl
  append_none (x ∷ xs) = ap (λ l. x ∷ l) (append_none xs)

  visits-entries :
      (lookup : K → Option V) (ks : List K) (lines : List (K × V))
      → visits (print_entry lookup) lines ks ≡ lines ++ entries lookup ks
  unfolding print_entry
  visits-entries lookup [] lines = sym (append_none lines)
  visits-entries lookup (k ∷ ks) lines = elim (Option-cases (lookup k)) [
    | inl e ↦ rw (print_entry, entries, e) (visits-entries lookup ks lines)
    | inr (v, e) ↦
        rw (print_entry, entries, e)
          (visits-entries lookup ks (lines ++ (k, v) ∷ [])
            ∙ append_one lines (entries lookup ks) (k, v))
  ]

  choose_output-entries :
      (all : Bool) (fuel : ℕ) (m : Contents K V) (ks : List K)
      → Follows m.next none ks
      → length ks ≤ fuel
      → choose_output all fuel m ≡ some (entries m.lookup ks)
  unfolding choose_output output_opt output_all
  choose_output-entries true fuel m ks order enough =
      read_all-visits m.next (print_entry m.lookup) ks fuel [] order enough
      ∙ ap some (visits-entries m.lookup ks [])
  choose_output-entries false fuel m ks order enough =
      read_all-visits m.next (print_entry m.lookup) ks fuel [] order enough
      ∙ ap some (visits-entries m.lookup ks [])

  module _ (all : Bool) (map_fuel : ℕ) (maps : ℕ → Contents K V) (keys : ℕ → List K)
      (order : (i : ℕ) → Follows (maps i).next none (keys i))
      (enough : (i : ℕ) → length (keys i) ≤ map_fuel) where
    abbrev lines_at : ℕ → List (K × V)
    lines_at i = entries (maps i).lookup (keys i)

    count_down-trace :
        (n fuel i time : ℕ)
        → time ≡ (n + 1) % 2 ^ 32
        → n < 2 ^ 32
        → n < fuel
        → count_down all map_fuel maps fuel i time ≡ some (trace lines_at i n)
    unfolding count_down
    count_down-trace n zero i time e small h = absurd (omega arith)
    count_down-trace zero (suc fuel) i time e small h =
        let done : ((time + (2 ^ 32 - 1)) % 2 ^ 32 == 0) ≡ true = ground (arith, e) in
        rw
          (
            count_down,
            done,
            choose_output-entries all map_fuel (maps i) (keys i) (order i) (enough i),
          )
          refl
    count_down-trace (suc n) (suc fuel) i time e small h =
        let next_time : (time + (2 ^ 32 - 1)) % 2 ^ 32 ≡ (n + 1) % 2 ^ 32 = omega (arith, e) in
        let more : ((time + (2 ^ 32 - 1)) % 2 ^ 32 == 0) ≡ false = ground (arith, next_time) in
        rw
          (
            count_down,
            more,
            choose_output-entries all map_fuel (maps i) (keys i) (order i) (enough i),
            count_down-trace n fuel (suc i) _ next_time (omega arith) (omega arith),
          )
          refl

    -- If at each reading the map has an order, with fuel for its keys, then with a lifetime of `t`
    -- seconds, which is not 0, and more fuel than that, the output ends, also for the longest
    -- lifetime of a `uint`, at which its counter wraps around. It has printed the map `t + 1`
    -- times, each time the entries that were there, in its order, with a second's sleep between.
    pub output-trace :
        (fuel t : ℕ)
        → 0 < t
        → t < 2 ^ 32
        → t < fuel
        → output all map_fuel maps fuel t ≡ some (trace lines_at 0 t)
    unfolding output
    output-trace fuel t some_time small h =
        let counted : (t == 0) ≡ false = ground arith in
        rw (output, counted) (count_down-trace t fuel 0 ((t + 1) % 2 ^ 32) refl small h)
