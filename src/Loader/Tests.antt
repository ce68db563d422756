-- ===== src/Loader/Tests.antt =====
-- A map of two entries that is printed for two seconds; arguments; and the ways that `main` ends.
use honey_potion.Base.{
  ℕ, ◌≡◌, refl, true, Option, none, some, [], ◌∷◌, ◌==◌, if◌then◌else◌, pos, negsuc, ◌-ℤ◌, arith,
}
use honey_potion.Loader.{
  print_all, life_time, returns, prints, main, Contents, printed, slept, output,
}
use honey_potion.Loader.Lifetime.{output-trace}

-- The keys 3 and 5; between them 4, which is taken out while the map is read.
abbrev next : Option ℕ → Option ℕ
next none = some 3
next (some k) = if k == 3 then some 4 else if k == 4 then some 5 else none

abbrev lookup : ℕ → ℕ → Option ℕ
lookup i k = if k == 4 then none else some i

abbrev maps : ℕ → Contents ℕ ℕ
maps i = record { next = next; lookup = lookup i }

output-trace_example :
    output true 3 maps 3 2
    ≡ some (
        printed ((3, 0) ∷ (5, 0) ∷ [])
        ∷ slept
        ∷ printed ((3, 1) ∷ (5, 1) ∷ [])
        ∷ slept
        ∷ printed ((3, 2) ∷ (5, 2) ∷ [])
        ∷ [])
output-trace_example =
    output-trace true 3 maps (λ i. 3 ∷ 4 ∷ 5 ∷ []) (λ i. (refl, (refl, (refl, refl))))
      (λ i. omega arith) 3 2 (omega arith) (omega arith) (omega arith)

-- Without a lifetime the output does not end.
no_lifetime : output true 3 maps 4 0 ≡ none
unfolding output
no_lifetime = refl

arguments :
    main (life_time 4 ∷ print_all ∷ life_time 2 ∷ []) true (pos 0) (pos 0) ≡ prints (true, 2)
unfolding main
arguments = refl

load_failed : main [] true (negsuc 21) (pos 0) ≡ returns (pos 22)
unfolding main ◌-ℤ◌
load_failed = refl

attach_failed : main [] true (pos 0) (negsuc 14) ≡ returns (pos 15)
unfolding main ◌-ℤ◌
attach_failed = refl
