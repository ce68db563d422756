-- ===== src/Loader.antt =====
-- examples/force_kill/lib/src/ForceKill.c, the program that loads the generated one and
-- prints its map. What the calls of libbpf return, what getopt finds and the map's order at each
-- reading are parameters; terminal codes are left out.
mod Lifetime
mod Tests
use honey_potion.Base.{
  ℕ, zero, suc, ◌+◌, ◌-◌, ◌%◌, ◌^◌, Bool, true, false, Option, none, some, List, [], ◌∷◌, ◌++◌, ltb,
  ◌==◌, if◌then◌else◌, ℤ, pos, negsuc, ltb_ℤ, ◌-ℤ◌,
}
use honey_potion.Monitor.{read_all}

-- What getopt finds: -p, or -t with the number that `atoi` makes of its argument, as a `uint`.
pub data Opt : Type 0 where
  print_all : Opt
  life_time : ℕ → Opt

unfoldable pub parse : Bool × ℕ → List Opt → Bool × ℕ
parse (all, time) [] = (all, time)
parse (all, time) (print_all ∷ opts) = parse (true, time) opts
parse (all, time) (life_time t ∷ opts) = parse (all, t) opts

-- Either `main` returns before the output, with its status, or the output starts.
pub data Started : Type 0 where
  returns : ℤ → Started
  prints : Bool × ℕ → Started

-- `if(err)`
abbrev pub is_error : ℤ → Bool
is_error (pos n) = ltb 0 n
is_error (negsuc n) = true

-- `main`, of what the calls return: whether a skeleton is opened, and the results of loading it
-- and of attaching its program.
unfoldable pub main : List Opt → Bool → ℤ → ℤ → Started
unfolding parse
main opts opened load attach =
    if opened
    then if is_error load
      then returns (pos 0 -ℤ load)
      else if is_error attach
      then returns (pos 0 -ℤ attach)
      else prints (parse (false, 0) opts)
    else returns (pos 1)

-- The map at one reading: its order, and its entries.
pub record Contents (K V : Type 0) : Type 0 where
  pub next : Option K → Option K
  pub lookup : K → Option V

pub data Act (K V : Type 0) : Type 0 where
  printed : List (K × V) → Act K V
  slept : Act K V

module _ {K V : Type 0} where
  -- One line for an entry, where the lookup finds it.
  unfoldable pub print_entry : (K → Option V) → List (K × V) → K → List (K × V)
  print_entry lookup lines k = elim (lookup k) [ none ↦ lines | some v ↦ lines ++ (k, v) ∷ [] ]

  -- The lines of `output_opt`.
  unfoldable pub output_opt : ℕ → Contents K V → Option (List (K × V))
  unfolding read_all print_entry
  output_opt fuel m = read_all m.next (print_entry m.lookup) fuel []

  -- The lines of `output_all`, which prints the same map.
  unfoldable pub output_all : ℕ → Contents K V → Option (List (K × V))
  unfolding read_all print_entry
  output_all fuel m = read_all m.next (print_entry m.lookup) fuel []

  unfoldable pub choose_output : Bool → ℕ → Contents K V → Option (List (K × V))
  unfolding output_opt output_all
  choose_output all fuel m = if all then output_all fuel m else output_opt fuel m

  -- What is done before the rest of the loop.
  abbrev pub before : Option (List (K × V)) → Option (List (Act K V)) → Option (List (Act K V))
  before none rest = none
  before (some lines) none = none
  before (some lines) (some acts) = some (printed lines ∷ slept ∷ acts)

  -- `printed`, as the last act.
  abbrev pub last : Option (List (K × V)) → Option (List (Act K V))
  last none = none
  last (some lines) = some (printed lines ∷ [])

  -- `while(1) { choose_output(skel, all); if(!--time) break; sleep(1); }`, with the map as it is at
  -- the `i`-th reading.
  unfoldable pub count_down : Bool → ℕ → (ℕ → Contents K V) → ℕ → ℕ → ℕ → Option (List (Act K V))
  unfolding choose_output
  count_down all map_fuel maps zero i time = none
  count_down all map_fuel maps (suc fuel) i time =
      let time' = (time + (2 ^ 32 - 1)) % 2 ^ 32 in
      let lines = choose_output all map_fuel (maps i) in
      let rest = count_down all map_fuel maps fuel (suc i) time' in
      if time' == 0 then last lines else before lines rest

  -- `while(1) { choose_output(skel, all); sleep(1); }`
  unfoldable pub forever : Bool → ℕ → (ℕ → Contents K V) → ℕ → ℕ → Option (List (Act K V))
  unfolding choose_output
  forever all map_fuel maps zero i = none
  forever all map_fuel maps (suc fuel) i =
      before (choose_output all map_fuel (maps i)) (forever all map_fuel maps fuel (suc i))

  unfoldable pub output : Bool → ℕ → (ℕ → Contents K V) → ℕ → ℕ → Option (List (Act K V))
  unfolding count_down forever
  output all map_fuel maps fuel time =
      if time == 0
      then forever all map_fuel maps fuel 0
      else count_down all map_fuel maps fuel 0 ((time + 1) % 2 ^ 32)
