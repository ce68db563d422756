-- ===== src/Runtime/Compare.antt =====
-- Truth and comparisons of priv/c_boilerplates/runtime_functions.bpf.c.
use honey_potion.Base.{ℕ, Bool, true, false, ◌&&◌, ◌==◌, ltb_ℤ, beq_ℤ, if◌then◌else◌, to_unsigned}
use honey_potion.Runtime.Values.{
  Tag, invalid_type, pattern_m, integer, double, string, atom, tuple, list, struct, Generic,
  OpResult, as_integer, as_start, as_end, atom_true, atom_false, raise, returned, only_integers_eq,
  only_integers_gt, only_integers_lt,
}
use honey_potion.Runtime.Arith.{is_integer}

abbrev pub is_atom : Tag → Bool
is_atom atom = true
is_atom _ = false

-- `to_bool`: every value is true but the atoms nil and false, known by their place in the pool.
unfoldable pub to_bool : Generic → Bool
to_bool var =
    if is_atom var.type
    then if start == 0 && end == 2 then false else if start == 3 && end == 7 then false else true
    else true
  where
    start : ℕ
    start = to_unsigned (as_start var.value)

    end : ℕ
    end = to_unsigned (as_end var.value)

-- `values_are_equal`
unfoldable pub values_are_equal : Generic → Generic → Bool
values_are_equal var1 var2 =
    if is_integer var1.type && is_integer var2.type
    then beq_ℤ (as_integer var1.value) (as_integer var2.value)
    else false

-- The number of an enumerator of `enum Type`, by which `==` and `!=` compare.
abbrev pub tag_number : Tag → ℕ
tag_number invalid_type = 0
tag_number pattern_m = 1
tag_number integer = 2
tag_number double = 3
tag_number string = 4
tag_number atom = 5
tag_number tuple = 6
tag_number list = 7
tag_number struct = 8

abbrev pub atom_of : Bool → Generic
atom_of true = atom_true
atom_of false = atom_false

-- `Equals`
unfoldable pub equals : OpResult → Generic → Generic → OpResult
equals result var1 var2 =
    if tag_number var1.type == tag_number var2.type
    then if is_integer var1.type
      then returned result (atom_of (beq_ℤ (as_integer var1.value) (as_integer var2.value)))
      else raise only_integers_eq
    else returned result atom_false

-- `GreaterThan`
unfoldable pub greater_than : OpResult → Generic → Generic → OpResult
greater_than result var1 var2 =
    if is_integer var1.type && is_integer var2.type
    then returned result (atom_of (ltb_ℤ (as_integer var2.value) (as_integer var1.value)))
    else raise only_integers_gt

-- `LessThan`
unfoldable pub less_than : OpResult → Generic → Generic → OpResult
less_than result var1 var2 =
    if is_integer var1.type && is_integer var2.type
    then returned result (atom_of (ltb_ℤ (as_integer var1.value) (as_integer var2.value)))
    else raise only_integers_lt
