-- ===== src/Generated/Patterns.antt =====
-- What the programs on tuples and strings print, whatever the pools hold when they start.
use honey_potion.Base.{◌≡◌, refl, pos, [], ◌∷◌, ◌+ℤ◌, ◌-ℤ◌, s32}
use honey_potion.Generated.Machine.{
  State, printk, caught, match_error, main, boot, catch, all_found,
}
use honey_potion.Generated.Cells.{
  push_heap, push_tuple, cons, load_elem, uncons, pair, element, require_tuple, require_integer,
  literal, match_bytes, match_byte,
}
use honey_potion.Generated.Tuples.{
  tuple_build, tuple_match, require_some_string, tuple_example_main, list_build, list_match,
  list_example_main, integer_string_main,
}

module _ {M : Type 0} where
  pub tuple_example_main_prints :
      (s : State M)
      → let r = tuple_example_main all_found s in
        (r.0 ≡ pos 0) × (r.1.output ≡ printk "x: %d" (pos 4 ∷ []) ∷ s.output)
  unfolding tuple_example_main main boot catch tuple_build tuple_match require_some_string pair
      element load_elem require_tuple require_integer literal match_bytes match_byte ◌+ℤ◌ ◌-ℤ◌ s32
  tuple_example_main_prints s = (refl, refl)

  pub list_example_main_prints :
      (s : State M)
      → let r = list_example_main all_found s in
        (r.0 ≡ pos 0) × (r.1.output ≡ printk "x: %d" (pos 1 ∷ []) ∷ s.output)
  unfolding list_example_main main boot catch list_build list_match uncons cons push_heap push_tuple
      pair element load_elem require_tuple ◌+ℤ◌
  list_example_main_prints s = (refl, refl)

  pub integer_string_main_prints :
      (s : State M)
      → let r = integer_string_main all_found s in
        (r.0 ≡ pos 0) × (r.1.output ≡ caught match_error ∷ printk "Success" [] ∷ s.output)
  unfolding integer_string_main main boot catch literal match_bytes match_byte ◌+ℤ◌
  integer_string_main_prints s = (refl, refl)
