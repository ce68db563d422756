-- ===== src/Generated/Tuples.antt =====
-- The generated programs on tuples and strings: TupleExample, ListExample and
-- IntegerStringPatternMatching (lib/src/*.bpf.c in the examples of those names).
use honey_potion.Base.{ℕ, ℤ, pos, negsuc, s32, ◌-ℤ◌, ◌+ℤ◌, beq_ℤ, not, ◌||◌, List, [], ◌∷◌}
use honey_potion.Runtime.Values.{Generic, int, as_integer, as_start, as_end}
use honey_potion.Runtime.Pool.{is_string}
use honey_potion.Generated.Machine.{
  State, Action, Found, ◌>>=◌, ◌>>◌, pure, print, require, main, match_error,
}
use honey_potion.Generated.Cells.{
  empty_list, push_heap, cons, uncons, load_elem, pair, element, require_tuple, require_integer,
  literal, match_bytes,
}

-- "some string", "foo" and "bar".
abbrev pub some_string : List ℕ
some_string = 115 ∷ 111 ∷ 109 ∷ 101 ∷ 32 ∷ 115 ∷ 116 ∷ 114 ∷ 105 ∷ 110 ∷ 103 ∷ []

abbrev pub some_string_literal : List ℕ
some_string_literal = 115 ∷ 111 ∷ 109 ∷ 101 ∷ 32 ∷ 115 ∷ 116 ∷ 114 ∷ 105 ∷ 110 ∷ 103 ∷ 0 ∷ []

abbrev pub foo : List ℕ
foo = 102 ∷ 111 ∷ 111 ∷ []

abbrev pub foo_literal : List ℕ
foo_literal = 102 ∷ 111 ∷ 111 ∷ 0 ∷ []

abbrev pub bar : List ℕ
bar = 98 ∷ 97 ∷ 114 ∷ []

module _ {M : Type 0} where
  -- `{1, {y, {"some string", 4}}}`
  unfoldable pub tuple_build : Action M Generic
  unfolding literal pair
  tuple_build = do
    text ← literal some_string_literal
    inner ← pair text (int (pos 4))
    middle ← pair (int (pos 2)) inner
    pair (int (pos 1)) middle

  -- The pattern "some string": its span covers the null byte too.
  unfoldable pub require_some_string : Generic → Action M (Unit {0})
  unfolding match_bytes ◌-ℤ◌
  require_some_string g = do
    require (is_string g.type) match_error
    require (beq_ℤ (pos 11) (as_end g.value -ℤ as_start g.value)) match_error
    match_bytes (as_start g.value) 0 some_string

  -- `{1, {2, {"some string", x}}} = ...`
  unfoldable pub tuple_match : Generic → Action M ℤ
  unfolding element require_tuple require_integer require_some_string s32
  tuple_match g = do
    require_tuple g
    first ← element g 0
    require_integer first (pos 1)
    middle ← element g 1
    require_tuple middle
    y ← element middle 0
    require_integer y (pos 2)
    inner ← element middle 1
    require_tuple inner
    text ← element inner 0
    require_some_string text
    x ← element inner 1
    pure (s32 (as_integer x.value))

  unfoldable pub tuple_example_main : Found → State M → ℤ × State M
  unfolding main tuple_build tuple_match
  tuple_example_main found =
      main found do g ← tuple_build; x ← tuple_match g; print "x: %d" (x ∷ []); pure (pos 0)

  -- `one_two = {1, 2}` and `[three, one_two]`
  unfoldable pub list_build : Action M Generic
  unfolding pair push_heap cons
  list_build = do
    one_two ← pair (int (pos 1)) (int (pos 2))
    push_heap empty_list
    cons one_two
    cons (int (pos 3))

  -- `[_, any_tuple] = ...`: the tags of the inner cell and of its rest are not looked at.
  unfoldable pub list_match : Generic → Action M Generic
  unfolding uncons load_elem ◌+ℤ◌
  list_match g = do
    (_, tail) ← uncons g
    any_tuple ← load_elem match_error match_error (as_start tail.value)
    rest ← load_elem match_error match_error (as_start tail.value +ℤ pos 1)
    require
        (not (
          not (beq_ℤ (as_start rest.value) (negsuc 0))
          || not (beq_ℤ (as_end rest.value) (negsuc 0))))
        match_error
    pure any_tuple

  unfoldable pub list_example_main : Found → State M → ℤ × State M
  unfolding main list_build list_match require_tuple element
  list_example_main found = main found do
    g ← list_build
    any_tuple ← list_match g
    require_tuple any_tuple
    x ← element any_tuple 0
    element any_tuple 1
    print "x: %d" (as_integer x.value ∷ [])
    pure (pos 0)

  -- `"foo" = str`, a line of success, and `"bar" = str`.
  unfoldable pub integer_string_main : Found → State M → ℤ × State M
  unfolding main literal match_bytes
  integer_string_main found = main found do
    str ← literal foo_literal
    match_bytes (as_start str.value) 0 foo
    print "Success" []
    again ← literal foo_literal
    match_bytes (as_start again.value) 0 bar
    pure (pos 0)
