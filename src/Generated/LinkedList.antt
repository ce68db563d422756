-- ===== src/Generated/LinkedList.antt =====
-- examples/linked_list/lib/src/LinkedList.bpf.c: three cells are put before an empty list and a
-- nil, and the second element is printed.
use honey_potion.Base.{ℤ, pos, [], ◌∷◌}
use honey_potion.Runtime.Values.{Generic, int, as_integer, atom_nil}
use honey_potion.Generated.Machine.{State, Action, Found, ◌>>=◌, ◌>>◌, pure, print, main}
use honey_potion.Generated.Cells.{empty_list, push_heap, cons, uncons}

module _ {M : Type 0} where
  -- `t = [1, nil]`, `t = [2 | t]`, `t = [3 | t]`
  unfoldable pub build : Action M Generic
  unfolding push_heap cons
  build = do
    push_heap empty_list
    cons atom_nil
    cons (int (pos 1))
    cons (int (pos 2))
    cons (int (pos 3))

  -- `[_three | a] = t`, `[two | _a] = a`
  unfoldable pub second : Generic → Action M Generic
  unfolding uncons
  second t = do (three, a) ← uncons t; (two, rest) ← uncons a; pure two

  unfoldable pub linked_list_main : Found → State M → ℤ × State M
  unfolding main build second
  linked_list_main found =
      main found do t ← build; two ← second t; print "%d" (as_integer two.value ∷ []); pure (pos 0)
