-- ===== src/Generated/Constants.antt =====
-- The generated programs whose code the compiler evaluated or left straight: Basic, Case, Cond,
-- Cp, CtxAccess, Dce, GetPid, HelloWorld, IfThenElse and ListSyscalls (lib/src/*.bpf.c in the
-- examples of those names).
use honey_potion.Base.{ℕ, ℤ, pos, s32, beq_ℤ, if◌then◌else◌, [], ◌∷◌}
use honey_potion.Runtime.Values.{Generic, int, as_integer, atom_nil, atom_true, atom_false}
use honey_potion.Runtime.Compare.{to_bool}
use honey_potion.Generated.Machine.{State, Action, Found, ◌>>◌, pure, print, main}

-- `syscalls_enter_args`
pub record SyscallsEnterArgs : Type 0 where
  pub common_pid : ℤ
  pub id : ℤ
  pub args : ℕ → ℕ

-- `syscalls_enter_kill_args`
pub record SyscallsEnterKillArgs : Type 0 where
  pub syscall_nr : ℤ
  pub pid : ℤ
  pub sig : ℤ

-- A comparison of two `int`, as a value of Elixir.
abbrev pub int_eq : ℤ → ℤ → Generic
int_eq a b = if beq_ℤ a b then atom_true else atom_false

module _ {M : Type 0} where
  unfoldable pub basic_main : Found → State M → ℤ × State M
  unfolding main
  basic_main found = main found (pure (pos 1))

  unfoldable pub case_main : Found → State M → ℤ × State M
  unfolding main
  case_main found = main found do print "Result: %d" (pos 3 ∷ []); pure (pos 0)

  unfoldable pub cond_main : Found → State M → ℤ × State M
  unfolding main
  cond_main found = main found do print "Is 32." []; pure (pos 0)

  unfoldable pub cp_main : Found → State M → ℤ × State M
  unfolding main
  cp_main found = main found (pure (pos 18))

  unfoldable pub dce_main : Found → State M → ℤ × State M
  unfolding main
  dce_main found = main found (pure (pos 0))

  unfoldable pub if_then_else_main : Found → State M → ℤ × State M
  unfolding main
  if_then_else_main found = main found do print "True" []; pure (pos 0)

  unfoldable pub hello_world_main : Found → State M → ℤ × State M
  unfolding main
  hello_world_main found =
      main found do print "Hello World" (as_integer atom_nil.value ∷ []); pure (pos 0)

  -- `pid_tgid` is what `bpf_get_current_pid_tgid` returns.
  unfoldable pub get_pid_main : Found → ℤ → State M → ℤ × State M
  unfolding main s32
  get_pid_main found pid_tgid =
      main found
        do print "Current PID: %d; Another number: 5" (s32 pid_tgid ∷ pos 5 ∷ []); pure (pos 0)

  unfoldable pub ctx_access_main : Found → SyscallsEnterKillArgs → ℤ → State M → ℤ × State M
  unfolding main s32
  ctx_access_main found ctx pid_tgid = main found do
    print "PID of callee: %d; PID of target: %d;" (s32 pid_tgid ∷ s32 ctx.pid ∷ [])
    pure (pos 0)

  -- The cond of ListSyscalls, with the value that it leaves.
  unfoldable pub list_cond : ℤ → Action M Generic
  unfolding to_bool
  list_cond id =
      if to_bool (int_eq id (pos 62))
      then (do print "Syscall of type enter_kill" []; pure (int (pos 0)))
      else if to_bool (int_eq id (pos 83))
      then (do print "Syscall of type enter_mkdir" []; pure (int (pos 0)))
      else if to_bool (int_eq id (pos 318))
      then (do print "Syscall of type enter_getrandom" []; pure (int (pos 0)))
      else pure atom_nil

  unfoldable pub list_syscalls_main : Found → SyscallsEnterArgs → State M → ℤ × State M
  unfolding main s32 list_cond
  list_syscalls_main found ctx = main found do list_cond (s32 ctx.id); pure (pos 0)
