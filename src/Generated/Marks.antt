-- ===== src/Generated/Marks.antt =====
-- What ForceKill marks, over any sequence of calls of kill(2).
use honey_potion.Base.{
  ◌+◌, ◌≤◌, ℕ, suc, ◌≡◌, ap, ◌∙◌, Bool, false, ◌||◌, ◌&&◌, is_some, List, [], ◌∷◌, length, ℤ, pos,
  beq_ℤ, if◌then◌else◌, s32, arith,
}
use honey_potion.Bpf.{HashMap}
use honey_potion.Runtime.Values.{Generic, int}
use honey_potion.Runtime.Compare.{to_bool}
use honey_potion.Generated.Machine.{State, main, boot, catch, all_found}
use honey_potion.Generated.Access.{int_key}
use honey_potion.Generated.Constants.{SyscallsEnterKillArgs, int_eq}
use honey_potion.Generated.Counts.{force_kill_main}

-- `sig_1_` is 9.
abbrev pub is_kill : SyscallsEnterKillArgs → Bool
is_kill ctx = beq_ℤ (s32 ctx.sig) (pos 9)

pub to_bool-int_eq : (a b : ℤ) → to_bool (int_eq a b) ≡ beq_ℤ a b
unfolding to_bool
to_bool-int_eq a b = ground arith

module _ (kills : HashMap int_key Generic) where
  open kills use {Map, lookup, insert, size, max_entries}

  abbrev pub has : Map → ℤ → Bool
  has m p = is_some (lookup m p)

  unfoldable pub run : State Map → List SyscallsEnterKillArgs → State Map
  unfolding force_kill_main
  run s [] = s
  run s (k ∷ ks) = run (force_kill_main kills all_found k s).1 ks

  abbrev pub was_killed : ℤ → List SyscallsEnterKillArgs → Bool
  was_killed p [] = false
  was_killed p (k ∷ ks) = is_kill k && beq_ℤ (s32 k.pid) p || was_killed p ks

  abbrev marked : Map → SyscallsEnterKillArgs → Map
  marked m k = if is_kill k then insert m (s32 k.pid) (int (pos 1)) else m

  step-marked :
      (s : State Map) (k : SyscallsEnterKillArgs)
      → (force_kill_main kills all_found k s).1.maps ≡ marked s.maps k
  unfolding force_kill_main main boot catch
  step-marked s k = ground (arith, to_bool-int_eq (s32 k.sig) (pos 9))

  marked-has :
      (m : Map) (k : SyscallsEnterKillArgs) (p : ℤ) (n : ℕ)
      → size m + suc n ≤ max_entries
      → (has (marked m k) p ≡ (has m p || is_kill k && beq_ℤ (s32 k.pid) p))
        × (size (marked m k) + n ≤ max_entries)
  marked-has m k p n room = ground (
    arith,
    kills.lookup-insert m (s32 k.pid) (int (pos 1)) p,
    kills.size-insert m (s32 k.pid) (int (pos 1)),
  )

  or_assoc : (a b c : Bool) → ((a || b) || c) ≡ (a || (b || c))
  or_assoc a b c = ground arith

  or_false : (a : Bool) → a ≡ (a || false)
  or_false a = ground arith

  -- After any sequence of calls of kill(2) for which the map has room, exactly those numbers are
  -- marked that were before and those that one of the calls sends signal 9 to. Unlike the
  -- hand-written program, a group of processes (a negative number) has a mark of its own.
  run-has_marks :
      (ks : List SyscallsEnterKillArgs) (s : State Map) (p : ℤ)
      → size s.maps + length ks ≤ max_entries
      → has (run s ks).maps p ≡ (has s.maps p || was_killed p ks)
  unfolding run
  run-has_marks [] s p room = or_false (has s.maps p)
  run-has_marks (k ∷ ks) s p room =
      let t = (force_kill_main kills all_found k s).1 in
      let same = step-marked s k in
      let step = marked-has s.maps k p (length ks) room in
      run-has_marks ks t p (rw same step.1)
      ∙ ap (λ b. b || was_killed p ks) (ap (λ m. has m p) same ∙ step.0)
      ∙ or_assoc (has s.maps p) (is_kill k && beq_ℤ (s32 k.pid) p) (was_killed p ks)
