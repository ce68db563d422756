-- ===== src/Counters/Kills.antt =====
-- benchmarks/forcekill/prog.bpf.c: the processes that someone sent SIGKILL to.
use honey_potion.Base.{
  ℕ, suc, ◌+◌, ◌≤◌, ◌≡◌, ap, ◌∙◌, Bool, false, ◌||◌, ◌&&◌, is_some, List, [], ◌∷◌, length, ◌==◌,
  if◌then◌else◌, ℤ, pos, negsuc, arith,
}
use honey_potion.Bpf.{HashMap, nat_key}

-- The two arguments of kill(2).
pub record KillArgs : Type 0 where
  pub pid : ℤ
  pub sig : ℕ

-- `labs`, whose argument is above LONG_MIN.
abbrev pub labs : ℤ → ℕ
labs (pos n) = n
labs (negsuc n) = suc n

abbrev pub sigkill : ℕ
sigkill = 9

module _ (kills : HashMap nat_key ℕ) where
  -- `sysEnterKill`
  unfoldable pub sys_enter_kill : kills.Map → KillArgs → kills.Map
  sys_enter_kill m ctx = if ctx.sig == sigkill then kills.insert m (labs ctx.pid) 1 else m

  unfoldable pub run : kills.Map → List KillArgs → kills.Map
  unfolding sys_enter_kill
  run m [] = m
  run m (k ∷ ks) = run (sys_enter_kill m k) ks

  abbrev pub has : kills.Map → ℕ → Bool
  has m p = is_some (kills.lookup m p)

  -- Some call sends SIGKILL to the process or its group.
  abbrev pub was_killed : ℕ → List KillArgs → Bool
  was_killed p [] = false
  was_killed p (k ∷ ks) = k.sig == sigkill && labs k.pid == p || was_killed p ks

  step-has :
      (m : kills.Map) (k : KillArgs) (p n : ℕ)
      → kills.size m + suc n ≤ kills.max_entries
      → (has (sys_enter_kill m k) p ≡ (has m p || k.sig == sigkill && labs k.pid == p))
        × (kills.size (sys_enter_kill m k) + n ≤ kills.max_entries)
  unfolding sys_enter_kill
  step-has m k p n room =
      ground (arith, kills.lookup-insert m (labs k.pid) 1 p, kills.size-insert m (labs k.pid) 1)

  or_assoc : (a b c : Bool) → ((a || b) || c) ≡ (a || (b || c))
  or_assoc a b c = ground arith

  or_false : (a : Bool) → a ≡ (a || false)
  or_false a = ground arith

  -- After any sequence of calls of kill(2) for which the map has room, exactly those processes are
  -- noted that were before and those that one of the calls sends SIGKILL to, by their number or
  -- by that of their group.
  pub run-has :
      (ks : List KillArgs) (m : kills.Map) (p : ℕ)
      → kills.size m + length ks ≤ kills.max_entries
      → has (run m ks) p ≡ (has m p || was_killed p ks)
  unfolding run
  run-has [] m p room = or_false (has m p)
  run-has (k ∷ ks) m p room =
      let step = step-has m k p (length ks) room in
      run-has ks (sys_enter_kill m k) p step.1
      ∙ ap (λ b. b || was_killed p ks) step.0
      ∙ or_assoc (has m p) (k.sig == sigkill && labs k.pid == p) (was_killed p ks)
