-- ===== src/Generated/IoMonitor/Totals.antt =====
-- How one step changes what the monitors keep for a task.
use mathlib.Core.Path.{subst}
use honey_potion.Base.{
  ℕ, suc, ◌+◌, ◌≤◌, ◌<◌, ◌^◌, ℤ, pos, ◌+ℤ◌, ◌≡◌, refl, ◌∙◌, ap, some, s32, s32-eq, ltb, beq_ℤ, Bool,
  true, false, ◌&&◌, if◌then◌else◌, List, [], ◌∷◌, arith,
}
use honey_potion.Bpf.{HashMap}
use honey_potion.Runtime.Values.{Generic, int}
use honey_potion.Generated.Access.{int_key, value_or_zero}
use honey_potion.Generated.Constants.{SyscallsEnterArgs}
use honey_potion.Generated.Tallies.{int_successor}
use honey_potion.Generated.IoMonitor.{Tallies}
use honey_potion.Generated.IoMonitor.Steps.{Side, into, out_of, neither, stepped, flag, next}

pub record Call : Type 0 where
  pub ctx : SyscallsEnterArgs
  pub pid_tgid : ℤ

abbrev pub is_into : Side → Bool
is_into into = true
is_into _ = false

abbrev pub is_out_of : Side → Bool
is_out_of out_of = true
is_out_of _ = false

-- A count after one call.
abbrev pub one_into : Side → ℕ → ℕ
one_into into a = 1 + a
one_into _ a = a

abbrev pub one_out_of : Side → ℕ → ℕ
one_out_of out_of b = 1 + b
one_out_of _ b = b

pub one_into-is_into : (side : Side) (a : ℕ) → one_into side a ≡ a + (if is_into side then 1 else 0)
one_into-is_into side a = ground arith

pub one_out_of-is_out_of :
    (side : Side) (b : ℕ) → one_out_of side b ≡ b + (if is_out_of side then 1 else 0)
one_out_of-is_out_of side b = ground arith

-- The calls of the task `p` that are counted in the first map, and in the second.
abbrev pub calls_into : (ℤ → ℤ → Side) → ℤ → List Call → ℕ
calls_into side p [] = 0
calls_into side p (c ∷ cs) =
    (if beq_ℤ (s32 c.pid_tgid) p && is_into (side (s32 c.pid_tgid) (s32 c.ctx.id)) then 1 else 0)
    + calls_into side p cs

abbrev pub calls_out_of : (ℤ → ℤ → Side) → ℤ → List Call → ℕ
calls_out_of side p [] = 0
calls_out_of side p (c ∷ cs) =
    (if beq_ℤ (s32 c.pid_tgid) p && is_out_of (side (s32 c.pid_tgid) (s32 c.ctx.id)) then 1 else 0)
    + calls_out_of side p cs

-- A call counts at most once.
pub one_call :
    (side : ℤ → ℤ → Side) (p : ℤ) (c : Call)
    → calls_into side p (c ∷ []) + calls_out_of side p (c ∷ []) ≤ 1
one_call side p c = ground arith

int_sum : (a b : ℕ) → a + b < 2 ^ 31 → s32 (pos a +ℤ pos b) ≡ pos (a + b)
unfolding ◌+ℤ◌
int_sum a b small =
    let exact : pos a +ℤ pos b ≡ pos (a + b) = ground arith in
    rw exact (s32-eq (pos (a + b)) (ground arith))

module _ (bpf : HashMap int_key Generic) where
  open bpf use {lookup, update, size, max_entries}

  -- The counts of the task `p` are `a` and `b`, and its flag tells whether their sum is above the
  -- threshold. A missing entry counts as 0, and as a flag that is not set.
  abbrev pub IsTallied : ℕ → ℤ → ℕ → ℕ → Tallies bpf → Type 0
  IsTallied threshold p a b m =
      (value_or_zero (lookup m.ins p) ≡ pos a)
      × (value_or_zero (lookup m.outs p) ≡ pos b)
      × (value_or_zero (lookup m.alerts p) ≡ pos (if ltb threshold (a + b) then 1 else 0))

  -- Room for `k` more entries in each map.
  abbrev pub HasRoom : ℕ → Tallies bpf → Type 0
  HasRoom k m =
      (size m.ins + k ≤ max_entries)
      × (size m.outs + k ≤ max_entries)
      × (size m.alerts + k ≤ max_entries)

  pub other :
      (m : bpf.Map) (pid p : ℤ) (g : Generic) (k : ℕ)
      → size m + suc k ≤ max_entries
      → beq_ℤ pid p ≡ false
      → (value_or_zero (lookup (update m pid g) p) ≡ value_or_zero (lookup m p))
        × (size (update m pid g) + k ≤ max_entries)
  other m pid p g k room ne = (
    ap value_or_zero (bpf.lookup-update m pid g p ∙ ground (arith, ne)),
    omega (arith, room, bpf.size-update m pid g),
  )

  pub same :
      (m : bpf.Map) (p : ℤ) (n k : ℕ)
      → size m + suc k ≤ max_entries
      → n < 2 ^ 31
      → (value_or_zero (lookup (update m p (int (pos n))) p) ≡ pos n)
        × (size (update m p (int (pos n))) + k ≤ max_entries)
  unfolding value_or_zero
  same m p n k room small =
      let self : beq_ℤ p p ≡ true = (int_key.beq_iff p p).1 refl in
      let found : lookup (update m p (int (pos n))) p ≡ some (int (pos n)) =
        bpf.lookup-update m p (int (pos n)) p ∙ ground (arith, self, room) in
      (
        ap value_or_zero found ∙ s32-eq (pos n) (ground (arith, small)),
        omega (arith, room, bpf.size-update m p (int (pos n))),
      )

  pub less : (m : bpf.Map) (k : ℕ) → size m + suc k ≤ max_entries → size m + k ≤ max_entries
  less m k h = omega arith

  -- One step of another task, and one of the task itself.
  pub stepped-other :
      (threshold : ℕ) (side : Side) (pid p : ℤ) (a b k : ℕ) (m : Tallies bpf)
      → HasRoom (suc k) m
      → beq_ℤ pid p ≡ false
      → IsTallied threshold p a b m
      → let n = stepped bpf (pos threshold) side pid m in IsTallied threshold p a b n × HasRoom k n
  stepped-other threshold into pid p a b k m (ri, ro, ra) ne (i, o, f) =
      let ins = other m.ins pid p _ k ri ne in
      let alerts = other m.alerts pid p _ k ra ne in
      ((ins.0 ∙ i, o, alerts.0 ∙ f), (ins.1, less m.outs k ro, alerts.1))
  stepped-other threshold out_of pid p a b k m (ri, ro, ra) ne (i, o, f) =
      let outs = other m.outs pid p _ k ro ne in
      let alerts = other m.alerts pid p _ k ra ne in
      ((i, outs.0 ∙ o, alerts.0 ∙ f), (less m.ins k ri, outs.1, alerts.1))
  stepped-other threshold neither pid p a b k m (ri, ro, ra) ne t =
      (t, (less m.ins k ri, less m.outs k ro, less m.alerts k ra))

  flag-eq :
      (threshold total : ℕ)
      → flag bpf (pos threshold) (pos total) ≡ int (pos (if ltb threshold total then 1 else 0))
  flag-eq threshold total = ground arith

  flag_small : (threshold total : ℕ) → (if ltb threshold total then 1 else 0) < 2 ^ 31
  flag_small threshold total = ground arith

  pub stepped-same :
      (threshold : ℕ) (side : Side) (p : ℤ) (a b k : ℕ) (m : Tallies bpf)
      → HasRoom (suc k) m
      → a + b + 1 < 2 ^ 31
      → IsTallied threshold p a b m
      → let n = stepped bpf (pos threshold) side p m in
        IsTallied threshold p (one_into side a) (one_out_of side b) n × HasRoom k n
  stepped-same threshold into p a b k m (ri, ro, ra) small (i, o, f) =
      let new : next bpf m.ins p ≡ pos (1 + a) =
        rw i (int_successor a (omega arith) ∙ ap pos (omega arith)) in
      let sum : s32 (next bpf m.ins p +ℤ value_or_zero (lookup m.outs p)) ≡ pos (1 + a + b) =
        rw (new, o) (int_sum (1 + a) b (omega arith)) in
      let ins = same m.ins p (1 + a) k ri (omega arith) in
      let alerts =
        same m.alerts p (if ltb threshold (1 + a + b) then 1 else 0) k ra
          (flag_small threshold (1 + a + b)) in
      let written : flag bpf (pos threshold)
            (s32 (next bpf m.ins p +ℤ value_or_zero (lookup m.outs p)))
          ≡ int (pos (if ltb threshold (1 + a + b) then 1 else 0)) =
        ap (flag bpf (pos threshold)) sum ∙ flag-eq threshold (1 + a + b) in
      (
        (rw new ins.0, o, rw written alerts.0),
        (rw new ins.1, less m.outs k ro, rw written alerts.1),
      )
  stepped-same threshold out_of p a b k m (ri, ro, ra) small (i, o, f) =
      let new : next bpf m.outs p ≡ pos (1 + b) =
        rw o (int_successor b (omega arith) ∙ ap pos (omega arith)) in
      let sum : s32 (value_or_zero (lookup m.ins p) +ℤ next bpf m.outs p) ≡ pos (a + (1 + b)) =
        rw (new, i) (int_sum a (1 + b) (omega arith)) in
      let outs = same m.outs p (1 + b) k ro (omega arith) in
      let alerts =
        same m.alerts p (if ltb threshold (a + (1 + b)) then 1 else 0) k ra
          (flag_small threshold (a + (1 + b))) in
      let written : flag bpf (pos threshold)
            (s32 (value_or_zero (lookup m.ins p) +ℤ next bpf m.outs p))
          ≡ int (pos (if ltb threshold (a + (1 + b)) then 1 else 0)) =
        ap (flag bpf (pos threshold)) sum ∙ flag-eq threshold (a + (1 + b)) in
      (
        (i, rw new outs.0, rw written alerts.0),
        (less m.ins k ri, rw new outs.1, rw written alerts.1),
      )
  stepped-same threshold neither p a b k m (ri, ro, ra) small t =
      (t, (less m.ins k ri, less m.outs k ro, less m.alerts k ra))

  pub retally :
      (threshold : ℕ) (p : ℤ) (m : Tallies bpf) {a a' b b' : ℕ}
      → a ≡ a'
      → b ≡ b'
      → IsTallied threshold p a b m
      → IsTallied threshold p a' b' m
  retally threshold p m {a} {a'} {b} {b'} ea eb h =
      subst (λ x. IsTallied threshold p a' x m) eb (subst (λ x. IsTallied threshold p x b m) ea h)
