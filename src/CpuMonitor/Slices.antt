-- ===== src/CpuMonitor/Slices.antt =====
-- What a process is charged for the time between two context switches.
use mathlib.Core.Path.{subst}
use honey_potion.Base.{
  ℕ, Bool, true, false, ◌+◌, ◌-◌, ◌<◌, ◌≤◌, ◌^◌, ◌≡◌, ◌≢◌, refl, ◌∙◌, sym, Option, none, some, List,
  [], ◌∷◌, ◌++◌, arith, ◌==◌, ◌||◌, length, sub64,
}
use honey_potion.Bpf.{HashMap, nat_key}
use honey_potion.Bpf.Credit.{count_of, plus}
use honey_potion.CpuMonitor.{Maps, Event, sched_switch, sys_enter, sys_exit, run, HasRoom}
use honey_potion.CpuMonitor.Process.{Process, switch_out, enter, exit, step, run_process}
use honey_potion.CpuMonitor.Refine.{view, run-view}

-- Does an event name the process?
abbrev pub is_about : ℕ → Event → Bool
is_about p (sched_switch prev_pid next_pid ts) = prev_pid == p || next_pid == p
is_about p (sys_enter pid ts) = pid == p
is_about p (sys_exit pid ts) = pid == p

-- `Slice p hi in_call t k es`: `es` are events while `p` runs, from time `t` to `hi`, in which `p`
-- is in a system call (since `t`) or not, and spends `k` nanoseconds in completed calls. Events
-- of other processes stand anywhere between.
pub data Slice (p hi : ℕ) : Bool → ℕ → ℕ → List Event → Type 0 where
  stops : {t k : ℕ} → t ≤ hi → k ≡ 0 → Slice p hi false t k []
  other :
      {in_call : Bool} {t k : ℕ} {es : List Event} (e : Event)
      → is_about p e ≡ false
      → Slice p hi in_call t k es
      → Slice p hi in_call t k (e ∷ es)
  enters :
      {t k : ℕ} {es : List Event} (a : ℕ)
      → t ≤ a
      → Slice p hi true a k es
      → Slice p hi false t k (sys_enter p a ∷ es)
  exits :
      {t k k' : ℕ} {es : List Event} (b : ℕ)
      → t ≤ b
      → k ≡ b - t + k'
      → Slice p hi false b k' es
      → Slice p hi true t k (sys_exit p b ∷ es)

pub Slice-le :
    {p hi t k : ℕ} {in_call : Bool} {es : List Event} → Slice p hi in_call t k es → t + k ≤ hi
Slice-le (stops h e) = omega arith
Slice-le (other e n r) = Slice-le r
Slice-le (enters a h r) = omega (arith, Slice-le r)
Slice-le (exits b h e r) = omega (arith, Slice-le r)

step-other : (p : ℕ) (c : Process) (e : Event) → is_about p e ≡ false → step p c e ≡ c
unfolding step
step-other p c (sched_switch prev_pid next_pid ts) h = ground arith
step-other p c (sys_enter pid ts) h = ground arith
step-other p c (sys_exit pid ts) h = ground arith

-- What the events of a slice leave of a process's counters.
record Charged (c c' : Process) (k : ℕ) : Type 0 where
  start : c'.start ≡ c.start
  kernel : c'.kernel ≡ c.kernel
  user : c'.user ≡ c.user
  in_slice : count_of c'.in_slice ≡ count_of c.in_slice + k

abbrev called : Bool → ℕ → Option ℕ
called true t = some t
called false t = none

step-enter : (p : ℕ) (c : Process) (a : ℕ) → step p c (sys_enter p a) ≡ enter c a
unfolding step
step-enter p c a = ground arith

step-exit : (p : ℕ) (c : Process) (b : ℕ) → step p c (sys_exit p b) ≡ exit c b
unfolding step
step-exit p c b = ground arith

exit-Charged :
    (c : Process) (t b : ℕ)
    → c.syscall ≡ some t
    → t ≤ b
    → b < 2 ^ 64
    → count_of c.in_slice + (b - t) < 2 ^ 64
    → Charged c (exit c b) (b - t) × ((exit c b).syscall ≡ none)
unfolding exit
exit-Charged c t b e h hb room = ground arith

enter-Charged : (c c' : Process) (a : ℕ) {k : ℕ} → Charged (enter c a) c' k → Charged c c' k
enter-Charged c c' a f = ground arith

Charged-trans : {c d e : Process} {j k : ℕ} → Charged c d j → Charged d e k → Charged c e (j + k)
Charged-trans f g = ground arith

Slice-Charged :
    {p hi t k : ℕ} {in_call : Bool} {es : List Event} (c : Process)
    → Slice p hi in_call t k es
    → c.syscall ≡ called in_call t
    → hi < 2 ^ 64
    → count_of c.in_slice + k < 2 ^ 64
    → Charged c (run_process p c es) k
unfolding run_process
Slice-Charged c (stops h z) e hh room = ground arith
Slice-Charged {p} c (other {es = es} ev n r) e hh room =
    rw (step-other p c ev n) (Slice-Charged c r e hh room)
Slice-Charged {p} c (enters {es = es} a h r) e hh room =
    rw (step-enter p c a) (enter-Charged c _ a (Slice-Charged (enter c a) r refl hh room))
Slice-Charged {p} c (exits {t} {k' = k'} b h k r) e hh room =
    let first = exit-Charged c t b e h (omega (arith, Slice-le r)) (omega arith) in
    rw (step-exit p c b, k)
      (Charged-trans first.0
        (Slice-Charged (exit c b) r first.1 hh (omega (arith, first.0.in_slice))))

run_process-append :
    (p : ℕ) (c : Process) (xs ys : List Event)
    → run_process p c (xs ++ ys) ≡ run_process p (run_process p c xs) ys
unfolding run_process
run_process-append p c [] ys = refl
run_process-append p c (x ∷ xs) ys = run_process-append p (step p c x) xs ys

-- The two totals after a slice of which `k` nanoseconds went to system calls.
abbrev pub Accounted : Process → Process → ℕ → ℕ → Type 0
Accounted c c' length_ns k =
    (count_of c'.kernel ≡ count_of c.kernel + k)
    × (count_of c'.user + k ≡ count_of c.user + length_ns)

plus-eq : (c : Option ℕ) (d : ℕ) → count_of c + d < 2 ^ 64 → plus c d ≡ count_of c + d
plus-eq none d h = omega arith
plus-eq (some n) d h = omega arith

switch-Accounted :
    (p q t0 hi k : ℕ) (c c' : Process)
    → Charged c c' k
    → c.start ≡ some t0
    → c.in_slice ≡ none
    → t0 + k ≤ hi
    → hi < 2 ^ 64
    → count_of c.kernel + count_of c.user + (hi - t0) < 2 ^ 64
    → Accounted c (step p c' (sched_switch p q hi)) (hi - t0) k
unfolding step switch_out
switch-Accounted p q t0 hi k c c' f e n le hh room =
    let start : c'.start ≡ some t0 = f.start ∙ e in
    let delta : sub64 hi t0 ≡ hi - t0 = omega arith in
    let rest : sub64 (hi - t0) k ≡ hi - t0 - k = omega arith in
    ground (arith, start, delta, rest, f.in_slice, plus-eq c.kernel k, plus-eq c.user (hi - t0 - k))

abbrev pub blocked_call : ℕ → ℕ → ℕ → ℕ → ℕ → ℕ → ℕ → List Event
blocked_call p q a t1 t2 b t3 =
    sys_enter p a
    ∷ sched_switch p q t1
    ∷ sched_switch q p t2
    ∷ sys_exit p b
    ∷ sched_switch p q t3
    ∷ []

blocked_call-process :
    (p q : ℕ) (c : Process) (t0 a t1 t2 b t3 : ℕ)
    → c.start ≡ some t0
    → c.in_slice ≡ none
    → p ≢ q
    → (t0 ≤ a) × (a ≤ t1) × (t1 ≤ t2) × (t2 ≤ b) × (b ≤ t3) × (t3 < 2 ^ 64)
    → a < b
    → t3 - t2 ≤ b - a
    → count_of c.kernel + count_of c.user + (t3 - t0) + (t3 - t0) < 2 ^ 64
    → let c' = run_process p c (blocked_call p q a t1 t2 b t3) in
      (count_of c'.kernel ≡ count_of c.kernel + (b - a))
      × (count_of c'.user ≡ count_of c.user + (t1 - t0))
unfolding run_process step switch_out exit
blocked_call-process p q c t0 a t1 t2 b t3 e1 e3 ne ord call long total =
    ground (arith, plus-eq c.user (t1 - t0), plus-eq c.kernel (b - a))

module _ (bpf : HashMap nat_key ℕ) where
  open bpf use {Map, lookup}

  -- A process `p` is switched in at `t0` and out at `hi`, and in between spends `k` nanoseconds
  -- in completed system calls, among any events of other processes. If the maps have room for an
  -- entry per event, no slice or call of `p` was open before and the totals stay below 2^64, then
  -- its kernel time grows by `k` and its user time by the rest of the slice.
  pub process_times :
      (s : Maps Map) (p q t0 hi k : ℕ) (es : List Event)
      → HasRoom bpf (length (es ++ sched_switch p q hi ∷ [])) s
      → lookup s.start_time p ≡ some t0
      → lookup s.syscall_start p ≡ none
      → lookup s.run_kernel_time p ≡ none
      → Slice p hi false t0 k es
      → hi < 2 ^ 64
      → count_of (lookup s.kernel_time p) + count_of (lookup s.user_time p) + (hi - t0) < 2 ^ 64
      → Accounted
          (view bpf p s)
          (view bpf p (run bpf s (es ++ sched_switch p q hi ∷ [])))
          (hi - t0)
          k
  unfolding run_process
  process_times s p q t0 hi k es room e1 e2 e3 sl hh total =
      let c = view bpf p s in
      let le : t0 + k ≤ hi = Slice-le sl in
      let f = Slice-Charged c sl e2 hh (rw e3 (omega arith)) in
      let out = sched_switch p q hi ∷ [] in
      subst (λ v. Accounted c v (hi - t0) k)
        (sym (run-view bpf (es ++ out) s p room ∙ run_process-append p c es out))
        (switch-Accounted p q t0 hi k c (run_process p c es) f e1 e3 le hh total)

  -- A process `p` runs from `t0`, enters a system call at `a`, is switched out inside it at `t1` for
  -- another process, is in again at `t2`, leaves the call at `b` and is switched out at `t3`, in
  -- this order and with nothing between. If the call takes some time and at least that of the second
  -- slice, the maps have room for five entries, `p` has no time of calls in its slice yet, the
  -- times lie below 2^64 and so do the two totals with twice the whole span, then `p` is charged
  -- the whole call, waiting included, as kernel time, and all of the first slice as user time. The
  -- two charges together exceed the time that `p` ran, by how much longer the call is than the
  -- second slice.
  pub blocked_call_times :
      (s : Maps Map) (p q t0 a t1 t2 b t3 : ℕ)
      → HasRoom bpf 5 s
      → lookup s.start_time p ≡ some t0
      → lookup s.run_kernel_time p ≡ none
      → p ≢ q
      → (t0 ≤ a) × (a ≤ t1) × (t1 ≤ t2) × (t2 ≤ b) × (b ≤ t3) × (t3 < 2 ^ 64)
      → a < b
      → t3 - t2 ≤ b - a
      → count_of (lookup s.kernel_time p) + count_of (lookup s.user_time p) + (t3 - t0) + (t3 - t0)
        < 2 ^ 64
      → let s' = run bpf s (blocked_call p q a t1 t2 b t3) in
        (count_of (lookup s'.kernel_time p) ≡ count_of (lookup s.kernel_time p) + (b - a))
        × (count_of (lookup s'.user_time p) ≡ count_of (lookup s.user_time p) + (t1 - t0))
        × (count_of (lookup s'.kernel_time p) + count_of (lookup s'.user_time p)
            ≡ count_of (lookup s.kernel_time p)
              + count_of (lookup s.user_time p)
              + (t1 - t0 + (t3 - t2))
              + (b - a - (t3 - t2)))
  blocked_call_times s p q t0 a t1 t2 b t3 room e1 e3 ne ord call long total =
      let c = view bpf p s in
      subst
        (λ (v : Process).
          (count_of v.kernel ≡ count_of c.kernel + (b - a))
          × (count_of v.user ≡ count_of c.user + (t1 - t0))
          × (count_of v.kernel + count_of v.user
              ≡ count_of c.kernel + count_of c.user + (t1 - t0 + (t3 - t2)) + (b - a - (t3 - t2))))
        (sym (run-view bpf (blocked_call p q a t1 t2 b t3) s p room))
        (let (kernel, user) =
            blocked_call-process p q c t0 a t1 t2 b t3 e1 e3 ne ord call long total in
          (kernel, user, omega (arith, kernel, user)))
