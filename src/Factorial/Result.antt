-- ===== src/Factorial/Result.antt =====
-- The loop computes the factorial.
use honey_potion.Base.{
  ℕ, Option-cases, zero, suc, ◌-◌, ◌*◌, ◌^◌, ◌<◌, ◌≤◌, ◌≡◌, refl, ap, ◌∙◌, inl, inr, true, ◌&&◌,
  if◌then◌else◌, beq_ℤ, false, Bool-cases, ℤ, pos, ◌*ℤ◌, ◌-ℤ◌, s32, s32-eq, Option, none, some,
  is_some, List, [], ◌∷◌, ◌==◌, arith, leb_ℤ,
}
use honey_potion.Factorial.{FactEvent, Host, Write, handle_tp, handle_event, respond, run}

abbrev pub factorial : ℕ → ℕ
factorial zero = 1
factorial (suc n) = suc n * factorial n

-- The memory that is reserved for the first write of a round that is the process's own and finds
-- room in the ring buffer.
abbrev pub own_memory : ℕ → List Write → Option FactEvent
own_memory my_pid [] = none
own_memory my_pid (w ∷ ws) =
    if w.pid == my_pid && is_some w.reserved then w.reserved else own_memory my_pid ws

-- The event of a write that the program answers.
abbrev answer : FactEvent → ℕ → ℤ → ℤ → Option FactEvent
answer e my_pid last_result factor = handle_tp (some e) my_pid my_pid last_result factor

respond-answer :
    (my_pid : ℕ) (last_result factor : ℤ) (ws : List Write) (e : FactEvent)
    → own_memory my_pid ws ≡ some e
    → respond my_pid last_result factor ws ≡ answer e my_pid last_result factor
unfolding respond handle_tp
respond-answer my_pid last_result factor [] e served = absurd (ground (arith, served))
respond-answer my_pid last_result factor (w ∷ ws) e served = elim (Option-cases w.reserved) [
  | inl no_room ↦
      let rest = respond-answer my_pid last_result factor ws e (ground (arith, no_room, served)) in
      ground (arith, no_room, rest)
  | inr (f, room) ↦ elim (Bool-cases (w.pid == my_pid)) [
    | inl own ↦
        let same : w.reserved ≡ some e = ground (arith, own, room, served) in
        let is : f ≡ e = cc (room, same) in
        let answered : respond my_pid last_result factor (w ∷ ws)
            ≡ answer f my_pid last_result factor =
          ground (arith, room, own) in
        answered ∙ ap (λ x. answer x my_pid last_result factor) is
    | inr other ↦
        let rest = respond-answer my_pid last_result factor ws e (ground (arith, other, served)) in
        ground (arith, other, rest)
  ]
]

-- One round: the product and the next factor, or the end, which leaves the rest of the memory.
answer-last :
    (e : FactEvent) (my_pid a n : ℕ)
    → n ≤ 1
    → answer e my_pid (pos a) (pos n) ≡ some (record e { result = pos a })
unfolding handle_tp
answer-last e my_pid a n small = ground arith

product : (a n : ℕ) → a * n < 2 ^ 31 → s32 (pos a *ℤ pos n) ≡ pos (a * n)
unfolding ◌*ℤ◌
product a n fits =
    let exact : pos a *ℤ pos n ≡ pos (a * n) = ground arith in
    rw exact (s32-eq (pos (a * n)) (ground arith))

predecessor : (n : ℕ) → 2 ≤ n → n < 2 ^ 31 → s32 (pos n -ℤ pos 1) ≡ pos (n - 1)
unfolding ◌-ℤ◌
predecessor n large small =
    let exact : pos n -ℤ pos 1 ≡ pos (n - 1) = ground arith in
    rw exact (s32-eq (pos (n - 1)) (ground arith))

answer-next :
    (e : FactEvent) (my_pid a n : ℕ)
    → 2 ≤ n
    → a * n < 2 ^ 31
    → n < 2 ^ 31
    → answer e my_pid (pos a) (pos n)
      ≡ some (record { result = pos (a * n); continuing = pos 1; next_factor = pos (n - 1) })
unfolding handle_tp
answer-next e my_pid a n large fits small =
    let own : (my_pid == my_pid) ≡ true = ground arith in
    let more : leb_ℤ (pos n) (pos 1) ≡ false = ground arith in
    rw (handle_tp, own, more, product a n fits, predecessor n large small) refl

factorial-pos : (n : ℕ) → 1 ≤ factorial n
factorial-pos zero = omega arith
factorial-pos (suc n) = ground (arith, factorial-pos n)

abbrev pub value_of : Option Host → Option ℤ
value_of none = none
value_of (some h) = some h.last_ret_val

le_times : (x y : ℕ) → 1 ≤ y → x ≤ x * y
le_times x zero h = absurd (omega arith)
le_times x (suc y) h = omega arith

-- The globals with `a` computed and the factors up to `n` left.
abbrev pub host : ℕ → ℕ → Host
host a n = record { last_ret_val = pos a; current_factor = pos n; continuing = pos 1 }

run-last :
    (n fuel my_pid a : ℕ) (rounds : ℕ → List Write) (e : FactEvent)
    → own_memory my_pid (rounds fuel) ≡ some e
    → n ≤ 1
    → run (suc fuel) my_pid rounds (host a n)
      ≡ run fuel my_pid rounds (handle_event (record e { result = pos a }))
unfolding run handle_event
run-last n fuel my_pid a rounds e served small =
    let r = respond-answer my_pid (pos a) (pos n) (rounds fuel) e served in
    rw (run, r, answer-last e my_pid a n small) refl

run-next :
    (n fuel my_pid a : ℕ) (rounds : ℕ → List Write) (e : FactEvent)
    → own_memory my_pid (rounds fuel) ≡ some e
    → 2 ≤ n
    → a * n < 2 ^ 31
    → n < 2 ^ 31
    → run (suc fuel) my_pid rounds (host a n) ≡ run fuel my_pid rounds (host (a * n) (n - 1))
unfolding run handle_event
run-next n fuel my_pid a rounds e served large fits small =
    let r = respond-answer my_pid (pos a) (pos n) (rounds fuel) e served in
    rw (run, r, answer-next e my_pid a n large fits small) refl

-- Without fuel a loop has ended or goes on.
value_of-run :
    (my_pid : ℕ) (rounds : ℕ → List Write) (h : Host)
    → value_of (run 0 my_pid rounds h)
      ≡ (if beq_ℤ h.continuing (pos 0) then some h.last_ret_val else none)
unfolding run
value_of-run my_pid rounds h = elim (Bool-cases (beq_ℤ h.continuing (pos 0))) [
  | inl ended ↦ rw ended refl
  | inr more ↦ rw more refl
]

served_memory :
    (my_pid : ℕ) (ws : List Write)
    → is_some (own_memory my_pid ws) ≡ true
    → (e : FactEvent) × (own_memory my_pid ws ≡ some e)
served_memory my_pid ws served = elim (Option-cases (own_memory my_pid ws)) [
  | inl e ↦ absurd (ground (arith, e, served))
  | inr found ↦ found
]

-- If in each round some write of the process finds room in the ring buffer, what was computed is
-- positive, and the product of it and of the factors that are left, at least one, is an `int`, then after as many
-- rounds as there are factors the product is computed. The loop has ended with it if the memory
-- that was reserved in the last round has 0 in `continuing`, which the program does not write
-- there; if it has anything else, the loop goes on.
pub run-factorial :
    (n my_pid a : ℕ) (rounds : ℕ → List Write) (e : FactEvent)
    → ((i : ℕ) → i < suc n → is_some (own_memory my_pid (rounds i)) ≡ true)
    → own_memory my_pid (rounds 0) ≡ some e
    → a * factorial (suc n) < 2 ^ 31
    → 1 ≤ a
    → value_of (run (suc n) my_pid rounds (host a (suc n)))
      ≡ (if beq_ℤ e.continuing (pos 0) then some (pos (a * factorial (suc n))) else none)
unfolding handle_event
run-factorial zero my_pid a rounds e served last fits positive =
    let value : a ≡ a * factorial 1 = omega arith in
    ap value_of (run-last 1 0 my_pid a rounds e last (omega arith))
    ∙ (value_of-run my_pid rounds (handle_event (record e { result = pos a }))
        ∙ ap (λ x. if beq_ℤ e.continuing (pos 0) then some (pos x) else none) value)
run-factorial (suc n) my_pid a rounds e served last fits positive =
    let m = suc (suc n) in
    let rest = factorial (suc n) in
    let split : a * m * rest ≡ a * (m * rest) = omega arith in
    let partial = le_times (a * m) rest (factorial-pos (suc n)) in
    let single : m ≤ m * a = le_times m a positive in
    let decremented : m - 1 ≡ suc n = omega arith in
    let (f, found) = served_memory my_pid (rounds (suc n)) (served (suc n) (omega arith)) in
    let after =
      run-factorial n my_pid (a * m) rounds e (λ i h. served i (omega arith)) last (omega arith)
        (omega arith) in
    ap value_of
      (run-next m (suc n) my_pid a rounds f found (omega arith) (omega arith) (omega arith))
    ∙ ap (λ k. value_of (run (suc n) my_pid rounds (host (a * m) k))) decremented
    ∙ after
    ∙ ap (λ x. if beq_ℤ e.continuing (pos 0) then some (pos x) else none) split
