-- ===== src/FindString/Queue/Refine.antt =====
-- The ring behaves as a list of at most `capacity` numbers.
use Prim.Native.Nat.{suc}
use native.Mathlib.Nat.{mod-add-mod, mod-eq_of_lt}
use mathlib.Core.Path.{ap₂}
use honey_potion.Base.{
  ℕ, ◌+◌, ◌-◌, ◌%◌, ◌<◌, ◌≤◌, ◌≡◌, refl, sym, ap, ◌∙◌, Bool, true, false, List, [], ◌∷◌, ◌++◌,
  length, ltb, ◌==◌, if◌then◌else◌, ◌^◌, u32, arith, Bool-cases, inl, inr,
}
use honey_potion.FindString.Queue.Window.{
  last_or, window, length-window, past, window-written, last_or-window,
}
use honey_potion.FindString.Queue.{
  Queue, int_min, create_queue, is_full, is_empty, enqueue, dequeue, front_item, rear_item,
}

pub data Op : Type 0 where
  enqueue_op : ℕ → Op
  dequeue_op front_op rear_op is_empty_op is_full_op : Op

-- What an operation returns, as a number.
abbrev number : Bool → ℕ
number true = 1
number false = 0

abbrev pub step : Queue → Op → ℕ × Queue
step q (enqueue_op x) = (0, enqueue q x)
step q dequeue_op = dequeue q
step q front_op = (front_item q, q)
step q rear_op = (rear_item q, q)
step q is_empty_op = (number (is_empty q), q)
step q is_full_op = (number (is_full q), q)

unfoldable pub run : Queue → List Op → List ℕ
run q [] = []
run q (o ∷ os) = let (r, q') = step q o in r ∷ run q' os

-- The list: it grows at its end up to the capacity, and shrinks at its head.
abbrev head_or : List ℕ → ℕ → ℕ
head_or [] d = d
head_or (x ∷ xs) d = x

abbrev tail : List ℕ → List ℕ
tail [] = []
tail (x ∷ xs) = xs

abbrev pub list_step : ℕ → List ℕ → Op → ℕ × List ℕ
list_step c xs (enqueue_op x) = (0, if ltb (length xs) c then xs ++ x ∷ [] else xs)
list_step c xs dequeue_op = (head_or xs int_min, tail xs)
list_step c xs front_op = (head_or xs int_min, xs)
list_step c xs rear_op = (last_or xs int_min, xs)
list_step c xs is_empty_op = (number (length xs == 0), xs)
list_step c xs is_full_op = (number (length xs == c), xs)

unfoldable pub list_run : ℕ → List ℕ → List Op → List ℕ
list_run c xs [] = []
list_run c xs (o ∷ os) = let (r, ys) = list_step c xs o in r ∷ list_run c ys os

-- The ring holds the list.
record Holds (q : Queue) (xs : List ℕ) : Type 0 where
  some_room : 0 < q.capacity
  in_range : q.capacity < 2 ^ 31
  front_inside : q.front < q.capacity
  fits : q.size ≤ q.capacity
  rear_place : q.rear ≡ (q.front + q.size + (q.capacity - 1)) % q.capacity
  items : xs ≡ window q.array q.capacity q.front q.size

create_queue-Holds : (a : ℕ → ℕ) (c : ℕ) → 0 < c → c < 2 ^ 31 → Holds (create_queue a c) []
unfolding create_queue
create_queue-Holds a c h small = record {
  some_room = h;
  in_range = small;
  front_inside = h;
  fits = omega arith;
  rear_place =
      let before : u32 (c + (2 ^ 32 - 1)) ≡ c - 1 = omega arith in
      before ∙ (sym (mod-eq_of_lt (omega arith)) ∙ ap (λ k. k % c) (omega arith));
  items = refl;
}

Holds-size : (q : Queue) (xs : List ℕ) → Holds q xs → length xs ≡ q.size
Holds-size q xs h = ap length h.items ∙ length-window q.array q.capacity q.front q.size

Holds-items :
    (q : Queue) (xs : List ℕ) (n : ℕ)
    → Holds q xs
    → suc n ≡ q.size
    → xs ≡ window q.array q.capacity q.front (suc n)
Holds-items q xs n h e = h.items ∙ ap (window q.array q.capacity q.front) (sym e)

-- The two operations without wrap-around.
abbrev added : Queue → ℕ → Queue
added q x = if q.size == q.capacity then q else record q {
  rear = (q.rear + 1) % q.capacity;
  array = λ i. if i == (q.rear + 1) % q.capacity then x else q.array i;
  size = q.size + 1;
}

abbrev taken : Queue → ℕ × Queue
taken q =
    if q.size == 0
    then (int_min, q)
    else (q.array q.front, record q { front = (q.front + 1) % q.capacity; size = q.size - 1 })

enqueue-added : (q : Queue) (xs : List ℕ) (x : ℕ) → Holds q xs → enqueue q x ≡ added q x
unfolding enqueue is_full
enqueue-added q xs x h =
    let inside : q.rear < q.capacity = rw h.rear_place (omega (arith, h.some_room)) in
    let rear : u32 (q.rear + 1) ≡ q.rear + 1 = omega (arith, h.in_range) in
    let size : u32 (q.size + 1) ≡ q.size + 1 = omega (arith, h.in_range, h.fits) in
    rw (rear, size) refl

dequeue-taken : (q : Queue) (xs : List ℕ) → Holds q xs → dequeue q ≡ taken q
unfolding dequeue is_empty
dequeue-taken q xs h =
    let front : u32 (q.front + 1) ≡ q.front + 1 = omega (arith, h.in_range, h.front_inside) in
    elim (Bool-cases (q.size == 0)) [
      | inl empty ↦ rw empty refl
      | inr some_left ↦
          let size : u32 (q.size + (2 ^ 32 - 1)) ≡ q.size - 1 =
            ground (arith, h.in_range, h.fits, some_left) in
          rw (front, size) refl
    ]

added-Holds :
    (q : Queue) (xs : List ℕ) (x : ℕ)
    → Holds q xs
    → Holds (added q x) (if ltb (length xs) q.capacity then xs ++ x ∷ [] else xs)
added-Holds q xs x h =
    let size : length xs ≡ q.size = Holds-size q xs h in
    elim (Bool-cases (q.size == q.capacity)) [
      | inl full ↦
          let no_room : ltb (length xs) q.capacity ≡ false = ground arith in rw (full, no_room) h
      | inr more ↦
          let room : ltb (length xs) q.capacity ≡ true = ground (arith, h.fits) in
          let less : q.size < q.capacity = ground arith in
          let place : (q.rear + 1) % q.capacity ≡ (q.front + q.size) % q.capacity =
            rw h.rear_place (
              mod-add-mod (q.front + q.size + (q.capacity - 1)) q.capacity 1
              ∙ (ap (λ k. k % q.capacity) (omega arith)
                  ∙ past q.capacity (q.front + q.size) h.some_room)) in
          rw (more, room)
            (record {
              some_room = h.some_room;
              in_range = h.in_range;
              front_inside = h.front_inside;
              fits = omega arith;
              rear_place =
                  place
                  ∙ sym (
                      ap (λ k. k % q.capacity) (omega arith)
                      ∙ past q.capacity (q.front + q.size) h.some_room);
              items =
                  ap (λ ys. ys ++ x ∷ []) h.items
                  ∙ sym (
                      window-written q.array q.capacity x q.size q.front ((q.rear + 1) % q.capacity)
                        h.front_inside less place)
                  ∙ ap (window _ q.capacity q.front) {x = suc q.size} {y = q.size + 1}
                      (omega arith);
            })
    ]

enqueue-Holds :
    (q : Queue) (xs : List ℕ) (x : ℕ)
    → Holds q xs
    → Holds (enqueue q x) (if ltb (length xs) q.capacity then xs ++ x ∷ [] else xs)
enqueue-Holds q xs x h = rw (enqueue-added q xs x h) (added-Holds q xs x h)

taken-Holds :
    (q : Queue) (xs : List ℕ)
    → Holds q xs
    → ((taken q).0 ≡ head_or xs int_min) × Holds (taken q).1 (tail xs)
taken-Holds q [] h =
    let size : 0 ≡ q.size = Holds-size q [] h in
    let none_left : (q.size == 0) ≡ true = ground (arith, size) in rw none_left (refl, h)
taken-Holds q (x ∷ xs) h =
    let size : suc (length xs) ≡ q.size = Holds-size q (x ∷ xs) h in
    let some_left : (q.size == 0) ≡ false = ground (arith, size) in
    let items = Holds-items q (x ∷ xs) (length xs) h size in
    rw some_left (
      sym (ap (λ ys. head_or ys int_min) items),
      record {
        some_room = h.some_room;
        in_range = h.in_range;
        front_inside = omega (arith, h.some_room);
        fits = omega (arith, h.fits);
        rear_place =
            h.rear_place
            ∙ ap (λ k. k % q.capacity) (omega arith)
            ∙ sym (mod-add-mod (q.front + 1) q.capacity (q.size - 1 + (q.capacity - 1)))
            ∙ ap (λ k. k % q.capacity) (omega arith);
        items =
            ap tail items
            ∙ ap (window q.array q.capacity ((q.front + 1) % q.capacity)) {x = length xs}
                {y = q.size - 1} (omega arith);
      },
    )

dequeue-Holds :
    (q : Queue) (xs : List ℕ)
    → Holds q xs
    → ((dequeue q).0 ≡ head_or xs int_min) × Holds (dequeue q).1 (tail xs)
dequeue-Holds q xs h = rw (dequeue-taken q xs h) (taken-Holds q xs h)

rear-Holds :
    (q : Queue) (xs : List ℕ)
    → Holds q xs
    → (front_item q ≡ head_or xs int_min) × (rear_item q ≡ last_or xs int_min)
unfolding front_item rear_item is_empty
rear-Holds q [] h =
    let size : 0 ≡ q.size = Holds-size q [] h in
    let none_left : (q.size == 0) ≡ true = ground (arith, size) in rw none_left (refl, refl)
rear-Holds q (x ∷ xs) h =
    let size : suc (length xs) ≡ q.size = Holds-size q (x ∷ xs) h in
    let some_left : (q.size == 0) ≡ false = ground (arith, size) in
    let items = Holds-items q (x ∷ xs) (length xs) h size in
    let at : (q.front + length xs) % q.capacity ≡ q.rear =
      sym (past q.capacity (q.front + length xs) h.some_room)
      ∙ (ap (λ k. k % q.capacity) (omega arith) ∙ sym h.rear_place) in
    rw some_left (
      sym (ap (λ ys. head_or ys int_min) items),
      sym (
          ap (λ ys. last_or ys int_min) items
          ∙ last_or-window q.array q.capacity (length xs) q.front int_min h.front_inside
          ∙ ap q.array at),
    )

step-Holds :
    (q : Queue) (xs : List ℕ) (o : Op)
    → Holds q xs
    → ((step q o).0 ≡ (list_step q.capacity xs o).0)
      × Holds (step q o).1 (list_step q.capacity xs o).1
      × ((step q o).1.capacity ≡ q.capacity)
unfolding is_empty is_full enqueue dequeue
step-Holds q xs (enqueue_op x) h = (refl, enqueue-Holds q xs x h, ground arith)
step-Holds q xs dequeue_op h = ((dequeue-Holds q xs h).0, (dequeue-Holds q xs h).1, ground arith)
step-Holds q xs front_op h = ((rear-Holds q xs h).0, h, refl)
step-Holds q xs rear_op h = ((rear-Holds q xs h).1, h, refl)
step-Holds q xs is_empty_op h = (ap (λ n. number (n == 0)) (sym (Holds-size q xs h)), h, refl)
step-Holds q xs is_full_op h =
    (ap (λ n. number (n == q.capacity)) (sym (Holds-size q xs h)), h, refl)

run-Holds :
    (os : List Op) (q : Queue) (xs : List ℕ) → Holds q xs → run q os ≡ list_run q.capacity xs os
unfolding run list_run
run-Holds [] q xs h = refl
run-Holds (o ∷ os) q xs h =
    let (returned, held, same) = step-Holds q xs o h in
    let ys = (list_step q.capacity xs o).1 in
    ap₂ ◌∷◌ returned (run-Holds os (step q o).1 ys held ∙ ap (λ c. list_run c ys os) same)

-- Whatever the operations, and whatever `malloc` left in the array, a new queue of a capacity that
-- is not zero and below 2^31 returns what a list of at most that many numbers does: an item that finds it full is
-- dropped, and the first and the last item of an empty one are INT_MIN.
pub run-list_run :
    (array : ℕ → ℕ) (capacity : ℕ) (os : List Op)
    → 0 < capacity
    → capacity < 2 ^ 31
    → run (create_queue array capacity) os ≡ list_run capacity [] os
unfolding create_queue
run-list_run array capacity os h small =
    run-Holds os (create_queue array capacity) [] (create_queue-Holds array capacity h small)
