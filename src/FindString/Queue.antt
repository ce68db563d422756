-- ===== src/FindString/Queue.antt =====
-- benchmarks/findstring/queue.h: a bounded queue of numbers in an array that is used as a ring. An
-- `int` is its 32-bit pattern, whose sums wrap around, and `%` takes it as `unsigned`.
pub mod Window
pub mod Refine
use honey_potion.Base.{ℕ, ◌+◌, ◌-◌, ◌%◌, ◌^◌, Bool, List, [], ◌∷◌, ◌==◌, if◌then◌else◌, u32}

pub record Queue : Type 0 where
  pub front : ℕ
  pub rear : ℕ
  pub size : ℕ
  pub capacity : ℕ
  pub array : ℕ → ℕ

-- INT_MIN
abbrev pub int_min : ℕ
int_min = 2 ^ 31

-- The array is what `malloc` gives.
unfoldable pub create_queue : (ℕ → ℕ) → ℕ → Queue
create_queue array capacity = record {
  front = 0;
  rear = u32 (capacity + (2 ^ 32 - 1));
  size = 0;
  capacity = capacity;
  array = array;
}

unfoldable pub is_full : Queue → Bool
is_full queue = queue.size == queue.capacity

unfoldable pub is_empty : Queue → Bool
is_empty queue = queue.size == 0

unfoldable pub enqueue : Queue → ℕ → Queue
unfolding is_full
enqueue queue item =
    let rear = u32 (queue.rear + 1) % queue.capacity in
    if is_full queue then queue else record queue {
      rear = rear;
      array = λ i. if i == rear then item else queue.array i;
      size = u32 (queue.size + 1);
    }

unfoldable pub dequeue : Queue → ℕ × Queue
unfolding is_empty
dequeue queue = if is_empty queue then (int_min, queue) else (
  queue.array queue.front,
  record queue {
    front = u32 (queue.front + 1) % queue.capacity;
    size = u32 (queue.size + (2 ^ 32 - 1));
  },
)

-- `front` and `rear`
unfoldable pub front_item : Queue → ℕ
unfolding is_empty
front_item queue = if is_empty queue then int_min else queue.array queue.front

unfoldable pub rear_item : Queue → ℕ
unfolding is_empty
rear_item queue = if is_empty queue then int_min else queue.array queue.rear
