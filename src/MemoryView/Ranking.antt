-- ===== src/MemoryView/Ranking.antt =====
-- The view shows the processes with the most memory.
use honey_potion.Base.{
  ℕ, zero, suc, ◌<◌, ◌≤◌, List, [], ◌∷◌, ◌++◌, length, ℤ, pos, ◌≤ℤ◌, ◌<ℤ◌, ◌-ℤ◌, arith,
}
use honey_potion.MemoryView.{
  PidEntry, compare_entries, shown, view, first, Key, moved, clamped, pressed,
}

abbrev pub rest {ℓ} : {A : Type ℓ} → ℕ → List A → List A
rest zero xs = xs
rest (suc n) [] = []
rest (suc n) (x ∷ xs) = rest n xs

abbrev pub All : (PidEntry → Type 0) → List PidEntry → Type 0
All P [] = Unit {0}
All P (x ∷ xs) = P x × All P xs

-- No entry stands before one that the comparison puts before it.
abbrev pub IsSorted : List PidEntry → Type 0
IsSorted [] = Unit {0}
IsSorted (x ∷ xs) = All (λ y. compare_entries x y ≤ℤ pos 0) xs × IsSorted xs

All-rest : (P : PidEntry → Type 0) (n : ℕ) (xs : List PidEntry) → All P xs → All P (rest n xs)
All-rest P zero xs h = h
All-rest P (suc n) [] h = h
All-rest P (suc n) (x ∷ xs) (p, ps) = All-rest P n xs ps

All-map :
    (P Q : PidEntry → Type 0) (xs : List PidEntry)
    → ((x : PidEntry) → P x → Q x)
    → All P xs
    → All Q xs
All-map P Q [] f h = tt
All-map P Q (x ∷ xs) f (p, ps) = (f x p, All-map P Q xs f ps)

less_memory : (x y : PidEntry) → compare_entries x y ≤ℤ pos 0 → y.rss_kb ≤ x.rss_kb
unfolding compare_entries
less_memory x y h = ground arith

first-rest :
    (n : ℕ) (xs : List PidEntry)
    → IsSorted xs
    → All (λ x. All (λ y. y.rss_kb ≤ x.rss_kb) (rest n xs)) (first n xs)
first-rest zero xs h = tt
first-rest (suc n) [] h = tt
first-rest (suc n) (x ∷ xs) (here, h) = (
  All-map (λ y. compare_entries x y ≤ℤ pos 0) (λ y. y.rss_kb ≤ x.rss_kb) (rest n xs) (less_memory x)
      (All-rest (λ y. compare_entries x y ≤ℤ pos 0) n xs here),
  first-rest n xs h,
)

length-first : (n : ℕ) (xs : List PidEntry) → length (first n xs) ≤ n
length-first zero xs = omega arith
length-first (suc n) [] = omega arith
length-first (suc n) (x ∷ xs) = omega (arith, length-first n xs)

-- If `qsort` sorts the entries with a name and memory, then the view has at most 100 of them, and
-- none that is left out has more memory than one that is shown.
view-IsTop :
    (qsort : List PidEntry → List PidEntry) (state : List PidEntry)
    → IsSorted (qsort (shown state))
    → (length (view qsort state) ≤ 100)
      × All
          (λ x. All (λ y. y.rss_kb ≤ x.rss_kb) (rest 100 (qsort (shown state))))
          (view qsort state)
unfolding view
view-IsTop qsort state h =
    (length-first 100 (qsort (shown state)), first-rest 100 (qsort (shown state)) h)

clamped-IsRow :
    (count : ℕ) (scroll : ℤ)
    → 0 < count
    → (pos 0 ≤ℤ clamped count scroll) × (clamped count scroll <ℤ pos count)
unfolding clamped ◌-ℤ◌
clamped-IsRow count scroll some_row = ground arith

-- Whatever the keys before it, and however many rows there were then, a key leaves the position at
-- a row of the view, if the view has one.
pressed-IsRow :
    (keys : List (ℕ × Key)) (count : ℕ) (key : Key) (scroll : ℤ)
    → 0 < count
    → let at = pressed scroll (keys ++ (count, key) ∷ []) in (pos 0 ≤ℤ at) × (at <ℤ pos count)
unfolding pressed
pressed-IsRow [] count key scroll some_row = clamped-IsRow count (moved count scroll key) some_row
pressed-IsRow ((n, k) ∷ keys) count key scroll some_row =
    pressed-IsRow keys count key (clamped n (moved n scroll k)) some_row
