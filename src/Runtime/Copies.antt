-- ===== src/Runtime/Copies.antt =====
-- What `Copy` can do to the string pool.
use honey_potion.Base.{
  ℕ, zero, suc, ◌+◌, ◌*◌, ◌≤◌, ℤ, pos, negsuc, ◌≡◌, ◌≢◌, ◌⊎◌, inl, inr, Bool, true, false, refl,
  ◌<ℤ◌, arith, Option, none, some, List, [], ◌∷◌, length, set, get_or, Bool-cases, leb, ◌&&◌,
}
use honey_potion.Runtime.Values.{string, Generic, OpResult, as_start, string_pool_size}
use honey_potion.Runtime.Pool.{
  Copied, done, fault, move, memcpy_rows, copy_bytes, str_len, copy, copy_at, copy_string, placed,
  is_string,
}

set-get_or : (xs : List ℕ) (i : ℕ) → set xs i (get_or xs i 0) ≡ xs
set-get_or [] i = refl
set-get_or (x ∷ xs) zero = refl
set-get_or (x ∷ xs) (suc i) = rw (set-get_or xs i)

move_self : (n d : ℕ) (pool : List ℕ) → move n d d pool ≡ pool
unfolding move
move_self zero d pool = refl
move_self (suc n) d pool = rw (set-get_or pool d) (move_self n (d + 1) pool)

-- A copy that leaves the pool as it was.
abbrev Untouched : List ℕ → Copied → Type 0
Untouched pool c = (c ≡ fault) ⊎ ((r : OpResult) × (t : Generic) × (c ≡ done r t pool))

move_first_row :
    (n d s : ℕ) (pool : List ℕ)
    → length pool ≡ 500
    → 500 * d + n ≤ length pool
    → 500 * s + n ≤ length pool
    → move n (500 * d) (500 * s) pool ≡ pool
unfolding move
move_first_row zero d s pool e hd hs = refl
move_first_row (suc n) d s pool e hd hs =
    let d0 : d ≡ 0 = omega arith in
    let s0 : s ≡ 0 = omega arith in rw (d0, s0) (move_self (suc n) 0 pool)

memcpy_rows-Untouched :
    (result : OpResult) (to : Generic) (pool : List ℕ) (d s n : ℤ)
    → length pool ≡ 500
    → Untouched pool (memcpy_rows result to pool d s n)
unfolding memcpy_rows
memcpy_rows-Untouched result to pool (pos d) (pos s) (pos n) e =
    elim (Bool-cases (leb (500 * d + n) (length pool) && leb (500 * s + n) (length pool))) [
      | inl fits ↦ inr (result, to, ground (arith, move_first_row n d s pool e))
      | inr out ↦ inl (rw out)
    ]
memcpy_rows-Untouched result to pool (pos d) (pos s) (negsuc n) e = inl refl
memcpy_rows-Untouched result to pool (pos d) (negsuc s) n e = inl refl
memcpy_rows-Untouched result to pool (negsuc d) s n e = inl refl

copy_string-Untouched :
    (result : OpResult) (to from : Generic) (index : Option ℤ) (found : Bool) (pool : List ℕ)
    → length pool ≡ 500
    → Untouched pool (copy_string result to from index found pool)
unfolding copy_string copy_at copy_bytes
copy_string-Untouched result to from none found pool e = inr (_, _, refl)
copy_string-Untouched result to from (some start) true pool e =
    memcpy_rows-Untouched _ (placed from start) pool start (as_start from.value) (str_len from) e
copy_string-Untouched result to from (some start) false pool e = inr (_, _, refl)

outside_row :
    (result : OpResult) (to : Generic) (pool : List ℕ) (d s n : ℤ)
    → length pool ≡ 500
    → d ≢ pos 0
    → pos 0 <ℤ n
    → memcpy_rows result to pool d s n ≡ fault
unfolding memcpy_rows
outside_row result to pool (pos d) (pos s) (pos n) e ne h = ground arith
outside_row result to pool (pos d) (pos s) (negsuc n) e ne h = refl
outside_row result to pool (pos d) (negsuc s) n e ne h = refl
outside_row result to pool (negsuc d) s n e ne h = refl

-- Whatever the lookups return, with a pool of STRING_POOL_SIZE bytes `Copy` either accesses memory
-- outside the pool or leaves every byte of the pool as it was: it never copies a string.
pub copy_never_copies :
    (result : OpResult) (to from : Generic) (index : Option ℤ) (found : Bool) (pool : List ℕ)
    → length pool ≡ string_pool_size
    → (copy result to from index found pool ≡ fault)
      ⊎ ((r : OpResult) × (t : Generic) × (copy result to from index found pool ≡ done r t pool))
unfolding copy
copy_never_copies result to from index found pool e = elim (Bool-cases (is_string from.type)) [
  | inl is ↦ rw is (string_case index found)
  | inr not ↦ inr (result, to, rw not)
]
  where
    string_case : (i : Option ℤ) (f : Bool) → Untouched pool (copy_string result to from i f pool)
    string_case i f = copy_string-Untouched result to from i f pool e

-- If the pool's index is not zero, no string of at least one byte can be copied: with a pool of
-- STRING_POOL_SIZE bytes `Copy` accesses memory outside it.
pub copy_faults :
    (result : OpResult) (to from : Generic) (start : ℤ) (pool : List ℕ)
    → length pool ≡ string_pool_size
    → from.type ≡ string
    → start ≢ pos 0
    → pos 0 <ℤ str_len from
    → copy result to from (some start) true pool ≡ fault
unfolding copy copy_string copy_at copy_bytes
copy_faults result to from start pool e is ne h =
    let k : is_string from.type ≡ true = rw is refl in
    rw k (outside_row _ (placed from start) pool start (as_start from.value) (str_len from) e ne h)
