-- ===== src/Runtime/Pool.antt =====
-- `Copy` of priv/c_boilerplates/runtime_functions.bpf.c, over the string pool of
-- priv/c_boilerplates/runtime_structures.bpf.h. The kernel's lookups of the two map entries are
-- arguments: `none` is a null pointer.
use honey_potion.Base.{
  ℕ, zero, suc, ◌+◌, ◌*◌, ℤ, pos, Bool, true, false, ◌&&◌, ltb_ℤ, leb, if◌then◌else◌, ◌+ℤ◌, ◌-ℤ◌,
  s32, Option, none, some, List, length, set, get_or,
}
use honey_potion.Runtime.Values.{
  Tag, string, span, Generic, OpResult, as_start, as_end, raise, no_pool_index, no_pool, pool_size,
  string_pool_size,
}

abbrev pub is_string : Tag → Bool
is_string string = true
is_string _ = false

-- `fault` is an access outside the pool.
pub data Copied : Type 0 where
  done : OpResult → Generic → List ℕ → Copied
  fault : Copied

-- `n` bytes of `pool` from index `s` on, put at `d` on.
unfoldable pub move : ℕ → ℕ → ℕ → List ℕ → List ℕ
move zero d s pool = pool
move (suc n) d s pool = move n (d + 1) (s + 1) (set pool d (get_or pool s 0))

-- `string_pool` has type `char (*)[STRING_POOL_SIZE]`, so `string_pool[k]` lies
-- `k * STRING_POOL_SIZE` bytes from its start; a negative length is a huge `size_t`.
unfoldable pub memcpy_rows : OpResult → Generic → List ℕ → ℤ → ℤ → ℤ → Copied
memcpy_rows result to pool (pos d) (pos s) (pos n) =
    if leb (string_pool_size * d + n) (length pool) && leb (string_pool_size * s + n) (length pool)
    then done result to (move n (string_pool_size * d) (string_pool_size * s) pool)
    else fault
memcpy_rows result to pool d s n = fault

-- `int str_len = end - start + 1`
unfoldable pub str_len : Generic → ℤ
str_len from = s32 (s32 (as_end from.value -ℤ as_start from.value) +ℤ pos 1)

-- The end of `Copy`: after a `StringPoolSizeError` it goes on.
unfoldable pub copy_bytes : OpResult → Generic → Generic → ℤ → List ℕ → Copied
copy_bytes result to from n pool =
    let reached = ltb_ℤ (pos 499) (as_end to.value) in
    memcpy_rows (if reached then raise pool_size else result) to pool (as_start to.value)
      (as_start from.value) n

-- `Copy` once the index is read, by whether the pool is found.
unfoldable pub copy_at : OpResult → Generic → Generic → ℤ → Bool → List ℕ → Copied
copy_at result to from n true pool = copy_bytes result to from n pool
copy_at result to from n false pool = done (raise no_pool) to pool

-- `*to` for a copy that starts at the pool's index.
abbrev pub placed : Generic → ℤ → Generic
placed from start = record {
  type = string;
  value = span start (s32 (s32 (start +ℤ str_len from) -ℤ pos 1));
}

unfoldable pub copy_string : OpResult → Generic → Generic → Option ℤ → Bool → List ℕ → Copied
copy_string result to from none found pool =
    done (raise no_pool_index) (record to { type = string }) pool
copy_string result to from (some start) found pool =
    copy_at result (placed from start) from (str_len from) found pool

-- `Copy`: the pool's index, if its lookup gives one, whether the pool is found, and its bytes.
unfoldable pub copy : OpResult → Generic → Generic → Option ℤ → Bool → List ℕ → Copied
copy result to from index found pool =
    if is_string from.type then copy_string result to from index found pool else done result to pool
