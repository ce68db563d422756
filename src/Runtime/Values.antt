-- ===== src/Runtime/Values.antt =====
-- The dynamic values of priv/c_boilerplates/runtime_generic.bpf.h and the result of an operation.
use honey_potion.Base.{
  ℕ, ◌+◌, ◌*◌, ◌/◌, ◌%◌, ◌^◌, ℤ, pos, negsuc, to_bits32, to_bits64, signed32, signed64, ◌≡◌,
}

abbrev pub string_pool_size : ℕ
string_pool_size = 500

abbrev pub int_max : ℤ
int_max = pos 2147483647

abbrev pub int_min : ℤ
int_min = negsuc 2147483647

-- `enum Type`
pub data Tag : Type 0 where
  invalid_type pattern_m integer double string atom tuple list struct : Tag

-- `union ElixirValue`. A `long`, or the two `int` fields of a `Tuple` or a `String`.
pub data ElixirValue : Type 0 where
  long : ℤ → ElixirValue
  span : ℤ → ℤ → ElixirValue

-- A member of the union is read from the eight bytes, whichever member was written: the target
-- is little-endian, so `start` lies in the low half.
abbrev pub as_integer : ElixirValue → ℤ
as_integer (long z) = z
as_integer (span start end) = signed64 (to_bits32 start + 2 ^ 32 * to_bits32 end)

abbrev pub as_start : ElixirValue → ℤ
as_start (long z) = signed32 (to_bits64 z % 2 ^ 32)
as_start (span start end) = start

abbrev pub as_end : ElixirValue → ℤ
as_end (long z) = signed32 (to_bits64 z / 2 ^ 32)
as_end (span start end) = end

pub record Generic : Type 0 where
  pub type : Tag
  pub value : ElixirValue

abbrev pub zeroed : Generic
zeroed = record { type = invalid_type; value = long (pos 0) }

abbrev pub atom_nil : Generic
atom_nil = record { type = atom; value = span (pos 0) (pos 2) }

abbrev pub atom_false : Generic
atom_false = record { type = atom; value = span (pos 3) (pos 7) }

abbrev pub atom_true : Generic
atom_true = record { type = atom; value = span (pos 8) (pos 11) }

-- The texts of `exception_msg`, one constructor for each; `no_message` is the zeroed buffer.
pub data Message : Type 0 where
  no_message : Message
  float_subtraction subtraction_overflow subtraction_underflow : Message
  float_sum sum_overflow sum_underflow unexpected_sum : Message
  float_division division_by_zero division_overflow unexpected_divide : Message
  float_multiplication multiplication_bounds multiplication_overflow : Message
  multiplication_underflow unexpected_multiply : Message
  no_pool_index no_pool pool_size : Message
  only_integers_eq only_integers_gt only_integers_lt : Message

pub record OpResult : Type 0 where
  pub result_var : Generic
  pub exception : ℕ
  pub exception_msg : Message

-- `*result = (OpResult){.exception = 1, .exception_msg = msg}`: the other members become zero.
abbrev pub raise : Message → OpResult
raise msg = record { result_var = zeroed; exception = 1; exception_msg = msg }

-- `result->exception = 0; result->result_var = g`: the message is left as it was.
abbrev pub returned : OpResult → Generic → OpResult
returned result g = record result { result_var = g; exception = 0 }

-- An integer operand.
abbrev pub int : ℤ → Generic
int z = record { type = integer; value = long z }

-- A normal return of `g`, and an exception.
abbrev pub Returns : OpResult → Generic → Type 0
Returns r g = (r.exception ≡ 0) × (r.result_var ≡ g)

abbrev pub Raises : OpResult → Message → Type 0
Raises r msg = (r.exception ≡ 1) × (r.exception_msg ≡ msg)
