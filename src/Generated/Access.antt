-- ===== src/Generated/Access.antt =====
-- How generated code reads and updates the maps that a program declares. Values are `Generic`.
use Prim.Native.String.{String}
use honey_potion.Base.{
  ℤ, pos, negsuc, s32, s32-eq, IsInt, to_unsigned, beq_ℤ, ◌≡◌, ◌∙◌, ap, refl, ◌↔◌, true, false,
  ◌==◌, ◌<◌, ℕ, Option, none, some, is_some, if◌then◌else◌, arith,
}
use honey_potion.Bpf.{Key}
use honey_potion.Bpf.Array.{ArrayMap}
use honey_potion.Runtime.Values.{Generic, int, as_integer}
use honey_potion.Generated.Machine.{Action, pure, fail, modify, key_not_found}

pub beq_ℤ_iff : (a b : ℤ) → (beq_ℤ a b ≡ true) ↔ (a ≡ b)
beq_ℤ_iff a b = ground arith

pub s32-IsInt : (z : ℤ) → IsInt (s32 z)
unfolding s32
s32-IsInt z = ground arith

-- An `int` is kept by a conversion to `int`.
pub s32-s32 : (z : ℤ) → s32 (s32 z) ≡ s32 z
s32-s32 z = s32-eq (s32 z) (s32-IsInt z)

-- Keys of `sizeof(int)` bytes.
abbrev pub int_key : Key ℤ
int_key = record { beq = beq_ℤ; beq_iff = beq_ℤ_iff }

abbrev pub set_maps : {M : Type 0} → M → Action M (Unit {0})
set_maps m = modify (λ s. record s { maps = m })

abbrev pub reading : {M A : Type 0} → (M → Action M A) → Action M A
reading f s = f s.maps s

-- `if (!entry) { ...; goto CATCH; } else { v = entry->value.integer; }`, in an `int`.
unfoldable pub value_or_fail : {M : Type 0} → Option Generic → String → Action M ℤ
unfolding s32
value_or_fail none name = fail (key_not_found name)
value_or_fail (some g) name = pure (s32 (as_integer g.value))

-- The same with a default of 0.
unfoldable pub value_or_zero : Option Generic → ℤ
unfolding s32
value_or_zero none = pos 0
value_or_zero (some g) = s32 (as_integer g.value)

module _ (counts : ArrayMap Generic) where
  -- bpf_map_update_elem with BPF_ANY on an array: the map, and what it returns (-E2BIG for a key
  -- that is out of range).
  abbrev pub array_update : counts.Map → ℤ → Generic → ℤ × counts.Map
  array_update m key g = (
    if is_some (counts.lookup m (to_unsigned key)) then pos 0 else negsuc 6,
    counts.store m (to_unsigned key) g,
  )

  -- What a store leaves at its own index and at another.
  pub stored-same :
      (m : counts.Map) (i : ℕ) (z : ℤ)
      → i < counts.max_entries m
      → value_or_zero (counts.lookup (counts.store m i (int (s32 z))) i) ≡ s32 z
  unfolding value_or_zero
  stored-same m i z inside =
      let self : (i == i) ≡ true = ground arith in
      let written : counts.lookup (counts.store m i (int (s32 z))) i ≡ some (int (s32 z)) =
        counts.lookup-store m i (int (s32 z)) i ∙ rw (counts.lookup_inside m i inside, self) refl in
      ap value_or_zero written ∙ s32-s32 z

  pub stored-other :
      (m : counts.Map) (i k : ℕ) (g : Generic)
      → (i == k) ≡ false
      → counts.lookup (counts.store m i g) k ≡ counts.lookup m k
  stored-other m i k g ne = counts.lookup-store m i g k ∙ ground (arith, ne)
