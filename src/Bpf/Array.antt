-- ===== src/Bpf/Array.antt =====
-- The kernel's array maps (BPF_MAP_TYPE_ARRAY, and one processor's part of a PERCPU_ARRAY), which
-- the programs call and do not implement, and an array that behaves so.
use honey_potion.Base.{
  ℕ, zero, suc, ◌≤◌, ◌<◌, ◌≡◌, refl, true, ◌&&◌, Option, none, some, is_some, ◌==◌, List, [], ◌∷◌,
  length, set, get_elem?, length-set, if◌then◌else◌, arith,
}

-- Every index below `max_entries` has a value from the start, and no other ever has one.
pub record ArrayMap (V : Type 0) : Type 1 where
  pub Map : Type 0
  pub max_entries : Map → ℕ
  pub lookup : Map → ℕ → Option V
  pub store : Map → ℕ → V → Map
  pub lookup_outside : (m : Map) (i : ℕ) → max_entries m ≤ i → lookup m i ≡ none
  pub lookup_inside : (m : Map) (i : ℕ) → i < max_entries m → is_some (lookup m i) ≡ true
  pub lookup-store :
      (m : Map) (i : ℕ) (v : V) (j : ℕ)
      → lookup (store m i v) j ≡ (if is_some (lookup m i) && i == j then some v else lookup m j)
  pub max_entries-store : (m : Map) (i : ℕ) (v : V) → max_entries (store m i v) ≡ max_entries m

module _ {V : Type 0} where
  pub outside : (m : List V) (i : ℕ) → length m ≤ i → get_elem? m i ≡ none
  outside [] i h = refl
  outside (x ∷ m) zero h = absurd (omega arith)
  outside (x ∷ m) (suc i) h = outside m i (omega arith)

  pub inside : (m : List V) (i : ℕ) → i < length m → is_some (get_elem? m i) ≡ true
  inside [] i h = absurd (omega arith)
  inside (x ∷ m) zero h = refl
  inside (x ∷ m) (suc i) h = inside m i (omega arith)

  pub get_elem?-set :
      (m : List V) (i : ℕ) (v : V) (j : ℕ)
      → get_elem? (set m i v) j
        ≡ (if is_some (get_elem? m i) && i == j then some v else get_elem? m j)
  get_elem?-set [] i v j = refl
  get_elem?-set (x ∷ m) zero v zero = refl
  get_elem?-set (x ∷ m) zero v (suc j) = ground arith
  get_elem?-set (x ∷ m) (suc i) v zero = ground arith
  get_elem?-set (x ∷ m) (suc i) v (suc j) = ground (arith, get_elem?-set m i v j)

  abbrev pub array : ArrayMap V
  array = record {
    Map = List V;
    max_entries = length;
    lookup = get_elem?;
    store = set;
    lookup_outside = outside;
    lookup_inside = inside;
    lookup-store = get_elem?-set;
    max_entries-store = length-set;
  }
