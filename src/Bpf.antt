-- ===== src/Bpf.antt =====
-- The kernel's hash maps (BPF_MAP_TYPE_HASH), which the programs call and do not implement: an
-- interface of the helpers with the behaviour that their manual page documents.
pub mod Table
pub mod Credit
pub mod Touch
pub mod Array
use honey_potion.Base.{
  ℕ, ◌+◌, ◌≤◌, ◌≡◌, ◌↔◌, Bool, true, not, ◌&&◌, ◌||◌, Option, none, some, is_some, ltb, ◌==◌,
  ==_iff, if◌then◌else◌,
}

-- Keys are compared byte by byte.
pub record Key (K : Type 0) : Type 0 where
  pub beq : K → K → Bool
  pub beq_iff : (a b : K) → (beq a b ≡ true) ↔ (a ≡ b)

abbrev pub nat_key : Key ℕ
nat_key = record { beq = ◌==◌; beq_iff = ==_iff }

-- `update` is bpf_map_update_elem with BPF_ANY, `insert` the same with BPF_NOEXIST, and `store` a
-- write through the pointer that bpf_map_lookup_elem returned. An entry is added only while
-- there are fewer than `max_entries`.
pub record HashMap {K : Type 0} (key : Key K) (V : Type 0) : Type 1 where
  pub Map : Type 0
  pub max_entries : ℕ
  pub size : Map → ℕ
  pub lookup : Map → K → Option V
  pub update : Map → K → V → Map
  pub insert : Map → K → V → Map
  pub store : Map → K → V → Map
  pub delete : Map → K → Map
  pub lookup-update :
      (m : Map) (k : K) (v : V) (j : K)
      → lookup (update m k v) j ≡ (
          if (is_some (lookup m k) || ltb (size m) max_entries) && key.beq k j
          then some v
          else lookup m j)
  pub lookup-insert :
      (m : Map) (k : K) (v : V) (j : K)
      → lookup (insert m k v) j ≡ (
          if (not (is_some (lookup m k)) && ltb (size m) max_entries) && key.beq k j
          then some v
          else lookup m j)
  pub lookup-store :
      (m : Map) (k : K) (v : V) (j : K)
      → lookup (store m k v) j
        ≡ (if is_some (lookup m k) && key.beq k j then some v else lookup m j)
  pub lookup-delete :
      (m : Map) (k j : K) → lookup (delete m k) j ≡ (if key.beq k j then none else lookup m j)
  pub size-update : (m : Map) (k : K) (v : V) → size (update m k v) ≤ size m + 1
  pub size-insert : (m : Map) (k : K) (v : V) → size (insert m k v) ≤ size m + 1
  pub size-store : (m : Map) (k : K) (v : V) → size (store m k v) ≡ size m
  pub size-delete : (m : Map) (k : K) → size (delete m k) ≤ size m
