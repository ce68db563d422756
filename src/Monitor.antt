-- ===== src/Monitor.antt =====
-- What the user-space halves of the monitors in benchmarks/ share, each with its own copy: a list
-- of entries with one for each key, and the loops over a map. The map's order is a parameter.
pub mod Reading
use honey_potion.Base.{
  ℕ, zero, suc, Bool, true, false, Option, none, some, List, [], ◌∷◌, ◌||◌, ◌==◌, if◌then◌else◌,
}
use honey_potion.Bpf.{Key}

-- Entries that are found by their keys; `new` is a node that `calloc` made, with its key.
pub record Kind (K E : Type 0) : Type 0 where
  pub key : Key K
  pub key_of : E → K
  pub new : K → E

module _ {K E : Type 0} (kind : Kind K E) where
  unfoldable pub find : List E → K → Option E
  find [] k = none
  find (e ∷ es) k = if kind.key.beq (kind.key_of e) k then some e else find es k

  -- The list in which the first entry of the key is changed.
  unfoldable pub change : (E → E) → List E → K → List E
  change f [] k = []
  change f (e ∷ es) k = if kind.key.beq (kind.key_of e) k then f e ∷ es else e ∷ change f es k

  -- The entry of the key is found or added at the head, and changed. Memory is granted.
  unfoldable pub find_or_add : (E → E) → List E → K → List E
  unfolding find change
  find_or_add f es k = elim (find es k) [ none ↦ f (kind.new k) ∷ es | some e ↦ change f es k ]

-- One key: its entry takes over what the map has for it.
unfoldable pub visit :
    {K E V : Type 0} → Kind K E → (K → Option V) → (V → E → E) → List E → K → List E
unfolding find_or_add
visit kind lookup refresh es k = elim (lookup k) [
  | none ↦ es
  | some v ↦ find_or_add kind (refresh v) es k
]

-- `do { ... } while (bpf_map_get_next_key(fd, &key, &next_key) == 0 && (key = next_key, 1))`
unfoldable pub read_from :
    {K S : Type 0} → (Option K → Option K) → (S → K → S) → ℕ → S → K → Option S
read_from next visit zero s k = none
read_from next visit (suc fuel) s k = elim (next (some k)) [
  | none ↦ some (visit s k)
  | some k' ↦ read_from next visit fuel (visit s k) k'
]

-- The same from the first key on, which `bpf_map_get_next_key` gives for a null pointer.
unfoldable pub read_all : {K S : Type 0} → (Option K → Option K) → (S → K → S) → ℕ → S → Option S
unfolding read_from
read_all next visit fuel s = elim (next none) [
  | none ↦ some s
  | some k ↦ read_from next visit fuel s k
]

-- `e->name[0] == '\0' || e->name[0] == '-'`
abbrev pub is_nameless : List ℕ → Bool
is_nameless [] = true
is_nameless (c ∷ name) = c == 0 || c == 45
