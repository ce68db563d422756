-- ===== src/Bpf/Table.antt =====
-- A bounded table that behaves as a hash map of the kernel: the interface can be met.
use honey_potion.Base.{
  ℕ, suc, ◌+◌, ◌≤◌, ◌≡◌, refl, Bool, true, false, not, ◌&&◌, ◌||◌, Option, none, some, is_some, ltb,
  if◌then◌else◌, List, [], ◌∷◌, length, arith,
}
use honey_potion.Bpf.{Key, HashMap}

module _ {K V : Type 0} (key : Key K) where
  abbrev pub find : List (K × V) → K → Option V
  find [] j = none
  find ((k, v) ∷ m) j = if key.beq k j then some v else find m j

  abbrev pub put : List (K × V) → K → V → List (K × V)
  put [] k v = (k, v) ∷ []
  put ((i, w) ∷ m) k v = if key.beq i k then (k, v) ∷ m else (i, w) ∷ put m k v

  abbrev pub remove : List (K × V) → K → List (K × V)
  remove [] k = []
  remove ((i, w) ∷ m) k = if key.beq i k then remove m k else (i, w) ∷ remove m k

  find-put :
      (m : List (K × V)) (k : K) (v : V) (j : K)
      → find (put m k v) j ≡ (if key.beq k j then some v else find m j)
  find-put [] k v j = refl
  find-put ((i, w) ∷ m) k v j =
      ground (arith, key.beq_iff k j, key.beq_iff i k, key.beq_iff i j, find-put m k v j)

  pub find-remove :
      (m : List (K × V)) (k j : K) → find (remove m k) j ≡ (if key.beq k j then none else find m j)
  find-remove [] k j = ground arith
  find-remove ((i, w) ∷ m) k j =
      ground (arith, key.beq_iff k j, key.beq_iff i k, key.beq_iff i j, find-remove m k j)

  length-put :
      (m : List (K × V)) (k : K) (v : V)
      → length (put m k v) ≡ (if is_some (find m k) then length m else suc (length m))
  length-put [] k v = refl
  length-put ((i, w) ∷ m) k v = ground (arith, key.beq_iff i k, length-put m k v)

  pub length-remove : (m : List (K × V)) (k : K) → length (remove m k) ≤ length m
  length-remove [] k = omega arith
  length-remove ((i, w) ∷ m) k = ground (arith, length-remove m k)

  abbrev pub put_if : Bool → List (K × V) → K → V → List (K × V)
  put_if true m k v = put m k v
  put_if false m k v = m

  pub find-put_if :
      (b : Bool) (m : List (K × V)) (k : K) (v : V) (j : K)
      → find (put_if b m k v) j ≡ (if b && key.beq k j then some v else find m j)
  find-put_if true m k v j = find-put m k v j
  find-put_if false m k v j = refl

  pub length-put_if :
      (b : Bool) (m : List (K × V)) (k : K) (v : V) → length (put_if b m k v) ≤ length m + 1
  length-put_if true m k v = ground (arith, length-put m k v)
  length-put_if false m k v = omega arith

  pub length-put_if_present :
      (m : List (K × V)) (k : K) (v : V) → length (put_if (is_some (find m k)) m k v) ≡ length m
  length-put_if_present m k v = ground (arith, length-put m k v)

  abbrev pub table : ℕ → HashMap key V
  table max = record {
    Map = List (K × V);
    max_entries = max;
    size = length;
    lookup = find;
    update = λ m k v. put_if (is_some (find m k) || ltb (length m) max) m k v;
    insert = λ m k v. put_if (not (is_some (find m k)) && ltb (length m) max) m k v;
    store = λ m k v. put_if (is_some (find m k)) m k v;
    delete = remove;
    lookup-update = λ m k v j. find-put_if (is_some (find m k) || ltb (length m) max) m k v j;
    lookup-insert = λ m k v j. find-put_if (not (is_some (find m k)) && ltb (length m) max) m k v j;
    lookup-store = λ m k v j. find-put_if (is_some (find m k)) m k v j;
    lookup-delete = find-remove;
    size-update = λ m k v. length-put_if (is_some (find m k) || ltb (length m) max) m k v;
    size-insert = λ m k v. length-put_if (not (is_some (find m k)) && ltb (length m) max) m k v;
    size-store = length-put_if_present;
    size-delete = length-remove;
  }
