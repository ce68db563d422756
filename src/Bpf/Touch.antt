-- ===== src/Bpf/Touch.antt =====
-- The monitors' way to keep a record in a map: if the key is there, change the record through the
-- pointer and pass it to bpf_map_update_elem once more; if not, insert a fresh one.
use honey_potion.Base.{
  ◌+◌, ◌≤◌, ◌<◌, ◌≡◌, sym, ◌∙◌, refl, Bool-cases, false, Option, none, some, Option-cases, inl, inr,
  if◌then◌else◌, arith,
}
use honey_potion.Bpf.{Key, HashMap}

-- The record after a change, from the one before it.
abbrev pub changed : {V : Type 0} → Option V → (V → V) → V → V
changed none f fresh = fresh
changed (some v) f fresh = f v

module _ {K V : Type 0} {key : Key K} (bpf : HashMap key V) where
  open bpf use {Map, lookup, update, store, size, max_entries}

  unfoldable pub touch : Map → K → (V → V) → V → Map
  touch m k f fresh = elim (lookup m k) [
    | some v ↦ update (store m k (f v)) k (f v)
    | none ↦ update m k fresh
  ]

  pub size-touch : (m : Map) (k : K) (f : V → V) (fresh : V) → size (touch m k f fresh) ≤ size m + 1
  unfolding touch
  size-touch m k f fresh = elim (Option-cases (lookup m k)) [
    | inl e ↦ rw (e, touch) (bpf.size-update m k fresh)
    | inr (v, e) ↦
        rw (e, touch)
          (omega (arith, bpf.size-update (store m k (f v)) k (f v), bpf.size-store m k (f v)))
  ]

  -- With room for one more entry the record at `k` is the changed one, and no other differs.
  pub lookup-touch :
      (m : Map) (k : K) (f : V → V) (fresh : V) (j : K)
      → size m < max_entries
      → lookup (touch m k f fresh) j
        ≡ (if key.beq k j then some (changed (lookup m k) f fresh) else lookup m j)
  unfolding touch
  lookup-touch m k f fresh j room = elim (Option-cases (lookup m k)) [
    | inl e ↦ rw (e, touch) (ground (arith, e, bpf.lookup-update m k fresh j))
    | inr (v, e) ↦
        rw (e, touch)
          (ground (
            arith,
            e,
            bpf.lookup-store m k (f v) j,
            bpf.size-store m k (f v),
            bpf.lookup-update (store m k (f v)) k (f v) j,
          ))
  ]

  pub lookup-touch_other :
      (m : Map) (k : K) (f : V → V) (fresh : V) (j : K)
      → key.beq k j ≡ false
      → lookup (touch m k f fresh) j ≡ lookup m j
  unfolding touch
  lookup-touch_other m k f fresh j ne = elim (Option-cases (lookup m k)) [
    | inl e ↦ rw (e, touch) (ground (arith, bpf.lookup-update m k fresh j))
    | inr (v, e) ↦
        rw (e, touch)
          (ground
            (arith, bpf.lookup-store m k (f v) j, bpf.lookup-update (store m k (f v)) k (f v) j))
  ]

  -- The same, told of the entry that is looked up.
  pub lookup-touch_at :
      (m : Map) (k : K) (f : V → V) (fresh : V) (j : K)
      → size m < max_entries
      → lookup (touch m k f fresh) j
        ≡ (if key.beq k j then some (changed (lookup m j) f fresh) else lookup m j)
  lookup-touch_at m k f fresh j room = elim (Bool-cases (key.beq k j)) [
    | inl e ↦
        let same : j ≡ k = sym ((key.beq_iff k j).0 e) in
        lookup-touch m k f fresh j room ∙ rw (e, same) refl
    | inr e ↦ lookup-touch m k f fresh j room ∙ rw e refl
  ]

  -- A record that is there needs no room.
  pub lookup-touch_present :
      (m : Map) (k : K) (f : V → V) (fresh v : V)
      → lookup m k ≡ some v
      → lookup (touch m k f fresh) k ≡ some (f v)
  unfolding touch
  lookup-touch_present m k f fresh v e =
      rw (e, touch)
        (ground (
          arith,
          e,
          key.beq_iff k k,
          bpf.lookup-store m k (f v) k,
          bpf.lookup-update (store m k (f v)) k (f v) k,
        ))
