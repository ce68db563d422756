-- ===== src/Bpf/Credit.antt =====
-- `if (p) *p += d; else bpf_map_update_elem(&m, &k, &d, BPF_ANY)` on a map of 64-bit counters.

use honey_potion.Base.{
  ℕ, ◌+◌, ◌≤◌, ◌<◌, ◌≡◌, sym, ◌∙◌, refl, Bool-cases, Option-cases, inl, inr, Option, none, some,
  if◌then◌else◌, u64, arith,
}
use honey_potion.Bpf.{Key, HashMap}

-- A counter that is absent counts as zero.
abbrev pub count_of : Option ℕ → ℕ
count_of none = 0
count_of (some n) = n

-- The value of a counter after `d` is added.
abbrev pub plus : Option ℕ → ℕ → ℕ
plus none d = d
plus (some n) d = u64 (n + d)

module _ {K : Type 0} {key : Key K} (bpf : HashMap key ℕ) where
  open bpf use {Map, lookup, update, store, size, max_entries}

  unfoldable pub credit : Map → K → ℕ → Map
  credit m k d = elim (lookup m k) [ some v ↦ store m k (u64 (v + d)) | none ↦ update m k d ]

  pub size-credit : (m : Map) (k : K) (d : ℕ) → size (credit m k d) ≤ size m + 1
  unfolding credit
  size-credit m k d = elim (Option-cases (lookup m k)) [
    | inl e ↦ rw (e, credit) (bpf.size-update m k d)
    | inr (v, e) ↦ rw (e, credit) (omega (arith, bpf.size-store m k (u64 (v + d))))
  ]

  -- With room for one more entry the counter at `k` grows by `d`, and no other changes.
  pub lookup-credit :
      (m : Map) (k : K) (d : ℕ) (j : K)
      → size m < max_entries
      → lookup (credit m k d) j ≡ (if key.beq k j then some (plus (lookup m k) d) else lookup m j)
  unfolding credit
  lookup-credit m k d j room = elim (Option-cases (lookup m k)) [
    | inl e ↦ rw (e, credit) (ground (arith, e, bpf.lookup-update m k d j))
    | inr (v, e) ↦ rw (e, credit) (ground (arith, e, bpf.lookup-store m k (u64 (v + d)) j))
  ]

  -- The same, told of the entry that is looked up.
  pub lookup-credit_at :
      (m : Map) (k : K) (d : ℕ) (j : K)
      → size m < max_entries
      → lookup (credit m k d) j ≡ (if key.beq k j then some (plus (lookup m j) d) else lookup m j)
  lookup-credit_at m k d j room = elim (Bool-cases (key.beq k j)) [
    | inl e ↦
        let same : j ≡ k = sym ((key.beq_iff k j).0 e) in
        lookup-credit m k d j room ∙ rw (e, same) refl
    | inr e ↦ lookup-credit m k d j room ∙ rw e refl
  ]
