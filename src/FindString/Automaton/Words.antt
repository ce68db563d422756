-- ===== src/FindString/Automaton/Words.antt =====
-- The trie puts out exactly the lines that were added.
use mathlib.Core.Path.{subst}
use mathlib.Core.List.{append-nil, append_assoc}
use honey_potion.Base.{
  ℕ, zero, suc, ◌+◌, ◌-◌, ◌<◌, ◌≡◌, ◌≢◌, ◌↔◌, ◌⊎◌, inl, inr, refl, sym, ap, ◌∙◌, none, some, List,
  [], ◌∷◌, ◌++◌, length, get_elem?, ◌==◌, if◌then◌else◌, arith,
}
use honey_potion.Base.Bits.{bit}
use honey_potion.FindString.Automaton.{Memory, Trie}
use honey_potion.FindString.Automaton.Names.{go, walk, IsWord, IsTrie, IsChild, Grows}

module _ (path : ℕ → List ℕ) (t : Trie) (trie : IsTrie path t) where
  walk-nothing : (v : List ℕ) → IsWord v → walk t.memory 0 v ≡ 0
  walk-nothing [] w = refl
  walk-nothing (c ∷ v) (low, high, w) = rw (trie.nothing (c - 97) (omega arith)) (walk-nothing v w)

  -- A word leads nowhere, or to the state with its name.
  pub walk-path :
      (v : List ℕ) (s : ℕ)
      → IsWord v
      → s < t.states
      → 0 < s
      → (walk t.memory s v ≡ 0)
        ⊎ ((0 < walk t.memory s v)
            × (walk t.memory s v < t.states)
            × (path (walk t.memory s v) ≡ path s ++ v))
  walk-path [] s w h some_state = inr (some_state, h, sym (append-nil (path s)))
  walk-path (c ∷ v) s (low, high, w) h some_state =
      let ch = c - 97 in
      elim (trie.child s ch (omega (arith, trie.high)) (omega arith)) [
        | inl e ↦ inl (rw e (walk-nothing v w))
        | inr (above, below, name) ↦ elim (walk-path v (go t.memory s ch) w below (omega arith)) [
          | inl e ↦ inl e
          | inr (a, b, called) ↦
              let letter : 97 + ch ≡ c = omega arith in
              inr (
                a,
                b,
                called
                    ∙ (ap (λ p. p ++ v) name
                        ∙ (append_assoc (path s) ((97 + ch) ∷ []) v ∙ rw letter refl)),
              )
        ]
      ]

  walk-Grows :
      (t' : Trie) (v : List ℕ) (s : ℕ)
      → Grows t t'
      → IsWord v
      → s < t.states
      → 0 < s
      → walk t.memory s v ≢ 0
      → walk t'.memory s v ≡ walk t.memory s v
  walk-Grows t' [] s g w h some_state there = refl
  walk-Grows t' (c ∷ v) s g (low, high, w) h some_state there =
      let ch = c - 97 in
      elim (trie.child s ch (omega (arith, trie.high)) (omega arith)) [
        | inl e ↦ absurd (there (rw e (walk-nothing v w)))
        | inr (above, below, name) ↦
            let kept = g.kept s ch (omega (arith, trie.high)) (omega arith) (omega arith) in
            rw kept (walk-Grows t' v (go t.memory s ch) g w below (omega arith) there)
      ]

-- Only `go` matters.
module _ (m m' : Memory) (same : (s ch : ℕ) → ch < 26 → go m' s ch ≡ go m s ch) where
  pub walk-same : (v : List ℕ) (s : ℕ) → IsWord v → walk m' s v ≡ walk m s v
  walk-same [] s w = refl
  walk-same (c ∷ v) s (low, high, w) =
      rw (same s (c - 97) (omega arith)) (walk-same v (go m s (c - 97)) w)

  pub IsTrie-same :
      (path : ℕ → List ℕ) (n : ℕ)
      → IsTrie path (record { memory = m; states = n })
      → IsTrie path (record { memory = m'; states = n })
  IsTrie-same path n trie = record {
    low = trie.low;
    high = trie.high;
    root = trie.root;
    nothing = λ ch k. same 0 ch k ∙ trie.nothing ch k;
    child = λ s ch h k.
        subst (λ r. (r ≡ 0) ⊎ IsChild path n s ch r) (sym (same s ch k)) (trie.child s ch h k);
    fresh = λ s ch a h k. same s ch k ∙ trie.fresh s ch a h k;
  }

-- The words that are there, and the states that put them out.
pub record Accepts (ws : List (List ℕ)) (t : Trie) : Type 0 where
  pub found : (i : ℕ) (w : List ℕ) → get_elem? ws i ≡ some w → IsWord w × (0 < walk t.memory 1 w)
  pub outs :
      (s i : ℕ)
      → s < 51
      → (bit i (t.memory s) ≡ 1)
        ↔ ((w : List ℕ) × (get_elem? ws i ≡ some w) × (walk t.memory 1 w ≡ s))

pub Accepts-Grows :
    (path : ℕ → List ℕ) (t t' : Trie) (ws : List (List ℕ))
    → IsTrie path t
    → Grows t t'
    → Accepts ws t
    → Accepts ws t'
Accepts-Grows path t t' ws trie g a = record {
  found = λ i w e.
      let (word, there) = a.found i w e in
      (word, rw (walk-Grows path t trie t' w 1 g word trie.low (omega arith) (omega arith)) there);
  outs = λ s i h.
      let stays : (w : List ℕ) → get_elem? ws i ≡ some w → walk t'.memory 1 w ≡ walk t.memory 1 w =
        λ w e.
          let (word, there) = a.found i w e in
          walk-Grows path t trie t' w 1 g word trie.low (omega arith) (omega arith) in
      let old = a.outs s i h in
      (
        λ b. (let (w, e, at) = old.0 (ap (bit i) (sym (g.outs s h)) ∙ b) in (w, e, stays w e ∙ at)),
        λ (w, e, at). ap (bit i) (g.outs s h) ∙ old.1 (w, e, sym (stays w e) ∙ at),
      );
}

pub get_elem?-last :
    (ws : List (List ℕ)) (w : List ℕ) (i : ℕ)
    → get_elem? (ws ++ w ∷ []) i ≡ (if i == length ws then some w else get_elem? ws i)
get_elem?-last [] w zero = refl
get_elem?-last [] w (suc i) = ground arith
get_elem?-last (x ∷ ws) w zero = ground arith
get_elem?-last (x ∷ ws) w (suc i) = get_elem?-last ws w i ∙ ground arith

pub get_elem?-length : (ws : List (List ℕ)) → get_elem? ws (length ws) ≡ none
get_elem?-length [] = refl
get_elem?-length (w ∷ ws) = get_elem?-length ws
