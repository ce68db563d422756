-- ===== src/FindString/Automaton/Names.antt =====
-- What the trie stands for while lines are added: its states have names, and the words that it
-- puts out are the lines.
use mathlib.Core.Path.{subst}
use native.Mathlib.Decide.{dec_lt}
use honey_potion.Base.{
  ℕ, ◌+◌, ◌-◌, ◌*◌, ◌<◌, ◌≤◌, ◌≡◌, ◌≢◌, ◌⊎◌, inl, inr, refl, sym, ap, ◌∙◌, Bool-cases, List, [],
  ◌∷◌, ◌++◌, ◌==◌, if◌then◌else◌, arith,
}
use honey_potion.FindString.Automaton.{Memory, Trie, ok, written, grow}

-- The element of `go`.
abbrev pub go : Memory → ℕ → ℕ → ℕ
go m s ch = m (102 + ch + 26 * s)

-- The state that a word leads to from `s`: 0 is none.
abbrev pub walk : Memory → ℕ → List ℕ → ℕ
walk m s [] = s
walk m s (c ∷ w) = walk m (go m s (c - 97)) w

abbrev pub IsWord : List ℕ → Type 0
IsWord [] = Unit {0}
IsWord (c ∷ w) = (97 ≤ c) × (c < 123) × IsWord w

-- The child of `s` at `ch`.
abbrev pub IsChild : (ℕ → List ℕ) → ℕ → ℕ → ℕ → ℕ → Type 0
IsChild path states s ch r = (1 < r) × (r < states) × (path r ≡ path s ++ (97 + ch) ∷ [])

-- Every state below `states` but 0 has the word `path` that leads to it from state 1.
pub record IsTrie (path : ℕ → List ℕ) (t : Trie) : Type 0 where
  pub low : 2 ≤ t.states
  pub high : t.states ≤ 51
  pub root : path 1 ≡ []
  pub nothing : (ch : ℕ) → ch < 26 → go t.memory 0 ch ≡ 0
  pub child :
      (s ch : ℕ)
      → s < 51
      → ch < 26
      → (go t.memory s ch ≡ 0) ⊎ IsChild path t.states s ch (go t.memory s ch)
  pub fresh : (s ch : ℕ) → t.states ≤ s → s < 51 → ch < 26 → go t.memory s ch ≡ 0

-- Only states in use have children.
pub IsTrie-lt :
    (path : ℕ → List ℕ) (t : Trie)
    → IsTrie path t
    → (s ch : ℕ) → s < 51
    → ch < 26
    → 0 < go t.memory s ch
    → s < t.states
IsTrie-lt path t trie s ch h k there = elim (dec_lt s t.states) [
  | yes p ↦ p
  | no p ↦ absurd (omega (arith, trie.fresh s ch (omega arith) h k))
]

-- What was there is still there.
pub record Grows (t t' : Trie) : Type 0 where
  pub states : t.states ≤ t'.states
  pub kept :
      (s ch : ℕ) → s < 51 → ch < 26 → go t.memory s ch ≢ 0 → go t'.memory s ch ≡ go t.memory s ch
  pub outs : (s : ℕ) → s < 51 → t'.memory s ≡ t.memory s

pub Grows-refl : (t : Trie) → Grows t t
Grows-refl t = record { states = omega arith; kept = λ s ch h k n. refl; outs = λ s h. refl }

-- Two elements of `go` are two places.
places_eq :
    (s s' ch ch' : ℕ)
    → ch < 26
    → ch' < 26
    → 102 + ch + 26 * s ≡ 102 + ch' + 26 * s'
    → (s ≡ s') × (ch ≡ ch')
places_eq s s' ch ch' h h' e = (omega arith, omega arith)

-- A new child.
abbrev pub with_child : Trie → ℕ → ℕ → Trie
with_child t s ch = record {
  memory = written t.memory (102 + ch + 26 * s) t.states;
  states = t.states + 1;
}

abbrev pub named : (ℕ → List ℕ) → ℕ → List ℕ → ℕ → List ℕ
named path n w i = if i == n then w else path i

pub named-old : (path : ℕ → List ℕ) (n : ℕ) (w : List ℕ) (i : ℕ) → i < n → named path n w i ≡ path i
named-old path n w i h = ground arith

named-new : (path : ℕ → List ℕ) (n : ℕ) (w : List ℕ) → named path n w n ≡ w
named-new path n w = ground arith

module _ (path : ℕ → List ℕ) (t : Trie) (s ch : ℕ) (trie : IsTrie path t) (old : s < t.states)
    (some_state : 0 < s) (letter : ch < 26) where
  pub grow-old : go t.memory s ch ≢ 0 → grow t s ch ≡ ok t
  unfolding grow
  grow-old there = ground (arith, trie.high)

  pub grow-new : go t.memory s ch ≡ 0 → grow t s ch ≡ ok (with_child t s ch)
  unfolding grow
  grow-new e = ground (arith, trie.high)

  go-with_child :
      (r c : ℕ)
      → c < 26
      → ((r ≡ s) × (c ≡ ch) × (go (with_child t s ch).memory r c ≡ t.states))
        ⊎ (((r ≡ s → c ≡ ch → ⊥)) × (go (with_child t s ch).memory r c ≡ go t.memory r c))
  go-with_child r c k = elim (Bool-cases (102 + c + 26 * r == 102 + ch + 26 * s)) [
    | inl same ↦
        let e : 102 + c + 26 * r ≡ 102 + ch + 26 * s = ground arith in
        inl (omega arith, omega arith, rw same refl)
    | inr other ↦ inr (λ a b. ground (arith, other, a, b), rw other refl)
  ]

  module _ (e : go t.memory s ch ≡ 0) where
    pub with_child-Grows : Grows t (with_child t s ch)
    with_child-Grows = record {
      states = omega arith;
      kept = λ r c h k there. elim (go-with_child r c k) [
        | inl (a, b, _) ↦ absurd (there (rw (a, b) e))
        | inr (_, same) ↦ same
      ];
      outs = λ r h. ground arith;
    }

    pub with_child-IsTrie :
        t.states < 51 → IsTrie (named path t.states (path s ++ (97 + ch) ∷ [])) (with_child t s ch)
    with_child-IsTrie room =
        let name = path s ++ (97 + ch) ∷ [] in
        let path' = named path t.states name in
        record {
          low = omega (arith, trie.low);
          high = omega arith;
          root = ground (arith, trie.low, trie.root);
          nothing = λ c k. elim (go-with_child 0 c k) [
            | inl (a, b, _) ↦ absurd (omega arith)
            | inr (_, same) ↦ same ∙ trie.nothing c k
          ];
          child = λ r c h k. elim (go-with_child r c k) [
            | inl (a, b, new) ↦ inr (
                subst (IsChild path' (t.states + 1) r c) (sym new) (
                  omega (arith, trie.low),
                  omega arith,
                  named-new path t.states name
                      ∙ rw (a, b)
                          (ap (λ p. p ++ (97 + ch) ∷ [])
                            (sym (named-old path t.states name s old))),
                ))
            | inr (_, same) ↦ elim (trie.child r c h k) [
              | inl zero_ ↦ inl (same ∙ zero_)
              | inr (above, below, called) ↦
                  let there : r < t.states = IsTrie-lt path t trie r c h k (omega arith) in
                  inr (
                    subst (IsChild path' (t.states + 1) r c) (sym same) (
                      above,
                      omega arith,
                      named-old path t.states name (go t.memory r c) below
                          ∙ (called
                              ∙ ap (λ p. p ++ (97 + c) ∷ [])
                                  (sym (named-old path t.states name r there))),
                    ))
            ]
          ];
          fresh = λ r c h k l. elim (go-with_child r c l) [
            | inl (a, b, _) ↦ absurd (omega arith)
            | inr (_, same) ↦ same ∙ trie.fresh r c (omega arith) k l
          ];
        }
