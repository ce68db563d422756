-- ===== src/FindString/Automaton/Insert.antt =====
-- A line of small letters is inserted: the states that it goes through are there, or are added.
use honey_potion.Base.{
  ℕ, zero, suc, ◌+◌, ◌-◌, ◌<◌, ◌≤◌, ◌≡◌, ◌≢◌, ◌⊎◌, inl, inr, refl, ◌∙◌, false, ◌||◌, List, [], ◌∷◌,
  ◌++◌, length, ltb, leb, ◌==◌, arith,
}
use native.Mathlib.Decide.{dec_lt}
use honey_potion.FindString.Automaton.{Memory, Trie, ok, load, go_at, grow, insert_chars}
use honey_potion.FindString.Automaton.Names.{
  go, walk, IsWord, IsTrie, Grows, Grows-refl, with_child, named, grow-old, grow-new,
  with_child-Grows, with_child-IsTrie, named-old,
}

-- What follows a word in a line: nothing, or its end.
abbrev pub IsEnd : List ℕ → Type 0
IsEnd [] = Unit {0}
IsEnd (c ∷ line) = (c ≡ 0) ⊎ (c ≡ 10)

pub load-go : (m : Memory) (s ch : ℕ) → s < 51 → ch < 26 → load m (go_at s ch) ≡ ok (go m s ch)
load-go m s ch h k = ground arith

Grows-trans : (t u v : Trie) → Grows t u → Grows u v → Grows t v
Grows-trans t u v a b = record {
  states = omega (arith, a.states, b.states);
  kept =
      λ s ch h k there. b.kept s ch h k (rw (a.kept s ch h k there) there) ∙ a.kept s ch h k there;
  outs = λ s h. b.outs s h ∙ a.outs s h;
}

-- The trie after a step, with names that agree with the old ones.
pub record Extended (path : ℕ → List ℕ) (t t' : Trie) (n : ℕ) : Type 0 where
  pub path' : ℕ → List ℕ
  pub trie : IsTrie path' t'
  pub grows : Grows t t'
  pub agree : (i : ℕ) → i < t.states → path' i ≡ path i
  pub few : t'.states ≤ t.states + n

grow-Extended :
    (path : ℕ → List ℕ) (t : Trie) (s ch : ℕ)
    → IsTrie path t
    → s < t.states
    → 0 < s
    → ch < 26
    → t.states < 51
    → (t' : Trie) × (grow t s ch ≡ ok t') × Extended path t t' 1 × (go t'.memory s ch ≢ 0)
grow-Extended path t s ch trie old some_state letter room = elim (dec_lt 0 (go t.memory s ch)) [
  | yes p ↦ (
    t,
    grow-old path t s ch trie old some_state letter (omega arith),
    record {
      path' = path;
      trie = trie;
      grows = Grows-refl t;
      agree = λ i h. refl;
      few = omega arith;
    },
    omega arith,
  )
  | no p ↦
      let e : go t.memory s ch ≡ 0 = omega arith in
      let name = path s ++ (97 + ch) ∷ [] in
      (
        with_child t s ch,
        grow-new path t s ch trie old some_state letter e,
        record {
          path' = named path t.states name;
          trie = with_child-IsTrie path t s ch trie old some_state letter e room;
          grows = with_child-Grows path t s ch trie old some_state letter e;
          agree = named-old path t.states name;
          few = omega arith;
        },
        ground (arith, trie.low),
      )
]

next-range :
    (path : ℕ → List ℕ) (t : Trie) (s ch : ℕ)
    → IsTrie path t
    → s < 51
    → ch < 26
    → go t.memory s ch ≢ 0
    → (0 < go t.memory s ch) × (go t.memory s ch < t.states)
next-range path t s ch trie h k there = elim (trie.child s ch h k) [
  | inl e ↦ absurd (there e)
  | inr (above, below, name) ↦ (omega arith, below)
]

insert_chars-end :
    (left : ℕ) (rest : List ℕ) (s : ℕ) (t : Trie)
    → IsEnd rest
    → insert_chars left rest s t ≡ ok (s, t)
unfolding insert_chars
insert_chars-end zero rest s t h = refl
insert_chars-end (suc left) [] s t h = refl
insert_chars-end (suc left) (c ∷ rest) s t h = ground arith

insert_chars-step :
    (left c : ℕ) (line : List ℕ) (s : ℕ) (t t' : Trie) (next : ℕ)
    → 97 ≤ c
    → c < 123
    → grow t s (c - 97) ≡ ok t'
    → load t'.memory (go_at s (c - 97)) ≡ ok next
    → insert_chars (suc left) (c ∷ line) s t ≡ insert_chars left line next t'
unfolding insert_chars
insert_chars-step left c line s t t' next low high grown loaded =
    let no_end : (c == 0 || c == 10) ≡ false = ground arith in
    let letter : (ltb c 97 || leb (97 + 26) c) ≡ false = ground arith in
    rw (insert_chars, no_end, letter, grown, loaded) refl

pub insert_chars-Extended :
    (w : List ℕ) (left : ℕ) (rest : List ℕ) (path : ℕ → List ℕ) (t : Trie) (s : ℕ)
    → IsTrie path t
    → IsWord w
    → IsEnd rest
    → length w ≤ left
    → s < t.states
    → 0 < s
    → t.states + length w ≤ 51
    → (t' : Trie) × (insert_chars left (w ++ rest) s t ≡ ok (walk t'.memory s w, t'))
      × Extended path t t' (length w)
      × (0 < walk t'.memory s w)
      × (walk t'.memory s w < t'.states)
insert_chars-Extended [] left rest path t s trie word end fits old some_state room = (
  t,
  insert_chars-end left rest s t end,
  record {
    path' = path;
    trie = trie;
    grows = Grows-refl t;
    agree = λ i h. refl;
    few = omega arith;
  },
  some_state,
  old,
)
insert_chars-Extended (c ∷ w) zero rest path t s trie word end fits old some_state room =
    absurd (omega arith)
insert_chars-Extended (c ∷ w) (suc left) rest path t s trie (low, high, word) end fits old
      some_state room =
    let ch = c - 97 in
    let (t1, grown, ext, there) =
      grow-Extended path t s ch trie old some_state (omega arith) (omega arith) in
    let next = go t1.memory s ch in
    let (next_above, next_below) =
      next-range ext.path' t1 s ch ext.trie (omega arith) (omega arith) there in
    let (t', rest_done, ext', above, below) =
      insert_chars-Extended w left rest ext.path' t1 next ext.trie word end (omega arith) next_below
        next_above (omega (arith, ext.few)) in
    let kept : go t'.memory s ch ≡ next = ext'.grows.kept s ch (omega arith) (omega arith) there in
    let loaded = load-go t1.memory s ch (omega arith) (omega arith) in
    (
      t',
      insert_chars-step left c (w ++ rest) s t t1 next low high grown loaded
          ∙ (rest_done ∙ rw kept refl),
      record {
        path' = ext'.path';
        trie = ext'.trie;
        grows = Grows-trans t t1 t' ext.grows ext'.grows;
        agree = λ i h. ext'.agree i (omega (arith, ext.grows.states)) ∙ ext.agree i h;
        few = omega (arith, ext.few, ext'.few);
      },
      rw kept above,
      rw kept below,
    )
