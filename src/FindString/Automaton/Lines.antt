-- ===== src/FindString/Automaton/Lines.antt =====
-- The lines of the file, one after the other.
use Prim.Native.Nat.{bit_or, max}
use honey_potion.Base.{
  ℕ, ◌+◌, ◌^◌, ◌<◌, ◌≤◌, ◌≡◌, ◌⊎◌, inl, inr, refl, sym, ap, ◌∙◌, true, false, Bool-cases, none,
  some, List, [], ◌∷◌, ◌++◌, length, get_elem?, ◌==◌, if◌then◌else◌, arith,
}
use honey_potion.Base.Bits.{bit, bit-bit_or, bit-le, bit-pow}
use honey_potion.FindString.Automaton.{Memory, Trie, ok, written, mark, insert_line}
use honey_potion.FindString.Automaton.Names.{go, walk, IsWord, IsTrie}
use honey_potion.FindString.Automaton.Insert.{IsEnd, insert_chars-Extended}
use honey_potion.FindString.Automaton.Words.{
  Accepts, Accepts-Grows, IsTrie-same, walk-same, get_elem?-last, get_elem?-length,
}

pub last-cases :
    (ws : List (List ℕ)) (w v : List ℕ) (i : ℕ)
    → get_elem? (ws ++ w ∷ []) i ≡ some v
    → ((i ≡ length ws) × (v ≡ w)) ⊎ (get_elem? ws i ≡ some v)
last-cases ws w v i e = elim (Bool-cases (i == length ws)) [
  | inl same ↦
      let new : get_elem? (ws ++ w ∷ []) i ≡ some w = get_elem?-last ws w i ∙ rw same refl in
      inl (ground arith, ground (arith, e, new))
  | inr other ↦
      let old : get_elem? (ws ++ w ∷ []) i ≡ get_elem? ws i =
        get_elem?-last ws w i ∙ rw other refl in
      inr (sym old ∙ e)
]

pub get_elem?-ne_length :
    (ws : List (List ℕ)) (v : List ℕ) (i : ℕ) → get_elem? ws i ≡ some v → (length ws == i) ≡ false
get_elem?-ne_length ws v i e = elim (Bool-cases (length ws == i)) [
  | inl same ↦
      let at : i ≡ length ws = ground arith in
      let nothing : get_elem? ws i ≡ none = ap (get_elem? ws) at ∙ get_elem?-length ws in
      absurd (ground (arith, e, nothing))
  | inr other ↦ other
]

get_elem?-old :
    (ws : List (List ℕ)) (w v : List ℕ) (i : ℕ)
    → get_elem? ws i ≡ some v
    → get_elem? (ws ++ w ∷ []) i ≡ some v
get_elem?-old ws w v i e =
    let other : (i == length ws) ≡ false = ground (arith, get_elem?-ne_length ws v i e) in
    get_elem?-last ws w i ∙ (rw other refl ∙ e)

get_elem?-new :
    (ws : List (List ℕ)) (w : List ℕ) (i : ℕ) → i ≡ length ws → get_elem? (ws ++ w ∷ []) i ≡ some w
get_elem?-new ws w i e =
    let same : (i == length ws) ≡ true = ground arith in get_elem?-last ws w i ∙ rw same refl

-- `mark` sets one digit of one place of `out`.
module _ (path : ℕ → List ℕ) (t : Trie) (ws : List (List ℕ)) (w : List ℕ) (trie : IsTrie path t)
    (accepts : Accepts ws t) (word : IsWord w) (there : 0 < walk t.memory 1 w)
    (below : walk t.memory 1 w < t.states) where
  abbrev last : ℕ
  last = walk t.memory 1 w

  abbrev marked : Memory
  marked = written t.memory last (bit_or (t.memory last) (2 ^ length ws))

  mark-marked : mark t.memory last (length ws) ≡ ok marked
  unfolding mark
  mark-marked = ground (arith, trie.high)

  go-marked : (s ch : ℕ) → ch < 26 → go marked s ch ≡ go t.memory s ch
  go-marked s ch k = ground (arith, trie.high)

  bit-marked :
      (s i : ℕ)
      → bit i (marked s) ≡ (
          if s == last
          then max (bit i (t.memory s)) (if i == length ws then 1 else 0)
          else bit i (t.memory s))
  bit-marked s i = elim (Bool-cases (s == last)) [
    | inl e ↦
        let same : s ≡ last = ground arith in
        rw (e, same)
          (bit-bit_or i (t.memory last) (2 ^ length ws) ∙ rw (bit-pow i (length ws)) refl)
    | inr e ↦ rw e refl
  ]

  walk-marked : (v : List ℕ) → IsWord v → walk marked 1 v ≡ walk t.memory 1 v
  walk-marked v = walk-same t.memory marked go-marked v 1

  marked-found :
      (i : ℕ) (v : List ℕ) → get_elem? (ws ++ w ∷ []) i ≡ some v → IsWord v × (0 < walk marked 1 v)
  marked-found i v e = elim (last-cases ws w v i e) [
    | inl (_, same) ↦ (rw same word, rw same (rw (walk-marked w word) there))
    | inr old ↦
        let (v_word, v_there) = accepts.found i v old in (v_word, rw (walk-marked v v_word) v_there)
  ]

  outs-old :
      (s i : ℕ)
      → s < 51
      → bit i (t.memory s) ≡ 1
      → (v : List ℕ) × (get_elem? (ws ++ w ∷ []) i ≡ some v) × (walk marked 1 v ≡ s)
  outs-old s i h b =
      let (v, e, at) = (accepts.outs s i h).0 b in
      (v, get_elem?-old ws w v i e, walk-marked v (accepts.found i v e).0 ∙ at)

  outs-marked :
      (s i : ℕ)
      → s < 51
      → bit i (marked s) ≡ 1
      → (v : List ℕ) × (get_elem? (ws ++ w ∷ []) i ≡ some v) × (walk marked 1 v ≡ s)
  outs-marked s i h b = elim (Bool-cases (s == last)) [
    | inl e ↦ elim (Bool-cases (i == length ws)) [
      | inl new ↦ (w, get_elem?-new ws w i (ground arith), walk-marked w word ∙ ground arith)
      | inr old ↦
          let now : bit i (marked s) ≡ max (bit i (t.memory s)) 0 =
            bit-marked s i ∙ rw (e, old) refl in
          outs-old s i h (omega (arith, now, b))
    ]
    | inr e ↦ outs-old s i h (sym (bit-marked s i ∙ rw e refl) ∙ b)
  ]

  marked-outs :
      (s i : ℕ)
      → s < 51
      → (v : List ℕ) × (get_elem? (ws ++ w ∷ []) i ≡ some v) × (walk marked 1 v ≡ s)
      → bit i (marked s) ≡ 1
  marked-outs s i h (v, e, at) = elim (last-cases ws w v i e) [
    | inl (new, same) ↦
        let here : s ≡ last = sym at ∙ (ap (walk marked 1) same ∙ walk-marked w word) in
        let yes_s : (s == last) ≡ true = ground (arith, here) in
        let yes_i : (i == length ws) ≡ true = ground (arith, new) in
        let now : bit i (marked s) ≡ max (bit i (t.memory s)) 1 =
          bit-marked s i ∙ rw (yes_s, yes_i) refl in
        omega (arith, now, bit-le i (t.memory s))
    | inr old ↦
        let v_word = (accepts.found i v old).0 in
        let before : bit i (t.memory s) ≡ 1 =
          (accepts.outs s i h).1 (v, old, sym (walk-marked v v_word) ∙ at) in
        bit-marked s i ∙ ground (arith, before)
  ]

  marked-Accepts : Accepts (ws ++ w ∷ []) (record t { memory = marked })
  marked-Accepts = record {
    found = marked-found;
    outs = λ s i h. (outs-marked s i h, marked-outs s i h);
  }

  marked-IsTrie : IsTrie path (record t { memory = marked })
  marked-IsTrie = IsTrie-same t.memory marked go-marked path t.states trie

pub insert_line-lem :
    (path : ℕ → List ℕ) (t : Trie) (ws : List (List ℕ)) (w rest : List ℕ)
    → IsTrie path t
    → Accepts ws t
    → IsWord w
    → IsEnd rest
    → length w ≤ 10
    → t.states + length w ≤ 51
    → (path' : ℕ → List ℕ) × (t' : Trie) × (insert_line (length ws) (w ++ rest) t ≡ ok t')
      × IsTrie path' t'
      × Accepts (ws ++ w ∷ []) t'
      × (t'.states ≤ t.states + length w)
unfolding insert_line
insert_line-lem path t ws w rest trie accepts word end fits room =
    let (t1, inserted, ext, there, below) =
      insert_chars-Extended w 10 rest path t 1 trie word end fits trie.low (omega arith) room in
    let accepts1 = Accepts-Grows path t t1 ws trie ext.grows accepts in
    let done = mark-marked ext.path' t1 ws w ext.trie accepts1 word there below in
    (
      ext.path',
      record t1 { memory = marked ext.path' t1 ws w ext.trie accepts1 word there below },
      rw (insert_line, inserted, done) refl,
      marked-IsTrie ext.path' t1 ws w ext.trie accepts1 word there below,
      marked-Accepts ext.path' t1 ws w ext.trie accepts1 word there below,
      ext.few,
    )
