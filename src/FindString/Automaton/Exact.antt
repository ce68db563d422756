-- ===== src/FindString/Automaton/Exact.antt =====
-- The file is read whole: its lines are the words that the trie puts out, and those in the map.
use honey_potion.Base.{
  ℕ, ◌+◌, ◌*◌, ◌<◌, ◌≤◌, ◌≡◌, ◌↔◌, inl, inr, refl, sym, ap, ◌∙◌, true, false, some, is_some, List,
  [], ◌∷◌, ◌++◌, map, length, length-append, get_elem?, ltb, leb, ◌==◌, arith, pos,
}
use mathlib.Core.Path.{subst}
use mathlib.Core.List.{append-nil, append_assoc}
use honey_potion.Base.Bits.{bit, bit-zero}
use honey_potion.Bpf.Array.{ArrayMap}
use honey_potion.FindString.{Word}
use honey_potion.FindString.Automaton.{
  Memory, Trie, ok, add_line, add_lines, c_string, text_of, cleared,
}
use honey_potion.FindString.Automaton.Names.{walk, IsWord, IsTrie}
use honey_potion.FindString.Automaton.Insert.{IsEnd}
use honey_potion.FindString.Automaton.Words.{Accepts, walk-path}
use honey_potion.FindString.Automaton.Lines.{insert_line-lem, last-cases, get_elem?-ne_length}

-- A line: a word of small letters, and what ends it.
pub record Line : Type 0 where
  pub word : List ℕ
  pub end : List ℕ

abbrev pub chars : Line → List ℕ
chars l = l.word ++ l.end

-- A line of at most nine characters.
abbrev pub IsLine : Line → Type 0
IsLine l = IsWord l.word × IsEnd l.end × (length (c_string (chars l)) ≤ 9)

abbrev pub AreLines : List Line → Type 0
AreLines [] = Unit {0}
AreLines (l ∷ ls) = IsLine l × AreLines ls

abbrev pub word_of : Line → List ℕ
word_of l = l.word

abbrev pub start : Memory → Trie
start garbage = record { memory = cleared garbage; states = 2 }

length-c_string : (w rest : List ℕ) → IsWord w → length w ≤ length (c_string (w ++ rest))
length-c_string [] rest h = omega arith
length-c_string (c ∷ w) rest (low, high, h) = ground (arith, length-c_string w rest h)

text_of-end : (rest : List ℕ) → IsEnd rest → text_of rest ≡ []
text_of-end [] h = refl
text_of-end (c ∷ rest) h = ground arith

text_of-word : (w rest : List ℕ) → IsWord w → IsEnd rest → text_of (w ++ rest) ≡ w
text_of-word [] rest h e = text_of-end rest e
text_of-word (c ∷ w) rest (low, high, h) e = ground (arith, text_of-word w rest h e)

start-IsTrie : (garbage : Memory) → IsTrie (λ i. []) (start garbage)
start-IsTrie garbage = record {
  low = omega arith;
  high = omega arith;
  root = refl;
  nothing = λ ch k. ground arith;
  child = λ s ch h k. inl (ground arith);
  fresh = λ s ch a h k. ground arith;
}

start-Accepts : (garbage : Memory) → Accepts [] (start garbage)
start-Accepts garbage = record {
  found = λ i w e. absurd (ground (arith, e));
  outs = λ s i h.
      let empty : cleared garbage s ≡ 0 = ground arith in
      let bit_zero : bit i (cleared garbage s) ≡ 0 = ap (bit i) empty ∙ bit-zero i in
      (λ b. absurd (omega (arith, b, bit_zero)), λ (w, e, at). absurd (ground (arith, e)));
}

walk-lt :
    (path : ℕ → List ℕ) (t : Trie) (v : List ℕ)
    → IsTrie path t
    → IsWord v
    → walk t.memory 1 v < t.states
walk-lt path t v trie word = elim (walk-path path t trie v 1 word trie.low (omega arith)) [
  | inl e ↦ omega (arith, trie.low)
  | inr (above, below, name) ↦ below
]

named :
    (path : ℕ → List ℕ) (t : Trie) (v : List ℕ)
    → IsTrie path t
    → IsWord v
    → 0 < walk t.memory 1 v
    → path (walk t.memory 1 v) ≡ v
named path t v trie word there = elim (walk-path path t trie v 1 word trie.low (omega arith)) [
  | inl e ↦ absurd (omega arith)
  | inr (above, below, name) ↦ name ∙ ap (λ p. p ++ v) trie.root
]

-- A word's last state puts out the line's digit exactly if the word is that line.
exact :
    (path : ℕ → List ℕ) (t : Trie) (ws : List (List ℕ)) (i : ℕ) (v : List ℕ)
    → IsTrie path t
    → Accepts ws t
    → IsWord v
    → (bit i (t.memory (walk t.memory 1 v)) ≡ 1) ↔ (get_elem? ws i ≡ some v)
exact path t ws i v trie accepts word = (
  λ b.
      let (w, e, at) =
        (accepts.outs (walk t.memory 1 v) i
            (omega (arith, walk-lt path t v trie word, trie.high))).0
          b in
      let (w_word, w_there) = accepts.found i w e in
      let v_named = named path t v trie word (omega (arith, at, w_there)) in
      let w_named = named path t w trie w_word w_there in
      let same : w ≡ v = sym w_named ∙ (ap path at ∙ v_named) in e ∙ ap some same,
  λ e.
      (accepts.outs (walk t.memory 1 v) i (omega (arith, walk-lt path t v trie word, trie.high))).1
        (v, e, refl),
)

module _ (words : ArrayMap Word) where
  -- What is known after the lines `ws`.
  record Read (ws : List (List ℕ)) (strings : words.Map) (t : Trie) : Type 0 where
    path : ℕ → List ℕ
    trie : IsTrie path t
    accepts : Accepts ws t
    small : t.states ≤ 2 + 9 * length ws
    room : 5 ≤ words.max_entries strings
    texts :
        (i : ℕ) (w : List ℕ)
        → get_elem? ws i ≡ some w
        → words.lookup strings i ≡ some (record { text = w; number = pos 0 })

  stored :
      (ws : List (List ℕ)) (v : List ℕ) (strings : words.Map)
      → ((i : ℕ) (w : List ℕ)
          → get_elem? ws i ≡ some w
          → words.lookup strings i ≡ some (record { text = w; number = pos 0 }))
      → is_some (words.lookup strings (length ws)) ≡ true
      → (i : ℕ) (w : List ℕ) → get_elem? (ws ++ v ∷ []) i ≡ some w
      → words.lookup (words.store strings (length ws) (record { text = v; number = pos 0 })) i
        ≡ some (record { text = w; number = pos 0 })
  stored ws v strings texts there i w e =
      let law = words.lookup-store strings (length ws) (record { text = v; number = pos 0 }) i in
      elim (last-cases ws v w i e) [
        | inl (at, same) ↦ law ∙ ground (arith, there, at, same)
        | inr old ↦
            let other : (length ws == i) ≡ false = get_elem?-ne_length ws w i old in
            law ∙ (rw (there, other) (texts i w old))
      ]

  add_line-Read :
      (ws : List (List ℕ)) (l : Line) (strings : words.Map) (t : Trie)
      → Read ws strings t
      → length ws < 5
      → IsLine l
      → (s : words.Map × Trie) × (add_line words (length ws) (chars l) (strings, t) ≡ ok s)
        × Read (ws ++ l.word ∷ []) s.0 s.1
  unfolding add_line
  add_line-Read ws l strings t read few (word, end, short) =
      let fits : leb 10 (length (c_string (chars l))) ≡ false = ground (arith, short) in
      let inside : leb (words.max_entries strings) (length ws) ≡ false =
        ground (arith, read.room) in
      let size : length l.word ≤ 9 = omega (arith, length-c_string l.word l.end word, short) in
      let (path', t', inserted, trie, accepts, more) =
        insert_line-lem read.path t ws l.word l.end read.trie read.accepts word end (omega arith)
          (omega (arith, read.small)) in
      let value : Word = record { text = l.word; number = pos 0 } in
      let strings' = words.store strings (length ws) value in
      (
        (strings', t'),
        rw (add_line, fits, inside, inserted, text_of-word l.word l.end word end) refl,
        record {
          path = path';
          trie = trie;
          accepts = accepts;
          small = omega (arith, more, size, read.small, length-append ws (l.word ∷ []));
          room = rw (words.max_entries-store strings (length ws) value) read.room;
          texts =
              stored ws l.word strings read.texts
                (words.lookup_inside strings (length ws) (omega (arith, read.room)));
        },
      )

  add_lines-Read :
      (ls : List Line) (ws : List (List ℕ)) (strings : words.Map) (t : Trie)
      → Read ws strings t
      → length ws + length ls ≤ 5
      → AreLines ls
      → (s : words.Map × Trie) × (add_lines words (length ws) (map chars ls) (strings, t) ≡ ok s)
        × Read (ws ++ map word_of ls) s.0 s.1
  unfolding add_lines
  add_lines-Read [] ws strings t read few lines = ((strings, t), refl, rw (append-nil ws) read)
  add_lines-Read (l ∷ ls) ws strings t read few (line, lines) =
      let more : ltb (length ws) 5 ≡ true = ground (arith, few) in
      let (s1, added, read1) = add_line-Read ws l strings t read (omega arith) line in
      let size : length (ws ++ l.word ∷ []) ≡ length ws + 1 = length-append ws (l.word ∷ []) in
      let (s, done, read') =
        add_lines-Read ls (ws ++ l.word ∷ []) s1.0 s1.1 read1 (omega arith) lines in
      (
        s,
        rw (add_lines, more, added)
            (ap (λ n. add_lines words n (map chars ls) s1) (sym size) ∙ done),
        subst (λ vs. Read vs s.0 s.1) (append_assoc ws (l.word ∷ []) (map word_of ls)) read',
      )

  -- At most five lines of at most nine characters, each of small letters up to its end, are read
  -- into the automaton without an error, whatever its memory held before. Then the state that a
  -- word leads to has the digit of a line in `out` exactly if the word is that line (a word that
  -- leads nowhere is at state 0, which has none), and the map `strings` has the lines' texts.
  pub add_lines-exact :
      (lines : List Line) (garbage : Memory) (strings : words.Map)
      → AreLines lines
      → length lines ≤ 5
      → 5 ≤ words.max_entries strings
      → (s : words.Map × Trie) × (add_lines words 0 (map chars lines) (strings, start garbage)
          ≡ ok s)
        × ((i : ℕ) (v : List ℕ)
            → IsWord v
            → (bit i (s.1.memory (walk s.1.memory 1 v)) ≡ 1)
              ↔ (get_elem? (map word_of lines) i ≡ some v))
        × ((i : ℕ) (v : List ℕ)
            → get_elem? (map word_of lines) i ≡ some v
            → words.lookup s.0 i ≡ some (record { text = v; number = pos 0 }))
  add_lines-exact lines garbage strings are few room =
      let initial : Read [] strings (start garbage) = record {
        path = λ i. [];
        trie = start-IsTrie garbage;
        accepts = start-Accepts garbage;
        small = omega arith;
        room = room;
        texts = λ i w e. absurd (ground (arith, e));
      } in
      let (s, done, read) =
        add_lines-Read lines [] strings (start garbage) initial (omega arith) are in
      (
        s,
        done,
        λ i v. exact read.path s.1 (map word_of lines) i v read.trie read.accepts,
        read.texts,
      )
