-- ===== src/FindString/Matches.antt =====
-- What a scan of the characters finds, without the running state of the program: the state before
-- each character, the words that end at it, and which words are seen.
use Prim.Native.Nat.{bit_or}
use honey_potion.Base.{
  ℕ, zero, suc, ◌+◌, ◌-◌, ◌/◌, ◌%◌, ◌^◌, ◌≡◌, refl, sym, ap, ◌∙◌, Bool, true, false, not, ◌&&◌,
  ◌||◌, Bool-cases, Option-cases, inl, inr, Option, none, some, ltb, leb, ◌==◌, ==_iff,
  if◌then◌else◌, u32, s32, pos, ◌+ℤ◌, arith,
}
use honey_potion.Base.Bits.{bit, bit-zero, bit-le, bit-bit_or, bit_or-is_zero}
use honey_potion.Bpf.{HashMap, nat_key}
use honey_potion.Bpf.Array.{ArrayMap}
use honey_potion.Packet.{Packet, IsBytes}
use honey_potion.FindString.{
  Row, Word, Progress, advance, maxc, payload_offset, count_word, count_words,
}
use honey_potion.FindString.Scan.{after}

-- Is a character a small letter?
abbrev pub is_letter : ℕ → Bool
is_letter c = leb 97 c && leb c 122

abbrev pub char_at : Packet → ℕ → ℕ
char_at p n = p.byte (payload_offset + n)

module _ (rows : ℕ → Row) (p : Packet) where
  -- The state before the `n`-th character: letters lead along the rows, all else to state 1.
  abbrev pub state_at : ℕ → ℕ
  state_at zero = 1
  state_at (suc n) =
      if is_letter (char_at p n) then (rows (state_at n) (char_at p n - 97)).next_state else 1

  -- The words that end at the `n`-th character.
  abbrev pub match_at : ℕ → ℕ
  match_at n = if is_letter (char_at p n) then (rows (state_at n) (char_at p n - 97)).match else 0

  -- Does word `j` end at one of the first `n` characters, and does any?
  abbrev pub is_seen : ℕ → ℕ → Bool
  is_seen j zero = false
  is_seen j (suc n) = is_seen j n || bit j (match_at n) == 1

  abbrev pub is_any_seen : ℕ → Bool
  is_any_seen zero = false
  is_any_seen (suc n) = is_any_seen n || not (match_at n == 0)

  module _ (bytes : IsBytes p) where
    letter : (n : ℕ) → leb maxc (u32 (char_at p n + 2 ^ 32 - 97)) ≡ not (is_letter (char_at p n))
    letter n = ground (arith, bytes (payload_offset + n))

    offset :
        (n : ℕ)
        → is_letter (char_at p n) ≡ true
        → u32 (char_at p n + 2 ^ 32 - 97) ≡ char_at p n - 97
    offset n h = ground (arith, bytes (payload_offset + n))

    pub after-state : (n : ℕ) → (after rows p n).0 ≡ state_at n
    unfolding after advance
    after-state zero = refl
    after-state (suc n) = elim (Bool-cases (is_letter (char_at p n))) [
      | inl yes_ ↦ rw (letter n, yes_, offset n yes_, after-state n) refl
      | inr no_ ↦ rw (letter n, no_) refl
    ]

    after-match :
        (n : ℕ)
        → (after rows p (suc n)).1
          ≡ (if match_at n == 0 then (after rows p n).1 else bit_or (after rows p n).1 (match_at n))
    unfolding after advance
    after-match n = elim (Bool-cases (is_letter (char_at p n))) [
      | inl yes_ ↦ rw (letter n, yes_, offset n yes_, after-state n) refl
      | inr no_ ↦ rw (letter n, no_) refl
    ]

    -- The program's matches have the digits of the words that are seen, and are 0 if none is.
    pub after-seen : (j n : ℕ) → bit j (after rows p n).1 ≡ (if is_seen j n then 1 else 0)
    unfolding after
    after-seen j zero = bit-zero j
    after-seen j (suc n) = rw (after-match n) (elim (Bool-cases (match_at n == 0)) [
      | inl none_ends ↦
          let empty : match_at n ≡ 0 = ground (arith, none_ends) in
          ground (arith, none_ends, after-seen j n, empty, ap (bit j) empty, bit-zero j)
      | inr ends ↦ ground (
        arith,
        ends,
        after-seen j n,
        bit-bit_or j (after rows p n).1 (match_at n),
        bit-le j (match_at n),
      )
    ])

    pub after-any_seen : (n : ℕ) → ((after rows p n).1 == 0) ≡ not (is_any_seen n)
    unfolding after
    after-any_seen zero = refl
    after-any_seen (suc n) = rw (after-match n) (elim (Bool-cases (match_at n == 0)) [
      | inl none_ends ↦ ground (arith, none_ends, after-any_seen n)
      | inr ends ↦ ground (arith, ends, bit_or-is_zero (after rows p n).1 (match_at n))
    ])

-- A word that was seen in one more packet.
abbrev pub one_more : Option Word → Option Word
one_more none = none
one_more (some word) = some (record word { number = s32 (word.number +ℤ pos 1) })

module _ (words : ArrayMap Word) (progress : HashMap nat_key Progress) where
  lookup-count_word :
      (m : words.Map) (j i : ℕ)
      → words.lookup (count_word words progress m j (words.lookup m j)) i
        ≡ (if j == i then one_more (words.lookup m i) else words.lookup m i)
  unfolding count_word
  lookup-count_word m j i = elim (Option-cases (words.lookup m j)) [
    | inl e ↦ elim (Bool-cases (j == i)) [
      | inl same ↦
          let at : words.lookup m i ≡ none = ap (words.lookup m) (sym ((==_iff j i).0 same)) ∙ e in
          rw (e, count_word, same, at) refl
      | inr other ↦ rw (e, count_word, other) refl
    ]
    | inr (word, e) ↦
        let v : Word = record word { number = s32 (word.number +ℤ pos 1) } in
        elim (Bool-cases (j == i)) [
          | inl same ↦
              let at : words.lookup m i ≡ some word =
                ap (words.lookup m) (sym ((==_iff j i).0 same)) ∙ e in
              rw (e, count_word, same, at) (words.lookup-store m j v i ∙ rw (e, same) refl)
          | inr other ↦ rw (e, count_word, other) (words.lookup-store m j v i ∙ rw (e, other) refl)
        ]
  ]

  lookup-counted :
      (b : Bool) (m : words.Map) (j i : ℕ)
      → words.lookup (if b then count_word words progress m j (words.lookup m j) else m) i
        ≡ (if j == i && b then one_more (words.lookup m i) else words.lookup m i)
  lookup-counted true m j i = lookup-count_word m j i ∙ ground arith
  lookup-counted false m j i = ground arith

  pub lookup-count_words :
      (left j matches : ℕ) (m : words.Map) (i : ℕ)
      → words.lookup (count_words words progress left j matches m) i ≡ (
          if (leb j i && ltb i (j + left)) && matches / 2 ^ i % 2 == 1
          then one_more (words.lookup m i)
          else words.lookup m i)
  unfolding count_words
  lookup-count_words zero j matches m i = ground arith
  lookup-count_words (suc left) j matches m i =
      let b : Bool = matches / 2 ^ j % 2 == 1 in
      let counted = if b then count_word words progress m j (words.lookup m j) else m in
      lookup-count_words left (j + 1) matches counted i ∙ elim (Bool-cases (j == i)) [
        | inl same ↦
            let past : leb (j + 1) i ≡ false = ground (arith, same) in
            let here : (leb j i && ltb i (j + suc left)) ≡ true = ground (arith, same) in
            let at : j ≡ i = (==_iff j i).0 same in
            rw (past, here, lookup-counted b m j i, same) (rw at refl)
        | inr other ↦
            let next : (leb (j + 1) i && ltb i (j + 1 + left)) ≡ (leb j i && ltb i (j + suc left)) =
              ground (arith, other) in
            rw (next, lookup-counted b m j i, other) refl
      ]
