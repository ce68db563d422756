-- ===== src/Generated/Cells/Texts.antt =====
-- Tuples and texts that are built can be taken apart again.
use honey_potion.Base.{
  ℕ, ◌+◌, ◌-◌, ◌<◌, ◌≤◌, ◌≡◌, refl, ap, ◌∙◌, Bool, true, false, ◌&&◌, Bool-cases, inl, inr, ◌==◌,
  ltb, if◌then◌else◌, pos, ◌+ℤ◌, u32, List, [], ◌∷◌, length, arith,
}
use honey_potion.Runtime.Values.{Generic, string, span}
use honey_potion.Generated.Machine.{
  Memory, State, ok, err, bind_ok, bind_err, put, put_all, match_error,
}
use honey_potion.Generated.Cells.{
  pair, element, load_elem, literal, match_byte, match_bytes, tuple_at,
}

module _ {M : Type 0} where
  -- With room in the pools, `pair` returns a tuple whose two elements are its arguments.
  element-pair :
      (s : State M) (a b : Generic)
      → s.memory.heap_index + 2 ≤ 100
      → s.memory.tuple_pool_index + 2 ≤ 500
      → let r = pair a b s in
        let g = tuple_at (pos s.memory.tuple_pool_index) (pos (s.memory.tuple_pool_index + 1)) in
        (r.0 ≡ ok g) × (element g 0 r.1 ≡ (ok a, r.1)) × (element g 1 r.1 ≡ (ok b, r.1))
  unfolding pair element load_elem ◌+ℤ◌
  element-pair s a b heap_room pool_room = (ground arith, ground arith, ground arith)

-- The pool has these bytes from `i` on.
abbrev pub agrees : (ℕ → ℕ) → ℕ → List ℕ → Bool
agrees f i [] = true
agrees f i (c ∷ cs) = c == f i && agrees f (i + 1) cs

put_all-before : (cs : List ℕ) (f : ℕ → ℕ) (i j : ℕ) → j < i → put_all f i cs j ≡ f j
put_all-before [] f i j before = refl
put_all-before (c ∷ cs) f i j before =
    put_all-before cs (put f i c) (i + 1) j (omega arith) ∙ ground (arith, before)

abbrev pub same_text : List ℕ → List ℕ → Bool
same_text [] ys = true
same_text (x ∷ xs) [] = false
same_text (x ∷ xs) (y ∷ ys) = x == y && same_text xs ys

agrees-put_all :
    (xs ys : List ℕ) (f : ℕ → ℕ) (i : ℕ)
    → length xs ≤ length ys
    → agrees (put_all f i ys) i xs ≡ same_text xs ys
agrees-put_all [] ys f i fits = refl
agrees-put_all (x ∷ xs) [] f i fits = absurd (omega arith)
agrees-put_all (x ∷ xs) (y ∷ ys) f i fits =
    let self : (i == i) ≡ true = ground arith in
    let here : put_all f i (y ∷ ys) i ≡ y =
      put_all-before ys (put f i y) (i + 1) i (omega arith) ∙ rw self refl in
    rw (here, agrees-put_all xs ys (put f i y) (i + 1) (omega arith)) refl

-- The memory after a literal that fits.
abbrev with_text : Memory → List ℕ → Memory
with_text m text = record m {
  string_pool = put_all m.string_pool m.string_pool_index text;
  string_pool_index = m.string_pool_index + length text;
}

module _ {M : Type 0} where
  match_byte-agrees :
      (s : State M) (i k c : ℕ)
      → i + k < 500
      → match_byte (pos i) k c s
        ≡ (if c == s.memory.string_pool (i + k) then ok tt else err match_error, s)
  unfolding match_byte ◌+ℤ◌
  match_byte-agrees s i k c inside = ground arith

  match_bytes-agrees :
      (cs : List ℕ) (s : State M) (i k : ℕ)
      → i + k + length cs ≤ 500
      → match_bytes (pos i) k cs s
        ≡ (if agrees s.memory.string_pool (i + k) cs then ok tt else err match_error, s)
  unfolding match_bytes
  match_bytes-agrees [] s i k inside = refl
  match_bytes-agrees (c ∷ cs) s i k inside =
      let byte = match_byte-agrees s i k c (omega arith) in
      elim (Bool-cases (c == s.memory.string_pool (i + k))) [
        | inl e ↦
            bind_ok (match_byte (pos i) k c) (λ x. match_bytes (pos i) (k + 1) cs) {s = s}
              (byte ∙ rw e refl)
            ∙ match_bytes-agrees cs s i (k + 1) (omega arith)
            ∙ rw e (
                ap (λ j. (if agrees s.memory.string_pool j cs then ok tt else err match_error, s))
                  (omega arith))
        | inr e ↦
            let failed : match_byte (pos i) k c s ≡ (err match_error, s) = byte ∙ rw e refl in
            bind_err (match_byte (pos i) k c) (λ x. match_bytes (pos i) (k + 1) cs) {s = s} failed
            ∙ rw e refl
      ]

  literal-with_text :
      (s : State M) (text : List ℕ)
      → s.memory.string_pool_index + length text < 500
      → 1 ≤ length text
      → literal text s ≡ (
        ok (record {
          type = string;
          value =
              span
                (pos s.memory.string_pool_index)
                (pos (s.memory.string_pool_index + length text - 1));
        }),
        record s { memory = with_text s.memory text },
      )
  unfolding literal
  literal-with_text s text fits some_byte =
      let i = s.memory.string_pool_index in
      let last : u32 (i + length text - 1) ≡ i + length text - 1 = ground (arith, fits) in
      let index : u32 (i + length text - 1 + 1) ≡ i + length text =
        ground (arith, fits, some_byte) in
      let guard : ltb (i + length text) 500 ≡ true = ground (arith, fits) in
      let copied : ltb i (500 - length text) ≡ true = ground (arith, fits) in
      rw (literal, last, index, guard, copied) (rw (last, index) refl)

  -- A literal that fits is matched by the patterns of no more bytes that agree with it, and by no
  -- others: what stands in the pools before does not matter.
  pub match_bytes-literal :
      (s : State M) (text pattern_text : List ℕ)
      → s.memory.string_pool_index + length text < 500
      → 1 ≤ length text
      → length pattern_text ≤ length text
      → let r = literal text s in
        let i = s.memory.string_pool_index in
        (r.0 ≡ ok (record { type = string; value = span (pos i) (pos (i + length text - 1)) }))
        × (match_bytes (pos i) 0 pattern_text r.1
            ≡ (if same_text pattern_text text then ok tt else err match_error, r.1))
  unfolding literal
  match_bytes-literal s text pattern_text fits some_byte short =
      let i = s.memory.string_pool_index in
      let t = record s { memory = with_text s.memory text } in
      let same : agrees t.memory.string_pool (i + 0) pattern_text ≡ same_text pattern_text text =
        ap (λ j. agrees t.memory.string_pool j pattern_text) (omega arith)
        ∙ agrees-put_all pattern_text text s.memory.string_pool i short in
      let matched = match_bytes-agrees pattern_text t i 0 (omega arith) in
      rw (literal-with_text s text fits some_byte)
        (refl, matched ∙ ap (λ b. (if b then ok tt else err match_error, t)) same)
