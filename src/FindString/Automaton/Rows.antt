-- ===== src/FindString/Automaton/Rows.antt =====
-- The rows for the kernel, from an automaton whose failures lead back to the initial state.
use honey_potion.Base.{
  ℕ, zero, suc, ◌+◌, ◌<◌, ◌≤◌, ◌≡◌, ◌≢◌, inl, inr, refl, ap, Bool-cases, some, List, [], ◌∷◌,
  length, get_elem?, ◌==◌, if◌then◌else◌, arith,
}
use mathlib.Core.Path.{subst}
use honey_potion.FindString.{GotoResult}
use honey_potion.FindString.Automaton.{Memory, ok, load, out_at, failure_at}
use honey_potion.FindString.Automaton.Link.{find_next_state}
use honey_potion.FindString.Automaton.Fill.{goto_result, goto_row, goto_rows}
use honey_potion.FindString.Automaton.Names.{go}
use honey_potion.FindString.Automaton.Insert.{load-go}

abbrev pub failure : Memory → ℕ → ℕ
failure m s = m (51 + s)

-- The failures of the states from 2 on lead to states of a smaller rank, state 1 has a transition
-- for each letter, and all transitions lead to states.
pub record IsLinked (rank : ℕ → ℕ) (states : ℕ) (m : Memory) : Type 0 where
  pub low : 2 ≤ states
  pub size : states ≤ 51
  pub root : (c : ℕ) → c < 26 → go m 1 c ≢ 0
  pub edges : (s c : ℕ) → 0 < s → s < states → c < 26 → go m s c < states
  pub back :
      (s : ℕ)
      → 1 < s
      → s < states
      → (0 < failure m s) × (failure m s < states) × (rank (failure m s) < rank s)

-- Where the letter `c` leads from `s`: to its child, or to where it leads from its failure.
pub data Next (m : Memory) (c : ℕ) : ℕ → ℕ → Type 0 where
  child : {s r : ℕ} → go m s c ≢ 0 → r ≡ go m s c → Next m c s r
  fails : {s r : ℕ} → go m s c ≡ 0 → Next m c (failure m s) r → Next m c s r

-- What the entry of a row says: a child comes with what is put out there, and any other transition
-- with what is put out at state 0.
pub record IsEntry (m : Memory) (states s c : ℕ) (e : GotoResult) : Type 0 where
  pub next : Next m c s e.next_state
  pub match_child : go m s c ≢ 0 → e.match ≡ m (go m s c)
  pub match_fails : go m s c ≡ 0 → e.match ≡ m 0
  pub above : 0 < e.next_state
  pub below : e.next_state < states

-- A list holds at its first places what is asked for the numbers from `c` on.
abbrev pub Holds {ℓ} : {A : Type ℓ} → (ℕ → A → Type ℓ) → ℕ → ℕ → List A → Type ℓ
Holds {A = A} P c left xs =
    (k n : ℕ) → n ≡ c + k → k < left → (x : A) × (get_elem? xs k ≡ some x) × P n x

Holds-cons {ℓ} :
    {A : Type ℓ} (P : ℕ → A → Type ℓ) (c left : ℕ) (x : A) (xs : List A)
    → P c x
    → Holds P (c + 1) left xs
    → Holds P c (suc left) (x ∷ xs)
Holds-cons P c left x xs here rest zero n e h =
    (x, refl, subst (λ k. P k x) {x = c} {y = n} (omega arith) here)
Holds-cons P c left x xs here rest (suc k) n e h = rest k n (omega arith) (omega arith)

same_or_zero : (n : ℕ) → (if n == 0 then 0 else n) ≡ n
same_or_zero n = ground arith

module _ (rank : ℕ → ℕ) (states : ℕ) (m : Memory) (links : IsLinked rank states m) where
  load-failure : (s : ℕ) → s < 51 → load m (failure_at s) ≡ ok (failure m s)
  load-failure s h = ground arith

  load-out : (s : ℕ) → s < 51 → load m (out_at s) ≡ ok (m s)
  load-out s h = ground arith

  find_next_state-Next :
      (fuel s c : ℕ)
      → rank s < fuel
      → 0 < s
      → s < states
      → c < 26
      → (r : ℕ) × (find_next_state fuel m s c ≡ ok r) × Next m c s r × (0 < r) × (r < states)
  unfolding find_next_state
  find_next_state-Next zero s c few some_state old letter = absurd (omega arith)
  find_next_state-Next (suc fuel) s c few some_state old letter =
      let here = load-go m s c (omega (arith, links.size)) letter in
      elim (Bool-cases (go m s c == 0)) [
        | inl e ↦
            let nothing : go m s c ≡ 0 = ground arith in
            let not_root : 1 < s = ground (arith, nothing, links.root c letter) in
            let (above, below, smaller) = links.back s not_root old in
            let (r, done, next, a, b) =
              find_next_state-Next fuel (failure m s) c (omega arith) above below letter in
            (
              r,
              rw (find_next_state, here, e, load-failure s (omega (arith, links.size)), done) refl,
              fails nothing next,
              a,
              b,
            )
        | inr e ↦ (
          go m s c,
          rw (find_next_state, here, e) refl,
          child (ground arith) refl,
          ground arith,
          links.edges s c some_state old letter,
        )
      ]

  module _ (fuel : ℕ) (enough : (s : ℕ) → 0 < s → s < states → rank s < fuel) where
    goto_result-IsEntry :
        (s c : ℕ)
        → 0 < s
        → s < states
        → c < 26
        → (e : GotoResult) × (goto_result fuel m s c ≡ ok e) × IsEntry m states s c e
    unfolding goto_result
    goto_result-IsEntry s c some_state old letter =
        let here = load-go m s c (omega (arith, links.size)) letter in
        elim (Bool-cases (go m s c == 0)) [
          | inl e ↦
              let nothing : go m s c ≡ 0 = ground arith in
              let (r, done, next, a, b) =
                find_next_state-Next fuel s c (enough s some_state old) some_state old letter in
              let entry : GotoResult = record { next_state = r; match = m 0 } in
              (
                entry,
                rw (goto_result, here, e, done, nothing, same_or_zero (m 0)) refl,
                record {
                  next = next;
                  match_child = λ there. absurd (there nothing);
                  match_fails = λ z. refl;
                  above = a;
                  below = b;
                },
              )
          | inr e ↦
              let there : go m s c ≢ 0 = ground arith in
              let below = links.edges s c some_state old letter in
              let entry : GotoResult = record { next_state = go m s c; match = m (go m s c) } in
              (
                entry,
                rw
                    (
                      goto_result,
                      here,
                      e,
                      load-out (go m s c) (omega (arith, links.size)),
                      same_or_zero (m (go m s c)),
                    )
                    refl,
                record {
                  next = child there refl;
                  match_child = λ t. refl;
                  match_fails = λ z. absurd (there z);
                  above = omega arith;
                  below = below;
                },
              )
        ]

    -- The entries of a row from `c` on.
    goto_row-IsEntry :
        (left s c : ℕ)
        → 0 < s
        → s < states
        → c + left ≡ 26
        → (row : List GotoResult) × (goto_row fuel m s left c ≡ ok row)
          × Holds (IsEntry m states s) c left row
    unfolding goto_row
    goto_row-IsEntry zero s c some_state old all = ([], refl, λ k n e h. absurd (omega arith))
    goto_row-IsEntry (suc left) s c some_state old all =
        let (e, done, here) = goto_result-IsEntry s c some_state old (omega arith) in
        let (row, rest, entries) = goto_row-IsEntry left s (c + 1) some_state old (omega arith) in
        (
          e ∷ row,
          rw (goto_row, done, rest) refl,
          Holds-cons (IsEntry m states s) c left e row here entries,
        )

    -- If the failures of an automaton lead back to its initial state, by fewer steps than the fuel,
    -- then all rows from `s` on are computed. The entry of a state for a letter leads to its child,
    -- or else to where the letter leads from its failure; a child comes with what `out` has for it,
    -- and every other transition with what `out` has for state 0.
    pub goto_rows-IsEntry :
        (left s : ℕ)
        → 0 < s
        → s + left ≡ states
        → (rows : List (List GotoResult)) × (goto_rows fuel m left s ≡ ok rows)
          × (length rows ≡ left)
          × Holds (λ r row. Holds (IsEntry m states r) 0 26 row) s left rows
    unfolding goto_rows
    goto_rows-IsEntry zero s some_state all = ([], refl, refl, λ k n e h. absurd (omega arith))
    goto_rows-IsEntry (suc left) s some_state all =
        let (row, done, here) = goto_row-IsEntry 26 s 0 some_state (omega arith) refl in
        let (rows, rest, size, more) = goto_rows-IsEntry left (s + 1) (omega arith) (omega arith) in
        (
          row ∷ rows,
          rw (goto_rows, done, rest) refl,
          ap suc size,
          Holds-cons (λ r x. Holds (IsEntry m states r) 0 26 x) s left row rows here more,
        )
