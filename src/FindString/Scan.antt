-- ===== src/FindString/Scan.antt =====
-- A chain of runs does what one scan of the whole payload does.
use honey_potion.Base.{
  ℕ, zero, suc, ◌+◌, ◌-◌, ◌^◌, ◌≤◌, ◌<◌, ◌≡◌, refl, sym, ap, ◌∙◌, true, false, ◌||◌, Bool-cases,
  inl, inr, Option, some, ltb, ◌==◌, ==_iff, if◌then◌else◌, u32, arith,
}
use honey_potion.Packet.{Packet}
use honey_potion.FindString.{Row, advance, scan, maxc, payload_offset}

-- The characters that a packet offers: its bytes from the payload on, at most 65493.
abbrev pub characters : Packet → ℕ
characters p = if ltb (p.size - payload_offset) 65493 then p.size - payload_offset else 65493

-- The automaton after the first `n` characters.
unfoldable pub after : (ℕ → Row) → Packet → ℕ → ℕ × ℕ
after rows p zero = (1, 0)
after rows p (suc n) =
    let before = after rows p n in advance (rows before.0) (p.byte (payload_offset + n)) before

-- `goto_func` has a row for each state from 1 and below `k`, and no row leaves them.
pub record IsClosed (goto_func : ℕ → Option Row) (rows : ℕ → Row) (k : ℕ) : Type 0 where
  pub has_initial : 1 < k
  pub has_row : (s : ℕ) → 0 < s → s < k → goto_func s ≡ some (rows s)
  pub stays :
      (s c : ℕ)
      → 0 < s
      → s < k
      → c < maxc
      → (0 < (rows s c).next_state) × ((rows s c).next_state < k)

module _ (goto_func : ℕ → Option Row) (rows : ℕ → Row) (k : ℕ) (closed : IsClosed goto_func rows k)
    (p : Packet) where
  after-lt : (n : ℕ) → (0 < (after rows p n).0) × ((after rows p n).0 < k)
  unfolding after advance
  after-lt zero = (omega arith, closed.has_initial)
  after-lt (suc n) =
      let before = after rows p n in
      let byte = p.byte (payload_offset + n) in
      let ch = u32 (byte + 2 ^ 32 - 97) in
      ground (arith, after-lt n, closed.has_initial, closed.stays before.0 ch)

  -- One step of the loop at character `n`.
  scan-step :
      (index left i n : ℕ)
      → n ≡ index + i
      → n < characters p
      → scan goto_func p index (suc left) i (after rows p n)
        ≡ scan goto_func p index left (i + 1) (after rows p (suc n))
  unfolding scan after
  scan-step index left i n at within =
      let access : u32 (index + i) ≡ n = ground arith in
      let open_ : (ltb 65492 n || ltb p.size (payload_offset + n + 1)) ≡ false = ground arith in
      let row = closed.has_row (after rows p n).0 (after-lt n).0 (after-lt n).1 in
      let here = after rows p n in
      rw (scan, access, open_, row)
        (ap
          (λ x.
            scan goto_func p index left (i + 1)
              (advance (rows here.0) (p.byte (payload_offset + x)) here))
          access)

  -- The loop stops at the first character that is not offered.
  scan-stop :
      (index left i : ℕ) (ac : ℕ × ℕ)
      → characters p ≡ index + i
      → scan goto_func p index (suc left) i ac ≡ record { index = i; reached_end = true; ac = ac }
  unfolding scan
  scan-stop index left i ac at =
      let access : u32 (index + i) ≡ characters p = ground arith in
      let closed_ : (ltb 65492 (characters p) || ltb p.size (payload_offset + characters p + 1))
          ≡ true =
        ground arith in
      rw (scan, access, closed_) refl

  -- The loop runs out of its steps before the characters end.
  pub scan-partial :
      (left index i n : ℕ)
      → n ≡ index + i
      → n + left ≤ characters p
      → let r = scan goto_func p index left i (after rows p n) in
        (r.index ≡ i + left)
        × (r.reached_end ≡ false)
        × ((m : ℕ) → m ≡ n + left → r.ac ≡ after rows p m)
  unfolding scan
  scan-partial zero index i n at within =
      (omega arith, refl, λ m e. ap (after rows p) (omega arith))
  scan-partial (suc left) index i n at within =
      let rest = scan-partial left index (i + 1) (suc n) (omega arith) (omega arith) in
      rw (scan-step index left i n at (omega arith))
        (rest.0 ∙ omega arith, rest.1, λ m e. rest.2 m (omega arith))

  -- The loop reaches the end of the characters.
  pub scan-total :
      (left index i n : ℕ)
      → n ≡ index + i
      → n ≤ characters p
      → characters p < n + left
      → let r = scan goto_func p index left i (after rows p n) in
        (r.reached_end ≡ true) × (r.ac ≡ after rows p (characters p))
  scan-total zero index i n at within small = absurd (omega arith)
  scan-total (suc left) index i n at within small = elim (Bool-cases (n == characters p)) [
    | inl e ↦
        let same : n ≡ characters p = (==_iff _ _).0 e in
        rw (same, scan-stop index left i (after rows p (characters p)) (sym same ∙ at)) (refl, refl)
    | inr e ↦
        let less : n < characters p = ground arith in
        let rest =
          scan-total left index (i + 1) (suc n) (omega arith) (omega arith) (omega arith) in
        rw (scan-step index left i n at less) rest
  ]
