-- ===== src/MemoryView/Status.antt =====
-- What is taken from /proc/<pid>/status.
use honey_potion.Base.{
  ℕ, ◌≡◌, refl, ap, ◌∙◌, true, false, none, some, List, [], ◌∷◌, ◌++◌, ◌||◌, ◌==◌, arith,
}
use honey_potion.MemoryView.{
  Usage, after_prefix, skip_blanks, number_in, read_line, read_lines, get_real_memory_usage, vm_rss,
}

-- A line of a field: its name, blanks, and a text that begins with something else.
abbrev pub AreBlank : List ℕ → Type 0
AreBlank [] = Unit {0}
AreBlank (c ∷ cs) = ((c == 32 || c == 9) ≡ true) × AreBlank cs

skip_blanks-append :
    (blanks text : List ℕ) (c : ℕ)
    → AreBlank blanks
    → (c == 32 || c == 9) ≡ false
    → skip_blanks (blanks ++ (c ∷ text)) ≡ c ∷ text
unfolding skip_blanks
skip_blanks-append [] text c h other = rw other refl
skip_blanks-append (b ∷ blanks) text c (h, hs) other =
    rw h (skip_blanks-append blanks text c hs other)

-- No line begins with the field's name.
abbrev pub NoneHas : List ℕ → List (List ℕ) → Type 0
NoneHas prefix [] = Unit {0}
NoneHas prefix (l ∷ ls) = (after_prefix prefix l ≡ none) × NoneHas prefix ls

module _ (strtoul : List ℕ → ℕ) where
  read_lines-append :
      (before after : List (List ℕ)) (u : Usage)
      → read_lines strtoul u (before ++ after)
        ≡ read_lines strtoul (read_lines strtoul u before) after
  unfolding read_lines
  read_lines-append [] after u = refl
  read_lines-append (l ∷ before) after u = read_lines-append before after (read_line strtoul u l)

  rss-kept :
      (after : List (List ℕ)) (u : Usage)
      → NoneHas vm_rss after
      → (read_lines strtoul u after).rss_kb ≡ u.rss_kb
  unfolding read_lines read_line
  rss-kept [] u h = refl
  rss-kept (l ∷ after) u (h, hs) = rss-kept after (read_line strtoul u l) hs ∙ ground (arith, h)

  rss-read :
      (u : Usage) (value : List ℕ) (c : ℕ) (text : List ℕ)
      → skip_blanks value ≡ c ∷ text
      → (read_line strtoul u (vm_rss ++ value)).rss_kb ≡ strtoul (c ∷ text)
  unfolding read_line number_in after_prefix
  rss-read u value c text e = ap (λ t. number_in strtoul t u.rss_kb) e

  -- Where the file can be read, the resident memory is what `strtoul` reads after the name VmRSS
  -- and its blanks in the last line of that field, whatever stands in the lines before it.
  get_real_memory_usage-last :
      (before after : List (List ℕ)) (blanks text : List ℕ) (c : ℕ)
      → AreBlank blanks
      → (c == 32 || c == 9) ≡ false
      → NoneHas vm_rss after
      → let line = vm_rss ++ (blanks ++ (c ∷ text)) in
        (get_real_memory_usage strtoul (some (before ++ (line ∷ after)))).rss_kb
        ≡ strtoul (c ∷ text)
  unfolding get_real_memory_usage read_lines read_line number_in
  get_real_memory_usage-last before after blanks text c h other none_after =
      let line = vm_rss ++ (blanks ++ (c ∷ text)) in
      let zeros : Usage = record { rss_kb = 0; virtual_kb = 0; peak_rss_kb = 0 } in
      let u = read_lines strtoul zeros before in
      ap (λ (x : Usage). x.rss_kb) (read_lines-append before (line ∷ after) zeros)
      ∙ (rss-kept after (read_line strtoul u line) none_after
          ∙ rss-read u (blanks ++ (c ∷ text)) c text (skip_blanks-append blanks text c h other))
