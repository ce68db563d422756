-- ===== src/FindString/Queue/Window.antt =====
-- The items of a ring from a place on.
use Prim.Native.Nat.{zero, suc}
use native.Mathlib.Nat.{mod-add-mod, mod-eq_of_lt, mod-eq-sub-mod}
use mathlib.Core.Path.{ap₂}
use native.Mathlib.Decide.{dec_lt}
use honey_potion.Base.{
  ℕ, ◌+◌, ◌-◌, ◌%◌, ◌<◌, ◌≡◌, ◌≢◌, refl, sym, ap, ◌∙◌, List, [], ◌∷◌, ◌++◌, length, ◌==◌,
  if◌then◌else◌, arith,
}

abbrev pub last_or : List ℕ → ℕ → ℕ
last_or [] d = d
last_or (x ∷ xs) d = last_or xs x

-- The `n` items from the place `h` on.
abbrev pub window : (ℕ → ℕ) → ℕ → ℕ → ℕ → List ℕ
window a c h zero = []
window a c h (suc n) = a h ∷ window a c ((h + 1) % c) n

pub length-window : (a : ℕ → ℕ) (c h n : ℕ) → length (window a c h n) ≡ n
length-window a c h zero = refl
length-window a c h (suc n) = ap suc (length-window a c ((h + 1) % c) n)

-- Going round from `h` by fewer than `c` steps does not come back.
around_ne : (c h k : ℕ) → h < c → suc k < c → (h + suc k) % c ≢ h
around_ne c h k hh hk = elim (dec_lt (h + suc k) c) [
  | yes p ↦ omega (arith, mod-eq_of_lt p)
  | no p ↦ omega (
    arith,
    mod-eq-sub-mod {n = h + suc k} {m = c} (omega arith),
    mod-eq_of_lt {n = h + suc k - c} {m = c} (omega arith),
  )
]

pub shifted : (c h n : ℕ) → ((h + 1) % c + n) % c ≡ (h + suc n) % c
shifted c h n = rw mod-add-mod (ap (λ k. k % c) (omega arith))

abbrev pub written : (ℕ → ℕ) → ℕ → ℕ → ℕ → ℕ
written a p x i = if i == p then x else a i

pub past : (c n : ℕ) → 0 < c → (n + 1 + (c - 1)) % c ≡ n % c
past c n h =
    ap (λ k. k % c) {x = n + 1 + (c - 1)} {y = n + c} (omega arith)
    ∙ (mod-eq-sub-mod {n = n + c} {m = c} (omega arith) ∙ ap (λ k. k % c) (omega arith))

pub window-written :
    (a : ℕ → ℕ) (c x n h p : ℕ)
    → h < c
    → n < c
    → p ≡ (h + n) % c
    → window (written a p x) c h (suc n) ≡ window a c h n ++ x ∷ []
window-written a c x zero h p hh hn e =
    let same : p ≡ h = e ∙ (ap (λ k. k % c) (omega arith) ∙ mod-eq_of_lt hh) in
    ap (λ y. y ∷ []) (ground (arith, same))
window-written a c x (suc n) h p hh hn e =
    let other : p ≢ h = rw e (around_ne c h n hh hn) in
    let next : (h + 1) % c < c = omega arith in
    ap₂ ◌∷◌ (ground (arith, other))
      (window-written a c x n ((h + 1) % c) p next (omega arith) (e ∙ sym (shifted c h n)))

pub last_or-window :
    (a : ℕ → ℕ) (c n h d : ℕ) → h < c → last_or (window a c h (suc n)) d ≡ a ((h + n) % c)
last_or-window a c zero h d hh = ap a (sym (mod-eq_of_lt hh) ∙ ap (λ k. k % c) (omega arith))
last_or-window a c (suc n) h d hh =
    last_or-window a c n ((h + 1) % c) (a h) (omega arith) ∙ ap a (shifted c h n)
