-- ===== src/Monitor/Reading.antt =====
-- What a pass over the map leaves in the list.
use honey_potion.Base.{
  ℕ, ◌-◌, leb, zero, suc, ◌<◌, ◌≤◌, ◌≡◌, refl, sym, ap, ◌∙◌, Bool, ◌&&◌, ◌||◌, is_some, true, false,
  Bool-cases, Option-cases, inl, inr, Option, none, some, List, [], ◌∷◌, length, if◌then◌else◌,
  arith,
}
use honey_potion.Bpf.{Key}
use honey_potion.Monitor.{Kind, find, change, find_or_add, visit, read_from, read_all}

-- `next` is the map's order: the keys, one after the other, that follow `k`.
abbrev pub Follows : {K : Type 0} → (Option K → Option K) → Option K → List K → Type 0
Follows next k [] = next k ≡ none
Follows next k (j ∷ js) = (next k ≡ some j) × Follows next (some j) js

abbrev pub visits : {K S : Type 0} → (S → K → S) → S → List K → S
visits visit s [] = s
visits visit s (k ∷ ks) = visits visit (visit s k) ks

read_from-visits :
    {K S : Type 0} (next : Option K → Option K) (visit : S → K → S) (ks : List K) (fuel : ℕ) (s : S)
    (k : K)
    → Follows next (some k) ks
    → length ks < fuel
    → read_from next visit fuel s k ≡ some (visits visit s (k ∷ ks))
unfolding read_from
read_from-visits next visit ks zero s k f h = absurd (omega arith)
read_from-visits next visit [] (suc fuel) s k f h = rw (read_from, f) refl
read_from-visits next visit (j ∷ ks) (suc fuel) s k (f, fs) h =
    rw (read_from, f) (read_from-visits next visit ks fuel (visit s k) j fs (omega arith))

-- As much fuel as there are keys is enough, and every key is visited, in the map's order.
pub read_all-visits :
    {K S : Type 0} (next : Option K → Option K) (visit : S → K → S) (ks : List K) (fuel : ℕ) (s : S)
    → Follows next none ks
    → length ks ≤ fuel
    → read_all next visit fuel s ≡ some (visits visit s ks)
unfolding read_all
read_all-visits next visit [] fuel s f h = rw (read_all, f) refl
read_all-visits next visit (k ∷ ks) fuel s (f, fs) h =
    rw (read_all, f) (read_from-visits next visit ks fuel s k fs (omega arith))

abbrev pub or_new : {K E : Type 0} → Kind K E → K → Option E → E
or_new kind k none = kind.new k
or_new kind k (some e) = e

abbrev pub applied : {E : Type 0} → (E → E) → Option E → Option E
applied f none = none
applied f (some e) = some (f e)

-- Two tests against equal keys.
module _ {K E : Type 0} (kind : Kind K E) where
  beq-same : (a b c : K) → kind.key.beq a b ≡ true → kind.key.beq a c ≡ kind.key.beq b c
  beq-same a b c h = ap (λ x. kind.key.beq x c) ((kind.key.beq_iff a b).0 h)

  beq-other :
      (a b c : K) → kind.key.beq a b ≡ false → kind.key.beq a c ≡ true → kind.key.beq b c ≡ false
  beq-other a b c h g = elim (Bool-cases (kind.key.beq b c)) [
    | inl e ↦
        let same : b ≡ a = (kind.key.beq_iff b c).0 e ∙ sym ((kind.key.beq_iff a c).0 g) in
        absurd (ground (arith, h, (kind.key.beq_iff a b).1 (sym same)))
    | inr e ↦ e
  ]

  module _ (f : E → E) (keep : (e : E) → kind.key_of (f e) ≡ kind.key_of e) where
    find-change :
        (es : List E) (k j : K)
        → find kind (change kind f es k) j
          ≡ (if kind.key.beq k j then applied f (find kind es j) else find kind es j)
    unfolding find change
    find-change [] k j = ground arith
    find-change (e ∷ es) k j = elim (Bool-cases (kind.key.beq (kind.key_of e) k)) [
      | inl same ↦
          let now = beq-same (kind.key_of e) k j same in rw (same, keep e, now) (ground arith)
      | inr other ↦ elim (Bool-cases (kind.key.beq (kind.key_of e) j)) [
        | inl here ↦
            let not_k = beq-other (kind.key_of e) k j other here in rw (other, here, not_k) refl
        | inr away ↦ rw (other, away) (find-change es k j)
      ]
    ]

    pub find-find_or_add :
        (new_key : (k : K) → kind.key_of (kind.new k) ≡ k) (es : List E) (k j : K)
        → find kind (find_or_add kind f es k) j
          ≡ (if kind.key.beq k j then some (f (or_new kind k (find kind es k))) else find kind es j)
    unfolding find find_or_add
    find-find_or_add new_key es k j = elim (Option-cases (find kind es k)) [
      | inl e ↦ rw (find_or_add, e) (rw (keep (kind.new k), new_key k) refl)
      | inr (x, e) ↦
          rw (find_or_add, e)
            (find-change es k j ∙ elim (Bool-cases (kind.key.beq k j)) [
              | inl same ↦ let at : k ≡ j = (kind.key.beq_iff k j).0 same in rw (same, ← at, e) refl
              | inr other ↦ rw other refl
            ])
    ]

join :
    {A : Type 0} (x y : A) (a b c : Bool)
    → (if a && c then x else if b && c then x else y) ≡ (if (b || a) && c then x else y)
join x y true true c = ground arith
join x y true false c = ground arith
join x y false true c = ground arith
join x y false false c = ground arith

abbrev pub contains : {K : Type 0} → Key K → List K → K → Bool
contains key [] j = false
contains key (k ∷ ks) j = key.beq k j || contains key ks j

abbrev pub shown_of : {E V : Type 0} → (E → V) → Option E → Option V
shown_of shown none = none
shown_of shown (some e) = some (shown e)

pub from_shown :
    {E V : Type 0} (shown : E → V) (x : Option E) (v : V)
    → shown_of shown x ≡ some v
    → (e : E) × (x ≡ some e) × (shown e ≡ v)
from_shown shown x v h = elim (Option-cases x) [
  | inl e ↦ absurd (cc (h, e))
  | inr (y, e) ↦ (y, e, cc (h, ap (shown_of shown) e))
]

-- The growth of a counter, 0 where it has fallen.
pub monus : (a b : ℕ) → (if leb a b then b - a else 0) ≡ b - a
monus a b = ground arith

-- Entries that show what they took over from the map, in a list that is read for the keys `ks`.
module _ {K E V : Type 0} (kind : Kind K E) (new_key : (k : K) → kind.key_of (kind.new k) ≡ k)
    (lookup : K → Option V) (refresh : V → E → E)
    (keep : (v : V) (e : E) → kind.key_of (refresh v e) ≡ kind.key_of e) (shown : E → V)
    (shows : (v : V) (e : E) → shown (refresh v e) ≡ v) where
  visit-shown :
      (es : List E) (k j : K)
      → shown_of shown (find kind (visit kind lookup refresh es k) j) ≡ (
          if kind.key.beq k j && is_some (lookup j)
          then lookup j
          else shown_of shown (find kind es j))
  unfolding visit
  visit-shown es k j = elim (Option-cases (lookup k)) [
    | inl e ↦
        rw (visit, e)
          (elim (Bool-cases (kind.key.beq k j)) [
            | inl same ↦
                let at : lookup j ≡ none = ap lookup (sym ((kind.key.beq_iff k j).0 same)) ∙ e in
                rw (same, at) refl
            | inr other ↦ rw other refl
          ])
    | inr (v, e) ↦
        rw (visit, e)
          (ap (shown_of shown) (find-find_or_add kind (refresh v) (keep v) new_key es k j)
            ∙ elim (Bool-cases (kind.key.beq k j)) [
              | inl same ↦
                  let at : lookup j ≡ some v =
                    ap lookup (sym ((kind.key.beq_iff k j).0 same)) ∙ e in
                  rw (same, at) (ap some (shows v (or_new kind k (find kind es k))))
              | inr other ↦ rw other refl
            ])
  ]

  pub visits-shown :
      (ks : List K) (es : List E) (j : K)
      → shown_of shown (find kind (visits (visit kind lookup refresh) es ks) j) ≡ (
          if contains kind.key ks j && is_some (lookup j)
          then lookup j
          else shown_of shown (find kind es j))
  visits-shown [] es j = refl
  visits-shown (k ∷ ks) es j =
      visits-shown ks (visit kind lookup refresh es k) j
      ∙ (rw (visit-shown es k j)
          (join _ _ (contains kind.key ks j) (kind.key.beq k j) (is_some (lookup j))))
