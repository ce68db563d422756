-- ===== src/TrafficView/Scroll.antt =====
-- The view's first row is always an entry of the view.
use honey_potion.Base.{ℕ, ◌<◌, Option, none, some, List, [], ◌∷◌, ℤ, pos, ◌≤ℤ◌, ◌<ℤ◌, ◌-ℤ◌, arith}
use honey_potion.TrafficView.{Key, moved, clamped, pressed, rebuilt, view_count}

-- The position is that of a row, of the view if there is one.
abbrev pub IsRow : Option ℕ → ℤ → Type 0
IsRow none scroll = pos 0 ≤ℤ scroll
IsRow (some count) scroll = (pos 0 ≤ℤ scroll) × (scroll <ℤ pos count)

abbrev pub IsShown : Option ℕ → Type 0
IsShown none = Unit {0}
IsShown (some count) = 0 < count

clamped-IsRow : (view : Option ℕ) (scroll : ℤ) → IsShown view → IsRow view (clamped view scroll)
unfolding clamped ◌-ℤ◌
clamped-IsRow none scroll shown = ground arith
clamped-IsRow (some count) scroll shown = ground arith

-- Whatever the keys and the size of the screen, the position stays that of a row of the view, if
-- the view has one; and after the view is built again, for any number of entries but none, it
-- is a row of the new view.
pub pressed-IsRow :
    (ks : List Key) (lines : ℤ) (view : Option ℕ) (scroll : ℤ) (count : ℕ)
    → IsShown view
    → IsRow view scroll
    → 0 < count
    → IsRow view (pressed lines view scroll ks)
      × IsRow (some (view_count count)) (rebuilt (view_count count) (pressed lines view scroll ks))
unfolding pressed rebuilt ◌-ℤ◌
pressed-IsRow [] lines view scroll count shown row some_entries = (row, ground arith)
pressed-IsRow (k ∷ ks) lines view scroll count shown row some_entries =
    pressed-IsRow ks lines view (clamped view (moved lines view scroll k)) count shown
      (clamped-IsRow view (moved lines view scroll k) shown) some_entries
