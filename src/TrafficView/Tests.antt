-- ===== src/TrafficView/Tests.antt =====
-- One connection read three times, and a page down and up on a screen of ten rows.
use honey_potion.Base.{ℕ, pos, some, List, [], ◌∷◌, arith}
use honey_potion.NetworkMonitor.{TrafficKey, TrafficStats}
use honey_potion.TrafficView.{Key, key_npage, key_ppage, key_down, pressed, rebuilt, view_count}
use honey_potion.TrafficView.Scroll.{IsRow, pressed-IsRow}

abbrev key : TrafficKey
key = record { pid = 7; protocol = 17; port = 53; ip = 1 }

abbrev reading : ℕ → TrafficStats
reading n = record {
  bytes_sent = n;
  bytes_recv = 2;
  packets_sent = 1;
  packets_recv = 1;
  last_update_ns = n;
}

abbrev keys : List Key
keys = key_npage ∷ key_down ∷ key_ppage ∷ key_ppage ∷ []

pressed-IsRow_example :
    IsRow (some 3) (pressed (pos 10) (some 3) (pos 0) keys)
    × IsRow
        (some (view_count 70))
        (rebuilt (view_count 70) (pressed (pos 10) (some 3) (pos 0) keys))
pressed-IsRow_example =
    pressed-IsRow keys (pos 10) (some 3) (pos 0) 70 (omega arith) (omega arith, omega arith)
      (omega arith)
