-- ===== src/FindString/Tests.antt =====
-- A packet of 3000 letters, of which the automaton looks for one: the scan takes three runs.
use honey_potion.Base.{
  ℕ, ◌≡◌, ◌↔◌, ◌⊎◌, pos, true, Option, none, some, is_some, [], ◌∷◌, ltb, ◌==◌, if◌then◌else◌,
  arith,
}
use honey_potion.Bpf.{HashMap, nat_key}
use honey_potion.Bpf.Table.{table}
use honey_potion.Bpf.Array.{ArrayMap, array}
use honey_potion.Packet.{Packet, IsBytes, IsPlainIpv4}
use honey_potion.FindString.{Row, Word, Progress, State, accepts}
use honey_potion.FindString.Accepts.{IsScanned, IsMisread, accepts_iff}

-- `q` matches word 0; every letter leads back to the initial state.
abbrev rows : ℕ → Row
rows s c = record { next_state = 1; match = if c == 16 then 1 else 0 }

abbrev goto_func : ℕ → Option Row
goto_func s = if ltb s 2 then some (rows s) else none

abbrev words : ArrayMap Word
words = array

abbrev progress : HashMap nat_key Progress
progress = table nat_key 4

abbrev empty : State words progress
empty = record { strings = record { text = 113 ∷ []; number = pos 0 } ∷ []; state_map = [] }

abbrev datagram : ℕ → ℕ
datagram i =
    if i == 12
    then 8
    else if i == 13
    then 0
    else if i == 14
    then 69
    else if i == 23
    then 17
    else if i == 36
    then 11
    else if i == 37
    then 184
    else if i == 38
    then 11
    else if i == 39
    then 192
    else if i == 50
    then 113
    else 97

abbrev packet : Packet
packet = record { size = 3042; byte = datagram }

packet-IsBytes : IsBytes packet
packet-IsBytes i = ground arith

accepts_iff_example :
    ((accepts packet (some 3000) ≡ some true)
      ↔ ((IsPlainIpv4 packet × IsScanned packet 3000) ⊎ IsMisread packet 3000))
    × (is_some (accepts packet (some 3000)) ≡ true)
    × (accepts packet none ≡ some true → ⊥)
    × (is_some (accepts packet none) ≡ true)
accepts_iff_example = accepts_iff packet 3000 packet-IsBytes (omega arith) (omega arith)
