-- ===== src/FindString/Judged.antt =====
-- The verdict on a packet, and the counts, by the words that end somewhere in it.
use honey_potion.Base.{ℕ, ◌≡◌, ◌≢◌, ◌&&◌, none, ltb, if◌then◌else◌}
use honey_potion.Bpf.{HashMap, nat_key}
use honey_potion.Bpf.Array.{ArrayMap}
use honey_potion.Packet.{Packet, IsBytes, Action, xdp_pass, xdp_drop}
use honey_potion.FindString.{Row, Word, Progress, State, map_strings_size}
use honey_potion.FindString.Scan.{characters, after}
use honey_potion.FindString.Matches.{is_seen, is_any_seen, one_more}

module _ (words : ArrayMap Word) (progress : HashMap nat_key Progress) where
  -- The packet is dropped if a match ends at one of its characters. The number of each word that
  -- ends at one is one larger, and no other entry of the words changes. The state of the scan is
  -- gone, and those of other packets are what they were.
  pub record IsJudged (rows : ℕ → Row) (p : Packet) (ctx : ℕ) (s : State words progress)
      (r : Action × State words progress) : Type 0 where
    pub action : r.0 ≡ (if is_any_seen rows p (characters p) then xdp_drop else xdp_pass)
    pub counted :
        (j : ℕ)
        → words.lookup r.1.strings j ≡ (
            if ltb j map_strings_size && is_seen rows p j (characters p)
            then one_more (words.lookup s.strings j)
            else words.lookup s.strings j)
    pub forgotten : progress.lookup r.1.state_map ctx ≡ none
    pub others : (j : ℕ) → j ≢ ctx → progress.lookup r.1.state_map j ≡ progress.lookup s.state_map j

  module _ (rows : ℕ → Row) (p : Packet) (bytes : IsBytes p) where
    abbrev matches : ℕ
    matches = (after rows p (characters p)).1
