-- ===== src/Generated/Frames.antt =====
-- What TrafficCounter counts, over any sequence of frames.
use honey_potion.Base.{
  ◌+◌, ◌≤◌, ◌<◌, ◌^◌, ℕ, suc, ◌≡◌, ap, ◌∙◌, Bool-cases, inl, inr, List, [], ◌∷◌, length, ℤ, pos,
  ◌+ℤ◌, beq_ℤ, ltb, if◌then◌else◌, s32, s32-eq, arith,
}
use honey_potion.Bpf.{HashMap}
use honey_potion.Packet.{Packet}
use honey_potion.Runtime.Values.{Generic, int}
use honey_potion.Generated.Machine.{State, main, boot, catch, all_found}
use honey_potion.Generated.Access.{int_key, value_or_zero}
use honey_potion.Generated.Counts.{traffic_counter_main, traffic_user, source_key}
use honey_potion.Generated.Tallies.{int_successor}

module _ (counts : HashMap int_key Generic) where
  open counts use {Map, lookup, update, size, max_entries}

  unfoldable pub run : State Map → List Packet → State Map
  unfolding traffic_counter_main
  run s [] = s
  run s (p ∷ ps) = run (traffic_counter_main counts all_found p s).1 ps

  abbrev pub frames_from : ℤ → List Packet → ℕ
  frames_from a [] = 0
  frames_from a (p ∷ ps) =
      (if ltb p.size 14 then 0 else if beq_ℤ (source_key p) a then 1 else 0) + frames_from a ps

  abbrev one_more : Map → Packet → Generic
  one_more m p = int (s32 (value_or_zero (lookup m (source_key p)) +ℤ pos 1))

  abbrev pub counted : Map → Packet → Map
  counted m p = if ltb p.size 14 then m else update m (source_key p) (one_more m p)

  -- A frame with a whole Ethernet header passes and is counted under the first four bytes of its
  -- source address; a shorter one is aborted and not counted. The test for the end of the address
  -- field never fires, and nothing is printed.
  pub traffic_counter_main-counted :
      (s : State Map) (p : Packet)
      → let r = traffic_counter_main counts all_found p s in
        (r.0 ≡ pos (if ltb p.size 14 then 0 else 2))
        × (r.1.maps ≡ counted s.maps p)
        × (r.1.output ≡ s.output)
  unfolding traffic_counter_main traffic_user main boot catch
  traffic_counter_main-counted s p = elim (Bool-cases (ltb p.size 14)) [
    | inl short ↦ ground (arith, short)
    | inr long ↦ ground (arith, long)
  ]

  lookup-counted :
      (m : Map) (p : Packet) (a : ℤ) (n k : ℕ)
      → size m + suc k ≤ max_entries
      → value_or_zero (lookup m a) ≡ pos n
      → n + frames_from a (p ∷ []) < 2 ^ 31
      → (value_or_zero (lookup (counted m p) a) ≡ pos (n + frames_from a (p ∷ [])))
        × (size (counted m p) + k ≤ max_entries)
  unfolding value_or_zero
  lookup-counted m p a n k room e small =
      let updated = counts.lookup-update m (source_key p) (one_more m p) a in
      let key = int_key.beq_iff (source_key p) a in
      let sized = counts.size-update m (source_key p) (one_more m p) in
      elim (Bool-cases (ltb (n + 1) (2 ^ 31))) [
        | inl fits ↦
            let below : n + 1 < 2 ^ 31 = ground (arith, fits) in
            ground (
              arith,
              updated,
              key,
              sized,
              int_successor n below,
              s32-eq (pos (n + 1)) (ground (arith, below)),
              e,
            )
        | inr full ↦ ground (arith, updated, key, sized, full, e)
      ]

  -- Over any sequence of frames for which the map has room, the count of every key grows by the
  -- frames with a whole header whose source address starts with its four bytes, as long as it
  -- fits an `int`.
  pub run-frames :
      (ps : List Packet) (s : State Map) (a : ℤ) (n : ℕ)
      → size s.maps + length ps ≤ max_entries
      → value_or_zero (lookup s.maps a) ≡ pos n
      → n + frames_from a ps < 2 ^ 31
      → value_or_zero (lookup (run s ps).maps a) ≡ pos (n + frames_from a ps)
  unfolding run
  run-frames [] s a n room e small = e ∙ ap pos (omega arith)
  run-frames (p ∷ ps) s a n room e small =
      let t = (traffic_counter_main counts all_found p s).1 in
      let same = (traffic_counter_main-counted s p).1 in
      let one = frames_from a (p ∷ []) in
      let split : frames_from a (p ∷ ps) ≡ one + frames_from a ps = omega arith in
      let step = lookup-counted s.maps p a n (length ps) room e (omega arith) in
      run-frames ps t a (n + one) (rw same step.1)
        (ap (λ m. value_or_zero (lookup m a)) same ∙ step.0) (omega arith)
      ∙ ap pos (omega arith)
