-- ===== src/Counters/Traffic.antt =====
-- benchmarks/trafficcount/prog.bpf.c: packets for each source address.
use honey_potion.Base.{
  ℕ, ◌+◌, ◌*◌, ◌<◌, ◌^◌, ◌≡◌, refl, ap, ◌∙◌, Bool-cases, true, false, some, inl, inr, ◌⊎◌, List, [],
  ◌∷◌, leb, ◌==◌, ==_iff, if◌then◌else◌, ℤ, pos, ◌+ℤ◌, s32, s32-eq, arith,
}
use honey_potion.Bpf.{HashMap, nat_key}
use honey_potion.Bpf.Touch.{touch, lookup-touch_other, lookup-touch_present}
use honey_potion.Packet.{Packet}

-- `struct countentry`
pub record CountEntry : Type 0 where
  pub bytes : ℤ
  pub packets : ℤ

-- `item->packets++`
abbrev pub one_packet : CountEntry → CountEntry
one_packet item = record item { packets = s32 (item.packets +ℤ pos 1) }

abbrev pub new_item : CountEntry
new_item = record { bytes = pos 0; packets = pos 0 }

-- The six bytes of the source address, at offset 6 of the frame, as one number.
abbrev pub h_source : Packet → ℕ
h_source p =
    p.byte 6
    + 256 * (p.byte 7 + 256 * (p.byte 8 + 256 * (p.byte 9 + 256 * (p.byte 10 + 256 * p.byte 11))))

module _ (counts : HashMap nat_key CountEntry) where
  -- `trafficCount`: the address itself is never null.
  unfoldable pub traffic_count : counts.Map → Packet → counts.Map
  unfolding touch
  traffic_count m p =
      if leb p.size (6 + 7) then m else touch counts m (h_source p) one_packet (one_packet new_item)

  unfoldable pub run : counts.Map → List Packet → counts.Map
  unfolding traffic_count
  run m [] = m
  run m (p ∷ ps) = run (traffic_count m p) ps

  -- The number of packets of at least 14 bytes from an address.
  abbrev pub packets_from : ℕ → List Packet → ℕ
  packets_from a [] = 0
  packets_from a (p ∷ ps) =
      (if leb p.size 13 then 0 else if h_source p == a then 1 else 0) + packets_from a ps

  traffic_count-other :
      (m : counts.Map) (p : Packet) (a : ℕ)
      → (leb p.size 13 ≡ true) ⊎ ((h_source p == a) ≡ false)
      → counts.lookup (traffic_count m p) a ≡ counts.lookup m a
  unfolding traffic_count
  traffic_count-other m p a (inl short) = rw (traffic_count, short) refl
  traffic_count-other m p a (inr ne) = elim (Bool-cases (leb p.size 13)) [
    | inl short ↦ rw (traffic_count, short) refl
    | inr long ↦
        rw (traffic_count, long)
          (lookup-touch_other counts m (h_source p) one_packet (one_packet new_item) a ne)
  ]

  counted :
      (b n : ℕ)
      → n + 1 < 2 ^ 31
      → one_packet (record { bytes = pos b; packets = pos n })
        ≡ record { bytes = pos b; packets = pos (n + 1) }
  unfolding ◌+ℤ◌
  counted b n small =
      let exact : pos n +ℤ pos 1 ≡ pos (n + 1) = ground arith in
      ap (λ k. record { bytes = pos b; packets = k })
        (ap s32 exact ∙ s32-eq (pos (n + 1)) (ground arith))

  traffic_count-same :
      (m : counts.Map) (p : Packet) (a b n : ℕ)
      → leb p.size 13 ≡ false
      → (h_source p == a) ≡ true
      → counts.lookup m a ≡ some (record { bytes = pos b; packets = pos n })
      → n + 1 < 2 ^ 31
      → counts.lookup (traffic_count m p) a ≡ some (record { bytes = pos b; packets = pos (n + 1) })
  unfolding traffic_count
  traffic_count-same m p a b n long same found small =
      let at : h_source p ≡ a = (==_iff _ _).0 same in
      rw (traffic_count, long, at)
        (lookup-touch_present counts m a one_packet (one_packet new_item) _ found
          ∙ ap some (counted b n small))

  -- Once an address has an entry, every further packet of at least 14 bytes from it adds one to its
  -- packets, and no other packet changes them, however full the map is; its bytes never change.
  pub run_packets :
      (ps : List Packet) (m : counts.Map) (a b n : ℕ)
      → counts.lookup m a ≡ some (record { bytes = pos b; packets = pos n })
      → n + packets_from a ps < 2 ^ 31
      → counts.lookup (run m ps) a
        ≡ some (record { bytes = pos b; packets = pos (n + packets_from a ps) })
  unfolding run
  run_packets [] m a b n found small =
      found ∙ ap (λ k. some (record { bytes = pos b; packets = pos k })) (omega arith)
  run_packets (p ∷ ps) m a b n found small = elim (Bool-cases (leb p.size 13)) [
    | inl short ↦
        let here : packets_from a (p ∷ ps) ≡ packets_from a ps = rw short (omega arith) in
        run_packets ps (traffic_count m p) a b n (traffic_count-other m p a (inl short) ∙ found)
          (omega arith)
        ∙ ap (λ k. some (record { bytes = pos b; packets = pos k })) (omega arith)
    | inr long ↦ elim (Bool-cases (h_source p == a)) [
      | inl same ↦
          let here : packets_from a (p ∷ ps) ≡ 1 + packets_from a ps =
            rw (long, same) (omega arith) in
          run_packets ps (traffic_count m p) a b (n + 1)
            (traffic_count-same m p a b n long same found (omega arith)) (omega arith)
          ∙ ap (λ k. some (record { bytes = pos b; packets = pos k })) (omega arith)
      | inr ne ↦
          let here : packets_from a (p ∷ ps) ≡ packets_from a ps = rw (long, ne) (omega arith) in
          run_packets ps (traffic_count m p) a b n (traffic_count-other m p a (inr ne) ∙ found)
            (omega arith)
          ∙ ap (λ k. some (record { bytes = pos b; packets = pos k })) (omega arith)
    ]
  ]
