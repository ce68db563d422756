-- ===== src/XdpDump/Events.antt =====
-- What an event says of its packet.
use honey_potion.Base.{
  ℕ, Bool-cases, inl, inr, refl, true, ltb, ◌+◌, ◌-◌, ◌*◌, ◌%◌, ◌<◌, ◌≤◌, ◌≡◌, Option, none, some,
  ◌==◌, if◌then◌else◌, u16, arith,
}
use honey_potion.Packet.{Packet, IsBytes, be16, swap16, ◌>>=◌}
use honey_potion.XdpDump.{
  PktMeta, Parsed, no_meta, process_packet, parse_l3, after_l3, parse_l4, parse_tcp, parse_udp,
  parse_ip4, parse_ip4_addresses, parse_ip6,
}

-- The size of the network header, the number of the transport protocol, and the size of the
-- transport header, by the bytes of the packet.
abbrev pub l3_size : Packet → ℕ
l3_size p = if be16 p 12 == 0x0800 then 20 else if be16 p 12 == 0x86dd then 40 else 0

abbrev pub transport : Packet → ℕ
transport p =
    if be16 p 12 == 0x0800 then p.byte 23 else if be16 p 12 == 0x86dd then p.byte 20 else 0

abbrev pub l4_size : ℕ → ℕ
l4_size protocol = if protocol == 6 then 20 else if protocol == 17 then 8 else 0

abbrev pub headers : Packet → ℕ
headers p = 14 + l3_size p + l4_size (transport p)

-- All headers lie in the packet, and that of IPv4 has no options.
abbrev pub IsComplete : Packet → Type 0
IsComplete p =
    (14 ≤ p.size)
    × (14 + l3_size p ≤ p.size)
    × (headers p ≤ p.size)
    × ((be16 p 12 ≡ 0x0800) → p.byte 14 % 16 ≡ 5)

-- The ports of TCP and UDP, which the event keeps in network order, and zeros for the rest.
abbrev pub HasPorts : Packet → PktMeta → Type 0
HasPorts p e =
    (swap16 e.source_port ≡ (if l4_size (transport p) == 0 then 0 else be16 p (14 + l3_size p)))
    × (swap16 e.dest_port ≡ (if l4_size (transport p) == 0 then 0 else be16 p (14 + l3_size p + 2)))

abbrev pub Describes : Packet → Parsed → Type 0
Describes p none = ⊥
Describes p (some none) = ¬ IsComplete p
Describes p (some (some e)) =
    IsComplete p
    × (e.l3_proto ≡ be16 p 12)
    × (e.l4_proto ≡ transport p)
    × HasPorts p e
    × (e.pkt_len ≡ u16 p.size)
    × (e.data_len ≡ u16 (p.size - headers p))

-- The network header alone.
abbrev IsL3Complete : Packet → Type 0
IsL3Complete p = (14 + l3_size p ≤ p.size) × ((be16 p 12 ≡ 0x0800) → p.byte 14 % 16 ≡ 5)

abbrev L3Describes : Packet → Option (Option (PktMeta × ℕ)) → Type 0
L3Describes p none = ⊥
L3Describes p (some none) = ¬ IsL3Complete p
L3Describes p (some (some (e, off))) =
    IsL3Complete p × (off ≡ 14 + l3_size p) × (e.l3_proto ≡ be16 p 12) × (e.l4_proto ≡ transport p)

parse_l3-Describes :
    (p : Packet) (e : PktMeta)
    → 14 ≤ p.size
    → e.l3_proto ≡ be16 p 12
    → e.l4_proto ≡ 0
    → L3Describes p (parse_l3 p e)
unfolding parse_l3 parse_ip4 parse_ip4_addresses parse_ip6
parse_l3-Describes p e fits l3 l4 = ground arith

abbrev L4Describes : Packet → PktMeta → ℕ → Option (Option (PktMeta × ℕ)) → Type 0
L4Describes p e off none = ⊥
L4Describes p e off (some none) = p.size < off + l4_size e.l4_proto
L4Describes p e off (some (some (f, end))) =
    (off + l4_size e.l4_proto ≤ p.size)
    × (end ≡ off + l4_size e.l4_proto)
    × (f.l3_proto ≡ e.l3_proto)
    × (f.l4_proto ≡ e.l4_proto)
    × (swap16 f.source_port ≡ (if l4_size e.l4_proto == 0 then 0 else be16 p off))
    × (swap16 f.dest_port ≡ (if l4_size e.l4_proto == 0 then 0 else be16 p (off + 2)))

parse_l4-Describes :
    (p : Packet) (e : PktMeta) (off : ℕ)
    → IsBytes p
    → off ≤ p.size
    → L4Describes p e off (parse_l4 p off e)
unfolding parse_l4 parse_tcp parse_udp
parse_l4-Describes p e off bytes fits =
    ground (arith, bytes off, bytes (off + 1), bytes (off + 2), bytes (off + 3))

-- The end of the program, by what the network header gave.
after_l3-Describes :
    (p : Packet) (r : Option (PktMeta × ℕ))
    → IsBytes p
    → 14 ≤ p.size
    → L3Describes p (some r)
    → Describes p (after_l3 p r)
unfolding after_l3
after_l3-Describes p none bytes fits d = λ c. d (c.1, c.3)
after_l3-Describes p (some (e, off)) bytes fits d =
    let within : off ≤ p.size = omega arith in
    let l4 = parse_l4-Describes p e off bytes within in ground arith

joined-Describes :
    (p : Packet) (r : Option (Option (PktMeta × ℕ)))
    → IsBytes p
    → 14 ≤ p.size
    → L3Describes p r
    → Describes p (r >>= λ h. after_l3 p h)
joined-Describes p none bytes fits d = d
joined-Describes p (some r) bytes fits d = after_l3-Describes p r bytes fits d

process_packet-eq :
    (p : Packet)
    → process_packet p ≡ (
        if ltb p.size 14
        then some none
        else (parse_l3 p (record no_meta { l3_proto = swap16 (p.byte 12 + 256 * p.byte 13) })
            >>= λ h. after_l3 p h))
unfolding process_packet
process_packet-eq p = elim (Bool-cases (ltb p.size 14)) [
  | inl small ↦ rw (process_packet, small) refl
  | inr large ↦
      let reads : ltb 13 p.size ≡ true = ground arith in rw (process_packet, large, reads) refl
]

-- No access lies outside the packet. An event is sent exactly when all headers lie in the packet
-- and an IPv4 header has no options; it holds the two protocols, the ports, the length of the
-- packet and that of the payload, both modulo 2^16.
pub process_packet-Describes : (p : Packet) → IsBytes p → Describes p (process_packet p)
process_packet-Describes p bytes = elim (Bool-cases (ltb p.size 14)) [
  | inl small ↦ rw (process_packet-eq p, small) (λ c. absurd (ground arith))
  | inr large ↦
      let fits : 14 ≤ p.size = ground arith in
      let proto : swap16 (p.byte 12 + 256 * p.byte 13) ≡ be16 p 12 =
        omega (arith, bytes 12, bytes 13) in
      let e = record no_meta { l3_proto = swap16 (p.byte 12 + 256 * p.byte 13) } in
      rw (process_packet-eq p, large)
        (joined-Describes p (parse_l3 p e) bytes fits (parse_l3-Describes p e fits proto refl))
]
