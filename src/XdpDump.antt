-- ===== src/XdpDump.antt =====
-- benchmarks/xdpdump/prog.bpf.c: describe every packet to user space. A parser gives `none` for an
-- access outside the packet, and `some none` where the source returns false.
pub mod Events
mod Tests
use honey_potion.Base.{
  ℕ, ◌+◌, ◌-◌, ◌%◌, Bool, true, false, Option, none, some, ltb, ◌==◌, if◌then◌else◌, u16,
}
use honey_potion.Packet.{
  Packet, ◌>>=◌, load8, load16, load32, load_bytes, swap16, ethhdr_size, iphdr_size, ipv6hdr_size,
  udphdr_size, tcphdr_size, ipproto_udp, ipproto_tcp,
}

-- `struct pkt_meta`; an address is its bytes, those of IPv4 followed by zeros.
pub record PktMeta : Type 0 where
  pub src : ℕ → ℕ
  pub dst : ℕ → ℕ
  pub source_port : ℕ
  pub dest_port : ℕ
  pub l3_proto : ℕ
  pub l4_proto : ℕ
  pub data_len : ℕ
  pub pkt_len : ℕ
  pub seq : ℕ

abbrev pub no_meta : PktMeta
no_meta = record {
  src = λ i. 0;
  dst = λ i. 0;
  source_port = 0;
  dest_port = 0;
  l3_proto = 0;
  l4_proto = 0;
  data_len = 0;
  pkt_len = 0;
  seq = 0;
}

abbrev pub Parsed : Type 0
Parsed = Option (Option PktMeta)

-- `parse_udp`
unfoldable pub parse_udp : Packet → ℕ → PktMeta → Parsed
parse_udp p off pkt =
    if ltb p.size (off + udphdr_size)
    then some none
    else (load16 p off >>= λ source. load16 p (off + 2) >>= λ dest.
        some (some (record pkt { source_port = source; dest_port = dest })))

-- `parse_tcp`
unfoldable pub parse_tcp : Packet → ℕ → PktMeta → Parsed
parse_tcp p off pkt =
    if ltb p.size (off + tcphdr_size)
    then some none
    else (load16 p off >>= λ source. load16 p (off + 2) >>= λ dest. load32 p (off + 4) >>= λ seq.
        some (some (record pkt { source_port = source; dest_port = dest; seq = seq })))

-- The rest of `parse_ip4` once `ihl` is 5.
unfoldable pub parse_ip4_addresses : Packet → ℕ → PktMeta → Parsed
parse_ip4_addresses p off pkt = load_bytes p (off + 12) 4 >>= λ saddr.
    load_bytes p (off + 16) 4 >>= λ daddr. load8 p (off + 9) >>= λ protocol.
    some (some (record pkt { src = saddr; dst = daddr; l4_proto = protocol }))

-- `parse_ip4`: `ihl` is the low half of the first byte.
unfoldable pub parse_ip4 : Packet → ℕ → PktMeta → Parsed
unfolding parse_ip4_addresses
parse_ip4 p off pkt =
    if ltb p.size (off + iphdr_size)
    then some none
    else (load8 p off >>= λ b. if b % 16 == 5 then parse_ip4_addresses p off pkt else some none)

-- `parse_ip6`
unfoldable pub parse_ip6 : Packet → ℕ → PktMeta → Parsed
parse_ip6 p off pkt =
    if ltb p.size (off + ipv6hdr_size)
    then some none
    else (load_bytes p (off + 8) 16 >>= λ saddr. load_bytes p (off + 24) 16 >>= λ daddr.
        load8 p (off + 6) >>= λ nexthdr.
        some (some (record pkt { src = saddr; dst = daddr; l4_proto = nexthdr })))

-- A parsed header, with the offset of what follows it.
abbrev pub advance : Option PktMeta → ℕ → Option (PktMeta × ℕ)
advance none off = none
advance (some pkt) off = some (pkt, off)

-- The branches on the network protocol, up to the second test of the bounds.
unfoldable pub parse_l3 : Packet → PktMeta → Option (Option (PktMeta × ℕ))
unfolding parse_ip4 parse_ip6
parse_l3 p pkt =
    if pkt.l3_proto == 0x0800
    then (parse_ip4 p ethhdr_size pkt >>= λ r. some (advance r (ethhdr_size + iphdr_size)))
    else if pkt.l3_proto == 0x86dd
    then (parse_ip6 p ethhdr_size pkt >>= λ r. some (advance r (ethhdr_size + ipv6hdr_size)))
    else some (some (pkt, ethhdr_size))

-- The branches on the transport protocol.
unfoldable pub parse_l4 : Packet → ℕ → PktMeta → Option (Option (PktMeta × ℕ))
unfolding parse_tcp parse_udp
parse_l4 p off pkt =
    if pkt.l4_proto == ipproto_tcp
    then (parse_tcp p off pkt >>= λ r. some (advance r (off + tcphdr_size)))
    else if pkt.l4_proto == ipproto_udp
    then (parse_udp p off pkt >>= λ r. some (advance r (off + udphdr_size)))
    else some (some (record pkt { source_port = 0; dest_port = 0 }, off))

-- What is passed to bpf_perf_event_output, after the two lengths are filled in.
abbrev pub emitted : Packet → Option (PktMeta × ℕ) → Option PktMeta
emitted p none = none
emitted p (some (pkt, off)) =
    some (record pkt { pkt_len = u16 p.size; data_len = u16 (p.size - off) })

unfoldable pub after_l3 : Packet → Option (PktMeta × ℕ) → Parsed
unfolding parse_l4
after_l3 p none = some none
after_l3 p (some (pkt, off)) =
    if ltb p.size off then some none else (parse_l4 p off pkt >>= λ r. some (emitted p r))

-- `process_packet`: the event, if one is sent. Every packet passes.
unfoldable pub process_packet : Packet → Parsed
unfolding parse_l3 after_l3
process_packet p =
    if ltb p.size ethhdr_size
    then some none
    else (load16 p 12 >>= λ h_proto.
        parse_l3 p (record no_meta { l3_proto = swap16 h_proto }) >>= λ r. after_l3 p r)
