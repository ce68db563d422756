-- ===== src/DropUdp.antt =====
-- benchmarks/dropudp/prog.bpf.c: drop the UDP packets to port 3000, and redirect those to port
-- 3001 to it.
pub mod Ports
mod Tests
use honey_potion.Base.{ℕ, ◌+◌, ℤ, pos, add_long, Option, none, some, ltb, ◌==◌, if◌then◌else◌}
use honey_potion.Bpf.Array.{ArrayMap}
use honey_potion.Packet.{
  Packet, Action, xdp_aborted, xdp_drop, xdp_pass, ◌>>=◌, load8, load16, store16, swap16,
  ethhdr_size, iphdr_size, ipv6hdr_size, udphdr_size, ipproto_udp,
}

-- `editDestPortUDP`
unfoldable pub edit_dest_port_udp : Packet → ℕ → ℕ → Option Packet
edit_dest_port_udp p nh_off port =
    if ltb p.size (nh_off + udphdr_size) then some p else store16 p (nh_off + 2) (swap16 port)

-- `getDestPortUDP`
unfoldable pub get_dest_port_udp : Packet → ℕ → Option ℕ
get_dest_port_udp p nh_off =
    if ltb p.size (nh_off + udphdr_size) then some 0 else load16 p (nh_off + 2)

-- The protocol, and the offset of what follows.
abbrev pub Header : Type 0
Header = ℕ × ℕ

-- `getProtocolIPv4`
unfoldable pub get_protocol_ipv4 : Packet → ℕ → Option Header
get_protocol_ipv4 p nh_off =
    if ltb p.size (nh_off + iphdr_size)
    then some (0, nh_off)
    else (load8 p (nh_off + 9) >>= λ protocol. some (protocol, nh_off + iphdr_size))

-- `getProtocolIPv6`
unfoldable pub get_protocol_ipv6 : Packet → ℕ → Option Header
get_protocol_ipv6 p nh_off =
    if ltb p.size (nh_off + ipv6hdr_size)
    then some (0, nh_off)
    else (load8 p (nh_off + 6) >>= λ nexthdr. some (nexthdr, nh_off + ipv6hdr_size))

module _ (counts : ArrayMap ℤ) where
  open counts use {Map, lookup, store}

  -- What the program does to the packet and the map, and the verdict.
  pub record Outcome : Type 0 where
    pub action : Action
    pub packet : Packet
    pub map : Map

  abbrev pub outcome : Action → Packet → Map → Option Outcome
  outcome action packet map = some (record { action = action; packet = packet; map = map })

  -- `if (value) *value += 1`
  abbrev pub increment : Map → ℕ → Option ℤ → Map
  increment m index none = m
  increment m index (some value) = store m index (add_long value (pos 1))

  -- The branches on the destination port of a UDP packet.
  unfoldable pub filter_port : Packet → Map → ℕ → ℕ → Option Outcome
  unfolding edit_dest_port_udp
  filter_port p m nh_off dest_port =
      if dest_port == 3000
      then outcome xdp_drop p (increment m dest_port (lookup m dest_port))
      else if dest_port == 3001
      then (edit_dest_port_udp p nh_off 3000 >>= λ q. outcome xdp_pass q m)
      else outcome xdp_pass p m

  -- What follows the IP header.
  unfoldable pub filter_protocol : Packet → Map → Header → Option Outcome
  unfolding get_dest_port_udp filter_port
  filter_protocol p m (ipproto, nh_off) =
      if ipproto == ipproto_udp
      then (get_dest_port_udp p nh_off >>= λ dest. filter_port p m nh_off (swap16 dest))
      else outcome xdp_pass p m

  -- The branches on the type of the frame.
  unfoldable pub filter_frame : Packet → Map → ℕ → Option Outcome
  unfolding get_protocol_ipv4 get_protocol_ipv6 filter_protocol
  filter_frame p m h_proto =
      if h_proto == swap16 0x0800
      then (get_protocol_ipv4 p ethhdr_size >>= λ h. filter_protocol p m h)
      else if h_proto == swap16 0x86dd
      then (get_protocol_ipv6 p ethhdr_size >>= λ h. filter_protocol p m h)
      else outcome xdp_pass p m

  -- `dropXDP`
  unfoldable pub drop_xdp : Packet → Map → Option Outcome
  unfolding filter_frame
  drop_xdp p m =
      if ltb p.size ethhdr_size
      then outcome xdp_aborted p m
      else (load16 p 12 >>= λ h_proto. filter_frame p m h_proto)
