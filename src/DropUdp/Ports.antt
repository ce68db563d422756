-- ===== src/DropUdp/Ports.antt =====
-- Which packets are dropped, which are redirected, and what is counted.
use mathlib.Core.Path.{subst}
use honey_potion.Base.{
  ℕ, ◌+◌, ◌≤◌, ◌≡◌, ◌≢◌, ◌↔◌, ◌⊎◌, ℤ, Option, none, some, is_some, true, arith, inl, inr,
  if◌then◌else◌, ◌==◌, sym,
}
use honey_potion.Bpf.Array.{ArrayMap}
use honey_potion.Packet.{Packet, Action, xdp_drop, xdp_pass, IsBytes, be16, IsIpv4, ipv4_length}
use honey_potion.DropUdp.{
  Outcome, drop_xdp, filter_frame, filter_protocol, filter_port, get_protocol_ipv4,
  get_protocol_ipv6, get_dest_port_udp, edit_dest_port_udp,
}

-- A UDP header at `udp` that lies in the packet and names the port.
abbrev pub IsUdpAt : Packet → ℕ → ℕ → Type 0
IsUdpAt p udp port = (udp + 8 ≤ p.size) × (be16 p (udp + 2) ≡ port)

-- A UDP header right after the header of IPv4, whose length is in it, or of IPv6. Neither here nor in
-- the program is the fragment's offset looked at.
abbrev pub IsUdpTo : Packet → ℕ → Type 0
IsUdpTo p port =
    (IsIpv4 p × (p.byte 23 ≡ 17) × IsUdpAt p (14 + ipv4_length p) port)
    ⊎ ((be16 p 12 ≡ 0x86dd) × (p.byte 20 ≡ 17) × IsUdpAt p 54 port)

-- The same where the program looks for it.
abbrev pub IsFoundTo : Packet → ℕ → Type 0
IsFoundTo p port =
    (IsIpv4 p × (p.byte 23 ≡ 17) × IsUdpAt p 34 port)
    ⊎ ((be16 p 12 ≡ 0x86dd) × (p.byte 20 ≡ 17) × IsUdpAt p 54 port)

-- An IPv4 frame with options, or with a header that is too short to be one.
abbrev pub HasOtherLength : Packet → Type 0
HasOtherLength p = IsIpv4 p × (ipv4_length p ≢ 20)

-- With another length of the header, the program takes four bytes of what begins at byte 34 for the
-- UDP header's ports.
abbrev pub IsMisread : Packet → ℕ → Type 0
IsMisread p port = HasOtherLength p × (p.byte 23 ≡ 17) × IsUdpAt p 34 port

other_length : (p : Packet) → HasOtherLength p ⊎ ¬ HasOtherLength p
other_length p = ground arith

usual_length : (p : Packet) → IsIpv4 p → ¬ HasOtherLength p → 14 + ipv4_length p ≡ 34
usual_length p ip usual = ground arith

moved : (p : Packet) (port a b : ℕ) → a ≡ b → IsUdpAt p a port → IsUdpAt p b port
moved p port a b e = subst (λ x. IsUdpAt p x port) e

found_split :
    (p : Packet) (port : ℕ)
    → IsFoundTo p port ↔ ((¬ HasOtherLength p × IsUdpTo p port) ⊎ IsMisread p port)
found_split p port = (
  λ f. elim (other_length p) [
    | inl long ↦ elim f [
      | inl (ip, udp, at) ↦ inr (long, udp, at)
      | inr v6 ↦ absurd (ground (arith, long, v6.0))
    ]
    | inr usual ↦ elim f [
      | inl (ip, udp, at) ↦
          inl (usual, inl (ip, udp, moved p port 34 _ (sym (usual_length p ip usual)) at))
      | inr v6 ↦ inl (usual, inr v6)
    ]
  ],
  λ g. elim g [
    | inl (usual, inl (ip, udp, at)) ↦ inl (ip, udp, moved p port _ 34 (usual_length p ip usual) at)
    | inl (usual, inr v6) ↦ inr v6
    | inr (long, udp, at) ↦ inl (long.0, udp, at)
  ],
)

module _ (counts : ArrayMap ℤ) where
  abbrev pub action_of : Option (Outcome counts) → Option Action
  action_of none = none
  action_of (some o) = some o.action

  abbrev pub map_of : Option (Outcome counts) → Option counts.Map
  map_of none = none
  map_of (some o) = some o.map

module _ (counts : ArrayMap ℤ) (p : Packet) (m : counts.Map) (bytes : IsBytes p) where
  dropped-found :
      (is_some (drop_xdp counts p m) ≡ true)
      × ((action_of counts (drop_xdp counts p m) ≡ some xdp_drop) ↔ IsFoundTo p 3000)
  unfolding drop_xdp filter_frame filter_protocol filter_port get_protocol_ipv4 get_protocol_ipv6
      get_dest_port_udp edit_dest_port_udp
  dropped-found = ground (arith, bytes 12, bytes 13, bytes 36, bytes 37, bytes 56, bytes 57)

  -- No access lies outside the packet. A packet is dropped exactly if its protocol is UDP and
  -- the UDP header, right after the IP header, lies in it and names port 3000, unless it is an IPv4 packet whose header is not
  -- 20 bytes long. Such a packet is dropped exactly if its protocol is UDP and the program misreads
  -- the port 3000 behind the first 20 bytes of that header.
  pub dropped_iff :
      (is_some (drop_xdp counts p m) ≡ true)
      × ((action_of counts (drop_xdp counts p m) ≡ some xdp_drop)
          ↔ ((¬ HasOtherLength p × IsUdpTo p 3000) ⊎ IsMisread p 3000))
  dropped_iff =
      let (inside, found) = dropped-found in
      let (to, from) = found_split p 3000 in (inside, (λ h. to (found.0 h), λ g. found.1 (from g)))

  -- The offset of the destination port.
  abbrev pub port_at : ℕ
  port_at = if be16 p 12 == 0x0800 then 36 else 56

  abbrev pub IsRedirected : Option (Outcome counts) → Type 0
  IsRedirected none = ⊥
  IsRedirected (some o) =
      (o.action ≡ xdp_pass)
      × (o.map ≡ m)
      × (o.packet.size ≡ p.size)
      × IsFoundTo o.packet 3000
      × ((i : ℕ) → i ≢ port_at → i ≢ port_at + 1 → o.packet.byte i ≡ p.byte i)

  -- A packet that is found to be UDP to port 3001 passes as one to port 3000, with every other byte as it was.
  pub redirected : IsFoundTo p 3001 → IsRedirected (drop_xdp counts p m)
  unfolding drop_xdp filter_frame filter_protocol filter_port get_protocol_ipv4 get_protocol_ipv6
      get_dest_port_udp edit_dest_port_udp
  redirected (inl h) = ground (arith, bytes 12, bytes 13, bytes 36, bytes 37, bytes 56, bytes 57)
  redirected (inr h) = ground (arith, bytes 12, bytes 13, bytes 36, bytes 37, bytes 56, bytes 57)

  -- If the map has no entry at index 3000, as one with a single entry, then no packet is ever
  -- counted: the map is what it was.
  never_counts : counts.max_entries m ≤ 3000 → map_of counts (drop_xdp counts p m) ≡ some m
  unfolding drop_xdp filter_frame filter_protocol filter_port get_protocol_ipv4 get_protocol_ipv6
      get_dest_port_udp edit_dest_port_udp
  never_counts small = ground (arith, counts.lookup_outside m 3000 small)
