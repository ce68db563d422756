-- ===== src/FindString/Accepts.antt =====
-- Which packets are scanned.
use mathlib.Core.Path.{subst}
use honey_potion.Base.{
  ℕ, ◌+◌, ◌^◌, ◌≤◌, ◌<◌, ◌≡◌, ◌↔◌, ◌⊎◌, inl, inr, none, some, is_some, true, arith,
}
use honey_potion.Packet.{Packet, IsBytes, be16, IsIpv4, IsPlainIpv4, ipv4_length, plain_or_not}
use honey_potion.FindString.{accepts, accepts_udp}

-- A UDP header at `udp` with the port as its destination, and a length that holds at least itself
-- and no more than the packet.
abbrev pub IsUdpAt : Packet → ℕ → ℕ → Type 0
IsUdpAt p udp port =
    (udp + 8 ≤ p.size)
    × (8 ≤ be16 p (udp + 4))
    × (udp + be16 p (udp + 4) ≤ p.size)
    × (be16 p (udp + 2) ≡ port)

-- An IPv4 packet with such a header right after its own, whose length is in it. Neither here nor in
-- the program is the fragment's offset looked at.
abbrev pub IsScanned : Packet → ℕ → Type 0
IsScanned p port = IsIpv4 p × (p.byte 23 ≡ 17) × IsUdpAt p (14 + ipv4_length p) port

-- A frame of another type, or of an IPv4 header that is not 20 bytes long, in which the program
-- finds such bytes all the same.
abbrev pub IsMisread : Packet → ℕ → Type 0
IsMisread p port = (¬ IsPlainIpv4 p) × (p.byte 23 ≡ 17) × IsUdpAt p 34 port

found_split :
    (p : Packet) (port : ℕ)
    → ((p.byte 23 ≡ 17) × IsUdpAt p 34 port)
      ↔ ((IsPlainIpv4 p × IsScanned p port) ⊎ IsMisread p port)
found_split p port = (
  λ (udp, at). elim (plain_or_not p) [
    | inl plain ↦
        let place : 34 ≡ 14 + ipv4_length p = omega (arith, plain.1) in
        inl (plain, (plain.0, udp, subst (λ x. IsUdpAt p x port) place at))
    | inr other ↦ inr (other, udp, at)
  ],
  λ g. elim g [
    | inl (plain, (ip, udp, at)) ↦
        let place : 14 + ipv4_length p ≡ 34 = omega (arith, plain.1) in
        (udp, subst (λ x. IsUdpAt p x port) place at)
    | inr (other, udp, at) ↦ (udp, at)
  ],
)

accepts-found :
    (p : Packet) (port : ℕ)
    → IsBytes p
    → port < 2 ^ 16
    → p.size < 2 ^ 31
    → ((accepts p (some port) ≡ some true) ↔ ((p.byte 23 ≡ 17) × IsUdpAt p 34 port))
      × (is_some (accepts p (some port)) ≡ true)
      × (accepts p none ≡ some true → ⊥)
      × (is_some (accepts p none) ≡ true)
unfolding accepts accepts_udp
accepts-found p port bytes small size = ground (arith, bytes 36, bytes 37, bytes 38, bytes 39)

-- No test reads outside the packet. With a 16-bit port configured, an IPv4 packet with a header of
-- 20 bytes, in a frame of less than 2^31 bytes, is scanned exactly if a whole UDP datagram to that
-- port follows the header. A frame of another type, or of IPv4 with a header of another length, is
-- scanned exactly if the same bytes look so. With no port configured, no packet is scanned.
pub accepts_iff :
    (p : Packet) (port : ℕ)
    → IsBytes p
    → port < 2 ^ 16
    → p.size < 2 ^ 31
    → ((accepts p (some port) ≡ some true)
        ↔ ((IsPlainIpv4 p × IsScanned p port) ⊎ IsMisread p port))
      × (is_some (accepts p (some port)) ≡ true)
      × (accepts p none ≡ some true → ⊥)
      × (is_some (accepts p none) ≡ true)
accepts_iff p port bytes small size =
    let (found, inside, unset, unset_inside) = accepts-found p port bytes small size in
    let (to, from) = found_split p port in
    ((λ h. to (found.0 h), λ g. found.1 (from g)), inside, unset, unset_inside)
