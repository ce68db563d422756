-- ===== src/DropUdp/Tests.antt =====
-- A UDP packet over IPv4 whose destination port is given.
use honey_potion.Base.{
  ℕ, ◌/◌, ◌%◌, ◌≡◌, ◌↔◌, ◌⊎◌, refl, ℤ, pos, true, [], ◌∷◌, some, is_some, if◌then◌else◌, ◌==◌,
  arith,
}
use honey_potion.Bpf.Array.{ArrayMap, array}
use honey_potion.Packet.{Packet, xdp_drop, xdp_pass, IsBytes}
use honey_potion.DropUdp.{drop_xdp}
use honey_potion.DropUdp.Ports.{IsUdpTo, IsMisread, HasOtherLength, action_of, dropped_iff}

abbrev counts : ArrayMap ℤ
counts = array

abbrev datagram : ℕ → ℕ → ℕ
datagram port i =
    if i == 12
    then 8
    else if i == 14
    then 69
    else if i == 23
    then 17
    else if i == 36
    then port / 256 % 256
    else if i == 37
    then port % 256
    else 0

abbrev packet : ℕ → Packet
packet port = record { size = 60; byte = datagram port }

packet-IsBytes : (port : ℕ) → IsBytes (packet port)
packet-IsBytes port i = ground arith

dropped_iff_example :
    (is_some (drop_xdp counts (packet 3000) (pos 0 ∷ [])) ≡ true)
    × ((action_of counts (drop_xdp counts (packet 3000) (pos 0 ∷ [])) ≡ some xdp_drop) ↔ (
        (¬ HasOtherLength (packet 3000) × IsUdpTo (packet 3000) 3000)
        ⊎ IsMisread (packet 3000) 3000))
dropped_iff_example = dropped_iff counts (packet 3000) (pos 0 ∷ []) (packet-IsBytes 3000)

-- With a header of 24 bytes the destination port is at byte 40, and port 3000 there passes.
abbrev with_options : Packet
with_options = record {
  size = 60;
  byte = λ i.
      if i == 12
      then 8
      else if i == 14
      then 70
      else if i == 23
      then 17
      else if i == 40
      then 11
      else if i == 41
      then 184
      else 0;
}

options_pass : action_of counts (drop_xdp counts with_options (pos 0 ∷ [])) ≡ some xdp_pass
unfolding drop_xdp
options_pass = refl
