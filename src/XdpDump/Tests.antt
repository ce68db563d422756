-- ===== src/XdpDump/Tests.antt =====
-- A UDP packet over IPv4 from port 5000 to port 80, with ten bytes of payload.
use honey_potion.Base.{ℕ, ◌≡◌, refl, none, some, if◌then◌else◌, ◌==◌, arith, Option}
use honey_potion.Packet.{Packet, IsBytes}
use honey_potion.XdpDump.{process_packet, PktMeta}
use honey_potion.XdpDump.Events.{Describes, process_packet-Describes}

abbrev datagram : ℕ → ℕ
datagram i =
    if i == 12
    then 8
    else if i == 14
    then 0x45
    else if i == 23
    then 17
    else if i == 34
    then 19
    else if i == 35
    then 136
    else if i == 37
    then 80
    else 0

abbrev packet : Packet
packet = record { size = 52; byte = datagram }

packet-IsBytes : IsBytes packet
packet-IsBytes i = ground arith

abbrev lengths : Option (Option PktMeta) → ℕ × ℕ
lengths none = (0, 0)
lengths (some none) = (0, 0)
lengths (some (some e)) = (e.pkt_len, e.data_len)

lengths-packet : lengths (process_packet packet) ≡ (52, 10)
unfolding process_packet
lengths-packet = refl

process_packet-Describes_example : Describes packet (process_packet packet)
process_packet-Describes_example = process_packet-Describes packet packet-IsBytes
