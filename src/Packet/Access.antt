-- ===== src/Packet/Access.antt =====
-- Checked accesses to the bytes of a packet.
use honey_potion.Base.{
  ℕ, ◌+◌, ◌*◌, ◌/◌, ◌%◌, ◌<◌, Option, none, some, ltb, ◌==◌, if◌then◌else◌, ◌≡◌, ◌⊎◌, arith,
}

pub record Packet : Type 0 where
  pub size : ℕ
  pub byte : ℕ → ℕ

-- What an XDP program returns.
pub data Action : Type 0 where
  xdp_aborted xdp_drop xdp_pass xdp_tx xdp_redirect : Action

infixl 5 ◌>>=◌
abbrev pub ◌>>=◌ : {A B : Type 0} → Option A → (A → Option B) → Option B
◌>>=◌ m f = elim m [ none ↦ none | some a ↦ f a ]

abbrev pub load8 : Packet → ℕ → Option ℕ
load8 p i = if ltb i p.size then some (p.byte i) else none

abbrev pub load16 : Packet → ℕ → Option ℕ
load16 p i = if ltb (i + 1) p.size then some (p.byte i + 256 * p.byte (i + 1)) else none

abbrev pub put16 : (ℕ → ℕ) → ℕ → ℕ → ℕ → ℕ
put16 byte i v j = if j == i then v % 256 else if j == i + 1 then v / 256 % 256 else byte j

abbrev pub store16 : Packet → ℕ → ℕ → Option Packet
store16 p i v = if ltb (i + 1) p.size then some (record p { byte = put16 p.byte i v }) else none

-- `ntohs` and `htons` of the C library.
abbrev pub swap16 : ℕ → ℕ
swap16 x = x % 256 * 256 + x / 256 % 256

-- Every byte is one.
abbrev pub IsBytes : Packet → Type 0
IsBytes p = (i : ℕ) → p.byte i < 256

abbrev pub ethhdr_size : ℕ
ethhdr_size = 14

abbrev pub iphdr_size : ℕ
iphdr_size = 20

abbrev pub ipv6hdr_size : ℕ
ipv6hdr_size = 40

abbrev pub udphdr_size : ℕ
udphdr_size = 8

abbrev pub ipproto_udp : ℕ
ipproto_udp = 17

abbrev pub tcphdr_size : ℕ
tcphdr_size = 20

abbrev pub ipproto_tcp : ℕ
ipproto_tcp = 6

-- Four bytes as the machine reads them.
abbrev pub load32 : Packet → ℕ → Option ℕ
load32 p i =
    if ltb (i + 3) p.size
    then some (p.byte i + 256 * (p.byte (i + 1) + 256 * (p.byte (i + 2) + 256 * p.byte (i + 3))))
    else none

-- `memcpy` of `n` bytes, at least one, into zeroed memory.
abbrev pub load_bytes : Packet → ℕ → ℕ → Option (ℕ → ℕ)
load_bytes p i n =
    if ltb p.size (i + n) then none else some (λ j. if ltb j n then p.byte (i + j) else 0)

-- Two bytes in network order.
abbrev pub be16 : Packet → ℕ → ℕ
be16 p i = 256 * p.byte i + p.byte (i + 1)

-- The length of an IPv4 header that begins at byte 14: the low half of its first byte counts words
-- of four bytes.
abbrev pub ipv4_length : Packet → ℕ
ipv4_length p = 4 * (p.byte 14 % 16)

-- An IPv4 frame, and one whose header has no options.
abbrev pub IsIpv4 : Packet → Type 0
IsIpv4 p = be16 p 12 ≡ 0x0800

abbrev pub IsPlainIpv4 : Packet → Type 0
IsPlainIpv4 p = IsIpv4 p × (ipv4_length p ≡ 20)

pub plain_or_not : (p : Packet) → IsPlainIpv4 p ⊎ (¬ IsPlainIpv4 p)
plain_or_not p = ground arith
