-- ===== src/NetworkMonitor/Ports.antt =====
-- The byte swap of a port, and what every report of a handler satisfies.
use honey_potion.Base.{
  ℕ, zero, suc, ◌+◌, ◌*◌, ◌/◌, ◌%◌, ◌^◌, ◌<◌, ◌≡◌, ◌≢◌, ◌⊎◌, Bool, true, false, Option, none, some,
  refl, ==_iff, ◌==◌, arith,
}
use honey_potion.NetworkMonitor.{
  Report, Event, ntohs, proto_tcp, proto_udp, report_of, sendto, recvfrom, sendmsg, recvmsg,
  sendto_report, recvfrom_report, sendmsg_report, recvmsg_report, Address, sendmsg_key, peer,
}

all_below : ℕ → (ℕ → Bool) → Bool
all_below zero test = true
all_below (suc n) test = elim (test n) [ true ↦ all_below n test | false ↦ false ]

all_below_sound :
    (n : ℕ) (test : ℕ → Bool) (x : ℕ) → all_below n test ≡ true → x < n → test x ≡ true
unfolding all_below
all_below_sound zero test x h lt = absurd (omega arith)
all_below_sound (suc n) test x h lt = ground (arith, all_below_sound n test x)

ntohs_table : all_below 65536 (λ x. ntohs x == x % 256 * 256 + x / 256) ≡ true
unfolding all_below ntohs
ntohs_table = refl

ntohs-eq : (x : ℕ) → x < 2 ^ 16 → ntohs x ≡ x % 256 * 256 + x / 256
ntohs-eq x h = (==_iff _ _).0 (all_below_sound 65536 _ x ntohs_table h)

-- `ntohs` swaps the two bytes of every 16-bit port, so it is its own inverse.
pub ntohs_swaps : (x : ℕ) → x < 2 ^ 16 → (ntohs x ≡ x % 256 * 256 + x / 256) × (ntohs (ntohs x) ≡ x)
ntohs_swaps x h =
    let once = ntohs-eq x h in let twice = ntohs-eq (ntohs x) (omega arith) in (once, omega arith)

-- What `update_traffic_stats` may rely on.
pub record IsSound (r : Report) : Type 0 where
  pub has_process : r.key.pid ≢ 0
  pub has_bytes : r.bytes ≢ 0
  pub transport : (r.key.protocol ≡ proto_udp) ⊎ (r.key.protocol ≡ proto_tcp)
  pub received : r.is_sent ≡ false → (r.key.port ≡ 0) × (r.key.ip ≡ 0)

-- The report that a handler makes, if any.
abbrev pub AllSound : Option Report → Type 0
AllSound none = Unit {0}
AllSound (some r) = IsSound r

peer-protocol :
    (pid protocol : ℕ) (a : Address)
    → ((peer pid protocol a).pid ≡ pid) × ((peer pid protocol a).protocol ≡ protocol)
unfolding peer
peer-protocol pid protocol a = ground arith

sendmsg_key-protocol :
    (pid : ℕ) (msg_null : Bool) (msg : Option Address)
    → ((sendmsg_key pid msg_null msg).pid ≡ pid)
      × ((sendmsg_key pid msg_null msg).protocol ≡ proto_tcp)
unfolding sendmsg_key
sendmsg_key-protocol pid true msg = (refl, refl)
sendmsg_key-protocol pid false none = (refl, refl)
sendmsg_key-protocol pid false (some a) = peer-protocol pid proto_tcp a

-- Whatever a socket call passes and whatever can be read of its memory, the report that its
-- handler makes names a process and at least one byte, and UDP or TCP; a report of received
-- bytes names no port and no address.
pub report_of-IsSound : (e : Event) → AllSound (report_of e)
unfolding report_of sendto_report recvfrom_report sendmsg_report recvmsg_report
report_of-IsSound (sendto pid_tgid len addr now) =
    ground (arith, peer-protocol (pid_tgid / 2 ^ 32) proto_udp addr)
report_of-IsSound (recvfrom pid_tgid len now) = ground arith
report_of-IsSound (sendmsg pid_tgid msg_null count msg now) =
    ground (arith, sendmsg_key-protocol (pid_tgid / 2 ^ 32) msg_null msg)
report_of-IsSound (recvmsg pid_tgid msg_null msg now) = ground arith
