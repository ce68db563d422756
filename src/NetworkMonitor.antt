-- ===== src/NetworkMonitor.antt =====
-- benchmarks/networkmonitor/prog.bpf.c: bytes and packets of the socket calls, for each
-- connection, protocol and process. What the kernel's helpers read from the caller's memory are
-- fields of the events: `none` is a read that fails.
pub mod Ports
pub mod Log
pub mod Totals
mod Tests
use Prim.Native.Nat.{bit_and, bit_or}
use honey_potion.Base.{
  ℕ, ◌+◌, ◌*◌, ◌/◌, ◌^◌, ◌≡◌, ◌↔◌, Bool, true, false, ◌&&◌, Option, none, some, List, [], ◌∷◌, ltb,
  ◌==◌, if◌then◌else◌, u16, u32, u64, arith,
}
use honey_potion.Bpf.{Key, HashMap, nat_key}
use honey_potion.Bpf.Credit.{credit}
use honey_potion.Bpf.Touch.{touch}

abbrev pub proto_tcp : ℕ
proto_tcp = 6

abbrev pub proto_udp : ℕ
proto_udp = 17

pub record TrafficKey : Type 0 where
  pub pid : ℕ
  pub protocol : ℕ
  pub port : ℕ
  pub ip : ℕ

pub record TrafficStats : Type 0 where
  pub bytes_sent : ℕ
  pub bytes_recv : ℕ
  pub packets_sent : ℕ
  pub packets_recv : ℕ
  pub last_update_ns : ℕ

abbrev pub beq_key : TrafficKey → TrafficKey → Bool
beq_key a b = a.pid == b.pid && a.protocol == b.protocol && a.port == b.port && a.ip == b.ip

pub beq_key_iff : (a b : TrafficKey) → (beq_key a b ≡ true) ↔ (a ≡ b)
beq_key_iff a b = ground arith

abbrev pub traffic_key : Key TrafficKey
traffic_key = record { beq = beq_key; beq_iff = beq_key_iff }

-- The arguments of `update_traffic_stats`, with the clock that it reads.
pub record Report : Type 0 where
  pub key : TrafficKey
  pub bytes : ℕ
  pub is_sent : Bool
  pub now : ℕ

-- The branch of `update_traffic_stats` for a record that is there.
unfoldable pub bumped : Report → TrafficStats → TrafficStats
bumped r st = record {
  bytes_sent = if r.is_sent then u64 (st.bytes_sent + r.bytes) else st.bytes_sent;
  bytes_recv = if r.is_sent then st.bytes_recv else u64 (st.bytes_recv + r.bytes);
  packets_sent = if r.is_sent then u64 (st.packets_sent + 1) else st.packets_sent;
  packets_recv = if r.is_sent then st.packets_recv else u64 (st.packets_recv + 1);
  last_update_ns = r.now;
}

-- The branch for a record that is not there.
unfoldable pub fresh : Report → TrafficStats
fresh r = record {
  bytes_sent = if r.is_sent then r.bytes else 0;
  bytes_recv = if r.is_sent then 0 else r.bytes;
  packets_sent = if r.is_sent then 1 else 0;
  packets_recv = if r.is_sent then 0 else 1;
  last_update_ns = r.now;
}

-- `ntohs`
unfoldable pub ntohs : ℕ → ℕ
ntohs x = u16 (bit_or (bit_and x 0xff00 / 2 ^ 8) (bit_and x 0x00ff * 2 ^ 8))

-- `struct sockaddr_in`, as far as it is read.
pub record SockaddrIn : Type 0 where
  pub sin_port : ℕ
  pub s_addr : ℕ

-- What is read at an address pointer: null or not, the family, the whole structure.
pub record Address : Type 0 where
  pub is_null : Bool
  pub family : Option ℕ
  pub sin : Option SockaddrIn

-- The port and address that a handler puts into its key: zeros unless both reads succeed and the
-- family is AF_INET.
abbrev pub peer_of_sin : ℕ → ℕ → Option SockaddrIn → TrafficKey
peer_of_sin pid protocol none = record { pid = pid; protocol = protocol; port = 0; ip = 0 }
peer_of_sin pid protocol (some sin) = record {
  pid = pid;
  protocol = protocol;
  port = ntohs sin.sin_port;
  ip = sin.s_addr;
}

abbrev pub peer_of_family : ℕ → ℕ → Option ℕ → Option SockaddrIn → TrafficKey
peer_of_family pid protocol none sin = peer_of_sin pid protocol none
peer_of_family pid protocol (some family) sin =
    peer_of_sin pid protocol (if family == 2 then sin else none)

unfoldable pub peer : ℕ → ℕ → Address → TrafficKey
peer pid protocol a =
    if a.is_null then peer_of_sin pid protocol none else peer_of_family pid protocol a.family a.sin

abbrev pub report : TrafficKey → ℕ → Bool → ℕ → Report
report key bytes is_sent now = record { key = key; bytes = bytes; is_sent = is_sent; now = now }

-- `pid_tgid >> 32`
abbrev pub tgid : ℕ → ℕ
tgid pid_tgid = pid_tgid / 2 ^ 32

-- One firing of a tracepoint. `count` is what BPF_CORE_READ or the last read gives, and the option
-- in `sendmsg` is the message header, with the address that its `msg_name` points to.
pub data Event : Type 0 where
  sendto : (pid_tgid len : ℕ) (addr : Address) (now : ℕ) → Event
  recvfrom : (pid_tgid len now : ℕ) → Event
  sendmsg : (pid_tgid : ℕ) (msg_null : Bool) (count : ℕ) (msg : Option Address) (now : ℕ) → Event
  recvmsg : (pid_tgid : ℕ) (msg_null : Bool) (msg : Option (Option ℕ)) (now : ℕ) → Event

-- `on_sys_enter_sendto` up to its call of `update_traffic_stats`; `none` is an early return.
unfoldable pub sendto_report : ℕ → ℕ → Address → ℕ → Option Report
unfolding peer
sendto_report pid len addr now =
    if pid == 0
    then none
    else if len == 0
    then none
    else some (report (peer pid proto_udp addr) len true now)

abbrev pub at_least_one : ℕ → ℕ
at_least_one n = if n == 0 then 1 else n

abbrev pub no_peer : ℕ → ℕ → TrafficKey
no_peer pid protocol = record { pid = pid; protocol = protocol; port = 0; ip = 0 }

-- `on_sys_enter_recvfrom`
unfoldable pub recvfrom_report : ℕ → ℕ → ℕ → Option Report
recvfrom_report pid len now =
    if pid == 0 then none else some (report (no_peer pid proto_udp) (at_least_one len) false now)

-- The key of `on_sys_enter_sendmsg`.
unfoldable pub sendmsg_key : ℕ → Bool → Option Address → TrafficKey
unfolding peer
sendmsg_key pid true msg = no_peer pid proto_tcp
sendmsg_key pid false none = no_peer pid proto_tcp
sendmsg_key pid false (some addr) = peer pid proto_tcp addr

-- `on_sys_enter_sendmsg`
unfoldable pub sendmsg_report : ℕ → Bool → ℕ → Option Address → ℕ → Option Report
unfolding sendmsg_key
sendmsg_report pid msg_null count msg now =
    if pid == 0
    then none
    else some (
        report (sendmsg_key pid msg_null msg)
          (at_least_one (if msg_null then 0 else if ltb 0 count then count else 1)) true now)

-- The bytes of `on_sys_enter_recvmsg`.
abbrev pub recvmsg_bytes : Bool → Option (Option ℕ) → ℕ
recvmsg_bytes true msg = 0
recvmsg_bytes false none = 0
recvmsg_bytes false (some none) = 1
recvmsg_bytes false (some (some count)) = at_least_one count

-- `on_sys_enter_recvmsg`
unfoldable pub recvmsg_report : ℕ → Bool → Option (Option ℕ) → ℕ → Option Report
recvmsg_report pid msg_null msg now =
    if pid == 0
    then none
    else some (report (no_peer pid proto_tcp) (at_least_one (recvmsg_bytes msg_null msg)) false now)

unfoldable pub report_of : Event → Option Report
unfolding sendto_report recvfrom_report sendmsg_report recvmsg_report
report_of (sendto pid_tgid len addr now) = sendto_report (tgid pid_tgid) len addr now
report_of (recvfrom pid_tgid len now) = recvfrom_report (tgid pid_tgid) len now
report_of (sendmsg pid_tgid msg_null count msg now) =
    sendmsg_report (tgid pid_tgid) msg_null count msg now
report_of (recvmsg pid_tgid msg_null msg now) = recvmsg_report (tgid pid_tgid) msg_null msg now

-- The three maps that are used.
pub record Maps (S T P : Type 0) : Type 0 where
  pub traffic_map : S
  pub protocol_totals : T
  pub pid_stats : P

module _ (traffic : HashMap traffic_key TrafficStats) (totals : HashMap nat_key ℕ)
    (pids : HashMap nat_key TrafficStats) where
  abbrev pub State : Type 0
  State = Maps traffic.Map totals.Map pids.Map

  -- `update_traffic_stats`
  unfoldable pub update_traffic_stats : State → Report → State
  unfolding touch credit bumped fresh
  update_traffic_stats s r = record {
    protocol_totals = credit totals s.protocol_totals r.key.protocol r.bytes;
    traffic_map = touch traffic s.traffic_map r.key (bumped r) (fresh r);
    pid_stats = touch pids s.pid_stats r.key.pid (bumped r) (fresh r);
  }

  abbrev pub submit : State → Option Report → State
  submit s none = s
  submit s (some r) = update_traffic_stats s r

  -- The four handlers.
  unfoldable pub handle : State → Event → State
  unfolding report_of update_traffic_stats
  handle s e = submit s (report_of e)

  unfoldable pub run : State → List Event → State
  unfolding handle
  run s [] = s
  run s (e ∷ es) = run (handle s e) es
