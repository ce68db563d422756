-- ===== src/NetworkMonitor/Tests.antt =====
-- The monitor over tables of eight entries: process 7 sends 100 bytes to port 80 by UDP and
-- receives into 30 bytes, process 8 sends by TCP with an unreadable header.
use honey_potion.Base.{ℕ, ◌*◌, ◌+◌, ◌^◌, ◌≡◌, refl, false, none, some, List, [], ◌∷◌, arith, u64}
use honey_potion.Bpf.{HashMap, nat_key}
use honey_potion.Bpf.Table.{table}
use honey_potion.Bpf.Credit.{count_of, credit}
use honey_potion.Bpf.Touch.{touch}
use honey_potion.NetworkMonitor.{
  TrafficStats, traffic_key, Address, Event, sendto, recvfrom, sendmsg, State, run, ntohs,
  report_of, proto_udp,
}
use honey_potion.NetworkMonitor.Ports.{report_of-IsSound, AllSound}
use honey_potion.NetworkMonitor.Log.{log, HasRoom, of_pid, of_protocol}
use honey_potion.NetworkMonitor.Totals.{
  run_sums, AllSmall, sent_of, recv_of, sum_bytes, both, was_sent, was_received,
}

abbrev traffic : HashMap traffic_key TrafficStats
traffic = table traffic_key 8

abbrev totals : HashMap nat_key ℕ
totals = table nat_key 8

abbrev pids : HashMap nat_key TrafficStats
pids = table nat_key 8

abbrev empty : State traffic totals pids
empty = record { traffic_map = []; protocol_totals = []; pid_stats = [] }

abbrev web : Address
web = record {
  is_null = false;
  family = some 2;
  sin = some (record { sin_port = 20480; s_addr = 16777343 });
}

abbrev calls : List Event
calls =
    sendto (7 * 2 ^ 32) 100 web 1
    ∷ recvfrom (7 * 2 ^ 32) 30 2
    ∷ sendmsg (8 * 2 ^ 32) false 0 none 3
    ∷ []

port_80 : ntohs 20480 ≡ 80
unfolding ntohs
port_80 = refl

udp_total : totals.lookup (run traffic totals pids empty calls).protocol_totals proto_udp ≡ some 130
unfolding run touch credit
udp_total = refl

report_of-IsSound_example : AllSound (report_of (sendto (7 * 2 ^ 32) 100 web 1))
report_of-IsSound_example = report_of-IsSound (sendto (7 * 2 ^ 32) 100 web 1)

empty-HasRoom : HasRoom traffic totals pids 3 empty
empty-HasRoom = omega arith

calls-AllSmall : AllSmall (log calls)
unfolding log report_of
calls-AllSmall = (omega arith, (omega arith, (omega arith, tt)))

run_sums_example :
    let s' = run traffic totals pids empty calls in
    (sent_of (pids.lookup s'.pid_stats 7)
      ≡ u64 (0 + sum_bytes (both (of_pid 7) was_sent) (log calls)))
    × (recv_of (pids.lookup s'.pid_stats 7)
        ≡ u64 (0 + sum_bytes (both (of_pid 7) was_received) (log calls)))
    × (count_of (totals.lookup s'.protocol_totals proto_udp)
        ≡ u64 (0 + sum_bytes (of_protocol proto_udp) (log calls)))
run_sums_example =
    run_sums traffic totals pids calls empty 7 proto_udp empty-HasRoom calls-AllSmall (omega arith)
      (omega arith) (omega arith)
