-- ===== src/NetworkMonitor/Totals.antt =====
-- The tallies in closed form: sums modulo 2^64.
use honey_potion.Base.{
  ℕ, ◌+◌, ◌<◌, ◌^◌, ◌≡◌, refl, ◌∙◌, ap, Bool, not, ◌&&◌, Option, none, some, Bool-cases, inl, inr,
  List, [], ◌∷◌, if◌then◌else◌, length, u64, arith,
}
use honey_potion.Bpf.{HashMap, nat_key}
use honey_potion.Bpf.Credit.{plus, count_of}
use honey_potion.Bpf.Touch.{changed}
use honey_potion.NetworkMonitor.{
  Report, TrafficStats, traffic_key, bumped, fresh, Event, State, run,
}
use honey_potion.NetworkMonitor.Log.{
  log, tally, count_bytes, of_protocol, of_pid, HasRoom, run-IsTally,
}

-- The sum of the bytes of the reports that a test selects.
abbrev pub sum_bytes : (Report → Bool) → List Report → ℕ
sum_bytes wanted [] = 0
sum_bytes wanted (r ∷ rs) = (if wanted r then r.bytes else 0) + sum_bytes wanted rs

abbrev pub AllSmall : List Report → Type 0
AllSmall [] = Unit {0}
AllSmall (r ∷ rs) = (r.bytes < 2 ^ 64) × AllSmall rs

abbrev pub sent_of : Option TrafficStats → ℕ
sent_of none = 0
sent_of (some st) = st.bytes_sent

abbrev pub recv_of : Option TrafficStats → ℕ
recv_of none = 0
recv_of (some st) = st.bytes_recv

abbrev pub both : (Report → Bool) → (Report → Bool) → Report → Bool
both f g r = f r && g r

abbrev pub was_sent : Report → Bool
was_sent r = r.is_sent

abbrev pub was_received : Report → Bool
was_received r = not r.is_sent

changed-bytes :
    (o : Option TrafficStats) (r : Report)
    → r.bytes < 2 ^ 64
    → sent_of o < 2 ^ 64
    → recv_of o < 2 ^ 64
    → let st = changed o (bumped r) (fresh r) in
      (st.bytes_sent ≡ u64 (sent_of o + (if r.is_sent then r.bytes else 0)))
      × (st.bytes_recv ≡ u64 (recv_of o + (if not r.is_sent then r.bytes else 0)))
unfolding bumped fresh
changed-bytes o r h a b = ground arith

tally-bytes :
    (wanted : Report → Bool) (o : Option TrafficStats) (rs : List Report)
    → AllSmall rs
    → sent_of o < 2 ^ 64
    → recv_of o < 2 ^ 64
    → (sent_of (tally wanted o rs) ≡ u64 (sent_of o + sum_bytes (both wanted was_sent) rs))
      × (recv_of (tally wanted o rs) ≡ u64 (recv_of o + sum_bytes (both wanted was_received) rs))
tally-bytes wanted o [] small a b = (omega arith, omega arith)
tally-bytes wanted o (r ∷ rs) small a b = elim (Bool-cases (wanted r)) [
  | inl w ↦
      let c = changed-bytes o r small.0 a b in
      let rest =
        tally-bytes wanted (some (changed o (bumped r) (fresh r))) rs small.1 (omega arith)
          (omega arith) in
      rw w (omega arith, omega arith)
  | inr w ↦ let rest = tally-bytes wanted o rs small.1 a b in rw w (omega arith, omega arith)
]

plus-u64 :
    (o : Option ℕ) (d : ℕ) → count_of o < 2 ^ 64 → d < 2 ^ 64 → plus o d ≡ u64 (count_of o + d)
plus-u64 none d a h = omega arith
plus-u64 (some n) d a h = refl

count_bytes-sum :
    (wanted : Report → Bool) (o : Option ℕ) (rs : List Report)
    → AllSmall rs
    → count_of o < 2 ^ 64
    → count_of (count_bytes wanted o rs) ≡ u64 (count_of o + sum_bytes wanted rs)
count_bytes-sum wanted o [] small a = omega arith
count_bytes-sum wanted o (r ∷ rs) small a = elim (Bool-cases (wanted r)) [
  | inl w ↦
      let c : plus o r.bytes ≡ u64 (count_of o + r.bytes) = plus-u64 o r.bytes a small.0 in
      let rest = count_bytes-sum wanted (some (plus o r.bytes)) rs small.1 (omega arith) in
      rw w (omega arith)
  | inr w ↦ let rest = count_bytes-sum wanted o rs small.1 a in rw w (omega arith)
]

module _ (traffic : HashMap traffic_key TrafficStats) (totals : HashMap nat_key ℕ)
    (pids : HashMap nat_key TrafficStats) where
  -- After any sequence of socket calls for which the maps have room, with 64-bit sizes and
  -- counters: the bytes sent and the bytes received of each process have grown by the sums of
  -- what its calls reported as sent and as received, and the total of each protocol by the sum of
  -- all that was reported for it, modulo 2^64.
  pub run_sums :
      (es : List Event) (s : State traffic totals pids) (p protocol : ℕ)
      → HasRoom traffic totals pids (length es) s
      → AllSmall (log es)
      → sent_of (pids.lookup s.pid_stats p) < 2 ^ 64
      → recv_of (pids.lookup s.pid_stats p) < 2 ^ 64
      → count_of (totals.lookup s.protocol_totals protocol) < 2 ^ 64
      → let s' = run traffic totals pids s es in
        (sent_of (pids.lookup s'.pid_stats p)
          ≡ u64
              (sent_of (pids.lookup s.pid_stats p) + sum_bytes (both (of_pid p) was_sent) (log es)))
        × (recv_of (pids.lookup s'.pid_stats p)
            ≡ u64 (
                recv_of (pids.lookup s.pid_stats p)
                + sum_bytes (both (of_pid p) was_received) (log es)))
        × (count_of (totals.lookup s'.protocol_totals protocol)
            ≡ u64 (
                count_of (totals.lookup s.protocol_totals protocol)
                + sum_bytes (of_protocol protocol) (log es)))
  run_sums es s p protocol room small a b c =
      let t = run-IsTally traffic totals pids es s room in
      let bytes = tally-bytes (of_pid p) (pids.lookup s.pid_stats p) (log es) small a b in
      (
        ap sent_of (t.by_pid p) ∙ bytes.0,
        ap recv_of (t.by_pid p) ∙ bytes.1,
        ap count_of (t.by_protocol protocol)
            ∙ count_bytes-sum (of_protocol protocol) _ (log es) small c,
      )
