-- ===== src/NetworkMonitor/Log.antt =====
-- The maps are tallies of the log of reports.
use honey_potion.Base.{
  ℕ, suc, ◌+◌, ◌≤◌, ◌≡◌, refl, ◌∙◌, ap, Bool, Option, none, some, List, [], ◌∷◌, ◌==◌,
  if◌then◌else◌, length, arith,
}
use honey_potion.Bpf.{HashMap, nat_key}
use honey_potion.Bpf.Credit.{plus, size-credit, lookup-credit_at}
use honey_potion.Bpf.Touch.{changed, size-touch, lookup-touch_at}
use honey_potion.NetworkMonitor.{
  Report, TrafficKey, TrafficStats, traffic_key, beq_key, bumped, fresh, Event, report_of, State,
  update_traffic_stats, submit, handle, run,
}

-- What the handlers report of a sequence of events, in order.
abbrev pub cons_report : Option Report → List Report → List Report
cons_report none rs = rs
cons_report (some r) rs = r ∷ rs

unfoldable pub log : List Event → List Report
log [] = []
log (e ∷ es) = cons_report (report_of e) (log es)

-- The record kept of the reports that a test selects.
abbrev pub tally : (Report → Bool) → Option TrafficStats → List Report → Option TrafficStats
tally wanted o [] = o
tally wanted o (r ∷ rs) =
    tally wanted (if wanted r then some (changed o (bumped r) (fresh r)) else o) rs

-- The bytes counted of the reports that a test selects.
abbrev pub count_bytes : (Report → Bool) → Option ℕ → List Report → Option ℕ
count_bytes wanted o [] = o
count_bytes wanted o (r ∷ rs) =
    count_bytes wanted (if wanted r then some (plus o r.bytes) else o) rs

abbrev pub of_key : TrafficKey → Report → Bool
of_key k r = beq_key r.key k

abbrev pub of_protocol : ℕ → Report → Bool
of_protocol p r = r.key.protocol == p

abbrev pub of_pid : ℕ → Report → Bool
of_pid p r = r.key.pid == p

module _ (traffic : HashMap traffic_key TrafficStats) (totals : HashMap nat_key ℕ)
    (pids : HashMap nat_key TrafficStats) where
  -- Room for `n` more entries in each map.
  pub record HasRoom (n : ℕ) (s : State traffic totals pids) : Type 0 where
    pub traffic_room : traffic.size s.traffic_map + n ≤ traffic.max_entries
    pub totals_room : totals.size s.protocol_totals + n ≤ totals.max_entries
    pub pids_room : pids.size s.pid_stats + n ≤ pids.max_entries

  -- Each entry of `s'` is the tally of the reports that concern it, from the entry of `s`.
  pub record IsTally (s s' : State traffic totals pids) (rs : List Report) : Type 0 where
    pub by_key :
        (k : TrafficKey)
        → traffic.lookup s'.traffic_map k ≡ tally (of_key k) (traffic.lookup s.traffic_map k) rs
    pub by_protocol :
        (p : ℕ)
        → totals.lookup s'.protocol_totals p
          ≡ count_bytes (of_protocol p) (totals.lookup s.protocol_totals p) rs
    pub by_pid :
        (p : ℕ) → pids.lookup s'.pid_stats p ≡ tally (of_pid p) (pids.lookup s.pid_stats p) rs

  update-IsTally :
      (s : State traffic totals pids) (r : Report) (n : ℕ)
      → HasRoom (suc n) s
      → IsTally s (update_traffic_stats traffic totals pids s r) (r ∷ [])
  unfolding update_traffic_stats
  update-IsTally s r n room = record {
    by_key = λ k. lookup-touch_at traffic s.traffic_map r.key (bumped r) (fresh r) k (omega arith);
    by_protocol =
        λ p. lookup-credit_at totals s.protocol_totals r.key.protocol r.bytes p (omega arith);
    by_pid = λ p. lookup-touch_at pids s.pid_stats r.key.pid (bumped r) (fresh r) p (omega arith);
  }

  update-HasRoom :
      (s : State traffic totals pids) (r : Report) (n : ℕ)
      → HasRoom (suc n) s
      → HasRoom n (update_traffic_stats traffic totals pids s r)
  unfolding update_traffic_stats
  update-HasRoom s r n room = omega (
    arith,
    size-touch traffic s.traffic_map r.key (bumped r) (fresh r),
    size-credit totals s.protocol_totals r.key.protocol r.bytes,
    size-touch pids s.pid_stats r.key.pid (bumped r) (fresh r),
  )

  IsTally-cons :
      (s t u : State traffic totals pids) (r : Report) (rs : List Report)
      → IsTally s t (r ∷ [])
      → IsTally t u rs
      → IsTally s u (r ∷ rs)
  IsTally-cons s t u r rs f g = record {
    by_key = λ k. g.by_key k ∙ ap (λ o. tally (of_key k) o rs) (f.by_key k);
    by_protocol =
        λ p. g.by_protocol p ∙ ap (λ o. count_bytes (of_protocol p) o rs) (f.by_protocol p);
    by_pid = λ p. g.by_pid p ∙ ap (λ o. tally (of_pid p) o rs) (f.by_pid p);
  }

  submit-IsTally :
      (o : Option Report) (s u : State traffic totals pids) (n : ℕ) (rs : List Report)
      → HasRoom (suc n) s
      → (HasRoom n (submit traffic totals pids s o) → IsTally (submit traffic totals pids s o) u rs)
      → IsTally s u (cons_report o rs)
  submit-IsTally none s u n rs room rest = rest (omega arith)
  submit-IsTally (some r) s u n rs room rest =
      IsTally-cons s (update_traffic_stats traffic totals pids s r) u r rs
        (update-IsTally s r n room) (rest (update-HasRoom s r n room))

  -- For any sequence of socket calls, if each map has room for one more entry per call, the three
  -- maps hold the tallies of the log of reports: for each connection, protocol and process its
  -- entry is the one before, changed by exactly the reports that concern it, in order.
  pub run-IsTally :
      (es : List Event) (s : State traffic totals pids)
      → HasRoom (length es) s
      → IsTally s (run traffic totals pids s es) (log es)
  unfolding run handle log
  run-IsTally [] s room = record { by_key = λ k. refl; by_protocol = λ p. refl; by_pid = λ p. refl }
  run-IsTally (e ∷ es) s room =
      submit-IsTally (report_of e) s (run traffic totals pids (handle traffic totals pids s e) es)
        (length es) (log es) room (run-IsTally es (handle traffic totals pids s e))
