-- ===== src/MemoryMonitor/Log.antt =====
-- The events that reach the ring buffer.
use mathlib.Core.List.{append_assoc, append-nil}
use honey_potion.Base.{
  ℕ, ◌≡◌, refl, sym, ap, ◌∙◌, Bool-cases, inl, inr, ◌&&◌, List, [], ◌∷◌, ◌++◌, leb, if◌then◌else◌,
}
use honey_potion.Bpf.{HashMap, nat_key}
use honey_potion.MemoryMonitor.{
  MemStats, MemEvent, Context, current_pid, current_tgid, event_of, submit, Event, mmap_enter,
  munmap_enter, brk_enter, State, run, handle, trace_mmap_enter, trace_munmap_enter,
  trace_brk_enter,
}

-- The event that describes a call.
abbrev pub described : Context → ℕ → ℕ → ℕ → MemEvent
described ctx size address event_type = record {
  timestamp = ctx.timestamp;
  pid = current_pid ctx.pid_tgid;
  tgid = current_tgid ctx.pid_tgid;
  size = size;
  address = address;
  event_type = event_type;
  comm = ctx.comm;
}

abbrev pub entry : Event → List MemEvent
entry (mmap_enter ctx n) = if leb 1024 n && ctx.reserved then described ctx n 0 2 ∷ [] else []
entry (munmap_enter ctx n) = if ctx.reserved then described ctx n 0 3 ∷ [] else []
entry (brk_enter ctx addr) = if ctx.reserved then described ctx 0 addr 4 ∷ [] else []

abbrev pub log : List Event → List MemEvent
log [] = []
log (e ∷ es) = entry e ++ log es

submit-eq :
    (ring : List MemEvent) (ctx : Context) (size address event_type : ℕ)
    → submit ring ctx size address event_type
      ≡ ring ++ (if ctx.reserved then described ctx size address event_type ∷ [] else [])
unfolding submit event_of
submit-eq ring ctx size address event_type = elim (Bool-cases ctx.reserved) [
  | inl r ↦ rw (submit, r) refl
  | inr r ↦ rw (submit, r) (sym (append-nil ring))
]

module _ (stats : HashMap nat_key MemStats) where
  handle-entry :
      (s : State stats) (e : Event) → (handle stats s e).mem_events ≡ s.mem_events ++ entry e
  unfolding handle trace_mmap_enter trace_munmap_enter trace_brk_enter
  handle-entry s (mmap_enter ctx n) = elim (Bool-cases (leb 1024 n)) [
    | inl counted ↦ rw (trace_mmap_enter, counted) (submit-eq s.mem_events ctx n 0 2)
    | inr ignored ↦ rw (trace_mmap_enter, ignored) (sym (append-nil s.mem_events))
  ]
  handle-entry s (munmap_enter ctx n) = submit-eq s.mem_events ctx n 0 3
  handle-entry s (brk_enter ctx addr) = submit-eq s.mem_events ctx 0 addr 4

  -- After any sequence of calls, whether or not the map of records has room: the ring buffer has
  -- received, in order, one event for each unmapping and program break and for each mapping of
  -- at least 1024 bytes, with its arguments and thread, except those that found it full.
  pub run-log :
      (es : List Event) (s : State stats) → (run stats s es).mem_events ≡ s.mem_events ++ log es
  unfolding run
  run-log [] s = sym (append-nil s.mem_events)
  run-log (e ∷ es) s =
      run-log es (handle stats s e)
      ∙ ap (λ ring. ring ++ log es) (handle-entry s e)
      ∙ append_assoc s.mem_events (entry e) (log es)
