-- ===== src/FindString.antt =====
-- benchmarks/findstring/prog.bpf.c: scan the payload of the UDP packets to one port with an
-- automaton, 2000 bytes per run of the program, and drop those that match.
pub mod Scan
pub mod Matches
pub mod Runs
pub mod Judged
pub mod Accepts
pub mod Queue
pub mod Automaton
mod Tests
use Prim.Native.Nat.{bit_or}
use honey_potion.Base.{
  ℕ, zero, suc, ◌+◌, ◌-◌, ◌/◌, ◌%◌, ◌^◌, ℤ, pos, ◌+ℤ◌, s32, Bool, true, false, not, ◌||◌, Option,
  none, some, List, ltb, leb, ◌==◌, if◌then◌else◌, u32,
}
use honey_potion.Bpf.{HashMap, nat_key}
use honey_potion.Bpf.Array.{ArrayMap}
use honey_potion.Packet.{
  Packet, Action, xdp_drop, xdp_pass, ◌>>=◌, load8, load16, swap16, ethhdr_size, iphdr_size,
  udphdr_size, ipproto_udp,
}

-- MAPSTRINGSSIZE and MAXC
abbrev pub map_strings_size : ℕ
map_strings_size = 5

abbrev pub maxc : ℕ
maxc = 26

-- `struct data`
pub record Word : Type 0 where
  pub text : List ℕ
  pub number : ℤ

-- `struct state`
pub record Progress : Type 0 where
  pub payload_index : ℕ
  pub ac_state : ℕ
  pub matches : ℕ

pub record GotoResult : Type 0 where
  pub next_state : ℕ
  pub match : ℕ

-- A row of the automaton: `struct goto_result[MAXC]`.
abbrev pub Row : Type 0
Row = ℕ → GotoResult

-- `ntohs(udp->len) - sizeof(*udp)` as `unsigned int`
abbrev pub payload_size : ℕ → ℕ
payload_size len = u32 (swap16 len + 2 ^ 32 - udphdr_size)

-- The offset of the payload.
abbrev pub payload_offset : ℕ
payload_offset = ethhdr_size + iphdr_size + udphdr_size

-- The last two tests before the scan: the payload lies in the packet, and the port is the
-- configured one.
unfoldable pub accepts_udp : Packet → Option ℕ → ℕ → ℕ → Bool
accepts_udp p none len dest = false
accepts_udp p (some port) len dest =
    if ltb p.size (payload_offset + payload_size len) then false else dest == swap16 port

-- All tests of `matchPayload` before the scan. The frame's type is not among them.
unfoldable pub accepts : Packet → Option ℕ → Option Bool
unfolding accepts_udp
accepts p port =
    if ltb p.size ethhdr_size || ltb p.size (ethhdr_size + iphdr_size)
    then some false
    else (load8 p (ethhdr_size + 9) >>= λ protocol.
        if not (protocol == ipproto_udp) || ltb p.size payload_offset
        then some false
        else (load16 p (ethhdr_size + iphdr_size + 4) >>= λ len.
            load16 p (ethhdr_size + iphdr_size + 2) >>= λ dest. some (accepts_udp p port len dest)))

-- One character: the state of the automaton and the matches after it.
unfoldable pub advance : Row → ℕ → ℕ × ℕ → ℕ × ℕ
advance row byte (ac_state, matches) =
    let ch = u32 (byte + 2 ^ 32 - 97) in
    if leb maxc ch then (1, matches) else (
      (row ch).next_state,
      if (row ch).match == 0 then matches else bit_or matches (row ch).match,
    )

-- What the loop leaves: `i`, `reached_end` and the two fields of the state that it changes.
pub record Scanned : Type 0 where
  pub index : ℕ
  pub reached_end : Bool
  pub ac : ℕ × ℕ

module _ (goto_func : ℕ → Option Row) (p : Packet) (payload_index : ℕ) where
  -- The loop, from `i` on, for as many characters as are left of the 2000.
  unfoldable pub scan : ℕ → ℕ → ℕ × ℕ → Scanned
  unfolding advance
  scan zero i ac = record { index = i; reached_end = false; ac = ac }
  scan (suc left) i ac =
      let access = u32 (payload_index + i) in
      let stopped : Scanned = record { index = i; reached_end = false; ac = ac } in
      elim (ltb 65492 access || ltb p.size (payload_offset + access + 1)) [
        | true ↦ record stopped { reached_end = true }
        | false ↦ elim (goto_func ac.0) [
          | none ↦ stopped
          | some row ↦ scan left (i + 1) (advance row (p.byte (payload_offset + access)) ac)
        ]
      ]

-- A run ends with a verdict, or with a tail call.
pub data Ended (S : Type 0) : Type 0 where
  verdict : Action → S → Ended S
  tail_call : S → Ended S

pub record Maps (W S : Type 0) : Type 0 where
  pub strings : W
  pub state_map : S

module _ (words : ArrayMap Word) (progress : HashMap nat_key Progress) where
  abbrev pub State : Type 0
  State = Maps words.Map progress.Map

  -- `if (word) word->number++`
  unfoldable pub count_word : words.Map → ℕ → Option Word → words.Map
  count_word m j none = m
  count_word m j (some word) = words.store m j (record word { number = s32 (word.number +ℤ pos 1) })

  -- The loop over the words, from `j` on.
  unfoldable pub count_words : ℕ → ℕ → ℕ → words.Map → words.Map
  unfolding count_word
  count_words zero j matches m = m
  count_words (suc left) j matches m =
      let counted = if matches / 2 ^ j % 2 == 1 then count_word m j (words.lookup m j) else m in
      count_words left (j + 1) matches counted

  -- The end of the payload: the words are counted and the packet is judged.
  unfoldable pub finish : State → ℕ → ℕ → Ended State
  unfolding count_words
  finish s ctx matches = verdict (if matches == 0 then xdp_pass else xdp_drop) (record {
    strings = count_words map_strings_size 0 matches s.strings;
    state_map = progress.delete s.state_map ctx;
  })

  -- `s` points into the map: what the loop changed is there.
  abbrev pub written : State → ℕ → Progress → ℕ → Scanned → State
  written s ctx t index r = record s {
    state_map =
        progress.store s.state_map ctx
          (record { payload_index = index; ac_state = r.ac.0; matches = r.ac.1 });
  }

  -- A run that finds its state in the map.
  unfoldable pub resume : (ℕ → Option Row) → Packet → ℕ → State → Progress → Ended State
  unfolding scan finish
  resume goto_func p ctx s t =
      let r = scan goto_func p t.payload_index 2000 0 (t.ac_state, t.matches) in
      if r.reached_end
      then finish (written s ctx t t.payload_index r) ctx r.ac.1
      else tail_call (written s ctx t (u32 (t.payload_index + r.index)) r)

  -- A run that does not: it puts the initial state into the map, and scans with a copy of its own.
  unfoldable pub start : (ℕ → Option Row) → Packet → ℕ → State → Ended State
  unfolding scan finish
  start goto_func p ctx s =
      let t = record s {
        state_map =
            progress.update s.state_map ctx
              (record { payload_index = 0; ac_state = 1; matches = 0 });
      } in
      let r = scan goto_func p 0 2000 0 (1, 0) in
      if r.reached_end then finish t ctx r.ac.1 else tail_call t

  unfoldable pub run_with : (ℕ → Option Row) → Packet → ℕ → State → Option Progress → Ended State
  unfolding resume start
  run_with goto_func p ctx s none = start goto_func p ctx s
  run_with goto_func p ctx s (some t) = resume goto_func p ctx s t

  -- One run of `matchPayload` on a packet that passed the tests.
  unfoldable pub run_once : (ℕ → Option Row) → Packet → ℕ → State → Ended State
  unfolding run_with
  run_once goto_func p ctx s = run_with goto_func p ctx s (progress.lookup s.state_map ctx)

  -- The runs that are linked by tail calls, of which the kernel allows a number. A tail call that
  -- fails returns, and the packet passes.
  unfoldable pub runs : ℕ → (ℕ → Option Row) → Packet → ℕ → State → Action × State
  unfolding run_once
  runs zero goto_func p ctx s = elim (run_once goto_func p ctx s) [
    | verdict action t ↦ (action, t)
    | tail_call t ↦ (xdp_pass, t)
  ]
  runs (suc calls) goto_func p ctx s = elim (run_once goto_func p ctx s) [
    | verdict action t ↦ (action, t)
    | tail_call t ↦ runs calls goto_func p ctx t
  ]

  -- `matchPayload`; the tests give the same after each tail call.
  unfoldable pub match_payload :
      ℕ → (ℕ → Option Row) → Packet → Option ℕ → ℕ → State → Option (Action × State)
  unfolding accepts runs
  match_payload calls goto_func p port ctx s = accepts p port >>= λ accepted.
      some (if accepted then runs calls goto_func p ctx s else (xdp_pass, s))
