-- ===== src/Factorial.antt =====
-- benchmarks/factorial: prog.c runs prog.bpf.c once per factor; the ring buffer brings back the
-- product and the next factor.
pub mod Result
mod Tests
use honey_potion.Base.{
  ℕ, zero, suc, ◌-◌, ℤ, pos, ◌*ℤ◌, ◌-ℤ◌, s32, Bool, not, Option, none, some, List, [], ◌∷◌, ◌==◌,
  beq_ℤ, leb_ℤ, if◌then◌else◌,
}

-- `struct event`
pub record FactEvent : Type 0 where
  pub result : ℤ
  pub continuing : ℤ
  pub next_factor : ℤ

-- `handle_tp`, with the memory that the ring buffer reserves, if any, and the globals of the
-- program. A product of two `int` wraps around in the register.
unfoldable pub handle_tp : Option FactEvent → ℕ → ℕ → ℤ → ℤ → Option FactEvent
handle_tp reserved pid my_pid last_result factor =
    if not (pid == my_pid) then none else elim reserved [
      | none ↦ none
      | some e ↦
          if leb_ℤ factor (pos 1)
          then some (record e { result = last_result })
          else some (record {
            continuing = pos 1;
            result = s32 (last_result *ℤ factor);
            next_factor = s32 (factor -ℤ pos 1);
          })
    ]

-- The globals of prog.c.
pub record Host : Type 0 where
  pub last_ret_val : ℤ
  pub current_factor : ℤ
  pub continuing : ℤ

abbrev pub input_value : ℤ
input_value = pos 10

abbrev pub initial : Host
initial = record { last_ret_val = pos 1; current_factor = input_value; continuing = pos 1 }

-- `handle_event`
unfoldable pub handle_event : FactEvent → Host
handle_event e = record {
  last_ret_val = e.result;
  continuing = e.continuing;
  current_factor = e.next_factor;
}

-- A call of write(2) while the program is attached: who makes it, and the memory reserved for it.
pub record Write : Type 0 where
  pub pid : ℕ
  pub reserved : Option FactEvent

-- `while(!handle_executed)`: the first event of a round.
unfoldable pub respond : ℕ → ℤ → ℤ → List Write → Option FactEvent
unfolding handle_tp
respond my_pid last_result factor [] = none
respond my_pid last_result factor (w ∷ ws) =
    let later = respond my_pid last_result factor ws in
    elim (handle_tp w.reserved w.pid my_pid last_result factor) [ none ↦ later | some e ↦ some e ]

-- `while(continuing)`, one round for each unit of fuel; `none` is a loop that goes on.
unfoldable pub run : ℕ → ℕ → (ℕ → List Write) → Host → Option Host
unfolding respond handle_event
run zero my_pid rounds h = if beq_ℤ h.continuing (pos 0) then some h else none
run (suc fuel) my_pid rounds h =
    if beq_ℤ h.continuing (pos 0)
    then some h
    else elim (respond my_pid h.last_ret_val h.current_factor (rounds fuel)) [
      | none ↦ none
      | some e ↦ run fuel my_pid rounds (handle_event e)
    ]
