-- ===== src/Generated/Boot.antt =====
-- The prologue and the end of a generated `main_func`, whatever the user code does.
use honey_potion.Base.{◌≡◌, Bool, true, false, not, ◌&&◌, ℤ, pos, ◌∷◌, if◌then◌else◌, arith}
use honey_potion.Generated.Machine.{
  Memory, State, Action, Fault, no_string_pool, no_string_pool_index, no_heap, no_heap_index, Found,
  caught, boot, catch, main, reset_strings,
}

abbrev pub is_complete : Found → Bool
is_complete found =
    found.string_pool
    && (found.string_pool_index
        && (found.heap && (found.heap_index && (found.tuple_pool && found.tuple_pool_index))))

-- The processor's memory when the user code starts.
abbrev pub fresh : Memory → Memory
fresh m = record (reset_strings m) { heap_index = 0; tuple_pool_index = 0 }

-- The exception of the first lookup that gives a null pointer.
abbrev pub boot_fault : Found → Fault
boot_fault found =
    if not found.string_pool
    then no_string_pool
    else if not found.string_pool_index
    then no_string_pool_index
    else if not found.heap
    then no_heap
    else if not found.heap_index
    then no_heap_index
    else if not found.tuple_pool
    then no_string_pool
    else no_string_pool_index

module _ {M : Type 0} where
  -- If one of the six lookups of the prologue gives a null pointer, then whatever the user code is,
  -- it does not run: the program returns 0, prints the message of the first missing lookup (that
  -- of the string pool for the tuple pool too) and nothing else, and leaves its maps alone.
  pub main_incomplete :
      (found : Found) (user : Action M ℤ) (s : State M)
      → is_complete found ≡ false
      → let r = main found user s in
        (r.0 ≡ pos 0) × (r.1.maps ≡ s.maps) × (r.1.output ≡ caught (boot_fault found) ∷ s.output)
  unfolding main boot catch
  main_incomplete found user s missing = ground arith

  pub main_complete :
      (found : Found) (user : Action M ℤ) (s : State M)
      → is_complete found ≡ true
      → main found user s ≡ catch (user (record s { memory = fresh s.memory }))
  unfolding main boot
  main_complete found user s complete = ground arith
