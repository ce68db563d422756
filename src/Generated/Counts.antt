-- ===== src/Generated/Counts.antt =====
-- The generated programs that keep one map of counts or marks: CountSyscalls, ForceKill and
-- TrafficCounter (lib/src/*.bpf.c in the examples of those names). Values of a map are `Generic`.
use honey_potion.Base.{◌+◌, ◌*◌, ℤ, pos, ◌+ℤ◌, s32, to_unsigned, ltb, leb, if◌then◌else◌}
use honey_potion.Bpf.{HashMap}
use honey_potion.Bpf.Array.{ArrayMap}
use honey_potion.Packet.{Packet}
use honey_potion.Runtime.Values.{Generic, int}
use honey_potion.Runtime.Compare.{to_bool}
use honey_potion.Generated.Machine.{State, Action, Found, ◌>>=◌, ◌>>◌, pure, main}
use honey_potion.Generated.Access.{
  int_key, set_maps, reading, value_or_fail, value_or_zero, array_update,
}
use honey_potion.Generated.Constants.{SyscallsEnterArgs, SyscallsEnterKillArgs, int_eq}

module _ (counts : ArrayMap Generic) where
  -- CountSyscalls
  unfoldable pub count_user : ℤ → Action counts.Map ℤ
  unfolding s32 value_or_fail ◌+ℤ◌
  count_user id = reading λ m. do
    count ← value_or_fail (counts.lookup m (to_unsigned id)) "Count_Sys_Calls_Invoked"
    let (r, n) = array_update counts m id (int (s32 (count +ℤ pos 1))) in (set_maps n >> pure r)

  unfoldable pub count_syscalls_main :
      Found → SyscallsEnterArgs → State counts.Map → ℤ × State counts.Map
  unfolding main s32 count_user
  count_syscalls_main found ctx = main found (count_user (s32 ctx.id))

module _ (kills : HashMap int_key Generic) where
  -- ForceKill. The value of its cond is not used.
  unfoldable pub force_kill_main :
      Found → SyscallsEnterKillArgs → State kills.Map → ℤ × State kills.Map
  unfolding main s32 to_bool
  force_kill_main found ctx = main found do
    reading λ m.
        if to_bool (int_eq (s32 ctx.sig) (pos 9))
        then set_maps (kills.insert m (s32 ctx.pid) (int (pos 1)))
        else pure tt
    pure (pos 0)

-- The first four bytes of the source address, at offset 6 of the frame: the map's `key_size` is
-- `sizeof(int)`.
abbrev pub source_key : Packet → ℤ
source_key p = pos (p.byte 6 + 256 * (p.byte 7 + 256 * (p.byte 8 + 256 * p.byte 9)))

module _ (counts : HashMap int_key Generic) where
  -- TrafficCounter, whose verdicts are XDP_ABORTED (0) and XDP_PASS (2). The address of the source
  -- field is never null.
  unfoldable pub traffic_user : Packet → Action counts.Map ℤ
  unfolding s32 value_or_zero ◌+ℤ◌
  traffic_user p =
      if ltb p.size 14
      then pure (pos 0)
      else if leb p.size (6 + 7)
      then pure (pos 2)
      else reading λ m. do
        set_maps (
            counts.update m (source_key p)
              (int (s32 (value_or_zero (counts.lookup m (source_key p)) +ℤ pos 1))))
        pure (pos 2)

  unfoldable pub traffic_counter_main : Found → Packet → State counts.Map → ℤ × State counts.Map
  unfolding main traffic_user
  traffic_counter_main found p = main found (traffic_user p)
