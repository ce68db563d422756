-- ===== src/Generated/DropUdp.antt =====
-- examples/drop_udp/lib/src/DropUdp.bpf.c: the generated filter of UDP packets. Its verdicts are
-- XDP_ABORTED (0), XDP_DROP (1) and XDP_PASS (2).
pub mod Same
use honey_potion.Base.{ℕ, ◌+◌, ℤ, pos, Option, none, some, ltb, leb, ◌==◌, if◌then◌else◌}
use honey_potion.Packet.{
  Packet, ◌>>=◌, load8, load16, store16, swap16, ethhdr_size, iphdr_size, ipv6hdr_size, udphdr_size,
  ipproto_udp,
}
use honey_potion.Runtime.Compare.{to_bool}
use honey_potion.Generated.Machine.{
  State, Result, ok, err, Fault, Found, boot, catch, case_clause_error,
}
use honey_potion.Generated.Constants.{int_eq}
use honey_potion.Generated.Fact.{matches_atom}

-- What the user code ends with, and the packet; `none` is an access outside the packet.
abbrev pub Ended : Type 0
Ended = Option (Result ℤ × Packet)

abbrev pub verdict : ℕ → Packet → Ended
verdict v p = some (ok (pos v), p)

-- The inner cond, on the destination port of a UDP packet, and the end of the program.
unfoldable pub on_port : Packet → ℕ → ℕ → Ended
unfolding to_bool
on_port p nh_off port =
    if to_bool (int_eq (pos port) (pos 3000))
    then verdict 1 p
    else if to_bool (int_eq (pos port) (pos 3001))
    then if leb (nh_off + udphdr_size) p.size
      then (store16 p (nh_off + 2) (swap16 3000) >>= λ q. verdict 2 q)
      else verdict 2 p
    else verdict 2 p

-- The case on whether the protocol is UDP.
unfoldable pub on_protocol : Packet → ℕ → ℕ → Ended
unfolding on_port
on_protocol p nh_off protocol =
    let is_udp = int_eq (pos protocol) (pos ipproto_udp) in
    if matches_atom is_udp (pos 3)
    then verdict 2 p
    else if matches_atom is_udp (pos 8)
    then if ltb p.size (nh_off + udphdr_size)
      then verdict 0 p
      else (load16 p (nh_off + 2) >>= λ dest. on_port p nh_off (swap16 dest))
    else some (err case_clause_error, p)

unfoldable pub drop_user : Packet → Ended
unfolding on_protocol
drop_user p =
    if ltb p.size ethhdr_size
    then verdict 0 p
    else load16 p 12 >>= λ h_proto.
        if h_proto == swap16 0x0800
        then if ltb p.size (ethhdr_size + iphdr_size)
          then verdict 0 p
          else (load8 p (ethhdr_size + 9) >>= λ protocol.
              on_protocol p (ethhdr_size + iphdr_size) protocol)
        else if h_proto == swap16 0x86dd
        then if ltb p.size (ethhdr_size + ipv6hdr_size)
          then verdict 0 p
          else (load8 p (ethhdr_size + 6) >>= λ nexthdr.
              on_protocol p (ethhdr_size + ipv6hdr_size) nexthdr)
        else verdict 2 p

module _ {M : Type 0} where
  -- The user code runs only after the prologue.
  unfoldable pub drop_udp_main : Found → Packet → State M → Option ((ℤ × State M) × Packet)
  unfolding boot catch drop_user
  drop_udp_main found p s = elim (boot found s).0 [
    | err e ↦ some (catch (err e, (boot found s).1), p)
    | ok _ ↦ drop_user p >>= λ r. some (catch (r.0, (boot found s).1), r.1)
  ]
