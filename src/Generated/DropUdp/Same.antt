-- ===== src/Generated/DropUdp/Same.antt =====
-- The generated filter against the hand-written one of benchmarks/dropudp.
use honey_potion.Base.{
  ℕ, ◌+◌, ◌≤◌, ◌≡◌, refl, ◌∙◌, is_some, ap, ℤ, Bool, true, false, ◌*◌, ◌&&◌, ◌||◌, not, Bool-cases,
  inl, inr, Option, none, some, ltb, leb, ◌==◌, if◌then◌else◌, arith,
}
use honey_potion.Bpf.Array.{ArrayMap}
use honey_potion.Packet.{
  Packet, Action, xdp_aborted, xdp_drop, xdp_pass, xdp_tx, xdp_redirect, ◌>>=◌, swap16,
}
use honey_potion.Runtime.Compare.{to_bool}
use honey_potion.Generated.Machine.{State, boot, catch, all_found}
use honey_potion.Generated.Boot.{fresh}
use honey_potion.Generated.DropUdp.{Ended, verdict, on_port, on_protocol, drop_user, drop_udp_main}
use honey_potion.DropUdp.{
  Outcome, filter_port, filter_protocol, filter_frame, drop_xdp, edit_dest_port_udp,
  get_dest_port_udp, get_protocol_ipv4, get_protocol_ipv6,
}

abbrev pub number : Action → ℕ
number xdp_aborted = 0
number xdp_drop = 1
number xdp_pass = 2
number xdp_tx = 3
number xdp_redirect = 4

module _ (counts : ArrayMap ℤ) where
  -- What the two programs leave is the same verdict and the same packet.
  abbrev pub outcome_end : Option (Outcome counts) → Ended
  outcome_end none = none
  outcome_end (some o) = verdict (number o.action) o.packet

  port-same :
      (p : Packet) (m : counts.Map) (nh_off port : ℕ)
      → nh_off + 8 ≤ p.size
      → on_port p nh_off port ≡ outcome_end (filter_port counts p m nh_off port)
  unfolding on_port filter_port edit_dest_port_udp to_bool
  port-same p m nh_off port room = ground arith

  -- A UDP header, where there is one, is whole.
  abbrev pub has_udp_header : Packet → ℕ → ℕ → Bool
  has_udp_header p nh_off protocol = not (protocol == 17) || leb (nh_off + 8) p.size

  protocol-same :
      (p : Packet) (m : counts.Map) (nh_off protocol : ℕ)
      → has_udp_header p nh_off protocol ≡ true
      → on_protocol p nh_off protocol ≡ outcome_end (filter_protocol counts p m (protocol, nh_off))
  unfolding on_protocol filter_protocol get_dest_port_udp
  protocol-same p m nh_off protocol whole = elim (Bool-cases (protocol == 17)) [
    | inl udp ↦
        let room : nh_off + 8 ≤ p.size = ground (arith, whole, udp) in
        ground (
          arith,
          udp,
          room,
          port-same p m nh_off (swap16 (p.byte (nh_off + 2) + 256 * p.byte (nh_off + 2 + 1))) room,
        )
    | inr other ↦ ground (arith, other)
  ]

  protocol_short :
      (p : Packet) (nh_off protocol : ℕ)
      → has_udp_header p nh_off protocol ≡ false
      → on_protocol p nh_off protocol ≡ verdict 0 p
  unfolding on_protocol
  protocol_short p nh_off protocol short = ground (arith, short)

  -- The headers that the frame announces lie inside it.
  abbrev pub is_whole : Packet → Bool
  is_whole p =
      let h_proto = p.byte 12 + 256 * p.byte 13 in
      leb 14 p.size
      && (if h_proto == swap16 0x0800
          then leb 34 p.size && has_udp_header p 34 (p.byte 23)
          else if h_proto == swap16 0x86dd
          then leb 54 p.size && has_udp_header p 54 (p.byte 20)
          else true)

  drop_user-drop_xdp :
      (p : Packet) (m : counts.Map)
      → drop_user p ≡ (if is_whole p then outcome_end (drop_xdp counts p m) else verdict 0 p)
  unfolding drop_user drop_xdp filter_frame get_protocol_ipv4 get_protocol_ipv6
  drop_user-drop_xdp p m = elim (Bool-cases (ltb p.size 14)) [
    | inl short ↦ ground (arith, short)
    | inr long ↦ elim (Bool-cases (p.byte 12 + 256 * p.byte 13 == swap16 0x0800)) [
      | inl ip ↦ elim (Bool-cases (ltb p.size 34)) [
        | inl cut ↦ ground (arith, long, ip, cut)
        | inr room ↦ elim (Bool-cases (has_udp_header p 34 (p.byte 23))) [
          | inl whole ↦
              ground (arith, long, ip, room, whole, protocol-same p m 34 (p.byte 23) whole)
          | inr part ↦ ground (arith, long, ip, room, part, protocol_short p 34 (p.byte 23) part)
        ]
      ]
      | inr not_ip ↦ elim (Bool-cases (p.byte 12 + 256 * p.byte 13 == swap16 0x86dd)) [
        | inl ip6 ↦ elim (Bool-cases (ltb p.size 54)) [
          | inl cut ↦ ground (arith, long, not_ip, ip6, cut)
          | inr room ↦ elim (Bool-cases (has_udp_header p 54 (p.byte 20))) [
            | inl whole ↦
                ground
                  (arith, long, not_ip, ip6, room, whole, protocol-same p m 54 (p.byte 20) whole)
            | inr part ↦
                ground (arith, long, not_ip, ip6, room, part, protocol_short p 54 (p.byte 20) part)
          ]
        ]
        | inr unknown ↦ ground (arith, long, not_ip, unknown)
      ]
    ]
  ]

  drop_xdp_inside : (p : Packet) (m : counts.Map) → is_some (drop_xdp counts p m) ≡ true
  unfolding drop_xdp filter_frame filter_protocol filter_port get_protocol_ipv4 get_protocol_ipv6
      get_dest_port_udp edit_dest_port_udp
  drop_xdp_inside p m = ground arith

  outcome_end_inside :
      (o : Option (Outcome counts)) → is_some o ≡ true → is_some (outcome_end o) ≡ true
  outcome_end_inside none h = absurd (ground (arith, h))
  outcome_end_inside (some o) h = refl

  end_inside :
      (p : Packet) (m : counts.Map)
      → is_some (if is_whole p then outcome_end (drop_xdp counts p m) else verdict 0 p) ≡ true
  end_inside p m = elim (Bool-cases (is_whole p)) [
    | inl whole ↦ rw whole (outcome_end_inside (drop_xdp counts p m) (drop_xdp_inside p m))
    | inr part ↦ rw part refl
  ]

  -- The end of a run of the user code after the prologue.
  abbrev pub finished : {M : Type 0} → State M → Ended → Option ((ℤ × State M) × Packet)
  finished s e = e >>= λ r. some (catch (r.0, record s { memory = fresh s.memory }), r.1)

  finished_inside :
      {M : Type 0} (s : State M) (e : Ended) → is_some e ≡ true → is_some (finished s e) ≡ true
  finished_inside s none h = absurd (ground (arith, h))
  finished_inside s (some e) h = refl

  -- On a frame whose headers are whole the generated program returns the verdict of the
  -- hand-written one and leaves the same packet. On any other frame it returns XDP_ABORTED and
  -- leaves the packet alone. Neither program accesses a byte outside the frame.
  pub drop_udp_main-drop_xdp :
      {M : Type 0} (p : Packet) (s : State M) (m : counts.Map)
      → (drop_udp_main all_found p s
          ≡ finished s (if is_whole p then outcome_end (drop_xdp counts p m) else verdict 0 p))
        × (is_some (drop_udp_main all_found p s) ≡ true)
        × (is_some (drop_xdp counts p m) ≡ true)
  unfolding drop_udp_main boot catch
  drop_udp_main-drop_xdp p s m =
      let same = ap (finished s) (drop_user-drop_xdp p m) in
      (
        same,
        ap is_some same
            ∙ finished_inside s
                (if is_whole p then outcome_end (drop_xdp counts p m) else verdict 0 p)
                (end_inside p m),
        drop_xdp_inside p m,
      )
