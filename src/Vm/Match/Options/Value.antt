-- ===== src/Vm/Match/Options/Value.antt =====
-- What an option means for a packet, with no reading on first use: its value is whether it holds
-- and the tablearg target that it yields.
use ipfw_go.Prelude.{Bool, false, ◌&&◌, ◌≡◌, refl, ◌==◌}
use ipfw_go.Prelude.Int.{ℤ}
use ipfw_go.Rule.{Opt, OptKind}
use ipfw_go.Vm.Fields.Cache.{
  packet_source_port, packet_destination_port, packet_flags, packet_icmp_type, Reads,
  read_fragment-Reads, read_fragment-fragment, read_ports-Reads, read_ports-source_port,
  read_ports-destination_port, read_flags-Reads, read_flags-flags, read_icmp-Reads,
  read_icmp-icmp_type,
}
use ipfw_go.Vm.Fields.{Fields}
use ipfw_go.Vm.Machine.{Machine}
use ipfw_go.Vm.Match.Options.{
  Matched, flags_established, flags_satisfy, type_in, custom_holds, match_via, option_kind,
  match_option,
}
use ipfw_go.Vm.Match.{no_target, has_in_range, match_policy, is_direction}
use ipfw_go.Vm.Network.{TableRegistry}
use ipfw_go.Vm.Packet.{
  Context, inbound, outbound, ipv6, version_eq, Packet, proto_icmp, proto_icmpv6,
}

-- The first two parts of a result are `v`, and its fields still agree with the packet.
abbrev pub Gives : Packet → Bool × ℤ → Matched → Type 0
Gives pkt v r = (r.0 ≡ v.0) × (r.1 ≡ v.1) × Reads pkt r.2

module _ {V4 V6 R F : Type 0} (reg : TableRegistry V4 V6 R F) (m : Machine V4 V6 R) where
  abbrev value_kind : Opt → Context → Packet → OptKind → Bool × ℤ
  value_kind o ctx pkt OptKind.keep_state = (match_policy o.kind ctx, no_target)
  value_kind o ctx pkt OptKind.comment = (match_policy o.kind ctx, no_target)
  value_kind o ctx pkt OptKind.diverted = (match_policy o.kind ctx, no_target)
  value_kind o ctx pkt OptKind.anti_spoof = (match_policy o.kind ctx, no_target)
  value_kind o ctx pkt OptKind.custom = (custom_holds m.matcher o ctx pkt, no_target)
  value_kind o ctx pkt OptKind.established = (flags_established (packet_flags pkt), no_target)
  value_kind o ctx pkt OptKind.tcp_flags = (flags_satisfy (packet_flags pkt) o.tcp_flags, no_target)
  value_kind o ctx pkt OptKind.source_port =
      (has_in_range (packet_source_port pkt) o.ports, no_target)
  value_kind o ctx pkt OptKind.destination_port =
      (has_in_range (packet_destination_port pkt) o.ports, no_target)
  value_kind o ctx pkt OptKind.proto = (pkt.protocol == o.proto.number, no_target)
  value_kind o ctx pkt OptKind.dir_in = (is_direction inbound ctx.direction, no_target)
  value_kind o ctx pkt OptKind.dir_out = (is_direction outbound ctx.direction, no_target)
  value_kind o ctx pkt OptKind.via = match_via reg m o.via ctx
  value_kind o ctx pkt OptKind.frag = (pkt.is_fragment, no_target)
  value_kind o ctx pkt OptKind.icmp_types =
      (pkt.protocol == proto_icmp && type_in (packet_icmp_type pkt) o.types, no_target)
  value_kind o ctx pkt OptKind.icmp6_types = (
    version_eq pkt.version ipv6
        && (pkt.protocol == proto_icmpv6 && type_in (packet_icmp_type pkt) o.types),
    no_target,
  )
  value_kind o ctx pkt OptKind.unset = (false, no_target)

  abbrev pub option_value : Opt → Context → Packet → Bool × ℤ
  option_value o ctx pkt = value_kind o ctx pkt o.kind

  option_kind-Gives :
      (o : Opt) (ctx : Context) {pkt : Packet} {f : Fields} (k : OptKind)
      → Reads pkt f
      → Gives pkt (value_kind o ctx pkt k) (option_kind reg m o ctx pkt f k)
  option_kind-Gives o ctx OptKind.established r =
      (rw (read_flags-flags r), refl, read_flags-Reads r)
  option_kind-Gives o ctx OptKind.tcp_flags r = (rw (read_flags-flags r), refl, read_flags-Reads r)
  option_kind-Gives o ctx OptKind.source_port r =
      (rw (read_ports-source_port r), refl, read_ports-Reads r)
  option_kind-Gives o ctx OptKind.destination_port r =
      (rw (read_ports-destination_port r), refl, read_ports-Reads r)
  option_kind-Gives o ctx OptKind.proto r = (rw r.protocol, refl, r)
  option_kind-Gives o ctx OptKind.frag r = (read_fragment-fragment r, refl, read_fragment-Reads r)
  option_kind-Gives o ctx {pkt} {f} OptKind.icmp_types r =
      let g = read_icmp-Reads r in (rw (read_icmp-icmp_type r, g.protocol), refl, g)
  option_kind-Gives o ctx OptKind.icmp6_types r =
      let g = read_icmp-Reads r in (rw (read_icmp-icmp_type r, g.protocol, g.version), refl, g)
  option_kind-Gives o ctx _ r = (refl, refl, r)

  -- An option gives its value whatever has been read before.
  pub match_option-Gives :
      (o : Opt) (ctx : Context) {pkt : Packet} {f : Fields}
      → Reads pkt f
      → Gives pkt (option_value o ctx pkt) (match_option reg m o ctx pkt f)
  unfolding match_option
  match_option-Gives o ctx r = option_kind-Gives o ctx o.kind r
