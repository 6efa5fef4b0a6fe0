-- ===== src/Vm/Match/Options.antt =====
-- vm/vm.go: `matchOptions`, `matchOption` and `matchVia`.
pub mod Value
pub mod Meaning
pub mod Blocks
pub mod Members
pub mod Loop
use ipfw_go.Prelude.{
  ℕ, zero, suc, ◌+◌, Bool, true, false, not, ◌&&◌, List, [], ◌∷◌, Option, none, some, Bytes,
  bytes_eq, ◌==◌, ◌!=◌, if◌then◌else◌, length, bit_and,
}
use ipfw_go.IfMask.{match_if_mask}
use ipfw_go.Prelude.Int.{ℤ, int_eq}
use ipfw_go.Rule.{Opt, OptKind, Via, ViaKind, TypeSet, TcpFlags, type_set_has, tcp_syn}
use ipfw_go.Vm.Fields.{Fields, read_fragment, read_ports, read_flags, read_icmp}
use ipfw_go.Vm.Machine.{Machine}
use ipfw_go.Vm.Match.Targets.{table_target}
use ipfw_go.Vm.Match.{no_target, has_in_range, match_policy, is_direction, in_range}
use ipfw_go.Vm.Network.{TableRegistry, OptionMatcher}
use ipfw_go.Vm.Packet.{
  Context, inbound, outbound, ipv6, version_eq, Packet, proto_icmp, proto_icmpv6,
}

-- What an option gives: whether it holds, its tablearg target, and the fields read for it.
abbrev pub Matched : Type 0
Matched = Bool × ℤ × Fields

-- TCPSyn|TCPAck|TCPRst
abbrev established_mask : ℕ
established_mask = 22

abbrev pub flags_established : Option ℕ → Bool
flags_established none = false
flags_established (some flags) = not (bit_and flags established_mask == tcp_syn)

abbrev pub flags_satisfy : Option ℕ → TcpFlags → Bool
flags_satisfy none want = false
flags_satisfy (some flags) want =
    bit_and flags want.set_flags == want.set_flags && bit_and flags want.clear_flags == 0

abbrev pub type_in : Option ℕ → TypeSet → Bool
type_in none types = false
type_in (some ty) types = type_set_has types ty

-- Go panics on a custom option with no matcher, which `Build` refuses.
abbrev pub custom_holds : Option OptionMatcher → Opt → Context → Packet → Bool
custom_holds none opt ctx pkt = false
custom_holds (some matcher) opt ctx pkt = matcher opt ctx pkt

-- A target found replaces the one before it.
abbrev pub newer : ℤ → ℤ → ℤ
newer found target = if int_eq found no_target then target else found

-- The options behind those of the block.
pub skip_block : ℕ → List Opt → List Opt
skip_block block [] = []
skip_block block (o ∷ os) = if o.block == block then skip_block block os else o ∷ os

abbrev start_pattern : ℤ → Matched → Matched
start_pattern target (held, found, f) = (held, newer found target, f)

-- The end of the body of the loop: on with the next block or pattern, or the rule fails.
abbrev after_pattern :
    (ℤ → Fields → List Opt → Option Matched) → Opt → Bool × List Opt × Matched → Option Matched
after_pattern loop first (more, os, (held, target, f)) =
    if held != first.neg
    then loop target f (if more then skip_block first.block os else os)
    else if more
    then loop target f os
    else some (false, no_target, f)

abbrev or_unmatched : Fields → Option Matched → Matched
or_unmatched f none = (false, no_target, f)
or_unmatched f (some r) = r

module _ {V4 V6 R F : Type 0} (reg : TableRegistry V4 V6 R F) (m : Machine V4 V6 R) where
  abbrev via_entry : Option Bytes → Bool × ℤ
  via_entry none = (false, no_target)
  via_entry (some value) = (true, table_target m value)

  abbrev via_kind : Via → Context → ViaKind → Bool × ℤ
  via_kind via ctx ViaKind.exact = (bytes_eq ctx.if_name via.name, no_target)
  via_kind via ctx ViaKind.mask = (match_if_mask via.name ctx.if_name, no_target)
  via_kind via ctx ViaKind.table = via_entry (reg.lookup_interface m.tables via.name ctx.if_name)
  via_kind via ctx ViaKind.unset = (false, no_target)

  -- `matchVia`
  unfoldable pub match_via : Via → Context → Bool × ℤ
  unfolding bytes_eq match_if_mask table_target
  match_via via ctx = via_kind via ctx via.kind

  -- `matchOption`
  abbrev option_kind : Opt → Context → Packet → Fields → OptKind → Matched
  option_kind o ctx pkt f OptKind.keep_state = (match_policy o.kind ctx, no_target, f)
  option_kind o ctx pkt f OptKind.comment = (match_policy o.kind ctx, no_target, f)
  option_kind o ctx pkt f OptKind.diverted = (match_policy o.kind ctx, no_target, f)
  option_kind o ctx pkt f OptKind.anti_spoof = (match_policy o.kind ctx, no_target, f)
  option_kind o ctx pkt f OptKind.custom = (custom_holds m.matcher o ctx pkt, no_target, f)
  option_kind o ctx pkt f OptKind.established =
      let g = read_flags pkt f in (flags_established g.flags, no_target, g)
  option_kind o ctx pkt f OptKind.tcp_flags =
      let g = read_flags pkt f in (flags_satisfy g.flags o.tcp_flags, no_target, g)
  option_kind o ctx pkt f OptKind.source_port =
      let g = read_ports pkt f in (has_in_range g.source_port o.ports, no_target, g)
  option_kind o ctx pkt f OptKind.destination_port =
      let g = read_ports pkt f in (has_in_range g.destination_port o.ports, no_target, g)
  option_kind o ctx pkt f OptKind.proto = (f.protocol == o.proto.number, no_target, f)
  option_kind o ctx pkt f OptKind.dir_in = (is_direction inbound ctx.direction, no_target, f)
  option_kind o ctx pkt f OptKind.dir_out = (is_direction outbound ctx.direction, no_target, f)
  option_kind o ctx pkt f OptKind.via = let (held, found) = match_via o.via ctx in (held, found, f)
  option_kind o ctx pkt f OptKind.frag = let g = read_fragment pkt f in (g.fragment, no_target, g)
  option_kind o ctx pkt f OptKind.icmp_types =
      let g = read_icmp pkt f in
      (g.protocol == proto_icmp && type_in g.icmp_type o.types, no_target, g)
  option_kind o ctx pkt f OptKind.icmp6_types =
      let g = read_icmp pkt f in
      (
        version_eq g.version ipv6 && (g.protocol == proto_icmpv6 && type_in g.icmp_type o.types),
        no_target,
        g,
      )
  option_kind o ctx pkt f OptKind.unset = (false, no_target, f)

  unfoldable pub match_option : Opt → Context → Packet → Fields → Matched
  unfolding match_policy match_via read_flags read_ports read_fragment read_icmp in_range
      type_set_has version_eq
  match_option o ctx pkt f = option_kind o ctx pkt f o.kind

  -- A member of the pattern behind the first: ports are compared in place, and nothing is read once
  -- the pattern has matched.
  abbrev member_kind : Opt → Context → Packet → ℤ → Fields → OptKind → Matched
  member_kind o ctx pkt target f OptKind.source_port =
      let g = read_ports pkt f in (has_in_range g.source_port o.ports, target, g)
  member_kind o ctx pkt target f OptKind.destination_port =
      let g = read_ports pkt f in (has_in_range g.destination_port o.ports, target, g)
  member_kind o ctx pkt target f _ =
      let (held, found, g) = match_option o ctx pkt f in (held, newer found target, g)

  pub match_member : Opt → Context → Packet → Matched → Matched
  unfolding match_option read_ports in_range int_eq
  match_member o ctx pkt (true, target, f) = (true, target, f)
  match_member o ctx pkt (false, target, f) = member_kind o ctx pkt target f o.kind

  -- Where the inner loop of `matchOptions` stops: whether another pattern of the block comes, the
  -- options that are left, and what the pattern gave.
  pub members : Context → Packet → Opt → List Opt → Matched → Bool × List Opt × Matched
  unfolding match_member
  members ctx pkt first [] r = (false, [], r)
  members ctx pkt first (o ∷ os) r =
      let rest = members ctx pkt first os (match_member o ctx pkt r) in
      if not (o.block == first.block)
      then (false, o ∷ os, r)
      else if not (o.pattern == first.pattern)
      then (true, o ∷ os, r)
      else rest

  -- The loop of `matchOptions`; `none` means that the fuel ran out.
  pub options_loop : ℕ → Context → Packet → ℤ → Fields → List Opt → Option Matched
  unfolding members skip_block match_option int_eq
  options_loop zero ctx pkt target f os = none
  options_loop (suc n) ctx pkt target f [] = some (true, target, f)
  options_loop (suc n) ctx pkt target f (o ∷ os) =
      after_pattern (options_loop n ctx pkt) o
        (members ctx pkt o os (start_pattern target (match_option o ctx pkt f)))

  pub options_run : Context → Packet → Fields → List Opt → Option Matched
  unfolding options_loop
  options_run ctx pkt f os = options_loop (length os + 1) ctx pkt no_target f os

  -- `matchOptions`: `Loop.match_options-Gives` shows that the run always ends.
  unfoldable pub match_options : List Opt → Context → Packet → Fields → Matched
  unfolding options_run
  match_options os ctx pkt f = or_unmatched f (options_run ctx pkt f os)
