-- ===== src/Vm/Match/Body/Meaning.antt =====
-- What a rule means for a packet, and that `matches` computes it.
use ipfw_go.Prelude.Int.{ℤ}
use ipfw_go.Prelude.{
  ℕ, Bool, true, false, not, ◌&&◌, ◌||◌, List, Option, ◌≡◌, refl, if◌then◌else◌, Bool-cases, inl,
  inr,
}
use ipfw_go.Rule.{PortNumberMatch, ProtoIpMatch, ProtoNumberMatch, TargetMatch}
use ipfw_go.Vm.Fields.Cache.{
  Reads, packet_source_port, packet_destination_port, read_ports-Reads, read_ports-source_port,
  read_ports-destination_port,
}
use ipfw_go.Vm.Fields.{Fields, addr_family, read_fields}
use ipfw_go.Vm.Machine.{Machine}
use ipfw_go.Vm.Match.Body.{
  port_in, match_protocols, options_stage, destination_port_stage, source_port_stage, matches,
}
use ipfw_go.Vm.Match.Options.Loop.{match_options-Gives}
use ipfw_go.Vm.Match.Options.Meaning.{options_value}
use ipfw_go.Vm.Match.Options.Value.{Gives, option_value}
use ipfw_go.Vm.Match.Options.{Matched}
use ipfw_go.Vm.Match.Targets.Scan.{side_holds, member_holds, match_side-side_holds}
use ipfw_go.Vm.Match.Targets.{match_side}
use ipfw_go.Vm.Match.{no_target}
use ipfw_go.Vm.Network.{Network, TableRegistry}
use ipfw_go.Vm.Packet.{Addr, IpVersion, Context, Packet}
use ipfw_go.Vm.Program.{Rule, Span, is_empty, run_of}

module _ {V4 V6 R F : Type 0} (n4 : Network V4) (n6 : Network V6) (reg : TableRegistry V4 V6 R F)
    (m : Machine V4 V6 R) (r : Rule) (ctx : Context) (pkt : Packet) where
  -- The options: none hold, with no target.
  abbrev pub options_part : Bool × ℤ
  options_part =
      if is_empty r.options
      then (true, no_target)
      else options_value (λ o. option_value reg m o ctx pkt) no_target
          (run_of m.program.options r.options)

  -- No ports, or a port that means something for the packet and is in the list.
  abbrev pub ports_hold : Span → List PortNumberMatch → Option ℕ → Bool
  ports_hold at all port = is_empty at || port_in (run_of all at) port

  abbrev pub protocols_hold : Bool
  protocols_hold =
      match_protocols (not (is_empty r.ip_protos)) (not (is_empty r.protos))
        (run_of m.program.ip_protos r.ip_protos) (run_of m.program.protos r.protos)
        (read_fields pkt)

  abbrev pub source_holds : Bool
  source_holds =
      side_holds (member_holds n4 n6 reg m ctx pkt.source_addr (addr_family pkt.source_addr))
        (run_of m.program.sources r.sources)

  abbrev pub destination_holds : Bool
  destination_holds =
      side_holds
        (member_holds n4 n6 reg m ctx pkt.destination_addr (addr_family pkt.destination_addr))
        (run_of m.program.destinations r.destinations)

  -- The parts of the body, each of which has to hold.
  abbrev pub body_holds : Bool
  body_holds =
      protocols_hold
      && (source_holds
          && (destination_holds
              && (ports_hold r.source_ports m.program.source_ports (packet_source_port pkt)
                  && ports_hold r.destination_ports m.program.destination_ports
                      (packet_destination_port pkt))))

  -- Whether the packet satisfies the rule, and the tablearg target of its options.
  abbrev pub rule_value : Bool × ℤ
  rule_value = if body_holds then options_part else (false, no_target)

  options_stage-Gives :
      {f : Fields} → Reads pkt f → Gives pkt options_part (options_stage n4 n6 reg m r ctx pkt f)
  options_stage-Gives {f} rd = elim (Bool-cases (is_empty r.options)) [
    | inl e ↦ rw e (refl, refl, rd)
    | inr e ↦ rw e (match_options-Gives reg m ctx pkt (run_of m.program.options r.options) f rd).1
  ]

  abbrev failed : Bool × ℤ
  failed = (false, no_target)

  -- A test of the ports in front of the rest of the rule.
  stage :
      (at : Span) (all : List PortNumberMatch) (port port' : Option ℕ) (v : Bool × ℤ)
      {a b : Matched} {g : Fields}
      → port ≡ port'
      → Gives pkt v a
      → Gives pkt v b
      → Reads pkt g
      → Gives pkt (if ports_hold at all port' then v else failed) (
          if is_empty at
          then a
          else if port_in (run_of all at) port
          then b
          else (false, no_target, g))
  stage at all port port' v e ga gb rd = elim (Bool-cases (is_empty at)) [
    | inl none_given ↦ rw none_given ga
    | inr some_given ↦ elim (Bool-cases (port_in (run_of all at) port)) [
      | inl y ↦ rw (some_given, ← e, y) gb
      | inr n ↦ rw (some_given, ← e, n) (refl, refl, rd)
    ]
  ]

  abbrev source_ports_hold : Bool
  source_ports_hold = ports_hold r.source_ports m.program.source_ports (packet_source_port pkt)

  abbrev destination_ports_hold : Bool
  destination_ports_hold =
      ports_hold r.destination_ports m.program.destination_ports (packet_destination_port pkt)

  abbrev after_ports : Bool × ℤ
  after_ports = if destination_ports_hold then options_part else failed

  destination_port_stage-Gives :
      {f : Fields}
      → Reads pkt f
      → Gives pkt after_ports (destination_port_stage n4 n6 reg m r ctx pkt f)
  destination_port_stage-Gives rd =
      stage r.destination_ports m.program.destination_ports _ _ options_part
        (read_ports-destination_port rd) (options_stage-Gives rd)
        (options_stage-Gives (read_ports-Reads rd)) (read_ports-Reads rd)

  source_port_stage-Gives :
      {f : Fields}
      → Reads pkt f
      → Gives pkt
          (if source_ports_hold then after_ports else failed)
          (source_port_stage n4 n6 reg m r ctx pkt f)
  source_port_stage-Gives rd =
      stage r.source_ports m.program.source_ports _ _ after_ports (read_ports-source_port rd)
        (destination_port_stage-Gives rd) (destination_port_stage-Gives (read_ports-Reads rd))
        (read_ports-Reads rd)

  -- The five parts under one test, for the four tests one after the other.
  one_by_one :
      (p s d : Bool) {p' s' d' : Bool} (sp dp : Bool) (v : Bool × ℤ) {a : Matched} {f : Fields}
      → p' ≡ p
      → s' ≡ s
      → d' ≡ d
      → Reads pkt f
      → Gives pkt (if sp then (if dp then v else failed) else failed) a
      → Gives pkt (if p && (s && (d && (sp && dp))) then v else failed) (
          if not p'
          then (false, no_target, f)
          else if not s'
          then (false, no_target, f)
          else if not d'
          then (false, no_target, f)
          else a)
  one_by_one false s d sp dp v ep es ed rd g = rw ep (refl, refl, rd)
  one_by_one true false d sp dp v ep es ed rd g = rw (ep, es) (refl, refl, rd)
  one_by_one true true false sp dp v ep es ed rd g = rw (ep, es, ed) (refl, refl, rd)
  one_by_one true true true false dp v ep es ed rd g = rw (ep, es, ed) g
  one_by_one true true true true dp v ep es ed rd g = rw (ep, es, ed) g

  match_protocols-read :
      {f : Fields} (a b : Bool) (ips : List ProtoIpMatch) (ps : List ProtoNumberMatch)
      → Reads pkt f
      → match_protocols a b ips ps f ≡ match_protocols a b ips ps (read_fields pkt)
  unfolding match_protocols read_fields
  match_protocols-read a b ips ps rd = rw (rd.version, rd.protocol)

  side-read :
      (ts : List (TargetMatch V4 V6)) {addr addr' : Addr} {family family' : IpVersion}
      → addr ≡ addr'
      → family ≡ family'
      → match_side n4 n6 reg m ts ctx addr family
        ≡ side_holds (member_holds n4 n6 reg m ctx addr' family') ts
  side-read ts ea ef = rw (ea, ef) (match_side-side_holds n4 n6 reg m ts ctx _ _)

  -- A rule's match, whatever has been read from the packet before it: it gives whether the protocols,
  -- both sides, both port lists and every options block hold for what the packet reports, with the
  -- tablearg target of the options.
  pub matches-Gives :
      {f : Fields} → Reads pkt f → Gives pkt rule_value (matches n4 n6 reg m r ctx pkt f)
  unfolding matches
  matches-Gives {f} rd =
      one_by_one _ _ _ source_ports_hold destination_ports_hold options_part
        (match_protocols-read (not (is_empty r.ip_protos)) (not (is_empty r.protos))
          (run_of m.program.ip_protos r.ip_protos) (run_of m.program.protos r.protos) rd)
        (side-read (run_of m.program.sources r.sources) rd.source rd.source_family)
        (side-read (run_of m.program.destinations r.destinations) rd.destination
          rd.destination_family)
        rd (source_port_stage-Gives rd)
