-- ===== src/Vm/Match/Body.antt =====
-- vm/vm.go: `matches`: the body of a rule and then its options.
pub mod Meaning
use ipfw_go.Prelude.{ℕ, Bool, true, false, not, ◌&&◌, List, Option, none, some, if◌then◌else◌}
use ipfw_go.Rule.{PortNumberMatch, ProtoIpMatch, ProtoNumberMatch}
use ipfw_go.Vm.Fields.{Fields, read_ports}
use ipfw_go.Vm.Machine.{Machine}
use ipfw_go.Vm.Match.Options.{Matched, match_options}
use ipfw_go.Vm.Match.Targets.{match_side}
use ipfw_go.Vm.Match.{no_target, match_ip_protos, match_protos, match_ports}
use ipfw_go.Vm.Network.{Network, TableRegistry}
use ipfw_go.Vm.Packet.{Context, Packet}
use ipfw_go.Vm.Program.{Rule, is_empty, run_of}

-- A port that is there and in the list.
abbrev pub port_in : List PortNumberMatch → Option ℕ → Bool
port_in ms none = false
port_in ms (some port) = match_ports ms port

-- The first tests of `matches`: with both lists present, one of them is enough.
unfoldable pub match_protocols :
    Bool → Bool → List ProtoIpMatch → List ProtoNumberMatch → Fields → Bool
unfolding match_ip_protos match_protos
match_protocols has_ip has_protos ips protos f =
    if has_ip && has_protos
    then not (not (match_ip_protos ips f.version) && not (match_protos protos f.protocol))
    else not (has_ip && not (match_ip_protos ips f.version))
      && not (has_protos && not (match_protos protos f.protocol))

module _ {V4 V6 R F : Type 0} (n4 : Network V4) (n6 : Network V6) (reg : TableRegistry V4 V6 R F)
    (m : Machine V4 V6 R) where
  abbrev options_stage : Rule → Context → Packet → Fields → Matched
  options_stage r ctx pkt f =
      if is_empty r.options
      then (true, no_target, f)
      else match_options reg m (run_of m.program.options r.options) ctx pkt f

  abbrev destination_port_stage : Rule → Context → Packet → Fields → Matched
  destination_port_stage r ctx pkt f =
      if is_empty r.destination_ports
      then options_stage r ctx pkt f
      else (let g = read_ports pkt f in
          if port_in (run_of m.program.destination_ports r.destination_ports) g.destination_port
          then options_stage r ctx pkt g
          else (false, no_target, g))

  abbrev source_port_stage : Rule → Context → Packet → Fields → Matched
  source_port_stage r ctx pkt f =
      if is_empty r.source_ports
      then destination_port_stage r ctx pkt f
      else (let g = read_ports pkt f in
          if port_in (run_of m.program.source_ports r.source_ports) g.source_port
          then destination_port_stage r ctx pkt g
          else (false, no_target, g))

  -- `matches`
  unfoldable pub matches : Rule → Context → Packet → Fields → Matched
  unfolding match_protocols match_side read_ports match_options
  matches r ctx pkt f =
      let p = m.program in
      let protocols =
        match_protocols (not (is_empty r.ip_protos)) (not (is_empty r.protos))
          (run_of p.ip_protos r.ip_protos) (run_of p.protos r.protos) f in
      let from = match_side n4 n6 reg m (run_of p.sources r.sources) ctx f.source f.source_family in
      let to =
        match_side n4 n6 reg m (run_of p.destinations r.destinations) ctx f.destination
          f.destination_family in
      if not protocols
      then (false, no_target, f)
      else if not from
      then (false, no_target, f)
      else if not to
      then (false, no_target, f)
      else source_port_stage r ctx pkt f
