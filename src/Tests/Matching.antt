-- ===== src/Tests/Matching.antt =====
-- The matchers of options, addresses and ports on small inputs.
use ipfw_go.Errors.{ok}
use ipfw_go.Prelude.{any, ℕ, ◌!=◌, true, false, List, [], ◌∷◌, none, some, Bytes, ◌≡◌, refl, inl}
use ipfw_go.Resolver.Targets.{collect}
use ipfw_go.Resolver.{source_side, resolve_target}
use ipfw_go.Rule.{Opt, OptKind, TargetMatch, TargetKind, ViaKind, empty_type_set, PortNumberMatch}
use ipfw_go.Tests.Data.{nets4, nets6, registry, env, ask, host, here, packet_from}
use ipfw_go.Tests.Builds.{machine}
use ipfw_go.Vm.Fields.Cache.{read_fields-Reads}
use ipfw_go.Vm.Fields.{read_fields}
use ipfw_go.Vm.Match.Body.Meaning.{rule_value, matches-Gives}
use ipfw_go.Vm.Match.Body.{matches}
use ipfw_go.Vm.Match.Options.Loop.{match_options-Gives}
use ipfw_go.Vm.Match.Options.Meaning.{options_value}
use ipfw_go.Vm.Match.Options.Value.{Gives, option_value}
use ipfw_go.Vm.Match.Options.{options_run, match_options}
use ipfw_go.Vm.Match.Targets.Resolved.{in_networks, match_side-resolved}
use ipfw_go.Vm.Match.Targets.Scan.{side_holds, member_holds, match_side-side_holds}
use ipfw_go.Vm.Match.Targets.{match_side}
use ipfw_go.Vm.Match.{no_target, match_ports}
use ipfw_go.Vm.Match.Ports.{is_in, match_ports-any}
use ipfw_go.Vm.Packet.{v4, ipv4, Packet}
use ipfw_go.Vm.Program.Comments.{without_idle, compacted-without_idle}
use ipfw_go.Vm.Program.{Rule, compacted, mark}

abbrev option_of : OptKind → ℕ → Opt
option_of kind block = record {
  neg = false;
  block = block;
  pattern = block;
  kind = kind;
  text = [];
  arg = [];
  ports = record { lo = record { name = []; number = 0 }; hi = record { name = []; number = 0 } };
  proto = record { name = []; number = 6 };
  types = empty_type_set;
  tcp_flags = record { set_flags = 0; clear_flags = 0 };
  via = record { kind = ViaKind.unset; name = []; value = [] };
}

abbrev client : Packet
client = packet_from (10 ∷ 1 ∷ 0 ∷ 1 ∷ [])

abbrev three_options : List Opt
three_options =
    option_of OptKind.proto 1 ∷ option_of OptKind.comment 2 ∷ option_of OptKind.dir_in 3 ∷ []

match_options-Gives_example :
    (options_run registry machine here client (read_fields client) three_options
      ≡ some (match_options registry machine three_options here client (read_fields client)))
    × Gives client
        (options_value (λ o. option_value registry machine o here client) no_target three_options)
        (match_options registry machine three_options here client (read_fields client))
match_options-Gives_example =
    match_options-Gives registry machine here client three_options (read_fields client)
      (read_fields-Reads client)

compacted_test :
    compacted three_options ≡ option_of OptKind.proto 1 ∷ option_of OptKind.dir_in 3 ∷ []
unfolding compacted
compacted_test = refl

compacted-without_idle_example : compacted three_options ≡ without_idle none three_options
compacted-without_idle_example = compacted-without_idle three_options

abbrev open_rule : Rule
open_rule = mark machine.program

matches-Gives_example :
    Gives client
      (rule_value nets4 nets6 registry machine open_rule here client)
      (matches nets4 nets6 registry machine open_rule here client (read_fields client))
matches-Gives_example =
    matches-Gives nets4 nets6 registry machine open_rule here client (read_fields-Reads client)

abbrev outside : TargetMatch Bytes Bytes
outside = record {
  neg = true;
  pattern = 1;
  kind = TargetKind.network4;
  name = [];
  net4 = some (10 ∷ []);
  net6 = none;
}

match_side-side_holds_example :
    match_side nets4 nets6 registry machine (outside ∷ []) here (v4 (10 ∷ 1 ∷ 0 ∷ 1 ∷ [])) ipv4
    ≡ side_holds
        (member_holds nets4 nets6 registry machine here (v4 (10 ∷ 1 ∷ 0 ∷ 1 ∷ [])) ipv4)
        (outside ∷ [])
match_side-side_holds_example =
    match_side-side_holds nets4 nets6 registry machine (outside ∷ []) here
      (v4 (10 ∷ 1 ∷ 0 ∷ 1 ∷ [])) ipv4

match_side-resolved_example :
    (ms : List (TargetMatch Bytes Bytes)) × (resolve_target env collect [] source_side host ≡ ok ms)
    × (match_side nets4 nets6 registry machine ms here (v4 (10 ∷ 1 ∷ 0 ∷ 1 ∷ [])) ipv4 ≡ (
        in_networks
          (member_holds nets4 nets6 registry machine here (v4 (10 ∷ 1 ∷ 0 ∷ 1 ∷ [])) ipv4)
          host
          ((10 ∷ 1 ∷ []) ∷ (10 ∷ 2 ∷ []) ∷ [])
          []
        != true))
match_side-resolved_example =
    match_side-resolved nets4 nets6 registry machine env ask source_side host
      ((10 ∷ 1 ∷ []) ∷ (10 ∷ 2 ∷ []) ∷ []) [] here (v4 (10 ∷ 1 ∷ 0 ∷ 1 ∷ [])) ipv4 refl refl
      (inl refl)

abbrev low_ports : PortNumberMatch
low_ports = record { neg = true; lo = 1; hi = 1023 }

abbrev web_port : PortNumberMatch
web_port = record { neg = true; lo = 8080; hi = 8080 }

match_ports-any_example :
    match_ports (low_ports ∷ web_port ∷ []) 8080
    ≡ (any (is_in 8080) (low_ports ∷ web_port ∷ []) != true)
match_ports-any_example = match_ports-any low_ports (web_port ∷ []) 8080 (refl, tt)
