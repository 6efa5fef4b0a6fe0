-- ===== src/Tests/Builds.antt =====
-- A ruleset built and checked: `100 skipto 300 ... 10.0.0.0/8`, `200 deny`, `300 pass`.
use ipfw_go.Prelude.{
  ℕ, ◌<◌, ◌^◌, true, false, List, [], ◌∷◌, none, some, Bytes, length, ◌≡◌, refl, arith,
}
use ipfw_go.Resolver.{Token, source_side, destination_side, target}
use ipfw_go.Rule.{ActionKind, RecordKind, Target}
use ipfw_go.Tests.Data.{
  nets4, nets6, registry, env, skip_number, plain, anywhere_target, net_target, here, packet_from,
  rule_record, tables,
}
use ipfw_go.Vm.Build.Run.Whole.{build-IsForward, build-check_trace}
use ipfw_go.Vm.Build.Run.{Config, UnresolvedJumps, Line, Outcome, built, build}
use ipfw_go.Vm.Check.Total.{IsForward, Decides, check_trace-Decides}
use ipfw_go.Vm.Check.Trace.{IsTrace, IsAnswer, check_trace-IsTrace}
use ipfw_go.Vm.Check.{Verdict, check_trace}
use ipfw_go.Vm.Machine.{Machine}
use ipfw_go.Vm.Program.Numbers.{IsAscending}
use ipfw_go.Vm.Tables.{DefaultTables}

abbrev pub config : Config
config = record {
  default_verdict = plain ActionKind.unset;
  unresolved_jumps = UnresolvedJumps.error;
  option_matcher = none;
}

abbrev body : Target → List Token
body from = target source_side from ∷ target destination_side anywhere_target ∷ []

abbrev lines : List (Line ℕ)
lines =
    Line.parsed (body (net_target (10 ∷ [])))
      (rule_record RecordKind.instruction 100 (skip_number 300))
    ∷ Line.parsed (body anywhere_target)
        (rule_record RecordKind.instruction 200 (plain ActionKind.deny))
    ∷ Line.parsed (body anywhere_target)
        (rule_record RecordKind.instruction 300 (plain ActionKind.pass))
    ∷ Line.parsed [] (rule_record RecordKind.eof 0 (plain ActionKind.unset))
    ∷ []

abbrev pub Built : Type 0
Built = Machine Bytes Bytes (DefaultTables Bytes Bytes)

abbrev pub empty_machine : Built
empty_machine = record {
  program = record {
    rules = [];
    numbers = [];
    records = [];
    actions = [];
    ip_protos = [];
    protos = [];
    sources = [];
    destinations = [];
    source_ports = [];
    destination_ports = [];
    options = [];
  };
  labels = [];
  tables = tables;
  matcher = none;
  verdict = plain ActionKind.deny;
}

abbrev pub machine_or_empty : Outcome Bytes Bytes (DefaultTables Bytes Bytes) ℕ → Built
machine_or_empty (built m) = m
machine_or_empty _ = empty_machine

abbrev pub machine : Built
unfolding build
machine = machine_or_empty (build env registry config tables lines)

machine_test : build env registry config tables lines ≡ built machine
unfolding build
machine_test = refl

numbers_test : machine.program.numbers ≡ 100 ∷ 200 ∷ 300 ∷ []
unfolding machine
numbers_test = refl

size_test : length machine.program.rules < 2 ^ 32
unfolding machine
size_test = omega arith

build-check_trace_example :
    (v : Verdict) × (check_trace nets4 nets6 registry machine here
        (packet_from (10 ∷ 0 ∷ 0 ∷ 1 ∷ []))
      ≡ some v)
    × Decides nets4 nets6 registry machine here (packet_from (10 ∷ 0 ∷ 0 ∷ 1 ∷ [])) 0 v
build-check_trace_example =
    build-check_trace env registry config nets4 nets6 tables lines machine here
      (packet_from (10 ∷ 0 ∷ 0 ∷ 1 ∷ [])) machine_test size_test

build-IsForward_example :
    (length machine.program.numbers ≡ length machine.program.rules)
    × (length machine.program.records ≡ length machine.program.rules)
    × (length machine.program.actions ≡ length machine.program.rules)
    × IsAscending machine.program.numbers
    × IsForward machine.program.rules
build-IsForward_example =
    build-IsForward env registry config tables lines machine machine_test size_test

machine-IsForward : IsForward machine.program.rules
machine-IsForward =
    (build-IsForward env registry config tables lines machine machine_test size_test).4

-- The packet that the skipto takes passes over the second rule.
abbrev skipped : Verdict
skipped = record {
  action = plain ActionKind.pass;
  terminated = true;
  trace = record { idx = 0; matched = true } ∷ record { idx = 2; matched = true } ∷ [];
}

skipped_test :
    check_trace nets4 nets6 registry machine here (packet_from (10 ∷ 0 ∷ 0 ∷ 1 ∷ [])) ≡ some skipped
unfolding machine check_trace
skipped_test = refl

abbrev denied : Verdict
denied = record {
  action = plain ActionKind.deny;
  terminated = true;
  trace = record { idx = 0; matched = false } ∷ record { idx = 1; matched = true } ∷ [];
}

denied_test :
    check_trace nets4 nets6 registry machine here (packet_from (11 ∷ 0 ∷ 0 ∷ 1 ∷ [])) ≡ some denied
unfolding machine check_trace
denied_test = refl

check_trace-Decides_example :
    (v : Verdict) × (check_trace nets4 nets6 registry machine here
        (packet_from (11 ∷ 0 ∷ 0 ∷ 1 ∷ []))
      ≡ some v)
    × Decides nets4 nets6 registry machine here (packet_from (11 ∷ 0 ∷ 0 ∷ 1 ∷ [])) 0 v
check_trace-Decides_example =
    check_trace-Decides nets4 nets6 registry machine here (packet_from (11 ∷ 0 ∷ 0 ∷ 1 ∷ []))
      machine-IsForward

check_trace-IsTrace_example :
    IsTrace nets4 nets6 registry machine here (packet_from (10 ∷ 0 ∷ 0 ∷ 1 ∷ [])) 0 skipped.trace
    × IsAnswer nets4 nets6 registry machine here (packet_from (10 ∷ 0 ∷ 0 ∷ 1 ∷ [])) skipped
check_trace-IsTrace_example =
    check_trace-IsTrace nets4 nets6 registry machine here (packet_from (10 ∷ 0 ∷ 0 ∷ 1 ∷ []))
      machine-IsForward skipped skipped_test
