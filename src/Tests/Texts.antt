-- ===== src/Tests/Texts.antt =====
-- The parser with other states, and a build of the text of a ruleset.
use ipfw_go.Parse.Body.{Grammar}
use ipfw_go.Parse.Line.{parse_line}
use ipfw_go.Parse.Next.{Parser}
use ipfw_go.Parse.Outcome.{Fault}
use ipfw_go.Prelude.{
  ℕ, ◌<◌, ◌^◌, true, false, [], ◌∷◌, none, some, codes, length, ◌≡◌, ◌≢◌, refl, arith,
}
use ipfw_go.Reduce.Collected.{log, collected, parse_line-collected}
use ipfw_go.Reduce.{ReduceState, reduce, reset, is_empty}
use ipfw_go.Tests.Builds.{Built, config, machine_or_empty}
use ipfw_go.Tests.Data.{nets4, nets6, registry, env, here, packet_from, tables}
use ipfw_go.Tests.Lines.{grammar, rule_line}
use ipfw_go.Vm.Build.Run.Ends.{build_text-check_trace, build_text-ends}
use ipfw_go.Vm.Build.Run.Text.{ErrorValues, build_text}
use ipfw_go.Vm.Build.Run.{built, no_end}
use ipfw_go.Vm.Check.Total.{Decides}
use ipfw_go.Vm.Check.{Verdict, check_trace}

abbrev no_tokens : ReduceState
no_tokens = record {
  ip_protos = [];
  protos = [];
  sources = [];
  destinations = [];
  source_ports = [];
  destination_ports = [];
  options = [];
}

-- What is left behind the first line: its tokens.
abbrev after_line : ReduceState
after_line = (parse_line grammar none reduce rule_line no_tokens).0

reduced_test :
    (length after_line.protos ≡ 1)
    × (length after_line.sources ≡ 3)
    × (length after_line.source_ports ≡ 2)
    × (is_empty after_line ≡ false)
    × (reset after_line ≡ no_tokens)
unfolding parse_line reduce is_empty reset
reduced_test = (refl, refl, refl, refl, refl)

parse_line-collected_example : parse_line grammar none reduce rule_line after_line ≡ (
  collected after_line (parse_line grammar none log rule_line []).0,
  (parse_line grammar none log rule_line []).1,
)
parse_line-collected_example = parse_line-collected grammar rule_line after_line

abbrev numbered_grammar : Grammar ℕ
numbered_grammar = record {
  enable_labels = true;
  option_hook = none;
  table_type_hook = none;
  proto_checker = some (λ name. true);
}

abbrev error_values : ErrorValues ℕ
error_values = record { of_cause = λ c. 0; of_parse = λ e. e.line; as_kind = λ e. Fault.foreign e }

abbrev ruleset_text : Parser
ruleset_text = record {
  rest = codes "add 9 skipto 20 ip from any to any\nadd 20 pass ip from any to me";
  line = 0;
}

abbrev text_machine : Built
unfolding build_text
text_machine =
    machine_or_empty
      (build_text env registry config error_values numbered_grammar 128 tables ruleset_text)

text_machine_test :
    build_text env registry config error_values numbered_grammar 128 tables ruleset_text
    ≡ built text_machine
unfolding build_text
text_machine_test = refl

text_numbers_test : text_machine.program.numbers ≡ 9 ∷ 20 ∷ []
unfolding text_machine
text_numbers_test = refl

text_size_test : length text_machine.program.rules < 2 ^ 32
unfolding text_machine
text_size_test = omega arith

build_text-check_trace_example :
    (v : Verdict) × (check_trace nets4 nets6 registry text_machine here
        (packet_from (10 ∷ 0 ∷ 0 ∷ 1 ∷ []))
      ≡ some v)
    × Decides nets4 nets6 registry text_machine here (packet_from (10 ∷ 0 ∷ 0 ∷ 1 ∷ [])) 0 v
build_text-check_trace_example =
    build_text-check_trace env registry config error_values numbered_grammar nets4 nets6 128 tables
      ruleset_text text_machine here (packet_from (10 ∷ 0 ∷ 0 ∷ 1 ∷ [])) text_machine_test
      text_size_test

build_text-ends_example :
    build_text env registry config error_values numbered_grammar 128 tables ruleset_text
    ≢ no_end tables
build_text-ends_example =
    build_text-ends env registry config error_values numbered_grammar 128 tables ruleset_text tables
      (omega arith)
