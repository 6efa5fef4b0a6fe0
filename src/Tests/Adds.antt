-- ===== src/Tests/Adds.antt =====
-- Rules added to a builder, the links of their jumps and their runs.
use ipfw_go.Errors.{Result, ok, err}
use ipfw_go.Prelude.{codes, get_elem?, ℕ, false, [], ◌∷◌, some, Bytes, ◌≡◌, refl, arith}
use ipfw_go.Rule.{ActionKind, Record, RecordKind, SkipToKind}
use ipfw_go.Tests.Data.{rule_record, tables, skip_number, plain}
use ipfw_go.Vm.Build.Sound.{IsWellFormed, add-IsWellFormed, new_builder-IsWellFormed}
use ipfw_go.Vm.Build.{Builder, new_builder, add, len, unresolved}
use ipfw_go.Vm.Build.Runs.{IsOpen, HasTokens, add-HasTokens}
use ipfw_go.Vm.Build.Waiting.{IsLeast, waiting, unresolved-IsLeast}
use ipfw_go.Vm.Program.Numbers.{IsFirstFrom, index_at-IsFirstFrom}
use ipfw_go.Vm.Program.{Rule, index_at, mark}
use ipfw_go.Vm.Tables.{DefaultTables}

-- Two rules, the first of which waits for the number of the second.
abbrev Started : Type 0
Started = Builder Bytes Bytes (DefaultTables Bytes Bytes)

abbrev started : Started
started = new_builder tables false

abbrev builder_or_started : Result ℕ Started → Started
builder_or_started (ok b) = b
builder_or_started (err _) = started

abbrev first_rule : Record
first_rule = rule_record RecordKind.instruction 100 (skip_number 250)

abbrev second_rule : Record
second_rule = rule_record RecordKind.instruction 300 (plain ActionKind.pass)

abbrev one_rule : Started
unfolding add
one_rule = builder_or_started (add started first_rule)

abbrev two_rules : Started
unfolding add one_rule
two_rules = builder_or_started (add one_rule second_rule)

two_rules-IsWellFormed : IsWellFormed two_rules
unfolding add one_rule two_rules
two_rules-IsWellFormed =
    add-IsWellFormed ℕ one_rule second_rule
      (add-IsWellFormed ℕ started first_rule (new_builder-IsWellFormed Bytes Bytes tables false))

index_at-IsFirstFrom_example : IsFirstFrom two_rules.program 250 (index_at two_rules.program 250)
index_at-IsFirstFrom_example =
    index_at-IsFirstFrom two_rules.program 250 two_rules-IsWellFormed.ascending

unresolved-IsLeast_example : IsLeast (unresolved two_rules) (waiting two_rules)
unresolved-IsLeast_example = unresolved-IsLeast two_rules

-- A rule that waits for a label.
abbrev labelled_rule : Record
labelled_rule = rule_record RecordKind.instruction 100 (record {
  kind = ActionKind.skip_to;
  skip_to = record { kind = SkipToKind.label; label = codes "out"; number = 0 };
  flow = [];
})

abbrev one_waiting : Started
unfolding add
one_waiting = builder_or_started (add started labelled_rule)

-- A builder that has read the body of a rule.
abbrev opened : Started
opened = record started {
  program = record started.program {
    source_ports = record { neg = false; lo = 1; hi = 1023 } ∷ [];
    destination_ports = record { neg = false; lo = 80; hi = 80 } ∷ [];
  };
}

abbrev closed : Started
unfolding add
closed = builder_or_started (add opened second_rule)

closed_test : add {F = ℕ} opened second_rule ≡ ok closed
unfolding add closed
closed_test = refl

opened_test : IsOpen opened
unfolding mark
opened_test = (
  (omega arith, omega arith),
  (omega arith, omega arith),
  (omega arith, omega arith),
  (omega arith, omega arith),
  (omega arith, omega arith),
  (omega arith, omega arith),
  (omega arith, omega arith),
)

add-HasTokens_example :
    (r : Rule) × (get_elem? closed.program.rules (len opened) ≡ some r)
    × HasTokens opened closed.program r
add-HasTokens_example = add-HasTokens opened closed second_rule opened_test closed_test
