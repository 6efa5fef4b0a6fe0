-- ===== src/Lib.antt =====
-- A model of ipfw-go: a parser of ipfw(8) rulesets and a virtual machine that checks packets against
-- them. Both are modelled, and their composition in `Build`.
--
-- A ruleset is read line by line. The parser pushes the typed tokens of a rule body into a state, and
-- returns a record of the line. `Build` (vm/vm.go) is the loop over these lines: the tokens go through
-- `Resolver` (vmstate.go), which turns names into numbers and networks, to `builder`, which appends
-- them to the arenas of `program`; a record closes a rule, records a label or updates a table. At the
-- end the jumps to numbers are linked. `CheckTrace` then scans the rules for a packet: `matches` tests
-- the body and the options of a rule, and an action ends the check or names the next rule.
--
-- The files:
--   Prelude    lists, options, strings and maps over the native numbers; `slices.BinarySearchFunc`
--              (`Prelude.Search`); the runs of a list with one key (`Prelude.Runs`).
--   Rule       the data of rules, options, table commands and records: action.go, opt.go, port.go,
--              proto.go, target.go, table.go, vmstate.go and parser.go.
--   Errors     the errors of a build and results that may be one: vm/vm.go, errors.go.
--   Resolver   vmstate.go: `Resolver` over any sink. `Resolver.Keeps`: it keeps what the sink keeps.
--              `Resolver.Targets`: what it hands on for a name.
--   Parse      the parser: `Parse.Outcome` how a parser ends and what it drives (errors.go, lex.go,
--              hooks.go, state.go), `Parse.Lex` lex.go, `Parse.Port`, `Parse.Proto`, `Parse.Target` and
--              `Parse.Options` the files of these names, `Parse.Action`, `Parse.Body`,
--              `Parse.Instruction`, `Parse.Table`, `Parse.Line` and `Parse.Next` parser.go.
--              `Parse.Reads` and its children: what each parser leaves of its input. `Parse.Records`: the
--              loop over lines.
--              `Parse.Same` and its children: what a parser does with two states that answer alike.
--   Reduce     `ReduceState` of state.go and, in `Reduce.Vm`, `ReduceVMState` of vmstate.go.
--              `Reduce.Collected`: what the first holds behind a parser.
--   IfMask     ifmask.go: `MatchIfMask` and `rangeMatch`. `IfMask.Meaning`: what a class means.
--   Vm         vm/: `Vm.Packet` and its children are vm/packet.go, `Vm.Tables` is vm/tables.go, the
--              others vm/vm.go: `Vm.Program` the arenas, `Vm.Build` the builder, `Vm.Build.Run` the
--              loop of `Build` over lines that were read, `Vm.Build.Run.Text` over a text,
--              `Vm.Fields` the fields of a packet that are read on first use, `Vm.Match` the matchers
--              and `Vm.Check` the scan of the rules. `Vm.Network` and `Vm.Machine` are the interfaces
--              of what a machine is given, and the machine.
--   Tests      runs on small inputs, and the theorems applied to them.
--
-- Code of the caller is a parameter: the network types (`Network`), the registry of tables over a state
-- of its own (`TableRegistry`, which `Vm.Tables.default_registry` implements), the environment of names
-- (`Environment`), the matcher of custom options, the state that the parser drives, its hooks and its
-- protocol checker. A packet is a record of what its methods report.
--
-- State is passed on explicitly: the builder, the registry in it, and the fields of a packet that the
-- matchers have read. A Go string is the list of its bytes, a map an association list, a pointer to a
-- rule its index. An `int` that may be negative is a sentinel (`Prelude.Int`); a number of 32 bits is
-- stored modulo 2^32, and the theorems on jumps ask for fewer than 2^32 rules. The tracer of a check is
-- the list of its calls.
--
-- Loops that are not structural run on fuel: `check_loop` on the number of rules and one more,
-- `options_loop` on the number of options and one more, `walk` on the length of the packet and one more,
-- `range_loop` on the length of the pattern and one more, and `mask_loop` on the product of the lengths
-- of name and mask, each plus one. Each is shown to be enough.
--
-- The loops of the parser run on the length of the input behind their start and one more: each round
-- takes a byte of it. So does the loop of `Build` over a text, which takes a line.
--
-- Not modelled: printing (format.go and the `String` methods), diagnostics (diag.go and the messages of
-- errors.go), what retains records (`ParsedRecord`), and the memory that slices share, so `Clone` has
-- no counterpart. A build over a text has no command hook, which could hand the builder any tokens.
pub mod Prelude
pub mod Rule
pub mod Errors
pub mod Resolver
pub mod Reduce
pub mod IfMask
pub mod Parse
pub mod Vm
pub mod Tests
