-- ===== src/Vm/Check.antt =====
-- vm/vm.go: `CheckTrace` and `Check`: the scan of the rules for a packet.
pub mod Total
pub mod Trace
use ipfw_go.Prelude.{
  ℕ, zero, suc, ◌+◌, Bool, true, false, List, [], ◌∷◌, Option, none, some, if◌then◌else◌, length,
  get_elem?,
}
use ipfw_go.Prelude.Int.{ℤ, int_eq, max_int}
use ipfw_go.Rule.{Action, ActionKind}
use ipfw_go.Vm.Fields.{Fields, read_fields}
use ipfw_go.Vm.Machine.{Machine}
use ipfw_go.Vm.Match.Body.{matches}
use ipfw_go.Vm.Match.Options.{Matched}
use ipfw_go.Vm.Match.Targets.{lookup_targets}
use ipfw_go.Vm.Match.{no_target}
use ipfw_go.Vm.Network.{Network, TableRegistry}
use ipfw_go.Vm.Packet.{Context, Packet}
use ipfw_go.Vm.Program.{Rule, run_of}

-- One call of the tracer: the index of the rule, whose record and action it is shown, and whether
-- the rule matched.
pub record Traced : Type 0 where
  pub idx : ℕ
  pub matched : Bool

-- How a check ends: the verdict, whether a rule gave it, and what the tracer saw.
pub record Verdict : Type 0 where
  pub action : Action
  pub terminated : Bool
  pub trace : List Traced

-- What a matching rule does: it ends the check, or names the rule to go on with.
pub data Onward : Type 0 where
  stop : Onward
  go_to : ℕ → Onward

module _ {V4 V6 R F : Type 0} (n4 : Network V4) (n6 : Network V6) (reg : TableRegistry V4 V6 R F)
    (m : Machine V4 V6 R) where
  abbrev source_target : Rule → Context → Fields → ℤ
  source_target r ctx f =
      lookup_targets n4 n6 reg m (run_of m.program.sources r.sources) ctx f.source f.source_family

  -- `addressTarget`: the destination's lookups count before the source's.
  unfoldable pub address_target : Rule → Context → Fields → ℤ
  unfolding lookup_targets int_eq
  address_target r ctx f =
      let found =
        lookup_targets n4 n6 reg m (run_of m.program.destinations r.destinations) ctx f.destination
          f.destination_family in
      if int_eq found no_target then source_target r ctx f else found

  -- The rule that a skipto goes on with.
  abbrev pub skip_to : Rule → Context → Fields → ℕ → ℤ → ℕ
  skip_to r ctx f pc target =
      if r.table_arg
      then max_int (if int_eq target no_target then address_target r ctx f else target) (pc + 1)
      else r.jump

  -- The switch on the kind of a rule that matched.
  unfoldable pub onward : Rule → Context → Fields → ℕ → ℤ → ActionKind → Onward
  unfolding address_target int_eq
  onward r ctx f pc target ActionKind.pass = stop
  onward r ctx f pc target ActionKind.deny = stop
  onward r ctx f pc target ActionKind.reset = stop
  onward r ctx f pc target ActionKind.skip_to = go_to (skip_to r ctx f pc target)
  onward r ctx f pc target _ = go_to (pc + 1)

  abbrev next_pc : Rule → Context → ℕ → Matched → Onward
  next_pc r ctx pc (false, target, f) = go_to (pc + 1)
  next_pc r ctx pc (true, target, f) = onward r ctx f pc target r.kind

  abbrev or_default : Option Action → Action
  or_default none = m.verdict
  or_default (some a) = a

  abbrev traced : ℕ → Bool → Option Verdict → Option Verdict
  traced pc matched none = none
  traced pc matched (some v) =
      some (record v { trace = record { idx = pc; matched = matched } ∷ v.trace })

  abbrev continue : (ℕ → Fields → Option Verdict) → ℕ → Matched → Onward → Option Verdict
  continue loop pc r stop = traced pc r.0 (
      some (record {
        action = or_default (get_elem? m.program.actions pc);
        terminated = true;
        trace = [];
      }))
  continue loop pc r (go_to pc') = traced pc r.0 (loop pc' r.2)

  abbrev round :
      (ℕ → Fields → Option Verdict) → Context → Packet → ℕ → Fields → Option Rule → Option Verdict
  round loop ctx pkt pc f none =
      some (record { action = m.verdict; terminated = false; trace = [] })
  round loop ctx pkt pc f (some r) =
      let result = matches n4 n6 reg m r ctx pkt f in
      continue loop pc result (next_pc r ctx pc result)

  -- The loop of `CheckTrace`; `none` means that the fuel ran out.
  unfoldable pub check_loop : ℕ → Context → Packet → ℕ → Fields → Option Verdict
  unfolding matches onward
  check_loop zero ctx pkt pc f = none
  check_loop (suc n) ctx pkt pc f =
      round (check_loop n ctx pkt) ctx pkt pc f (get_elem? m.program.rules pc)

  -- `CheckTrace`, with a tracer; `Check` is its verdict.
  unfoldable pub check_trace : Context → Packet → Option Verdict
  unfolding check_loop read_fields
  check_trace ctx pkt = check_loop (length m.program.rules + 1) ctx pkt 0 (read_fields pkt)
