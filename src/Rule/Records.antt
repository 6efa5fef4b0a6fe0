-- ===== src/Rule/Records.antt =====
-- parser.go: what a parsed line is, the rule body aside.
use ipfw_go.Prelude.{ℕ, Bool, Bytes}
use ipfw_go.Rule.Actions.{Action}
use ipfw_go.Rule.TableCommands.{TableCommand}

pub data RecordKind : Type 0 where
  empty comment instruction table label eof : RecordKind

pub record Log : Type 0 where
  pub enabled : Bool
  pub has_amount : Bool
  pub amount : ℕ

-- `num` is 0 when the line gives no rule number.
pub record Instruction : Type 0 where
  pub num : ℕ
  pub action : Action
  pub log : Log
  pub tag : ℕ

pub record Record : Type 0 where
  pub line : ℕ
  pub text : Bytes
  pub kind : RecordKind
  pub comment : Bytes
  pub instruction : Instruction
  pub table : TableCommand
  pub label : Bytes
