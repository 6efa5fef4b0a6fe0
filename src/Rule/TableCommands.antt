-- ===== src/Rule/TableCommands.antt =====
-- table.go: the `table NAME create|add` commands.
use ipfw_go.Prelude.{Bytes}

pub data TableKind : Type 0 where
  unset create add : TableKind

pub data TableType : Type 0 where
  unset addr iface number flow mac custom : TableType

pub data TableKeyKind : Type 0 where
  unset network4 network6 hostname name : TableKeyKind

pub record TableKey : Type 0 where
  pub kind : TableKeyKind
  pub text : Bytes

pub record TableCommand : Type 0 where
  pub name : Bytes
  pub kind : TableKind
  pub type_of : TableType
  pub type_text : Bytes
  pub key : TableKey
  pub value : Bytes
