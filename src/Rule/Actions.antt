-- ===== src/Rule/Actions.antt =====
-- action.go: what a rule does with a packet that matches it.
use ipfw_go.Prelude.{ℕ, Bytes}

pub data ActionKind : Type 0 where
  unset pass deny count skip_to check_state reset : ActionKind

pub data SkipToKind : Type 0 where
  unset label number table_arg : SkipToKind

pub record SkipTo : Type 0 where
  pub kind : SkipToKind
  pub label : Bytes
  pub number : ℕ

pub record Action : Type 0 where
  pub kind : ActionKind
  pub skip_to : SkipTo
  pub flow : Bytes
