-- ===== src/Vm/Machine.antt =====
-- vm/vm.go: `VM`, what a build returns and a check runs on.
use ipfw_go.Prelude.{ℕ, List, Option, Bytes}
use ipfw_go.Rule.{Action}
use ipfw_go.Vm.Network.{OptionMatcher}
use ipfw_go.Vm.Program.{Program}

-- `VM`: the built ruleset, with the registry as the build left it.
pub record Machine (V4 V6 R : Type 0) : Type 0 where
  pub program : Program V4 V6
  pub labels : List (Bytes × ℕ)
  pub tables : R
  pub matcher : Option OptionMatcher
  pub verdict : Action
