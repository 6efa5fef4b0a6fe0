-- ===== src/Vm/Network.antt =====
-- vm/vm.go: the interfaces of what the VM is given: the network types, the table registry and the
-- matcher of custom options.
use ipfw_go.Prelude.{ℕ, Bool, Bytes, Option}
use ipfw_go.Rule.{Opt}
use ipfw_go.Vm.Packet.{Addr, Context, Packet}

-- `Network`: what the matcher needs of a network type.
pub record Network (N : Type 0) : Type 0 where
  pub contains_addr : N → Addr → Bool
  pub num_host_bits : N → ℕ

-- `TableRegistry`, over the state `R` of a registry and its errors `E`. An update returns the new
-- state, changed or not, and the error if it was refused.
pub record TableRegistry (V4 V6 R E : Type 0) : Type 0 where
  pub lookup_network : R → Bytes → Addr → Option Bytes
  pub lookup_interface : R → Bytes → Bytes → Option Bytes
  pub add_network4 : R → Bytes → V4 → Bytes → R × Option E
  pub add_network6 : R → Bytes → V6 → Bytes → R × Option E
  pub add_interface : R → Bytes → Bytes → Bytes → R × Option E

-- `OptionMatcher`.
abbrev pub OptionMatcher : Type 0
OptionMatcher = Opt → Context → Packet → Bool
