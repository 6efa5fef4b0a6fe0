-- ===== src/Reduce/Vm.antt =====
-- vmstate.go: `ReduceVMState`, which appends every typed token to the slice of its kind, as a sink
-- of a resolver.
use ipfw_go.Prelude.{List, [], ◌∷◌, ◌++◌}
use ipfw_go.Errors.{Result, ok}
use ipfw_go.Resolver.{source_side, destination_side, Call}
use ipfw_go.Rule.{Opt, PortNumberMatch, ProtoIpMatch, ProtoNumberMatch, TargetMatch}

pub record ReduceVmState (V4 V6 : Type 0) : Type 0 where
  pub ip_protos : List ProtoIpMatch
  pub protos : List ProtoNumberMatch
  pub sources : List (TargetMatch V4 V6)
  pub destinations : List (TargetMatch V4 V6)
  pub source_ports : List PortNumberMatch
  pub destination_ports : List PortNumberMatch
  pub options : List Opt

module _ {V4 V6 : Type 0} where
  -- The callbacks of `VMState`; none refuses a token.
  abbrev pub kept_call : ReduceVmState V4 V6 → Call V4 V6 → ReduceVmState V4 V6
  kept_call m (Call.ip_proto match) = record m { ip_protos = m.ip_protos ++ match ∷ [] }
  kept_call m (Call.proto match) = record m { protos = m.protos ++ match ∷ [] }
  kept_call m (Call.target source_side match) = record m { sources = m.sources ++ match ∷ [] }
  kept_call m (Call.target destination_side match) = record m {
    destinations = m.destinations ++ match ∷ [];
  }
  kept_call m (Call.port source_side match) = record m {
    source_ports = m.source_ports ++ match ∷ [];
  }
  kept_call m (Call.port destination_side match) = record m {
    destination_ports = m.destination_ports ++ match ∷ [];
  }
  kept_call m (Call.option opt) = record m { options = m.options ++ opt ∷ [] }

  unfoldable pub reduce_vm :
      {F : Type 0} → ReduceVmState V4 V6 → Call V4 V6 → Result F (ReduceVmState V4 V6)
  reduce_vm m c = ok (kept_call m c)

  -- `Reset`
  unfoldable pub reset_vm : ReduceVmState V4 V6 → ReduceVmState V4 V6
  reset_vm m = record {
    ip_protos = [];
    protos = [];
    sources = [];
    destinations = [];
    source_ports = [];
    destination_ports = [];
    options = [];
  }
