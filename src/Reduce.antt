-- ===== src/Reduce.antt =====
-- state.go: `ReduceState`, which appends every token of a rule to the slice of its kind. A slice is
-- the list of its elements; its capacity and the memory behind it are left out.
pub mod Collected
pub mod Vm
use ipfw_go.Prelude.{Bool, true, false, ◌&&◌, List, [], ◌∷◌, ◌++◌, Option, none}
use ipfw_go.Parse.Outcome.{State}
use ipfw_go.Resolver.{BodySide, source_side, destination_side, Token}
use ipfw_go.Rule.{Opt, PortMatch, ProtoIpMatch, ProtoMatch, Target}

pub record ReduceState : Type 0 where
  pub ip_protos : List ProtoIpMatch
  pub protos : List ProtoMatch
  pub sources : List Target
  pub destinations : List Target
  pub source_ports : List PortMatch
  pub destination_ports : List PortMatch
  pub options : List Opt

-- The callbacks of `State`; none refuses a token.
abbrev pub kept : Token → ReduceState → ReduceState
kept (Token.ip_proto match) m = record m { ip_protos = m.ip_protos ++ match ∷ [] }
kept (Token.proto match) m = record m { protos = m.protos ++ match ∷ [] }
kept (Token.target source_side target) m = record m { sources = m.sources ++ target ∷ [] }
kept (Token.target destination_side target) m = record m {
  destinations = m.destinations ++ target ∷ [];
}
kept (Token.port source_side match) m = record m { source_ports = m.source_ports ++ match ∷ [] }
kept (Token.port destination_side match) m = record m {
  destination_ports = m.destination_ports ++ match ∷ [];
}
kept (Token.option opt) m = record m { options = m.options ++ opt ∷ [] }

unfoldable pub reduce : {F : Type 0} → State ReduceState F
reduce t m = (kept t m, none)

-- `Reset`
unfoldable pub reset : ReduceState → ReduceState
reset m = record {
  ip_protos = [];
  protos = [];
  sources = [];
  destinations = [];
  source_ports = [];
  destination_ports = [];
  options = [];
}

-- `len(…) == 0`
abbrev pub is_empty_slice : {A : Type 0} → List A → Bool
is_empty_slice [] = true
is_empty_slice (_ ∷ _) = false

-- `IsEmpty`
unfoldable pub is_empty : ReduceState → Bool
is_empty m =
    is_empty_slice m.ip_protos
    && is_empty_slice m.protos
    && is_empty_slice m.sources
    && is_empty_slice m.destinations
    && is_empty_slice m.source_ports
    && is_empty_slice m.destination_ports
    && is_empty_slice m.options
