-- ===== src/Rule/Matches.antt =====
-- vmstate.go, target.go and proto.go: the typed tokens of a rule body, its names resolved.
use ipfw_go.Prelude.{ℕ, Bool, Bytes, Option}
use ipfw_go.Rule.Opts.{Proto, Port}

pub data TargetKind : Type 0 where
  unset anywhere me me6 hostname table network4 network6 custom no_member : TargetKind

-- A token of the parser.
pub record Target : Type 0 where
  pub neg : Bool
  pub pattern : ℕ
  pub kind : TargetKind
  pub text : Bytes

-- One member of a source or a destination. `net4` and `net6` are present with their kinds.
pub record TargetMatch (V4 V6 : Type 0) : Type 0 where
  pub neg : Bool
  pub pattern : ℕ
  pub kind : TargetKind
  pub name : Bytes
  pub net4 : Option V4
  pub net6 : Option V6

pub record ProtoIpMatch : Type 0 where
  pub neg : Bool
  pub proto : ℕ

pub record ProtoNumberMatch : Type 0 where
  pub neg : Bool
  pub number : ℕ

pub record PortNumberMatch : Type 0 where
  pub neg : Bool
  pub lo : ℕ
  pub hi : ℕ

pub record ProtoMatch : Type 0 where
  pub neg : Bool
  pub proto : Proto

pub record PortMatch : Type 0 where
  pub neg : Bool
  pub lo : Port
  pub hi : Port
