-- ===== src/Resolver.antt =====
-- vmstate.go: `Environment` and `Resolver`, which resolves the names of a rule body and hands the
-- typed tokens to a sink. The sink is any function on a state of its own.
pub mod Keeps
pub mod Targets
use ipfw_go.Prelude.{
  ℕ, Bool, true, false, ◌&&◌, List, [], ◌∷◌, Option, none, some, Bytes, ◌⊎◌, inl, inr,
  if◌then◌else◌,
}
use ipfw_go.Errors.{
  Result, ok, err, ◌>>=◌, unresolved_target, unresolved_proto, unresolved_service, foreign,
  expected_ipv4_network, expected_ipv6_network,
}
use ipfw_go.Rule.{
  Proto, Port, PortRange, ProtoMatch, PortMatch, ProtoIpMatch, ProtoNumberMatch, PortNumberMatch,
  Target, TargetKind, TargetMatch, Opt, OptKind,
}

-- What the names of a ruleset are interpreted in: code of the caller, with its errors `F`.
pub record Environment (V4 V6 F : Type 0) : Type 0 where
  pub parse_network4 : Bytes → F ⊎ V4
  pub parse_network6 : Bytes → F ⊎ V6
  pub protos : Option (Bytes → Option ℕ)
  pub services : Option (Bytes → Option ℕ)
  pub targets : Option (Target → F ⊎ (List V4 × List V6))

-- The side of a rule body.
pub data BodySide : Type 0 where
  source_side destination_side : BodySide

-- A call of `VMState`, the interface of the sink.
pub data Call (V4 V6 : Type 0) : Type 0 where
  ip_proto : ProtoIpMatch → Call V4 V6
  proto : ProtoNumberMatch → Call V4 V6
  target : BodySide → TargetMatch V4 V6 → Call V4 V6
  port : BodySide → PortNumberMatch → Call V4 V6
  option : Opt → Call V4 V6

-- A call of `State`, the interface that the parser drives.
pub data Token : Type 0 where
  ip_proto : ProtoIpMatch → Token
  proto : ProtoMatch → Token
  target : BodySide → Target → Token
  port : BodySide → PortMatch → Token
  option : Opt → Token

-- A name through a resolver that may be missing or not know it.
abbrev resolved : {F : Type 0} → Result F ℕ → Option ℕ → Result F ℕ
resolved missing none = missing
resolved missing (some n) = ok n

abbrev asked : Option (Bytes → Option ℕ) → Bytes → Option ℕ
asked none name = none
asked (some ask) name = ask name

module _ {V4 V6 F : Type 0} (env : Environment V4 V6 F) where
  abbrev proto_by_name : Bytes → ℕ → Result F ℕ
  proto_by_name [] number = ok number
  proto_by_name (c ∷ name) number = resolved (err unresolved_proto) (asked env.protos (c ∷ name))

  pub resolve_proto : Proto → Result F ℕ
  resolve_proto p = proto_by_name p.name p.number

  abbrev port_by_name : Bytes → ℕ → Result F ℕ
  port_by_name [] number = ok number
  port_by_name (c ∷ name) number = resolved (err unresolved_service) (asked env.services (c ∷ name))

  pub resolve_port : Port → Result F ℕ
  resolve_port p = port_by_name p.name p.number

  pub resolve_range : Port → Port → Result F (ℕ × ℕ)
  unfolding resolve_port
  resolve_range lo hi = do first ← resolve_port lo; last ← resolve_port hi; ok (first, last)

abbrev numeric_port : ℕ → Port
numeric_port n = record { name = []; number = n }

-- The matches of a raw target, in the order in which they are handed to the sink.
module _ {V4 V6 : Type 0} (t : Target) where
  abbrev pub bare_match : TargetKind → TargetMatch V4 V6
  bare_match kind = record {
    neg = t.neg;
    pattern = t.pattern;
    kind = kind;
    name = [];
    net4 = none;
    net6 = none;
  }

  abbrev pub net4_match : V4 → TargetMatch V4 V6
  net4_match n = record (bare_match TargetKind.network4) { net4 = some n }

  abbrev pub net6_match : V6 → TargetMatch V4 V6
  net6_match n = record (bare_match TargetKind.network6) { net6 = some n }

module _ {V4 V6 F S : Type 0} (env : Environment V4 V6 F) (sink : S → Call V4 V6 → Result F S) where
  emit_target : S → BodySide → TargetMatch V4 V6 → Result F S
  emit_target s side m = sink s (target side m)

  emit_nets4 : S → BodySide → Target → List V4 → Result F S
  emit_nets4 s side t [] = ok s
  emit_nets4 s side t (n ∷ ns) = do
    s' ← emit_target s side (net4_match t n)
    emit_nets4 s' side t ns

  emit_nets6 : S → BodySide → Target → List V6 → Result F S
  emit_nets6 s side t [] = ok s
  emit_nets6 s side t (n ∷ ns) = do
    s' ← emit_target s side (net6_match t n)
    emit_nets6 s' side t ns

  -- The branch of `resolveTarget` for a name, on the networks that it stands for.
  emit_resolved : S → BodySide → Target → Bool → List V4 → List V6 → Result F S
  unfolding emit_target emit_nets4 emit_nets6
  emit_resolved s side t true [] [] = emit_target s side (bare_match t TargetKind.no_member)
  emit_resolved s side t _ nets4 nets6 = do
    s' ← emit_nets4 s side t nets4
    emit_nets6 s' side t nets6

  resolve_name : S → BodySide → Target → Option (Target → F ⊎ (List V4 × List V6)) → Result F S
  unfolding emit_resolved
  resolve_name s side t none = err unresolved_target
  resolve_name s side t (some ask) = elim (ask t) [
    | inl e ↦ err (foreign e)
    | inr (nets4, nets6) ↦ emit_resolved s side t t.neg nets4 nets6
  ]

  resolve_kind : S → BodySide → Target → TargetKind → Result F S
  unfolding emit_target resolve_name
  resolve_kind s side t TargetKind.network4 = elim (env.parse_network4 t.text) [
    | inl e ↦ err (expected_ipv4_network e)
    | inr n ↦ emit_target s side (net4_match t n)
  ]
  resolve_kind s side t TargetKind.network6 = elim (env.parse_network6 t.text) [
    | inl e ↦ err (expected_ipv6_network e)
    | inr n ↦ emit_target s side (net6_match t n)
  ]
  resolve_kind s side t TargetKind.table =
      emit_target s side (record (bare_match t TargetKind.table) { name = t.text })
  resolve_kind s side t TargetKind.hostname = resolve_name s side t env.targets
  resolve_kind s side t TargetKind.custom = resolve_name s side t env.targets
  resolve_kind s side t kind = emit_target s side (bare_match t kind)

  unfoldable pub resolve_target : S → BodySide → Target → Result F S
  unfolding resolve_kind
  resolve_target s side t = resolve_kind s side t t.kind

  on_port : S → BodySide → PortMatch → Result F S
  unfolding resolve_range
  on_port s side m = do
    (lo, hi) ← resolve_range env m.lo m.hi
    sink s (port side (record { neg = m.neg; lo = lo; hi = hi }))

  on_option_kind : S → Opt → OptKind → Result F S
  unfolding resolve_range resolve_proto
  on_option_kind s o OptKind.proto = do
    number ← resolve_proto env o.proto
    sink s (option (record o { proto = record { name = []; number = number } }))
  on_option_kind s o OptKind.source_port = do
    (lo, hi) ← resolve_range env o.ports.lo o.ports.hi
    sink s (option (record o { ports = record { lo = numeric_port lo; hi = numeric_port hi } }))
  on_option_kind s o OptKind.destination_port = do
    (lo, hi) ← resolve_range env o.ports.lo o.ports.hi
    sink s (option (record o { ports = record { lo = numeric_port lo; hi = numeric_port hi } }))
  on_option_kind s o _ = sink s (option o)

  -- The callbacks of `State` that a `Resolver` implements.
  unfoldable pub on_token : S → Token → Result F S
  unfolding resolve_target on_port on_option_kind resolve_proto
  on_token s (ip_proto m) = sink s (ip_proto m)
  on_token s (proto m) = do
    number ← resolve_proto env m.proto
    sink s (proto (record { neg = m.neg; number = number }))
  on_token s (target side t) = resolve_target s side t
  on_token s (port side m) = on_port s side m
  on_token s (option o) = on_option_kind s o o.kind
