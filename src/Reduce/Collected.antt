-- ===== src/Reduce/Collected.antt =====
-- What a `ReduceState` holds behind a parser: the tokens that the parser hands out, by their kind.
use ipfw_go.Prelude.{
  List, [], ◌∷◌, ◌++◌, append-nil, append_assoc, Option, none, some, Bytes, ◌≡◌, refl,
}
use ipfw_go.Parse.Body.{Grammar}
use ipfw_go.Parse.Line.{parse_line}
use ipfw_go.Parse.Outcome.{State}
use ipfw_go.Parse.Same.{Both, both, Alike}
use ipfw_go.Parse.Same.Lines.{without, parse_line-Same}
use ipfw_go.Reduce.{ReduceState, kept, reduce}
use ipfw_go.Resolver.{source_side, destination_side, Token}
use ipfw_go.Rule.{Opt, PortMatch, ProtoIpMatch, ProtoMatch, Target}

-- The state that keeps the tokens as they come.
unfoldable pub log : {F : Type 0} → State (List Token) F
log t ts = (ts ++ t ∷ [], none)

abbrev pub with_some : {A : Type 0} → Option A → List A → List A
with_some none xs = xs
with_some (some a) xs = a ∷ xs

-- The tokens of a kind, in their order.
pub picked : {A : Type 0} → (Token → Option A) → List Token → List A
picked pick [] = []
picked pick (t ∷ ts) = with_some (pick t) (picked pick ts)

abbrev pub ip_proto_of : Token → Option ProtoIpMatch
ip_proto_of (Token.ip_proto m) = some m
ip_proto_of _ = none

abbrev pub proto_of : Token → Option ProtoMatch
proto_of (Token.proto m) = some m
proto_of _ = none

abbrev pub source_of : Token → Option Target
source_of (Token.target source_side t) = some t
source_of _ = none

abbrev pub destination_of : Token → Option Target
destination_of (Token.target destination_side t) = some t
destination_of _ = none

abbrev pub source_port_of : Token → Option PortMatch
source_port_of (Token.port source_side m) = some m
source_port_of _ = none

abbrev pub destination_port_of : Token → Option PortMatch
destination_port_of (Token.port destination_side m) = some m
destination_port_of _ = none

abbrev pub option_of : Token → Option Opt
option_of (Token.option o) = some o
option_of _ = none

-- The state with the tokens of each kind behind those that it holds.
abbrev pub collected : ReduceState → List Token → ReduceState
collected m ts = record {
  ip_protos = m.ip_protos ++ picked ip_proto_of ts;
  protos = m.protos ++ picked proto_of ts;
  sources = m.sources ++ picked source_of ts;
  destinations = m.destinations ++ picked destination_of ts;
  source_ports = m.source_ports ++ picked source_port_of ts;
  destination_ports = m.destination_ports ++ picked destination_port_of ts;
  options = m.options ++ picked option_of ts;
}

with_some-concat :
    {A : Type 0} (o : Option A) (xs ys : List A) → with_some o xs ++ ys ≡ with_some o (xs ++ ys)
with_some-concat none xs ys = refl
with_some-concat (some a) xs ys = refl

picked-concat :
    {A : Type 0} (pick : Token → Option A) (ts us : List Token)
    → picked pick (ts ++ us) ≡ picked pick ts ++ picked pick us
unfolding picked
picked-concat pick [] us = refl
picked-concat pick (t ∷ ts) us =
    cc (picked-concat pick ts us, with_some-concat (pick t) (picked pick ts) (picked pick us))

picked_behind :
    {A : Type 0} (pick : Token → Option A) (held : List A) (ts us : List Token)
    → held ++ picked pick (ts ++ us) ≡ (held ++ picked pick ts) ++ picked pick us
picked_behind pick held ts us =
    cc (picked-concat pick ts us, append_assoc held (picked pick ts) (picked pick us))

collected-concat :
    (m : ReduceState) (ts us : List Token) → collected m (ts ++ us) ≡ collected (collected m ts) us
collected-concat m ts us = rw (
  picked_behind ip_proto_of m.ip_protos ts us,
  picked_behind proto_of m.protos ts us,
  picked_behind source_of m.sources ts us,
  picked_behind destination_of m.destinations ts us,
  picked_behind source_port_of m.source_ports ts us,
  picked_behind destination_port_of m.destination_ports ts us,
  picked_behind option_of m.options ts us,
)

collected-kept : (m : ReduceState) (t : Token) → kept t m ≡ collected m (t ∷ [])
unfolding picked
collected-kept m (Token.ip_proto _) = simp append-nil
collected-kept m (Token.proto _) = simp append-nil
collected-kept m (Token.target source_side _) = simp append-nil
collected-kept m (Token.target destination_side _) = simp append-nil
collected-kept m (Token.port source_side _) = simp append-nil
collected-kept m (Token.port destination_side _) = simp append-nil
collected-kept m (Token.option _) = simp append-nil

collected-nil : (m : ReduceState) → m ≡ collected m []
unfolding picked
collected-nil m = simp append-nil

reduce-Alike :
    {F : Type 0} (m : ReduceState) → Alike {F = F} (λ r ts. r ≡ collected m ts) reduce log
unfolding reduce log
reduce-Alike m t r ts e =
    both (cc (e, collected-kept (collected m ts) t, collected-concat m ts (t ∷ [])))

collected_behind :
    {A : Type 0} (m : ReduceState) {x : ReduceState × A} {y : List Token × A}
    → Both (λ r ts. r ≡ collected m ts) x y
    → x ≡ (collected m y.0, y.1)
collected_behind m (both e) = cc e

-- A line read into a `ReduceState` by a parser without a command hook ends as it does with the state
-- that only lists the tokens, and leaves every slice with the listed tokens of its kind behind those
-- that it held, in the order of the line, also when the line fails.
pub parse_line-collected :
    {F : Type 0} (g : Grammar F) (s : Bytes) (m : ReduceState)
    → parse_line g none reduce s m
      ≡ (collected m (parse_line g none log s []).0, (parse_line g none log s []).1)
parse_line-collected g s m =
    collected_behind m (parse_line-Same (reduce-Alike m) without g s m [] (collected-nil m))
