-- ===== src/Parse/Proto.antt =====
-- proto.go: the protocols of a rule body.
use ipfw_go.Prelude.{
  ℕ, zero, suc, ◌+◌, Bool, true, false, ◌||◌, [], ◌∷◌, Option, none, some, Bytes, bytes_eq, codes,
  ◌==◌, if◌then◌else◌, length,
}
use ipfw_go.Resolver.{Token}
use ipfw_go.Rule.{Proto, proto_ip_any, proto_ipv4, proto_ipv6}
use ipfw_go.Parse.Lex.{
  Group, header_position, open_group, group_next, take_while, not_prefix, ws1, parse_u8,
}
use ipfw_go.Parse.Outcome.{Outcome, done, failed, no_fuel, ErrorKind, State, M, pure, emit, ◌>>=◌}
use ipfw_go.Parse.Port.{is_alphanumeric}

-- `protoIPKeyword`
unfoldable pub proto_ip_keyword : Bytes → Option ℕ
unfolding bytes_eq
proto_ip_keyword token =
    if bytes_eq token (codes "ip") || bytes_eq token (codes "all")
    then some proto_ip_any
    else if bytes_eq token (codes "ip4") || bytes_eq token (codes "ipv4")
    then some proto_ipv4
    else if bytes_eq token (codes "ip6") || bytes_eq token (codes "ipv6")
    then some proto_ipv6
    else none

unfoldable pub is_proto_byte : ℕ → Bool
unfolding is_alphanumeric
is_proto_byte c = is_alphanumeric c || c == b'-'

-- The input behind a `not`, which ends at a byte of no protocol, and whether it was there.
abbrev pub behind_not : Bytes → Option Bytes → Bytes × Bool
behind_not rest none = (rest, true)
behind_not rest (some after_space) = (after_space, true)

abbrev pub not_protocol : Bytes → Option Bytes → Bytes × Bool
not_protocol s none = (s, false)
not_protocol s (some []) = ([], true)
not_protocol s (some (c ∷ rest)) =
    if is_proto_byte c then (s, false) else behind_not (c ∷ rest) (ws1 (c ∷ rest))

unfoldable pub protocol_not : Bytes → Bytes × Bool
unfolding not_prefix is_proto_byte ws1
protocol_not s = not_protocol s (not_prefix s)

-- A number is positive and the whole of the token.
abbrev pub named_proto : Bytes → Option (ℕ × Bytes) → Proto
named_proto name (some (suc number, [])) = record { name = []; number = suc number }
named_proto name _ = record { name = name; number = 0 }

abbrev pub proto_of : {F : Type 0} → Bytes → Bytes × Bytes → Outcome F Proto
proto_of s ([], rest) = failed ErrorKind.expected_proto s none
proto_of s (c ∷ name, rest) = done (named_proto (c ∷ name) (parse_u8 (c ∷ name))) rest

unfoldable pub parse_proto : {F : Type 0} → Bytes → Outcome F Proto
unfolding take_while is_proto_byte parse_u8
parse_proto s = proto_of s (take_while s is_proto_byte)

abbrev pub proto_token_of : Bool → Proto → Option ℕ → Token
proto_token_of neg p (some version) = Token.ip_proto (record { neg = neg; proto = version })
proto_token_of neg p none = Token.proto (record { neg = neg; proto = p })

-- The callback that `emitProto` chooses.
unfoldable pub proto_token : Bool → Proto → Token
unfolding proto_ip_keyword
proto_token neg p = proto_token_of neg p (proto_ip_keyword p.name)

-- Whatever went wrong, the failure of an element is at its start.
abbrev pub as_element : {F : Type 0} → Bytes → Outcome F Proto → Outcome F Proto
as_element s (done p rest) = done p rest
as_element s (failed e at cause) = failed ErrorKind.expected_either_ip_or_proto s none
as_element s no_fuel = no_fuel

-- The loops over groups go on with the next alternative, if there is one.
abbrev pub next_alternative :
    {S F : Type 0} → (Bytes → M S F (Unit {0})) → Bool → Bytes → M S F (Unit {0})
next_alternative loop true rest = loop rest
next_alternative loop false rest = pure (done tt rest)

module _ {S F : Type 0} (st : State S F) where
  unfoldable pub parse_protocol_element : Bytes → M S F (Unit {0})
  unfolding protocol_not parse_proto proto_token
  parse_protocol_element s = do
    let (rest, neg) = protocol_not s
    (p, after) ← pure (as_element s (parse_proto rest))
    _ ← emit st (proto_token neg p) s
    pure (done tt after)

  unfoldable pub protocols_loop : ℕ → Group → Bytes → M S F (Unit {0})
  unfolding parse_protocol_element group_next
  protocols_loop zero g rest = pure no_fuel
  protocols_loop (suc f) g rest = do
    (_, after) ← parse_protocol_element rest
    (more, rest') ← pure (group_next g after)
    next_alternative (protocols_loop f g) more rest'

  unfoldable pub parse_protocols : Bytes → M S F (Unit {0})
  unfolding protocols_loop open_group
  parse_protocols s =
      let (g, rest) = open_group s header_position in protocols_loop (length rest + 1) g rest
