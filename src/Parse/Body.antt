-- ===== src/Parse/Body.antt =====
-- parser.go: the grammar of a rule body.
use ipfw_go.Prelude.{
  ℕ, Bool, true, false, not, ◌&&◌, ◌||◌, [], ◌∷◌, Option, none, some, Bytes, codes, ◌==◌,
  if◌then◌else◌,
}
use ipfw_go.Resolver.{Token, BodySide, source_side, destination_side}
use ipfw_go.Rule.{Proto, TargetKind}
use ipfw_go.Parse.Lex.{
  header_position, trailing_position, open_group, prefix, has_prefix, ws0, ws1, at_token_end,
  at_line_end,
}
use ipfw_go.Parse.Outcome.{
  Outcome, done, failed, no_fuel, ErrorKind, State, M, pure, ◌>>=◌, discard, OptionHook,
  TableTypeHook, emit_or,
}
use ipfw_go.Parse.Options.{OptionContext, new_context, place_of, end_block}
use ipfw_go.Parse.Options.Lists.{
  parse_comment_option, parse_option, parse_option_group, parse_options, spaced,
}
use ipfw_go.Parse.Port.{is_port_syntax, parse_ports}
use ipfw_go.Parse.Proto.{parse_proto, parse_protocols, protocol_not, proto_ip_keyword}
use ipfw_go.Parse.Target.Lists.{target_token, parse_targets}

abbrev pub keyword_or : {F : Type 0} → ErrorKind → Bytes → Option Bytes → Outcome F (Unit {0})
keyword_or e s none = failed e s none
keyword_or e s (some rest) = done tt rest

-- A keyword, or an error of the kind.
abbrev pub keyword : {F : Type 0} → ErrorKind → Bytes → Bytes → Outcome F (Unit {0})
keyword e word s = keyword_or e s (prefix s word)

abbrev pub whitespace : {F : Type 0} → Bytes → Outcome F (Unit {0})
whitespace s = spaced s (ws1 s)

abbrev pub then_space : Option Bytes → Option Bytes
then_space none = none
then_space (some rest) = ws1 rest

abbrev pub is_failed : {F A : Type 0} → Outcome F A → Bool
is_failed (done _ _) = false
is_failed (failed _ _ _) = true
is_failed no_fuel = true

-- Whether a parser fails at an option that it does not know.
abbrev pub is_unknown : {F A : Type 0} → Outcome F A → Bool
is_unknown (failed ErrorKind.unknown_option at cause) = true
is_unknown _ = false

module _ {S F : Type 0} (st : State S F) where
  -- Between the source and the destination: `to`, or the source ports and `to`.
  abbrev pub source_ports : Bytes → Option Bytes → M S F (Unit {0})
  source_ports rest (some buf) = pure (done tt buf)
  source_ports rest none = do
    (_, after) ← parse_ports st source_side rest
    (_, to) ← pure (whitespace after)
    (_, behind) ← pure (keyword ErrorKind.expected_prefix (codes "to") to)
    pure (whitespace behind)

  unfoldable pub parse_to : Bytes → M S F (Unit {0})
  unfolding parse_ports prefix ws1
  parse_to rest = source_ports rest (then_space (prefix rest (codes "to")))

  unfoldable pub parse_body_header : Bytes → M S F (Unit {0})
  unfolding parse_protocols parse_targets parse_to prefix ws1
  parse_body_header s = do
    (_, a) ← parse_protocols st s
    (_, b) ← pure (whitespace a)
    (_, c) ← pure (keyword ErrorKind.expected_from (codes "from") b)
    (_, d) ← pure (whitespace c)
    (_, e) ← parse_targets st source_side d
    (_, f) ← pure (whitespace e)
    (_, g) ← parse_to f
    parse_targets st destination_side g

module _ {F : Type 0} (hook : OptionHook F) where
  -- `startsOptions`
  unfoldable pub starts_options : Bytes → Bool
  unfolding parse_option open_group place_of discard
  starts_options s =
      let (g, rest) = open_group s trailing_position in
      not (
        is_unknown
          (parse_option discard hook new_context (place_of new_context g.braced) rest tt).1)

  -- The probe of the options behind a destination: whether their first group is known.
  unfoldable pub is_option_group : Bytes → Bool
  unfolding parse_option_group discard
  is_option_group buf = not (is_unknown (parse_option_group discard hook new_context buf tt).1)

-- `startsProtocol`
abbrev pub is_number : Bytes → Bool
is_number [] = true
is_number (_ ∷ _) = false

abbrev pub is_some_number : Option ℕ → Bool
is_some_number none = false
is_some_number (some _) = true

abbrev pub starts_brace : Bytes → Bool
starts_brace [] = false
starts_brace (c ∷ s) = c == b'}'

abbrev pub protocol_known : {F : Type 0} → (Bytes → Bool) → Bool → Outcome F Proto → Bool
protocol_known checker braced (done p rest) =
    if not (at_token_end rest) && (not braced || not (starts_brace rest))
    then false
    else if is_some_number (proto_ip_keyword p.name) || is_number p.name
    then true
    else checker p.name
protocol_known checker braced _ = false

unfoldable pub starts_protocol : (Bytes → Bool) → Bytes → Bool
unfolding open_group protocol_not parse_proto proto_ip_keyword at_token_end
starts_protocol checker s =
    let (g, rest) = open_group s header_position in
    protocol_known {F = Unit {0}} checker g.braced (parse_proto (protocol_not rest).0)

-- `parserOptions`, without the command hook, which drives a state of its own choice.
pub record Grammar (F : Type 0) : Type 0 where
  pub enable_labels : Bool
  pub option_hook : OptionHook F
  pub table_type_hook : TableTypeHook F
  pub proto_checker : Option (Bytes → Bool)

abbrev pub has_hook : {F : Type 0} → OptionHook F → Bool
has_hook none = false
has_hook (some _) = true

module _ {F : Type 0} (g : Grammar F) where
  -- Whether the body is a header with a `from` and a `to`, by its shape.
  unfoldable pub legacy_by_shape : Bytes → Bool
  unfolding starts_options parse_body_header discard
  legacy_by_shape s =
      let option_start = not (has_hook g.option_hook) && starts_options {F = F} none s in
      if has_hook g.option_hook || option_start
      then not (is_failed (parse_body_header {F = F} discard s tt).1)
        || not option_start && not (starts_options g.option_hook s)
      else true

  abbrev pub legacy_of : Option (Bytes → Bool) → Bytes → Bool
  legacy_of (some checker) s = starts_protocol checker s
  legacy_of none s = legacy_by_shape s

  unfoldable pub is_legacy : Bytes → Bool
  unfolding starts_protocol legacy_by_shape
  is_legacy s = legacy_of g.proto_checker s

  module _ {S : Type 0} (st : State S F) where
    abbrev pub options_behind : OptionContext → Bytes → Option Bytes → M S F OptionContext
    options_behind ctx rest none = pure (done ctx rest)
    options_behind ctx rest (some buf) = parse_options st g.option_hook ctx buf

    -- The destination ports, if they are ports: a token that is none leaves the input at the
    -- destination, and what was handed to the state stays there.
    abbrev pub ports_tried :
        OptionContext → Bytes → S × Outcome F (Unit {0}) → S × Outcome F OptionContext
    ports_tried ctx rest (σ, done _ behind) = options_behind ctx behind (ws1 behind) σ
    ports_tried ctx rest (σ, failed e at cause) =
        if is_port_syntax e then options_behind ctx rest (ws1 rest) σ else (σ, failed e at cause)
    ports_tried ctx rest (σ, no_fuel) = (σ, no_fuel)

    abbrev pub behind_destination : OptionContext → Bytes → Option Bytes → M S F OptionContext
    behind_destination ctx rest none σ = (σ, done ctx rest)
    behind_destination ctx rest (some buf) σ =
        if has_prefix buf (codes "//") || is_option_group g.option_hook buf
        then parse_options st g.option_hook ctx buf σ
        else ports_tried ctx rest (parse_ports st destination_side buf σ)

    unfoldable pub parse_body_legacy : OptionContext → Bytes → M S F OptionContext
    unfolding parse_body_header parse_options parse_ports is_option_group is_port_syntax has_prefix
        ws1
    parse_body_legacy ctx s = do
      (_, rest) ← parse_body_header st s
      behind_destination ctx rest (ws1 rest)

    abbrev pub any_token : BodySide → Token
    any_token side = target_token side false 0 TargetKind.anywhere []

    -- The targets of a rule without a header: any to any.
    abbrev pub emit_any : {A : Type 0} → A → Bytes → Bytes → M S F A → M S F A
    emit_any a at input onward =
        emit_or st (any_token source_side) a at input
          (emit_or st (any_token destination_side) a at input onward)

    unfoldable pub parse_rule_body : OptionContext → Bytes → M S F OptionContext
    unfolding at_line_end is_legacy parse_body_legacy parse_options
    parse_rule_body ctx s σ =
        if at_line_end s
        then (σ, failed ErrorKind.expected_either_ip_or_proto s none)
        else if is_legacy s
        then parse_body_legacy ctx s σ
        else emit_any ctx s s (parse_options st g.option_hook ctx s) σ

    abbrev pub ended_block : OptionContext → Bytes → M S F OptionContext
    ended_block ctx buf = do
      (_, rest) ← parse_comment_option st false (place_of ctx false) buf
      pure (done (end_block ctx) rest)

    unfoldable pub parse_trailing_comment : OptionContext → Bytes → M S F OptionContext
    unfolding ws0 has_prefix parse_comment_option place_of end_block
    parse_trailing_comment ctx s =
        let buf = ws0 s in
        if has_prefix buf (codes "//") then ended_block ctx buf else pure (done ctx s)
