-- ===== src/Parse/Options/Lists.antt =====
-- opt.go: `parseOptions`, over the groups of an option list and their members.
use ipfw_go.Prelude.Int.{ℤ}
use ipfw_go.Prelude.{
  ℕ, zero, suc, ◌+◌, Bool, true, false, Option, none, some, Bytes, codes, ◌==◌, if◌then◌else◌,
  length, drop, min,
}
use ipfw_go.Resolver.{Token}
use ipfw_go.Rule.{Opt, OptKind, empty_type_set}
use ipfw_go.Parse.Lex.{
  Group, trailing_position, open_group, group_next, prefix, ws1, or_input, not_ws1, split_line,
  line_text, trim_right_space, at_line_end,
}
use ipfw_go.Parse.Outcome.{
  Outcome, done, failed, no_fuel, ErrorKind, Fault, State, M, pure, emit, ◌>>=◌, fail_from,
  with_value, count_of, OptionHook,
}
use ipfw_go.Parse.Options.{
  OptionContext, new_context, Place, place_of, end_block, next_pattern, place_opt, validate,
  argument_option, keyword_option,
}
use ipfw_go.Parse.Options.Values.{types_loop, flags_loop, parse_via, parse_flow_name}
use ipfw_go.Parse.Port.{next_element, next_listed, parse_port_range}
use ipfw_go.Parse.Proto.{parse_proto}

-- What stands behind the whitespace that an argument needs.
abbrev pub spaced : {F : Type 0} → Bytes → Option Bytes → Outcome F (Unit {0})
spaced s none = failed ErrorKind.expected_whitespace s none
spaced s (some rest) = done tt rest

-- `n = min(max(n, 0), len(s))`
unfoldable pub clamp : ℤ → Bytes → ℕ
clamp n s = min (count_of n) (length s)

-- What `parseCustomOption` makes of the answer of the hook: the option with its place, and the
-- context that `Validate` leaves.
abbrev pub placed : Bool → Place → Opt → Opt
placed neg place opt = record opt { neg = neg; block = place.block; pattern = place.pattern }

pub data Hooked (F : Type 0) : Type 0 where
  taken : Opt → Bytes → Hooked F
  refused : Outcome F (Unit {0}) → Hooked F

abbrev pub answer_of : {F : Type 0} → Bytes → Opt × ℤ × Option (Fault F) → Hooked F
answer_of s (opt, n, some e) = refused (fail_from (some e) (drop (clamp n s) s) s)
answer_of s (opt, n, none) =
    if clamp n s == 0
    then refused (failed ErrorKind.unknown_option s none)
    else taken opt (drop (clamp n s) s)

unfoldable pub hooked : {F : Type 0} → OptionHook F → Bytes → Hooked F
unfolding clamp
hooked none s = refused (failed ErrorKind.unknown_option s none)
hooked (some hook) s = answer_of s (hook s)

module _ {S F : Type 0} (st : State S F) where
  -- An option to the state, a rejection at the position, and the input behind the option.
  abbrev pub emit_option : {A : Type 0} → A → Opt → Bytes → Bytes → M S F A
  emit_option a opt at rest = do _ ← emit st (Token.option opt) at; pure (done a rest)

  -- The comment in the text behind its slashes: `text[:end]` and `text[end:]` are the two parts of
  -- the line.
  unfoldable pub comment_text : Bool → Place → Bytes → Bytes → M S F (Unit {0})
  unfolding split_line trim_right_space
  comment_text neg place at text =
      let (line, behind) = split_line text in
      emit_option tt (record (place_opt place neg OptKind.comment) { text = trim_right_space line })
        at behind

  unfoldable pub parse_comment_option : Bool → Place → Bytes → M S F (Unit {0})
  unfolding prefix comment_text
  parse_comment_option neg place s = comment_text neg place s (or_input s (prefix s (codes "//"))).0

  unfoldable pub parse_types_option : OptKind → Bool → Place → Bytes → M S F (Unit {0})
  unfolding ws1 types_loop
  parse_types_option kind neg place s = do
    (_, rest) ← pure (spaced s (ws1 s))
    (types, buf) ← pure (types_loop (length rest + 1) kind empty_type_set rest)
    emit_option tt (record (place_opt place neg kind) { types = types }) rest buf

  unfoldable pub parse_keep_state_option : Bool → Place → Bytes → M S F (Unit {0})
  unfolding parse_flow_name
  parse_keep_state_option neg place s =
      let (flow, rest) = parse_flow_name s in
      emit_option tt (record (place_opt place neg OptKind.keep_state) { text = flow }) s rest

  unfoldable pub parse_proto_option : Bool → Place → Bytes → M S F (Unit {0})
  unfolding ws1 parse_proto
  parse_proto_option neg place s = do
    (_, rest) ← pure (spaced s (ws1 s))
    (p, buf) ← pure (parse_proto rest)
    emit_option tt (record (place_opt place neg OptKind.proto) { proto = p }) rest buf

  unfoldable pub parse_tcp_flags_option : Bool → Place → Bytes → M S F (Unit {0})
  unfolding ws1 flags_loop
  parse_tcp_flags_option neg place s = do
    (_, rest) ← pure (spaced s (ws1 s))
    (flags, buf) ←
        pure (flags_loop (length rest + 1) (record { set_flags = 0; clear_flags = 0 }) rest)
    emit_option tt (record (place_opt place neg OptKind.tcp_flags) { tcp_flags = flags }) rest buf

  unfoldable pub parse_via_option : Bool → Place → Bytes → M S F (Unit {0})
  unfolding ws1 parse_via
  parse_via_option neg place s = do
    (_, rest) ← pure (spaced s (ws1 s))
    (via, buf) ← pure (parse_via rest)
    emit_option tt (record (place_opt place neg OptKind.via) { via = via }) rest buf

  -- The loop of `parsePortsOption`: an option for each range.
  unfoldable pub port_options_loop : ℕ → OptKind → Bool → Place → Bytes → M S F (Unit {0})
  unfolding parse_port_range next_listed
  port_options_loop zero kind neg place rest = pure no_fuel
  port_options_loop (suc f) kind neg place rest = do
    (range, buf) ← pure (parse_port_range rest)
    _ ← emit st (Token.option (record (place_opt place neg kind) { ports = range })) rest
    next_element (port_options_loop f kind neg place) (next_listed buf)

  unfoldable pub parse_ports_option : OptKind → Bool → Place → Bytes → M S F (Unit {0})
  unfolding ws1 port_options_loop
  parse_ports_option kind neg place s = do
    (_, rest) ← pure (spaced s (ws1 s))
    port_options_loop (length rest + 1) kind neg place rest

  -- The cases of `parseOption` for an option with an argument; `argumentOption` gives no other kind.
  -- Behind the slashes of a comment is the argument that `parseCommentOption` cuts off again.
  abbrev pub by_kind : OptKind → Bool → Place → Bytes → Bytes → M S F (Unit {0})
  by_kind OptKind.comment neg place rest arg = comment_text neg place rest arg
  by_kind OptKind.source_port neg place rest arg =
      parse_ports_option OptKind.source_port neg place arg
  by_kind OptKind.destination_port neg place rest arg =
      parse_ports_option OptKind.destination_port neg place arg
  by_kind OptKind.icmp_types neg place rest arg =
      parse_types_option OptKind.icmp_types neg place arg
  by_kind OptKind.icmp6_types neg place rest arg =
      parse_types_option OptKind.icmp6_types neg place arg
  by_kind OptKind.keep_state neg place rest arg = parse_keep_state_option neg place arg
  by_kind OptKind.proto neg place rest arg = parse_proto_option neg place arg
  by_kind OptKind.tcp_flags neg place rest arg = parse_tcp_flags_option neg place arg
  by_kind OptKind.via neg place rest arg = parse_via_option neg place arg
  by_kind _ neg place rest arg = pure (failed ErrorKind.unknown_option rest none)

  module _ (hook : OptionHook F) where
    abbrev pub custom_of : OptionContext → Bool → Place → Bytes → Hooked F → M S F OptionContext
    custom_of ctx neg place s (refused o) = pure (with_value ctx o)
    custom_of ctx neg place s (taken opt behind) = do
      (ctx', _) ← pure (validate ctx opt.kind place s)
      emit_option ctx' (placed neg place opt) s behind

    unfoldable pub parse_custom_option : OptionContext → Bool → Place → Bytes → M S F OptionContext
    unfolding hooked validate
    parse_custom_option ctx neg place s = custom_of ctx neg place s (hooked hook s)

    abbrev pub keyword_of :
        OptionContext → Bool → Place → Bytes → Option (OptKind × Bytes) → M S F OptionContext
    keyword_of ctx neg place s none = parse_custom_option ctx neg place s
    keyword_of ctx neg place s (some (kind, rest)) =
        emit_option ctx (place_opt place neg kind) s rest

    unfoldable pub parse_keyword_option : OptionContext → Bool → Place → Bytes → M S F OptionContext
    unfolding keyword_option parse_custom_option
    parse_keyword_option ctx neg place s = keyword_of ctx neg place s (keyword_option s)

    abbrev pub option_of :
        OptionContext → Bool → Place → Bytes → Option (OptKind × Bytes) → M S F OptionContext
    option_of ctx neg place rest none = parse_keyword_option ctx neg place rest
    option_of ctx neg place rest (some (kind, arg)) = do
      (ctx', _) ← pure (validate ctx kind place rest)
      (_, buf) ← by_kind kind neg place rest arg
      pure (done ctx' buf)

    unfoldable pub parse_option : OptionContext → Place → Bytes → M S F OptionContext
    unfolding not_ws1 argument_option parse_keyword_option validate comment_text parse_types_option
        parse_keep_state_option parse_proto_option parse_tcp_flags_option parse_via_option
        parse_ports_option
    parse_option ctx place s =
        let (rest, neg) = not_ws1 s in option_of ctx neg place rest (argument_option rest)

    abbrev pub after_option :
        (OptionContext → Bytes → M S F OptionContext)
        → OptionContext
        → Bool
        → Bytes
        → M S F OptionContext
    after_option loop ctx true rest = loop ctx rest
    after_option loop ctx false rest = pure (done (end_block ctx) rest)

    -- The loop of `parseOptionGroup`.
    unfoldable pub group_loop : ℕ → Group → Place → OptionContext → Bytes → M S F OptionContext
    unfolding parse_option group_next end_block next_pattern
    group_loop zero g place ctx rest = pure no_fuel
    group_loop (suc f) g place ctx rest = do
      (ctx', buf) ← parse_option ctx place rest
      (more, rest') ← pure (group_next g buf)
      after_option (λ c r. group_loop f g (next_pattern place) c r) ctx' more rest'

    unfoldable pub parse_option_group : OptionContext → Bytes → M S F OptionContext
    unfolding group_loop open_group place_of
    parse_option_group ctx s =
        let (g, rest) = open_group s trailing_position in
        group_loop (length rest + 1) g (place_of ctx g.braced) ctx rest

    abbrev pub behind_group :
        (OptionContext → Bytes → M S F OptionContext)
        → OptionContext
        → Bytes
        → Option Bytes
        → M S F OptionContext
    behind_group loop ctx buf none = pure (done ctx buf)
    behind_group loop ctx buf (some rest) = loop ctx rest

    -- The loop of `parseOptions`.
    unfoldable pub options_loop : ℕ → OptionContext → Bytes → M S F OptionContext
    unfolding at_line_end parse_option_group ws1
    options_loop zero ctx rest = pure no_fuel
    options_loop (suc f) ctx rest =
        let onward = do
          (ctx', buf) ← parse_option_group ctx rest
          behind_group (options_loop f) ctx' buf (ws1 buf)
        in if at_line_end rest then pure (done ctx rest) else onward

    unfoldable pub parse_options : OptionContext → Bytes → M S F OptionContext
    unfolding options_loop
    parse_options ctx s = options_loop (length s + 1) ctx s

    -- `ParseOptions`
    unfoldable pub parse_option_text : Bytes → M S F OptionContext
    unfolding line_text parse_options
    parse_option_text s = parse_options new_context (line_text s)
