-- ===== src/Parse/Same/Options.antt =====
-- The options of a rule.
use ipfw_go.Prelude.{ℕ, zero, suc, ◌+◌, Bool, true, false, Bytes, codes, Option, none, some, length}
use ipfw_go.Resolver.{Token}
use ipfw_go.Rule.{Opt, OptKind, empty_type_set}
use ipfw_go.Parse.Lex.{
  Group, trailing_position, open_group, group_next, prefix, ws1, or_input, not_ws1, split_line,
  trim_right_space, at_line_end,
}
use ipfw_go.Parse.Options.{
  OptionContext, Place, place_of, end_block, next_pattern, place_opt, validate, argument_option,
  keyword_option,
}
use ipfw_go.Parse.Options.Values.{types_loop, flags_loop, parse_via, parse_flow_name}
use ipfw_go.Parse.Options.Lists.{
  spaced, placed, Hooked, taken, refused, hooked, emit_option, comment_text, parse_comment_option,
  parse_types_option, parse_keep_state_option, parse_proto_option, parse_tcp_flags_option,
  parse_via_option, port_options_loop, parse_ports_option, by_kind, custom_of, parse_custom_option,
  keyword_of, parse_keyword_option, option_of, parse_option, after_option, group_loop,
  parse_option_group, behind_group, options_loop, parse_options,
}
use ipfw_go.Parse.Outcome.{State, M, done, failed, no_fuel, ErrorKind, with_value, OptionHook}
use ipfw_go.Parse.Port.{next_listed, parse_port_range}
use ipfw_go.Parse.Proto.{parse_proto}
use ipfw_go.Parse.Same.{both, Alike, Same, outcome-Both, pure-Same, bound-Both, emit-Both, if-Same}
use ipfw_go.Parse.Same.Lists.{next_element-Same}

module _ {S T F : Type 0} {R : S → T → Type 0} {st : State S F} {st' : State T F}
    (same : Alike R st st') where
  emit_option-Same :
      {A : Type 0} (a : A) (opt : Opt) (at rest : Bytes)
      → Same R (emit_option st a opt at rest) (emit_option st' a opt at rest)
  emit_option-Same a opt at rest =
      emit-Both same (Token.option opt) at _ _ λ _ _. pure-Same (done a rest)

  comment_text-Same :
      (neg : Bool) (place : Place) (at text : Bytes)
      → Same R (comment_text st neg place at text) (comment_text st' neg place at text)
  unfolding comment_text
  comment_text-Same neg place at text =
      let (line, behind) = split_line text in
      emit_option-Same tt
        (record (place_opt place neg OptKind.comment) { text = trim_right_space line }) at behind

  pub parse_comment_option-Same :
      (neg : Bool) (place : Place) (s : Bytes)
      → Same R (parse_comment_option st neg place s) (parse_comment_option st' neg place s)
  unfolding parse_comment_option
  parse_comment_option-Same neg place s =
      comment_text-Same neg place s (or_input s (prefix s (codes "//"))).0

  parse_types_option-Same :
      (kind : OptKind) (neg : Bool) (place : Place) (s : Bytes)
      → Same R (parse_types_option st kind neg place s) (parse_types_option st' kind neg place s)
  unfolding parse_types_option
  parse_types_option-Same kind neg place s = outcome-Both (spaced s (ws1 s)) _ _ λ _ rest.
      outcome-Both (types_loop (length rest + 1) kind empty_type_set rest) _ _ λ types buf.
        emit_option-Same tt (record (place_opt place neg kind) { types = types }) rest buf

  parse_keep_state_option-Same :
      (neg : Bool) (place : Place) (s : Bytes)
      → Same R (parse_keep_state_option st neg place s) (parse_keep_state_option st' neg place s)
  unfolding parse_keep_state_option
  parse_keep_state_option-Same neg place s =
      let (flow, rest) = parse_flow_name s in
      emit_option-Same tt (record (place_opt place neg OptKind.keep_state) { text = flow }) s rest

  parse_proto_option-Same :
      (neg : Bool) (place : Place) (s : Bytes)
      → Same R (parse_proto_option st neg place s) (parse_proto_option st' neg place s)
  unfolding parse_proto_option
  parse_proto_option-Same neg place s = outcome-Both (spaced s (ws1 s)) _ _ λ _ rest.
      outcome-Both (parse_proto rest) _ _ λ p buf.
        emit_option-Same tt (record (place_opt place neg OptKind.proto) { proto = p }) rest buf

  parse_tcp_flags_option-Same :
      (neg : Bool) (place : Place) (s : Bytes)
      → Same R (parse_tcp_flags_option st neg place s) (parse_tcp_flags_option st' neg place s)
  unfolding parse_tcp_flags_option
  parse_tcp_flags_option-Same neg place s = outcome-Both (spaced s (ws1 s)) _ _ λ _ rest.
      outcome-Both (flags_loop (length rest + 1) (record { set_flags = 0; clear_flags = 0 }) rest) _
        _
        λ flags buf.
          emit_option-Same tt (record (place_opt place neg OptKind.tcp_flags) { tcp_flags = flags })
            rest buf

  parse_via_option-Same :
      (neg : Bool) (place : Place) (s : Bytes)
      → Same R (parse_via_option st neg place s) (parse_via_option st' neg place s)
  unfolding parse_via_option
  parse_via_option-Same neg place s = outcome-Both (spaced s (ws1 s)) _ _ λ _ rest.
      outcome-Both (parse_via rest) _ _ λ via buf.
        emit_option-Same tt (record (place_opt place neg OptKind.via) { via = via }) rest buf

  port_options_loop-Same :
      (f : ℕ) (kind : OptKind) (neg : Bool) (place : Place) (s : Bytes)
      → Same R (port_options_loop st f kind neg place s) (port_options_loop st' f kind neg place s)
  unfolding port_options_loop
  port_options_loop-Same zero kind neg place s = pure-Same no_fuel
  port_options_loop-Same (suc f) kind neg place s =
      outcome-Both (parse_port_range s) _ _ λ range buf.
        emit-Both same (Token.option (record (place_opt place neg kind) { ports = range })) s _ _
          λ _ _. next_element-Same (next_listed buf) (port_options_loop-Same f kind neg place)

  parse_ports_option-Same :
      (kind : OptKind) (neg : Bool) (place : Place) (s : Bytes)
      → Same R (parse_ports_option st kind neg place s) (parse_ports_option st' kind neg place s)
  unfolding parse_ports_option
  parse_ports_option-Same kind neg place s =
      outcome-Both (spaced s (ws1 s)) _ _
        λ _ rest. port_options_loop-Same (length rest + 1) kind neg place rest

  by_kind-Same :
      (kind : OptKind) (neg : Bool) (place : Place) (rest arg : Bytes)
      → Same R (by_kind st kind neg place rest arg) (by_kind st' kind neg place rest arg)
  by_kind-Same OptKind.comment neg place rest arg = comment_text-Same neg place rest arg
  by_kind-Same OptKind.source_port neg place rest arg =
      parse_ports_option-Same OptKind.source_port neg place arg
  by_kind-Same OptKind.destination_port neg place rest arg =
      parse_ports_option-Same OptKind.destination_port neg place arg
  by_kind-Same OptKind.icmp_types neg place rest arg =
      parse_types_option-Same OptKind.icmp_types neg place arg
  by_kind-Same OptKind.icmp6_types neg place rest arg =
      parse_types_option-Same OptKind.icmp6_types neg place arg
  by_kind-Same OptKind.keep_state neg place rest arg = parse_keep_state_option-Same neg place arg
  by_kind-Same OptKind.proto neg place rest arg = parse_proto_option-Same neg place arg
  by_kind-Same OptKind.tcp_flags neg place rest arg = parse_tcp_flags_option-Same neg place arg
  by_kind-Same OptKind.via neg place rest arg = parse_via_option-Same neg place arg
  by_kind-Same _ neg place rest arg = pure-Same (failed ErrorKind.unknown_option rest none)

  module _ (hook : OptionHook F) where
    custom_of-Same :
        (ctx : OptionContext) (neg : Bool) (place : Place) (s : Bytes) (answer : Hooked F)
        → Same R
            (custom_of st hook ctx neg place s answer)
            (custom_of st' hook ctx neg place s answer)
    custom_of-Same ctx neg place s (refused o) = pure-Same (with_value ctx o)
    custom_of-Same ctx neg place s (taken opt behind) =
        outcome-Both (validate ctx opt.kind place s) _ _
          λ ctx' _. emit_option-Same ctx' (placed neg place opt) s behind

    keyword_of-Same :
        (ctx : OptionContext) (neg : Bool) (place : Place) (s : Bytes)
        (word : Option (OptKind × Bytes))
        → Same R
            (keyword_of st hook ctx neg place s word)
            (keyword_of st' hook ctx neg place s word)
    unfolding parse_custom_option
    keyword_of-Same ctx neg place s none = custom_of-Same ctx neg place s (hooked hook s)
    keyword_of-Same ctx neg place s (some (kind, rest)) =
        emit_option-Same ctx (place_opt place neg kind) s rest

    option_of-Same :
        (ctx : OptionContext) (neg : Bool) (place : Place) (s : Bytes)
        (word : Option (OptKind × Bytes))
        → Same R (option_of st hook ctx neg place s word) (option_of st' hook ctx neg place s word)
    unfolding parse_keyword_option
    option_of-Same ctx neg place s none = keyword_of-Same ctx neg place s (keyword_option s)
    option_of-Same ctx neg place s (some (kind, arg)) =
        outcome-Both (validate ctx kind place s) _ _ λ ctx' _ σ τ h.
          bound-Both _ _ (by_kind-Same kind neg place s arg σ τ h)
            λ _ buf. pure-Same (done ctx' buf)

    parse_option-Same :
        (ctx : OptionContext) (place : Place) (s : Bytes)
        → Same R (parse_option st hook ctx place s) (parse_option st' hook ctx place s)
    unfolding parse_option
    parse_option-Same ctx place s =
        let (rest, neg) = not_ws1 s in option_of-Same ctx neg place rest (argument_option rest)

    after_option-Same :
        {m : OptionContext → Bytes → M S F OptionContext}
        {n : OptionContext → Bytes → M T F OptionContext} (ctx : OptionContext) (more : Bool)
        (rest : Bytes)
        → ((c : OptionContext) (r : Bytes) → Same R (m c r) (n c r))
        → Same R (after_option st hook m ctx more rest) (after_option st' hook n ctx more rest)
    after_option-Same ctx true rest loop = loop ctx rest
    after_option-Same ctx false rest loop = pure-Same (done (end_block ctx) rest)

    group_loop-Same :
        (f : ℕ) (g : Group) (place : Place) (ctx : OptionContext) (s : Bytes)
        → Same R (group_loop st hook f g place ctx s) (group_loop st' hook f g place ctx s)
    unfolding group_loop
    group_loop-Same zero g place ctx s σ τ h = both h
    group_loop-Same (suc f) g place ctx s σ τ h =
        bound-Both _ _ (parse_option-Same ctx place s σ τ h) λ ctx' buf.
          outcome-Both (group_next g buf) _ _
            λ more rest. after_option-Same ctx' more rest (group_loop-Same f g (next_pattern place))

    parse_option_group-Same :
        (ctx : OptionContext) (s : Bytes)
        → Same R (parse_option_group st hook ctx s) (parse_option_group st' hook ctx s)
    unfolding parse_option_group
    parse_option_group-Same ctx s =
        let (g, rest) = open_group s trailing_position in
        group_loop-Same (length rest + 1) g (place_of ctx g.braced) ctx rest

    behind_group-Same :
        {m : OptionContext → Bytes → M S F OptionContext}
        {n : OptionContext → Bytes → M T F OptionContext} (ctx : OptionContext) (buf : Bytes)
        (o : Option Bytes)
        → ((c : OptionContext) (r : Bytes) → Same R (m c r) (n c r))
        → Same R (behind_group st hook m ctx buf o) (behind_group st' hook n ctx buf o)
    behind_group-Same ctx buf none loop = pure-Same (done ctx buf)
    behind_group-Same ctx buf (some rest) loop = loop ctx rest

    options_loop-Same :
        (f : ℕ) (ctx : OptionContext) (s : Bytes)
        → Same R (options_loop st hook f ctx s) (options_loop st' hook f ctx s)
    unfolding options_loop
    options_loop-Same zero ctx s = pure-Same no_fuel
    options_loop-Same (suc f) ctx s = if-Same (at_line_end s) (pure-Same (done ctx s)) λ σ τ h.
        bound-Both _ _ (parse_option_group-Same ctx s σ τ h)
          λ ctx' buf. behind_group-Same ctx' buf (ws1 buf) (options_loop-Same f)

    pub parse_options-Same :
        (ctx : OptionContext) (s : Bytes)
        → Same R (parse_options st hook ctx s) (parse_options st' hook ctx s)
    unfolding parse_options
    parse_options-Same ctx s = options_loop-Same (length s + 1) ctx s
