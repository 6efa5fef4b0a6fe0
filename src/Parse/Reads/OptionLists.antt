-- ===== src/Parse/Reads/OptionLists.antt =====
-- What the options of a rule body leave of the input.
use ipfw_go.Prelude.Int.{ℤ}
use ipfw_go.Prelude.{
  ℕ, zero, suc, ◌+◌, ◌<◌, Bool, false, Bool-cases, inl, inr, Option, none, some, Bytes, codes, ◌==◌,
  length, drop, length-drop, ◌≡◌, arith,
}
use ipfw_go.Resolver.{Token}
use ipfw_go.Rule.{Opt, OptKind, empty_type_set}
use ipfw_go.Parse.Lex.{ws1}
use ipfw_go.Parse.Options.{Place, place_opt}
use ipfw_go.Parse.Options.Values.{types_loop, flags_loop, parse_via}
use ipfw_go.Parse.Options.Lists.{
  spaced, clamp, Hooked, taken, refused, answer_of, hooked, emit_option, comment_text,
  parse_comment_option, parse_types_option, parse_keep_state_option, parse_proto_option,
  parse_tcp_flags_option, parse_via_option, port_options_loop, parse_ports_option, by_kind,
}
use ipfw_go.Parse.Outcome.{Outcome, Fault, ◌>>=◌, State, OptionHook}
use ipfw_go.Parse.Port.{parse_port_range}
use ipfw_go.Parse.Proto.{parse_proto}
use ipfw_go.Parse.Reads.{
  Behind, same, join, weak, of_drop, Opens, shut, opens, Reads, reads, fails, Reads-join,
  bound-Reads, emit-Reads, fail_from-Reads,
}
use ipfw_go.Parse.Reads.Lex.{
  Parts-Behind, prefix-Opens, ws1-Opens, or_input-Behind, split_line-Parts,
}
use ipfw_go.Parse.Reads.Lists.{next_listed-Lists, next_element-Reads, parse_port_range-Reads}
use ipfw_go.Parse.Reads.Protocols.{parse_proto-Reads}
use ipfw_go.Parse.Reads.Options.{types_loop-Reads}
use ipfw_go.Parse.Reads.Arguments.{flags_loop-Reads, parse_via-Reads, parse_flow_name-Behind}

pub spaced-Reads :
    {F : Type 0} {n : ℕ} {s : Bytes} {o : Option Bytes}
    → Opens n s o
    → Reads n s (spaced {F = F} s o)
spaced-Reads shut = fails same
spaced-Reads (opens h) = reads h

pub read_behind :
    {F A : Type 0} {m n : ℕ} {s r : Bytes} {o : Outcome F A}
    → Behind m s r
    → Reads n r o
    → Reads 0 s o
read_behind h h' = Reads-join h h' (omega arith)

-- What a hook takes is behind the input, and at least a byte when it takes an option.
pub data Answers {F : Type 0} (s : Bytes) : Hooked F → Type 0 where
  takes : {opt : Opt} {r : Bytes} → Behind 1 s r → Answers s (taken opt r)
  refuses : {o : Outcome F (Unit {0})} → Reads 0 s o → Answers s (refused o)

dropped : (n : ℤ) (s : Bytes) → (clamp n s == 0) ≡ false → Behind 1 s (drop (clamp n s) s)
unfolding clamp
dropped n s e = record {
  suffix = (of_drop (clamp n s) s).suffix;
  shorter = ground (arith, length-drop (clamp n s) s);
}

pub hooked-Answers : {F : Type 0} (hook : OptionHook F) (s : Bytes) → Answers s (hooked hook s)
unfolding hooked
hooked-Answers none s = refuses (fails same)
hooked-Answers {F} (some hook) s = answer-Answers (hook s)
  where
    answer-Answers : (a : Opt × ℤ × Option (Fault F)) → Answers s (answer_of s a)
    answer-Answers (opt, n, some e) =
        refuses (fail_from-Reads (some e) _ s (of_drop (clamp n s) s) same)
    answer-Answers (opt, n, none) = elim (Bool-cases (clamp n s == 0)) [
      | inl z ↦ rw z (refuses (fails same))
      | inr p ↦ rw p (takes (dropped n s p))
    ]

module _ {S F : Type 0} (st : State S F) where
  pub emit_option-Reads :
      {A : Type 0} (a : A) (opt : Opt) {n : ℕ} {s at rest : Bytes} (σ : S)
      → Behind 0 s at
      → Behind n s rest
      → Reads n s ((emit_option st a opt at rest σ).1)
  emit_option-Reads a opt {at = at} σ h h' = emit-Reads st (Token.option opt) at σ _ h λ τ. reads h'

  comment_text-Reads :
      (neg : Bool) (place : Place) {n : ℕ} {s text : Bytes} (σ : S)
      → Behind n s text
      → Reads n s ((comment_text st neg place s text σ).1)
  unfolding comment_text
  comment_text-Reads neg place {n} {s} {text} σ h =
      emit_option-Reads tt _ σ same (join h (Parts-Behind (split_line-Parts text)) (omega arith))

  pub parse_comment_option-Reads :
      (neg : Bool) (place : Place) (s : Bytes) (σ : S)
      → Reads 0 s ((parse_comment_option st neg place s σ).1)
  unfolding parse_comment_option
  parse_comment_option-Reads neg place s σ =
      comment_text-Reads neg place σ (or_input-Behind (prefix-Opens s (codes "//")))

  -- An argument behind whitespace, read by a parser that drives no state, and its option.
  argument-Reads :
      {A : Type 0} (parse : Bytes → Outcome F A) (opt_of : A → Opt) (s : Bytes) (σ : S)
      → ((r : Bytes) → Reads 1 r (parse r))
      → Reads 0 s (
          ((do
            (_, rest) ← λ τ. (τ, spaced s (ws1 s))
            (a, buf) ← λ τ. (τ, parse rest)
            emit_option st tt (opt_of a) rest buf)
            σ).1)
  argument-Reads parse opt_of s σ step =
      bound-Reads (σ, spaced s (ws1 s)) _ (spaced-Reads (ws1-Opens s))
        λ _ rest τ h.
          bound-Reads (τ, parse rest) _ (read_behind h (step rest))
            λ a buf υ h'. emit_option-Reads tt (opt_of a) υ (weak h) (weak h')

  port_options_loop-Reads :
      (f : ℕ) (kind : OptKind) (neg : Bool) (place : Place) (s : Bytes) (σ : S)
      → length s < f
      → Reads 1 s ((port_options_loop st f kind neg place s σ).1)
  unfolding port_options_loop
  port_options_loop-Reads zero kind neg place s σ fuel = absurd (omega arith)
  port_options_loop-Reads (suc f) kind neg place s σ fuel =
      bound-Reads (σ, parse_port_range s) _ (parse_port_range-Reads s)
        λ range buf τ h. emit-Reads st _ s τ _ same λ υ.
          next_element-Reads (port_options_loop st f kind neg place) f υ
            (λ r. port_options_loop-Reads f kind neg place r υ) h (omega (arith, h.shorter))
            (next_listed-Lists buf)

  parse_ports_option-Reads :
      (kind : OptKind) (neg : Bool) (place : Place) (s : Bytes) (σ : S)
      → Reads 0 s ((parse_ports_option st kind neg place s σ).1)
  unfolding parse_ports_option
  parse_ports_option-Reads kind neg place s σ =
      bound-Reads (σ, spaced s (ws1 s)) _ (spaced-Reads (ws1-Opens s))
        λ _ rest τ h.
          Reads-join (weak h)
            (port_options_loop-Reads (length rest + 1) kind neg place rest τ (omega arith))
            (omega arith)

  parse_types_option-Reads :
      (kind : OptKind) (neg : Bool) (place : Place) (s : Bytes) (σ : S)
      → Reads 0 s ((parse_types_option st kind neg place s σ).1)
  unfolding parse_types_option
  parse_types_option-Reads kind neg place s σ =
      argument-Reads (λ r. types_loop (length r + 1) kind empty_type_set r)
        (λ types. record (place_opt place neg kind) { types = types }) s σ
        λ r. types_loop-Reads (length r + 1) kind empty_type_set r (omega arith)

  pub by_kind-Reads :
      (kind : OptKind) (neg : Bool) (place : Place) (s arg : Bytes) (σ : S)
      → Behind 1 s arg
      → Reads 1 s ((by_kind st kind neg place s arg σ).1)
  unfolding parse_keep_state_option parse_proto_option parse_tcp_flags_option parse_via_option
  by_kind-Reads OptKind.comment neg place s arg σ h = comment_text-Reads neg place σ h
  by_kind-Reads OptKind.source_port neg place s arg σ h =
      Reads-join h (parse_ports_option-Reads _ neg place arg σ) (omega arith)
  by_kind-Reads OptKind.destination_port neg place s arg σ h =
      Reads-join h (parse_ports_option-Reads _ neg place arg σ) (omega arith)
  by_kind-Reads OptKind.icmp_types neg place s arg σ h =
      Reads-join h (parse_types_option-Reads _ neg place arg σ) (omega arith)
  by_kind-Reads OptKind.icmp6_types neg place s arg σ h =
      Reads-join h (parse_types_option-Reads _ neg place arg σ) (omega arith)
  by_kind-Reads OptKind.keep_state neg place s arg σ h =
      emit_option-Reads tt _ σ (weak h) (join h (parse_flow_name-Behind arg) (omega arith))
  by_kind-Reads OptKind.proto neg place s arg σ h =
      Reads-join h
        (argument-Reads parse_proto (λ p. record (place_opt place neg OptKind.proto) { proto = p })
          arg σ parse_proto-Reads)
        (omega arith)
  by_kind-Reads OptKind.tcp_flags neg place s arg σ h =
      Reads-join h
        (argument-Reads
          (λ r. flags_loop (length r + 1) (record { set_flags = 0; clear_flags = 0 }) r)
          (λ flags. record (place_opt place neg OptKind.tcp_flags) { tcp_flags = flags }) arg σ
          λ r. flags_loop-Reads (length r + 1) _ r (omega arith))
        (omega arith)
  by_kind-Reads OptKind.via neg place s arg σ h =
      Reads-join h
        (argument-Reads parse_via (λ via. record (place_opt place neg OptKind.via) { via = via })
          arg σ parse_via-Reads)
        (omega arith)
  by_kind-Reads _ neg place s arg σ h = fails same
