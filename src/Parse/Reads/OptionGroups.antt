-- ===== src/Parse/Reads/OptionGroups.antt =====
-- What the groups of an option list leave of the input.
use ipfw_go.Prelude.{ℕ, zero, suc, ◌+◌, ◌<◌, Bool, Option, Bytes, length, arith}
use ipfw_go.Rule.{OptKind}
use ipfw_go.Parse.Lex.{Group, trailing_position, open_group, not_ws1, at_line_end}
use ipfw_go.Parse.Options.{OptionContext, Place, place_of, next_pattern, validate}
use ipfw_go.Parse.Options.Lists.{
  Hooked, placed, by_kind, custom_of, parse_custom_option, keyword_of, parse_keyword_option,
  option_of, parse_option, after_option, group_loop, parse_option_group, behind_group, options_loop,
  parse_options,
}
use ipfw_go.Parse.Outcome.{bound, Outcome, State, M, OptionHook}
use ipfw_go.Parse.Reads.{
  Behind, same, after, weak, Opens, shut, opens, Reads, reads, fails, bound-Reads, with_value-Reads,
}
use ipfw_go.Parse.Reads.Lex.{ws1-Opens, not_ws1-Behind}
use ipfw_go.Parse.Reads.Groups.{
  open_group-Behind, group_next-Follows, Follows, follows, finishes, breaks,
}
use ipfw_go.Parse.Reads.Targets.{if-answer}
use ipfw_go.Parse.Reads.Options.{
  Finds, absent, finds, argument_option-Finds, keyword_option-Finds, validate-Reads,
}
use ipfw_go.Parse.Reads.OptionLists.{
  Answers, refuses, takes, hooked-Answers, emit_option-Reads, by_kind-Reads, read_behind,
}

module _ {S F : Type 0} (st : State S F) (hook : OptionHook F) where
  custom_of-Reads :
      (ctx : OptionContext) (neg : Bool) (place : Place) (s : Bytes) (σ : S) {a : Hooked F}
      → Answers s a
      → Reads 0 s ((custom_of st hook ctx neg place s a σ).1)
  custom_of-Reads ctx neg place s σ (refuses h) = with_value-Reads ctx h
  custom_of-Reads ctx neg place s σ (takes {opt} {r} h) =
      bound-Reads (σ, validate ctx opt.kind place s) _ (validate-Reads ctx opt.kind place s)
        λ ctx' _ τ _. emit_option-Reads st ctx' (placed neg place opt) τ same (weak h)

  keyword_of-Reads :
      (ctx : OptionContext) (neg : Bool) (place : Place) (s : Bytes) (σ : S)
      {o : Option (OptKind × Bytes)}
      → Finds 1 s o
      → Reads 0 s ((keyword_of st hook ctx neg place s o σ).1)
  unfolding parse_custom_option
  keyword_of-Reads ctx neg place s σ absent =
      custom_of-Reads ctx neg place s σ (hooked-Answers hook s)
  keyword_of-Reads ctx neg place s σ (finds h) = emit_option-Reads st ctx _ σ same (weak h)

  option_of-Reads :
      (ctx : OptionContext) (neg : Bool) (place : Place) (s : Bytes) (σ : S)
      {o : Option (OptKind × Bytes)}
      → Finds 1 s o
      → Reads 0 s ((option_of st hook ctx neg place s o σ).1)
  unfolding parse_keyword_option
  option_of-Reads ctx neg place s σ absent =
      keyword_of-Reads ctx neg place s σ (keyword_option-Finds s)
  option_of-Reads ctx neg place s σ (finds {a = kind} {r = arg} h) =
      bound-Reads (σ, validate ctx kind place s) _ (validate-Reads ctx kind place s)
        λ ctx' _ τ _.
          bound-Reads (by_kind st kind neg place s arg τ) _
            (by_kind-Reads st kind neg place s arg τ h) λ _ buf υ h'. reads (weak h')

  pub parse_option-Reads :
      (ctx : OptionContext) (place : Place) (s : Bytes) (σ : S)
      → Reads 0 s ((parse_option st hook ctx place s σ).1)
  unfolding parse_option
  parse_option-Reads ctx place s σ =
      let (rest, neg) = not_ws1 s in
      read_behind (not_ws1-Behind s)
        (option_of-Reads ctx neg place rest σ (argument_option-Finds rest))

  -- The next member of a group, if a separator came before it.
  follow-Reads :
      (loop : OptionContext → Bytes → M S F OptionContext) (f : ℕ) (ctx : OptionContext) (σ : S)
      {s buf : Bytes} {o : Outcome F Bool}
      → ((r : Bytes) (τ : S) → length r < f → Reads 0 r ((loop ctx r τ).1))
      → Behind 0 s buf
      → length s < suc f
      → Follows buf o
      → Reads 0 s ((bound (σ, o) λ (more, rest). after_option st hook loop ctx more rest).1)
  follow-Reads loop f ctx σ step h fuel (follows {r} h') =
      read_behind (after h h') (step r σ (omega (arith, h.shorter, h'.shorter)))
  follow-Reads loop f ctx σ step h fuel (finishes h') = reads (after h h')
  follow-Reads loop f ctx σ step h fuel (breaks h') = fails (after h h')

  group_loop-Reads :
      (f : ℕ) (g : Group) (place : Place) (ctx : OptionContext) (s : Bytes) (σ : S)
      → length s < f
      → Reads 0 s ((group_loop st hook f g place ctx s σ).1)
  unfolding group_loop
  group_loop-Reads zero g place ctx s σ fuel = absurd (omega arith)
  group_loop-Reads (suc f) g place ctx s σ fuel =
      bound-Reads (parse_option st hook ctx place s σ) _ (parse_option-Reads ctx place s σ)
        λ ctx' buf τ h.
          follow-Reads (λ c r. group_loop st hook f g (next_pattern place) c r) f ctx' τ
            (λ r υ. group_loop-Reads f g (next_pattern place) ctx' r υ) h fuel
            (group_next-Follows g buf)

  pub parse_option_group-Reads :
      (ctx : OptionContext) (s : Bytes) (σ : S) → Reads 0 s ((parse_option_group st hook ctx s σ).1)
  unfolding parse_option_group
  parse_option_group-Reads ctx s σ =
      let (g, rest) = open_group s trailing_position in
      read_behind (open_group-Behind s trailing_position)
        (group_loop-Reads (length rest + 1) g (place_of ctx g.braced) ctx rest σ (omega arith))

  behind_group-Reads :
      (loop : OptionContext → Bytes → M S F OptionContext) (f : ℕ) (ctx : OptionContext) (σ : S)
      {s buf : Bytes} {o : Option Bytes}
      → ((r : Bytes) → length r < f → Reads 0 r ((loop ctx r σ).1))
      → Behind 0 s buf
      → length s < suc f
      → Opens 1 buf o
      → Reads 0 s ((behind_group st hook loop ctx buf o σ).1)
  behind_group-Reads loop f ctx σ step h fuel shut = reads h
  behind_group-Reads loop f ctx σ step h fuel (opens {r} h') =
      read_behind (after h h') (step r (omega (arith, h.shorter, h'.shorter)))

  options_loop-Reads :
      (f : ℕ) (ctx : OptionContext) (s : Bytes) (σ : S)
      → length s < f
      → Reads 0 s ((options_loop st hook f ctx s σ).1)
  unfolding options_loop
  options_loop-Reads zero ctx s σ fuel = absurd (omega arith)
  options_loop-Reads (suc f) ctx s σ fuel = if-answer (at_line_end s) _ _ σ (reads same) (
      bound-Reads (parse_option_group st hook ctx s σ) _ (parse_option_group-Reads ctx s σ)
        λ ctx' buf τ h.
          behind_group-Reads (options_loop st hook f) f ctx' τ (λ r. options_loop-Reads f ctx' r τ)
            h fuel (ws1-Opens buf))

  pub parse_options-Reads :
      (ctx : OptionContext) (s : Bytes) (σ : S) → Reads 0 s ((parse_options st hook ctx s σ).1)
  unfolding parse_options
  parse_options-Reads ctx s σ = options_loop-Reads (length s + 1) ctx s σ (omega arith)
