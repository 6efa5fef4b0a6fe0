-- ===== src/Parse/Reads/Bodies.antt =====
-- What a rule leaves of the input.
use ipfw_go.Prelude.{ℕ, false, ◌||◌, [], Option, Bytes, codes}
use ipfw_go.Resolver.{source_side, destination_side}
use ipfw_go.Rule.{ActionKind, Instruction}
use ipfw_go.Parse.Lex.{prefix, has_prefix, ws0, parse_u32, at_line_end}
use ipfw_go.Parse.Action.{parse_action, optional_log, optional_tag, action_of, no_log}
use ipfw_go.Parse.Body.{
  whitespace, parse_body_header, Grammar, is_legacy, is_option_group, options_behind, ports_tried,
  behind_destination, parse_body_legacy, any_token, emit_any, parse_rule_body,
  parse_trailing_comment,
}
use ipfw_go.Parse.Instruction.{
  numbered, number_read, rule_number, ends_token, instruction_of, rule_comment, comment_rule,
  rule_end, action_rule, parse_instruction,
}
use ipfw_go.Parse.Options.{OptionContext, new_context, place_of}
use ipfw_go.Parse.Options.Lists.{parse_comment_option, parse_options}
use ipfw_go.Parse.Outcome.{Outcome, done, failed, no_fuel, State, M, emit_or}
use ipfw_go.Parse.Port.{parse_ports, is_port_syntax}
use ipfw_go.Parse.Reads.{
  Behind, same, after, weak, Opens, shut, opens, Reads, reads, fails, bound-Reads, emit_or-Reads,
}
use ipfw_go.Parse.Reads.Lex.{ws0-Behind, ws1-Opens}
use ipfw_go.Parse.Reads.Groups.{Numbers, missing, number, parse_uint-Numbers}
use ipfw_go.Parse.Reads.Lists.{parse_ports-Reads}
use ipfw_go.Parse.Reads.OptionLists.{read_behind, parse_comment_option-Reads}
use ipfw_go.Parse.Reads.OptionGroups.{parse_options-Reads}
use ipfw_go.Parse.Reads.Rules.{parse_body_header-Reads}
use ipfw_go.Parse.Reads.Actions.{
  parse_action-Reads, optional_log-Reads, optional_tag-Reads, whitespace-Reads,
}
use ipfw_go.Parse.Reads.Targets.{if-answer, if-run}

numbered-Behind :
    (num : ℕ) {s r : Bytes} {n : ℕ} {o : Option Bytes}
    → Behind 0 s r
    → Opens n r o
    → Behind 0 s (numbered s num o).1
numbered-Behind num h shut = same
numbered-Behind num h (opens h') = after h h'

rule_number-Behind : (s : Bytes) → Behind 0 s (rule_number s).1
unfolding rule_number parse_u32
rule_number-Behind s = read-Behind (parse_uint-Numbers s 4294967295)
  where
    read-Behind : {n : ℕ} {o : Option (ℕ × Bytes)} → Numbers n s o → Behind 0 s (number_read s o).1
    read-Behind missing = same
    read-Behind (number {v} {r} h) = numbered-Behind v (weak h) (ws1-Opens r)

module _ {S F : Type 0} (g : Grammar F) (st : State S F) where
  options_behind-Reads :
      (ctx : OptionContext) {n : ℕ} {s r : Bytes} {o : Option Bytes} (σ : S)
      → Behind 0 s r
      → Opens n r o
      → Reads 0 s ((options_behind g st ctx r o σ).1)
  options_behind-Reads ctx σ h shut = reads h
  options_behind-Reads ctx σ h (opens {r} h') =
      read_behind (after h h') (parse_options-Reads st g.option_hook ctx r σ)

  ports_tried-Reads :
      (ctx : OptionContext) {n : ℕ} {s r buf : Bytes} (x : S × Outcome F (Unit {0}))
      → Behind 0 s r
      → Behind 0 s buf
      → Reads n buf (x.1)
      → Reads 0 s ((ports_tried g st ctx r x).1)
  ports_tried-Reads ctx (σ, done _ q) h h' (reads h'') =
      options_behind-Reads ctx σ (after h' h'') (ws1-Opens q)
  ports_tried-Reads ctx {r = r} (σ, failed e at cause) h h' (fails h'') =
      if-run (is_port_syntax e) _ _ (options_behind-Reads ctx σ h (ws1-Opens r))
        (fails (after h' h''))
  ports_tried-Reads ctx (σ, no_fuel) h h' h'' = elim h'' [ ]

  behind_destination-Reads :
      (ctx : OptionContext) {n : ℕ} {s r : Bytes} {o : Option Bytes} (σ : S)
      → Behind 0 s r
      → Opens n r o
      → Reads 0 s ((behind_destination g st ctx r o σ).1)
  behind_destination-Reads ctx σ h shut = reads h
  behind_destination-Reads ctx σ h (opens {r = buf} h') =
      if-run (has_prefix buf (codes "//") || is_option_group g.option_hook buf) _ _
        (read_behind (after h h') (parse_options-Reads st g.option_hook ctx buf σ))
        (ports_tried-Reads ctx (parse_ports st destination_side buf σ) h (after h h')
          (parse_ports-Reads st destination_side buf σ))

  parse_body_legacy-Reads :
      (ctx : OptionContext) (s : Bytes) (σ : S) → Reads 0 s ((parse_body_legacy g st ctx s σ).1)
  unfolding parse_body_legacy
  parse_body_legacy-Reads ctx s σ =
      bound-Reads (parse_body_header st s σ) _ (parse_body_header-Reads st s σ)
        λ _ r τ h. behind_destination-Reads ctx τ h (ws1-Opens r)

  emit_any-Reads :
      {A : Type 0} (a : A) (at input : Bytes) {s : Bytes} (onward : M S F A) (σ : S)
      → Behind 0 s at
      → Behind 0 s input
      → ((τ : S) → Reads 0 s ((onward τ).1))
      → Reads 0 s ((emit_any g st a at input onward σ).1)
  emit_any-Reads a at input onward σ h h' next =
      emit_or-Reads st (any_token g st source_side) a at input
        (emit_or st (any_token g st destination_side) a at input onward) σ h h'
        λ τ. emit_or-Reads st (any_token g st destination_side) a at input onward τ h h' next

  parse_rule_body-Reads :
      (ctx : OptionContext) (s : Bytes) (σ : S) → Reads 0 s ((parse_rule_body g st ctx s σ).1)
  unfolding parse_rule_body
  parse_rule_body-Reads ctx s σ = if-run (at_line_end s) _ _ (fails same) (
      if-run (is_legacy g s) _ _ (parse_body_legacy-Reads ctx s σ) (
        emit_any-Reads ctx s s (parse_options st g.option_hook ctx s) σ same same
          (parse_options-Reads st g.option_hook ctx s)))

  parse_trailing_comment-Reads :
      (ctx : OptionContext) (s : Bytes) (σ : S)
      → Reads 0 s ((parse_trailing_comment g st ctx s σ).1)
  unfolding parse_trailing_comment
  parse_trailing_comment-Reads ctx s σ =
      if-answer (has_prefix (ws0 s) (codes "//")) _ _ σ
        (bound-Reads (parse_comment_option st false (place_of ctx false) (ws0 s) σ) _
          (read_behind (ws0-Behind s)
            (parse_comment_option-Reads st false (place_of ctx false) (ws0 s) σ))
          λ _ r τ h. reads h)
        (reads same)

  rule_end-Reads :
      (rule : Instruction) (kind : ActionKind) (s : Bytes) (σ : S)
      → Reads 0 s ((rule_end g st rule kind s σ).1)
  rule_end-Reads rule ActionKind.check_state s σ =
      bound-Reads (parse_trailing_comment g st new_context s σ) _
        (parse_trailing_comment-Reads new_context s σ) λ _ r τ h. reads h
  rule_end-Reads rule _ s σ =
      bound-Reads (σ, whitespace s) _ (whitespace-Reads s)
        λ _ body τ h.
          bound-Reads (parse_rule_body g st new_context body τ) _
            (read_behind h (parse_rule_body-Reads new_context body τ))
            λ ctx q υ h'.
              bound-Reads (parse_trailing_comment g st ctx q υ) _
                (read_behind h' (parse_trailing_comment-Reads ctx q υ)) λ _ r φ h''. reads h''

  action_rule-Reads : (num : ℕ) (s : Bytes) (σ : S) → Reads 0 s ((action_rule g st num s σ).1)
  unfolding action_rule
  action_rule-Reads num s σ =
      bound-Reads (σ, parse_action g.enable_labels s) _ (parse_action-Reads g.enable_labels s)
        λ a b τ hb.
          bound-Reads (τ, optional_log b) _ (read_behind hb (optional_log-Reads b))
            λ l c υ hc.
              bound-Reads (υ, optional_tag c) _ (read_behind hc (optional_tag-Reads c))
                λ tag d φ hd.
                  read_behind hd (rule_end-Reads (instruction_of num a l tag) a.kind d φ)

  comment_rule-Reads :
      (num : ℕ) (input : Bytes) {s : Bytes} (σ : S)
      → Behind 0 input s
      → Reads 0 input ((comment_rule g st num input s σ).1)
  unfolding comment_rule
  comment_rule-Reads num input {s} σ h =
      emit_any-Reads (instruction_of num (action_of ActionKind.count []) no_log 0) s input
        (rule_comment g st (instruction_of num (action_of ActionKind.count []) no_log 0) s) σ h same
        λ τ.
          bound-Reads (parse_comment_option st false (place_of new_context false) s τ) _
            (read_behind h (parse_comment_option-Reads st false (place_of new_context false) s τ))
            λ _ r υ h'. reads h'

  pub parse_instruction-Reads : (s : Bytes) (σ : S) → Reads 0 s ((parse_instruction g st s σ).1)
  unfolding parse_instruction
  parse_instruction-Reads s σ =
      let (num, r) = rule_number s in
      let h = rule_number-Behind s in
      if-run (ends_token (prefix r (codes "//"))) _ _ (comment_rule-Reads num s σ h)
        (read_behind h (action_rule-Reads num r σ))
