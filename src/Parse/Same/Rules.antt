-- ===== src/Parse/Same/Rules.antt =====
-- The body of a rule, and the rule.
use ipfw_go.Prelude.{ℕ, false, ◌||◌, [], Option, none, some, Bytes, codes}
use ipfw_go.Resolver.{source_side, destination_side}
use ipfw_go.Rule.{ActionKind, Instruction}
use ipfw_go.Parse.Action.{action_of, no_log, parse_action, optional_log, optional_tag}
use ipfw_go.Parse.Body.{
  whitespace, keyword, then_space, source_ports, parse_to, parse_body_header, Grammar, is_legacy,
  is_option_group, options_behind, ports_tried, behind_destination, parse_body_legacy, any_token,
  emit_any, ended_block, parse_rule_body, parse_trailing_comment,
}
use ipfw_go.Parse.Instruction.{
  rule_number, ends_token, instruction_of, rule_comment, comment_rule, rule_end, action_rule,
  parse_instruction,
}
use ipfw_go.Parse.Lex.{prefix, has_prefix, ws0, ws1, at_line_end}
use ipfw_go.Parse.Options.{OptionContext, new_context, place_of, end_block}
use ipfw_go.Parse.Outcome.{Outcome, State, M, done, failed, no_fuel, ErrorKind}
use ipfw_go.Parse.Port.{is_port_syntax}
use ipfw_go.Parse.Same.{
  Both, both, Alike, Same, outcome-Both, pure-Same, bound-Both, emit_or-Same, if-Both, if-Same,
}
use ipfw_go.Parse.Same.Lists.{parse_ports-Same, parse_protocols-Same, parse_targets-Same}
use ipfw_go.Parse.Same.Options.{parse_comment_option-Same, parse_options-Same}

module _ {S T F : Type 0} {R : S → T → Type 0} {st : State S F} {st' : State T F}
    (same : Alike R st st') where
  source_ports-Same :
      (s : Bytes) (o : Option Bytes) → Same R (source_ports st s o) (source_ports st' s o)
  source_ports-Same s (some buf) σ τ h = both h
  source_ports-Same s none σ τ h =
      bound-Both _ _ (parse_ports-Same same source_side s σ τ h) λ _ after.
        outcome-Both (whitespace after) _ _ λ _ to.
          outcome-Both (keyword ErrorKind.expected_prefix (codes "to") to) _ _
            λ _ behind. pure-Same (whitespace behind)

  parse_to-Same : (s : Bytes) → Same R (parse_to st s) (parse_to st' s)
  unfolding parse_to
  parse_to-Same s = source_ports-Same s (then_space (prefix s (codes "to")))

  parse_body_header-Same : (s : Bytes) → Same R (parse_body_header st s) (parse_body_header st' s)
  unfolding parse_body_header
  parse_body_header-Same s σ τ h = bound-Both _ _ (parse_protocols-Same same s σ τ h) λ _ a.
      outcome-Both (whitespace a) _ _ λ _ b.
        outcome-Both (keyword ErrorKind.expected_from (codes "from") b) _ _ λ _ c.
          outcome-Both (whitespace c) _ _ λ _ d σ' τ' h'.
            bound-Both _ _ (parse_targets-Same same source_side d σ' τ' h') λ _ e.
              outcome-Both (whitespace e) _ _ λ _ f σ'' τ'' h''.
                bound-Both _ _ (parse_to-Same f σ'' τ'' h'')
                  λ _ g. parse_targets-Same same destination_side g

  module _ (g : Grammar F) where
    options_behind-Same :
        (ctx : OptionContext) (s : Bytes) (o : Option Bytes)
        → Same R (options_behind g st ctx s o) (options_behind g st' ctx s o)
    options_behind-Same ctx s none = pure-Same (done ctx s)
    options_behind-Same ctx s (some buf) = parse_options-Same same g.option_hook ctx buf

    ports_tried-Both :
        (ctx : OptionContext) (s : Bytes) {x : S × Outcome F (Unit {0})}
        {y : T × Outcome F (Unit {0})}
        → Both R x y
        → Both R (ports_tried g st ctx s x) (ports_tried g st' ctx s y)
    ports_tried-Both ctx s (both {σ} {τ} {x = done _ r} h) = options_behind-Same ctx r (ws1 r) σ τ h
    ports_tried-Both ctx s (both {σ} {τ} {x = failed e at cause} h) =
        if-Both (is_port_syntax e) (options_behind-Same ctx s (ws1 s) σ τ h) (both h)
    ports_tried-Both ctx s (both {x = no_fuel} h) = both h

    behind_destination-Same :
        (ctx : OptionContext) (s : Bytes) (o : Option Bytes)
        → Same R (behind_destination g st ctx s o) (behind_destination g st' ctx s o)
    behind_destination-Same ctx s none σ τ h = both h
    behind_destination-Same ctx s (some buf) σ τ h =
        if-Both (has_prefix buf (codes "//") || is_option_group g.option_hook buf)
          (parse_options-Same same g.option_hook ctx buf σ τ h)
          (ports_tried-Both ctx s (parse_ports-Same same destination_side buf σ τ h))

    parse_body_legacy-Same :
        (ctx : OptionContext) (s : Bytes)
        → Same R (parse_body_legacy g st ctx s) (parse_body_legacy g st' ctx s)
    unfolding parse_body_legacy
    parse_body_legacy-Same ctx s σ τ h =
        bound-Both _ _ (parse_body_header-Same s σ τ h)
          λ _ rest. behind_destination-Same ctx rest (ws1 rest)

    emit_any-Same :
        {A : Type 0} (a : A) (at input : Bytes) {m : M S F A} {n : M T F A}
        → Same R m n
        → Same R (emit_any g st a at input m) (emit_any g st' a at input n)
    emit_any-Same a at input next =
        emit_or-Same same (any_token g st source_side) a at input
          (emit_or-Same same (any_token g st destination_side) a at input next)

    parse_rule_body-Same :
        (ctx : OptionContext) (s : Bytes)
        → Same R (parse_rule_body g st ctx s) (parse_rule_body g st' ctx s)
    unfolding parse_rule_body
    parse_rule_body-Same ctx s σ τ h = if-Both (at_line_end s) (both h) (
        if-Both (is_legacy g s) (parse_body_legacy-Same ctx s σ τ h)
          (emit_any-Same ctx s s (parse_options-Same same g.option_hook ctx s) σ τ h))

    ended_block-Same :
        (ctx : OptionContext) (s : Bytes)
        → Same R (ended_block g st ctx s) (ended_block g st' ctx s)
    ended_block-Same ctx s σ τ h =
        bound-Both _ _ (parse_comment_option-Same same false (place_of ctx false) s σ τ h)
          λ _ rest. pure-Same (done (end_block ctx) rest)

    parse_trailing_comment-Same :
        (ctx : OptionContext) (s : Bytes)
        → Same R (parse_trailing_comment g st ctx s) (parse_trailing_comment g st' ctx s)
    unfolding parse_trailing_comment
    parse_trailing_comment-Same ctx s =
        if-Same (has_prefix (ws0 s) (codes "//")) (ended_block-Same ctx (ws0 s))
          (pure-Same (done ctx s))

    rule_comment-Same :
        (rule : Instruction) (s : Bytes)
        → Same R (rule_comment g st rule s) (rule_comment g st' rule s)
    rule_comment-Same rule s σ τ h =
        bound-Both _ _ (parse_comment_option-Same same false (place_of new_context false) s σ τ h)
          λ _ rest. pure-Same (done rule rest)

    comment_rule-Same :
        (num : ℕ) (input s : Bytes)
        → Same R (comment_rule g st num input s) (comment_rule g st' num input s)
    unfolding comment_rule
    comment_rule-Same num input s =
        let rule = instruction_of num (action_of ActionKind.count []) no_log 0 in
        emit_any-Same rule s input (rule_comment-Same rule s)

    rule_end-Same :
        (rule : Instruction) (kind : ActionKind) (s : Bytes)
        → Same R (rule_end g st rule kind s) (rule_end g st' rule kind s)
    rule_end-Same rule ActionKind.check_state s σ τ h =
        bound-Both _ _ (parse_trailing_comment-Same new_context s σ τ h)
          λ _ after. pure-Same (done rule after)
    rule_end-Same rule _ s σ τ h =
        bound-Both _ _ (pure-Same (whitespace s) σ τ h) λ _ body σ' τ' h'.
          bound-Both _ _ (parse_rule_body-Same new_context body σ' τ' h') λ ctx r σ'' τ'' h''.
            bound-Both _ _ (parse_trailing_comment-Same ctx r σ'' τ'' h'')
              λ _ after. pure-Same (done rule after)

    action_rule-Same :
        (num : ℕ) (s : Bytes) → Same R (action_rule g st num s) (action_rule g st' num s)
    unfolding action_rule
    action_rule-Same num s = outcome-Both (parse_action g.enable_labels s) _ _ λ a b.
        outcome-Both (optional_log b) _ _ λ l c.
          outcome-Both (optional_tag c) _ _
            λ tag d. rule_end-Same (instruction_of num a l tag) a.kind d

    pub parse_instruction-Same :
        (s : Bytes) → Same R (parse_instruction g st s) (parse_instruction g st' s)
    unfolding parse_instruction
    parse_instruction-Same s σ τ h =
        let (num, rest) = rule_number s in
        if-Both (ends_token (prefix rest (codes "//"))) (comment_rule-Same num s rest σ τ h)
          (action_rule-Same num rest σ τ h)
