-- ===== src/Parse/Instruction.antt =====
-- parser.go: `parseInstruction`, the rule behind `add`.
use ipfw_go.Prelude.{ℕ, Bool, false, [], Option, none, some, Bytes, codes, if◌then◌else◌}
use ipfw_go.Rule.{Action, ActionKind, Instruction, Log}
use ipfw_go.Parse.Action.{action_of, no_log, parse_action, optional_log, optional_tag}
use ipfw_go.Parse.Body.{Grammar, whitespace, emit_any, parse_rule_body, parse_trailing_comment}
use ipfw_go.Parse.Lex.{prefix, ws1, at_token_end, parse_u32}
use ipfw_go.Parse.Options.{new_context, place_of}
use ipfw_go.Parse.Options.Lists.{parse_comment_option}
use ipfw_go.Parse.Outcome.{done, State, M, pure, ◌>>=◌}

abbrev pub numbered : Bytes → ℕ → Option Bytes → ℕ × Bytes
numbered s num none = (0, s)
numbered s num (some rest) = (num, rest)

abbrev pub number_read : Bytes → Option (ℕ × Bytes) → ℕ × Bytes
number_read s none = (0, s)
number_read s (some (num, rest)) = numbered s num (ws1 rest)

-- The number of a rule, 0 when there is none, and what is behind its whitespace.
unfoldable pub rule_number : Bytes → ℕ × Bytes
unfolding parse_u32 ws1
rule_number s = number_read s (parse_u32 s)

abbrev pub ends_token : Option Bytes → Bool
ends_token none = false
ends_token (some rest) = at_token_end rest

abbrev pub instruction_of : ℕ → Action → Log → ℕ → Instruction
instruction_of num a l tag = record { num = num; action = a; log = l; tag = tag }

module _ {S F : Type 0} (g : Grammar F) (st : State S F) where
  abbrev pub rule_comment : Instruction → Bytes → M S F Instruction
  rule_comment rule s = do
    (_, rest) ← parse_comment_option st false (place_of new_context false) s
    pure (done rule rest)

  -- A rule that is a comment counts every packet.
  unfoldable pub comment_rule : ℕ → Bytes → Bytes → M S F Instruction
  unfolding parse_comment_option place_of
  comment_rule num input s =
      let rule = instruction_of num (action_of ActionKind.count []) no_log 0 in
      emit_any g st rule s input (rule_comment rule s)

  abbrev pub rule_end : Instruction → ActionKind → Bytes → M S F Instruction
  rule_end rule ActionKind.check_state rest = do
    (_, after) ← parse_trailing_comment g st new_context rest
    pure (done rule after)
  rule_end rule _ rest = do
    (_, body) ← pure (whitespace rest)
    (ctx, behind) ← parse_rule_body g st new_context body
    (_, after) ← parse_trailing_comment g st ctx behind
    pure (done rule after)

  unfoldable pub action_rule : ℕ → Bytes → M S F Instruction
  unfolding parse_action optional_log optional_tag parse_trailing_comment parse_rule_body ws1
  action_rule num s = do
    (a, b) ← pure (parse_action g.enable_labels s)
    (l, c) ← pure (optional_log b)
    (tag, d) ← pure (optional_tag c)
    rule_end (instruction_of num a l tag) a.kind d

  unfoldable pub parse_instruction : Bytes → M S F Instruction
  unfolding rule_number prefix at_token_end comment_rule action_rule
  parse_instruction input σ =
      let (num, s) = rule_number input in
      if ends_token (prefix s (codes "//")) then comment_rule num input s σ else action_rule num s σ
