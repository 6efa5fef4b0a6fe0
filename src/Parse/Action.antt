-- ===== src/Parse/Action.antt =====
-- parser.go: the parts of a rule before its body: the action, its jump, `log` and `tag`.
use ipfw_go.Prelude.{
  ℕ, zero, suc, Bool, true, false, List, [], ◌∷◌, Option, none, some, Bytes, codes,
}
use ipfw_go.Rule.{Action, ActionKind, SkipTo, SkipToKind, Log}
use ipfw_go.Parse.Lex.{prefix, ws1, ws1_keyword, token, parse_u32}
use ipfw_go.Parse.Options.Values.{parse_flow_name}
use ipfw_go.Parse.Outcome.{Outcome, done, failed, no_fuel, ErrorKind}

abbrev pub no_skip_to : SkipTo
no_skip_to = record { kind = SkipToKind.unset; label = []; number = 0 }

abbrev pub action_of : ActionKind → Bytes → Action
action_of kind flow = record { kind = kind; skip_to = no_skip_to; flow = flow }

-- `actionKeywords`, in the order they are tried.
abbrev pub action_keywords : List (Bytes × ActionKind)
action_keywords =
    (codes "allow", ActionKind.pass)
    ∷ (codes "pass", ActionKind.pass)
    ∷ (codes "accept", ActionKind.pass)
    ∷ (codes "permit", ActionKind.pass)
    ∷ (codes "deny", ActionKind.deny)
    ∷ (codes "drop", ActionKind.deny)
    ∷ (codes "reset", ActionKind.reset)
    ∷ (codes "count", ActionKind.count)
    ∷ []

abbrev pub keyword_found :
    ActionKind → Option (ActionKind × Bytes) → Option Bytes → Option (ActionKind × Bytes)
keyword_found kind onward (some rest) = some (kind, rest)
keyword_found kind onward none = onward

unfoldable pub action_keyword : List (Bytes × ActionKind) → Bytes → Option (ActionKind × Bytes)
unfolding prefix
action_keyword [] s = none
action_keyword ((keyword, kind) ∷ ks) s =
    keyword_found kind (action_keyword ks s) (prefix s keyword)

abbrev pub no_log : Log
no_log = record { enabled = false; has_amount = false; amount = 0 }

module _ {F : Type 0} where
  abbrev pub label_of : Bytes × Bytes → Outcome F SkipTo
  label_of ([], rest) = failed ErrorKind.expected_token rest none
  label_of (c ∷ label, rest) =
      done (record { kind = SkipToKind.label; label = c ∷ label; number = 0 }) rest

  abbrev pub table_arg : Bytes → Option Bytes → Outcome F SkipTo
  table_arg s none = failed ErrorKind.expected_skip_to s none
  table_arg s (some rest) =
      done (record { kind = SkipToKind.table_arg; label = []; number = 0 }) rest

  abbrev pub number_target : Bytes → Option (ℕ × Bytes) → Outcome F SkipTo
  number_target s none = table_arg s (prefix s (codes "tablearg"))
  number_target s (some (zero, rest)) = failed ErrorKind.expected_skip_to s none
  number_target s (some (suc number, rest)) =
      done (record { kind = SkipToKind.number; label = []; number = suc number }) rest

  abbrev pub skip_to_of : Bool → Bytes → Option Bytes → Outcome F SkipTo
  skip_to_of true s (some rest) = label_of (token rest)
  skip_to_of _ s _ = number_target s (parse_u32 s)

  -- `parseSkipTo`, with whether labels are enabled.
  unfoldable pub parse_skip_to : Bool → Bytes → Outcome F SkipTo
  unfolding prefix token parse_u32
  parse_skip_to labels s = skip_to_of labels s (prefix s (codes ":"))

  abbrev pub jump_action : Outcome F SkipTo → Outcome F Action
  jump_action (done to rest) =
      done (record { kind = ActionKind.skip_to; skip_to = to; flow = [] }) rest
  jump_action (failed e at cause) = failed e at cause
  jump_action no_fuel = no_fuel

  abbrev pub jump_behind : Bool → Bytes → Option Bytes → Outcome F Action
  jump_behind labels rest none = failed ErrorKind.expected_whitespace rest none
  jump_behind labels rest (some target) = jump_action (parse_skip_to labels target)

  abbrev pub skip_to_keyword : Bool → Bytes → Option Bytes → Outcome F Action
  skip_to_keyword labels s none = failed ErrorKind.expected_action s none
  skip_to_keyword labels s (some rest) = jump_behind labels rest (ws1 rest)

  abbrev pub check_state_keyword : Bool → Bytes → Option Bytes → Outcome F Action
  check_state_keyword labels s none = skip_to_keyword labels s (prefix s (codes "skipto"))
  check_state_keyword labels s (some rest) =
      let (flow, after) = parse_flow_name rest in done (action_of ActionKind.check_state flow) after

  abbrev pub plain_keyword : Bool → Bytes → Option (ActionKind × Bytes) → Outcome F Action
  plain_keyword labels s (some (kind, rest)) = done (action_of kind []) rest
  plain_keyword labels s none = check_state_keyword labels s (prefix s (codes "check-state"))

  -- `parseAction`
  unfoldable pub parse_action : Bool → Bytes → Outcome F Action
  unfolding action_keyword prefix parse_flow_name ws1 parse_skip_to
  parse_action labels s = plain_keyword labels s (action_keyword action_keywords s)

  abbrev pub amount_of : Bytes → Option (ℕ × Bytes) → Outcome F Log
  amount_of buf none = failed ErrorKind.expected_u32 buf none
  amount_of buf (some (amount, rest)) =
      done (record { enabled = true; has_amount = true; amount = amount }) rest

  abbrev pub amount_behind : Bytes → Option Bytes → Outcome F Log
  amount_behind buf none = failed ErrorKind.expected_whitespace buf none
  amount_behind buf (some rest) = amount_of rest (parse_u32 rest)

  abbrev pub log_amount : Bytes → Option Bytes → Outcome F Log
  log_amount rest none = done (record { enabled = true; has_amount = false; amount = 0 }) rest
  log_amount rest (some buf) = amount_behind buf (ws1 buf)

  -- `parseLog`, on the input behind the keyword.
  unfoldable pub parse_log : Bytes → Outcome F Log
  unfolding ws1_keyword ws1 parse_u32
  parse_log rest = log_amount rest (ws1_keyword rest (codes "logamount"))

  abbrev pub tag_of : Bytes → Option (ℕ × Bytes) → Outcome F ℕ
  tag_of buf none = failed ErrorKind.expected_u32 buf none
  tag_of buf (some (zero, rest)) = failed ErrorKind.expected_tag buf none
  tag_of buf (some (suc tag, rest)) = done (suc tag) rest

  abbrev pub tag_behind : Bytes → Option Bytes → Outcome F ℕ
  tag_behind rest none = failed ErrorKind.expected_whitespace rest none
  tag_behind rest (some buf) = tag_of buf (parse_u32 buf)

  -- `parseTag`, on the input behind the keyword.
  unfoldable pub parse_tag : Bytes → Outcome F ℕ
  unfolding ws1 parse_u32
  parse_tag rest = tag_behind rest (ws1 rest)

  -- The optional parts `log` and `tag`: each follows whitespace, which is left without it.
  abbrev pub log_keyword : Bytes → Option Bytes → Outcome F Log
  log_keyword rest none = done no_log rest
  log_keyword rest (some after) = parse_log after

  unfoldable pub optional_log : Bytes → Outcome F Log
  unfolding ws1_keyword parse_log
  optional_log rest = log_keyword rest (ws1_keyword rest (codes "log"))

  abbrev pub tag_keyword : Bytes → Option Bytes → Outcome F ℕ
  tag_keyword rest none = done 0 rest
  tag_keyword rest (some after) = parse_tag after

  unfoldable pub optional_tag : Bytes → Outcome F ℕ
  unfolding ws1_keyword parse_tag
  optional_tag rest = tag_keyword rest (ws1_keyword rest (codes "tag"))
