-- ===== src/Parse/Reads/Actions.antt =====
-- What the parsers of actions, logs and tags leave of the input.
use ipfw_go.Prelude.{
  ℕ, zero, suc, Bool, true, false, List, [], ◌∷◌, Option, none, some, Bytes, codes,
}
use ipfw_go.Rule.{ActionKind, SkipTo}
use ipfw_go.Parse.Lex.{token, parse_u32}
use ipfw_go.Parse.Action.{
  keyword_found, action_keyword, action_keywords, label_of, table_arg, number_target, skip_to_of,
  parse_skip_to, jump_action, jump_behind, skip_to_keyword, check_state_keyword, plain_keyword,
  parse_action, amount_of, amount_behind, log_amount, parse_log, tag_of, tag_behind, parse_tag,
  log_keyword, optional_log, tag_keyword, optional_tag,
}
use ipfw_go.Parse.Body.{keyword_or, keyword, whitespace}
use ipfw_go.Parse.Outcome.{Outcome, ErrorKind}
use ipfw_go.Parse.Reads.{Behind, same, after, weak, Opens, shut, opens, Reads, reads, fails}
use ipfw_go.Parse.Reads.Lex.{
  Parts, Parts-Behind, prefix-Opens, ws1-Opens, ws1_keyword-Opens, token-Parts,
}
use ipfw_go.Parse.Reads.Groups.{Numbers, missing, number, parse_uint-Numbers}
use ipfw_go.Parse.Reads.Options.{Finds, absent, finds}
use ipfw_go.Parse.Reads.Arguments.{parse_flow_name-Behind}
use ipfw_go.Parse.Reads.OptionLists.{spaced-Reads, read_behind}

action_keyword-Finds :
    (ks : List (Bytes × ActionKind)) (s : Bytes) → Finds 0 s (action_keyword ks s)
unfolding action_keyword
action_keyword-Finds [] s = absent
action_keyword-Finds ((word, kind) ∷ ks) s =
    keyword_found-Finds (prefix-Opens s word) (action_keyword-Finds ks s)
  where
    keyword_found-Finds :
        {n : ℕ} {o : Option Bytes} {onward : Option (ActionKind × Bytes)}
        → Opens n s o
        → Finds 0 s onward
        → Finds 0 s (keyword_found kind onward o)
    keyword_found-Finds shut h = h
    keyword_found-Finds (opens h') h = finds (weak h')

module _ {F : Type 0} where
  label_of-Reads :
      {s r : Bytes} (p : Bytes × Bytes) → Behind 0 s r → Parts r p → Reads 0 s (label_of {F = F} p)
  label_of-Reads ([], rest) h h' = fails (after h (Parts-Behind h'))
  label_of-Reads (c ∷ label, rest) h h' = reads (after h (Parts-Behind h'))

  table_arg-Reads :
      (s : Bytes) {n : ℕ} {o : Option Bytes} → Opens n s o → Reads 0 s (table_arg {F = F} s o)
  table_arg-Reads s shut = fails same
  table_arg-Reads s (opens h) = reads (weak h)

  number_target-Reads :
      (s : Bytes) {n : ℕ} (o : Option (ℕ × Bytes))
      → Numbers n s o
      → Reads 0 s (number_target {F = F} s o)
  number_target-Reads s none missing = table_arg-Reads s (prefix-Opens s (codes "tablearg"))
  number_target-Reads s (some (zero, rest)) (number h) = fails same
  number_target-Reads s (some (suc v, rest)) (number h) = reads (weak h)

  skip_to_of-Reads :
      (labels : Bool) (s : Bytes) {n : ℕ} (o : Option Bytes)
      → Opens n s o
      → Reads 0 s (skip_to_of {F = F} labels s o)
  unfolding parse_u32
  skip_to_of-Reads true s (some r) (opens h) = label_of-Reads (token r) (weak h) (token-Parts r)
  skip_to_of-Reads true s none h =
      number_target-Reads s (parse_u32 s) (parse_uint-Numbers s 4294967295)
  skip_to_of-Reads false s o h =
      number_target-Reads s (parse_u32 s) (parse_uint-Numbers s 4294967295)

  jump_action-Reads :
      {n : ℕ} {s : Bytes} {o : Outcome F SkipTo} → Reads n s o → Reads n s (jump_action o)
  jump_action-Reads (reads h) = reads h
  jump_action-Reads (fails h) = fails h

  jump_behind-Reads :
      (labels : Bool) {s r : Bytes} {n : ℕ} {o : Option Bytes}
      → Behind 0 s r
      → Opens n r o
      → Reads 0 s (jump_behind {F = F} labels r o)
  unfolding parse_skip_to
  jump_behind-Reads labels h shut = fails h
  jump_behind-Reads labels h (opens {r} h') =
      read_behind (after h h')
        (jump_action-Reads (skip_to_of-Reads labels r _ (prefix-Opens r (codes ":"))))

  skip_to_keyword-Reads :
      (labels : Bool) (s : Bytes) {n : ℕ} {o : Option Bytes}
      → Opens n s o
      → Reads 0 s (skip_to_keyword {F = F} labels s o)
  skip_to_keyword-Reads labels s shut = fails same
  skip_to_keyword-Reads labels s (opens {r} h) = jump_behind-Reads labels (weak h) (ws1-Opens r)

  check_state_keyword-Reads :
      (labels : Bool) (s : Bytes) {n : ℕ} {o : Option Bytes}
      → Opens n s o
      → Reads 0 s (check_state_keyword {F = F} labels s o)
  check_state_keyword-Reads labels s shut =
      skip_to_keyword-Reads labels s (prefix-Opens s (codes "skipto"))
  check_state_keyword-Reads labels s (opens {r} h) = reads (after h (parse_flow_name-Behind r))

  plain_keyword-Reads :
      (labels : Bool) (s : Bytes) {n : ℕ} {o : Option (ActionKind × Bytes)}
      → Finds n s o
      → Reads 0 s (plain_keyword {F = F} labels s o)
  plain_keyword-Reads labels s absent =
      check_state_keyword-Reads labels s (prefix-Opens s (codes "check-state"))
  plain_keyword-Reads labels s (finds h) = reads (weak h)

  pub parse_action-Reads : (labels : Bool) (s : Bytes) → Reads 0 s (parse_action {F = F} labels s)
  unfolding parse_action
  parse_action-Reads labels s =
      plain_keyword-Reads labels s (action_keyword-Finds action_keywords s)

  amount_behind-Reads :
      {s r : Bytes} {n : ℕ} {o : Option Bytes}
      → Behind 0 s r
      → Opens n r o
      → Reads 0 s (amount_behind {F = F} r o)
  unfolding parse_u32
  amount_behind-Reads h shut = fails h
  amount_behind-Reads {s} h (opens {r} h') =
      amount_of-Reads (after h h') (parse_uint-Numbers r 4294967295)
    where
      amount_of-Reads :
          {q : Bytes} {m : ℕ} {o : Option (ℕ × Bytes)}
          → Behind 0 s q
          → Numbers m q o
          → Reads 0 s (amount_of {F = F} q o)
      amount_of-Reads g missing = fails g
      amount_of-Reads g (number g') = reads (after g g')

  parse_log-Reads : (s : Bytes) → Reads 0 s (parse_log {F = F} s)
  unfolding parse_log
  parse_log-Reads s = log_amount-Reads (ws1_keyword-Opens s (codes "logamount"))
    where
      log_amount-Reads :
          {n : ℕ} {o : Option Bytes} → Opens n s o → Reads 0 s (log_amount {F = F} s o)
      log_amount-Reads shut = reads same
      log_amount-Reads (opens {r} h) = amount_behind-Reads (weak h) (ws1-Opens r)

  tag_of-Reads :
      {s q : Bytes} {m : ℕ} (o : Option (ℕ × Bytes))
      → Behind 0 s q
      → Numbers m q o
      → Reads 0 s (tag_of {F = F} q o)
  tag_of-Reads none h missing = fails h
  tag_of-Reads (some (zero, r)) h (number h') = fails h
  tag_of-Reads (some (suc v, r)) h (number h') = reads (after h h')

  parse_tag-Reads : (s : Bytes) → Reads 0 s (parse_tag {F = F} s)
  unfolding parse_tag parse_u32
  parse_tag-Reads s = tag_behind-Reads (ws1-Opens s)
    where
      tag_behind-Reads :
          {n : ℕ} {o : Option Bytes} → Opens n s o → Reads 0 s (tag_behind {F = F} s o)
      tag_behind-Reads shut = fails same
      tag_behind-Reads (opens {r} h) =
          tag_of-Reads (parse_u32 r) (weak h) (parse_uint-Numbers r 4294967295)

  pub optional_log-Reads : (s : Bytes) → Reads 0 s (optional_log {F = F} s)
  unfolding optional_log
  optional_log-Reads s = log_keyword-Reads (ws1_keyword-Opens s (codes "log"))
    where
      log_keyword-Reads :
          {n : ℕ} {o : Option Bytes} → Opens n s o → Reads 0 s (log_keyword {F = F} s o)
      log_keyword-Reads shut = reads same
      log_keyword-Reads (opens {r} h) = read_behind h (parse_log-Reads r)

  pub optional_tag-Reads : (s : Bytes) → Reads 0 s (optional_tag {F = F} s)
  unfolding optional_tag
  optional_tag-Reads s = tag_keyword-Reads (ws1_keyword-Opens s (codes "tag"))
    where
      tag_keyword-Reads :
          {n : ℕ} {o : Option Bytes} → Opens n s o → Reads 0 s (tag_keyword {F = F} s o)
      tag_keyword-Reads shut = reads same
      tag_keyword-Reads (opens {r} h) = read_behind h (parse_tag-Reads r)

  pub keyword-Reads : (e : ErrorKind) (word s : Bytes) → Reads 0 s (keyword {F = F} e word s)
  keyword-Reads e word s = keyword_or-Reads (prefix-Opens s word)
    where
      keyword_or-Reads :
          {n : ℕ} {o : Option Bytes} → Opens n s o → Reads 0 s (keyword_or {F = F} e s o)
      keyword_or-Reads shut = fails same
      keyword_or-Reads (opens h) = reads (weak h)

  pub whitespace-Reads : (s : Bytes) → Reads 1 s (whitespace {F = F} s)
  whitespace-Reads s = spaced-Reads (ws1-Opens s)
