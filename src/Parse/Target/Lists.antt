-- ===== src/Parse/Target/Lists.antt =====
-- target.go: `parseTargets`, over the members of address lists and the alternatives of a group.
use ipfw_go.Prelude.{
  ℕ, zero, suc, ◌+◌, ◌%◌, ◌^◌, Bool, not, ◌&&◌, ◌||◌, Bytes, codes, if◌then◌else◌, length, drop,
}
use ipfw_go.Resolver.{BodySide, Token}
use ipfw_go.Rule.{TargetKind}
use ipfw_go.Prelude.{none}
use ipfw_go.Parse.Lex.{Group, header_position, open_group, group_next, has_prefix}
use ipfw_go.Parse.Outcome.{Outcome, done, failed, no_fuel, ErrorKind, State, M, pure, emit, ◌>>=◌}
use ipfw_go.Parse.Port.{next_element, next_listed}
use ipfw_go.Parse.Proto.{next_alternative}
use ipfw_go.Parse.Target.{
  Class, class, bad, scan_target_token, scan_table_token, classify_target, is_address_list_target,
  target_not, families_differ,
}

abbrev pub target_token : BodySide → Bool → ℕ → TargetKind → Bytes → Token
target_token side neg pattern kind text =
    Token.target side (record { neg = neg; pattern = pattern; kind = kind; text = text })

-- The token of the first member of an element, and what follows it.
unfoldable pub scan_element : Bytes → Bytes × Bytes
unfolding scan_target_token scan_table_token has_prefix
scan_element rest =
    let (token, after) = scan_target_token rest in
    if has_prefix after (codes ",") && has_prefix token (codes "table(")
    then scan_table_token rest token after
    else (token, after)

-- A class as an outcome, an error at its offset.
abbrev pub classified : {F : Type 0} → Bytes → Bytes → Class → Outcome F (TargetKind × Bytes)
classified rest after (class kind text) = done (kind, text) after
classified rest after (bad e offset) = failed e (drop offset rest) none

-- What a later member of an address list may be.
abbrev pub member_class :
    {F : Type 0} → TargetKind → Bytes → Bytes → Class → Outcome F (TargetKind × Bytes)
member_class family rest after (bad e offset) =
    failed ErrorKind.expected_target (drop offset rest) none
member_class family rest after (class kind text) =
    if not (is_address_list_target kind text) || families_differ family kind
    then failed ErrorKind.expected_target rest none
    else done (kind, text) after

-- The parser of the first member, without its negation and its emission.
unfoldable pub parse_first : {F : Type 0} → Bytes → Outcome F (TargetKind × Bytes)
unfolding scan_element classify_target
parse_first rest =
    let (token, after) = scan_element rest in classified rest after (classify_target token)

unfoldable pub parse_member : {F : Type 0} → TargetKind → Bytes → Outcome F (TargetKind × Bytes)
unfolding scan_target_token classify_target is_address_list_target families_differ
parse_member family rest =
    let (token, after) = scan_target_token rest in
    member_class family rest after (classify_target token)

module _ {S F : Type 0} (st : State S F) where
  -- The loop of `parseTargetElement` over the members behind the first.
  unfoldable pub members_loop : ℕ → BodySide → Bool → ℕ → TargetKind → Bytes → M S F (Unit {0})
  unfolding next_listed parse_member
  members_loop zero side neg pattern family rest = pure no_fuel
  members_loop (suc f) side neg pattern family rest = do
    ((kind, text), after) ← pure (parse_member family rest)
    _ ← emit st (target_token side neg pattern kind text) rest
    next_element (members_loop f side neg pattern family) (next_listed after)

  abbrev pub behind_first : BodySide → Bool → ℕ → TargetKind → Bytes → Bytes → M S F (Unit {0})
  behind_first side neg pattern kind text after =
      if is_address_list_target kind text
      then next_element (members_loop (length after + 1) side neg pattern kind) (next_listed after)
      else pure (done tt after)

  unfoldable pub parse_target_element : BodySide → ℕ → Bytes → M S F (Unit {0})
  unfolding target_not parse_first is_address_list_target members_loop next_listed
  parse_target_element side pattern s = do
    let (rest, neg) = target_not s
    ((kind, text), after) ← pure (parse_first rest)
    _ ← emit st (target_token side neg pattern kind text) rest
    behind_first side neg pattern kind text after

  -- `pattern` is 16 bits wide.
  unfoldable pub targets_loop : ℕ → Group → BodySide → ℕ → Bytes → M S F (Unit {0})
  unfolding parse_target_element group_next
  targets_loop zero g side pattern rest = pure no_fuel
  targets_loop (suc f) g side pattern rest = do
    (_, after) ← parse_target_element side pattern rest
    (more, rest') ← pure (group_next g after)
    next_alternative (targets_loop f g side ((pattern + 1) % 2 ^ 16)) more rest'

  unfoldable pub parse_targets : BodySide → Bytes → M S F (Unit {0})
  unfolding targets_loop open_group
  parse_targets side s =
      let (g, rest) = open_group s header_position in targets_loop (length rest + 1) g side 0 rest
