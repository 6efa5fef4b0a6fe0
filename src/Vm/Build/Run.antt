-- ===== src/Vm/Build/Run.antt =====
-- vm/vm.go: `Config`, its validation, and `Build`, the loop over the lines of a ruleset. What the
-- parser makes of a line is an argument: the tokens that it pushed and its record, or its error.
pub mod Whole
pub mod Text
pub mod FromText
pub mod Ends
use ipfw_go.Prelude.{
  ℕ, Bool, true, false, ◌&&◌, List, [], ◌∷◌, Option, none, some, if◌then◌else◌, get_elem?,
}
use ipfw_go.Errors.{Cause, Result, ok, err, ◌>>=◌, unresolved_jump}
use ipfw_go.Resolver.{Environment, Token, on_token}
use ipfw_go.Rule.{Action, ActionKind, SkipToKind, Record, RecordKind}
use ipfw_go.Vm.Build.{Builder, new_builder, drop_record, add, add_label, link_numbers, unresolved}
use ipfw_go.Vm.Build.Tables.{table_command}
use ipfw_go.Vm.Build.Tokens.{on_call}
use ipfw_go.Vm.Machine.{Machine}
use ipfw_go.Vm.Network.{TableRegistry, OptionMatcher}

-- The policy for a skipto that no later rule or label satisfies.
pub data UnresolvedJumps : Type 0 where
  error fall_through : UnresolvedJumps
  unknown : ℕ → UnresolvedJumps

-- `Config`, its environment aside, with the registry that the build fills.
pub record Config : Type 0 where
  pub default_verdict : Action
  pub unresolved_jumps : UnresolvedJumps
  pub option_matcher : Option OptionMatcher

-- The default verdicts that `Validate` takes: no action, pass, deny and reset.
unfoldable pub verdict_valid : ActionKind → Bool
verdict_valid ActionKind.count = false
verdict_valid ActionKind.skip_to = false
verdict_valid ActionKind.check_state = false
verdict_valid _ = true

unfoldable pub policy_valid : UnresolvedJumps → Bool
policy_valid (UnresolvedJumps.unknown _) = false
policy_valid _ = true

unfoldable pub validate : Config → Bool
unfolding verdict_valid policy_valid
validate cfg = verdict_valid cfg.default_verdict.kind && policy_valid cfg.unresolved_jumps

-- An omitted default verdict is deny.
abbrev plain_action : ActionKind → Action
plain_action kind = record {
  kind = kind;
  skip_to = record { kind = SkipToKind.unset; label = []; number = 0 };
  flow = [];
}

abbrev or_deny : Action → ActionKind → Action
or_deny a ActionKind.unset = plain_action ActionKind.deny
or_deny a _ = a

-- What one call of the parser's `Next` did: the tokens pushed, then the record or a parse error.
pub data Line (F : Type 0) : Type 0 where
  parsed : List Token → Record → Line F
  failed : List Token → F → Line F

-- How a build ends. `invalid_config` is reported before any line is read.
pub data Outcome (V4 V6 R F : Type 0) : Type 0 where
  built : Machine V4 V6 R → Outcome V4 V6 R F
  invalid_config : Outcome V4 V6 R F
  build_error : R → Cause F → Option Record → Outcome V4 V6 R F
  parse_error : R → F → Outcome V4 V6 R F
  -- The lines given ended before the record of the end of the input.
  no_end : R → Outcome V4 V6 R F

module _ {V4 V6 R F : Type 0} (env : Environment V4 V6 F) (reg : TableRegistry V4 V6 R F)
    (cfg : Config) where
  -- The tokens of a line, through the resolver into the builder.
  read_tokens : Builder V4 V6 R → List Token → Result F (Builder V4 V6 R)
  unfolding on_token on_call
  read_tokens m [] = ok m
  read_tokens m (t ∷ ts) = do m' ← on_token env on_call m t; read_tokens m' ts

  abbrev is_error : UnresolvedJumps → Bool
  is_error UnresolvedJumps.error = true
  is_error _ = false

  machine : Builder V4 V6 R → Machine V4 V6 R
  machine m = record {
    program = m.program;
    labels = m.labels;
    tables = m.tables;
    matcher = cfg.option_matcher;
    verdict = or_deny cfg.default_verdict cfg.default_verdict.kind;
  }

  -- `case ipfw.RecordEOF`, on the jump that is still unresolved.
  finish_with : Builder V4 V6 R → Option ℕ → Outcome V4 V6 R F
  unfolding machine
  finish_with m none = built (machine m)
  finish_with m (some first) =
      if is_error cfg.unresolved_jumps
      then build_error m.tables unresolved_jump (get_elem? m.program.records first)
      else built (machine m)

  finish : Builder V4 V6 R → Outcome V4 V6 R F
  unfolding finish_with link_numbers unresolved
  finish m = let linked = link_numbers m in finish_with linked (unresolved linked)

  -- A line that changes the builder or stops the build.
  abbrev resume :
      Builder V4 V6 R
      → Record
      → Result F (Builder V4 V6 R)
      → (Builder V4 V6 R → Outcome V4 V6 R F)
      → Outcome V4 V6 R F
  resume m rec (ok m') k = k m'
  resume m rec (err e) k = build_error m.tables e (some rec)

  abbrev resume_table :
      Record
      → Builder V4 V6 R × Option (Cause F)
      → (Builder V4 V6 R → Outcome V4 V6 R F)
      → Outcome V4 V6 R F
  resume_table rec (m', none) k = k m'
  resume_table rec (m', some e) k = build_error m'.tables e (some rec)

  -- The switch of the loop on the kind of the record, with the rest of the build.
  pub on_record :
      Builder V4 V6 R
      → Record
      → RecordKind
      → (Builder V4 V6 R → Outcome V4 V6 R F)
      → Outcome V4 V6 R F
  unfolding drop_record finish add add_label table_command
  on_record m rec RecordKind.eof k = finish (drop_record m)
  on_record m rec RecordKind.empty k = k (drop_record m)
  on_record m rec RecordKind.comment k = k (drop_record m)
  on_record m rec RecordKind.instruction k = resume m rec (add m rec) k
  on_record m rec RecordKind.label k = k (add_label (drop_record m) rec.label)
  on_record m rec RecordKind.table k =
      resume_table rec (table_command env reg (drop_record m) rec.table) k

  abbrev token_error : Builder V4 V6 R → Result F (Builder V4 V6 R) → F → Outcome V4 V6 R F
  token_error m (ok m') e = parse_error m.tables e
  token_error m (err c) e = build_error m.tables c none

  build_from : Builder V4 V6 R → List (Line F) → Outcome V4 V6 R F
  unfolding read_tokens on_record
  build_from m [] = no_end m.tables
  build_from m (Line.failed ts e ∷ lines) = token_error m (read_tokens m ts) e
  build_from m (Line.parsed ts rec ∷ lines) = elim (read_tokens m ts) [
    | ok m' ↦ on_record m' rec rec.kind (λ m''. build_from m'' lines)
    | err c ↦ build_error m.tables c none
  ]

  abbrev is_some : Option OptionMatcher → Bool
  is_some none = false
  is_some (some _) = true

  unfoldable pub build : R → List (Line F) → Outcome V4 V6 R F
  unfolding validate build_from
  build tables lines =
      if validate cfg
      then build_from (new_builder tables (is_some cfg.option_matcher)) lines
      else invalid_config
