-- ===== src/Parse/Line.antt =====
-- parser.go: `parseLine`, one command.
use ipfw_go.Prelude.Int.{ℤ}
use ipfw_go.Prelude.{
  Bool, true, false, [], ◌∷◌, Option, none, some, Bytes, codes, ◌==◌, if◌then◌else◌, drop,
}
use ipfw_go.Rule.{
  ActionKind, Instruction, Record, RecordKind, TableCommand, TableKind, TableType, TableKeyKind,
}
use ipfw_go.Parse.Action.{action_of, no_log}
use ipfw_go.Parse.Body.{Grammar, whitespace}
use ipfw_go.Parse.Instruction.{instruction_of, parse_instruction}
use ipfw_go.Parse.Lex.{newline, carriage_return, prefix, ws0, ws1, token, line_text}
use ipfw_go.Parse.Options.Lists.{clamp}
use ipfw_go.Parse.Outcome.{
  Outcome, done, failed, ErrorKind, Fault, State, M, pure, ◌>>=◌, fail_from, with_value,
}
use ipfw_go.Parse.Table.{parse_table}

-- A record with nothing set.
abbrev pub no_instruction : Instruction
no_instruction = instruction_of 0 (action_of ActionKind.unset []) no_log 0

abbrev pub no_table : TableCommand
no_table = record {
  name = [];
  kind = TableKind.unset;
  type_of = TableType.unset;
  type_text = [];
  key = record { kind = TableKeyKind.unset; text = [] };
  value = [];
}

abbrev pub empty_record : Record
empty_record = record {
  line = 0;
  text = [];
  kind = RecordKind.empty;
  comment = [];
  instruction = no_instruction;
  table = no_table;
  label = [];
}

abbrev pub lf_or : Option Bytes → Option Bytes → Option Bytes
lf_or (some rest) lf = some rest
lf_or none lf = lf

-- `parseLineEnd`
unfoldable pub parse_line_end : Bytes → Option Bytes
unfolding prefix
parse_line_end s = lf_or (prefix s (carriage_return ∷ newline ∷ [])) (prefix s (newline ∷ []))

-- `CommandHook`; it drives the state itself.
abbrev pub CommandHook : Type 0 → Type 0 → Type 0
CommandHook S F = Option (Bytes → S → S × (Record × ℤ × Option (Fault F)))

-- What a line begins with: a command that was read, or nothing that the grammar knows.
abbrev pub starts_line_end : Bytes → Bool
starts_line_end [] = true
starts_line_end (c ∷ s) = c == newline

module _ {F : Type 0} where
  -- The end of `parseLine`: the line has to end behind the command.
  abbrev pub line_ended : Bool → Record → Bytes → Option Bytes → Outcome F Record
  line_ended commanded r s (some rest) = done r rest
  line_ended commanded r [] none = done r []
  line_ended true r (c ∷ s) none = failed ErrorKind.expected_newline_or_eof (c ∷ s) none
  line_ended false r (c ∷ s) none = failed ErrorKind.expected_line (c ∷ s) none

  unfoldable pub end_of_line : Bool → Record → Bytes → Outcome F Record
  unfolding parse_line_end
  end_of_line commanded r s = line_ended commanded r s (parse_line_end s)

  abbrev pub label_token : Bytes × Bytes → Outcome F Record
  label_token ([], rest) = failed ErrorKind.expected_token rest none
  label_token (c ∷ label, rest) =
      end_of_line true (record empty_record { kind = RecordKind.label; label = c ∷ label })
        (ws0 rest)

module _ {S F : Type 0} (g : Grammar F) (command_hook : CommandHook S F) (st : State S F) where
  abbrev pub hook_answer : Bytes → S × (Record × ℤ × Option (Fault F)) → S × Outcome F Record
  hook_answer s (σ, (r, n, some e)) =
      (σ, with_value empty_record (fail_from (some e) (drop (clamp n (line_text s)) s) s))
  hook_answer s (σ, (r, n, none)) =
      if clamp n (line_text s) == 0
      then (σ, failed ErrorKind.expected_line s none)
      else (σ, done r (drop (clamp n (line_text s)) s))

  abbrev pub hook_line : Bytes → CommandHook S F → M S F Record
  hook_line s none σ = (σ, end_of_line false empty_record s)
  hook_line s (some hook) σ =
      (do
        (r, rest) ← λ τ. hook_answer s (hook (line_text s) τ)
        pure (end_of_line true r (ws0 rest)))
        σ

  -- A line that no command begins.
  abbrev pub line_or : Bytes → Option Bytes → M S F Record
  line_or s (some rest) = pure (done empty_record rest)
  line_or s none =
      if starts_line_end s then pure (done empty_record s) else hook_line s command_hook

  unfoldable pub other_line : Bytes → M S F Record
  unfolding end_of_line parse_line_end line_text clamp ws0
  other_line s = line_or s (parse_line_end s)

  abbrev pub add_line : Bytes → M S F Record
  add_line rest = do
    (_, body) ← pure (whitespace rest)
    (rule, behind) ← parse_instruction g st body
    pure (
        end_of_line true (record empty_record { kind = RecordKind.instruction; instruction = rule })
          (ws0 behind))

  abbrev pub table_line : Bytes → M S F Record
  table_line rest = do
    (_, body) ← pure (whitespace rest)
    (t, behind) ← pure (parse_table g.table_type_hook body)
    pure
        (end_of_line true (record empty_record { kind = RecordKind.table; table = t }) (ws0 behind))

  abbrev pub label_line : Bool → Bytes → Option Bytes → M S F Record
  label_line true s (some rest) = pure (label_token (token rest))
  label_line _ s _ = other_line (ws0 s)

  abbrev pub table_or : Bytes → Option Bytes → M S F Record
  table_or s (some rest) = table_line rest
  table_or s none = label_line g.enable_labels s (prefix s (codes ":"))

  abbrev pub add_or : Bytes → Option Bytes → M S F Record
  add_or s (some rest) = add_line rest
  add_or s none = table_or s (prefix s (codes "table"))

  unfoldable pub parse_line : Bytes → M S F Record
  unfolding prefix ws1 parse_instruction parse_table token ws0 end_of_line other_line
  parse_line s = add_or s (prefix s (codes "add"))
