-- ===== src/Parse/Next.antt =====
-- parser.go: `Next`, one line, and `Records`, the loop over the lines.
use ipfw_go.Prelude.{
  ℕ, zero, suc, ◌+◌, ◌-◌, Bool, true, false, List, [], ◌∷◌, Option, none, some, Bytes, cut,
  if◌then◌else◌, length, take, min,
}
use ipfw_go.Rule.{Record, RecordKind}
use ipfw_go.Parse.Body.{Grammar}
use ipfw_go.Parse.Lex.{ws0, take_line, trim_right_space}
use ipfw_go.Parse.Outcome.{Outcome, done, failed, no_fuel, ErrorKind, Fault, State}
use ipfw_go.Parse.Line.{empty_record, CommandHook, parse_line}

-- `Parser`, without its options and the record, which belongs to the caller here.
pub record Parser : Type 0 where
  pub rest : Bytes
  pub line : ℕ

-- `ParseError`
pub record ParseError (F : Type 0) : Type 0 where
  pub kind : ErrorKind
  pub err : Option (Fault F)
  pub line : ℕ
  pub column : ℕ
  pub text : Bytes

pub data Step (F : Type 0) : Type 0 where
  read : Record → Step F
  unread : ParseError F → Step F
  -- The fuel of a loop ran out, which does not happen.
  no_step : Step F

-- The physical line at the start of the input and what is behind its newline.
pub record Split : Type 0 where
  pub line : Bytes
  pub command : Bytes
  pub comment : Option Bytes
  pub rest : Bytes

abbrev pub behind_newline : Bytes → Bytes
behind_newline [] = []
behind_newline (c ∷ s) = s

-- The command is what is before the first `#`, or the line with its ending.
abbrev pub split_at : Bytes → Bytes → Bytes → Bytes × Bytes × Bool → Split
split_at text line rest (command, comment, true) = record {
  line = line;
  command = command;
  comment = some comment;
  rest = rest;
}
split_at text line rest (command, comment, false) = record {
  line = line;
  command = take (length text - length rest) text;
  comment = none;
  rest = rest;
}

unfoldable pub split_text : Bytes → Split
unfolding take_line cut
split_text text =
    let (line, behind) = take_line text in
    let rest = behind_newline behind in split_at text line rest (cut line b'#')

abbrev pub commented_kind : Bytes → RecordKind → RecordKind
commented_kind [] kind = RecordKind.comment
commented_kind (_ ∷ _) kind = kind

abbrev pub commented : Split → Option Bytes → Record → Record
commented p none r = r
commented p (some comment) r = record r {
  comment = trim_right_space comment;
  kind = commented_kind p.command r.kind;
}

module _ {F : Type 0} where
  abbrev pub step_of : ℕ → Split → Outcome F Record → Step F
  step_of number p (done r _) =
      read (record (commented p p.comment r) { line = number; text = trim_right_space p.line })
  step_of number p (failed e at cause) =
      let text = trim_right_space p.line in
      unread (record {
        kind = e;
        err = cause;
        line = number;
        column = min (length p.command - length at) (length text);
        text = text;
      })
  step_of number p no_fuel = no_step

abbrev pub is_nil : Bytes → Bool
is_nil [] = true
is_nil (_ ∷ _) = false

abbrev pub eof_record : Record
eof_record = record empty_record { kind = RecordKind.eof }

module _ {S F : Type 0} (g : Grammar F) (command_hook : CommandHook S F) (st : State S F) where
  abbrev pub stepped : ℕ → Split → S × Outcome F Record → S × Step F × Parser
  stepped number p (σ, o) = (σ, step_of number p o, record { rest = p.rest; line = number })

  abbrev pub next_line : ℕ → Split → S → S × Step F × Parser
  next_line number p σ = stepped number p (parse_line g command_hook st p.command σ)

  -- `Next`
  unfoldable pub next : Parser → S → S × Step F × Parser
  unfolding ws0 split_text trim_right_space parse_line
  next m σ =
      if is_nil m.rest
      then (σ, read eof_record, m)
      else next_line (m.line + 1) (split_text (ws0 m.rest)) σ

  abbrev pub is_eof : RecordKind → Bool
  is_eof RecordKind.eof = true
  is_eof _ = false

  -- `Records`: the records up to the end of the input or the first error; a consumer stops
  -- by itself. `none` means that the fuel ran out.
  abbrev pub yielded :
      Record
      → Option (S × List Record × Option (ParseError F))
      → Option (S × List Record × Option (ParseError F))
  yielded r none = none
  yielded r (some (τ, rs, e)) = some (τ, r ∷ rs, e)

  abbrev pub records_on :
      (Parser → S → Option (S × List Record × Option (ParseError F)))
      → S × Step F × Parser
      → Option (S × List Record × Option (ParseError F))
  records_on loop (σ, no_step, m) = none
  records_on loop (σ, unread e, m) = some (σ, [], some e)
  records_on loop (σ, read r, m) =
      let onward = yielded r (loop m σ) in if is_eof r.kind then some (σ, [], none) else onward

  unfoldable pub records : ℕ → Parser → S → Option (S × List Record × Option (ParseError F))
  unfolding next
  records zero m σ = none
  records (suc f) m σ = records_on (λ m' τ. records f m' τ) (next m σ)
