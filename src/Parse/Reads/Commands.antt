-- ===== src/Parse/Reads/Commands.antt =====
-- What the commands of a line leave of the input.
use ipfw_go.Prelude.Int.{ℤ}
use ipfw_go.Prelude.{ℕ, Bool, true, false, [], ◌∷◌, Option, none, some, Bytes, codes, ◌==◌}
use ipfw_go.Rule.{Record}
use ipfw_go.Parse.Body.{Grammar, whitespace}
use ipfw_go.Parse.Instruction.{parse_instruction}
use ipfw_go.Parse.Lex.{carriage_return, newline, prefix, ws0, token, line_text}
use ipfw_go.Parse.Line.{
  parse_line_end, lf_or, CommandHook, empty_record, hook_answer, line_ended, end_of_line, hook_line,
  line_or, other_line, starts_line_end, add_line, table_line, label_token, label_line, table_or,
  add_or, parse_line,
}
use ipfw_go.Parse.Options.Lists.{clamp}
use ipfw_go.Parse.Outcome.{Fault, State}
use ipfw_go.Parse.Reads.{
  Behind, same, after, weak, of_drop, Opens, shut, opens, Reads, reads, fails, bound-Reads,
  fail_from-Reads, with_value-Reads,
}
use ipfw_go.Parse.Reads.Bodies.{parse_instruction-Reads}
use ipfw_go.Parse.Reads.Lex.{Parts, Parts-Behind, prefix-Opens, ws0-Behind, Opens-weak, token-Parts}
use ipfw_go.Parse.Reads.OptionLists.{read_behind}
use ipfw_go.Parse.Reads.Actions.{whitespace-Reads}
use ipfw_go.Parse.Reads.Targets.{if-answer, if-run}
use ipfw_go.Parse.Table.{parse_table}
use ipfw_go.Parse.Reads.Tables.{parse_table-Reads}

parse_line_end-Opens : (s : Bytes) → Opens 0 s (parse_line_end s)
unfolding parse_line_end
parse_line_end-Opens s =
    lf_or-Opens (prefix-Opens s (carriage_return ∷ newline ∷ []))
      (Opens-weak (prefix-Opens s (newline ∷ [])))
  where
    lf_or-Opens :
        {n : ℕ} {o o' : Option Bytes} → Opens n s o → Opens 0 s o' → Opens 0 s (lf_or o o')
    lf_or-Opens shut h' = h'
    lf_or-Opens (opens h) h' = opens (weak h)

module _ {F : Type 0} where
  line_ended-Reads :
      (commanded : Bool) (r : Record) (s : Bytes) {n : ℕ} {o : Option Bytes}
      → Opens n s o
      → Reads 0 s (line_ended {F = F} commanded r s o)
  line_ended-Reads commanded r s (opens h) = reads (weak h)
  line_ended-Reads commanded r [] shut = reads same
  line_ended-Reads true r (c ∷ s) shut = fails same
  line_ended-Reads false r (c ∷ s) shut = fails same

  end_of_line-Reads :
      (commanded : Bool) (r : Record) {n : ℕ} {s q : Bytes}
      → Behind n s q
      → Reads 0 s (end_of_line {F = F} commanded r q)
  unfolding end_of_line
  end_of_line-Reads commanded r {q = q} h =
      read_behind h (line_ended-Reads commanded r q (parse_line_end-Opens q))

  label_token-Reads :
      {s r : Bytes} (p : Bytes × Bytes)
      → Behind 0 s r
      → Parts r p
      → Reads 0 s (label_token {F = F} p)
  label_token-Reads ([], rest) h h' = fails (after h (Parts-Behind h'))
  label_token-Reads (c ∷ label, rest) h h' =
      end_of_line-Reads true _ (after h (after (Parts-Behind h') (ws0-Behind rest)))

module _ {S F : Type 0} (g : Grammar F) (command_hook : CommandHook S F) (st : State S F) where
  hook_answer-Reads :
      (s : Bytes) (x : S × (Record × ℤ × Option (Fault F)))
      → Reads 0 s ((hook_answer g command_hook st s x).1)
  hook_answer-Reads s (σ, (r, n, some e)) =
      with_value-Reads empty_record
        (fail_from-Reads (some e) _ s (of_drop (clamp n (line_text s)) s) same)
  hook_answer-Reads s (σ, (r, n, none)) =
      if-run (clamp n (line_text s) == 0) _ _ (fails same)
        (reads (of_drop (clamp n (line_text s)) s))

  hook_line-Reads :
      (s : Bytes) (hook : CommandHook S F) (σ : S)
      → Reads 0 s ((hook_line g command_hook st s hook σ).1)
  hook_line-Reads s none σ = end_of_line-Reads false empty_record same
  hook_line-Reads s (some hook) σ =
      bound-Reads (hook_answer g command_hook st s (hook (line_text s) σ)) _
        (hook_answer-Reads s (hook (line_text s) σ))
        λ r q τ h. end_of_line-Reads true r (after h (ws0-Behind q))

  other_line-Reads : (s : Bytes) (σ : S) → Reads 0 s ((other_line g command_hook st s σ).1)
  unfolding other_line
  other_line-Reads s σ = ended-Reads (parse_line_end-Opens s)
    where
      ended-Reads :
          {o : Option Bytes} → Opens 0 s o → Reads 0 s ((line_or g command_hook st s o σ).1)
      ended-Reads (opens h) = reads h
      ended-Reads shut =
          if-answer (starts_line_end s) _ _ σ (reads same) (hook_line-Reads s command_hook σ)

  add_line-Reads : (s : Bytes) (σ : S) → Reads 0 s ((add_line g command_hook st s σ).1)
  add_line-Reads s σ =
      bound-Reads (σ, whitespace s) _ (whitespace-Reads s)
        λ _ body τ h.
          bound-Reads (parse_instruction g st body τ) _
            (read_behind h (parse_instruction-Reads g st body τ))
            λ rule q υ h'. end_of_line-Reads true _ (after h' (ws0-Behind q))

  table_line-Reads : (s : Bytes) (σ : S) → Reads 0 s ((table_line g command_hook st s σ).1)
  table_line-Reads s σ =
      bound-Reads (σ, whitespace s) _ (whitespace-Reads s)
        λ _ body τ h.
          bound-Reads (τ, parse_table g.table_type_hook body) _
            (read_behind h (parse_table-Reads g.table_type_hook body))
            λ t q υ h'. end_of_line-Reads true _ (after h' (ws0-Behind q))

  label_line-Reads :
      (labels : Bool) (s : Bytes) {n : ℕ} (o : Option Bytes) (σ : S)
      → Opens n s o
      → Reads 0 s ((label_line g command_hook st labels s o σ).1)
  label_line-Reads true s (some r) σ (opens h) =
      label_token-Reads (token r) (weak h) (token-Parts r)
  label_line-Reads true s none σ h = read_behind (ws0-Behind s) (other_line-Reads (ws0 s) σ)
  label_line-Reads false s o σ h = read_behind (ws0-Behind s) (other_line-Reads (ws0 s) σ)

  table_or-Reads :
      (s : Bytes) {n : ℕ} {o : Option Bytes} (σ : S)
      → Opens n s o
      → Reads 0 s ((table_or g command_hook st s o σ).1)
  table_or-Reads s σ shut =
      label_line-Reads g.enable_labels s (prefix s (codes ":")) σ (prefix-Opens s (codes ":"))
  table_or-Reads s σ (opens {r} h) = read_behind h (table_line-Reads r σ)

  add_or-Reads :
      (s : Bytes) {n : ℕ} {o : Option Bytes} (σ : S)
      → Opens n s o
      → Reads 0 s ((add_or g command_hook st s o σ).1)
  add_or-Reads s σ shut = table_or-Reads s σ (prefix-Opens s (codes "table"))
  add_or-Reads s σ (opens {r} h) = read_behind h (add_line-Reads r σ)

  -- Whatever the line, the hooks and the state: `parseLine` ends, and what it leaves of a line or the
  -- position of its failure is a suffix of the line.
  pub parse_line-Reads : (s : Bytes) (σ : S) → Reads 0 s ((parse_line g command_hook st s σ).1)
  unfolding parse_line
  parse_line-Reads s σ = add_or-Reads s σ (prefix-Opens s (codes "add"))
