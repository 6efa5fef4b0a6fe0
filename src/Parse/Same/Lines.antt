-- ===== src/Parse/Same/Lines.antt =====
-- The lines of a ruleset.
use ipfw_go.Prelude.Int.{ℤ}
use ipfw_go.Prelude.{
  ℕ, ◌+◌, ◌==◌, Bool, true, false, Option, none, some, Bytes, codes, if◌then◌else◌,
}
use ipfw_go.Rule.{Record, RecordKind}
use ipfw_go.Parse.Body.{Grammar, whitespace}
use ipfw_go.Parse.Lex.{prefix, ws0, token, line_text}
use ipfw_go.Parse.Line.{
  parse_line_end, starts_line_end, CommandHook, end_of_line, label_token, empty_record, hook_answer,
  hook_line, line_or, other_line, add_line, table_line, label_line, table_or, add_or, parse_line,
}
use ipfw_go.Parse.Next.{
  Parser, Step, read, Split, split_text, is_nil, eof_record, stepped, next_line, next,
}
use ipfw_go.Parse.Options.Lists.{clamp}
use ipfw_go.Parse.Outcome.{Outcome, Fault, State, done}
use ipfw_go.Parse.Same.{
  Both, both, Alike, Same, outcome-Both, pure-Same, bound-Both, if-Both, if-Same,
}
use ipfw_go.Parse.Same.Rules.{parse_instruction-Same}
use ipfw_go.Parse.Table.{parse_table}

-- Two command hooks that answer alike, or none.
pub data Hooks {S T F : Type 0} (R : S → T → Type 0)
    : CommandHook S F → CommandHook T F → Type 0 where
  without : Hooks R none none
  with_hooks :
      {hook : Bytes → S → S × (Record × ℤ × Option (Fault F))}
      {hook' : Bytes → T → T × (Record × ℤ × Option (Fault F))}
      → ((s : Bytes) (σ : S) (τ : T) → R σ τ → Both R (hook s σ) (hook' s τ))
      → Hooks R (some hook) (some hook')

-- Two steps of the parser, alike but for related states.
pub data BothSteps {S T F : Type 0} (R : S → T → Type 0)
    : S × Step F × Parser → T × Step F × Parser → Type 0 where
  both_steps : {σ : S} {τ : T} {x : Step F} {m : Parser} → R σ τ → BothSteps R (σ, x, m) (τ, x, m)

module _ {S T F : Type 0} {R : S → T → Type 0} {st : State S F} {st' : State T F}
    (same : Alike R st st') {ch : CommandHook S F} {ch' : CommandHook T F} (hooks : Hooks R ch ch')
    (g : Grammar F) where
  hook_answer-Both :
      (s : Bytes) {x : S × (Record × ℤ × Option (Fault F))}
      {y : T × (Record × ℤ × Option (Fault F))}
      → Both R x y
      → Both R (hook_answer g ch st s x) (hook_answer g ch' st' s y)
  hook_answer-Both s (both {x = (r, n, some e)} h) = both h
  hook_answer-Both s (both {x = (r, n, none)} h) =
      if-Both (clamp n (line_text s) == 0) (both h) (both h)

  hook_line-Same :
      {c : CommandHook S F} {c' : CommandHook T F} (s : Bytes)
      → Hooks R c c'
      → Same R (hook_line g ch st s c) (hook_line g ch' st' s c')
  hook_line-Same s without σ τ h = both h
  hook_line-Same s (with_hooks alike) σ τ h =
      bound-Both _ _ (hook_answer-Both s (alike (line_text s) σ τ h))
        λ r rest. pure-Same (end_of_line true r (ws0 rest))

  line_or-Same :
      (s : Bytes) (o : Option Bytes) → Same R (line_or g ch st s o) (line_or g ch' st' s o)
  line_or-Same s (some rest) = pure-Same (done empty_record rest)
  line_or-Same s none =
      if-Same (starts_line_end s) (pure-Same (done empty_record s)) (hook_line-Same s hooks)

  add_line-Same : (s : Bytes) → Same R (add_line g ch st s) (add_line g ch' st' s)
  add_line-Same s = outcome-Both (whitespace s) _ _ λ _ body σ τ h.
      bound-Both _ _ (parse_instruction-Same same g body σ τ h) λ rule behind. pure-Same (
        end_of_line true (record empty_record { kind = RecordKind.instruction; instruction = rule })
          (ws0 behind))

  table_line-Same : (s : Bytes) → Same R (table_line g ch st s) (table_line g ch' st' s)
  table_line-Same s = outcome-Both (whitespace s) _ _ λ _ body.
      outcome-Both (parse_table g.table_type_hook body) _ _ λ t behind.
        pure-Same (
          end_of_line true (record empty_record { kind = RecordKind.table; table = t })
            (ws0 behind))

  label_line-Same :
      (enabled : Bool) (s : Bytes) (o : Option Bytes)
      → Same R (label_line g ch st enabled s o) (label_line g ch' st' enabled s o)
  unfolding other_line
  label_line-Same true s (some rest) = pure-Same (label_token (token rest))
  label_line-Same true s none = line_or-Same (ws0 s) (parse_line_end (ws0 s))
  label_line-Same false s o = line_or-Same (ws0 s) (parse_line_end (ws0 s))

  table_or-Same :
      (s : Bytes) (o : Option Bytes) → Same R (table_or g ch st s o) (table_or g ch' st' s o)
  table_or-Same s (some rest) = table_line-Same rest
  table_or-Same s none = label_line-Same g.enable_labels s (prefix s (codes ":"))

  add_or-Same : (s : Bytes) (o : Option Bytes) → Same R (add_or g ch st s o) (add_or g ch' st' s o)
  add_or-Same s (some rest) = add_line-Same rest
  add_or-Same s none = table_or-Same s (prefix s (codes "table"))

  pub parse_line-Same : (s : Bytes) → Same R (parse_line g ch st s) (parse_line g ch' st' s)
  unfolding parse_line
  parse_line-Same s = add_or-Same s (prefix s (codes "add"))

  stepped-BothSteps :
      (number : ℕ) (p : Split) {x : S × Outcome F Record} {y : T × Outcome F Record}
      → Both R x y
      → BothSteps R (stepped g ch st number p x) (stepped g ch' st' number p y)
  stepped-BothSteps number p (both h) = both_steps h

  pub next-BothSteps :
      (m : Parser) (σ : S) (τ : T) → R σ τ → BothSteps R (next g ch st m σ) (next g ch' st' m τ)
  unfolding next
  next-BothSteps m σ τ h = line_or_end (is_nil m.rest)
    where
      line_or_end :
          (b : Bool)
          → BothSteps R
              (if b
                then (σ, read eof_record, m)
                else next_line g ch st (m.line + 1) (split_text (ws0 m.rest)) σ)
              (if b
                then (τ, read eof_record, m)
                else next_line g ch' st' (m.line + 1) (split_text (ws0 m.rest)) τ)
      line_or_end true = both_steps h
      line_or_end false =
          stepped-BothSteps (m.line + 1) (split_text (ws0 m.rest))
            (parse_line-Same (split_text (ws0 m.rest)).command σ τ h)
