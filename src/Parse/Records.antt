-- ===== src/Parse/Records.antt =====
-- parser.go: `Next` takes one physical line whatever becomes of it, and `Records` ends.
use ipfw_go.Prelude.{
  ℕ, zero, suc, ◌+◌, ◌-◌, ◌≤◌, ◌<◌, Bool, true, false, List, [], ◌∷◌, Option, none, some, Bytes,
  cut, ◌==◌, if◌then◌else◌, length, ◌≡◌, ◌≢◌, refl, ap, subst, ◌∙◌, arith,
}
use native.Mathlib.Nat.{min-le_right}
use mathlib.Core.List.{cons-ne-nil}
use ipfw_go.Rule.{Record}
use ipfw_go.Parse.Body.{Grammar}
use ipfw_go.Parse.Lex.{newline, is_ws, is_not_newline, take_while, take_line, ws0, trim_right_space}
use ipfw_go.Parse.Line.{CommandHook, parse_line}
use ipfw_go.Parse.Next.{
  Parser, ParseError, Step, read, unread, no_step, Split, behind_newline, split_at, split_text,
  step_of, next_line, next, yielded, is_eof, records_on, records,
}
use ipfw_go.Parse.Outcome.{Outcome, done, failed, no_fuel, State}
use ipfw_go.Parse.Reads.{Reads}
use ipfw_go.Parse.Reads.Commands.{parse_line-Reads}

-- The first line of an input, without its newline, and what is behind the newline.
abbrev pub first_line : Bytes → Bytes
first_line [] = []
first_line (c ∷ s) = if c == newline then [] else c ∷ first_line s

abbrev pub behind_line : Bytes → Bytes
behind_line [] = []
behind_line (c ∷ s) = if c == newline then s else behind_line s

-- What a step says of the line with the number and the text.
abbrev pub Reports : {F : Type 0} → ℕ → Bytes → Step F → Type 0
Reports n text (read r) = (r.line ≡ n) × (r.text ≡ text)
Reports n text (unread e) = (e.line ≡ n) × (e.text ≡ text) × (e.column ≤ length text)
Reports n text no_step = ⊥

take_line-first : (s : Bytes) → (take_line s).0 ≡ first_line s
unfolding take_line take_while is_not_newline
take_line-first [] = refl
take_line-first (c ∷ s) = ground (arith, take_line-first s)

take_line-behind : (s : Bytes) → behind_newline (take_line s).1 ≡ behind_line s
unfolding take_line take_while is_not_newline
take_line-behind [] = refl
take_line-behind (c ∷ s) = ground (arith, take_line-behind s)

behind_line-ws0 : (s : Bytes) → behind_line (ws0 s) ≡ behind_line s
unfolding ws0 take_while is_ws
behind_line-ws0 [] = refl
behind_line-ws0 (c ∷ s) = ground (arith, behind_line-ws0 s)

length-behind_line : (s : Bytes) → length (behind_line s) ≤ length s - 1
length-behind_line [] = omega arith
length-behind_line (c ∷ s) = ground (arith, length-behind_line s)

split_at-parts :
    (text line rest : Bytes) (p : Bytes × Bytes × Bool)
    → ((split_at text line rest p).line ≡ line) × ((split_at text line rest p).rest ≡ rest)
split_at-parts text line rest (command, comment, true) = (refl, refl)
split_at-parts text line rest (command, comment, false) = (refl, refl)

split_text-parts :
    (s : Bytes) → ((split_text s).line ≡ first_line s) × ((split_text s).rest ≡ behind_line s)
unfolding split_text
split_text-parts s =
    let (line, rest) =
      split_at-parts s (take_line s).0 (behind_newline (take_line s).1)
        (cut (take_line s).0 b'#') in
    (line ∙ take_line-first s, rest ∙ take_line-behind s)

step_of-Reports :
    {F : Type 0} (n : ℕ) (p : Split) (o : Outcome F Record)
    → Reads 0 p.command o
    → Reports n (trim_right_space p.line) (step_of n p o)
step_of-Reports n p (done r q) h = (refl, refl)
step_of-Reports n p (failed e at cause) h = (refl, refl, min-le_right _ _)
step_of-Reports n p no_fuel h = elim h [ ]

module _ {S F : Type 0} (g : Grammar F) (hook : CommandHook S F) (st : State S F) where
  abbrev Takes : Bytes → ℕ → S × Step F × Parser → Type 0
  Takes s n (_, step, m') =
      (m'.line ≡ n)
      × (m'.rest ≡ behind_line s)
      × (length m'.rest < length s)
      × Reports n (trim_right_space (first_line (ws0 s))) step

  next_line-Takes :
      (c : ℕ) (s : Bytes) (n : ℕ) (σ : S)
      → Takes (c ∷ s) n (next_line g hook st n (split_text (ws0 (c ∷ s))) σ)
  next_line-Takes c s n σ =
      let text = ws0 (c ∷ s) in
      let p = split_text text in
      let (line, rest) = split_text-parts text in
      let left : p.rest ≡ behind_line (c ∷ s) = rest ∙ behind_line-ws0 (c ∷ s) in
      let short = length-behind_line (c ∷ s) in
      let o = (parse_line g hook st p.command σ).1 in
      (
        refl,
        left,
        omega (arith, ap length left, short),
        subst (λ (l : Bytes). Reports n (trim_right_space l) (step_of n p o)) line
            (step_of-Reports n p o (parse_line-Reads g hook st p.command σ)),
      )

  next-Takes :
      (s : Bytes) (n : ℕ) (σ : S)
      → s ≢ []
      → Takes s (n + 1) (next g hook st (record { rest = s; line = n }) σ)
  unfolding next
  next-Takes [] n σ ne = absurd (ne refl)
  next-Takes (c ∷ s) n σ ne = next_line-Takes c s (n + 1) σ

  -- `Next` on an input that is left takes the first physical line of it, and only that, whatever the
  -- line, the hooks and the state make of it, reports the number and the trimmed text of that line,
  -- and for an error a column within that text.
  pub next-Reports :
      (m : Parser) (σ : S)
      → m.rest ≢ []
      → let (_, step, m') = next g hook st m σ in
        (m'.line ≡ m.line + 1)
        × (m'.rest ≡ behind_line m.rest)
        × (length m'.rest < length m.rest)
        × Reports (m.line + 1) (trim_right_space (first_line (ws0 m.rest))) step
  next-Reports m σ ne = next-Takes m.rest m.line σ ne

  -- The records of a run are of consecutive lines, and an error is of the line behind them.
  abbrev pub AreLines : ℕ → List Record → Option (ParseError F) → Type 0
  AreLines n [] none = Unit
  AreLines n [] (some e) = e.line ≡ n + 1
  AreLines n (r ∷ rs) e = (r.line ≡ n + 1) × AreLines (n + 1) rs e

  abbrev Ends : ℕ → Option (S × List Record × Option (ParseError F)) → Type 0
  Ends n none = ⊥
  Ends n (some (τ, rs, e)) = AreLines n rs e

  yielded-Ends :
      (n : ℕ) (r : Record) (x : Option (S × List Record × Option (ParseError F)))
      → r.line ≡ n + 1
      → Ends (n + 1) x
      → Ends n (yielded g hook st r x)
  yielded-Ends n r none h h' = h'
  yielded-Ends n r (some (τ, rs, e)) h h' = (h, h')

  if-Ends :
      (b : Bool) (n : ℕ) (x y : Option (S × List Record × Option (ParseError F)))
      → Ends n x
      → Ends n y
      → Ends n (if b then x else y)
  if-Ends true n x y h h' = h
  if-Ends false n x y h h' = h'

  records_on-Ends :
      (loop : Parser → S → Option (S × List Record × Option (ParseError F))) (s : Bytes) (n f : ℕ)
      (x : S × Step F × Parser)
      → ((m : Parser) (τ : S) → length m.rest < f → Ends m.line (loop m τ))
      → length s < suc f
      → Takes s (n + 1) x
      → Ends n (records_on g hook st loop x)
  records_on-Ends loop s n f (τ, read r, m) step fuel (line, rest, short, (number, text)) =
      if-Ends (is_eof g hook st r.kind) n _ _ tt (
        yielded-Ends n r (loop m τ) number
          (subst (λ (k : ℕ). Ends k (loop m τ)) line (step m τ (omega arith))))
  records_on-Ends loop s n f (τ, unread e, m) step fuel
        (line, rest, short, (number, text, column)) =
      number
  records_on-Ends loop s n f (τ, no_step, m) step fuel (line, rest, short, h) = h

  records-Ends :
      (f : ℕ) (s : Bytes) (n : ℕ) (σ : S)
      → length s < f
      → Ends n (records g hook st f (record { rest = s; line = n }) σ)
  unfolding records
  records-Ends zero s n σ fuel = absurd (omega arith)
  records-Ends (suc f) [] n σ fuel = tt
  records-Ends (suc f) (c ∷ s) n σ fuel =
      records_on-Ends (λ m τ. records g hook st f m τ) (c ∷ s) n f
        (next g hook st (record { rest = c ∷ s; line = n }) σ)
        (λ m τ. records-Ends f m.rest m.line τ) fuel (next-Takes (c ∷ s) n σ (cons-ne-nil c s))

  found-of :
      (n : ℕ) (x : Option (S × List Record × Option (ParseError F)))
      → Ends n x
      → (τ : S) × (rs : List Record) × (e : Option (ParseError F)) × (x ≡ some (τ, rs, e))
        × AreLines n rs e
  found-of n none h = absurd h
  found-of n (some (τ, rs, e)) h = (τ, rs, e, refl, h)

  -- `Records` ends within a round for each byte of the input and one more. The records that it yields
  -- are of consecutive lines, from the one behind the parser's, and an error ends them and is of the
  -- line behind them.
  pub records_total :
      (m : Parser) (σ : S) (f : ℕ)
      → length m.rest < f
      → (τ : S) × (rs : List Record) × (e : Option (ParseError F)) × (records g hook st f m σ
          ≡ some (τ, rs, e))
        × AreLines m.line rs e
  records_total m σ f fuel =
      found-of m.line (records g hook st f m σ) (records-Ends f m.rest m.line σ fuel)
