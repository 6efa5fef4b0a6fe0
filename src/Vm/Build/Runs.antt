-- ===== src/Vm/Build/Runs.antt =====
-- vm/vm.go: the runs of the rule that `Add` closes are the tokens of its body.
use ipfw_go.Errors.{ok}
use ipfw_go.Prelude.{
  ℕ, zero, suc, ◌+◌, ◌-◌, ◌^◌, ◌≤◌, ◌<◌, List, [], ◌∷◌, ◌++◌, Option, none, some, length, get_elem?,
  take, drop, ◌≡◌, refl, ap, ap₂, ◌∙◌, subst, arith, Bool-cases, inl, inr, length-append,
  length-drop, length-take_le, take_all, get_elem?-append_self,
}
use ipfw_go.Resolver.Keeps.{Keeps, bind-Keeps}
use ipfw_go.Rule.{Action, ActionKind, Opt, Record, SkipTo, SkipToKind}
use ipfw_go.Vm.Build.{
  Builder, next_number, has_wrapped, add_skip_to, add_action, finish_add, add_numbered, add, len,
}
use ipfw_go.Vm.Program.Comments.{without_idle, compacted-without_idle, length-without_idle}
use ipfw_go.Vm.Program.{
  Program, Rule, Span, to_u32, close_at, run_of, append_rule, close, drop_comments, compacted,
}

-- An arena with the open run at its end.
abbrev pub IsOpenRun : {A : Type 0} → Span → List A → Type 0
IsOpenRun s xs = (s.start ≤ length xs) × (length xs < 2 ^ 32)

close_at-run_of :
    {A : Type 0} (s : Span) (xs : List A)
    → IsOpenRun s xs
    → run_of xs (close_at s xs) ≡ drop s.start xs
close_at-run_of s xs (le, lt) =
    take_all (to_u32 (length xs) - s.start) (drop s.start xs)
      (omega (arith, length-drop s.start xs))

drop-append_self : {A : Type 0} (n : ℕ) (xs ys : List A) → length xs ≡ n → drop n (xs ++ ys) ≡ ys
drop-append_self zero [] ys e = refl
drop-append_self zero (x ∷ xs) ys e = absurd (omega arith)
drop-append_self (suc n) [] ys e = absurd (omega arith)
drop-append_self (suc n) (x ∷ xs) ys e = drop-append_self n xs ys (omega arith)

-- What `DropComments` makes of the arena of the options, and its open run.
abbrev without_comments : Span → List Opt → List Opt
without_comments s os = take s.start os ++ compacted (drop s.start os)

without_comments-IsOpenRun :
    (s : Span) (os : List Opt) → IsOpenRun s os → IsOpenRun s (without_comments s os)
without_comments-IsOpenRun s os (le, lt) =
    let whole = length-append (take s.start os) (compacted (drop s.start os)) in
    let front = length-take_le s.start os le in
    let back = length-drop s.start os in
    let fewer = length-without_idle none (drop s.start os) in
    let same = ap length (compacted-without_idle (drop s.start os)) in (omega arith, omega arith)

-- The runs of a rule are those of another.
abbrev SameRuns : Rule → Rule → Type 0
SameRuns r q =
    (r.ip_protos ≡ q.ip_protos)
    × (r.protos ≡ q.protos)
    × (r.sources ≡ q.sources)
    × (r.destinations ≡ q.destinations)
    × (r.source_ports ≡ q.source_ports)
    × (r.destination_ports ≡ q.destination_ports)
    × (r.options ≡ q.options)

module _ {V4 V6 R : Type 0} where
  -- Every run of the open rule is at the end of its arena, and the arenas are below 2^32.
  abbrev pub IsOpen : Builder V4 V6 R → Type 0
  IsOpen b =
      IsOpenRun b.start.ip_protos b.program.ip_protos
      × IsOpenRun b.start.protos b.program.protos
      × IsOpenRun b.start.sources b.program.sources
      × IsOpenRun b.start.destinations b.program.destinations
      × IsOpenRun b.start.source_ports b.program.source_ports
      × IsOpenRun b.start.destination_ports b.program.destination_ports
      × IsOpenRun b.start.options b.program.options

  -- The rule of the new program that has the tokens pushed since the mark of the old builder.
  abbrev pub HasTokens : Builder V4 V6 R → Program V4 V6 → Rule → Type 0
  HasTokens b p r =
      (run_of p.ip_protos r.ip_protos ≡ drop b.start.ip_protos.start b.program.ip_protos)
      × (run_of p.protos r.protos ≡ drop b.start.protos.start b.program.protos)
      × (run_of p.sources r.sources ≡ drop b.start.sources.start b.program.sources)
      × (run_of p.destinations r.destinations
          ≡ drop b.start.destinations.start b.program.destinations)
      × (run_of p.source_ports r.source_ports
          ≡ drop b.start.source_ports.start b.program.source_ports)
      × (run_of p.destination_ports r.destination_ports
          ≡ drop b.start.destination_ports.start b.program.destination_ports)
      × (run_of p.options r.options
          ≡ without_idle none (drop b.start.options.start b.program.options))

  closed-HasTokens :
      (b : Builder V4 V6 R)
      → IsOpen b
      → HasTokens b
          (drop_comments b.program b.start)
          (close (drop_comments b.program b.start) b.start)
  unfolding drop_comments close
  closed-HasTokens b (a, c, d, e, f, g, h) = (
    close_at-run_of b.start.ip_protos b.program.ip_protos a,
    close_at-run_of b.start.protos b.program.protos c,
    close_at-run_of b.start.sources b.program.sources d,
    close_at-run_of b.start.destinations b.program.destinations e,
    close_at-run_of b.start.source_ports b.program.source_ports f,
    close_at-run_of b.start.destination_ports b.program.destination_ports g,
    close_at-run_of b.start.options _
          (without_comments-IsOpenRun b.start.options b.program.options h)
        ∙ drop-append_self b.start.options.start (take b.start.options.start b.program.options) _
            (length-take_le b.start.options.start b.program.options (h.0))
        ∙ compacted-without_idle (drop b.start.options.start b.program.options),
  )

  abbrev Adds : Program V4 V6 → Rule → Builder V4 V6 R × Rule → Type 0
  Adds p closed (m, r) = (m.program ≡ p) × SameRuns r closed

  add_skip_to-Adds :
      (F : Type 0) (m : Builder V4 V6 R) (closed : Rule) (idx : ℕ) (target : SkipTo)
      (k : SkipToKind)
      → Keeps (Adds m.program closed) (add_skip_to {F = F} m closed idx target k)
  unfolding add_skip_to
  add_skip_to-Adds F m closed idx target SkipToKind.unset = tt
  add_skip_to-Adds F m closed idx target SkipToKind.table_arg =
      (refl, (refl, refl, refl, refl, refl, refl, refl))
  add_skip_to-Adds F m closed idx target SkipToKind.number =
      (refl, (refl, refl, refl, refl, refl, refl, refl))
  add_skip_to-Adds F m closed idx target SkipToKind.label =
      (refl, (refl, refl, refl, refl, refl, refl, refl))

  add_action-Adds :
      (F : Type 0) (m : Builder V4 V6 R) (closed : Rule) (idx : ℕ) (action : Action)
      (k : ActionKind)
      → Keeps (Adds m.program closed) (add_action {F = F} m closed idx action k)
  unfolding add_action
  add_action-Adds F m closed idx action ActionKind.skip_to =
      add_skip_to-Adds F m (record closed { jump = to_u32 (idx + 1) }) idx action.skip_to
        action.skip_to.kind
  add_action-Adds F m closed idx action ActionKind.unset = tt
  add_action-Adds F m closed idx action _ = (refl, (refl, refl, refl, refl, refl, refl, refl))

  -- The program has a rule more, with the tokens pushed since the mark.
  abbrev pub Closes : Builder V4 V6 R → Builder V4 V6 R → Type 0
  Closes b b' =
      (r : Rule) × (get_elem? b'.program.rules (len b) ≡ some r) × HasTokens b b'.program r

  finish_add-Closes :
      (b m : Builder V4 V6 R) (rec : Record) (r closed : Rule)
      → HasTokens b (drop_comments b.program b.start) closed
      → m.program ≡ drop_comments b.program b.start
      → SameRuns r closed
      → Closes b (finish_add rec (m, r))
  unfolding append_rule drop_comments
  finish_add-Closes b m rec r closed (t1, t2, t3, t4, t5, t6, t7) e (s1, s2, s3, s4, s5, s6, s7) = (
    r,
    ap (λ p. get_elem? (p.rules ++ r ∷ []) (len b)) e
        ∙ get_elem?-append_self b.program.rules r (len b) refl,
    (
      ap₂ (λ p s. run_of p.ip_protos s) e s1 ∙ t1,
      ap₂ (λ p s. run_of p.protos s) e s2 ∙ t2,
      ap₂ (λ p s. run_of p.sources s) e s3 ∙ t3,
      ap₂ (λ p s. run_of p.destinations s) e s4 ∙ t4,
      ap₂ (λ p s. run_of p.source_ports s) e s5 ∙ t5,
      ap₂ (λ p s. run_of p.destination_ports s) e s6 ∙ t6,
      ap₂ (λ p s. run_of p.options s) e s7 ∙ t7,
    ),
  )

  add_numbered-Closes :
      (F : Type 0) (b : Builder V4 V6 R) (rec : Record) (number : Option ℕ)
      → IsOpen b
      → Keeps (Closes b) (add_numbered {F = F} b rec number)
  unfolding drop_comments close has_wrapped
  add_numbered-Closes F b rec none w = tt
  add_numbered-Closes F b rec (some number) w =
      let program = drop_comments b.program b.start in
      let numbered = record b { number = number; program = program } in
      let kind = rec.instruction.action.kind in
      let closed = record (close program b.start) { kind = kind } in
      elim (Bool-cases (has_wrapped program number)) [
        | inl wrapped ↦ rw wrapped tt
        | inr fresh ↦ rw fresh (
            bind-Keeps (Closes b) (Adds program closed)
              (add_action {F = F} numbered closed (len b) rec.instruction.action kind)
              (λ added. ok (finish_add rec added))
              (add_action-Adds F numbered closed (len b) rec.instruction.action kind)
              (λ (m, r) (same, runs).
                finish_add-Closes b m rec r closed (closed-HasTokens b w) same runs))
      ]

  -- `Add`, when it does not fail, appends a rule whose runs are the tokens that were pushed since the
  -- mark of the builder, without the idle comments among its options, if the runs of the open rule are
  -- at the ends of their arenas and the arenas have fewer than 2^32 tokens.
  pub add-HasTokens :
      {F : Type 0} (b b' : Builder V4 V6 R) (rec : Record)
      → IsOpen b
      → add {F = F} b rec ≡ ok b'
      → (r : Rule) × (get_elem? b'.program.rules (len b) ≡ some r) × HasTokens b b'.program r
  unfolding add
  add-HasTokens {F} b b' rec w e =
      subst (Keeps (Closes b)) e
        (add_numbered-Closes F b rec (next_number rec.instruction.num b.number) w)
