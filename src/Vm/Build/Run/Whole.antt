-- ===== src/Vm/Build/Run/Whole.antt =====
-- What a build leaves when it succeeds: the loop of `Build` keeps the program well formed.
use ipfw_go.Errors.{Cause, Result, ok, err, Result-cases}
use ipfw_go.Prelude.{
  ℕ, List, [], ◌∷◌, Option, none, some, ◌≡◌, subst, Bool-cases, inl, inr, length, ◌<◌, ◌^◌,
}
use ipfw_go.Resolver.Keeps.{Keeps, bind-Keeps, on_token-Keeps}
use ipfw_go.Resolver.{Environment, Token, on_token}
use ipfw_go.Rule.{Record, RecordKind}
use ipfw_go.Vm.Build.Linking.{IsLinked, linked}
use ipfw_go.Vm.Build.Run.{
  Config, Line, Outcome, built, read_tokens, machine, finish_with, finish, on_record, build_from,
  build, is_error, token_error, resume, resume_table, validate, is_some,
}
use ipfw_go.Vm.Build.Sound.{
  IsWellFormed, new_builder-IsWellFormed, drop_record-IsWellFormed, add_label-IsWellFormed,
  add-IsWellFormed,
}
use ipfw_go.Vm.Build.Tables.Kept.{table_command-IsWellFormed}
use ipfw_go.Vm.Build.Tables.{table_command}
use ipfw_go.Vm.Build.Tokens.Kept.{on_call-IsWellFormed}
use ipfw_go.Vm.Build.Tokens.{on_call}
use ipfw_go.Vm.Build.{Builder, link_numbers, unresolved, drop_record, add}
use ipfw_go.Vm.Check.Total.{IsForward, Decides, check_trace-Decides}
use ipfw_go.Vm.Check.{Verdict, check_trace}
use ipfw_go.Vm.Machine.{Machine}
use ipfw_go.Vm.Network.{Network, TableRegistry}
use ipfw_go.Vm.Packet.{Context, Packet}
use ipfw_go.Vm.Program.Numbers.{IsAscending}

module _ {V4 V6 R : Type 0} where
  -- A predicate of the machine that a build gives.
  abbrev pub Built : {F : Type 0} → (Machine V4 V6 R → Type 0) → Outcome V4 V6 R F → Type 0
  Built Q (built m) = Q m
  Built Q _ = Unit

  abbrev HasLinks : Machine V4 V6 R → Type 0
  HasLinks m = IsLinked m.program

module _ {V4 V6 R F : Type 0} (env : Environment V4 V6 F) (reg : TableRegistry V4 V6 R F)
    (cfg : Config) where
  read_tokens-IsWellFormed :
      (b : Builder V4 V6 R) (ts : List Token)
      → IsWellFormed b
      → Keeps IsWellFormed (read_tokens env reg cfg b ts)
  unfolding read_tokens
  read_tokens-IsWellFormed b [] w = w
  read_tokens-IsWellFormed b (t ∷ ts) w =
      bind-Keeps IsWellFormed IsWellFormed (on_token env on_call b t) _
        (on_token-Keeps env on_call IsWellFormed (on_call-IsWellFormed F) b t w)
        (λ b' w'. read_tokens-IsWellFormed b' ts w')

  finish_with-HasLinks :
      (b : Builder V4 V6 R) (first : Option ℕ)
      → IsLinked b.program
      → Built HasLinks (finish_with env reg cfg b first)
  unfolding finish_with machine
  finish_with-HasLinks b none w = w
  finish_with-HasLinks b (some first) w =
      elim (Bool-cases (is_error env reg cfg cfg.unresolved_jumps)) [
        | inl stops ↦ rw stops tt
        | inr falls ↦ rw falls w
      ]

  finish-HasLinks : (b : Builder V4 V6 R) → IsWellFormed b → Built HasLinks (finish env reg cfg b)
  unfolding finish
  finish-HasLinks b w =
      finish_with-HasLinks (link_numbers b) (unresolved (link_numbers b)) (linked b w)

  resume-HasLinks :
      (b : Builder V4 V6 R) (rec : Record) (r : Result F (Builder V4 V6 R))
      (k : Builder V4 V6 R → Outcome V4 V6 R F)
      → Keeps IsWellFormed r
      → ((b' : Builder V4 V6 R) → IsWellFormed b' → Built HasLinks (k b'))
      → Built HasLinks (resume env reg cfg b rec r k)
  resume-HasLinks b rec (ok b') k w rest = rest b' w
  resume-HasLinks b rec (err e) k w rest = tt

  resume_table-HasLinks :
      (rec : Record) (r : Builder V4 V6 R × Option (Cause F))
      (k : Builder V4 V6 R → Outcome V4 V6 R F)
      → IsWellFormed (r.0)
      → ((b' : Builder V4 V6 R) → IsWellFormed b' → Built HasLinks (k b'))
      → Built HasLinks (resume_table env reg cfg rec r k)
  resume_table-HasLinks rec (b', none) k w rest = rest b' w
  resume_table-HasLinks rec (b', some e) k w rest = tt

  token_error-HasLinks :
      (b : Builder V4 V6 R) (r : Result F (Builder V4 V6 R)) (e : F)
      → Built HasLinks (token_error env reg cfg b r e)
  token_error-HasLinks b (ok b') e = tt
  token_error-HasLinks b (err c) e = tt

  on_record-HasLinks :
      (b : Builder V4 V6 R) (rec : Record) (kind : RecordKind)
      (k : Builder V4 V6 R → Outcome V4 V6 R F)
      → IsWellFormed b
      → ((b' : Builder V4 V6 R) → IsWellFormed b' → Built HasLinks (k b'))
      → Built HasLinks (on_record env reg cfg b rec kind k)
  unfolding on_record
  on_record-HasLinks b rec RecordKind.eof k w rest =
      finish-HasLinks (drop_record b) (drop_record-IsWellFormed b w)
  on_record-HasLinks b rec RecordKind.empty k w rest =
      rest (drop_record b) (drop_record-IsWellFormed b w)
  on_record-HasLinks b rec RecordKind.comment k w rest =
      rest (drop_record b) (drop_record-IsWellFormed b w)
  on_record-HasLinks b rec RecordKind.instruction k w rest =
      resume-HasLinks b rec (add b rec) k (add-IsWellFormed F b rec w) rest
  on_record-HasLinks b rec RecordKind.label k w rest =
      rest _ (add_label-IsWellFormed (drop_record b) rec.label (drop_record-IsWellFormed b w))
  on_record-HasLinks b rec RecordKind.table k w rest =
      resume_table-HasLinks rec (table_command env reg (drop_record b) rec.table) k
        (table_command-IsWellFormed env reg (drop_record b) rec.table
          (drop_record-IsWellFormed b w))
        rest

  build_from-HasLinks :
      (b : Builder V4 V6 R) (lines : List (Line F))
      → IsWellFormed b
      → Built HasLinks (build_from env reg cfg b lines)
  unfolding build_from
  build_from-HasLinks b [] w = tt
  build_from-HasLinks b (Line.failed ts e ∷ lines) w =
      token_error-HasLinks b (read_tokens env reg cfg b ts) e
  build_from-HasLinks b (Line.parsed ts rec ∷ lines) w =
      elim (Result-cases (read_tokens env reg cfg b ts)) [
        | inl (b', e) ↦
            rw (e, build_from)
              (on_record-HasLinks b' rec rec.kind _
                (subst (Keeps IsWellFormed) e (read_tokens-IsWellFormed b ts w))
                (λ b'' w''. build_from-HasLinks b'' lines w''))
        | inr (c, e) ↦ rw (e, build_from) tt
      ]

  build-HasLinks :
      (tables : R) (lines : List (Line F)) → Built HasLinks (build env reg cfg tables lines)
  unfolding build
  build-HasLinks tables lines = elim (Bool-cases (validate cfg)) [
    | inl valid ↦ rw valid (
        build_from-HasLinks _ lines
          (new_builder-IsWellFormed V4 V6 tables (is_some env reg cfg cfg.option_matcher)))
    | inr invalid ↦ rw invalid tt
  ]

  -- A build of any ruleset that gives a machine of fewer than 2^32 rules gives one in which a rule has
  -- one number, one record and one action, the numbers ascend, and every skipto goes forward.
  pub build-IsForward :
      (tables : R) (lines : List (Line F)) (m : Machine V4 V6 R)
      → build env reg cfg tables lines ≡ built m
      → length m.program.rules < 2 ^ 32
      → (length m.program.numbers ≡ length m.program.rules)
        × (length m.program.records ≡ length m.program.rules)
        × (length m.program.actions ≡ length m.program.rules)
        × IsAscending m.program.numbers
        × IsForward m.program.rules
  build-IsForward tables lines m e h =
      let w = subst (Built HasLinks) e (build-HasLinks tables lines) in
      (w.numbers_length, w.records_length, w.actions_length, w.ascending, w.forward h)

  -- A machine of fewer than 2^32 rules that a build gave ends its check of every packet, on fuel for
  -- each rule once and one round more, and decides what the rules mean.
  pub build-check_trace :
      (n4 : Network V4) (n6 : Network V6) (tables : R) (lines : List (Line F)) (m : Machine V4 V6 R)
      (ctx : Context) (pkt : Packet)
      → build env reg cfg tables lines ≡ built m
      → length m.program.rules < 2 ^ 32
      → (v : Verdict) × (check_trace n4 n6 reg m ctx pkt ≡ some v) × Decides n4 n6 reg m ctx pkt 0 v
  build-check_trace n4 n6 tables lines m ctx pkt e h =
      check_trace-Decides n4 n6 reg m ctx pkt (build-IsForward tables lines m e h).4
