-- ===== src/Vm/Build/Run/Ends.antt =====
-- A build over a text ends: it takes a line of the text in each round.
use mathlib.Core.List.{cons-ne-nil}
use ipfw_go.Prelude.{
  ℕ, Bool, true, false, zero, suc, [], ◌∷◌, Option, none, some, ◌≡◌, ◌≢◌, subst, length, ◌+◌, ◌<◌,
  ◌^◌, Bytes, arith, if◌then◌else◌,
}
use ipfw_go.Errors.{Cause, Result, ok, err}
use ipfw_go.Parse.Body.{Grammar}
use ipfw_go.Parse.Next.{Parser, Step, read, unread, no_step, next}
use ipfw_go.Parse.Records.{Reports, next-Reports}
use ipfw_go.Resolver.{Environment}
use ipfw_go.Rule.{Record, RecordKind}
use ipfw_go.Vm.Build.Run.{
  Config, Outcome, built, no_end, resume, resume_table, finish_with, finish, on_record, is_error,
  validate, is_some,
}
use ipfw_go.Vm.Build.Tables.{table_command}
use ipfw_go.Vm.Build.Run.FromText.{build_text-build}
use ipfw_go.Vm.Build.Run.Text.{ErrorValues, resolving, on_step, build_loop, build_text}
use ipfw_go.Vm.Build.Run.Whole.{build-check_trace}
use ipfw_go.Vm.Build.{Builder, new_builder, drop_record, add, link_numbers, unresolved}
use ipfw_go.Vm.Check.Total.{Decides}
use ipfw_go.Vm.Check.{Verdict, check_trace}
use ipfw_go.Vm.Machine.{Machine}
use ipfw_go.Vm.Network.{Network, TableRegistry}
use ipfw_go.Vm.Packet.{Context, Packet}

module _ {V4 V6 R F : Type 0} where
  -- The build stopped by itself.
  abbrev pub IsEnded : Outcome V4 V6 R F → Type 0
  IsEnded (no_end r) = ⊥
  IsEnded _ = Unit

  ended-no_end : {o : Outcome V4 V6 R F} (r : R) → IsEnded o → o ≢ no_end r
  ended-no_end r h e = subst IsEnded e h

  if-IsEnded :
      (b : Bool) (o o' : Outcome V4 V6 R F) → IsEnded o → IsEnded o' → IsEnded (if b then o else o')
  if-IsEnded true o o' h h' = h
  if-IsEnded false o o' h h' = h'

module _ {V4 V6 R F : Type 0} (env : Environment V4 V6 F) (reg : TableRegistry V4 V6 R F)
    (cfg : Config) where
  finish_with-IsEnded :
      (m : Builder V4 V6 R) (first : Option ℕ) → IsEnded (finish_with env reg cfg m first)
  unfolding finish_with
  finish_with-IsEnded m none = tt
  finish_with-IsEnded m (some first) =
      if-IsEnded (is_error env reg cfg cfg.unresolved_jumps) _ _ tt tt

  finish-IsEnded : (m : Builder V4 V6 R) → IsEnded (finish env reg cfg m)
  unfolding finish
  finish-IsEnded m = finish_with-IsEnded (link_numbers m) (unresolved (link_numbers m))

  resume-IsEnded :
      (m : Builder V4 V6 R) (rec : Record) (x : Result F (Builder V4 V6 R))
      (k : Builder V4 V6 R → Outcome V4 V6 R F)
      → ((m' : Builder V4 V6 R) → IsEnded (k m'))
      → IsEnded (resume env reg cfg m rec x k)
  resume-IsEnded m rec (ok m') k h = h m'
  resume-IsEnded m rec (err e) k h = tt

  resume_table-IsEnded :
      (rec : Record) (x : Builder V4 V6 R × Option (Cause F))
      (k : Builder V4 V6 R → Outcome V4 V6 R F)
      → ((m' : Builder V4 V6 R) → IsEnded (k m'))
      → IsEnded (resume_table env reg cfg rec x k)
  resume_table-IsEnded rec (m', none) k h = h m'
  resume_table-IsEnded rec (m', some e) k h = tt

  on_record-IsEnded :
      (m : Builder V4 V6 R) (rec : Record) (kind : RecordKind)
      (k : Builder V4 V6 R → Outcome V4 V6 R F)
      → ((m' : Builder V4 V6 R) → IsEnded (k m'))
      → IsEnded (on_record env reg cfg m rec kind k)
  unfolding on_record
  on_record-IsEnded m rec RecordKind.eof k h = finish-IsEnded (drop_record m)
  on_record-IsEnded m rec RecordKind.empty k h = h (drop_record m)
  on_record-IsEnded m rec RecordKind.comment k h = h (drop_record m)
  on_record-IsEnded m rec RecordKind.instruction k h = resume-IsEnded m rec (add m rec) k h
  on_record-IsEnded m rec RecordKind.label k h = h _
  on_record-IsEnded m rec RecordKind.table k h =
      resume_table-IsEnded rec (table_command env reg (drop_record m) rec.table) k h

  module _ (vals : ErrorValues F) (g : Grammar F) where
    on_step-IsEnded :
        (loop : Parser → Builder V4 V6 R → Outcome V4 V6 R F) (n : ℕ) (text : Bytes)
        (x : Builder V4 V6 R × Step F × Parser)
        → Reports n text x.1
        → ((m : Builder V4 V6 R) → IsEnded (loop x.2 m))
        → IsEnded (on_step env reg cfg vals g loop x)
    on_step-IsEnded loop n text (m, read rec, p) h rest =
        on_record-IsEnded m rec rec.kind (loop p) rest
    on_step-IsEnded loop n text (m, unread e, p) h rest = tt
    on_step-IsEnded loop n text (m, no_step, p) h rest = absurd h

    round-IsEnded :
        (f : ℕ) (s : Bytes) (n : ℕ) (m : Builder V4 V6 R)
        → length s < suc f
        → ((p : Parser) (m' : Builder V4 V6 R)
            → length p.rest < f
            → IsEnded (build_loop env reg cfg vals g f p m'))
        → IsEnded (build_loop env reg cfg vals g (suc f) (record { rest = s; line = n }) m)
    unfolding build_loop next
    round-IsEnded f [] n m fuel rest = finish-IsEnded (drop_record m)
    round-IsEnded f (c ∷ s) n m fuel rest =
        let p : Parser = record { rest = c ∷ s; line = n } in
        let x = next g none (resolving env reg cfg vals g) p m in
        let (line, left, shorter, reports) =
          next-Reports g none (resolving env reg cfg vals g) p m (cons-ne-nil c s) in
        on_step-IsEnded (λ p' m'. build_loop env reg cfg vals g f p' m') (n + 1) _ x reports
          λ m'. rest x.2 m' (omega (arith, shorter, fuel))

    build_loop-IsEnded :
        (f : ℕ) (s : Bytes) (n : ℕ) (m : Builder V4 V6 R)
        → length s < f
        → IsEnded (build_loop env reg cfg vals g f (record { rest = s; line = n }) m)
    build_loop-IsEnded zero s n m fuel = absurd (omega arith)
    build_loop-IsEnded (suc f) s n m fuel =
        round-IsEnded f s n m fuel (λ p m'. build_loop-IsEnded f p.rest p.line m')

    -- `Build` of a text, by a parser without a command hook, ends within a round for each byte of the
    -- text and one more.
    pub build_text-ends :
        (f : ℕ) (tables : R) (p : Parser) (r : R)
        → length p.rest < f
        → build_text env reg cfg vals g f tables p ≢ no_end r
    unfolding build_text
    build_text-ends f tables p r fuel = ended-no_end r (
        if-IsEnded (validate cfg) _ _
          (build_loop-IsEnded f p.rest p.line
            (new_builder tables (is_some env reg cfg cfg.option_matcher)) fuel)
          tt)

    -- A machine of fewer than 2^32 rules that `Build` makes of a text, by a parser without a command
    -- hook, ends its check of every packet, on fuel for each rule once and one round more, and decides
    -- what the rules mean.
    pub build_text-check_trace :
        (n4 : Network V4) (n6 : Network V6) (f : ℕ) (tables : R) (p : Parser) (vm : Machine V4 V6 R)
        (ctx : Context) (pkt : Packet)
        → build_text env reg cfg vals g f tables p ≡ built vm
        → length vm.program.rules < 2 ^ 32
        → (v : Verdict) × (check_trace n4 n6 reg vm ctx pkt ≡ some v)
          × Decides n4 n6 reg vm ctx pkt 0 v
    build_text-check_trace n4 n6 f tables p vm ctx pkt e h =
        let (lines, e') = build_text-build env reg cfg vals g f tables p vm e in
        build-check_trace env reg cfg n4 n6 tables lines vm ctx pkt e' h
