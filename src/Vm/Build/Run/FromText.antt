-- ===== src/Vm/Build/Run/FromText.antt =====
-- A build over a text is the build over the lines that the parser reads from it.
use ipfw_go.Prelude.{
  ℕ, Bool, true, false, zero, suc, List, [], ◌∷◌, ◌++◌, Option, none, some, ◌≡◌, refl, sym, ap,
  subst, ◌∙◌, ◌⊎◌, inl, inr, if◌then◌else◌,
}
use ipfw_go.Errors.{Cause, Result, ok, err, ◌>>=◌}
use ipfw_go.Parse.Body.{Grammar}
use ipfw_go.Parse.Next.{Parser, Step, read, unread, no_step}
use ipfw_go.Parse.Outcome.{Fault, State}
use ipfw_go.Parse.Same.{Both, both, Alike}
use ipfw_go.Parse.Same.Lines.{BothSteps, both_steps, without, next-BothSteps}
use ipfw_go.Resolver.{Environment, Token, on_token}
use ipfw_go.Rule.{Record, RecordKind}
use ipfw_go.Vm.Build.Run.{
  Config, Line, Outcome, built, read_tokens, resume, resume_table, on_record, build_from, build,
  validate, is_some, invalid_config,
}
use ipfw_go.Vm.Build.Tables.{table_command}
use ipfw_go.Vm.Build.Run.Text.{
  ErrorValues, fault_of, on_answer, resolving, on_step, build_loop, build_text,
}
use ipfw_go.Vm.Build.Tokens.{on_call}
use ipfw_go.Vm.Build.{Builder, new_builder, drop_record, add}
use ipfw_go.Vm.Machine.{Machine}
use ipfw_go.Vm.Network.{TableRegistry}

bind-ok : {F A : Type 0} (x : Result F A) → (x >>= λ a. ok a) ≡ x
bind-ok (ok a) = refl
bind-ok (err e) = refl

bind_congr :
    {F A B : Type 0} (x : Result F A) {k l : A → Result F B}
    → ((a : A) → k a ≡ l a)
    → (x >>= k) ≡ (x >>= l)
bind_congr (ok a) h = h a
bind_congr (err e) h = refl

bind_assoc :
    {F A B C : Type 0} (x : Result F A) (k : A → Result F B) (l : B → Result F C)
    → (x >>= λ a. k a >>= l) ≡ ((x >>= k) >>= l)
bind_assoc (ok a) k l = refl
bind_assoc (err e) k l = refl

module _ {V4 V6 R F : Type 0} (env : Environment V4 V6 F) (reg : TableRegistry V4 V6 R F)
    (cfg : Config) where
  -- Whether a record ends the build, or with which builder it goes on.
  Onward : Builder V4 V6 R → Record → RecordKind → Type 0
  Onward m rec kind =
      ((k k' : Builder V4 V6 R → Outcome V4 V6 R F)
        → on_record env reg cfg m rec kind k ≡ on_record env reg cfg m rec kind k')
      ⊎ ((m' : Builder V4 V6 R) × ((k : Builder V4 V6 R → Outcome V4 V6 R F)
            → on_record env reg cfg m rec kind k ≡ k m'))

  on_record-Onward : (m : Builder V4 V6 R) (rec : Record) (kind : RecordKind) → Onward m rec kind
  unfolding Onward on_record
  on_record-Onward m rec RecordKind.eof = inl λ k k'. refl
  on_record-Onward m rec RecordKind.empty = inr (drop_record m, λ k. refl)
  on_record-Onward m rec RecordKind.comment = inr (drop_record m, λ k. refl)
  on_record-Onward m rec RecordKind.label = inr (_, λ k. refl)
  on_record-Onward m rec RecordKind.instruction = resumed (add m rec)
    where
      resumed :
          (x : Result F (Builder V4 V6 R))
          → ((k k' : Builder V4 V6 R → Outcome V4 V6 R F)
              → resume env reg cfg m rec x k ≡ resume env reg cfg m rec x k')
            ⊎ ((m' : Builder V4 V6 R) × ((k : Builder V4 V6 R → Outcome V4 V6 R F)
                  → resume env reg cfg m rec x k ≡ k m'))
      resumed (ok m') = inr (m', λ k. refl)
      resumed (err e) = inl λ k k'. refl
  on_record-Onward m rec RecordKind.table =
      resumed (table_command env reg (drop_record m) rec.table)
    where
      resumed :
          (x : Builder V4 V6 R × Option (Cause F))
          → ((k k' : Builder V4 V6 R → Outcome V4 V6 R F)
              → resume_table env reg cfg rec x k ≡ resume_table env reg cfg rec x k')
            ⊎ ((m' : Builder V4 V6 R) × ((k : Builder V4 V6 R → Outcome V4 V6 R F)
                  → resume_table env reg cfg rec x k ≡ k m'))
      resumed (m', none) = inr (m', λ k. refl)
      resumed (m', some e) = inl λ k k'. refl

  module _ (vals : ErrorValues F) (g : Grammar F) where
    -- The state that lists the tokens that the builder takes behind those that it has.
    abbrev logged : List Token → Token → Result F (Builder V4 V6 R) → List Token × Option (Fault F)
    logged ts t (ok _) = (ts ++ t ∷ [], none)
    logged ts t (err c) = (ts, some (fault_of vals c))

    abbrev logging : Builder V4 V6 R → State (List Token) F
    logging m t ts = logged ts t (read_tokens env reg cfg m (ts ++ t ∷ []))

    abbrev Read : Builder V4 V6 R → Builder V4 V6 R → List Token → Type 0
    Read m m' ts = read_tokens env reg cfg m ts ≡ ok m'

    read_tokens-concat :
        (m : Builder V4 V6 R) (ts : List Token) (t : Token)
        → read_tokens env reg cfg m (ts ++ t ∷ [])
          ≡ (read_tokens env reg cfg m ts >>= λ m'. on_token env on_call m' t)
    unfolding read_tokens
    read_tokens-concat m [] t = bind-ok (on_token env on_call m t)
    read_tokens-concat m (u ∷ ts) t =
        bind_congr (on_token env on_call m u) (λ m'. read_tokens-concat m' ts t)
        ∙ bind_assoc (on_token env on_call m u) (λ m'. read_tokens env reg cfg m' ts)
            (λ m'. on_token env on_call m' t)

    answered-Both :
        (m σ : Builder V4 V6 R) (ts : List Token) (t : Token) (x : Result F (Builder V4 V6 R))
        → Read m σ ts
        → read_tokens env reg cfg m (ts ++ t ∷ []) ≡ x
        → Both (Read m) (on_answer vals σ x) (logged ts t x)
    answered-Both m σ ts t (ok σ') h e = both e
    answered-Both m σ ts t (err c) h e = both h

    resolving-Alike :
        (m : Builder V4 V6 R) → Alike (Read m) (resolving env reg cfg vals g) (logging m)
    unfolding resolving
    resolving-Alike m t σ ts h =
        let e : read_tokens env reg cfg m (ts ++ t ∷ []) ≡ on_token env on_call σ t =
          read_tokens-concat m ts t ∙ ap (λ x. x >>= λ m'. on_token env on_call m' t) h in
        subst (λ x. Both (Read m) (on_answer vals σ (on_token env on_call σ t)) (logged ts t x))
          (sym e) (answered-Both m σ ts t (on_token env on_call σ t) h e)

    abbrev Lined : Builder V4 V6 R → Outcome V4 V6 R F → Type 0
    Lined m o =
        (vm : Machine V4 V6 R)
        → o ≡ built vm
        → (lines : List (Line F)) × (build_from env reg cfg m lines ≡ built vm)

    build_from-parsed :
        (m σ : Builder V4 V6 R) (ts : List Token) (rec : Record) (lines : List (Line F))
        → Read m σ ts
        → build_from env reg cfg m (Line.parsed ts rec ∷ lines)
          ≡ on_record env reg cfg σ rec rec.kind (λ m'. build_from env reg cfg m' lines)
    unfolding build_from
    build_from-parsed m σ ts rec lines h = rw (h, build_from) refl

    on_step-Lined :
        (m : Builder V4 V6 R) (loop : Parser → Builder V4 V6 R → Outcome V4 V6 R F)
        {x : Builder V4 V6 R × Step F × Parser} {y : List Token × Step F × Parser}
        → ((p : Parser) (m' : Builder V4 V6 R) → Lined m' (loop p m'))
        → BothSteps (Read m) x y
        → Lined m (on_step env reg cfg vals g loop x)
    unfolding Onward
    on_step-Lined m loop rest (both_steps {x = no_step} h) vm e = cc
    on_step-Lined m loop rest (both_steps {x = unread e'} h) vm e = cc
    on_step-Lined m loop rest (both_steps {σ} {τ = ts} {x = read rec} {m = p} h) vm e =
        elim (on_record-Onward σ rec rec.kind) [
          | inl stops ↦ (Line.parsed ts rec ∷ [], build_from-parsed m σ ts rec [] h ∙ stops _ _ ∙ e)
          | inr (m', goes) ↦
              let (lines, e') = rest p m' vm (sym (goes (loop p)) ∙ e) in
              (Line.parsed ts rec ∷ lines, build_from-parsed m σ ts rec lines h ∙ goes _ ∙ e')
        ]

    no_tokens : (m : Builder V4 V6 R) → Read m m []
    unfolding read_tokens
    no_tokens m = refl

    build_loop-Lined :
        (f : ℕ) (p : Parser) (m : Builder V4 V6 R) → Lined m (build_loop env reg cfg vals g f p m)
    unfolding build_loop
    build_loop-Lined zero p m vm e = cc
    build_loop-Lined (suc f) p m vm e =
        on_step-Lined m (λ p' m'. build_loop env reg cfg vals g f p' m') (build_loop-Lined f)
          (next-BothSteps (resolving-Alike m) without g p m [] (no_tokens m)) vm e

    abbrev if_valid : Bool → Outcome V4 V6 R F → Outcome V4 V6 R F
    if_valid valid o = if valid then o else invalid_config

    valid_lines :
        (valid : Bool) (o : Outcome V4 V6 R F) (from : List (Line F) → Outcome V4 V6 R F)
        (vm : Machine V4 V6 R)
        → (o ≡ built vm → (lines : List (Line F)) × (from lines ≡ built vm))
        → if_valid valid o ≡ built vm
        → (lines : List (Line F)) × (if_valid valid (from lines) ≡ built vm)
    valid_lines true o from vm h e = h e
    valid_lines false o from vm h e = cc

    -- The machine that `Build` makes of a text, by a parser without a command hook, is the one that the
    -- lines that the parser reads build.
    pub build_text-build :
        (f : ℕ) (tables : R) (p : Parser) (vm : Machine V4 V6 R)
        → build_text env reg cfg vals g f tables p ≡ built vm
        → (lines : List (Line F)) × (build env reg cfg tables lines ≡ built vm)
    unfolding build_text build
    build_text-build f tables p vm =
        let m = new_builder tables (is_some env reg cfg cfg.option_matcher) in
        valid_lines (validate cfg) (build_loop env reg cfg vals g f p m) (build_from env reg cfg m)
          vm (build_loop-Lined f p m vm)
