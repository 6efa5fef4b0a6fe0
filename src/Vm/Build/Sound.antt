-- ===== src/Vm/Build/Sound.antt =====
-- What every operation of the builder keeps of the program under construction.
use ipfw_go.Errors.{ok}
use ipfw_go.Prelude.Maps.{lookup, erase, insert-All, erase-All}
use ipfw_go.Prelude.{
  ℕ, ◌+◌, ◌-◌, ◌^◌, ◌<◌, Bool, false, not, ◌&&◌, List, [], ◌∷◌, ◌++◌, Option, none, some, Bytes,
  ◌==◌, leb, length, get_or, ◌≡◌, refl, sym, ap, ◌∙◌, subst, arith, Bool-cases, inl, inr,
  length-append,
}
use ipfw_go.Resolver.Keeps.{Keeps, bind-Keeps}
use ipfw_go.Rule.{Action, ActionKind, SkipTo, SkipToKind, Record}
use ipfw_go.Vm.Build.Links.{
  Within, WithinAll, Within-le, Within-append, WithinAll-le, lookup-Within, append-IsForward,
  with_jump-IsForward, length-with_jump,
}
use ipfw_go.Vm.Build.{
  Builder, or_none, next_number, has_wrapped, link_all, add_skip_to, add_action, finish_add,
  add_numbered, add, add_label, drop_record, new_builder, len,
}
use ipfw_go.Vm.Check.Total.{IsForward}
use ipfw_go.Vm.Program.Numbers.{IsAscending, append-IsAscending}
use ipfw_go.Vm.Program.{Program, Rule, to_u32, link_rule, append_rule, close, drop_comments}

-- The numbers of the rules ascend, every rule has its number, record and action, the waiting jumps
-- are of rules that are there, and the jumps go forward while indexes fit into 32 bits.
pub record IsSound (rules : List Rule) (numbers : List ℕ) (records : List Record)
    (actions : List Action) (jumps : List ℕ) (pending : List (Bytes × List ℕ)) : Type 0 where
  pub numbers_length : length numbers ≡ length rules
  pub records_length : length records ≡ length rules
  pub actions_length : length actions ≡ length rules
  pub ascending : IsAscending numbers
  pub jumps_within : Within (length rules) jumps
  pub pending_within : WithinAll (length rules) pending
  pub forward : length rules < 2 ^ 32 → IsForward rules

module _ {V4 V6 : Type 0} where
  -- `link` to an index that fits, past the rules at the indexes.
  pub link_all-IsForward :
      (p : Program V4 V6) (idxs : List ℕ) (target : ℕ)
      → Within target idxs
      → target < 2 ^ 32
      → IsForward p.rules
      → IsForward (link_all p idxs target).rules
  unfolding link_all link_rule
  link_all-IsForward p [] target w h fwd = fwd
  link_all-IsForward p (idx ∷ idxs) target (lt, w) h fwd =
      link_all-IsForward (link_rule p idx target) idxs target w h
        (with_jump-IsForward p.rules idx target fwd (omega arith))

  -- Everything but the jumps is what it was.
  pub link_all-same :
      (p : Program V4 V6) (idxs : List ℕ) (target : ℕ)
      → let q = link_all p idxs target in
        (length q.rules ≡ length p.rules)
        × (q.numbers ≡ p.numbers)
        × (q.records ≡ p.records)
        × (q.actions ≡ p.actions)
  unfolding link_all link_rule
  link_all-same p [] target = (refl, refl, refl, refl)
  link_all-same p (idx ∷ idxs) target =
      let (a, b, c, d) = link_all-same (link_rule p idx target) idxs target in
      (a ∙ length-with_jump p.rules idx target, b, c, d)

  -- The number of a rule that does not go back past the last one.
  has_wrapped→past :
      (p : Program V4 V6) (number : ℕ)
      → length p.numbers ≡ length p.rules
      → has_wrapped p number ≡ false
      → (i : ℕ) → i + 1 ≡ length p.numbers
      → get_or p.numbers i 0 < number
  unfolding has_wrapped
  has_wrapped→past p number e h i last =
      let at : length p.rules - 1 ≡ i = omega arith in
      let h' : (not (length p.rules == 0) && leb number (get_or p.numbers i 0)) ≡ false =
        subst (λ j. (not (length p.rules == 0) && leb number (get_or p.numbers j 0)) ≡ false) at
          h in
      ground arith

module _ {V4 V6 R : Type 0} where
  abbrev pub IsWellFormed : Builder V4 V6 R → Type 0
  IsWellFormed b =
      IsSound b.program.rules b.program.numbers b.program.records b.program.actions b.number_jumps
        b.pending_labels

module _ (V4 V6 : Type 0) {R : Type 0} where
  pub new_builder-IsWellFormed :
      (tables : R) (custom : Bool) → IsWellFormed (new_builder {V4 = V4} {V6 = V6} tables custom)
  new_builder-IsWellFormed tables custom = record {
    numbers_length = refl;
    records_length = refl;
    actions_length = refl;
    ascending = λ a b h w. elim w [ ];
    jumps_within = tt;
    pending_within = tt;
    forward = λ h idx r at k. ground arith;
  }

module _ {V4 V6 R : Type 0} where
  pub drop_record-IsWellFormed :
      (b : Builder V4 V6 R) → IsWellFormed b → IsWellFormed (drop_record b)
  unfolding drop_record
  drop_record-IsWellFormed b w = w

  pub add_label-IsWellFormed :
      (b : Builder V4 V6 R) (name : Bytes) → IsWellFormed b → IsWellFormed (add_label b name)
  unfolding add_label
  add_label-IsWellFormed b name w =
      let waiting = or_none (lookup name b.pending_labels) in
      let (rules, numbers, records, actions) = link_all-same b.program waiting (len b) in
      record {
        numbers_length = ap length numbers ∙ w.numbers_length ∙ sym rules;
        records_length = ap length records ∙ w.records_length ∙ sym rules;
        actions_length = ap length actions ∙ w.actions_length ∙ sym rules;
        ascending = subst IsAscending (sym numbers) w.ascending;
        jumps_within = subst (λ n. Within n b.number_jumps) (sym rules) w.jumps_within;
        pending_within =
            subst (λ n. WithinAll n (erase name b.pending_labels)) (sym rules)
              (erase-All (Within (len b)) name b.pending_labels w.pending_within);
        forward = λ h.
            link_all-IsForward b.program waiting (len b)
              (lookup-Within (len b) name b.pending_labels w.pending_within) (omega arith)
              (w.forward (omega arith));
      }

  -- What the switch on the action leaves: the rule under construction, at `idx`, goes forward if it
  -- is a skipto, and it may wait for a number or for a label.
  abbrev Added : ℕ → Program V4 V6 → ℕ → Builder V4 V6 R × Rule → Type 0
  Added idx p number (m, closed) =
      (m.program ≡ p)
      × (m.number ≡ number)
      × Within (idx + 1) m.number_jumps
      × WithinAll (idx + 1) m.pending_labels
      × (closed.kind ≡ ActionKind.skip_to → idx + 1 < 2 ^ 32 → idx < closed.jump)

  add_skip_to-Added :
      (F : Type 0) (m : Builder V4 V6 R) (closed : Rule) (idx : ℕ) (target : SkipTo)
      (k : SkipToKind)
      → Within (idx + 1) m.number_jumps
      → WithinAll (idx + 1) m.pending_labels
      → (idx + 1 < 2 ^ 32 → idx < closed.jump)
      → Keeps (Added idx m.program m.number) (add_skip_to {F = F} m closed idx target k)
  unfolding add_skip_to
  add_skip_to-Added F m closed idx target SkipToKind.number w p f =
      (refl, refl, Within-append (idx + 1) idx m.number_jumps (omega arith) w, p, λ k. f)
  add_skip_to-Added F m closed idx target SkipToKind.label w p f = (
    refl,
    refl,
    w,
    insert-All (Within (idx + 1)) target.label _ m.pending_labels
        (Within-append (idx + 1) idx _ (omega arith)
          (lookup-Within (idx + 1) target.label m.pending_labels p))
        p,
    λ k. f,
  )
  add_skip_to-Added F m closed idx target SkipToKind.table_arg w p f = (refl, refl, w, p, λ k. f)
  add_skip_to-Added F m closed idx target SkipToKind.unset w p f = tt

  add_action-Added :
      (F : Type 0) (m : Builder V4 V6 R) (closed : Rule) (idx : ℕ) (action : Action)
      (k : ActionKind)
      → closed.kind ≡ k
      → Within (idx + 1) m.number_jumps
      → WithinAll (idx + 1) m.pending_labels
      → Keeps (Added idx m.program m.number) (add_action {F = F} m closed idx action k)
  unfolding add_action
  add_action-Added F m closed idx action ActionKind.skip_to e w p =
      add_skip_to-Added F m (record closed { jump = to_u32 (idx + 1) }) idx action.skip_to
        action.skip_to.kind w p (λ h. omega arith)
  add_action-Added F m closed idx action ActionKind.unset e w p = tt
  add_action-Added F m closed idx action ActionKind.pass e w p =
      (refl, refl, w, p, λ k. absurd (ground (arith, e, k)))
  add_action-Added F m closed idx action ActionKind.deny e w p =
      (refl, refl, w, p, λ k. absurd (ground (arith, e, k)))
  add_action-Added F m closed idx action ActionKind.count e w p =
      (refl, refl, w, p, λ k. absurd (ground (arith, e, k)))
  add_action-Added F m closed idx action ActionKind.check_state e w p =
      (refl, refl, w, p, λ k. absurd (ground (arith, e, k)))
  add_action-Added F m closed idx action ActionKind.reset e w p =
      (refl, refl, w, p, λ k. absurd (ground (arith, e, k)))

  finish_add-IsWellFormed :
      (b : Builder V4 V6 R) (rec : Record) (m : Builder V4 V6 R) (closed : Rule) (number : ℕ)
      → IsWellFormed b
      → m.program.rules ≡ b.program.rules
      → m.program.numbers ≡ b.program.numbers
      → m.program.records ≡ b.program.records
      → m.program.actions ≡ b.program.actions
      → m.number ≡ number
      → has_wrapped b.program number ≡ false
      → Within (len b + 1) m.number_jumps
      → WithinAll (len b + 1) m.pending_labels
      → (closed.kind ≡ ActionKind.skip_to → len b + 1 < 2 ^ 32 → len b < closed.jump)
      → IsWellFormed (finish_add rec (m, closed))
  unfolding append_rule
  finish_add-IsWellFormed b rec m closed number w rules numbers records actions num wrapped j p f =
      let grown : length (b.program.rules ++ closed ∷ []) ≡ len b + 1 =
        length-append b.program.rules (closed ∷ []) in
      rw (rules, numbers, records, actions, num)
        (record {
          numbers_length =
              omega (arith, w.numbers_length, length-append b.program.numbers (number ∷ []), grown);
          records_length =
              omega (arith, w.records_length, length-append b.program.records (rec ∷ []), grown);
          actions_length = omega (
            arith,
            w.actions_length,
            length-append b.program.actions (rec.instruction.action ∷ []),
            grown,
          );
          ascending =
              append-IsAscending b.program.numbers number w.ascending
                (has_wrapped→past b.program number w.numbers_length wrapped);
          jumps_within = subst (λ n. Within n m.number_jumps) (sym grown) j;
          pending_within = subst (λ n. WithinAll n m.pending_labels) (sym grown) p;
          forward = λ h.
              append-IsForward b.program.rules closed (w.forward (omega arith))
                (λ k. f k (omega arith));
        })

  add_numbered-IsWellFormed :
      (F : Type 0) (b : Builder V4 V6 R) (rec : Record) (number : Option ℕ)
      → IsWellFormed b
      → Keeps IsWellFormed (add_numbered {F = F} b rec number)
  unfolding drop_comments close has_wrapped
  add_numbered-IsWellFormed F b rec none w = tt
  add_numbered-IsWellFormed F b rec (some number) w =
      let program = drop_comments b.program b.start in
      let numbered = record b { number = number; program = program } in
      let kind = rec.instruction.action.kind in
      let closed = record (close program b.start) { kind = kind } in
      elim (Bool-cases (has_wrapped program number)) [
        | inl wrapped ↦ rw wrapped tt
        | inr fresh ↦ rw fresh (
            bind-Keeps IsWellFormed (Added (len b) program number)
              (add_action {F = F} numbered closed (len b) rec.instruction.action kind)
              (λ added. ok (finish_add rec added))
              (add_action-Added F numbered closed (len b) rec.instruction.action kind refl
                (Within-le (len b) (len b + 1) b.number_jumps (omega arith) w.jumps_within)
                (WithinAll-le (len b) (len b + 1) b.pending_labels (omega arith) w.pending_within))
              (λ (m, closed') (same, num, j, p, f).
                finish_add-IsWellFormed b rec m closed' number w (ap (λ q. q.rules) same)
                  (ap (λ q. q.numbers) same) (ap (λ q. q.records) same) (ap (λ q. q.actions) same)
                  num fresh j p f))
      ]

  -- `Add`, where it does not fail.
  pub add-IsWellFormed :
      (F : Type 0) (b : Builder V4 V6 R) (rec : Record)
      → IsWellFormed b
      → Keeps IsWellFormed (add {F = F} b rec)
  unfolding add
  add-IsWellFormed F b rec w =
      add_numbered-IsWellFormed F b rec (next_number rec.instruction.num b.number) w
