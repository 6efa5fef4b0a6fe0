-- ===== src/Vm/Build.antt =====
-- vm/vm.go: `builder`, which assembles the program, and `Build`, the loop over the ruleset.
-- A failed build drops its builder, so an error carries no builder; a table update may have
-- reached the registry before it failed, so `Table` returns the builder beside its error.
pub mod Tokens
pub mod Tables
pub mod Run
pub mod Links
pub mod Sound
pub mod Linking
pub mod Targets
pub mod Labels
pub mod Waiting
pub mod Runs
use ipfw_go.Prelude.{
  ℕ, zero, suc, ◌+◌, ◌-◌, ◌%◌, ◌^◌, max, Bool, true, false, not, ◌&&◌, ◌||◌, List, [], ◌∷◌, ◌++◌,
  Option, none, some, Bytes, ◌==◌, ltb, leb, if◌then◌else◌, length, get_elem?, get_or,
}
use ipfw_go.Prelude.Maps.{lookup, insert, erase}
use ipfw_go.Errors.{Result, ok, err, ◌>>=◌, rule_number_order, unsupported_action}
use ipfw_go.Rule.{Action, ActionKind, SkipTo, SkipToKind, Record, TableType}
use ipfw_go.Vm.Program.{
  Program, Rule, to_u32, append_rule, index_at, link_rule, mark, drop_open, close, drop_comments,
}

-- `R` is the state of the table registry.
pub record Builder (V4 V6 R : Type 0) : Type 0 where
  pub program : Program V4 V6
  pub start : Rule
  pub tables : R
  pub table_types : List (Bytes × TableType)
  pub custom : Bool
  pub number : ℕ
  pub labels : List (Bytes × ℕ)
  pub number_jumps : List ℕ
  pub unresolved_numbers : List ℕ
  pub pending_labels : List (Bytes × List ℕ)

abbrev pub or_none : Option (List ℕ) → List ℕ
or_none none = []
or_none (some idxs) = idxs

-- `lowest`: the smallest of `first`, if there is one, and the indexes.
pub lowest : Option ℕ → List ℕ → Option ℕ
lowest first [] = first
lowest none (idx ∷ idxs) = lowest (some idx) idxs
lowest (some first) (idx ∷ idxs) = lowest (some (if ltb idx first then idx else first)) idxs

pub lowest_pending : Option ℕ → List (Bytes × List ℕ) → Option ℕ
lowest_pending first [] = first
lowest_pending first ((_, idxs) ∷ pending) = lowest_pending (lowest first idxs) pending

-- The rule number of the instruction; `none` when it goes backwards.
pub next_number : ℕ → ℕ → Option ℕ
next_number num running =
    if num == 0 then some running else if ltb num running then none else some num

abbrev number_of : Option Action → ℕ
number_of none = 0
number_of (some a) = a.skip_to.number

module _ {V4 V6 : Type 0} where
  abbrev empty_program : Program V4 V6
  empty_program = record {
    rules = [];
    numbers = [];
    records = [];
    actions = [];
    ip_protos = [];
    protos = [];
    sources = [];
    destinations = [];
    source_ports = [];
    destination_ports = [];
    options = [];
  }

  -- Whether the numbering went past the largest rule number.
  pub has_wrapped : Program V4 V6 → ℕ → Bool
  has_wrapped p number =
      let idx = length p.rules in not (idx == 0) && leb number (get_or p.numbers (idx - 1) 0)

  -- `link` points the jumps at the indexes to the next rule.
  pub link_all : Program V4 V6 → List ℕ → ℕ → Program V4 V6
  link_all p [] target = p
  link_all p (idx ∷ idxs) target = link_all (link_rule p idx target) idxs target

  -- The target of a skipto to a number: past the rule's own number at least.
  abbrev pub jump_target : Program V4 V6 → ℕ → ℕ
  jump_target p idx = max (number_of (get_elem? p.actions idx)) (get_or p.numbers idx 0 + 1)

  -- The loop of `LinkNumbers`.
  pub link_numbers_from : Program V4 V6 → List ℕ → List ℕ → Program V4 V6 × List ℕ
  unfolding index_at link_rule
  link_numbers_from p [] unresolved = (p, unresolved)
  link_numbers_from p (idx ∷ idxs) unresolved =
      let at = index_at p (jump_target p idx) in
      let found = ltb at (length p.rules) in
      link_numbers_from (if found then link_rule p idx at else p) idxs
        (if found then unresolved else unresolved ++ idx ∷ [])

module _ {V4 V6 R : Type 0} where
  -- `newBuilder`: the zero value of `start` is the mark of the empty program.
  abbrev pub new_builder : R → Bool → Builder V4 V6 R
  new_builder tables custom = record {
    program = empty_program;
    start = mark {V4 = V4} {V6 = V6} empty_program;
    tables = tables;
    table_types = [];
    custom = custom;
    number = 1;
    labels = [];
    number_jumps = [];
    unresolved_numbers = [];
    pending_labels = [];
  }

  abbrev pub len : Builder V4 V6 R → ℕ
  len m = length m.program.rules

  -- `Drop` abandons the tokens of the current record.
  unfoldable pub drop_record : Builder V4 V6 R → Builder V4 V6 R
  unfolding drop_open
  drop_record m = record m { program = drop_open m.program m.start }

  -- The inner switch of `Add`: where a skipto waits for its target.
  pub add_skip_to :
      {F : Type 0}
      → Builder V4 V6 R
      → Rule
      → ℕ
      → SkipTo
      → SkipToKind
      → Result F (Builder V4 V6 R × Rule)
  add_skip_to m closed idx target SkipToKind.number =
      ok (record m { number_jumps = m.number_jumps ++ idx ∷ [] }, closed)
  add_skip_to m closed idx target SkipToKind.label =
      let waiting = or_none (lookup target.label m.pending_labels) in
      ok (
        record m { pending_labels = insert target.label (waiting ++ idx ∷ []) m.pending_labels },
        closed,
      )
  add_skip_to m closed idx target SkipToKind.table_arg = ok (m, record closed { table_arg = true })
  add_skip_to m closed idx target SkipToKind.unset = err unsupported_action

  -- The outer switch of `Add`.
  pub add_action :
      {F : Type 0}
      → Builder V4 V6 R
      → Rule
      → ℕ
      → Action
      → ActionKind
      → Result F (Builder V4 V6 R × Rule)
  unfolding add_skip_to
  add_action m closed idx action ActionKind.skip_to =
      add_skip_to m (record closed { jump = to_u32 (idx + 1) }) idx action.skip_to
        action.skip_to.kind
  add_action m closed idx action ActionKind.unset = err unsupported_action
  add_action m closed idx action _ = ok (m, closed)

  abbrev finish_add : Record → Builder V4 V6 R × Rule → Builder V4 V6 R
  finish_add rec (m, closed) =
      let program = append_rule m.program closed m.number rec in
      record m { program = program; number = to_u32 (m.number + 1); start = mark program }

  abbrev add_numbered :
      {F : Type 0} → Builder V4 V6 R → Record → Option ℕ → Result F (Builder V4 V6 R)
  add_numbered m rec none = err rule_number_order
  add_numbered m rec (some number) =
      let program = drop_comments m.program m.start in
      let numbered = record m { number = number; program = program } in
      let closed = record (close program m.start) { kind = rec.instruction.action.kind } in
      if has_wrapped m.program number then err rule_number_order else (do
        added ←
            add_action numbered closed (len m) rec.instruction.action rec.instruction.action.kind
        ok (finish_add rec added))

  -- `Add` closes the rule of the instruction just read and starts the next one.
  unfoldable pub add : {F : Type 0} → Builder V4 V6 R → Record → Result F (Builder V4 V6 R)
  unfolding next_number has_wrapped add_action append_rule mark close drop_comments
  add m rec = add_numbered m rec (next_number rec.instruction.num m.number)

  -- `Label` records the label as standing for the next rule and links the jumps waiting for it.
  unfoldable pub add_label : Builder V4 V6 R → Bytes → Builder V4 V6 R
  unfolding link_all link_rule
  add_label m name = record m {
    labels = insert name (len m) m.labels;
    program = link_all m.program (or_none (lookup name m.pending_labels)) (len m);
    pending_labels = erase name m.pending_labels;
  }

  unfoldable pub link_numbers : Builder V4 V6 R → Builder V4 V6 R
  unfolding link_numbers_from
  link_numbers m =
      let (program, unresolved) = link_numbers_from m.program m.number_jumps m.unresolved_numbers in
      record m { program = program; unresolved_numbers = unresolved }

  -- `Unresolved`: the index of the first skipto still waiting, whose record the error shows.
  unfoldable pub unresolved : Builder V4 V6 R → Option ℕ
  unfolding lowest lowest_pending
  unresolved m = lowest_pending (lowest none m.unresolved_numbers) m.pending_labels
