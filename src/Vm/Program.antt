-- ===== src/Vm/Program.antt =====
-- vm/vm.go: `program`, the rules of a VM over their token arenas, and `rule`, `span`.
-- `Comments`: `DropComments` and the list that it leaves.
pub mod Comments
pub mod Numbers
use ipfw_go.Prelude.{
  ℕ, zero, suc, ◌+◌, ◌-◌, ◌%◌, ◌^◌, Bool, false, true, not, ◌&&◌, ◌||◌, List, [], ◌∷◌, ◌++◌, Option,
  none, some, ◌==◌, ltb, if◌then◌else◌, length, get_elem?, set, take, drop,
}
use ipfw_go.Prelude.Search.{binary_search}
use ipfw_go.Rule.{
  Action, ActionKind, Record, ProtoIpMatch, ProtoNumberMatch, TargetMatch, PortNumberMatch, Opt,
  OptKind,
}

-- `uint32(n)`.
abbrev pub to_u32 : ℕ → ℕ
to_u32 n = n % 2 ^ 32

-- A run of an arena.
pub record Span : Type 0 where
  pub start : ℕ
  pub stop : ℕ

abbrev pub is_empty : Span → Bool
is_empty s = s.stop == s.start

pub record Rule : Type 0 where
  pub kind : ActionKind
  pub table_arg : Bool
  pub jump : ℕ
  pub ip_protos : Span
  pub protos : Span
  pub sources : Span
  pub destinations : Span
  pub source_ports : Span
  pub destination_ports : Span
  pub options : Span

pub record Program (V4 V6 : Type 0) : Type 0 where
  pub rules : List Rule
  pub numbers : List ℕ
  pub records : List Record
  pub actions : List Action
  pub ip_protos : List ProtoIpMatch
  pub protos : List ProtoNumberMatch
  pub sources : List (TargetMatch V4 V6)
  pub destinations : List (TargetMatch V4 V6)
  pub source_ports : List PortNumberMatch
  pub destination_ports : List PortNumberMatch
  pub options : List Opt

-- What `Mark`, `Close`, `Drop` and the accessors do with one arena.
module _ {A : Type 0} where
  abbrev pub mark_at : List A → Span
  mark_at xs = record { start = to_u32 (length xs); stop = to_u32 (length xs) }

  abbrev pub close_at : Span → List A → Span
  close_at s xs = record s { stop = to_u32 (length xs) }

  abbrev pub drop_at : Span → List A → List A
  drop_at s xs = take s.start xs

  -- `xs[at.Start:at.End]`. Go panics where the end is past the slice or before the start, which takes
  -- an arena of 2^32 tokens.
  abbrev pub run_of : List A → Span → List A
  run_of xs s = take (s.stop - s.start) (drop s.start xs)

abbrev pub with_jump : ℕ → Option Rule → List Rule → ℕ → List Rule
with_jump target none rules idx = rules
with_jump target (some r) rules idx = set rules idx (record r { jump = to_u32 target })

module _ {V4 V6 : Type 0} where
  -- `Append`: a closed rule with its number and its record.
  unfoldable pub append_rule : Program V4 V6 → Rule → ℕ → Record → Program V4 V6
  append_rule m closed number rec = record m {
    rules = m.rules ++ closed ∷ [];
    numbers = m.numbers ++ number ∷ [];
    records = m.records ++ rec ∷ [];
    actions = m.actions ++ rec.instruction.action ∷ [];
  }

  -- `At`: the index of the first rule numbered at or after `number`.
  unfoldable pub index_at : Program V4 V6 → ℕ → ℕ
  unfolding binary_search
  index_at m number = binary_search (λ have. ltb have number) m.numbers

  -- `Link`: points the jump of the rule at the target.
  unfoldable pub link_rule : Program V4 V6 → ℕ → ℕ → Program V4 V6
  link_rule m idx target = record m { rules = with_jump target (get_elem? m.rules idx) m.rules idx }

  -- `Mark`: a rule whose runs start, empty, where the arenas end.
  unfoldable pub mark : Program V4 V6 → Rule
  mark m = record {
    kind = ActionKind.unset;
    table_arg = false;
    jump = 0;
    ip_protos = mark_at m.ip_protos;
    protos = mark_at m.protos;
    sources = mark_at m.sources;
    destinations = mark_at m.destinations;
    source_ports = mark_at m.source_ports;
    destination_ports = mark_at m.destination_ports;
    options = mark_at m.options;
  }

  -- `Drop`: discards the tokens of the rule that is open.
  unfoldable pub drop_open : Program V4 V6 → Rule → Program V4 V6
  drop_open m open_rule = record m {
    ip_protos = drop_at open_rule.ip_protos m.ip_protos;
    protos = drop_at open_rule.protos m.protos;
    sources = drop_at open_rule.sources m.sources;
    destinations = drop_at open_rule.destinations m.destinations;
    source_ports = drop_at open_rule.source_ports m.source_ports;
    destination_ports = drop_at open_rule.destination_ports m.destination_ports;
    options = drop_at open_rule.options m.options;
  }

  -- `Close`: ends every run where the arenas end now.
  unfoldable pub close : Program V4 V6 → Rule → Rule
  close m open_rule = record open_rule {
    ip_protos = close_at open_rule.ip_protos m.ip_protos;
    protos = close_at open_rule.protos m.protos;
    sources = close_at open_rule.sources m.sources;
    destinations = close_at open_rule.destinations m.destinations;
    source_ports = close_at open_rule.source_ports m.source_ports;
    destination_ports = close_at open_rule.destination_ports m.destination_ports;
    options = close_at open_rule.options m.options;
  }

  -- The callbacks of `ipfw.VMState`: each appends to its arena.
  unfoldable pub on_ip_proto : Program V4 V6 → ProtoIpMatch → Program V4 V6
  on_ip_proto m x = record m { ip_protos = m.ip_protos ++ x ∷ [] }

  unfoldable pub on_proto : Program V4 V6 → ProtoNumberMatch → Program V4 V6
  on_proto m x = record m { protos = m.protos ++ x ∷ [] }

  unfoldable pub on_source_target : Program V4 V6 → TargetMatch V4 V6 → Program V4 V6
  on_source_target m x = record m { sources = m.sources ++ x ∷ [] }

  unfoldable pub on_destination_target : Program V4 V6 → TargetMatch V4 V6 → Program V4 V6
  on_destination_target m x = record m { destinations = m.destinations ++ x ∷ [] }

  unfoldable pub on_source_port : Program V4 V6 → PortNumberMatch → Program V4 V6
  on_source_port m x = record m { source_ports = m.source_ports ++ x ∷ [] }

  unfoldable pub on_destination_port : Program V4 V6 → PortNumberMatch → Program V4 V6
  on_destination_port m x = record m { destination_ports = m.destination_ports ++ x ∷ [] }

  unfoldable pub on_option : Program V4 V6 → Opt → Program V4 V6
  on_option m x = record m { options = m.options ++ x ∷ [] }

-- The loop of `DropComments`, which moves the options that it keeps to the front of the run:
-- `n` rounds are left, `idx` is the option looked at and `kept` the number kept so far.
abbrev block_differs : Opt → Option Opt → Bool
block_differs o none = true
block_differs o (some p) = not (p.block == o.block)

abbrev pub before : List Opt → ℕ → Option Opt
before os zero = none
before os (suc idx) = get_elem? os idx

unfoldable pub is_comment : OptKind → Bool
is_comment OptKind.comment = true
is_comment _ = false

-- A comment that is not negated and alone in its or-block.
abbrev pub is_idle : Option Opt → Opt → Option Opt → Bool
is_idle prev o next =
    is_comment o.kind && not o.neg && (block_differs o prev && block_differs o next)

abbrev compact_step : Option Opt → List Opt → ℕ → ℕ → List Opt × ℕ
compact_step none os idx kept = (os, kept)
compact_step (some o) os idx kept =
    if is_idle (before os idx) o (get_elem? os (idx + 1))
    then (os, kept)
    else (set os kept o, kept + 1)

pub compact : ℕ → ℕ → ℕ → List Opt → List Opt × ℕ
compact zero idx kept os = (os, kept)
compact (suc n) idx kept os =
    let (os', kept') = compact_step (get_elem? os idx) os idx kept in compact n (idx + 1) kept' os'

unfoldable pub compacted : List Opt → List Opt
unfolding compact is_comment
compacted os = let (os', kept) = compact (length os) 0 0 os in take kept os'

unfoldable pub drop_comments : {V4 V6 : Type 0} → Program V4 V6 → Rule → Program V4 V6
unfolding compacted
drop_comments m open_rule = record m {
  options =
      take open_rule.options.start m.options ++ compacted (drop open_rule.options.start m.options);
}
