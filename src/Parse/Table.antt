-- ===== src/Parse/Table.antt =====
-- parser.go: the `table NAME create|add` commands.
use ipfw_go.Prelude.Int.{ℤ}
use ipfw_go.Prelude.{
  ℕ, zero, suc, ◌+◌, List, [], ◌∷◌, Option, none, some, Bytes, codes, ◌==◌, if◌then◌else◌, length,
  take, drop,
}
use ipfw_go.Rule.{TableCommand, TableKind, TableType, TableKey, TableKeyKind}
use ipfw_go.Parse.Lex.{prefix, ws1, ws1_keyword, token, line_text}
use ipfw_go.Parse.Options.Lists.{clamp}
use ipfw_go.Parse.Outcome.{
  Outcome, done, failed, no_fuel, ErrorKind, Fault, fail_from, with_value, TableTypeHook,
}
use ipfw_go.Parse.Target.{is_network4_text, is_network6_text, is_hostname_text}

-- `tableTypeNames`, in the order tried, and `parseTableType`.
abbrev pub table_type_names : List (Bytes × TableType)
table_type_names =
    (codes "addr", TableType.addr)
    ∷ (codes "iface", TableType.iface)
    ∷ (codes "number", TableType.number)
    ∷ (codes "flow", TableType.flow)
    ∷ (codes "mac", TableType.mac)
    ∷ []

abbrev pub type_found :
    TableType → Option (TableType × Bytes) → Option Bytes → Option (TableType × Bytes)
type_found ty onward (some rest) = some (ty, rest)
type_found ty onward none = onward

unfoldable pub type_by_name : List (Bytes × TableType) → Bytes → Option (TableType × Bytes)
unfolding prefix
type_by_name [] s = none
type_by_name ((name, ty) ∷ names) s = type_found ty (type_by_name names s) (prefix s name)

unfoldable pub parse_table_type : Bytes → Option (TableType × Bytes)
unfolding type_by_name
parse_table_type s = type_by_name table_type_names s

abbrev pub key_of : TableKeyKind → Bytes → TableKey
key_of kind text = record { kind = kind; text = text }

-- The kind of a key by its shape.
unfoldable pub key_kind : Bytes → TableKeyKind
unfolding is_network6_text is_network4_text is_hostname_text
key_kind text =
    if is_network6_text text
    then TableKeyKind.network6
    else if is_network4_text text
    then TableKeyKind.network4
    else if is_hostname_text text
    then TableKeyKind.hostname
    else TableKeyKind.name

abbrev pub value_token : Bytes → Bytes × Bytes → Bytes × Bytes
value_token rest ([], _) = ([], rest)
value_token rest (c ∷ value, after) = (c ∷ value, after)

abbrev pub optional_value : Bytes → Option Bytes → Bytes × Bytes
optional_value rest none = ([], rest)
optional_value rest (some buf) = value_token rest (token buf)

abbrev pub typed : TableCommand → TableType → Bytes → TableCommand
typed t ty text = record t { type_of = ty; type_text = text }

abbrev pub named_table : Bytes → TableKind → TableCommand
named_table name kind = record {
  name = name;
  kind = kind;
  type_of = TableType.unset;
  type_text = [];
  key = key_of TableKeyKind.unset [];
  value = [];
}

module _ {F : Type 0} where
  abbrev pub key_token : Bytes → Bytes × Bytes → Outcome F TableKey
  key_token s ([], rest) = failed ErrorKind.expected_table_key s none
  key_token s (c ∷ text, rest) = done (key_of (key_kind (c ∷ text)) (c ∷ text)) rest

  unfoldable pub parse_table_key : Bytes → Outcome F TableKey
  unfolding token key_kind
  parse_table_key s = key_token s (token s)

  abbrev pub keyed : TableCommand → Outcome F TableKey → Outcome F TableCommand
  keyed t (done key rest) =
      let (value, after) = optional_value rest (ws1 rest) in
      done (record t { key = key; value = value }) after
  keyed t (failed e at cause) = failed e at cause
  keyed t no_fuel = no_fuel

  abbrev pub key_behind : TableCommand → Bytes → Option Bytes → Outcome F TableCommand
  key_behind t s none = failed ErrorKind.expected_whitespace s none
  key_behind t s (some rest) = keyed t (parse_table_key rest)

  -- `parseTableAdd`
  unfoldable pub parse_table_add : TableCommand → Bytes → Outcome F TableCommand
  unfolding ws1 parse_table_key token
  parse_table_add t s = key_behind t s (ws1 s)

  abbrev pub hook_answer : TableCommand → Bytes → ℤ × Option (Fault F) → Outcome F TableCommand
  hook_answer t s (n, some e) = with_value t (fail_from (some e) (drop (clamp n (line_text s)) s) s)
  hook_answer t s (n, none) =
      if clamp n (line_text s) == 0
      then failed ErrorKind.expected_table_type s none
      else done (typed t TableType.custom (take (clamp n (line_text s)) s))
          (drop (clamp n (line_text s)) s)

  abbrev pub hook_type : TableTypeHook F → TableCommand → Bytes → Outcome F TableCommand
  hook_type none t s = failed ErrorKind.expected_table_type s none
  hook_type (some hook) t s = hook_answer t s (hook (line_text s))

  abbrev pub create_type :
      TableTypeHook F → TableCommand → Bytes → Option (TableType × Bytes) → Outcome F TableCommand
  create_type hook t s none = hook_type hook t s
  create_type hook t s (some (ty, rest)) = done (typed t ty []) rest

  -- `parseCreateType`
  unfoldable pub parse_create_type : TableTypeHook F → TableCommand → Bytes → Outcome F TableCommand
  unfolding parse_table_type line_text clamp
  parse_create_type hook t s = create_type hook t s (parse_table_type s)

  abbrev pub type_behind :
      (TableCommand → Bytes → Outcome F TableCommand)
      → Outcome F TableCommand
      → Outcome F TableCommand
  type_behind loop (done t rest) = loop t rest
  type_behind loop (failed e at cause) = failed e at cause
  type_behind loop no_fuel = no_fuel

  abbrev pub type_space :
      (TableCommand → Bytes → Outcome F TableCommand)
      → TableTypeHook F
      → TableCommand
      → Bytes
      → Option Bytes
      → Outcome F TableCommand
  type_space loop hook t buf none = failed ErrorKind.expected_whitespace buf none
  type_space loop hook t buf (some rest) = type_behind loop (parse_create_type hook t rest)

  abbrev pub type_keyword :
      (TableCommand → Bytes → Outcome F TableCommand)
      → TableTypeHook F
      → TableCommand
      → Bytes
      → Option Bytes
      → Outcome F TableCommand
  type_keyword loop hook t rest none = done t rest
  type_keyword loop hook t rest (some buf) = type_space loop hook t buf (ws1 buf)

  -- The loop of `parseTableCreate`, over the `type` options.
  unfoldable pub create_loop : ℕ → TableTypeHook F → TableCommand → Bytes → Outcome F TableCommand
  unfolding ws1_keyword ws1 parse_create_type
  create_loop zero hook t rest = no_fuel
  create_loop (suc f) hook t rest =
      type_keyword (λ t' r. create_loop f hook t' r) hook t rest (ws1_keyword rest (codes "type"))

  abbrev pub add_command : Bytes → Bytes → Option Bytes → Outcome F TableCommand
  add_command name rest none = failed ErrorKind.expected_table_command rest none
  add_command name rest (some behind) = parse_table_add (named_table name TableKind.add) behind

  abbrev pub create_command :
      TableTypeHook F → Bytes → Bytes → Option Bytes → Outcome F TableCommand
  create_command hook name rest none = add_command name rest (prefix rest (codes "add"))
  create_command hook name rest (some behind) =
      create_loop (length behind + 1) hook (named_table name TableKind.create) behind

  abbrev pub command_space : TableTypeHook F → Bytes → Bytes → Option Bytes → Outcome F TableCommand
  command_space hook name rest none = failed ErrorKind.expected_whitespace rest none
  command_space hook name rest (some behind) =
      create_command hook name behind (prefix behind (codes "create"))

  abbrev pub table_token : TableTypeHook F → Bytes → Bytes × Bytes → Outcome F TableCommand
  table_token hook s ([], rest) = failed ErrorKind.expected_token s none
  table_token hook s (c ∷ name, rest) = command_space hook (c ∷ name) rest (ws1 rest)

  unfoldable pub parse_table : TableTypeHook F → Bytes → Outcome F TableCommand
  unfolding token ws1 prefix create_loop parse_table_add
  parse_table hook s = table_token hook s (token s)
