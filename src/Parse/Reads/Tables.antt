-- ===== src/Parse/Reads/Tables.antt =====
-- What the parsers of a table command leave of the input.
use ipfw_go.Parse.Table
use ipfw_go.Prelude.Int.{ℤ}
use ipfw_go.Prelude.{
  ℕ, zero, suc, ◌+◌, ◌<◌, List, [], ◌∷◌, Option, none, some, Bytes, codes, ◌==◌, length, arith,
}
use ipfw_go.Rule.{TableCommand, TableKey, TableKind, TableType}
use ipfw_go.Parse.Lex.{token, line_text}
use ipfw_go.Parse.Options.Lists.{clamp}
use ipfw_go.Parse.Outcome.{Outcome, Fault, TableTypeHook}
use ipfw_go.Parse.Reads.{
  Behind, same, join, after, weak, of_drop, Opens, shut, opens, Reads, reads, fails,
  fail_from-Reads, with_value-Reads,
}
use ipfw_go.Parse.Reads.Lex.{
  Parts, Parts-Behind, prefix-Opens, ws1-Opens, ws1_keyword-Opens, token-Parts,
}
use ipfw_go.Parse.Reads.Groups.{if-Reads}
use ipfw_go.Parse.Reads.OptionLists.{read_behind}
use ipfw_go.Parse.Reads.Options.{Finds, absent, finds}
use ipfw_go.Parse.Table.{
  type_found, type_by_name, table_type_names, parse_table_type, key_token, parse_table_key,
  value_token, optional_value, keyed, key_behind, parse_table_add, typed, hook_type, create_type,
  parse_create_type, type_behind, type_space, type_keyword, create_loop, named_table, add_command,
  create_command, command_space, table_token, parse_table,
}

type_by_name-Finds :
    (names : List (Bytes × TableType)) (s : Bytes) → Finds 0 s (type_by_name names s)
unfolding type_by_name
type_by_name-Finds [] s = absent
type_by_name-Finds ((word, ty) ∷ names) s =
    type_found-Finds (prefix-Opens s word) (type_by_name-Finds names s)
  where
    type_found-Finds :
        {n : ℕ} {o : Option Bytes} {onward : Option (TableType × Bytes)}
        → Opens n s o
        → Finds 0 s onward
        → Finds 0 s (type_found ty onward o)
    type_found-Finds shut h = h
    type_found-Finds (opens h') h = finds (weak h')

value_token-Behind :
    {s r q : Bytes} (p : Bytes × Bytes)
    → Behind 0 s r
    → Behind 0 s q
    → Parts q p
    → Behind 0 s (value_token r p).1
value_token-Behind ([], rest) h h' h'' = h
value_token-Behind (c ∷ value, rest) h h' h'' = after h' (Parts-Behind h'')

optional_value-Behind :
    {s r : Bytes} {n : ℕ} {o : Option Bytes}
    → Behind 0 s r
    → Opens n r o
    → Behind 0 s (optional_value r o).1
optional_value-Behind h shut = h
optional_value-Behind h (opens {r = q} h') =
    value_token-Behind (token q) h (after h h') (token-Parts q)

module _ {F : Type 0} where
  key_token-Reads : (s : Bytes) (p : Bytes × Bytes) → Parts s p → Reads 0 s (key_token {F = F} s p)
  key_token-Reads s ([], rest) h = fails same
  key_token-Reads s (c ∷ text, rest) h = reads (Parts-Behind h)

  keyed-Reads :
      (t : TableCommand) {s : Bytes} {o : Outcome F TableKey} → Reads 0 s o → Reads 0 s (keyed t o)
  keyed-Reads t (reads {r = r} h) = reads (optional_value-Behind h (ws1-Opens r))
  keyed-Reads t (fails h) = fails h

  parse_table_add-Reads : (t : TableCommand) (s : Bytes) → Reads 0 s (parse_table_add {F = F} t s)
  unfolding parse_table_add parse_table_key
  parse_table_add-Reads t s = key_behind-Reads (ws1-Opens s)
    where
      key_behind-Reads :
          {n : ℕ} {o : Option Bytes} → Opens n s o → Reads 0 s (key_behind {F = F} t s o)
      key_behind-Reads shut = fails same
      key_behind-Reads (opens {r} h) =
          keyed-Reads t (read_behind h (key_token-Reads r (token r) (token-Parts r)))

  hook_type-Reads :
      (hook : TableTypeHook F) (t : TableCommand) (s : Bytes) → Reads 0 s (hook_type hook t s)
  hook_type-Reads none t s = fails same
  hook_type-Reads (some hook) t s = answer-Reads (hook (line_text s))
    where
      answer-Reads : (a : ℤ × Option (Fault F)) → Reads 0 s (Table.hook_answer t s a)
      answer-Reads (n, some e) =
          with_value-Reads t (fail_from-Reads (some e) _ s (of_drop (clamp n (line_text s)) s) same)
      answer-Reads (n, none) =
          if-Reads (clamp n (line_text s) == 0) (fails same)
            (reads (of_drop (clamp n (line_text s)) s))

  parse_create_type-Reads :
      (hook : TableTypeHook F) (t : TableCommand) (s : Bytes)
      → Reads 0 s (parse_create_type hook t s)
  unfolding parse_create_type parse_table_type
  parse_create_type-Reads hook t s = create_type-Reads (type_by_name-Finds table_type_names s)
    where
      create_type-Reads :
          {n : ℕ} {o : Option (TableType × Bytes)}
          → Finds n s o
          → Reads 0 s (create_type hook t s o)
      create_type-Reads absent = hook_type-Reads hook t s
      create_type-Reads (finds h) = reads (weak h)

  type_behind-Reads :
      (loop : TableCommand → Bytes → Outcome F TableCommand) (f : ℕ) {s q : Bytes}
      {o : Outcome F TableCommand}
      → ((t : TableCommand) (r : Bytes) → length r < f → Reads 0 r (loop t r))
      → Behind 1 s q
      → length s < suc f
      → Reads 0 q o
      → Reads 0 s (type_behind loop o)
  type_behind-Reads loop f step h fuel (reads {a} {r} h') =
      read_behind (after h h') (step a r (omega (arith, h.shorter, h'.shorter)))
  type_behind-Reads loop f step h fuel (fails h') = fails (after h h')

  create_loop-Reads :
      (f : ℕ) (hook : TableTypeHook F) (t : TableCommand) (s : Bytes)
      → length s < f
      → Reads 0 s (create_loop f hook t s)
  unfolding create_loop
  create_loop-Reads zero hook t s fuel = absurd (omega arith)
  create_loop-Reads (suc f) hook t s fuel =
      type_keyword-Reads (λ t' r. create_loop f hook t' r) (λ t' r. create_loop-Reads f hook t' r)
        (ws1_keyword-Opens s (codes "type"))
    where
      type_space-Reads :
          (loop : TableCommand → Bytes → Outcome F TableCommand) {q : Bytes} {n : ℕ}
          {o : Option Bytes}
          → ((t : TableCommand) (r : Bytes) → length r < f → Reads 0 r (loop t r))
          → Behind 1 s q
          → Opens n q o
          → Reads 0 s (type_space loop hook t q o)
      type_space-Reads loop step h shut = fails (weak h)
      type_space-Reads loop step h (opens {r} h') =
          type_behind-Reads loop f step (join h h' (omega arith)) fuel
            (parse_create_type-Reads hook t r)

      type_keyword-Reads :
          (loop : TableCommand → Bytes → Outcome F TableCommand) {o : Option Bytes}
          → ((t : TableCommand) (r : Bytes) → length r < f → Reads 0 r (loop t r))
          → Opens 1 s o
          → Reads 0 s (type_keyword loop hook t s o)
      type_keyword-Reads loop step shut = reads same
      type_keyword-Reads loop step (opens {r} h) = type_space-Reads loop step h (ws1-Opens r)

  pub parse_table-Reads : (hook : TableTypeHook F) (s : Bytes) → Reads 0 s (parse_table hook s)
  unfolding parse_table
  parse_table-Reads hook s = token-Reads (token s) (token-Parts s)
    where
      add-Reads :
          (name : Bytes) {r : Bytes} {n : ℕ} {o : Option Bytes}
          → Behind 0 s r
          → Opens n r o
          → Reads 0 s (add_command {F = F} name r o)
      add-Reads name h shut = fails h
      add-Reads name h (opens {r} h') =
          read_behind (after h h') (parse_table_add-Reads (named_table name TableKind.add) r)

      create-Reads :
          (name : Bytes) {r : Bytes} {n : ℕ} {o : Option Bytes}
          → Behind 0 s r
          → Opens n r o
          → Reads 0 s (create_command hook name r o)
      create-Reads name {r} h shut = add-Reads name h (prefix-Opens r (codes "add"))
      create-Reads name h (opens {r} h') = read_behind (after h h') (
          create_loop-Reads (length r + 1) hook (named_table name TableKind.create) r (omega arith))

      space-Reads :
          (name : Bytes) {r : Bytes} {n : ℕ} {o : Option Bytes}
          → Behind 0 s r
          → Opens n r o
          → Reads 0 s (command_space hook name r o)
      space-Reads name h shut = fails h
      space-Reads name h (opens {r} h') =
          create-Reads name (after h h') (prefix-Opens r (codes "create"))

      token-Reads : (p : Bytes × Bytes) → Parts s p → Reads 0 s (table_token hook s p)
      token-Reads ([], rest) h = fails same
      token-Reads (c ∷ name, rest) h = space-Reads (c ∷ name) (Parts-Behind h) (ws1-Opens rest)
