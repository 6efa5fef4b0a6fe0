-- ===== src/Vm/Build/Tables/Kept.antt =====
-- A table command changes the registry and the known types of tables, and nothing of the program.
use ipfw_go.Prelude.{Bool, true, false}
use ipfw_go.Prelude.Maps.{lookup}
use ipfw_go.Resolver.{Environment}
use ipfw_go.Rule.{TableCommand, TableKind, TableType}
use ipfw_go.Vm.Build.Sound.{IsWellFormed}
use ipfw_go.Vm.Build.Tables.{table_command, table_kind, create_table, add_entry, is_iface}
use ipfw_go.Vm.Build.{Builder}
use ipfw_go.Vm.Network.{TableRegistry}

module _ {V4 V6 R F : Type 0} (env : Environment V4 V6 F) (reg : TableRegistry V4 V6 R F) where
  create_table-IsWellFormed :
      (b : Builder V4 V6 R) (t : TableCommand) (ty : TableType)
      → IsWellFormed b
      → IsWellFormed (create_table env reg b t.name ty).0
  unfolding create_table
  create_table-IsWellFormed b t TableType.unset w = w
  create_table-IsWellFormed b t TableType.addr w = w
  create_table-IsWellFormed b t TableType.iface w = w
  create_table-IsWellFormed b t _ w = w

  add_entry-IsWellFormed :
      (b : Builder V4 V6 R) (t : TableCommand) (iface : Bool)
      → IsWellFormed b
      → IsWellFormed (add_entry env reg b t iface).0
  add_entry-IsWellFormed b t true w = w
  add_entry-IsWellFormed b t false w = w

  table_kind-IsWellFormed :
      (b : Builder V4 V6 R) (t : TableCommand) (k : TableKind)
      → IsWellFormed b
      → IsWellFormed (table_kind env reg b t k).0
  unfolding table_kind
  table_kind-IsWellFormed b t TableKind.create w = create_table-IsWellFormed b t t.type_of w
  table_kind-IsWellFormed b t TableKind.add w =
      add_entry-IsWellFormed b t (is_iface (lookup t.name b.table_types)) w
  table_kind-IsWellFormed b t TableKind.unset w = w

  pub table_command-IsWellFormed :
      (b : Builder V4 V6 R) (t : TableCommand)
      → IsWellFormed b
      → IsWellFormed (table_command env reg b t).0
  unfolding table_command
  table_command-IsWellFormed b t w = table_kind-IsWellFormed b t t.kind w
