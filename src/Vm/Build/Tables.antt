-- ===== src/Vm/Build/Tables.antt =====
-- vm/vm.go: `Table`, `createTable` and `addAddress`: the table commands of a ruleset.
pub mod Kept
use ipfw_go.Prelude.{
  Bool, true, false, List, [], ◌∷◌, Option, none, some, Bytes, ◌⊎◌, inl, inr, trim_prefix,
}
use ipfw_go.Prelude.Maps.{lookup, insert}
use ipfw_go.Errors.{
  Cause, unsupported_table_type, unresolved_target, expected_ipv4_network, expected_ipv6_network,
  foreign,
}
use ipfw_go.Resolver.{Environment}
use ipfw_go.Rule.{Target, TargetKind, TableCommand, TableKind, TableKeyKind, TableType}
use ipfw_go.Vm.Build.{Builder}
use ipfw_go.Vm.Network.{TableRegistry}

-- The registry after an update, with the error if there was one.
abbrev pub Updated : Type 0 → Type 0 → Type 0
Updated R F = R × Option (Cause F)

abbrev foreign_error : {F : Type 0} → Option F → Option (Cause F)
foreign_error none = none
foreign_error (some e) = some (foreign e)

-- Goes on with the registry, or stops at the error.
abbrev and_then : {R F : Type 0} → Updated R F → (R → Updated R F) → Updated R F
and_then (r, none) k = k r
and_then (r, some e) k = (r, some e)

abbrev is_iface : Option TableType → Bool
is_iface (some TableType.iface) = true
is_iface _ = false

module _ {V4 V6 R F : Type 0} (env : Environment V4 V6 F) (reg : TableRegistry V4 V6 R F) where
  abbrev from_registry : R × Option F → Updated R F
  from_registry (r, e) = (r, foreign_error e)

  add_nets4 : R → Bytes → Bytes → List V4 → Updated R F
  add_nets4 r table value [] = (r, none)
  add_nets4 r table value (n ∷ ns) =
      and_then (from_registry (reg.add_network4 r table n value)) (λ s. add_nets4 s table value ns)

  add_nets6 : R → Bytes → Bytes → List V6 → Updated R F
  add_nets6 r table value [] = (r, none)
  add_nets6 r table value (n ∷ ns) =
      and_then (from_registry (reg.add_network6 r table n value)) (λ s. add_nets6 s table value ns)

  -- A key that names a target: the networks that it stands for, in order.
  add_named : R → Bytes → Bytes → Target → Option (Target → F ⊎ (List V4 × List V6)) → Updated R F
  unfolding add_nets4 add_nets6
  add_named r table value t none = (r, some unresolved_target)
  add_named r table value t (some ask) = elim (ask t) [
    | inl e ↦ (r, some (foreign e))
    | inr (nets4, nets6) ↦
        and_then (add_nets4 r table value nets4) (λ s. add_nets6 s table value nets6)
  ]

  abbrev key_target : TargetKind → Bytes → Target
  key_target kind text = record { neg = false; pattern = 0; kind = kind; text = text }

  add_address : R → Bytes → Bytes → Bytes → TableKeyKind → Updated R F
  unfolding add_named
  add_address r table value text TableKeyKind.network4 = elim (env.parse_network4 text) [
    | inl e ↦ (r, some (expected_ipv4_network e))
    | inr n ↦ from_registry (reg.add_network4 r table n value)
  ]
  add_address r table value text TableKeyKind.network6 = elim (env.parse_network6 text) [
    | inl e ↦ (r, some (expected_ipv6_network e))
    | inr n ↦ from_registry (reg.add_network6 r table n value)
  ]
  add_address r table value text TableKeyKind.hostname =
      add_named r table value (key_target TargetKind.hostname text) env.targets
  add_address r table value text _ =
      add_named r table value (key_target TargetKind.custom text) env.targets

  abbrev with_tables : Builder V4 V6 R → Updated R F → Builder V4 V6 R × Option (Cause F)
  with_tables m (r, e) = (record m { tables = r }, e)

  abbrev typed : Builder V4 V6 R → Bytes → TableType → Builder V4 V6 R
  typed m name ty = record m { table_types = insert name ty m.table_types }

  create_table : Builder V4 V6 R → Bytes → TableType → Builder V4 V6 R × Option (Cause F)
  create_table m name TableType.unset = (typed m name TableType.addr, none)
  create_table m name TableType.addr = (typed m name TableType.addr, none)
  create_table m name TableType.iface = (typed m name TableType.iface, none)
  create_table m name _ = (m, some unsupported_table_type)

  abbrev add_entry : Builder V4 V6 R → TableCommand → Bool → Builder V4 V6 R × Option (Cause F)
  add_entry m t true =
      let value = trim_prefix t.value b':' in
      with_tables m (from_registry (reg.add_interface m.tables t.name t.key.text value))
  add_entry m t false =
      let value = trim_prefix t.value b':' in
      with_tables m (add_address m.tables t.name value t.key.text t.key.kind)

  table_kind : Builder V4 V6 R → TableCommand → TableKind → Builder V4 V6 R × Option (Cause F)
  unfolding create_table add_address trim_prefix
  table_kind m t TableKind.create = create_table m t.name t.type_of
  table_kind m t TableKind.add = add_entry m t (is_iface (lookup t.name m.table_types))
  table_kind m t TableKind.unset = (m, none)

  unfoldable pub table_command : Builder V4 V6 R → TableCommand → Builder V4 V6 R × Option (Cause F)
  unfolding table_kind
  table_command m t = table_kind m t t.kind
