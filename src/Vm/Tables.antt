-- ===== src/Vm/Tables.antt =====
-- vm/tables.go: `DefaultTableRegistry` and the prefix tables that it keeps for each family.
pub mod Prefix
pub mod Updates
use ipfw_go.Prelude.{ℕ, Bool, true, false, List, [], ◌∷◌, Option, none, some, Bytes, if◌then◌else◌}
use ipfw_go.Prelude.Maps.{lookup, insert}
use ipfw_go.Vm.Network.{Network, TableRegistry}
use ipfw_go.Vm.Packet.{Addr, invalid, v4, v6}
use ipfw_go.Vm.Tables.Prefix.{PrefixTable, empty_table, prefix_lookup, prefix_add}

-- The networks of one table by family.
pub record NetworkTable (V4 V6 : Type 0) : Type 0 where
  pub nets4 : PrefixTable V4
  pub nets6 : PrefixTable V6

pub record DefaultTables (V4 V6 : Type 0) : Type 0 where
  pub networks : List (Bytes × NetworkTable V4 V6)
  pub interfaces : List (Bytes × List (Bytes × Bytes))

-- `addr.Is4()`
abbrev pub is4 : Addr → Bool
is4 (v4 _) = true
is4 (v6 _ _) = false
is4 invalid = false

module _ {V4 V6 : Type 0} where
  -- `NewDefaultTableRegistry`
  abbrev pub new_tables : DefaultTables V4 V6
  new_tables = record { networks = []; interfaces = [] }

  abbrev or_new : Option (NetworkTable V4 V6) → NetworkTable V4 V6
  or_new none = record { nets4 = empty_table; nets6 = empty_table }
  or_new (some t) = t

  -- `network`: the table of that name, created when missing.
  unfoldable pub network_table : DefaultTables V4 V6 → Bytes → NetworkTable V4 V6
  network_table m table = or_new (lookup table m.networks)

module _ {V4 V6 : Type 0} (n4 : Network V4) (n6 : Network V6) where
  abbrev lookup_family : Option (NetworkTable V4 V6) → Addr → Option Bytes
  lookup_family none addr = none
  lookup_family (some t) addr =
      if is4 addr then prefix_lookup n4 t.nets4 addr else prefix_lookup n6 t.nets6 addr

  unfoldable pub lookup_network : DefaultTables V4 V6 → Bytes → Addr → Option Bytes
  unfolding prefix_lookup
  lookup_network m table addr = lookup_family (lookup table m.networks) addr

  unfoldable pub add_network4 : DefaultTables V4 V6 → Bytes → V4 → Bytes → DefaultTables V4 V6
  unfolding network_table prefix_add
  add_network4 m table net value =
      let t = network_table m table in
      record m {
        networks = insert table (record t { nets4 = prefix_add n4 t.nets4 net value }) m.networks;
      }

  unfoldable pub add_network6 : DefaultTables V4 V6 → Bytes → V6 → Bytes → DefaultTables V4 V6
  unfolding network_table prefix_add
  add_network6 m table net value =
      let t = network_table m table in
      record m {
        networks = insert table (record t { nets6 = prefix_add n6 t.nets6 net value }) m.networks;
      }

abbrev or_empty : Option (List (Bytes × Bytes)) → List (Bytes × Bytes)
or_empty none = []
or_empty (some m) = m

module _ {V4 V6 : Type 0} where
  unfoldable pub lookup_interface : DefaultTables V4 V6 → Bytes → Bytes → Option Bytes
  lookup_interface m table ifname = lookup ifname (or_empty (lookup table m.interfaces))

  unfoldable pub add_interface : DefaultTables V4 V6 → Bytes → Bytes → Bytes → DefaultTables V4 V6
  add_interface m table ifname value =
      let entries = or_empty (lookup table m.interfaces) in
      record m { interfaces = insert table (insert ifname value entries) m.interfaces }

-- The registry as the interface that a build and a check take; its updates never fail.
abbrev pub default_registry :
    {V4 V6 F : Type 0} → Network V4 → Network V6 → TableRegistry V4 V6 (DefaultTables V4 V6) F
default_registry n4 n6 = record {
  lookup_network = lookup_network n4 n6;
  lookup_interface = lookup_interface;
  add_network4 = λ m table net value. (add_network4 n4 n6 m table net value, none);
  add_network6 = λ m table net value. (add_network6 n4 n6 m table net value, none);
  add_interface = λ m table ifname value. (add_interface m table ifname value, none);
}
