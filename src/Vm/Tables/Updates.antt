-- ===== src/Vm/Tables/Updates.antt =====
-- vm/tables.go: what an update of the registry changes: one table of one family, or one interface.
use ipfw_go.Prelude.{Option, Bytes, if◌then◌else◌}
use ipfw_go.Vm.Network.{Network}
use ipfw_go.Vm.Packet.{Addr}
use ipfw_go.Vm.Tables.Prefix.{prefix_lookup, prefix_add}
use ipfw_go.Vm.Tables.{DefaultTables, is4, network_table, lookup_network}

module _ {V4 V6 : Type 0} (n4 : Network V4) (n6 : Network V6) where
  abbrev pub after_add4 : DefaultTables V4 V6 → Bytes → V4 → Bytes → Addr → Option Bytes
  after_add4 m table net value addr =
      if is4 addr
      then prefix_lookup n4 (prefix_add n4 (network_table m table).nets4 net value) addr
      else lookup_network n4 n6 m table addr

  abbrev pub after_add6 : DefaultTables V4 V6 → Bytes → V6 → Bytes → Addr → Option Bytes
  after_add6 m table net value addr =
      if is4 addr
      then lookup_network n4 n6 m table addr
      else prefix_lookup n6 (prefix_add n6 (network_table m table).nets6 net value) addr
