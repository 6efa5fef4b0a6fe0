-- ===== src/Tests/Data.antt =====
-- The networks, the environment and the rulesets of the tests. A network is the bytes that its
-- addresses begin with.
use ipfw_go.Prelude.{
  ℕ, ◌-◌, ◌*◌, Bool, true, false, ◌&&◌, List, [], ◌∷◌, none, some, Bytes, ◌==◌, ◌⊎◌, inr, codes,
  length,
}
use ipfw_go.Resolver.{Environment}
use ipfw_go.Rule.{
  Action, ActionKind, SkipToKind, Record, RecordKind, Target, TargetKind, TableKind, TableType,
  TableKeyKind,
}
use ipfw_go.Vm.Network.{Network, TableRegistry}
use ipfw_go.Vm.Packet.{Addr, v4, v6, Context, inbound, Packet, ipv4}
use ipfw_go.Vm.Tables.{DefaultTables, new_tables, default_registry}

abbrev pub begins_with : Bytes → Bytes → Bool
begins_with [] bytes = true
begins_with (b ∷ prefix) [] = false
begins_with (b ∷ prefix) (c ∷ bytes) = b == c && begins_with prefix bytes

abbrev holds4 : Bytes → Addr → Bool
holds4 prefix (v4 bytes) = begins_with prefix bytes
holds4 prefix _ = false

abbrev holds6 : Bytes → Addr → Bool
holds6 prefix (v6 bytes zone) = begins_with prefix bytes
holds6 prefix _ = false

abbrev pub nets4 : Network Bytes
nets4 = record { contains_addr = holds4; num_host_bits = λ prefix. (4 - length prefix) * 8 }

abbrev pub nets6 : Network Bytes
nets6 = record { contains_addr = holds6; num_host_bits = λ prefix. (16 - length prefix) * 8 }

abbrev pub registry : TableRegistry Bytes Bytes (DefaultTables Bytes Bytes) ℕ
registry = default_registry nets4 nets6

-- The resolver of host names knows one, of two networks.
abbrev pub ask : Target → ℕ ⊎ (List Bytes × List Bytes)
ask t = inr ((10 ∷ 1 ∷ []) ∷ (10 ∷ 2 ∷ []) ∷ [], [])

abbrev pub env : Environment Bytes Bytes ℕ
env = record {
  parse_network4 = λ text. inr text;
  parse_network6 = λ text. inr text;
  protos = none;
  services = none;
  targets = some ask;
}

abbrev pub skip_number : ℕ → Action
skip_number n = record {
  kind = ActionKind.skip_to;
  skip_to = record { kind = SkipToKind.number; label = []; number = n };
  flow = [];
}

abbrev pub plain : ActionKind → Action
plain kind = record {
  kind = kind;
  skip_to = record { kind = SkipToKind.unset; label = []; number = 0 };
  flow = [];
}

abbrev pub anywhere_target : Target
anywhere_target = record { neg = false; pattern = 0; kind = TargetKind.anywhere; text = [] }

abbrev pub net_target : Bytes → Target
net_target prefix = record { neg = false; pattern = 0; kind = TargetKind.network4; text = prefix }

abbrev pub host : Target
host = record { neg = true; pattern = 3; kind = TargetKind.hostname; text = codes "a.example" }

abbrev pub here : Context
here = record { direction = inbound; if_name = codes "eth0"; local_addrs = [] }

abbrev pub packet_from : Bytes → Packet
packet_from from = record {
  version = ipv4;
  protocol = 6;
  source_addr = v4 from;
  destination_addr = v4 (192 ∷ 0 ∷ 2 ∷ 1 ∷ []);
  is_fragment = false;
  source_port = some 1024;
  destination_port = some 80;
  tcp_flags = some 2;
  icmp_type = none;
}

abbrev pub rule_record : RecordKind → ℕ → Action → Record
rule_record kind num action = record {
  line = 1;
  text = [];
  kind = kind;
  comment = [];
  instruction = record {
    num = num;
    action = action;
    log = record { enabled = false; has_amount = false; amount = 0 };
    tag = 0;
  };
  table = record {
    name = [];
    kind = TableKind.unset;
    type_of = TableType.unset;
    type_text = [];
    key = record { kind = TableKeyKind.unset; text = [] };
    value = [];
  };
  label = [];
}

abbrev pub tables : DefaultTables Bytes Bytes
tables = new_tables {V4 = Bytes} {V6 = Bytes}
