-- ===== src/Vm/Fields.antt =====
-- vm/vm.go: `packetFields`, what the matchers read from a packet, the rest on first use.
-- A field with its `Has` flag is one `Option`.
pub mod Cache
use ipfw_go.Prelude.{ℕ, Bool, true, false, ◌||◌, Option, none, ◌==◌, if◌then◌else◌, not, ◌&&◌}
use ipfw_go.Vm.Packet.{
  Addr, invalid, v4, v6, IpVersion, neither, ipv4, ipv6, Packet, proto_tcp, proto_udp, proto_sctp,
  proto_udp_lite, proto_icmp, proto_icmpv6,
}

pub record Fields : Type 0 where
  pub version : IpVersion
  pub protocol : ℕ
  pub source_family : IpVersion
  pub destination_family : IpVersion
  pub source : Addr
  pub destination : Addr
  pub source_port : Option ℕ
  pub destination_port : Option ℕ
  pub flags : Option ℕ
  pub icmp_type : Option ℕ
  pub fragment : Bool
  pub ports : Bool
  pub tcp : Bool
  pub icmp : Bool
  pub fragmentation : Bool

unfoldable pub addr_family : Addr → IpVersion
addr_family (v4 _) = ipv4
addr_family (v6 _ _) = ipv6
addr_family invalid = neither

-- `Read`, on the zero value of the fields.
unfoldable pub read_fields : Packet → Fields
unfolding addr_family
read_fields pkt = record {
  version = pkt.version;
  protocol = pkt.protocol;
  source_family = addr_family pkt.source_addr;
  destination_family = addr_family pkt.destination_addr;
  source = pkt.source_addr;
  destination = pkt.destination_addr;
  source_port = none;
  destination_port = none;
  flags = none;
  icmp_type = none;
  fragment = false;
  ports = false;
  tcp = false;
  icmp = false;
  fragmentation = false;
}

-- `ReadFragment`
unfoldable pub read_fragment : Packet → Fields → Fields
read_fragment pkt m =
    if not m.fragmentation then record m { fragment = pkt.is_fragment; fragmentation = true } else m

-- The protocols that ports are read of.
unfoldable pub has_ports : ℕ → Bool
has_ports p = p == proto_tcp || p == proto_udp || p == proto_sctp || p == proto_udp_lite

abbrev take_ports : Packet → Fields → Fields
take_ports pkt m =
    if m.fragment
    then m
    else record m { source_port = pkt.source_port; destination_port = pkt.destination_port }

abbrev read_ports_slow : Packet → Fields → Fields
read_ports_slow pkt m =
    let marked = record m { ports = true } in
    if has_ports m.protocol then take_ports pkt (read_fragment pkt marked) else marked

-- `ReadPorts`
unfoldable pub read_ports : Packet → Fields → Fields
unfolding read_fragment has_ports
read_ports pkt m = if not m.ports then read_ports_slow pkt m else m

abbrev take_flags : Packet → Fields → Fields
take_flags pkt m = if m.fragment then m else record m { flags = pkt.tcp_flags }

abbrev read_flags_slow : Packet → Fields → Fields
read_flags_slow pkt m =
    let marked = record m { tcp = true } in
    if not (m.protocol == proto_tcp) then marked else take_flags pkt (read_fragment pkt marked)

-- `ReadFlags`
unfoldable pub read_flags : Packet → Fields → Fields
unfolding read_fragment
read_flags pkt m = if not m.tcp then read_flags_slow pkt m else m

abbrev take_icmp : Packet → Fields → Fields
take_icmp pkt m = if m.fragment then m else record m { icmp_type = pkt.icmp_type }

abbrev read_icmp_slow : Packet → Fields → Fields
read_icmp_slow pkt m =
    let marked = record m { icmp = true } in
    if not (m.protocol == proto_icmp) && not (m.protocol == proto_icmpv6)
    then marked
    else take_icmp pkt (read_fragment pkt marked)

-- `ReadICMP`
unfoldable pub read_icmp : Packet → Fields → Fields
unfolding read_fragment
read_icmp pkt m = if not m.icmp then read_icmp_slow pkt m else m
