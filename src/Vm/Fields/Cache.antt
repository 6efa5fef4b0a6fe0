-- ===== src/Vm/Fields/Cache.antt =====
-- The fields that are read on first use are what the packet reports, whenever they are read.
use ipfw_go.Prelude.{ℕ, ◌||◌, Option, none, ◌==◌, ◌≡◌, if◌then◌else◌, arith}
use ipfw_go.Vm.Fields.{
  Fields, addr_family, read_fields, read_fragment, has_ports, read_ports, read_flags, read_icmp,
}
use ipfw_go.Vm.Packet.{Packet, proto_tcp, proto_icmp, proto_icmpv6}

-- The transport fields that mean something for the packet: those of a first fragment or a whole
-- packet of a protocol that has them.
abbrev pub packet_source_port : Packet → Option ℕ
packet_source_port pkt =
    if has_ports pkt.protocol then (if pkt.is_fragment then none else pkt.source_port) else none

abbrev pub packet_destination_port : Packet → Option ℕ
packet_destination_port pkt =
    if has_ports pkt.protocol
    then (if pkt.is_fragment then none else pkt.destination_port)
    else none

abbrev pub packet_flags : Packet → Option ℕ
packet_flags pkt =
    if pkt.protocol == proto_tcp then (if pkt.is_fragment then none else pkt.tcp_flags) else none

abbrev pub packet_icmp_type : Packet → Option ℕ
packet_icmp_type pkt =
    if pkt.protocol == proto_icmp || pkt.protocol == proto_icmpv6
    then (if pkt.is_fragment then none else pkt.icmp_type)
    else none

-- The fields hold what the packet reports, where they have been read.
pub record Reads (pkt : Packet) (m : Fields) : Type 0 where
  pub version : m.version ≡ pkt.version
  pub protocol : m.protocol ≡ pkt.protocol
  pub source : m.source ≡ pkt.source_addr
  pub destination : m.destination ≡ pkt.destination_addr
  pub source_family : m.source_family ≡ addr_family pkt.source_addr
  pub destination_family : m.destination_family ≡ addr_family pkt.destination_addr
  pub fragment : (if m.fragmentation then m.fragment ≡ pkt.is_fragment else Unit {0})
  pub source_port : m.source_port ≡ (if m.ports then packet_source_port pkt else none)
  pub destination_port :
      m.destination_port ≡ (if m.ports then packet_destination_port pkt else none)
  pub flags : m.flags ≡ (if m.tcp then packet_flags pkt else none)
  pub icmp_type : m.icmp_type ≡ (if m.icmp then packet_icmp_type pkt else none)

pub read_fields-Reads : (pkt : Packet) → Reads pkt (read_fields pkt)
unfolding read_fields
read_fields-Reads pkt = ground arith

module _ {pkt : Packet} {m : Fields} (r : Reads pkt m) where
  pub read_fragment-Reads : Reads pkt (read_fragment pkt m)
  unfolding read_fragment
  read_fragment-Reads = ground arith

  pub read_fragment-fragment : (read_fragment pkt m).fragment ≡ pkt.is_fragment
  unfolding read_fragment
  read_fragment-fragment = ground arith

  pub read_ports-Reads : Reads pkt (read_ports pkt m)
  unfolding read_ports
  read_ports-Reads = ground arith

  pub read_ports-source_port : (read_ports pkt m).source_port ≡ packet_source_port pkt
  unfolding read_ports
  read_ports-source_port = ground arith

  pub read_ports-destination_port :
      (read_ports pkt m).destination_port ≡ packet_destination_port pkt
  unfolding read_ports
  read_ports-destination_port = ground arith

  pub read_flags-Reads : Reads pkt (read_flags pkt m)
  unfolding read_flags
  read_flags-Reads = ground arith

  pub read_flags-flags : (read_flags pkt m).flags ≡ packet_flags pkt
  unfolding read_flags
  read_flags-flags = ground arith

  pub read_icmp-Reads : Reads pkt (read_icmp pkt m)
  unfolding read_icmp
  read_icmp-Reads = ground arith

  pub read_icmp-icmp_type : (read_icmp pkt m).icmp_type ≡ packet_icmp_type pkt
  unfolding read_icmp
  read_icmp-icmp_type = ground arith
