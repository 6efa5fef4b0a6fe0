-- ===== src/Vm/Packet/Ipv4.antt =====
-- vm/packet.go: `RawIPv4Packet`, its accessors and its builders. A builder that panics is `none`.
use ipfw_go.Prelude.{
  ℕ, ◌+◌, ◌-◌, ◌*◌, ◌/◌, ◌%◌, ◌^◌, Bool, not, ◌||◌, ◌++◌, Option, none, some, Bytes, ◌==◌,
  if◌then◌else◌, ltb, length, set, replicate,
}
use ipfw_go.Prelude.Int.{ℤ, pos, negsuc, ◌+ₙ◌}
use ipfw_go.Vm.Packet.{
  Addr, v4, Packet, IpVersion, ip_version, byte_at, addr4_at, uint16_at, uint8_at, set_ports,
  copy_at, ipv4_header_len, proto_tcp, proto_udp, proto_icmp,
}

-- The index of the header past the IP header.
unfoldable pub transport : Bytes → ℤ
transport m =
    let header = byte_at m 0 % 16 * 4 in
    if ltb header ipv4_header_len then negsuc (2 ^ 30 - 1) else pos header

unfoldable pub version : Bytes → IpVersion
version m = ip_version (byte_at m 0 / 16)

unfoldable pub protocol : Bytes → ℕ
protocol m = byte_at m 9

unfoldable pub source_addr : Bytes → Addr
source_addr m = addr4_at m 12

unfoldable pub destination_addr : Bytes → Addr
destination_addr m = addr4_at m 16

unfoldable pub is_fragment : Bytes → Bool
is_fragment m = not (byte_at m 6 % 32 == 0) || not (byte_at m 7 == 0)

unfoldable pub source_port : Bytes → Option ℕ
unfolding transport
source_port m = uint16_at m (transport m)

unfoldable pub destination_port : Bytes → Option ℕ
unfolding transport
destination_port m = uint16_at m (transport m +ₙ 2)

unfoldable pub tcp_flags : Bytes → Option ℕ
unfolding transport
tcp_flags m = uint8_at m (transport m +ₙ 13)

unfoldable pub icmp_type : Bytes → Option ℕ
unfolding transport
icmp_type m = uint8_at m (transport m)

-- The packet that a check is given.
unfoldable pub packet : Bytes → Packet
unfolding version protocol source_addr destination_addr is_fragment source_port destination_port
    tcp_flags icmp_type
packet m = record {
  version = version m;
  protocol = protocol m;
  source_addr = source_addr m;
  destination_addr = destination_addr m;
  is_fragment = is_fragment m;
  source_port = source_port m;
  destination_port = destination_port m;
  tcp_flags = tcp_flags m;
  icmp_type = icmp_type m;
}

unfoldable pub new_packet : Addr → Addr → Option Bytes
unfolding copy_at
new_packet (v4 from) (v4 to) =
    some (copy_at (copy_at (set (replicate 64 0) 0 (4 * 16 + 5)) 12 from) 16 to)
new_packet _ _ = none

-- The bytes made long enough for `room` bytes at `at`.
abbrev pub grow : Bytes → ℕ → Bytes
grow m size = m ++ replicate (size - length m) 0

unfoldable pub with_protocol_at : Bytes → ℤ → ℕ → ℕ → Option (Bytes × ℕ)
with_protocol_at m (negsuc _) protocol room = none
with_protocol_at m (pos at) protocol room = some (set (grow m (at + room)) 9 protocol, at)

unfoldable pub with_protocol : Bytes → ℕ → ℕ → Option (Bytes × ℕ)
unfolding transport with_protocol_at
with_protocol m = with_protocol_at m (transport m)

abbrev with_tcp_at : ℕ → ℕ → ℕ → Option (Bytes × ℕ) → Option Bytes
with_tcp_at flags src dst none = none
with_tcp_at flags src dst (some (m, at)) = some (set (set_ports m at src dst) (at + 13) flags)

unfoldable pub with_tcp : Bytes → ℕ → ℕ → ℕ → Option Bytes
unfolding with_protocol set_ports
with_tcp m flags src dst = with_tcp_at flags src dst (with_protocol m proto_tcp 14)

abbrev with_udp_at : ℕ → ℕ → Option (Bytes × ℕ) → Option Bytes
with_udp_at src dst none = none
with_udp_at src dst (some (m, at)) = some (set_ports m at src dst)

unfoldable pub with_udp : Bytes → ℕ → ℕ → Option Bytes
unfolding with_protocol set_ports
with_udp m src dst = with_udp_at src dst (with_protocol m proto_udp 8)

abbrev with_icmp_at : ℕ → ℕ → Option (Bytes × ℕ) → Option Bytes
with_icmp_at ty code none = none
with_icmp_at ty code (some (m, at)) = some (set (set m at ty) (at + 1) code)

unfoldable pub with_icmp : Bytes → ℕ → ℕ → Option Bytes
unfolding with_protocol
with_icmp m ty code = with_icmp_at ty code (with_protocol m proto_icmp 4)

-- Byte 6 keeps its three flag bits. Go panics on bytes that end before byte 7.
unfoldable pub with_fragment_offset : Bytes → ℕ → Option Bytes
with_fragment_offset m offset =
    let high = byte_at m 6 / 32 * 32 + offset / 256 % 32 in
    if ltb (length m) 8 then none else some (set (set m 6 high) 7 (offset % 256))
