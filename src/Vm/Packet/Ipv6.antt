-- ===== src/Vm/Packet/Ipv6.antt =====
-- vm/packet.go: `RawIPv6Packet`: the walk along the extension headers and the accessors.
use ipfw_go.Prelude.{
  ℕ, zero, suc, ◌+◌, ◌-◌, ◌*◌, ◌/◌, ◌%◌, ◌^◌, Bool, true, false, not, ◌&&◌, ◌||◌, Option, none,
  some, Bytes, ◌==◌, if◌then◌else◌, ltb, length,
}
use ipfw_go.Prelude.Int.{ℤ, pos, negsuc, ◌+ₙ◌}
use ipfw_go.Vm.Packet.{
  Addr, Packet, IpVersion, ip_version, byte_at, addr6_at, uint16_at, uint8_at, ipv6_header_len,
  ipv6_fragment_len, proto_hop_options, proto_routing, proto_fragment, proto_authentication,
  proto_dst_options,
}

abbrev extension_headers : ℕ
extension_headers =
    2 ^ proto_hop_options
    + 2 ^ proto_routing
    + 2 ^ proto_fragment
    + 2 ^ proto_authentication
    + 2 ^ proto_dst_options

unfoldable pub is_extension_header : ℕ → Bool
is_extension_header protocol = ltb protocol 64 && not (extension_headers / 2 ^ protocol % 2 == 0)

pub record Ipv6Layout : Type 0 where
  pub protocol : ℕ
  pub next_header : ℕ
  pub transport : ℤ
  pub fragment : Bool

-- The cases of the switch of `layout` that go on.
unfoldable pub is_followed : ℕ → Bool
is_followed p =
    p == proto_hop_options
    || p == proto_routing
    || p == proto_dst_options
    || p == proto_authentication
    || p == proto_fragment

-- `need`: the bytes of the header that are read.
abbrev pub header_need : ℕ → ℕ
header_need p = if p == proto_fragment then ipv6_fragment_len else 2

-- `length`: the bytes up to the next header.
abbrev pub header_length : Bytes → ℕ → ℕ → ℕ
header_length m p at =
    if p == proto_authentication
    then (byte_at m (at + 1) + 2) * 4
    else if p == proto_fragment
    then ipv6_fragment_len
    else (byte_at m (at + 1) + 1) * 8

-- Whether the header at `at` is the fragment header of a fragment other than the first.
abbrev pub is_later_fragment : Bytes → ℕ → ℕ → Bool
is_later_fragment m p at =
    p == proto_fragment && not ((byte_at m (at + 2) * 256 + byte_at m (at + 3)) / 8 == 0)

-- The loop of `layout`, on fuel; `none` means that the fuel ran out.
unfoldable pub walk : ℕ → Bytes → ℕ → ℕ → ℕ → Option Ipv6Layout
unfolding is_followed
walk zero m p next at = none
walk (suc f) m p next at =
    let onward = walk f m (byte_at m at) at (at + header_length m p at) in
    if not (is_followed p)
    then some (record { protocol = p; next_header = next; transport = pos at; fragment = false })
    else if ltb (length m) (at + header_need p)
    then some (record { protocol = p; next_header = next; transport = negsuc 0; fragment = false })
    else if is_later_fragment m p at
    then some (record {
      protocol = byte_at m at;
      next_header = at;
      transport = pos (at + header_length m p at);
      fragment = true;
    })
    else onward

abbrev no_layout : Ipv6Layout
no_layout = record { protocol = 0; next_header = 0; transport = negsuc 0; fragment = false }

abbrev pub or_no_layout : Option Ipv6Layout → Ipv6Layout
or_no_layout none = no_layout
or_no_layout (some l) = l

unfoldable pub layout_run : Bytes → Option Ipv6Layout
unfolding walk
layout_run m = walk (length m + 1) m (byte_at m 6) 6 ipv6_header_len

-- `layout`: `Layout.accessors-layout` is about it.
unfoldable pub layout : Bytes → Ipv6Layout
unfolding layout_run
layout m = or_no_layout (layout_run m)

abbrev pub out_of_reach : ℤ → ℤ
out_of_reach (pos at) = pos at
out_of_reach (negsuc _) = negsuc (2 ^ 30 - 1)

unfoldable pub walked_transport : Bytes → ℤ
unfolding layout
walked_transport m = out_of_reach (layout m).transport

unfoldable pub version : Bytes → IpVersion
version m = ip_version (byte_at m 0 / 16)

unfoldable pub protocol : Bytes → ℕ
unfolding is_extension_header layout
protocol m =
    let next = byte_at m 6 in if not (is_extension_header next) then next else (layout m).protocol

unfoldable pub source_addr : Bytes → Addr
source_addr m = addr6_at m 8

unfoldable pub destination_addr : Bytes → Addr
destination_addr m = addr6_at m 24

unfoldable pub is_fragment : Bytes → Bool
unfolding is_extension_header layout
is_fragment m = if not (is_extension_header (byte_at m 6)) then false else (layout m).fragment

unfoldable pub source_port : Bytes → Option ℕ
unfolding is_extension_header walked_transport
source_port m =
    if is_extension_header (byte_at m 6)
    then uint16_at m (walked_transport m)
    else uint16_at m (pos ipv6_header_len)

unfoldable pub destination_port : Bytes → Option ℕ
unfolding is_extension_header walked_transport
destination_port m =
    if is_extension_header (byte_at m 6)
    then uint16_at m (walked_transport m +ₙ 2)
    else uint16_at m (pos (ipv6_header_len + 2))

unfoldable pub tcp_flags : Bytes → Option ℕ
unfolding is_extension_header walked_transport
tcp_flags m =
    let at =
      if is_extension_header (byte_at m 6) then walked_transport m else pos ipv6_header_len in
    uint8_at m (at +ₙ 13)

unfoldable pub icmp_type : Bytes → Option ℕ
unfolding is_extension_header walked_transport
icmp_type m =
    if is_extension_header (byte_at m 6)
    then uint8_at m (walked_transport m)
    else uint8_at m (pos ipv6_header_len)

-- The packet that a check is given.
unfoldable pub packet : Bytes → Packet
unfolding version protocol source_addr destination_addr is_fragment source_port destination_port
    tcp_flags icmp_type
packet m = record {
  version = version m;
  protocol = protocol m;
  source_addr = source_addr m;
  destination_addr = destination_addr m;
  is_fragment = is_fragment m;
  source_port = source_port m;
  destination_port = destination_port m;
  tcp_flags = tcp_flags m;
  icmp_type = icmp_type m;
}
