-- ===== src/Vm/Packet.antt =====
-- vm/packet.go: what a check reads from a packet and its context, and the readers of raw bytes.
-- `netip.Addr` of the standard library is a data type with the zero address, the 4 bytes of an
-- IPv4 address, and the 16 bytes and the zone of an IPv6 one. A field that comes with an `ok`
-- in Go is an `Option`, and an index that may be negative is a `ℤ`.
pub mod Ipv4
pub mod Ipv6
pub mod Layout
pub mod Builders
pub mod Builders6
pub mod Reads6
use ipfw_go.Prelude.{
  ℕ, suc, ◌+◌, ◌*◌, ◌/◌, ◌%◌, Bool, true, false, ◌&&◌, List, [], ◌∷◌, Option, none, some, Bytes,
  bytes_eq, ◌==◌, if◌then◌else◌, ltb, length, get_or, set, take, drop,
}
use ipfw_go.Prelude.Int.{ℤ, pos, negsuc, ◌+ₙ◌}

-- The upper-layer protocol numbers.
abbrev pub proto_icmp : ℕ
proto_icmp = 1

abbrev pub proto_tcp : ℕ
proto_tcp = 6

abbrev pub proto_udp : ℕ
proto_udp = 17

abbrev pub proto_icmpv6 : ℕ
proto_icmpv6 = 58

abbrev pub proto_no_next_header : ℕ
proto_no_next_header = 59

abbrev pub proto_sctp : ℕ
proto_sctp = 132

abbrev pub proto_udp_lite : ℕ
proto_udp_lite = 136

-- The IPv6 extension headers.
abbrev pub proto_hop_options : ℕ
proto_hop_options = 0

abbrev pub proto_routing : ℕ
proto_routing = 43

abbrev pub proto_fragment : ℕ
proto_fragment = 44

abbrev pub proto_authentication : ℕ
proto_authentication = 51

abbrev pub proto_dst_options : ℕ
proto_dst_options = 60

abbrev pub ipv4_header_len : ℕ
ipv4_header_len = 20

abbrev pub ipv6_header_len : ℕ
ipv6_header_len = 40

abbrev pub ipv6_fragment_len : ℕ
ipv6_fragment_len = 8

pub data Direction : Type 0 where
  inbound outbound : Direction

pub data Addr : Type 0 where
  invalid : Addr
  v4 : Bytes → Addr
  v6 : Bytes → Bytes → Addr

-- `a == b` on addresses.
unfoldable pub addr_eq : Addr → Addr → Bool
unfolding bytes_eq
addr_eq invalid invalid = true
addr_eq (v4 a) (v4 b) = bytes_eq a b
addr_eq (v6 a y) (v6 b z) = bytes_eq a b && bytes_eq y z
addr_eq _ _ = false

pub record Context : Type 0 where
  pub direction : Direction
  pub if_name : Bytes
  pub local_addrs : List Addr

-- The IP version of a packet and the family of an address, `neither` being 0.
pub data IpVersion : Type 0 where
  neither ipv4 ipv6 : IpVersion

unfoldable pub version_eq : IpVersion → IpVersion → Bool
version_eq neither neither = true
version_eq ipv4 ipv4 = true
version_eq ipv6 ipv6 = true
version_eq _ _ = false

pub ip_version : ℕ → IpVersion
ip_version nibble = if nibble == 4 then ipv4 else if nibble == 6 then ipv6 else neither

-- The interface `Packet`: what its methods report.
pub record Packet : Type 0 where
  pub version : IpVersion
  pub protocol : ℕ
  pub source_addr : Addr
  pub destination_addr : Addr
  pub is_fragment : Bool
  pub source_port : Option ℕ
  pub destination_port : Option ℕ
  pub tcp_flags : Option ℕ
  pub icmp_type : Option ℕ

abbrev pub byte_at : Bytes → ℕ → ℕ
byte_at packet idx = get_or packet idx 0

unfoldable pub addr4_at : Bytes → ℕ → Addr
addr4_at packet idx =
    if ltb (length packet) (idx + 4) then invalid else v4 (take 4 (drop idx packet))

unfoldable pub addr6_at : Bytes → ℕ → Addr
addr6_at packet idx =
    if ltb (length packet) (idx + 16) then invalid else v6 (take 16 (drop idx packet)) []

unfoldable pub uint16_at : Bytes → ℤ → Option ℕ
uint16_at packet (negsuc _) = none
uint16_at packet (pos idx) =
    if ltb (length packet) (idx + 2)
    then none
    else some (byte_at packet idx * 256 + byte_at packet (idx + 1))

unfoldable pub uint8_at : Bytes → ℤ → Option ℕ
uint8_at packet (negsuc _) = none
uint8_at packet (pos idx) = if ltb idx (length packet) then some (byte_at packet idx) else none

-- The two ports of a transport header that begins at `at`.
unfoldable pub set_ports : Bytes → ℕ → ℕ → ℕ → Bytes
set_ports packet at src dst =
    let a = set packet at (src / 256) in
    let b = set a (at + 1) (src % 256) in
    let c = set b (at + 2) (dst / 256) in set c (at + 3) (dst % 256)

-- `copy(packet[at:], bytes)`.
unfoldable pub copy_at : Bytes → ℕ → Bytes → Bytes
copy_at packet at [] = packet
copy_at packet at (b ∷ bytes) = copy_at (set packet at b) (at + 1) bytes
