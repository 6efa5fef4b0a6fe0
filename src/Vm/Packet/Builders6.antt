-- ===== src/Vm/Packet/Builders6.antt =====
-- vm/packet.go: the builders of `RawIPv6Packet`. A builder that panics is `none`.
use ipfw_go.Prelude.Int.{ℤ, pos, negsuc}
use ipfw_go.Prelude.{
  ℕ, ◌+◌, ◌*◌, ◌/◌, ◌%◌, ◌^◌, Bool, not, ◌&&◌, ◌||◌, [], ◌∷◌, ◌++◌, Option, none, some, Bytes,
  bytes_eq, ◌==◌, ltb, if◌then◌else◌, length, set, take, drop, replicate,
}
use ipfw_go.Vm.Packet.Ipv4.{grow}
use ipfw_go.Vm.Packet.Ipv6.{layout}
use ipfw_go.Vm.Packet.{
  Addr, v6, byte_at, copy_at, set_ports, ipv6_header_len, proto_fragment, proto_no_next_header,
  proto_tcp, proto_udp, proto_icmpv6,
}

-- `Is4In6`
abbrev is_4_in_6 : Bytes → Bool
unfolding bytes_eq
is_4_in_6 bytes = bytes_eq (take 12 bytes) (replicate 10 0 ++ 255 ∷ 255 ∷ [])

unfoldable pub new_packet : Addr → Addr → Option Bytes
unfolding copy_at is_4_in_6
new_packet (v6 from _) (v6 to _) =
    if is_4_in_6 from || is_4_in_6 to
    then none
    else some (
        copy_at (copy_at (set (set (replicate 64 0) 0 (6 * 16)) 6 proto_no_next_header) 8 from) 24
          to)
new_packet _ _ = none

abbrev pub with_protocol_at : Bytes → ℕ → ℕ → ℕ → ℤ → Option (Bytes × ℕ)
with_protocol_at m next protocol room (negsuc _) = none
with_protocol_at m next protocol room (pos at) = some (set (grow m (at + room)) next protocol, at)

unfoldable pub with_protocol : Bytes → ℕ → ℕ → Option (Bytes × ℕ)
unfolding layout
with_protocol m protocol room =
    let l = layout m in with_protocol_at m l.next_header protocol room l.transport

abbrev pub with_tcp_at : ℕ → ℕ → ℕ → Option (Bytes × ℕ) → Option Bytes
with_tcp_at flags src dst none = none
with_tcp_at flags src dst (some (m, at)) = some (set (set_ports m at src dst) (at + 13) flags)

unfoldable pub with_tcp : Bytes → ℕ → ℕ → ℕ → Option Bytes
unfolding with_protocol set_ports
with_tcp m flags src dst = with_tcp_at flags src dst (with_protocol m proto_tcp 14)

abbrev with_udp_at : ℕ → ℕ → Option (Bytes × ℕ) → Option Bytes
with_udp_at src dst none = none
with_udp_at src dst (some (m, at)) = some (set_ports m at src dst)

unfoldable pub with_udp : Bytes → ℕ → ℕ → Option Bytes
unfolding with_protocol set_ports
with_udp m src dst = with_udp_at src dst (with_protocol m proto_udp 8)

abbrev with_icmp6_at : ℕ → ℕ → Option (Bytes × ℕ) → Option Bytes
with_icmp6_at ty code none = none
with_icmp6_at ty code (some (m, at)) = some (set (set m at ty) (at + 1) code)

unfoldable pub with_icmp6 : Bytes → ℕ → ℕ → Option Bytes
unfolding with_protocol
with_icmp6 m ty code = with_icmp6_at ty code (with_protocol m proto_icmpv6 4)

-- The packet with a fragment header right after the fixed one, inserted when there is none.
abbrev with_fragment_header : Bytes → Bytes
with_fragment_header m =
    if byte_at m 6 == proto_fragment
    then m
    else set (take ipv6_header_len m ++ (byte_at m 6 ∷ replicate 7 0) ++ drop ipv6_header_len m) 6
        proto_fragment

abbrev set_uint16 : Bytes → ℕ → ℕ → Bytes
set_uint16 m at value = set (set m at (value / 256)) (at + 1) (value % 256)

abbrev with_offset : Bytes → ℕ → Option Bytes
with_offset m offset =
    if ltb (length m) (ipv6_header_len + 4)
    then none
    else some (set_uint16 m (ipv6_header_len + 2) (offset * 8 % 2 ^ 16 + byte_at m 43 % 8))

-- Go panics on bytes that end inside the fixed header. On bytes that end inside a fragment header that
-- they name, what it does depends on the capacity of the copy; here it is `none` too.
unfoldable pub with_fragment_offset : Bytes → ℕ → Option Bytes
with_fragment_offset m offset =
    if ltb (length m) 7 || not (byte_at m 6 == proto_fragment) && ltb (length m) ipv6_header_len
    then none
    else with_offset (with_fragment_header m) offset
