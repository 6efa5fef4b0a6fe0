-- ===== src/Vm/Packet/Reads6.antt =====
-- vm/packet.go: what the accessors of a raw IPv6 packet read from one that `WithTCP` has made.
use ipfw_go.Prelude.Int.{pos, ◌+ₙ◌}
use ipfw_go.Prelude.{
  ℕ, ◌/◌, ◌≤◌, ◌<◌, false, not, some, Bytes, if◌then◌else◌, ◌≡◌, refl, ap, ◌∙◌, arith,
}
use ipfw_go.Vm.Packet.Builders.{made, made_ports, byte_made_h, byte_made_below}
use ipfw_go.Vm.Packet.Builders6.{with_protocol_at, with_protocol, with_tcp_at, with_tcp}
use ipfw_go.Vm.Packet.Ipv6.{
  Ipv6Layout, walked_transport, is_extension_header, layout, version, protocol, is_fragment,
  source_port, destination_port, tcp_flags,
}
use ipfw_go.Vm.Packet.Layout.{layout-first}
use ipfw_go.Vm.Packet.{
  byte_at, uint16_at, uint8_at, set_ports, ip_version, ipv6_header_len, proto_tcp,
}

tcp_is_no_extension : is_extension_header proto_tcp ≡ false
unfolding is_extension_header
tcp_is_no_extension = refl

-- `WithTCP` on an IPv6 packet with no extension header: it does not panic, and the packet that it
-- makes is a TCP one with the ports and the flags given, no fragment, and of the version that it had.
pub with_tcp6-reads :
    (m : Bytes) (flags src dst : ℕ)
    → is_extension_header (byte_at m 6) ≡ false
    → (packet : Bytes) × (with_tcp m flags src dst ≡ some packet)
      × (protocol packet ≡ proto_tcp)
      × (source_port packet ≡ some src)
      × (destination_port packet ≡ some dst)
      × (tcp_flags packet ≡ some flags)
      × (is_fragment packet ≡ false)
      × (version packet ≡ version m)
unfolding with_tcp with_protocol set_ports protocol source_port destination_port tcp_flags
    is_fragment version
with_tcp6-reads m flags src dst plain =
    let p = made m flags src dst 40 6 in
    let far : 20 ≤ 40 = omega arith in
    let near : 6 < 20 = omega arith in
    let next = byte_made_h m flags src dst 40 6 far near in
    let (s, d, f) = made_ports m flags src dst 40 6 far near in
    let direct : is_extension_header (byte_at p 6) ≡ false =
      ap is_extension_header next ∙ tcp_is_no_extension in
    (
      p,
      ap
          (λ (l : Ipv6Layout).
            with_tcp_at flags src dst (with_protocol_at m l.next_header proto_tcp 14 l.transport))
          (layout-first m plain),
      ap (λ b. if not b then byte_at p 6 else (layout p).protocol) direct ∙ next,
      ap (λ b. if b then uint16_at p (walked_transport p) else uint16_at p (pos 40)) direct ∙ s,
      ap (λ b. if b then uint16_at p (walked_transport p +ₙ 2) else uint16_at p (pos 42)) direct
          ∙ d,
      ap (λ b. uint8_at p ((if b then walked_transport p else pos ipv6_header_len) +ₙ 13)) direct
          ∙ f,
      ap (λ b. if not b then false else (layout p).fragment) direct,
      ap (λ b. ip_version (b / 16))
          (byte_made_below m flags src dst 40 6 0 far near (omega arith) refl),
    )
