-- ===== src/Vm/Match.antt =====
-- vm/vm.go: the matchers of ports, protocols and table values. `Targets`, `Options` and `Body` are
-- those of the addresses, of the options and of a whole rule.
pub mod Targets
pub mod Options
pub mod Body
pub mod Ports
use ipfw_go.Prelude.{
  ℕ, ◌+◌, ◌*◌, ◌-◌, ◌%◌, ◌^◌, Bool, true, false, not, ◌&&◌, List, [], ◌∷◌, Option, none, some,
  Bytes, bytes_eq, ◌==◌, ◌!=◌, ltb, leb, if◌then◌else◌, length,
}
use ipfw_go.Prelude.Int.{ℤ, negsuc}
use ipfw_go.Rule.{
  ProtoIpMatch, ProtoNumberMatch, PortNumberMatch, PortRange, OptKind, proto_contains, proto_ipv4,
  proto_ipv6,
}
use ipfw_go.Vm.Packet.{Context, Direction, inbound, outbound, IpVersion, neither, ipv4, ipv6}

abbrev pub no_target : ℤ
no_target = negsuc 0

abbrev pub unnamed_target : ℤ
unnamed_target = negsuc 1

abbrev ports_first_neg : List PortNumberMatch → Bool
ports_first_neg [] = false
ports_first_neg (m ∷ _) = m.neg

ports_loop : Bool → List PortNumberMatch → ℕ → Bool
ports_loop otherwise [] port = otherwise
ports_loop otherwise (m ∷ ms) port =
    if leb m.lo port && leb port m.hi then not m.neg else ports_loop otherwise ms port

-- `matchPorts`
unfoldable pub match_ports : List PortNumberMatch → ℕ → Bool
unfolding ports_loop
match_ports ms port = ports_loop (ports_first_neg ms) ms port

unfoldable pub in_range : ℕ → PortRange → Bool
in_range port ports = leb ports.lo.number port && leb port ports.hi.number

-- A field that is there and in the range.
abbrev pub has_in_range : Option ℕ → PortRange → Bool
has_in_range none ports = false
has_in_range (some port) ports = in_range port ports

ip_protos_loop : List ProtoIpMatch → ℕ → Bool
ip_protos_loop [] bit = false
ip_protos_loop (m ∷ ms) bit =
    if proto_contains m.proto bit != m.neg then true else ip_protos_loop ms bit

ip_protos_version : List ProtoIpMatch → IpVersion → Bool
unfolding ip_protos_loop proto_contains
ip_protos_version ms ipv4 = ip_protos_loop ms proto_ipv4
ip_protos_version ms ipv6 = ip_protos_loop ms proto_ipv6
ip_protos_version ms neither = false

-- `matchIPProtos`
unfoldable pub match_ip_protos : List ProtoIpMatch → IpVersion → Bool
unfolding ip_protos_version
match_ip_protos [] version = true
match_ip_protos (m ∷ ms) version = ip_protos_version (m ∷ ms) version

protos_loop : List ProtoNumberMatch → ℕ → Bool
protos_loop [] protocol = false
protos_loop (m ∷ ms) protocol =
    if (m.number == protocol) != m.neg then true else protos_loop ms protocol

-- `matchProtos`
unfoldable pub match_protos : List ProtoNumberMatch → ℕ → Bool
unfolding protos_loop
match_protos [] protocol = true
match_protos (m ∷ ms) protocol = protos_loop (m ∷ ms) protocol

-- `value[idx] - '0'` on bytes.
abbrev digit_of : ℕ → ℕ
digit_of c = (c + 256 - b'0') % 256

number_from : ℕ → Bytes → Option ℕ
number_from number [] = if leb number (2 ^ 32 - 1) then some number else none
number_from number (c ∷ cs) =
    if ltb 9 (digit_of c) then none else number_from (number * 10 + digit_of c) cs

-- `tableNumber`: a value of decimal digits within 32 bits.
unfoldable pub table_number : Bytes → Option ℕ
unfolding number_from
table_number [] = none
table_number (c ∷ cs) = if ltb 10 (length (c ∷ cs)) then none else number_from 0 (c ∷ cs)

abbrev same_value : Option ℕ → Option ℕ → Bool → Bool
same_value (some a) (some b) as_text = a == b
same_value _ _ as_text = as_text

-- `sameTableValue`
unfoldable pub same_table_value : Bytes → Bytes → Bool
unfolding table_number bytes_eq
same_table_value value other =
    same_value (table_number value) (table_number other) (bytes_eq value other)

-- `ctx.Direction == d`
abbrev pub is_direction : Direction → Direction → Bool
is_direction inbound inbound = true
is_direction outbound outbound = true
is_direction _ _ = false

-- `matchPolicy`
unfoldable pub match_policy : OptKind → Context → Bool
match_policy OptKind.keep_state ctx = true
match_policy OptKind.comment ctx = true
match_policy OptKind.anti_spoof ctx = is_direction outbound ctx.direction
match_policy _ ctx = false
