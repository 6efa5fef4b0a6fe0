-- ===== src/Rule/Opts.antt =====
-- opt.go, port.go and proto.go: rule options and the arguments they carry.
use ipfw_go.Prelude.{
  ℕ, ◌/◌, ◌%◌, ◌^◌, Bool, not, List, Bytes, ◌==◌, bit_and, bit_or, get_or, set, replicate,
}

-- The IP versions as bits: `ip` and `all` mean both.
abbrev pub proto_ipv4 : ℕ
proto_ipv4 = 1

abbrev pub proto_ipv6 : ℕ
proto_ipv6 = 2

abbrev pub proto_ip_any : ℕ
proto_ip_any = 3

-- `Contains`: whether every version in `o` is in `m`.
unfoldable pub proto_contains : ℕ → ℕ → Bool
proto_contains m o = bit_and m o == o

pub record Proto : Type 0 where
  pub name : Bytes
  pub number : ℕ

pub record Port : Type 0 where
  pub name : Bytes
  pub number : ℕ

pub record PortRange : Type 0 where
  pub lo : Port
  pub hi : Port

pub data OptKind : Type 0 where
  unset comment diverted source_port destination_port established frag : OptKind
  icmp_types icmp6_types dir_in dir_out keep_state proto tcp_flags via anti_spoof custom : OptKind

-- A set of type numbers: four words of 64 bits.
pub record TypeSet : Type 0 where
  pub bits : List ℕ

unfoldable pub type_set_add : TypeSet → ℕ → TypeSet
type_set_add m ty = record {
  bits = set m.bits (ty / 64) (bit_or (get_or m.bits (ty / 64) 0) (2 ^ (ty % 64)));
}

unfoldable pub type_set_has : TypeSet → ℕ → Bool
type_set_has m ty = not (bit_and (get_or m.bits (ty / 64) 0) (2 ^ (ty % 64)) == 0)

abbrev pub empty_type_set : TypeSet
empty_type_set = record { bits = replicate 4 0 }

-- The TCP flags that the matcher names, at their wire bits.
abbrev pub tcp_syn : ℕ
tcp_syn = 2

abbrev pub tcp_rst : ℕ
tcp_rst = 4

abbrev pub tcp_ack : ℕ
tcp_ack = 16

pub record TcpFlags : Type 0 where
  pub set_flags : ℕ
  pub clear_flags : ℕ

pub data ViaKind : Type 0 where
  unset exact mask table : ViaKind

pub record Via : Type 0 where
  pub kind : ViaKind
  pub name : Bytes
  pub value : Bytes

-- An option, with its or-block and its match pattern.
pub record Opt : Type 0 where
  pub neg : Bool
  pub block : ℕ
  pub pattern : ℕ
  pub kind : OptKind
  pub text : Bytes
  pub arg : Bytes
  pub ports : PortRange
  pub proto : Proto
  pub types : TypeSet
  pub tcp_flags : TcpFlags
  pub via : Via
