-- ===== src/Parse/Options/Values.antt =====
-- opt.go and action.go: the arguments of options: types, TCP flags, interfaces and flow names.
use ipfw_go.Prelude.{
  ℕ, zero, suc, Bool, true, false, not, ◌&&◌, ◌||◌, List, [], ◌∷◌, Option, none, some, Bytes, codes,
  contains_byte, ◌==◌, leb, if◌then◌else◌, bit_or,
}
use ipfw_go.Rule.{OptKind, TypeSet, TcpFlags, Via, ViaKind, type_set_add}
use ipfw_go.Parse.Lex.{is_ascii_space, prefix, take_while, parse_u8, ws1, token}
use ipfw_go.Parse.Outcome.{Outcome, done, failed, no_fuel, ErrorKind}
use ipfw_go.Parse.Port.{Listed, another, ended, next_listed}

-- `icmpTypeInRange` and `unknownTypeKind`
unfoldable pub icmp_type_in_range : OptKind → ℕ → Bool
icmp_type_in_range OptKind.icmp_types number = leb number 31
icmp_type_in_range OptKind.icmp6_types number = leb number 201
icmp_type_in_range _ number = false

unfoldable pub unknown_type_kind : OptKind → ErrorKind
unknown_type_kind OptKind.icmp6_types = ErrorKind.unknown_icmp6_type
unknown_type_kind _ = ErrorKind.unknown_icmp_type

module _ {F : Type 0} where
  abbrev pub after_type :
      (TypeSet → Bytes → Outcome F TypeSet) → TypeSet → Listed → Outcome F TypeSet
  after_type loop types (ended rest) = done types rest
  after_type loop types (another rest) = loop types rest

  abbrev pub type_read :
      (TypeSet → Bytes → Outcome F TypeSet)
      → OptKind
      → TypeSet
      → Bytes
      → Option (ℕ × Bytes)
      → Outcome F TypeSet
  type_read loop kind types buf none = failed ErrorKind.expected_u8 buf none
  type_read loop kind types buf (some (ty, after)) =
      if not (icmp_type_in_range kind ty)
      then failed (unknown_type_kind kind) buf none
      else after_type loop (type_set_add types ty) (next_listed after)

  -- The loop of `parseTypesOption`.
  unfoldable pub types_loop : ℕ → OptKind → TypeSet → Bytes → Outcome F TypeSet
  unfolding parse_u8 icmp_type_in_range unknown_type_kind type_set_add next_listed
  types_loop zero kind types buf = no_fuel
  types_loop (suc f) kind types buf = type_read (types_loop f kind) kind types buf (parse_u8 buf)

-- `tcpFlagNames`, in the order tried, and `tcpFlagByName`.
abbrev pub tcp_flag_names : List (Bytes × ℕ)
tcp_flag_names =
    (codes "fin", 1)
    ∷ (codes "syn", 2)
    ∷ (codes "rst", 4)
    ∷ (codes "psh", 8)
    ∷ (codes "ack", 16)
    ∷ (codes "urg", 32)
    ∷ []

abbrev pub flag_found : ℕ → Option (ℕ × Bytes) → Option Bytes → Option (ℕ × Bytes)
flag_found flag onward (some rest) = some (flag, rest)
flag_found flag onward none = onward

unfoldable pub flag_by_name : List (Bytes × ℕ) → Bytes → Option (ℕ × Bytes)
unfolding prefix
flag_by_name [] s = none
flag_by_name ((name, flag) ∷ names) s = flag_found flag (flag_by_name names s) (prefix s name)

unfoldable pub tcp_flag_by_name : Bytes → Option (ℕ × Bytes)
unfolding flag_by_name
tcp_flag_by_name s = flag_by_name tcp_flag_names s

abbrev pub add_flag : Bool → TcpFlags → ℕ → TcpFlags
add_flag true flags flag = record flags { clear_flags = bit_or flags.clear_flags flag }
add_flag false flags flag = record flags { set_flags = bit_or flags.set_flags flag }

abbrev pub behind_bang : Bytes → Option Bytes → Bytes × Bool
behind_bang buf none = (buf, false)
behind_bang buf (some after) = (after, true)

module _ {F : Type 0} where
  abbrev pub after_flag :
      (TcpFlags → Bytes → Outcome F TcpFlags) → TcpFlags → Listed → Outcome F TcpFlags
  after_flag loop flags (ended rest) = done flags rest
  after_flag loop flags (another rest) = loop flags rest

  abbrev pub flag_read :
      (TcpFlags → Bytes → Outcome F TcpFlags)
      → TcpFlags
      → Bool
      → Bytes
      → Option (ℕ × Bytes)
      → Outcome F TcpFlags
  flag_read loop flags cleared after_bang none = failed ErrorKind.unknown_tcp_flag after_bang none
  flag_read loop flags cleared after_bang (some (flag, after)) =
      after_flag loop (add_flag cleared flags flag) (next_listed after)

  -- The loop of `parseTCPFlagsOption`.
  unfoldable pub flags_loop : ℕ → TcpFlags → Bytes → Outcome F TcpFlags
  unfolding prefix tcp_flag_by_name next_listed
  flags_loop zero flags buf = no_fuel
  flags_loop (suc f) flags buf =
      let (after_bang, cleared) = behind_bang buf (prefix buf (codes "!")) in
      flag_read (flags_loop f) flags cleared after_bang (tcp_flag_by_name after_bang)

unfoldable pub is_if_name_byte : ℕ → Bool
unfolding is_ascii_space
is_if_name_byte c = not (is_ascii_space c) && not (c == b'/') && not (c == b'{') && not (c == b'}')

unfoldable pub is_table_name_byte : ℕ → Bool
unfolding is_ascii_space
is_table_name_byte c = not (is_ascii_space c) && not (c == b')') && not (c == b',')

unfoldable pub is_via_value_byte : ℕ → Bool
unfolding is_ascii_space
is_via_value_byte c = not (is_ascii_space c) && not (c == b')')

-- `strings.ContainsAny(name, "*?[]")`
unfoldable pub has_glob : Bytes → Bool
unfolding contains_byte
has_glob name =
    contains_byte name b'*'
    || contains_byte name b'?'
    || contains_byte name b'['
    || contains_byte name b']'

abbrev pub table_via : Bytes → Bytes → Via
table_via name value = record { kind = ViaKind.table; name = name; value = value }

module _ {F : Type 0} where
  abbrev pub via_closed : Bytes → Bytes → Bytes → Option Bytes → Outcome F Via
  via_closed name value rest none = failed ErrorKind.expected_prefix rest none
  via_closed name value rest (some after) = done (table_via name value) after

  abbrev pub via_value : Bytes → Bytes → Bytes × Bytes → Outcome F Via
  via_value name buf ([], rest) = failed ErrorKind.expected_table_value buf none
  via_value name buf (c ∷ value, rest) = via_closed name (c ∷ value) rest (prefix rest (codes ")"))

  abbrev pub via_comma : Bytes → Bytes → Option Bytes → Outcome F Via
  via_comma name rest none = via_closed name [] rest (prefix rest (codes ")"))
  via_comma name rest (some buf) = via_value name buf (take_while buf is_via_value_byte)

  abbrev pub via_name : Bytes → Bytes × Bytes → Outcome F Via
  via_name s ([], rest) = failed ErrorKind.expected_table_name s none
  via_name s (c ∷ name, rest) = via_comma (c ∷ name) rest (prefix rest (codes ","))

  unfoldable pub parse_via_table : Bytes → Outcome F Via
  unfolding take_while is_table_name_byte is_via_value_byte prefix
  parse_via_table s = via_name s (take_while s is_table_name_byte)

  abbrev pub via_interface : Bytes → Bytes × Bytes → Outcome F Via
  via_interface s ([], rest) = failed ErrorKind.expected_opt s none
  via_interface s (c ∷ name, rest) =
      done
        (record {
          kind = if has_glob (c ∷ name) then ViaKind.mask else ViaKind.exact;
          name = c ∷ name;
          value = [];
        })
        rest

  abbrev pub via_of : Bytes → Option Bytes → Outcome F Via
  via_of s none = via_interface s (take_while s is_if_name_byte)
  via_of s (some buf) = parse_via_table buf

  unfoldable pub parse_via : Bytes → Outcome F Via
  unfolding prefix parse_via_table take_while is_if_name_byte has_glob
  parse_via s = via_of s (prefix s (codes "table("))

-- action.go: `parseFlowName`, the optional ` :flow`. Without it the input is left alone.
abbrev pub flow_of : Bytes → Bytes × Bytes → Bytes × Bytes
flow_of s ([], rest) = ([], s)
flow_of s (c ∷ flow, rest) = (c ∷ flow, rest)

abbrev pub flow_behind : Bytes → Option Bytes → Bytes × Bytes
flow_behind s none = ([], s)
flow_behind s (some rest) = flow_of s (token rest)

abbrev pub flow_space : Bytes → Option Bytes → Bytes × Bytes
flow_space s none = ([], s)
flow_space s (some rest) = flow_behind s (prefix rest (codes ":"))

unfoldable pub parse_flow_name : Bytes → Bytes × Bytes
unfolding ws1 prefix token
parse_flow_name s = flow_space s (ws1 s)
