-- ===== src/Vm/Build/Tokens.antt =====
-- vm/vm.go: the callbacks of `builder`: the program takes the token, after the builder has
-- rejected the options and the table lookups that the VM does not take.
pub mod Kept
use ipfw_go.Prelude.{Bool, true, false, not, Bytes, if◌then◌else◌, cut, contains_byte}
use ipfw_go.Errors.{Result, ok, err, unsupported_option, unsupported_table_value}
use ipfw_go.Resolver.{Call, BodySide, source_side, destination_side}
use ipfw_go.Rule.{Opt, OptKind, TargetMatch, PortNumberMatch}
use ipfw_go.Vm.Build.{Builder}
use ipfw_go.Vm.Program.{
  on_ip_proto, on_proto, on_source_target, on_destination_target, on_source_port,
  on_destination_port, on_option,
}

-- Whether a table lookup asks for its value as a plain one, not by name.
unfoldable pub table_value_supported : Bytes → Bool
unfolding cut contains_byte
table_value_supported lookup = let (_, value, _) = cut lookup b',' in not (contains_byte value b'=')

-- The kinds that the VM knows, a custom one if there is a matcher for it.
unfoldable pub option_supported : Bool → OptKind → Bool
option_supported custom OptKind.unset = false
option_supported custom OptKind.custom = custom
option_supported custom _ = true

module _ {V4 V6 R F : Type 0} where
  on_target : Builder V4 V6 R → BodySide → TargetMatch V4 V6 → Result F (Builder V4 V6 R)
  on_target m source_side x =
      if not (table_value_supported x.name)
      then err unsupported_table_value
      else ok (record m { program = on_source_target m.program x })
  on_target m destination_side x =
      if not (table_value_supported x.name)
      then err unsupported_table_value
      else ok (record m { program = on_destination_target m.program x })

  on_port : Builder V4 V6 R → BodySide → PortNumberMatch → Result F (Builder V4 V6 R)
  on_port m source_side x = ok (record m { program = on_source_port m.program x })
  on_port m destination_side x = ok (record m { program = on_destination_port m.program x })

  builder_on_option : Builder V4 V6 R → Opt → Result F (Builder V4 V6 R)
  builder_on_option m opt =
      if option_supported m.custom opt.kind
      then ok (record m { program = on_option m.program opt })
      else err unsupported_option

  -- The builder as the sink of a resolver.
  unfoldable pub on_call : Builder V4 V6 R → Call V4 V6 → Result F (Builder V4 V6 R)
  unfolding on_target on_port builder_on_option table_value_supported option_supported on_ip_proto
      on_proto on_source_target on_destination_target on_source_port on_destination_port on_option
  on_call m (Call.ip_proto x) = ok (record m { program = on_ip_proto m.program x })
  on_call m (Call.proto x) = ok (record m { program = on_proto m.program x })
  on_call m (Call.target side x) = on_target m side x
  on_call m (Call.port side x) = on_port m side x
  on_call m (Call.option x) = builder_on_option m x
