-- ===== src/Vm/Build/Tokens/Kept.antt =====
-- The tokens of a rule change the arenas and nothing else of the program.
use ipfw_go.Prelude.{Bool-cases, inl, inr}
use ipfw_go.Resolver.Keeps.{Keeps}
use ipfw_go.Resolver.{Call, source_side, destination_side}
use ipfw_go.Vm.Build.Sound.{IsWellFormed}
use ipfw_go.Vm.Build.Tokens.{
  on_call, on_target, on_port, builder_on_option, table_value_supported, option_supported,
}
use ipfw_go.Vm.Build.{Builder}
use ipfw_go.Vm.Program.{
  on_ip_proto, on_proto, on_source_target, on_destination_target, on_source_port,
  on_destination_port, on_option,
}

pub on_call-IsWellFormed :
    {V4 V6 R : Type 0} (F : Type 0) (b : Builder V4 V6 R) (c : Call V4 V6)
    → IsWellFormed b
    → Keeps IsWellFormed (on_call {F = F} b c)
unfolding on_call on_target on_port builder_on_option on_ip_proto on_proto on_source_target
    on_destination_target on_source_port on_destination_port on_option
on_call-IsWellFormed F b (Call.ip_proto x) w = w
on_call-IsWellFormed F b (Call.proto x) w = w
on_call-IsWellFormed F b (Call.target source_side x) w =
    elim (Bool-cases (table_value_supported x.name)) [ inl y ↦ rw y w | inr n ↦ rw n tt ]
on_call-IsWellFormed F b (Call.target destination_side x) w =
    elim (Bool-cases (table_value_supported x.name)) [ inl y ↦ rw y w | inr n ↦ rw n tt ]
on_call-IsWellFormed F b (Call.port source_side x) w = w
on_call-IsWellFormed F b (Call.port destination_side x) w = w
on_call-IsWellFormed F b (Call.option x) w = elim (Bool-cases (option_supported b.custom x.kind)) [
  | inl y ↦ rw y w
  | inr n ↦ rw n tt
]
