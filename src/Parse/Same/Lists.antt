-- ===== src/Parse/Same/Lists.antt =====
-- The lists of a rule header: protocols, targets and ports.
use ipfw_go.Prelude.{ℕ, zero, suc, ◌+◌, ◌%◌, ◌^◌, Bool, true, false, Bytes, length}
use ipfw_go.Resolver.{BodySide}
use ipfw_go.Rule.{TargetKind}
use ipfw_go.Parse.Lex.{Group, group_next, open_group, not_ws1, header_position}
use ipfw_go.Parse.Outcome.{State, M, done, no_fuel}
use ipfw_go.Parse.Port.{
  Listed, ended, another, next_element, next_listed, parse_port_range, port_token, ports_loop,
  parse_ports,
}
use ipfw_go.Parse.Proto.{
  next_alternative, as_element, parse_proto, protocol_not, proto_token, parse_protocol_element,
  protocols_loop, parse_protocols,
}
use ipfw_go.Parse.Same.{both, Alike, Same, outcome-Both, pure-Same, bound-Both, emit-Both, if-Same}
use ipfw_go.Parse.Target.{is_address_list_target, target_not}
use ipfw_go.Parse.Target.Lists.{
  target_token, parse_first, parse_member, members_loop, behind_first, parse_target_element,
  targets_loop, parse_targets,
}

module _ {S T F : Type 0} {R : S → T → Type 0} where
  pub next_element-Same :
      {m : Bytes → M S F (Unit {0})} {n : Bytes → M T F (Unit {0})} (l : Listed)
      → ((r : Bytes) → Same R (m r) (n r))
      → Same R (next_element m l) (next_element n l)
  next_element-Same (ended rest) loop σ τ h = both h
  next_element-Same (another rest) loop σ τ h = loop rest σ τ h

  next_alternative-Same :
      {m : Bytes → M S F (Unit {0})} {n : Bytes → M T F (Unit {0})} (more : Bool) (rest : Bytes)
      → ((r : Bytes) → Same R (m r) (n r))
      → Same R (next_alternative m more rest) (next_alternative n more rest)
  next_alternative-Same true rest loop σ τ h = loop rest σ τ h
  next_alternative-Same false rest loop σ τ h = both h

module _ {S T F : Type 0} {R : S → T → Type 0} {st : State S F} {st' : State T F}
    (same : Alike R st st') where
  ports_loop-Same :
      (f : ℕ) (side : BodySide) (neg : Bool) (s : Bytes)
      → Same R (ports_loop st f side neg s) (ports_loop st' f side neg s)
  unfolding ports_loop
  ports_loop-Same zero side neg s = pure-Same no_fuel
  ports_loop-Same (suc f) side neg s = outcome-Both (parse_port_range s) _ _ λ range buf.
      emit-Both same (port_token side neg range) s _ _
        λ _ _. next_element-Same (next_listed buf) (ports_loop-Same f side neg)

  pub parse_ports-Same :
      (side : BodySide) (s : Bytes) → Same R (parse_ports st side s) (parse_ports st' side s)
  unfolding parse_ports
  parse_ports-Same side s =
      let (rest, neg) = not_ws1 s in ports_loop-Same (length rest + 1) side neg rest

  parse_protocol_element-Same :
      (s : Bytes) → Same R (parse_protocol_element st s) (parse_protocol_element st' s)
  unfolding parse_protocol_element
  parse_protocol_element-Same s =
      let (rest, neg) = protocol_not s in
      outcome-Both (as_element s (parse_proto rest)) _ _
        λ p after. emit-Both same (proto_token neg p) s _ _ λ _ _. pure-Same (done tt after)

  protocols_loop-Same :
      (f : ℕ) (g : Group) (s : Bytes) → Same R (protocols_loop st f g s) (protocols_loop st' f g s)
  unfolding protocols_loop
  protocols_loop-Same zero g s σ τ h = both h
  protocols_loop-Same (suc f) g s σ τ h =
      bound-Both _ _ (parse_protocol_element-Same s σ τ h) λ _ after.
        outcome-Both (group_next g after) _ _
          λ more rest. next_alternative-Same more rest (protocols_loop-Same f g)

  pub parse_protocols-Same : (s : Bytes) → Same R (parse_protocols st s) (parse_protocols st' s)
  unfolding parse_protocols
  parse_protocols-Same s =
      let (g, rest) = open_group s header_position in protocols_loop-Same (length rest + 1) g rest

  members_loop-Same :
      (f : ℕ) (side : BodySide) (neg : Bool) (pattern : ℕ) (family : TargetKind) (s : Bytes)
      → Same R
          (members_loop st f side neg pattern family s)
          (members_loop st' f side neg pattern family s)
  unfolding members_loop
  members_loop-Same zero side neg pattern family s = pure-Same no_fuel
  members_loop-Same (suc f) side neg pattern family s =
      outcome-Both (parse_member family s) _ _ λ member after.
        emit-Both same (target_token side neg pattern member.0 member.1) s _ _
          λ _ _. next_element-Same (next_listed after) (members_loop-Same f side neg pattern family)

  behind_first-Same :
      (side : BodySide) (neg : Bool) (pattern : ℕ) (kind : TargetKind) (text after : Bytes)
      → Same R
          (behind_first st side neg pattern kind text after)
          (behind_first st' side neg pattern kind text after)
  behind_first-Same side neg pattern kind text after σ τ h =
      if-Same (is_address_list_target kind text)
        (next_element-Same (next_listed after)
          (members_loop-Same (length after + 1) side neg pattern kind))
        (pure-Same (done tt after)) σ τ h

  parse_target_element-Same :
      (side : BodySide) (pattern : ℕ) (s : Bytes)
      → Same R (parse_target_element st side pattern s) (parse_target_element st' side pattern s)
  unfolding parse_target_element
  parse_target_element-Same side pattern s =
      let (rest, neg) = target_not s in
      outcome-Both (parse_first rest) _ _ λ member after.
        emit-Both same (target_token side neg pattern member.0 member.1) rest _ _
          λ _ _. behind_first-Same side neg pattern member.0 member.1 after

  targets_loop-Same :
      (f : ℕ) (g : Group) (side : BodySide) (pattern : ℕ) (s : Bytes)
      → Same R (targets_loop st f g side pattern s) (targets_loop st' f g side pattern s)
  unfolding targets_loop
  targets_loop-Same zero g side pattern s σ τ h = both h
  targets_loop-Same (suc f) g side pattern s σ τ h =
      bound-Both _ _ (parse_target_element-Same side pattern s σ τ h) λ _ after.
        outcome-Both (group_next g after) _ _ λ more rest.
          next_alternative-Same more rest (targets_loop-Same f g side ((pattern + 1) % 2 ^ 16))

  pub parse_targets-Same :
      (side : BodySide) (s : Bytes) → Same R (parse_targets st side s) (parse_targets st' side s)
  unfolding parse_targets
  parse_targets-Same side s =
      let (g, rest) = open_group s header_position in
      targets_loop-Same (length rest + 1) g side 0 rest
