-- ===== src/Vm/Build/Run/Text.antt =====
-- vm/vm.go: `Build`, over the text of a ruleset: the loop drives `Next` of the parser, which hands
-- every token through the resolver to the builder. The parser has no command hook.
use ipfw_go.Prelude.{ℕ, zero, suc, Option, none, some, if◌then◌else◌}
use ipfw_go.Errors.{
  Cause, Result, ok, err, unresolved_target, unresolved_proto, unresolved_service,
  expected_ipv4_network, expected_ipv6_network, foreign,
}
use ipfw_go.Parse.Body.{Grammar}
use ipfw_go.Parse.Next.{Parser, ParseError, Step, read, unread, no_step, next}
use ipfw_go.Parse.Outcome.{ErrorKind, Fault, State}
use ipfw_go.Resolver.{Environment, on_token}
use ipfw_go.Vm.Build.Run.{
  Config, Outcome, invalid_config, parse_error, no_end, on_record, validate, is_some,
}
use ipfw_go.Vm.Build.Tokens.{on_call}
use ipfw_go.Vm.Build.{Builder, new_builder}
use ipfw_go.Vm.Network.{TableRegistry}

-- The interface `error`: the errors of this code as values of it, and what `errors.As` finds in the
-- chain of one: a kind, a kind with a cause, or no kind.
pub record ErrorValues (F : Type 0) : Type 0 where
  pub of_cause : Cause F → F
  pub of_parse : ParseError F → F
  pub as_kind : F → Fault F

-- `Wrap`, of the two kinds for networks: an error that is the kind itself is not wrapped again.
abbrev pub wrap_network4 : {F : Type 0} → F → Fault F → Fault F
wrap_network4 e (Fault.kind ErrorKind.expected_ipv4_network) =
    Fault.kind ErrorKind.expected_ipv4_network
wrap_network4 e _ = Fault.wrapped ErrorKind.expected_ipv4_network e

abbrev pub wrap_network6 : {F : Type 0} → F → Fault F → Fault F
wrap_network6 e (Fault.kind ErrorKind.expected_ipv6_network) =
    Fault.kind ErrorKind.expected_ipv6_network
wrap_network6 e _ = Fault.wrapped ErrorKind.expected_ipv6_network e

-- What `failFrom` makes of the error of a callback.
abbrev pub fault_of : {F : Type 0} → ErrorValues F → Cause F → Fault F
fault_of vals unresolved_target = Fault.kind ErrorKind.unresolved_target
fault_of vals unresolved_proto = Fault.kind ErrorKind.unresolved_proto
fault_of vals unresolved_service = Fault.kind ErrorKind.unresolved_service
fault_of vals (expected_ipv4_network e) = wrap_network4 e (vals.as_kind e)
fault_of vals (expected_ipv6_network e) = wrap_network6 e (vals.as_kind e)
fault_of vals (foreign e) = vals.as_kind e
fault_of vals c = Fault.foreign (vals.of_cause c)

-- The answer of a callback. A refused token leaves the builder as it was: only the networks of one
-- name are more than one call of the builder, and it refuses none of those.
abbrev pub on_answer : {F B : Type 0} → ErrorValues F → B → Result F B → B × Option (Fault F)
on_answer vals m (ok m') = (m', none)
on_answer vals m (err c) = (m, some (fault_of vals c))

module _ {V4 V6 R F : Type 0} (env : Environment V4 V6 F) (reg : TableRegistry V4 V6 R F)
    (cfg : Config) (vals : ErrorValues F) (g : Grammar F) where
  -- `NewResolver(sink, cfg.Environment)`
  unfoldable pub resolving : State (Builder V4 V6 R) F
  unfolding on_token on_call
  resolving t m = on_answer vals m (on_token env on_call m t)

  abbrev pub on_step :
      (Parser → Builder V4 V6 R → Outcome V4 V6 R F)
      → Builder V4 V6 R × Step F × Parser
      → Outcome V4 V6 R F
  on_step loop (m, read rec, p) = on_record env reg cfg m rec rec.kind (loop p)
  on_step loop (m, unread e, p) = parse_error m.tables (vals.of_parse e)
  on_step loop (m, no_step, p) = no_end m.tables

  -- `no_end` says that the fuel ran out.
  unfoldable pub build_loop : ℕ → Parser → Builder V4 V6 R → Outcome V4 V6 R F
  unfolding next resolving on_record
  build_loop zero p m = no_end m.tables
  build_loop (suc f) p m = on_step (λ p' m'. build_loop f p' m') (next g none resolving p m)

  unfoldable pub build_text : ℕ → R → Parser → Outcome V4 V6 R F
  unfolding validate build_loop
  build_text f tables p =
      if validate cfg
      then build_loop f p (new_builder tables (is_some env reg cfg cfg.option_matcher))
      else invalid_config
