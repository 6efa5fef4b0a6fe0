-- ===== src/Parse/Reads/Rules.antt =====
-- What a rule and its parts leave of the input.
use ipfw_go.Prelude.{ℕ, Option, Bytes, codes}
use ipfw_go.Resolver.{source_side, destination_side}
use ipfw_go.Parse.Body.{keyword, whitespace, then_space, source_ports, parse_to, parse_body_header}
use ipfw_go.Parse.Outcome.{ErrorKind, State}
use ipfw_go.Parse.Port.{parse_ports}
use ipfw_go.Parse.Proto.{parse_protocols}
use ipfw_go.Parse.Target.Lists.{parse_targets}
use ipfw_go.Parse.Reads.{after, Opens, shut, opens, Reads, reads, bound-Reads}
use ipfw_go.Parse.Reads.Lex.{prefix-Opens, ws1-Opens}
use ipfw_go.Parse.Reads.Lists.{parse_ports-Reads}
use ipfw_go.Parse.Reads.OptionLists.{read_behind}
use ipfw_go.Parse.Reads.Targets.{parse_targets-Reads}
use ipfw_go.Parse.Reads.Protocols.{parse_protocols-Reads}
use ipfw_go.Parse.Reads.Actions.{keyword-Reads, whitespace-Reads}

then_space-Opens : {n : ℕ} {s : Bytes} {o : Option Bytes} → Opens n s o → Opens 0 s (then_space o)
then_space-Opens shut = shut
then_space-Opens {s = s} (opens {r} h) = opened (ws1-Opens r)
  where
    opened : {m : ℕ} {o : Option Bytes} → Opens m r o → Opens 0 s o
    opened shut = shut
    opened (opens h') = opens (after h h')

module _ {S F : Type 0} (st : State S F) where
  -- A parser behind the input, and then the rest.
  parse_to-Reads : (s : Bytes) (σ : S) → Reads 0 s ((parse_to st s σ).1)
  unfolding parse_to
  parse_to-Reads s σ = source_ports-Reads (then_space-Opens (prefix-Opens s (codes "to")))
    where
      source_ports-Reads : {o : Option Bytes} → Opens 0 s o → Reads 0 s ((source_ports st s o σ).1)
      source_ports-Reads (opens h) = reads h
      source_ports-Reads shut =
          bound-Reads (parse_ports st source_side s σ) _ (parse_ports-Reads st source_side s σ)
            λ _ a τ h.
              bound-Reads (τ, whitespace a) _ (read_behind h (whitespace-Reads a))
                λ _ b υ h'.
                  bound-Reads (υ, keyword ErrorKind.expected_prefix (codes "to") b) _
                    (read_behind h' (keyword-Reads ErrorKind.expected_prefix (codes "to") b))
                    λ _ c φ h''. read_behind h'' (whitespace-Reads c)

  pub parse_body_header-Reads : (s : Bytes) (σ : S) → Reads 0 s ((parse_body_header st s σ).1)
  unfolding parse_body_header
  parse_body_header-Reads s σ =
      bound-Reads (parse_protocols st s σ) _ (parse_protocols-Reads st s σ) λ _ a τ ha.
        bound-Reads (τ, whitespace a) _ (read_behind ha (whitespace-Reads a))
          λ _ b υ hb.
            bound-Reads (υ, keyword ErrorKind.expected_from (codes "from") b) _
              (read_behind hb (keyword-Reads ErrorKind.expected_from (codes "from") b))
              λ _ c φ hc.
                bound-Reads (φ, whitespace c) _ (read_behind hc (whitespace-Reads c))
                  λ _ d χ hd.
                    bound-Reads (parse_targets st source_side d χ) _
                      (read_behind hd (parse_targets-Reads st source_side d χ))
                      λ _ e ψ he.
                        bound-Reads (ψ, whitespace e) _ (read_behind he (whitespace-Reads e))
                          λ _ f ω hf.
                            bound-Reads (parse_to st f ω) _ (read_behind hf (parse_to-Reads f ω))
                              λ _ g ρ hg.
                                read_behind hg (parse_targets-Reads st destination_side g ρ)
