-- ===== src/Parse/Reads/Protocols.antt =====
-- What the parsers of protocols leave of the input.
use ipfw_go.Prelude.{
  ℕ, zero, suc, ◌+◌, ◌<◌, Bool, true, false, [], ◌∷◌, Option, none, some, Bytes, codes,
  if◌then◌else◌, length, arith,
}
use ipfw_go.Rule.{Proto}
use ipfw_go.Parse.Lex.{
  Group, header_position, prefix, take_while, not_prefix, open_group, group_next,
}
use ipfw_go.Parse.Outcome.{Outcome, State}
use ipfw_go.Parse.Proto.{
  is_proto_byte, behind_not, not_protocol, protocol_not, proto_of, parse_proto, proto_token,
  as_element, parse_protocol_element, protocols_loop, parse_protocols,
}
use ipfw_go.Parse.Reads.{
  Behind, same, join, after, weak, Opens, shut, opens, Reads, reads, fails, Reads-join, bound-Reads,
  emit-Reads,
}
use ipfw_go.Parse.Reads.Lex.{Parts, take_while-Parts, prefix-Opens, ws1-Opens}
use ipfw_go.Parse.Reads.Groups.{open_group-Behind, group_next-Reads}
use ipfw_go.Parse.Reads.Lists.{next_alternative-Reads}

pub if-Behind :
    (b : Bool) {n : ℕ} {s : Bytes} (p q : Bytes × Bool)
    → Behind n s p.0
    → Behind n s q.0
    → Behind n s (if b then p else q).0
if-Behind true p q h h' = h
if-Behind false p q h h' = h'

behind_not-Behind :
    {s r : Bytes} {o : Option Bytes} {n : ℕ}
    → Behind 0 s r
    → Opens n r o
    → Behind 0 s (behind_not r o).0
behind_not-Behind h shut = h
behind_not-Behind h (opens h') = after h h'

not_protocol-Behind :
    (s : Bytes) {n : ℕ} (o : Option Bytes) → Opens n s o → Behind 0 s (not_protocol s o).0
not_protocol-Behind s none shut = same
not_protocol-Behind s (some []) (opens h) = weak h
not_protocol-Behind s (some (c ∷ r)) (opens h) =
    if-Behind (is_proto_byte c) _ _ same (behind_not-Behind (weak h) (ws1-Opens (c ∷ r)))

pub protocol_not-Behind : (s : Bytes) → Behind 0 s (protocol_not s).0
unfolding protocol_not not_prefix
protocol_not-Behind s =
    not_protocol-Behind s (prefix s (codes "not")) (prefix-Opens s (codes "not"))

module _ {F : Type 0} where
  proto_of-Reads : (s : Bytes) (p : Bytes × Bytes) → Parts s p → Reads 1 s (proto_of {F = F} s p)
  proto_of-Reads s ([], rest) h = fails same
  proto_of-Reads s (c ∷ name, rest) h =
      reads (record { suffix = h.suffix; shorter = omega (arith, h.lengths) })

  pub parse_proto-Reads : (s : Bytes) → Reads 1 s (parse_proto {F = F} s)
  unfolding parse_proto
  parse_proto-Reads s =
      proto_of-Reads s (take_while s is_proto_byte) (take_while-Parts s is_proto_byte)

  as_element-Reads :
      {s r : Bytes} {o : Outcome F Proto} → Behind 0 s r → Reads 1 r o → Reads 1 s (as_element s o)
  as_element-Reads h (reads h') = reads (join h h' (omega arith))
  as_element-Reads h (fails h') = fails same

module _ {S F : Type 0} (st : State S F) where
  parse_protocol_element-Reads : (s : Bytes) (σ : S) → Reads 1 s ((parse_protocol_element st s σ).1)
  unfolding parse_protocol_element
  parse_protocol_element-Reads s σ =
      let (rest, neg) = protocol_not s in
      bound-Reads (σ, as_element s (parse_proto rest)) _
        (as_element-Reads (protocol_not-Behind s) (parse_proto-Reads rest))
        λ p r τ h. emit-Reads st (proto_token neg p) s τ _ same λ υ. reads h

  protocols_loop-Reads :
      (f : ℕ) (g : Group) (s : Bytes) (σ : S)
      → length s < f
      → Reads 1 s ((protocols_loop st f g s σ).1)
  unfolding protocols_loop
  protocols_loop-Reads zero g s σ fuel = absurd (omega arith)
  protocols_loop-Reads (suc f) g s σ fuel =
      bound-Reads (parse_protocol_element st s σ) _ (parse_protocol_element-Reads s σ) λ _ r τ h.
        bound-Reads (τ, group_next g r) _ (Reads-join h (group_next-Reads g r) (omega arith))
          λ more r' υ h'.
            next_alternative-Reads (protocols_loop st f g) f υ more
              (λ q. protocols_loop-Reads f g q υ) h' fuel

  pub parse_protocols-Reads : (s : Bytes) (σ : S) → Reads 1 s ((parse_protocols st s σ).1)
  unfolding parse_protocols
  parse_protocols-Reads s σ =
      let (g, rest) = open_group s header_position in
      Reads-join (open_group-Behind s header_position)
        (protocols_loop-Reads (length rest + 1) g rest σ (omega arith)) (omega arith)
