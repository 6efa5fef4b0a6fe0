-- ===== src/Vm/Match/Options/Members.antt =====
-- The inner loop of `matchOptions` takes the members of one pattern.
use ipfw_go.Prelude.Int.{ℤ, int_eq}
use ipfw_go.Prelude.Runs.{take_while, drop_while}
use ipfw_go.Prelude.{
  Bool, true, false, List, [], ◌∷◌, ◌≡◌, refl, Bool-cases, inl, inr, sym, subst₂, ap,
}
use ipfw_go.Rule.{Opt, OptKind}
use ipfw_go.Vm.Fields.Cache.{
  Reads, read_ports-Reads, read_ports-source_port, read_ports-destination_port,
}
use ipfw_go.Vm.Fields.{Fields}
use ipfw_go.Vm.Machine.{Machine}
use ipfw_go.Vm.Match.Options.Value.{Gives, option_value, match_option-Gives}
use ipfw_go.Vm.Match.Options.{Matched, member_kind, match_member, members}
use ipfw_go.Vm.Match.{has_in_range}
use ipfw_go.Vm.Network.{TableRegistry}
use ipfw_go.Vm.Packet.{Context, Packet}
use ipfw_go.Vm.Match.Options.Meaning.{see_member, see_members}
use ipfw_go.Vm.Match.Options.Blocks.{same_block, same_pattern, together, left, comes_more}

-- What the fields aside, the inner loop computes.
module _ {V4 V6 R F : Type 0} (reg : TableRegistry V4 V6 R F) (m : Machine V4 V6 R) (ctx : Context)
    (pkt : Packet) where
  abbrev value : Opt → Bool × ℤ
  value p = option_value reg m p ctx pkt

  member_kind-Gives :
      (o : Opt) (target : ℤ) {f : Fields} (k : OptKind)
      → Reads pkt f
      → k ≡ o.kind
      → Gives pkt (see_member value (false, target) o) (member_kind reg m o ctx pkt target f k)
  unfolding int_eq
  member_kind-Gives o target OptKind.source_port r e =
      rw (← e)
        (ap (λ p. has_in_range p o.ports) (read_ports-source_port r), refl, read_ports-Reads r)
  member_kind-Gives o target OptKind.destination_port r e =
      rw (← e)
        (ap (λ p. has_in_range p o.ports) (read_ports-destination_port r), refl, read_ports-Reads r)
  member_kind-Gives o target _ r e =
      let g = match_option-Gives reg m o ctx r in (g.0, rw (g.1), g.2)

  match_member-Gives :
      (o : Opt) (held : Bool) (target : ℤ) (f : Fields)
      → Reads pkt f
      → Gives pkt
          (see_member value (held, target) o)
          (match_member reg m o ctx pkt (held, target, f))
  unfolding match_member
  match_member-Gives o true target f r = (refl, refl, r)
  match_member-Gives o false target f r = member_kind-Gives o target o.kind r refl

  pub see_members-Gives :
      (os : List Opt) (r : Matched) {held held' : Bool} {target target' : ℤ}
      → held ≡ held'
      → target ≡ target'
      → Gives pkt (see_members value (held, target) os) r
      → Gives pkt (see_members value (held', target') os) r
  see_members-Gives os r p q = subst₂ (λ a b. Gives pkt (see_members value (a, b) os) r) p q

  -- The inner loop takes the members of the pattern, and leaves the others.
  pub members_lem :
      (first : Opt) (os : List Opt) (held : Bool) (target : ℤ) (f : Fields)
      → Reads pkt f
      → let r = members reg m ctx pkt first os (held, target, f) in
        (r.0 ≡ comes_more first (left first os))
        × (r.1 ≡ left first os)
        × Gives pkt (see_members value (held, target) (take_while (together first) os)) r.2
  unfolding members take_while drop_while see_members
  members_lem first [] held target f r = (refl, refl, (refl, refl, r))
  members_lem first (o ∷ os) held target f r = elim (Bool-cases (same_block first o)) [
    | inr other ↦ rw other (sym other, refl, (refl, refl, r))
    | inl block ↦ elim (Bool-cases (same_pattern first o)) [
      | inr next ↦ rw (block, next) (sym block, refl, (refl, refl, r))
      | inl same ↦
          rw (block, same)
            (let q = match_member reg m o ctx pkt (held, target, f) in
              let g = match_member-Gives o held target f r in
              let (more, rest, gives) = members_lem first os q.0 q.1 q.2 (g.2) in
              (more, rest, see_members-Gives (take_while (together first) os) _ g.0 g.1 gives))
    ]
  ]
