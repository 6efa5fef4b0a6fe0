-- ===== src/Parse/Reads/Targets.antt =====
-- What the protocols and the targets of a rule body leave of the input.
use ipfw_go.Prelude.{
  ℕ, zero, suc, ◌+◌, ◌-◌, ◌%◌, ◌^◌, ◌<◌, Bool, true, false, [], ◌∷◌, Option, none, some, Bytes,
  codes, if◌then◌else◌, length, length-take_le, arith,
}
use ipfw_go.Resolver.{BodySide}
use ipfw_go.Rule.{TargetKind}
use ipfw_go.Parse.Lex.{
  Group, header_position, prefix, take_while, not_prefix, open_group, group_next,
}
use ipfw_go.Parse.Outcome.{Outcome, State, M}
use ipfw_go.Parse.Target
use ipfw_go.Parse.Target.{
  Class, class, bad, is_target_byte, is_table_value_byte, scan_target_token, before, table_tail,
  scan_table_token, classify_target, is_address_list_target, not_target, target_not,
  families_differ,
}
use ipfw_go.Parse.Target.Lists.{
  target_token, scan_element, classified, member_class, parse_first, parse_member, members_loop,
  parse_target_element, targets_loop, parse_targets,
}
use ipfw_go.Parse.Reads.{
  Behind, same, after, weak, of_drop, Opens, shut, opens, Reads, reads, fails, Reads-join,
  bound-Reads, emit-Reads,
}
use ipfw_go.Parse.Reads.Lex.{
  Parts, Parts-Behind, take_while-Parts, if-Parts, prefix-Opens, ws1-Opens,
}
use ipfw_go.Parse.Reads.Groups.{open_group-Behind, group_next-Reads, if-Reads}
use ipfw_go.Parse.Reads.Lists.{next_listed-Lists, next_element-Reads, next_alternative-Reads}
use ipfw_go.Parse.Reads.Protocols.{if-Behind}

not_target-Behind :
    (s : Bytes) {n : ℕ} (o : Option Bytes) → Opens n s o → Behind 0 s (not_target s o).0
not_target-Behind s none shut = same
not_target-Behind s (some []) (opens h) = weak h
not_target-Behind s (some (c ∷ r)) (opens h) =
    if-Behind _ _ _ same (behind-Behind (ws1-Opens (c ∷ r)))
  where
    behind-Behind :
        {o : Option Bytes} {m : ℕ} → Opens m (c ∷ r) o → Behind 0 s (Target.behind_not (c ∷ r) o).0
    behind-Behind shut = weak h
    behind-Behind (opens h') = after h h'

target_not-Behind : (s : Bytes) → Behind 0 s (target_not s).0
unfolding target_not not_prefix
target_not-Behind s = not_target-Behind s (prefix s (codes "not")) (prefix-Opens s (codes "not"))

scan_target_token-Parts : (s : Bytes) → Parts s (scan_target_token s)
unfolding scan_target_token
scan_target_token-Parts s = take_while-Parts s is_target_byte

before-Parts : {s r : Bytes} → Behind 0 s r → Parts s (before s r, r)
before-Parts {s} {r} h = record {
  suffix = h.suffix;
  lengths = omega (arith, length-take_le (length s - length r) s (omega arith), h.shorter);
}

scan_table_token-Parts :
    (s token rest : Bytes) → Parts s (token, rest) → Parts s (scan_table_token s token rest)
unfolding scan_table_token
scan_table_token-Parts s token rest h =
    let value = Parts-Behind (take_while-Parts rest is_table_value_byte) in
    let tail = Parts-Behind (scan_target_token-Parts (take_while rest is_table_value_byte).1) in
    if-Parts _ (before-Parts (after (Parts-Behind h) (after value tail))) h

scan_element-Parts : (s : Bytes) → Parts s (scan_element s)
unfolding scan_element
scan_element-Parts s =
    let (token, rest) = scan_target_token s in
    let cut = scan_target_token-Parts s in if-Parts _ (scan_table_token-Parts s token rest cut) cut

module _ {F : Type 0} where
  classified-Reads :
      {n : ℕ} (s : Bytes) {r : Bytes} (k : Class)
      → Behind n s r
      → Reads n s (classified {F = F} s r k)
  classified-Reads s (class kind text) h = reads h
  classified-Reads s (bad e offset) h = fails (of_drop offset s)

  first-Reads :
      (s : Bytes) (p : Bytes × Bytes)
      → Parts s p
      → Reads 1 s (classified {F = F} s p.1 (classify_target p.0))
  unfolding classify_target
  first-Reads s ([], r) h = fails (of_drop 0 s)
  first-Reads s (c ∷ t, r) h =
      classified-Reads s (classify_target (c ∷ t))
        (record { suffix = h.suffix; shorter = omega (arith, h.lengths) })

  parse_first-Reads : (s : Bytes) → Reads 1 s (parse_first {F = F} s)
  unfolding parse_first
  parse_first-Reads s = first-Reads s (scan_element s) (scan_element-Parts s)

  member_class-Reads :
      (family : TargetKind) {n : ℕ} (s : Bytes) {r : Bytes} (k : Class)
      → Behind n s r
      → Reads n s (member_class {F = F} family s r k)
  member_class-Reads family s (class kind text) h = if-Reads _ (fails same) (reads h)
  member_class-Reads family s (bad e offset) h = fails (of_drop offset s)

  member-Reads :
      (family : TargetKind) (s : Bytes) (p : Bytes × Bytes)
      → Parts s p
      → Reads 1 s (member_class {F = F} family s p.1 (classify_target p.0))
  unfolding classify_target
  member-Reads family s ([], r) h = fails (of_drop 0 s)
  member-Reads family s (c ∷ t, r) h =
      member_class-Reads family s (classify_target (c ∷ t))
        (record { suffix = h.suffix; shorter = omega (arith, h.lengths) })

  parse_member-Reads : (family : TargetKind) (s : Bytes) → Reads 1 s (parse_member {F = F} family s)
  unfolding parse_member
  parse_member-Reads family s =
      member-Reads family s (scan_target_token s) (scan_target_token-Parts s)

module _ {S F A : Type 0} where
  pub if-run :
      (b : Bool) {n : ℕ} {s : Bytes} (x y : S × Outcome F A)
      → Reads n s (x.1)
      → Reads n s (y.1)
      → Reads n s ((if b then x else y).1)
  if-run true x y h h' = h
  if-run false x y h h' = h'

  pub if-answer :
      (b : Bool) {n : ℕ} {s : Bytes} (m m' : M S F A) (σ : S)
      → Reads n s ((m σ).1)
      → Reads n s ((m' σ).1)
      → Reads n s (((if b then m else m') σ).1)
  if-answer true m m' σ h h' = h
  if-answer false m m' σ h h' = h'

module _ {S F : Type 0} (st : State S F) where
  members_loop-Reads :
      (f : ℕ) (side : BodySide) (neg : Bool) (pattern : ℕ) (family : TargetKind) (s : Bytes) (σ : S)
      → length s < f
      → Reads 1 s ((members_loop st f side neg pattern family s σ).1)
  unfolding members_loop
  members_loop-Reads zero side neg pattern family s σ fuel = absurd (omega arith)
  members_loop-Reads (suc f) side neg pattern family s σ fuel =
      bound-Reads (σ, parse_member family s) _ (parse_member-Reads family s)
        λ a r τ h. emit-Reads st (target_token side neg pattern a.0 a.1) s τ _ same λ υ.
          next_element-Reads (members_loop st f side neg pattern family) f υ
            (λ q. members_loop-Reads f side neg pattern family q υ) h (omega (arith, h.shorter))
            (next_listed-Lists r)

  parse_target_element-Reads :
      (side : BodySide) (pattern : ℕ) (s : Bytes) (σ : S)
      → Reads 1 s ((parse_target_element st side pattern s σ).1)
  unfolding parse_target_element
  parse_target_element-Reads side pattern s σ =
      let (rest, neg) = target_not s in
      Reads-join (target_not-Behind s)
        (bound-Reads (σ, parse_first rest) _ (parse_first-Reads rest)
          λ a r τ h. emit-Reads st (target_token side neg pattern a.0 a.1) rest τ _ same λ υ.
            if-answer (is_address_list_target a.0 a.1) _ _ υ
              (next_element-Reads (members_loop st (length r + 1) side neg pattern a.0)
                (length r + 1) υ
                (λ q fuel. members_loop-Reads (length r + 1) side neg pattern a.0 q υ fuel) h
                (omega arith) (next_listed-Lists r))
              (reads h))
        (omega arith)

  targets_loop-Reads :
      (f : ℕ) (g : Group) (side : BodySide) (pattern : ℕ) (s : Bytes) (σ : S)
      → length s < f
      → Reads 1 s ((targets_loop st f g side pattern s σ).1)
  unfolding targets_loop
  targets_loop-Reads zero g side pattern s σ fuel = absurd (omega arith)
  targets_loop-Reads (suc f) g side pattern s σ fuel =
      bound-Reads (parse_target_element st side pattern s σ) _
        (parse_target_element-Reads side pattern s σ)
        λ _ r τ h.
          bound-Reads (τ, group_next g r) _ (Reads-join h (group_next-Reads g r) (omega arith))
            λ more r' υ h'.
              next_alternative-Reads (targets_loop st f g side ((pattern + 1) % 2 ^ 16)) f υ more
                (λ q. targets_loop-Reads f g side ((pattern + 1) % 2 ^ 16) q υ) h' fuel

  pub parse_targets-Reads :
      (side : BodySide) (s : Bytes) (σ : S) → Reads 1 s ((parse_targets st side s σ).1)
  unfolding parse_targets
  parse_targets-Reads side s σ =
      let (g, rest) = open_group s header_position in
      Reads-join (open_group-Behind s header_position)
        (targets_loop-Reads (length rest + 1) g side 0 rest σ (omega arith)) (omega arith)
