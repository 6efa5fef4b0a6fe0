-- ===== src/Vm/Build/Linking.antt =====
-- vm/vm.go: `LinkNumbers`, the jumps to rule numbers, on a program that is well formed.
use ipfw_go.Prelude.{
  ℕ, ◌^◌, ◌≤◌, ◌<◌, List, [], ◌∷◌, ltb, ltb→lt, not_ltb→le, length, ◌≡◌, sym, ◌∙◌, subst, arith,
  Bool-cases, inl, inr,
}
use ipfw_go.Vm.Build.Links.{Within, with_jump-IsForward, length-with_jump}
use ipfw_go.Vm.Build.Sound.{IsWellFormed}
use ipfw_go.Vm.Build.{Builder, jump_target, link_numbers_from, link_numbers}
use ipfw_go.Vm.Check.Total.{IsForward}
use ipfw_go.Vm.Program.Numbers.{IsAscending, index_at-IsFirstFrom}
use ipfw_go.Vm.Program.{Program, index_at, link_rule}

module _ {V4 V6 : Type 0} where
  -- The program of a machine: its numbers ascend, a rule has its number, record and action, and the
  -- jumps go forward while indexes fit into 32 bits.
  pub record IsLinked (p : Program V4 V6) : Type 0 where
    pub numbers_length : length p.numbers ≡ length p.rules
    pub records_length : length p.records ≡ length p.rules
    pub actions_length : length p.actions ≡ length p.rules
    pub ascending : IsAscending p.numbers
    pub forward : length p.rules < 2 ^ 32 → IsForward p.rules

  -- The rule that a number stands for comes after every rule with a smaller number.
  jump_target-later :
      (p : Program V4 V6) (idx : ℕ)
      → length p.numbers ≡ length p.rules
      → IsAscending p.numbers
      → idx < length p.rules
      → idx < index_at p (jump_target p idx)
  jump_target-later p idx e up within =
      let (le, below, above) = index_at-IsFirstFrom p (jump_target p idx) up in
      elim (Bool-cases (ltb idx (index_at p (jump_target p idx)))) [
        | inl later ↦ ltb→lt _ _ later
        | inr not_later ↦ absurd (omega (arith, above idx (not_ltb→le _ _ not_later) (omega arith)))
      ]

  link_one-IsLinked :
      (p : Program V4 V6) (idx at : ℕ)
      → IsLinked p
      → idx < at
      → at ≤ length p.rules
      → IsLinked (link_rule p idx at)
  unfolding link_rule
  link_one-IsLinked p idx at w lt le =
      let same = length-with_jump p.rules idx at in
      record {
        numbers_length = w.numbers_length ∙ sym same;
        records_length = w.records_length ∙ sym same;
        actions_length = w.actions_length ∙ sym same;
        ascending = w.ascending;
        forward = λ h. with_jump-IsForward p.rules idx at (w.forward (omega arith)) (omega arith);
      }

  link_numbers_from-IsLinked :
      (p : Program V4 V6) (idxs waiting : List ℕ)
      → IsLinked p
      → Within (length p.rules) idxs
      → IsLinked ((link_numbers_from p idxs waiting).0)
  unfolding link_numbers_from link_rule
  link_numbers_from-IsLinked p [] waiting w h = w
  link_numbers_from-IsLinked p (idx ∷ idxs) waiting w (lt, h) =
      let at = index_at p (jump_target p idx) in
      elim (Bool-cases (ltb at (length p.rules))) [
        | inl found ↦
            rw (found, link_numbers_from)
              (link_numbers_from-IsLinked (link_rule p idx at) idxs _
                (link_one-IsLinked p idx at w
                  (jump_target-later p idx w.numbers_length w.ascending lt)
                  (omega (arith, ltb→lt _ _ found)))
                (subst (λ n. Within n idxs) (sym (length-with_jump p.rules idx at)) h))
        | inr missing ↦ rw (missing, link_numbers_from) (link_numbers_from-IsLinked p idxs _ w h)
      ]

  pub linked :
      {R : Type 0} (b : Builder V4 V6 R) → IsWellFormed b → IsLinked (link_numbers b).program
  unfolding link_numbers
  linked b w =
      link_numbers_from-IsLinked b.program b.number_jumps b.unresolved_numbers
        (record {
          numbers_length = w.numbers_length;
          records_length = w.records_length;
          actions_length = w.actions_length;
          ascending = w.ascending;
          forward = w.forward;
        })
        w.jumps_within
