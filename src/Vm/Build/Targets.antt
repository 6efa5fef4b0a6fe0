-- ===== src/Vm/Build/Targets.antt =====
-- vm/vm.go: where `LinkNumbers` points the jumps to rule numbers.
use ipfw_go.Prelude.{
  ℕ, ◌<◌, false, List, [], ◌∷◌, ◌==◌, ==_iff, length, get_elem?, ◌≡◌, refl, arith, inl, inr, ◌⊎◌,
  some, Option-cases, get_elem?-set_self, get_elem?-set_ne, get_elem?_of_lt,
}
use ipfw_go.Vm.Build.{jump_target}
use ipfw_go.Vm.Program.{Program, Rule, to_u32, with_jump, index_at}

-- The index is one of the list's.
abbrev pub Listed : ℕ → List ℕ → Type 0
Listed i [] = ⊥
Listed i (j ∷ js) = (i ≡ j) ⊎ Listed i js

-- The rule at the index is there and jumps to the target.
abbrev pub JumpsTo : List Rule → ℕ → ℕ → Type 0
JumpsTo rules idx target = (r : Rule) × (get_elem? rules idx ≡ some r) × (r.jump ≡ to_u32 target)

pub with_jump-here :
    (rules : List Rule) (idx target : ℕ)
    → idx < length rules
    → JumpsTo (with_jump target (get_elem? rules idx) rules idx) idx target
with_jump-here rules idx target lt =
    let (r, e) = get_elem?_of_lt rules idx lt in
    rw e (_, get_elem?-set_self rules idx (record r { jump = to_u32 target }) lt, refl)

pub with_jump-there :
    (rules : List Rule) (idx target other : ℕ)
    → (idx == other) ≡ false
    → get_elem? (with_jump target (get_elem? rules idx) rules idx) other ≡ get_elem? rules other
with_jump-there rules idx target other ne = elim (Option-cases (get_elem? rules idx)) [
  | inl e ↦ rw e refl
  | inr (r, e) ↦
      rw e (get_elem?-set_ne rules idx other _ (λ same. ground (arith, ==_iff idx other)))
]

module _ {V4 V6 : Type 0} where
  -- The index that a jump of the rule is linked to.
  abbrev pub target_of : Program V4 V6 → ℕ → ℕ
  target_of p idx = index_at p (jump_target p idx)
