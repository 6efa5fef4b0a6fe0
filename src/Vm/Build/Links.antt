-- ===== src/Vm/Build/Links.antt =====
-- The jumps of a program under construction: those that wait are of rules that are there, and those
-- that are set go forward.
use mathlib.Core.Option.{some-injective}
use ipfw_go.Prelude.Maps.{lookup, lookup-All}
use ipfw_go.Prelude.{
  ℕ, ◌≤◌, ◌<◌, List, [], ◌∷◌, ◌++◌, All, Bytes, ◌==◌, ==_iff, ltb, ltb→lt, not_ltb→le, length,
  get_elem?, set, ◌≡◌, refl, sym, ap, ◌∙◌, subst, arith, Bool-cases, Option-cases, inl, inr,
  length-append, length-set, get_elem?-set_self, get_elem?-set_ne, lt-length_of_get_elem?,
  get_elem?-append_left, get_elem?-append_self,
}
use ipfw_go.Rule.{ActionKind}
use ipfw_go.Vm.Check.Total.{IsForward}
use ipfw_go.Vm.Program.{Rule, to_u32, with_jump}
use ipfw_go.Vm.Build.{or_none}

-- The indexes of the waiting jumps are those of rules that are there.
abbrev pub Within : ℕ → List ℕ → Type 0
Within n idxs = All (λ idx. idx < n) idxs

abbrev pub WithinAll : ℕ → List (Bytes × List ℕ) → Type 0
WithinAll n pending = All (λ e. Within n (e.1)) pending

pub Within-le : (a b : ℕ) (idxs : List ℕ) → a ≤ b → Within a idxs → Within b idxs
Within-le a b [] h w = tt
Within-le a b (idx ∷ idxs) h (lt, w) = (omega arith, Within-le a b idxs h w)

pub Within-append :
    (n idx : ℕ) (idxs : List ℕ) → idx < n → Within n idxs → Within n (idxs ++ idx ∷ [])
Within-append n idx [] h w = (h, tt)
Within-append n idx (i ∷ idxs) h (lt, w) = (lt, Within-append n idx idxs h w)

pub WithinAll-le :
    (a b : ℕ) (pending : List (Bytes × List ℕ)) → a ≤ b → WithinAll a pending → WithinAll b pending
WithinAll-le a b [] h w = tt
WithinAll-le a b ((k, idxs) ∷ pending) h (lt, w) =
    (Within-le a b idxs h lt, WithinAll-le a b pending h w)

-- The jumps that wait for a label.
pub lookup-Within :
    (n : ℕ) (k : Bytes) (pending : List (Bytes × List ℕ))
    → WithinAll n pending
    → Within n (or_none (lookup k pending))
lookup-Within n k pending w = elim (Option-cases (lookup k pending)) [
  | inl e ↦ rw e tt
  | inr (idxs, e) ↦ rw e (lookup-All (Within n) k pending w e)
]

-- Changing one rule keeps the jumps forward when the new one goes forward.
set-IsForward :
    (rules : List Rule) (idx : ℕ) (r : Rule)
    → IsForward rules
    → (r.kind ≡ ActionKind.skip_to → idx < r.jump)
    → IsForward (set rules idx r)
set-IsForward rules idx r fwd here j q at k = elim (Bool-cases (idx == j)) [
  | inl e ↦
      let same = (==_iff idx j).0 e in
      let is_there : idx < length rules =
        omega (arith, lt-length_of_get_elem? (set rules idx r) j at, length-set rules idx r) in
      let q_is : r ≡ q = some-injective r q (
        sym (get_elem?-set_self rules idx r is_there)
        ∙ ap (get_elem? (set rules idx r)) same
        ∙ at) in
      subst (λ x. j < x.jump) q_is (omega (arith, here (ap (λ x. x.kind) q_is ∙ k)))
  | inr e ↦
      fwd j q (sym (get_elem?-set_ne rules idx j r (λ same. ground (arith, ==_iff idx j))) ∙ at) k
]

pub append-IsForward :
    (rules : List Rule) (r : Rule)
    → IsForward rules
    → (r.kind ≡ ActionKind.skip_to → length rules < r.jump)
    → IsForward (rules ++ r ∷ [])
append-IsForward rules r fwd here j q at k = elim (Bool-cases (ltb j (length rules))) [
  | inl old ↦ fwd j q (sym (get_elem?-append_left rules (r ∷ []) j (ltb→lt _ _ old)) ∙ at) k
  | inr new ↦
      let last : j ≡ length rules = omega (
        arith,
        not_ltb→le _ _ new,
        lt-length_of_get_elem? (rules ++ r ∷ []) j at,
        length-append rules (r ∷ []),
      ) in
      let q_is : r ≡ q = some-injective r q (sym (get_elem?-append_self rules r j last) ∙ at) in
      subst (λ x. j < x.jump) q_is (omega (arith, here (ap (λ x. x.kind) q_is ∙ k)))
]

pub with_jump-IsForward :
    (rules : List Rule) (idx target : ℕ)
    → IsForward rules
    → idx < to_u32 target
    → IsForward (with_jump target (get_elem? rules idx) rules idx)
with_jump-IsForward rules idx target fwd h = elim (Option-cases (get_elem? rules idx)) [
  | inl e ↦ rw e fwd
  | inr (r, e) ↦ rw e (set-IsForward rules idx (record r { jump = to_u32 target }) fwd (λ k. h))
]

pub length-with_jump :
    (rules : List Rule) (idx target : ℕ)
    → length (with_jump target (get_elem? rules idx) rules idx) ≡ length rules
length-with_jump rules idx target = elim (Option-cases (get_elem? rules idx)) [
  | inl e ↦ rw e refl
  | inr (r, e) ↦ rw e (length-set rules idx _)
]
