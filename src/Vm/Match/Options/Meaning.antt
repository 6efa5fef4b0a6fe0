-- ===== src/Vm/Match/Options/Meaning.antt =====
-- What the options of a rule mean for a packet: blocks, their patterns, and the members of these.
use ipfw_go.Prelude.Int.{ℤ}
use ipfw_go.Prelude.Runs.{Run, runs}
use ipfw_go.Prelude.{
  ℕ, Bool, true, false, ◌||◌, List, [], ◌∷◌, ◌!=◌, any, all, ◌≡◌, arith, if◌then◌else◌,
}
use ipfw_go.Rule.{Opt}
use ipfw_go.Vm.Match.Options.{newer}
use ipfw_go.Vm.Match.{no_target}

abbrev pub block_of : Opt → ℕ
block_of o = o.block

abbrev pub pattern_of : Opt → ℕ
pattern_of o = o.pattern

module _ (value : Opt → Bool × ℤ) where
  -- One member of a list is enough, or none may hold under its `not`.
  abbrev pub pattern_holds : Run Opt → Bool
  pattern_holds (o, os) = any (λ p. (value p).0) (o ∷ os) != o.neg

  -- A block holds when one of its patterns does, and a rule's options when every block does.
  abbrev pub block_holds : Run Opt → Bool
  block_holds (o, os) = any pattern_holds (runs pattern_of (o ∷ os))

  abbrev pub options_hold : List Opt → Bool
  options_hold os = all block_holds (runs block_of os)

  -- A member is looked at until one has held; the last table lookup that found an entry counts.
  abbrev pub see_member : Bool × ℤ → Opt → Bool × ℤ
  see_member (true, target) o = (true, target)
  see_member (false, target) o = ((value o).0, newer (value o).1 target)

  unfoldable pub see_members : Bool × ℤ → List Opt → Bool × ℤ
  see_members r [] = r
  see_members r (o ∷ os) = see_members (see_member r o) os

  -- A pattern is looked at until one has held.
  unfoldable pub see_patterns : ℤ → List (Run Opt) → ℤ
  see_patterns target [] = target
  see_patterns target ((o, os) ∷ ps) =
      let (held, target') = see_members (false, target) (o ∷ os) in
      let rest = see_patterns target' ps in if held != o.neg then target' else rest

  unfoldable pub see_blocks : ℤ → List (Run Opt) → ℤ
  see_blocks target [] = target
  see_blocks target ((o, os) ∷ bs) = see_blocks (see_patterns target (runs pattern_of (o ∷ os))) bs

  -- The tablearg target of the options: blocks in order.
  abbrev pub options_target : ℤ → List Opt → ℤ
  options_target target os = see_blocks target (runs block_of os)

  pub see_members-held :
      (held : Bool) (target : ℤ) (os : List Opt)
      → (see_members (held, target) os).0 ≡ (held || any (λ p. (value p).0) os)
  unfolding see_members
  see_members-held held target [] = ground arith
  see_members-held true target (o ∷ os) = see_members-held true target os
  see_members-held false target (o ∷ os) =
      see_members-held (value o).0 (newer (value o).1 target) os

-- What the options of a rule give: whether they hold and, if so, their tablearg target.
abbrev pub options_value : (Opt → Bool × ℤ) → ℤ → List Opt → Bool × ℤ
options_value value target os =
    let held = options_hold value os in
    (held, if held then options_target value target os else no_target)
