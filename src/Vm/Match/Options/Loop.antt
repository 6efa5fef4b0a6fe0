-- ===== src/Vm/Match/Options/Loop.antt =====
-- The loop of `matchOptions` computes what the options mean.
use ipfw_go.Prelude.Int.{ℤ}
use ipfw_go.Prelude.Runs.{runs, take_while, drop_while, length-drop_while, drop_while-drop_while}
use ipfw_go.Prelude.{
  ℕ, zero, suc, ◌+◌, ◌≤◌, ◌<◌, Bool, true, false, List, [], ◌∷◌, ◌!=◌, Option, some, ◌≡◌, refl,
  arith, if◌then◌else◌, Bool-cases, inl, inr, ◌∙◌, sym, subst, ap, ap₂, length,
}
use ipfw_go.Rule.{Opt}
use ipfw_go.Vm.Fields.Cache.{Reads}
use ipfw_go.Vm.Fields.{Fields}
use ipfw_go.Vm.Machine.{Machine}
use ipfw_go.Vm.Match.Options.Value.{Gives, option_value, match_option-Gives}
use ipfw_go.Vm.Match.Options.{
  Matched, newer, match_option, skip_block, options_loop, options_run, match_options, after_pattern,
}
use ipfw_go.Vm.Match.{no_target}
use ipfw_go.Vm.Network.{TableRegistry}
use ipfw_go.Vm.Packet.{Context, Packet}
use ipfw_go.Vm.Match.Options.Meaning.{
  pattern_holds, see_members, see_patterns, see_blocks, options_value, see_members-held,
}
use ipfw_go.Vm.Match.Options.Blocks.{
  same_block, together, left, comes_more, skip_block-drop_while, options_hold-first,
  options_target-first, options_hold-comes_more, options_target-comes_more, drop_while-ends,
  rest_of_block-ends, first_pattern,
}
use ipfw_go.Vm.Match.Options.Members.{members_lem, see_members-Gives}

-- A list of options by what became of its first pattern.
module _ (value : Opt → Bool × ℤ) (first : Opt) (os : List Opt) (target : ℤ) where
  abbrev seen : Bool × ℤ
  seen = see_members value (false, target) (first ∷ take_while (together first) os)

  abbrev holds : Bool
  holds = seen.0 != first.neg

  abbrev value_by : Bool → ℤ → Bool × ℤ
  value_by held found = (held, if held then found else no_target)

  pattern_holds-seen : pattern_holds value (first_pattern value first os) ≡ holds
  pattern_holds-seen =
      ap (λ b. b != first.neg)
        (sym (see_members-held value false target (first ∷ take_while (together first) os)))

  drop-left : drop_while (same_block first) (left first os) ≡ drop_while (same_block first) os
  drop-left = drop_while-drop_while (same_block first) (together first) os (λ o h. ground arith)

  -- It holds: the rest of the block is passed over.
  value_after :
      holds ≡ true
      → options_value value target (first ∷ os)
        ≡ options_value value seen.1 (drop_while (same_block first) os)
  unfolding see_patterns
  value_after h =
      ap₂ value_by (options_hold-first value first os ∙ rw (pattern_holds-seen ∙ h))
        (options_target-first value first os target ∙ rw h)

  -- It fails, and another pattern of the block comes.
  value_next :
      holds ≡ false
      → comes_more first (left first os) ≡ true
      → options_value value target (first ∷ os) ≡ options_value value seen.1 (left first os)
  unfolding see_patterns
  value_next h more =
      ap₂ value_by
        (options_hold-first value first os
          ∙ rw (pattern_holds-seen ∙ h)
              (rw (options_hold-comes_more value first (left first os) more, drop-left)))
        (options_target-first value first os target
          ∙ rw h
              (rw (options_target-comes_more value first seen.1 (left first os) more, drop-left)))

  -- It fails, and was the last of its block.
  value_fails :
      holds ≡ false
      → comes_more first (left first os) ≡ false
      → options_value value target (first ∷ os) ≡ (false, no_target)
  value_fails h ends = rw (
    options_hold-first value first os,
    pattern_holds-seen ∙ h,
    rest_of_block-ends value first (left first os) ends,
  )

  -- Where the loop goes on when the pattern holds.
  next_block :
      (more : Bool) (rest : List Opt)
      → more ≡ comes_more first (left first os)
      → rest ≡ left first os
      → (if more then skip_block first.block rest else rest) ≡ drop_while (same_block first) os
  next_block true rest e l = rw (l, skip_block-drop_while first (left first os)) drop-left
  next_block false rest e l =
      l ∙ sym (drop_while-ends value first (left first os) (sym e)) ∙ drop-left

module _ {V4 V6 R F : Type 0} (reg : TableRegistry V4 V6 R F) (m : Machine V4 V6 R) (ctx : Context)
    (pkt : Packet) where
  abbrev value : Opt → Bool × ℤ
  value p = option_value reg m p ctx pkt

  -- The run ends, and gives what the options mean.
  abbrev Answers : Bool × ℤ → Option Matched → Type 0
  Answers v run = (r : Matched) × (run ≡ some r) × Gives pkt v r

  -- What the loop does with the first pattern, on the part of the fuel that is left.
  after_pattern-Answers :
      (n : ℕ) (first : Opt) (os : List Opt) (target : ℤ)
      → ((t : ℤ) (f : Fields) (xs : List Opt)
          → length xs ≤ length os
          → Reads pkt f
          → Answers (options_value value t xs) (options_loop reg m n ctx pkt t f xs))
      → (more : Bool) (rest : List Opt) (held : Bool) (found : ℤ) (f : Fields)
      → more ≡ comes_more first (left first os)
      → rest ≡ left first os
      → Gives pkt (seen value first os target) (held, found, f)
      → Answers
          (options_value value target (first ∷ os))
          (after_pattern (options_loop reg m n ctx pkt) first (more, rest, (held, found, f)))
  after_pattern-Answers n first os target ih more rest held found f e l (h, t, r) =
      elim (Bool-cases (held != first.neg)) [
        | inl yes_now ↦
            rw (yes_now, next_block value first os target more rest e l)
              (subst
                (λ v.
                  Answers v
                    (options_loop reg m n ctx pkt found f (drop_while (same_block first) os)))
                (ap (λ k. options_value value k (drop_while (same_block first) os)) t
                  ∙ sym (
                      value_after value first os target
                        (ap (λ b. b != first.neg) (sym h) ∙ yes_now)))
                (ih found f (drop_while (same_block first) os) (length-drop_while _ os) r))
        | inr no_now ↦ elim (Bool-cases more) [
          | inl goes_on ↦
              rw (no_now, goes_on, l)
                (subst (λ v. Answers v (options_loop reg m n ctx pkt found f (left first os)))
                  (ap (λ k. options_value value k (left first os)) t
                    ∙ sym (
                        value_next value first os target (ap (λ b. b != first.neg) (sym h) ∙ no_now)
                          (sym e ∙ goes_on)))
                  (ih found f (left first os) (length-drop_while _ os) r))
          | inr ends ↦
              rw (no_now, ends)
                (subst (λ v. Answers v (some (false, no_target, f)))
                  (sym (
                    value_fails value first os target (ap (λ b. b != first.neg) (sym h) ∙ no_now)
                      (sym e ∙ ends)))
                  ((false, no_target, f), refl, (refl, refl, r)))
        ]
      ]

  options_loop-Answers :
      (n : ℕ) (target : ℤ) (f : Fields) (os : List Opt)
      → length os < n
      → Reads pkt f
      → Answers (options_value value target os) (options_loop reg m n ctx pkt target f os)
  unfolding options_loop see_members runs see_blocks
  options_loop-Answers zero target f os h r = absurd (omega arith)
  options_loop-Answers (suc n) target f [] h r = ((true, target, f), refl, (refl, refl, r))
  options_loop-Answers (suc n) target f (first ∷ os) h r =
      let q = match_option reg m first ctx pkt f in
      let g = match_option-Gives reg m first ctx r in
      let (more, rest, gives) =
        members_lem reg m ctx pkt first os q.0 (newer q.1 target) q.2 (g.2) in
      after_pattern-Answers n first os target
        (λ t f' xs le. options_loop-Answers n t f' xs (omega arith)) _ _ _ _ _ more rest
        (see_members-Gives reg m ctx pkt (take_while (together first) os) _ g.0
          (ap (λ k. newer k target) g.1) gives)

  -- The options of a rule, whatever has been read from the packet before them: the loop ends, and
  -- gives whether every or-block holds, a block by one of its patterns and a pattern by one of its
  -- members under its `not`, with the tablearg target of the last lookup that found an entry.
  pub match_options-Gives :
      (os : List Opt) (f : Fields)
      → Reads pkt f
      → (options_run reg m ctx pkt f os ≡ some (match_options reg m os ctx pkt f))
        × Gives pkt (options_value value no_target os) (match_options reg m os ctx pkt f)
  unfolding match_options
  match_options-Gives os f r =
      let (x, e, gives) = options_loop-Answers (length os + 1) no_target f os (omega arith) r in
      rw (e, options_run) (refl, gives)
