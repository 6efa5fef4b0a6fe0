-- ===== src/Vm/Match/Options/Blocks.antt =====
-- How the first pattern of a list of options, and its first block, bear on what the list means.
use ipfw_go.Prelude.Int.{ℤ}
use ipfw_go.Prelude.Runs.{
  Run, runs, runs-cons, take_while, drop_while, take_while-take_while, drop_while-take_while,
}
use ipfw_go.Prelude.{
  Bool, true, false, ◌&&◌, ◌||◌, List, [], ◌∷◌, ◌==◌, any, ◌≡◌, refl, arith, ==_iff, ◌∙◌, ap,
}
use ipfw_go.Rule.{Opt}
use ipfw_go.Vm.Match.Options.{skip_block}
use ipfw_go.Vm.Match.Options.Meaning.{
  block_of, pattern_of, pattern_holds, options_hold, see_patterns, see_blocks, options_target,
}

-- The options that the loop takes together with `first`, and those that it leaves.
module _ (first : Opt) where
  abbrev pub same_block : Opt → Bool
  same_block o = o.block == first.block

  abbrev pub same_pattern : Opt → Bool
  same_pattern o = o.pattern == first.pattern

  abbrev pub together : Opt → Bool
  together o = same_block o && same_pattern o

  abbrev pub left : List Opt → List Opt
  left os = drop_while together os

  -- Whether another pattern of the block comes.
  abbrev pub comes_more : List Opt → Bool
  comes_more [] = false
  comes_more (o ∷ os) = same_block o

pub skip_block-drop_while :
    (first : Opt) (os : List Opt) → skip_block first.block os ≡ drop_while (same_block first) os
unfolding skip_block drop_while
skip_block-drop_while first [] = refl
skip_block-drop_while first (o ∷ os) = ground (arith, skip_block-drop_while first os)

-- How the first pattern of a list of options bears on what they mean.
module _ (value : Opt → Bool × ℤ) (first : Opt) (os : List Opt) where
  -- The patterns of the block behind the first.
  abbrev pub later_patterns : List (Run Opt)
  later_patterns = runs pattern_of (take_while (same_block first) (left first os))

  abbrev pub first_pattern : Run Opt
  first_pattern = (first, take_while (together first) os)

  runs-block :
      runs pattern_of (first ∷ take_while (same_block first) os) ≡ first_pattern ∷ later_patterns
  runs-block = rw (
    runs-cons pattern_of first (take_while (same_block first) os),
    take_while-take_while (same_block first) (same_pattern first) os,
    drop_while-take_while (same_block first) (same_pattern first) os,
  )

  pub options_hold-first :
      options_hold value (first ∷ os)
      ≡ (pattern_holds value first_pattern || any (pattern_holds value) later_patterns)
        && options_hold value (drop_while (same_block first) os)
  options_hold-first = rw (runs-cons block_of first os, runs-block)

  pub options_target-first :
      (target : ℤ)
      → options_target value target (first ∷ os)
        ≡ options_target value
            (see_patterns value target (first_pattern ∷ later_patterns))
            (drop_while (same_block first) os)
  unfolding see_blocks
  options_target-first target = rw (runs-cons block_of first os) (
      ap
        (λ ps.
          see_blocks value (see_patterns value target ps)
            (runs block_of (drop_while (same_block first) os)))
        runs-block)

-- A list that goes on with the block of `first`: its first block is that one.
module _ (value : Opt → Bool × ℤ) (first : Opt) where
  abbrev pub rest_of_block : List Opt → List (Run Opt)
  rest_of_block xs = runs pattern_of (take_while (same_block first) xs)

  runs-comes_more :
      (q : Opt) (qs : List Opt)
      → q.block ≡ first.block
      → runs block_of (q ∷ qs)
        ≡ (q, take_while (same_block first) qs) ∷ runs block_of (drop_while (same_block first) qs)
  runs-comes_more q qs e =
      runs-cons block_of q qs
      ∙ ap
          (λ k.
            (q, take_while (λ o. o.block == k) qs)
            ∷ runs block_of (drop_while (λ o. o.block == k) qs))
          e

  pub options_hold-comes_more :
      (xs : List Opt)
      → comes_more first xs ≡ true
      → options_hold value xs
        ≡ any (pattern_holds value) (rest_of_block xs)
          && options_hold value (drop_while (same_block first) xs)
  unfolding take_while drop_while
  options_hold-comes_more [] h = cc
  options_hold-comes_more (q ∷ qs) h = rw (h, runs-comes_more q qs ((==_iff _ _).0 h))

  pub options_target-comes_more :
      (target : ℤ) (xs : List Opt)
      → comes_more first xs ≡ true
      → options_target value target xs
        ≡ options_target value
            (see_patterns value target (rest_of_block xs))
            (drop_while (same_block first) xs)
  unfolding take_while drop_while see_blocks
  options_target-comes_more target [] h = cc
  options_target-comes_more target (q ∷ qs) h = rw (h, runs-comes_more q qs ((==_iff _ _).0 h))

  pub drop_while-ends :
      (xs : List Opt) → comes_more first xs ≡ false → drop_while (same_block first) xs ≡ xs
  unfolding drop_while
  drop_while-ends [] h = refl
  drop_while-ends (q ∷ qs) h = rw h

  pub rest_of_block-ends : (xs : List Opt) → comes_more first xs ≡ false → rest_of_block xs ≡ []
  unfolding take_while runs
  rest_of_block-ends [] h = refl
  rest_of_block-ends (q ∷ qs) h = rw h
