-- ===== src/Vm/Program/Comments.antt =====
-- vm/vm.go: `DropComments`, whose loop in place leaves the list without its idle comments.
use ipfw_go.Prelude.{
  ◌≤◌, ℕ, zero, suc, ◌+◌, true, false, List, [], ◌∷◌, ◌++◌, Option, none, some, if◌then◌else◌,
  length, length-append, length-snoc, get_elem?, set, take, ◌≡◌, refl, sym, ap, ap₂, ◌∙◌, subst,
  arith, Bool-cases, inl, inr, append-nil, append_assoc, get_elem?-set_self, get_elem?-set_ne,
  lt-length_of_get_elem?, ◌==◌, ==_iff,
}
use ipfw_go.Rule.{Opt}
use ipfw_go.Vm.Program.{before, is_idle, compact_step, compact, compacted}

abbrev pub first_of : List Opt → Option Opt
first_of [] = none
first_of (o ∷ os) = some o

-- The options, of a list behind the option `prev`, that are no idle comments.
pub without_idle : Option Opt → List Opt → List Opt
without_idle prev [] = []
without_idle prev (o ∷ os) =
    let rest = without_idle (some o) os in if is_idle prev o (first_of os) then rest else o ∷ rest

pub length-without_idle :
    (prev : Option Opt) (os : List Opt) → length (without_idle prev os) ≤ length os
unfolding without_idle
length-without_idle prev [] = omega arith
length-without_idle prev (o ∷ os) = ground (arith, length-without_idle (some o) os)

get_elem?-middle :
    (pre rest : List Opt) (i : ℕ) → i ≡ length pre → get_elem? (pre ++ rest) i ≡ first_of rest
get_elem?-middle [] [] zero e = refl
get_elem?-middle [] (o ∷ rest) zero e = refl
get_elem?-middle [] rest (suc i) e = absurd (omega arith)
get_elem?-middle (p ∷ pre) rest zero e = absurd (omega arith)
get_elem?-middle (p ∷ pre) rest (suc i) e = get_elem?-middle pre rest i (omega arith)

take-middle : (pre rest : List Opt) → take (length pre) (pre ++ rest) ≡ pre
take-middle [] rest = refl
take-middle (p ∷ pre) rest = ap (◌∷◌ p) (take-middle pre rest)

set-middle :
    (pre : List Opt) (x : Opt) (rest : List Opt) (o : Opt)
    → set (pre ++ x ∷ rest) (length pre) o ≡ (pre ++ o ∷ []) ++ rest
set-middle [] x rest o = refl
set-middle (p ∷ pre) x rest o = ap (◌∷◌ p) (set-middle pre x rest o)

-- What the loop has kept so far, the room that it leaves behind, and what it has not looked at.
abbrev laid_out : List Opt → List Opt → List Opt → List Opt
laid_out pre gap rest = pre ++ (gap ++ rest)

next_laid_out :
    (pre gap : List Opt) (o : Opt) (rest : List Opt)
    → laid_out pre gap (o ∷ rest) ≡ laid_out pre (gap ++ o ∷ []) rest
next_laid_out pre gap o rest = ap (◌++◌ pre) (sym (append_assoc gap (o ∷ []) rest))

-- An option that is kept moves to the front of the room.
moved : List Opt → Opt → List Opt
moved [] o = []
moved (g ∷ gap) o = gap ++ o ∷ []

length-moved : (gap : List Opt) (o : Opt) → length (moved gap o) ≡ length gap
unfolding moved
length-moved [] o = refl
length-moved (g ∷ gap) o = length-snoc gap o

set-laid_out :
    (pre gap : List Opt) (o : Opt) (rest : List Opt)
    → set (laid_out pre gap (o ∷ rest)) (length pre) o ≡ laid_out (pre ++ o ∷ []) (moved gap o) rest
unfolding moved
set-laid_out pre [] o rest = set-middle pre o rest o
set-laid_out pre (g ∷ gap) o rest =
    set-middle pre g (gap ++ o ∷ rest) o ∙ next_laid_out (pre ++ o ∷ []) gap o rest

-- What stands before an index behind the kept options and the room.
get_elem?-laid_out :
    (pre gap rest : List Opt) (i : ℕ)
    → i ≡ length pre + length gap
    → get_elem? (laid_out pre gap rest) i ≡ first_of rest
get_elem?-laid_out pre gap rest i e =
    subst (λ os. get_elem? os i ≡ first_of rest) (append_assoc pre gap rest)
      (get_elem?-middle (pre ++ gap) rest i (omega (arith, length-append pre gap)))

compact_step_lem :
    (o : Opt) (os : List Opt) (next prev : Option Opt) (idx kept : ℕ)
    → get_elem? os idx ≡ some o
    → get_elem? os (idx + 1) ≡ next
    → before os idx ≡ prev
    → compact_step (get_elem? os idx) os idx kept
      ≡ (if is_idle prev o next then (os, kept) else (set os kept o, kept + 1))
compact_step_lem o os next prev idx kept here en ep = rw (here, en, ep) refl

before-next : (os : List Opt) (idx : ℕ) → before os (idx + 1) ≡ get_elem? os idx
before-next os idx = let e : idx + 1 ≡ suc idx = omega arith in ap (before os) e

-- An option that is kept still stands where it was looked at.
get_elem?-kept :
    (pre gap : List Opt) (o : Opt) (rest os : List Opt) (idx kept : ℕ)
    → os ≡ laid_out pre gap (o ∷ rest)
    → kept ≡ length pre
    → idx ≡ length pre + length gap
    → get_elem? os idx ≡ some o
    → get_elem? (set os kept o) idx ≡ some o
get_elem?-kept pre gap o rest os idx kept eo ek ei here = elim (Bool-cases (kept == idx)) [
  | inl same ↦ rw (← (==_iff kept idx).0 same) (
      get_elem?-set_self os kept o
        (omega (arith, (==_iff kept idx).0 same, lt-length_of_get_elem? os idx here)))
  | inr other ↦
      get_elem?-set_ne os kept idx o (λ e. absurd (ground (arith, ==_iff kept idx))) ∙ here
]

without_idle-inl :
    (prev : Option Opt) (o : Opt) (rest : List Opt)
    → is_idle prev o (first_of rest) ≡ true
    → without_idle prev (o ∷ rest) ≡ without_idle (some o) rest
unfolding without_idle
without_idle-inl prev o rest h = rw h refl

without_idle-inr :
    (prev : Option Opt) (o : Opt) (rest : List Opt)
    → is_idle prev o (first_of rest) ≡ false
    → without_idle prev (o ∷ rest) ≡ o ∷ without_idle (some o) rest
unfolding without_idle
without_idle-inr prev o rest h = rw h refl

-- The rest of the loop on what a round leaves, and the options that it keeps.
abbrev after_step : List Opt → ℕ → List Opt × ℕ → List Opt
after_step rest idx s = let r = compact (length rest) (idx + 1) (s.1) (s.0) in take (r.1) (r.0)

-- The loop, from any of its rounds on.
abbrev Compacts : List Opt → Option Opt → List Opt → List Opt × ℕ → Type 0
Compacts pre prev rest r = take (r.1) (r.0) ≡ pre ++ without_idle prev rest

compact_lem :
    (pre gap rest os : List Opt) (prev : Option Opt) (idx kept : ℕ)
    → os ≡ laid_out pre gap rest
    → kept ≡ length pre
    → idx ≡ length pre + length gap
    → before os idx ≡ prev
    → Compacts pre prev rest (compact (length rest) idx kept os)
unfolding compact without_idle
compact_lem pre gap [] os prev idx kept eo ek ei eb =
    rw (eo, ek) (take-middle pre (gap ++ []) ∙ sym (append-nil pre))
compact_lem pre gap (o ∷ rest) os prev idx kept eo ek ei eb =
    let here : get_elem? os idx ≡ some o =
      ap (λ xs. get_elem? xs idx) eo ∙ get_elem?-laid_out pre gap (o ∷ rest) idx ei in
    let passed : os ≡ laid_out pre (gap ++ o ∷ []) rest = eo ∙ next_laid_out pre gap o rest in
    let next : get_elem? os (idx + 1) ≡ first_of rest =
      ap (λ xs. get_elem? xs (idx + 1)) passed
      ∙ get_elem?-laid_out pre (gap ++ o ∷ []) rest (idx + 1) (omega (arith, length-snoc gap o)) in
    let stepped = compact_step_lem o os (first_of rest) prev idx kept here next eb in
    elim (Bool-cases (is_idle prev o (first_of rest))) [
      | inl idle ↦
          let stay : compact_step (get_elem? os idx) os idx kept ≡ (os, kept) =
            stepped ∙ rw idle refl in
          ap (after_step rest idx) stay
          ∙ compact_lem pre (gap ++ o ∷ []) rest os (some o) (idx + 1) kept passed ek
              (omega (arith, length-snoc gap o)) (before-next os idx ∙ here)
          ∙ ap (◌++◌ pre) (sym (without_idle-inl prev o rest idle))
      | inr busy ↦
          let move : compact_step (get_elem? os idx) os idx kept ≡ (set os kept o, kept + 1) =
            stepped ∙ rw busy refl in
          ap (after_step rest idx) move
          ∙ compact_lem (pre ++ o ∷ []) (moved gap o) rest (set os kept o) (some o) (idx + 1)
              (kept + 1) (ap₂ (λ xs k. set xs k o) eo ek ∙ set-laid_out pre gap o rest)
              (omega (arith, length-snoc pre o))
              (omega (arith, length-snoc pre o, length-moved gap o))
              (before-next (set os kept o) idx
                ∙ get_elem?-kept pre gap o rest os idx kept eo ek ei here)
          ∙ append_assoc pre (o ∷ []) (without_idle (some o) rest)
          ∙ ap (◌++◌ pre) (sym (without_idle-inr prev o rest busy))
    ]

-- `DropComments` leaves the options of the open rule without their idle comments: those that are not
-- negated and stand between options of other or-blocks.
pub compacted-without_idle : (os : List Opt) → compacted os ≡ without_idle none os
unfolding compacted
compacted-without_idle os = compact_lem [] [] os os none 0 0 refl refl refl refl
