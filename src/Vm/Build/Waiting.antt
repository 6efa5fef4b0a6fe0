-- ===== src/Vm/Build/Waiting.antt =====
-- vm/vm.go: `Unresolved`: the first of the jumps that still wait.
use ipfw_go.Prelude.{
  ℕ, ◌≤◌, List, [], ◌∷◌, ◌++◌, Bytes, ltb, ltb→lt, not_ltb→le, if◌then◌else◌, Option, none, some,
  ◌≡◌, refl, ◌∙◌, arith, Bool-cases, inl, inr, All,
}
use ipfw_go.Vm.Build.Targets.{Listed}
use ipfw_go.Vm.Build.{Builder, lowest, lowest_pending, unresolved}

-- The indexes of all the jumps that wait for labels.
abbrev all_pending : List (Bytes × List ℕ) → List ℕ
all_pending [] = []
all_pending ((_, idxs) ∷ pending) = idxs ++ all_pending pending

abbrev pub waiting : {V4 V6 R : Type 0} → Builder V4 V6 R → List ℕ
waiting b = b.unresolved_numbers ++ all_pending b.pending_labels

-- The least of the indexes, if there is any.
abbrev pub IsLeast : Option ℕ → List ℕ → Type 0
IsLeast none idxs = idxs ≡ []
IsLeast (some first) idxs = Listed first idxs × All (λ idx. first ≤ idx) idxs

-- `lowest` of what went before and of a list is the least of both.
lowest-append :
    (first : Option ℕ) (xs ys : List ℕ) → lowest (lowest first xs) ys ≡ lowest first (xs ++ ys)
unfolding lowest
lowest-append first [] ys = refl
lowest-append none (x ∷ xs) ys = lowest-append (some x) xs ys
lowest-append (some f) (x ∷ xs) ys = lowest-append (some (if ltb x f then x else f)) xs ys

lowest_pending-lowest :
    (first : Option ℕ) (pending : List (Bytes × List ℕ))
    → lowest_pending first pending ≡ lowest first (all_pending pending)
unfolding lowest_pending lowest
lowest_pending-lowest none [] = refl
lowest_pending-lowest (some f) [] = refl
lowest_pending-lowest first ((name, idxs) ∷ pending) =
    lowest_pending-lowest (lowest first idxs) pending
    ∙ lowest-append first idxs (all_pending pending)

All-le : (a b : ℕ) (idxs : List ℕ) → a ≤ b → All (λ idx. b ≤ idx) idxs → All (λ idx. a ≤ idx) idxs
All-le a b [] le w = tt
All-le a b (idx ∷ idxs) le (h, w) = (omega arith, All-le a b idxs le w)

-- From one index on, the least of it and the others.
lowest-some-IsLeast : (f : ℕ) (idxs : List ℕ) → IsLeast (lowest (some f) idxs) (f ∷ idxs)
unfolding lowest
lowest-some-IsLeast f [] = (inl refl, (omega arith, tt))
lowest-some-IsLeast f (x ∷ xs) = elim (Bool-cases (ltb x f)) [
  | inl less ↦ rw less (
      insert_larger (lowest (some x) xs) f x xs (omega (arith, ltb→lt x f less))
        (lowest-some-IsLeast x xs))
  | inr not_less ↦ rw not_less (
      insert_second (lowest (some f) xs) f x xs (not_ltb→le x f not_less)
        (lowest-some-IsLeast f xs))
]
  where
    insert_larger :
        (o : Option ℕ) (f x : ℕ) (xs : List ℕ) → x ≤ f → IsLeast o (x ∷ xs) → IsLeast o (f ∷ x ∷ xs)
    insert_larger none f x xs le e = absurd (ground arith)
    insert_larger (some k) f x xs le (at, (kx, w)) = (inr at, (omega arith, (kx, w)))

    insert_second :
        (o : Option ℕ) (f x : ℕ) (xs : List ℕ) → f ≤ x → IsLeast o (f ∷ xs) → IsLeast o (f ∷ x ∷ xs)
    insert_second none f x xs le e = absurd (ground arith)
    insert_second (some k) f x xs le (inl e, (kf, w)) = (inl e, (kf, (omega arith, w)))
    insert_second (some k) f x xs le (inr at, (kf, w)) = (inr (inr at), (kf, (omega arith, w)))

lowest-IsLeast : (idxs : List ℕ) → IsLeast (lowest none idxs) idxs
unfolding lowest
lowest-IsLeast [] = refl
lowest-IsLeast (x ∷ xs) = lowest-some-IsLeast x xs

-- `Unresolved` gives the least index of all the jumps that wait for a number or a label, and none
-- exactly when no jump waits.
pub unresolved-IsLeast :
    {V4 V6 R : Type 0} (b : Builder V4 V6 R) → IsLeast (unresolved b) (waiting b)
unfolding unresolved
unresolved-IsLeast b =
    rw
      (
        lowest_pending-lowest (lowest none b.unresolved_numbers) b.pending_labels,
        lowest-append none b.unresolved_numbers (all_pending b.pending_labels),
      )
      (lowest-IsLeast (waiting b))
