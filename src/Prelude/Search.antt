-- ===== src/Prelude/Search.antt =====
-- `slices.BinarySearchFunc` of Go's standard library, on the index that it returns. `below x`
-- stands for `cmp(x, target) < 0`.
use Prim.Native.Nat.{ℕ, zero, suc, ◌+◌, ◌-◌, ◌/◌, ◌≤◌, ◌<◌}
use mathlib.Core.Bool.{Bool, true, false, false≢true}
use mathlib.Core.Path.{◌≡◌, refl, sym, ◌∙◌}
use mathlib.Core.Logic.{inl, inr}
use mathlib.Core.Option.{Option, none, some}
use mathlib.Core.List.{List}
use native.Mathlib.Omega.{arith}
use ipfw_go.Prelude.Tests.{if◌then◌else◌, ltb, ltb→lt, not_ltb→le, Bool-cases}
use ipfw_go.Prelude.Lists.{length, get_elem?, get_elem?_of_ge}

module _ {ℓ} {A : Type ℓ} (below : A → Bool) where
  abbrev pub below_in : Option A → Bool
  below_in none = false
  below_in (some x) = below x

  abbrev pub below_at : List A → ℕ → Bool
  below_at xs i = below_in (get_elem? xs i)

  -- The loop, on as many rounds as the range is long at most.
  pub search : ℕ → List A → ℕ → ℕ → ℕ
  search zero xs i j = i
  search (suc f) xs i j =
      let h = (i + j) / 2 in
      let right = search f xs (h + 1) j in
      let left = search f xs i h in if ltb i j then (if below_at xs h then right else left) else i

  unfoldable pub binary_search : List A → ℕ
  unfolding search
  binary_search xs = search (length xs) xs 0 (length xs)

  -- Once an element is not below the target, no later one is.
  abbrev pub IsPartitioned : List A → Type 0
  IsPartitioned xs = (a b : ℕ) → a ≤ b → below_at xs b ≡ true → below_at xs a ≡ true

  not_below_after :
      (xs : List A) (h k : ℕ)
      → IsPartitioned xs
      → h ≤ k
      → below_at xs h ≡ false
      → below_at xs k ≡ false
  not_below_after xs h k p le n = elim (Bool-cases (below_at xs k)) [
    | inl t ↦ absurd (false≢true (sym n ∙ p h k le t))
    | inr e ↦ e
  ]

  -- `r` parts the elements below the target from the others.
  pub record Parts (xs : List A) (r : ℕ) : Type 0 where
    pub within : r ≤ length xs
    pub before : (k : ℕ) → k < r → below_at xs k ≡ true
    pub after : (k : ℕ) → r ≤ k → below_at xs k ≡ false

  search-Parts :
      (f : ℕ) (xs : List A) (i j : ℕ)
      → IsPartitioned xs
      → j - i ≤ f
      → i ≤ j
      → j ≤ length xs
      → ((k : ℕ) → k < i → below_at xs k ≡ true)
      → ((k : ℕ) → j ≤ k → below_at xs k ≡ false)
      → Parts xs (search f xs i j)
  unfolding search
  search-Parts zero xs i j p m o w lo hi = record {
    within = omega arith;
    before = lo;
    after = λ k h. hi k (omega arith);
  }
  search-Parts (suc f) xs i j p m o w lo hi = elim (Bool-cases (ltb i j)) [
    | inr done ↦ rw done (record {
      within = omega arith;
      before = lo;
      after = λ k h. hi k (omega (arith, not_ltb→le i j done));
    })
    | inl more ↦ elim (Bool-cases (below_at xs ((i + j) / 2))) [
      | inl is_below ↦
          rw (more, is_below)
            (search-Parts f xs ((i + j) / 2 + 1) j p (omega (arith, ltb→lt i j more))
              (omega (arith, ltb→lt i j more)) w (λ k h. p k ((i + j) / 2) (omega arith) is_below)
              hi)
      | inr not_below ↦
          rw (more, not_below)
            (search-Parts f xs i ((i + j) / 2) p (omega (arith, ltb→lt i j more))
              (omega (arith, ltb→lt i j more)) (omega (arith, ltb→lt i j more)) lo
              (λ k h. not_below_after xs ((i + j) / 2) k p h not_below))
    ]
  ]

  -- The search parts a partitioned list.
  pub binary_search-Parts : (xs : List A) → IsPartitioned xs → Parts xs (binary_search xs)
  unfolding binary_search
  binary_search-Parts xs p =
      search-Parts (length xs) xs 0 (length xs) p (omega arith) (omega arith) (omega arith)
        (λ k h. elim h [ ]) (λ k h. rw (get_elem?_of_ge xs k h) refl)
