-- ===== src/Prelude/Runs.antt =====
-- The runs of a list: its maximal stretches of elements with one key, each with its first element
-- apart.
use Prim.Native.Nat.{ℕ, ◌≤◌}
use mathlib.Core.Bool.{Bool, true, false, ◌&&◌}
use mathlib.Core.Path.{◌≡◌, refl, ap, sym}
use mathlib.Core.Logic.{inl, inr}
use mathlib.Core.List.{List, [], ◌∷◌}
use native.Mathlib.Omega.{arith}
use ipfw_go.Prelude.Tests.{◌==◌, ==_iff, if◌then◌else◌, Bool-cases}
use ipfw_go.Prelude.Lists.{length}

same_sym : (a b : ℕ) → (a == b) ≡ true → (b == a) ≡ true
same_sym a b h = ground arith

other_sym : (a b : ℕ) → (a == b) ≡ false → (b == a) ≡ false
other_sym a b h = ground arith

abbrev pub Run : Type 0 → Type 0
Run A = A × List A

module _ {A : Type 0} where
  unfoldable pub take_while : (A → Bool) → List A → List A
  take_while p [] = []
  take_while p (x ∷ xs) = if p x then x ∷ take_while p xs else []

  unfoldable pub drop_while : (A → Bool) → List A → List A
  drop_while p [] = []
  drop_while p (x ∷ xs) = if p x then drop_while p xs else x ∷ xs

  pub length-drop_while : (p : A → Bool) (xs : List A) → length (drop_while p xs) ≤ length xs
  unfolding drop_while
  length-drop_while p [] = omega arith
  length-drop_while p (x ∷ xs) = ground (arith, length-drop_while p xs)

  -- Where `q` refines `p`, the `q`s can be taken off first.
  pub drop_while-drop_while :
      (p q : A → Bool) (xs : List A)
      → ((x : A) → q x ≡ true → p x ≡ true)
      → drop_while p (drop_while q xs) ≡ drop_while p xs
  unfolding drop_while
  drop_while-drop_while p q [] h = refl
  drop_while-drop_while p q (x ∷ xs) h = ground (arith, drop_while-drop_while p q xs h, h x)

  pub take_while-take_while :
      (p q : A → Bool) (xs : List A)
      → take_while q (take_while p xs) ≡ take_while (λ x. p x && q x) xs
  unfolding take_while
  take_while-take_while p q [] = refl
  take_while-take_while p q (x ∷ xs) = ground (arith, take_while-take_while p q xs)

  pub drop_while-take_while :
      (p q : A → Bool) (xs : List A)
      → drop_while q (take_while p xs) ≡ take_while p (drop_while (λ x. p x && q x) xs)
  unfolding take_while drop_while
  drop_while-take_while p q [] = refl
  drop_while-take_while p q (x ∷ xs) = ground (arith, drop_while-take_while p q xs)

  abbrev add_run : (A → ℕ) → A → List (Run A) → List (Run A)
  add_run key x [] = (x, []) ∷ []
  add_run key x ((y, ys) ∷ gs) = if key x == key y then (x, y ∷ ys) ∷ gs else (x, []) ∷ (y, ys) ∷ gs

  unfoldable pub runs : (A → ℕ) → List A → List (Run A)
  runs key [] = []
  runs key (x ∷ xs) = add_run key x (runs key xs)

  -- The first run takes the elements with its key, and the others are the runs of the rest.
  pub runs-cons :
      (key : A → ℕ) (x : A) (xs : List A)
      → runs key (x ∷ xs)
        ≡ (x, take_while (λ y. key y == key x) xs) ∷ runs key (drop_while (λ y. key y == key x) xs)
  unfolding runs take_while drop_while
  runs-cons key x [] = refl
  runs-cons key x (y ∷ ys) = elim (Bool-cases (key x == key y)) [
    | inl same ↦ rw (runs-cons key y ys) (
        rw same (
          rw (same_sym _ _ same) (
            ap
              (λ k.
                (x, y ∷ take_while (λ z. key z == k) ys)
                ∷ runs key (drop_while (λ z. key z == k) ys))
              (sym ((==_iff _ _).0 same)))))
    | inr other ↦
        rw (runs-cons key y ys)
          (rw other (rw (other_sym _ _ other) (ap (◌∷◌ (x, [])) (sym (runs-cons key y ys)))))
  ]
