-- ===== src/Prelude/Maps.antt =====
-- A Go map with string keys, as an association list with at most one entry for each key.
use mathlib.Core.Path.{◌≡◌, refl, sym, subst, ◌∙◌}
use mathlib.Core.Logic.{inl, inr}
use mathlib.Core.Option.{Option, none, some, some-injective}
use mathlib.Core.List.{List, [], ◌∷◌}
use native.Mathlib.Omega.{arith}
use ipfw_go.Prelude.Tests.{if◌then◌else◌, Bool-cases}
use ipfw_go.Prelude.Lists.{All}
use ipfw_go.Prelude.Strings.{Bytes, bytes_eq, bytes_eq_iff}

module _ {ℓ} {V : Type ℓ} where
  unfoldable pub lookup : Bytes → List (Bytes × V) → Option V
  lookup k [] = none
  lookup k ((j, v) ∷ m) = if bytes_eq j k then some v else lookup k m

  -- `m[k] = v`
  unfoldable pub insert : Bytes → V → List (Bytes × V) → List (Bytes × V)
  insert k v [] = (k, v) ∷ []
  insert k v ((j, w) ∷ m) = if bytes_eq j k then (k, v) ∷ m else (j, w) ∷ insert k v m

  -- `delete(m, k)`
  pub erase : Bytes → List (Bytes × V) → List (Bytes × V)
  erase k [] = []
  erase k ((j, w) ∷ m) = if bytes_eq j k then erase k m else (j, w) ∷ erase k m

  pub lookup-insert :
      (k j : Bytes) (v : V) (m : List (Bytes × V))
      → lookup j (insert k v m) ≡ (if bytes_eq k j then some v else lookup j m)
  unfolding lookup insert
  lookup-insert k j v [] = refl
  lookup-insert k j v ((i, w) ∷ m) =
      ground (arith, bytes_eq_iff k j, bytes_eq_iff i k, bytes_eq_iff i j, lookup-insert k j v m)

  pub lookup-erase :
      (k j : Bytes) (m : List (Bytes × V))
      → lookup j (erase k m) ≡ (if bytes_eq k j then none else lookup j m)
  unfolding lookup erase
  lookup-erase k j [] = ground arith
  lookup-erase k j ((i, w) ∷ m) =
      ground (arith, bytes_eq_iff k j, bytes_eq_iff i k, bytes_eq_iff i j, lookup-erase k j m)

module _ {ℓ κ} {V : Type ℓ} (P : V → Type κ) where
  pub insert-All :
      (k : Bytes) (v : V) (m : List (Bytes × V))
      → P v
      → All (λ e. P (e.1)) m
      → All (λ e. P (e.1)) (insert k v m)
  unfolding insert
  insert-All k v [] p a = (p, tt)
  insert-All k v ((j, w) ∷ m) p (q, a) = elim (Bool-cases (bytes_eq j k)) [
    | inl same ↦ rw same (p, a)
    | inr other ↦ rw other (q, insert-All k v m p a)
  ]

  pub erase-All :
      (k : Bytes) (m : List (Bytes × V)) → All (λ e. P (e.1)) m → All (λ e. P (e.1)) (erase k m)
  unfolding erase
  erase-All k [] a = tt
  erase-All k ((j, w) ∷ m) (q, a) = elim (Bool-cases (bytes_eq j k)) [
    | inl same ↦ rw same (erase-All k m a)
    | inr other ↦ rw other (q, erase-All k m a)
  ]

  pub lookup-All :
      (k : Bytes) (m : List (Bytes × V)) {v : V} → All (λ e. P (e.1)) m → lookup k m ≡ some v → P v
  unfolding lookup
  lookup-All k [] a h = absurd (ground arith)
  lookup-All k ((j, w) ∷ m) {v} (q, a) h = elim (Bool-cases (bytes_eq j k)) [
    | inl same ↦ subst P (some-injective w v (sym (rw same refl) ∙ h)) q
    | inr other ↦ lookup-All k m a (sym (rw other refl) ∙ h)
  ]
