-- ===== src/Prelude/Int.antt =====
-- Go's `int` where the source uses a negative value as a sentinel: an index that is out of reach.
use Prim.Native.Nat.{ℕ, ◌+◌, ◌-◌, max}
use mathlib.Core.Bool.{Bool, false, true}
use mathlib.Core.Path.{◌≡◌}
use mathlib.Core.Logic.{◌↔◌}
use native.Mathlib.Omega.{arith}
use ipfw_go.Prelude.Tests.{ltb, ◌==◌, if◌then◌else◌}

-- `negsuc n` is -(n + 1).
pub data ℤ : Type 0 where
  pos : ℕ → ℤ
  negsuc : ℕ → ℤ

-- An index moved up by `k`.
infixl 65 ◌+ₙ◌
abbrev pub ◌+ₙ◌ : ℤ → ℕ → ℤ
pos n +ₙ k = pos (n + k)
negsuc n +ₙ k = if ltb n k then pos (k - n - 1) else negsuc (n - k)

unfoldable pub int_eq : ℤ → ℤ → Bool
int_eq (pos a) (pos b) = a == b
int_eq (negsuc a) (negsuc b) = a == b
int_eq _ _ = false

pub int_eq_iff : (a b : ℤ) → (int_eq a b ≡ true) ↔ (a ≡ b)
unfolding int_eq
int_eq_iff (pos a) (pos b) = ground arith
int_eq_iff _ _ = ground arith

-- `max(a, b)` for an `a` that may be negative.
abbrev pub max_int : ℤ → ℕ → ℕ
max_int (pos a) b = max a b
max_int (negsuc _) b = b
