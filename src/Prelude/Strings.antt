-- ===== src/Prelude/Strings.antt =====
-- Go strings and byte slices as lists of numbers, their bytes, and the functions of the package
-- strings that the program calls.
use Prim.Native.Nat.{ℕ}
use Prim.Native.Char.{code}
use Prim.Native.String.{String}
use mathlib.Core.Bool.{Bool, true, false, ◌&&◌}
use mathlib.Core.Path.{◌≡◌}
use mathlib.Core.Logic.{◌↔◌}
use mathlib.Core.List.{List, [], ◌∷◌}
use native.Mathlib.Omega.{arith}
use ipfw_go.Prelude.Tests.{◌==◌, if◌then◌else◌}

abbrev pub Bytes : Type 0
Bytes = List ℕ

-- `a == b` on strings.
unfoldable pub bytes_eq : Bytes → Bytes → Bool
bytes_eq [] [] = true
bytes_eq (x ∷ xs) (y ∷ ys) = x == y && bytes_eq xs ys
bytes_eq _ _ = false

pub bytes_eq_iff : (a b : Bytes) → (bytes_eq a b ≡ true) ↔ (a ≡ b)
unfolding bytes_eq
bytes_eq_iff (x ∷ a) (y ∷ b) = ground (arith, bytes_eq_iff a b)
bytes_eq_iff _ _ = ground arith

-- The bytes of an ASCII literal.
abbrev pub codes : String → Bytes
codes String.[] = []
codes (String.◌∷◌ c s) = code c ∷ codes s

-- `strings.TrimPrefix(s, p)` for a prefix of one byte.
unfoldable pub trim_prefix : Bytes → ℕ → Bytes
trim_prefix [] p = []
trim_prefix (c ∷ s) p = if c == p then s else c ∷ s

abbrev cut_cons : ℕ → Bytes × Bytes × Bool → Bytes × Bytes × Bool
cut_cons c (b, a, found) = (c ∷ b, a, found)

-- `strings.Cut(s, sep)` for a separator of one byte.
unfoldable pub cut : Bytes → ℕ → Bytes × Bytes × Bool
cut [] sep = ([], [], false)
cut (c ∷ s) sep = if c == sep then ([], s, true) else cut_cons c (cut s sep)

-- `strings.IndexByte(s, b) >= 0`
unfoldable pub contains_byte : Bytes → ℕ → Bool
contains_byte [] b = false
contains_byte (c ∷ s) b = if c == b then true else contains_byte s b
