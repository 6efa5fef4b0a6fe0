-- ===== src/Parse/Numbers.antt =====
-- lex.go: `parseUint` against the decimal value of its digits.
use mathlib.Core.List.{foldl}
use ipfw_go.Prelude.{
  ℕ, ◌+◌, ◌-◌, ◌*◌, ◌/◌, ◌≤◌, true, false, Bool-cases, inl, inr, [], ◌∷◌, Option, none, some, Bytes,
  leb, ltb, ltb→lt, not_ltb→le, sym, if◌then◌else◌, ◌≡◌, refl, arith,
}
use ipfw_go.Parse.Lex.{is_digit, take_while, taken, uint_loop, parse_uint}

-- The number that digits spell behind `v`, with no bound.
abbrev pub value : ℕ → Bytes → ℕ
value = foldl (λ v c. v * 10 + (c - b'0'))

abbrev pub spelled : ℕ → Bytes × Bytes → Option (ℕ × Bytes)
spelled max ([], rest) = none
spelled max (c ∷ ds, rest) =
    if leb (value 0 (c ∷ ds)) max then some (value 0 (c ∷ ds), rest) else none

le-value : (ds : Bytes) (v : ℕ) → v ≤ value v ds
le-value [] v = omega arith
le-value (c ∷ ds) v = omega (arith, le-value ds (v * 10 + (c - b'0')))

abbrev folded : ℕ → ℕ → Bytes × Bytes → Option (ℕ × Bytes)
folded max v (ds, rest) = if leb (value v ds) max then some (value v ds, rest) else none

folded-taken :
    (max v c : ℕ) (p : Bytes × Bytes)
    → folded max v (taken c p) ≡ folded max (v * 10 + (c - b'0')) p
folded-taken max v c (ds, rest) = refl

too_much : (max v : ℕ) (p : Bytes × Bytes) → leb v max ≡ false → folded max v p ≡ none
too_much max v (ds, rest) h = let up = le-value ds v in ground arith

digit-le : (c : ℕ) → is_digit c ≡ true → c - b'0' ≤ 9
unfolding is_digit
digit-le c h = ground arith

-- The test before a digit is folded in: exact, since the digit is below ten.
over :
    (max v d : ℕ) → d ≤ 9 → 9 ≤ max → ltb ((max - d) / 10) v ≡ true → leb (v * 10 + d) max ≡ false
over max v d h h' e = let lt = ltb→lt ((max - d) / 10) v e in ground arith

within : (max v d : ℕ) → d ≤ 9 → 9 ≤ max → ltb ((max - d) / 10) v ≡ false → v * 10 + d ≤ max
within max v d h h' e = let le = not_ltb→le ((max - d) / 10) v e in omega arith

digit_folded :
    (c : ℕ) (s : Bytes) (max v : ℕ)
    → 9 ≤ max
    → c - b'0' ≤ 9
    → (v * 10 + (c - b'0') ≤ max
        → uint_loop max (v * 10 + (c - b'0')) s
          ≡ folded max (v * 10 + (c - b'0')) (take_while s is_digit))
    → (if ltb ((max - (c - b'0')) / 10) v then none else uint_loop max (v * 10 + (c - b'0')) s)
      ≡ folded max v (taken c (take_while s is_digit))
digit_folded c s max v h d rest = elim (Bool-cases (ltb ((max - (c - b'0')) / 10) v)) [
  | inl e ↦ rw e (
      sym
        (too_much max (v * 10 + (c - b'0')) (take_while s is_digit) (over max v (c - b'0') d h e)))
  | inr e ↦ rw e (rest (within max v (c - b'0') d h e))
]

uint_loop-folded :
    (s : Bytes) (max v : ℕ)
    → 9 ≤ max
    → v ≤ max
    → uint_loop max v s ≡ folded max v (take_while s is_digit)
unfolding uint_loop take_while
uint_loop-folded [] max v h fits = ground arith
uint_loop-folded (c ∷ s) max v h fits = elim (Bool-cases (is_digit c)) [
  | inr e ↦ rw e (ground arith)
  | inl d ↦ rw d (
      digit_folded c s max v h (digit-le c d)
        (λ fits'. uint_loop-folded s max (v * 10 + (c - b'0')) h fits'))
]

-- `parseUint` reads the run of digits at the start of the input: the number that it spells when that
-- is at most the bound, and nothing when it is greater or there is no digit. Nothing wraps around.
pub parse_uint-spelled :
    (s : Bytes) (max : ℕ) → 9 ≤ max → parse_uint s max ≡ spelled max (take_while s is_digit)
unfolding parse_uint take_while
parse_uint-spelled [] max h = refl
parse_uint-spelled (c ∷ s) max h = elim (Bool-cases (is_digit c)) [
  | inr e ↦ rw e refl
  | inl d ↦ rw d (
      digit_folded c s max 0 h (digit-le c d)
        (λ fits. uint_loop-folded s max (0 * 10 + (c - b'0')) h fits))
]
