-- ===== src/IfMask/Class.antt =====
-- ifmask.go: the pattern that a class leaves.
use ipfw_go.Prelude.{
  ℕ, zero, suc, ◌+◌, ◌≤◌, Bool, true, false, not, ◌&&◌, ◌||◌, [], ◌∷◌, Option, none, some, Bytes,
  ◌==◌, ◌!=◌, length, arith, Bool-cases, inl, inr,
}
use ipfw_go.IfMask.{
  backslash, RangeResult, matched, Member, no_member, member, escaped_member, next_member,
  range_end, range_hit, member_hit, after_hit, range_member, range_loop, is_negation, range_match,
}

-- A pattern that is left behind a class or a member is no longer than the bound.
abbrev pub Leaves : ℕ → RangeResult → Type 0
Leaves n (matched rest) = length rest ≤ n
Leaves n _ = Unit

abbrev pub MemberLeaves : ℕ → Member → Type 0
MemberLeaves n no_member = Unit
MemberLeaves n (member lo escaped p) = suc (length p) ≤ n

abbrev HitLeaves : ℕ → Option (Bool × Bytes) → Type 0
HitLeaves n none = Unit
HitLeaves n (some (h, p)) = length p ≤ n

escaped_member-Leaves : (p : Bytes) → MemberLeaves (suc (length p)) (escaped_member p)
escaped_member-Leaves [] = tt
escaped_member-Leaves (lo ∷ p) = omega arith

pub next_member-Leaves : (p : Bytes) → MemberLeaves (length p) (next_member p)
unfolding next_member
next_member-Leaves [] = tt
next_member-Leaves (lo ∷ p) = elim (Bool-cases (lo == backslash)) [
  | inl y ↦ rw y (escaped_member-Leaves p)
  | inr n ↦ rw n (omega arith)
]

range_hit-Leaves :
    (lo c hi : ℕ) (p : Bytes) → HitLeaves (length p) (range_hit lo c (range_end hi p))
range_hit-Leaves lo c hi [] = elim (Bool-cases (hi == backslash)) [
  | inl y ↦ rw y tt
  | inr n ↦ rw n (omega arith)
]
range_hit-Leaves lo c hi (e ∷ p) = elim (Bool-cases (hi == backslash)) [
  | inl y ↦ rw y (omega arith)
  | inr n ↦ rw n (omega arith)
]

HitLeaves-le : (a b : ℕ) (o : Option (Bool × Bytes)) → a ≤ b → HitLeaves a o → HitLeaves b o
HitLeaves-le a b none le h = tt
HitLeaves-le a b (some (x, p)) le h = omega arith

member_hit-Leaves : (lo c : ℕ) (p : Bytes) → HitLeaves (length p) (member_hit lo c p)
unfolding member_hit
member_hit-Leaves lo c [] = omega arith
member_hit-Leaves lo c (d ∷ []) = omega arith
member_hit-Leaves lo c (d ∷ hi ∷ p) = elim (Bool-cases (d == b'-' && not (hi == b']'))) [
  | inl y ↦ rw y (
      HitLeaves-le (length p) (suc (suc (length p))) (range_hit lo c (range_end hi p)) (omega arith)
        (range_hit-Leaves lo c hi p))
  | inr n ↦ rw n (omega arith)
]

after_hit-Leaves :
    (go : Bool → Bytes → RangeResult) (hit : Bool) (n : ℕ) (o : Option (Bool × Bytes))
    → ((h : Bool) (q : Bytes) → length q ≤ n → Leaves n (go h q))
    → HitLeaves n o
    → Leaves n (after_hit go hit o)
after_hit-Leaves go hit n none rest h = tt
after_hit-Leaves go hit n (some (x, p)) rest h = rest (hit || x) p h

range_member-Leaves :
    (go : Bool → Bytes → RangeResult) (first hit negate : Bool) (c n : ℕ) (k : Member)
    → ((h : Bool) (q : Bytes) → length q ≤ n → Leaves n (go h q))
    → MemberLeaves (suc n) k
    → Leaves n (range_member go first hit negate c k)
range_member-Leaves go first hit negate c n no_member rest l = tt
range_member-Leaves go first hit negate c n (member lo escaped p) rest l =
    elim (Bool-cases (not escaped && (lo == b']' && not first))) [
      | inl closes ↦ elim (Bool-cases (hit != negate)) [
        | inl y ↦ rw (closes, y) (omega arith)
        | inr f ↦ rw (closes, f) tt
      ]
      | inr goes ↦ rw goes (
          after_hit-Leaves go hit n (member_hit lo c p) rest (
            HitLeaves-le (length p) n (member_hit lo c p) (omega arith) (member_hit-Leaves lo c p)))
    ]

range_loop-Leaves :
    (f : ℕ) (first hit negate : Bool) (p : Bytes) (c n : ℕ)
    → length p ≤ suc n
    → Leaves n (range_loop f first hit negate p c)
unfolding range_loop
range_loop-Leaves zero first hit negate p c n le = tt
range_loop-Leaves (suc f) first hit negate p c n le =
    range_member-Leaves (λ h q. range_loop f false h negate q c) first hit negate c n
      (next_member p) (λ h q le'. range_loop-Leaves f false h negate q c n (omega arith))
      (MemberLeaves-le (length p) (suc n) (next_member p) le (next_member-Leaves p))
  where
    MemberLeaves-le : (a b : ℕ) (k : Member) → a ≤ b → MemberLeaves a k → MemberLeaves b k
    MemberLeaves-le a b no_member le l = tt
    MemberLeaves-le a b (member lo escaped p) le l = omega arith

pub range_match-Leaves : (p : Bytes) (c : ℕ) → Leaves (length p) (range_match p c)
unfolding range_match
range_match-Leaves [] c = range_loop-Leaves 1 true false false [] c 0 (omega arith)
range_match-Leaves (d ∷ p) c = elim (Bool-cases (is_negation d)) [
  | inl y ↦
      rw y (range_loop-Leaves (length p + 1) true false true p c (suc (length p)) (omega arith))
  | inr n ↦ rw n (
      range_loop-Leaves (length (d ∷ p) + 1) true false false (d ∷ p) c (suc (length p))
        (omega arith))
]
