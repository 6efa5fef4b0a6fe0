-- ===== src/IfMask/Matches.antt =====
-- ifmask.go: `rangeMatch` gives what a class means.
use ipfw_go.IfMask.Class.{MemberLeaves, next_member-Leaves}
use ipfw_go.IfMask.Meaning.{
  ClassByte, class_byte, class_bytes, spans, closes, with_byte, body, code_of, is_dash, in_span,
  verdict, class_meaning, mask_class,
}
use ipfw_go.IfMask.Spans.{
  class_bytes-nil, class_bytes-plain, class_bytes-escaped, class_bytes-dangling, body-passes,
  dashed, single-verdict, span-verdict, member_bytes, class_bytes-next_member, body-undashed,
  body-undashed_last,
}
use ipfw_go.IfMask.{
  backslash, RangeResult, malformed, mismatch, matched, Member, no_member, member, next_member,
  range_end, range_hit, member_hit, after_hit, range_member, range_loop, is_negation, range_match,
}
use mathlib.Core.Bool.{or-false}
use ipfw_go.Prelude.{
  ℕ, zero, suc, ◌+◌, ◌≤◌, ◌<◌, Bool, true, false, not, ◌&&◌, ◌||◌, [], ◌∷◌, none, some, Bytes, ◌==◌,
  ◌!=◌, if◌then◌else◌, length, ◌≡◌, refl, sym, ap, ◌∙◌, arith, Bool-cases, inl, inr,
}

module _ (go : Bool → Bytes → RangeResult) (negate hit : Bool) (c : ℕ) where
  -- The next round of the loop, on a mask no longer than the one behind the first byte.
  abbrev Follows : Bytes → Type 0
  Follows q =
      (h : Bool) (r : Bytes)
      → length r ≤ length q
      → go h r ≡ verdict negate h c (body false (class_bytes r))

  single-hit :
      (u : ClassByte) (q : Bytes)
      → Follows q
      → dashed (body false (class_bytes q)) ≡ false
      → go (hit || (code_of u == c)) q
        ≡ verdict negate hit c (with_byte u (body false (class_bytes q)))
  single-hit u q next e =
      next (hit || (code_of u == c)) q (omega arith)
      ∙ single-verdict negate hit c u (body false (class_bytes q)) e

  -- A span whose end is the byte.
  span-hit :
      (u v w : ClassByte) (q r : Bytes)
      → Follows q
      → length r ≤ length q
      → class_bytes q ≡ v ∷ w ∷ class_bytes r
      → is_dash v ≡ true
      → closes false v ≡ false
      → closes false w ≡ false
      → go (hit || in_span c (code_of u, code_of w)) r
        ≡ verdict negate hit c (with_byte u (body false (class_bytes q)))
  span-hit u v w q r next short e dash open_v open_w =
      next (hit || in_span c (code_of u, code_of w)) r short
      ∙ span-verdict negate hit c u v w (body false (class_bytes r)) dash
      ∙ ap (λ b. verdict negate hit c (with_byte u b))
          (ap (with_byte v) (sym (body-passes false w (class_bytes r) open_w))
            ∙ sym (body-passes false v (w ∷ class_bytes r) open_v)
            ∙ ap (body false) (sym e))

  unclosed :
      (u : ClassByte) (q : Bytes)
      → body false (class_bytes q) ≡ none
      → malformed ≡ verdict negate hit c (with_byte u (body false (class_bytes q)))
  unclosed u q e = sym (ap (λ b. verdict negate hit c (with_byte u b)) e)

  nil-body : body false (class_bytes []) ≡ none
  unfolding class_bytes body
  nil-body = refl

  -- A dash, and a byte that can end its span.
  module _ (lo d hi : ℕ) (escaped : Bool) (y : (d == b'-' && not (hi == b']')) ≡ true) where
    dash_plain : (p : Bytes) → class_bytes (d ∷ p) ≡ class_byte d false p ∷ class_bytes p
    dash_plain p = class_bytes-plain d p (ground arith)

    cut_off : (hi == backslash) ≡ true → body false (class_bytes (d ∷ hi ∷ [])) ≡ none
    cut_off e =
        ap (body false) (
          dash_plain (hi ∷ [])
          ∙ ap (λ us. class_byte d false (hi ∷ []) ∷ us)
              (class_bytes-dangling hi e ∙ sym class_bytes-nil))
        ∙ body-passes false (class_byte d false (hi ∷ [])) (class_bytes []) (ground arith)
        ∙ ap (with_byte (class_byte d false (hi ∷ []))) nil-body

    range-hit :
        (p : Bytes)
        → Follows (d ∷ hi ∷ p)
        → let q = d ∷ hi ∷ p in
          after_hit go hit (range_hit lo c (range_end hi p))
          ≡ verdict negate hit c (with_byte (class_byte lo escaped q) (body false (class_bytes q)))
    range-hit [] next = elim (Bool-cases (hi == backslash)) [
      | inl e ↦ rw e (unclosed (class_byte lo escaped (d ∷ hi ∷ [])) (d ∷ hi ∷ []) (cut_off e))
      | inr n ↦ rw n (
          span-hit (class_byte lo escaped (d ∷ hi ∷ [])) (class_byte d false (hi ∷ []))
            (class_byte hi false []) (d ∷ hi ∷ []) [] next (omega arith)
            (dash_plain (hi ∷ [])
              ∙ ap (λ us. class_byte d false (hi ∷ []) ∷ us) (class_bytes-plain hi [] n))
            (ground arith) (ground arith) (ground arith))
    ]
    range-hit (x ∷ p) next = elim (Bool-cases (hi == backslash)) [
      | inl e ↦ rw e (
          span-hit (class_byte lo escaped (d ∷ hi ∷ x ∷ p)) (class_byte d false (hi ∷ x ∷ p))
            (class_byte x true p) (d ∷ hi ∷ x ∷ p) p next (omega arith)
            (dash_plain (hi ∷ x ∷ p)
              ∙ ap (λ us. class_byte d false (hi ∷ x ∷ p) ∷ us) (class_bytes-escaped hi x p e))
            (ground arith) (ground arith) refl)
      | inr n ↦ rw n (
          span-hit (class_byte lo escaped (d ∷ hi ∷ x ∷ p)) (class_byte d false (hi ∷ x ∷ p))
            (class_byte hi false (x ∷ p)) (d ∷ hi ∷ x ∷ p) (x ∷ p) next (omega arith)
            (dash_plain (hi ∷ x ∷ p)
              ∙ ap (λ us. class_byte d false (hi ∷ x ∷ p) ∷ us) (class_bytes-plain hi (x ∷ p) n))
            (ground arith) (ground arith) (ground arith))
    ]

  member-hit :
      (lo : ℕ) (escaped : Bool) (q : Bytes)
      → Follows q
      → after_hit go hit (member_hit lo c q)
        ≡ verdict negate hit c (with_byte (class_byte lo escaped q) (body false (class_bytes q)))
  unfolding member_hit
  member-hit lo escaped [] next = single-hit (class_byte lo escaped []) [] next (ap dashed nil-body)
  member-hit lo escaped (d ∷ []) next =
      single-hit (class_byte lo escaped (d ∷ [])) (d ∷ []) next (body-undashed_last d)
  member-hit lo escaped (d ∷ hi ∷ p) next = elim (Bool-cases (d == b'-' && not (hi == b']'))) [
    | inl y ↦ rw y (range-hit lo d hi escaped y p next)
    | inr n ↦
        rw n (
          single-hit (class_byte lo escaped (d ∷ hi ∷ p)) (d ∷ hi ∷ p) next
            (body-undashed d hi p n))
  ]

  closing :
      (q : Bytes)
      → (if hit != negate then matched q else mismatch) ≡ verdict negate hit c (some ([], q))
  unfolding spans
  closing q = ap (λ x. if x != negate then matched q else mismatch) (sym (or-false hit))

  abbrev Rest : Member → Type 0
  Rest no_member = Unit
  Rest (member lo escaped q) = Follows q

  range_member-verdict :
      (first : Bool) (k : Member)
      → Rest k
      → range_member go first hit negate c k ≡ verdict negate hit c (body first (member_bytes k))
  unfolding body
  range_member-verdict first no_member next = refl
  range_member-verdict first (member lo escaped q) next =
      elim (Bool-cases (not escaped && (lo == b']' && not first))) [
        | inl y ↦ rw y (closing q)
        | inr n ↦ rw n (member-hit lo escaped q next)
      ]

range_loop-verdict :
    (f : ℕ) (first hit negate : Bool) (p : Bytes) (c : ℕ)
    → length p < f
    → range_loop f first hit negate p c ≡ verdict negate hit c (body first (class_bytes p))
unfolding range_loop
range_loop-verdict zero first hit negate p c lt = absurd (omega arith)
range_loop-verdict (suc f) first hit negate p c lt =
    range_member-verdict (λ h q. range_loop f false h negate q c) negate hit c first (next_member p)
      (rest (next_member p) (next_member-Leaves p)
        (λ h r le. range_loop-verdict f false h negate r c (omega arith)))
    ∙ sym (ap (λ us. verdict negate hit c (body first us)) (class_bytes-next_member p))
  where
    rest :
        (k : Member)
        → MemberLeaves (length p) k
        → ((h : Bool) (r : Bytes)
            → suc (length r) ≤ length p
            → range_loop f false h negate r c ≡ verdict negate h c (body false (class_bytes r)))
        → Rest (λ h q. range_loop f false h negate q c) negate hit c k
    rest no_member l step = tt
    rest (member lo escaped q) l step = λ h r le. step h r (omega arith)

-- `rangeMatch` gives what the class means, for every mask and byte, apart from its loop: the class
-- ends at the first bracket that is neither escaped nor its first byte, it is malformed exactly when
-- there is none, and then the byte is in one of its spans, or in none under a negation, exactly when
-- it matches, with the mask behind the bracket.
pub range_match-mask_class : (p : Bytes) (c : ℕ) → range_match p c ≡ mask_class p c
unfolding range_match class_meaning
range_match-mask_class [] c = range_loop-verdict 1 true false false [] c (omega arith)
range_match-mask_class (d ∷ p) c = elim (Bool-cases (is_negation d)) [
  | inl y ↦ rw y (range_loop-verdict (length p + 1) true false true p c (omega arith))
  | inr n ↦ rw n (range_loop-verdict (length (d ∷ p) + 1) true false false (d ∷ p) c (omega arith))
]
