-- ===== src/IfMask/Spans.antt =====
-- ifmask.go: how the bytes, the body and the spans of a class grow by a byte.
use ipfw_go.IfMask.{
  backslash, RangeResult, mismatch, matched, Member, no_member, member, next_member,
}
use mathlib.Core.Bool.{or_assoc}
use ipfw_go.Prelude.{
  ℕ, Bool, true, false, not, ◌&&◌, ◌||◌, List, [], ◌∷◌, Option, none, some, Bytes, ◌==◌, ◌!=◌, any,
  if◌then◌else◌, ◌≡◌, refl, sym, ap, ◌∙◌, arith, Bool-cases, inl, inr,
}
use ipfw_go.IfMask.Meaning.{
  ClassByte, class_byte, class_bytes, closes, behind, with_byte, body, code_of, is_dash, spans,
  in_span, verdict,
}

pub class_bytes-plain :
    (c : ℕ) (p : Bytes)
    → (c == backslash) ≡ false
    → class_bytes (c ∷ p) ≡ class_byte c false p ∷ class_bytes p
unfolding class_bytes
class_bytes-plain c [] e = rw e refl
class_bytes-plain c (d ∷ p) e = rw e refl

pub class_bytes-escaped :
    (c d : ℕ) (p : Bytes)
    → (c == backslash) ≡ true
    → class_bytes (c ∷ d ∷ p) ≡ class_byte d true p ∷ class_bytes p
unfolding class_bytes
class_bytes-escaped c d p e = rw e refl

pub class_bytes-dangling : (c : ℕ) → (c == backslash) ≡ true → class_bytes (c ∷ []) ≡ []
unfolding class_bytes
class_bytes-dangling c e = rw e refl

pub body-passes :
    (first : Bool) (u : ClassByte) (us : List ClassByte)
    → closes first u ≡ false
    → body first (u ∷ us) ≡ with_byte u (body false us)
unfolding body
body-passes first u us e = rw e refl

body-closes :
    (first : Bool) (u : ClassByte) (us : List ClassByte)
    → closes first u ≡ true
    → body first (u ∷ us) ≡ some ([], behind u)
unfolding body
body-closes first u us e = rw e refl

-- Whether the first of two or more bytes is a dash.
abbrev pub dashed : Option (List ClassByte × Bytes) → Bool
dashed (some (v ∷ w ∷ us, rest)) = is_dash v
dashed _ = false

spans-single :
    (u : ClassByte) (us : List ClassByte) (rest : Bytes)
    → dashed (some (us, rest)) ≡ false
    → spans (u ∷ us) ≡ (code_of u, code_of u) ∷ spans us
unfolding spans
spans-single u [] rest e = refl
spans-single u (v ∷ []) rest e = refl
spans-single u (v ∷ w ∷ us) rest e = rw e refl

spans-span :
    (u v w : ClassByte) (us : List ClassByte)
    → is_dash v ≡ true
    → spans (u ∷ v ∷ w ∷ us) ≡ (code_of u, code_of w) ∷ spans us
unfolding spans
spans-span u v w us e = rw e refl

equal-in_span : (x c : ℕ) → (x == c) ≡ in_span c (x, x)
equal-in_span x c = ground arith

abbrev result : Bool → Bytes → Bool → RangeResult
result negate rest hit = if hit != negate then matched rest else mismatch

pub single-verdict :
    (negate hit : Bool) (c : ℕ) (u : ClassByte) (b : Option (List ClassByte × Bytes))
    → dashed b ≡ false
    → verdict negate (hit || (code_of u == c)) c b ≡ verdict negate hit c (with_byte u b)
single-verdict negate hit c u none e = refl
single-verdict negate hit c u (some (us, rest)) e = ap (result negate rest) (
    or_assoc hit (code_of u == c) (any (in_span c) (spans us))
    ∙ ap (λ x. hit || (x || any (in_span c) (spans us))) (equal-in_span (code_of u) c)
    ∙ ap (λ ss. hit || any (in_span c) ss) (sym (spans-single u us rest e)))

pub span-verdict :
    (negate hit : Bool) (c : ℕ) (u v w : ClassByte) (b : Option (List ClassByte × Bytes))
    → is_dash v ≡ true
    → verdict negate (hit || in_span c (code_of u, code_of w)) c b
      ≡ verdict negate hit c (with_byte u (with_byte v (with_byte w b)))
span-verdict negate hit c u v w none e = refl
span-verdict negate hit c u v w (some (us, rest)) e = ap (result negate rest) (
    or_assoc hit (in_span c (code_of u, code_of w)) (any (in_span c) (spans us))
    ∙ ap (λ ss. hit || any (in_span c) ss) (sym (spans-span u v w us e)))

-- The bytes from the next member on.
abbrev pub member_bytes : Member → List ClassByte
member_bytes no_member = []
member_bytes (member lo escaped p) = class_byte lo escaped p ∷ class_bytes p

pub class_bytes-nil : class_bytes [] ≡ []
unfolding class_bytes
class_bytes-nil = refl

pub class_bytes-next_member : (p : Bytes) → class_bytes p ≡ member_bytes (next_member p)
unfolding next_member
class_bytes-next_member [] = class_bytes-nil
class_bytes-next_member (c ∷ []) = elim (Bool-cases (c == backslash)) [
  | inl y ↦ rw y (class_bytes-dangling c y)
  | inr n ↦ rw n (class_bytes-plain c [] n)
]
class_bytes-next_member (c ∷ d ∷ p) = elim (Bool-cases (c == backslash)) [
  | inl y ↦ rw y (class_bytes-escaped c d p y)
  | inr n ↦ rw n (class_bytes-plain c (d ∷ p) n)
]

with_byte-dashed :
    (u : ClassByte) (b : Option (List ClassByte × Bytes))
    → is_dash u ≡ false
    → dashed (with_byte u b) ≡ false
with_byte-dashed u none e = refl
with_byte-dashed u (some ([], rest)) e = refl
with_byte-dashed u (some (v ∷ us, rest)) e = e

body-dashed :
    (u : ClassByte) (us : List ClassByte) → is_dash u ≡ false → dashed (body false (u ∷ us)) ≡ false
body-dashed u us e = elim (Bool-cases (closes false u)) [
  | inl y ↦ ap dashed (body-closes false u us y)
  | inr n ↦ ap dashed (body-passes false u us n) ∙ with_byte-dashed u (body false us) e
]

-- A dash that the closing bracket follows.
body-last_dash :
    (d hi : ℕ) (p : Bytes)
    → (d == b'-') ≡ true
    → (hi == b']') ≡ true
    → dashed (body false (class_byte d false (hi ∷ p) ∷ class_bytes (hi ∷ p))) ≡ false
body-last_dash d hi p dash close =
    let plain : (hi == backslash) ≡ false = ground arith in
    let passes : (d == b']' && true) ≡ false = ground arith in
    let closed : (hi == b']' && true) ≡ true = ground arith in
    ap dashed (
      body-passes false (class_byte d false (hi ∷ p)) (class_bytes (hi ∷ p)) passes
      ∙ ap (λ us. with_byte (class_byte d false (hi ∷ p)) (body false us))
          (class_bytes-plain hi p plain)
      ∙ ap (with_byte (class_byte d false (hi ∷ p)))
          (body-closes false (class_byte hi false p) (class_bytes p) closed))

-- A byte that does not begin the end of a span.
pub body-undashed :
    (d hi : ℕ) (p : Bytes)
    → (d == b'-' && not (hi == b']')) ≡ false
    → dashed (body false (class_bytes (d ∷ hi ∷ p))) ≡ false
body-undashed d hi p e = elim (Bool-cases (d == backslash)) [
  | inl y ↦
      ap (λ us. dashed (body false us)) (class_bytes-escaped d hi p y)
      ∙ body-dashed (class_byte hi true p) (class_bytes p) refl
  | inr n ↦
      ap (λ us. dashed (body false us)) (class_bytes-plain d (hi ∷ p) n)
      ∙ elim (Bool-cases (d == b'-')) [
        | inl dash ↦ body-last_dash d hi p dash (ground arith)
        | inr other ↦ body-dashed (class_byte d false (hi ∷ p)) (class_bytes (hi ∷ p)) other
      ]
]

pub body-undashed_last : (d : ℕ) → dashed (body false (class_bytes (d ∷ []))) ≡ false
unfolding class_bytes body
body-undashed_last d = elim (Bool-cases (d == backslash)) [
  | inl y ↦ rw y refl
  | inr n ↦ rw n (elim (Bool-cases (d == b']' && true)) [ inl c ↦ rw c refl | inr c ↦ rw c refl ])
]
