-- ===== src/IfMask/Meaning.antt =====
-- ifmask.go: what a class of a mask means, apart from the loop of `rangeMatch`: its bytes without
-- their escapes, its body up to the bracket that closes it, and the spans of the body.
use ipfw_go.IfMask.{backslash, RangeResult, malformed, mismatch, matched, is_negation}
use ipfw_go.Prelude.{
  ℕ, Bool, true, false, not, ◌&&◌, ◌||◌, List, [], ◌∷◌, Option, none, some, Bytes, ◌==◌, ◌!=◌, leb,
  any, if◌then◌else◌,
}

-- A byte of a class, whether a backslash escapes it, and the mask behind it.
pub data ClassByte : Type 0 where
  class_byte : ℕ → Bool → Bytes → ClassByte

-- The bytes of a mask, as a class reads them; a backslash at the end escapes nothing.
unfoldable pub class_bytes : Bytes → List ClassByte
class_bytes [] = []
class_bytes (c ∷ []) = if c == backslash then [] else class_byte c false [] ∷ []
class_bytes (c ∷ d ∷ p) =
    let escaped = class_byte d true p ∷ class_bytes p in
    let plain = class_byte c false (d ∷ p) ∷ class_bytes (d ∷ p) in
    if c == backslash then escaped else plain

abbrev pub closes : Bool → ClassByte → Bool
closes first (class_byte c escaped p) = not escaped && (c == b']' && not first)

abbrev pub behind : ClassByte → Bytes
behind (class_byte c escaped p) = p

abbrev pub with_byte : ClassByte → Option (List ClassByte × Bytes) → Option (List ClassByte × Bytes)
with_byte u none = none
with_byte u (some (us, rest)) = some (u ∷ us, rest)

-- The bytes before the first bracket that is not escaped and not at the start of the class, and the
-- mask behind that bracket.
unfoldable pub body : Bool → List ClassByte → Option (List ClassByte × Bytes)
body first [] = none
body first (u ∷ us) =
    let onward = with_byte u (body false us) in
    if closes first u then some ([], behind u) else onward

abbrev pub code_of : ClassByte → ℕ
code_of (class_byte c escaped p) = c

abbrev pub is_dash : ClassByte → Bool
is_dash (class_byte c escaped p) = not escaped && c == b'-'

-- A dash that is not escaped makes a span of the bytes around it, any other byte is its own span.
unfoldable pub spans : List ClassByte → List (ℕ × ℕ)
spans [] = []
spans (u ∷ []) = (code_of u, code_of u) ∷ []
spans (u ∷ v ∷ []) = (code_of u, code_of u) ∷ (code_of v, code_of v) ∷ []
spans (u ∷ v ∷ w ∷ us) =
    let span = (code_of u, code_of w) ∷ spans us in
    let single = (code_of u, code_of u) ∷ spans (v ∷ w ∷ us) in if is_dash v then span else single

abbrev pub in_span : ℕ → ℕ × ℕ → Bool
in_span c (lo, hi) = leb lo c && leb c hi

abbrev pub verdict : Bool → Bool → ℕ → Option (List ClassByte × Bytes) → RangeResult
verdict negate hit c none = malformed
verdict negate hit c (some (us, rest)) =
    if (hit || any (in_span c) (spans us)) != negate then matched rest else mismatch

-- A class, negated or not: malformed if no bracket closes it, and otherwise a match with the mask
-- behind it when just one holds of the negation and of a span with the byte.
unfoldable pub class_meaning : Bool → Bytes → ℕ → RangeResult
unfolding body class_bytes spans
class_meaning negate p c = verdict negate false c (body true (class_bytes p))

abbrev pub mask_class : Bytes → ℕ → RangeResult
mask_class [] c = class_meaning false [] c
mask_class (d ∷ p) c =
    if is_negation d then class_meaning true p c else class_meaning false (d ∷ p) c
