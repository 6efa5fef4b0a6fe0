-- ===== src/IfMask.antt =====
-- ifmask.go: `MatchIfMask`, the fnmatch-style mask of a `via` option, and `rangeMatch`. An index
-- into the pattern or the name is the suffix that begins there, and `literalBracketIdx` is the
-- length of its suffix. The loops run on fuel.
pub mod Spans
pub mod Class
pub mod Total
pub mod Meaning
pub mod Matches
use ipfw_go.Prelude.{
  ℕ, zero, suc, ◌+◌, ◌*◌, Bool, true, false, not, ◌&&◌, ◌||◌, [], ◌∷◌, Option, none, some, Bytes,
  ◌==◌, ◌!=◌, ltb, leb, if◌then◌else◌, length, ◌≡◌, refl, codes,
}

abbrev pub backslash : ℕ
backslash = 92

-- What a class did with a byte; a match gives the pattern behind the class.
pub data RangeResult : Type 0 where
  malformed mismatch : RangeResult
  matched : Bytes → RangeResult

-- One member of a class: its first byte, whether it was escaped, and the pattern behind it.
pub data Member : Type 0 where
  no_member : Member
  member : ℕ → Bool → Bytes → Member

abbrev escaped_member : Bytes → Member
escaped_member [] = no_member
escaped_member (lo ∷ p) = member lo true p

unfoldable pub next_member : Bytes → Member
next_member [] = no_member
next_member (lo ∷ p) = if lo == backslash then escaped_member p else member lo false p

-- The end of a range and the pattern behind it.
abbrev range_end : ℕ → Bytes → Option (ℕ × Bytes)
range_end hi [] = if hi == backslash then none else some (hi, [])
range_end hi (e ∷ p) = if hi == backslash then some (e, p) else some (hi, e ∷ p)

-- What a member takes: whether it holds the byte, and the pattern behind it.
abbrev range_hit : ℕ → ℕ → Option (ℕ × Bytes) → Option (Bool × Bytes)
range_hit lo c none = none
range_hit lo c (some (hi, p)) = some (leb lo c && leb c hi, p)

unfoldable pub member_hit : ℕ → ℕ → Bytes → Option (Bool × Bytes)
member_hit lo c (d ∷ hi ∷ p) =
    if d == b'-' && not (hi == b']')
    then range_hit lo c (range_end hi p)
    else some (lo == c, d ∷ hi ∷ p)
member_hit lo c p = some (lo == c, p)

abbrev after_hit : (Bool → Bytes → RangeResult) → Bool → Option (Bool × Bytes) → RangeResult
after_hit go hit none = malformed
after_hit go hit (some (h, p)) = go (hit || h) p

-- The switch of `rangeMatch`: `go` is the next round of its loop.
abbrev range_member : (Bool → Bytes → RangeResult) → Bool → Bool → Bool → ℕ → Member → RangeResult
range_member go first hit negate c no_member = malformed
range_member go first hit negate c (member lo escaped p) =
    if not escaped && (lo == b']' && not first)
    then (if hit != negate then matched p else mismatch)
    else after_hit go hit (member_hit lo c p)

-- The loop of `rangeMatch`. `first` tells that no member has been read. The result without fuel is
-- never reached: a round takes a byte of the pattern.
pub range_loop : ℕ → Bool → Bool → Bool → Bytes → ℕ → RangeResult
unfolding next_member member_hit
range_loop zero first hit negate p c = malformed
range_loop (suc f) first hit negate p c =
    range_member (λ h q. range_loop f false h negate q c) first hit negate c (next_member p)

abbrev is_negation : ℕ → Bool
is_negation c = c == b'!' || c == b'^'

-- `rangeMatch`, on the pattern behind the opening bracket.
unfoldable pub range_match : Bytes → ℕ → RangeResult
unfolding range_loop
range_match [] c = range_loop 1 true false false [] c
range_match (d ∷ p) c =
    if is_negation d
    then range_loop (length p + 1) true false true p c
    else range_loop (length (d ∷ p) + 1) true false false (d ∷ p) c

-- The variables of the loop: the pattern and the name that are left, where the last star resumes,
-- and the length of the suffix from which brackets are literal.
pub record Scan : Type 0 where
  pub pattern : Bytes
  pub name : Bytes
  pub star : Option (Bytes × Bytes)
  pub literal : ℕ

-- What a round of the loop does: it goes on, or returns false.
pub data Round : Type 0 where
  go_on : Scan → Round
  give_up : Round

-- The end of the loop's body, which only a `continue` passes by: back to the last star.
abbrev resume : Option (Bytes × Bytes) → ℕ → Round
resume none literal = give_up
resume (some (p, [])) literal = give_up
resume (some (p, _ ∷ s)) literal =
    go_on (record { pattern = p; name = s; star = some (p, s); literal = literal })

module _ (star : Option (Bytes × Bytes)) (literal : ℕ) (c : ℕ) (s : Bytes) where
  abbrev advance : Bytes → Round
  advance p = go_on (record { pattern = p; name = s; star = star; literal = literal })

  abbrev literal_byte : ℕ → Bytes → Round
  literal_byte d p = if d == c then advance p else resume star literal

  -- `case '\\'`: a trailing backslash is literal.
  abbrev escape_round : Bytes → Round
  escape_round [] = if c == backslash then advance [] else resume star literal
  escape_round (d ∷ p) = literal_byte d p

-- `case '['` on the result of the class.
abbrev class_result : Scan → ℕ → Bytes → Bytes → RangeResult → Round
class_result m c s p (matched rest) = advance m.star m.literal c s rest
class_result m c s p mismatch = resume m.star m.literal
class_result m c s p malformed = literal_byte m.star (length p + 1) c s b'[' p

abbrev class_round : Scan → ℕ → Bytes → Bytes → Round
class_round m c s p =
    if ltb m.literal (length p + 1)
    then class_result m c s p (range_match p c)
    else literal_byte m.star m.literal c s b'[' p

-- The body of the loop, at the next byte of the name.
pub round_at : Scan → ℕ → Bytes → Bytes → Round
unfolding range_match
round_at m c s [] = resume m.star m.literal
round_at m c s (d ∷ p) =
    if d == b'?'
    then advance m.star m.literal c s p
    else if d == b'*'
    then go_on (record m { pattern = p; star = some (p, c ∷ s) })
    else if d == b'['
    then class_round m c s p
    else if d == backslash
    then escape_round m.star m.literal c s p
    else literal_byte m.star m.literal c s d p

-- The loop behind the scan, and its test: only stars are left.
pub only_stars : Bytes → Bool
only_stars [] = true
only_stars (d ∷ p) = d == b'*' && only_stars p

pub next_round : Scan → Bytes → Round
unfolding round_at
next_round m [] = give_up
next_round m (c ∷ s) = round_at m c s m.pattern

abbrev is_nil : Bytes → Bool
is_nil [] = true
is_nil (_ ∷ _) = false

abbrev after_round : (Scan → Option Bool) → Round → Option Bool
after_round loop give_up = some false
after_round loop (go_on m) = loop m

-- `none` means that the fuel ran out.
pub mask_loop : ℕ → Scan → Option Bool
unfolding next_round only_stars
mask_loop zero m = none
mask_loop (suc f) m =
    let onward = after_round (mask_loop f) (next_round m m.name) in
    if is_nil m.name then some (only_stars m.pattern) else onward

abbrev or_false : Option Bool → Bool
or_false none = false
or_false (some b) = b

pub mask_run : Bytes → Bytes → Option Bool
unfolding mask_loop
mask_run pattern name =
    mask_loop ((length name + 1) * (length pattern + 1))
      (record { pattern = pattern; name = name; star = none; literal = 0 })

unfoldable pub match_if_mask : Bytes → Bytes → Bool
unfolding mask_run
match_if_mask pattern name = or_false (mask_run pattern name)
