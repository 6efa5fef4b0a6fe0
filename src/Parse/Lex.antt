-- ===== src/Parse/Lex.antt =====
-- lex.go: the lexical helpers of the parser. A position in the input is the suffix that begins
-- there. A helper that leaves the input alone when it does not apply gives `none`.
use ipfw_go.Prelude.{
  ℕ, ◌+◌, ◌-◌, ◌*◌, ◌/◌, Bool, true, false, not, ◌&&◌, ◌||◌, [], ◌∷◌, Option, none, some, Bytes,
  codes, ◌==◌, ltb, leb, if◌then◌else◌,
}
use ipfw_go.Parse.Outcome.{Outcome, done, failed, ErrorKind}

abbrev pub newline : ℕ
newline = 10

abbrev pub carriage_return : ℕ
carriage_return = 13

unfoldable pub is_ws : ℕ → Bool
is_ws c = c == 32 || c == 9

unfoldable pub is_ascii_space : ℕ → Bool
is_ascii_space c = c == 32 || c == 9 || c == newline || c == carriage_return || c == 12

-- `prefix(s, p)`: what follows the keyword.
unfoldable pub prefix : Bytes → Bytes → Option Bytes
prefix s [] = some s
prefix [] (b ∷ p) = none
prefix (c ∷ s) (b ∷ p) = if c == b then prefix s p else none

abbrev pub is_some : Option Bytes → Bool
is_some none = false
is_some (some _) = true

unfoldable pub has_prefix : Bytes → Bytes → Bool
unfolding prefix
has_prefix s p = is_some (prefix s p)

abbrev pub taken : ℕ → Bytes × Bytes → Bytes × Bytes
taken c (t, rest) = (c ∷ t, rest)

unfoldable pub take_while : Bytes → (ℕ → Bool) → Bytes × Bytes
take_while [] f = ([], [])
take_while (c ∷ s) f = if f c then taken c (take_while s f) else ([], c ∷ s)

unfoldable pub ws0 : Bytes → Bytes
unfolding take_while is_ws
ws0 s = (take_while s is_ws).1

abbrev pub if_taken : Bytes × Bytes → Option Bytes
if_taken ([], rest) = none
if_taken (c ∷ t, rest) = some rest

unfoldable pub ws1 : Bytes → Option Bytes
unfolding take_while is_ws
ws1 s = if_taken (take_while s is_ws)

unfoldable pub is_line_space : ℕ → Bool
unfolding is_ascii_space
is_line_space c = not (c == newline) && is_ascii_space c

unfoldable pub skip_space : Bytes → Bytes
unfolding take_while is_line_space
skip_space s = (take_while s is_line_space).1

unfoldable pub is_comma_space : ℕ → Bool
is_comma_space c = c == 32 || c == 9 || c == 12 || c == 11 || c == carriage_return

unfoldable pub skip_comma_space : Bytes → Bytes
unfolding take_while is_comma_space
skip_comma_space s = (take_while s is_comma_space).1

unfoldable pub list_ended : Bytes → Bool
list_ended [] = true
list_ended (c ∷ s) = c == newline

unfoldable pub is_token_byte : ℕ → Bool
unfolding is_ascii_space
is_token_byte c = not (is_ascii_space c)

unfoldable pub token : Bytes → Bytes × Bytes
unfolding take_while is_token_byte
token s = take_while s is_token_byte

unfoldable pub not_prefix : Bytes → Option Bytes
unfolding prefix
not_prefix s = prefix s (codes "not")

abbrev pub or_input : Bytes → Option Bytes → Bytes × Bool
or_input s none = (s, false)
or_input s (some rest) = (rest, true)

abbrev pub then_ws1 : Option Bytes → Option Bytes
then_ws1 none = none
then_ws1 (some rest) = ws1 rest

-- The input behind a `not` and its whitespace, and whether they were there.
unfoldable pub not_ws1 : Bytes → Bytes × Bool
unfolding not_prefix ws1
not_ws1 s = or_input s (then_ws1 (not_prefix s))

abbrev pub then_prefix : Bytes → Option Bytes → Option Bytes
then_prefix keyword none = none
then_prefix keyword (some rest) = prefix rest keyword

unfoldable pub ws1_keyword : Bytes → Bytes → Option Bytes
unfolding ws1 prefix
ws1_keyword s keyword = then_prefix keyword (ws1 s)

unfoldable pub is_digit : ℕ → Bool
is_digit c = leb b'0' c && leb c b'9'

-- The loop of `parseUint`, on the value folded so far.
unfoldable pub uint_loop : ℕ → ℕ → Bytes → Option (ℕ × Bytes)
unfolding is_digit
uint_loop max value [] = some (value, [])
uint_loop max value (c ∷ s) =
    let digit = c - b'0' in
    let onward = uint_loop max (value * 10 + digit) s in
    if is_digit c
    then if ltb ((max - digit) / 10) value then none else onward
    else some (value, c ∷ s)

unfoldable pub parse_uint : Bytes → ℕ → Option (ℕ × Bytes)
unfolding uint_loop is_digit
parse_uint [] max = none
parse_uint (c ∷ s) max = if is_digit c then uint_loop max 0 (c ∷ s) else none

abbrev pub max_u8 : ℕ
max_u8 = 255

abbrev pub max_u16 : ℕ
max_u16 = 65535

abbrev pub max_u32 : ℕ
max_u32 = 4294967295

unfoldable pub parse_u8 : Bytes → Option (ℕ × Bytes)
unfolding parse_uint
parse_u8 s = parse_uint s max_u8

unfoldable pub parse_u16 : Bytes → Option (ℕ × Bytes)
unfolding parse_uint
parse_u16 s = parse_uint s max_u16

unfoldable pub parse_u32 : Bytes → Option (ℕ × Bytes)
unfolding parse_uint
parse_u32 s = parse_uint s max_u32

unfoldable pub at_token_end : Bytes → Bool
unfolding is_ascii_space
at_token_end [] = true
at_token_end (c ∷ s) = is_ascii_space c

-- Where a group stands tells the alias of `or`: `o` in a header, `|` among options.
pub data GroupPosition : Type 0 where
  header_position trailing_position : GroupPosition

pub record Group : Type 0 where
  pub braced : Bool
  pub position : GroupPosition

abbrev pub opened : Bytes → GroupPosition → Option Bytes → Group × Bytes
opened s position none = (record { braced = false; position = position }, s)
opened s position (some rest) = (record { braced = true; position = position }, skip_space rest)

unfoldable pub open_group : Bytes → GroupPosition → Group × Bytes
unfolding prefix skip_space
open_group s position = opened s position (prefix s (codes "{"))

abbrev pub alternate_separator : GroupPosition → Bytes
alternate_separator header_position = codes "o"
alternate_separator trailing_position = codes "|"

abbrev pub at_end : Option Bytes → Option Bytes
at_end none = none
at_end (some rest) = if at_token_end rest then some rest else none

abbrev pub or_else : Option Bytes → Option Bytes → Option Bytes
or_else none second = second
or_else (some rest) second = some rest

unfoldable pub take_separator : GroupPosition → Bytes → Option Bytes
unfolding prefix at_token_end
take_separator position s =
    or_else (at_end (prefix s (codes "or"))) (at_end (prefix s (alternate_separator position)))

abbrev pub separated : {F : Type 0} → Bytes → Option Bytes → Outcome F Bool
separated rest none = failed ErrorKind.expected_or rest none
separated rest (some after) = done true (skip_space after)

abbrev pub closed_or : {F : Type 0} → GroupPosition → Bytes → Option Bytes → Outcome F Bool
closed_or position rest none = separated rest (take_separator position rest)
closed_or position rest (some closed) = done false closed

-- `group.Next`: whether another element comes.
unfoldable pub group_next : {F : Type 0} → Group → Bytes → Outcome F Bool
unfolding prefix skip_space take_separator
group_next g s =
    let rest = skip_space s in
    if g.braced then closed_or g.position rest (prefix rest (codes "}")) else done false s

-- The line at the start of the input up to its LF or CRLF, and what is left.
abbrev pub starts_newline : Bytes → Bool
starts_newline [] = false
starts_newline (c ∷ s) = c == newline

unfoldable pub split_line : Bytes → Bytes × Bytes
split_line [] = ([], [])
split_line (c ∷ s) =
    if c == newline || c == carriage_return && starts_newline s
    then ([], c ∷ s)
    else taken c (split_line s)

unfoldable pub line_text : Bytes → Bytes
unfolding split_line
line_text s = (split_line s).0

unfoldable pub is_not_newline : ℕ → Bool
is_not_newline c = not (c == newline)

-- `takeLine`: it leaves the newline.
unfoldable pub take_line : Bytes → Bytes × Bytes
unfolding take_while is_not_newline
take_line s = take_while s is_not_newline

abbrev pub trimmed : ℕ → Bytes → Bytes
trimmed c [] = if is_ascii_space c then [] else c ∷ []
trimmed c (d ∷ t) = c ∷ d ∷ t

unfoldable pub trim_right_space : Bytes → Bytes
unfolding is_ascii_space
trim_right_space [] = []
trim_right_space (c ∷ s) = trimmed c (trim_right_space s)

-- The end of the input or of the line, where an option list ends.
unfoldable pub at_line_end : Bytes → Bool
unfolding has_prefix
at_line_end [] = true
at_line_end (c ∷ s) = c == newline || has_prefix (c ∷ s) (carriage_return ∷ newline ∷ [])
