-- ===== src/Parse/Target.antt =====
-- target.go: how the token of a source or a destination is cut and classified.
pub mod Lists
use ipfw_go.Prelude.{
  ℕ, ◌+◌, ◌-◌, Bool, true, false, not, ◌&&◌, ◌||◌, [], ◌∷◌, ◌++◌, Option, none, some, Bytes,
  bytes_eq, codes, cut, contains_byte, ◌==◌, leb, if◌then◌else◌, length, take,
}
use ipfw_go.Rule.{Target, TargetKind}
use ipfw_go.Parse.Lex.{is_ascii_space, prefix, has_prefix, take_while, not_prefix, ws1}
use ipfw_go.Parse.Outcome.{ErrorKind}

unfoldable pub is_target_byte : ℕ → Bool
unfolding is_ascii_space
is_target_byte c = not (is_ascii_space c) && not (c == b'}') && not (c == b',')

unfoldable pub is_table_value_byte : ℕ → Bool
unfolding is_ascii_space
is_table_value_byte c = not (is_ascii_space c) && not (c == b')')

unfoldable pub scan_target_token : Bytes → Bytes × Bytes
unfolding take_while is_target_byte
scan_target_token s = take_while s is_target_byte

-- The bytes of `s` before its suffix `rest`.
abbrev pub before : Bytes → Bytes → Bytes
before s rest = take (length s - length rest) s

abbrev pub table_tail : Bytes → Bytes → Bytes → Bytes → Bytes × Bytes
table_tail s token rest after_value =
    if has_prefix after_value (codes ")")
    then (let behind = (scan_target_token after_value).1 in (before s behind, behind))
    else (token, rest)

-- `scanTableToken`: the whole lookup when it is closed behind its value, else the token as cut.
unfoldable pub scan_table_token : Bytes → Bytes → Bytes → Bytes × Bytes
unfolding take_while is_table_value_byte has_prefix scan_target_token
scan_table_token s token rest = table_tail s token rest (take_while rest is_table_value_byte).1

unfoldable pub is_ascii_letter : ℕ → Bool
is_ascii_letter c = leb b'a' c && leb c b'z' || leb b'A' c && leb c b'Z'

abbrev pub is_decimal : ℕ → Bool
is_decimal c = leb b'0' c && leb c b'9'

unfoldable pub is_network6_byte : ℕ → Bool
is_network6_byte c =
    is_decimal c
    || leb b'a' c && leb c b'f'
    || leb b'A' c && leb c b'F'
    || c == b':'
    || c == b'.'
    || c == b'/'

unfoldable pub is_network4_byte : ℕ → Bool
is_network4_byte c = is_decimal c || c == b'.' || c == b'/'

abbrev pub is_nil : Bytes → Bool
is_nil [] = true
is_nil (_ ∷ _) = false

unfoldable pub is_network6_text : Bytes → Bool
unfolding contains_byte take_while is_network6_byte
is_network6_text token =
    if not (contains_byte token b':') then false else is_nil (take_while token is_network6_byte).1

unfoldable pub is_network4_text : Bytes → Bool
unfolding take_while is_network4_byte
is_network4_text token = not (is_nil token) && is_nil (take_while token is_network4_byte).1

abbrev pub is_hostname_byte : ℕ → Bool
is_hostname_byte c = c == b'.' || is_ascii_letter c || is_decimal c || c == b'-' || c == b'_'

-- The loop of `isHostnameText`, on what has been seen.
unfoldable pub hostname_loop : Bool → Bool → Bytes → Bool
unfolding is_ascii_letter
hostname_loop has_dot has_letter [] = has_dot && has_letter
hostname_loop has_dot has_letter (c ∷ s) =
    let onward = hostname_loop (has_dot || c == b'.') (has_letter || is_ascii_letter c) s in
    if is_hostname_byte c then onward else false

unfoldable pub is_hostname_text : Bytes → Bool
unfolding hostname_loop
is_hostname_text token = hostname_loop false false token

-- What a token is: a kind with its text, or an error at an offset into the token.
pub data Class : Type 0 where
  class : TargetKind → Bytes → Class
  bad : ErrorKind → ℕ → Class

-- `tableName`: what the parentheses of a lookup hold, and what follows them.
abbrev pub closed_at : Bytes × Bytes × Bool → Option (Bytes × Bytes)
closed_at (inside, behind, true) = some (inside, behind)
closed_at (inside, behind, false) = none

abbrev pub inside_of : Option Bytes → Option (Bytes × Bytes)
inside_of none = none
inside_of (some opened) = closed_at (cut opened b')')

unfoldable pub table_name : Bytes → Option (Bytes × Bytes)
unfolding prefix cut
table_name token = inside_of (prefix token (codes "table("))

abbrev pub table_end : Bytes → Bytes → ℕ
table_end token behind = length token - length behind

abbrev pub table_class : Bytes → Bytes → Bytes → Bytes × Bytes × Bool → Class
table_class token inside behind ([], value, has_value) = bad ErrorKind.expected_table_name 0
table_class token inside behind (c ∷ name, [], true) =
    bad ErrorKind.expected_table_value (table_end token behind - 1)
table_class token inside [] (c ∷ name, value, has_value) = class TargetKind.table inside
table_class token inside (d ∷ behind) (c ∷ name, value, has_value) =
    bad ErrorKind.expected_target (table_end token (d ∷ behind))

abbrev pub closed_table : Bytes → Option (Bytes × Bytes) → Option Class
closed_table token none = none
closed_table token (some (inside, behind)) =
    some (table_class token inside behind (cut inside b','))

-- `classifyTable`; `none` for a token that is no closed lookup.
unfoldable pub classify_table : Bytes → Option Class
unfolding table_name cut
classify_table token = closed_table token (table_name token)

abbrev pub drop_quote : Bytes → Option Bytes
drop_quote [] = none
drop_quote (c ∷ []) = if c == b'\'' then some [] else none
drop_quote (c ∷ d ∷ s) = elim (drop_quote (d ∷ s)) [ none ↦ none | some name ↦ some (c ∷ name) ]

abbrev pub quoted_class : Option Bytes → Class
quoted_class none = bad ErrorKind.expected_hostname_escape_close 0
quoted_class (some name) =
    if is_hostname_text name
    then class TargetKind.hostname name
    else bad ErrorKind.expected_hostname 0

-- `classifyQuotedHostname`, on what follows the backtick.
unfoldable pub classify_quoted_hostname : Bytes → Class
unfolding is_hostname_text
classify_quoted_hostname s = quoted_class (drop_quote s)

abbrev pub backtick : ℕ
backtick = 96

-- A token that is neither a keyword nor a closed lookup.
unfoldable pub classify_text : ℕ → Bytes → Class
unfolding is_network6_text is_network4_text classify_quoted_hostname is_hostname_text
classify_text c s =
    if is_network6_text (c ∷ s)
    then class TargetKind.network6 (c ∷ s)
    else if is_network4_text (c ∷ s)
    then class TargetKind.network4 (c ∷ s)
    else if c == backtick
    then classify_quoted_hostname s
    else if is_hostname_text (c ∷ s)
    then class TargetKind.hostname (c ∷ s)
    else class TargetKind.custom (c ∷ s)

abbrev pub or_text : ℕ → Bytes → Option Class → Class
or_text c s (some k) = k
or_text c s none = classify_text c s

-- `classifyTarget`; `classifyTable` tests the prefix `table(` again.
unfoldable pub classify_target : Bytes → Class
unfolding bytes_eq classify_table classify_text
classify_target [] = bad ErrorKind.expected_target 0
classify_target (c ∷ s) =
    if c == b'{'
    then bad ErrorKind.expected_target 0
    else if bytes_eq (c ∷ s) (codes "not")
    then bad ErrorKind.expected_target 0
    else if bytes_eq (c ∷ s) (codes "any")
    then class TargetKind.anywhere []
    else if bytes_eq (c ∷ s) (codes "me6")
    then class TargetKind.me6 []
    else if bytes_eq (c ∷ s) (codes "me")
    then class TargetKind.me []
    else or_text c s (classify_table (c ∷ s))

unfoldable pub is_address_list_target : TargetKind → Bytes → Bool
unfolding has_prefix
is_address_list_target TargetKind.hostname text = true
is_address_list_target TargetKind.network4 text = true
is_address_list_target TargetKind.network6 text = true
is_address_list_target TargetKind.custom text = not (has_prefix text (codes "table("))
is_address_list_target _ text = false

-- The input behind a `not`, and whether it was there.
abbrev pub behind_not : Bytes → Option Bytes → Bytes × Bool
behind_not rest none = (rest, true)
behind_not rest (some after_space) = (after_space, true)

abbrev pub not_target : Bytes → Option Bytes → Bytes × Bool
not_target s none = (s, false)
not_target s (some []) = ([], true)
not_target s (some (c ∷ rest)) =
    if not (c == b'}') && not (is_ascii_space c)
    then (s, false)
    else behind_not (c ∷ rest) (ws1 (c ∷ rest))

unfoldable pub target_not : Bytes → Bytes × Bool
unfolding not_prefix is_ascii_space ws1
target_not s = not_target s (not_prefix s)

-- `family == TargetNetwork4 && kind == TargetNetwork6`, or the other way round.
unfoldable pub families_differ : TargetKind → TargetKind → Bool
families_differ TargetKind.network4 TargetKind.network6 = true
families_differ TargetKind.network6 TargetKind.network4 = true
families_differ _ _ = false
