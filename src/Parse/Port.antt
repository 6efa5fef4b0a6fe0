-- ===== src/Parse/Port.antt =====
-- port.go: the ports of a rule body.
use ipfw_go.Prelude.{
  ℕ, zero, suc, ◌+◌, Bool, true, false, not, ◌&&◌, ◌||◌, [], ◌∷◌, Option, none, some, Bytes, codes,
  ◌==◌, leb, if◌then◌else◌, length,
}
use ipfw_go.Resolver.{BodySide, Token}
use ipfw_go.Rule.{Port, PortRange}
use ipfw_go.Parse.Lex.{prefix, not_ws1, skip_comma_space, list_ended, parse_u16}
use ipfw_go.Parse.Outcome.{Outcome, done, failed, no_fuel, ErrorKind, State, M, pure, emit, ◌>>=◌}

unfoldable pub is_alphanumeric : ℕ → Bool
is_alphanumeric c = leb b'a' c && leb c b'z' || leb b'A' c && leb c b'Z' || leb b'0' c && leb c b'9'

abbrev pub backslash : ℕ
backslash = 92

-- The name that `parsePort` scans and what follows it, or the backslash that escapes something else.
pub data PortScan : Type 0 where
  scanned : Bytes → Bytes → PortScan
  bad_escape : Bytes → PortScan

abbrev pub scanned_byte : ℕ → PortScan → PortScan
scanned_byte c (scanned name rest) = scanned (c ∷ name) rest
scanned_byte c (bad_escape at) = bad_escape at

abbrev pub is_scanned : ℕ → Bool
is_scanned c = is_alphanumeric c || c == b'-' || c == backslash

-- The switch of the loop. `onward` is the rest of the loop, on the escape that the byte opens.
abbrev pub scan_byte : Option Bytes → ℕ → Bytes → PortScan → PortScan
scan_byte (some at) c s onward = if not (c == b'-') then bad_escape at else scanned_byte c onward
scan_byte none c s onward =
    if c == backslash
    then scanned_byte c onward
    else if c == b'-'
    then scanned [] (c ∷ s)
    else scanned_byte c onward

abbrev pub opens_escape : Option Bytes → ℕ → Bytes → Option Bytes
opens_escape (some at) c s = none
opens_escape none c s = if c == backslash then some (c ∷ s) else none

-- The loop of `parsePort`. An open escape is the suffix at its backslash.
unfoldable pub port_loop : Option Bytes → Bytes → PortScan
unfolding is_alphanumeric
port_loop escape [] = scanned [] []
port_loop escape (c ∷ s) =
    let onward = port_loop (opens_escape escape c s) s in
    if not (is_scanned c) then scanned [] (c ∷ s) else scan_byte escape c s onward

abbrev pub named_port : Bytes → Option (ℕ × Bytes) → Port
named_port name (some (number, [])) = record { name = []; number = number }
named_port name _ = record { name = name; number = 0 }

abbrev pub port_of : {F : Type 0} → Bytes → PortScan → Outcome F Port
port_of s (bad_escape at) = failed ErrorKind.unexpected_escape at none
port_of s (scanned [] rest) = failed ErrorKind.expected_port s none
port_of s (scanned (c ∷ name) rest) = done (named_port (c ∷ name) (parse_u16 (c ∷ name))) rest

unfoldable pub parse_port : {F : Type 0} → Bytes → Outcome F Port
unfolding port_loop parse_u16
parse_port s = port_of s (port_loop none s)

abbrev pub range_to : {F : Type 0} → Port → Outcome F Port → Outcome F PortRange
range_to lo (done hi rest) = done (record { lo = lo; hi = hi }) rest
range_to lo (failed e at cause) = failed e at cause
range_to lo no_fuel = no_fuel

abbrev pub range_behind : {F : Type 0} → Port → Bytes → Option Bytes → Outcome F PortRange
range_behind lo rest none = done (record { lo = lo; hi = lo }) rest
range_behind lo rest (some after_dash) = range_to lo (parse_port after_dash)

abbrev pub range_from : {F : Type 0} → Outcome F Port → Outcome F PortRange
range_from (done lo rest) = range_behind lo rest (prefix rest (codes "-"))
range_from (failed e at cause) = failed e at cause
range_from no_fuel = no_fuel

unfoldable pub parse_port_range : {F : Type 0} → Bytes → Outcome F PortRange
unfolding parse_port prefix
parse_port_range s = range_from (parse_port s)

-- `isPortSyntax`
unfoldable pub is_port_syntax : ErrorKind → Bool
is_port_syntax ErrorKind.expected_port = true
is_port_syntax ErrorKind.unexpected_escape = true
is_port_syntax _ = false

-- What follows an element of a comma list: another element, or the end at this input.
pub data Listed : Type 0 where
  another ended : Bytes → Listed

abbrev pub behind_comma : Bytes → Listed
behind_comma rest = if list_ended rest then ended rest else another rest

abbrev pub comma_list : Bytes → Option Bytes → Listed
comma_list buf none = ended buf
comma_list buf (some after) = behind_comma (skip_comma_space after)

-- The end of the body of the loops over comma lists.
unfoldable pub next_listed : Bytes → Listed
unfolding prefix skip_comma_space list_ended
next_listed buf = comma_list buf (prefix buf (codes ","))

abbrev pub port_token : BodySide → Bool → PortRange → Token
port_token side neg range = Token.port side (record { neg = neg; lo = range.lo; hi = range.hi })

-- The loops over comma lists go on with the next element, if there is one.
abbrev pub next_element : {S F : Type 0} → (Bytes → M S F (Unit {0})) → Listed → M S F (Unit {0})
next_element loop (ended rest) = pure (done tt rest)
next_element loop (another rest) = loop rest

module _ {S F : Type 0} (st : State S F) where
  unfoldable pub ports_loop : ℕ → BodySide → Bool → Bytes → M S F (Unit {0})
  unfolding parse_port_range next_listed
  ports_loop zero side neg rest = pure no_fuel
  ports_loop (suc f) side neg rest = do
    (range, buf) ← pure (parse_port_range rest)
    _ ← emit st (port_token side neg range) rest
    next_element (ports_loop f side neg) (next_listed buf)

  unfoldable pub parse_ports : BodySide → Bytes → M S F (Unit {0})
  unfolding ports_loop not_ws1
  parse_ports side s = let (rest, neg) = not_ws1 s in ports_loop (length rest + 1) side neg rest
