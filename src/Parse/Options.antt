-- ===== src/Parse/Options.antt =====
-- opt.go: the places of options, their keywords and their arguments.
pub mod Values
pub mod Lists
use ipfw_go.Prelude.Int.{ℤ}
use ipfw_go.Prelude.{
  ℕ, zero, suc, ◌+◌, ◌%◌, ◌^◌, Bool, true, false, not, ◌&&◌, ◌||◌, List, [], ◌∷◌, Option, none,
  some, Bytes, codes, contains_byte, ◌==◌, leb, if◌then◌else◌, length, bit_or,
}
use ipfw_go.Rule.{
  Opt, OptKind, Port, PortRange, Proto, TypeSet, TcpFlags, Via, ViaKind, empty_type_set,
  type_set_add,
}
use ipfw_go.Parse.Lex.{
  is_ascii_space, prefix, has_prefix, take_while, at_token_end, parse_u8, ws1, token, split_line,
  trim_right_space,
}
use ipfw_go.Parse.Outcome.{Outcome, done, failed, no_fuel, ErrorKind}
use ipfw_go.Parse.Port.{Listed, another, ended, next_listed}

-- `optionPlace`: the words packed there are fields here.
pub record Place : Type 0 where
  pub braced : Bool
  pub block : ℕ
  pub pattern : ℕ

-- `optionContext`
pub record OptionContext : Type 0 where
  pub blocks : ℕ
  pub dynamic_state_seen : Bool

abbrev pub new_context : OptionContext
new_context = record { blocks = 0; dynamic_state_seen = false }

unfoldable pub place_of : OptionContext → Bool → Place
place_of ctx braced = record { braced = braced; block = ctx.blocks; pattern = 0 }

unfoldable pub end_block : OptionContext → OptionContext
end_block ctx = record ctx { blocks = (ctx.blocks + 1) % 2 ^ 16 }

unfoldable pub next_pattern : Place → Place
next_pattern p = record p { pattern = (p.pattern + 1) % 2 ^ 16 }

abbrev pub no_port : Port
no_port = record { name = []; number = 0 }

-- `optionPlace.Opt`: what its record does not name is zero.
abbrev pub place_opt : Place → Bool → OptKind → Opt
place_opt p neg kind = record {
  neg = neg;
  block = p.block;
  pattern = p.pattern;
  kind = kind;
  text = [];
  arg = [];
  ports = record { lo = no_port; hi = no_port };
  proto = record { name = []; number = 0 };
  types = empty_type_set;
  tcp_flags = record { set_flags = 0; clear_flags = 0 };
  via = record { kind = ViaKind.unset; name = []; value = [] };
}

-- `optionContext.Validate`, as the context it leaves.
unfoldable pub validate :
    {F : Type 0} → OptionContext → OptKind → Place → Bytes → Outcome F OptionContext
validate ctx OptKind.keep_state place at =
    if place.braced
    then failed ErrorKind.dynamic_state_in_group at none
    else if ctx.dynamic_state_seen
    then failed ErrorKind.duplicate_dynamic_state at none
    else done (record ctx { dynamic_state_seen = true }) at
validate ctx _ place at = done ctx at

abbrev pub at_boundary : Bytes → Bool
at_boundary [] = true
at_boundary (c ∷ rest) =
    is_ascii_space c
    || c == b'}'
    || has_prefix (c ∷ rest) (codes "//")
    || c == b'|' && at_token_end rest

abbrev pub bounded : Option Bytes → Option Bytes
bounded none = none
bounded (some rest) = if at_boundary rest then some rest else none

-- `optionKeyword`: what follows a spelling that ends at the boundary of an option.
unfoldable pub option_keyword : Bytes → Bytes → Option Bytes
unfolding prefix is_ascii_space has_prefix at_token_end
option_keyword s keyword = bounded (prefix s keyword)

abbrev pub found : OptKind → Option (OptKind × Bytes) → Option Bytes → Option (OptKind × Bytes)
found kind onward (some rest) = some (kind, rest)
found kind onward none = onward

-- The first of the spellings that the input begins with, and what follows it.
unfoldable pub first_keyword : List (Bytes × OptKind) → Bytes → Option (OptKind × Bytes)
unfolding option_keyword
first_keyword [] s = none
first_keyword ((keyword, kind) ∷ ks) s = found kind (first_keyword ks s) (option_keyword s keyword)

-- The spellings of `argumentOption` that begin with the byte, in the order tried.
abbrev pub argument_spellings : ℕ → List (Bytes × OptKind)
argument_spellings c =
    if c == b's'
    then (codes "src-port", OptKind.source_port) ∷ []
    else if c == b'd'
    then (codes "dst-port", OptKind.destination_port) ∷ []
    else if c == b'i'
    then (codes "icmptypes", OptKind.icmp_types)
      ∷ (codes "icmptype", OptKind.icmp_types)
      ∷ (codes "icmp6types", OptKind.icmp6_types)
      ∷ (codes "icmp6type", OptKind.icmp6_types)
      ∷ []
    else if c == b'k'
    then (codes "keep-state", OptKind.keep_state) ∷ []
    else if c == b'p'
    then (codes "proto", OptKind.proto) ∷ []
    else if c == b't'
    then (codes "tcpflags", OptKind.tcp_flags) ∷ (codes "tcpflgs", OptKind.tcp_flags) ∷ []
    else if c == b'v'
    then (codes "via", OptKind.via) ∷ []
    else []

abbrev pub comment_argument : Option Bytes → Option (OptKind × Bytes)
comment_argument none = none
comment_argument (some rest) = some (OptKind.comment, rest)

-- `argumentOption`, with the input behind the keyword in place of the keyword's length.
unfoldable pub argument_option : Bytes → Option (OptKind × Bytes)
unfolding prefix first_keyword
argument_option [] = none
argument_option (c ∷ s) =
    if c == b'/'
    then comment_argument (prefix (c ∷ s) (codes "//"))
    else first_keyword (argument_spellings c) (c ∷ s)

abbrev pub keyword_spellings : ℕ → List (Bytes × OptKind)
keyword_spellings c =
    if c == b'a'
    then (codes "antispoof", OptKind.anti_spoof) ∷ []
    else if c == b'd'
    then (codes "diverted", OptKind.diverted) ∷ []
    else if c == b'e'
    then (codes "established", OptKind.established) ∷ (codes "estab", OptKind.established) ∷ []
    else if c == b'f'
    then (codes "fragment", OptKind.frag) ∷ (codes "frag", OptKind.frag) ∷ []
    else if c == b'i'
    then (codes "in", OptKind.dir_in) ∷ []
    else if c == b'o'
    then (codes "out", OptKind.dir_out) ∷ []
    else []

-- `keywordOption`
unfoldable pub keyword_option : Bytes → Option (OptKind × Bytes)
unfolding first_keyword
keyword_option [] = none
keyword_option (c ∷ s) = first_keyword (keyword_spellings c) (c ∷ s)
