-- ===== src/Tests/Lines.antt =====
-- The parser on lines of a ruleset.
use mathlib.Core.List.{cons-ne-nil}
use ipfw_go.Parse.Body.{Grammar}
use ipfw_go.Parse.Lex.{max_u16, parse_uint, take_while, is_digit, trim_right_space, ws0}
use ipfw_go.Parse.Line.{parse_line}
use ipfw_go.Parse.Next.{Parser, next, records}
use ipfw_go.Parse.Numbers.{spelled, parse_uint-spelled}
use ipfw_go.Parse.Outcome.{State}
use ipfw_go.Parse.Reads.{Reads}
use ipfw_go.Parse.Reads.Commands.{parse_line-Reads}
use ipfw_go.Parse.Records.{first_line, behind_line, Reports, AreLines, next-Reports, records_total}
use ipfw_go.Parse.Next.{ParseError}
use ipfw_go.Prelude.{
  ◌<◌, true, List, [], ◌∷◌, ◌++◌, Option, none, some, Bytes, codes, length, ◌≡◌, arith,
}
use ipfw_go.Resolver.{Token}
use ipfw_go.Rule.{Record}

-- The state that keeps the tokens.
abbrev recorder : State (List Token) (Unit {0})
recorder t ts = (ts ++ t ∷ [], none)

abbrev pub grammar : Grammar (Unit {0})
grammar = record {
  enable_labels = true;
  option_hook = none;
  table_type_hook = none;
  proto_checker = none;
}

abbrev pub rule_line : Bytes
rule_line =
    codes
      "add 100 allow tcp from { 10.0.0.0/8,host.example or not me } 22,80-90 to any 443 established"

abbrev two_lines : Parser
two_lines = record { rest = codes "add deny ip from any to any\nadd wrong"; line = 4 }

parse_line-Reads_example : Reads 0 rule_line ((parse_line grammar none recorder rule_line []).1)
parse_line-Reads_example = parse_line-Reads grammar none recorder rule_line []

next-Reports_example :
    let (_, step, m') = next grammar none recorder two_lines [] in
    (m'.line ≡ 5)
    × (m'.rest ≡ behind_line two_lines.rest)
    × (length m'.rest < length two_lines.rest)
    × Reports 5 (trim_right_space (first_line (ws0 two_lines.rest))) step
next-Reports_example = next-Reports grammar none recorder two_lines [] (cons-ne-nil _ _)

records_total_example :
    (τ : List Token) × (rs : List Record) × (e : Option (ParseError (Unit {0}))) × (records grammar
        none recorder 64 two_lines []
      ≡ some (τ, rs, e))
    × AreLines grammar none recorder 4 rs e
records_total_example = records_total grammar none recorder two_lines [] 64 (omega arith)

parse_uint-spelled_example :
    parse_uint (codes "65536x") max_u16 ≡ spelled max_u16 (take_while (codes "65536x") is_digit)
parse_uint-spelled_example = parse_uint-spelled (codes "65536x") max_u16 (omega arith)
