-- ===== src/Parse/Reads/Groups.antt =====
-- What the groups and the numbers leave of the input.
use ipfw_go.Prelude.{
  ℕ, suc, ◌+◌, ◌-◌, ◌*◌, ◌≤◌, Bool, true, false, Bool-cases, inl, inr, [], ◌∷◌, Option, none, some,
  Bytes, codes, if◌then◌else◌, arith,
}
use ipfw_go.Parse.Lex.{
  prefix, skip_space, is_digit, uint_loop, parse_uint, at_token_end, Group, GroupPosition,
  open_group, take_separator, group_next, at_end, or_else, closed_or, separated, opened,
  alternate_separator,
}
use ipfw_go.Parse.Outcome.{Outcome, done, failed, ErrorKind, Fault}
use ipfw_go.Parse.Reads.{
  there, Behind, same, join, after, weak, Opens, shut, opens, Reads, reads, fails,
}
use ipfw_go.Parse.Reads.Lex.{skip_space-Behind, if-Opens, prefix-Opens}

pub open_group-Behind :
    (s : Bytes) (position : GroupPosition) → Behind 0 s (open_group s position).1
unfolding open_group
open_group-Behind s position = opened_behind (prefix-Opens s (codes "{"))
  where
    opened_behind : {o : Option Bytes} {n : ℕ} → Opens n s o → Behind 0 s (opened s position o).1
    opened_behind shut = same
    opened_behind (opens {r} h) = join h (skip_space-Behind r) (omega arith)

at_end-Opens : {n : ℕ} {s : Bytes} {o : Option Bytes} → Opens (suc n) s o → Opens 1 s (at_end o)
at_end-Opens shut = shut
at_end-Opens (opens {r} h) =
    if-Opens (at_token_end r)
      (opens (record { suffix = h.suffix; shorter = omega (arith, h.shorter) }))

or_else-Opens :
    {n : ℕ} {s : Bytes} {o o' : Option Bytes}
    → Opens n s o
    → Opens n s o'
    → Opens n s (or_else o o')
or_else-Opens shut h' = h'
or_else-Opens (opens h) h' = opens h

alternate-Opens :
    (position : GroupPosition) (s : Bytes) → Opens 1 s (prefix s (alternate_separator position))
alternate-Opens GroupPosition.header_position s = prefix-Opens s (codes "o")
alternate-Opens GroupPosition.trailing_position s = prefix-Opens s (codes "|")

take_separator-Opens :
    (position : GroupPosition) (s : Bytes) → Opens 1 s (take_separator position s)
unfolding take_separator
take_separator-Opens position s =
    or_else-Opens (at_end-Opens (prefix-Opens s (codes "or")))
      (at_end-Opens (alternate-Opens position s))

-- What follows an element: a separator takes a byte at least.
pub data Follows {F : Type 0} (s : Bytes) : Outcome F Bool → Type 0 where
  follows : {r : Bytes} → Behind 1 s r → Follows s (done true r)
  finishes : {r : Bytes} → Behind 0 s r → Follows s (done false r)
  breaks :
      {e : ErrorKind} {at : Bytes} {cause : Option (Fault F)}
      → Behind 0 s at
      → Follows s (failed e at cause)

module _ {F : Type 0} where
  separated-Follows :
      {s rest : Bytes} {o : Option Bytes}
      → Behind 0 s rest
      → Opens 1 rest o
      → Follows s (separated {F = F} rest o)
  separated-Follows h shut = breaks h
  separated-Follows h (opens {r} h') = follows (join h (join h' (skip_space-Behind r) one) one)
    where
      one : 1 ≤ 1 + 0
      one = omega arith

  closed_or-Follows :
      (position : GroupPosition) {s rest : Bytes} {n : ℕ} {o : Option Bytes}
      → Behind 0 s rest
      → Opens n rest o
      → Follows s (closed_or {F = F} position rest o)
  closed_or-Follows position {rest = rest} h shut =
      separated-Follows h (take_separator-Opens position rest)
  closed_or-Follows position h (opens h') = finishes (after h h')

  pub if-Reads :
      {A : Type 0} (b : Bool) {n : ℕ} {s : Bytes} {o o' : Outcome F A}
      → Reads n s o
      → Reads n s o'
      → Reads n s (if b then o else o')
  if-Reads true h h' = h
  if-Reads false h h' = h'

  if-Follows :
      (b : Bool) {s : Bytes} {o o' : Outcome F Bool}
      → Follows s o
      → Follows s o'
      → Follows s (if b then o else o')
  if-Follows true h h' = h
  if-Follows false h h' = h'

  pub group_next-Follows : (g : Group) (s : Bytes) → Follows s (group_next {F = F} g s)
  unfolding group_next
  group_next-Follows g s =
      if-Follows g.braced
        (closed_or-Follows g.position (skip_space-Behind s)
          (prefix-Opens (skip_space s) (codes "}")))
        (finishes same)

  Follows-Reads : {s : Bytes} {o : Outcome F Bool} → Follows s o → Reads 0 s o
  Follows-Reads (follows h) = reads (weak h)
  Follows-Reads (finishes h) = reads h
  Follows-Reads (breaks h) = fails h

  pub group_next-Reads : (g : Group) (s : Bytes) → Reads 0 s (group_next {F = F} g s)
  group_next-Reads g s = Follows-Reads (group_next-Follows g s)

-- A number that may be missing takes a byte at least.
pub data Numbers (n : ℕ) (s : Bytes) : Option (ℕ × Bytes) → Type 0 where
  missing : Numbers n s none
  number : {v : ℕ} {r : Bytes} → Behind n s r → Numbers n s (some (v, r))

if-Numbers :
    (b : Bool) {n : ℕ} {s : Bytes} {o o' : Option (ℕ × Bytes)}
    → Numbers n s o
    → Numbers n s o'
    → Numbers n s (if b then o else o')
if-Numbers true h h' = h
if-Numbers false h h' = h'

digit_more :
    (c : ℕ) {n : ℕ} {s : Bytes} {o : Option (ℕ × Bytes)} → Numbers n s o → Numbers (suc n) (c ∷ s) o
digit_more c missing = missing
digit_more c (number h) =
    number (record { suffix = there c h.suffix; shorter = omega (arith, h.shorter) })

zero_taken : {n : ℕ} {s : Bytes} {o : Option (ℕ × Bytes)} → Numbers n s o → Numbers 0 s o
zero_taken missing = missing
zero_taken (number h) = number (weak h)

uint_loop-Numbers : (max value : ℕ) (s : Bytes) → Numbers 0 s (uint_loop max value s)
unfolding uint_loop
uint_loop-Numbers max value [] = number same
uint_loop-Numbers max value (c ∷ s) =
    if-Numbers (is_digit c)
      (if-Numbers _ missing
        (zero_taken (digit_more c (uint_loop-Numbers max (value * 10 + (c - b'0')) s))))
      (number same)

pub parse_uint-Numbers : (s : Bytes) (max : ℕ) → Numbers 1 s (parse_uint s max)
unfolding parse_uint uint_loop
parse_uint-Numbers [] max = missing
parse_uint-Numbers (c ∷ s) max = elim (Bool-cases (is_digit c)) [
  | inl d ↦
      rw d (if-Numbers _ missing (digit_more c (uint_loop-Numbers max (0 * 10 + (c - b'0')) s)))
  | inr e ↦ rw e missing
]
