-- ===== src/Parse/Reads/Lex.antt =====
-- What the helpers of lex.go leave of the input.
use ipfw_go.Prelude.{
  ℕ, suc, ◌+◌, ◌≤◌, Bool, true, false, [], ◌∷◌, Option, none, Bytes, codes, ◌==◌, if◌then◌else◌,
  length, ◌≡◌, arith,
}
use ipfw_go.Parse.Lex.{
  is_ws, if_taken, then_prefix, prefix, take_while, taken, ws0, ws1, then_ws1, skip_space,
  skip_comma_space, not_prefix, or_input, not_ws1, ws1_keyword, split_line, is_line_space,
  is_comma_space, token, is_token_byte,
}
use ipfw_go.Parse.Reads.{Suffix, here, there, Behind, same, join, weak, Opens, shut, opens}

-- The two parts of an input: the second ends it, and the lengths add up.
pub record Parts (s : Bytes) (parts : Bytes × Bytes) : Type 0 where
  pub suffix : Suffix (parts.1) s
  pub lengths : length (parts.0) + length (parts.1) ≡ length s

taken-Parts :
    (c : ℕ) {s : Bytes} (parts : Bytes × Bytes) → Parts s parts → Parts (c ∷ s) (taken c parts)
taken-Parts c (t, rest) h = record { suffix = there c h.suffix; lengths = omega (arith, h.lengths) }

none_taken : (s : Bytes) → Parts s ([], s)
none_taken s = record { suffix = here; lengths = omega arith }

pub if-Parts :
    (b : Bool) {s : Bytes} {p q : Bytes × Bytes}
    → Parts s p
    → Parts s q
    → Parts s (if b then p else q)
if-Parts true h h' = h
if-Parts false h h' = h'

pub take_while-Parts : (s : Bytes) (f : ℕ → Bool) → Parts s (take_while s f)
unfolding take_while
take_while-Parts [] f = none_taken []
take_while-Parts (c ∷ s) f =
    if-Parts (f c) (taken-Parts c (take_while s f) (take_while-Parts s f)) (none_taken (c ∷ s))

pub split_line-Parts : (s : Bytes) → Parts s (split_line s)
unfolding split_line
split_line-Parts [] = none_taken []
split_line-Parts (c ∷ s) =
    if-Parts _ (none_taken (c ∷ s)) (taken-Parts c (split_line s) (split_line-Parts s))

pub Parts-Behind : {s : Bytes} {p : Bytes × Bytes} → Parts s p → Behind 0 s (p.1)
Parts-Behind h = record { suffix = h.suffix; shorter = omega (arith, h.lengths) }

pub ws0-Behind : (s : Bytes) → Behind 0 s (ws0 s)
unfolding ws0
ws0-Behind s = Parts-Behind (take_while-Parts s is_ws)

pub skip_space-Behind : (s : Bytes) → Behind 0 s (skip_space s)
unfolding skip_space
skip_space-Behind s = Parts-Behind (take_while-Parts s is_line_space)

pub skip_comma_space-Behind : (s : Bytes) → Behind 0 s (skip_comma_space s)
unfolding skip_comma_space
skip_comma_space-Behind s = Parts-Behind (take_while-Parts s is_comma_space)

pub token-Parts : (s : Bytes) → Parts s (token s)
unfolding token
token-Parts s = take_while-Parts s is_token_byte

Opens-join :
    {m n k : ℕ} {s r : Bytes} {o : Option Bytes}
    → Behind m s r
    → Opens n r o
    → k ≤ m + n
    → Opens k s o
Opens-join h shut e = shut
Opens-join h (opens h') e = opens (join h h' e)

pub Opens-weak : {n : ℕ} {s : Bytes} {o : Option Bytes} → Opens n s o → Opens 0 s o
Opens-weak shut = shut
Opens-weak (opens h) = opens (weak h)

pub if-Opens :
    (b : Bool) {n : ℕ} {s : Bytes} {o : Option Bytes}
    → Opens n s o
    → Opens n s (if b then o else none)
if-Opens true h = h
if-Opens false h = shut

pub prefix-Opens : (s p : Bytes) → Opens (length p) s (prefix s p)
unfolding prefix
prefix-Opens s [] = opens same
prefix-Opens [] (b ∷ p) = shut
prefix-Opens (c ∷ s) (b ∷ p) = if-Opens (c == b) (one_more (prefix-Opens s p))
  where
    one_more : {o : Option Bytes} → Opens (length p) s o → Opens (suc (length p)) (c ∷ s) o
    one_more shut = shut
    one_more (opens h) =
        opens (record { suffix = there c h.suffix; shorter = omega (arith, h.shorter) })

if_taken-Opens : {s : Bytes} (p : Bytes × Bytes) → Parts s p → Opens 1 s (if_taken p)
if_taken-Opens ([], rest) h = shut
if_taken-Opens (c ∷ t, rest) h =
    opens (record { suffix = h.suffix; shorter = omega (arith, h.lengths) })

pub ws1-Opens : (s : Bytes) → Opens 1 s (ws1 s)
unfolding ws1
ws1-Opens s = if_taken-Opens (take_while s is_ws) (take_while-Parts s is_ws)

then_ws1-Opens : {n : ℕ} {s : Bytes} {o : Option Bytes} → Opens n s o → Opens n s (then_ws1 o)
then_ws1-Opens shut = shut
then_ws1-Opens (opens {r} h) = Opens-join h (ws1-Opens r) (omega arith)

pub or_input-Behind :
    {s : Bytes} {o : Option Bytes} {n : ℕ} → Opens n s o → Behind 0 s (or_input s o).0
or_input-Behind shut = same
or_input-Behind (opens h) = weak h

pub not_ws1-Behind : (s : Bytes) → Behind 0 s (not_ws1 s).0
unfolding not_ws1 not_prefix
not_ws1-Behind s = or_input-Behind (then_ws1-Opens (prefix-Opens s (codes "not")))

then_prefix-Opens :
    (p : Bytes) {n : ℕ} {s : Bytes} {o : Option Bytes} → Opens n s o → Opens n s (then_prefix p o)
then_prefix-Opens p shut = shut
then_prefix-Opens p (opens {r} h) = Opens-join h (prefix-Opens r p) (omega arith)

pub ws1_keyword-Opens : (s p : Bytes) → Opens 1 s (ws1_keyword s p)
unfolding ws1_keyword
ws1_keyword-Opens s p = then_prefix-Opens p (ws1-Opens s)
