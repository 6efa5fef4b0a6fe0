-- ===== src/Parse/Reads/Options.antt =====
-- What the keywords and the arguments of options leave of the input.
use ipfw_go.Prelude.{
  ℕ, zero, suc, ◌≤◌, ◌<◌, Bool, true, false, not, List, [], ◌∷◌, Option, none, some, Bytes, codes,
  ◌==◌, if◌then◌else◌, length, arith,
}
use ipfw_go.Rule.{OptKind, TypeSet, type_set_add}
use ipfw_go.Parse.Lex.{parse_u8}
use ipfw_go.Parse.Options.{
  OptionContext, Place, validate, bounded, at_boundary, option_keyword, found, first_keyword,
  argument_spellings, comment_argument, argument_option, keyword_spellings, keyword_option,
}
use ipfw_go.Parse.Options.Values.{icmp_type_in_range, after_type, type_read, types_loop}
use ipfw_go.Parse.Outcome.{Outcome}
use ipfw_go.Parse.Port.{Listed}
use ipfw_go.Parse.Reads.{
  Behind, same, join, after, Opens, shut, opens, Reads, reads, fails, Reads-join,
}
use ipfw_go.Parse.Reads.Lex.{prefix-Opens, if-Opens}
use ipfw_go.Parse.Reads.Groups.{if-Reads, Numbers, missing, number, parse_uint-Numbers}
use ipfw_go.Parse.Reads.Lists.{Lists, lists_another, lists_ended, next_listed-Lists}

-- An optional value that takes `n` bytes at least.
pub data Finds {A : Type 0} (n : ℕ) (s : Bytes) : Option (A × Bytes) → Type 0 where
  absent : Finds n s none
  finds : {a : A} {r : Bytes} → Behind n s r → Finds n s (some (a, r))

-- Every word of a table of keywords has a byte.
abbrev pub NonEmpty : {A : Type 0} → List (Bytes × A) → Type 0
NonEmpty [] = Unit
NonEmpty ((word, a) ∷ ks) = (1 ≤ length word) × NonEmpty ks

bounded-Opens : {n : ℕ} {s : Bytes} {o : Option Bytes} → Opens n s o → Opens n s (bounded o)
bounded-Opens shut = shut
bounded-Opens (opens {r} h) = if-Opens (at_boundary r) (opens h)

option_keyword-Opens : (s word : Bytes) → Opens (length word) s (option_keyword s word)
unfolding option_keyword
option_keyword-Opens s word = bounded-Opens (prefix-Opens s word)

found-Finds :
    (kind : OptKind) {n : ℕ} {s : Bytes} {o : Option Bytes} {onward : Option (OptKind × Bytes)}
    → Opens n s o
    → 1 ≤ n
    → Finds 1 s onward
    → Finds 1 s (found kind onward o)
found-Finds kind shut e h = h
found-Finds kind (opens h') e h =
    finds (record { suffix = h'.suffix; shorter = omega (arith, h'.shorter) })

first_keyword-Finds :
    (ks : List (Bytes × OptKind)) (s : Bytes) → NonEmpty ks → Finds 1 s (first_keyword ks s)
unfolding first_keyword
first_keyword-Finds [] s h = absent
first_keyword-Finds ((word, kind) ∷ ks) s h =
    found-Finds kind (option_keyword-Opens s word) (h.0) (first_keyword-Finds ks s h.1)

if-NonEmpty :
    {A : Type 0} (b : Bool) (ks ks' : List (Bytes × A))
    → NonEmpty ks
    → NonEmpty ks'
    → NonEmpty (if b then ks else ks')
if-NonEmpty true ks ks' h h' = h
if-NonEmpty false ks ks' h h' = h'

argument_spellings-NonEmpty : (c : ℕ) → NonEmpty (argument_spellings c)
argument_spellings-NonEmpty c = if-NonEmpty (c == b's') _ _ (omega arith) (
    if-NonEmpty (c == b'd') _ _ (omega arith) (
      if-NonEmpty (c == b'i') _ _ (omega arith) (
        if-NonEmpty (c == b'k') _ _ (omega arith) (
          if-NonEmpty (c == b'p') _ _ (omega arith) (
            if-NonEmpty (c == b't') _ _ (omega arith)
              (if-NonEmpty (c == b'v') _ _ (omega arith) tt))))))

keyword_spellings-NonEmpty : (c : ℕ) → NonEmpty (keyword_spellings c)
keyword_spellings-NonEmpty c = if-NonEmpty (c == b'a') _ _ (omega arith) (
    if-NonEmpty (c == b'd') _ _ (omega arith) (
      if-NonEmpty (c == b'e') _ _ (omega arith) (
        if-NonEmpty (c == b'f') _ _ (omega arith) (
          if-NonEmpty (c == b'i') _ _ (omega arith)
            (if-NonEmpty (c == b'o') _ _ (omega arith) tt)))))

if-Finds :
    {A : Type 0} (b : Bool) {n : ℕ} {s : Bytes} {o o' : Option (A × Bytes)}
    → Finds n s o
    → Finds n s o'
    → Finds n s (if b then o else o')
if-Finds true h h' = h
if-Finds false h h' = h'

comment_argument-Finds :
    {n : ℕ} {s : Bytes} {o : Option Bytes} → Opens (suc n) s o → Finds 1 s (comment_argument o)
comment_argument-Finds shut = absent
comment_argument-Finds (opens h) =
    finds (record { suffix = h.suffix; shorter = omega (arith, h.shorter) })

pub argument_option-Finds : (s : Bytes) → Finds 1 s (argument_option s)
unfolding argument_option
argument_option-Finds [] = absent
argument_option-Finds (c ∷ s) =
    if-Finds (c == b'/') (comment_argument-Finds (prefix-Opens (c ∷ s) (codes "//")))
      (first_keyword-Finds (argument_spellings c) (c ∷ s) (argument_spellings-NonEmpty c))

pub keyword_option-Finds : (s : Bytes) → Finds 1 s (keyword_option s)
unfolding keyword_option
keyword_option-Finds [] = absent
keyword_option-Finds (c ∷ s) =
    first_keyword-Finds (keyword_spellings c) (c ∷ s) (keyword_spellings-NonEmpty c)

module _ {F : Type 0} where
  pub validate-Reads :
      (ctx : OptionContext) (kind : OptKind) (place : Place) (s : Bytes)
      → Reads 0 s (validate {F = F} ctx kind place s)
  unfolding validate
  validate-Reads ctx OptKind.keep_state place s =
      if-Reads place.braced (fails same) (if-Reads ctx.dynamic_state_seen (fails same) (reads same))
  validate-Reads ctx _ place s = reads same

  after_type-Reads :
      (loop : TypeSet → Bytes → Outcome F TypeSet) (f : ℕ) (types : TypeSet) {s buf : Bytes}
      {l : Listed}
      → ((r : Bytes) → length r < f → Reads 1 r (loop types r))
      → Behind 1 s buf
      → length buf < f
      → Lists buf l
      → Reads 1 s (after_type loop types l)
  after_type-Reads loop f types step h fuel (lists_ended h') = reads (join h h' (omega arith))
  after_type-Reads loop f types step h fuel (lists_another {r} h') =
      Reads-join (after h h') (step r (omega (arith, h'.shorter))) (omega arith)

  type_read-Reads :
      (loop : TypeSet → Bytes → Outcome F TypeSet) (f : ℕ) (kind : OptKind) (types : TypeSet)
      {s : Bytes} {o : Option (ℕ × Bytes)}
      → ((ts : TypeSet) (r : Bytes) → length r < f → Reads 1 r (loop ts r))
      → length s < suc f
      → Numbers 1 s o
      → Reads 1 s (type_read loop kind types s o)
  type_read-Reads loop f kind types step fuel missing = fails same
  type_read-Reads loop f kind types step fuel (number {v} {r} h) =
      if-Reads (not (icmp_type_in_range kind v)) (fails same) (
        after_type-Reads loop f (type_set_add types v) (step (type_set_add types v)) h
          (omega (arith, h.shorter)) (next_listed-Lists r))

  pub types_loop-Reads :
      (f : ℕ) (kind : OptKind) (types : TypeSet) (s : Bytes)
      → length s < f
      → Reads 1 s (types_loop {F = F} f kind types s)
  unfolding types_loop parse_u8
  types_loop-Reads zero kind types s fuel = absurd (omega arith)
  types_loop-Reads (suc f) kind types s fuel =
      type_read-Reads (types_loop f kind) f kind types (λ ts r. types_loop-Reads f kind ts r) fuel
        (parse_uint-Numbers s 255)
