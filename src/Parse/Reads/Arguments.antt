-- ===== src/Parse/Reads/Arguments.antt =====
-- What the parsers of TCP flags, interfaces and flow names leave of the input.
use ipfw_go.Prelude.{
  ℕ, zero, suc, ◌≤◌, ◌<◌, Bool, List, [], ◌∷◌, Option, Bytes, codes, length, arith,
}
use ipfw_go.Rule.{TcpFlags}
use ipfw_go.Parse.Lex.{prefix, take_while, token}
use ipfw_go.Parse.Options.Values.{
  flag_found, tcp_flag_names, flag_by_name, tcp_flag_by_name, add_flag, behind_bang, after_flag,
  flag_read, flags_loop, is_if_name_byte, is_table_name_byte, is_via_value_byte, via_closed,
  via_value, via_comma, via_name, parse_via_table, via_interface, via_of, parse_via, flow_of,
  flow_behind, flow_space, parse_flow_name,
}
use ipfw_go.Parse.Outcome.{Outcome}
use ipfw_go.Parse.Port.{Listed}
use ipfw_go.Parse.Reads.{
  Behind, same, join, after, weak, Opens, shut, opens, Reads, reads, fails, Reads-join,
}
use ipfw_go.Parse.Reads.Lex.{
  Parts, Parts-Behind, take_while-Parts, token-Parts, prefix-Opens, ws1-Opens,
}
use ipfw_go.Parse.Reads.Lists.{Lists, lists_another, lists_ended, next_listed-Lists}
use ipfw_go.Parse.Reads.Options.{Finds, absent, finds, NonEmpty}

flag_by_name-Finds :
    (names : List (Bytes × ℕ)) (s : Bytes) → NonEmpty names → Finds 1 s (flag_by_name names s)
unfolding flag_by_name
flag_by_name-Finds [] s h = absent
flag_by_name-Finds ((word, flag) ∷ names) s h =
    flag_found-Finds (prefix-Opens s word) h.0 (flag_by_name-Finds names s h.1)
  where
    flag_found-Finds :
        {n : ℕ} {o : Option Bytes} {onward : Option (ℕ × Bytes)}
        → Opens n s o
        → 1 ≤ n
        → Finds 1 s onward
        → Finds 1 s (flag_found flag onward o)
    flag_found-Finds shut e h = h
    flag_found-Finds (opens h') e h =
        finds (record { suffix = h'.suffix; shorter = omega (arith, h'.shorter) })

behind_bang-Behind :
    (s : Bytes) {n : ℕ} {o : Option Bytes} → Opens n s o → Behind 0 s (behind_bang s o).0
behind_bang-Behind s shut = same
behind_bang-Behind s (opens h) = weak h

module _ {F : Type 0} where
  after_flag-Reads :
      (loop : TcpFlags → Bytes → Outcome F TcpFlags) (f : ℕ) (flags : TcpFlags) {s buf : Bytes}
      {l : Listed}
      → ((r : Bytes) → length r < f → Reads 1 r (loop flags r))
      → Behind 1 s buf
      → length buf < f
      → Lists buf l
      → Reads 1 s (after_flag loop flags l)
  after_flag-Reads loop f flags step h fuel (lists_ended h') = reads (join h h' (omega arith))
  after_flag-Reads loop f flags step h fuel (lists_another {r} h') =
      Reads-join (after h h') (step r (omega (arith, h'.shorter))) (omega arith)

  flag_read-Reads :
      (loop : TcpFlags → Bytes → Outcome F TcpFlags) (f : ℕ) (flags : TcpFlags) (cleared : Bool)
      {s : Bytes} {o : Option (ℕ × Bytes)}
      → ((fs : TcpFlags) (r : Bytes) → length r < f → Reads 1 r (loop fs r))
      → length s < suc f
      → Finds 1 s o
      → Reads 1 s (flag_read loop flags cleared s o)
  flag_read-Reads loop f flags cleared step fuel absent = fails same
  flag_read-Reads loop f flags cleared step fuel (finds {a} {r} h) =
      after_flag-Reads loop f (add_flag cleared flags a) (step (add_flag cleared flags a)) h
        (omega (arith, h.shorter)) (next_listed-Lists r)

  pub flags_loop-Reads :
      (f : ℕ) (flags : TcpFlags) (s : Bytes)
      → length s < f
      → Reads 1 s (flags_loop {F = F} f flags s)
  unfolding flags_loop tcp_flag_by_name
  flags_loop-Reads zero flags s fuel = absurd (omega arith)
  flags_loop-Reads (suc f) flags s fuel =
      let (after_bang, cleared) = behind_bang s (prefix s (codes "!")) in
      let bang = behind_bang-Behind s (prefix-Opens s (codes "!")) in
      Reads-join bang
        (flag_read-Reads (flags_loop f) f flags cleared (λ fs r. flags_loop-Reads f fs r)
          (omega (arith, bang.shorter))
          (flag_by_name-Finds tcp_flag_names after_bang (omega arith)))
        (omega arith)

  via_closed-Reads :
      (name value : Bytes) {n : ℕ} {s rest : Bytes} {o : Option Bytes}
      → Behind 1 s rest
      → Opens n rest o
      → Reads 1 s (via_closed {F = F} name value rest o)
  via_closed-Reads name value h shut = fails (weak h)
  via_closed-Reads name value h (opens h') = reads (join h h' (omega arith))

  via_value-Reads :
      (name : Bytes) {s buf : Bytes} (p : Bytes × Bytes)
      → Behind 1 s buf
      → Parts buf p
      → Reads 1 s (via_value {F = F} name buf p)
  via_value-Reads name ([], rest) h h' = fails (weak h)
  via_value-Reads name (c ∷ value, rest) h h' =
      via_closed-Reads name (c ∷ value) (join h (Parts-Behind h') (omega arith))
        (prefix-Opens rest (codes ")"))

  via_comma-Reads :
      (name : Bytes) {n : ℕ} {s rest : Bytes} {o : Option Bytes}
      → Behind 1 s rest
      → Opens n rest o
      → Reads 1 s (via_comma {F = F} name rest o)
  via_comma-Reads name {rest = rest} h shut =
      via_closed-Reads name [] h (prefix-Opens rest (codes ")"))
  via_comma-Reads name h (opens {r = buf} h') =
      via_value-Reads name (take_while buf is_via_value_byte) (join h h' (omega arith))
        (take_while-Parts buf is_via_value_byte)

  via_name-Reads : {s : Bytes} (p : Bytes × Bytes) → Parts s p → Reads 1 s (via_name {F = F} s p)
  via_name-Reads ([], rest) h = fails same
  via_name-Reads (c ∷ name, rest) h =
      via_comma-Reads (c ∷ name) (record { suffix = h.suffix; shorter = omega (arith, h.lengths) })
        (prefix-Opens rest (codes ","))

  via_interface-Reads :
      {s : Bytes} (p : Bytes × Bytes) → Parts s p → Reads 1 s (via_interface {F = F} s p)
  via_interface-Reads ([], rest) h = fails same
  via_interface-Reads (c ∷ name, rest) h =
      reads (record { suffix = h.suffix; shorter = omega (arith, h.lengths) })

  via_of-Reads :
      (s : Bytes) {n : ℕ} {o : Option Bytes} → Opens n s o → Reads 1 s (via_of {F = F} s o)
  unfolding parse_via_table
  via_of-Reads s shut =
      via_interface-Reads (take_while s is_if_name_byte) (take_while-Parts s is_if_name_byte)
  via_of-Reads s (opens {r = buf} h) =
      Reads-join (weak h)
        (via_name-Reads (take_while buf is_table_name_byte)
          (take_while-Parts buf is_table_name_byte))
        (omega arith)

  pub parse_via-Reads : (s : Bytes) → Reads 1 s (parse_via {F = F} s)
  unfolding parse_via
  parse_via-Reads s = via_of-Reads s (prefix-Opens s (codes "table("))

flow_of-Behind :
    {s r : Bytes} (p : Bytes × Bytes) → Behind 0 s r → Parts r p → Behind 0 s (flow_of s p).1
flow_of-Behind ([], rest) h h' = same
flow_of-Behind (c ∷ flow, rest) h h' = after h (Parts-Behind h')

flow_behind-Behind :
    {s r : Bytes} {n : ℕ} {o : Option Bytes}
    → Behind 0 s r
    → Opens n r o
    → Behind 0 s (flow_behind s o).1
flow_behind-Behind h shut = same
flow_behind-Behind h (opens {r} h') = flow_of-Behind (token r) (after h h') (token-Parts r)

pub parse_flow_name-Behind : (s : Bytes) → Behind 0 s (parse_flow_name s).1
unfolding parse_flow_name
parse_flow_name-Behind s = flow_space-Behind (ws1-Opens s)
  where
    flow_space-Behind : {n : ℕ} {o : Option Bytes} → Opens n s o → Behind 0 s (flow_space s o).1
    flow_space-Behind shut = same
    flow_space-Behind (opens {r} h) = flow_behind-Behind (weak h) (prefix-Opens r (codes ":"))
