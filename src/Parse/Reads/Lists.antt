-- ===== src/Parse/Reads/Lists.antt =====
-- What the comma lists of ports, protocols and targets leave of the input.
use ipfw_go.Prelude.{
  ℕ, zero, suc, ◌+◌, ◌<◌, Bool, true, false, [], ◌∷◌, Option, none, some, Bytes, codes,
  if◌then◌else◌, length, ◌≡◌, arith,
}
use ipfw_go.Resolver.{BodySide}
use ipfw_go.Rule.{Port}
use ipfw_go.Parse.Lex.{list_ended, skip_comma_space, not_ws1}
use ipfw_go.Parse.Outcome.{Outcome, State, M}
use ipfw_go.Parse.Port.{
  PortScan, scanned, bad_escape, scanned_byte, scan_byte, opens_escape, port_loop, port_of,
  parse_port, range_to, range_behind, range_from, parse_port_range, Listed, another, ended,
  comma_list, next_listed, next_element, ports_loop, parse_ports, port_token,
}
use ipfw_go.Parse.Proto.{next_alternative}
use ipfw_go.Parse.Reads.{
  Suffix, here, there, Behind, same, join, after, weak, Opens, shut, opens, Reads, reads, fails,
  Reads-join, length-Suffix, bound-Reads, emit-Reads,
}
use ipfw_go.Parse.Reads.Lex.{prefix-Opens, not_ws1-Behind, skip_comma_space-Behind}

-- What a scan of a port is: `s` is the input, and an open escape ends at `b`.
data Scans (s b : Bytes) : PortScan → Type 0 where
  scans :
      {name rest : Bytes}
      → Suffix rest s
      → length name + length rest ≡ length s
      → Scans s b (scanned name rest)
  escapes : {at : Bytes} → Suffix at b → Scans s b (bad_escape at)

-- The loop on the input `s` of a whole `w`.
scanned_byte-Scans :
    (c : ℕ) {s b : Bytes} {p : PortScan} → Scans s b p → Scans (c ∷ s) b (scanned_byte c p)
scanned_byte-Scans c (scans h e) = scans (there c h) (omega (arith, e))
scanned_byte-Scans c (escapes h) = escapes h

if-Scans :
    (t : Bool) {s b : Bytes} {p q : PortScan}
    → Scans s b p
    → Scans s b q
    → Scans s b (if t then p else q)
if-Scans true h h' = h
if-Scans false h h' = h'

-- An open escape is at a suffix of the whole input.
data Escape (w : Bytes) : Option Bytes → Type 0 where
  closed : Escape w none
  open_at : {at : Bytes} → Suffix at w → Escape w (some at)

if-Escape :
    (t : Bool) {w : Bytes} {o o' : Option Bytes}
    → Escape w o
    → Escape w o'
    → Escape w (if t then o else o')
if-Escape true h h' = h
if-Escape false h h' = h'

opens_escape-Escape :
    (escape : Option Bytes) (c : ℕ) (s : Bytes) {w : Bytes}
    → Suffix (c ∷ s) w
    → Escape w (opens_escape escape c s)
opens_escape-Escape (some at) c s h = closed
opens_escape-Escape none c s h = if-Escape _ (open_at h) closed

scan_byte-Scans :
    {w : Bytes} (escape : Option Bytes) (c : ℕ) (s : Bytes) {onward : PortScan}
    → Escape w escape
    → Scans s w onward
    → Scans (c ∷ s) w (scan_byte escape c s onward)
scan_byte-Scans (some at) c s (open_at h) o = if-Scans _ (escapes h) (scanned_byte-Scans c o)
scan_byte-Scans none c s h o =
    if-Scans _ (scanned_byte-Scans c o)
      (if-Scans _ (scans here (omega arith)) (scanned_byte-Scans c o))

tail-Suffix : {c : ℕ} {s w : Bytes} → Suffix (c ∷ s) w → Suffix s w
tail-Suffix {c} here = there c here
tail-Suffix (there d h) = there d (tail-Suffix h)

port_loop-Scans :
    (w : Bytes) (s : Bytes) (escape : Option Bytes)
    → Suffix s w
    → Escape w escape
    → Scans s w (port_loop escape s)
unfolding port_loop
port_loop-Scans w [] escape h e = scans here (omega arith)
port_loop-Scans w (c ∷ s) escape h e = if-Scans _ (scans here (omega arith)) (
    scan_byte-Scans escape c s e (
      port_loop-Scans w s (opens_escape escape c s) (tail-Suffix h)
        (opens_escape-Escape escape c s h)))

module _ {F : Type 0} where
  port_of-Reads : (s : Bytes) (p : PortScan) → Scans s s p → Reads 1 s (port_of {F = F} s p)
  port_of-Reads s (scanned [] rest) h = fails same
  port_of-Reads s (scanned (c ∷ name) rest) (scans h e) =
      reads (record { suffix = h; shorter = omega (arith, e) })
  port_of-Reads s (bad_escape at) (escapes h) =
      fails (record { suffix = h; shorter = omega (arith, length-Suffix h) })

  parse_port-Reads : (s : Bytes) → Reads 1 s (parse_port {F = F} s)
  unfolding parse_port
  parse_port-Reads s = port_of-Reads s (port_loop none s) (port_loop-Scans s s none here closed)

  range_to-Reads :
      (lo : Port) {n : ℕ} {s : Bytes} {o : Outcome F Port} → Reads n s o → Reads n s (range_to lo o)
  range_to-Reads lo (reads h) = reads h
  range_to-Reads lo (fails h) = fails h

  range_behind-Reads :
      (lo : Port) {m n : ℕ} {s rest : Bytes} {o : Option Bytes}
      → Behind (suc m) s rest
      → Opens n rest o
      → Reads 1 s (range_behind {F = F} lo rest o)
  range_behind-Reads lo h shut =
      reads (record { suffix = h.suffix; shorter = omega (arith, h.shorter) })
  range_behind-Reads lo h (opens {r} h') =
      Reads-join (after h h') (range_to-Reads lo (parse_port-Reads r)) (omega arith)

  range_from-Reads : {s : Bytes} {o : Outcome F Port} → Reads 1 s o → Reads 1 s (range_from o)
  range_from-Reads (reads {r} h) = range_behind-Reads _ h (prefix-Opens r (codes "-"))
  range_from-Reads (fails h) = fails h

  pub parse_port_range-Reads : (s : Bytes) → Reads 1 s (parse_port_range {F = F} s)
  unfolding parse_port_range
  parse_port_range-Reads s = range_from-Reads (parse_port-Reads s)

-- What follows an element of a comma list is behind it.
pub data Lists (s : Bytes) : Listed → Type 0 where
  lists_another : {r : Bytes} → Behind 0 s r → Lists s (another r)
  lists_ended : {r : Bytes} → Behind 0 s r → Lists s (ended r)

if-Lists :
    (b : Bool) {s : Bytes} {l l' : Listed} → Lists s l → Lists s l' → Lists s (if b then l else l')
if-Lists true h h' = h
if-Lists false h h' = h'

pub next_listed-Lists : (s : Bytes) → Lists s (next_listed s)
unfolding next_listed
next_listed-Lists s = comma_list-Lists (prefix-Opens s (codes ","))
  where
    comma_list-Lists : {n : ℕ} {o : Option Bytes} → Opens n s o → Lists s (comma_list s o)
    comma_list-Lists shut = lists_ended same
    comma_list-Lists (opens {r} h) =
        let h' = after h (skip_comma_space-Behind r) in
        if-Lists (list_ended (skip_comma_space r)) (lists_ended h') (lists_another h')

module _ {S F : Type 0} where
  -- The next element of a list, by a loop that has fuel for what is behind this one.
  pub next_element-Reads :
      (loop : Bytes → M S F (Unit {0})) (f : ℕ) (σ : S) {s buf : Bytes} {l : Listed}
      → ((r : Bytes) → length r < f → Reads 1 r ((loop r σ).1))
      → Behind 1 s buf
      → length buf < f
      → Lists buf l
      → Reads 1 s ((next_element loop l σ).1)
  next_element-Reads loop f σ step h fuel (lists_ended h') = reads (join h h' (omega arith))
  next_element-Reads loop f σ {s} step h fuel (lists_another {r} h') =
      let on : Behind 1 s r = join h h' (omega arith) in
      Reads-join (weak on) (step r (omega (arith, h'.shorter))) (omega arith)

  -- The next alternative of a group, likewise.
  pub next_alternative-Reads :
      (loop : Bytes → M S F (Unit {0})) (f : ℕ) (σ : S) (more : Bool) {s rest : Bytes}
      → ((r : Bytes) → length r < f → Reads 1 r ((loop r σ).1))
      → Behind 1 s rest
      → length s < suc f
      → Reads 1 s ((next_alternative loop more rest σ).1)
  next_alternative-Reads loop f σ false step h fuel = reads h
  next_alternative-Reads loop f σ true {s} {rest} step h fuel =
      Reads-join (weak h) (step rest (omega (arith, h.shorter))) (omega arith)

module _ {S F : Type 0} (st : State S F) where
  ports_loop-Reads :
      (f : ℕ) (side : BodySide) (neg : Bool) (s : Bytes) (σ : S)
      → length s < f
      → Reads 1 s ((ports_loop st f side neg s σ).1)
  unfolding ports_loop
  ports_loop-Reads zero side neg s σ fuel = absurd (omega arith)
  ports_loop-Reads (suc f) side neg s σ fuel =
      bound-Reads (σ, parse_port_range s) _ (parse_port_range-Reads s)
        λ range buf τ h. emit-Reads st (port_token side neg range) s τ _ same λ υ.
          next_element-Reads (ports_loop st f side neg) f υ (λ r. ports_loop-Reads f side neg r υ) h
            (omega (arith, h.shorter)) (next_listed-Lists buf)

  pub parse_ports-Reads :
      (side : BodySide) (s : Bytes) (σ : S) → Reads 1 s ((parse_ports st side s σ).1)
  unfolding parse_ports
  parse_ports-Reads side s σ =
      Reads-join (not_ws1-Behind s)
        (ports_loop-Reads _ side (not_ws1 s).1 (not_ws1 s).0 σ (omega arith)) (omega arith)
