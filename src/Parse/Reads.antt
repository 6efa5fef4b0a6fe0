-- ===== src/Parse/Reads.antt =====
-- What the parsers read: the input left and the position of a failure are suffixes of the input,
-- and the loops do not run out of fuel.
pub mod Actions
pub mod Protocols
pub mod Groups
pub mod Arguments
pub mod Tables
pub mod Lex
pub mod Lists
pub mod Targets
pub mod Options
pub mod OptionLists
pub mod OptionGroups
pub mod Rules
pub mod Bodies
pub mod Commands
use ipfw_go.Prelude.{
  ℕ, zero, suc, ◌+◌, ◌≤◌, ◌<◌, [], ◌∷◌, Option, none, some, Bytes, length, drop, arith,
}
use ipfw_go.Parse.Outcome.{
  Outcome, done, failed, no_fuel, ErrorKind, Fault, kind, wrapped, foreign, State, M, bound,
  fail_from, with_value, answered, answered_or, emit, emit_or,
}
use ipfw_go.Resolver.{Token}

pub data Suffix (r : Bytes) : Bytes → Type 0 where
  here : Suffix r r
  there : (c : ℕ) {s : Bytes} → Suffix r s → Suffix r (c ∷ s)

pub length-Suffix : {r s : Bytes} → Suffix r s → length r ≤ length s
length-Suffix here = omega arith
length-Suffix (there c h) = omega (arith, length-Suffix h)

pub Suffix-trans : {a b c : Bytes} → Suffix a b → Suffix b c → Suffix a c
Suffix-trans h here = h
Suffix-trans h (there c h') = there c (Suffix-trans h h')

pub drop-Suffix : (n : ℕ) (s : Bytes) → Suffix (drop n s) s
drop-Suffix zero s = here
drop-Suffix (suc n) [] = here
drop-Suffix (suc n) (c ∷ s) = there c (drop-Suffix n s)

-- `r` ends `s`, and is at least `n` bytes shorter.
pub record Behind (n : ℕ) (s r : Bytes) : Type 0 where
  pub suffix : Suffix r s
  pub shorter : n + length r ≤ length s

pub same : {s : Bytes} → Behind 0 s s
same = record { suffix = here; shorter = omega arith }

pub join : {m n k : ℕ} {s r t : Bytes} → Behind m s r → Behind n r t → k ≤ m + n → Behind k s t
join h h' e = record {
  suffix = Suffix-trans h'.suffix h.suffix;
  shorter = omega (arith, h.shorter, h'.shorter);
}

pub weak : {n : ℕ} {s r : Bytes} → Behind n s r → Behind 0 s r
weak h = record { suffix = h.suffix; shorter = omega (arith, h.shorter) }

-- Behind what is behind the input, whatever was read.
pub after : {m n : ℕ} {s r t : Bytes} → Behind m s r → Behind n r t → Behind 0 s t
after h h' = join h h' (omega arith)

pub of_drop : (n : ℕ) (s : Bytes) → Behind 0 s (drop n s)
of_drop n s = record {
  suffix = drop-Suffix n s;
  shorter = omega (arith, length-Suffix (drop-Suffix n s));
}

-- An optional keyword that takes `n` bytes.
pub data Opens (n : ℕ) (s : Bytes) : Option Bytes → Type 0 where
  shut : Opens n s none
  opens : {r : Bytes} → Behind n s r → Opens n s (some r)

-- A parser that keeps within its fuel and reads at least `n` bytes when it succeeds.
pub data Reads (n : ℕ) (s : Bytes) {F A : Type 0} : Outcome F A → Type 0 where
  reads : {a : A} {r : Bytes} → Behind n s r → Reads n s (done a r)
  fails :
      {e : ErrorKind} {at : Bytes} {cause : Option (Fault F)}
      → Behind 0 s at
      → Reads n s (failed e at cause)

module _ {F : Type 0} where
  pub Reads-join :
      {A : Type 0} {m n k : ℕ} {s r : Bytes} {o : Outcome F A}
      → Behind m s r
      → Reads n r o
      → k ≤ m + n
      → Reads k s o
  Reads-join h (reads h') e = reads (join h h' e)
  Reads-join h (fails h') e = fails (after h h')

  pub Reads-weak : {A : Type 0} {n : ℕ} {s : Bytes} {o : Outcome F A} → Reads n s o → Reads 0 s o
  Reads-weak (reads h) = reads (weak h)
  Reads-weak (fails h) = fails h

  pub with_value-Reads :
      {A B : Type 0} {n : ℕ} {s : Bytes} (b : B) {o : Outcome F A}
      → Reads n s o
      → Reads n s (with_value b o)
  with_value-Reads b (reads h) = reads h
  with_value-Reads b (fails h) = fails h

  pub fail_from-Reads :
      {s : Bytes} (answer : Option (Fault F)) (at rest : Bytes)
      → Behind 0 s at
      → Behind 0 s rest
      → Reads 0 s (fail_from answer at rest)
  fail_from-Reads none at rest h h' = reads h'
  fail_from-Reads (some (kind ErrorKind.no_error)) at rest h h' = reads h'
  fail_from-Reads (some (kind _)) at rest h h' = fails h
  fail_from-Reads (some (wrapped ErrorKind.no_error e)) at rest h h' = fails h
  fail_from-Reads (some (wrapped _ e)) at rest h h' = fails h
  fail_from-Reads (some (foreign e)) at rest h h' = fails h

module _ {S F A B : Type 0} where
  pub bound-Reads :
      {m n : ℕ} {s : Bytes} (x : S × Outcome F A) (k : A × Bytes → M S F B)
      → Reads m s (x.1)
      → ((a : A) (r : Bytes) (σ : S) → Behind m s r → Reads n s ((k (a, r) σ).1))
      → Reads n s ((bound x k).1)
  bound-Reads (σ, done a r) k (reads h) next = next a r σ h
  bound-Reads (σ, failed e at cause) k (fails h) next = fails h
  bound-Reads (σ, no_fuel) k h next = elim h [ ]

module _ {S F A : Type 0} {n : ℕ} {s : Bytes} where
  answered-Reads :
      (at : Bytes) (x : S × Option (Fault F)) (k : Unit {0} × Bytes → M S F A)
      → Behind 0 s at
      → ((τ : S) → Reads n s ((k (tt, at) τ).1))
      → Reads n s ((bound (answered at x) k).1)
  answered-Reads at (σ, none) k h next = next σ
  answered-Reads at (σ, some (kind ErrorKind.no_error)) k h next = next σ
  answered-Reads at (σ, some (kind _)) k h next = fails h
  answered-Reads at (σ, some (wrapped ErrorKind.no_error e)) k h next = fails h
  answered-Reads at (σ, some (wrapped _ e)) k h next = fails h
  answered-Reads at (σ, some (foreign e)) k h next = fails h

  -- A token handed on at a position, and then the rest of the parser.
  pub emit-Reads :
      (st : State S F) (t : Token) (at : Bytes) (σ : S) (k : Unit {0} × Bytes → M S F A)
      → Behind 0 s at
      → ((τ : S) → Reads n s ((k (tt, at) τ).1))
      → Reads n s ((bound (emit st t at σ) k).1)
  emit-Reads st t at σ k h next = answered-Reads at (st t σ) k h next

module _ {S F A : Type 0} {s : Bytes} where
  answered_or-Reads :
      (a : A) (at input : Bytes) (onward : M S F A) (x : S × Option (Fault F))
      → Behind 0 s at
      → Behind 0 s input
      → ((τ : S) → Reads 0 s ((onward τ).1))
      → Reads 0 s ((answered_or a at input onward x).1)
  answered_or-Reads a at input onward (σ, none) h h' next = next σ
  answered_or-Reads a at input onward (σ, some e) h h' next =
      with_value-Reads a (fail_from-Reads (some e) at input h h')

  pub emit_or-Reads :
      (st : State S F) (t : Token) (a : A) (at input : Bytes) (onward : M S F A) (σ : S)
      → Behind 0 s at
      → Behind 0 s input
      → ((τ : S) → Reads 0 s ((onward τ).1))
      → Reads 0 s ((emit_or st t a at input onward σ).1)
  emit_or-Reads st t a at input onward σ = answered_or-Reads a at input onward (st t σ)
