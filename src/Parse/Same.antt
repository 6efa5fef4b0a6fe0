-- ===== src/Parse/Same.antt =====
-- What the parsers do with two states that answer every token alike.
pub mod Lists
pub mod Options
pub mod Rules
pub mod Lines
use ipfw_go.Prelude.{Bool, true, false, Bytes, Option, none, some, if◌then◌else◌}
use ipfw_go.Parse.Outcome.{
  Outcome, done, failed, no_fuel, Fault, State, M, bound, pure, ◌>>=◌, fail_from, with_value,
  answered, answered_or, emit, emit_or,
}
use ipfw_go.Resolver.{Token}

-- Two runs with one result, in states that are related.
pub data Both {S T X : Type 0} (R : S → T → Type 0) : S × X → T × X → Type 0 where
  both : {σ : S} {τ : T} {x : X} → R σ τ → Both R (σ, x) (τ, x)

-- States that answer alike, and stay related.
abbrev pub Alike : {S T F : Type 0} → (S → T → Type 0) → State S F → State T F → Type 0
Alike {S} {T} R st st' = (t : Token) (σ : S) (τ : T) → R σ τ → Both R (st t σ) (st' t τ)

-- Parsers that end alike wherever the states are related.
abbrev pub Same : {S T F A : Type 0} → (S → T → Type 0) → M S F A → M T F A → Type 0
Same {S} {T} R m n = (σ : S) (τ : T) → R σ τ → Both R (m σ) (n τ)

module _ {S T : Type 0} {R : S → T → Type 0} where
  pub if-Both :
      {X : Type 0} (b : Bool) {x x' : S × X} {y y' : T × X}
      → Both R x y
      → Both R x' y'
      → Both R (if b then x else x') (if b then y else y')
  if-Both true h h' = h
  if-Both false h h' = h'

module _ {S T F : Type 0} {R : S → T → Type 0} where
  pub pure-Same : {A : Type 0} (o : Outcome F A) → Same R (pure o) (pure o)
  pure-Same o σ τ h = both h

  pub bound-Both :
      {A B : Type 0} {x : S × Outcome F A} {y : T × Outcome F A} (k : A × Bytes → M S F B)
      (l : A × Bytes → M T F B)
      → Both R x y
      → ((a : A) (r : Bytes) → Same R (k (a, r)) (l (a, r)))
      → Both R (bound x k) (bound y l)
  bound-Both k l (both {x = done a r} h) next = next a r _ _ h
  bound-Both k l (both {x = failed e at cause} h) next = both h
  bound-Both k l (both {x = no_fuel} h) next = both h

  -- The same outcome of a parser that drives no state, and then the rest.
  pub outcome-Both :
      {A B : Type 0} (o : Outcome F A) (k : A × Bytes → M S F B) (l : A × Bytes → M T F B)
      → ((a : A) (r : Bytes) → Same R (k (a, r)) (l (a, r)))
      → Same R (λ σ. bound (σ, o) k) (λ τ. bound (τ, o) l)
  outcome-Both o k l next σ τ h = bound-Both k l (both h) next

  answered-Both :
      (at : Bytes) {x : S × Option (Fault F)} {y : T × Option (Fault F)}
      → Both R x y
      → Both R (answered at x) (answered at y)
  answered-Both at (both h) = both h

  pub emit-Both :
      {A : Type 0} {st : State S F} {st' : State T F} (same : Alike R st st') (t : Token)
      (at : Bytes) (k : Unit {0} × Bytes → M S F A) (l : Unit {0} × Bytes → M T F A)
      → ((a : Unit {0}) (r : Bytes) → Same R (k (a, r)) (l (a, r)))
      → Same R (emit st t at >>= k) (emit st' t at >>= l)
  emit-Both same t at k l next σ τ h = bound-Both k l (answered-Both at (same t σ τ h)) next

  answered_or-Both :
      {A : Type 0} (a : A) (at input : Bytes) {m : M S F A} {n : M T F A} {x : S × Option (Fault F)}
      {y : T × Option (Fault F)}
      → Both R x y
      → Same R m n
      → Both R (answered_or a at input m x) (answered_or a at input n y)
  answered_or-Both a at input (both {x = none} h) next = next _ _ h
  answered_or-Both a at input (both {x = some e} h) next = both h

  pub emit_or-Same :
      {A : Type 0} {st : State S F} {st' : State T F} (same : Alike R st st') (t : Token) (a : A)
      (at input : Bytes) {m : M S F A} {n : M T F A}
      → Same R m n
      → Same R (emit_or st t a at input m) (emit_or st' t a at input n)
  emit_or-Same same t a at input next σ τ h = answered_or-Both a at input (same t σ τ h) next

  pub if-Same :
      {A : Type 0} (b : Bool) {m m' : M S F A} {n n' : M T F A}
      → Same R m n
      → Same R m' n'
      → Same R (if b then m else m') (if b then n else n')
  if-Same true h h' = h
  if-Same false h h' = h'
