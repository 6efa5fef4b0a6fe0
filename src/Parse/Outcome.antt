-- ===== src/Parse/Outcome.antt =====
-- errors.go, lex.go and state.go: how a parser ends, and the callbacks that it drives.
use ipfw_go.Prelude.{ℕ, Bytes, Option, none, some}
use ipfw_go.Prelude.Int.{ℤ, pos, negsuc}
use ipfw_go.Resolver.{Token}
use ipfw_go.Rule.{Opt}

-- `ErrorKind`, without the kinds of the formatter. `no_error` is the zero value.
pub data ErrorKind : Type 0 where
  no_error expected_line expected_from expected_prefix expected_action expected_or : ErrorKind
  expected_proto expected_whitespace expected_either_ip_or_proto expected_ipv4_network : ErrorKind
  expected_ipv6_network expected_hostname expected_port unexpected_escape : ErrorKind
  expected_token unknown_option expected_target unresolved_target unresolved_proto : ErrorKind
  unresolved_service expected_hostname_escape_close expected_table_command : ErrorKind
  expected_table_key expected_skip_to expected_u8 expected_u16 expected_u32 : ErrorKind
  unknown_icmp_type unknown_icmp6_type unknown_tcp_flag expected_table_type : ErrorKind
  expected_table_name expected_table_value expected_opt expected_newline_or_eof : ErrorKind
  state_error expected_tag dynamic_state_in_group duplicate_dynamic_state : ErrorKind

-- An error of a callback: a kind, a kind with a cause, or an error with no kind in its chain.
pub data Fault (F : Type 0) : Type 0 where
  kind : ErrorKind → Fault F
  wrapped : ErrorKind → F → Fault F
  foreign : F → Fault F

-- How a parser ends: with a value and the input left, or at a `fail` of lex.go, its kind, position
-- and error. `no_fuel` has no counterpart in the code.
pub data Outcome (F A : Type 0) : Type 0 where
  done : A → Bytes → Outcome F A
  failed : ErrorKind → Bytes → Option (Fault F) → Outcome F A
  no_fuel : Outcome F A

-- The interface `State`: what a callback makes of a token.
abbrev pub State : Type 0 → Type 0 → Type 0
State S F = Token → S → S × Option (Fault F)

-- A parser that drives a state.
abbrev pub M : Type 0 → Type 0 → Type 0 → Type 0
M S F A = S → S × Outcome F A

-- `failFrom(err, at)`, and the input left when it is no failure.
abbrev pub fail_from : {F : Type 0} → Option (Fault F) → Bytes → Bytes → Outcome F (Unit {0})
fail_from none at rest = done tt rest
fail_from (some (kind ErrorKind.no_error)) at rest = done tt rest
fail_from (some (kind k)) at rest = failed k at none
fail_from (some (wrapped ErrorKind.no_error e)) at rest =
    failed ErrorKind.state_error at (some (wrapped ErrorKind.no_error e))
fail_from (some (wrapped k e)) at rest = failed k at (some (wrapped k e))
fail_from (some (foreign e)) at rest = failed ErrorKind.state_error at (some (foreign e))

-- An outcome with another value.
abbrev pub with_value : {F A B : Type 0} → B → Outcome F A → Outcome F B
with_value b (done _ rest) = done b rest
with_value b (failed e at cause) = failed e at cause
with_value b no_fuel = no_fuel

module _ {S F : Type 0} where
  abbrev pub pure : {A : Type 0} → Outcome F A → M S F A
  pure o σ = (σ, o)

  abbrev pub bound : {A B : Type 0} → S × Outcome F A → (A × Bytes → M S F B) → S × Outcome F B
  bound (σ, done a rest) k = k (a, rest) σ
  bound (σ, failed e at cause) k = (σ, failed e at cause)
  bound (σ, no_fuel) k = (σ, no_fuel)

  infixl 5 ◌>>=◌
  abbrev pub ◌>>=◌ : {A B : Type 0} → M S F A → (A × Bytes → M S F B) → M S F B
  ◌>>=◌ m k σ = bound (m σ) k

  abbrev pub answered : Bytes → S × Option (Fault F) → S × Outcome F (Unit {0})
  answered at (σ, answer) = (σ, fail_from answer at at)

  -- A token to the state; a rejection fails at the position.
  abbrev pub emit : State S F → Token → Bytes → M S F (Unit {0})
  emit st t at σ = answered at (st t σ)

  -- `if err := …; err != nil { return input, failFrom(err, at) }`, with the value that is left.
  abbrev pub answered_or :
      {A : Type 0} → A → Bytes → Bytes → M S F A → S × Option (Fault F) → S × Outcome F A
  answered_or a at input onward (σ, none) = onward σ
  answered_or a at input onward (σ, some e) = (σ, with_value a (fail_from (some e) at input))

  abbrev pub emit_or : {A : Type 0} → State S F → Token → A → Bytes → Bytes → M S F A → M S F A
  emit_or st t a at input onward σ = answered_or a at input onward (st t σ)

-- `DiscardState`
unfoldable pub discard : {F : Type 0} → State (Unit {0}) F
discard t σ = (σ, none)

-- `min(max(n, 0), len(s))` as the suffix behind the count of a hook, and the bytes before it.
abbrev pub count_of : ℤ → ℕ
count_of (pos n) = n
count_of (negsuc n) = 0

-- `OptionHook` and `TableTypeHook`; a missing hook is `none`.
abbrev pub OptionHook : Type 0 → Type 0
OptionHook F = Option (Bytes → Opt × ℤ × Option (Fault F))

abbrev pub TableTypeHook : Type 0 → Type 0
TableTypeHook F = Option (Bytes → ℤ × Option (Fault F))
