-- ===== src/Resolver/Keeps.antt =====
-- A resolver keeps what its sink keeps.
use ipfw_go.Prelude.{Bool, true, List, [], ◌∷◌, Option, none, some, ◌⊎◌, inl, inr, Sum-cases}
use ipfw_go.Errors.{Result, ok, err, ◌>>=◌}
use ipfw_go.Resolver.{
  Environment, BodySide, Call, Token, ip_proto, proto, target, port, option, net4_match, net6_match,
  resolve_range, resolve_proto, emit_target, emit_nets4, emit_nets6, emit_resolved, resolve_name,
  resolve_kind, resolve_target, on_port, on_option_kind, on_token,
}
use ipfw_go.Rule.{Opt, OptKind, Target, TargetKind}

-- The state of a result that is none of the errors.
abbrev pub Keeps {ℓ} : {F : Type 0} {S : Type 0} → (S → Type ℓ) → Result F S → Type ℓ
Keeps P (ok s) = P s
Keeps P (err e) = Unit

module _ {F S : Type 0} (P : S → Type 0) where
  pub bind-Keeps :
      {A : Type 0} (Q : A → Type 0) (x : Result F A) (k : A → Result F S)
      → Keeps Q x
      → ((a : A) → Q a → Keeps P (k a))
      → Keeps P (x >>= k)
  bind-Keeps Q (ok a) k q f = f a q
  bind-Keeps Q (err e) k q f = tt

  pub each-Keeps :
      {A : Type 0} (x : Result F A) (k : A → Result F S)
      → ((a : A) → Keeps P (k a))
      → Keeps P (x >>= k)
  each-Keeps (ok a) k f = f a
  each-Keeps (err e) k f = tt

module _ {V4 V6 F S : Type 0} (env : Environment V4 V6 F) (sink : S → Call V4 V6 → Result F S)
    (P : S → Type 0) (keeps : (s : S) (c : Call V4 V6) → P s → Keeps P (sink s c)) where
  emit_nets4-Keeps :
      (s : S) (side : BodySide) (t : Target) (ns : List V4)
      → P s
      → Keeps P (emit_nets4 env sink s side t ns)
  unfolding emit_nets4 emit_target
  emit_nets4-Keeps s side t [] p = p
  emit_nets4-Keeps s side t (n ∷ ns) p =
      bind-Keeps P P (sink s (target side (net4_match t n))) _ (keeps s _ p)
        (λ s' p'. emit_nets4-Keeps s' side t ns p')

  emit_nets6-Keeps :
      (s : S) (side : BodySide) (t : Target) (ns : List V6)
      → P s
      → Keeps P (emit_nets6 env sink s side t ns)
  unfolding emit_nets6 emit_target
  emit_nets6-Keeps s side t [] p = p
  emit_nets6-Keeps s side t (n ∷ ns) p =
      bind-Keeps P P (sink s (target side (net6_match t n))) _ (keeps s _ p)
        (λ s' p'. emit_nets6-Keeps s' side t ns p')

  emit_resolved-Keeps :
      (s : S) (side : BodySide) (t : Target) (neg : Bool) (ns4 : List V4) (ns6 : List V6)
      → P s
      → Keeps P (emit_resolved env sink s side t neg ns4 ns6)
  unfolding emit_resolved emit_target
  emit_resolved-Keeps s side t true [] [] p = keeps s _ p
  emit_resolved-Keeps s side t _ ns4 ns6 p =
      bind-Keeps P P (emit_nets4 env sink s side t ns4) _ (emit_nets4-Keeps s side t ns4 p)
        (λ s' p'. emit_nets6-Keeps s' side t ns6 p')

  resolve_name-Keeps :
      (s : S) (side : BodySide) (t : Target) (targets : Option (Target → F ⊎ (List V4 × List V6)))
      → P s
      → Keeps P (resolve_name env sink s side t targets)
  unfolding resolve_name
  resolve_name-Keeps s side t none p = tt
  resolve_name-Keeps s side t (some ask) p = elim (Sum-cases (ask t)) [
    | inl (e, h) ↦ rw h tt
    | inr ((ns4, ns6), h) ↦ rw h (emit_resolved-Keeps s side t t.neg ns4 ns6 p)
  ]

  resolve_kind-Keeps :
      (s : S) (side : BodySide) (t : Target) (k : TargetKind)
      → P s
      → Keeps P (resolve_kind env sink s side t k)
  unfolding resolve_kind emit_target
  resolve_kind-Keeps s side t TargetKind.network4 p = elim (Sum-cases (env.parse_network4 t.text)) [
    | inl (e, h) ↦ rw (h, resolve_kind) tt
    | inr (n, h) ↦ rw (h, resolve_kind) (keeps s _ p)
  ]
  resolve_kind-Keeps s side t TargetKind.network6 p = elim (Sum-cases (env.parse_network6 t.text)) [
    | inl (e, h) ↦ rw (h, resolve_kind) tt
    | inr (n, h) ↦ rw (h, resolve_kind) (keeps s _ p)
  ]
  resolve_kind-Keeps s side t TargetKind.hostname p = resolve_name-Keeps s side t env.targets p
  resolve_kind-Keeps s side t TargetKind.custom p = resolve_name-Keeps s side t env.targets p
  resolve_kind-Keeps s side t _ p = keeps s _ p

  on_option_kind-Keeps :
      (s : S) (o : Opt) (k : OptKind) → P s → Keeps P (on_option_kind env sink s o k)
  unfolding on_option_kind
  on_option_kind-Keeps s o OptKind.proto p =
      each-Keeps P (resolve_proto env o.proto) _ (λ n. keeps s _ p)
  on_option_kind-Keeps s o OptKind.source_port p =
      each-Keeps P (resolve_range env o.ports.lo o.ports.hi) _ (λ (lo, hi). keeps s _ p)
  on_option_kind-Keeps s o OptKind.destination_port p =
      each-Keeps P (resolve_range env o.ports.lo o.ports.hi) _ (λ (lo, hi). keeps s _ p)
  on_option_kind-Keeps s o _ p = keeps s _ p

  -- A token, through the resolver.
  pub on_token-Keeps : (s : S) (t : Token) → P s → Keeps P (on_token env sink s t)
  unfolding on_token resolve_target on_port
  on_token-Keeps s (ip_proto m) p = keeps s _ p
  on_token-Keeps s (proto m) p = each-Keeps P (resolve_proto env m.proto) _ (λ n. keeps s _ p)
  on_token-Keeps s (target side t) p = resolve_kind-Keeps s side t t.kind p
  on_token-Keeps s (port side m) p =
      each-Keeps P (resolve_range env m.lo m.hi) _ (λ (lo, hi). keeps s _ p)
  on_token-Keeps s (option o) p = on_option_kind-Keeps s o o.kind p
