-- ===== src/Resolver/Targets.antt =====
-- vmstate.go: what `resolveTarget` hands to its sink for a target that names networks.
use ipfw_go.Errors.{Result, ok, ◌>>=◌}
use ipfw_go.Prelude.{
  Bool, true, false, List, [], ◌∷◌, ◌++◌, map, append-nil, append_assoc, some, ◌⊎◌, inl, inr, ◌≡◌,
  refl, sym, ap, ◌∙◌,
}
use ipfw_go.Resolver.{
  Environment, BodySide, Call, target, net4_match, net6_match, bare_match, emit_target, emit_nets4,
  emit_nets6, emit_resolved, resolve_name, resolve_kind, resolve_target,
}
use ipfw_go.Rule.{Target, TargetKind, TargetMatch}

module _ {V4 V6 F : Type 0} where
  -- A sink that keeps the targets in the order in which they come.
  abbrev pub collect : List (TargetMatch V4 V6) → Call V4 V6 → Result F (List (TargetMatch V4 V6))
  collect ms (target side m) = ok (ms ++ m ∷ [])
  collect ms _ = ok ms

module _ {V4 V6 : Type 0} (t : Target) where
  -- The matches of a name that stands for the networks: one of each, or under a `not` one that holds
  -- no address when there is none.
  abbrev pub resolved_matches : Bool → List V4 → List V6 → List (TargetMatch V4 V6)
  resolved_matches true [] [] = bare_match t TargetKind.no_member ∷ []
  resolved_matches _ nets4 nets6 = map (net4_match t) nets4 ++ map (net6_match t) nets6

module _ {V4 V6 F : Type 0} (env : Environment V4 V6 F) where
  emit_nets4-collect :
      (ms : List (TargetMatch V4 V6)) (side : BodySide) (t : Target) (ns : List V4)
      → emit_nets4 env collect ms side t ns ≡ ok (ms ++ map (net4_match t) ns)
  unfolding emit_nets4 emit_target
  emit_nets4-collect ms side t [] = ap ok (sym (append-nil ms))
  emit_nets4-collect ms side t (n ∷ ns) =
      emit_nets4-collect (ms ++ net4_match t n ∷ []) side t ns
      ∙ ap ok (append_assoc ms (net4_match t n ∷ []) (map (net4_match t) ns))

  emit_nets6-collect :
      (ms : List (TargetMatch V4 V6)) (side : BodySide) (t : Target) (ns : List V6)
      → emit_nets6 env collect ms side t ns ≡ ok (ms ++ map (net6_match t) ns)
  unfolding emit_nets6 emit_target
  emit_nets6-collect ms side t [] = ap ok (sym (append-nil ms))
  emit_nets6-collect ms side t (n ∷ ns) =
      emit_nets6-collect (ms ++ net6_match t n ∷ []) side t ns
      ∙ ap ok (append_assoc ms (net6_match t n ∷ []) (map (net6_match t) ns))

  both-collect :
      (side : BodySide) (t : Target) (nets4 : List V4) (nets6 : List V6)
      → (emit_nets4 env collect [] side t nets4 >>= (λ ms. emit_nets6 env collect ms side t nets6))
        ≡ ok (map (net4_match t) nets4 ++ map (net6_match t) nets6)
  both-collect side t nets4 nets6 =
      rw (emit_nets4-collect [] side t nets4)
        (emit_nets6-collect (map (net4_match t) nets4) side t nets6)

  emit_resolved-collect :
      (side : BodySide) (t : Target) (neg : Bool) (nets4 : List V4) (nets6 : List V6)
      → emit_resolved env collect [] side t neg nets4 nets6
        ≡ ok (resolved_matches t neg nets4 nets6)
  unfolding emit_resolved emit_target
  emit_resolved-collect side t true [] [] = refl
  emit_resolved-collect side t true [] (n ∷ ns) = both-collect side t [] (n ∷ ns)
  emit_resolved-collect side t true (n ∷ ns) nets6 = both-collect side t (n ∷ ns) nets6
  emit_resolved-collect side t false nets4 nets6 = both-collect side t nets4 nets6

  resolve_name-resolved :
      (ask : Target → F ⊎ (List V4 × List V6)) (side : BodySide) (t : Target) (nets4 : List V4)
      (nets6 : List V6)
      → ask t ≡ inr (nets4, nets6)
      → resolve_name env collect [] side t (some ask) ≡ ok (resolved_matches t t.neg nets4 nets6)
  unfolding resolve_name
  resolve_name-resolved ask side t nets4 nets6 ea =
      rw (ea, resolve_name) (emit_resolved-collect side t t.neg nets4 nets6)

  -- A target that the environment's resolver knows.
  pub resolve_target-resolved :
      (ask : Target → F ⊎ (List V4 × List V6)) (side : BodySide) (t : Target) (nets4 : List V4)
      (nets6 : List V6)
      → env.targets ≡ some ask
      → ask t ≡ inr (nets4, nets6)
      → (t.kind ≡ TargetKind.hostname) ⊎ (t.kind ≡ TargetKind.custom)
      → resolve_target env collect [] side t ≡ ok (resolved_matches t t.neg nets4 nets6)
  unfolding resolve_target resolve_kind
  resolve_target-resolved ask side t nets4 nets6 et ea (inl k) =
      ap (resolve_kind env collect [] side t) k
      ∙ ap (resolve_name env collect [] side t) et
      ∙ resolve_name-resolved ask side t nets4 nets6 ea
  resolve_target-resolved ask side t nets4 nets6 et ea (inr k) =
      ap (resolve_kind env collect [] side t) k
      ∙ ap (resolve_name env collect [] side t) et
      ∙ resolve_name-resolved ask side t nets4 nets6 ea
