-- ===== src/Vm/Match/Targets/Resolved.antt =====
-- A target that names networks, through the resolver and the match of a side.
use ipfw_go.Errors.{ok}
use ipfw_go.Prelude.Runs.{runs, runs-cons, take_while, drop_while}
use ipfw_go.Prelude.{
  ℕ, Bool, true, false, ◌||◌, List, [], ◌∷◌, ◌++◌, map, any, All, some, ◌⊎◌, inr, ◌==◌, ==_iff,
  ◌!=◌, ◌≡◌, refl, sym, ap, ◌∙◌, arith,
}
use ipfw_go.Resolver.Targets.{collect, resolved_matches, resolve_target-resolved}
use ipfw_go.Resolver.{Environment, BodySide, net4_match, net6_match, bare_match, resolve_target}
use ipfw_go.Rule.{Target, TargetKind, TargetMatch}
use ipfw_go.Vm.Machine.{Machine}
use ipfw_go.Vm.Match.Targets.Scan.{pattern_holds, side_holds, member_holds, match_side-side_holds}
use ipfw_go.Vm.Match.Targets.{match_side, match_named_target}
use ipfw_go.Vm.Network.{Network, TableRegistry}
use ipfw_go.Vm.Packet.{Addr, Context, IpVersion}

or_false : (b : Bool) → (b || false) ≡ b
or_false b = ground arith

or_assoc : (a b c : Bool) → (a || (b || c)) ≡ ((a || b) || c)
or_assoc a b c = ground arith

module _ {V4 V6 : Type 0} (base : TargetMatch V4 V6 → Bool) where
  abbrev IsOf : ℕ → List (TargetMatch V4 V6) → Type 0
  IsOf p ts = All (λ t. t.pattern ≡ p) ts

  take_while-IsOf :
      (p : ℕ) (ts : List (TargetMatch V4 V6)) → IsOf p ts → take_while (λ t. t.pattern == p) ts ≡ ts
  unfolding take_while
  take_while-IsOf p [] w = refl
  take_while-IsOf p (t ∷ ts) (e, w) =
      rw ((==_iff t.pattern p).1 e) (ap (◌∷◌ t) (take_while-IsOf p ts w))

  drop_while-IsOf :
      (p : ℕ) (ts : List (TargetMatch V4 V6)) → IsOf p ts → drop_while (λ t. t.pattern == p) ts ≡ []
  unfolding drop_while
  drop_while-IsOf p [] w = refl
  drop_while-IsOf p (t ∷ ts) (e, w) = rw ((==_iff t.pattern p).1 e) (drop_while-IsOf p ts w)

  runs_nil : runs (λ (t : TargetMatch V4 V6). t.pattern) [] ≡ []
  unfolding runs
  runs_nil = refl

  -- One pattern is the whole side.
  side_holds-IsOf :
      (t : TargetMatch V4 V6) (ts : List (TargetMatch V4 V6))
      → IsOf t.pattern ts
      → side_holds base (t ∷ ts) ≡ pattern_holds base (t, ts)
  side_holds-IsOf t ts w =
      rw
        (
          runs-cons (λ x. x.pattern) t ts,
          take_while-IsOf t.pattern ts w,
          drop_while-IsOf t.pattern ts w,
          runs_nil,
        )
        (or_false (pattern_holds base (t, ts)))

  any-append :
      (xs ys : List (TargetMatch V4 V6)) → any base (xs ++ ys) ≡ (any base xs || any base ys)
  any-append [] ys = refl
  any-append (x ∷ xs) ys = rw (any-append xs ys) (ground arith)

module _ {V4 V6 : Type 0} (base : TargetMatch V4 V6 → Bool) (t : Target) where
  -- The address is in one of the networks.
  abbrev pub in_networks : List V4 → List V6 → Bool
  in_networks nets4 nets6 =
      any base (map (net4_match t) nets4) || any base (map (net6_match t) nets6)

  map4-IsOf :
      (nets4 : List V4) (ts : List (TargetMatch V4 V6))
      → IsOf base t.pattern ts
      → IsOf base t.pattern (map (net4_match t) nets4 ++ ts)
  map4-IsOf [] ts w = w
  map4-IsOf (n ∷ ns) ts w = (refl, map4-IsOf ns ts w)

  map6-IsOf : (nets6 : List V6) → IsOf base t.pattern (map (net6_match t) nets6)
  map6-IsOf [] = tt
  map6-IsOf (n ∷ ns) = (refl, map6-IsOf ns)

  some4-side_holds :
      (n : V4) (ns : List V4) (nets6 : List V6)
      → side_holds base (map (net4_match t) (n ∷ ns) ++ map (net6_match t) nets6)
        ≡ (in_networks (n ∷ ns) nets6 != t.neg)
  some4-side_holds n ns nets6 =
      let tail4 = map (net4_match t) ns in
      let tail6 = map (net6_match t) nets6 in
      side_holds-IsOf base (net4_match t n) (tail4 ++ tail6) (map4-IsOf ns tail6 (map6-IsOf nets6))
      ∙ ap (λ b. (base (net4_match t n) || b) != t.neg) (any-append base tail4 tail6)
      ∙ ap (λ b. b != t.neg) (or_assoc (base (net4_match t n)) (any base tail4) (any base tail6))

  some6-side_holds :
      (n : V6) (ns : List V6)
      → side_holds base (map (net6_match t) (n ∷ ns)) ≡ (in_networks [] (n ∷ ns) != t.neg)
  some6-side_holds n ns =
      side_holds-IsOf base (net6_match t n) (map (net6_match t) ns) (map6-IsOf ns)

  resolved-side_holds :
      (neg : Bool) (nets4 : List V4) (nets6 : List V6)
      → t.neg ≡ neg
      → base (bare_match t TargetKind.no_member) ≡ false
      → side_holds base (resolved_matches t neg nets4 nets6) ≡ (in_networks nets4 nets6 != t.neg)
  resolved-side_holds true [] [] e nobody =
      side_holds-IsOf base (bare_match t TargetKind.no_member) [] tt
      ∙ ap (λ b. (b || false) != t.neg) nobody
  resolved-side_holds true [] (n ∷ ns) e nobody = some6-side_holds n ns
  resolved-side_holds true (n ∷ ns) nets6 e nobody = some4-side_holds n ns nets6
  resolved-side_holds false [] [] e nobody =
      ap (any (pattern_holds base)) (runs_nil base) ∙ ap (λ b. false != b) (sym e)
  resolved-side_holds false [] (n ∷ ns) e nobody = some6-side_holds n ns
  resolved-side_holds false (n ∷ ns) nets6 e nobody = some4-side_holds n ns nets6

module _ {V4 V6 R F : Type 0} (n4 : Network V4) (n6 : Network V6) (reg : TableRegistry V4 V6 R F)
    (m : Machine V4 V6 R) (env : Environment V4 V6 F) where
  no_member-holds_nothing :
      (ctx : Context) (addr : Addr) (family : IpVersion) (t : Target)
      → member_holds n4 n6 reg m ctx addr family (bare_match t TargetKind.no_member) ≡ false
  unfolding member_holds match_named_target
  no_member-holds_nothing ctx addr family t = refl

  -- A host or a custom name that the environment's resolver turns into networks: the side that the
  -- resolver leaves holds exactly when the address is in one of all those networks, and under a `not`
  -- exactly when it is in none, also when the name stands for no network.
  pub match_side-resolved :
      (ask : Target → F ⊎ (List V4 × List V6)) (side : BodySide) (t : Target) (nets4 : List V4)
      (nets6 : List V6) (ctx : Context) (addr : Addr) (family : IpVersion)
      → env.targets ≡ some ask
      → ask t ≡ inr (nets4, nets6)
      → (t.kind ≡ TargetKind.hostname) ⊎ (t.kind ≡ TargetKind.custom)
      → (ms : List (TargetMatch V4 V6)) × (resolve_target env collect [] side t ≡ ok ms)
        × (match_side n4 n6 reg m ms ctx addr family
            ≡ (in_networks (member_holds n4 n6 reg m ctx addr family) t nets4 nets6 != t.neg))
  match_side-resolved ask side t nets4 nets6 ctx addr family et ea k = (
    resolved_matches t t.neg nets4 nets6,
    resolve_target-resolved env ask side t nets4 nets6 et ea k,
    match_side-side_holds n4 n6 reg m (resolved_matches t t.neg nets4 nets6) ctx addr family
        ∙ resolved-side_holds (member_holds n4 n6 reg m ctx addr family) t t.neg nets4 nets6 refl
            (no_member-holds_nothing ctx addr family t),
  )
