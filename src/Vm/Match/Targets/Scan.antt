-- ===== src/Vm/Match/Targets/Scan.antt =====
-- What a source or a destination means for an address, and that both scans compute it.
use ipfw_go.Prelude.Runs.{Run, runs, runs-cons, take_while, drop_while}
use ipfw_go.Prelude.{
  ℕ, Bool, true, false, ◌&&◌, ◌||◌, List, [], ◌∷◌, ◌==◌, ◌!=◌, any, ◌≡◌, refl, arith, Bool-cases,
  inl, inr, ◌∙◌,
}
use ipfw_go.Rule.{TargetMatch, TargetKind}
use ipfw_go.Vm.Machine.{Machine}
use ipfw_go.Vm.Match.Targets.{
  holds4, holds6, match_named_target, hit4_kind, hit6_kind, hit4, hit6, patterns, scan_targets,
  match_targets4, match_targets6, match_side,
}
use ipfw_go.Vm.Network.{Network, TableRegistry}
use ipfw_go.Vm.Packet.{Addr, Context, IpVersion, neither, ipv4, ipv6, version_eq}

module _ {V4 V6 : Type 0} (base : TargetMatch V4 V6 → Bool) where
  -- One member of a pattern is enough, or none may hold under a `not`.
  abbrev pub pattern_holds : Run (TargetMatch V4 V6) → Bool
  pattern_holds (t, ts) = any base (t ∷ ts) != t.neg

  -- A side holds when one of its patterns does.
  abbrev pub side_holds : List (TargetMatch V4 V6) → Bool
  side_holds ts = any pattern_holds (runs (λ t. t.pattern) ts)

  module _ (step : Bool → TargetMatch V4 V6 → Bool)
      (step_lem : (hit : Bool) (t : TargetMatch V4 V6) → step hit t ≡ (hit || base t)) where
    runs_nil : (key : TargetMatch V4 V6 → ℕ) → runs key [] ≡ []
    unfolding runs
    runs_nil key = refl

    patterns-runs :
        (first : TargetMatch V4 V6) (hit : Bool) (ts : List (TargetMatch V4 V6))
        → patterns step first hit ts
          ≡ ((hit || any base (take_while (λ t. t.pattern == first.pattern) ts)) != first.neg)
            || side_holds (drop_while (λ t. t.pattern == first.pattern) ts)
    unfolding patterns take_while drop_while
    patterns-runs first hit [] = rw (runs_nil (λ t. t.pattern)) (ground arith)
    patterns-runs first hit (t ∷ ts) = elim (Bool-cases (t.pattern == first.pattern)) [
      | inl same ↦
          rw same (patterns-runs first (step hit t) ts ∙ rw (step_lem hit t) (ground arith))
      | inr other ↦ rw other (
          rw (runs-cons (λ t. t.pattern) t ts, patterns-runs t (step false t) ts, step_lem false t)
            (ground arith))
    ]

    scan_targets-side_holds : (ts : List (TargetMatch V4 V6)) → scan_targets step ts ≡ side_holds ts
    scan_targets-side_holds [] = rw (runs_nil (λ t. t.pattern))
    scan_targets-side_holds (t ∷ ts) =
        rw (runs-cons (λ t. t.pattern) t ts, patterns-runs t (step false t) ts, step_lem false t)

module _ {V4 V6 R F : Type 0} (n4 : Network V4) (n6 : Network V6) (reg : TableRegistry V4 V6 R F)
    (m : Machine V4 V6 R) where
  -- Whether the address, of the family, is one that the member stands for.
  abbrev member_kind : Context → Addr → IpVersion → TargetMatch V4 V6 → TargetKind → Bool
  member_kind ctx addr family t TargetKind.network4 =
      version_eq family ipv4 && holds4 n4 n6 reg m t.net4 addr
  member_kind ctx addr family t TargetKind.network6 =
      version_eq family ipv6 && holds6 n4 n6 reg m t.net6 addr
  member_kind ctx addr family t TargetKind.anywhere = true
  member_kind ctx addr family t _ = match_named_target n4 n6 reg m t ctx addr family

  unfoldable pub member_holds : Context → Addr → IpVersion → TargetMatch V4 V6 → Bool
  unfolding match_named_target
  member_holds ctx addr family t = member_kind ctx addr family t t.kind

  -- The switches of the scans, by the kind of the target.
  hit4_kind_lem :
      (ctx : Context) (addr : Addr) (family : IpVersion) (hit : Bool) (t : TargetMatch V4 V6)
      (k : TargetKind)
      → version_eq family ipv6 ≡ false
      → hit4_kind n4 n6 reg m ctx addr family hit t k ≡ (hit || member_kind ctx addr family t k)
  hit4_kind_lem ctx addr family hit t TargetKind.network4 h = refl
  hit4_kind_lem ctx addr family hit t TargetKind.network6 h = rw h (ground arith)
  hit4_kind_lem ctx addr family hit t TargetKind.anywhere h = ground arith
  hit4_kind_lem ctx addr family hit t _ h = refl

  hit6_kind_lem :
      (ctx : Context) (addr : Addr) (hit : Bool) (t : TargetMatch V4 V6) (k : TargetKind)
      → hit6_kind n4 n6 reg m ctx addr hit t k ≡ (hit || member_kind ctx addr ipv6 t k)
  unfolding version_eq
  hit6_kind_lem ctx addr hit t TargetKind.network4 = ground arith
  hit6_kind_lem ctx addr hit t TargetKind.network6 = refl
  hit6_kind_lem ctx addr hit t TargetKind.anywhere = ground arith
  hit6_kind_lem ctx addr hit t _ = refl

  match_targets4-side_holds :
      (ts : List (TargetMatch V4 V6)) (ctx : Context) (addr : Addr) (family : IpVersion)
      → version_eq family ipv6 ≡ false
      → match_targets4 n4 n6 reg m ts ctx addr family ≡ side_holds (member_holds ctx addr family) ts
  unfolding match_targets4 member_holds
  match_targets4-side_holds ts ctx addr family h =
      scan_targets-side_holds (member_holds ctx addr family) (hit4 n4 n6 reg m ctx addr family)
        (λ hit t. hit4_kind_lem ctx addr family hit t t.kind h) ts

  match_targets6-side_holds :
      (ts : List (TargetMatch V4 V6)) (ctx : Context) (addr : Addr)
      → match_targets6 n4 n6 reg m ts ctx addr ≡ side_holds (member_holds ctx addr ipv6) ts
  unfolding match_targets6 member_holds
  match_targets6-side_holds ts ctx addr =
      scan_targets-side_holds (member_holds ctx addr ipv6) (hit6 n4 n6 reg m ctx addr)
        (λ hit t. hit6_kind_lem ctx addr hit t t.kind) ts

  -- Whichever scan the family of the address picks, a source or a destination holds exactly when
  -- one of its patterns does: the runs of targets with one pattern number, each holding when a
  -- member stands for the address, and under a `not` when none does.
  pub match_side-side_holds :
      (ts : List (TargetMatch V4 V6)) (ctx : Context) (addr : Addr) (family : IpVersion)
      → match_side n4 n6 reg m ts ctx addr family ≡ side_holds (member_holds ctx addr family) ts
  unfolding match_side
  match_side-side_holds ts ctx addr neither = match_targets4-side_holds ts ctx addr neither refl
  match_side-side_holds ts ctx addr ipv4 = match_targets4-side_holds ts ctx addr ipv4 refl
  match_side-side_holds ts ctx addr ipv6 = match_targets6-side_holds ts ctx addr
