-- ===== src/Vm/Match/Targets.antt =====
-- vm/vm.go: `matchTargets4`, `matchTargets6`, `matchNamedTarget` and the table lookups.
pub mod Scan
pub mod Resolved
use ipfw_go.Prelude.{
  ℕ, Bool, true, false, not, ◌&&◌, ◌||◌, List, [], ◌∷◌, Option, none, some, Bytes, ◌==◌, ◌!=◌,
  if◌then◌else◌, any, cut, trim_prefix,
}
use ipfw_go.Prelude.Int.{ℤ, pos}
use ipfw_go.Prelude.Maps.{lookup}
use ipfw_go.Rule.{TargetMatch, TargetKind}
use ipfw_go.Vm.Machine.{Machine}
use ipfw_go.Vm.Match.{no_target, unnamed_target, table_number, same_table_value}
use ipfw_go.Vm.Network.{Network, TableRegistry}
use ipfw_go.Vm.Packet.{Addr, addr_eq, Context, IpVersion, ipv4, ipv6, version_eq}
use ipfw_go.Vm.Program.{index_at}

-- The value of an entry that the target asks for, if it asks for one.
abbrev checked_value : Bytes → Bool → Option Bytes → Option Bytes
checked_value expected has_value none = none
checked_value expected has_value (some value) =
    if has_value && not (same_table_value value (trim_prefix expected b':'))
    then none
    else some value

abbrev is_some : Option Bytes → Bool
is_some none = false
is_some (some _) = true

abbrev is_local : Context → Addr → Bool
is_local ctx addr = any (λ a. addr_eq a addr) ctx.local_addrs

abbrev fresh : Bool × ℤ → Bool × ℤ
fresh (_, found) = (false, found)

module _ {V4 V6 R : Type 0} (m : Machine V4 V6 R) where
  abbrev labelled : Option ℕ → ℤ
  labelled none = unnamed_target
  labelled (some at) = pos at

  abbrev target_of : Bytes → Option ℕ → ℤ
  target_of value (some number) = pos (index_at m.program number)
  target_of value none = labelled (lookup value m.labels)

  -- `tableTarget`
  unfoldable pub table_target : Bytes → ℤ
  unfolding index_at table_number
  table_target value = target_of value (table_number value)

module _ {V4 V6 : Type 0} where
  -- The loops of both scans, behind the first target of a pattern: `hit` is what the pattern's
  -- targets gave so far.
  pub patterns :
      (Bool → TargetMatch V4 V6 → Bool) → TargetMatch V4 V6 → Bool → List (TargetMatch V4 V6) → Bool
  patterns step first hit [] = hit != first.neg
  patterns step first hit (t ∷ ts) =
      let same = t.pattern == first.pattern in
      let rest =
        patterns step (if same then first else t) (step (if same then hit else false) t) ts in
      if same then rest else if hit != first.neg then true else rest

  abbrev pub scan_targets : (Bool → TargetMatch V4 V6 → Bool) → List (TargetMatch V4 V6) → Bool
  scan_targets step [] = false
  scan_targets step (t ∷ ts) = patterns step t (step false t) ts

  pub lookup_patterns :
      (Bool × ℤ → TargetMatch V4 V6 → Bool × ℤ)
      → TargetMatch V4 V6
      → Bool × ℤ
      → List (TargetMatch V4 V6)
      → ℤ
  lookup_patterns step first hit [] = hit.1
  lookup_patterns step first hit (t ∷ ts) =
      let same = t.pattern == first.pattern in
      let rest =
        lookup_patterns step (if same then first else t) (step (if same then hit else fresh hit) t)
          ts in
      if same then rest else if hit.0 != first.neg then hit.1 else rest

  abbrev pub lookup_scan : (Bool × ℤ → TargetMatch V4 V6 → Bool × ℤ) → List (TargetMatch V4 V6) → ℤ
  lookup_scan step [] = no_target
  lookup_scan step (t ∷ ts) = lookup_patterns step t (step (false, no_target) t) ts

module _ {V4 V6 R F : Type 0} (n4 : Network V4) (n6 : Network V6) (reg : TableRegistry V4 V6 R F)
    (m : Machine V4 V6 R) where
  abbrev holds4 : Option V4 → Addr → Bool
  holds4 none addr = false
  holds4 (some net) addr = n4.contains_addr net addr

  abbrev holds6 : Option V6 → Addr → Bool
  holds6 none addr = false
  holds6 (some net) addr = n6.contains_addr net addr

  -- `lookupTable`
  unfoldable pub lookup_table : Bytes → Addr → Option Bytes
  unfolding cut trim_prefix same_table_value
  lookup_table target_name addr =
      let (name, expected, has_value) = cut target_name b',' in
      checked_value expected has_value (reg.lookup_network m.tables name addr)

  abbrev named_kind : TargetMatch V4 V6 → Context → Addr → IpVersion → TargetKind → Bool
  named_kind t ctx addr family TargetKind.me =
      (version_eq family ipv4 || version_eq family ipv6) && is_local ctx addr
  named_kind t ctx addr family TargetKind.me6 = version_eq family ipv6 && is_local ctx addr
  named_kind t ctx addr family TargetKind.table = is_some (lookup_table t.name addr)
  named_kind t ctx addr family _ = false

  -- `matchNamedTarget`
  unfoldable pub match_named_target : TargetMatch V4 V6 → Context → Addr → IpVersion → Bool
  unfolding version_eq addr_eq lookup_table
  match_named_target t ctx addr family = named_kind t ctx addr family t.kind

  -- The switch of the scan of an address that is IPv4 or of no family.
  abbrev hit4_kind : Context → Addr → IpVersion → Bool → TargetMatch V4 V6 → TargetKind → Bool
  hit4_kind ctx addr family hit t TargetKind.network4 =
      hit || version_eq family ipv4 && holds4 t.net4 addr
  hit4_kind ctx addr family hit t TargetKind.network6 = hit
  hit4_kind ctx addr family hit t TargetKind.anywhere = true
  hit4_kind ctx addr family hit t _ = hit || match_named_target t ctx addr family

  pub hit4 : Context → Addr → IpVersion → Bool → TargetMatch V4 V6 → Bool
  unfolding version_eq
  hit4 ctx addr family hit t = hit4_kind ctx addr family hit t t.kind

  -- The switch of the scan of an IPv6 address.
  abbrev hit6_kind : Context → Addr → Bool → TargetMatch V4 V6 → TargetKind → Bool
  hit6_kind ctx addr hit t TargetKind.network6 = hit || holds6 t.net6 addr
  hit6_kind ctx addr hit t TargetKind.network4 = hit
  hit6_kind ctx addr hit t TargetKind.anywhere = true
  hit6_kind ctx addr hit t _ = hit || match_named_target t ctx addr ipv6

  pub hit6 : Context → Addr → Bool → TargetMatch V4 V6 → Bool
  hit6 ctx addr hit t = hit6_kind ctx addr hit t t.kind

  -- `matchTargets4`
  unfoldable pub match_targets4 : List (TargetMatch V4 V6) → Context → Addr → IpVersion → Bool
  unfolding hit4 patterns
  match_targets4 ts ctx addr family = scan_targets (hit4 ctx addr family) ts

  -- `matchTargets6`
  unfoldable pub match_targets6 : List (TargetMatch V4 V6) → Context → Addr → Bool
  unfolding hit6 patterns
  match_targets6 ts ctx addr = scan_targets (hit6 ctx addr) ts

  -- The choice of the scan by the family of the address, as `matches` makes it for each side.
  unfoldable pub match_side : List (TargetMatch V4 V6) → Context → Addr → IpVersion → Bool
  unfolding match_targets4 match_targets6 version_eq
  match_side ts ctx addr family =
      if version_eq family ipv6
      then match_targets6 ts ctx addr
      else match_targets4 ts ctx addr family

  -- `lookupTargets`: one target of the inner loop gives whether it hit and the target found.
  abbrev found_entry : ℤ → Option Bytes → Bool × ℤ
  found_entry found none = (false, found)
  found_entry found (some value) = (true, table_target m value)

  abbrev lookup_kind : Context → Addr → IpVersion → ℤ → TargetMatch V4 V6 → TargetKind → Bool × ℤ
  lookup_kind ctx addr family found t TargetKind.table =
      found_entry found (lookup_table t.name addr)
  lookup_kind ctx addr family found t TargetKind.network4 =
      (version_eq family ipv4 && holds4 t.net4 addr, found)
  lookup_kind ctx addr family found t TargetKind.network6 =
      (version_eq family ipv6 && holds6 t.net6 addr, found)
  lookup_kind ctx addr family found t TargetKind.anywhere = (true, found)
  lookup_kind ctx addr family found t _ = (match_named_target t ctx addr family, found)

  abbrev lookup_step : Context → Addr → IpVersion → Bool × ℤ → TargetMatch V4 V6 → Bool × ℤ
  lookup_step ctx addr family (true, found) t = (true, found)
  lookup_step ctx addr family (false, found) t = lookup_kind ctx addr family found t t.kind

  unfoldable pub lookup_targets : List (TargetMatch V4 V6) → Context → Addr → IpVersion → ℤ
  unfolding lookup_patterns lookup_table match_named_target table_target version_eq
  lookup_targets ts ctx addr family = lookup_scan (lookup_step ctx addr family) ts
