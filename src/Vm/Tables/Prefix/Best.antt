-- ===== src/Vm/Tables/Prefix/Best.antt =====
-- The most specific network of a history of updates, and that the lookup finds its value.
use ipfw_go.Prelude.{
  ℕ, zero, suc, ◌≤◌, ◌<◌, List, [], ◌∷◌, ◌++◌, Option, none, some, Bytes, ◌==◌, ==_iff, ltb, leb,
  ltb→lt, if◌then◌else◌, length, get_elem?, ◌≡◌, refl, sym, ap, ◌∙◌, arith, Bool-cases,
  Option-cases, inl, inr, length-snoc, get_elem?-append_left, get_elem?-append_self,
}
use mathlib.Core.Option.{some-injective}
use ipfw_go.Vm.Network.{Network}
use ipfw_go.Vm.Packet.{Addr}
use ipfw_go.Vm.Tables.Prefix.History.{
  added, IsAbove, IsGrouped, put, prefix_add-put, added-IsGrouped, lower,
}
use ipfw_go.Vm.Tables.Prefix.{
  PrefixGroup, holds, last_holding_below, last_holding, value_of, or_next, lookup_groups,
  prefix_lookup, new_group, with_entry,
}

-- Of two entries with their host bits, the later one if it is at least as specific.
abbrev pub newer : ℕ × Bytes → Option (ℕ × Bytes) → Option (ℕ × Bytes)
newer e none = some e
newer e (some o) = if leb e.0 o.0 then some e else some o

abbrev pub value_part : Option (ℕ × Bytes) → Option Bytes
value_part none = none
value_part (some e) = some (e.1)

module _ {N : Type 0} (n : Network N) where
  -- The entry that counts for the address after the updates, the last one first in the list: of those
  -- whose network holds it, the most specific, and the last added of equally specific ones.
  pub best : List (N × Bytes) → Addr → Option (ℕ × Bytes)
  best [] addr = none
  best ((net, value) ∷ older) addr =
      if n.contains_addr net addr
      then newer (n.num_host_bits net, value) (best older addr)
      else best older addr

  last_holding_below-append :
      (idx : ℕ) (nets : List N) (net : N) (addr : Addr)
      → idx ≤ length nets
      → last_holding_below n idx (nets ++ net ∷ []) addr ≡ last_holding_below n idx nets addr
  unfolding last_holding_below
  last_holding_below-append zero nets net addr le = refl
  last_holding_below-append (suc idx) nets net addr le =
      rw
        (
          get_elem?-append_left nets (net ∷ []) idx (omega arith),
          last_holding_below-append idx nets net addr (omega arith),
        )
        refl

  last_holding-append :
      (nets : List N) (net : N) (addr : Addr)
      → last_holding n (nets ++ net ∷ []) addr
        ≡ (if n.contains_addr net addr then some (length nets) else last_holding n nets addr)
  unfolding last_holding last_holding_below
  last_holding-append nets net addr =
      rw
        (
          length-snoc nets net,
          get_elem?-append_self nets net (length nets) refl,
          last_holding_below-append (length nets) nets net addr (omega arith),
        )
        refl

  -- An index that the scan gives is one of the networks'.
  last_holding_below-lt :
      (k : ℕ) (nets : List N) (addr : Addr) (idx : ℕ)
      → last_holding_below n k nets addr ≡ some idx
      → idx < k
  unfolding last_holding_below
  last_holding_below-lt zero nets addr idx h = absurd (ground arith)
  last_holding_below-lt (suc k) nets addr idx h =
      elim (Bool-cases (holds n (get_elem? nets k) addr)) [
        | inl hit ↦ omega (arith, some-injective k idx (sym (rw hit refl) ∙ h))
        | inr miss ↦ omega (arith, last_holding_below-lt k nets addr idx (sym (rw miss refl) ∙ h))
      ]

  last_holding-lt :
      (nets : List N) (addr : Addr) (idx : ℕ)
      → last_holding n nets addr ≡ some idx
      → idx < length nets
  unfolding last_holding
  last_holding-lt nets addr idx = last_holding_below-lt (length nets) nets addr idx

  abbrev group_value : PrefixGroup N → Addr → Option Bytes
  group_value g addr = value_of n g (last_holding n g.networks addr)

  group_value-with_entry :
      (g : PrefixGroup N) (net : N) (value : Bytes) (addr : Addr)
      → length g.networks ≡ length g.values
      → group_value (with_entry n g net value) addr
        ≡ (if n.contains_addr net addr then some value else group_value g addr)
  group_value-with_entry g net value addr same = elim (Bool-cases (n.contains_addr net addr)) [
    | inl hit ↦
        rw (last_holding-append g.networks net addr, hit)
          (get_elem?-append_self g.values value (length g.networks) same)
    | inr miss ↦
        rw (last_holding-append g.networks net addr, miss)
          (elim (Option-cases (last_holding n g.networks addr)) [
            | inl e ↦ rw e refl
            | inr (idx, e) ↦ rw e (
                get_elem?-append_left g.values (value ∷ []) idx
                  (omega (arith, same, last_holding-lt g.networks addr idx e)))
          ])
  ]

  abbrev tagged : ℕ → Option Bytes → Option (ℕ × Bytes) → Option (ℕ × Bytes)
  tagged b none rest = rest
  tagged b (some v) rest = some (b, v)

  -- The lookup, with the host bits of the group that has the entry.
  abbrev found : List (PrefixGroup N) → Addr → Option (ℕ × Bytes)
  found [] addr = none
  found (g ∷ gs) addr = tagged g.host_bits (group_value g addr) (found gs addr)

  value_part-tagged :
      (b : ℕ) (o : Option Bytes) (rest : Option (ℕ × Bytes))
      → value_part (tagged b o rest) ≡ or_next n o (value_part rest)
  value_part-tagged b none rest = refl
  value_part-tagged b (some v) rest = refl

  lookup_groups-found :
      (gs : List (PrefixGroup N)) (addr : Addr)
      → lookup_groups n gs addr ≡ value_part (found gs addr)
  unfolding lookup_groups
  lookup_groups-found [] addr = refl
  lookup_groups-found (g ∷ gs) addr =
      ap (or_next n (group_value g addr)) (lookup_groups-found gs addr)
      ∙ sym (value_part-tagged g.host_bits (group_value g addr) (found gs addr))

  -- An entry is no more specific than the groups are.
  abbrev IsLow : ℕ → Option (ℕ × Bytes) → Type 0
  IsLow b none = Unit
  IsLow b (some e) = b ≤ e.0

  tagged-IsLow :
      (low b : ℕ) (o : Option Bytes) (rest : Option (ℕ × Bytes))
      → low ≤ b
      → IsLow low rest
      → IsLow low (tagged b o rest)
  tagged-IsLow low b none rest le l = l
  tagged-IsLow low b (some v) rest le l = le

  found-IsLow :
      (low : ℕ) (gs : List (PrefixGroup N)) (addr : Addr)
      → IsAbove n low gs
      → IsLow low (found gs addr)
  found-IsLow low [] addr a = tt
  found-IsLow low (g ∷ gs) addr (lt, a) =
      tagged-IsLow low g.host_bits (group_value g addr) (found gs addr) (omega arith)
        (found-IsLow low gs addr a)

  newer-IsLow :
      (b : ℕ) (v : Bytes) (o : Option (ℕ × Bytes)) → IsLow b o → newer (b, v) o ≡ some (b, v)
  newer-IsLow b v none l = refl
  newer-IsLow b v (some e) l = ground arith

  -- A less specific entry counts after those of a group before it.
  newer-tagged :
      (b c : ℕ) (v : Bytes) (o : Option Bytes) (rest : Option (ℕ × Bytes))
      → c < b
      → newer (b, v) (tagged c o rest) ≡ tagged c o (newer (b, v) rest)
  newer-tagged b c v none rest lt = refl
  newer-tagged b c v (some w) rest lt = ground arith

  abbrev put_found : ℕ → N → Bytes → Addr → Option (ℕ × Bytes) → Option (ℕ × Bytes)
  put_found b net value addr o = if n.contains_addr net addr then newer (b, value) o else o

  new_group-value :
      (b : ℕ) (net : N) (value : Bytes) (addr : Addr) (o : Option (ℕ × Bytes))
      → IsLow b o
      → tagged b (group_value (with_entry n (new_group n b) net value) addr) o
        ≡ put_found b net value addr o
  unfolding last_holding last_holding_below
  new_group-value b net value addr o l = elim (Bool-cases (n.contains_addr net addr)) [
    | inl hit ↦ rw hit (sym (newer-IsLow b value o l))
    | inr miss ↦ rw miss refl
  ]

  old_group-value :
      (g : PrefixGroup N) (net : N) (value : Bytes) (addr : Addr) (o : Option (ℕ × Bytes))
      → length g.networks ≡ length g.values
      → IsLow g.host_bits o
      → tagged g.host_bits (group_value (with_entry n g net value) addr) o
        ≡ put_found g.host_bits net value addr (tagged g.host_bits (group_value g addr) o)
  old_group-value g net value addr o same l = elim (Bool-cases (n.contains_addr net addr)) [
    | inl hit ↦
        rw (group_value-with_entry g net value addr same, hit)
          (sym (
            newer-IsLow g.host_bits value _
              (tagged-IsLow g.host_bits g.host_bits (group_value g addr) o (omega arith) l)))
    | inr miss ↦ rw (group_value-with_entry g net value addr same, miss) refl
  ]

  passed_group-value :
      (b c : ℕ) (net : N) (value : Bytes) (addr : Addr) (o : Option Bytes)
      (rest : Option (ℕ × Bytes))
      → c < b
      → tagged c o (put_found b net value addr rest) ≡ put_found b net value addr (tagged c o rest)
  passed_group-value b c net value addr o rest lt = elim (Bool-cases (n.contains_addr net addr)) [
    | inl hit ↦ rw hit (sym (newer-tagged b c value o rest lt))
    | inr miss ↦ rw miss refl
  ]

  found-put :
      (b : ℕ) (net : N) (value : Bytes) (gs : List (PrefixGroup N)) (addr : Addr)
      → IsGrouped n gs
      → found (put n b net value gs) addr ≡ put_found b net value addr (found gs addr)
  found-put b net value [] addr w = new_group-value b net value addr none tt
  found-put b net value (g ∷ gs) addr (above, same, w) = elim (Bool-cases (ltb g.host_bits b)) [
    | inl below ↦ rw below (
        ap (tagged g.host_bits (group_value g addr)) (found-put b net value gs addr w)
        ∙ passed_group-value b g.host_bits net value addr (group_value g addr) (found gs addr)
            (ltb→lt _ _ below))
    | inr not_below ↦ elim (Bool-cases (g.host_bits == b)) [
      | inl here ↦
          rw (not_below, here, ← (==_iff g.host_bits b).0 here)
            (old_group-value g net value addr (found gs addr) same
              (found-IsLow g.host_bits gs addr above))
      | inr other ↦
          rw (not_below, other)
            (new_group-value b net value addr (found (g ∷ gs) addr)
              (found-IsLow b (g ∷ gs) addr (lower n b g gs not_below other above)))
    ]
  ]

  found-best :
      (updates : List (N × Bytes)) (addr : Addr)
      → found (added n updates).groups addr ≡ best updates addr
  unfolding added best
  found-best [] addr = refl
  found-best ((net, value) ∷ older) addr =
      ap (λ gs. found gs addr)
        (prefix_add-put n (added n older) net value (added-IsGrouped n older))
      ∙ found-put (n.num_host_bits net) net value (added n older).groups addr
          (added-IsGrouped n older)
      ∙ ap (put_found (n.num_host_bits net) net value addr) (found-best older addr)

  -- After any updates of a prefix table, the lookup of an address gives the value of the most specific
  -- network that holds it, the last added one of equally specific ones, and nothing when none holds it.
  pub prefix_lookup-best :
      (updates : List (N × Bytes)) (addr : Addr)
      → prefix_lookup n (added n updates) addr ≡ value_part (best updates addr)
  unfolding prefix_lookup
  prefix_lookup-best updates addr =
      lookup_groups-found (added n updates).groups addr ∙ ap value_part (found-best updates addr)
