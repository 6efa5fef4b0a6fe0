-- ===== src/Vm/Tables/Prefix.antt =====
-- vm/tables.go: `prefixTable`: networks grouped by their host bits, the most specific group first.
pub mod History
pub mod Best
use ipfw_go.Prelude.{
  ℕ, zero, suc, Bool, false, List, [], ◌∷◌, ◌++◌, Option, none, some, Bytes, ◌==◌, ltb,
  if◌then◌else◌, length, get_elem?, take, drop, set,
}
use ipfw_go.Prelude.Search.{binary_search}
use ipfw_go.Vm.Network.{Network}
use ipfw_go.Vm.Packet.{Addr}

pub record PrefixGroup (N : Type 0) : Type 0 where
  pub host_bits : ℕ
  pub networks : List N
  pub values : List Bytes

pub record PrefixTable (N : Type 0) : Type 0 where
  pub groups : List (PrefixGroup N)

abbrev pub empty_table : {N : Type 0} → PrefixTable N
empty_table = record { groups = [] }

module _ {N : Type 0} (n : Network N) where
  abbrev holds : Option N → Addr → Bool
  holds none addr = false
  holds (some net) addr = n.contains_addr net addr

  -- The loop of `lastHolding`, on the networks below `idx`.
  pub last_holding_below : ℕ → List N → Addr → Option ℕ
  last_holding_below zero nets addr = none
  last_holding_below (suc idx) nets addr =
      if holds (get_elem? nets idx) addr then some idx else last_holding_below idx nets addr

  unfoldable pub last_holding : List N → Addr → Option ℕ
  unfolding last_holding_below
  last_holding nets addr = last_holding_below (length nets) nets addr

  abbrev pub value_of : PrefixGroup N → Option ℕ → Option Bytes
  value_of g none = none
  value_of g (some idx) = get_elem? g.values idx

  abbrev pub or_next : Option Bytes → Option Bytes → Option Bytes
  or_next none next = next
  or_next (some v) next = some v

  pub lookup_groups : List (PrefixGroup N) → Addr → Option Bytes
  unfolding last_holding
  lookup_groups [] addr = none
  lookup_groups (g ∷ gs) addr =
      or_next (value_of g (last_holding g.networks addr)) (lookup_groups gs addr)

  -- `Lookup`
  unfoldable pub prefix_lookup : PrefixTable N → Addr → Option Bytes
  unfolding lookup_groups
  prefix_lookup m addr = lookup_groups m.groups addr

  abbrev pub new_group : ℕ → PrefixGroup N
  new_group host_bits = record { host_bits = host_bits; networks = []; values = [] }

  abbrev pub with_entry : PrefixGroup N → N → Bytes → PrefixGroup N
  with_entry g net value = record g {
    networks = g.networks ++ net ∷ [];
    values = g.values ++ value ∷ [];
  }

  -- Whether the group at the index is the one looked for: the second result of the search.
  abbrev is_found : ℕ → Option (PrefixGroup N) → Bool
  is_found host_bits none = false
  is_found host_bits (some g) = g.host_bits == host_bits

  -- `slices.Insert` of one group.
  abbrev insert_at : ℕ → PrefixGroup N → List (PrefixGroup N) → List (PrefixGroup N)
  insert_at idx g gs = take idx gs ++ (g ∷ drop idx gs)

  abbrev append_at :
      ℕ → N → Bytes → Option (PrefixGroup N) → List (PrefixGroup N) → List (PrefixGroup N)
  append_at idx net value none gs = gs
  append_at idx net value (some g) gs = set gs idx (with_entry g net value)

  -- The body of `Add` behind the search.
  pub add_at : ℕ → List (PrefixGroup N) → N → Bytes → List (PrefixGroup N)
  add_at idx gs net value =
      let host_bits = n.num_host_bits net in
      let grown =
        if is_found host_bits (get_elem? gs idx)
        then gs
        else insert_at idx (new_group host_bits) gs in
      append_at idx net value (get_elem? grown idx) grown

  -- `Add`
  unfoldable pub prefix_add : PrefixTable N → N → Bytes → PrefixTable N
  unfolding add_at binary_search
  prefix_add m net value =
      let idx =
        binary_search (λ (g : PrefixGroup N). ltb g.host_bits (n.num_host_bits net)) m.groups in
      record { groups = add_at idx m.groups net value }
