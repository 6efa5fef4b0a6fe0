-- ===== src/Vm/Tables/Prefix/History.antt =====
-- The groups of a prefix table after a history of updates.
use ipfw_go.Prelude.Search.{below_at, Parts, IsPartitioned, binary_search-Parts}
use ipfw_go.Prelude.{
  ℕ, zero, suc, ◌≤◌, ◌<◌, Bool, true, false, List, [], ◌∷◌, All, Option, none, some, Bytes, ◌==◌,
  ltb, ltb→lt, lt→ltb, if◌then◌else◌, length, get_elem?, ◌≡◌, refl, sym, ap, ◌∙◌, subst, arith,
  Bool-cases, inl, inr, length-append,
}
use ipfw_go.Vm.Network.{Network}
use ipfw_go.Vm.Tables.Prefix.{
  PrefixGroup, PrefixTable, empty_table, new_group, with_entry, is_found, append_at, add_at,
  prefix_add,
}

module _ {N : Type 0} (n : Network N) where
  -- The table after the updates.
  unfoldable pub added : List (N × Bytes) → PrefixTable N
  added [] = empty_table
  added ((net, value) ∷ older) = prefix_add n (added older) net value

  abbrev pub IsAbove : ℕ → List (PrefixGroup N) → Type 0
  IsAbove b gs = All (λ g. b < g.host_bits) gs

  -- The groups go from the most specific to the least, and a network has one value.
  abbrev pub IsGrouped : List (PrefixGroup N) → Type 0
  IsGrouped [] = Unit
  IsGrouped (g ∷ gs) = IsAbove g.host_bits gs × (length g.networks ≡ length g.values) × IsGrouped gs

  -- `Add` by recursion on the groups.
  abbrev pub put : ℕ → N → Bytes → List (PrefixGroup N) → List (PrefixGroup N)
  put b net value [] = with_entry n (new_group n b) net value ∷ []
  put b net value (g ∷ gs) =
      let rest = put b net value gs in
      if ltb g.host_bits b
      then g ∷ rest
      else if g.host_bits == b
      then with_entry n g net value ∷ gs
      else with_entry n (new_group n b) net value ∷ g ∷ gs

  append_at-cons :
      (idx : ℕ) (net : N) (value : Bytes) (g : PrefixGroup N) (o : Option (PrefixGroup N))
      (gs : List (PrefixGroup N))
      → append_at n (suc idx) net value o (g ∷ gs) ≡ g ∷ append_at n idx net value o gs
  append_at-cons idx net value g none gs = refl
  append_at-cons idx net value g (some h) gs = refl

  abbrev is_below : ℕ → PrefixGroup N → Bool
  is_below b g = ltb g.host_bits b

  add_at-put :
      (idx : ℕ) (gs : List (PrefixGroup N)) (net : N) (value : Bytes)
      → Parts (is_below (n.num_host_bits net)) gs idx
      → add_at n idx gs net value ≡ put (n.num_host_bits net) net value gs
  unfolding add_at
  add_at-put zero [] net value p = refl
  add_at-put zero (g ∷ gs) net value p = elim (Bool-cases (g.host_bits == n.num_host_bits net)) [
    | inl same ↦ rw (p.after 0 (omega arith), same) refl
    | inr other ↦ rw (p.after 0 (omega arith), other) refl
  ]
  add_at-put (suc idx) [] net value p = absurd (omega (arith, p.within))
  add_at-put (suc idx) (g ∷ gs) net value p =
      let b = n.num_host_bits net in
      let rest = add_at-put idx gs net value (record {
        within = omega (arith, p.within);
        before = λ k h. p.before (suc k) (omega arith);
        after = λ k h. p.after (suc k) (omega arith);
      }) in
      elim (Bool-cases (is_found n b (get_elem? gs idx))) [
        | inl found ↦
            rw
              (
                p.before 0 (omega arith),
                found,
                append_at-cons idx net value g (get_elem? gs idx) gs,
              )
              (ap (◌∷◌ g) (sym (rw found refl) ∙ rest))
        | inr missing ↦
            rw (p.before 0 (omega arith), missing)
              (append_at-cons idx net value g _ _ ∙ ap (◌∷◌ g) (sym (rw missing refl) ∙ rest))
      ]

  -- Ascending host bits part at any number of them.
  IsAbove-get :
      (b : ℕ) (gs : List (PrefixGroup N)) (k c : ℕ)
      → IsAbove b gs
      → below_at (is_below c) gs k ≡ true
      → b < c
  IsAbove-get b [] k c a h = absurd (ground arith)
  IsAbove-get b (g ∷ gs) zero c (lt, a) h = omega (arith, ltb→lt g.host_bits c h)
  IsAbove-get b (g ∷ gs) (suc k) c (lt, a) h = IsAbove-get b gs k c a h

  IsGrouped-IsPartitioned :
      (gs : List (PrefixGroup N)) (c : ℕ) → IsGrouped gs → IsPartitioned (is_below c) gs
  IsGrouped-IsPartitioned [] c w a b le h = absurd (ground arith)
  IsGrouped-IsPartitioned (g ∷ gs) c (above, same, w) zero zero le h = h
  IsGrouped-IsPartitioned (g ∷ gs) c (above, same, w) zero (suc b) le h =
      lt→ltb g.host_bits c (IsAbove-get g.host_bits gs b c above h)
  IsGrouped-IsPartitioned (g ∷ gs) c (above, same, w) (suc a) zero le h = absurd (omega arith)
  IsGrouped-IsPartitioned (g ∷ gs) c (above, same, w) (suc a) (suc b) le h =
      IsGrouped-IsPartitioned gs c w a b (omega arith) h

  pub prefix_add-put :
      (m : PrefixTable N) (net : N) (value : Bytes)
      → IsGrouped m.groups
      → (prefix_add n m net value).groups ≡ put (n.num_host_bits net) net value m.groups
  unfolding prefix_add
  prefix_add-put m net value w =
      let b = n.num_host_bits net in
      add_at-put _ m.groups net value
        (binary_search-Parts (is_below b) m.groups (IsGrouped-IsPartitioned m.groups b w))

  put-IsAbove :
      (low b : ℕ) (net : N) (value : Bytes) (gs : List (PrefixGroup N))
      → low < b
      → IsAbove low gs
      → IsAbove low (put b net value gs)
  put-IsAbove low b net value [] lt a = (lt, tt)
  put-IsAbove low b net value (g ∷ gs) lt (l, a) = elim (Bool-cases (ltb g.host_bits b)) [
    | inl below ↦ rw below (l, put-IsAbove low b net value gs lt a)
    | inr above ↦ elim (Bool-cases (g.host_bits == b)) [
      | inl same ↦ rw (above, same) (l, a)
      | inr other ↦ rw (above, other) (lt, (l, a))
    ]
  ]

  IsAbove-le : (a b : ℕ) (gs : List (PrefixGroup N)) → a ≤ b → IsAbove b gs → IsAbove a gs
  IsAbove-le a b [] le w = tt
  IsAbove-le a b (g ∷ gs) le (lt, w) = (omega arith, IsAbove-le a b gs le w)

  pub lower :
      (b : ℕ) (g : PrefixGroup N) (gs : List (PrefixGroup N))
      → ltb g.host_bits b ≡ false
      → (g.host_bits == b) ≡ false
      → IsAbove g.host_bits gs
      → IsAbove b (g ∷ gs)
  lower b g gs not_below other above =
      let lt : b < g.host_bits = ground arith in
      (lt, IsAbove-le b g.host_bits gs (omega arith) above)

  put-IsGrouped :
      (b : ℕ) (net : N) (value : Bytes) (gs : List (PrefixGroup N))
      → IsGrouped gs
      → IsGrouped (put b net value gs)
  put-IsGrouped b net value [] w = (tt, refl, tt)
  put-IsGrouped b net value (g ∷ gs) (above, same, w) = elim (Bool-cases (ltb g.host_bits b)) [
    | inl below ↦ rw below (
      put-IsAbove g.host_bits b net value gs (ltb→lt _ _ below) above,
      same,
      put-IsGrouped b net value gs w,
    )
    | inr not_below ↦ elim (Bool-cases (g.host_bits == b)) [
      | inl here ↦
          rw (not_below, here)
            (
              above,
              omega (
                arith,
                same,
                length-append g.networks (net ∷ []),
                length-append g.values (value ∷ []),
              ),
              w,
            )
      | inr other ↦
          rw (not_below, other) (lower b g gs not_below other above, refl, (above, same, w))
    ]
  ]

  pub added-IsGrouped : (updates : List (N × Bytes)) → IsGrouped (added updates).groups
  unfolding added
  added-IsGrouped [] = tt
  added-IsGrouped ((net, value) ∷ older) =
      let w = added-IsGrouped older in
      subst IsGrouped (sym (prefix_add-put (added older) net value w))
        (put-IsGrouped (n.num_host_bits net) net value (added older).groups w)
