-- ===== src/Vm/Program/Numbers.antt =====
-- vm/vm.go: `At`, the search for a rule by its number, on numbers that ascend.
use mathlib.Core.Bool.{false≢true}
use ipfw_go.Prelude.Search.{below_at, IsPartitioned, binary_search-Parts}
use ipfw_go.Prelude.{
  ℕ, zero, suc, ◌+◌, ◌-◌, ◌≤◌, ◌<◌, true, false, List, [], ◌∷◌, ◌++◌, ltb, ltb→lt, not_ltb→le,
  if◌then◌else◌, length, get_or, ◌≡◌, refl, sym, ◌∙◌, arith, Bool-cases, inl, inr, length-append,
}
use ipfw_go.Vm.Program.{Program, index_at}

-- Each number is greater than those before it.
abbrev pub IsAscending : List ℕ → Type 0
IsAscending ns = (a b : ℕ) → a < b → b < length ns → get_or ns a 0 < get_or ns b 0

get_or-append_left :
    (ns : List ℕ) (n i : ℕ) → i < length ns → get_or (ns ++ n ∷ []) i 0 ≡ get_or ns i 0
get_or-append_left [] n i h = elim h [ ]
get_or-append_left (x ∷ ns) n zero h = refl
get_or-append_left (x ∷ ns) n (suc i) h = get_or-append_left ns n i (omega arith)

get_or-append_self : (ns : List ℕ) (n i : ℕ) → i ≡ length ns → get_or (ns ++ n ∷ []) i 0 ≡ n
get_or-append_self [] n zero h = refl
get_or-append_self [] n (suc i) h = absurd (omega arith)
get_or-append_self (x ∷ ns) n zero h = absurd (omega arith)
get_or-append_self (x ∷ ns) n (suc i) h = get_or-append_self ns n i (omega arith)

-- Not below the last number but past it: the numbers stay ascending.
pub append-IsAscending :
    (ns : List ℕ) (n : ℕ)
    → IsAscending ns
    → ((i : ℕ) → i + 1 ≡ length ns → get_or ns i 0 < n)
    → IsAscending (ns ++ n ∷ [])
append-IsAscending ns n up past a b h within = elim (Bool-cases (ltb b (length ns))) [
  | inl old ↦
      rw
        (
          get_or-append_left ns n b (ltb→lt _ _ old),
          get_or-append_left ns n a (omega (arith, ltb→lt _ _ old)),
        )
        (up a b h (ltb→lt _ _ old))
  | inr new ↦
      let at : b ≡ length ns = omega (arith, not_ltb→le _ _ new, length-append ns (n ∷ [])) in
      rw (get_or-append_self ns n b at, get_or-append_left ns n a (omega arith))
        (elim (Bool-cases (ltb (a + 1) (length ns))) [
          | inl mid ↦ omega (
            arith,
            up a (length ns - 1) (omega (arith, ltb→lt _ _ mid)) (omega arith),
            past (length ns - 1) (omega arith),
          )
          | inr last ↦ past a (omega (arith, not_ltb→le _ _ last))
        ])
]

-- What the search sees of the number at an index.
below_at_lem :
    (ns : List ℕ) (n i : ℕ)
    → below_at (λ have. ltb have n) ns i
      ≡ (if ltb i (length ns) then ltb (get_or ns i 0) n else false)
below_at_lem [] n i = ground arith
below_at_lem (x ∷ ns) n zero = ground arith
below_at_lem (x ∷ ns) n (suc i) = below_at_lem ns n i ∙ ground arith

below_at→lt :
    (ns : List ℕ) (n i : ℕ)
    → below_at (λ have. ltb have n) ns i ≡ true
    → (i < length ns) × (get_or ns i 0 < n)
below_at→lt ns n i h = let e = sym (below_at_lem ns n i) ∙ h in ground arith

lt→below_at :
    (ns : List ℕ) (n i : ℕ)
    → i < length ns
    → get_or ns i 0 < n
    → below_at (λ have. ltb have n) ns i ≡ true
lt→below_at ns n i within h = below_at_lem ns n i ∙ ground arith

IsAscending-IsPartitioned :
    (ns : List ℕ) (n : ℕ) → IsAscending ns → IsPartitioned (λ have. ltb have n) ns
IsAscending-IsPartitioned ns n up a b le h =
    let (within, lt) = below_at→lt ns n b h in
    elim (Bool-cases (ltb a b)) [
      | inl less ↦ lt→below_at ns n a (omega arith) (omega (arith, up a b (ltb→lt _ _ less) within))
      | inr same ↦ let e : a ≡ b = omega (arith, not_ltb→le _ _ same) in rw e h
    ]

module _ {V4 V6 : Type 0} (p : Program V4 V6) where
  -- `at` is the index of the first rule numbered `n` or more, or the number of the rules when there
  -- is none.
  abbrev pub IsFirstFrom : ℕ → ℕ → Type 0
  IsFirstFrom n at =
      (at ≤ length p.numbers)
      × ((k : ℕ) → k < at → get_or p.numbers k 0 < n)
      × ((k : ℕ) → at ≤ k → k < length p.numbers → n ≤ get_or p.numbers k 0)

  -- On ascending numbers, `At` finds the first rule numbered at or after the number.
  pub index_at-IsFirstFrom : (n : ℕ) → IsAscending p.numbers → IsFirstFrom n (index_at p n)
  unfolding index_at
  index_at-IsFirstFrom n up =
      let parts =
        binary_search-Parts (λ have. ltb have n) p.numbers
          (IsAscending-IsPartitioned p.numbers n up) in
      (
        parts.within,
        λ k lt. (below_at→lt p.numbers n k (parts.before k lt)).1,
        λ k le within. elim (Bool-cases (ltb (get_or p.numbers k 0) n)) [
          | inl less ↦ absurd (
              false≢true
                (sym (parts.after k le) ∙ lt→below_at p.numbers n k within (ltb→lt _ _ less)))
          | inr not_less ↦ not_ltb→le _ _ not_less
        ],
      )
