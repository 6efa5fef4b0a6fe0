-- ===== src/Vm/Match/Ports.antt =====
-- vm/vm.go: `matchPorts` on a list under one `not`.
use ipfw_go.Prelude.{
  ℕ, Bool, ◌&&◌, List, [], ◌∷◌, leb, any, All, ◌!=◌, ◌≡◌, refl, arith, Bool-cases, inl, inr,
}
use ipfw_go.Rule.{PortNumberMatch}
use ipfw_go.Vm.Match.{ports_loop, match_ports}

-- Whether the port is in the range.
abbrev pub is_in : ℕ → PortNumberMatch → Bool
is_in port m = leb m.lo port && leb port m.hi

-- Every range of the list is under the same `not`, or under none.
abbrev pub HaveNeg : Bool → List PortNumberMatch → Type 0
HaveNeg neg ms = All (λ m. m.neg ≡ neg) ms

ports_loop-any :
    (neg : Bool) (ms : List PortNumberMatch) (port : ℕ)
    → HaveNeg neg ms
    → ports_loop neg ms port ≡ (any (is_in port) ms != neg)
unfolding ports_loop
ports_loop-any neg [] port h = ground arith
ports_loop-any neg (m ∷ ms) port (e, h) = elim (Bool-cases (is_in port m)) [
  | inl hit ↦ rw (hit, e) (ground arith)
  | inr miss ↦ rw miss (ports_loop-any neg ms port h)
]

-- A list of ports that is not empty and under one `not`, or under none, takes a port exactly when it
-- is in one of the ranges, and under the `not` exactly when it is in none.
pub match_ports-any :
    (m : PortNumberMatch) (ms : List PortNumberMatch) (port : ℕ)
    → HaveNeg m.neg ms
    → match_ports (m ∷ ms) port ≡ (any (is_in port) (m ∷ ms) != m.neg)
unfolding match_ports
match_ports-any m ms port h = ports_loop-any m.neg (m ∷ ms) port (refl, h)
