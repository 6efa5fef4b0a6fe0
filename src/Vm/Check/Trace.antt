-- ===== src/Vm/Check/Trace.antt =====
-- What the tracer of a check sees.
use ipfw_go.Prelude.{
  ℕ, ◌+◌, ◌≤◌, true, List, [], ◌∷◌, some, get_elem?, ◌≡◌, refl, sym, ◌∙◌, subst, arith, inl, inr,
  ◌⊎◌,
}
use mathlib.Core.Option.{some-injective}
use ipfw_go.Vm.Check.Total.{
  IsForward, Decides, falls_through, passes_over, goes_on, decides, next_of, next_of-forward,
  check_trace-Decides,
}
use ipfw_go.Vm.Check.{Traced, Verdict, check_trace}
use ipfw_go.Vm.Machine.{Machine}
use ipfw_go.Vm.Match.Body.Meaning.{rule_value}
use ipfw_go.Vm.Network.{Network, TableRegistry}
use ipfw_go.Vm.Packet.{Context, Packet}
use ipfw_go.Vm.Program.{Rule}

module _ {V4 V6 R F : Type 0} (n4 : Network V4) (n6 : Network V6) (reg : TableRegistry V4 V6 R F)
    (m : Machine V4 V6 R) (ctx : Context) (pkt : Packet) where
  -- A call of the tracer is about a rule of the program, and tells what the rule means.
  abbrev pub IsHonest : Traced → Type 0
  IsHonest t =
      (r : Rule) × (get_elem? m.program.rules t.idx ≡ some r)
      × (t.matched ≡ (rule_value n4 n6 reg m r ctx pkt).0)

  -- The calls of the tracer from a rule on: honest, and in the order of the rules.
  abbrev pub IsTrace : ℕ → List Traced → Type 0
  IsTrace pc [] = Unit
  IsTrace pc (t ∷ ts) = (pc ≤ t.idx) × IsHonest t × IsTrace (t.idx + 1) ts

  IsTrace-le : (a b : ℕ) (ts : List Traced) → a ≤ b → IsTrace b ts → IsTrace a ts
  IsTrace-le a b [] h i = i
  IsTrace-le a b (t ∷ ts) h (le, honest, more) = (omega arith, honest, more)

  -- A rule gave the verdict, or it is the default one.
  abbrev pub IsAnswer : Verdict → Type 0
  IsAnswer v = (v.terminated ≡ true) ⊎ (v.action ≡ m.verdict)

  goes_on-le :
      IsForward m.program.rules
      → (pc : ℕ) (r : Rule) → get_elem? m.program.rules pc ≡ some r
      → pc + 1 ≤ next_of n4 n6 reg m ctx pkt r pc
  goes_on-le fwd pc r at = omega (arith, next_of-forward n4 n6 reg m ctx pkt fwd pc r at)

  Decides-IsTrace :
      IsForward m.program.rules
      → (pc : ℕ) (v : Verdict) → Decides n4 n6 reg m ctx pkt pc v
      → IsTrace pc v.trace × IsAnswer v
  Decides-IsTrace fwd _ _ (falls_through pc at) = (tt, inr refl)
  Decides-IsTrace fwd _ _ (passes_over pc r v at misses d) =
      let (tr, an) = Decides-IsTrace fwd (pc + 1) v d in
      ((omega arith, (r, at, sym misses), tr), an)
  Decides-IsTrace fwd _ _ (goes_on pc r v at holds more d) =
      let (tr, an) = Decides-IsTrace fwd _ v d in
      (
        (
          omega arith,
          (r, at, sym holds),
          IsTrace-le (pc + 1) _ v.trace (goes_on-le fwd pc r at) tr,
        ),
        an,
      )
  Decides-IsTrace fwd _ _ (decides pc r at holds final) =
      ((omega arith, (r, at, sym holds), tt), inl refl)

  -- When every skipto goes forward, the rules that the tracer of a check sees come in the order of
  -- the program, none twice, each said to match exactly when it holds for the packet, and a verdict
  -- that no rule gave is the default one.
  pub check_trace-IsTrace :
      IsForward m.program.rules
      → (v : Verdict) → check_trace n4 n6 reg m ctx pkt ≡ some v
      → IsTrace 0 v.trace × IsAnswer v
  check_trace-IsTrace fwd v e =
      let (w, e', d) = check_trace-Decides n4 n6 reg m ctx pkt fwd in
      subst (λ x. IsTrace 0 x.trace × IsAnswer x) (some-injective w v (sym e' ∙ e))
        (Decides-IsTrace fwd 0 w d)
