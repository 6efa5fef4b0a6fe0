-- ===== src/Vm/Check/Total.antt =====
-- The scan of the rules ends, and decides what the meaning of the rules says.
use ipfw_go.Prelude.Int.{ℤ, pos, negsuc, max_int}
use ipfw_go.Prelude.{
  ℕ, zero, suc, ◌+◌, ◌-◌, ◌≤◌, ◌<◌, Bool, true, false, List, [], ◌∷◌, Option, none, some,
  if◌then◌else◌, length, get_elem?, lt-length_of_get_elem?, ◌≡◌, refl, sym, ap, arith, Bool-cases,
  inl, inr, ◌⊎◌, Option-cases,
}
use ipfw_go.Rule.{ActionKind}
use ipfw_go.Vm.Check.{
  Verdict, stop, go_to, address_target, skip_to, onward, next_pc, or_default, continue, check_loop,
  check_trace,
}
use ipfw_go.Vm.Fields.Cache.{Reads, read_fields-Reads}
use ipfw_go.Vm.Fields.{Fields, read_fields}
use ipfw_go.Vm.Machine.{Machine}
use ipfw_go.Vm.Match.Body.Meaning.{rule_value, matches-Gives}
use ipfw_go.Vm.Match.Options.Value.{Gives}
use ipfw_go.Vm.Match.Options.{Matched}
use ipfw_go.Vm.Network.{Network, TableRegistry}
use ipfw_go.Vm.Packet.{Context, Packet}
use ipfw_go.Vm.Program.{Rule}

-- The kinds of rule that end a check.
unfoldable pub is_final : ActionKind → Bool
is_final ActionKind.pass = true
is_final ActionKind.deny = true
is_final ActionKind.reset = true
is_final _ = false

unfoldable pub is_skip : ActionKind → Bool
is_skip ActionKind.skip_to = true
is_skip _ = false

-- Every skipto to a number or a label goes forward.
abbrev pub IsForward : List Rule → Type 0
IsForward rules =
    (idx : ℕ) (r : Rule) → get_elem? rules idx ≡ some r → r.kind ≡ ActionKind.skip_to → idx < r.jump

module _ {V4 V6 R F : Type 0} (n4 : Network V4) (n6 : Network V6) (reg : TableRegistry V4 V6 R F)
    (m : Machine V4 V6 R) (ctx : Context) (pkt : Packet) where
  -- The rule that a matching skipto names for the packet.
  abbrev skip_target : Rule → ℕ → ℕ
  skip_target r pc =
      skip_to n4 n6 reg m r ctx (read_fields pkt) pc (rule_value n4 n6 reg m r ctx pkt).1

  -- The check of the packet from a rule on, by what the rules mean: `Decides pc v` says that it
  -- ends with `v`.
  pub data Decides : ℕ → Verdict → Type 0 where
    falls_through :
        (pc : ℕ)
        → get_elem? m.program.rules pc ≡ none
        → Decides pc (record { action = m.verdict; terminated = false; trace = [] })
    passes_over :
        (pc : ℕ) (r : Rule) (v : Verdict)
        → get_elem? m.program.rules pc ≡ some r
        → (rule_value n4 n6 reg m r ctx pkt).0 ≡ false
        → Decides (pc + 1) v
        → Decides pc (record v { trace = record { idx = pc; matched = false } ∷ v.trace })
    goes_on :
        (pc : ℕ) (r : Rule) (v : Verdict)
        → get_elem? m.program.rules pc ≡ some r
        → (rule_value n4 n6 reg m r ctx pkt).0 ≡ true
        → is_final r.kind ≡ false
        → Decides (if is_skip r.kind then skip_target r pc else pc + 1) v
        → Decides pc (record v { trace = record { idx = pc; matched = true } ∷ v.trace })
    decides :
        (pc : ℕ) (r : Rule)
        → get_elem? m.program.rules pc ≡ some r
        → (rule_value n4 n6 reg m r ctx pkt).0 ≡ true
        → is_final r.kind ≡ true
        → Decides pc (record {
          action = or_default n4 n6 reg m (get_elem? m.program.actions pc);
          terminated = true;
          trace = record { idx = pc; matched = true } ∷ [];
        })

  abbrev pub next_of : Rule → ℕ → ℕ
  next_of r pc = if is_skip r.kind then skip_target r pc else pc + 1

  skip_to-read :
      (r : Rule) (pc : ℕ) (target : ℤ) {f : Fields}
      → Reads pkt f
      → skip_to n4 n6 reg m r ctx f pc target
        ≡ skip_to n4 n6 reg m r ctx (read_fields pkt) pc target
  unfolding address_target read_fields
  skip_to-read r pc target rd =
      rw (rd.source, rd.source_family, rd.destination, rd.destination_family)

  -- The switch on the kind, for a rule that matched.
  onward_lem :
      (r : Rule) (pc : ℕ) {f : Fields} (k : ActionKind)
      → Reads pkt f
      → onward n4 n6 reg m r ctx f pc (rule_value n4 n6 reg m r ctx pkt).1 k
        ≡ (if is_final k then stop else go_to (if is_skip k then skip_target r pc else pc + 1))
  unfolding onward is_final is_skip
  onward_lem r pc ActionKind.skip_to rd =
      ap go_to (skip_to-read r pc (rule_value n4 n6 reg m r ctx pkt).1 rd)
  onward_lem r pc ActionKind.pass rd = refl
  onward_lem r pc ActionKind.deny rd = refl
  onward_lem r pc ActionKind.reset rd = refl
  onward_lem r pc ActionKind.unset rd = refl
  onward_lem r pc ActionKind.count rd = refl
  onward_lem r pc ActionKind.check_state rd = refl

  is_skip→skip_to : (k : ActionKind) → is_skip k ≡ true → k ≡ ActionKind.skip_to
  unfolding is_skip
  is_skip→skip_to ActionKind.skip_to h = refl
  is_skip→skip_to _ h = ground arith

  max_int-le : (a : ℤ) (b : ℕ) → b ≤ max_int a b
  max_int-le (pos a) b = omega arith
  max_int-le (negsuc a) b = omega arith

  pub next_of-forward :
      IsForward m.program.rules
      → (pc : ℕ) (r : Rule) → get_elem? m.program.rules pc ≡ some r
      → pc < next_of r pc
  next_of-forward fwd pc r at = elim (Bool-cases (is_skip r.kind)) [
    | inr n ↦ rw n (omega arith)
    | inl y ↦ elim (Bool-cases r.table_arg) [
      | inl arg ↦ rw (y, arg) (omega (arith, max_int-le _ (pc + 1)))
      | inr plain ↦ rw (y, plain) (fwd pc r at (is_skip→skip_to r.kind y))
    ]
  ]

  abbrev Ends : Option Verdict → ℕ → Type 0
  Ends run pc = (v : Verdict) × (run ≡ some v) × Decides pc v

  -- One rule, when the rest of the check ends wherever it goes on.
  continue-Ends :
      (loop : ℕ → Fields → Option Verdict) (pc : ℕ) (r : Rule) (result : Matched)
      → get_elem? m.program.rules pc ≡ some r
      → Gives pkt (rule_value n4 n6 reg m r ctx pkt) result
      → ((pc' : ℕ) (f : Fields)
          → (pc' ≡ pc + 1) ⊎ (pc' ≡ next_of r pc)
          → Reads pkt f
          → Ends (loop pc' f) pc')
      → Ends (continue n4 n6 reg m loop pc result (next_pc n4 n6 reg m r ctx pc result)) pc
  continue-Ends loop pc r (false, target, f) at (h, t, rd) rest =
      let (v, e, d) = rest (pc + 1) f (inl refl) rd in
      rw e (_, refl, passes_over pc r v at (sym h) d)
  continue-Ends loop pc r (true, target, f) at (h, t, rd) rest =
      elim (Bool-cases (is_final r.kind)) [
        | inl final ↦
            rw (t, onward_lem r pc r.kind rd, final) (_, refl, decides pc r at (sym h) final)
        | inr more ↦
            let (v, e, d) = rest (next_of r pc) f (inr refl) rd in
            rw (t, onward_lem r pc r.kind rd, more, e) (_, refl, goes_on pc r v at (sym h) more d)
      ]

  smaller :
      (pc pc' n : ℕ)
      → pc < length m.program.rules
      → pc < pc'
      → length m.program.rules - pc < suc n
      → length m.program.rules - pc' < n
  smaller pc pc' n a b h = omega arith

  goes_later :
      IsForward m.program.rules
      → {pc : ℕ} {r : Rule} {pc' : ℕ} → get_elem? m.program.rules pc ≡ some r
      → (pc' ≡ pc + 1) ⊎ (pc' ≡ next_of r pc)
      → pc < pc'
  goes_later fwd at (inl e) = omega arith
  goes_later fwd {pc} {r} at (inr e) = rw e (next_of-forward fwd pc r at)

  check_loop-Ends :
      IsForward m.program.rules
      → (n pc : ℕ) (f : Fields) → length m.program.rules - pc < n
      → Reads pkt f
      → Ends (check_loop n4 n6 reg m n ctx pkt pc f) pc
  unfolding check_loop
  check_loop-Ends fwd zero pc f h rd = absurd (omega arith)
  check_loop-Ends fwd (suc n) pc f h rd = elim (Option-cases (get_elem? m.program.rules pc)) [
    | inl past ↦ rw past (_, refl, falls_through pc past)
    | inr (r, at) ↦ rw at (
        continue-Ends (check_loop n4 n6 reg m n ctx pkt) pc r _ at
          (matches-Gives n4 n6 reg m r ctx pkt rd)
          (λ pc' f' to rd'.
            check_loop-Ends fwd n pc' f'
              (smaller pc pc' n (lt-length_of_get_elem? _ pc at) (goes_later fwd at to) h) rd'))
  ]

  -- When every skipto goes forward, the check of a packet ends, on fuel for each rule once and one
  -- round more, and decides what the rules mean, with a call of the tracer for each rule that it
  -- reaches.
  pub check_trace-Decides :
      IsForward m.program.rules
      → (v : Verdict) × (check_trace n4 n6 reg m ctx pkt ≡ some v) × Decides 0 v
  unfolding check_trace
  check_trace-Decides fwd =
      check_loop-Ends fwd (length m.program.rules + 1) 0 (read_fields pkt) (omega arith)
        (read_fields-Reads pkt)
