-- ===== src/Errors.antt =====
-- The errors of vm/vm.go and those of errors.go that a build passes on, and results that may be one.
use ipfw_go.Prelude.{◌≡◌, refl, ◌⊎◌, inl, inr}

-- The errors of a build. `F` is the type of the errors that code outside the package returns.
pub data Cause (F : Type 0) : Type 0 where
  rule_number_order unresolved_jump unsupported_option unsupported_action : Cause F
  unsupported_record unsupported_table_type unsupported_table_value : Cause F
  unresolved_target unresolved_proto unresolved_service : Cause F
  expected_ipv4_network expected_ipv6_network foreign : F → Cause F

pub data Result {ℓ} (F : Type 0) (A : Type ℓ) : Type ℓ where
  ok : A → Result F A
  err : Cause F → Result F A

infixl 5 ◌>>=◌
abbrev pub ◌>>=◌ {ℓ κ} :
    {F : Type 0} {A : Type ℓ} {B : Type κ} → Result F A → (A → Result F B) → Result F B
ok a >>= f = f a
err e >>= f = err e

pub Result-cases {ℓ} :
    {F : Type 0} {A : Type ℓ} (r : Result F A)
    → ((a : A) × (r ≡ ok a)) ⊎ ((e : Cause F) × (r ≡ err e))
Result-cases (ok a) = inl (a, refl)
Result-cases (err e) = inr (e, refl)
