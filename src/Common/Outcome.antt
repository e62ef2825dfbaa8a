-- ===== src/Common/Outcome.antt =====
-- Fallible code. A call that fails keeps no change of the state: FRAME runs every dispatchable in
-- a storage layer of its own, which is rolled back on an error.
use mathlib.Core.Path.{◌≡◌, refl}
use mathlib.Core.Logic.{◌⊎◌, inl, inr}
use mathlib.Core.Bool.{Bool, true, false}
use mathlib.Core.Option.{Option, none, some}

pub data Result {ℓ} (E : Type 0) (A : Type ℓ) : Type ℓ where
  err : E → Result E A
  ok : A → Result E A

-- `ok_or(e)`
abbrev pub ok_or {ℓ} : {E : Type 0} {A : Type ℓ} → Option A → E → Result E A
ok_or none failure = err failure
ok_or (some found) failure = ok found

-- `ensure!(test, e)`
abbrev pub ensure : {E : Type 0} → Bool → E → Result E (Unit {0})
ensure false failure = err failure
ensure true failure = ok tt

infixl 5 ◌>>=◌
-- The `?` operator, as the `do` notation reads it.
abbrev pub ◌>>=◌ {ℓ κ} :
    {A : Type ℓ} {E : Type 0} {B : Type κ} → Result E A → (A → Result E B) → Result E B
err failure >>= next = err failure
ok found >>= next = next found

infixl 5 ◌>>◌
abbrev pub ◌>>◌ {ℓ} : {E : Type 0} {B : Type ℓ} → Result E (Unit {0}) → Result E B → Result E B
err failure >> rest = err failure
ok _ >> rest = rest

pub Result-cases {ℓ} :
    {E : Type 0} {A : Type ℓ} (r : Result E A)
    → ((failure : E) × (r ≡ err failure)) ⊎ ((found : A) × (r ≡ ok found))
Result-cases (err failure) = inl (failure, refl)
Result-cases (ok found) = inr (found, refl)
