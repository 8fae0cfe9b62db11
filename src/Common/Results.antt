-- ===== src/Common/Results.antt =====
-- Results with an error, and their `do` blocks.
use mathlib.Core.Path.{◌≡◌, refl}
use mathlib.Core.Bool.{Bool, true, false}
use mathlib.Core.Option.{Option, none, some}
use mathlib.Core.Logic.{◌⊎◌, inl, inr}

pub data Result {ℓ} (E : Type 0) (A : Type ℓ) : Type ℓ where
  err : E → Result E A
  ok : A → Result E A

module _ {ℓ κ} {E : Type 0} {A : Type ℓ} {B : Type κ} where
  infixl 5 ◌>>=◌
  abbrev pub ◌>>=◌ : Result E A → (A → Result E B) → Result E B
  err why >>= next = err why
  ok value >>= next = next value

  -- A chain that succeeds has a first step that succeeds.
  pub >>=-eq-ok :
      (step : Result E A) (next : A → Result E B) {last : B}
      → (step >>= next) ≡ ok last
      → (value : A) × (step ≡ ok value) × (next value ≡ ok last)
  >>=-eq-ok (err why) next h = cc
  >>=-eq-ok (ok value) next h = (value, refl, h)

  -- A chain of steps that succeed succeeds.
  pub >>=-returns :
      (step : Result E A) (next : A → Result E B)
      → ((value : A) × (step ≡ ok value))
      → ((value : A) → (last : B) × (next value ≡ ok last))
      → (last : B) × ((step >>= next) ≡ ok last)
  >>=-returns (err why) next h k = cc
  >>=-returns (ok value) next h k = k value

module _ {ℓ} {E : Type 0} {A : Type ℓ} where
  infixl 5 ◌>>◌
  abbrev pub ◌>>◌ : Result E (Unit {0}) → Result E A → Result E A
  check >> rest = check >>= λ _. rest

  abbrev pub or_fail : Option A → E → Result E A
  or_fail (some value) why = ok value
  or_fail none why = err why

  pub or_fail-eq-ok :
      (o : Option A) (why : E) {value : A} → or_fail o why ≡ ok value → o ≡ some value
  or_fail-eq-ok (some x) why h = cc
  or_fail-eq-ok none why h = cc

  pub Result-cases : (r : Result E A) → ((why : E) × (r ≡ err why)) ⊎ ((value : A) × (r ≡ ok value))
  Result-cases (err why) = inl (why, refl)
  Result-cases (ok value) = inr (value, refl)

-- `if (bad) return error(e);`
abbrev pub fail_if : {E : Type 0} → Bool → E → Result E (Unit {0})
fail_if false why = ok tt
fail_if true why = err why
