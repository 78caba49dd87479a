-- ===== src/Base/Fallible.antt =====
-- A Go call that returns a value or an error. An early `return err` is the error of a guard.
use mathlib.Core.Path.{◌≡◌, refl}
use mathlib.Core.Logic.{◌⊎◌, inl, inr}
use mathlib.Core.Bool.{Bool, true, false}
use paycore.Errors.{Error}

pub data Result {ℓ} (A : Type ℓ) : Type ℓ where
  ok : A → Result A
  err : Error → Result A

-- `if bad { return e }`
abbrev pub fail_if : Bool → Error → Result (Unit {0})
fail_if true e = err e
fail_if false e = ok tt

infixl 5 ◌>>=◌
abbrev pub ◌>>=◌ {ℓ ℓ'} : {X : Type ℓ} {Y : Type ℓ'} → Result X → (X → Result Y) → Result Y
ok x >>= next = next x
err failure >>= next = err failure

infixl 5 ◌>>◌
abbrev pub ◌>>◌ {ℓ} : {Y : Type ℓ} → Result (Unit {0}) → Result Y → Result Y
first >> next = first >>= λ _. next

pub Result-cases {ℓ} :
    {X : Type ℓ} (call : Result X)
    → ((x : X) × (call ≡ ok x)) ⊎ ((failure : Error) × (call ≡ err failure))
Result-cases (ok x) = inl (x, refl)
Result-cases (err failure) = inr (failure, refl)
