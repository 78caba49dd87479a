-- ===== src/Base/Stateful.antt =====
-- A Go method on a shared state: a step that returns a value or an error, and keeps what it wrote
-- before an error.
use paycore.Base.Fallible.{Result, ok, err}
use paycore.Errors.{Error}
use mathlib.Core.Bool.{Bool, true, false}
use mathlib.Core.List.{List, [], ◌∷◌}
use mathlib.Core.Option.{Option, none}

abbrev pub Stateful : Type 0 → Type 0 → Type 0
Stateful S A = S → Result A × S

module _ {S : Type 0} where
  abbrev pub pure : {A : Type 0} → A → Stateful S A
  pure a w = (ok a, w)

  abbrev pub fail : {A : Type 0} → Error → Stateful S A
  fail e w = (err e, w)

  abbrev pub lift : {A : Type 0} → Result A → Stateful S A
  lift r w = (r, w)

  infixl 5 ◌>>=◌
  abbrev pub ◌>>=◌ : {A B : Type 0} → Stateful S A → (A → Stateful S B) → Stateful S B
  ◌>>=◌ call then w = let (r, w') = call w in elim r [ ok a ↦ then a w' | err e ↦ (err e, w') ]

  infixl 5 ◌>>◌
  abbrev pub ◌>>◌ : {A B : Type 0} → Stateful S A → Stateful S B → Stateful S B
  call >> then = call >>= λ _. then

  abbrev pub fail_if : Bool → Error → Stateful S (Unit {0})
  fail_if true e w = (err e, w)
  fail_if false e w = (ok tt, w)

-- The first answer, or the default, and the answers left.
abbrev pub next {ℓ} : {A : Type ℓ} → List (Option A) → Option A × List (Option A)
next [] = (none, [])
next (x ∷ xs) = (x, xs)
