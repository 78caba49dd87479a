-- ===== src/Base/Every.antt =====
-- A predicate of every element of a list, under the functions that the repositories sort and cut by.
use Prim.Native.Nat.{ℕ, zero, suc}
use mathlib.Core.Path.{◌≡◌}
use mathlib.Core.Logic.{inl, inr}
use mathlib.Core.Bool.{Bool, true}
use mathlib.Core.List.{List, [], ◌∷◌}
use paycore.Base.Dict.{Dict, All, filter_values}
use paycore.Base.Sort.{insert_sorted, sort, take}
use paycore.Base.Tests.{Bool-cases}

abbrev pub Every {ℓ κ} : {A : Type ℓ} → (A → Type κ) → List A → Type κ
Every P [] = Unit
Every P (x ∷ xs) = P x × Every P xs

pub Every-map {ℓ κ κ'} :
    {A : Type ℓ} {P : A → Type κ} {Q : A → Type κ'} (xs : List A)
    → ((x : A) → P x → Q x)
    → Every P xs
    → Every Q xs
Every-map [] f h = tt
Every-map (x ∷ xs) f h = (f x h.0, Every-map xs f h.1)

module _ {ℓ κ} {A : Type ℓ} (P : A → Type κ) where
  pub take-Every : (n : ℕ) (xs : List A) → Every P xs → Every P (take n xs)
  take-Every zero xs h = tt
  take-Every (suc n) [] h = tt
  take-Every (suc n) (x ∷ xs) h = (h.0, take-Every n xs h.1)

  pub insert_sorted-Every :
      (before : A → A → Bool) (x : A) (xs : List A)
      → P x
      → Every P xs
      → Every P (insert_sorted before x xs)
  unfolding insert_sorted
  insert_sorted-Every before x [] h hs = (h, tt)
  insert_sorted-Every before x (y ∷ ys) h hs = elim (Bool-cases (before y x)) [
    | inl b ↦ rw b (hs.0, insert_sorted-Every before x ys h hs.1)
    | inr b ↦ rw b (h, hs)
  ]

  pub sort-Every : (before : A → A → Bool) (xs : List A) → Every P xs → Every P (sort before xs)
  unfolding sort
  sort-Every before [] h = tt
  sort-Every before (x ∷ xs) h =
      insert_sorted-Every before x (sort before xs) h.0 (sort-Every before xs h.1)

  -- What a query keeps satisfies `P`, where each entry that passes its test does.
  pub filter_values-Every :
      (test : A → Bool) (d : Dict A)
      → All (λ _ x. test x ≡ true → P x) d
      → Every P (filter_values test d)
  unfolding filter_values
  filter_values-Every test [] h = tt
  filter_values-Every test ((k, x) ∷ d) h = elim (Bool-cases (test x)) [
    | inl b ↦ rw b (h.0 b, filter_values-Every test d h.1)
    | inr b ↦ rw b (filter_values-Every test d h.1)
  ]
