-- ===== src/Base/Distinct.antt =====
-- Lists without two elements of one key, under the functions that the repositories sort and cut by.
use Prim.Native.Nat.{ℕ, zero, suc}
use mathlib.Core.Path.{◌≡◌, ◌∙◌, sym}
use mathlib.Core.Logic.{◌≢◌, inl, inr}
use mathlib.Core.Bool.{Bool, true}
use mathlib.Core.Option.{none, some}
use mathlib.Core.List.{List, [], ◌∷◌, map}
use native.Mathlib.Omega.{arith}
use paycore.Base.Dict.{Dict, All, IsMap, IsMap-listed, lookup, filter_values}
use paycore.Base.Every.{Every, insert_sorted-Every, sort-Every, take-Every, filter_values-Every}
use paycore.Base.Sort.{insert_sorted, sort, take}
use paycore.Base.Tests.{Bool-cases}
use paycore.Base.Text.{Text}

module _ {ℓ} {A : Type ℓ} (key : A → Text) where
  abbrev pub Distinct : List A → Type 0
  Distinct [] = Unit
  Distinct (x ∷ xs) = Every (λ y. key y ≢ key x) xs × Distinct xs

  pub take-Distinct : (n : ℕ) (xs : List A) → Distinct xs → Distinct (take n xs)
  take-Distinct zero xs d = tt
  take-Distinct (suc n) [] d = tt
  take-Distinct (suc n) (x ∷ xs) d =
      (take-Every (λ y. key y ≢ key x) n xs d.0, take-Distinct n xs d.1)

  insert_sorted-Distinct :
      (before : A → A → Bool) (x : A) (xs : List A)
      → Every (λ y. key y ≢ key x) xs
      → Distinct xs
      → Distinct (insert_sorted before x xs)
  unfolding insert_sorted
  insert_sorted-Distinct before x [] h d = (tt, tt)
  insert_sorted-Distinct before x (y ∷ ys) h d = elim (Bool-cases (before y x)) [
    | inl b ↦ rw b (
      insert_sorted-Every (λ z. key z ≢ key y) before x ys (λ e. h.0 (sym e)) d.0,
      insert_sorted-Distinct before x ys h.1 d.1,
    )
    | inr b ↦ rw b (h, d)
  ]

  pub sort-Distinct :
      (before : A → A → Bool) (xs : List A) → Distinct xs → Distinct (sort before xs)
  unfolding sort
  sort-Distinct before [] d = tt
  sort-Distinct before (x ∷ xs) d =
      insert_sorted-Distinct before x (sort before xs)
        (sort-Every (λ y. key y ≢ key x) before xs d.0) (sort-Distinct before xs d.1)

  -- Entries that a map finds, where it finds none under `k`.
  others :
      (test : A → Bool) (k : Text) (x : A) (d e : Dict A)
      → All (λ j y. lookup j e ≡ some y) d
      → All (λ j y. key y ≡ j) d
      → lookup k e ≡ none
      → key x ≡ k
      → All (λ j y. test y ≡ true → key y ≢ key x) d
  others test k x [] e found keyed free at = tt
  others test k x ((j, y) ∷ d) e found keyed free at = (
    λ _ same. ground (arith, found.0, keyed.0, free),
    others test k x d e found.1 keyed.1 free at,
  )

  -- The values of a map in which each stands under its key.
  pub filter_values-Distinct :
      (test : A → Bool) (d : Dict A)
      → IsMap d
      → All (λ k x. key x ≡ k) d
      → Distinct (filter_values test d)
  unfolding filter_values lookup
  filter_values-Distinct test [] m h = tt
  filter_values-Distinct test ((k, x) ∷ d) m h = elim (Bool-cases (test x)) [
    | inl b ↦ rw b (
      filter_values-Every (λ y. key y ≢ key x) test d
          (others test k x d d (IsMap-listed d m.1) h.1 m.0 h.0),
      filter_values-Distinct test d m.1 h.1,
    )
    | inr b ↦ rw b (filter_values-Distinct test d m.1 h.1)
  ]

map_ne {ℓ κ} :
    {A : Type ℓ} {B : Type κ} (key : A → Text) (key' : B → Text) (f : A → B) (x : A) (xs : List A)
    → ((x : A) → key' (f x) ≡ key x)
    → Every (λ y. key y ≢ key x) xs
    → Every (λ y. key' y ≢ key' (f x)) (map f xs)
map_ne key key' f x [] same h = tt
map_ne key key' f x (y ∷ ys) same h =
    (λ at. h.0 (sym (same y) ∙ at ∙ same x), map_ne key key' f x ys same h.1)

pub map-Distinct {ℓ κ} :
    {A : Type ℓ} {B : Type κ} (key : A → Text) (key' : B → Text) (f : A → B) (xs : List A)
    → ((x : A) → key' (f x) ≡ key x)
    → Distinct key xs
    → Distinct key' (map f xs)
map-Distinct key key' f [] same d = tt
map-Distinct key key' f (x ∷ xs) same d =
    (map_ne key key' f x xs same d.0, map-Distinct key key' f xs same d.1)
