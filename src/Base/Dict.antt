-- ===== src/Base/Dict.antt =====
-- A Go map keyed by strings, as an association list.
use mathlib.Core.Path.{◌≡◌, refl, sym, subst₂}
use mathlib.Core.Logic.{◌≢◌}
use mathlib.Core.Bool.{Bool}
use mathlib.Core.Option.{Option, none, some}
use mathlib.Core.List.{List, [], ◌∷◌}
use native.Mathlib.Omega.{arith}
use paycore.Base.Tests.{if◌then◌else◌}
use paycore.Base.Text.{Text, Text_discrete, text_eq}

abbrev pub Dict {ℓ} : Type ℓ → Type ℓ
Dict V = List (Text × V)

module _ {ℓ} {V : Type ℓ} where
  unfoldable pub lookup : Text → Dict V → Option V
  lookup k [] = none
  lookup k ((j, v) ∷ d) = if text_eq k j then some v else lookup k d

  -- `d[k] = v`
  unfoldable pub insert : Text → V → Dict V → Dict V
  insert k v [] = (k, v) ∷ []
  insert k v (entry ∷ rest) = if text_eq k entry.0 then (k, v) ∷ rest else entry ∷ insert k v rest

  -- The entries in the order of the list; Go's order is unspecified.
  unfoldable pub values : Dict V → List V
  values [] = []
  values (e ∷ d) = e.1 ∷ values d

  -- A loop over a map that keeps the values which pass a test.
  unfoldable pub filter_values : (V → Bool) → Dict V → List V
  filter_values test [] = []
  filter_values test (e ∷ d) =
      let rest = filter_values test d in if test e.1 then e.1 ∷ rest else rest

  -- The first value that passes a test, `WHERE` on a column that is unique.
  unfoldable pub find_value : (V → Bool) → Dict V → Option V
  find_value test [] = none
  find_value test (e ∷ d) = let rest = find_value test d in if test e.1 then some e.1 else rest

  pub lookup-insert :
      (j k : Text) (v : V) (d : Dict V)
      → lookup j (insert k v d) ≡ (if text_eq j k then some v else lookup j d)
  unfolding lookup insert
  lookup-insert j k v [] = refl
  lookup-insert j k v (e ∷ d) = ground (arith, lookup-insert j k v d)

  pub lookup-insert_self : (k : Text) (v : V) (d : Dict V) → lookup k (insert k v d) ≡ some v
  lookup-insert_self k v d = ground (arith, lookup-insert k k v d)

  pub lookup-insert_ne :
      (asked k : Text) (v : V) (d : Dict V)
      → asked ≢ k
      → lookup asked (insert k v d) ≡ lookup asked d
  lookup-insert_ne asked k v d h = ground (arith, lookup-insert asked k v d)

  -- What holds of every entry, and what an insertion must show to keep it.
  abbrev pub Entries {κ} : (Text → V → Type κ) → Dict V → Type (ℓ ⊔ κ)
  Entries P d = (k : Text) (v : V) → lookup k d ≡ some v → P k v

  pub insert-Entries {κ} :
      (P : Text → V → Type κ) (k : Text) (v : V) (d : Dict V) {d' : Dict V}
      → d' ≡ insert k v d
      → P k v
      → ((j : Text) (x : V) → j ≢ k → lookup j d ≡ some x → P j x)
      → Entries P d'
  insert-Entries P k v d {d'} written new old j x e = elim (Text_discrete j k) [
    | yes h ↦ subst₂ P (sym h) (hit h) new
    | no h ↦ old j x h (ground (arith, lookup-insert j k v d))
  ]
    where
      hit : j ≡ k → v ≡ x
      hit h = ground (arith, lookup-insert j k v d)

  -- No key stands twice, as in a Go map.
  abbrev pub IsMap : Dict V → Type ℓ
  IsMap [] = Unit
  IsMap ((k, _) ∷ d) = (lookup k d ≡ none) × IsMap d

  pub insert-IsMap : (k : Text) (v : V) (d : Dict V) → IsMap d → IsMap (insert k v d)
  unfolding insert lookup
  insert-IsMap k v [] h = (refl, tt)
  insert-IsMap k v (e ∷ d) h = ground (arith, insert-IsMap k v d h.1, lookup-insert e.0 k v d)

  -- A predicate of every entry that is listed.
  abbrev pub All {κ} : (Text → V → Type κ) → Dict V → Type κ
  All P [] = Unit
  All P ((k, v) ∷ d) = P k v × All P d

  pub All-map {κ κ'} :
      {P : Text → V → Type κ} {Q : Text → V → Type κ'} (d : Dict V)
      → ((k : Text) (v : V) → P k v → Q k v)
      → All P d
      → All Q d
  All-map [] f h = tt
  All-map (e ∷ d) f h = (f e.0 e.1 h.0, All-map d f h.1)

  -- In a map every entry that is listed is found.
  pub IsMap-listed : (d : Dict V) → IsMap d → All (λ k v. lookup k d ≡ some v) d
  unfolding lookup
  IsMap-listed [] h = tt
  IsMap-listed (e ∷ d) h =
      (ground arith, All-map d (λ k v x. ground (arith, h)) (IsMap-listed d h.1))
