-- ===== src/Payer/Store.antt =====
-- The in-memory payer repository (internal/payer/adapters/memory/repository.go). The first
-- argument of an operation is what `ctx.Err()` returns. An operation holds the store's mutex, so
-- it is one step.
pub mod Versions
use paycore.Base.{Option, none, some, List, Result, ok, err, not, if◌then◌else◌}
use paycore.Base.Int.{pos, add_int64, eqb_ℤ}
use paycore.Base.Text.{Text}
use paycore.Base.Dict.{Dict, lookup, insert, values}
use paycore.Errors.{Error, payer_not_found, duplicate_payer, payer_version_conflict}
use paycore.Payer.{Payer}

abbrev pub Store : Type 0
Store = Dict Payer

unfoldable pub create_payer : Option Error → Payer → Store → Result Payer × Store
create_payer (some e) p s = (err e, s)
create_payer none p s = elim (lookup p.id s) [
  | some _ ↦ (err duplicate_payer, s)
  | none ↦ (ok p, insert p.id p s)
]

unfoldable pub get_payer : Option Error → Text → Store → Result Payer × Store
get_payer (some e) id s = (err e, s)
get_payer none id s = elim (lookup id s) [ some p ↦ (ok p, s) | none ↦ (err payer_not_found, s) ]

-- The order of the result is that of the association list; Go's is unspecified.
unfoldable pub list_payers : Option Error → Store → Result (List Payer) × Store
list_payers (some e) s = (err e, s)
list_payers none s = (ok (values s), s)

unfoldable pub update_payer : Option Error → Payer → Store → Result Payer × Store
update_payer (some e) p s = (err e, s)
update_payer none p s = elim (lookup p.id s) [
  | some current ↦
      if not (eqb_ℤ p.version (add_int64 current.version (pos 1)))
      then (err payer_version_conflict, s)
      else (ok p, insert p.id p s)
  | none ↦ (err payer_not_found, s)
]
