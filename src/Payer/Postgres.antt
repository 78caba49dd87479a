-- ===== src/Payer/Postgres.antt =====
-- The PostgreSQL payer repository (internal/payer/adapters/postgres/repository.go) on the table
-- payers.
pub mod Refines
use paycore.Base.{
  ℕ, Bool, true, false, not, Option, none, some, List, ltb, ◌==◌, Result, ok, err, if◌then◌else◌,
}
use paycore.Base.Dict.{Dict, lookup, insert, values}
use paycore.Base.Int.{ℤ, pos, sub_int64, eqb_ℤ}
use paycore.Base.Sort.{sort}
use paycore.Base.Text.{Text}
use paycore.Database.{Columns}
use paycore.Errors.{Error, payer_not_found, duplicate_payer, payer_version_conflict}
use paycore.Payer.{Payer}

module _ ⦃c : Columns⦄ where
  abbrev pub kept_payer : Payer → Payer
  kept_payer p = record p {
    currency = c.char3 p.currency;
    created_at = c.timestamptz p.created_at;
    updated_at = c.timestamptz p.updated_at;
  }

  unfoldable pub create_payer_row : Option Error → Payer → Dict Payer → Result Payer × Dict Payer
  create_payer_row (some e) p t = (err e, t)
  create_payer_row none p t = elim (lookup p.id t) [
    | some _ ↦ (err duplicate_payer, t)
    | none ↦ (ok (kept_payer p), insert p.id (kept_payer p) t)
  ]

  unfoldable pub get_payer_row : Option Error → Text → Dict Payer → Result Payer × Dict Payer
  get_payer_row (some e) id t = (err e, t)
  get_payer_row none id t = elim (lookup id t) [
    | some p ↦ (ok p, t)
    | none ↦ (err payer_not_found, t)
  ]

  abbrev pub payer_before : Payer → Payer → Bool
  payer_before p q =
      if p.created_at == q.created_at then c.collates p.id q.id else ltb p.created_at q.created_at

  unfoldable pub list_payer_rows : Option Error → Dict Payer → Result (List Payer) × Dict Payer
  list_payer_rows (some e) t = (err e, t)
  list_payer_rows none t = (ok (sort payer_before (values t)), t)

  -- `SELECT EXISTS`, after an UPDATE that met no row.
  unfoldable pub missed_payer_row : Option Error → Text → Dict Payer → Result Payer × Dict Payer
  missed_payer_row (some e) id t = (err e, t)
  missed_payer_row none id t = elim (lookup id t) [
    | some _ ↦ (err payer_version_conflict, t)
    | none ↦ (err payer_not_found, t)
  ]

  -- `WHERE id = $1 AND version = $7`, then the query that reads the row, or that asks whether it
  -- exists. The second argument is the error of that query; created_at is not set.
  unfoldable pub update_payer_row :
      Option Error → Option Error → Payer → Dict Payer → Result Payer × Dict Payer
  unfolding get_payer_row missed_payer_row
  update_payer_row (some e) later p t = (err e, t)
  update_payer_row none later p t = elim (lookup p.id t) [
    | none ↦ missed_payer_row later p.id t
    | some row ↦
        let p' : Payer = record (kept_payer p) { created_at = row.created_at } in
        if eqb_ℤ row.version (sub_int64 p.version (pos 1))
        then get_payer_row later p.id (insert p.id p' t)
        else missed_payer_row later p.id t
  ]
