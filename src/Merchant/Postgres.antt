-- ===== src/Merchant/Postgres.antt =====
-- The PostgreSQL merchant repository (internal/merchant/adapters/postgres/repository.go) on the
-- table merchants.
use paycore.Base.{Bool, Option, none, some, List, ltb, ◌==◌, Result, ok, err, if◌then◌else◌}
use paycore.Base.Dict.{Dict, lookup, insert, values}
use paycore.Base.Sort.{sort}
use paycore.Base.Text.{Text}
use paycore.Database.{Columns}
use paycore.Errors.{Error, merchant_not_found, duplicate_merchant}
use paycore.Merchant.{Merchant}

module _ ⦃c : Columns⦄ where
  abbrev pub kept_merchant : Merchant → Merchant
  kept_merchant m = record m {
    settlement_currency = c.char3 m.settlement_currency;
    created_at = c.timestamptz m.created_at;
    updated_at = c.timestamptz m.updated_at;
  }

  unfoldable pub create_merchant_row :
      Option Error → Merchant → Dict Merchant → Result Merchant × Dict Merchant
  create_merchant_row (some e) m t = (err e, t)
  create_merchant_row none m t = elim (lookup m.id t) [
    | some _ ↦ (err duplicate_merchant, t)
    | none ↦ (ok (kept_merchant m), insert m.id (kept_merchant m) t)
  ]

  unfoldable pub get_merchant_row :
      Option Error → Text → Dict Merchant → Result Merchant × Dict Merchant
  get_merchant_row (some e) id t = (err e, t)
  get_merchant_row none id t = elim (lookup id t) [
    | some m ↦ (ok m, t)
    | none ↦ (err merchant_not_found, t)
  ]

  abbrev pub merchant_before : Merchant → Merchant → Bool
  merchant_before a b =
      if a.created_at == b.created_at then c.collates a.id b.id else ltb a.created_at b.created_at

  unfoldable pub list_merchant_rows :
      Option Error → Dict Merchant → Result (List Merchant) × Dict Merchant
  list_merchant_rows (some e) t = (err e, t)
  list_merchant_rows none t = (ok (sort merchant_before (values t)), t)
