-- ===== src/Payment/Postgres.antt =====
-- The PostgreSQL payment repository (internal/payment/adapters/postgres/repository.go) on the tables
-- payments and payment_holds.
pub mod Holds
use paycore.Base.{
  ℕ, Bool, not, ◌&&◌, Option, none, some, List, map, leb, ltb, ◌==◌, Result, ok, err, if◌then◌else◌,
}
use paycore.Base.Dict.{Dict, lookup, insert, filter_values, find_value}
use paycore.Base.Int.{ℤ, pos, pos_part, leb_ℤ}
use paycore.Base.Sort.{sort, take}
use paycore.Base.Text.{Text, text_eq}
use paycore.Database.{Columns, nullable, is_listed}
use paycore.Errors.{
  Error, payment_not_found, duplicate_payment, hold_not_found, duplicate_hold, unique_violation,
}
use paycore.Payment.{Payment, Hold, is_authorized}

-- A row of payments: the payment, and the column that the settlement adds.
pub record PaymentRow : Type 0 where
  pub payment : Payment
  pub settlement_batch_id : Option Text

-- The tables payments and payment_holds.
pub record PaymentTables : Type 0 where
  pub payments : Dict PaymentRow
  pub holds : Dict Hold

abbrev pub limit_or_hundred : ℤ → ℕ
limit_or_hundred limit = if leb_ℤ limit (pos 0) then 100 else pos_part limit

-- payment_id is UNIQUE.
abbrev pub holds_payment : Text → Hold → Bool
holds_payment payment_id h = text_eq h.payment_id payment_id

abbrev pub holds_payment_too : Hold → Hold → Bool
holds_payment_too h other = text_eq other.payment_id h.payment_id && not (text_eq other.id h.id)

module _ ⦃c : Columns⦄ where
  -- What the columns keep of a payment and of a hold.
  abbrev pub kept_payment : Payment → Payment
  kept_payment p = record p {
    currency = c.char3 p.currency;
    authorized_at = c.timestamptz p.authorized_at;
    expires_at = c.timestamptz p.expires_at;
    captured_at = nullable c.timestamptz p.captured_at;
    settled_at = nullable c.timestamptz p.settled_at;
    created_at = c.timestamptz p.created_at;
    updated_at = c.timestamptz p.updated_at;
  }

  abbrev pub kept_hold : Hold → Hold
  kept_hold h = record h {
    currency = c.char3 h.currency;
    created_at = c.timestamptz h.created_at;
    updated_at = c.timestamptz h.updated_at;
  }

  unfoldable pub create_payment_row :
      Option Error → Payment → Dict PaymentRow → Result Payment × Dict PaymentRow
  create_payment_row (some e) p t = (err e, t)
  create_payment_row none p t = elim (lookup p.id t) [
    | some _ ↦ (err duplicate_payment, t)
    | none ↦
        let row : PaymentRow = record { payment = kept_payment p; settlement_batch_id = none } in
        (ok row.payment, insert p.id row t)
  ]

  unfoldable pub get_payment_row :
      Option Error → Text → Dict PaymentRow → Result Payment × Dict PaymentRow
  get_payment_row (some e) id t = (err e, t)
  get_payment_row none id t = elim (lookup id t) [
    | some row ↦ (ok row.payment, t)
    | none ↦ (err payment_not_found, t)
  ]

  -- `WHERE id = $1`; created_at and settlement_batch_id are not among the columns that are set.
  unfoldable pub update_payment_row :
      Option Error → Payment → Dict PaymentRow → Result Payment × Dict PaymentRow
  update_payment_row (some e) p t = (err e, t)
  update_payment_row none p t = elim (lookup p.id t) [
    | none ↦ (err payment_not_found, t)
    | some row ↦
        let p' = record (kept_payment p) { created_at = row.payment.created_at } in
        (ok p', insert p.id (record row { payment = p' }) t)
  ]

  -- `WHERE status = 'AUTHORIZED' AND expires_at <= $1`, of the rows that are not locked.
  abbrev pub is_expired_row : ℕ → List Text → PaymentRow → Bool
  is_expired_row now locked row =
      is_authorized row.payment.status
      && leb row.payment.expires_at (c.timestamptz now)
      && not (is_listed row.payment.id locked)

  abbrev pub row_expires_before : PaymentRow → PaymentRow → Bool
  row_expires_before a b =
      if a.payment.expires_at == b.payment.expires_at
      then c.collates a.payment.id b.payment.id
      else ltb a.payment.expires_at b.payment.expires_at

  unfoldable pub list_expired_payment_rows :
      Option Error → List Text → ℕ → ℤ → Dict PaymentRow → Result (List Payment) × Dict PaymentRow
  list_expired_payment_rows (some e) locked now limit t = (err e, t)
  list_expired_payment_rows none locked now limit t =
      let due = sort row_expires_before (filter_values (is_expired_row now locked) t) in
      (ok (map (λ row. row.payment) (take (limit_or_hundred limit) due)), t)

  unfoldable pub create_hold_row : Option Error → Hold → Dict Hold → Result Hold × Dict Hold
  create_hold_row (some e) h t = (err e, t)
  create_hold_row none h t = elim (lookup h.id t) [
    | some _ ↦ (err duplicate_hold, t)
    | none ↦ elim (find_value (holds_payment h.payment_id) t) [
      | some _ ↦ (err duplicate_hold, t)
      | none ↦ (ok (kept_hold h), insert h.id (kept_hold h) t)
    ]
  ]

  unfoldable pub get_hold_row : Option Error → Text → Dict Hold → Result Hold × Dict Hold
  get_hold_row (some e) id t = (err e, t)
  get_hold_row none id t = elim (lookup id t) [
    | some h ↦ (ok h, t)
    | none ↦ (err hold_not_found, t)
  ]

  unfoldable pub get_hold_row_by_payment_id :
      Option Error → Text → Dict Hold → Result Hold × Dict Hold
  get_hold_row_by_payment_id (some e) payment_id t = (err e, t)
  get_hold_row_by_payment_id none payment_id t = elim (find_value (holds_payment payment_id) t) [
    | some h ↦ (ok h, t)
    | none ↦ (err hold_not_found, t)
  ]

  unfoldable pub update_hold_row : Option Error → Hold → Dict Hold → Result Hold × Dict Hold
  update_hold_row (some e) h t = (err e, t)
  update_hold_row none h t = elim (lookup h.id t) [
    | none ↦ (err hold_not_found, t)
    | some row ↦ elim (find_value (holds_payment_too h) t) [
      | some _ ↦ (err unique_violation, t)
      | none ↦
          let h' = record (kept_hold h) { created_at = row.created_at } in (ok h', insert h.id h' t)
    ]
  ]
