-- ===== src/Settlement/Postgres.antt =====
-- The PostgreSQL settlement repository (internal/settlement/adapters/postgres/repository.go) on the
-- tables settlement_batches, settlement_line_items and payments.
use paycore.Base.{
  ℕ, Bool, true, false, not, ◌&&◌, Option, none, some, List, [], ◌∷◌, leb, ltb, ◌==◌, Result, ok,
  err, if◌then◌else◌,
}
use paycore.Base.Dict.{Dict, lookup, insert, filter_values, find_value}
use paycore.Base.Int.{ℤ, pos, pos_part, leb_ℤ}
use paycore.Base.Sort.{sort, take}
use paycore.Base.Text.{Text, text_eq}
use paycore.Database.{Columns, nullable, is_listed}
use paycore.Errors.{
  Error, batch_not_found, duplicate_batch, duplicate_line_item, transaction_required,
  null_captured_at,
}
use paycore.Payment.{Payment, is_captured}
use paycore.Payment.Postgres.{PaymentRow}
use paycore.Settlement.{Batch, LineItem, is_processing}

-- A row of the queries on payments. A captured payment has a time of capture, by a CHECK of the
-- table; a NULL there would be an error of `Scan`.
pub record ClaimedPayment : Type 0 where
  pub payment_id : Text
  pub merchant_id : Text
  pub amount : ℤ
  pub currency : Text
  pub captured_at : ℕ
  pub settlement_batch : Text

pub record ClaimCapturedPaymentsInput : Type 0 where
  pub batch_id : Text
  pub window_start : ℕ
  pub window_end : ℕ
  pub limit : ℤ
  pub now : ℕ

abbrev pub time_of : Option ℕ → ℕ
time_of none = 0
time_of (some t) = t

abbrev pub scanned : Payment → Text → Result ClaimedPayment
scanned p batch_id = elim (p.captured_at) [
  | none ↦ err null_captured_at
  | some t ↦ ok (record {
    payment_id = p.id;
    merchant_id = p.merchant_id;
    amount = p.amount;
    currency = p.currency;
    captured_at = t;
    settlement_batch = batch_id;
  })
]

-- The loop over the rows; it stops at the first error.
unfoldable pub scan_all : Text → List PaymentRow → Result (List ClaimedPayment)
scan_all batch_id [] = ok []
scan_all batch_id (row ∷ rows) = elim (scanned row.payment batch_id) [
  | err e ↦ err e
  | ok c ↦ elim (scan_all batch_id rows) [ err e ↦ err e | ok cs ↦ ok (c ∷ cs) ]
]

abbrev pub is_unclaimed : Option Text → Bool
is_unclaimed none = true
is_unclaimed (some _) = false

-- `WHERE settlement_batch_id = $1 AND status = 'CAPTURED'`
abbrev pub is_claimed_by : Text → PaymentRow → Bool
is_claimed_by batch_id row = elim (row.settlement_batch_id) [
  | none ↦ false
  | some id ↦ text_eq id batch_id && is_captured row.payment.status
]

-- payment_id is UNIQUE.
abbrev pub is_of_payment : Text → LineItem → Bool
is_of_payment payment_id i = text_eq i.payment_id payment_id

abbrev pub is_item_of : Text → LineItem → Bool
is_item_of batch_id i = text_eq i.batch_id batch_id

module _ ⦃c : Columns⦄ where
  abbrev pub kept_batch : Batch → Batch
  kept_batch b = record b {
    window_start = c.timestamptz b.window_start;
    window_end = c.timestamptz b.window_end;
    locked_until = nullable c.timestamptz b.locked_until;
    completed_at = nullable c.timestamptz b.completed_at;
    created_at = c.timestamptz b.created_at;
    updated_at = c.timestamptz b.updated_at;
  }

  abbrev pub kept_line_item : LineItem → LineItem
  kept_line_item i = record i {
    currency = c.char3 i.currency;
    payment_captured = c.timestamptz i.payment_captured;
    created_at = c.timestamptz i.created_at;
  }

  unfoldable pub create_batch_row : Option Error → Batch → Dict Batch → Result Batch × Dict Batch
  create_batch_row (some e) b t = (err e, t)
  create_batch_row none b t = elim (lookup b.id t) [
    | some _ ↦ (err duplicate_batch, t)
    | none ↦ (ok (kept_batch b), insert b.id (kept_batch b) t)
  ]

  unfoldable pub get_batch_row : Option Error → Text → Dict Batch → Result Batch × Dict Batch
  get_batch_row (some e) id t = (err e, t)
  get_batch_row none id t = elim (lookup id t) [
    | some b ↦ (ok b, t)
    | none ↦ (err batch_not_found, t)
  ]

  -- created_at is not among the columns that are set.
  unfoldable pub update_batch_row : Option Error → Batch → Dict Batch → Result Batch × Dict Batch
  update_batch_row (some e) b t = (err e, t)
  update_batch_row none b t = elim (lookup b.id t) [
    | none ↦ (err batch_not_found, t)
    | some row ↦
        let b' = record (kept_batch b) { created_at = row.created_at } in (ok b', insert b.id b' t)
  ]

  abbrev pub is_due_at : Option ℕ → ℕ → Bool
  is_due_at none now = false
  is_due_at (some until) now = leb until (c.timestamptz now)

  -- `WHERE status = 'PROCESSING' AND locked_until <= $1`, of the rows that are not locked.
  abbrev pub is_stale_row : ℕ → List Text → Batch → Bool
  is_stale_row now locked b =
      is_processing b.status && is_due_at b.locked_until now && not (is_listed b.id locked)

  abbrev pub lock_before : Batch → Batch → Bool
  lock_before a b =
      if not (time_of a.locked_until == time_of b.locked_until)
      then ltb (time_of a.locked_until) (time_of b.locked_until)
      else if not (a.created_at == b.created_at)
      then ltb a.created_at b.created_at
      else c.collates a.id b.id

  unfoldable pub list_stale_processing_batches :
      Option Error → List Text → ℕ → ℤ → Dict Batch → Result (List Batch) × Dict Batch
  list_stale_processing_batches e locked now limit t =
      if leb_ℤ limit (pos 0) then (ok [], t) else elim e [
        | some x ↦ (err x, t)
        | none ↦ (
          ok (take (pos_part limit) (sort lock_before (filter_values (is_stale_row now locked) t))),
          t,
        )
      ]

  abbrev pub is_within : ℕ → ℕ → Option ℕ → Bool
  is_within start end none = false
  is_within start end (some t) = leb (c.timestamptz start) t && ltb t (c.timestamptz end)

  -- The WHERE clause of `claimable`, of the rows that are not locked.
  abbrev pub is_claimable_row : ClaimCapturedPaymentsInput → List Text → PaymentRow → Bool
  is_claimable_row input locked row =
      is_captured row.payment.status
      && is_unclaimed row.settlement_batch_id
      && is_within input.window_start input.window_end row.payment.captured_at
      && not (is_listed row.payment.id locked)

  abbrev pub captured_before : PaymentRow → PaymentRow → Bool
  captured_before a b =
      if time_of a.payment.captured_at == time_of b.payment.captured_at
      then c.collates a.payment.id b.payment.id
      else ltb (time_of a.payment.captured_at) (time_of b.payment.captured_at)

  -- `SET settlement_batch_id = $4, updated_at = $5`
  abbrev pub claimed_row : Text → ℕ → PaymentRow → PaymentRow
  claimed_row batch_id now row = record {
    payment = record (row.payment) { updated_at = c.timestamptz now };
    settlement_batch_id = some batch_id;
  }

  unfoldable pub claim_rows : Text → ℕ → List PaymentRow → Dict PaymentRow → Dict PaymentRow
  claim_rows batch_id now [] t = t
  claim_rows batch_id now (row ∷ rows) t =
      claim_rows batch_id now rows (insert row.payment.id (claimed_row batch_id now row) t)

  -- RETURNING gives the rows in the order of the claim here; PostgreSQL's is unspecified.
  unfoldable pub claim_captured_payments :
      Bool
      → Option Error
      → List Text
      → ClaimCapturedPaymentsInput
      → Dict PaymentRow
      → Result (List ClaimedPayment) × Dict PaymentRow
  unfolding scan_all claim_rows
  claim_captured_payments in_tx e locked input t =
      if leb_ℤ input.limit (pos 0)
      then (ok [], t)
      else if not in_tx
      then (err transaction_required, t)
      else elim e [
        | some x ↦ (err x, t)
        | none ↦
            let rows =
              take (pos_part input.limit)
                (sort captured_before (filter_values (is_claimable_row input locked) t)) in
            (scan_all input.batch_id rows, claim_rows input.batch_id input.now rows t)
      ]

  unfoldable pub list_claimed_payments :
      Option Error → Text → Dict PaymentRow → Result (List ClaimedPayment) × Dict PaymentRow
  unfolding scan_all
  list_claimed_payments (some e) batch_id t = (err e, t)
  list_claimed_payments none batch_id t =
      (scan_all batch_id (sort captured_before (filter_values (is_claimed_by batch_id) t)), t)

  unfoldable pub create_line_item :
      Option Error → LineItem → Dict LineItem → Result LineItem × Dict LineItem
  create_line_item (some e) i t = (err e, t)
  create_line_item none i t = elim (lookup i.id t) [
    | some _ ↦ (err duplicate_line_item, t)
    | none ↦ elim (find_value (is_of_payment i.payment_id) t) [
      | some _ ↦ (err duplicate_line_item, t)
      | none ↦ (ok (kept_line_item i), insert i.id (kept_line_item i) t)
    ]
  ]

  abbrev pub item_before : LineItem → LineItem → Bool
  item_before a b =
      if a.created_at == b.created_at then c.collates a.id b.id else ltb a.created_at b.created_at

  unfoldable pub list_line_items :
      Option Error → Text → Dict LineItem → Result (List LineItem) × Dict LineItem
  list_line_items (some e) batch_id t = (err e, t)
  list_line_items none batch_id t =
      (ok (sort item_before (filter_values (is_item_of batch_id) t)), t)
